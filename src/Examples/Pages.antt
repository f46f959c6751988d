-- ===== src/Examples/Pages.antt =====
-- A manifest of a folder and a file, written and read.
use transfer_assistant.Prelude.{
  ◌≡◌, refl, ok, none, List, [], ◌∷◌, ◌++◌, map, ℕ, arith, text, pos, false, true,
}
use transfer_assistant.Io.{Writer, IoError, timed_out, write_all, to_be_bytes}
use transfer_assistant.Manifest.{file, directory}
use transfer_assistant.Protocol.{Codec, write_envelope}
use transfer_assistant.Protocol.Messages.{Envelope, manifest_page_payload}
use transfer_assistant.Wire.{envelope}
use transfer_assistant.Paging.{
  OutgoingEntry, page_of, pages_of, write_pages, write_manifest, read_manifest,
}
use transfer_assistant.Paging.Read.{received, read_manifest-write_manifest}

abbrev folder : OutgoingEntry
folder = record {
  item_id = text "a";
  relative_path = text "docs";
  kind = directory;
  size = 0;
  modified_unix_ms = pos 5;
  source_revision = text "";
  source_path = none;
  persistent_source = none;
  source_file = none;
  random_access = false;
}

abbrev note : OutgoingEntry
note = record {
  item_id = text "b";
  relative_path = text "docs/note";
  kind = file;
  size = 3;
  modified_unix_ms = pos 6;
  source_revision = text "3:6";
  source_path = none;
  persistent_source = none;
  source_file = none;
  random_access = true;
}

abbrev sent_page : Envelope
sent_page = envelope (manifest_page_payload (page_of (λ id. text "t") 1 0 2 (folder ∷ note ∷ [])))

-- A codec that knows one message.
abbrev page_codec : Codec Envelope
page_codec = record { encode_to_vec = λ m. 8 ∷ 1 ∷ []; decode = λ bytes. ok sent_page }

abbrev before : Writer
before = record { written = 9 ∷ []; room = 100; broken_by = timed_out }

abbrev after : Writer
after = record { written = 9 ∷ 0 ∷ 0 ∷ 0 ∷ 2 ∷ 8 ∷ 1 ∷ []; room = 94; broken_by = timed_out }

read_manifest-write_manifest_example :
    (sent : List ℕ) × (Writer.written after ≡ 9 ∷ sent)
    × ((rest : List ℕ) (broken : IoError)
        → read_manifest
            (λ id. text "t")
            1
            page_codec
            (record { bytes = sent ++ rest; broken_by = broken })
          ≡ ok (map received (folder ∷ note ∷ []), record { bytes = rest; broken_by = broken }))
unfolding write_manifest write_pages pages_of write_envelope write_all to_be_bytes
read_manifest-write_manifest_example =
    read_manifest-write_manifest (λ id. text "t") 1 page_codec folder (note ∷ []) before after
      (omega arith) refl (refl, tt) refl
