-- ===== src/Paging.antt =====
-- The pages of the manifest: write_manifest of native/transfer_core/src/outgoing.rs and read_manifest
-- of native/transfer_core/src/incoming.rs. The text of a UUID is the parameter `to_text`.
-- `pages_of` runs on fuel, one unit for each entry, since a page takes at least one. `read_pages` has one unit for each number of a
-- page; behind the last of them `checked_add` fails.
pub mod Read
use transfer_assistant.Prelude.{
  ℕ, zero, suc, ◌+◌, ◌-◌, ◌*◌, ◌%◌, ◌^◌, Bool, true, false, not, ◌||◌, List, [], ◌∷◌, ◌++◌, map,
  Option, Result, ok, err, ◌>>=◌, map_err, Text, ◌=ₜ◌, ℤ, pos, negsuc, any, leb, ◌==◌,
  if◌then◌else◌, length, take, drop,
}
use transfer_assistant.Io.{Reader, Writer}
use transfer_assistant.Manifest.{EntryKind, file, directory}
use transfer_assistant.Protocol.{Codec, write_envelope, read_envelope}
use transfer_assistant.Protocol.Messages.{Envelope, ManifestPage, WireEntry, manifest_page_payload}
use transfer_assistant.Wire.{
  LanError, protocol_error, invalid_manifest_page, invalid_manifest_kind, duplicate_item_id,
  envelope, expect_manifest,
}

abbrev pub manifest_page_entries : ℕ
manifest_page_entries = 1000

-- An open file is the number of its handle.
pub record OutgoingEntry : Type 0 where
  pub item_id : Text
  pub relative_path : Text
  pub kind : EntryKind
  pub size : ℕ
  pub modified_unix_ms : ℤ
  pub source_revision : Text
  pub source_path : Option Text
  pub persistent_source : Option Text
  pub source_file : Option ℕ
  pub random_access : Bool

pub record IncomingEntry : Type 0 where
  pub item_id : Text
  pub relative_path : Text
  pub kind : EntryKind
  pub size : ℕ
  pub modified_unix_ms : ℤ
  pub source_revision : Text

-- `as i32` and `try_from` of the message's enumeration.
abbrev pub kind_code : EntryKind → ℤ
kind_code file = pos 1
kind_code directory = pos 2

abbrev pub kind_of : ℤ → Result LanError EntryKind
kind_of (pos n) =
    if n == 1 then ok file else if n == 2 then ok directory else err invalid_manifest_kind
kind_of (negsuc n) = err invalid_manifest_kind

abbrev pub to_wire : OutgoingEntry → WireEntry
to_wire e = record {
  item_id = OutgoingEntry.item_id e;
  relative_path = OutgoingEntry.relative_path e;
  kind = kind_code e.kind;
  size = OutgoingEntry.size e;
  modified_unix_ms = OutgoingEntry.modified_unix_ms e;
  source_revision = OutgoingEntry.source_revision e;
  random_access = e.random_access;
}

unfoldable pub from_wire : List WireEntry → Result LanError (List IncomingEntry)
from_wire [] = ok []
from_wire (e ∷ rest) = do
  kind ← kind_of (WireEntry.kind e)
  others ← from_wire rest
  ok (
      record {
        item_id = WireEntry.item_id e;
        relative_path = WireEntry.relative_path e;
        kind = kind;
        size = WireEntry.size e;
        modified_unix_ms = WireEntry.modified_unix_ms e;
        source_revision = WireEntry.source_revision e;
      }
      ∷ others)

-- No id stands twice.
abbrev pub has_unique_ids : List IncomingEntry → Bool
has_unique_ids [] = true
has_unique_ids (e ∷ rest) =
    let others = has_unique_ids rest in
    if any (λ x. IncomingEntry.item_id x =ₜ IncomingEntry.item_id e) rest then false else others

module _ (to_text : ℕ → Text) (transfer_id : ℕ) where
  abbrev pub page_of : ℕ → ℕ → List OutgoingEntry → ManifestPage
  page_of index total page = record {
    transfer_id = to_text transfer_id;
    page_index = index % 2 ^ 32;
    is_last = leb total ((index + 1) * manifest_page_entries);
    entries = map to_wire page;
  }

  -- The pages from an index on.
  unfoldable pub pages_of : ℕ → ℕ → ℕ → List OutgoingEntry → List Envelope
  pages_of fuel index total [] = []
  pages_of zero index total (e ∷ es) = []
  pages_of (suc fuel) index total (e ∷ es) =
      envelope (manifest_page_payload (page_of index total (take manifest_page_entries (e ∷ es))))
      ∷ pages_of fuel (index + 1) total (drop manifest_page_entries (e ∷ es))

  module _ (codec : Codec Envelope) where
    unfoldable pub write_pages : Writer → List Envelope → Result LanError Writer
    write_pages writer [] = ok writer
    write_pages writer (page ∷ rest) = do
      w1 ← map_err protocol_error (write_envelope codec writer page)
      write_pages w1 rest

    unfoldable pub write_manifest : Writer → List OutgoingEntry → Result LanError Writer
    unfolding write_pages pages_of
    write_manifest writer entries =
        write_pages writer (pages_of (length entries) 0 (length entries) entries)

    unfoldable pub read_pages :
        ℕ → ℕ → Reader → List IncomingEntry → Result LanError (List IncomingEntry × Reader)
    read_pages zero expected_page stream entries = err invalid_manifest_page
    read_pages (suc fuel) expected_page stream entries = do
      (received, rest) ← map_err protocol_error (read_envelope codec stream)
      page ← expect_manifest received
      (if not (ManifestPage.transfer_id page =ₜ to_text transfer_id)
            || not (page.page_index == expected_page)
          then err invalid_manifest_page
          else (do
            more ← from_wire (ManifestPage.entries page)
            (if page.is_last
                then ok (entries ++ more, rest)
                else read_pages fuel (expected_page + 1) rest (entries ++ more))))

    unfoldable pub read_manifest : Reader → Result LanError (List IncomingEntry × Reader)
    unfolding read_pages
    read_manifest stream = do
      (entries, rest) ← read_pages (2 ^ 32) 0 stream []
      (if has_unique_ids entries then ok (entries, rest) else err duplicate_item_id)
