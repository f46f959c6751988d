-- ===== src/Paging/Read.antt =====
-- Manifests across a stream: what write_manifest of native/transfer_core/src/outgoing.rs wrote,
-- read_manifest of native/transfer_core/src/incoming.rs reads.
use mathlib.Core.Path.{subst}
use mathlib.Core.List.{append_assoc, append-nil}
use transfer_assistant.Prelude.{
  ℕ, zero, suc, ◌+◌, ◌-◌, ◌*◌, ◌^◌, ◌%◌, ◌≤◌, ◌<◌, ◌≡◌, refl, sym, ap, ◌∙◌, List, [], ◌∷◌, ◌++◌,
  map, ok, map_err, >>=-eq-ok, map_err-eq-ok, leb, length, take, drop, arith, length-drop,
  take-append-drop, ◌⊎◌, inl, inr, true, false, Text, ◌=ₜ◌, ◌==◌, All, if◌then◌else◌,
}
use transfer_assistant.Io.{Writer, IoError}
use transfer_assistant.Manifest.{file, directory}
use transfer_assistant.Protocol.{Codec, write_envelope, max_control_frame_bytes}
use transfer_assistant.Protocol.Messages.{Envelope, manifest_page_payload}
use transfer_assistant.Protocol.Framing.{frame, write_envelope-frame, read_envelope-frame}
use transfer_assistant.Wire.{protocol_error, envelope, expect_manifest}
use transfer_assistant.Paging.{
  manifest_page_entries, OutgoingEntry, IncomingEntry, kind_of, kind_code, to_wire, from_wire,
  has_unique_ids, page_of, pages_of, write_pages, write_manifest, read_pages, read_manifest,
}

=ₜ-refl : (t : Text) → (t =ₜ t) ≡ true
=ₜ-refl [] = refl
=ₜ-refl (x ∷ t) = rw (=ₜ-refl t) (ground arith)

-- An entry as the receiver keeps it.
abbrev pub received : OutgoingEntry → IncomingEntry
received e = record {
  item_id = OutgoingEntry.item_id e;
  relative_path = OutgoingEntry.relative_path e;
  kind = OutgoingEntry.kind e;
  size = OutgoingEntry.size e;
  modified_unix_ms = OutgoingEntry.modified_unix_ms e;
  source_revision = OutgoingEntry.source_revision e;
}

kind_of-kind_code : (k : _) → kind_of (kind_code k) ≡ ok k
kind_of-kind_code file = refl
kind_of-kind_code directory = refl

from_wire-to_wire : (es : List OutgoingEntry) → from_wire (map to_wire es) ≡ ok (map received es)
unfolding from_wire
from_wire-to_wire [] = refl
from_wire-to_wire (e ∷ es) =
    rw (kind_of-kind_code (OutgoingEntry.kind e), from_wire-to_wire es) refl

split_cases :
    (xs : List OutgoingEntry)
    → (xs ≡ []) ⊎ ((x : OutgoingEntry) × (ys : List OutgoingEntry) × (xs ≡ x ∷ ys))
split_cases [] = inl refl
split_cases (x ∷ xs) = inr (x, xs, refl)

map-append :
    (xs ys : List OutgoingEntry) → map received (xs ++ ys) ≡ map received xs ++ map received ys
map-append [] ys = refl
map-append (x ∷ xs) ys = ap (λ r. received x ∷ r) (map-append xs ys)

leb-le : (a b : ℕ) → a ≤ b → leb a b ≡ true
leb-le a b h = ground arith

leb-gt : (a b : ℕ) → b < a → leb a b ≡ false
leb-gt a b h = ground arith

joined :
    (acc : List IncomingEntry) (page others all left : List OutgoingEntry)
    → page ++ others ≡ all
    → others ≡ left
    → (acc ++ map received page) ++ map received left ≡ acc ++ map received all
joined acc page others all left whole e =
    append_assoc acc (map received page) (map received left)
    ∙ ap (λ r. acc ++ r)
        (sym (map-append page left) ∙ ap (map received) (ap (λ r. page ++ r) (sym e) ∙ whole))

module _ (to_text : ℕ → Text) (transfer_id : ℕ) (codec : Codec Envelope) where
  -- The envelopes are decoded from their encodings.
  abbrev pub Faithful : List Envelope → Type 0
  Faithful ms = All (λ m. codec.decode (codec.encode_to_vec m) ≡ ok m) ms

  abbrev page_envelope : ℕ → ℕ → List OutgoingEntry → Envelope
  page_envelope index total page =
      envelope (manifest_page_payload (page_of to_text transfer_id index total page))

  read_pages-frame :
      (more index total : ℕ) (page : List OutgoingEntry) (rest : List ℕ) (broken : IoError)
      (acc : List IncomingEntry)
      → index < 2 ^ 32
      → codec.decode (codec.encode_to_vec (page_envelope index total page))
        ≡ ok (page_envelope index total page)
      → length (codec.encode_to_vec (page_envelope index total page)) ≤ max_control_frame_bytes
      → read_pages to_text transfer_id codec
          (suc more)
          index
          (record {
            bytes = frame codec (page_envelope index total page) ++ rest;
            broken_by = broken;
          })
          acc
        ≡ (if leb total ((index + 1) * manifest_page_entries)
            then ok (acc ++ map received page, record { bytes = rest; broken_by = broken })
            else read_pages to_text transfer_id codec more
                (index + 1)
                (record { bytes = rest; broken_by = broken })
                (acc ++ map received page))
  unfolding read_pages expect_manifest
  read_pages-frame more index total page rest broken acc few faithful fits =
      let wrap : (index % 2 ^ 32 == index) ≡ true = ground arith in
      rw
        (read_envelope-frame codec (page_envelope index total page) rest broken faithful
          (unfold envelope in refl) fits)
        (unfold envelope in rw (=ₜ-refl (to_text transfer_id), wrap, from_wire-to_wire page) refl)

  abbrev first_page : ℕ → ℕ → List OutgoingEntry → Envelope
  first_page index total all = page_envelope index total (take manifest_page_entries all)

  module _ (index total : ℕ) (all : List OutgoingEntry)
      (sum : total ≡ index * manifest_page_entries + length all) (few : index < 2 ^ 32)
      (faithful : codec.decode (codec.encode_to_vec (first_page index total all))
        ≡ ok (first_page index total all))
      (fits : length (codec.encode_to_vec (first_page index total all)) ≤ max_control_frame_bytes)
      (more : ℕ) (rest : List ℕ) (broken : IoError) (acc : List IncomingEntry) where
    read_pages-last_page :
        drop manifest_page_entries all ≡ []
        → read_pages to_text transfer_id codec
            (suc more)
            index
            (record {
              bytes = frame codec (first_page index total all) ++ rest;
              broken_by = broken;
            })
            acc
          ≡ ok (acc ++ map received all, record { bytes = rest; broken_by = broken })
    read_pages-last_page none_left =
        let page = take manifest_page_entries all in
        let size : length all - manifest_page_entries ≡ 0 =
          sym (length-drop manifest_page_entries all) ∙ ap length none_left in
        let over : leb total ((index + 1) * manifest_page_entries) ≡ true =
          leb-le _ _ (omega (arith, sum, size)) in
        let full : page ≡ all =
          sym (append-nil page)
          ∙ ap (λ r. page ++ r) (sym none_left)
          ∙ take-append-drop manifest_page_entries all in
        read_pages-frame more index total page rest broken acc few faithful fits
        ∙ rw over
            (ap (λ r. ok (acc ++ map received r, record { bytes = rest; broken_by = broken })) full)

    read_pages-inner_page :
        (x : OutgoingEntry) (ys : List OutgoingEntry) (after : List ℕ)
        → drop manifest_page_entries all ≡ x ∷ ys
        → ((before : List IncomingEntry)
            → read_pages to_text transfer_id codec more
                (index + 1)
                (record { bytes = rest; broken_by = broken })
                before
              ≡ ok (before ++ map received (x ∷ ys), record { bytes = after; broken_by = broken }))
        → read_pages to_text transfer_id codec
            (suc more)
            index
            (record {
              bytes = frame codec (first_page index total all) ++ rest;
              broken_by = broken;
            })
            acc
          ≡ ok (acc ++ map received all, record { bytes = after; broken_by = broken })
    read_pages-inner_page x ys after left back =
        let page = take manifest_page_entries all in
        let size : length all - manifest_page_entries ≡ suc (length ys) =
          sym (length-drop manifest_page_entries all) ∙ ap length left in
        let under : leb total ((index + 1) * manifest_page_entries) ≡ false =
          leb-gt _ _ (omega (arith, sum, size)) in
        read_pages-frame more index total page rest broken acc few faithful fits
        ∙ rw under (
            back (acc ++ map received page)
            ∙ ap (λ r. ok (r, record { bytes = after; broken_by = broken }))
                (joined acc page (drop manifest_page_entries all) all (x ∷ ys)
                  (take-append-drop manifest_page_entries all) left))

  read_pages-write_pages :
      (fuel more index total : ℕ) (e : OutgoingEntry) (es : List OutgoingEntry) (w w' : Writer)
      → length (e ∷ es) ≤ fuel
      → length (e ∷ es) ≤ more
      → total ≡ index * manifest_page_entries + length (e ∷ es)
      → index + length (e ∷ es) ≤ 2 ^ 32
      → Faithful (pages_of to_text transfer_id fuel index total (e ∷ es))
      → write_pages to_text transfer_id codec w
          (pages_of to_text transfer_id fuel index total (e ∷ es))
        ≡ ok w'
      → (sent : List ℕ) × (w'.written ≡ w.written ++ sent)
        × ((rest : List ℕ) (broken : IoError) (acc : List IncomingEntry)
            → read_pages to_text transfer_id codec more index
                (record { bytes = sent ++ rest; broken_by = broken })
                acc
              ≡ ok (acc ++ map received (e ∷ es), record { bytes = rest; broken_by = broken }))
  unfolding write_pages pages_of read_pages
  read_pages-write_pages zero more index total e es w w' enough room sum few faithful h =
      absurd (omega arith)
  read_pages-write_pages (suc fuel) zero index total e es w w' enough room sum few faithful h =
      absurd (omega arith)
  read_pages-write_pages (suc fuel) (suc more) index total e es w w' enough room sum few faithful
        h =
      let all = e ∷ es in
      let m = first_page index total all in
      let (w1, first, others) = >>=-eq-ok (map_err protocol_error (write_envelope codec w m)) _ h in
      let (one, fits) = write_envelope-frame codec w w1 m (map_err-eq-ok protocol_error _ first) in
      let next = pages_of to_text transfer_id fuel (index + 1) total in
      elim (split_cases (drop manifest_page_entries all)) [
        | inl none_left ↦
            let done : write_pages to_text transfer_id codec w1 [] ≡ ok w' =
              subst (λ r. write_pages to_text transfer_id codec w1 (next r) ≡ ok w') none_left
                others in
            let last_one : w1 ≡ w' = ground (arith, done) in
            (
              frame codec m,
              sym (ap (λ (v : Writer). v.written) last_one) ∙ one,
              λ rest broken acc.
                  read_pages-last_page index total all sum (omega arith) faithful.0 fits more rest
                    broken acc none_left,
            )
        | inr (x, ys, left) ↦
            let size : length all - manifest_page_entries ≡ suc (length ys) =
              sym (length-drop manifest_page_entries all) ∙ ap length left in
            let (sent, written, back) =
              read_pages-write_pages fuel more (index + 1) total x ys w1 w'
                (omega (arith, size, enough)) (omega (arith, size, room)) (omega (arith, size, sum))
                (omega (arith, size, few)) (subst (λ r. Faithful (next r)) left faithful.1)
                (subst (λ r. write_pages to_text transfer_id codec w1 (next r) ≡ ok w') left
                  others) in
            (
              frame codec m ++ sent,
              written ∙ ap (λ b. b ++ sent) one ∙ append_assoc w.written (frame codec m) sent,
              λ rest broken acc. rw (append_assoc (frame codec m) sent rest) (
                  read_pages-inner_page index total all sum (omega arith) faithful.0 fits more
                    (sent ++ rest) broken acc x ys rest left (back rest broken)),
            )
      ]

  -- A manifest of at least one and at most 2 ^ 32 entries, whose ids differ and whose pages the
  -- codec decodes from their encodings, that is written without an error is read back with all its
  -- entries in their order, leaving exactly the bytes behind it.
  pub read_manifest-write_manifest :
      (e : OutgoingEntry) (es : List OutgoingEntry) (w w' : Writer)
      → length (e ∷ es) ≤ 2 ^ 32
      → has_unique_ids (map received (e ∷ es)) ≡ true
      → Faithful (pages_of to_text transfer_id (length (e ∷ es)) 0 (length (e ∷ es)) (e ∷ es))
      → write_manifest to_text transfer_id codec w (e ∷ es) ≡ ok w'
      → (sent : List ℕ) × (w'.written ≡ w.written ++ sent)
        × ((rest : List ℕ) (broken : IoError)
            → read_manifest to_text transfer_id codec
                (record { bytes = sent ++ rest; broken_by = broken })
              ≡ ok (map received (e ∷ es), record { bytes = rest; broken_by = broken }))
  unfolding write_manifest read_manifest
  read_manifest-write_manifest e es w w' few unique faithful h =
      let (sent, written, back) =
        read_pages-write_pages (length (e ∷ es)) (2 ^ 32) 0 (length (e ∷ es)) e es w w'
          (omega arith) few (omega arith) (omega arith) faithful h in
      (sent, written, λ rest broken. rw (back rest broken [], unique) refl)
