-- ===== src/Sources/Again.antt =====
-- A transfer whose sources were saved can be restored after a restart.
use transfer_assistant.Prelude.{
  ℕ, ◌+◌, ◌<◌, ◌^◌, ◌≡◌, refl, sym, ap, ◌∙◌, true, false, List, [], ◌∷◌, map, none, some, Result,
  ok, Text, any, All, arith, ◌⊎◌, ◌==◌, inl, inr, suc, Ordered, length, ltb, is_empty,
}
use transfer_assistant.Manifest.{EntryKind, file, directory, is_directory, ManifestEntry, validate}
use transfer_assistant.Manifest.Validation.{validate_ok}
use transfer_assistant.Paging.{OutgoingEntry, IncomingEntry}
use transfer_assistant.Paging.Read.{received}
use transfer_assistant.Persistence.{TransferRepository, StoredTransferItem, has_transfer}
use transfer_assistant.Sources.{OutgoingJob, total_size, manifest_of, checked_job, with_root}
use transfer_assistant.Sources.Job.{IsSound, sizes}
use transfer_assistant.Sources.Saved.{
  has_id, has_path, OtherIds, stack, save_entries-stack, list_items-stack, Ordered-Rising,
}
use transfer_assistant.Sources.Scan.{by_relative_path}
use transfer_assistant.Sources.Restore.{
  ReopenedSource, source_ref, stored_item, persist_outgoing_items, reopened, restored_entry,
  restore_entries, restore_items, restore_outgoing_job,
}
use transfer_assistant.Wire.{LanError}

total_size-ok :
    (total : ℕ) (entries : List OutgoingEntry)
    → total + sizes entries < 2 ^ 64
    → total_size total entries ≡ ok (total + sizes entries)
unfolding total_size
total_size-ok total [] h = ap ok (omega arith)
total_size-ok total (e ∷ rest) h =
    let fits : ltb (total + OutgoingEntry.size e) (2 ^ 64) ≡ true = ground arith in
    rw fits
      (total_size-ok (total + OutgoingEntry.size e) rest (omega (arith, h)) ∙ ap ok (omega arith))

as_manifest : IncomingEntry → ManifestEntry
as_manifest e = record {
  relative_path = IncomingEntry.relative_path e;
  kind = IncomingEntry.kind e;
  size = IncomingEntry.size e;
  modified_unix_ms = IncomingEntry.modified_unix_ms e;
}

kind_cases : (k : EntryKind) → (k ≡ file) ⊎ (k ≡ directory)
kind_cases file = inl refl
kind_cases directory = inr refl

-- Entries that look the same to the receiver have one manifest.
same_manifest :
    (a b : List OutgoingEntry)
    → map received a ≡ map received b
    → (manifest_of a ≡ manifest_of b) × (length a ≡ length b) × (sizes a ≡ sizes b)
unfolding as_manifest
same_manifest [] [] e = (refl, refl, refl)
same_manifest [] (y ∷ b) e = cc
same_manifest (x ∷ a) [] e = cc
same_manifest (x ∷ a) (y ∷ b) e =
    let first : received x ≡ received y = ground arith in
    let rest : map received a ≡ map received b = ground arith in
    let (manifest, len, total) = same_manifest a b rest in
    let size : OutgoingEntry.size x ≡ OutgoingEntry.size y = ap IncomingEntry.size first in
    (
      ap (λ m. m ∷ manifest_of a) (ap as_manifest first)
          ∙ ap (λ r. as_manifest (received y) ∷ r) manifest,
      ap suc len,
      omega (arith, size, total),
    )

checked_again :
    (job : OutgoingJob) (entries : List OutgoingEntry) (names : List Text)
    → IsSound job
    → map received entries ≡ map received job.entries
    → checked_job entries names ≡ ok (record job { entries = entries; top_level_names = names })
unfolding checked_job
checked_again job entries names sound e =
    let (manifest, len, total) = same_manifest entries job.entries e in
    let accepted : validate (manifest_of entries) ≡ ok tt = ap validate manifest ∙ sound.accepted in
    let few : ltb (length entries) (2 ^ 32) ≡ true =
      ground (arith, len, sound.few, sound.counted) in
    let all = total_size-ok 0 entries (omega (arith, total, sound.summed, sound.bounded)) in
    let n : length entries ≡ job.item_count = len ∙ sym sound.counted in
    let t : 0 + sizes entries ≡ job.total_bytes = omega (arith, total, sound.summed) in
    rw (accepted, few, all, n, t) refl

stored_some :
    (transfer_id : ℕ) (es : List OutgoingEntry)
    → is_empty es ≡ false
    → is_empty (map (stored_item transfer_id) es) ≡ false
stored_some transfer_id [] h = h
stored_some transfer_id (e ∷ es) h = refl

no_path_of :
    (transfer_id : ℕ) (e : OutgoingEntry) (items : List StoredTransferItem)
    → any (λ i. StoredTransferItem.transfer_id i == transfer_id) items ≡ false
    → any (has_path transfer_id e) items ≡ false
no_path_of transfer_id e [] h = refl
no_path_of transfer_id e (i ∷ items) h = ground (arith, no_path_of transfer_id e items)

no_path :
    (transfer_id : ℕ) (es : List OutgoingEntry) (items : List StoredTransferItem)
    → any (λ i. StoredTransferItem.transfer_id i == transfer_id) items ≡ false
    → All (λ e. any (has_path transfer_id e) items ≡ false) es
no_path transfer_id [] items h = tt
no_path transfer_id (e ∷ es) items h =
    (no_path_of transfer_id e items h, no_path transfer_id es items h)

module _ (reopen : Text → Text → Result LanError ReopenedSource) (lower : Text → Text) where
  -- The source of a file is named and opens again.
  abbrev pub Reopens : OutgoingEntry → Type 0
  Reopens e =
      OutgoingEntry.kind e ≡ file
      → (source_reference : Text) × (source : ReopenedSource) × (source_ref e
          ≡ some source_reference)
        × (reopen source_reference (OutgoingEntry.relative_path e) ≡ ok source)

  reopened-stored :
      (transfer_id : ℕ) (e : OutgoingEntry)
      → Reopens e
      → (source : ReopenedSource) × (reopened reopen lower (stored_item transfer_id e) ≡ ok source)
  unfolding reopened
  reopened-stored transfer_id e opens = elim (kind_cases (OutgoingEntry.kind e)) [
    | inl is_file ↦
        let (_, source, named, again) = opens is_file in
        let no_directory : is_directory (OutgoingEntry.kind e) ≡ false = ap is_directory is_file in
        (source, rw (no_directory, named, again) refl)
    | inr is_dir ↦
        let a_directory : is_directory (OutgoingEntry.kind e) ≡ true = ap is_directory is_dir in
        ((none, none, none, true), rw a_directory refl)
  ]

  restored_entry-stored :
      (transfer_id : ℕ) (e : OutgoingEntry)
      → Reopens e
      → (e' : OutgoingEntry) × (restored_entry reopen lower (stored_item transfer_id e) ≡ ok e')
        × (received e' ≡ received e)
  unfolding restored_entry
  restored_entry-stored transfer_id e opens =
      let (source, again) = reopened-stored transfer_id e opens in
      (
        record e {
          source_path = source.0;
          persistent_source = source.1;
          source_file = source.2;
          random_access = source.3;
        },
        rw again refl,
        refl,
      )

  restore_entries-stored :
      (transfer_id : ℕ) (es : List OutgoingEntry) (roots : List Text × List Text)
      → All Reopens es
      → (entries : List OutgoingEntry) × (names : List Text) × (restore_entries reopen lower
            (map (stored_item transfer_id) es)
            roots
          ≡ ok (entries, names))
        × (map received entries ≡ map received es)
  unfolding restore_entries
  restore_entries-stored transfer_id [] roots opens = ([], roots.1, refl, refl)
  restore_entries-stored transfer_id (e ∷ es) roots opens =
      let (e', one, same) = restored_entry-stored transfer_id e opens.0 in
      let (entries, names, rest, all) =
        restore_entries-stored transfer_id es
          (with_root lower (OutgoingEntry.relative_path e) roots) opens.1 in
      (
        e' ∷ entries,
        names,
        rw (one, rest) refl,
        ap (λ r. r ∷ map received entries) same ∙ ap (λ r. received e ∷ r) all,
      )

  restore_some :
      (items : List StoredTransferItem) (entries : List OutgoingEntry) (names : List Text)
      (job : OutgoingJob)
      → is_empty items ≡ false
      → restore_entries reopen lower items ([], []) ≡ ok (entries, names)
      → checked_job entries names ≡ ok job
      → restore_items reopen lower items ≡ ok job
  unfolding restore_items
  restore_some [] entries names job e h k = cc
  restore_some (item ∷ rest) entries names job e h k = rw (h, k) refl

  restore_items-stored :
      (transfer_id : ℕ) (job : OutgoingJob)
      → IsSound job
      → is_empty job.entries ≡ false
      → All Reopens job.entries
      → (again : OutgoingJob) × (restore_items reopen lower
            (map (stored_item transfer_id) job.entries)
          ≡ ok again)
        × (map received again.entries ≡ map received job.entries)
        × (again.item_count ≡ job.item_count)
        × (again.total_bytes ≡ job.total_bytes)
  restore_items-stored transfer_id job sound some_entry opens =
      let (entries, names, restored, same) =
        restore_entries-stored transfer_id job.entries ([], []) opens in
      let made = checked_again job entries names sound same in
      (
        record job { entries = entries; top_level_names = names },
        restore_some (map (stored_item transfer_id) job.entries) entries names _
            (stored_some transfer_id job.entries some_entry) restored made,
        same,
        refl,
        refl,
      )

  -- The repository holds the transfer, no item of it, and none with the id of an entry.
  pub record IsNew (r : TransferRepository) (transfer_id : ℕ) (job : OutgoingJob) : Type 0 where
    pub stored : has_transfer r transfer_id ≡ true
    pub no_item :
        any (λ i. StoredTransferItem.transfer_id i == transfer_id) r.transfer_items ≡ false
    pub fresh_ids : All (λ e. any (has_id e) r.transfer_items ≡ false) job.entries
    pub other_ids : OtherIds job.entries

  -- The entries of a job that a scan made are saved without an error for a transfer that is new
  -- in the repository, and if after a restart the source of every file opens again, the job is
  -- restored: the same entries in the same order with the count and the total of before, apart
  -- from the names of the roots and the files that are open.
  pub restore-persist :
      (r : TransferRepository) (transfer_id : ℕ) (job : OutgoingJob)
      → IsSound job
      → Ordered by_relative_path job.entries
      → is_empty job.entries ≡ false
      → IsNew r transfer_id job
      → All Reopens job.entries
      → (saved : TransferRepository) × (again : OutgoingJob) × (persist_outgoing_items r transfer_id
            job
          ≡ ok saved)
        × (restore_outgoing_job reopen lower saved transfer_id ≡ ok again)
        × (map received again.entries ≡ map received job.entries)
        × (again.item_count ≡ job.item_count)
        × (again.total_bytes ≡ job.total_bytes)
  unfolding persist_outgoing_items restore_outgoing_job
  restore-persist r transfer_id job sound ordered some_entry new opens =
      let es = job.entries in
      let distinct = ((validate_ok (manifest_of es)).0 sound.accepted).1 in
      let saved : TransferRepository = record r {
        transfer_items = stack transfer_id es r.transfer_items;
      } in
      let (again, restored, same, count, total) =
        restore_items-stored transfer_id job sound some_entry opens in
      let listed =
        list_items-stack transfer_id es r (Ordered-Rising es ordered distinct) new.no_item in
      (
        saved,
        again,
        save_entries-stack transfer_id es r new.stored new.other_ids distinct
            (new.fresh_ids, no_path transfer_id es r.transfer_items new.no_item),
        rw listed restored,
        same,
        count,
        total,
      )
