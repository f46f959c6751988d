-- ===== src/Sources/Saved.antt =====
-- What the repository lists of a transfer after its sources are saved in it.
use transfer_assistant.Prelude.{
  ℕ, ◌≡◌, ◌≢◌, refl, sym, ap, ◌∙◌, Bool, true, false, ◌&&◌, List, [], ◌∷◌, ◌++◌, map, none, ok,
  Text, ◌=ₜ◌, any, All, arith, filter, find, Bool-cases, inl, inr, sort_by, insert_sorted, Ordered,
  leb_text, leb_text_antisymm, list_beq_iff, nat_eq, ◌==◌,
}
use mathlib.Core.List.{append_assoc, append-nil}
use transfer_assistant.Manifest.{ManifestEntry}
use transfer_assistant.Manifest.Validation.{Distinct}
use transfer_assistant.Paging.{OutgoingEntry}
use transfer_assistant.Persistence.{
  TransferRepository, StoredTransferItem, save_item, clashes, has_transfer,
}
use transfer_assistant.Persistence.Statements.{list_items, by_path}
use transfer_assistant.Sources.{manifest_of}
use transfer_assistant.Sources.Restore.{stored_item, save_entries}
use transfer_assistant.Sources.Scan.{by_relative_path}
use transfer_assistant.Sources.Job.{All-append}

leb_text_refl : (s : Text) → leb_text s s ≡ true
leb_text_refl [] = refl
leb_text_refl (c ∷ s) = ground (arith, leb_text_refl s)

leb_text_trans : (s t u : Text) → leb_text s t ≡ true → leb_text t u ≡ true → leb_text s u ≡ true
leb_text_trans [] t u h k = refl
leb_text_trans (c ∷ s) [] u h k = cc
leb_text_trans (c ∷ s) (d ∷ t) [] h k = cc
leb_text_trans (c ∷ s) (d ∷ t) (e ∷ u) h k = ground (arith, leb_text_trans s t u)

-- Whether an item has the id of the entry, and whether it has its path in the transfer.
abbrev pub has_id : OutgoingEntry → StoredTransferItem → Bool
has_id e i = StoredTransferItem.id i =ₜ OutgoingEntry.item_id e

abbrev pub OtherIds : List OutgoingEntry → Type 0
OtherIds [] = Unit
OtherIds (e ∷ rest) =
    All (λ x. OutgoingEntry.item_id e ≢ OutgoingEntry.item_id x) rest × OtherIds rest

of_manifest :
    (path : Text) (es : List OutgoingEntry)
    → All (λ m. path ≢ ManifestEntry.relative_path m) (manifest_of es)
    → All (λ x. path ≢ OutgoingEntry.relative_path x) es
of_manifest path [] h = tt
of_manifest path (e ∷ es) h = (h.0, of_manifest path es h.1)

-- Each entry's path stands strictly in front of those of the later ones.
abbrev pub Rising : List OutgoingEntry → Type 0
Rising [] = Unit
Rising (e ∷ es) =
    All (λ x. leb_text (OutgoingEntry.relative_path x) (OutgoingEntry.relative_path e) ≡ false) es
    × Rising es

strictly_above : (a b : Text) → leb_text a b ≡ true → a ≢ b → leb_text b a ≡ false
strictly_above a b h ne = elim (Bool-cases (leb_text b a)) [
  | inl back ↦ absurd (ne (leb_text_antisymm a b h back))
  | inr above ↦ above
]

above_first :
    (path : Text) (e : OutgoingEntry) (es : List OutgoingEntry)
    → leb_text path (OutgoingEntry.relative_path e) ≡ true
    → Ordered by_relative_path (e ∷ es)
    → All (λ x. path ≢ OutgoingEntry.relative_path x) (e ∷ es)
    → All (λ x. leb_text (OutgoingEntry.relative_path x) path ≡ false) (e ∷ es)
above_first path e [] h o d = (strictly_above path (OutgoingEntry.relative_path e) h d.0, tt)
above_first path e (x ∷ es) h o d = (
  strictly_above path (OutgoingEntry.relative_path e) h d.0,
  above_first path x es
      (leb_text_trans path (OutgoingEntry.relative_path e) (OutgoingEntry.relative_path x) h o.0)
      o.1 d.1,
)

pub Ordered-Rising :
    (es : List OutgoingEntry) → Ordered by_relative_path es → Distinct (manifest_of es) → Rising es
Ordered-Rising [] o d = tt
Ordered-Rising (e ∷ []) o d = (tt, tt)
Ordered-Rising (e ∷ x ∷ es) o d = (
  above_first (OutgoingEntry.relative_path e) x es o.0 o.1
      (of_manifest (OutgoingEntry.relative_path e) (x ∷ es) d.0),
  Ordered-Rising (x ∷ es) o.1 d.1,
)

module _ (transfer_id : ℕ) where
  abbrev pub has_path : OutgoingEntry → StoredTransferItem → Bool
  has_path e i =
      (StoredTransferItem.transfer_id i == transfer_id)
      && (StoredTransferItem.relative_path i =ₜ OutgoingEntry.relative_path e)

  -- The items after the entries are saved one by one.
  abbrev pub stack : List OutgoingEntry → List StoredTransferItem → List StoredTransferItem
  stack [] items = items
  stack (e ∷ es) items = stack es (stored_item transfer_id e ∷ items)

  abbrev pub Room : List OutgoingEntry → List StoredTransferItem → Type 0
  Room es items =
      All (λ e. any (has_id e) items ≡ false) es × All (λ e. any (has_path e) items ≡ false) es

  no_clash :
      (e : OutgoingEntry) (items : List StoredTransferItem)
      → any (has_path e) items ≡ false
      → any (clashes (stored_item transfer_id e)) items ≡ false
  no_clash e [] h = refl
  no_clash e (i ∷ items) h = ground (arith, no_clash e items)

  not_found :
      (e : OutgoingEntry) (items : List StoredTransferItem)
      → any (has_id e) items ≡ false
      → find (λ i. StoredTransferItem.id i =ₜ OutgoingEntry.item_id e) items ≡ none
  not_found e [] h = refl
  not_found e (i ∷ items) h = ground (arith, not_found e items)

  save_item-stored :
      (r : TransferRepository) (e : OutgoingEntry)
      → has_transfer r transfer_id ≡ true
      → any (has_id e) r.transfer_items ≡ false
      → any (has_path e) r.transfer_items ≡ false
      → save_item r (stored_item transfer_id e)
        ≡ ok (record r { transfer_items = stored_item transfer_id e ∷ r.transfer_items })
  unfolding save_item
  save_item-stored r e has i p =
      rw (not_found e r.transfer_items i, no_clash e r.transfer_items p, has) refl

  Room-later :
      (e : OutgoingEntry) (es : List OutgoingEntry) (items : List StoredTransferItem)
      → All (λ x. OutgoingEntry.item_id e ≢ OutgoingEntry.item_id x) es
      → All (λ x. OutgoingEntry.relative_path e ≢ OutgoingEntry.relative_path x) es
      → Room es items
      → Room es (stored_item transfer_id e ∷ items)
  Room-later e [] items i p room = (tt, tt)
  Room-later e (x ∷ es) items i p room =
      let (ids, paths) = Room-later e es items i.1 p.1 (room.0.1, room.1.1) in
      let same_id = list_beq_iff nat_eq (OutgoingEntry.item_id e) (OutgoingEntry.item_id x) in
      let same_path =
        list_beq_iff nat_eq (OutgoingEntry.relative_path e) (OutgoingEntry.relative_path x) in
      (
        (ground (arith, same_id, i.0, room.0.0), ids),
        (ground (arith, same_path, p.0, room.1.0), paths),
      )

  pub save_entries-stack :
      (es : List OutgoingEntry) (r : TransferRepository)
      → has_transfer r transfer_id ≡ true
      → OtherIds es
      → Distinct (manifest_of es)
      → Room es r.transfer_items
      → save_entries r transfer_id es ≡ ok (record r { transfer_items = stack es r.transfer_items })
  unfolding save_entries
  save_entries-stack [] r has ids paths room = refl
  save_entries-stack (e ∷ es) r has ids paths room =
      let r1 : TransferRepository = record r {
        transfer_items = stored_item transfer_id e ∷ r.transfer_items;
      } in
      rw (save_item-stored r e has room.0.0 room.1.0) (
        save_entries-stack es r1 has ids.1 paths.1 (
          Room-later e es r.transfer_items ids.0
            (of_manifest (OutgoingEntry.relative_path e) es paths.0) (room.0.1, room.1.1)))

  abbrev stored : List OutgoingEntry → List StoredTransferItem
  stored es = map (stored_item transfer_id) es

  -- An item that stands in front of none of the sorted ones goes behind them.
  insert_last :
      (x : StoredTransferItem) (ys : List StoredTransferItem)
      → All (λ y. by_path x y ≡ false) ys
      → insert_sorted by_path x ys ≡ ys ++ x ∷ []
  insert_last x [] h = refl
  insert_last x (y ∷ ys) h = rw h.0 (ap (λ r. y ∷ r) (insert_last x ys h.1))

  Behind : List OutgoingEntry → List StoredTransferItem → Type 0
  Behind es ys = All (λ e. All (λ y. by_path (stored_item transfer_id e) y ≡ false) ys) es

  not_in_front :
      (x e : OutgoingEntry)
      → leb_text (OutgoingEntry.relative_path x) (OutgoingEntry.relative_path e) ≡ false
      → by_path (stored_item transfer_id x) (stored_item transfer_id e) ≡ false
  not_in_front x e h =
      elim (Bool-cases (OutgoingEntry.relative_path x =ₜ OutgoingEntry.relative_path e)) [
        | inl same ↦
            let equal =
              (list_beq_iff nat_eq (OutgoingEntry.relative_path x)
                  (OutgoingEntry.relative_path e)).0
                same in
            let below : leb_text (OutgoingEntry.relative_path x) (OutgoingEntry.relative_path e)
                ≡ true =
              ap (λ p. leb_text p (OutgoingEntry.relative_path e)) equal
              ∙ leb_text_refl (OutgoingEntry.relative_path e) in
            cc (below, h)
        | inr other ↦ rw other h
      ]

  Behind-append :
      (es : List OutgoingEntry) (ys : List StoredTransferItem) (e : OutgoingEntry)
      → Behind es ys
      → All
          (λ x. leb_text (OutgoingEntry.relative_path x) (OutgoingEntry.relative_path e) ≡ false)
          es
      → Behind es (ys ++ stored_item transfer_id e ∷ [])
  unfolding Behind
  Behind-append [] ys e b h = tt
  Behind-append (x ∷ es) ys e b h = (
    All-append (λ y. by_path (stored_item transfer_id x) y ≡ false) ys
        (stored_item transfer_id e ∷ []) b.0 (not_in_front x e h.0, tt),
    Behind-append es ys e b.1 h.1,
  )

  sort_by-stack :
      (es : List OutgoingEntry) (items : List StoredTransferItem)
      → Rising es
      → Behind es (sort_by by_path items)
      → sort_by by_path (stack es items) ≡ sort_by by_path items ++ stored es
  unfolding Behind
  sort_by-stack [] items rising b = sym (append-nil (sort_by by_path items))
  sort_by-stack (e ∷ es) items rising b =
      let sorted = sort_by by_path items in
      let first = stored_item transfer_id e in
      let last : insert_sorted by_path first sorted ≡ sorted ++ first ∷ [] =
        insert_last first sorted b.0 in
      let later =
        sort_by-stack es (first ∷ items) rising.1
          (rw last (Behind-append es sorted e b.1 rising.0)) in
      later ∙ ap (λ r. r ++ stored es) last ∙ append_assoc sorted (first ∷ []) (stored es)

  filter-stack :
      (es : List OutgoingEntry) (items : List StoredTransferItem)
      → filter (λ i. StoredTransferItem.transfer_id i == transfer_id) (stack es items)
        ≡ stack es (filter (λ i. StoredTransferItem.transfer_id i == transfer_id) items)
  filter-stack [] items = refl
  filter-stack (e ∷ es) items =
      let same : (transfer_id == transfer_id) ≡ true = ground arith in
      filter-stack es (stored_item transfer_id e ∷ items) ∙ rw same refl

  all-Behind_none : (es : List OutgoingEntry) → Behind es []
  unfolding Behind
  all-Behind_none [] = tt
  all-Behind_none (e ∷ es) = (tt, all-Behind_none es)

  no_items :
      (items : List StoredTransferItem)
      → any (λ i. StoredTransferItem.transfer_id i == transfer_id) items ≡ false
      → filter (λ i. StoredTransferItem.transfer_id i == transfer_id) items ≡ []
  no_items [] h = refl
  no_items (i ∷ items) h = ground (arith, no_items items)

  -- The items that are listed afterwards are those of the entries, in their order.
  pub list_items-stack :
      (es : List OutgoingEntry) (r : TransferRepository)
      → Rising es
      → any (λ i. StoredTransferItem.transfer_id i == transfer_id) r.transfer_items ≡ false
      → list_items (record r { transfer_items = stack es r.transfer_items }) transfer_id ≡ stored es
  unfolding list_items
  list_items-stack es r rising none_before =
      rw (filter-stack es r.transfer_items, no_items r.transfer_items none_before)
        (sort_by-stack es [] rising (all-Behind_none es))
