-- ===== src/App/Collected.antt =====
-- Transfers sorted, and collected into a map.
use transfer_assistant.Prelude.{
  ℕ, ◌≡◌, refl, ◌∙◌, Bool, false, List, [], ◌∷◌, Option, none, some, arith, ◌==◌, Bool-cases, inl,
  inr, if◌then◌else◌, ℕ_discrete, Dict, get, insert, nat_eq, get-insert, IsUnique, Same,
  insert-IsUnique, insert_sorted, sort_by,
}
use transfer_assistant.Model.{TransferSnapshot, TransferState}
use transfer_assistant.App.Start.{collect_transfers}
use transfer_assistant.App.Mirror.{
  IsKeyed, memory_states, row_states, memory_states-insert, insert-IsKeyed,
}

-- `o`, and where it is empty, `rest`.
abbrev pub or_else : Option TransferState → Option TransferState → Option TransferState
or_else none rest = rest
or_else (some state) rest = some state

module _ (before : TransferSnapshot → TransferSnapshot → Bool) where
  pub row_states-insert_sorted :
      (t : TransferSnapshot) (rows : List TransferSnapshot)
      → IsUnique (row_states (t ∷ rows))
      → IsUnique (row_states (insert_sorted before t rows))
        × Same (row_states (insert_sorted before t rows)) (row_states (t ∷ rows))
  unfolding row_states get
  row_states-insert_sorted t [] u = (u, λ j. refl)
  row_states-insert_sorted t (x ∷ rows) u = elim (Bool-cases (before t x)) [
    | inl first ↦ rw first (u, λ j. refl)
    | inr later ↦
        let apart : (x.id == t.id ≡ false) × (get t.id (row_states rows) ≡ none) =
          elim (Bool-cases (x.id == t.id)) [
            | inl e ↦ cc (rw e at u.0)
            | inr e ↦ (e, rw e at u.0)
          ] in
        let (once, gets) = row_states-insert_sorted t rows (apart.1, u.1.1) in
        rw later (
          (gets x.id ∙ ground (arith, apart.0, u.1.0), once),
          λ j. elim (Bool-cases (x.id == j)) [
            | inl e ↦ rw e (ground (arith, apart.0))
            | inr e ↦ rw e (gets j)
          ],
        )
  ]

  pub row_states-sort_by :
      (rows : List TransferSnapshot)
      → IsUnique (row_states rows)
      → IsUnique (row_states (sort_by before rows))
        × Same (row_states (sort_by before rows)) (row_states rows)
  unfolding row_states get
  row_states-sort_by [] u = (tt, λ j. refl)
  row_states-sort_by (t ∷ rows) u =
      let (once, gets) = row_states-sort_by rows u.1 in
      let (once1, gets1) =
        row_states-insert_sorted t (sort_by before rows) (gets t.id ∙ u.0, once) in
      (once1, λ j. gets1 j ∙ rw (gets j) refl)

pub or_else_first :
    (k j : ℕ) (state : TransferState) (ts : List TransferSnapshot) (rest : Option TransferState)
    → get k (row_states ts) ≡ none
    → or_else (get j (row_states ts)) (if k == j then some state else rest)
      ≡ or_else (if k == j then some state else get j (row_states ts)) rest
or_else_first k j state ts rest absent = elim (ℕ_discrete k j) [
  | yes is ↦ ground (arith, absent, is)
  | no ne ↦ elim (Bool-cases (k == j)) [ inl e ↦ rw e (ground (arith, ne)) | inr e ↦ rw e refl ]
]

pub collect_transfers_lem :
    (d : Dict ℕ TransferSnapshot) (ts : List TransferSnapshot)
    → IsUnique (row_states ts)
    → IsKeyed d
    → IsUnique (memory_states d)
    → IsKeyed (collect_transfers d ts)
      × IsUnique (memory_states (collect_transfers d ts))
      × ((j : ℕ)
          → get j (memory_states (collect_transfers d ts))
            ≡ or_else (get j (row_states ts)) (get j (memory_states d)))
unfolding collect_transfers row_states get
collect_transfers_lem d [] u keyed once = (keyed, once, λ j. refl)
collect_transfers_lem d (t ∷ ts) u keyed once =
    let d1 = insert (TransferSnapshot.id t) t d in
    let once1 : IsUnique (memory_states d1) =
      rw (memory_states-insert (TransferSnapshot.id t) t d) (
        insert-IsUnique (TransferSnapshot.id t) (TransferSnapshot.state t) (memory_states d)
          once) in
    let (k, o, gets) =
      collect_transfers_lem d1 ts u.1 (insert-IsKeyed (TransferSnapshot.id t) t d refl keyed)
        once1 in
    (
      k,
      o,
      λ j.
          gets j
          ∙ rw
              (
                memory_states-insert (TransferSnapshot.id t) t d,
                get-insert (TransferSnapshot.id t) j (TransferSnapshot.state t) (memory_states d),
              )
              (or_else_first (TransferSnapshot.id t) j (TransferSnapshot.state t) ts
                (get j (memory_states d)) u.0),
    )
