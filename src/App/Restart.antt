-- ===== src/App/Restart.antt =====
-- What a start makes of the transfers that the repository holds.
use transfer_assistant.Prelude.{
  ℕ, ◌≡◌, refl, sym, ap, ◌∙◌, true, false, List, [], ◌∷◌, Option, none, some, ℤ, arith, ◌==◌,
  Bool-cases, inl, inr, if◌then◌else◌, ℕ_discrete, Dict, get, nat_eq, get-insert, IsUnique,
  insert-IsUnique,
}
use transfer_assistant.Model.{TransferSnapshot, TransferState, interrupted}
use transfer_assistant.Persistence.{
  TransferRepository, save_transfer, upsert_transfer, list_transfers, newest_first,
}
use transfer_assistant.Persistence.Statements.{is_finished}
use transfer_assistant.Core.{CoreConfig}
use transfer_assistant.Sources.Restore.{Disk}
use transfer_assistant.App.Start.{
  restore_transfers, interrupted_by_exit, collect_transfers, start_core,
}
use transfer_assistant.App.Mirror.{memory_states, row_states, row_states-upsert_transfer}
use transfer_assistant.App.Locked.{IsMirrored}
use transfer_assistant.App.Collected.{collect_transfers_lem, or_else, row_states-sort_by}

-- The state after the application was closed: a finished transfer stays, every other is interrupted.
abbrev pub after_exit : TransferState → TransferState
after_exit state = if is_finished state then state else interrupted

abbrev pub exited : Option TransferState → Option TransferState
exited none = none
exited (some state) = some (after_exit state)

-- The states of the loop's result, and what the repository says afterwards of a transfer with the
-- state `o` in the list and `row` in the repository.
exit_states : Dict ℕ TransferState → Dict ℕ TransferState
exit_states [] = []
exit_states ((k, state) ∷ m) = (k, after_exit state) ∷ exit_states m

abbrev stored_exit : Option TransferState → Option TransferState → Option TransferState
stored_exit none row = row
stored_exit (some state) row = if is_finished state then row else some interrupted

get-exit_states : (j : ℕ) (m : Dict ℕ TransferState) → get j (exit_states m) ≡ exited (get j m)
unfolding exit_states get
get-exit_states j [] = refl
get-exit_states j ((k, state) ∷ m) = elim (Bool-cases (k == j)) [
  | inl e ↦ rw e refl
  | inr e ↦ rw e (get-exit_states j m)
]

exit_states-IsUnique : (m : Dict ℕ TransferState) → IsUnique m → IsUnique (exit_states m)
unfolding exit_states
exit_states-IsUnique [] u = tt
exit_states-IsUnique ((k, state) ∷ m) u =
    (get-exit_states k m ∙ rw u.0 refl, exit_states-IsUnique m u.1)

restored_states :
    (now : ℤ) (ts : List TransferSnapshot) (r : TransferRepository)
    → row_states (restore_transfers now ts r).0 ≡ exit_states (row_states ts)
unfolding restore_transfers interrupted_by_exit exit_states row_states
restored_states now [] r = refl
restored_states now (t ∷ ts) r = elim (Bool-cases (is_finished t.state)) [
  | inl e ↦ rw e (ap (λ m. (t.id, t.state) ∷ m) (restored_states now ts r))
  | inr e ↦ rw e (
      ap (λ m. (t.id, interrupted) ∷ m)
        (restored_states now ts (save_transfer r (interrupted_by_exit now t))))
]

module _ (k j : ℕ) (state : TransferState) (ts : List TransferSnapshot)
    (row : Option TransferState) where
  finished_stays :
      get k (row_states ts) ≡ none
      → is_finished state ≡ true
      → stored_exit (get j (row_states ts)) row
        ≡ stored_exit (if k == j then some state else get j (row_states ts)) row
  finished_stays absent fin = elim (ℕ_discrete k j) [
    | yes is ↦ ground (arith, absent, is, fin)
    | no ne ↦ elim (Bool-cases (k == j)) [ inl e ↦ ground (arith, ne) | inr e ↦ rw e refl ]
  ]

  other_interrupted :
      get k (row_states ts) ≡ none
      → is_finished state ≡ false
      → stored_exit (get j (row_states ts)) (if k == j then some interrupted else row)
        ≡ stored_exit (if k == j then some state else get j (row_states ts)) row
  other_interrupted absent unfinished = elim (ℕ_discrete k j) [
    | yes is ↦ ground (arith, absent, is, unfinished)
    | no ne ↦ elim (Bool-cases (k == j)) [ inl e ↦ ground (arith, ne) | inr e ↦ rw e refl ]
  ]

restored_rows :
    (now : ℤ) (ts : List TransferSnapshot) (r : TransferRepository)
    → IsUnique (row_states ts)
    → IsUnique (row_states r.transfers)
    → IsUnique (row_states (restore_transfers now ts r).1.transfers)
      × ((j : ℕ)
          → get j (row_states (restore_transfers now ts r).1.transfers)
            ≡ stored_exit (get j (row_states ts)) (get j (row_states r.transfers)))
unfolding restore_transfers interrupted_by_exit row_states get save_transfer
restored_rows now [] r u once = (once, λ j. refl)
restored_rows now (t ∷ ts) r u once = elim (Bool-cases (is_finished t.state)) [
  | inl e ↦
      let (still, gets) = restored_rows now ts r u.1 once in
      rw e (
        still,
        λ j. gets j ∙ finished_stays t.id j t.state ts (get j (row_states r.transfers)) u.0 e,
      )
  | inr e ↦
      let t1 = interrupted_by_exit now t in
      let once1 : IsUnique (row_states (upsert_transfer t1 r.transfers)) =
        rw (row_states-upsert_transfer t1 r.transfers)
          (insert-IsUnique t.id interrupted (row_states r.transfers) once) in
      let (still, gets) = restored_rows now ts (save_transfer r t1) u.1 once1 in
      rw e (
        still,
        λ j.
            gets j
            ∙ rw
                (
                  row_states-upsert_transfer t1 r.transfers,
                  get-insert t.id j interrupted (row_states r.transfers),
                )
                (other_interrupted t.id j t.state ts (get j (row_states r.transfers)) u.0 e),
      )
]

or_else-none : (o : Option TransferState) → or_else o none ≡ o
or_else-none none = refl
or_else-none (some state) = refl

stored_exit_same : (o : Option TransferState) → stored_exit o o ≡ exited o
stored_exit_same none = refl
stored_exit_same (some state) = ground arith

-- A start from a repository in which no id stands twice leaves memory and repository with the
-- same states, and these are the states of before the start: a transfer that was completed, failed
-- or cancelled stays so, every other becomes Interrupted, and none is lost or added.
pub start_core_outcome :
    (config : CoreConfig) (now : ℤ) (r : TransferRepository) (disk : Disk)
    → IsUnique (row_states r.transfers)
    → IsMirrored (start_core config now r disk).core
      × ((id : ℕ)
          → get id (memory_states (start_core config now r disk).core.transfers)
            ≡ exited (get id (row_states r.transfers)))
unfolding start_core list_transfers memory_states get
start_core_outcome config now r disk u =
    let ts = list_transfers r in
    let (once, same) = row_states-sort_by newest_first r.transfers u in
    let (rows_once, rows) = restored_rows now ts r once u in
    let states = restored_states now ts r in
    let memory = (restore_transfers now ts r).0 in
    let memory_once : IsUnique (row_states memory) =
      rw states (exit_states-IsUnique (row_states ts) once) in
    let (keyed, keys_once, gets) = collect_transfers_lem [] memory memory_once tt tt in
    let now_in : (id : ℕ)
        → get id (memory_states (collect_transfers [] memory))
          ≡ exited (get id (row_states r.transfers)) =
      λ id.
        gets id
        ∙ or_else-none (get id (row_states memory))
        ∙ ap (get id) states
        ∙ get-exit_states id (row_states ts)
        ∙ ap exited (same id) in
    (
      record {
        keyed = keyed;
        keys_once = keys_once;
        rows_once = rows_once;
        same = λ id.
            now_in id
            ∙ sym (rows id ∙ rw (same id) (stored_exit_same (get id (row_states r.transfers))));
      },
      now_in,
    )
