-- ===== src/App/Mirrored.antt =====
-- The changes of core.rs that leave memory and repository with the same states.
use transfer_assistant.Prelude.{
  ℕ, ◌≡◌, refl, not, List, Option, none, some, filter, arith, ◌==◌, ℕ_discrete, if◌then◌else◌, Dict,
  get, insert, remove, nat_eq, get-insert, get-remove, kept, insert-IsUnique, get-filter,
  filter-IsUnique, remove-IsUnique,
}
use transfer_assistant.Model.{TransferSnapshot, TransferState, is_active}
use transfer_assistant.Persistence.{upsert_transfer}
use transfer_assistant.Persistence.Statements.{is_finished}
use transfer_assistant.App.Mirror.{
  Mirrors, memory_states, row_states, memory_states-insert, row_states-upsert_transfer,
  memory_states-remove, memory_states-filter, row_states-filter, get-memory_states, insert-IsKeyed,
  filter-IsKeyed, remove-IsKeyed,
}

kept_others :
    (k j : ℕ) (o : Option TransferState) → (if k == j then none else o) ≡ kept (λ v. not (j == k)) o
kept_others k j none = ground arith
kept_others k j (some v) = ground arith

kept_active : (o : Option TransferState) → kept is_active o ≡ kept (λ v. not (is_finished v)) o
unfolding is_active
kept_active none = refl
kept_active (some v) = ground arith

module _ (d : Dict ℕ TransferSnapshot) (rows : List TransferSnapshot) (m : Mirrors d rows) where
  -- A transfer that is put into memory and saved.
  pub put-Mirrors :
      (k : ℕ) (t : TransferSnapshot) → t.id ≡ k → Mirrors (insert k t d) (upsert_transfer t rows)
  put-Mirrors k t e = record {
    keyed = insert-IsKeyed k t d e m.keyed;
    keys_once =
        rw (memory_states-insert k t d) (insert-IsUnique k t.state (memory_states d) m.keys_once);
    rows_once =
        rw (row_states-upsert_transfer t rows)
          (insert-IsUnique t.id t.state (row_states rows) m.rows_once);
    same = λ j.
        rw
          (
            memory_states-insert k t d,
            row_states-upsert_transfer t rows,
            e,
            get-insert k j t.state (memory_states d),
            get-insert k j t.state (row_states rows),
            m.same j,
          )
          refl;
  }

  -- A transfer that only memory holds anew, in the state it had.
  pub unsaved-Mirrors :
      (k : ℕ) (old t : TransferSnapshot)
      → get k d ≡ some old
      → t.id ≡ k
      → t.state ≡ old.state
      → Mirrors (insert k t d) rows
  unsaved-Mirrors k old t found e still = record {
    keyed = insert-IsKeyed k t d e m.keyed;
    keys_once =
        rw (memory_states-insert k t d) (insert-IsUnique k t.state (memory_states d) m.keys_once);
    rows_once = m.rows_once;
    same = λ j.
        let before = get-memory_states k d old found in
        let after = get-insert k j t.state (memory_states d) in
        rw (memory_states-insert k t d, get-insert k j t.state (memory_states d))
          (elim (ℕ_discrete k j) [
            | yes is ↦
                let here : get j (memory_states d) ≡ some t.state =
                  rw (← is, still) (get-memory_states k d old found) in
                ground (arith, m.same j)
            | no ne ↦ ground (arith, m.same j)
          ]);
  }

  pub removed-Mirrors :
      (k : ℕ) → Mirrors (remove k d) (filter (λ t. not (TransferSnapshot.id t == k)) rows)
  removed-Mirrors k = record {
    keyed = remove-IsKeyed k d m.keyed;
    keys_once = rw (memory_states-remove k d) (remove-IsUnique k (memory_states d) m.keys_once);
    rows_once =
        rw (row_states-filter (λ e. not (e.0 == k)) rows)
          (filter-IsUnique (λ e. not (e.0 == k)) (row_states rows) m.rows_once);
    same = λ j.
        rw
          (
            memory_states-remove k d,
            row_states-filter (λ e. not (e.0 == k)) rows,
            get-remove k j (memory_states d),
            get-filter (λ e. not (e.0 == k)) j (row_states rows) m.rows_once,
            m.same j,
          )
          (kept_others k j (get j (row_states rows)));
  }

  pub cleared-Mirrors :
      Mirrors
        (filter (λ e. is_active (TransferSnapshot.state e.1)) d)
        (filter (λ t. not (is_finished (TransferSnapshot.state t))) rows)
  cleared-Mirrors = record {
    keyed = filter-IsKeyed (λ e. is_active (TransferSnapshot.state e.1)) d m.keyed;
    keys_once =
        rw (memory_states-filter (λ e. is_active e.1) d)
          (filter-IsUnique (λ e. is_active e.1) (memory_states d) m.keys_once);
    rows_once =
        rw (row_states-filter (λ e. not (is_finished e.1)) rows)
          (filter-IsUnique (λ e. not (is_finished e.1)) (row_states rows) m.rows_once);
    same = λ j.
        rw
          (
            memory_states-filter (λ e. is_active e.1) d,
            row_states-filter (λ e. not (is_finished e.1)) rows,
            get-filter (λ e. is_active e.1) j (memory_states d) m.keys_once,
            get-filter (λ e. not (is_finished e.1)) j (row_states rows) m.rows_once,
            m.same j,
          )
          (kept_active (get j (row_states rows)));
  }
