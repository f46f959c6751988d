-- ===== src/App/Deleted.antt =====
-- Clearing the history and deleting from it, in halves, keep what Backed says.
use transfer_assistant.Prelude.{
  ℕ, ◌≡◌, refl, Bool, true, false, not, List, ◌∷◌, Option, none, some, filter, arith, ◌==◌,
  ℕ_discrete, Dict, get, remove, nat_eq, get-remove, kept, get-filter, filter-IsUnique,
  remove-IsUnique,
}
use transfer_assistant.Model.{TransferSnapshot, TransferState, is_active}
use transfer_assistant.Persistence.Statements.{is_finished}
use transfer_assistant.App.Mirror.{
  memory_states, row_states, memory_states-remove, memory_states-filter, row_states-filter,
  filter-IsKeyed, remove-IsKeyed,
}
use transfer_assistant.App.Backed.{Backs, is_between, unfiltered}

was_some :
    (p : TransferState → Bool) (o : Option TransferState) (state : TransferState)
    → kept p o ≡ some state
    → o ≡ some state
was_some p none state h = cc
was_some p (some v) state h = ground arith

active_stays : (state : TransferState) → is_active state ≡ true → is_finished state ≡ false
unfolding is_active
active_stays state active = ground arith

module _ (between : List ℕ) (d : Dict ℕ TransferSnapshot) (rows : List TransferSnapshot)
    (m : Backs between d rows) where
  pub forget_finished-Backs :
      Backs between (filter (λ e. is_active (TransferSnapshot.state e.1)) d) rows
  forget_finished-Backs = record {
    keyed = filter-IsKeyed (λ e. is_active (TransferSnapshot.state e.1)) d m.keyed;
    keys_once =
        rw (memory_states-filter (λ e. is_active e.1) d)
          (filter-IsUnique (λ e. is_active e.1) (memory_states d) m.keys_once);
    rows_once = m.rows_once;
    has_rows = λ id state spared here active.
        let now =
          rw
            (
              memory_states-filter (λ e. is_active e.1) d,
              get-filter (λ e. is_active e.1) id (memory_states d) m.keys_once,
            )
            at here in
        m.has_rows id state spared (was_some is_active (get id (memory_states d)) state now) active;
  }

  pub clear_rows-Backs :
      Backs between d (filter (λ t. not (is_finished (TransferSnapshot.state t))) rows)
  clear_rows-Backs = record {
    keyed = m.keyed;
    keys_once = m.keys_once;
    rows_once =
        rw (row_states-filter (λ e. not (is_finished e.1)) rows)
          (filter-IsUnique (λ e. not (is_finished e.1)) (row_states rows) m.rows_once);
    has_rows = λ id state spared here active.
        let row = m.has_rows id state spared here active in
        let alive = active_stays state active in
        rw
          (
            row_states-filter (λ e. not (is_finished e.1)) rows,
            get-filter (λ e. not (is_finished e.1)) id (row_states rows) m.rows_once,
            row,
            alive,
          )
          refl;
  }

  pub delete_row-Backs :
      (k : ℕ) → Backs (k ∷ between) d (filter (λ t. not (TransferSnapshot.id t == k)) rows)
  delete_row-Backs k = record {
    keyed = m.keyed;
    keys_once = m.keys_once;
    rows_once =
        rw (row_states-filter (λ e. not (e.0 == k)) rows)
          (filter-IsUnique (λ e. not (e.0 == k)) (row_states rows) m.rows_once);
    has_rows = λ id state spared here active.
        let apart : (k == id ≡ false) × (is_between id between ≡ false) = ground arith in
        let row = m.has_rows id state apart.1 here active in
        rw
          (
            row_states-filter (λ e. not (e.0 == k)) rows,
            get-filter (λ e. not (e.0 == k)) id (row_states rows) m.rows_once,
            row,
          )
          (ground (arith, apart.0));
  }

  pub forget-Backs : (k : ℕ) → Backs (filter (λ i. not (i == k)) between) (remove k d) rows
  forget-Backs k = record {
    keyed = remove-IsKeyed k d m.keyed;
    keys_once = rw (memory_states-remove k d) (remove-IsUnique k (memory_states d) m.keys_once);
    rows_once = m.rows_once;
    has_rows = λ id state spared here active.
        let now = rw (memory_states-remove k d, get-remove k id (memory_states d)) at here in
        elim (ℕ_discrete k id) [
          | yes is ↦ ground (arith, is, now)
          | no ne ↦
              m.has_rows id state (unfiltered k id between ne spared) (ground (arith, ne, now))
                active
        ];
  }
