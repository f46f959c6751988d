-- ===== src/App/Backed.antt =====
-- What holds of memory and repository even while calls overlap: every transfer in memory that is not
-- finished has a row in the same state, except under the ids for which a call that adds, sends or
-- deletes a transfer has written the repository and not yet memory.
use transfer_assistant.Prelude.{
  ℕ, ◌≡◌, ◌≢◌, refl, sym, ◌∙◌, Bool, true, false, not, List, [], ◌∷◌, some, filter, any, arith,
  ◌==◌, Bool-cases, inl, inr, ℕ_discrete, Dict, get, insert, nat_eq, get-insert, IsUnique,
  insert-IsUnique,
}
use transfer_assistant.Model.{TransferSnapshot, TransferState, is_active}
use transfer_assistant.Persistence.{upsert_transfer}
use transfer_assistant.App.Mirror.{
  Mirrors, IsKeyed, memory_states, row_states, memory_states-insert, row_states-upsert_transfer,
  get-memory_states, insert-IsKeyed,
}
use transfer_assistant.App.Effects.{Effect, puts, puts_unsaved, stays}

abbrev pub is_between : ℕ → List ℕ → Bool
is_between id between = any (λ i. i == id) between

-- A transfer in memory that is not completed, failed or cancelled has its row, but for those ids.
abbrev pub RowsFor : List ℕ → Dict ℕ TransferSnapshot → List TransferSnapshot → Type 0
RowsFor between d rows =
    (id : ℕ) (state : TransferState)
    → is_between id between ≡ false
    → get id (memory_states d) ≡ some state
    → is_active state ≡ true
    → get id (row_states rows) ≡ some state

pub record Backs (between : List ℕ) (d : Dict ℕ TransferSnapshot) (rows : List TransferSnapshot)
    : Type 0 where
  pub keyed : IsKeyed d
  pub keys_once : IsUnique (memory_states d)
  pub rows_once : IsUnique (row_states rows)
  pub has_rows : RowsFor between d rows

pub Mirrors-Backs :
    (d : Dict ℕ TransferSnapshot) (rows : List TransferSnapshot) → Mirrors d rows → Backs [] d rows
Mirrors-Backs d rows m = record {
  keyed = m.keyed;
  keys_once = m.keys_once;
  rows_once = m.rows_once;
  has_rows = λ id state spared here active. sym (m.same id) ∙ here;
}

pub unfiltered :
    (k id : ℕ) (between : List ℕ)
    → k ≢ id
    → is_between id (filter (λ i. not (i == k)) between) ≡ false
    → is_between id between ≡ false
unfiltered k id [] ne h = refl
unfiltered k id (i ∷ between) ne h = ground (arith, ne, unfiltered k id between ne)

module _ (between : List ℕ) (d : Dict ℕ TransferSnapshot) (rows : List TransferSnapshot)
    (m : Backs between d rows) where
  put_keys_once : (k : ℕ) (t : TransferSnapshot) → IsUnique (memory_states (insert k t d))
  put_keys_once k t =
      rw (memory_states-insert k t d) (insert-IsUnique k t.state (memory_states d) m.keys_once)

  saved_once : (t : TransferSnapshot) → IsUnique (row_states (upsert_transfer t rows))
  saved_once t =
      rw (row_states-upsert_transfer t rows)
        (insert-IsUnique t.id t.state (row_states rows) m.rows_once)

  -- The first half of adding a transfer, and of sending one.
  pub save_row-Backs : (t : TransferSnapshot) → Backs (t.id ∷ between) d (upsert_transfer t rows)
  save_row-Backs t = record {
    keyed = m.keyed;
    keys_once = m.keys_once;
    rows_once = saved_once t;
    has_rows = λ id state spared here active.
        let apart : (t.id == id ≡ false) × (is_between id between ≡ false) = ground arith in
        let row = m.has_rows id state apart.1 here active in
        rw
          (row_states-upsert_transfer t rows, get-insert t.id id t.state (row_states rows), apart.0)
          row;
  }

  -- The second half, if the row still has the state that the first half gave it.
  pub remember-Backs :
      (t : TransferSnapshot)
      → get t.id (row_states rows) ≡ some t.state
      → Backs (filter (λ i. not (i == t.id)) between) (insert t.id t d) rows
  remember-Backs t saved = record {
    keyed = insert-IsKeyed t.id t d refl m.keyed;
    keys_once = put_keys_once t.id t;
    rows_once = m.rows_once;
    has_rows = λ id state spared here active.
        let now =
          rw (memory_states-insert t.id t d, get-insert t.id id t.state (memory_states d)) at
            here in
        elim (ℕ_discrete t.id id) [
          | yes is ↦ ground (arith, saved, is, now)
          | no ne ↦
              m.has_rows id state (unfiltered t.id id between ne spared) (ground (arith, ne, now))
                active
        ];
  }

  -- The second half whatever the row has become.
  pub remember_late-Backs : (t : TransferSnapshot) → Backs (t.id ∷ between) (insert t.id t d) rows
  remember_late-Backs t = record {
    keyed = insert-IsKeyed t.id t d refl m.keyed;
    keys_once = put_keys_once t.id t;
    rows_once = m.rows_once;
    has_rows = λ id state spared here active.
        let apart : (t.id == id ≡ false) × (is_between id between ≡ false) = ground arith in
        let now =
          rw (memory_states-insert t.id t d, get-insert t.id id t.state (memory_states d), apart.0)
            at here in
        m.has_rows id state apart.1 now active;
  }

  -- A transfer saved in the state that memory has.
  pub resave-Backs :
      (t : TransferSnapshot)
      → get t.id (memory_states d) ≡ some t.state
      → Backs between d (upsert_transfer t rows)
  resave-Backs t known = record {
    keyed = m.keyed;
    keys_once = m.keys_once;
    rows_once = saved_once t;
    has_rows = λ id state spared here active.
        rw (row_states-upsert_transfer t rows, get-insert t.id id t.state (row_states rows))
          (elim (ℕ_discrete t.id id) [
            | yes is ↦ ground (arith, is, known, here)
            | no ne ↦ ground (arith, ne, m.has_rows id state spared here active)
          ]);
  }

  pub put-Backs :
      (k : ℕ) (t : TransferSnapshot)
      → t.id ≡ k
      → Backs between (insert k t d) (upsert_transfer t rows)
  put-Backs k t e = record {
    keyed = insert-IsKeyed k t d e m.keyed;
    keys_once = put_keys_once k t;
    rows_once = saved_once t;
    has_rows = λ id state spared here active.
        let now =
          rw (memory_states-insert k t d, get-insert k id t.state (memory_states d)) at here in
        rw (row_states-upsert_transfer t rows, get-insert t.id id t.state (row_states rows), e)
          (elim (Bool-cases (k == id)) [
            | inl is ↦ rw is (rw is at now)
            | inr other ↦ rw other (m.has_rows id state spared (rw other at now) active)
          ]);
  }

  pub unsaved-Backs :
      (k : ℕ) (old t : TransferSnapshot)
      → get k d ≡ some old
      → t.id ≡ k
      → t.state ≡ old.state
      → Backs between (insert k t d) rows
  unsaved-Backs k old t found e still = record {
    keyed = insert-IsKeyed k t d e m.keyed;
    keys_once = put_keys_once k t;
    rows_once = m.rows_once;
    has_rows = λ id state spared here active.
        let now =
          rw (memory_states-insert k t d, get-insert k id t.state (memory_states d)) at here in
        let before = get-memory_states k d old found in
        elim (ℕ_discrete k id) [
          | yes is ↦ m.has_rows id state spared (ground (arith, is, now, before, still)) active
          | no ne ↦ m.has_rows id state spared (ground (arith, ne, now)) active
        ];
  }

  pub Effect-Backs :
      (d' : Dict ℕ TransferSnapshot) (rows' : List TransferSnapshot)
      → Effect d rows d' rows'
      → Backs between d' rows'
  Effect-Backs d' rows' (puts id t e is saved) = rw (is, saved) (put-Backs id t e)
  Effect-Backs d' rows' (puts_unsaved id old t found e still is saved) =
      rw (is, saved) (unsaved-Backs id old t found e still)
  Effect-Backs d' rows' (stays is saved) = rw (is, saved) m
