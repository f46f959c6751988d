-- ===== src/App/Mirror.antt =====
-- What memory and the repository say of the states of the transfers, each as one association list
-- from ids to states, and that what core.rs does to both does the same to both lists.
use transfer_assistant.Prelude.{
  ℕ, ◌≡◌, refl, sym, ap, ◌∙◌, Bool, List, [], ◌∷◌, some, All, filter, arith, ◌==◌, Bool-cases, inl,
  inr, Dict, get, insert, remove, nat_eq, IsUnique, Same,
}
use transfer_assistant.Model.{TransferSnapshot, TransferState}
use transfer_assistant.Persistence.{upsert_transfer}

unfoldable pub memory_states : Dict ℕ TransferSnapshot → Dict ℕ TransferState
memory_states [] = []
memory_states ((k, t) ∷ d) = (k, t.state) ∷ memory_states d

unfoldable pub row_states : List TransferSnapshot → Dict ℕ TransferState
row_states [] = []
row_states (t ∷ rows) = (t.id, t.state) ∷ row_states rows

-- Every transfer in memory is kept under its id, no id stands twice in memory or in the
-- repository, and under each id both have a transfer in the same state or none.
pub record Mirrors (d : Dict ℕ TransferSnapshot) (rows : List TransferSnapshot) : Type 0 where
  pub keyed : All (λ e. TransferSnapshot.id e.1 ≡ e.0) d
  pub keys_once : IsUnique (memory_states d)
  pub rows_once : IsUnique (row_states rows)
  pub same : Same (memory_states d) (row_states rows)

pub memory_states-insert :
    (k : ℕ) (t : TransferSnapshot) (d : Dict ℕ TransferSnapshot)
    → memory_states (insert k t d) ≡ insert k t.state (memory_states d)
unfolding memory_states insert
memory_states-insert k t [] = refl
memory_states-insert k t ((j, u) ∷ d) = elim (Bool-cases (j == k)) [
  | inl e ↦ rw e refl
  | inr e ↦ rw e (ap (λ m. (j, u.state) ∷ m) (memory_states-insert k t d))
]

pub row_states-upsert_transfer :
    (t : TransferSnapshot) (rows : List TransferSnapshot)
    → row_states (upsert_transfer t rows) ≡ insert t.id t.state (row_states rows)
unfolding row_states insert upsert_transfer
row_states-upsert_transfer t [] = refl
row_states-upsert_transfer t (u ∷ rows) = elim (Bool-cases (TransferSnapshot.id u == t.id)) [
  | inl e ↦ rw e refl
  | inr e ↦ rw e (ap (λ m. (u.id, u.state) ∷ m) (row_states-upsert_transfer t rows))
]

pub memory_states-remove :
    (k : ℕ) (d : Dict ℕ TransferSnapshot) → memory_states (remove k d) ≡ remove k (memory_states d)
unfolding memory_states remove
memory_states-remove k [] = refl
memory_states-remove k ((j, u) ∷ d) = elim (Bool-cases (j == k)) [
  | inl e ↦ rw e (memory_states-remove k d)
  | inr e ↦ rw e (ap (λ m. (j, u.state) ∷ m) (memory_states-remove k d))
]

pub memory_states-filter :
    (q : ℕ × TransferState → Bool) (d : Dict ℕ TransferSnapshot)
    → memory_states (filter (λ e. q (e.0, TransferSnapshot.state e.1)) d)
      ≡ filter q (memory_states d)
unfolding memory_states
memory_states-filter q [] = refl
memory_states-filter q ((j, u) ∷ d) = elim (Bool-cases (q (j, u.state))) [
  | inl e ↦ rw e (ap (λ m. (j, u.state) ∷ m) (memory_states-filter q d))
  | inr e ↦ rw e (memory_states-filter q d)
]

pub row_states-filter :
    (q : ℕ × TransferState → Bool) (rows : List TransferSnapshot)
    → row_states (filter (λ t. q (TransferSnapshot.id t, TransferSnapshot.state t)) rows)
      ≡ filter q (row_states rows)
unfolding row_states
row_states-filter q [] = refl
row_states-filter q (u ∷ rows) = elim (Bool-cases (q (u.id, u.state))) [
  | inl e ↦ rw e (ap (λ m. (u.id, u.state) ∷ m) (row_states-filter q rows))
  | inr e ↦ rw e (row_states-filter q rows)
]

pub get-memory_states :
    (k : ℕ) (d : Dict ℕ TransferSnapshot) (t : TransferSnapshot)
    → get k d ≡ some t
    → get k (memory_states d) ≡ some t.state
unfolding memory_states get
get-memory_states k [] t h = cc
get-memory_states k ((j, u) ∷ d) t h = elim (Bool-cases (j == k)) [
  | inl e ↦ rw e (let is : u ≡ t = ground arith in ap (λ x. some (TransferSnapshot.state x)) is)
  | inr e ↦ rw e (get-memory_states k d t (rw e at h))
]

abbrev pub IsKeyed : Dict ℕ TransferSnapshot → Type 0
IsKeyed d = All (λ e. TransferSnapshot.id e.1 ≡ e.0) d

pub get-IsKeyed :
    (k : ℕ) (d : Dict ℕ TransferSnapshot) (t : TransferSnapshot)
    → IsKeyed d
    → get k d ≡ some t
    → t.id ≡ k
unfolding get
get-IsKeyed k [] t keyed h = cc
get-IsKeyed k ((j, u) ∷ d) t keyed h = elim (Bool-cases (j == k)) [
  | inl e ↦
      let is : u ≡ t = ground arith in
      let key : j ≡ k = ground arith in ap TransferSnapshot.id (sym is) ∙ keyed.0 ∙ key
  | inr e ↦ get-IsKeyed k d t keyed.1 (rw e at h)
]

pub insert-IsKeyed :
    (k : ℕ) (t : TransferSnapshot) (d : Dict ℕ TransferSnapshot)
    → t.id ≡ k
    → IsKeyed d
    → IsKeyed (insert k t d)
unfolding insert
insert-IsKeyed k t [] e keyed = (e, tt)
insert-IsKeyed k t ((j, u) ∷ d) e keyed = elim (Bool-cases (j == k)) [
  | inl here ↦ rw here (e, keyed.1)
  | inr other ↦ rw other (keyed.0, insert-IsKeyed k t d e keyed.1)
]

pub filter-IsKeyed :
    (q : ℕ × TransferSnapshot → Bool) (d : Dict ℕ TransferSnapshot)
    → IsKeyed d
    → IsKeyed (filter q d)
filter-IsKeyed q [] keyed = tt
filter-IsKeyed q (e ∷ d) keyed = elim (Bool-cases (q e)) [
  | inl here ↦ rw here (keyed.0, filter-IsKeyed q d keyed.1)
  | inr other ↦ rw other (filter-IsKeyed q d keyed.1)
]

pub remove-IsKeyed : (k : ℕ) (d : Dict ℕ TransferSnapshot) → IsKeyed d → IsKeyed (remove k d)
unfolding remove
remove-IsKeyed k [] keyed = tt
remove-IsKeyed k ((j, u) ∷ d) keyed = elim (Bool-cases (j == k)) [
  | inl here ↦ rw here (remove-IsKeyed k d keyed.1)
  | inr other ↦ rw other (keyed.0, remove-IsKeyed k d keyed.1)
]
