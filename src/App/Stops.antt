-- ===== src/App/Stops.antt =====
-- The end of a sending task, and the shutdown, which saves what memory holds.
use transfer_assistant.Prelude.{
  branch_keeps, ℕ, ◌≡◌, refl, sym, List, [], ◌∷◌, none, some, Result, ok, err, Text, ℤ, arith, ◌==◌,
  Bool-cases, inl, inr, All, if◌then◌else◌, ==_iff, ℕ_discrete, Dict, get, nat_eq, get-insert,
  IsUnique, insert-IsUnique,
}
use transfer_assistant.Model.{TransferSnapshot}
use transfer_assistant.Persistence.{TransferRepository, save_transfer, upsert_transfer}
use transfer_assistant.Core.{
  CoreState, CoreError, values, cancel_transfer_with_error, interrupt_transfer, fail_transfer,
}
use transfer_assistant.Core.Lifetime.{CoreStep, fails, interrupts, cancels}
use transfer_assistant.Wire.{LanError, is_cancelled, is_retryable}
use transfer_assistant.App.{App}
use transfer_assistant.App.Transfers.{outgoing_ended, or_unchanged, cancel_reason}
use transfer_assistant.App.Requests.{save_all, shutdown}
use transfer_assistant.App.Mirror.{
  Mirrors, IsKeyed, memory_states, row_states, row_states-upsert_transfer,
}
use transfer_assistant.App.Locked.{IsMirrored, step-IsMirrored}

-- A transfer saved again in the state that memory has for it.
resaved-Mirrors :
    (d : Dict ℕ TransferSnapshot) (rows : List TransferSnapshot) (t : TransferSnapshot)
    → get t.id (memory_states d) ≡ some t.state
    → Mirrors d rows
    → Mirrors d (upsert_transfer t rows)
resaved-Mirrors d rows t known m = record {
  keyed = m.keyed;
  keys_once = m.keys_once;
  rows_once =
      rw (row_states-upsert_transfer t rows)
        (insert-IsUnique t.id t.state (row_states rows) m.rows_once);
  same = λ j.
      rw (row_states-upsert_transfer t rows, get-insert t.id j t.state (row_states rows))
        (elim (ℕ_discrete t.id j) [
          | yes is ↦ ground (arith, known, is)
          | no ne ↦ ground (arith, ne, m.same j)
        ]);
}

-- Memory has the entry's state under the entry's id.
abbrev pub Holds : Dict ℕ TransferSnapshot → ℕ × TransferSnapshot → Type 0
Holds d e = get (TransferSnapshot.id e.1) (memory_states d) ≡ some (TransferSnapshot.state e.1)

save_all-Mirrors :
    (d es : Dict ℕ TransferSnapshot) (r : TransferRepository)
    → All (Holds d) es
    → Mirrors d r.transfers
    → Mirrors d (save_all (values es) r).transfers
unfolding save_all save_transfer
save_all-Mirrors d [] r held m = m
save_all-Mirrors d ((k, t) ∷ es) r held m =
    save_all-Mirrors d es (save_transfer r t) held.1 (resaved-Mirrors d r.transfers t held.0 m)

Holds-behind :
    (k : ℕ) (t : TransferSnapshot) (d es : Dict ℕ TransferSnapshot)
    → get k (memory_states d) ≡ none
    → All (Holds d) es
    → All (Holds ((k, t) ∷ d)) es
unfolding memory_states get
Holds-behind k t d [] absent held = tt
Holds-behind k t d ((j, u) ∷ es) absent held = (
  elim (Bool-cases (k == u.id)) [
    | inl e ↦ let is : k ≡ u.id = (==_iff k u.id).0 e in cc (rw is at absent, held.0)
    | inr e ↦ rw e held.0
  ],
  Holds-behind k t d es absent held.1,
)

pub All-Holds :
    (d : Dict ℕ TransferSnapshot) → IsKeyed d → IsUnique (memory_states d) → All (Holds d) d
unfolding memory_states get
All-Holds [] keyed once = tt
All-Holds ((k, t) ∷ d) keyed once = (
  rw ((==_iff k t.id).1 (sym keyed.0)) refl,
  Holds-behind k t d d once.0 (All-Holds d keyed.1 once.1),
)

pub shutdown-IsMirrored : (a : App) → IsMirrored a.core → IsMirrored (shutdown a).core
unfolding shutdown
shutdown-IsMirrored a m =
    let d = CoreState.transfers a.core in
    branch_keeps (λ x. IsMirrored (App.core x)) a.stopped _ _ m
      (save_all-Mirrors d d (CoreState.repository a.core) (All-Holds d m.keyed m.keys_once) m)

or_unchanged-IsMirrored :
    (speed_of : ℕ → ℕ → ℕ) (a : App) (r : Result CoreError CoreState)
    → ((s : CoreState) → r ≡ ok s → CoreStep speed_of a.core s)
    → IsMirrored a.core
    → IsMirrored (or_unchanged a r).core
or_unchanged-IsMirrored speed_of a (err e) step m = m
or_unchanged-IsMirrored speed_of a (ok s) step m = step-IsMirrored speed_of (step s refl) m

pub outgoing_ended-IsMirrored :
    (speed_of : ℕ → ℕ → ℕ) (a : App) (id : ℕ) (now : ℤ) (e : LanError) (message : Text)
    → IsMirrored a.core
    → IsMirrored (outgoing_ended a id now e message).core
unfolding outgoing_ended
outgoing_ended-IsMirrored speed_of a id now e message m =
    let cancels_it = or_unchanged a (cancel_transfer_with_error a.core id now (cancel_reason e)) in
    let interrupts_it = or_unchanged a (interrupt_transfer a.core id now message) in
    let fails_it = or_unchanged a (fail_transfer a.core id now message) in
    let retryable = if is_retryable e then interrupts_it else fails_it in
    let stops = if is_cancelled e then cancels_it else retryable in
    branch_keeps (λ x. IsMirrored (App.core x)) a.shutdown_cancelled a stops m
      (branch_keeps (λ x. IsMirrored (App.core x)) (is_cancelled e) cancels_it retryable
        (or_unchanged-IsMirrored speed_of a
          (cancel_transfer_with_error a.core id now (cancel_reason e))
          (λ s h. cancels id now (cancel_reason e) h) m)
        (branch_keeps (λ x. IsMirrored (App.core x)) (is_retryable e) interrupts_it fails_it
          (or_unchanged-IsMirrored speed_of a (interrupt_transfer a.core id now message)
            (λ s h. interrupts id now message h) m)
          (or_unchanged-IsMirrored speed_of a (fail_transfer a.core id now message)
            (λ s h. fails id now message h) m)))
