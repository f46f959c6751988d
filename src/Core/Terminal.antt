-- ===== src/Core/Terminal.antt =====
-- A transfer that is completed or cancelled stays so, whatever core.rs is asked to do.
use transfer_assistant.Prelude.{
  ℕ, min, ◌≡◌, refl, ◌∙◌, Bool, true, false, Option, none, some, Result, ok, >>=-eq-ok, map_err,
  map_err-eq-ok, ok_or, Text, ℤ, arith, ℕ_discrete, Bool-cases, Option-cases, inl, inr, Dict, get,
  insert, get-insert, nat_eq,
}
use transfer_assistant.Model.{
  TransferSnapshot, TransferState, TransferCommand, is_terminal, transition_to, apply_command,
  LifecycleError, command_target,
}
use transfer_assistant.Model.Lifecycle.{terminal_exactly}
use transfer_assistant.Core.{
  CoreState, CoreError, unknown_transfer, lifecycle_error, update_transfer, transition_transfer,
  queue_transfers_changed, end_with,
}
use transfer_assistant.Core.Handlers.{
  set_completed_bytes, update_completed_bytes, command_transfer, progress, commanded, change_if,
}

-- The transfers that are terminal in `d` are in the same state in `d'`.
abbrev pub Keeps : Dict ℕ TransferSnapshot → Dict ℕ TransferSnapshot → Type 0
Keeps d d' =
    (id : ℕ) (t : TransferSnapshot)
    → get id d ≡ some t
    → is_terminal t.state ≡ true
    → (t' : TransferSnapshot) × (get id d' ≡ some t') × (t'.state ≡ t.state)

pub insert-Keeps :
    (d : Dict ℕ TransferSnapshot) (k : ℕ) (old new : TransferSnapshot)
    → get k d ≡ some old
    → (is_terminal old.state ≡ true → new.state ≡ old.state)
    → Keeps d (insert k new d)
insert-Keeps d k old new found kept id t here terminal = elim (ℕ_discrete k id) [
  | yes e ↦
      let same : old ≡ t = cc (rw e at found, here) in
      (new, ground (arith, get-insert k id new d), rw (← same) (kept (rw same terminal)))
  | no ne ↦ (t, ground (arith, get-insert k id new d), refl)
]

pub fresh-Keeps :
    (d : Dict ℕ TransferSnapshot) (k : ℕ) (new : TransferSnapshot)
    → get k d ≡ none
    → Keeps d (insert k new d)
fresh-Keeps d k new absent id t here terminal = elim (ℕ_discrete k id) [
  | yes e ↦ cc (rw e at absent, here)
  | no ne ↦ (t, ground (arith, get-insert k id new d), refl)
]

pub ok_or-eq-ok :
    {A : Type 0} (o : Option A) (e : CoreError) (a : A) → ok_or o e ≡ ok a → o ≡ some a
ok_or-eq-ok none e a h = cc
ok_or-eq-ok (some x) e a h = cc

-- What a successful update did.
pub update_transfer-eq-ok :
    (s : CoreState) (id : ℕ) (now : ℤ)
    (f : TransferSnapshot → Result LifecycleError TransferSnapshot) (s' : CoreState)
    → update_transfer s id now f ≡ ok s'
    → (t : TransferSnapshot) × (t1 : TransferSnapshot) × (get id s.transfers ≡ some t)
      × (f t ≡ ok t1)
      × (s'.transfers ≡ insert id (record t1 { updated_unix_ms = now }) s.transfers)
unfolding update_transfer queue_transfers_changed
update_transfer-eq-ok s id now f s' h =
    let (t, found, later) = >>=-eq-ok (ok_or (get id s.transfers) (unknown_transfer id)) _ h in
    let (t1, changed, last) = >>=-eq-ok (map_err lifecycle_error (f t)) _ later in
    (
      t,
      t1,
      ok_or-eq-ok (get id s.transfers) (unknown_transfer id) t found,
      map_err-eq-ok lifecycle_error (f t) changed,
      ground arith,
    )

pub update-Keeps :
    (s : CoreState) (id : ℕ) (now : ℤ)
    (f : TransferSnapshot → Result LifecycleError TransferSnapshot) (s' : CoreState)
    → ((t t1 : TransferSnapshot) → is_terminal t.state ≡ true → f t ≡ ok t1 → t1.state ≡ t.state)
    → update_transfer s id now f ≡ ok s'
    → Keeps s.transfers s'.transfers
update-Keeps s id now f s' kept h =
    let (t, t1, found, changed, is) = update_transfer-eq-ok s id now f s' h in
    rw is (
      insert-Keeps s.transfers id t (record t1 { updated_unix_ms = now }) found
        (λ terminal. kept t t1 terminal changed))

no_transition :
    (t t1 : TransferSnapshot) (next : TransferState)
    → is_terminal t.state ≡ true
    → transition_to t next ≡ ok t1
    → t1.state ≡ t.state
unfolding transition_to
no_transition t t1 next terminal h =
    let refused = (terminal_exactly t.state).0 terminal next in cc (rw refused at h)

pub end_with_kept :
    (state : TransferState) (message : Text) (t t1 : TransferSnapshot)
    → is_terminal t.state ≡ true
    → ◌≡◌ {A = Result LifecycleError TransferSnapshot} (ok (end_with state message t)) (ok t1)
    → t1.state ≡ t.state
end_with_kept state message t t1 terminal h = ground arith

pub transition-Keeps :
    (s : CoreState) (id : ℕ) (now : ℤ) (next : TransferState) (s' : CoreState)
    → transition_transfer s id now next ≡ ok s'
    → Keeps s.transfers s'.transfers
unfolding transition_transfer
transition-Keeps s id now next s' h =
    update-Keeps s id now _ s'
      (λ t t1 terminal changed.
        let (t2, moved, rest) = >>=-eq-ok (transition_to t next) _ changed in
        let same = no_transition t t2 next terminal moved in
        let is : t1.state ≡ t2.state = ground arith in is ∙ same)
      h

-- The part of a lookup, a change that may fail, and what is made of both.
pub command-Keeps :
    (s : CoreState) (id : ℕ) (now : ℤ) (c : TransferCommand) (s' : CoreState)
    → command_transfer s id now c ≡ ok s'
    → Keeps s.transfers s'.transfers
unfolding command_transfer queue_transfers_changed apply_command
command-Keeps s id now c s' h =
    let (t, found, later) = >>=-eq-ok (ok_or (get id s.transfers) (unknown_transfer id)) _ h in
    let (t1, changed, last) = >>=-eq-ok (map_err lifecycle_error (apply_command t c)) _ later in
    let moved = map_err-eq-ok lifecycle_error (apply_command t c) changed in
    let is : s'.transfers ≡ insert id (commanded c now t1) s.transfers = ground arith in
    rw is (
      insert-Keeps s.transfers id t (commanded c now t1)
        (ok_or-eq-ok (get id s.transfers) (unknown_transfer id) t found)
        (λ terminal. no_transition t t1 (command_target c) terminal moved))

pub set_bytes-Keeps :
    (s : CoreState) (id completed : ℕ) (now : ℤ) (at : ℕ) (s' : CoreState)
    → set_completed_bytes s id completed now at ≡ ok s'
    → Keeps s.transfers s'.transfers
unfolding set_completed_bytes queue_transfers_changed
set_bytes-Keeps s id completed now at s' h =
    let (t, found, last) = >>=-eq-ok (ok_or (get id s.transfers) (unknown_transfer id)) _ h in
    let t1 : TransferSnapshot = record t {
      completed_bytes = min completed t.total_bytes;
      bytes_per_second = 0;
      updated_unix_ms = now;
    } in
    let is : s'.transfers ≡ insert id t1 s.transfers = ground arith in
    rw is (
      insert-Keeps s.transfers id t t1
        (ok_or-eq-ok (get id s.transfers) (unknown_transfer id) t found) (λ terminal. refl))

pub update_bytes-Keeps :
    (speed_of : ℕ → ℕ → ℕ) (s : CoreState) (id added : ℕ) (now : ℤ) (at : ℕ) (s' : CoreState)
    → update_completed_bytes speed_of s id added now at ≡ ok s'
    → Keeps s.transfers s'.transfers
unfolding update_completed_bytes queue_transfers_changed progress
update_bytes-Keeps speed_of s id added now at s' h =
    let (t, found, last) = >>=-eq-ok (ok_or (get id s.transfers) (unknown_transfer id)) _ h in
    let t1 = (progress speed_of t (get id s.progress_samples) now at added).0 in
    let is : s'.transfers ≡ insert id t1 s.transfers = ground arith in
    rw is (
      insert-Keeps s.transfers id t t1
        (ok_or-eq-ok (get id s.transfers) (unknown_transfer id) t found) (λ terminal. refl))

pub change_if-Keeps :
    (test : TransferSnapshot → Bool) (change : TransferSnapshot → TransferSnapshot) (id : ℕ)
    (s : CoreState)
    → ((t : TransferSnapshot) → is_terminal t.state ≡ true → test t ≡ false)
    → Keeps s.transfers (change_if test change id s).transfers
change_if-Keeps test change id s never = elim (Option-cases (get id s.transfers)) [
  | inl absent ↦ rw absent (λ j t here terminal. (t, here, refl))
  | inr (t, found) ↦ elim (Bool-cases (test t)) [
    | inl yes_ ↦
        rw (found, yes_)
          (insert-Keeps s.transfers id t (change t) found (λ terminal. cc (never t terminal, yes_)))
    | inr no_ ↦ rw (found, no_) (λ j u here terminal. (u, here, refl))
  ]
]
