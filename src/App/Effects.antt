-- ===== src/App/Effects.antt =====
-- What each function of core.rs that holds the lock for its whole body does to the transfers in memory
-- and to their rows.
use transfer_assistant.Prelude.{
  ℕ, ◌≡◌, refl, ap, ◌∙◌, if◌then◌else◌, Bool, some, Result, ok, >>=-eq-ok, map_err, map_err-eq-ok,
  ok_or, Text, ℤ, arith, Bool-cases, Option-cases, List, Dict, inl, inr, get, insert, nat_eq, min,
}
use transfer_assistant.Model.{
  TransferSnapshot, TransferState, TransferCommand, LifecycleError, transition_to, apply_command,
  command_target,
}
use transfer_assistant.Control.{
  pause_control_from_remote, resume_control_from_remote, cancel_control_from_remote,
}
use transfer_assistant.Persistence.{TransferRepository, save_transfer, upsert_transfer}
use transfer_assistant.Core.{
  CoreState, unknown_transfer, lifecycle_error, update_transfer, transition_transfer, fail_transfer,
  interrupt_transfer, cancel_transfer_with_error, register_incoming_control,
  unregister_incoming_control, queue_transfers_changed, end_with,
}
use transfer_assistant.Core.Handlers.{
  set_completed_bytes, update_completed_bytes, command_transfer, progress, commanded, change_if,
  pause_from_remote, resume_from_remote, cancel_from_remote, on_controls,
}
use transfer_assistant.Core.Terminal.{ok_or-eq-ok}
use transfer_assistant.Core.Lifetime.{
  CoreStep, transitions, fails, interrupts, cancels, commands, sets_bytes, updates_bytes,
  pauses_remotely, resumes_remotely, cancels_remotely, registers, unregisters,
}
use transfer_assistant.App.Mirror.{IsKeyed, get-IsKeyed}

-- A change of one transfer by a function that keeps its id.
abbrev KeepsId : (TransferSnapshot → Result LifecycleError TransferSnapshot) → Type 0
KeepsId f = (t t1 : TransferSnapshot) → f t ≡ ok t1 → t1.id ≡ t.id

-- What a locked section does to the transfers: one is put into memory and saved; one is put into
-- memory in the state it had; or memory and rows stay.
pub data Effect (d : Dict ℕ TransferSnapshot) (rows : List TransferSnapshot)
    (d' : Dict ℕ TransferSnapshot) (rows' : List TransferSnapshot) : Type 0 where
  puts :
      (id : ℕ) (t : TransferSnapshot)
      → t.id ≡ id
      → d' ≡ insert id t d
      → rows' ≡ upsert_transfer t rows
      → Effect d rows d' rows'
  puts_unsaved :
      (id : ℕ) (old t : TransferSnapshot)
      → get id d ≡ some old
      → t.id ≡ id
      → t.state ≡ old.state
      → d' ≡ insert id t d
      → rows' ≡ rows
      → Effect d rows d' rows'
  stays : d' ≡ d → rows' ≡ rows → Effect d rows d' rows'

abbrev pub Does : CoreState → CoreState → Type 0
Does s s' =
    Effect s.transfers (CoreState.repository s).transfers s'.transfers
      (CoreState.repository s').transfers

changed-Does :
    (s s' : CoreState) (id : ℕ) (t t1 : TransferSnapshot)
    → IsKeyed s.transfers
    → get id s.transfers ≡ some t
    → t1.id ≡ t.id
    → s'.transfers ≡ insert id t1 s.transfers
    → s'.repository.transfers ≡ upsert_transfer t1 s.repository.transfers
    → Does s s'
changed-Does s s' id t t1 m found same = puts id t1 (same ∙ get-IsKeyed id s.transfers t m found)

unsaved-Does :
    (s s' : CoreState) (id : ℕ) (t t1 : TransferSnapshot)
    → IsKeyed s.transfers
    → get id s.transfers ≡ some t
    → t1.id ≡ t.id
    → t1.state ≡ t.state
    → s'.transfers ≡ insert id t1 s.transfers
    → s'.repository.transfers ≡ s.repository.transfers
    → Does s s'
unsaved-Does s s' id t t1 m found same still is saved =
    puts_unsaved id t t1 found (same ∙ get-IsKeyed id s.transfers t m found) still is saved

update-Does :
    (s : CoreState) (id : ℕ) (now : ℤ)
    (f : TransferSnapshot → Result LifecycleError TransferSnapshot) (s' : CoreState)
    → KeepsId f
    → IsKeyed s.transfers
    → update_transfer s id now f ≡ ok s'
    → Does s s'
unfolding update_transfer queue_transfers_changed save_transfer
update-Does s id now f s' keeps m h =
    let (t, found, later) = >>=-eq-ok (ok_or (get id s.transfers) (unknown_transfer id)) _ h in
    let (t1, changed, last) = >>=-eq-ok (map_err lifecycle_error (f t)) _ later in
    let t2 : TransferSnapshot = record t1 { updated_unix_ms = now } in
    let is : s'.transfers ≡ insert id t2 s.transfers = ground arith in
    let saved : s'.repository.transfers ≡ upsert_transfer t2 s.repository.transfers =
      ground arith in
    changed-Does s s' id t t2 m (ok_or-eq-ok (get id s.transfers) (unknown_transfer id) t found)
      (keeps t t1 (map_err-eq-ok lifecycle_error (f t) changed)) is saved

transition_to_id : (next : TransferState) → KeepsId (λ t. transition_to t next)
unfolding transition_to
transition_to_id next t t1 h = ground arith

end_with_id :
    (state : TransferState) (message : Text) → KeepsId (λ t. ok (end_with state message t))
end_with_id state message t t1 h = ground arith

transition-Does :
    (s : CoreState) (id : ℕ) (now : ℤ) (next : TransferState) (s' : CoreState)
    → IsKeyed s.transfers
    → transition_transfer s id now next ≡ ok s'
    → Does s s'
unfolding transition_transfer
transition-Does s id now next s' m h =
    update-Does s id now _ s'
      (λ t t1 changed.
        let (t2, moved, rest) = >>=-eq-ok (transition_to t next) _ changed in
        let is : t1.id ≡ t2.id = ground arith in is ∙ transition_to_id next t t2 moved)
      m h

pub command-Does :
    (s : CoreState) (id : ℕ) (now : ℤ) (c : TransferCommand) (s' : CoreState)
    → IsKeyed s.transfers
    → command_transfer s id now c ≡ ok s'
    → Does s s'
unfolding command_transfer queue_transfers_changed apply_command save_transfer
command-Does s id now c s' m h =
    let (t, found, later) = >>=-eq-ok (ok_or (get id s.transfers) (unknown_transfer id)) _ h in
    let (t1, changed, last) = >>=-eq-ok (map_err lifecycle_error (apply_command t c)) _ later in
    let moved = map_err-eq-ok lifecycle_error (apply_command t c) changed in
    let is : s'.transfers ≡ insert id (commanded c now t1) s.transfers = ground arith in
    let saved : s'.repository.transfers
        ≡ upsert_transfer (commanded c now t1) s.repository.transfers =
      ground arith in
    changed-Does s s' id t (commanded c now t1) m
      (ok_or-eq-ok (get id s.transfers) (unknown_transfer id) t found)
      (transition_to_id (command_target c) t t1 moved) is saved

set_bytes-Does :
    (s : CoreState) (id completed : ℕ) (now : ℤ) (at : ℕ) (s' : CoreState)
    → IsKeyed s.transfers
    → set_completed_bytes s id completed now at ≡ ok s'
    → Does s s'
unfolding set_completed_bytes queue_transfers_changed save_transfer
set_bytes-Does s id completed now at s' m h =
    let (t, found, last) = >>=-eq-ok (ok_or (get id s.transfers) (unknown_transfer id)) _ h in
    let t1 : TransferSnapshot = record t {
      completed_bytes = min completed t.total_bytes;
      bytes_per_second = 0;
      updated_unix_ms = now;
    } in
    let is : s'.transfers ≡ insert id t1 s.transfers = ground arith in
    let saved : s'.repository.transfers ≡ upsert_transfer t1 s.repository.transfers =
      ground arith in
    changed-Does s s' id t t1 m (ok_or-eq-ok (get id s.transfers) (unknown_transfer id) t found)
      refl is saved

-- Counted bytes are saved only now and then, but the state of the transfer stays.
update_bytes-Does :
    (speed_of : ℕ → ℕ → ℕ) (s : CoreState) (id added : ℕ) (now : ℤ) (at : ℕ) (s' : CoreState)
    → IsKeyed s.transfers
    → update_completed_bytes speed_of s id added now at ≡ ok s'
    → Does s s'
unfolding update_completed_bytes queue_transfers_changed progress save_transfer
update_bytes-Does speed_of s id added now at s' m h =
    let (t, found, last) = >>=-eq-ok (ok_or (get id s.transfers) (unknown_transfer id)) _ h in
    let r = progress speed_of t (get id s.progress_samples) now at added in
    let here = ok_or-eq-ok (get id s.transfers) (unknown_transfer id) t found in
    let is : s'.transfers ≡ insert id r.0 s.transfers = ground arith in
    let saved : s'.repository ≡ (if r.2 then save_transfer s.repository r.0 else s.repository) =
      ground arith in
    elim (Bool-cases r.2) [
      | inl now_saved ↦
          let rows : s'.repository ≡ save_transfer s.repository r.0 = saved ∙ rw now_saved refl in
          changed-Does s s' id t r.0 m here refl is (ap TransferRepository.transfers rows)
      | inr not_yet ↦
          let rows : s'.repository ≡ s.repository = saved ∙ rw not_yet refl in
          unsaved-Does s s' id t r.0 m here refl refl is (ap TransferRepository.transfers rows)
    ]

abbrev saved_change : TransferSnapshot → ℕ → CoreState → CoreState
saved_change t id s = record s {
  transfers = insert id t s.transfers;
  repository = save_transfer s.repository t;
}

change_if-Does :
    (test : TransferSnapshot → Bool) (change : TransferSnapshot → TransferSnapshot) (id : ℕ)
    (s : CoreState)
    → ((t : TransferSnapshot) → TransferSnapshot.id (change t) ≡ t.id)
    → IsKeyed s.transfers
    → Does s (change_if test change id s)
unfolding save_transfer
change_if-Does test change id s keeps m = elim (Option-cases (get id s.transfers)) [
  | inl absent ↦ rw absent (stays refl refl)
  | inr (t, found) ↦ elim (Bool-cases (test t)) [
    | inl yes_ ↦
        rw (found, yes_)
          (changed-Does s (saved_change (change t) id s) id t (change t) m found (keeps t) refl
            refl)
    | inr no_ ↦ rw (found, no_) (stays refl refl)
  ]
]

module _ (speed_of : ℕ → ℕ → ℕ) where
  pub step-Does : {s s' : CoreState} → CoreStep speed_of s s' → IsKeyed s.transfers → Does s s'
  unfolding fail_transfer interrupt_transfer cancel_transfer_with_error pause_from_remote
      resume_from_remote cancel_from_remote queue_transfers_changed register_incoming_control
      unregister_incoming_control save_transfer
  step-Does (transitions {s} {s'} id now next h) m = transition-Does s id now next s' m h
  step-Does (fails {s} {s'} id now message h) m =
      update-Does s id now _ s' (end_with_id TransferState.failed message) m h
  step-Does (interrupts {s} {s'} id now message h) m =
      update-Does s id now _ s' (end_with_id TransferState.interrupted message) m h
  step-Does (cancels {s} {s'} id now message h) m =
      update-Does s id now _ s' (end_with_id TransferState.cancelled message) m h
  step-Does (commands {s} {s'} id now c h) m = command-Does s id now c s' m h
  step-Does (sets_bytes {s} {s'} id completed now at h) m =
      set_bytes-Does s id completed now at s' m h
  step-Does (updates_bytes {s} {s'} id added now at h) m =
      update_bytes-Does speed_of s id added now at s' m h
  step-Does (pauses_remotely {s} id now) m =
      change_if-Does _ _ id (on_controls pause_control_from_remote id s) (λ t. refl) m
  step-Does (resumes_remotely {s} id now) m =
      change_if-Does _ _ id (on_controls resume_control_from_remote id s) (λ t. refl) m
  step-Does (cancels_remotely {s} id now reason) m =
      change_if-Does _ _ id (on_controls (cancel_control_from_remote reason) id s) (λ t. refl) m
  step-Does (registers id c) m = stays refl refl
  step-Does (unregisters id) m = stays refl refl
