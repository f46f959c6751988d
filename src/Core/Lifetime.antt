-- ===== src/Core/Lifetime.antt =====
-- The functions of core.rs as steps of the state, and what no sequence of them changes.
use transfer_assistant.Prelude.{
  get-insert, get-remove, some, Bool, not, ◌&&◌, ◌==◌, ℕ, ◌≡◌, refl, ◌∙◌, true, false, ok, Text, ℤ,
  arith, get, nat_eq,
}
use transfer_assistant.Model.{TransferSnapshot, TransferState, TransferCommand, is_terminal}
use transfer_assistant.Control.{
  JobControl, pause_control_from_remote, resume_control_from_remote, cancel_control_from_remote,
}
use transfer_assistant.Core.{
  CoreState, transition_transfer, fail_transfer, interrupt_transfer, cancel_transfer_with_error,
  PeerSummary, remember_transfer, remember_outgoing, forget_finished, forget_transfer,
  queue_transfers_changed, register_incoming_control, unregister_incoming_control,
}
use transfer_assistant.Persistence.{TransferRepository}
use transfer_assistant.Sources.{OutgoingJob}
use transfer_assistant.Core.Handlers.{
  set_completed_bytes, update_completed_bytes, pause_from_remote, resume_from_remote,
  cancel_from_remote, command_transfer, is_paused_state, on_controls,
}
use transfer_assistant.Core.Terminal.{
  Keeps, update-Keeps, end_with_kept, transition-Keeps, command-Keeps, set_bytes-Keeps,
  update_bytes-Keeps, change_if-Keeps,
}

-- One call that holds the lock for its whole body.
pub data CoreStep (speed_of : ℕ → ℕ → ℕ) : CoreState → CoreState → Type 0 where
  transitions :
      {s s' : CoreState} (id : ℕ) (now : ℤ) (next : TransferState)
      → transition_transfer s id now next ≡ ok s'
      → CoreStep speed_of s s'
  fails :
      {s s' : CoreState} (id : ℕ) (now : ℤ) (message : Text)
      → fail_transfer s id now message ≡ ok s'
      → CoreStep speed_of s s'
  interrupts :
      {s s' : CoreState} (id : ℕ) (now : ℤ) (message : Text)
      → interrupt_transfer s id now message ≡ ok s'
      → CoreStep speed_of s s'
  cancels :
      {s s' : CoreState} (id : ℕ) (now : ℤ) (message : Text)
      → cancel_transfer_with_error s id now message ≡ ok s'
      → CoreStep speed_of s s'
  commands :
      {s s' : CoreState} (id : ℕ) (now : ℤ) (c : TransferCommand)
      → command_transfer s id now c ≡ ok s'
      → CoreStep speed_of s s'
  sets_bytes :
      {s s' : CoreState} (id completed : ℕ) (now : ℤ) (at : ℕ)
      → set_completed_bytes s id completed now at ≡ ok s'
      → CoreStep speed_of s s'
  updates_bytes :
      {s s' : CoreState} (id added : ℕ) (now : ℤ) (at : ℕ)
      → update_completed_bytes speed_of s id added now at ≡ ok s'
      → CoreStep speed_of s s'
  pauses_remotely :
      {s : CoreState} (id : ℕ) (now : ℤ) → CoreStep speed_of s (pause_from_remote s id now)
  resumes_remotely :
      {s : CoreState} (id : ℕ) (now : ℤ) → CoreStep speed_of s (resume_from_remote s id now)
  cancels_remotely :
      {s : CoreState} (id : ℕ) (now : ℤ) (reason : Text)
      → CoreStep speed_of s (cancel_from_remote s id now reason)
  registers :
      {s : CoreState} (id : ℕ) (c : JobControl)
      → CoreStep speed_of s (register_incoming_control s id c)
  unregisters : {s : CoreState} (id : ℕ) → CoreStep speed_of s (unregister_incoming_control s id)

-- What can happen to the state in memory, one locked section at a time: the functions above; the
-- locked halves of adding and sending a transfer, of clearing the history and of deleting from it,
-- whatever the ids; and a write to the repository, which needs no lock.
pub data MemoryStep (speed_of : ℕ → ℕ → ℕ) : CoreState → CoreState → Type 0 where
  changes : {s s' : CoreState} → CoreStep speed_of s s' → MemoryStep speed_of s s'
  adds : {s : CoreState} (t : TransferSnapshot) → MemoryStep speed_of s (remember_transfer t s)
  sends :
      {s : CoreState} (t : TransferSnapshot) (peer : PeerSummary) (job : OutgoingJob)
      → MemoryStep speed_of s (remember_outgoing t peer job s)
  clears_history : {s : CoreState} → MemoryStep speed_of s (forget_finished s)
  deletes : {s : CoreState} (id : ℕ) → MemoryStep speed_of s (forget_transfer id s)
  writes :
      {s : CoreState} (r : TransferRepository) → MemoryStep speed_of s (record s { repository = r })

pub data MemorySteps (speed_of : ℕ → ℕ → ℕ) : CoreState → CoreState → Type 0 where
  no_steps : {s : CoreState} → MemorySteps speed_of s s
  then_steps :
      {s s' s'' : CoreState}
      → MemoryStep speed_of s s'
      → MemorySteps speed_of s' s''
      → MemorySteps speed_of s s''

-- No transfer is added or sent under the id, the history is not cleared, and the transfer of the id
-- is not deleted from it.
abbrev pub spares_step :
    {speed_of : ℕ → ℕ → ℕ} {s s' : CoreState} → ℕ → MemoryStep speed_of s s' → Bool
spares_step id (changes step) = true
spares_step id (adds t) = not (TransferSnapshot.id t == id)
spares_step id (sends t peer job) = not (TransferSnapshot.id t == id)
spares_step id clears_history = false
spares_step id (deletes j) = not (j == id)
spares_step id (writes r) = true

abbrev pub spares : {speed_of : ℕ → ℕ → ℕ} {s s' : CoreState} → ℕ → MemorySteps speed_of s s' → Bool
spares id no_steps = true
spares id (then_steps step rest) = let later = spares id rest in spares_step id step && later

paused_not_terminal :
    (state : TransferState) → is_terminal state ≡ true → is_paused_state state ≡ false
unfolding is_terminal
paused_not_terminal TransferState.paused e = cc
paused_not_terminal state e = ground arith

module _ (speed_of : ℕ → ℕ → ℕ) where
  step-Keeps : {s s' : CoreState} → CoreStep speed_of s s' → Keeps s.transfers s'.transfers
  unfolding fail_transfer interrupt_transfer cancel_transfer_with_error pause_from_remote
      resume_from_remote cancel_from_remote queue_transfers_changed register_incoming_control
      unregister_incoming_control is_terminal
  step-Keeps (transitions {s} {s'} id now next h) = transition-Keeps s id now next s' h
  step-Keeps (fails {s} {s'} id now message h) =
      update-Keeps s id now _ s' (λ t t1 e c. end_with_kept TransferState.failed message t t1 e c) h
  step-Keeps (interrupts {s} {s'} id now message h) =
      update-Keeps s id now _ s'
        (λ t t1 e c. end_with_kept TransferState.interrupted message t t1 e c) h
  step-Keeps (cancels {s} {s'} id now message h) =
      update-Keeps s id now _ s'
        (λ t t1 e c. end_with_kept TransferState.cancelled message t t1 e c) h
  step-Keeps (commands {s} {s'} id now c h) = command-Keeps s id now c s' h
  step-Keeps (sets_bytes {s} {s'} id completed now at h) =
      set_bytes-Keeps s id completed now at s' h
  step-Keeps (updates_bytes {s} {s'} id added now at h) =
      update_bytes-Keeps speed_of s id added now at s' h
  step-Keeps (pauses_remotely {s} id now) =
      change_if-Keeps _ _ id (on_controls pause_control_from_remote id s) (λ t e. ground arith)
  step-Keeps (resumes_remotely {s} id now) =
      change_if-Keeps _ _ id (on_controls resume_control_from_remote id s)
        (λ t e. paused_not_terminal t.state e)
  step-Keeps (cancels_remotely {s} id now reason) =
      change_if-Keeps _ _ id (on_controls (cancel_control_from_remote reason) id s)
        (λ t e. ground arith)
  step-Keeps (registers id c) = λ j t here terminal. (t, here, refl)
  step-Keeps (unregisters id) = λ j t here terminal. (t, here, refl)

  MemoryStep-Keeps :
      {s s' : CoreState} (step : MemoryStep speed_of s s') (id : ℕ) (t : TransferSnapshot)
      → spares_step id step ≡ true
      → get id s.transfers ≡ some t
      → is_terminal t.state ≡ true
      → (t' : TransferSnapshot) × (get id s'.transfers ≡ some t') × (t'.state ≡ t.state)
  unfolding remember_transfer remember_outgoing forget_transfer queue_transfers_changed
  MemoryStep-Keeps (changes step) id t spared here terminal = step-Keeps step id t here terminal
  MemoryStep-Keeps (adds {s} u) id t spared here terminal =
      (t, ground (arith, get-insert (TransferSnapshot.id u) id u s.transfers), refl)
  MemoryStep-Keeps (sends {s} u peer job) id t spared here terminal =
      (t, ground (arith, get-insert (TransferSnapshot.id u) id u s.transfers), refl)
  MemoryStep-Keeps clears_history id t spared here terminal = cc
  MemoryStep-Keeps (deletes {s} j) id t spared here terminal =
      (t, ground (arith, get-remove j id s.transfers), refl)
  MemoryStep-Keeps (writes r) id t spared here terminal = (t, here, refl)

  -- Once a transfer is completed or cancelled, it stays in memory in that state: in any sequence of
  -- the locked sections of the calls of the user, the peer and the running tasks, and of writes to the
  -- repository between them, in which no transfer is added or sent under its id, the user does not
  -- clear the history, and does not delete the transfer from it.
  pub steps-Keeps :
      (s s' : CoreState) (steps : MemorySteps speed_of s s') (id : ℕ) (t : TransferSnapshot)
      → spares id steps ≡ true
      → get id s.transfers ≡ some t
      → is_terminal t.state ≡ true
      → (t' : TransferSnapshot) × (get id s'.transfers ≡ some t') × (t'.state ≡ t.state)
  steps-Keeps s s' no_steps id t spared here terminal = (t, here, refl)
  steps-Keeps _ _ (then_steps {s} {s'} {s''} step rest) id t spared here terminal =
      let both : (spares_step id step ≡ true) × (spares id rest ≡ true) = ground arith in
      let (u, found, same) = MemoryStep-Keeps step id t both.0 here terminal in
      let (w, last, still) = steps-Keeps s' s'' rest id u both.1 found (rw same terminal) in
      (w, last, still ∙ same)
