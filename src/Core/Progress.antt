-- ===== src/Core/Progress.antt =====
-- What core.rs counts, and what its commands leave in memory, in the repository and in the controls.
use transfer_assistant.Prelude.{
  ℕ, ◌+◌, ◌^◌, ◌≤◌, ◌<◌, min, ◌≡◌, ◌≢◌, refl, true, false, some, ok, err, ℤ, if◌then◌else◌, arith,
  Bool-cases, inl, inr, get, insert, get-insert, nat_eq,
}
use transfer_assistant.Model.{
  TransferSnapshot, TransferCommand, command_target, invalid_transition, paused, is_terminal,
}
use transfer_assistant.Model.Commands.{accepts, command_outcome}
use transfer_assistant.Control.{JobControl}
use transfer_assistant.Persistence.{save_transfer}
use transfer_assistant.Core.{CoreState, lifecycle_error, queue_transfers_changed}
use transfer_assistant.Core.Handlers.{
  update_completed_bytes, progress, command_transfer, commanded, command_incoming, command_controls,
  pause_from_remote,
}

-- Bytes that arrive are counted up to the size of the transfer and never beyond it; no other transfer
-- changes, and when the last byte is counted the repository holds the same snapshot as the memory.
pub update_completed_bytes_lem :
    (speed_of : ℕ → ℕ → ℕ) (s : CoreState) (id added : ℕ) (now : ℤ) (at : ℕ) (t : TransferSnapshot)
    → get id s.transfers ≡ some t
    → t.total_bytes < 2 ^ 64
    → (s' : CoreState) × (t' : TransferSnapshot) × (update_completed_bytes speed_of s id added now
          at
        ≡ ok s')
      × (get id s'.transfers ≡ some t')
      × (t'.completed_bytes ≡ min (t.completed_bytes + added) t.total_bytes)
      × (t'.state ≡ t.state)
      × ((j : ℕ) → j ≢ id → get j s'.transfers ≡ get j s.transfers)
      × (t.total_bytes ≤ t'.completed_bytes → s'.repository ≡ save_transfer s.repository t')
unfolding update_completed_bytes progress queue_transfers_changed
update_completed_bytes_lem speed_of s id added now at t found small =
    let r = progress speed_of t (get id s.progress_samples) now at added in
    let counted : r.0.completed_bytes ≡ min (t.completed_bytes + added) t.total_bytes =
      omega arith in
    (
      queue_transfers_changed (record s {
        transfers = insert id r.0 s.transfers;
        progress_samples = insert id r.1 s.progress_samples;
        repository = if r.2 then save_transfer s.repository r.0 else s.repository;
      }),
      r.0,
      rw found refl,
      ground (arith, get-insert id id r.0 s.transfers),
      counted,
      refl,
      λ j ne. ground (arith, get-insert id j r.0 s.transfers),
      λ full. ground arith,
    )

-- A command on a known transfer that its state accepts is carried out in memory and in the repository
-- alike, leaves all other transfers as they are, and reaches the control of a running reception; one
-- that its state does not accept, or on an unknown transfer, is refused.
pub command_transfer_outcome :
    (s : CoreState) (id : ℕ) (now : ℤ) (c : TransferCommand) (t : TransferSnapshot)
    → get id s.transfers ≡ some t
    → (accepts c t.state ≡ true
        → (s' : CoreState) × (t' : TransferSnapshot) × (command_transfer s id now c ≡ ok s')
          × (get id s'.transfers ≡ some t')
          × (t'.state ≡ command_target c)
          × (s'.repository ≡ save_transfer s.repository t')
          × ((j : ℕ) → j ≢ id → get j s'.transfers ≡ get j s.transfers)
          × ((k : JobControl)
              → get id s.incoming_controls ≡ some k
              → get id s'.incoming_controls ≡ some (command_incoming c k)))
      × (accepts c t.state ≡ false
          → command_transfer s id now c
            ≡ err (lifecycle_error (invalid_transition t.state (command_target c))))
unfolding command_transfer queue_transfers_changed
command_transfer_outcome s id now c t found =
    let both = command_outcome t c in
    let t1 : TransferSnapshot = record t { state = command_target c } in
    let t2 = commanded c now t1 in
    (
      λ accepted. (
        queue_transfers_changed (
            command_controls c id (record s {
              transfers = insert id t2 s.transfers;
              repository = save_transfer s.repository t2;
            })),
        t2,
        rw (found, both.0 accepted) refl,
        ground (arith, get-insert id id t2 s.transfers),
        refl,
        refl,
        λ j ne. ground (arith, get-insert id j t2 s.transfers),
        λ k here.
            rw here (ground (arith, get-insert id id (command_incoming c k) s.incoming_controls)),
      ),
      λ refused. rw (found, both.1 refused) refl,
    )

-- The peer's pause takes any transfer that is not completed or cancelled to `Paused`, also one whose
-- own table of transitions does not allow it; a completed or cancelled one keeps its state.
pub pause_from_remote_outcome :
    (s : CoreState) (id : ℕ) (now : ℤ) (t : TransferSnapshot)
    → get id s.transfers ≡ some t
    → (t' : TransferSnapshot) × (get id (pause_from_remote s id now).transfers ≡ some t')
      × (t'.state ≡ (if is_terminal t.state then t.state else paused))
unfolding pause_from_remote queue_transfers_changed
pause_from_remote_outcome s id now t found = elim (Bool-cases (is_terminal t.state)) [
  | inl ended ↦ (t, rw (found, ended) found, rw ended refl)
  | inr running ↦
      let t1 : TransferSnapshot = record t {
        state = paused;
        bytes_per_second = 0;
        updated_unix_ms = now;
      } in
      (t1, rw (found, running) (ground (arith, get-insert id id t1 s.transfers)), rw running refl)
]
