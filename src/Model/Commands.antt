-- ===== src/Model/Commands.antt =====
-- The user's commands on a snapshot.
use transfer_assistant.Prelude.{◌≡◌, true, false, ok, err, arith, Bool, not}
use transfer_assistant.Model.{
  TransferState, preparing, connecting, waiting_for_acceptance, transferring, paused, interrupted,
  failed, is_terminal, can_transition_to, TransferSnapshot, TransferCommand, pause, resume, cancel,
  retry, command_target, apply_command, invalid_transition,
}

-- When each command is accepted, written from the user's side.
abbrev pub accepts : TransferCommand → TransferState → Bool
accepts pause transferring = true
accepts resume paused = true
accepts resume preparing = true
accepts resume connecting = true
accepts resume waiting_for_acceptance = true
accepts retry interrupted = true
accepts retry failed = true
accepts cancel state = not (is_terminal state)
accepts _ _ = false

accepts-can_transition_to :
    (c : TransferCommand) (state : TransferState)
    → can_transition_to state (command_target c) ≡ accepts c state
unfolding can_transition_to
accepts-can_transition_to pause state = ground arith
accepts-can_transition_to resume state = ground arith
accepts-can_transition_to cancel state = ground arith
accepts-can_transition_to retry state = ground arith

-- A command is carried out exactly in the states listed by `accepts`: it then changes the state to
-- its target and nothing else. In every other state it is refused with both states named.
pub command_outcome :
    (s : TransferSnapshot) (c : TransferCommand)
    → (accepts c s.state ≡ true → apply_command s c ≡ ok (record s { state = command_target c }))
      × (accepts c s.state ≡ false
          → apply_command s c ≡ err (invalid_transition s.state (command_target c)))
unfolding apply_command
command_outcome s c = (
  λ h. ground (arith, accepts-can_transition_to c s.state),
  λ h. ground (arith, accepts-can_transition_to c s.state),
)

-- Pausing and then resuming gives back the snapshot that was paused.
pub resume-pause :
    (s t : TransferSnapshot) → apply_command s pause ≡ ok t → apply_command t resume ≡ ok s
unfolding apply_command can_transition_to
resume-pause s t h = ground arith
