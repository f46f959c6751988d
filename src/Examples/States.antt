-- ===== src/Examples/States.antt =====
-- Concrete transfers and commands of model.rs.
use transfer_assistant.Prelude.{◌≡◌, refl, err, List, [], ◌∷◌, some, none, text, pos, ◌≤◌, length}
use transfer_assistant.Model.{
  TransferSnapshot, TransferState, outgoing, preparing, transferring, paused, verifying, completed,
  interrupted, retry, apply_command, can_transition_to, is_terminal, invalid_transition,
}
use transfer_assistant.Model.Lifecycle.{
  run_states, EndsVerified, completed_after_verifying, completion_reachable,
}
use transfer_assistant.Model.Commands.{command_outcome}

abbrev sending : TransferSnapshot
sending = record {
  id = 7;
  peer_id = text "peer";
  peer_name = text "desk";
  direction = outgoing;
  state = transferring;
  item_count = 2;
  total_bytes = 10;
  completed_bytes = 4;
  bytes_per_second = 1;
  created_unix_ms = pos 1;
  updated_unix_ms = pos 2;
  error = none;
}

abbrev whole_way : List TransferState
whole_way = transferring ∷ interrupted ∷ preparing ∷ transferring ∷ verifying ∷ completed ∷ []

completed_after_verifying_example : EndsVerified whole_way
unfolding run_states can_transition_to
completed_after_verifying_example =
    completed_after_verifying preparing whole_way (λ e. cc) (λ e. cc) refl

completion_reachable_example :
    (states : List TransferState) × (run_states paused states ≡ some completed)
    × (length states ≤ 4)
unfolding is_terminal
completion_reachable_example = completion_reachable paused refl

command_outcome_example :
    apply_command sending retry ≡ err (invalid_transition transferring preparing)
command_outcome_example = (command_outcome sending retry).1 refl
