-- ===== src/Model.antt =====
-- native/transfer_core/src/model.rs: the lifecycle of a transfer and its snapshot. A method that
-- takes `&mut self` returns the new snapshot; on an error the source leaves the old one as it was.
pub mod Lifecycle
pub mod Commands
use transfer_assistant.Prelude.{
  ℕ, Bool, true, false, not, ◌&&◌, ◌||◌, Option, none, Result, ok, err, Text, ℤ, if◌then◌else◌,
}

pub data TransferDirection : Type 0 where
  incoming outgoing : TransferDirection

pub data TransferState : Type 0 where
  preparing connecting pairing waiting_for_acceptance transferring paused : TransferState
  interrupted verifying completed failed cancelled : TransferState

unfoldable pub is_terminal : TransferState → Bool
is_terminal completed = true
is_terminal cancelled = true
is_terminal _ = false

unfoldable pub is_active : TransferState → Bool
is_active completed = false
is_active failed = false
is_active cancelled = false
is_active _ = true

-- The arms of the `match` below its first, which has a guard.
can_transition_table : TransferState → TransferState → Bool
can_transition_table preparing connecting = true
can_transition_table preparing transferring = true
can_transition_table preparing failed = true
can_transition_table connecting pairing = true
can_transition_table connecting waiting_for_acceptance = true
can_transition_table connecting transferring = true
can_transition_table connecting interrupted = true
can_transition_table connecting failed = true
can_transition_table pairing waiting_for_acceptance = true
can_transition_table pairing failed = true
can_transition_table waiting_for_acceptance transferring = true
can_transition_table waiting_for_acceptance interrupted = true
can_transition_table waiting_for_acceptance failed = true
can_transition_table transferring paused = true
can_transition_table transferring interrupted = true
can_transition_table transferring verifying = true
can_transition_table transferring failed = true
can_transition_table paused transferring = true
can_transition_table paused interrupted = true
can_transition_table paused failed = true
can_transition_table interrupted preparing = true
can_transition_table failed preparing = true
can_transition_table verifying completed = true
can_transition_table verifying failed = true
can_transition_table _ _ = false

abbrev pub is_cancelled_state : TransferState → Bool
is_cancelled_state cancelled = true
is_cancelled_state _ = false

unfoldable pub can_transition_to : TransferState → TransferState → Bool
unfolding is_terminal can_transition_table
can_transition_to state next =
    if is_cancelled_state next && not (is_terminal state)
    then true
    else can_transition_table state next

pub data TransferCommand : Type 0 where
  pause resume cancel retry : TransferCommand

pub record TransferSnapshot : Type 0 where
  pub id : ℕ
  pub peer_id : Text
  pub peer_name : Text
  pub direction : TransferDirection
  pub state : TransferState
  pub item_count : ℕ
  pub total_bytes : ℕ
  pub completed_bytes : ℕ
  pub bytes_per_second : ℕ
  pub created_unix_ms : ℤ
  pub updated_unix_ms : ℤ
  pub error : Option Text

-- The fresh `Uuid::new_v4()` is the first argument.
unfoldable pub new_outgoing : ℕ → Text → Text → ℕ → ℕ → ℤ → TransferSnapshot
new_outgoing id peer_id peer_name item_count total_bytes now_unix_ms = record {
  id = id;
  peer_id = peer_id;
  peer_name = peer_name;
  direction = outgoing;
  state = preparing;
  item_count = item_count;
  total_bytes = total_bytes;
  completed_bytes = 0;
  bytes_per_second = 0;
  created_unix_ms = now_unix_ms;
  updated_unix_ms = now_unix_ms;
  error = none;
}

unfoldable pub new_incoming : ℕ → Text → Text → ℕ → ℕ → ℤ → TransferSnapshot
new_incoming id peer_id peer_name item_count total_bytes now_unix_ms = record {
  id = id;
  peer_id = peer_id;
  peer_name = peer_name;
  direction = incoming;
  state = waiting_for_acceptance;
  item_count = item_count;
  total_bytes = total_bytes;
  completed_bytes = 0;
  bytes_per_second = 0;
  created_unix_ms = now_unix_ms;
  updated_unix_ms = now_unix_ms;
  error = none;
}

pub data LifecycleError : Type 0 where
  invalid_transition : TransferState → TransferState → LifecycleError

unfoldable pub transition_to :
    TransferSnapshot → TransferState → Result LifecycleError TransferSnapshot
transition_to s next =
    if can_transition_to s.state next
    then ok (record s { state = next })
    else err (invalid_transition s.state next)

-- The state that a command asks for.
abbrev pub command_target : TransferCommand → TransferState
command_target pause = paused
command_target resume = transferring
command_target cancel = cancelled
command_target retry = preparing

unfoldable pub apply_command :
    TransferSnapshot → TransferCommand → Result LifecycleError TransferSnapshot
unfolding transition_to
apply_command s command = transition_to s (command_target command)

pub record TrustedPeer : Type 0 where
  pub peer_id : Text
  pub display_name : Text
  pub certificate_fingerprint : Text
  pub created_unix_ms : ℤ
  pub last_seen_unix_ms : ℤ
  pub auto_accept : Bool
