-- ===== src/Control.antt =====
-- JobControl of native/transfer_core/src/outgoing.rs: the switch between the user or the peer and a
-- running task. A method on the shared object returns the new object; what `control_tx` was sent is
-- a list, none before `register_channel`. The locks are not poisoned.
pub mod Waiting
use transfer_assistant.Prelude.{
  Bool, true, false, List, [], ◌∷◌, ◌++◌, Option, none, some, Result, ok, err, Text, if◌then◌else◌,
  not,
}
use transfer_assistant.Protocol.Messages.{ControlAction, pause_action, resume_action, cancel_action}
use transfer_assistant.Wire.{LanError, cancelled_error, remote_cancelled}

pub record JobControl : Type 0 where
  pub paused : Bool
  pub cancelled : Bool
  pub remote_reason : Option Text
  pub sent : Option (List ControlAction)

-- `JobControl::new`.
abbrev pub new_control : JobControl
new_control = record { paused = false; cancelled = false; remote_reason = none; sent = none }

unfoldable pub register_channel : JobControl → JobControl
register_channel c = record c { sent = some [] }

abbrev pub send_action : ControlAction → Option (List ControlAction) → Option (List ControlAction)
send_action a none = none
send_action a (some actions) = some (actions ++ a ∷ [])

unfoldable pub pause_control : JobControl → JobControl
pause_control c = record c { paused = true; sent = send_action pause_action c.sent }

unfoldable pub resume_control : JobControl → JobControl
resume_control c = record c { paused = false; sent = send_action resume_action c.sent }

unfoldable pub cancel_control : JobControl → JobControl
cancel_control c = record c { cancelled = true; sent = send_action cancel_action c.sent }

unfoldable pub pause_control_from_remote : JobControl → JobControl
pause_control_from_remote c = record c { paused = true }

unfoldable pub resume_control_from_remote : JobControl → JobControl
resume_control_from_remote c = record c { paused = false }

unfoldable pub cancel_control_from_remote : Text → JobControl → JobControl
cancel_control_from_remote reason c = record c { remote_reason = some reason; cancelled = true }

-- One turn of the loop of `checkpoint` up to its `select!`: what it returns, or none if it waits.
unfoldable pub checkpoint : JobControl → Option (Result LanError (Unit {0}))
checkpoint c =
    if c.cancelled
    then some (err (reason_of c.remote_reason))
    else if not c.paused
    then some (ok tt)
    else none
  where
    reason_of : Option Text → LanError
    reason_of none = cancelled_error
    reason_of (some reason) = remote_cancelled reason
