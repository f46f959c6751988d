-- ===== src/App.antt =====
-- TransferCore of native/transfer_core/src/core.rs: what the application calls, in Transfers what
-- sends and commands transfers, in Requests the rest. The lock of the core is not poisoned. A call that
-- fails gives the state that it leaves behind with its error. A task that is spawned is recorded in
-- `started`; what becomes of it is `outgoing_ended`.
pub mod Transfers
pub mod Requests
pub mod Mirror
pub mod Mirrored
pub mod Effects
pub mod Locked
pub mod Calls
pub mod Collected
pub mod Restart
pub mod Stops
pub mod Quiet
pub mod Backed
pub mod Deleted
pub mod Steps
pub mod Scenes
pub mod Sections
pub mod Stopped
pub mod Start
use transfer_assistant.Prelude.{
  ℕ, Bool, true, false, not, ◌&&◌, ◌||◌, List, [], ◌∷◌, ◌++◌, map, Option, none, some, Result, ok,
  err, ◌>>=◌, map_err, ok_or, Text, text, ℤ, filter, if◌then◌else◌, is_empty, trim, Dict, get,
  insert, remove, nat_eq, list_eq, length, ◌=ₜ◌, ◌==◌,
}
use transfer_assistant.Model.{
  TransferSnapshot, TransferCommand, TransferDirection, incoming, outgoing, retry, is_active,
  new_outgoing,
}
use transfer_assistant.Control.{new_control, cancel_control}
use transfer_assistant.Persistence
use transfer_assistant.Persistence.{
  TransferRepository, save_transfer, remove_trusted_peer, clear_trusted_peers,
}
use transfer_assistant.Persistence.Statements
use transfer_assistant.Persistence.Statements.{save_setting}
use transfer_assistant.Core.{
  CoreState, CoreConfig, CoreError, CoreEvent, PeerSummary, StoredOutgoingJob, TransferOffer,
  values, incoming_offer, unknown_transfer, no_sources, unknown_peer, unknown_offer, offer_expired,
  invalid_offer_id, invalid_address, core_stopped, core_io, network_failed, repository_failed,
  queue_transfers_changed, queue_peers_changed, cancel_transfer_with_error, interrupt_transfer,
  fail_transfer,
}
use transfer_assistant.Core.Handlers.{command_transfer, is_cancel}
use transfer_assistant.Core.Peers.{validate_config, upsert_peer}
use transfer_assistant.Sources.{OutgoingJob, SourceHandle}
use transfer_assistant.Sources.Restore.{persist_outgoing_items, Disk}
use transfer_assistant.Wire.{LanError, remote_cancelled, is_cancelled, is_retryable}

pub record OfferAnswer : Type 0 where
  pub accept : Bool
  pub remember_peer : Bool

-- `pending_answers` says of each offer whether the task that asked still waits for the answer.
pub record App : Type 0 where
  pub core : CoreState
  pub config : CoreConfig
  pub pending_answers : Dict ℕ Bool
  pub answered : List (ℕ × OfferAnswer)
  pub started : List ℕ
  pub disk : Disk
  pub shutdown_cancelled : Bool
  pub stopped : Bool

-- The state that a call leaves, with its result.
abbrev pub Call {ℓ} : Type ℓ → Type ℓ
Call A = App × Result CoreError A

-- `self.ensure_running()?` in front of a call.
unfoldable pub running {ℓ} : {A : Type ℓ} → App → Call A → Call A
running a call = if a.stopped then (a, err core_stopped) else call

-- A call that goes on only if a test that changes nothing succeeds.
unfoldable pub checked {ℓ κ} :
    {A : Type ℓ} {B : Type κ} → App → Result CoreError B → (B → Call A) → Call A
checked a (err e) next = (a, err e)
checked a (ok b) next = next b
