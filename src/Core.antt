-- ===== src/Core.antt =====
-- native/transfer_core/src/core.rs: the state behind the lock of CoreInner, and the functions that
-- change it. A function that takes the lock for its whole body is one step from a state to the next.
-- add_incoming_transfer, send, clear_history and delete_history_transfer write the repository before
-- they take the lock; their locked halves are functions of their own here, so that other steps can
-- come between the halves. `now` is `now_unix_ms()`, an instant is a number of milliseconds. The
-- repository is that of Persistence, whose statements on transfers do not fail. A `HashMap` is an
-- association list; the order in which it is iterated is the list's. The configuration and the
-- answers to offers are in the state of App.
pub mod Handlers
pub mod Peers
pub mod Progress
pub mod Terminal
pub mod Lifetime
use transfer_assistant.Prelude.{
  ℕ, ◌+◌, ◌-◌, ◌*◌, ◌^◌, min, Bool, true, false, not, ◌&&◌, ◌||◌, List, [], ◌∷◌, ◌++◌, map, Option,
  none, some, Result, ok, err, ◌>>=◌, map_err, ok_or, Text, text, ◌=ₜ◌, ℤ, leb_ℤ, any, leb, ltb,
  ◌==◌, if◌then◌else◌, is_empty, trim, sort_by, filter, Dict, get, insert, remove, nat_eq, list_eq,
  leb_text, list_beq,
}
use transfer_assistant.Model.{
  TransferSnapshot, TransferState, TransferCommand, TransferDirection, incoming, pause, resume,
  cancel, retry, paused, transferring, failed, interrupted, cancelled, is_terminal, is_active,
  LifecycleError, transition_to, apply_command, TrustedPeer,
}
use transfer_assistant.Control.{
  JobControl, new_control, pause_control, resume_control, cancel_control, pause_control_from_remote,
  resume_control_from_remote, cancel_control_from_remote,
}
use transfer_assistant.Sources.{OutgoingJob}
use transfer_assistant.Wire.{LanError}
use transfer_assistant.Identity.{IdentityError}
use transfer_assistant.Persistence.{
  TransferRepository, RepositoryError, save_transfer, trusted_peer,
}
use transfer_assistant.Persistence

pub record PeerSummary : Type 0 where
  pub id : Text
  pub name : Text
  pub address : Text
  pub device_kind : Text
  pub trusted : Bool
  pub online : Bool

pub record CoreConfig : Type 0 where
  pub data_directory : Text
  pub device_name : Text
  pub receive_directory : Text
  pub background_receive : Bool
  pub auto_accept_trusted : Bool
  pub theme_mode : Text
  pub theme_style : Text
  pub has_completed_first_setup : Bool
  pub identity_wrap_key : Option (List ℕ)

pub record TransferOffer : Type 0 where
  pub id : Text
  pub peer_name : Text
  pub item_count : ℕ
  pub total_bytes : ℕ
  pub top_level_names : List Text
  pub pairing_code : Option Text
  pub direction : TransferDirection

-- `settings_loaded` carries the configuration whose fields the event lists.
pub data CoreEvent : Type 0 where
  ready : CoreEvent
  settings_loaded : CoreConfig → CoreEvent
  incoming_offer : TransferOffer → CoreEvent
  failure : Text → CoreEvent
  peers_changed : List PeerSummary → CoreEvent
  transfers_changed : List TransferSnapshot → CoreEvent

pub record ProgressSample : Type 0 where
  pub at : ℕ
  pub completed_bytes : ℕ
  pub last_saved_at : ℕ

pub record StoredOutgoingJob : Type 0 where
  pub peer : PeerSummary
  pub job : OutgoingJob
  pub control : JobControl

pub record CoreState : Type 0 where
  pub peers : Dict Text PeerSummary
  pub transfers : Dict ℕ TransferSnapshot
  pub events : List CoreEvent
  pub outgoing_jobs : Dict ℕ StoredOutgoingJob
  pub incoming_controls : Dict ℕ JobControl
  pub progress_samples : Dict ℕ ProgressSample
  pub repository : TransferRepository

pub data CoreError : Type 0 where
  unknown_transfer : ℕ → CoreError
  lifecycle_error : LifecycleError → CoreError
  empty_device_name : CoreError
  invalid_theme_mode : Text → CoreError
  core_io : CoreError
  identity_failed : IdentityError → CoreError
  repository_failed : RepositoryError → CoreError
  network_failed : LanError → CoreError
  no_sources : CoreError
  unknown_peer : Text → CoreError
  unknown_offer : ℕ → CoreError
  offer_expired : ℕ → CoreError
  invalid_offer_id : Text → CoreError
  invalid_address : Text → CoreError
  core_stopped : CoreError

abbrev pub values {ℓ κ} : {K : Type ℓ} {V : Type κ} → Dict K V → List V
values d = map (λ e. e.1) d

unfoldable pub sorted_transfers : CoreState → List TransferSnapshot
sorted_transfers s =
    sort_by (λ a b. leb_ℤ (TransferSnapshot.updated_unix_ms b) (TransferSnapshot.updated_unix_ms a))
      (values s.transfers)

unfoldable pub queue_transfers_changed : CoreState → CoreState
queue_transfers_changed s = record s {
  events = s.events ++ transfers_changed (sorted_transfers s) ∷ [];
}

unfoldable pub queue_peers_changed : CoreState → CoreState
queue_peers_changed s = record s {
  events =
      s.events
      ++ peers_changed
          (sort_by (λ a b. leb_text (PeerSummary.name a) (PeerSummary.name b)) (values s.peers))
        ∷ [];
}

unfoldable pub update_transfer :
    CoreState
    → ℕ
    → ℤ
    → (TransferSnapshot → Result LifecycleError TransferSnapshot)
    → Result CoreError CoreState
update_transfer s id now update = do
  t ← ok_or (get id s.transfers) (unknown_transfer id)
  t1 ← map_err lifecycle_error (update t)
  ok (
      queue_transfers_changed (record s {
        transfers = insert id (record t1 { updated_unix_ms = now }) s.transfers;
        repository = save_transfer s.repository (record t1 { updated_unix_ms = now });
      }))

abbrev pub is_transferring : TransferState → Bool
is_transferring transferring = true
is_transferring _ = false

unfoldable pub transition_transfer : CoreState → ℕ → ℤ → TransferState → Result CoreError CoreState
transition_transfer s id now next = update_transfer s id now (λ t. do
  t1 ← transition_to t next
  ok (record t1 {
    error = none;
    bytes_per_second = if is_transferring next then t1.bytes_per_second else 0;
  }))

-- The common body of the three functions below.
abbrev pub end_with : TransferState → Text → TransferSnapshot → TransferSnapshot
end_with state message t =
    if is_terminal t.state
    then t
    else record t { state = state; bytes_per_second = 0; error = some message }

unfoldable pub fail_transfer : CoreState → ℕ → ℤ → Text → Result CoreError CoreState
fail_transfer s id now message = update_transfer s id now (λ t. ok (end_with failed message t))

unfoldable pub interrupt_transfer : CoreState → ℕ → ℤ → Text → Result CoreError CoreState
interrupt_transfer s id now message =
    update_transfer s id now (λ t. ok (end_with interrupted message t))

unfoldable pub cancel_transfer_with_error : CoreState → ℕ → ℤ → Text → Result CoreError CoreState
cancel_transfer_with_error s id now message =
    update_transfer s id now (λ t. ok (end_with cancelled message t))

-- The locked half of `add_incoming_transfer`, whatever the id: a transfer of that id is replaced.
unfoldable pub remember_transfer : TransferSnapshot → CoreState → CoreState
remember_transfer t s =
    queue_transfers_changed (record s { transfers = insert (TransferSnapshot.id t) t s.transfers })

-- The row is saved before the lock is taken; here both halves, with nothing in between.
unfoldable pub add_incoming_transfer : CoreState → TransferSnapshot → CoreState
add_incoming_transfer s t =
    remember_transfer t (record s { repository = save_transfer s.repository t })

-- `retain`.
abbrev pub retain {ℓ κ} : {K : Type ℓ} {V : Type κ} → (V → Bool) → Dict K V → Dict K V
retain p d = filter (λ e. p e.1) d

-- The locked halves of `clear_history` and of `delete_history_transfer`.
unfoldable pub forget_finished : CoreState → CoreState
forget_finished s =
    queue_transfers_changed
      (record s { transfers = retain (λ t. is_active (TransferSnapshot.state t)) s.transfers })

unfoldable pub forget_transfer : ℕ → CoreState → CoreState
forget_transfer id s = queue_transfers_changed (record s { transfers = remove id s.transfers })

-- The locked half of `send`.
unfoldable pub remember_outgoing :
    TransferSnapshot → PeerSummary → OutgoingJob → CoreState → CoreState
remember_outgoing t peer job s = queue_transfers_changed (record s {
  transfers = insert (TransferSnapshot.id t) t s.transfers;
  outgoing_jobs =
      insert (TransferSnapshot.id t) (record { peer = peer; job = job; control = new_control })
        s.outgoing_jobs;
})

unfoldable pub register_incoming_control : CoreState → ℕ → JobControl → CoreState
register_incoming_control s id c = record s { incoming_controls = insert id c s.incoming_controls }

unfoldable pub unregister_incoming_control : CoreState → ℕ → CoreState
unregister_incoming_control s id = record s { incoming_controls = remove id s.incoming_controls }
