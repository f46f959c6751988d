-- ===== src/App/Stopped.antt =====
-- The calls of an application that was shut down.
use transfer_assistant.Prelude.{
  ℕ, ◌≡◌, refl, ap, Dict, Bool-cases, inl, inr, Bool, true, false, if◌then◌else◌, List, Option,
  Result, err, Text, ℤ,
}
use transfer_assistant.Model.{TransferCommand}
use transfer_assistant.Persistence.{TransferRepository}
use transfer_assistant.Control.{JobControl}
use transfer_assistant.Core.{
  CoreState, CoreConfig, StoredOutgoingJob, sorted_transfers, core_stopped,
}
use transfer_assistant.Sources.{OutgoingJob, SourceHandle}
use transfer_assistant.Wire.{LanError}
use transfer_assistant.App.{App, Call, running}
use transfer_assistant.App.Transfers.{Delete, send, command}
use transfer_assistant.App.Requests.{
  connect_address, answer_offer, update_settings, forget_peer, forget_peers, clear_history,
  delete_history_transfer, refresh_peers, list_trusted_peers, list_history_files,
  list_transfer_items, transfers, next_event, pop_front, shutdown,
}

-- The call does nothing and says that the application is stopped.
abbrev pub Refuses : {A : Type 0} → App → Call A → Type 0
Refuses {A} a call = ◌≡◌ {A = Call A} call (a, err core_stopped)

if_true {ℓ} : {A : Type ℓ} (b : Bool) (x y : A) → b ≡ true → (if b then x else y) ≡ x
if_true true x y e = refl
if_true false x y e = cc

stopped_of_branch :
    (b : Bool) (a c : App)
    → (b ≡ true → a.stopped ≡ true)
    → c.stopped ≡ true
    → App.stopped (if b then a else c) ≡ true
stopped_of_branch true a c before after = before refl
stopped_of_branch false a c before after = after

shutdown_stopped : (a : App) → (shutdown a).stopped ≡ true
unfolding shutdown
shutdown_stopped a = stopped_of_branch a.stopped a _ (λ e. e) refl

shutdown_again : (a : App) → a.stopped ≡ true → shutdown a ≡ a
unfolding shutdown
shutdown_again a stopped = if_true a.stopped a _ stopped

running-Refuses :
    {A : Type 0} (a : App) (call : Call A) → a.stopped ≡ true → Refuses a (running a call)
unfolding running
running-Refuses a call stopped = if_true a.stopped (a, err core_stopped) call stopped

kept_by_shutdown :
    {A : Type 0} (of : CoreState → A) (a : App)
    → ((r : TransferRepository) (jobs : Dict ℕ StoredOutgoingJob) (controls : Dict ℕ JobControl)
        → of (record (App.core a) {
          repository = r;
          outgoing_jobs = jobs;
          incoming_controls = controls;
        })
          ≡ of a.core)
    → of (shutdown a).core ≡ of a.core
unfolding shutdown
kept_by_shutdown of a same = elim (Bool-cases a.stopped) [
  | inl stopped ↦ rw stopped refl
  | inr runs ↦ rw runs (same _ _ _)
]

next_of :
    (a b : App)
    → CoreState.events a.core ≡ CoreState.events b.core
    → (next_event a).1 ≡ (next_event b).1
unfolding next_event
next_of a b same = ap (λ events. (pop_front events).1) same

-- After a shutdown, connecting to an address, sending, answering an offer, a command, new settings,
-- refreshing the peers, forgetting one or all, listing the trusted peers, the files of the history or
-- the items of a transfer, clearing the history and deleting from it are refused as stopped and change
-- nothing. The list of transfers and the next event are those of before the shutdown, and a second
-- shutdown changes nothing.
pub stopped_calls :
    (parse_address : Text → Option Text)
    (make_job : List SourceHandle → Result LanError OutgoingJob)
    (restore : TransferRepository → ℕ → Result LanError OutgoingJob) (delete : Delete)
    (receive_ok : Text → Bool) (settings_json : CoreConfig → Text) (before : App) (id : ℕ) (now : ℤ)
    (name : Text) (sources : List SourceHandle) (accept remember_peer : Bool) (c : TransferCommand)
    (config : CoreConfig)
    → let a = shutdown before in
      Refuses a (connect_address parse_address a name)
      × Refuses a (send make_job a id now name sources)
      × Refuses a (answer_offer a id accept remember_peer)
      × Refuses a (command restore delete a id now c)
      × Refuses a (update_settings receive_ok settings_json a config)
      × Refuses a (refresh_peers a)
      × Refuses a (forget_peer a name)
      × Refuses a (forget_peers a)
      × Refuses a (list_trusted_peers a)
      × Refuses a (list_history_files a)
      × Refuses a (list_transfer_items a id)
      × Refuses a (clear_history a)
      × Refuses a (delete_history_transfer a id)
      × (transfers a ≡ transfers before)
      × ((next_event a).1 ≡ (next_event before).1)
      × (shutdown a ≡ a)
unfolding connect_address send answer_offer command update_settings forget_peer forget_peers
    clear_history delete_history_transfer refresh_peers list_trusted_peers list_history_files
    list_transfer_items transfers sorted_transfers
stopped_calls parse_address make_job restore delete receive_ok settings_json before id now name
      sources accept remember_peer c config =
    let a = shutdown before in
    let s = shutdown_stopped before in
    (
      running-Refuses a _ s,
      running-Refuses a _ s,
      running-Refuses a _ s,
      running-Refuses a _ s,
      running-Refuses a _ s,
      running-Refuses a _ s,
      running-Refuses a _ s,
      running-Refuses a _ s,
      running-Refuses a _ s,
      running-Refuses a _ s,
      running-Refuses a _ s,
      running-Refuses a _ s,
      running-Refuses a _ s,
      kept_by_shutdown sorted_transfers before (λ r jobs controls. refl),
      next_of a before (kept_by_shutdown CoreState.events before (λ r jobs controls. refl)),
      shutdown_again a s,
    )
