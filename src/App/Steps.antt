-- ===== src/App/Steps.antt =====
-- The application as a step relation in which each call ends before the next begins: the calls of the
-- application, the functions of core.rs that the tasks and the discovery call, and the end of a
-- sending task, from a start on. Calls that overlap are in Sections.
use transfer_assistant.Prelude.{
  ℕ, ◌≡◌, refl, Bool, List, Option, Result, ok, Text, ℤ, nat_eq, IsUnique,
}
use transfer_assistant.Model.{TransferCommand, TransferSnapshot}
use transfer_assistant.Persistence.{
  TransferRepository, StoredTransferItem, save_item, save_transfer,
}
use transfer_assistant.Persistence.Statements.{mark_chunk_complete, clear_completed_chunks}
use transfer_assistant.Core.{
  CoreState, add_incoming_transfer, remember_transfer, queue_transfers_changed, CoreConfig,
  PeerSummary, TransferOffer, queue_peers_changed,
}
use transfer_assistant.Core.Lifetime.{CoreStep}
use transfer_assistant.Core.Peers.{upsert_peer, mark_peer_offline, update_peer_identity, trust_peer}
use transfer_assistant.Sources.{OutgoingJob, SourceHandle}
use transfer_assistant.Sources.Restore.{delete_partial_data, Disk}
use transfer_assistant.Wire.{LanError}
use transfer_assistant.App.{App}
use transfer_assistant.App.Transfers.{send, command, outgoing_ended}
use transfer_assistant.App.Requests.{
  connect_address, request_answer, answer_offer, update_settings, forget_peer, forget_peers,
  clear_history, delete_history_transfer, shutdown,
}
use transfer_assistant.App.Start.{start_core}
use transfer_assistant.App.Mirror.{row_states}
use transfer_assistant.App.Locked.{IsMirrored, step-IsMirrored, put-IsMirrored, still-IsMirrored}
use transfer_assistant.App.Calls.{
  save_item-transfers, send-LeavesIfOk, command-Leaves, clear_history-Leaves,
  delete_history_transfer-Leaves,
}
use transfer_assistant.App.Quiet.{
  mark_peer_offline-IsMirrored, trust_peer-IsMirrored, mark_chunk_complete-transfers,
  connect_address-Leaves, request_answer-Leaves, answer_offer-Leaves, update_settings-Leaves,
  forget_peer-Leaves, forget_peers-Leaves,
}
use transfer_assistant.App.Stops.{shutdown-IsMirrored, outgoing_ended-IsMirrored}
use transfer_assistant.App.Restart.{start_core_outcome}

-- What the calls take from the platform and the libraries.
pub record Surroundings : Type 0 where
  pub speed_of : ℕ → ℕ → ℕ
  pub parse_address : Text → Option Text
  pub parse_uuid : Text → Option ℕ
  pub make_job : List SourceHandle → Result LanError OutgoingJob
  pub restore : TransferRepository → ℕ → Result LanError OutgoingJob
  pub refuses : ℕ → Text → Bool
  pub android : Bool
  pub delete_target : Text → Bool
  pub receive_ok : Text → Bool
  pub settings_json : CoreConfig → Text

module _ (p : Surroundings) where
  open p use {
    speed_of, parse_address, parse_uuid, make_job, restore, refuses, android, delete_target,
    receive_ok, settings_json,
  }

  pub data AppStep : App → App → Type 0 where
    -- A function of core.rs that changes a transfer or a control.
    locked :
        {a : App} (s : CoreState) → CoreStep speed_of a.core s → AppStep a (record a { core = s })
    -- A session adds a transfer, whatever its id.
    arrives :
        {a : App} (t : TransferSnapshot)
        → AppStep a (record a { core = add_incoming_transfer a.core t })
    -- A task saves an item, saves a chunk, or forgets the chunks of a transfer.
    stores_item :
        {a : App} (i : StoredTransferItem) (r : TransferRepository)
        → save_item (CoreState.repository a.core) i ≡ ok r
        → AppStep a (record a { core = record (App.core a) { repository = r } })
    stores_chunk :
        {a : App} (id : ℕ) (item_id : Text) (index : ℕ) (hash : List ℕ) (r : TransferRepository)
        (fresh : Bool)
        → mark_chunk_complete (CoreState.repository a.core) id item_id index hash ≡ ok (r, fresh)
        → AppStep a (record a { core = record (App.core a) { repository = r } })
    forgets_chunks :
        {a : App} (id : ℕ)
        → AppStep a (record a {
          core = record (App.core a) {
            repository = clear_completed_chunks (CoreState.repository a.core) id;
          };
        })
    -- The discovery or a session tells of a peer.
    finds_peer :
        {a : App} (peer : PeerSummary) → AppStep a (record a { core = upsert_peer a.core peer })
    loses_peer : {a : App} (id : Text) → AppStep a (record a { core = mark_peer_offline a.core id })
    identifies_peer :
        {a : App} (old : Option Text) (id name address device_kind : Text) (trusted : Bool)
        → AppStep a (record a {
          core = update_peer_identity a.core old id name address device_kind trusted;
        })
    trusts_peer :
        {a : App} (now : ℤ) (id display_name fingerprint : Text)
        → AppStep a (record a { core = trust_peer a.core now id display_name fingerprint })
    connects : {a : App} (address : Text) → AppStep a (connect_address parse_address a address).0
    -- A send that fails may leave its row behind.
    sends :
        {a : App} (id : ℕ) (now : ℤ) (peer_id : Text) (sources : List SourceHandle) (x : ℕ)
        → (send make_job a id now peer_id sources).1 ≡ ok x
        → AppStep a (send make_job a id now peer_id sources).0
    asks : {a : App} (offer : TransferOffer) → AppStep a (request_answer parse_uuid a offer).0
    answers :
        {a : App} (id : ℕ) (accept remember_peer : Bool)
        → AppStep a (answer_offer a id accept remember_peer).0
    commands :
        {a : App} (id : ℕ) (now : ℤ) (c : TransferCommand)
        → AppStep a
            (command restore (delete_partial_data refuses android delete_target) a id now c).0
    configures :
        {a : App} (config : CoreConfig)
        → AppStep a (update_settings receive_ok settings_json a config).0
    forgets_peer : {a : App} (peer_id : Text) → AppStep a (forget_peer a peer_id).0
    forgets_peers : {a : App} → AppStep a (forget_peers a).0
    clears_history : {a : App} → AppStep a (clear_history a).0
    deletes_history : {a : App} (id : ℕ) → AppStep a (delete_history_transfer a id).0
    ends :
        {a : App} (id : ℕ) (now : ℤ) (e : LanError) (message : Text)
        → AppStep a (outgoing_ended a id now e message)
    stops : {a : App} → AppStep a (shutdown a)

  -- What the application can be, from a start over a repository in which no id stands twice.
  pub data Runs : App → Type 0 where
    starts :
        (config : CoreConfig) (now : ℤ) (r : TransferRepository) (disk : Disk)
        → IsUnique (row_states r.transfers)
        → Runs (start_core config now r disk)
    goes_on : {a b : App} → Runs a → AppStep a b → Runs b

  AppStep-IsMirrored : {a b : App} → AppStep a b → IsMirrored a.core → IsMirrored b.core
  unfolding add_incoming_transfer remember_transfer queue_transfers_changed save_transfer
      clear_completed_chunks upsert_peer update_peer_identity queue_peers_changed
  AppStep-IsMirrored (locked s step) m = step-IsMirrored speed_of step m
  AppStep-IsMirrored (arrives {a} t) m =
      put-IsMirrored a.core (add_incoming_transfer a.core t) (TransferSnapshot.id t) t m refl refl
        refl
  AppStep-IsMirrored (stores_item {a} i r saved) m =
      still-IsMirrored a.core (record (App.core a) { repository = r }) refl
        (save_item-transfers (CoreState.repository a.core) i r saved) m
  AppStep-IsMirrored (stores_chunk {a} id item_id index hash r fresh saved) m =
      still-IsMirrored a.core (record (App.core a) { repository = r }) refl
        (mark_chunk_complete-transfers (CoreState.repository a.core) id item_id index hash r fresh
          saved)
        m
  AppStep-IsMirrored (forgets_chunks {a} id) m = m
  AppStep-IsMirrored (finds_peer {a} peer) m = m
  AppStep-IsMirrored (loses_peer {a} id) m = mark_peer_offline-IsMirrored a.core m id
  AppStep-IsMirrored (identifies_peer {a} old id name address device_kind trusted) m = m
  AppStep-IsMirrored (trusts_peer {a} now id display_name fingerprint) m =
      trust_peer-IsMirrored a.core now id display_name fingerprint m
  AppStep-IsMirrored (connects {a} address) m = connect_address-Leaves a m parse_address address
  AppStep-IsMirrored (sends {a} id now peer_id sources x h) m =
      send-LeavesIfOk make_job a id now peer_id sources m x h
  AppStep-IsMirrored (asks {a} offer) m = request_answer-Leaves a m parse_uuid offer
  AppStep-IsMirrored (answers {a} id accept remember_peer) m =
      answer_offer-Leaves a m id accept remember_peer
  AppStep-IsMirrored (commands {a} id now c) m =
      command-Leaves refuses android delete_target restore a id now c m
  AppStep-IsMirrored (configures {a} config) m =
      update_settings-Leaves a m receive_ok settings_json config
  AppStep-IsMirrored (forgets_peer {a} peer_id) m = forget_peer-Leaves a m peer_id
  AppStep-IsMirrored (forgets_peers {a}) m = forget_peers-Leaves a m
  AppStep-IsMirrored (clears_history {a}) m = clear_history-Leaves a m
  AppStep-IsMirrored (deletes_history {a} id) m = delete_history_transfer-Leaves a id m
  AppStep-IsMirrored (ends {a} id now e message) m =
      outgoing_ended-IsMirrored speed_of a id now e message m
  AppStep-IsMirrored (stops {a}) m = shutdown-IsMirrored a m

  -- From a start over a repository in which no id stands twice, as long as each call, of the
  -- application, of a task or of the discovery, ends before the next begins, sends that fail left out,
  -- memory and repository have transfers under the same ids and in the same states.
  pub Runs-IsMirrored : (a : App) → Runs a → IsMirrored a.core
  Runs-IsMirrored _ (starts config now r disk unique) =
      (start_core_outcome config now r disk unique).0
  Runs-IsMirrored _ (goes_on {a} {b} run step) = AppStep-IsMirrored step (Runs-IsMirrored a run)
