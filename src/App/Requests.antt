-- ===== src/App/Requests.antt =====
-- Peers, offers, settings, history and shutdown, in TransferCore of native/transfer_core/src/core.rs.
-- `receive_ok` is `ensure_receive_directory`; `parse_address` and `parse_uuid` stand for the parsers
-- of socket addresses, the default port included, and UUIDs.
use transfer_assistant.Prelude.{
  ℕ, Bool, true, false, not, List, [], ◌∷◌, ◌++◌, map, Option, none, some, ok, err, ok_or, Text,
  text, if◌then◌else◌, trim, get, insert, remove, nat_eq, list_eq,
}
use transfer_assistant.Model.{TransferSnapshot, TrustedPeer}
use transfer_assistant.Control.{cancel_control}
use transfer_assistant.Persistence.{
  TransferRepository, HistoryFileRecord, StoredTransferItem, save_transfer, remove_trusted_peer,
  clear_trusted_peers,
}
use transfer_assistant.Persistence.Statements
use transfer_assistant.Persistence.Statements.{save_setting}
use transfer_assistant.Core.{
  retain, forget_finished, forget_transfer, sorted_transfers, CoreEvent, CoreState, CoreConfig,
  PeerSummary, StoredOutgoingJob, TransferOffer, values, incoming_offer, unknown_offer,
  offer_expired, invalid_offer_id, invalid_address, core_io, queue_peers_changed,
}
use transfer_assistant.Core.Peers.{validate_config, upsert_peer}
use transfer_assistant.App.{App, Call, running, checked}

-- The flag that it sets for the browsing thread is in Discovery.
unfoldable pub refresh_peers : App → Call (Unit {0})
refresh_peers a = running a (record a { core = queue_peers_changed (App.core a) }, ok tt)

unfoldable pub connect_address : (Text → Option Text) → App → Text → Call Text
connect_address parse_address a address = running a (
    checked a (ok_or (parse_address (trim address)) (invalid_address (trim address))) (λ parsed.
      let id = text "manual:" ++ parsed in
      (
        record a {
          core = upsert_peer a.core (record {
            id = id;
            name = parsed;
            address = parsed;
            device_kind = text "computer";
            trusted = false;
            online = true;
          });
        },
        ok id,
      )))

-- The part of `request_answer` before it waits.
unfoldable pub request_answer : (Text → Option ℕ) → App → TransferOffer → Call ℕ
request_answer parse_uuid a offer =
    checked a
      (ok_or (parse_uuid (TransferOffer.id offer)) (invalid_offer_id (TransferOffer.id offer)))
      (λ id. (
        record a {
          pending_answers = insert id true a.pending_answers;
          core = record (App.core a) {
            events = CoreState.events a.core ++ incoming_offer offer ∷ [];
          };
        },
        ok id,
      ))

unfoldable pub answer_offer : App → ℕ → Bool → Bool → Call (Unit {0})
answer_offer a offer_id accept remember_peer = running a (answer (get offer_id a.pending_answers))
  where
    answer : Option Bool → Call (Unit {0})
    answer none = (a, err (unknown_offer offer_id))
    answer (some false) = (
      record a { pending_answers = remove offer_id a.pending_answers },
      err (offer_expired offer_id),
    )
    answer (some true) = (
      record a {
        pending_answers = remove offer_id a.pending_answers;
        answered =
            (offer_id, record { accept = accept; remember_peer = remember_peer }) ∷ a.answered;
      },
      ok tt,
    )

-- `settings_json` is the JSON of the settings that are kept.
unfoldable pub update_settings :
    (Text → Bool) → (CoreConfig → Text) → App → CoreConfig → Call (Unit {0})
update_settings receive_ok settings_json a config = running a (
    checked a (validate_config config.device_name config.theme_mode config.theme_style) (λ valid.
      if receive_ok config.receive_directory
      then (
        record a {
          config = config;
          core = record (App.core a) {
            repository =
                save_setting (CoreState.repository a.core) (text "core_settings")
                  (settings_json config);
          };
        },
        ok tt,
      )
      else (a, err core_io)))

unfoldable pub forget_peer : App → Text → Call Bool
forget_peer a peer_id =
    running a (forgotten (remove_trusted_peer (CoreState.repository a.core) peer_id))
  where
    forgotten : TransferRepository × Bool → Call Bool
    forgotten (r, false) = (record a { core = record (App.core a) { repository = r } }, ok false)
    forgotten (r, true) = (
      record a {
        core = queue_peers_changed (record (App.core a) {
          repository = r;
          peers = remove peer_id (CoreState.peers a.core);
        });
      },
      ok true,
    )

unfoldable pub forget_peers : App → Call ℕ
forget_peers a = running a (
    let (r, count) = clear_trusted_peers (CoreState.repository a.core) in
    (
      record a {
        core = queue_peers_changed (record (App.core a) {
          repository = r;
          peers = retain (λ p. not (PeerSummary.trusted p)) (CoreState.peers a.core);
        });
      },
      ok count,
    ))

-- Both halves, with nothing in between.
unfoldable pub clear_history : App → Call ℕ
clear_history a = running a (
    let (r, count) = Statements.clear_history (CoreState.repository a.core) in
    (record a { core = forget_finished (record (App.core a) { repository = r }) }, ok count))

unfoldable pub delete_history_transfer : App → ℕ → Call Bool
delete_history_transfer a id =
    running a (deleted (Statements.delete_history_transfer (CoreState.repository a.core) (some id)))
  where
    deleted : TransferRepository × Bool → Call Bool
    deleted (r, false) = (record a { core = record (App.core a) { repository = r } }, ok false)
    deleted (r, true) =
        (record a { core = forget_transfer id (record (App.core a) { repository = r }) }, ok true)

unfoldable pub list_history_files : App → Call (List HistoryFileRecord)
list_history_files a =
    running a (a, ok (Statements.list_history_files (CoreState.repository a.core)))

unfoldable pub list_transfer_items : App → ℕ → Call (List StoredTransferItem)
list_transfer_items a transfer_id =
    running a (a, ok (Statements.list_items (CoreState.repository a.core) transfer_id))

unfoldable pub list_trusted_peers : App → Call (List TrustedPeer)
list_trusted_peers a =
    running a (a, ok (Statements.list_trusted_peers (CoreState.repository a.core)))

-- The two calls that do not ask whether the application runs.
unfoldable pub transfers : App → List TransferSnapshot
transfers a = sorted_transfers a.core

-- `pop_front`.
abbrev pub pop_front : List CoreEvent → List CoreEvent × Option CoreEvent
pop_front [] = ([], none)
pop_front (e ∷ rest) = (rest, some e)

unfoldable pub next_event : App → App × Option CoreEvent
next_event a =
    let (rest, event) = pop_front (CoreState.events a.core) in
    (record a { core = record (App.core a) { events = rest } }, event)

-- The saves of `shutdown`, over the transfers in memory.
unfoldable pub save_all : List TransferSnapshot → TransferRepository → TransferRepository
save_all [] r = r
save_all (t ∷ rest) r = save_all rest (save_transfer r t)

unfoldable pub shutdown : App → App
unfolding save_all
shutdown a = if a.stopped then a else record a {
  stopped = true;
  shutdown_cancelled = true;
  pending_answers = [];
  core = record (App.core a) {
    incoming_controls = map (λ e. (e.0, cancel_control e.1)) (CoreState.incoming_controls a.core);
    outgoing_jobs =
        map (λ e. (e.0, record e.1 { control = cancel_control (StoredOutgoingJob.control e.1) }))
          (CoreState.outgoing_jobs a.core);
    repository = save_all (values (CoreState.transfers a.core)) (CoreState.repository a.core);
  };
}
