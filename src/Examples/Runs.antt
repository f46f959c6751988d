-- ===== src/Examples/Runs.antt =====
-- A start over two transfers, a third that arrives, and the history cleared.
use transfer_assistant.Prelude.{
  ℕ, ◌≡◌, refl, [], ◌∷◌, none, some, err, ok, true, false, text, pos, get, insert, remove, nat_eq,
}
use transfer_assistant.Model.{
  TransferSnapshot, TransferState, incoming, transferring, completed, interrupted, pause, is_active,
  is_terminal,
}
use transfer_assistant.Persistence.{
  TransferRepository, list_transfers, save_transfer, upsert_transfer,
}
use transfer_assistant.Persistence.Statements
use transfer_assistant.Persistence.Statements.{delete_transfers}
use transfer_assistant.Core.{
  CoreState, CoreConfig, add_incoming_transfer, remember_transfer, forget_transfer,
  interrupt_transfer, update_transfer, queue_transfers_changed,
}
use transfer_assistant.Core.Lifetime.{interrupts}
use transfer_assistant.Sources.Restore.{Disk}
use transfer_assistant.Wire.{no_transferable_sources}
use transfer_assistant.App.{App}
use transfer_assistant.App.Transfers.{send, command}
use transfer_assistant.App.Requests.{
  connect_address, answer_offer, update_settings, forget_peer, forget_peers, clear_history,
  delete_history_transfer, refresh_peers, list_trusted_peers, list_history_files,
  list_transfer_items, transfers, next_event, shutdown,
}
use transfer_assistant.App.Start.{
  start_core, restore_transfers, interrupted_by_exit, collect_transfers,
}
use transfer_assistant.App.Mirror.{memory_states, row_states}
use transfer_assistant.App.Locked.{IsMirrored}
use transfer_assistant.App.Restart.{exited}
use transfer_assistant.App.Steps.{
  Surroundings, Runs, starts, goes_on, arrives, clears_history, Runs-IsMirrored,
}
use transfer_assistant.App.Scenes
use transfer_assistant.App.Scenes.{
  Scene, Reached, saves_row, remembers, deletes_row, locked, forgets,
}
use transfer_assistant.App.Sections.{restart_outcome}
use transfer_assistant.App.Backed.{is_between}
use transfer_assistant.App.Stopped.{Refuses, stopped_calls}

abbrev desk : Surroundings
desk = record {
  speed_of = λ bytes elapsed. bytes;
  parse_address = λ address. some address;
  parse_uuid = λ id. some 4;
  make_job = λ sources. err no_transferable_sources;
  restore = λ r id. err no_transferable_sources;
  refuses = λ n path. false;
  android = false;
  delete_target = λ uri. true;
  receive_ok = λ path. true;
  settings_json = λ config. text "{}";
}

abbrev running_transfer : TransferSnapshot
running_transfer = record {
  id = 2;
  peer_id = text "peer";
  peer_name = text "desk";
  direction = incoming;
  state = transferring;
  item_count = 1;
  total_bytes = 10;
  completed_bytes = 4;
  bytes_per_second = 1;
  created_unix_ms = pos 1;
  updated_unix_ms = pos 2;
  error = none;
}

abbrev done_transfer : TransferSnapshot
done_transfer = record running_transfer { id = 1; state = completed }

abbrev new_transfer : TransferSnapshot
new_transfer = record running_transfer { id = 3 }

abbrev two_transfers : TransferRepository
two_transfers = record {
  trusted_peers = [];
  transfers = running_transfer ∷ done_transfer ∷ [];
  transfer_items = [];
  completed_chunks = [];
  settings = [];
}

abbrev defaults : CoreConfig
defaults = record {
  data_directory = text "data";
  device_name = text "desk";
  receive_directory = text "in";
  background_receive = false;
  auto_accept_trusted = false;
  theme_mode = text "system";
  theme_style = text "radar";
  has_completed_first_setup = true;
  identity_wrap_key = none;
}

abbrev empty_disk : Disk
empty_disk = record { files = []; calls = 0 }

abbrev pub started : App
started = start_core defaults (pos 5) two_transfers empty_disk

abbrev arrived : App
arrived = record started { core = add_incoming_transfer (App.core started) new_transfer }

arrived-Runs : Runs desk arrived
unfolding start_core row_states get list_transfers restore_transfers interrupted_by_exit
    save_transfer upsert_transfer collect_transfers insert
arrived-Runs =
    goes_on (starts defaults (pos 5) two_transfers empty_disk (refl, (refl, tt)))
      (arrives new_transfer)

abbrev cleared : App
cleared = (clear_history arrived).0

cleared-Runs : Runs desk cleared
cleared-Runs = goes_on arrived-Runs clears_history

Runs-IsMirrored_example : IsMirrored cleared.core
Runs-IsMirrored_example = Runs-IsMirrored desk cleared cleared-Runs

-- A transfer is added, one half after the other.
abbrev opened : Scene
opened = record { core = started.core; between = [] }

abbrev row_saved : Scene
row_saved = record {
  core = record (App.core started) {
    repository = save_transfer started.core.repository new_transfer;
  };
  between = 3 ∷ [];
}

abbrev remembered : Scene
remembered = record { core = remember_transfer new_transfer row_saved.core; between = [] }

remembered-Reached : Reached (λ bytes elapsed. bytes) remembered
unfolding start_core row_states get list_transfers restore_transfers interrupted_by_exit
    save_transfer upsert_transfer collect_transfers insert
remembered-Reached =
    Scenes.goes_on
      (Scenes.goes_on (Scenes.starts defaults (pos 5) two_transfers empty_disk (refl, (refl, tt)))
        (saves_row new_transfer))
      (remembers new_transfer refl)

restart_outcome_example :
    let after = (start_core defaults (pos 9) remembered.core.repository empty_disk).core in
    IsMirrored after
    × ((id : ℕ)
        → get id (memory_states after.transfers)
          ≡ exited (get id (row_states remembered.core.repository.transfers)))
    × ((id : ℕ) (state : TransferState)
        → is_between id [] ≡ false
        → get id (memory_states remembered.core.transfers) ≡ some state
        → is_active state ≡ true
        → get id (memory_states after.transfers) ≡ some interrupted)
restart_outcome_example =
    restart_outcome (λ bytes elapsed. bytes) remembered defaults (pos 9) empty_disk
      remembered-Reached

-- The transfer is deleted while its task interrupts it: between the halves of the deletion the task
-- saves the row again, so that memory has the transfer no more and the next start has it again.
abbrev row_deleted : Scene
row_deleted = record {
  core = record (Scene.core remembered) {
    repository =
        (Statements.delete_history_transfer (CoreState.repository remembered.core) (some 3)).0;
  };
  between = 3 ∷ [];
}

abbrev interrupted_transfer : TransferSnapshot
interrupted_transfer = record new_transfer {
  state = interrupted;
  bytes_per_second = 0;
  updated_unix_ms = pos 8;
  error = some (text "timeout");
}

abbrev saved_again : CoreState
saved_again = queue_transfers_changed (record (Scene.core row_deleted) {
  transfers = insert 3 interrupted_transfer (CoreState.transfers row_deleted.core);
  repository = save_transfer (CoreState.repository row_deleted.core) interrupted_transfer;
})

abbrev deleted : Scene
deleted = record { core = forget_transfer 3 saved_again; between = [] }

deleted-Reached : Reached (λ bytes elapsed. bytes) deleted
unfolding start_core get list_transfers restore_transfers interrupted_by_exit save_transfer
    upsert_transfer collect_transfers insert remember_transfer Statements.delete_history_transfer
    delete_transfers interrupt_transfer update_transfer is_terminal queue_transfers_changed
deleted-Reached =
    Scenes.goes_on
      (Scenes.goes_on (Scenes.goes_on remembered-Reached (deletes_row 3 refl))
        (locked saved_again (interrupts 3 (pos 8) (text "timeout") refl)))
      (forgets 3)

deleted_comes_back :
    (get 3 (memory_states deleted.core.transfers) ≡ none)
    × (get 3 (
          memory_states
            (start_core defaults (pos 9) deleted.core.repository empty_disk).core.transfers)
        ≡ some interrupted)
unfolding start_core get list_transfers restore_transfers interrupted_by_exit save_transfer
    upsert_transfer collect_transfers insert remember_transfer Statements.delete_history_transfer
    delete_transfers queue_transfers_changed forget_transfer remove memory_states
deleted_comes_back = (refl, refl)

stopped_calls_example :
    let a = shutdown arrived in
    Refuses a (connect_address (λ address. some address) a (text "10.0.0.2"))
    × Refuses a (send (λ sources. err no_transferable_sources) a 4 (pos 9) (text "10.0.0.2") [])
    × Refuses a (answer_offer a 4 true false)
    × Refuses a
        (command (λ r id. err no_transferable_sources) (λ r id d. ok (r, d)) a 4 (pos 9) pause)
    × Refuses a (update_settings (λ path. true) (λ config. text "{}") a defaults)
    × Refuses a (refresh_peers a)
    × Refuses a (forget_peer a (text "10.0.0.2"))
    × Refuses a (forget_peers a)
    × Refuses a (list_trusted_peers a)
    × Refuses a (list_history_files a)
    × Refuses a (list_transfer_items a 4)
    × Refuses a (clear_history a)
    × Refuses a (delete_history_transfer a 4)
    × (transfers a ≡ transfers arrived)
    × ((next_event a).1 ≡ (next_event arrived).1)
    × (shutdown a ≡ a)
stopped_calls_example =
    stopped_calls (λ address. some address) (λ sources. err no_transferable_sources)
      (λ r id. err no_transferable_sources) (λ r id d. ok (r, d)) (λ path. true)
      (λ config. text "{}") arrived 4 (pos 9) (text "10.0.0.2") [] true false pause defaults
