-- ===== src/Examples/Records.antt =====
-- A concrete repository and core.
use transfer_assistant.Prelude.{
  ◌≡◌, ◌≢◌, refl, ok, none, some, true, Bool, not, ◌&&◌, [], ◌∷◌, ℕ, ◌+◌, ◌≤◌, min, arith, text,
  Text, filter, length, pos, get, Ordered, leb, nat_eq, if◌then◌else◌, ◌==◌, ◌=ₜ◌,
}
use transfer_assistant.Manifest.{file}
use transfer_assistant.Model.{
  TransferSnapshot, incoming, transferring, completed, paused, pause, is_terminal,
}
use transfer_assistant.Control.{JobControl, new_control}
use transfer_assistant.Persistence.{
  TransferRepository, StoredTransferItem, save_transfer, save_item, upsert_transfer, list_transfers,
}
use transfer_assistant.Persistence.Statements.{
  mark_chunk_complete, completed_chunks, clear_history, list_items,
}
use transfer_assistant.Persistence.Integrity.{IsConsistent}
use transfer_assistant.Persistence.Steps.{
  Reachable, opened, then_step, saves, saves_item, Reachable-IsConsistent,
}
use transfer_assistant.Persistence.Chunks.{is_listed, mark_chunk_complete_lem}
use transfer_assistant.Persistence.Newest.{NewestFirst}
use transfer_assistant.Persistence.History.{
  Remaining, HasEnded, clear_history_outcome, list_transfers_outcome,
}
use transfer_assistant.Core.{CoreState, forget_transfer}
use transfer_assistant.Core.Handlers.{
  update_completed_bytes, command_transfer, command_incoming, pause_from_remote,
}
use transfer_assistant.Core.Lifetime.{
  no_steps, then_steps, changes, deletes, pauses_remotely, steps-Keeps,
}
use transfer_assistant.Core.Progress.{update_completed_bytes_lem, command_transfer_outcome}

abbrev arriving : TransferSnapshot
arriving = record {
  id = 7;
  peer_id = text "peer";
  peer_name = text "desk";
  direction = incoming;
  state = transferring;
  item_count = 1;
  total_bytes = 10;
  completed_bytes = 4;
  bytes_per_second = 1;
  created_unix_ms = pos 1;
  updated_unix_ms = pos 2;
  error = none;
}

abbrev a_file : StoredTransferItem
a_file = record {
  id = text "i";
  transfer_id = 7;
  relative_path = text "a.txt";
  kind = file;
  size = 10;
  modified_unix_ms = pos 0;
  source_revision = none;
  temporary_ref = none;
  final_ref = none;
}

abbrev stored : TransferRepository
stored = record {
  trusted_peers = [];
  transfers = arriving ∷ [];
  transfer_items = a_file ∷ [];
  completed_chunks = [];
  settings = [];
}

stored-Reachable : Reachable stored
unfolding save_transfer upsert_transfer save_item
stored-Reachable = then_step (then_step opened (saves arriving)) (saves_item a_file refl)

Reachable-IsConsistent_example : IsConsistent stored
Reachable-IsConsistent_example = Reachable-IsConsistent stored stored-Reachable

mark_chunk_complete_lem_example :
    (r' : TransferRepository) × (mark_chunk_complete stored 7 (text "i") 3 []
      ≡ ok (r', not (is_listed stored 7 (text "i") 3)))
    × ((u : ℕ) (j : Text) (l : ℕ)
        → is_listed r' u j l
          ≡ (if (7 == u) && ((text "i" =ₜ j) && (3 == l)) then true else is_listed stored u j l))
    × ((u : ℕ) (j : Text) → Ordered leb (completed_chunks r' u j))
mark_chunk_complete_lem_example = mark_chunk_complete_lem stored 7 (text "i") 3 [] refl refl

abbrev arrived_earlier : TransferSnapshot
arrived_earlier = record arriving { id = 8; state = completed }

abbrev with_history : TransferRepository
with_history = record stored { transfers = arrived_earlier ∷ arriving ∷ [] }

clear_history_outcome_example :
    Remaining
      (arrived_earlier ∷ arriving ∷ [])
      (clear_history with_history).0.transfers
      (clear_history with_history).1
    × ((id : ℕ)
        → HasEnded id (arrived_earlier ∷ arriving ∷ [])
        → list_items (clear_history with_history).0 id ≡ [])
    × ((id : ℕ)
        → ¬ HasEnded id (arrived_earlier ∷ arriving ∷ [])
        → list_items (clear_history with_history).0 id ≡ list_items with_history id)
clear_history_outcome_example = clear_history_outcome with_history

list_transfers_outcome_example :
    NewestFirst (list_transfers with_history)
    × ((p : TransferSnapshot → Bool)
        → length (filter p (list_transfers with_history))
          ≡ length (filter p (arrived_earlier ∷ arriving ∷ [])))
list_transfers_outcome_example = list_transfers_outcome with_history

abbrev running : CoreState
running = record {
  peers = [];
  transfers = (7, arriving) ∷ (8, arrived_earlier) ∷ [];
  events = [];
  outgoing_jobs = [];
  incoming_controls = (7, new_control) ∷ [];
  progress_samples = [];
  repository = stored;
}

earlier_known : get 8 running.transfers ≡ some arrived_earlier
unfolding get
earlier_known = refl

steps-Keeps_example :
    (t' : TransferSnapshot) × (get 8
        (forget_transfer 7 (pause_from_remote running 8 (pos 9))).transfers
      ≡ some t')
    × (t'.state ≡ completed)
unfolding is_terminal
steps-Keeps_example =
    steps-Keeps (λ bytes elapsed. bytes) running
      (forget_transfer 7 (pause_from_remote running 8 (pos 9)))
      (then_steps (changes (pauses_remotely 8 (pos 9))) (then_steps (deletes 7) no_steps)) 8
      arrived_earlier refl earlier_known refl

arriving_known : get 7 running.transfers ≡ some arriving
unfolding get
arriving_known = refl

update_completed_bytes_lem_example :
    (s' : CoreState) × (t' : TransferSnapshot) × (update_completed_bytes
        (λ bytes elapsed. bytes)
        running
        7
        100
        (pos 9)
        5
      ≡ ok s')
    × (get 7 s'.transfers ≡ some t')
    × (t'.completed_bytes ≡ min (4 + 100) 10)
    × (t'.state ≡ transferring)
    × ((j : ℕ) → j ≢ 7 → get j s'.transfers ≡ get j running.transfers)
    × (10 ≤ t'.completed_bytes → s'.repository ≡ save_transfer stored t')
update_completed_bytes_lem_example =
    update_completed_bytes_lem (λ bytes elapsed. bytes) running 7 100 (pos 9) 5 arriving
      arriving_known (omega arith)

command_transfer_outcome_example :
    (s' : CoreState) × (t' : TransferSnapshot) × (command_transfer running 7 (pos 9) pause ≡ ok s')
    × (get 7 s'.transfers ≡ some t')
    × (t'.state ≡ paused)
    × (s'.repository ≡ save_transfer stored t')
    × ((j : ℕ) → j ≢ 7 → get j s'.transfers ≡ get j running.transfers)
    × ((k : JobControl)
        → get 7 running.incoming_controls ≡ some k
        → get 7 s'.incoming_controls ≡ some (command_incoming pause k))
command_transfer_outcome_example =
    (command_transfer_outcome running 7 (pos 9) pause arriving arriving_known).0 refl
