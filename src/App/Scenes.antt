-- ===== src/App/Scenes.antt =====
-- Calls that overlap, in native/transfer_core/src/core.rs: the sections that hold the lock of
-- CoreInner and the writes to the repository outside it, in any order. add_incoming_transfer and send
-- save a row and then, under the lock, remember the transfer; clear_history and
-- delete_history_transfer delete rows and then, under the lock, forget the transfers. `between` has
-- the ids under which memory and repository may differ since such a call is between its halves, or
-- since another call wrote the row meanwhile.
use transfer_assistant.Prelude.{
  ℕ, ◌≡◌, Bool, true, not, List, [], ◌∷◌, some, ok, Text, ℤ, filter, ◌==◌, Dict, get, nat_eq,
  IsUnique,
}
use transfer_assistant.Model.{TransferSnapshot, TrustedPeer}
use transfer_assistant.Control.{JobControl}
use transfer_assistant.Persistence
use transfer_assistant.Persistence.{
  TransferRepository, StoredTransferItem, save_transfer, save_item, remove_trusted_peer,
  clear_trusted_peers,
}
use transfer_assistant.Persistence.Statements
use transfer_assistant.Persistence.Statements.{
  mark_chunk_complete, clear_completed_chunks, save_setting,
}
use transfer_assistant.Core.{
  CoreState, CoreConfig, CoreEvent, PeerSummary, ProgressSample, StoredOutgoingJob, values,
  remember_transfer, remember_outgoing, forget_finished, forget_transfer,
}
use transfer_assistant.Core.Lifetime.{CoreStep}
use transfer_assistant.Sources.{OutgoingJob}
use transfer_assistant.Sources.Restore.{Disk}
use transfer_assistant.App.Requests.{save_all}
use transfer_assistant.App.Start.{start_core}
use transfer_assistant.App.Mirror.{row_states}

pub record Scene : Type 0 where
  pub core : CoreState
  pub between : List ℕ

-- A write to the tables of items, chunks, peers and settings.
pub data WritesElsewhere (r : TransferRepository) : TransferRepository → Type 0 where
  stores_item :
      {r' : TransferRepository} (i : StoredTransferItem)
      → save_item r i ≡ ok r'
      → WritesElsewhere r r'
  stores_chunk :
      {r' : TransferRepository} (id : ℕ) (item_id : Text) (index : ℕ) (hash : List ℕ) (fresh : Bool)
      → mark_chunk_complete r id item_id index hash ≡ ok (r', fresh)
      → WritesElsewhere r r'
  forgets_chunks : (id : ℕ) → WritesElsewhere r (clear_completed_chunks r id)
  stores_peer : (p : TrustedPeer) → WritesElsewhere r (Persistence.trust_peer r p)
  forgets_peer : (id : Text) → WritesElsewhere r (remove_trusted_peer r id).0
  forgets_peers : WritesElsewhere r (clear_trusted_peers r).0
  stores_setting : (key json : Text) → WritesElsewhere r (save_setting r key json)

pub data Section (speed_of : ℕ → ℕ → ℕ) : Scene → Scene → Type 0 where
  -- A function of core.rs that holds the lock for its whole body.
  locked :
      {x : Scene} (s : CoreState)
      → CoreStep speed_of x.core s
      → Section speed_of x (record x { core = s })
  -- The rest of the memory: peers, events, jobs, controls and samples.
  changes_rest :
      {x : Scene} (peers : Dict Text PeerSummary) (events : List CoreEvent)
      (jobs : Dict ℕ StoredOutgoingJob) (controls : Dict ℕ JobControl)
      (samples : Dict ℕ ProgressSample)
      → Section speed_of x (record x {
        core = record (Scene.core x) {
          peers = peers;
          events = events;
          outgoing_jobs = jobs;
          incoming_controls = controls;
          progress_samples = samples;
        };
      })
  writes_elsewhere :
      {x : Scene} (r : TransferRepository)
      → WritesElsewhere (CoreState.repository x.core) r
      → Section speed_of x (record x { core = record (Scene.core x) { repository = r } })
  -- The first half of adding a transfer and of sending one, and all that a send leaves that fails
  -- after it.
  saves_row :
      {x : Scene} (t : TransferSnapshot)
      → Section speed_of x (record {
        core = record (Scene.core x) { repository = save_transfer (CoreState.repository x.core) t };
        between = TransferSnapshot.id t ∷ x.between;
      })
  -- The second half, where the row still has the transfer's state.
  remembers :
      {x : Scene} (t : TransferSnapshot)
      → get
          (TransferSnapshot.id t)
          (row_states (TransferRepository.transfers (CoreState.repository x.core)))
        ≡ some t.state
      → Section speed_of x (record {
        core = remember_transfer t x.core;
        between = filter (λ i. not (i == TransferSnapshot.id t)) x.between;
      })
  remembers_outgoing :
      {x : Scene} (t : TransferSnapshot) (peer : PeerSummary) (job : OutgoingJob)
      → get
          (TransferSnapshot.id t)
          (row_states (TransferRepository.transfers (CoreState.repository x.core)))
        ≡ some t.state
      → Section speed_of x (record {
        core = remember_outgoing t peer job x.core;
        between = filter (λ i. not (i == TransferSnapshot.id t)) x.between;
      })
  -- The second half, whatever others made of the row.
  remembers_late :
      {x : Scene} (t : TransferSnapshot)
      → Section speed_of x (record {
        core = remember_transfer t x.core;
        between = TransferSnapshot.id t ∷ x.between;
      })
  remembers_outgoing_late :
      {x : Scene} (t : TransferSnapshot) (peer : PeerSummary) (job : OutgoingJob)
      → Section speed_of x (record {
        core = remember_outgoing t peer job x.core;
        between = TransferSnapshot.id t ∷ x.between;
      })
  -- The halves of clearing the history.
  clears_rows :
      {x : Scene}
      → Section speed_of x (record x {
        core = record (Scene.core x) {
          repository = (Statements.clear_history (CoreState.repository x.core)).0;
        };
      })
  forgets_finished :
      {x : Scene} → Section speed_of x (record x { core = forget_finished (Scene.core x) })
  -- The halves of deleting a transfer from it. Without a row to delete nothing happens.
  deletes_row :
      {x : Scene} (id : ℕ)
      → (Statements.delete_history_transfer (CoreState.repository x.core) (some id)).1 ≡ true
      → Section speed_of x (record {
        core = record (Scene.core x) {
          repository =
              (Statements.delete_history_transfer (CoreState.repository x.core) (some id)).0;
        };
        between = id ∷ x.between;
      })
  forgets :
      {x : Scene} (id : ℕ)
      → Section speed_of x (record {
        core = forget_transfer id x.core;
        between = filter (λ i. not (i == id)) x.between;
      })
  -- The saves of a shutdown.
  saves_all :
      {x : Scene}
      → Section speed_of x (record x {
        core = record (Scene.core x) {
          repository = save_all (values (CoreState.transfers x.core)) (CoreState.repository x.core);
        };
      })

-- From a start over a repository in which no id stands twice.
pub data Reached (speed_of : ℕ → ℕ → ℕ) : Scene → Type 0 where
  starts :
      (config : CoreConfig) (now : ℤ) (r : TransferRepository) (disk : Disk)
      → IsUnique (row_states r.transfers)
      → Reached speed_of (record { core = (start_core config now r disk).core; between = [] })
  goes_on : {x y : Scene} → Reached speed_of x → Section speed_of x y → Reached speed_of y
