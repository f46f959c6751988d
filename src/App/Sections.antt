-- ===== src/App/Sections.antt =====
-- What memory and repository have in common while calls overlap, as Scenes describes it, and what a
-- restart makes of it.
use transfer_assistant.Prelude.{
  ℕ, ◌≡◌, refl, ap, ◌∙◌, false, true, List, [], ◌∷◌, some, ℤ, arith, All, Dict, get, nat_eq,
}
use transfer_assistant.Model.{TransferSnapshot, TransferState, interrupted, is_active}
use transfer_assistant.Persistence
use transfer_assistant.Persistence.{
  TransferRepository, save_transfer, remove_trusted_peer, clear_trusted_peers,
}
use transfer_assistant.Persistence.Statements
use transfer_assistant.Persistence.Statements.{
  delete_transfers, clear_completed_chunks, save_setting,
}
use transfer_assistant.Core.{
  CoreState, CoreConfig, values, remember_transfer, remember_outgoing, forget_finished,
  forget_transfer, queue_transfers_changed,
}
use transfer_assistant.Sources.Restore.{Disk}
use transfer_assistant.App.Requests.{save_all}
use transfer_assistant.App.Start.{start_core}
use transfer_assistant.App.Mirror.{memory_states, row_states}
use transfer_assistant.App.Effects.{step-Does}
use transfer_assistant.App.Locked.{IsMirrored}
use transfer_assistant.App.Calls.{save_item-transfers}
use transfer_assistant.App.Quiet.{mark_chunk_complete-transfers}
use transfer_assistant.App.Stops.{Holds, All-Holds}
use transfer_assistant.App.Restart.{exited, start_core_outcome}
use transfer_assistant.App.Backed.{
  Backs, is_between, Mirrors-Backs, save_row-Backs, remember-Backs, remember_late-Backs,
  resave-Backs, Effect-Backs,
}
use transfer_assistant.App.Deleted.{
  forget_finished-Backs, clear_rows-Backs, delete_row-Backs, forget-Backs,
}
use transfer_assistant.App.Scenes.{
  Scene, WritesElsewhere, stores_item, stores_chunk, forgets_chunks, stores_peer, forgets_peer,
  forgets_peers, stores_setting, Section, locked, changes_rest, writes_elsewhere, saves_row,
  remembers, remembers_outgoing, remembers_late, remembers_outgoing_late, clears_rows,
  forgets_finished, deletes_row, forgets, saves_all, Reached, starts, goes_on,
}

abbrev IsBacked : Scene → Type 0
IsBacked x =
    Backs x.between (CoreState.transfers x.core)
      (TransferRepository.transfers (CoreState.repository x.core))

WritesElsewhere-transfers :
    (r r' : TransferRepository) → WritesElsewhere r r' → r'.transfers ≡ r.transfers
unfolding clear_completed_chunks Persistence.trust_peer remove_trusted_peer clear_trusted_peers
    save_setting
WritesElsewhere-transfers r r' (stores_item i saved) = save_item-transfers r i r' saved
WritesElsewhere-transfers r r' (stores_chunk id item_id index hash fresh saved) =
    mark_chunk_complete-transfers r id item_id index hash r' fresh saved
WritesElsewhere-transfers r _ (forgets_chunks id) = refl
WritesElsewhere-transfers r _ (stores_peer p) = refl
WritesElsewhere-transfers r _ (forgets_peer id) = refl
WritesElsewhere-transfers r _ forgets_peers = refl
WritesElsewhere-transfers r _ (stores_setting key json) = refl

save_all-Backs :
    (between : List ℕ) (d es : Dict ℕ TransferSnapshot) (r : TransferRepository)
    → All (Holds d) es
    → Backs between d r.transfers
    → Backs between d (save_all (values es) r).transfers
unfolding save_all save_transfer
save_all-Backs between d [] r held m = m
save_all-Backs between d ((k, t) ∷ es) r held m =
    save_all-Backs between d es (save_transfer r t) held.1
      (resave-Backs between d r.transfers m t held.0)

module _ (speed_of : ℕ → ℕ → ℕ) where
  Section-IsBacked : {x y : Scene} → Section speed_of x y → IsBacked x → IsBacked y
  unfolding save_transfer remember_transfer remember_outgoing forget_finished forget_transfer
      queue_transfers_changed Statements.clear_history Statements.delete_history_transfer
      delete_transfers
  Section-IsBacked (locked {x} s step) m =
      Effect-Backs x.between _ _ m _ _ (step-Does speed_of step m.keyed)
  Section-IsBacked (changes_rest peers events jobs controls samples) m = m
  Section-IsBacked (writes_elsewhere {x} r w) m =
      rw (WritesElsewhere-transfers (CoreState.repository x.core) r w) m
  Section-IsBacked (saves_row {x} t) m = save_row-Backs x.between _ _ m t
  Section-IsBacked (remembers {x} t saved) m = remember-Backs x.between _ _ m t saved
  Section-IsBacked (remembers_outgoing {x} t peer job saved) m =
      remember-Backs x.between _ _ m t saved
  Section-IsBacked (remembers_late {x} t) m = remember_late-Backs x.between _ _ m t
  Section-IsBacked (remembers_outgoing_late {x} t peer job) m =
      remember_late-Backs x.between _ _ m t
  Section-IsBacked (clears_rows {x}) m = clear_rows-Backs x.between _ _ m
  Section-IsBacked (forgets_finished {x}) m = forget_finished-Backs x.between _ _ m
  Section-IsBacked (deletes_row {x} id found) m = delete_row-Backs x.between _ _ m id
  Section-IsBacked (forgets {x} id) m = forget-Backs x.between _ _ m id
  Section-IsBacked (saves_all {x}) m =
      let d = CoreState.transfers x.core in
      save_all-Backs x.between d d (CoreState.repository x.core) (All-Holds d m.keyed m.keys_once) m

  Reached-IsBacked : (x : Scene) → Reached speed_of x → IsBacked x
  Reached-IsBacked _ (starts config now r disk unique) =
      Mirrors-Backs _ _ (start_core_outcome config now r disk unique).0
  Reached-IsBacked _ (goes_on {x} {y} run step) = Section-IsBacked step (Reached-IsBacked x run)

  -- Whatever locked sections and writes to the repository follow a start over a repository in which
  -- no id stands twice, in any order: a restart from what the repository then holds gives memory and
  -- repository the same ids and states, those the repository had, where Completed, Failed and
  -- Cancelled stay and every other state becomes Interrupted. Each transfer that memory had in a state
  -- other than these three comes back Interrupted, except under an id for which a call that adds,
  -- sends or deletes a transfer has written the repository and not the memory, or has remembered a
  -- transfer whose row another call had changed meanwhile.
  pub restart_outcome :
      (x : Scene) (config : CoreConfig) (now : ℤ) (disk : Disk)
      → Reached speed_of x
      → let r = CoreState.repository x.core in
        let after = (start_core config now r disk).core in
        IsMirrored after
        × ((id : ℕ)
            → get id (memory_states after.transfers) ≡ exited (get id (row_states r.transfers)))
        × ((id : ℕ) (state : TransferState)
            → is_between id x.between ≡ false
            → get id (memory_states (CoreState.transfers x.core)) ≡ some state
            → is_active state ≡ true
            → get id (memory_states after.transfers) ≡ some interrupted)
  unfolding is_active
  restart_outcome x config now disk run =
      let m = Reached-IsBacked x run in
      let r = CoreState.repository x.core in
      let (mirrored, gets) = start_core_outcome config now r disk m.rows_once in
      (
        mirrored,
        gets,
        λ id state spared here active.
            gets id ∙ ap exited (m.has_rows id state spared here active) ∙ ground (arith, active),
      )
