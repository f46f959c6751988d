-- ===== src/App/Calls.antt =====
-- Every call of the application leaves memory and repository with the same states.
use transfer_assistant.Prelude.{
  branch_keeps, ℕ, ◌≡◌, refl, ◌∙◌, Bool, true, false, not, ◌&&◌, List, [], ◌∷◌, Result, ok, err,
  >>=-eq-ok, map_err, Text, ℤ, arith, ◌==◌, Bool-cases, Result-cases, Option-cases, find, any, ◌=ₜ◌,
  inl, inr, get, nat_eq, list_eq, is_empty, filter, length, if◌then◌else◌,
}
use transfer_assistant.Model.{TransferSnapshot, TransferCommand, new_outgoing}
use transfer_assistant.Persistence.{
  TransferRepository, StoredTransferItem, save_transfer, save_item, clashes, has_transfer,
}
use transfer_assistant.Persistence.Statements.{
  delete_transfers, is_finished, clear_completed_chunks, list_items,
}
use transfer_assistant.Persistence.Statements
use transfer_assistant.Core.{
  remember_outgoing, forget_finished, forget_transfer, CoreState, CoreError, core_stopped,
  PeerSummary, network_failed, queue_transfers_changed,
}
use transfer_assistant.Core.Handlers.{is_cancel}
use transfer_assistant.Sources.{OutgoingJob, SourceHandle}
use transfer_assistant.Paging.{OutgoingEntry}
use transfer_assistant.Sources.Restore.{
  save_entries, persist_outgoing_items, delete_partial_data, delete_items, stored_item, Disk,
}
use transfer_assistant.Wire.{LanError}
use transfer_assistant.App.{App, Call, running, checked}
use transfer_assistant.App.Transfers.{
  send, send_job, delete_after, restore_job, restorable, command, is_retry, is_incoming,
}
use transfer_assistant.App.Requests.{clear_history, delete_history_transfer}
use transfer_assistant.App.Mirrored.{put-Mirrors, removed-Mirrors, cleared-Mirrors}
use transfer_assistant.App.Locked.{IsMirrored, still-IsMirrored, command-IsMirrored}

-- A property of what calls give holds if it does for the errors and for the body.
module _ {A : Type 0} (P : Call A → Type 0) where
  pub running_keeps :
      (a : App) (call : Call A) → P (a, err core_stopped) → P call → P (running a call)
  unfolding running
  running_keeps a call refused goes =
      branch_keeps P a.stopped (a, err core_stopped) call refused goes

  pub checked_keeps :
      {B : Type 0} (a : App) (r : Result CoreError B) (next : B → Call A)
      → ((e : CoreError) → P (a, err e))
      → ((b : B) → r ≡ ok b → P (next b))
      → P (checked a r next)
  unfolding checked
  checked_keeps a (err e) next refused goes = refused e
  checked_keeps a (ok b) next refused goes = goes b refl

abbrev pub Leaves : {A : Type 0} → Call A → Type 0
Leaves c = IsMirrored (App.core c.0)

-- For a call that may leave a row behind when it fails.
abbrev pub LeavesIfOk : {A : Type 0} → Call A → Type 0
LeavesIfOk {A} c = (x : A) → c.1 ≡ ok x → Leaves c

pub save_item-transfers :
    (r : TransferRepository) (i : StoredTransferItem) (r' : TransferRepository)
    → save_item r i ≡ ok r'
    → r'.transfers ≡ r.transfers
unfolding save_item
save_item-transfers r i r' h =
    elim (Option-cases
      (find (λ j. StoredTransferItem.id j =ₜ StoredTransferItem.id i) r.transfer_items)) [
        | inl fresh ↦
            let h1 = rw fresh at h in
            elim (Bool-cases (any (clashes i) r.transfer_items)) [
              | inl clash ↦ cc (rw clash at h1)
              | inr free ↦
                  let h2 = rw free at h1 in
                  elim (Bool-cases (has_transfer r i.transfer_id)) [
                    | inl known ↦ let is = rw known at h2 in ground arith
                    | inr unknown ↦ cc (rw unknown at h2)
                  ]
            ]
        | inr (old, known) ↦
            let h1 = rw known at h in
            let updated : StoredTransferItem = record i {
              transfer_id = StoredTransferItem.transfer_id old;
            } in
            elim (Bool-cases (any (clashes updated) r.transfer_items)) [
              | inl clash ↦ cc (rw clash at h1)
              | inr free ↦ let is = rw free at h1 in ground arith
            ]
      ]

save_entries-transfers :
    (r : TransferRepository) (id : ℕ) (es : List OutgoingEntry) (r' : TransferRepository)
    → save_entries r id es ≡ ok r'
    → r'.transfers ≡ r.transfers
unfolding save_entries
save_entries-transfers r id [] r' h = ground arith
save_entries-transfers r id (e ∷ es) r' h =
    let (r1, saved, rest) = >>=-eq-ok (save_item r (stored_item id e)) _ h in
    save_entries-transfers r1 id es r' rest ∙ save_item-transfers r (stored_item id e) r1 saved

send_job-LeavesIfOk :
    (a : App) (id : ℕ) (now : ℤ) (peer : PeerSummary) (job : OutgoingJob)
    → IsMirrored a.core
    → LeavesIfOk (send_job a id now peer job)
unfolding send_job persist_outgoing_items queue_transfers_changed save_transfer new_outgoing
    remember_outgoing
send_job-LeavesIfOk a id now peer job m x h =
    let t =
      new_outgoing id (PeerSummary.id peer) (PeerSummary.name peer) job.item_count job.total_bytes
        now in
    let r = save_transfer (CoreState.repository a.core) t in
    elim (Result-cases (persist_outgoing_items r id job)) [
      | inl (e, failed) ↦ cc (rw failed at h)
      | inr (r', saved) ↦ rw saved (
          rw (save_entries-transfers r id job.entries r' saved) (
            put-Mirrors (CoreState.transfers a.core) (CoreState.repository a.core).transfers m id t
              refl))
    ]

pub send-LeavesIfOk :
    (make_job : List SourceHandle → Result LanError OutgoingJob) (a : App) (id : ℕ) (now : ℤ)
    (peer_id : Text) (sources : List SourceHandle)
    → IsMirrored a.core
    → LeavesIfOk (send make_job a id now peer_id sources)
unfolding send
send-LeavesIfOk make_job a id now peer_id sources m =
    running_keeps LeavesIfOk a _ (λ x e. m)
      (branch_keeps LeavesIfOk (is_empty sources) _ _ (λ x e. m)
        (checked_keeps LeavesIfOk a _ _ (λ e x h. m)
          (λ job made.
            checked_keeps LeavesIfOk a _ _ (λ e x h. m)
              (λ peer known. send_job-LeavesIfOk a id now peer job m))))

restore_job-IsMirrored :
    (restore : TransferRepository → ℕ → Result LanError OutgoingJob) (s : CoreState) (id : ℕ)
    (s' : CoreState)
    → IsMirrored s
    → restore_job restore s id ≡ ok s'
    → IsMirrored s'
unfolding restore_job
restore_job-IsMirrored restore s id s' m h =
    let (found, looked, later) = >>=-eq-ok (restorable s id) _ h in
    elim (Option-cases found) [
      | inl nothing ↦
          let is = rw nothing at later in still-IsMirrored s s' (ground arith) (ground arith) m
      | inr (peer, here) ↦
          let (job, restored, last) =
            >>=-eq-ok (map_err network_failed (restore s.repository id)) _ (rw here at later) in
          still-IsMirrored s s' (ground arith) (ground arith) m
    ]

prepared-IsMirrored :
    (restore : TransferRepository → ℕ → Result LanError OutgoingJob) (retries : Bool)
    (s : CoreState) (id : ℕ) (s' : CoreState)
    → IsMirrored s
    → (if retries then restore_job restore s id else ok s) ≡ ok s'
    → IsMirrored s'
prepared-IsMirrored restore true s id s' m h = restore_job-IsMirrored restore s id s' m h
prepared-IsMirrored restore false s id s' m h =
    still-IsMirrored s s' (ground arith) (ground arith) m

delete_partial_data-transfers :
    (refuses : ℕ → Text → Bool) (android : Bool) (delete_target : Text → Bool)
    (r : TransferRepository) (id : ℕ) (d : Disk) (r' : TransferRepository) (d' : Disk)
    → delete_partial_data refuses android delete_target r id d ≡ ok (r', d')
    → r'.transfers ≡ r.transfers
unfolding delete_partial_data clear_completed_chunks
delete_partial_data-transfers refuses android delete_target r id d r' d' h =
    let (d1, deleted, last) =
      >>=-eq-ok (delete_items refuses android delete_target (list_items r id) d) _ h in
    ground arith

module _ (refuses : ℕ → Text → Bool) (android : Bool) (delete_target : Text → Bool) where
  delete_after-Leaves :
      (a : App) (id : ℕ)
      → IsMirrored a.core
      → Leaves (delete_after (delete_partial_data refuses android delete_target) a id)
  unfolding delete_after
  delete_after-Leaves a id m =
      let r = CoreState.repository a.core in
      elim (Result-cases (delete_partial_data refuses android delete_target r id a.disk)) [
        | inl (e, failed) ↦ rw failed m
        | inr ((r', d), deleted) ↦ rw deleted (
            rw
              (delete_partial_data-transfers refuses android delete_target r id a.disk r' d deleted)
              m)
      ]

  pub command-Leaves :
      (restore : TransferRepository → ℕ → Result LanError OutgoingJob) (a : App) (id : ℕ) (now : ℤ)
      (c : TransferCommand)
      → IsMirrored a.core
      → Leaves (command restore (delete_partial_data refuses android delete_target) a id now c)
  unfolding command
  command-Leaves restore a id now c m = running_keeps Leaves a _ m (
      checked_keeps Leaves a (if is_retry c then restore_job restore a.core id else ok a.core) _
        (λ e. m)
        (λ s prepared.
          let ms = prepared-IsMirrored restore (is_retry c) a.core id s m prepared in
          checked_keeps Leaves (record a { core = s }) _ _ (λ e. ms)
            (λ s1 done.
              let m1 = command-IsMirrored s id now c s1 ms done in
              branch_keeps Leaves (is_cancel c && is_incoming (get id s.transfers)) _ _
                (delete_after-Leaves _ id m1) m1)))

kept_all :
    (id : ℕ) (rows : List TransferSnapshot)
    → length (filter (λ t. TransferSnapshot.id t == id) rows) ≡ 0
    → filter (λ t. not (TransferSnapshot.id t == id)) rows ≡ rows
kept_all id [] h = refl
kept_all id (t ∷ rows) h = ground (arith, kept_all id rows)

pub clear_history-Leaves : (a : App) → IsMirrored a.core → Leaves (clear_history a)
unfolding clear_history Statements.clear_history delete_transfers queue_transfers_changed
    forget_finished
clear_history-Leaves a m =
    running_keeps Leaves a _ m
      (cleared-Mirrors (CoreState.transfers a.core) (CoreState.repository a.core).transfers m)

pub delete_history_transfer-Leaves :
    (a : App) (id : ℕ) → IsMirrored a.core → Leaves (delete_history_transfer a id)
unfolding delete_history_transfer Statements.delete_history_transfer delete_transfers
    queue_transfers_changed forget_transfer
delete_history_transfer-Leaves a id m =
    let r = CoreState.repository a.core in
    let d = CoreState.transfers a.core in
    let count = length (filter (λ t. TransferSnapshot.id t == id) r.transfers) in
    running_keeps Leaves a _ m (elim (Bool-cases (not (count == 0))) [
      | inl some_gone ↦ rw some_gone (removed-Mirrors d r.transfers m id)
      | inr none_gone ↦ rw none_gone (rw (kept_all id r.transfers (ground arith)) m)
    ])
