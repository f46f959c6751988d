-- ===== src/App/Transfers.antt =====
-- Sending and commanding transfers, in TransferCore of native/transfer_core/src/core.rs. `make_job`,
-- `restore` and `delete` are those of Sources for the platform at hand. Between the look at the jobs
-- and the entry of the restored one, no other call restores the same job.
use transfer_assistant.Prelude.{
  ℕ, Bool, true, false, ◌&&◌, List, ◌∷◌, Option, none, some, Result, ok, err, ◌>>=◌, map_err, ok_or,
  Text, text, ℤ, if◌then◌else◌, is_empty, get, insert, nat_eq, list_eq,
}
use transfer_assistant.Model.{
  TransferSnapshot, TransferCommand, TransferDirection, incoming, outgoing, retry, new_outgoing,
}
use transfer_assistant.Control.{new_control}
use transfer_assistant.Persistence
use transfer_assistant.Persistence.{
  TransferRepository, save_transfer, remove_trusted_peer, clear_trusted_peers,
}
use transfer_assistant.Core.{
  remember_outgoing, CoreState, CoreError, PeerSummary, StoredOutgoingJob, unknown_transfer,
  no_sources, unknown_peer, network_failed, repository_failed, cancel_transfer_with_error,
  interrupt_transfer, fail_transfer,
}
use transfer_assistant.Core.Handlers.{command_transfer, is_cancel}
use transfer_assistant.Sources.{OutgoingJob, SourceHandle}
use transfer_assistant.Sources.Restore.{persist_outgoing_items, Disk}
use transfer_assistant.Wire.{LanError, remote_cancelled, is_cancelled, is_retryable}
use transfer_assistant.App.{App, Call, running, checked}

-- `send` from the point where the transfer has its fresh id; the row and the items are stored before
-- the lock is taken. Here nothing comes in between.
unfoldable pub send_job : App → ℕ → ℤ → PeerSummary → OutgoingJob → Call ℕ
send_job a id now peer job =
    persisted (persist_outgoing_items (save_transfer (CoreState.repository a.core) transfer) id job)
  where
    transfer : TransferSnapshot
    transfer =
        new_outgoing id (PeerSummary.id peer) (PeerSummary.name peer) job.item_count job.total_bytes
          now

    persisted : Result Persistence.RepositoryError TransferRepository → Call ℕ
    persisted (err e) = (
      record a {
        core = record (App.core a) {
          repository = save_transfer (CoreState.repository a.core) transfer;
        };
      },
      err (repository_failed e),
    )
    persisted (ok r) = (
      record a {
        core = remember_outgoing transfer peer job (record (App.core a) { repository = r });
        started = id ∷ a.started;
      },
      ok id,
    )

unfoldable pub send :
    (List SourceHandle → Result LanError OutgoingJob)
    → App
    → ℕ
    → ℤ
    → Text
    → List SourceHandle
    → Call ℕ
send make_job a id now peer_id sources = running a (
    if is_empty sources
    then (a, err no_sources)
    else checked a (map_err network_failed (make_job sources)) (λ job.
      checked a (ok_or (get peer_id (CoreState.peers a.core)) (unknown_peer peer_id))
        (λ peer. send_job a id now peer job)))

-- What `restore_outgoing_job` of core.rs looks up: nothing to do, or the peer of the transfer.
unfoldable pub restorable : CoreState → ℕ → Result CoreError (Option PeerSummary)
restorable s id = by_job (get id s.outgoing_jobs) (get id s.transfers)
  where
    by_direction : TransferDirection → TransferSnapshot → Result CoreError (Option PeerSummary)
    by_direction incoming t = ok none
    by_direction outgoing t = do
      peer ← ok_or (get (TransferSnapshot.peer_id t) s.peers) (unknown_peer t.peer_id)
      ok (some peer)

    by_job :
        Option StoredOutgoingJob → Option TransferSnapshot → Result CoreError (Option PeerSummary)
    by_job (some job) found = ok none
    by_job none none = err (unknown_transfer id)
    by_job none (some t) = by_direction t.direction t

unfoldable pub restore_job :
    (TransferRepository → ℕ → Result LanError OutgoingJob)
    → CoreState
    → ℕ
    → Result CoreError CoreState
restore_job restore s id = restorable s id >>= with_peer
  where
    with_peer : Option PeerSummary → Result CoreError CoreState
    with_peer none = ok s
    with_peer (some peer) = do
      job ← map_err network_failed (restore s.repository id)
      ok (record s {
        outgoing_jobs =
            insert id (record { peer = peer; job = job; control = new_control }) s.outgoing_jobs;
      })

abbrev pub is_retry : TransferCommand → Bool
is_retry retry = true
is_retry _ = false

abbrev pub is_incoming : Option TransferSnapshot → Bool
is_incoming none = false
is_incoming (some t) = by (TransferSnapshot.direction t)
  where
    by : TransferDirection → Bool
    by incoming = true
    by outgoing = false

-- `delete_partial_data` on the repository and the disk.
abbrev pub Delete : Type 0
Delete = TransferRepository → ℕ → Disk → Result LanError (TransferRepository × Disk)

unfoldable pub delete_after : Delete → App → ℕ → Call (Unit {0})
delete_after delete a id = deleted (delete (CoreState.repository a.core) id a.disk)
  where
    deleted : Result LanError (TransferRepository × Disk) → Call (Unit {0})
    deleted (err e) = (a, err (network_failed e))
    deleted (ok (r, d)) =
        (record a { core = record (App.core a) { repository = r }; disk = d }, ok tt)

abbrev pub has_job : CoreState → ℕ → Bool
has_job s id = is_some (get id s.outgoing_jobs)
  where
    is_some : Option StoredOutgoingJob → Bool
    is_some none = false
    is_some (some job) = true

-- The whole of `command_transfer`: the job of a retry is restored before it and spawned after it,
-- and the partial data of a cancelled reception is deleted.
unfoldable pub command :
    (TransferRepository → ℕ → Result LanError OutgoingJob)
    → Delete
    → App
    → ℕ
    → ℤ
    → TransferCommand
    → Call (Unit {0})
command restore delete a id now c = running a (
    checked a (if is_retry c then restore_job restore a.core id else ok a.core) (λ s.
      checked (record a { core = s }) (command_transfer s id now c)
        (λ s1.
          let a1 : App = record a {
            core = s1;
            started = if is_retry c && has_job s1 id then id ∷ a.started else a.started;
          } in
          if is_cancel c && is_incoming (get id s.transfers)
          then delete_after delete a1 id
          else (a1, ok tt))))

-- The state after a change whose error is dropped, `let _ = ...`.
abbrev pub or_unchanged : App → Result CoreError CoreState → App
or_unchanged a (err e) = a
or_unchanged a (ok s) = record a { core = s }

abbrev pub cancel_reason : LanError → Text
cancel_reason (remote_cancelled reason) = reason
cancel_reason other = text "已取消"

-- The end of a task of `spawn_outgoing` with an error, whose text is `message`.
unfoldable pub outgoing_ended : App → ℕ → ℤ → LanError → Text → App
outgoing_ended a id now e message =
    if a.shutdown_cancelled
    then a
    else if is_cancelled e
    then or_unchanged a (cancel_transfer_with_error a.core id now (cancel_reason e))
    else if is_retryable e
    then or_unchanged a (interrupt_transfer a.core id now message)
    else or_unchanged a (fail_transfer a.core id now message)
