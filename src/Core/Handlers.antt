-- ===== src/Core/Handlers.antt =====
-- The progress, the calls of the peer, the user's commands and the peers of core.rs.
use transfer_assistant.Prelude.{
  ℕ, ◌+◌, ◌-◌, ◌^◌, min, Bool, true, false, not, ◌&&◌, ◌||◌, List, Option, none, some, Result, ok,
  ◌>>=◌, map_err, ok_or, Text, text, ℤ, leb, ltb, ◌==◌, if◌then◌else◌, get, insert, nat_eq, list_eq,
}
use transfer_assistant.Model.{
  TransferSnapshot, TransferState, TransferCommand, pause, resume, cancel, retry, paused,
  transferring, cancelled, is_terminal, apply_command,
}
use transfer_assistant.Control.{
  JobControl, new_control, pause_control, resume_control, cancel_control, pause_control_from_remote,
  resume_control_from_remote, cancel_control_from_remote,
}
use transfer_assistant.Persistence.{save_transfer}
use transfer_assistant.Core.{
  CoreState, CoreError, ProgressSample, StoredOutgoingJob, unknown_transfer, lifecycle_error,
  queue_transfers_changed, is_transferring,
}

abbrev pub saturating_add : ℕ → ℕ → ℕ
saturating_add a b = min (a + b) (2 ^ 64 - 1)

unfoldable pub set_completed_bytes : CoreState → ℕ → ℕ → ℤ → ℕ → Result CoreError CoreState
set_completed_bytes s id completed now at = do
  t ← ok_or (get id s.transfers) (unknown_transfer id)
  (let done = min completed t.total_bytes in
      let t1 = record t { completed_bytes = done; bytes_per_second = 0; updated_unix_ms = now } in
      ok (
        queue_transfers_changed (record s {
          transfers = insert id t1 s.transfers;
          repository = save_transfer s.repository t1;
          progress_samples =
              insert id (record { at = at; completed_bytes = done; last_saved_at = at })
                s.progress_samples;
        })))

-- `or_insert`.
abbrev pub sample_or : Option ProgressSample → ProgressSample → ProgressSample
sample_or none fresh = fresh
sample_or (some sample) fresh = sample

-- `speed_of bytes elapsed` is the quotient of floating-point numbers.
module _ (speed_of : ℕ → ℕ → ℕ) where
  -- The snapshot and the sample after `added` more bytes, and whether they are saved.
  unfoldable pub progress :
      TransferSnapshot
      → Option ProgressSample
      → ℤ
      → ℕ
      → ℕ
      → TransferSnapshot × ProgressSample × Bool
  progress t found now at added =
      let completed = min (saturating_add t.completed_bytes added) t.total_bytes in
      let sample =
        sample_or found
          (record { at = at; completed_bytes = t.completed_bytes; last_saved_at = at }) in
      let elapsed = at - sample.at in
      let measured = leb 250 elapsed in
      let should_save =
        leb t.total_bytes completed
        || (((TransferSnapshot.completed_bytes t == 0) && ltb 0 completed)
            || leb 500 (at - sample.last_saved_at)) in
      (
        record t {
          completed_bytes = completed;
          bytes_per_second =
              if measured
              then speed_of (completed - ProgressSample.completed_bytes sample) elapsed
              else t.bytes_per_second;
          updated_unix_ms = now;
        },
        record {
          at = if measured then at else sample.at;
          completed_bytes = if measured then completed else ProgressSample.completed_bytes sample;
          last_saved_at = if should_save then at else sample.last_saved_at;
        },
        should_save,
      )

  unfoldable pub update_completed_bytes : CoreState → ℕ → ℕ → ℤ → ℕ → Result CoreError CoreState
  update_completed_bytes s id added now at = do
    t ← ok_or (get id s.transfers) (unknown_transfer id)
    (let (t1, sample, should_save) = progress t (get id s.progress_samples) now at added in
        ok (
          queue_transfers_changed (record s {
            transfers = insert id t1 s.transfers;
            progress_samples = insert id sample s.progress_samples;
            repository = if should_save then save_transfer s.repository t1 else s.repository;
          })))

-- A change of the control of a running task, outgoing and incoming.
abbrev pub on_controls : (JobControl → JobControl) → ℕ → CoreState → CoreState
on_controls f id s = record s {
  outgoing_jobs = jobs (get id s.outgoing_jobs);
  incoming_controls = controls (get id s.incoming_controls);
}
  where
    jobs : Option StoredOutgoingJob → List (ℕ × StoredOutgoingJob)
    jobs none = s.outgoing_jobs
    jobs (some job) = insert id (record job { control = f job.control }) s.outgoing_jobs

    controls : Option JobControl → List (ℕ × JobControl)
    controls none = s.incoming_controls
    controls (some c) = insert id (f c) s.incoming_controls

-- `if let Some(transfer) = ... && test(transfer) { change and save }`.
abbrev pub change_if :
    (TransferSnapshot → Bool) → (TransferSnapshot → TransferSnapshot) → ℕ → CoreState → CoreState
change_if test change id s = changed (get id s.transfers)
  where
    changed : Option TransferSnapshot → CoreState
    changed none = s
    changed (some t) =
        if test t
        then record s {
          transfers = insert id (change t) s.transfers;
          repository = save_transfer s.repository (change t);
        }
        else s

unfoldable pub pause_from_remote : CoreState → ℕ → ℤ → CoreState
pause_from_remote s id now = queue_transfers_changed (
    change_if (λ t. not (is_terminal t.state))
      (λ t. record t { state = paused; bytes_per_second = 0; updated_unix_ms = now }) id
      (on_controls pause_control_from_remote id s))

abbrev pub is_paused_state : TransferState → Bool
is_paused_state paused = true
is_paused_state _ = false

unfoldable pub resume_from_remote : CoreState → ℕ → ℤ → CoreState
resume_from_remote s id now = queue_transfers_changed (
    change_if (λ t. is_paused_state t.state)
      (λ t. record t { state = transferring; updated_unix_ms = now }) id
      (on_controls resume_control_from_remote id s))

unfoldable pub cancel_from_remote : CoreState → ℕ → ℤ → Text → CoreState
cancel_from_remote s id now reason = queue_transfers_changed (
    change_if (λ t. not (is_terminal t.state))
      (λ t. record t {
        state = cancelled;
        bytes_per_second = 0;
        error = some reason;
        updated_unix_ms = now;
      })
      id (on_controls (cancel_control_from_remote reason) id s))

abbrev pub is_cancel : TransferCommand → Bool
is_cancel cancel = true
is_cancel _ = false

abbrev pub command_incoming : TransferCommand → JobControl → JobControl
command_incoming pause c = pause_control c
command_incoming resume c = resume_control c
command_incoming cancel c = cancel_control c
command_incoming retry c = c

-- A retried job gets a new control.
abbrev pub command_outgoing : TransferCommand → JobControl → JobControl
command_outgoing retry c = new_control
command_outgoing command c = command_incoming command c

-- The snapshot after a command, before it is saved.
abbrev pub commanded : TransferCommand → ℤ → TransferSnapshot → TransferSnapshot
commanded command now t = record t {
  bytes_per_second = if is_transferring t.state then t.bytes_per_second else 0;
  error = if is_cancel command then some (text "已取消") else t.error;
  updated_unix_ms = now;
}

abbrev pub command_controls : TransferCommand → ℕ → CoreState → CoreState
command_controls command id s = record s {
  incoming_controls = controls (get id s.incoming_controls);
  outgoing_jobs = jobs (get id s.outgoing_jobs);
}
  where
    controls : Option JobControl → List (ℕ × JobControl)
    controls none = s.incoming_controls
    controls (some c) = insert id (command_incoming command c) s.incoming_controls

    jobs : Option StoredOutgoingJob → List (ℕ × StoredOutgoingJob)
    jobs none = s.outgoing_jobs
    jobs (some job) =
        insert id (record job { control = command_outgoing command job.control }) s.outgoing_jobs

-- The part of `command_transfer` under the lock. Restoring a job before a retry, starting it after
-- one, and deleting the partial data of a cancelled incoming transfer are outside of it.
unfoldable pub command_transfer : CoreState → ℕ → ℤ → TransferCommand → Result CoreError CoreState
command_transfer s id now command = do
  t ← ok_or (get id s.transfers) (unknown_transfer id)
  t1 ← map_err lifecycle_error (apply_command t command)
  (let t2 = commanded command now t1 in
      ok (
        queue_transfers_changed (
          command_controls command id (record s {
            transfers = insert id t2 s.transfers;
            repository = save_transfer s.repository t2;
          }))))
