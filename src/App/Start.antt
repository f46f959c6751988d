-- ===== src/App/Start.antt =====
-- TransferCore::initialize of native/transfer_core/src/core.rs, from the repository that is opened.
-- The listener and the discovery that it starts are not modelled; `identity` is what
-- `load_or_generate` of Identity gives.
use transfer_assistant.Prelude.{
  map_err, ℕ, Bool, false, List, [], ◌∷◌, Option, none, some, Result, ok, err, ◌>>=◌, Text, text, ℤ,
  if◌then◌else◌, Dict, insert, nat_eq,
}
use transfer_assistant.Model.{TransferSnapshot, interrupted}
use transfer_assistant.Persistence.{TransferRepository, save_transfer, list_transfers}
use transfer_assistant.Persistence.Statements.{is_finished, setting}
use transfer_assistant.Core.{
  CoreConfig, CoreError, ready, settings_loaded, core_io, identity_failed,
}
use transfer_assistant.Core.Peers.{validate_config}
use transfer_assistant.Identity.{IdentityError, DeviceIdentity}
use transfer_assistant.Sources.Restore.{Disk}
use transfer_assistant.App.{App}

-- The fields of `PersistedSettings` over those of the configuration.
pub record PersistedSettings : Type 0 where
  pub device_name : Text
  pub receive_directory : Text
  pub background_receive : Bool
  pub auto_accept_trusted : Bool
  pub theme_mode : Text
  pub theme_style : Text
  pub has_completed_first_setup : Bool

unfoldable pub with_settings : PersistedSettings → CoreConfig → CoreConfig
with_settings saved config = record config {
  device_name = saved.device_name;
  receive_directory = saved.receive_directory;
  background_receive = saved.background_receive;
  auto_accept_trusted = saved.auto_accept_trusted;
  theme_mode = saved.theme_mode;
  theme_style = saved.theme_style;
  has_completed_first_setup = saved.has_completed_first_setup;
}

-- A transfer after the application was closed.
unfoldable pub interrupted_by_exit : ℤ → TransferSnapshot → TransferSnapshot
interrupted_by_exit now t = record t {
  state = interrupted;
  bytes_per_second = 0;
  error = some (text "应用曾退出，可重试以继续缺失的数据块");
  updated_unix_ms = now;
}

-- The loop over the restored transfers: what becomes of them, and the repository.
unfoldable pub restore_transfers :
    ℤ → List TransferSnapshot → TransferRepository → List TransferSnapshot × TransferRepository
restore_transfers now [] r = ([], r)
restore_transfers now (t ∷ rest) r =
    let t1 = if is_finished t.state then t else interrupted_by_exit now t in
    let (others, last) =
      restore_transfers now rest (if is_finished t.state then r else save_transfer r t1) in
    (t1 ∷ others, last)

-- A map collected from its entries: of two with one key the later counts.
unfoldable pub collect_transfers :
    Dict ℕ TransferSnapshot → List TransferSnapshot → Dict ℕ TransferSnapshot
collect_transfers d [] = d
collect_transfers d (t ∷ rest) = collect_transfers (insert (TransferSnapshot.id t) t d) rest

unfoldable pub start_core : CoreConfig → ℤ → TransferRepository → Disk → App
start_core config now r disk =
    let (transfers, r1) = restore_transfers now (list_transfers r) r in
    record {
      core = record {
        peers = [];
        transfers = collect_transfers [] transfers;
        events = settings_loaded config ∷ ready ∷ [];
        outgoing_jobs = [];
        incoming_controls = [];
        progress_samples = [];
        repository = r1;
      };
      config = config;
      pending_answers = [];
      answered = [];
      started = [];
      disk = disk;
      shutdown_cancelled = false;
      stopped = false;
    }

-- A directory that can be made.
unfoldable pub made_directory : (Text → Bool) → Text → Result CoreError (Unit {0})
made_directory directory_ok path = if directory_ok path then ok tt else err core_io

unfoldable pub with_saved :
    (Text → Bool) → Option PersistedSettings → CoreConfig → Result CoreError CoreConfig
unfolding made_directory with_settings
with_saved receive_ok none config = ok config
with_saved receive_ok (some saved) config = do
  let effective = with_settings saved config
  valid ← validate_config effective.device_name effective.theme_mode effective.theme_style
  made ← made_directory receive_ok effective.receive_directory
  ok effective

-- `parse_settings` reads the JSON of the settings; an error of it ends the start.
unfoldable pub initialize :
    (Text → Bool)
    → (Text → Bool)
    → (Text → Result CoreError PersistedSettings)
    → Result IdentityError DeviceIdentity
    → CoreConfig
    → ℤ
    → TransferRepository
    → Disk
    → Result CoreError App
initialize data_ok receive_ok parse_settings identity config now r disk = do
  valid ← validate_config config.device_name config.theme_mode config.theme_style
  data_made ← made_directory data_ok config.data_directory
  receive_made ← made_directory receive_ok config.receive_directory
  saved ← settings_of (setting r (text "core_settings"))
  effective ← with_saved receive_ok saved config
  device ← map_err identity_failed identity
  ok (start_core effective now r disk)
  where
    settings_of : Option Text → Result CoreError (Option PersistedSettings)
    settings_of none = ok none
    settings_of (some json) = parse_settings json >>= λ s. ok (some s)
