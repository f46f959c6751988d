-- ===== src/Protocol/Messages.antt =====
-- native/transfer_core/proto/transfer.proto: the messages, as prost's structs hold them. An
-- enumeration field is an i32.
use transfer_assistant.Prelude.{ℕ, Bool, List, Option, Text, ℤ, pos, some, none, zero, suc}

abbrev pub protocol_major : ℕ
protocol_major = 1

abbrev pub protocol_minor : ℕ
protocol_minor = 0

pub data ConnectionKind : Type 0 where
  control_connection data_connection unspecified_connection : ConnectionKind

pub record ConnectionOpen : Type 0 where
  pub kind : ℤ
  pub transfer_id : Text
  pub transfer_token : List ℕ
  pub channel_index : ℕ

pub record Hello : Type 0 where
  pub device_id : Text
  pub display_name : Text
  pub certificate_fingerprint : List ℕ
  pub capabilities : ℕ

pub record PairingConfirmation : Type 0 where
  pub confirmed : Bool
  pub remember_peer : Bool

pub record WireOffer : Type 0 where
  pub transfer_id : Text
  pub item_count : ℕ
  pub directory_count : ℕ
  pub total_bytes : ℕ
  pub top_level_names : List Text

pub record WireEntry : Type 0 where
  pub item_id : Text
  pub relative_path : Text
  pub kind : ℤ
  pub size : ℕ
  pub modified_unix_ms : ℤ
  pub source_revision : Text
  pub random_access : Bool

pub record ManifestPage : Type 0 where
  pub transfer_id : Text
  pub page_index : ℕ
  pub is_last : Bool
  pub entries : List WireEntry

pub record OfferDecision : Type 0 where
  pub transfer_id : Text
  pub accepted : Bool
  pub reason : Text
  pub transfer_token : List ℕ
  pub data_channel_count : ℕ

pub record FileResume : Type 0 where
  pub item_id : Text
  pub completed_bitmap : List ℕ

pub record ResumeState : Type 0 where
  pub transfer_id : Text
  pub files : List FileResume

pub data ControlAction : Type 0 where
  pause_action resume_action cancel_action unspecified_action : ControlAction

pub record TransferControl : Type 0 where
  pub transfer_id : Text
  pub action : ℤ

pub record TransferResult : Type 0 where
  pub transfer_id : Text
  pub completed : Bool
  pub error : Text

pub record WireError : Type 0 where
  pub error_code : ℕ
  pub message : Text

pub data Payload : Type 0 where
  connection_open_payload : ConnectionOpen → Payload
  hello_payload : Hello → Payload
  pairing_confirmation_payload : PairingConfirmation → Payload
  transfer_offer_payload : WireOffer → Payload
  manifest_page_payload : ManifestPage → Payload
  offer_decision_payload : OfferDecision → Payload
  resume_state_payload : ResumeState → Payload
  transfer_control_payload : TransferControl → Payload
  transfer_result_payload : TransferResult → Payload
  protocol_error_payload : WireError → Payload

pub record Envelope : Type 0 where
  pub protocol_major : ℕ
  pub protocol_minor : ℕ
  pub payload : Option Payload

pub record ChunkHeader : Type 0 where
  pub transfer_id : Text
  pub item_id : Text
  pub chunk_index : ℕ
  pub offset : ℕ
  pub length : ℕ
  pub blake3_hash : List ℕ

-- prost's `as i32` and `try_from` of the enumerations.
abbrev pub connection_kind_code : ConnectionKind → ℤ
connection_kind_code unspecified_connection = pos 0
connection_kind_code control_connection = pos 1
connection_kind_code data_connection = pos 2

abbrev pub connection_kind_of : ℤ → Option ConnectionKind
connection_kind_of (pos zero) = some unspecified_connection
connection_kind_of (pos (suc zero)) = some control_connection
connection_kind_of (pos (suc (suc zero))) = some data_connection
connection_kind_of _ = none

abbrev pub action_code : ControlAction → ℤ
action_code unspecified_action = pos 0
action_code pause_action = pos 1
action_code resume_action = pos 2
action_code cancel_action = pos 3

abbrev pub action_of : ℤ → Option ControlAction
action_of (pos zero) = some unspecified_action
action_of (pos (suc zero)) = some pause_action
action_of (pos (suc (suc zero))) = some resume_action
action_of (pos (suc (suc (suc zero)))) = some cancel_action
action_of _ = none
