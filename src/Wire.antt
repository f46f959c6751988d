-- ===== src/Wire.antt =====
-- native/transfer_core/src/wire.rs: the envelopes of the session and their checks, with the errors of
-- lan.rs. The text of a UUID is the parameter `to_text`, the digest of a certificate (identity.rs,
-- SHA-256) the parameter `digest`, and SHA-256 itself `sha256`.
-- `android` stands for `cfg!(target_os = "android")`. An error that carries another module's error
-- keeps only its kind.
pub mod Checks
use transfer_assistant.Prelude.{
  ℕ, ◌+◌, ◌*◌, ◌/◌, ◌%◌, Bool, true, false, not, ◌||◌, ◌&&◌, List, [], ◌∷◌, ◌++◌, Option, none,
  some, Result, ok, err, Text, text, ◌=ₜ◌, ◌==◌, if◌then◌else◌, is_empty, trim, hex_digit, filter,
  length, list_beq, leb_text, as_bytes, take,
}
use transfer_assistant.Io.{IoError, from_be_bytes}
use transfer_assistant.Manifest.{ManifestEntry, is_directory}
use transfer_assistant.Protocol.{ProtocolError, io}
use transfer_assistant.Protocol.Messages.{
  Envelope, Payload, ConnectionKind, ConnectionOpen, Hello, PairingConfirmation, WireOffer,
  ManifestPage, OfferDecision, ResumeState, ControlAction, TransferControl, TransferResult,
  connection_open_payload, hello_payload, pairing_confirmation_payload, transfer_offer_payload,
  manifest_page_payload, offer_decision_payload, resume_state_payload, transfer_control_payload,
  transfer_result_payload, connection_kind_code, action_code, protocol_major, protocol_minor,
}

pub data LanError : Type 0 where
  io_error android_storage_error tls_error identity_error transfer_error storage_error chunk_error :
      LanError
  manifest_error repository_error join_error mdns_error : LanError
  protocol_error : ProtocolError → LanError
  core_error invalid_peer_address invalid_transfer_id unexpected_message offer_rejected :
      Text → LanError
  remote_transfer_failed missing_persisted_source invalid_platform_token source_changed :
      Text → LanError
  remote_cancelled unknown_incoming_item incomplete_transfer target_appeared : Text → LanError
  no_transferable_sources too_many_items too_many_chunks total_size_overflow : LanError
  missing_peer_certificate certificate_fingerprint_mismatch invalid_hello pairing_rejected :
      LanError
  invalid_transfer_token missing_source_path missing_persisted_sources stopped cancelled_error :
      LanError
  lock_poisoned chunk_plan_mismatch invalid_manifest_page invalid_manifest_kind : LanError
  duplicate_item_id missing_final_path invalid_data_channel : LanError
  unknown_incoming_transfer invalid_hash_length incomplete_data_channel
        unexpected_data_channel_end :
      ℕ → LanError

unfoldable pub is_cancelled : LanError → Bool
is_cancelled cancelled_error = true
is_cancelled (remote_cancelled reason) = true
is_cancelled _ = false

-- The `matches!` of `is_retryable`.
retryable_kind : LanError → Bool
retryable_kind io_error = true
retryable_kind tls_error = true
retryable_kind (protocol_error (io e)) = true
retryable_kind stopped = true
retryable_kind (remote_transfer_failed message) = true
retryable_kind (source_changed path) = true
retryable_kind (incomplete_data_channel index) = true
retryable_kind (incomplete_transfer path) = true
retryable_kind _ = false

unfoldable pub is_retryable : LanError → Bool
unfolding is_cancelled retryable_kind
is_retryable e = if is_cancelled e then false else retryable_kind e

unfoldable pub envelope : Payload → Envelope
envelope payload = record {
  protocol_major = protocol_major;
  protocol_minor = protocol_minor;
  payload = some payload;
}

unfoldable pub hello_envelope : Bool → Text → Text → List ℕ → Envelope
hello_envelope android device_id device_name fingerprint = envelope (
    hello_payload (record {
      device_id = device_id;
      display_name = device_name;
      certificate_fingerprint = fingerprint;
      capabilities = if android then 1 else 0;
    }))

unfoldable pub pairing_confirmation : Bool → Bool → Envelope
pairing_confirmation confirmed remember_peer =
    envelope (
      pairing_confirmation_payload
        (record { confirmed = confirmed; remember_peer = remember_peer }))

module _ (to_text : ℕ → Text) where
  unfoldable pub connection_open : ConnectionKind → ℕ → List ℕ → ℕ → Envelope
  connection_open kind transfer_id token channel_index = envelope (
      connection_open_payload (record {
        kind = connection_kind_code kind;
        transfer_id = to_text transfer_id;
        transfer_token = token;
        channel_index = channel_index;
      }))

  -- Of the job: its counts, its names and its entries.
  unfoldable pub offer_envelope : ℕ → ℕ → ℕ → List Text → List ManifestEntry → Envelope
  offer_envelope transfer_id item_count total_bytes top_level_names entries = envelope (
      transfer_offer_payload (record {
        transfer_id = to_text transfer_id;
        item_count = item_count;
        directory_count = length (filter (λ e. is_directory (ManifestEntry.kind e)) entries);
        total_bytes = total_bytes;
        top_level_names = top_level_names;
      }))

  unfoldable pub decision_envelope : ℕ → Bool → Text → List ℕ → ℕ → Envelope
  decision_envelope transfer_id accepted reason token channel_count = envelope (
      offer_decision_payload (record {
        transfer_id = to_text transfer_id;
        accepted = accepted;
        reason = reason;
        transfer_token = token;
        data_channel_count = channel_count;
      }))

  unfoldable pub result_envelope : ℕ → Bool → Text → Envelope
  result_envelope transfer_id completed error = envelope (
      transfer_result_payload
        (record { transfer_id = to_text transfer_id; completed = completed; error = error }))

  unfoldable pub control_envelope : ℕ → ControlAction → Envelope
  control_envelope transfer_id action = envelope (
      transfer_control_payload
        (record { transfer_id = to_text transfer_id; action = action_code action }))

-- The functions of `expect_payload!`.
unfoldable pub expect_connection_open : Envelope → Result LanError ConnectionOpen
expect_connection_open e = elim (Envelope.payload e) [
  | some (connection_open_payload value) ↦ ok value
  | _ ↦ err (unexpected_message (text "ConnectionOpen"))
]

unfoldable pub expect_hello : Envelope → Result LanError Hello
expect_hello e = elim (Envelope.payload e) [
  | some (hello_payload value) ↦ ok value
  | _ ↦ err (unexpected_message (text "Hello"))
]

unfoldable pub expect_offer : Envelope → Result LanError WireOffer
expect_offer e = elim (Envelope.payload e) [
  | some (transfer_offer_payload value) ↦ ok value
  | _ ↦ err (unexpected_message (text "TransferOffer"))
]

unfoldable pub expect_manifest : Envelope → Result LanError ManifestPage
expect_manifest e = elim (Envelope.payload e) [
  | some (manifest_page_payload value) ↦ ok value
  | _ ↦ err (unexpected_message (text "ManifestPage"))
]

unfoldable pub expect_pairing : Envelope → Result LanError PairingConfirmation
expect_pairing e = elim (Envelope.payload e) [
  | some (pairing_confirmation_payload value) ↦ ok value
  | _ ↦ err (unexpected_message (text "PairingConfirmation"))
]

unfoldable pub expect_decision : Envelope → Result LanError OfferDecision
expect_decision e = elim (Envelope.payload e) [
  | some (offer_decision_payload value) ↦ ok value
  | _ ↦ err (unexpected_message (text "OfferDecision"))
]

unfoldable pub expect_resume : Envelope → Result LanError ResumeState
expect_resume e = elim (Envelope.payload e) [
  | some (resume_state_payload value) ↦ ok value
  | _ ↦ err (unexpected_message (text "ResumeState"))
]

unfoldable pub expect_result : Envelope → Result LanError TransferResult
expect_result e = elim (Envelope.payload e) [
  | some (transfer_result_payload value) ↦ ok value
  | _ ↦ err (unexpected_message (text "TransferResult"))
]

unfoldable pub expect_control : Envelope → Result LanError TransferControl
expect_control e = elim (Envelope.payload e) [
  | some (transfer_control_payload value) ↦ ok value
  | _ ↦ err (unexpected_message (text "TransferControl"))
]

-- `{byte:02x}` of every byte.
abbrev pub hex : List ℕ → Text
hex [] = []
hex (b ∷ bytes) = hex_digit (b / 16) ∷ hex_digit (b % 16) ∷ hex bytes

unfoldable pub validate_hello : Hello → List ℕ → Result LanError (Unit {0})
validate_hello hello tls_fingerprint =
    if not (list_beq ◌==◌ hello.certificate_fingerprint tls_fingerprint)
    then err certificate_fingerprint_mismatch
    else if not (hello.device_id =ₜ hex tls_fingerprint) || is_empty (trim hello.display_name)
    then err invalid_hello
    else ok tt

unfoldable pub tls_peer_fingerprint :
    (List ℕ → List ℕ) → Option (List (List ℕ)) → Result LanError (List ℕ)
tls_peer_fingerprint digest (some (certificate ∷ rest)) = ok (digest certificate)
tls_peer_fingerprint digest _ = err missing_peer_certificate

-- `{number:06}` of a number below a million.
abbrev pub six_digits : ℕ → Text
six_digits n =
    (b'0' + n / 100000 % 10)
    ∷ (b'0' + n / 10000 % 10)
    ∷ (b'0' + n / 1000 % 10)
    ∷ (b'0' + n / 100 % 10)
    ∷ (b'0' + n / 10 % 10)
    ∷ (b'0' + n % 10)
    ∷ []

module _ (sha256 : List ℕ → List ℕ) where
  -- The digits for the fingerprints in order and the transcript.
  unfoldable pub code_of : List ℕ → List ℕ → Text
  code_of fingerprints transcript =
      let digest =
        sha256 (as_bytes (text "transassist-pair-v1\0") ++ (fingerprints ++ transcript)) in
      six_digits (from_be_bytes (take 4 digest) % 1000000)

  -- `derive_pairing_code` of identity.rs.
  unfoldable pub derive_pairing_code : List ℕ → List ℕ → List ℕ → Text
  derive_pairing_code local_fingerprint remote_fingerprint transcript =
      code_of
        (if leb_text local_fingerprint remote_fingerprint
          then local_fingerprint ++ remote_fingerprint
          else remote_fingerprint ++ local_fingerprint)
        transcript

  unfoldable pub pairing_code : List ℕ → Text → List ℕ → Text → Text
  pairing_code local_fingerprint local_id remote remote_id =
      derive_pairing_code local_fingerprint remote (
        as_bytes (
          if leb_text local_id remote_id
          then local_id ++ (b'|' ∷ remote_id)
          else remote_id ++ (b'|' ∷ local_id)))

unfoldable pub device_kind : ℕ → Text
device_kind capabilities = if capabilities % 2 == 1 then text "phone" else text "computer"
