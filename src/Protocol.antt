-- ===== src/Protocol.antt =====
-- native/transfer_core/src/protocol.rs: envelopes as length-prefixed frames. The encoding of
-- messages (prost, and the code that the build generates) is the parameter `Codec`; the theorems say
-- which of its documented properties they use.
pub mod Messages
pub mod Framing
use transfer_assistant.Prelude.{
  ℕ, ◌*◌, ◌%◌, List, [], ◌∷◌, Result, ok, err, ◌>>=◌, ◌>>◌, map_err, ltb, ◌==◌, if◌then◌else◌,
  length,
}
use transfer_assistant.Io.{
  Reader, Writer, IoError, read_exact, write_all, to_be_bytes, from_be_bytes,
}
use Messages.{Envelope, protocol_major, protocol_minor}

abbrev pub max_control_frame_bytes : ℕ
max_control_frame_bytes = 1024 * 1024

-- An encoder and decoder of the messages `M`; what prost says of undecodable bytes is not looked at.
pub record Codec (M : Type 0) : Type 0 where
  pub encode_to_vec : M → List ℕ
  pub decode : List ℕ → Result (Unit {0}) M

pub data ProtocolError : Type 0 where
  io : IoError → ProtocolError
  decode_error : ProtocolError
  frame_too_large : ℕ → ℕ → ProtocolError
  incompatible_version : ℕ → ℕ → ProtocolError

module _ (codec : Codec Envelope) where
  unfoldable pub write_envelope : Writer → Envelope → Result ProtocolError Writer
  write_envelope w envelope =
      let encoded = codec.encode_to_vec envelope in
      if ltb max_control_frame_bytes (length encoded)
      then err (frame_too_large (length encoded) max_control_frame_bytes)
      else (do
        w1 ← map_err io (write_all w (to_be_bytes (length encoded)))
        map_err io (write_all w1 encoded))

  -- What follows the length.
  read_body : ℕ → Reader → Result ProtocolError (Envelope × Reader)
  read_body size r =
      if ltb max_control_frame_bytes size
      then err (frame_too_large size max_control_frame_bytes)
      else (do
        (encoded, rest) ← map_err io (read_exact r size)
        envelope ← map_err (λ _. decode_error) (codec.decode encoded)
        (if Envelope.protocol_major envelope == protocol_major
            then ok (envelope, rest)
            else err (incompatible_version protocol_major (Envelope.protocol_major envelope))))

  unfoldable pub read_envelope : Reader → Result ProtocolError (Envelope × Reader)
  unfolding read_body
  read_envelope r = do
    (length_bytes, rest) ← map_err io (read_exact r 4)
    read_body (from_be_bytes length_bytes) rest
