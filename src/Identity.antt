-- ===== src/Identity.antt =====
-- native/transfer_core/src/identity.rs: the identity of a device and the file that keeps it. What the
-- libraries do is in Cryptography: SHA-256, the self-signed certificate with its key, Windows' data
-- protection and AES-GCM with its random nonce. A `usize` has 64 bits. The configurations of TLS and
-- the verifiers of certificates, which accept any, are calls of rustls.
pub mod Saved
use transfer_assistant.Prelude.{
  ℕ, ◌+◌, ◌^◌, Bool, true, false, ◌||◌, List, ◌++◌, Option, none, some, Result, ok, err, ◌>>=◌,
  map_err, ok_or, Text, ltb, ◌==◌, if◌then◌else◌, is_empty, length, take, drop, not,
}
use transfer_assistant.Io.{IoError, not_found, to_be_bytes, from_be_bytes}
use transfer_assistant.Wire.{hex}

pub data IdentityError : Type 0 where
  empty_material certificate_error invalid_persisted_identity encryption : IdentityError
  identity_io : IoError → IdentityError

pub record DeviceIdentity : Type 0 where
  pub certificate_der : List ℕ
  pub private_key_der : List ℕ
  pub fingerprint : List ℕ
  pub device_id : Text

-- The configurations that the file is compiled for.
pub data Platform : Type 0 where
  windows android other_system : Platform

pub record Cryptography : Type 0 where
  pub sha256 : List ℕ → List ℕ
  -- The certificate and the key.
  pub self_signed : Option (List ℕ × List ℕ)
  -- `CryptProtectData`, and `CryptUnprotectData`.
  pub crypt_protect : Bool → List ℕ → Result IoError (List ℕ)
  -- A key of the right length.
  pub accepts_key : List ℕ → Bool
  pub nonce : List ℕ
  pub encrypt : List ℕ → List ℕ → List ℕ → Option (List ℕ)
  pub decrypt : List ℕ → List ℕ → List ℕ → Option (List ℕ)

-- `u32::try_from` of a length.
abbrev pub length_u32 : List ℕ → Result IdentityError ℕ
length_u32 bytes =
    if ltb (length bytes) (2 ^ 32) then ok (length bytes) else err invalid_persisted_identity

-- `usize::checked_add`.
abbrev pub checked_add : ℕ → ℕ → Result IdentityError ℕ
checked_add a b = if ltb (a + b) (2 ^ 64) then ok (a + b) else err invalid_persisted_identity

module _ (platform : Platform) (crypto : Cryptography) where
  open crypto use {sha256, self_signed, crypt_protect, accepts_key, nonce, encrypt, decrypt}

  unfoldable pub from_der : List ℕ → List ℕ → Result IdentityError DeviceIdentity
  from_der certificate_der private_key_der =
      if is_empty certificate_der || is_empty private_key_der
      then err empty_material
      else ok (record {
        certificate_der = certificate_der;
        private_key_der = private_key_der;
        fingerprint = sha256 certificate_der;
        device_id = hex (sha256 certificate_der);
      })

  unfoldable pub generate : Result IdentityError DeviceIdentity
  generate = do (certificate, key) ← ok_or self_signed certificate_error; from_der certificate key

  -- The key of the call, if AES takes it.
  cipher_key : Option (List ℕ) → Result IdentityError (List ℕ)
  cipher_key none = err encryption
  cipher_key (some key) = if accepts_key key then ok key else err encryption

  protect_on : Platform → List ℕ → Option (List ℕ) → Result IdentityError (List ℕ)
  protect_on windows private_key wrapping_key =
      if ltb (length private_key) (2 ^ 32)
      then map_err identity_io (crypt_protect true private_key)
      else err invalid_persisted_identity
  protect_on android private_key wrapping_key = do
    key ← cipher_key wrapping_key
    ciphertext ← ok_or (encrypt key nonce private_key) encryption
    ok (nonce ++ ciphertext)
  protect_on other_system private_key wrapping_key = ok private_key

  unfoldable pub protect_private_key : List ℕ → Option (List ℕ) → Result IdentityError (List ℕ)
  unfolding protect_on cipher_key
  protect_private_key private_key wrapping_key = protect_on platform private_key wrapping_key

  unprotect_on : Platform → List ℕ → Option (List ℕ) → Result IdentityError (List ℕ)
  unprotect_on windows protected_key wrapping_key =
      if ltb (length protected_key) (2 ^ 32)
      then map_err identity_io (crypt_protect false protected_key)
      else err invalid_persisted_identity
  unprotect_on android protected_key wrapping_key =
      if ltb (length protected_key) 12 then err invalid_persisted_identity else (do
        key ← cipher_key wrapping_key
        ok_or (decrypt key (take 12 protected_key) (drop 12 protected_key)) encryption)
  unprotect_on other_system protected_key wrapping_key = ok protected_key

  unfoldable pub unprotect_private_key : List ℕ → Option (List ℕ) → Result IdentityError (List ℕ)
  unfolding unprotect_on cipher_key
  unprotect_private_key protected_key wrapping_key =
      unprotect_on platform protected_key wrapping_key

  unfoldable pub encode_persisted : DeviceIdentity → Option (List ℕ) → Result IdentityError (List ℕ)
  encode_persisted identity wrapping_key = do
    protected_key ← protect_private_key identity.private_key_der wrapping_key
    certificate_length ← length_u32 identity.certificate_der
    key_length ← length_u32 protected_key
    ok (
        to_be_bytes certificate_length
        ++ (to_be_bytes key_length ++ (identity.certificate_der ++ protected_key)))

  unfoldable pub decode_persisted : List ℕ → Option (List ℕ) → Result IdentityError DeviceIdentity
  decode_persisted encoded wrapping_key =
      if ltb (length encoded) 8 then err invalid_persisted_identity else (do
        let certificate_length = from_be_bytes (take 4 encoded)
        let key_length = from_be_bytes (take 4 (drop 4 encoded))
        certificate_end ← checked_add 8 certificate_length
        key_end ← checked_add certificate_end key_length
        (if not (key_end == length encoded) then err invalid_persisted_identity else (do
          private_key ←
              unprotect_private_key (take key_length (drop certificate_end encoded)) wrapping_key
          from_der (take certificate_length (drop 8 encoded)) private_key)))

  -- What reading the file, making its directory and writing it anew give: the identity and the file
  -- after.
  unfoldable pub load_or_generate :
      Result IoError (List ℕ)
      → Result IoError (Unit {0})
      → (List ℕ → Result IoError (Unit {0}))
      → Option (List ℕ)
      → Result IdentityError (DeviceIdentity × List ℕ)
  load_or_generate (ok encoded) directory_made replace wrapping_key = do
    identity ← decode_persisted encoded wrapping_key
    ok (identity, encoded)
  load_or_generate (err not_found) directory_made replace wrapping_key = do
    identity ← generate
    parent ← map_err identity_io directory_made
    encoded ← encode_persisted identity wrapping_key
    done ← map_err identity_io (replace encoded)
    ok (identity, encoded)
  load_or_generate (err e) directory_made replace wrapping_key = err (identity_io e)
