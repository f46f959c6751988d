-- ===== src/Examples/Identities.antt =====
-- A device whose key is kept by AES.
use transfer_assistant.Prelude.{
  ◌≡◌, refl, ok, err, List, [], ◌∷◌, ◌++◌, ℕ, some, true, replicate, arith,
}
use transfer_assistant.Io.{timed_out, to_be_bytes}
use transfer_assistant.Wire.{hex}
use transfer_assistant.Identity.{
  DeviceIdentity, Cryptography, android, from_der, generate, protect_private_key, encode_persisted,
  load_or_generate,
}
use transfer_assistant.Identity.Saved.{IsSound, load_or_generate_again}

-- A cipher that keeps its text behind a mark.
abbrev toy : Cryptography
toy = record {
  sha256 = λ bytes. 171 ∷ 16 ∷ [];
  self_signed = some (48 ∷ 3 ∷ [], 7 ∷ 8 ∷ 9 ∷ []);
  crypt_protect = λ protect bytes. ok bytes;
  accepts_key = λ key. true;
  nonce = replicate 12 5;
  encrypt = λ key nonce bytes. some bytes;
  decrypt = λ key nonce bytes. some bytes;
}

abbrev device : DeviceIdentity
device = record {
  certificate_der = 48 ∷ 3 ∷ [];
  private_key_der = 7 ∷ 8 ∷ 9 ∷ [];
  fingerprint = 171 ∷ 16 ∷ [];
  device_id = hex (171 ∷ 16 ∷ []);
}

abbrev saved_file : List ℕ
saved_file = 0 ∷ 0 ∷ 0 ∷ 2 ∷ 0 ∷ 0 ∷ 0 ∷ 15 ∷ 48 ∷ 3 ∷ (replicate 12 5 ++ 7 ∷ 8 ∷ 9 ∷ [])

toy-IsSound : IsSound toy
toy-IsSound = record {
  windows_restores = λ plain cipher h. ground arith;
  aes_restores = λ key plain cipher h. ground arith;
  nonce_size = refl;
}

load_or_generate_again_example :
    load_or_generate android toy
      (ok saved_file)
      (err timed_out)
      (λ bytes. err timed_out)
      (some (1 ∷ []))
    ≡ ok (device, saved_file)
unfolding load_or_generate generate from_der encode_persisted protect_private_key to_be_bytes
load_or_generate_again_example =
    load_or_generate_again toy toy-IsSound android (some (1 ∷ [])) (ok tt) (err timed_out)
      (λ bytes. ok tt) (λ bytes. err timed_out) device saved_file refl
