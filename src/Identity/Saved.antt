-- ===== src/Identity/Saved.antt =====
-- A device keeps its identity: what encode_persisted of identity.rs writes, decode_persisted reads.
use transfer_assistant.Prelude.{
  ℕ, ◌+◌, ◌^◌, ◌<◌, ◌≡◌, refl, sym, ap, ◌∙◌, true, false, List, ◌++◌, Option, none, some, Result,
  ok, err, ◌>>=◌, >>=-eq-ok, map_err, map_err-eq-ok, ok_or, arith, length, take, drop,
  length-append, take-append, drop-append, take_all, drop-drop, ltb, ◌==◌,
}
use transfer_assistant.Io.{IoError, not_found, to_be_bytes}
use transfer_assistant.Io.Laws.{from_be_bytes-to_be_bytes, length-to_be_bytes}
use transfer_assistant.Identity.{
  DeviceIdentity, Platform, Cryptography, windows, android, other_system, encryption,
  certificate_error, identity_io, from_der, generate, protect_private_key, unprotect_private_key,
  cipher_key, encode_persisted, decode_persisted, load_or_generate, length_u32,
}

-- Unprotecting undoes protecting, and a nonce has twelve bytes.
pub record IsSound (crypto : Cryptography) : Type 0 where
  pub windows_restores :
      (plain cipher : List ℕ)
      → Cryptography.crypt_protect crypto true plain ≡ ok cipher
      → Cryptography.crypt_protect crypto false cipher ≡ ok plain
  pub aes_restores :
      (key plain cipher : List ℕ)
      → Cryptography.encrypt crypto key crypto.nonce plain ≡ some cipher
      → Cryptography.decrypt crypto key crypto.nonce cipher ≡ some plain
  pub nonce_size : length (Cryptography.nonce crypto) ≡ 12

pub ok_or-eq-ok : {A E : Type 0} (o : Option A) (e : E) (a : A) → ok_or o e ≡ ok a → o ≡ some a
ok_or-eq-ok none e a h = cc
ok_or-eq-ok (some x) e a h = cc

length_u32-eq-ok :
    (bytes : List ℕ) (n : ℕ) → length_u32 bytes ≡ ok n → (n ≡ length bytes) × (n < 2 ^ 32)
length_u32-eq-ok bytes n h = ground arith

-- The file as four parts: the lengths of the last two in front of them.
abbrev pub persisted : List ℕ → List ℕ → List ℕ
persisted certificate cipher =
    to_be_bytes (length certificate) ++ (to_be_bytes (length cipher) ++ (certificate ++ cipher))

take_front : (a b : List ℕ) (n : ℕ) → length a ≡ n → (take n (a ++ b) ≡ a) × (drop n (a ++ b) ≡ b)
take_front a b n e = (
  ap (λ k. take k (a ++ b)) (sym e) ∙ take-append a b,
  ap (λ k. drop k (a ++ b)) (sym e) ∙ drop-append a b,
)

decode-persisted :
    (p : Platform) (crypto : Cryptography) (certificate cipher : List ℕ) (key : Option (List ℕ))
    → length certificate < 2 ^ 32
    → length cipher < 2 ^ 32
    → decode_persisted p crypto (persisted certificate cipher) key
      ≡ (unprotect_private_key p crypto cipher key >>= λ k. from_der p crypto certificate k)
unfolding decode_persisted
decode-persisted p crypto certificate cipher key small short =
    let n = to_be_bytes (length certificate) in
    let k = to_be_bytes (length cipher) in
    let body = certificate ++ cipher in
    let first = take_front n (k ++ body) 4 (length-to_be_bytes (length certificate)) in
    let second = take_front k body 4 (length-to_be_bytes (length cipher)) in
    let behind : drop 8 (n ++ (k ++ body)) ≡ body =
      sym (drop-drop 4 4 (n ++ (k ++ body))) ∙ ap (drop 4) first.1 ∙ second.1 in
    let third = take_front certificate cipher (length certificate) refl in
    let total : length (n ++ (k ++ body)) ≡ 8 + length certificate + length cipher = omega (
      arith,
      length-append n (k ++ body),
      length-append k body,
      length-append certificate cipher,
      length-to_be_bytes (length certificate),
      length-to_be_bytes (length cipher),
    ) in
    let long : ltb (length (n ++ (k ++ body))) 8 ≡ false = ground (arith, total) in
    let cert_n = from_be_bytes-to_be_bytes (length certificate) small in
    let key_n = from_be_bytes-to_be_bytes (length cipher) short in
    let key_part : drop (8 + length certificate) (n ++ (k ++ body)) ≡ cipher =
      sym (drop-drop 8 (length certificate) (n ++ (k ++ body)))
      ∙ ap (drop (length certificate)) behind
      ∙ third.1 in
    let fits : ltb (8 + length certificate) (2 ^ 64) ≡ true = ground arith in
    let both : ltb (8 + length certificate + length cipher) (2 ^ 64) ≡ true = ground arith in
    let same : (8 + length certificate + length cipher == length (n ++ (k ++ body))) ≡ true =
      ground (arith, total) in
    let all : take (length cipher) cipher ≡ cipher =
      take_all (length cipher) cipher (omega arith) in
    rw (long, first.0, first.1, second.0, cert_n, key_n, fits, both, same)
      (rw (key_part, all, behind, third.0) refl)

module _ (crypto : Cryptography) (sound : IsSound crypto) where
  open crypto use {nonce, encrypt, decrypt, crypt_protect}

  restore_windows :
      (plain cipher : List ℕ) (key : Option (List ℕ))
      → length cipher < 2 ^ 32
      → protect_private_key windows crypto plain key ≡ ok cipher
      → unprotect_private_key windows crypto cipher key ≡ ok plain
  unfolding protect_private_key unprotect_private_key
  restore_windows plain cipher key small h =
      let made : crypt_protect true plain ≡ ok cipher =
        map_err-eq-ok identity_io (crypt_protect true plain) (ground arith) in
      let short : ltb (length cipher) (2 ^ 32) ≡ true = ground arith in
      rw (short, sound.windows_restores plain cipher made) refl

  restore_android :
      (plain cipher : List ℕ) (key : Option (List ℕ))
      → protect_private_key android crypto plain key ≡ ok cipher
      → unprotect_private_key android crypto cipher key ≡ ok plain
  unfolding protect_private_key unprotect_private_key
  restore_android plain cipher key h =
      let (k, keyed, later) = >>=-eq-ok (cipher_key android crypto key) _ h in
      let (inner, made, last) = >>=-eq-ok (ok_or (encrypt k nonce plain) encryption) _ later in
      let is : cipher ≡ nonce ++ inner = ground arith in
      let long : ltb (length (nonce ++ inner)) 12 ≡ false =
        ground (arith, length-append nonce inner, sound.nonce_size) in
      let front : take 12 (nonce ++ inner) ≡ nonce =
        ap (λ n. take n (nonce ++ inner)) (sym sound.nonce_size) ∙ take-append nonce inner in
      let back : drop 12 (nonce ++ inner) ≡ inner =
        ap (λ n. drop n (nonce ++ inner)) (sym sound.nonce_size) ∙ drop-append nonce inner in
      let restored = sound.aes_restores k plain inner (ok_or-eq-ok _ encryption inner made) in
      rw is (rw (long, keyed, front, back, restored) refl)

  unprotect-protect :
      (p : Platform) (plain cipher : List ℕ) (key : Option (List ℕ))
      → length cipher < 2 ^ 32
      → protect_private_key p crypto plain key ≡ ok cipher
      → unprotect_private_key p crypto cipher key ≡ ok plain
  unprotect-protect windows plain cipher key small h = restore_windows plain cipher key small h
  unprotect-protect android plain cipher key small h = restore_android plain cipher key h
  unprotect-protect other_system plain cipher key small h =
      unfold protect_private_key unprotect_private_key in sym h

  decode-encode :
      (p : Platform) (identity : DeviceIdentity) (key : Option (List ℕ)) (encoded : List ℕ)
      → from_der p crypto identity.certificate_der identity.private_key_der ≡ ok identity
      → encode_persisted p crypto identity key ≡ ok encoded
      → decode_persisted p crypto encoded key ≡ ok identity
  unfolding encode_persisted decode_persisted
  decode-encode p identity key encoded made h =
      let certificate = identity.certificate_der in
      let (cipher, protected, later) =
        >>=-eq-ok (protect_private_key p crypto identity.private_key_der key) _ h in
      let (n, n_is, later2) = >>=-eq-ok (length_u32 certificate) _ later in
      let (k, k_is, last) = >>=-eq-ok (length_u32 cipher) _ later2 in
      let (n_len, n_small) = length_u32-eq-ok certificate n n_is in
      let (k_len, k_small) = length_u32-eq-ok cipher k k_is in
      let is : encoded ≡ to_be_bytes n ++ (to_be_bytes k ++ (certificate ++ cipher)) =
        ground arith in
      let framed : encoded ≡ persisted certificate cipher = is ∙ rw (n_len, k_len) refl in
      rw
        (
          framed,
          decode-persisted p crypto certificate cipher key (rw (← n_len) n_small)
              (rw (← k_len) k_small),
        )
        (rw
          (unprotect-protect p identity.private_key_der cipher key (rw (← k_len) k_small) protected)
          made)

  generated_again :
      (p : Platform) (identity : DeviceIdentity)
      → generate p crypto ≡ ok identity
      → from_der p crypto identity.certificate_der identity.private_key_der ≡ ok identity
  unfolding generate
  generated_again p identity h =
      let (made, signed, later) = >>=-eq-ok (ok_or crypto.self_signed certificate_error) _ h in
      let parts : (identity.certificate_der ≡ made.0) × (identity.private_key_der ≡ made.1) =
        unfold from_der in (ground arith, ground arith) in
      ap (λ x. from_der p crypto x identity.private_key_der) parts.0
      ∙ ap (λ x. from_der p crypto made.0 x) parts.1
      ∙ later

  -- The identity that the first start generates and saves is the one that every later start with
  -- the same wrapping key reads from the file, on every platform.
  pub load_or_generate_again :
      (p : Platform) (key : Option (List ℕ)) (made_now made_later : Result IoError (Unit {0}))
      (replace later : List ℕ → Result IoError (Unit {0})) (identity : DeviceIdentity)
      (file : List ℕ)
      → load_or_generate p crypto (err not_found) made_now replace key ≡ ok (identity, file)
      → load_or_generate p crypto (ok file) made_later later key ≡ ok (identity, file)
  unfolding load_or_generate
  load_or_generate_again p key made_now made_later replace later identity file h =
      let (made, generated, next) = >>=-eq-ok (generate p crypto) _ h in
      let (parent, parent_made, after) = >>=-eq-ok (map_err identity_io made_now) _ next in
      let (encoded, saved, last) = >>=-eq-ok (encode_persisted p crypto made key) _ after in
      let (done, written, end_) = >>=-eq-ok (map_err identity_io (replace encoded)) _ last in
      let same : made ≡ identity = ground arith in
      let bytes : encoded ≡ file = ground arith in
      let back = decode-encode p made key encoded (generated_again p made generated) saved in
      rw (← same, ← bytes) (rw back refl)
