-- ===== src/Wire/Checks.antt =====
-- Errors, greetings and the pairing code of the session.
use transfer_assistant.Prelude.{
  ℕ, ◌≡◌, ◌↔◌, refl, ap, ◌∙◌, false, List, ◌∷◌, ◌++◌, ok, Text, if◌then◌else◌, is_empty, trim,
  arith, Bool-cases, inl, inr, list_beq_iff, nat_eq, leb_text, leb_text_total, leb_text_antisymm,
  as_bytes,
}
use transfer_assistant.Protocol.Messages.{Hello}
use transfer_assistant.Wire.{validate_hello, hex, pairing_code, code_of, derive_pairing_code}

-- A greeting is accepted exactly if it repeats the fingerprint of the TLS certificate, its device id
-- is that fingerprint in hexadecimal, and its name is not blank.
pub validate_hello_ok :
    (hello : Hello) (fingerprint : List ℕ)
    → (validate_hello hello fingerprint ≡ ok tt) ↔ (
        (hello.certificate_fingerprint ≡ fingerprint)
        × (hello.device_id ≡ hex fingerprint)
        × (is_empty (trim hello.display_name) ≡ false))
unfolding validate_hello
validate_hello_ok hello fingerprint = ground (
  arith,
  list_beq_iff nat_eq hello.certificate_fingerprint fingerprint,
  list_beq_iff nat_eq hello.device_id (hex fingerprint),
)

-- Putting two texts in order gives the same for both orders.
in_order :
    (a b : Text) (f : Text → Text → Text)
    → (if leb_text a b then f a b else f b a) ≡ (if leb_text b a then f b a else f a b)
in_order a b f = elim (Bool-cases (leb_text a b)) [
  | inl low ↦ elim (Bool-cases (leb_text b a)) [
    | inl high ↦ let same = leb_text_antisymm a b low high in rw same refl
    | inr high ↦ rw (low, high) refl
  ]
  | inr high ↦ rw (high, leb_text_total a b high) refl
]

-- Both sides of a pairing show the same code, whatever SHA-256 is.
pub pairing_code_symm :
    (sha256 : List ℕ → List ℕ) (fingerprint : List ℕ) (id : Text) (other_fingerprint : List ℕ)
    (other_id : Text)
    → pairing_code sha256 fingerprint id other_fingerprint other_id
      ≡ pairing_code sha256 other_fingerprint other_id fingerprint id
unfolding pairing_code derive_pairing_code
pairing_code_symm sha256 f i g j =
    let ids = λ (a b : Text). a ++ (b'|' ∷ b) in
    ap (λ p. code_of sha256 p (as_bytes (if leb_text i j then ids i j else ids j i)))
      (in_order f g (λ a b. a ++ b))
    ∙ ap (λ t. code_of sha256 (if leb_text g f then g ++ f else f ++ g) (as_bytes t))
        (in_order i j ids)
