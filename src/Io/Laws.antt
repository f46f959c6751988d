-- ===== src/Io/Laws.antt =====
-- Reading back what was written.
use mathlib.Core.List.{append_assoc}
use transfer_assistant.Prelude.{
  ℕ, ◌+◌, ◌-◌, ◌≤◌, ◌<◌, ◌^◌, ◌≡◌, refl, sym, ap, ◌∙◌, ◌>>=◌, map_err, >>=-eq-ok, map_err-eq-ok,
  List, ◌++◌, ok, arith, length, take, drop, length-append, take-append, drop-append,
  take-append-drop, length-take,
}
use transfer_assistant.Io.{
  Reader, Writer, IoError, read_exact, write_all, to_be_bytes, from_be_bytes,
}

pub from_be_bytes-to_be_bytes : (n : ℕ) → n < 2 ^ 32 → from_be_bytes (to_be_bytes n) ≡ n
unfolding from_be_bytes to_be_bytes
from_be_bytes-to_be_bytes n h = omega arith

pub length-to_be_bytes : (n : ℕ) → length (to_be_bytes n) ≡ 4
unfolding to_be_bytes
length-to_be_bytes n = refl

-- A reader in front of the bytes `front` yields exactly those.
pub read_exact-append :
    (front rest : List ℕ) (e : IoError)
    → read_exact (record { bytes = front ++ rest; broken_by = e }) (length front)
      ≡ ok (front, record { bytes = rest; broken_by = e })
unfolding read_exact
read_exact-append front rest e =
    ground (arith, length-append front rest, take-append front rest, drop-append front rest)

-- What a successful write leaves.
pub write_all-eq-ok :
    (w : Writer) (bytes : List ℕ) (w' : Writer)
    → write_all w bytes ≡ ok w'
    → (w'.written ≡ w.written ++ bytes) × (w'.room + length bytes ≡ w.room)
unfolding write_all
write_all-eq-ok w bytes w' h = (ground arith, ground arith)

pub write_all-room :
    (w : Writer) (bytes : List ℕ)
    → length bytes ≤ w.room
    → (w' : Writer) × (write_all w bytes ≡ ok w')
      × (w'.written ≡ w.written ++ bytes)
      × (w'.room ≡ w.room - length bytes)
unfolding write_all
write_all-room w bytes h = (
  record w { written = w.written ++ bytes; room = w.room - length bytes },
  ground arith,
  refl,
  refl,
)

-- Two writes in a row, with the stream's error turned into another by `f`.
pub two_writes :
    {E : Type 0} (f : IoError → E) (w w' : Writer) (a b : List ℕ)
    → (map_err f (write_all w a) >>= λ w1. map_err f (write_all w1 b)) ≡ ok w'
    → (w'.written ≡ w.written ++ (a ++ b)) × (w'.room + length a + length b ≡ w.room)
two_writes f w w' a b h =
    let (w1, first, second) = >>=-eq-ok (map_err f (write_all w a)) _ h in
    let one = write_all-eq-ok w a w1 (map_err-eq-ok f (write_all w a) first) in
    let two = write_all-eq-ok w1 b w' (map_err-eq-ok f (write_all w1 b) second) in
    (two.0 ∙ ap (λ x. x ++ b) one.0 ∙ append_assoc w.written a b, omega (arith, one.1, two.1))

-- What a successful read takes from the front of the stream.
pub read_exact-eq-ok :
    (r : Reader) (n : ℕ) (bytes : List ℕ) (r' : Reader)
    → read_exact r n ≡ ok (bytes, r')
    → (r.bytes ≡ bytes ++ r'.bytes) × (length bytes ≡ n) × (r'.broken_by ≡ r.broken_by)
unfolding read_exact
read_exact-eq-ok r n bytes r' h =
    let enough : n ≤ length r.bytes = ground arith in
    let front : bytes ≡ take n r.bytes = ground arith in
    let back : r'.bytes ≡ drop n r.bytes = ground arith in
    (
      rw (front, back) (sym (take-append-drop n r.bytes)),
      omega (arith, ap length front, length-take n r.bytes),
      ground arith,
    )
