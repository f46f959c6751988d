-- ===== src/Io.antt =====
-- The byte streams that protocol.rs and transfer.rs read and write (tokio's `AsyncRead` and
-- `AsyncWrite`), and big-endian u32 (`to_be_bytes`, `from_be_bytes`). What a reader still yields is
-- a list of bytes and the error behind them; a writer takes a number of bytes and then breaks.
pub mod Laws
use transfer_assistant.Prelude.{
  ℕ, ◌+◌, ◌-◌, ◌*◌, ◌/◌, ◌%◌, ◌^◌, List, [], ◌∷◌, ◌++◌, Result, ok, err, ltb, leb, if◌then◌else◌,
  length, take, drop,
}

pub data IoError : Type 0 where
  unexpected_eof connection_reset timed_out not_found other_error : IoError

pub record Reader : Type 0 where
  pub bytes : List ℕ
  pub broken_by : IoError

unfoldable pub read_exact : Reader → ℕ → Result IoError (List ℕ × Reader)
read_exact r n =
    if leb n (length r.bytes)
    then ok (take n r.bytes, record r { bytes = drop n r.bytes })
    else err r.broken_by

pub record Writer : Type 0 where
  pub written : List ℕ
  pub room : ℕ
  pub broken_by : IoError

unfoldable pub write_all : Writer → List ℕ → Result IoError Writer
write_all w bytes =
    if leb (length bytes) w.room
    then ok (record w { written = w.written ++ bytes; room = w.room - length bytes })
    else err w.broken_by

unfoldable pub to_be_bytes : ℕ → List ℕ
to_be_bytes n = n / 2 ^ 24 % 256 ∷ n / 2 ^ 16 % 256 ∷ n / 2 ^ 8 % 256 ∷ n % 256 ∷ []

-- Of a slice of four bytes.
unfoldable pub from_be_bytes : List ℕ → ℕ
from_be_bytes (a ∷ b ∷ c ∷ d ∷ []) = a * 2 ^ 24 + b * 2 ^ 16 + c * 2 ^ 8 + d
from_be_bytes _ = 0
