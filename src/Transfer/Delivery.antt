-- ===== src/Transfer/Delivery.antt =====
-- A sequence of chunks through both ends of transfer.rs.
use mathlib.Core.List.{append_assoc, append-nil}
use transfer_assistant.Prelude.{
  ℕ, suc, ◌+◌, ◌-◌, ◌*◌, ◌≤◌, ◌<◌, ◌^◌, ◌≡◌, ◌⊎◌, sym, ap, ◌∙◌, List, [], ◌∷◌, ◌++◌, Text, ok, leb,
  ◌==◌, if◌then◌else◌, length, arith, true, false, Bool-cases, inl, inr, get_or, All, any,
}
use transfer_assistant.Io.{Writer, IoError}
use transfer_assistant.Chunk.{ChunkSpec}
use transfer_assistant.Protocol.{Codec}
use transfer_assistant.Protocol.Messages.{ChunkHeader}
use transfer_assistant.Storage.{File, Kernel}
use transfer_assistant.Storage.Loops.{MakesProgress}
use transfer_assistant.Storage.Chunks.{Copied}
use transfer_assistant.Transfer.{send_loop, receive_loop}
use transfer_assistant.Transfer.Pipeline.{
  covers, IsSendable, chunk_room, Encodes, chunk_frame, chunk_of, send_first, receive_first,
}

-- `g` is `f` with the positions of the chunks as in `s`.
abbrev pub Delivered : List ℕ → List ChunkSpec → List ℕ → List ℕ → Type 0
Delivered s specs f g =
    (length g ≡ length f)
    × ((i : ℕ) → get_or g i 0 ≡ (if any (covers i) specs then get_or s i 0 else get_or f i 0))

Delivered-more :
    (s f g h : List ℕ) (spec : ChunkSpec) (rest : List ChunkSpec)
    → (length g ≡ length f)
      × ((i : ℕ) → get_or g i 0 ≡ (if covers i spec then get_or s i 0 else get_or f i 0))
    → Delivered s rest g h
    → Delivered s (spec ∷ rest) f h
Delivered-more s f g h spec rest one two =
    (omega (arith, one.0, two.0), λ i. ground (arith, one.1 i, two.1 i))

module _ (kernel : Kernel) (blake3 : List ℕ → List ℕ) where
  Copied-one :
      (s f g : List ℕ) (spec : ChunkSpec)
      → IsSendable (length f) spec
      → Copied kernel blake3 s f g spec.offset spec.length
      → (length g ≡ length f)
        × ((i : ℕ) → get_or g i 0 ≡ (if covers i spec then get_or s i 0 else get_or f i 0))
  Copied-one s f g spec sendable copied = (
    omega (arith, copied.0, sendable.2),
    λ i. elim (Bool-cases (covers i spec)) [
      | inl inside ↦ rw inside (copied.2 i (ground arith) (ground arith))
      | inr outside ↦ rw outside (copied.1 i (out i outside))
    ],
  )
    where
      out : (i : ℕ) → covers i spec ≡ false → (i < spec.offset) ⊎ (spec.offset + spec.length ≤ i)
      out i h = elim (Bool-cases (leb spec.offset i)) [
        | inl low ↦ inr (ground arith)
        | inr high ↦ inl (ground arith)
      ]

module _ (codec : Codec ChunkHeader) (transfer_id item_id : Text)
    (encodes : Encodes codec transfer_id item_id) (kernel : Kernel) (blake3 : List ℕ → List ℕ)
    (progress : MakesProgress kernel) (hash_bytes : (bytes : List ℕ) → length (blake3 bytes) ≡ 32)
    (source : File) (small : length source.contents < 2 ^ 64 - 1) where
  -- The stream of the chunks.
  abbrev pub frames : List ChunkSpec → List ℕ
  frames [] = []
  frames (spec ∷ rest) =
      chunk_frame codec transfer_id item_id (
        chunk_of codec transfer_id item_id encodes kernel blake3 progress hash_bytes source small
          spec)
      ++ frames rest

  pub send_loop_lem :
      (specs : List ChunkSpec) (w : Writer) (sent : ℕ)
      → All (IsSendable (length source.contents)) specs
      → length specs * chunk_room ≤ w.room
      → (w' : Writer) × (send_loop codec transfer_id item_id kernel blake3 source specs w sent
          ≡ ok (w', sent + length specs))
        × (w'.written ≡ w.written ++ frames specs)
  unfolding send_loop
  send_loop_lem [] w sent sendable room =
      let same : sent + 0 ≡ sent = omega arith in
      (w, ap (λ n. ok (w, n)) (sym same), sym (append-nil w.written))
  send_loop_lem (spec ∷ rest) w sent sendable room =
      let (w2, first, out2, room2) =
        send_first codec transfer_id item_id encodes kernel blake3 progress hash_bytes source small
          spec rest w sent sendable.0 (omega (arith, room)) in
      let (w', others, out) =
        send_loop_lem rest w2 (sent + 1) sendable.1 (omega (arith, room, room2)) in
      let count : sent + 1 + length rest ≡ sent + suc (length rest) = omega arith in
      (
        w',
        first ∙ others ∙ ap (λ n. ok (w', n)) count,
        out
            ∙ ap (λ x. x ++ frames rest) out2
            ∙ append_assoc w.written
                (chunk_frame codec transfer_id item_id (
                  chunk_of codec transfer_id item_id encodes kernel blake3 progress hash_bytes
                    source small spec))
                (frames rest),
      )

  pub receive_loop_lem :
      (spec : ChunkSpec) (rest : List ChunkSpec) (behind : List ℕ) (e : IoError) (target : File)
      (received expected : ℕ)
      → All (IsSendable (length source.contents)) (spec ∷ rest)
      → length target.contents ≡ length source.contents
      → received + length (spec ∷ rest) ≡ expected
      → (after : File) × (receive_loop codec transfer_id item_id kernel blake3
            (length source.contents)
            expected
            (length (spec ∷ rest))
            received
            (record { bytes = frames (spec ∷ rest) ++ behind; broken_by = e })
            target
          ≡ (after, ok expected))
        × Delivered source.contents (spec ∷ rest) target.contents after.contents
  receive_loop_lem spec [] behind e target received expected sendable same count =
      let (after, done, copied) =
        receive_first codec transfer_id item_id encodes kernel blake3 progress hash_bytes source
          small spec behind e target 0 received expected sendable.0 in
      let last : (received + 1 == expected) ≡ true = ground arith in
      let one =
        Copied-one kernel blake3 source.contents target.contents after.contents spec
          (rw same sendable.0) copied in
      (after, rw (append-nil _) (rw last at done), (one.0, λ i. ground (arith, one.1 i)))
  receive_loop_lem spec (next ∷ rest) behind e target received expected sendable same count =
      let (middle, done, copied) =
        receive_first codec transfer_id item_id encodes kernel blake3 progress hash_bytes source
          small spec (frames (next ∷ rest) ++ behind) e target (length (next ∷ rest)) received
          expected sendable.0 in
      let more : (received + 1 == expected) ≡ false = ground arith in
      let one =
        Copied-one kernel blake3 source.contents target.contents middle.contents spec
          (rw same sendable.0) copied in
      let (after, finished, delivered) =
        receive_loop_lem next rest behind e middle (received + 1) expected sendable.1 (one.0 ∙ same)
          (omega (arith, count)) in
      (
        after,
        rw (append_assoc _ (frames (next ∷ rest)) behind) ((rw more at done) ∙ finished),
        Delivered-more source.contents target.contents middle.contents after.contents spec
            (next ∷ rest) one delivered,
      )
