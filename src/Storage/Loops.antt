-- ===== src/Storage/Loops.antt =====
-- The loops of storage.rs: with a system that makes progress they move the whole buffer on fuel of
-- its length, and with any system they write nothing outside of it.
use mathlib.Core.List.{append_assoc, append-nil}
use transfer_assistant.Prelude.{
  ℕ, zero, suc, ◌+◌, ◌-◌, ◌≤◌, ◌≡◌, refl, sym, ap, ◌∙◌, List, [], ◌∷◌, ◌++◌, ok, ◌==◌,
  if◌then◌else◌, length, take, drop, min, arith, length-take, length-drop, dec_lt, Bool-cases, inl,
  inr, >>=-eq-ok, Result-cases, take_all, drop_all, take_split, drop-drop, false,
}
use transfer_assistant.Storage.{
  File, Kernel, overwrite, positioned_read, positioned_write, read_loop, write_loop, write_round,
}
use transfer_assistant.Storage.Moves.{
  overwrite_twice, Confined, Confined-refl, overwrite-Confined, Confined-trans,
}

-- The documented behaviour of a read inside the file and of a write: without an error at least one
-- byte is moved.
abbrev pub MakesProgress : Kernel → Type 0
MakesProgress kernel =
    (offset wanted : ℕ)
    → 1 ≤ wanted
    → ((n : ℕ) × (kernel.read_count offset wanted ≡ ok n) × (1 ≤ n))
      × ((n : ℕ) × (kernel.write_count offset wanted ≡ ok n) × (1 ≤ n))

module _ (kernel : Kernel) where
  positioned_write_outcome :
      (f : List ℕ) (b : List ℕ) (o : ℕ) (moved : ℕ) (g : List ℕ)
      → positioned_write kernel f b o ≡ ok (moved, g)
      → (moved ≤ length b) × (g ≡ (if moved == 0 then f else overwrite f o (take moved b)))
  unfolding positioned_write
  positioned_write_outcome f b o moved g h =
      let (count, counted, rest) = >>=-eq-ok (kernel.write_count o (length b)) _ h in
      let same : moved ≡ min count (length b) = ground arith in (omega (arith, same), ground arith)

  pub write_loop-Confined :
      (fuel : ℕ) (file : File) (b : List ℕ)
      → Confined file.contents (write_loop kernel fuel file b).0.contents file.cursor (length b)
  unfolding write_loop write_round
  write_loop-Confined fuel file [] = Confined-refl file.contents file.cursor 0
  write_loop-Confined zero file (x ∷ xs) = Confined-refl file.contents file.cursor (suc (length xs))
  write_loop-Confined (suc fuel) file (x ∷ xs) =
      let b = x ∷ xs in
      elim (Result-cases (positioned_write kernel file.contents b file.cursor)) [
        | inl (e, failed) ↦ rw failed (Confined-refl file.contents file.cursor (length b))
        | inr ((moved, g), done) ↦
            let (bound, new) = positioned_write_outcome file.contents b file.cursor moved g done in
            rw done (elim (Bool-cases (moved == 0)) [
              | inl none ↦ rw none (Confined-refl file.contents file.cursor (length b))
              | inr more ↦
                  let is : g ≡ overwrite file.contents file.cursor (take moved b) =
                    rw more at new in
                  let one : Confined file.contents g file.cursor (length b) = rw is (
                    overwrite-Confined file.contents file.cursor (length b) (take moved b)
                      (omega (arith, length-take moved b))) in
                  let two =
                    write_loop-Confined fuel (record { contents = g; cursor = file.cursor + moved })
                      (drop moved b) in
                  rw more (
                    Confined-trans file.contents g _ file.cursor (length b) (file.cursor + moved)
                      (length (drop moved b)) one two (omega arith)
                      (omega (arith, bound, length-drop moved b)))
            ])
      ]

  module _ (progress : MakesProgress kernel) where
    positioned_write_moves :
        (f b : List ℕ) (o : ℕ)
        → 1 ≤ length b
        → (moved : ℕ) × (positioned_write kernel f b o ≡ ok (moved, overwrite f o (take moved b)))
          × (1 ≤ moved)
          × (moved ≤ length b)
    unfolding positioned_write
    positioned_write_moves f b o h =
        let (n, counted, some_moved) = (progress o (length b) h).1 in
        let go_on : (min n (length b) == 0) ≡ false = ground arith in
        (min n (length b), rw (counted, go_on) refl, omega arith, omega arith)

    positioned_read_moves :
        (f : List ℕ) (wanted o : ℕ)
        → 1 ≤ wanted
        → o + wanted ≤ length f
        → (bytes : List ℕ) × (positioned_read kernel f wanted o ≡ ok bytes)
          × (bytes ≡ take (length bytes) (drop o f))
          × (1 ≤ length bytes)
          × (length bytes ≤ wanted)
    unfolding positioned_read
    positioned_read_moves f wanted o h k =
        let (n, counted, some_read) = (progress o wanted h).0 in
        let bytes = take (min n wanted) (drop o f) in
        let size : length bytes ≡ min n wanted =
          omega (arith, length-take (min n wanted) (drop o f), length-drop o f) in
        (
          bytes,
          rw counted refl,
          ap (λ m. take m (drop o f)) (sym size),
          omega (arith, size),
          omega (arith, size),
        )

    pub write_loop_moves :
        (fuel : ℕ) (f : List ℕ) (o : ℕ) (b : List ℕ)
        → 1 ≤ length b
        → length b ≤ fuel
        → write_loop kernel fuel (record { contents = f; cursor = o }) b
          ≡ (record { contents = overwrite f o b; cursor = o + length b }, ok tt)
    unfolding write_loop write_round
    write_loop_moves fuel f o [] h k = absurd (omega arith)
    write_loop_moves zero f o (x ∷ xs) h k = absurd (omega arith)
    write_loop_moves (suc fuel) f o (x ∷ xs) h k =
        let b = x ∷ xs in
        let (moved, wrote, some_moved, bound) = positioned_write_moves f b o h in
        let go_on : (moved == 0) ≡ false = ground arith in
        let part = overwrite f o (take moved b) in
        rw (wrote, go_on)
          (elim (dec_lt moved (length b)) [
            | yes more ↦
                let left : o + moved + length (drop moved b) ≡ o + length b =
                  omega (arith, length-drop moved b) in
                write_loop_moves fuel part (o + moved) (drop moved b)
                  (omega (arith, length-drop moved b)) (omega (arith, length-drop moved b))
                ∙ ap
                    (λ c.
                      (record { contents = c; cursor = o + moved + length (drop moved b) }, ok tt))
                    (overwrite_twice f o moved b more)
                ∙ ap (λ c. (record { contents = overwrite f o b; cursor = c }, ok tt)) left
            | no full ↦
                let same : moved ≡ length b = omega arith in
                rw (drop_all moved b (omega arith), take_all moved b (omega arith), same) refl
          ])

    pub read_loop_moves :
        (fuel : ℕ) (f : List ℕ) (n o : ℕ) (done : List ℕ)
        → n ≤ fuel
        → o + n ≤ length f
        → read_loop kernel fuel f n o done ≡ ok (done ++ take n (drop o f))
    unfolding read_loop
    read_loop_moves fuel f zero o done h k = ap ok (sym (append-nil done))
    read_loop_moves zero f (suc n) o done h k = absurd (omega arith)
    read_loop_moves (suc fuel) f (suc n) o done h k =
        let (bytes, got, front, some_read, bound) =
          positioned_read_moves f (suc n) o (omega arith) k in
        let go_on : (length bytes == 0) ≡ false = ground arith in
        let m = length bytes in
        rw (got, go_on)
          (read_loop_moves fuel f (suc n - m) (o + m) (done ++ bytes) (omega arith) (omega arith)
            ∙ ap ok (
                append_assoc done bytes (take (suc n - m) (drop (o + m) f))
                ∙ ap (λ r. done ++ (bytes ++ take (suc n - m) r)) (sym (drop-drop o m f))
                ∙ ap (λ r. done ++ (r ++ take (suc n - m) (drop m (drop o f)))) front
                ∙ ap (λ r. done ++ r) (take_split m (suc n) (drop o f) bound)))
