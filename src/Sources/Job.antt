-- ===== src/Sources/Job.antt =====
-- What a scan of the sources promises, whatever the sources are: a job that its own manifest check
-- and the receiver's accept.
use transfer_assistant.Prelude.{
  ℕ, ◌+◌, ◌<◌, ◌^◌, ◌≡◌, refl, sym, ap, ◌∙◌, Bool, List, [], ◌∷◌, ◌++◌, map, ok, err, >>=-eq-ok,
  map_err, map_err-eq-ok, Text, All, arith, length, ltb, ◌==◌, if◌then◌else◌, Bool-cases, inl, inr,
  split_first, sort_by, insert_sorted, nat_eq, sum_list,
}
use transfer_assistant.Manifest.{validate}
use transfer_assistant.Paging.{OutgoingEntry}
use transfer_assistant.Sources.{OutgoingJob, total_size, manifest_of, checked_job}
use transfer_assistant.Wire.{manifest_error, too_many_items}

-- The first segment of a path.
abbrev pub root_of : Text → Text
root_of path = (split_first b'/' path).0

abbrev pub sizes : List OutgoingEntry → ℕ
sizes entries = sum_list (map OutgoingEntry.size entries)

total_size-eq-ok :
    (total : ℕ) (entries : List OutgoingEntry) (n : ℕ)
    → total < 2 ^ 64
    → total_size total entries ≡ ok n
    → (n ≡ total + sizes entries) × (n < 2 ^ 64)
unfolding total_size
total_size-eq-ok total [] n small h = ground arith
total_size-eq-ok total (e ∷ rest) n small h =
    elim (Bool-cases (ltb (total + OutgoingEntry.size e) (2 ^ 64))) [
      | inl fits ↦
          let (is, below) =
            total_size-eq-ok (total + OutgoingEntry.size e) rest n (ground arith) (rw fits at h) in
          (omega (arith, is), below)
      | inr over ↦ cc (rw over at h)
    ]

-- What a job that is made promises of its entries.
pub record IsSound (job : OutgoingJob) : Type 0 where
  pub accepted : validate (manifest_of job.entries) ≡ ok tt
  pub counted : job.item_count ≡ length job.entries
  pub few : job.item_count < 2 ^ 32
  pub summed : job.total_bytes ≡ sizes job.entries
  pub bounded : job.total_bytes < 2 ^ 64

pub checked_job-eq-ok :
    (entries : List OutgoingEntry) (names : List Text) (job : OutgoingJob)
    → checked_job entries names ≡ ok job
    → IsSound job × (job.entries ≡ entries) × (job.top_level_names ≡ names)
unfolding checked_job
checked_job-eq-ok entries names job h =
    let (valid, accepted, later) =
      >>=-eq-ok (map_err (λ _. manifest_error) (validate (manifest_of entries))) _ h in
    let (count, counted, later2) =
      >>=-eq-ok (if ltb (length entries) (2 ^ 32) then ok (length entries) else err too_many_items)
        _ later in
    let (total, summed, last) = >>=-eq-ok (total_size 0 entries) _ later2 in
    let (is, below) = total_size-eq-ok 0 entries total (omega arith) summed in
    let right : validate (manifest_of entries) ≡ ok valid =
      map_err-eq-ok (λ _. manifest_error) (validate (manifest_of entries)) accepted in
    let few : (count ≡ length entries) × (count < 2 ^ 32) = ground arith in
    let same : job.entries ≡ entries = ground arith in
    let n : job.item_count ≡ count = ground arith in
    let t : job.total_bytes ≡ total = ground arith in
    (
      record {
        accepted = rw same right;
        counted = rw (n, same) few.0;
        few = rw n few.1;
        summed = rw (t, same) (omega (arith, is));
        bounded = rw t below;
      },
      same,
      ground arith,
    )

module _ {ℓ κ} {A : Type ℓ} (P : A → Type κ) (before : A → A → Bool) where
  All-insert_sorted : (x : A) (xs : List A) → P x → All P xs → All P (insert_sorted before x xs)
  All-insert_sorted x [] p ps = (p, tt)
  All-insert_sorted x (y ∷ ys) p ps = elim (Bool-cases (before x y)) [
    | inl b ↦ rw b (p, ps)
    | inr b ↦ rw b (ps.0, All-insert_sorted x ys p ps.1)
  ]

  pub All-sort_by : (xs : List A) → All P xs → All P (sort_by before xs)
  All-sort_by [] ps = tt
  All-sort_by (x ∷ xs) ps = All-insert_sorted x (sort_by before xs) ps.0 (All-sort_by xs ps.1)

module _ {ℓ κ} {A : Type ℓ} (P : A → Type κ) where
  pub All-append : (xs ys : List A) → All P xs → All P ys → All P (xs ++ ys)
  All-append [] ys ps qs = qs
  All-append (x ∷ xs) ys ps qs = (ps.0, All-append xs ys ps.1 qs)

root_of-cons : (c : ℕ) (s : Text) → root_of (c ∷ s) ≡ (if c == b'/' then [] else c ∷ root_of s)
unfolding split_first
root_of-cons c s = elim (Bool-cases (c == b'/')) [
  | inl slash ↦ rw (slash, root_of) refl
  | inr other ↦ rw (other, root_of) refl
]

pub root_of-append : (s t : Text) → root_of (s ++ (b'/' ∷ t)) ≡ root_of s
root_of-append [] t = unfold split_first in refl
root_of-append (c ∷ s) t =
    ground (arith, root_of-cons c (s ++ (b'/' ∷ t)), root_of-cons c s, root_of-append s t)

root_of_nil : root_of [] ≡ []
unfolding split_first
root_of_nil = refl

pub root_of_root : (s : Text) → root_of (root_of s) ≡ root_of s
root_of_root [] = ap root_of root_of_nil
root_of_root (c ∷ s) = elim (Bool-cases (c == b'/')) [
  | inl slash ↦
      let e : root_of (c ∷ s) ≡ [] = ground (arith, root_of-cons c s) in
      ap root_of e ∙ root_of_nil ∙ sym e
  | inr other ↦
      let e : root_of (c ∷ s) ≡ c ∷ root_of s = ground (arith, root_of-cons c s) in
      let f : root_of (c ∷ root_of s) ≡ c ∷ root_of (root_of s) =
        ground (arith, root_of-cons c (root_of s)) in
      ap root_of e ∙ f ∙ ap (λ r. c ∷ r) (root_of_root s) ∙ sym e
]
