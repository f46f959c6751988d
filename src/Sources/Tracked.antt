-- ===== src/Sources/Tracked.antt =====
-- What the loop over sources that a platform hands over keeps: every entry's root is named.
use transfer_assistant.Prelude.{
  ℕ, ◌≡◌, ap, Bool, true, List, [], ◌∷◌, ◌++◌, Result, ok, >>=-eq-ok, Text, ◌=ₜ◌, any, arith,
  Bool-cases, inl, inr, nat_eq,
}
use transfer_assistant.PathSafety.{safe_manifest_name}
use transfer_assistant.Paging.{OutgoingEntry}
use transfer_assistant.Sources.{Node, SourceHandle, with_root, unwrap_or}
use transfer_assistant.Sources.Job.{root_of, All-append, root_of_root}
use transfer_assistant.Sources.Scan.{Fstat, Found, source_fields, add_platform_source, each_source}
use transfer_assistant.Wire.{LanError}
use transfer_assistant.Sources.Listed.{any-append, IsListed, AllListed, IsListed-now, all_later}

module _ (lower : Text → Text) where
  -- What the loops over the sources keep.
  pub record IsTracked (f : Found) : Type 0 where
    pub all_listed : AllListed lower f.top_level_names f.entries
    pub roots_named :
        (k : Text)
        → any (λ s. s =ₜ k) f.seen_roots ≡ true
        → any (λ n. lower (root_of n) =ₜ k) f.top_level_names ≡ true

  module _ (fresh : ℕ → Text) (join_path : Text → Text → Text) (android : Bool) (fstat : Fstat)
      (node_at : Text → Node) where
    abbrev pub Keeps : (Found → SourceHandle → Result LanError Found) → Type 0
    Keeps add =
        (f g : Found) (source : SourceHandle) → IsTracked f → add f source ≡ ok g → IsTracked g

    pub each_source-IsTracked :
        (add : Found → SourceHandle → Result LanError Found)
        → Keeps add
        → (f g : Found) (sources : List SourceHandle) → IsTracked f
        → each_source add f sources ≡ ok g
        → IsTracked g
    unfolding each_source
    each_source-IsTracked add keep f g [] t h = let same : f ≡ g = ground arith in rw (← same) t
    each_source-IsTracked add keep f g (source ∷ rest) t h =
        let (m, first, later) = >>=-eq-ok (add f source) _ h in
        each_source-IsTracked add keep m g rest (keep f m source t first) later

    with_root-named :
        (path : Text) (seen names : List Text)
        → ((k : Text)
            → any (λ s. s =ₜ k) seen ≡ true
            → any (λ n. lower (root_of n) =ₜ k) names ≡ true)
        → (k : Text) → any (λ s. s =ₜ k) (with_root lower path (seen, names)).0 ≡ true
        → any (λ n. lower (root_of n) =ₜ k) (with_root lower path (seen, names)).1 ≡ true
    with_root-named path seen names known k h =
        elim (Bool-cases (any (λ s. s =ₜ lower (root_of path)) seen)) [
          | inl old ↦ rw old (known k (rw old at h))
          | inr new ↦
              let seen_now = rw new at h in
              let root_now : (lower (root_of (root_of path)) =ₜ k) ≡ (lower (root_of path) =ₜ k) =
                ap (λ r. lower r =ₜ k) (root_of_root path) in
              rw new (
                ground (
                  arith,
                  any-append (λ n. lower (root_of n) =ₜ k) names (root_of path),
                  root_now,
                  seen_now,
                  known k,
                ))
        ]

    with_root-IsListed :
        (path : Text) (seen names : List Text)
        → ((k : Text)
            → any (λ s. s =ₜ k) seen ≡ true
            → any (λ n. lower (root_of n) =ₜ k) names ≡ true)
        → IsListed lower (with_root lower path (seen, names)).1 path
    with_root-IsListed path seen names known =
        elim (Bool-cases (any (λ s. s =ₜ lower (root_of path)) seen)) [
          | inl old ↦ rw old (known (lower (root_of path)) old)
          | inr new ↦ rw new (IsListed-now lower names (root_of path) path (root_of_root path))
        ]

    with_root-later :
        (path : Text) (seen names : List Text) (entries : List OutgoingEntry)
        → AllListed lower names entries
        → AllListed lower (with_root lower path (seen, names)).1 entries
    with_root-later path seen names entries h =
        elim (Bool-cases (any (λ s. s =ₜ lower (root_of path)) seen)) [
          | inl old ↦ rw old h
          | inr new ↦ rw new (all_later lower names (root_of path) entries h)
        ]

    same_found :
        (f g : Found) → ◌≡◌ {A = Result LanError Found} (ok f) (ok g) → IsTracked f → IsTracked g
    same_found f g h t = let same : f ≡ g = ground arith in rw (← same) t

    one_more-IsTracked :
        (f : Found) (e : OutgoingEntry)
        → IsTracked f
        → (let (seen, names) =
              with_root lower (OutgoingEntry.relative_path e) (f.seen_roots, f.top_level_names) in
            IsTracked (record {
              entries = f.entries ++ e ∷ [];
              seen_roots = seen;
              top_level_names = names;
            }))
    one_more-IsTracked f e t =
        let path = OutgoingEntry.relative_path e in
        record {
          all_listed =
              All-append
                (λ x.
                  IsListed lower (with_root lower path (f.seen_roots, f.top_level_names)).1
                    (OutgoingEntry.relative_path x))
                f.entries (e ∷ [])
                (with_root-later path f.seen_roots f.top_level_names f.entries t.all_listed)
                (with_root-IsListed path f.seen_roots f.top_level_names t.roots_named, tt);
          roots_named = with_root-named path f.seen_roots f.top_level_names t.roots_named;
        }

    pub add_platform-IsTracked :
        Keeps (add_platform_source fresh join_path android fstat node_at lower)
    unfolding add_platform_source
    add_platform-IsTracked f g source t h =
        let path = unwrap_or source.relative_path (safe_manifest_name source.display_name) in
        let (fields, have, last) =
          >>=-eq-ok (source_fields fresh join_path android fstat node_at lower source) _ h in
        same_found _ g last (one_more-IsTracked f _ t)
