-- ===== src/Sources/Listed.antt =====
-- Every entry that a scan finds lies below a root that the offer names.
use transfer_assistant.Prelude.{
  ℕ, ◌≡◌, ap, ◌∙◌, Bool, true, List, [], ◌∷◌, ◌++◌, none, some, Result, ok, >>=-eq-ok, Text, ◌=ₜ◌,
  any, All, arith, if◌then◌else◌, list_beq_iff, nat_eq,
}
use transfer_assistant.PathSafety.{safe_manifest_name}
use transfer_assistant.Paging.{OutgoingEntry}
use transfer_assistant.Sources.{
  Node, Children, file_node, directory_node, closed_directory, link_node, special_node, lost_node,
  no_children, child,
}
use transfer_assistant.Sources.Job.{root_of, All-sort_by, All-append, root_of-append}
use transfer_assistant.Sources.Scan.{Scan, run_scans, scan_path, child_scans}
use transfer_assistant.Wire.{LanError}

pub any-append :
    (p : Text → Bool) (xs : List Text) (y : Text)
    → any p (xs ++ y ∷ []) ≡ (if any p xs then true else p y)
any-append p [] y = ground arith
any-append p (x ∷ xs) y = ground (arith, any-append p xs y)

module _ (lower : Text → Text) where
  -- Some name has the root of the path, lower case aside.
  abbrev pub IsListed : List Text → Text → Type 0
  IsListed names path = any (λ n. lower (root_of n) =ₜ lower (root_of path)) names ≡ true

  pub IsListed-later :
      (names : List Text) (n path : Text) → IsListed names path → IsListed (names ++ n ∷ []) path
  IsListed-later names n path h =
      ground (arith, any-append (λ n. lower (root_of n) =ₜ lower (root_of path)) names n)

  same_root : (a b : Text) → root_of a ≡ root_of b → (lower (root_of a) =ₜ lower (root_of b)) ≡ true
  same_root a b e = (list_beq_iff nat_eq (lower (root_of a)) (lower (root_of b))).1 (ap lower e)

  pub IsListed-now :
      (names : List Text) (n path : Text)
      → root_of n ≡ root_of path
      → IsListed (names ++ n ∷ []) path
  IsListed-now names n path e = ground (
    arith,
    any-append (λ n. lower (root_of n) =ₜ lower (root_of path)) names n,
    same_root n path e,
  )

  abbrev pub AllListed : List Text → List OutgoingEntry → Type 0
  AllListed names entries = All (λ e. IsListed names (OutgoingEntry.relative_path e)) entries

  pub all_later :
      (names : List Text) (n : Text) (entries : List OutgoingEntry)
      → AllListed names entries
      → AllListed (names ++ n ∷ []) entries
  all_later names n [] h = tt
  all_later names n (e ∷ rest) h =
      (IsListed-later names n (OutgoingEntry.relative_path e) h.0, all_later names n rest h.1)

  pub same_list :
      (names : List Text) (entries found : List OutgoingEntry)
      → ◌≡◌ {A = Result LanError (List OutgoingEntry)} (ok entries) (ok found)
      → AllListed names entries
      → AllListed names found
  same_list names entries found e h = let same : entries ≡ found = ground arith in rw (← same) h

  -- A traversal below a path adds entries that have a listed root if the path's is.
  module _ (fresh : ℕ → Text) (join_path : Text → Text → Text) (names : List Text) (root : Text)
      (listed : (path : Text) → root_of path ≡ root → IsListed names path) where
    unfoldable pub KeepsListed : Scan → Type 0
    KeepsListed scan =
        (path relative_path : Text) (entries found : List OutgoingEntry)
        → root_of relative_path ≡ root
        → AllListed names entries
        → scan path relative_path entries ≡ ok found
        → AllListed names found

    run_scans-KeepsListed :
        (scans : List (Text × Scan))
        → All (λ s. KeepsListed s.1) scans
        → KeepsListed (run_scans fresh join_path scans)
    unfolding run_scans KeepsListed
    run_scans-KeepsListed [] keep path relative_path entries found e h r =
        let same : entries ≡ found = ground arith in rw (← same) h
    run_scans-KeepsListed ((name, scan) ∷ rest) keep path relative_path entries found e h r =
        let below = relative_path ++ (b'/' ∷ safe_manifest_name name) in
        let (more, first, later) = >>=-eq-ok (scan (join_path path name) below entries) _ r in
        let here =
          keep.0 (join_path path name) below entries more
            (root_of-append relative_path (safe_manifest_name name) ∙ e) h first in
        run_scans-KeepsListed rest keep.1 path relative_path more found e here later

    push :
        (entries : List OutgoingEntry) (e : OutgoingEntry)
        → root_of e.relative_path ≡ root
        → AllListed names entries
        → AllListed names (entries ++ e ∷ [])
    push entries e r h =
        All-append (λ e. IsListed names (OutgoingEntry.relative_path e)) entries (e ∷ []) h
          (listed (OutgoingEntry.relative_path e) r, tt)

    mutual
      unfolding scan_path KeepsListed

      pub scan_path-KeepsListed : (node : Node) → KeepsListed (scan_path fresh join_path node)
      scan_path-KeepsListed (file_node len modified none) path relative_path entries found e h r =
          cc
      scan_path-KeepsListed (file_node len modified (some handle)) path relative_path entries found
            e h r =
          same_list names _ found r (push entries _ e h)
      scan_path-KeepsListed (directory_node len modified children) path relative_path entries found
            e h r =
          run_scans-KeepsListed _
            (All-sort_by (λ s. KeepsListed s.1) _ (child_scans fresh join_path children)
              (child_scans-KeepsListed children))
            path relative_path _ found e (push entries _ e h) r
      scan_path-KeepsListed (closed_directory len modified) path relative_path entries found e h r =
          cc
      scan_path-KeepsListed link_node path relative_path entries found e h r =
          same_list names entries found r h
      scan_path-KeepsListed special_node path relative_path entries found e h r =
          same_list names entries found r h
      scan_path-KeepsListed lost_node path relative_path entries found e h r = cc

      child_scans-KeepsListed :
          (children : Children) → All (λ s. KeepsListed s.1) (child_scans fresh join_path children)
      child_scans-KeepsListed no_children = tt
      child_scans-KeepsListed (child name node rest) =
          (scan_path-KeepsListed node, child_scans-KeepsListed rest)
