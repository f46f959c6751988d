-- ===== src/Sources/Outcome.antt =====
-- What scan_sources of native/transfer_core/src/outgoing.rs promises of the job that it makes.
use transfer_assistant.Prelude.{
  ℕ, ◌≡◌, refl, sym, ◌∙◌, Bool, true, false, ◌||◌, List, [], ◌∷◌, ◌++◌, Option, none, some, ok,
  >>=-eq-ok, Text, any, arith, if◌then◌else◌, Bool-cases, inl, inr, sort_by, Ordered,
  sort_by-Ordered, leb_text_total, nat_eq, length, is_empty, starts_with, text, length-sort_by,
}
use transfer_assistant.Paging.{OutgoingEntry}
use transfer_assistant.Sources.{
  Node, file_node, directory_node, closed_directory, link_node, special_node, lost_node,
  OutgoingJob, SourceHandle,
}
use transfer_assistant.Sources.Job.{root_of, IsSound, checked_job-eq-ok, All-sort_by}
use transfer_assistant.Sources.Scan.{
  Fstat, scan_path, Found, add_platform_source, add_path_source, each_source, scan_sources,
  scan_root, add_node, by_relative_path, is_some,
}
use transfer_assistant.Sources.Listed.{
  IsListed, AllListed, IsListed-now, all_later, scan_path-KeepsListed, KeepsListed,
}
use transfer_assistant.Sources.Tracked.{IsTracked, each_source-IsTracked, add_platform-IsTracked}

same_emptiness : (xs ys : List OutgoingEntry) → length xs ≡ length ys → is_empty xs ≡ is_empty ys
same_emptiness [] [] e = refl
same_emptiness [] (y ∷ ys) e = absurd (omega arith)
same_emptiness (x ∷ xs) [] e = absurd (omega arith)
same_emptiness (x ∷ xs) (y ∷ ys) e = refl

module _ (lower : Text → Text) where
  -- The roots of the names alone, where no other loop has seen any.
  module _ (fresh : ℕ → Text) (join_path : Text → Text → Text) (android : Bool) (fstat : Fstat)
      (node_at : Text → Node) where
    scan_root-AddsListed :
        (f g : Found) (source : SourceHandle) (node : Node) (named : Option (Text × List Text))
        → AllListed lower f.top_level_names f.entries
        → scan_root fresh join_path android fstat node_at lower source node f named ≡ ok g
        → AllListed lower g.top_level_names g.entries
    unfolding scan_root KeepsListed
    scan_root-AddsListed f g source node none t h = cc
    scan_root-AddsListed f g source node (some (root, seen)) t h =
        let (entries, found, last) =
          >>=-eq-ok (scan_path fresh join_path node source.token root f.entries) _ h in
        let names = f.top_level_names ++ root ∷ [] in
        let all =
          scan_path-KeepsListed lower fresh join_path names (root_of root)
            (λ path e. IsListed-now lower f.top_level_names root path (sym e)) node source.token
            root f.entries entries refl (all_later lower f.top_level_names root f.entries t)
            found in
        let e : g.entries ≡ entries = ground arith in
        let n : g.top_level_names ≡ names = ground arith in rw (e, n) all

    add_node-AddsListed :
        (f g : Found) (source : SourceHandle) (node : Node)
        → AllListed lower f.top_level_names f.entries
        → add_node fresh join_path android fstat node_at lower source node f ≡ ok g
        → AllListed lower g.top_level_names g.entries
    unfolding add_node
    add_node-AddsListed f g source link_node t h = let same : f ≡ g = ground arith in rw (← same) t
    add_node-AddsListed f g source lost_node t h = cc
    add_node-AddsListed f g source (file_node l m o) t h = scan_root-AddsListed f g source _ _ t h
    add_node-AddsListed f g source (directory_node l m c) t h =
        scan_root-AddsListed f g source _ _ t h
    add_node-AddsListed f g source (closed_directory l m) t h =
        scan_root-AddsListed f g source _ _ t h
    add_node-AddsListed f g source special_node t h = scan_root-AddsListed f g source _ _ t h

    each_source-AddsListed :
        (f g : Found) (sources : List SourceHandle)
        → AllListed lower f.top_level_names f.entries
        → each_source (add_path_source fresh join_path android fstat node_at lower) f sources ≡ ok g
        → AllListed lower g.top_level_names g.entries
    unfolding each_source
    each_source-AddsListed f g [] t h = let same : f ≡ g = ground arith in rw (← same) t
    each_source-AddsListed f g (source ∷ rest) t h =
        let (m, first, later) =
          >>=-eq-ok (add_path_source fresh join_path android fstat node_at lower f source) _ h in
        each_source-AddsListed m g rest
          (unfold add_path_source in add_node-AddsListed f m source (node_at source.token) t first)
          later

    abbrev nothing_found : Found
    nothing_found = record { entries = []; seen_roots = []; top_level_names = [] }

    found-AllListed :
        (platform : Bool) (g : Found) (sources : List SourceHandle)
        → each_source
            (if platform
              then add_platform_source fresh join_path android fstat node_at lower
              else add_path_source fresh join_path android fstat node_at lower)
            nothing_found
            sources
          ≡ ok g
        → AllListed lower g.top_level_names g.entries
    found-AllListed true g sources h = IsTracked.all_listed (
        each_source-IsTracked lower fresh join_path android fstat node_at
          (add_platform_source fresh join_path android fstat node_at lower)
          (add_platform-IsTracked lower fresh join_path android fstat node_at) nothing_found g
          sources (record { all_listed = tt; roots_named = λ k e. e }) h)
    found-AllListed false g sources h = each_source-AddsListed nothing_found g sources tt h

    -- A scan of sources that succeeds gives a job whose manifest passes the validation that the
    -- receiver repeats, with its entries in the order of their paths, each below a root of which,
    -- lower case aside, one name of the offer is one; the count and the total are those of the
    -- entries and fit into a u32 and a u64.
    pub scan_sources_outcome :
        (sources : List SourceHandle) (job : OutgoingJob)
        → scan_sources fresh join_path android fstat node_at lower sources ≡ ok job
        → IsSound job
          × Ordered by_relative_path job.entries
          × AllListed lower job.top_level_names job.entries
          × (is_empty job.entries ≡ false)
    unfolding scan_sources
    scan_sources_outcome sources job h =
        let of_platform =
          any
            (λ s.
              is_some (SourceHandle.relative_path s) || starts_with s.token (text "android-fd:"))
            sources in
        let (found, each, later) =
          >>=-eq-ok
            (each_source
              (if of_platform
                then add_platform_source fresh join_path android fstat node_at lower
                else add_path_source fresh join_path android fstat node_at lower)
              nothing_found sources)
            _ h in
        let listed = found-AllListed of_platform found sources each in
        elim (Bool-cases (is_empty (Found.entries found))) [
          | inl none_found ↦ cc (rw none_found at later)
          | inr some_found ↦
              let sorted = sort_by by_relative_path (Found.entries found) in
              let (sound, entries, names) =
                checked_job-eq-ok sorted found.top_level_names job (rw some_found at later) in
              (
                sound,
                rw entries (
                    sort_by-Ordered by_relative_path
                      (λ x y e. leb_text_total x.relative_path y.relative_path e)
                      (Found.entries found)),
                rw (entries, names)
                    (All-sort_by
                      (λ e. IsListed lower found.top_level_names (OutgoingEntry.relative_path e))
                      by_relative_path (Found.entries found) listed),
                rw entries (
                    same_emptiness sorted (Found.entries found)
                      (length-sort_by by_relative_path (Found.entries found))
                    ∙ some_found),
              )
        ]
