-- ===== src/Catalog/Runs.antt =====
-- The clusters of `_compute_clusters` of server/catalog/sessions.py against a description of their own:
-- the runs of a sorted list, cut at the gaps.
use mathlib.Core.List.{append_assoc, append-nil, map-append}
use astrolab.Prelude.{
  ℕ, ◌+◌, ◌*◌, String, Bool, true, false, some, List, [], ◌∷◌, ◌++◌, map, if◌then◌else◌, keep_if,
  any, ◌≡◌, refl, arith, length, Bool-cases, inl, inr, ◌∙◌, ap, sym,
}
use astrolab.Catalog.Rows.{FrameRow, Config, is_failed}
use astrolab.Catalog.Clusters.{
  Parser, Cluster, Scan, done, type_error, date_of, instant_of, is_gap, is_mixed, flush,
  open_cluster, extend, scan_frame, scan_frames, clusters_of, sort_frames, each_group, group_frames,
  compute_clusters, is_eligible,
}

abbrev first_date : List FrameRow → String
first_date [] = ""
first_date (f ∷ fs) = date_of f

abbrev last_date : FrameRow → List FrameRow → String
last_date f [] = date_of f
last_date f (g ∷ gs) = last_date g gs

-- What a cluster says of its frames, the first one apart.
abbrev pub summary : Config → FrameRow → List FrameRow → Cluster
summary c f fs = record {
  config = c;
  frame_ids = map (λ r. r.id) (f ∷ fs);
  failed_count = length (keep_if (λ r. is_failed r.quality) (f ∷ fs));
  started_at = date_of f;
  ended_at = last_date f fs;
}

-- A run, the first frame apart.
abbrev pub Run : Type 0
Run = FrameRow × List FrameRow

module _ (threshold : ℕ) (p : Parser) where
  abbrev pub breaks : FrameRow → FrameRow → Bool
  breaks f g = is_gap threshold (instant_of p f) (instant_of p g)

  -- A run whose last frame is `l`, before the runs that follow it.
  unfoldable pub join : (l f : FrameRow) → List FrameRow → List Run → List Run
  join l f fs [] = (f, fs) ∷ []
  join l f fs ((g, gs) ∷ rs) = if breaks l g then (f, fs) ∷ (g, gs) ∷ rs else (f, fs ++ g ∷ gs) ∷ rs

  -- The runs of a list: neighbours stand in one exactly where there is no gap between them.
  unfoldable pub runs : List FrameRow → List Run
  runs [] = []
  runs (f ∷ fs) = join f f [] (runs fs)

abbrev pub summaries : Config → List Run → List Cluster
summaries c rs = map (λ r. summary c r.0 r.1) rs

last_date-append : (f g : FrameRow) (fs : List FrameRow) → last_date f (fs ++ g ∷ []) ≡ date_of g
last_date-append f g [] = refl
last_date-append f g (h ∷ fs) = last_date-append h g fs

kept-append :
    (f g : FrameRow) (fs : List FrameRow)
    → length (keep_if (λ r. is_failed r.quality) (fs ++ g ∷ []))
      ≡ length (keep_if (λ r. is_failed r.quality) fs) + (if is_failed g.quality then 1 else 0)
kept-append f g [] = ground arith
kept-append f g (h ∷ fs) = ground (arith, kept-append f g fs)

extend-summary :
    (c : Config) (f g : FrameRow) (fs : List FrameRow)
    → extend g (summary c f fs) ≡ summary c f (fs ++ g ∷ [])
extend-summary c f g fs = ground (
  arith,
  last_date-append f g fs,
  kept-append f g (f ∷ fs),
  map-append (λ (r : FrameRow). r.id) (f ∷ fs) (g ∷ []),
)

open-summary : (c : Config) (f : FrameRow) → open_cluster c f ≡ summary c f []
open-summary c f = ground arith

module _ (threshold : ℕ) (p : Parser) (c : Config) where
  join-gap :
      (l f g : FrameRow) (fs gs : List FrameRow)
      → breaks threshold p l g ≡ true
      → join threshold p l f fs (runs threshold p (g ∷ gs)) ≡ (f, fs) ∷ runs threshold p (g ∷ gs)
  unfolding join runs
  join-gap l f g fs gs e =
      elim (runs threshold p gs)
        as (λ rs.
          join threshold p l f fs (join threshold p g g [] rs)
          ≡ (f, fs) ∷ join threshold p g g [] rs) [ [] ↦ rw e refl | (h, hs) ∷ rs ↦ ground arith ]

  join-close :
      (l f g : FrameRow) (fs gs : List FrameRow)
      → breaks threshold p l g ≡ false
      → join threshold p l f fs (runs threshold p (g ∷ gs))
        ≡ join threshold p g f (fs ++ g ∷ []) (runs threshold p gs)
  unfolding join runs
  join-close l f g fs gs e =
      elim (runs threshold p gs)
        as (λ rs.
          join threshold p l f fs (join threshold p g g [] rs)
          ≡ join threshold p g f (fs ++ g ∷ []) rs) [
            | [] ↦ rw e refl
            | (h, hs) ∷ rs ↦ ground (arith, append_assoc fs (g ∷ []) (h ∷ hs))
          ]

  abbrev scan_from : List Cluster → FrameRow → FrameRow → List FrameRow → Scan
  scan_from ks l f fs = record {
    clusters = ks;
    current = some (summary c f fs);
    last_dt = instant_of p l;
  }

  abbrev result_of : Scan → List Cluster
  result_of s = flush s.current s.clusters

  result_of-scan_frames :
      (gs : List FrameRow) (ks : List Cluster) (l f : FrameRow) (fs : List FrameRow)
      → result_of (scan_frames threshold p c gs (scan_from ks l f fs))
        ≡ ks ++ summaries c (join threshold p l f fs (runs threshold p gs))
  unfolding scan_frames flush join runs
  result_of-scan_frames [] ks l f fs = refl
  result_of-scan_frames (g ∷ gs) ks l f fs = elim (Bool-cases (breaks threshold p l g)) [
    | inl e ↦
        ap (λ s. result_of (scan_frames threshold p c gs s))
          (unfold scan_frame in ground (arith, e, open-summary c g))
        ∙ (result_of-scan_frames gs (ks ++ summary c f fs ∷ []) g g []
            ∙ (append_assoc ks _ _
                ∙ ap (λ rs. ks ++ summaries c rs) (sym (join-gap l f g fs gs e))))
    | inr e ↦
        ap (λ s. result_of (scan_frames threshold p c gs s))
          (unfold scan_frame in ground (arith, e, extend-summary c f g fs))
        ∙ (result_of-scan_frames gs ks g f (fs ++ g ∷ [])
            ∙ ap (λ rs. ks ++ summaries c rs) (sym (join-close l f g fs gs e)))
  ]

clusters_of-runs :
    (threshold : ℕ) (p : Parser) (c : Config) (fs : List FrameRow) (ks : List Cluster)
    → clusters_of threshold p c fs ks ≡ ks ++ summaries c (runs threshold p fs)
unfolding clusters_of scan_frames flush runs
clusters_of-runs threshold p c [] ks = sym (append-nil ks)
clusters_of-runs threshold p c (f ∷ fs) ks =
    ap (λ s. result_of threshold p c (scan_frames threshold p c fs s))
      (unfold scan_frame flush in ground (arith, open-summary c f))
    ∙ result_of-scan_frames threshold p c fs ks f f []

-- Each group by itself: sorted, cut into runs, and each run told by its cluster.
abbrev pub clusters_by_runs :
    (threshold : ℕ) → Parser → List (Config × List FrameRow) → List Cluster
clusters_by_runs threshold p [] = []
clusters_by_runs threshold p ((c, fs) ∷ groups) =
    summaries c (runs threshold p (sort_frames p fs)) ++ clusters_by_runs threshold p groups

each_group-runs :
    (threshold : ℕ) (p : Parser) (groups : List (Config × List FrameRow)) (ks : List Cluster)
    → each_group threshold p groups ks ≡ (
        if any (λ g. is_mixed p g.1) groups
        then type_error
        else done (ks ++ clusters_by_runs threshold p groups))
unfolding each_group
each_group-runs threshold p [] ks = ap done (sym (append-nil ks))
each_group-runs threshold p ((c, fs) ∷ groups) ks = ground (
  arith,
  each_group-runs threshold p groups (clusters_of threshold p c (sort_frames p fs) ks),
  clusters_of-runs threshold p c (sort_frames p fs) ks,
  append_assoc ks (summaries c (runs threshold p (sort_frames p fs)))
      (clusters_by_runs threshold p groups),
)

-- The clusters of a scan are, group after group, the runs of the frames in order of their instants,
-- where neighbours stand in one run exactly if both dates are read and lie no further apart than the
-- gap; each run is told by its frame ids, the number of its failed frames and its first and last
-- date. Where a group has dates with an offset and without, there is a TypeError.
pub compute_clusters-runs :
    (p : Parser) (frames : List FrameRow) (gap : ℕ)
    → compute_clusters p frames gap ≡ (
        if any (λ g. is_mixed p g.1) (group_frames (keep_if is_eligible frames) [])
        then type_error
        else done (clusters_by_runs (gap * 60) p (group_frames (keep_if is_eligible frames) [])))
unfolding compute_clusters
compute_clusters-runs p frames gap =
    each_group-runs (gap * 60) p (group_frames (keep_if is_eligible frames) []) []
