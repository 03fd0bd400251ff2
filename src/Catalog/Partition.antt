-- ===== src/Catalog/Partition.antt =====
-- What the clusters of `_compute_clusters` of server/catalog/sessions.py hold, frame by frame.
use astrolab.Prelude.{
  ℕ, ◌+◌, ◌*◌, List, [], ◌∷◌, ◌++◌, map, if◌then◌else◌, keep_if, ◌≡◌, refl, arith, Bool-cases, inl,
  inr, ◌==◌,
}
use astrolab.Catalog.Rows.{FrameRow, Config}
use astrolab.Catalog.Clusters.{
  Parser, Cluster, done, add_frame, group_frames, insert_frame, sort_frames, frame_leb,
  compute_clusters, is_eligible,
}
use astrolab.Catalog.Runs.{
  Run, breaks, join, runs, summaries, clusters_by_runs, compute_clusters-runs,
}

abbrev pub count : ℕ → List ℕ → ℕ
count i [] = 0
count i (j ∷ js) = (if j == i then 1 else 0) + count i js

abbrev pub ids_of : List FrameRow → List ℕ
ids_of fs = map (λ f. f.id) fs

-- The frame ids of all clusters.
abbrev pub all_ids : List Cluster → List ℕ
all_ids [] = []
all_ids (k ∷ ks) = k.frame_ids ++ all_ids ks

count-append : (i : ℕ) (xs ys : List ℕ) → count i (xs ++ ys) ≡ count i xs + count i ys
count-append i [] ys = omega arith
count-append i (x ∷ xs) ys = omega (arith, count-append i xs ys)

all_ids-append :
    (ks ls : List Cluster)
    → (i : ℕ) → count i (all_ids (ks ++ ls)) ≡ count i (all_ids ks) + count i (all_ids ls)
all_ids-append [] ls i = omega arith
all_ids-append (k ∷ ks) ls i = omega (
  arith,
  all_ids-append ks ls i,
  count-append i k.frame_ids (all_ids (ks ++ ls)),
  count-append i k.frame_ids (all_ids ks),
)

abbrev frames_of : List (Config × List FrameRow) → List ℕ
frames_of [] = []
frames_of ((c, fs) ∷ groups) = ids_of fs ++ frames_of groups

ids_of-append :
    (i : ℕ) (fs gs : List FrameRow)
    → count i (ids_of (fs ++ gs)) ≡ count i (ids_of fs) + count i (ids_of gs)
ids_of-append i [] gs = omega arith
ids_of-append i (f ∷ fs) gs = omega (arith, ids_of-append i fs gs)

count-insert_frame :
    (i : ℕ) (p : Parser) (f : FrameRow) (fs : List FrameRow)
    → count i (ids_of (insert_frame p f fs)) ≡ (if f.id == i then 1 else 0) + count i (ids_of fs)
unfolding insert_frame
count-insert_frame i p f [] = refl
count-insert_frame i p f (g ∷ gs) = elim (Bool-cases (frame_leb p f g)) [
  | inl e ↦ rw e refl
  | inr e ↦ rw e (omega (arith, count-insert_frame i p f gs))
]

count-sort_frames :
    (i : ℕ) (p : Parser) (fs : List FrameRow)
    → count i (ids_of (sort_frames p fs)) ≡ count i (ids_of fs)
unfolding sort_frames
count-sort_frames i p [] = refl
count-sort_frames i p (f ∷ fs) =
    omega (arith, count-insert_frame i p f (sort_frames p fs), count-sort_frames i p fs)

count-add_frame :
    (i : ℕ) (f : FrameRow) (groups : List (Config × List FrameRow))
    → count i (frames_of (add_frame f groups))
      ≡ (if f.id == i then 1 else 0) + count i (frames_of groups)
unfolding add_frame
count-add_frame i f [] = ground arith
count-add_frame i f ((c, fs) ∷ groups) = ground (
  arith,
  count-add_frame i f groups,
  ids_of-append i fs (f ∷ []),
  count-append i (ids_of fs) (frames_of groups),
  count-append i (ids_of fs) (frames_of (add_frame f groups)),
  count-append i (ids_of (fs ++ f ∷ [])) (frames_of groups),
)

count-group_frames :
    (i : ℕ) (fs : List FrameRow) (groups : List (Config × List FrameRow))
    → count i (frames_of (group_frames fs groups))
      ≡ count i (ids_of fs) + count i (frames_of groups)
unfolding group_frames
count-group_frames i [] groups = omega arith
count-group_frames i (f ∷ fs) groups =
    omega (arith, count-group_frames i fs (add_frame f groups), count-add_frame i f groups)

module _ (i : ℕ) (threshold : ℕ) (p : Parser) where
  count-join :
      (c : Config) (l f : FrameRow) (fs : List FrameRow) (rs : List Run)
      → count i (all_ids (summaries c (join threshold p l f fs rs)))
        ≡ count i (ids_of (f ∷ fs)) + count i (all_ids (summaries c rs))
  unfolding join
  count-join c l f fs [] = omega (arith, count-append i (ids_of (f ∷ fs)) [])
  count-join c l f fs ((g, gs) ∷ rs) = elim (Bool-cases (breaks threshold p l g)) [
    | inl e ↦ rw e (
        omega
          (arith, count-append i (ids_of (f ∷ fs)) (ids_of (g ∷ gs) ++ all_ids (summaries c rs))))
    | inr e ↦ rw e (
        omega (
          arith,
          count-append i (ids_of (f ∷ fs ++ g ∷ gs)) (all_ids (summaries c rs)),
          count-append i (ids_of (g ∷ gs)) (all_ids (summaries c rs)),
          ids_of-append i fs (g ∷ gs),
        ))
  ]

  count-runs :
      (c : Config) (fs : List FrameRow)
      → count i (all_ids (summaries c (runs threshold p fs))) ≡ count i (ids_of fs)
  unfolding runs
  count-runs c [] = refl
  count-runs c (f ∷ fs) = omega (arith, count-join c f f [] (runs threshold p fs), count-runs c fs)

  count-clusters_by_runs :
      (groups : List (Config × List FrameRow))
      → count i (all_ids (clusters_by_runs threshold p groups)) ≡ count i (frames_of groups)
  count-clusters_by_runs [] = refl
  count-clusters_by_runs ((c, fs) ∷ groups) = omega (
    arith,
    all_ids-append (summaries c (runs threshold p (sort_frames p fs)))
        (clusters_by_runs threshold p groups) i,
    count-runs c (sort_frames p fs),
    count-sort_frames i p fs,
    count-clusters_by_runs groups,
    count-append i (ids_of fs) (frames_of groups),
  )

-- Where the clusters of a scan are computed, every id stands in them as often as among the light
-- frames with an object and a date.
pub count-compute_clusters :
    (p : Parser) (frames : List FrameRow) (gap : ℕ) (ks : List Cluster) (i : ℕ)
    → compute_clusters p frames gap ≡ done ks
    → count i (all_ids ks) ≡ count i (ids_of (keep_if is_eligible frames))
count-compute_clusters p frames gap ks i e = ground (
  arith,
  compute_clusters-runs p frames gap,
  count-clusters_by_runs i (gap * 60) p (group_frames (keep_if is_eligible frames) []),
  count-group_frames i (keep_if is_eligible frames) [],
)
