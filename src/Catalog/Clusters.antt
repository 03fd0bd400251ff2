-- ===== src/Catalog/Clusters.antt =====
-- `_parse_iso` and `_compute_clusters` of server/catalog/sessions.py. Python's `fromisoformat` is a
-- parameter. A comparison of an instant with an offset and one without raises a TypeError, and
-- `sorted` makes one wherever a group has both.
use astrolab.Prelude.{
  ℕ, ◌+◌, ◌-◌, ◌*◌, String, Bool, true, false, ◌&&◌, ◌||◌, not, Option, none, some, List, [], ◌∷◌,
  ◌++◌, str_eq, ◌==◌, leb, ltb, if◌then◌else◌, is_some, keep_if, any,
}
use astrolab.Prelude.Int.{int_eq}
use astrolab.Catalog.Rows.{FrameRow, Config, is_light, is_failed}

-- A `datetime`: microseconds from the first instant, and whether it has an offset.
pub record Instant : Type 0 where
  pub micros : ℕ
  pub aware : Bool

abbrev pub Parser : Type 0
Parser = String → Option Instant

-- `value.rstrip("Z")`
unfoldable pub rstrip_z : String → String
rstrip_z String.[] = ""
rstrip_z (String.◌∷◌ c s) =
    let rest = rstrip_z s in
    let kept : String = String.◌∷◌ c rest in if str_eq rest "" && str_eq kept "Z" then "" else kept

unfoldable pub parse_iso : Parser → String → Option Instant
unfolding rstrip_z
parse_iso fromisoformat value = if str_eq value "" then none else fromisoformat (rstrip_z value)

-- `image_type = 'LIGHT' AND object IS NOT NULL AND date_obs IS NOT NULL`
abbrev pub is_eligible : FrameRow → Bool
is_eligible f = is_light f.image_type && (is_some f.object && is_some f.date_obs)

abbrev pub config_of : FrameRow → Config
config_of f = record {
  scope_id = f.scope_id;
  object = f.object;
  instrument = f.instrument;
  camera = f.camera;
  filter = f.filter;
  exptime = f.exptime;
  gain = f.gain;
  binning = f.binning;
}

abbrev pub opt_eq {ℓ} : {A : Type ℓ} → (A → A → Bool) → Option A → Option A → Bool
opt_eq eq none none = true
opt_eq eq none (some b) = false
opt_eq eq (some a) none = false
opt_eq eq (some a) (some b) = eq a b

-- `==` of two keys.
unfoldable pub same_config : Config → Config → Bool
same_config a b =
    opt_eq str_eq a.scope_id b.scope_id
    && (opt_eq str_eq a.object b.object
        && (opt_eq str_eq a.instrument b.instrument
            && (opt_eq str_eq a.camera b.camera
                && (opt_eq str_eq a.filter b.filter
                    && (opt_eq ◌==◌ a.exptime b.exptime
                        && (opt_eq int_eq a.gain b.gain && opt_eq int_eq a.binning b.binning))))))

-- `groups[key].append(r)`
unfoldable pub add_frame : FrameRow → List (Config × List FrameRow) → List (Config × List FrameRow)
unfolding same_config
add_frame f [] = (config_of f, f ∷ []) ∷ []
add_frame f ((c, fs) ∷ groups) =
    if same_config c (config_of f) then (c, fs ++ f ∷ []) ∷ groups else (c, fs) ∷ add_frame f groups

unfoldable pub group_frames :
    List FrameRow → List (Config × List FrameRow) → List (Config × List FrameRow)
unfolding add_frame
group_frames [] groups = groups
group_frames (f ∷ fs) groups = group_frames fs (add_frame f groups)

-- `row["date_obs"]` of an eligible row, which is no NULL.
abbrev pub date_of : FrameRow → String
date_of f = elim f.date_obs [ none ↦ "" | some d ↦ d ]

unfoldable pub instant_of : Parser → FrameRow → Option Instant
unfolding parse_iso
instant_of fromisoformat f = parse_iso fromisoformat (date_of f)

-- `_parse_iso(row["date_obs"]) or datetime.min`
unfoldable pub sort_instant : Parser → FrameRow → Instant
unfolding instant_of
sort_instant fromisoformat f = elim (instant_of fromisoformat f) [
  | none ↦ record { micros = 0; aware = false }
  | some t ↦ t
]

-- `<=` of two sort keys.
unfoldable pub frame_leb : Parser → FrameRow → FrameRow → Bool
unfolding sort_instant
frame_leb p f g =
    ltb (sort_instant p f).micros (sort_instant p g).micros
    || ((sort_instant p f).micros == (sort_instant p g).micros && leb f.id g.id)

unfoldable pub insert_frame : Parser → FrameRow → List FrameRow → List FrameRow
unfolding frame_leb
insert_frame p f [] = f ∷ []
insert_frame p f (g ∷ gs) = if frame_leb p f g then f ∷ g ∷ gs else g ∷ insert_frame p f gs

unfoldable pub sort_frames : Parser → List FrameRow → List FrameRow
unfolding insert_frame
sort_frames p [] = []
sort_frames p (f ∷ fs) = insert_frame p f (sort_frames p fs)

unfoldable pub is_mixed : Parser → List FrameRow → Bool
unfolding sort_instant
is_mixed p fs = any (λ f. (sort_instant p f).aware) fs && any (λ f. not (sort_instant p f).aware) fs

-- `_Cluster`
pub record Cluster : Type 0 where
  pub config : Config
  pub frame_ids : List ℕ
  pub failed_count : ℕ
  pub started_at : String
  pub ended_at : String

-- The variables of the inner loop.
pub record Scan : Type 0 where
  pub clusters : List Cluster
  pub current : Option Cluster
  pub last_dt : Option Instant

abbrev failed_one : FrameRow → ℕ
failed_one f = if is_failed f.quality then 1 else 0

abbrev pub open_cluster : Config → FrameRow → Cluster
open_cluster c f = record {
  config = c;
  frame_ids = f.id ∷ [];
  failed_count = failed_one f;
  started_at = date_of f;
  ended_at = date_of f;
}

abbrev pub extend : FrameRow → Cluster → Cluster
extend f k = record k {
  frame_ids = k.frame_ids ++ f.id ∷ [];
  failed_count = k.failed_count + failed_one f;
  ended_at = date_of f;
}

-- `(dt - last_dt).total_seconds() > threshold_seconds`, or one of the two is None.
unfoldable pub is_gap : (threshold_seconds : ℕ) → Option Instant → Option Instant → Bool
is_gap threshold none dt = true
is_gap threshold (some last) none = true
is_gap threshold (some last) (some dt) = ltb (threshold * 1000000) (dt.micros - last.micros)

unfoldable pub flush : Option Cluster → List Cluster → List Cluster
flush none clusters = clusters
flush (some k) clusters = clusters ++ k ∷ []

-- The body of the inner loop.
unfoldable pub scan_frame : (threshold_seconds : ℕ) → Parser → Config → FrameRow → Scan → Scan
unfolding is_gap flush instant_of
scan_frame threshold p c f s =
    let dt = instant_of p f in
    let opened : Scan = record {
      clusters = flush s.current s.clusters;
      current = some (open_cluster c f);
      last_dt = dt;
    } in
    elim s.current [
      | none ↦ opened
      | some k ↦
          if is_gap threshold s.last_dt dt
          then opened
          else record s { current = some (extend f k); last_dt = dt }
    ]

unfoldable pub scan_frames : (threshold_seconds : ℕ) → Parser → Config → List FrameRow → Scan → Scan
unfolding scan_frame
scan_frames threshold p c [] s = s
scan_frames threshold p c (f ∷ fs) s = scan_frames threshold p c fs (scan_frame threshold p c f s)

-- One round of the outer loop, after the sort.
unfoldable pub clusters_of :
    (threshold_seconds : ℕ) → Parser → Config → List FrameRow → List Cluster → List Cluster
unfolding scan_frames flush
clusters_of threshold p c sorted clusters =
    let s =
      scan_frames threshold p c sorted
        (record { clusters = clusters; current = none; last_dt = none }) in
    flush s.current s.clusters

pub data Computed : Type 0 where
  done : List Cluster → Computed
  type_error : Computed

unfoldable pub each_group :
    (threshold_seconds : ℕ) → Parser → List (Config × List FrameRow) → List Cluster → Computed
unfolding clusters_of sort_frames is_mixed
each_group threshold p [] clusters = done clusters
each_group threshold p ((c, fs) ∷ groups) clusters =
    let rest =
      each_group threshold p groups (clusters_of threshold p c (sort_frames p fs) clusters) in
    if is_mixed p fs then type_error else rest

unfoldable pub compute_clusters : Parser → List FrameRow → (gap_minutes : ℕ) → Computed
unfolding each_group group_frames
compute_clusters p frames gap =
    each_group (gap * 60) p (group_frames (keep_if is_eligible frames) []) []
