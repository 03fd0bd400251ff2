-- ===== src/Catalog/Sessions.antt =====
-- `_existing_session_frames`, `_match_cluster_to_session`, `_upsert_target` and `cluster_sessions` of
-- server/catalog/sessions.py. A new row takes the highest rowid and one more, as SQLite gives it, and
-- deleting a session deletes its links and its matches, as the foreign keys say.
use astrolab.Prelude.{
  ℕ, suc, max, String, Bool, false, not, Option, none, some, List, [], ◌∷◌, ◌++◌, map, str_eq, ◌==◌,
  ltb, if◌then◌else◌, keep_if, any, length, find_first,
}
use astrolab.Catalog.Rows.{SessionRow, LinkRow, TargetRow, Catalog}
use astrolab.Catalog.Clusters.{Parser, Cluster, done, type_error, compute_clusters}

abbrev pub member : ℕ → List ℕ → Bool
member i ids = any (λ j. j == i) ids

-- `{session_id: set(frame_id)}`
abbrev pub Existing : Type 0
Existing = List (ℕ × List ℕ)

abbrev pub frames_linked : ℕ → List LinkRow → List ℕ
frames_linked sid links = map (λ l. l.frame_id) (keep_if (λ l. l.session_id == sid) links)

-- Links of unknown sessions cannot stand, by the foreign key.
unfoldable pub existing_session_frames : Catalog → Existing
existing_session_frames db = map (λ s. (s.id, frames_linked s.id db.session_frames)) db.sessions

-- `len(cluster_set & frame_ids)`, for the ids of a cluster, none of which stands twice.
abbrev pub overlap : List ℕ → List ℕ → ℕ
overlap cluster ids = length (keep_if (λ i. member i ids) cluster)

-- The variables of the loop.
pub record Best : Type 0 where
  pub best_id : Option ℕ
  pub best_overlap : ℕ

unfoldable pub best_of : (cluster : List ℕ) → Existing → (consumed : List ℕ) → Best → Best
best_of cluster [] consumed b = b
best_of cluster ((sid, ids) ∷ existing) consumed b = best_of cluster existing consumed (
    if member sid consumed
    then b
    else if ltb b.best_overlap (overlap cluster ids)
    then record { best_id = some sid; best_overlap = overlap cluster ids }
    else b)

unfoldable pub match_cluster_to_session :
    (cluster : List ℕ) → Existing → (consumed : List ℕ) → Option ℕ
unfolding best_of
match_cluster_to_session cluster existing consumed =
    (best_of cluster existing consumed (record { best_id = none; best_overlap = 0 })).best_id

-- The rowid that SQLite gives a new row.
abbrev pub next_rowid : List ℕ → ℕ
next_rowid [] = 1
next_rowid (i ∷ ids) = max (suc i) (next_rowid ids)

unfoldable pub upsert_target : String → List TargetRow → List TargetRow × ℕ
upsert_target name targets = elim (find_first (λ t. str_eq t.name name) targets) [
  | some t ↦ (targets, t.id)
  | none ↦
      let new = next_rowid (map (λ t. t.id) targets) in
      (targets ++ record { id = new; name = name } ∷ [], new)
]

-- `_upsert_target(conn, target) if target else None`
unfoldable pub target_of : Option String → List TargetRow → List TargetRow × Option ℕ
unfolding upsert_target
target_of none targets = (targets, none)
target_of (some name) targets =
    let (left, i) = upsert_target name targets in
    if str_eq name "" then (targets, none) else (left, some i)

-- `UPDATE sessions SET … WHERE id = ?`, which keeps the target, the notes and the description.
abbrev pub refresh : Cluster → SessionRow → SessionRow
refresh k s = record s {
  scope_id = k.config.scope_id;
  instrument = k.config.instrument;
  camera = k.config.camera;
  filter = k.config.filter;
  exptime = k.config.exptime;
  gain = k.config.gain;
  binning = k.config.binning;
  started_at = k.started_at;
  ended_at = k.ended_at;
  frame_count = length k.frame_ids;
  failed_count = k.failed_count;
}

unfoldable pub update_session : ℕ → Cluster → List SessionRow → List SessionRow
update_session i k sessions = map (λ s. if s.id == i then refresh k s else s) sessions

abbrev pub new_session : ℕ → Option ℕ → Cluster → SessionRow
new_session i target k = record {
  id = i;
  target_id = target;
  scope_id = k.config.scope_id;
  instrument = k.config.instrument;
  camera = k.config.camera;
  filter = k.config.filter;
  exptime = k.config.exptime;
  gain = k.config.gain;
  binning = k.config.binning;
  started_at = k.started_at;
  ended_at = k.ended_at;
  frame_count = length k.frame_ids;
  failed_count = k.failed_count;
  notes = none;
  description = none;
}

-- `SELECT ?, id FROM frames WHERE id IN (…)`, after the session's old links are deleted.
unfoldable pub relink : ℕ → List ℕ → Catalog → Catalog
relink sid ids db = record db {
  session_frames =
      keep_if (λ l. not (l.session_id == sid)) db.session_frames
      ++ map (λ f. record { session_id = sid; frame_id = f.id })
          (keep_if (λ f. member f.id ids) db.frames);
}

-- The database and the ids that the clusters have taken.
pub record Rebuild : Type 0 where
  pub db : Catalog
  pub consumed : List ℕ

-- The body of the loop over the clusters.
unfoldable pub place_cluster : Existing → Cluster → Rebuild → Rebuild
unfolding match_cluster_to_session target_of update_session relink
place_cluster existing k r =
    let (targets, target_id) = target_of k.config.object r.db.targets in
    let db : Catalog = record r.db { targets = targets } in
    elim (match_cluster_to_session k.frame_ids existing r.consumed) [
      | some i ↦ record {
        db = relink i k.frame_ids (record db { sessions = update_session i k db.sessions });
        consumed = i ∷ r.consumed;
      }
      | none ↦
          let i = next_rowid (map (λ s. s.id) db.sessions) in
          record {
            db =
                relink i k.frame_ids
                  (record db { sessions = db.sessions ++ new_session i target_id k ∷ [] });
            consumed = r.consumed;
          }
    ]

unfoldable pub place_clusters : Existing → List Cluster → Rebuild → Rebuild
unfolding place_cluster
place_clusters existing [] r = r
place_clusters existing (k ∷ ks) r = place_clusters existing ks (place_cluster existing k r)

-- `DELETE FROM sessions WHERE id IN (…)`, with what hangs on them.
unfoldable pub delete_sessions : List ℕ → Catalog → Catalog
delete_sessions gone db = record db {
  sessions = keep_if (λ s. not (member s.id gone)) db.sessions;
  session_frames = keep_if (λ l. not (member l.session_id gone)) db.session_frames;
  calibration_matches = keep_if (λ m. not (member m.session_id gone)) db.calibration_matches;
}

abbrev pub is_target_of : ℕ → SessionRow → Bool
is_target_of i s = elim s.target_id [ none ↦ false | some t ↦ t == i ]

unfoldable pub delete_orphan_targets : Catalog → Catalog
delete_orphan_targets db = record db {
  targets = keep_if (λ t. any (is_target_of t.id) db.sessions) db.targets;
}

unfoldable pub rebuild_sessions : List Cluster → Catalog → Catalog
unfolding place_clusters existing_session_frames delete_sessions delete_orphan_targets
rebuild_sessions ks db =
    let existing = existing_session_frames db in
    let r = place_clusters existing ks (record { db = db; consumed = [] }) in
    let orphans = keep_if (λ i. not (member i r.consumed)) (map (λ e. e.0) existing) in
    delete_orphan_targets (delete_sessions orphans r.db)

-- `none` for the TypeError, which comes before any change.
unfoldable pub cluster_sessions : Parser → (gap_minutes : ℕ) → Catalog → Option Catalog
unfolding rebuild_sessions compute_clusters
cluster_sessions p gap db = elim (compute_clusters p db.frames gap) [
  | done ks ↦ some (rebuild_sessions ks db)
  | type_error ↦ none
]
