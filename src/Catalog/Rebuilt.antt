-- ===== src/Catalog/Rebuilt.antt =====
-- What `cluster_sessions` of server/catalog/sessions.py leaves, as a lookup of sessions and links sees it.
use astrolab.Prelude.{
  ℕ, false, not, ◌&&◌, Option, none, some, List, [], ◌∷◌, map, ◌==◌, ==_iff, ◌≡◌, refl, sym, ◌∙◌,
  ap, if◌then◌else◌, keep_if, is_some, arith, Bool-cases, Option-cases, inl, inr,
}
use astrolab.Catalog.Rows.{SessionRow, LinkRow, Catalog}
use astrolab.Catalog.Clusters.{Cluster}
use astrolab.Catalog.Sessions.{
  Existing, Rebuild, member, frames_linked, place_clusters, delete_sessions, delete_orphan_targets,
  existing_session_frames, rebuild_sessions,
}
use astrolab.Catalog.Placed.{
  find_session, frames_named, Shows, Keeps, key_of, find-keep, linked-keep,
}
use astrolab.Catalog.Placement.{assigned, cluster_at, IsDistinct, IsGoing}
use astrolab.Catalog.Rounds.{AtId, assigned-AtId, assigned-IsDistinct, map-assigned}

member-keep :
    (j : ℕ) (ids consumed : List ℕ)
    → member j (keep_if (λ i. not (member i consumed)) ids)
      ≡ (member j ids && not (member j consumed))
member-keep j [] consumed = refl
member-keep j (i ∷ ids) consumed = elim (Bool-cases (i == j)) [
  | inl e ↦
      ground (arith, e, member-keep j ids consumed, ap (λ m. member m consumed) ((==_iff i j).0 e))
  | inr e ↦ ground (arith, e, member-keep j ids consumed)
]

member-key :
    (j : ℕ) (links : List LinkRow) (sessions : List SessionRow)
    → member j (key_of (map (λ s. (s.id, frames_linked s.id links)) sessions))
      ≡ is_some (find_session j sessions)
member-key j links [] = refl
member-key j links (s ∷ sessions) = ground (arith, member-key j links sessions)

-- Every link is one of a session of the table, as the foreign key says.
abbrev pub HasKnownLinks : Catalog → Type 0
HasKnownLinks db =
    (i : ℕ) → find_session i db.sessions ≡ none → frames_linked i db.session_frames ≡ []

-- What a session id reads after the rebuild, given the cluster placed in it.
abbrev pub EndsAs : Catalog → Catalog → ℕ → Option Cluster → Type 0
EndsAs db db' i none =
    (find_session i db'.sessions ≡ none) × (frames_linked i db'.session_frames ≡ [])
EndsAs db db' i (some k) =
    ((s : SessionRow) × (find_session i db'.sessions ≡ some s)
      × Shows k s
      × Keeps (find_session i db.sessions) s)
    × (frames_linked i db'.session_frames ≡ frames_named k.frame_ids db.frames)

abbrev start : Catalog → Rebuild
start db = record { db = db; consumed = [] }

start-IsGoing : (db : Catalog) → IsGoing (existing_session_frames db) (start db)
unfolding existing_session_frames
start-IsGoing db = record {
  known = λ i h. sym (member-key i db.session_frames db.sessions) ∙ h;
  taken = λ i h. absurd (ground (arith, h));
}

abbrev orphans : Existing → Rebuild → List ℕ
orphans existing r = keep_if (λ i. not (member i r.consumed)) (key_of existing)

module _ (ks : List Cluster) (db : Catalog) where
  abbrev olds : Existing
  olds = existing_session_frames db

  abbrev placed_all : Rebuild
  placed_all = place_clusters olds ks (start db)

  is_key_lem : (i : ℕ) → member i (key_of olds) ≡ is_some (find_session i db.sessions)
  unfolding existing_session_frames
  is_key_lem i = member-key i db.session_frames db.sessions

  is_orphan_lem :
      (i : ℕ)
      → member i (orphans olds placed_all)
        ≡ (is_some (find_session i db.sessions) && not (member i placed_all.consumed))
  is_orphan_lem i =
      member-keep i (key_of olds) placed_all.consumed
      ∙ ap (λ b. b && not (member i placed_all.consumed)) (is_key_lem i)

  find-rebuild :
      (i : ℕ)
      → find_session i (rebuild_sessions ks db).sessions ≡ (
          if member i (orphans olds placed_all)
          then none
          else find_session i placed_all.db.sessions)
  unfolding rebuild_sessions delete_orphan_targets delete_sessions
  find-rebuild i = find-keep (orphans olds placed_all) i placed_all.db.sessions

  linked-rebuild :
      (i : ℕ)
      → frames_linked i (rebuild_sessions ks db).session_frames ≡ (
          if member i (orphans olds placed_all)
          then []
          else frames_linked i placed_all.db.session_frames)
  unfolding rebuild_sessions delete_orphan_targets delete_sessions
  linked-rebuild i = linked-keep (orphans olds placed_all) i placed_all.db.session_frames

  EndsAs-of :
      HasKnownLinks db
      → (i : ℕ) (o : Option Cluster) → AtId olds (start db) placed_all i o
      → EndsAs db (rebuild_sessions ks db) i o
  EndsAs-of links i none h = elim (Option-cases (find_session i db.sessions)) [
    | inl e ↦ (
      ground (arith, find-rebuild i, is_orphan_lem i, h.0, e),
      ground (arith, linked-rebuild i, is_orphan_lem i, h.1, e, links i e),
    )
    | inr (s, e) ↦ (
      ground (arith, find-rebuild i, is_orphan_lem i, h.2, e),
      ground (arith, linked-rebuild i, is_orphan_lem i, h.2, e),
    )
  ]
  EndsAs-of links i (some k) h =
      let kept : member i (orphans olds placed_all) ≡ false =
        ground (arith, is_orphan_lem i, h.3, is_key_lem i) in
      (
        (h.0.0, find-rebuild i ∙ (rw kept refl ∙ h.0.1), h.0.2, h.0.3),
        linked-rebuild i ∙ (rw kept refl ∙ h.1),
      )

  -- After a rebuild from clusters, where every link was one of a known session, each cluster has a
  -- session of its own: the row shows the cluster, a row that was there keeps its target, its notes
  -- and its description, and the links of the session are the cluster's frames in the table. There
  -- is no other session and no other link.
  pub rebuild_sessions-EndsAs :
      HasKnownLinks db
      → (placed_in : List (ℕ × Cluster)) × (map (λ e. e.1) placed_in ≡ ks)
        × IsDistinct placed_in
        × ((i : ℕ) → EndsAs db (rebuild_sessions ks db) i (cluster_at i placed_in))
  rebuild_sessions-EndsAs links = (
    assigned olds ks (start db),
    map-assigned olds ks (start db),
    assigned-IsDistinct olds ks (start db) (start-IsGoing db),
    λ i.
        EndsAs-of links i (cluster_at i (assigned olds ks (start db)))
          (assigned-AtId olds ks (start db) (start-IsGoing db) i),
  )
