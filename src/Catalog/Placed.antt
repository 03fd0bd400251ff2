-- ===== src/Catalog/Placed.antt =====
-- Where `cluster_sessions` of server/catalog/sessions.py puts the clusters: the rows and links that a rebuild
-- leaves, read by session id.
use mathlib.Core.List.{append-nil}
use astrolab.Prelude.{
  ℕ, ◌≤◌, not, Option, none, some, List, [], ◌∷◌, ◌++◌, map, ◌==◌, ==_iff, ◌≡◌, refl, ap,
  if◌then◌else◌, keep_if, length, find_first, arith, Bool-cases, inl, inr,
}
use astrolab.Catalog.Rows.{FrameRow, SessionRow, LinkRow, Catalog}
use astrolab.Catalog.Clusters.{Cluster}
use astrolab.Catalog.Sessions.{
  Existing, member, frames_linked, next_rowid, refresh, update_session, relink,
}

abbrev pub find_session : ℕ → List SessionRow → Option SessionRow
find_session i sessions = find_first (λ s. s.id == i) sessions

-- The frames of the table that a cluster names.
abbrev pub frames_named : List ℕ → List FrameRow → List ℕ
frames_named ids frames = map (λ f. f.id) (keep_if (λ f. member f.id ids) frames)

abbrev pub Shows : Cluster → SessionRow → Type 0
Shows k s =
    (s.started_at ≡ k.started_at)
    × (s.ended_at ≡ k.ended_at)
    × (s.frame_count ≡ length k.frame_ids)
    × (s.failed_count ≡ k.failed_count)
    × (s.scope_id ≡ k.config.scope_id)
    × (s.instrument ≡ k.config.instrument)
    × (s.camera ≡ k.config.camera)
    × (s.filter ≡ k.config.filter)
    × (s.exptime ≡ k.config.exptime)
    × (s.gain ≡ k.config.gain)
    × (s.binning ≡ k.config.binning)

-- A new row has no notes and no description.
abbrev pub Keeps : Option SessionRow → SessionRow → Type 0
Keeps none s = (s.notes ≡ none) × (s.description ≡ none)
Keeps (some old) s =
    (s.target_id ≡ old.target_id) × (s.notes ≡ old.notes) × (s.description ≡ old.description)

abbrev pub key_of : Existing → List ℕ
key_of existing = map (λ e. e.0) existing

pub find-update_session :
    (i j : ℕ) (k : Cluster) (sessions : List SessionRow)
    → find_session j (update_session i k sessions) ≡ (
        if i == j
        then elim (find_session j sessions) [ none ↦ none | some s ↦ some (refresh k s) ]
        else find_session j sessions)
unfolding update_session
find-update_session i j k [] = ground arith
find-update_session i j k (s ∷ sessions) = ground (arith, find-update_session i j k sessions)

pub find-append :
    (j : ℕ) (s : SessionRow) (sessions : List SessionRow)
    → find_session j (sessions ++ s ∷ []) ≡ elim (find_session j sessions) [
      | none ↦ if s.id == j then some s else none
      | some t ↦ some t
    ]
find-append j s [] = refl
find-append j s (t ∷ sessions) = ground (arith, find-append j s sessions)

pub find-ge_next :
    (j : ℕ) (sessions : List SessionRow)
    → next_rowid (map (λ s. s.id) sessions) ≤ j
    → find_session j sessions ≡ none
find-ge_next j [] h = refl
find-ge_next j (s ∷ sessions) h = ground (arith, find-ge_next j sessions)

pub find-keep :
    (gone : List ℕ) (j : ℕ) (sessions : List SessionRow)
    → find_session j (keep_if (λ s. not (member s.id gone)) sessions)
      ≡ (if member j gone then none else find_session j sessions)
find-keep gone j [] = ground arith
find-keep gone j (s ∷ sessions) = elim (Bool-cases (s.id == j)) [
  | inl e ↦
      let same : s.id ≡ j = (==_iff s.id j).0 e in
      elim (Bool-cases (member j gone)) [
        | inl g ↦ ground (arith, find-keep gone j sessions, g, ap (λ n. member n gone) same)
        | inr g ↦ ground (arith, find-keep gone j sessions, g, ap (λ n. member n gone) same)
      ]
  | inr e ↦ ground (arith, find-keep gone j sessions, e)
]

linked-keep_ne :
    (i j : ℕ) (links : List LinkRow)
    → frames_linked j (keep_if (λ l. not (l.session_id == i)) links)
      ≡ (if i == j then [] else frames_linked j links)
linked-keep_ne i j [] = ground arith
linked-keep_ne i j (l ∷ links) = ground (arith, linked-keep_ne i j links)

linked-append :
    (j : ℕ) (xs ys : List LinkRow)
    → frames_linked j (xs ++ ys) ≡ frames_linked j xs ++ frames_linked j ys
linked-append j [] ys = refl
linked-append j (l ∷ xs) ys = ground (arith, linked-append j xs ys)

linked-new :
    (i j : ℕ) (ids : List ℕ) (frames : List FrameRow)
    → frames_linked j (
        map
          (λ f. record { session_id = i; frame_id = f.id })
          (keep_if (λ f. member f.id ids) frames))
      ≡ (if i == j then frames_named ids frames else [])
linked-new i j ids [] = ground arith
linked-new i j ids (f ∷ frames) = ground (arith, linked-new i j ids frames)

pub linked-relink :
    (i j : ℕ) (ids : List ℕ) (db : Catalog)
    → frames_linked j (relink i ids db).session_frames
      ≡ (if i == j then frames_named ids db.frames else frames_linked j db.session_frames)
unfolding relink
linked-relink i j ids db = elim (Bool-cases (i == j)) [
  | inl e ↦ ground (
    arith,
    linked-append j (keep_if (λ l. not (l.session_id == i)) db.session_frames) (
        map (λ f. record { session_id = i; frame_id = f.id })
          (keep_if (λ f. member f.id ids) db.frames)),
    linked-keep_ne i j db.session_frames,
    linked-new i j ids db.frames,
  )
  | inr e ↦ ground (
    arith,
    linked-append j (keep_if (λ l. not (l.session_id == i)) db.session_frames) (
        map (λ f. record { session_id = i; frame_id = f.id })
          (keep_if (λ f. member f.id ids) db.frames)),
    linked-keep_ne i j db.session_frames,
    linked-new i j ids db.frames,
    append-nil (frames_linked j db.session_frames),
  )
]

pub linked-keep :
    (gone : List ℕ) (j : ℕ) (links : List LinkRow)
    → frames_linked j (keep_if (λ l. not (member l.session_id gone)) links)
      ≡ (if member j gone then [] else frames_linked j links)
linked-keep gone j [] = ground arith
linked-keep gone j (l ∷ links) = elim (Bool-cases (l.session_id == j)) [
  | inl e ↦
      let same : l.session_id ≡ j = (==_iff l.session_id j).0 e in
      elim (Bool-cases (member j gone)) [
        | inl g ↦ ground (arith, linked-keep gone j links, g, ap (λ n. member n gone) same)
        | inr g ↦ ground (arith, linked-keep gone j links, g, ap (λ n. member n gone) same)
      ]
  | inr e ↦ ground (arith, linked-keep gone j links, e)
]
