-- ===== src/Catalog/Placement.antt =====
-- The rebuild of the sessions in server/catalog/sessions.py as one assignment of session ids to clusters.
use astrolab.Prelude.{
  ℕ, Bool, true, false, not, ◌&&◌, ◌||◌, Option, none, some, List, [], ◌∷◌, ◌++◌, map, subst, ◌==◌,
  ◌≡◌, refl, sym, ap, if◌then◌else◌, is_some, arith, Bool-cases, Option-cases, inl, inr,
}
use astrolab.Catalog.Rows.{SessionRow}
use astrolab.Catalog.Clusters.{Cluster}
use astrolab.Catalog.Sessions.{
  Existing, Rebuild, member, match_cluster_to_session, frames_linked, next_rowid, target_of,
  refresh, new_session, update_session, relink, place_cluster,
}
use astrolab.Catalog.Overlap.{Attains, IsBest, match_cluster_to_session-IsBest}
use astrolab.Catalog.Placed.{
  find_session, frames_named, Shows, Keeps, key_of, find-update_session, find-append, find-ge_next,
  linked-relink,
}

-- The session that a cluster is placed in.
abbrev pub chosen : Existing → Cluster → Rebuild → ℕ
chosen existing k r = elim (match_cluster_to_session k.frame_ids existing r.consumed) [
  | some i ↦ i
  | none ↦ next_rowid (map (λ s. s.id) r.db.sessions)
]

-- The clusters with the sessions that they are placed in.
unfoldable pub assigned : Existing → List Cluster → Rebuild → List (ℕ × Cluster)
assigned existing [] r = []
assigned existing (k ∷ ks) r =
    (chosen existing k r, k) ∷ assigned existing ks (place_cluster existing k r)

abbrev pub cluster_at : ℕ → List (ℕ × Cluster) → Option Cluster
cluster_at i [] = none
cluster_at i ((j, k) ∷ placed) = if j == i then some k else cluster_at i placed

-- No session is given to two clusters.
abbrev pub IsDistinct : List (ℕ × Cluster) → Type 0
IsDistinct [] = Unit
IsDistinct ((i, k) ∷ placed) = (cluster_at i placed ≡ none) × IsDistinct placed

abbrev pub is_found : ℕ → Rebuild → Bool
is_found i r = is_some (find_session i r.db.sessions)

-- What holds in every round: the old sessions stay, and the consumed ids are theirs.
pub record IsGoing (existing : Existing) (r : Rebuild) : Type 0 where
  pub known : (i : ℕ) → member i (key_of existing) ≡ true → is_found i r ≡ true
  pub taken : (i : ℕ) → member i r.consumed ≡ true → member i (key_of existing) ≡ true

abbrev pub is_free : Existing → Rebuild → ℕ → Bool
is_free existing r i =
    not (member i r.consumed) && (not (is_found i r) || member i (key_of existing))

Attains-member :
    (cluster consumed : List ℕ) (existing : Existing) (i n : ℕ)
    → Attains cluster consumed existing i n
    → (member i (key_of existing) ≡ true) × (member i consumed ≡ false)
Attains-member cluster consumed [] i n h = elim h [ ]
Attains-member cluster consumed ((sid, ids) ∷ existing) i n (inr h) =
    ground (arith, Attains-member cluster consumed existing i n h)
Attains-member cluster consumed ((sid, ids) ∷ existing) i n (inl (e, f, more)) =
    elim (Bool-cases (member i consumed)) [
      | inl g ↦ ground (arith, e, f, more, g, ap (λ m. member m consumed) e)
      | inr g ↦ ground (arith, e, g)
    ]

pub match-member :
    (cluster consumed : List ℕ) (existing : Existing) (i : ℕ)
    → match_cluster_to_session cluster existing consumed ≡ some i
    → (member i (key_of existing) ≡ true) × (member i consumed ≡ false)
match-member cluster consumed existing i e =
    let best = match_cluster_to_session-IsBest cluster consumed existing in
    let at_i : IsBest cluster consumed existing (some i) = rw e at best in
    Attains-member cluster consumed existing i at_i.0 at_i.1

pub find-next_rowid :
    (sessions : List SessionRow)
    → find_session (next_rowid (map (λ s. s.id) sessions)) sessions ≡ none
find-next_rowid sessions =
    find-ge_next (next_rowid (map (λ s. s.id) sessions)) sessions (omega arith)

module _ (existing : Existing) (k : Cluster) (r : Rebuild) where
  abbrev pub next : Rebuild
  next = place_cluster existing k r

  abbrev pub here : ℕ
  here = chosen existing k r

  pub frames-place : next.db.frames ≡ r.db.frames
  unfolding place_cluster relink
  frames-place = ground arith

  pub linked-place :
      (j : ℕ)
      → frames_linked j next.db.session_frames ≡ (
          if here == j
          then frames_named k.frame_ids r.db.frames
          else frames_linked j r.db.session_frames)
  unfolding place_cluster
  linked-place j = elim (Option-cases (match_cluster_to_session k.frame_ids existing r.consumed)) [
    | inl e ↦
        let t = target_of k.config.object r.db.targets in
        let i = next_rowid (map (λ s. s.id) r.db.sessions) in
        ground (
          arith,
          e,
          linked-relink i j k.frame_ids
              (record r.db { targets = t.0; sessions = r.db.sessions ++ new_session i t.1 k ∷ [] }),
        )
    | inr (i, e) ↦
        let t = target_of k.config.object r.db.targets in
        ground (
          arith,
          e,
          linked-relink i j k.frame_ids
              (record r.db { targets = t.0; sessions = update_session i k r.db.sessions }),
        )
  ]

  pub find-place_ne :
      (j : ℕ) → (here == j) ≡ false → find_session j next.db.sessions ≡ find_session j r.db.sessions
  unfolding place_cluster relink
  find-place_ne j ne =
      elim (Option-cases (match_cluster_to_session k.frame_ids existing r.consumed)) [
        | inl e ↦ ground (
          arith,
          e,
          find-append j
              (new_session (next_rowid (map (λ s. s.id) r.db.sessions))
                (target_of k.config.object r.db.targets).1 k)
              r.db.sessions,
        )
        | inr (i, e) ↦ ground (arith, e, find-update_session i j k r.db.sessions)
      ]

  abbrev pub PlacedAt : ℕ → Type 0
  PlacedAt i =
      (s : SessionRow) × (find_session i next.db.sessions ≡ some s)
      × Shows k s
      × Keeps (find_session i r.db.sessions) s

  pub find-place_self : IsGoing existing r → PlacedAt here
  unfolding place_cluster relink
  find-place_self going =
      elim (Option-cases (match_cluster_to_session k.frame_ids existing r.consumed)) [
        | inl e ↦
            let i = next_rowid (map (λ s. s.id) r.db.sessions) in
            let t = (target_of k.config.object r.db.targets).1 in
            let new : here ≡ i = ground (arith, e) in
            subst PlacedAt (sym new) (
              new_session i t k,
              ground (
                arith,
                e,
                find-append i (new_session i t k) r.db.sessions,
                find-next_rowid r.db.sessions,
              ),
              ground arith,
              rw (find-next_rowid r.db.sessions) (refl, refl),
            )
        | inr (i, e) ↦
            let known = going.known i (match-member k.frame_ids r.consumed existing i e).0 in
            let old : here ≡ i = ground (arith, e) in
            elim (Option-cases (find_session i r.db.sessions)) [
              | inl f ↦ absurd (ground (arith, f, known))
              | inr (s, f) ↦ subst PlacedAt (sym old) (
                refresh k s,
                ground (arith, e, f, find-update_session i i k r.db.sessions),
                ground arith,
                rw f (refl, refl, refl),
              )
            ]
      ]
