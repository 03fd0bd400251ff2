-- ===== src/Catalog/Rounds.antt =====
-- The rounds of the rebuild in server/catalog/sessions.py: what each session id reads once all clusters are
-- placed.
use astrolab.Prelude.{
  ℕ, true, false, ◌&&◌, ◌||◌, Option, none, some, List, [], ◌∷◌, map, subst, ◌==◌, ==_iff, ◌≡◌,
  refl, sym, ◌∙◌, ap, is_some, arith, Bool-cases, Option-cases, inl, inr,
}
use astrolab.Catalog.Rows.{SessionRow}
use astrolab.Catalog.Clusters.{Cluster}
use astrolab.Catalog.Sessions.{
  Existing, Rebuild, member, match_cluster_to_session, frames_linked, next_rowid, place_cluster,
  place_clusters,
}
use astrolab.Catalog.Placed.{find_session, frames_named, Shows, Keeps, key_of}
use astrolab.Catalog.Placement.{
  chosen, assigned, cluster_at, IsDistinct, is_found, is_free, IsGoing, match-member,
  find-next_rowid, frames-place, linked-place, find-place_ne, find-place_self,
}

module _ (existing : Existing) (k : Cluster) (r : Rebuild) (going : IsGoing existing r) where
  abbrev placed : Rebuild
  placed = place_cluster existing k r

  abbrev spot : ℕ
  spot = chosen existing k r

  -- A new rowid is not that of an old session.
  next-ne-key : member (next_rowid (map (λ s. s.id) r.db.sessions)) (key_of existing) ≡ false
  next-ne-key =
      let i = next_rowid (map (λ s. s.id) r.db.sessions) in
      elim (Bool-cases (member i (key_of existing))) [
        | inl e ↦ ground (arith, going.known i e, find-next_rowid r.db.sessions)
        | inr e ↦ e
      ]

  consumed-place :
      (j : ℕ)
      → member j placed.consumed
        ≡ (member j r.consumed || (spot == j && member j (key_of existing)))
  unfolding place_cluster
  consumed-place j =
      elim (Option-cases (match_cluster_to_session k.frame_ids existing r.consumed)) [
        | inl e ↦ elim (Bool-cases (spot == j)) [
          | inl f ↦
              ground (
                arith,
                e,
                f,
                next-ne-key,
                ap (λ m. member m (key_of existing)) ((==_iff spot j).0 f),
              )
          | inr f ↦ ground (arith, e, f)
        ]
        | inr (i, e) ↦ elim (Bool-cases (i == j)) [
          | inl f ↦ ground (
            arith,
            e,
            f,
            match-member k.frame_ids r.consumed existing i e,
            ap (λ m. member m (key_of existing)) ((==_iff i j).0 f),
          )
          | inr f ↦ ground (arith, e, f)
        ]
      ]

  is_found-place_ne : (j : ℕ) → (spot == j) ≡ false → is_found j placed ≡ is_found j r
  is_found-place_ne j ne = ap is_some (find-place_ne existing k r j ne)

  is_found-place_self : is_found spot placed ≡ true
  is_found-place_self = ap is_some (find-place_self existing k r going).1

  spot-IsFree : is_free existing r spot ≡ true
  spot-IsFree = elim (Option-cases (match_cluster_to_session k.frame_ids existing r.consumed)) [
    | inl e ↦
        let i = next_rowid (map (λ s. s.id) r.db.sessions) in
        let new : spot ≡ i = ground (arith, e) in
        subst (λ j. is_free existing r j ≡ true) (sym new)
          (ground (arith, find-next_rowid r.db.sessions, next-ne-key, going.taken i))
    | inr (i, e) ↦
        let old : spot ≡ i = ground (arith, e) in
        subst (λ j. is_free existing r j ≡ true) (sym old)
          (ground (arith, match-member k.frame_ids r.consumed existing i e))
  ]

  spot-ne-free : is_free existing placed spot ≡ false
  spot-ne-free = ground (arith, is_found-place_self, consumed-place spot)

  is_free-place : (j : ℕ) → (spot == j) ≡ false → is_free existing placed j ≡ is_free existing r j
  is_free-place j ne = ground (arith, ne, is_found-place_ne j ne, consumed-place j)

  place-IsGoing : IsGoing existing placed
  place-IsGoing = record {
    known = λ j h. elim (Bool-cases (spot == j)) [
      | inl e ↦ subst (λ i. is_found i placed ≡ true) ((==_iff spot j).0 e) is_found-place_self
      | inr e ↦ is_found-place_ne j e ∙ going.known j h
    ];
    taken = λ j h. ground (arith, consumed-place j, going.taken j, h);
  }

-- What one session id shows after all clusters are placed, given the cluster placed in it.
abbrev pub AtId : Existing → Rebuild → Rebuild → ℕ → Option Cluster → Type 0
AtId existing r final j none =
    (find_session j final.db.sessions ≡ find_session j r.db.sessions)
    × (frames_linked j final.db.session_frames ≡ frames_linked j r.db.session_frames)
    × (member j final.consumed ≡ member j r.consumed)
AtId existing r final j (some k) =
    ((s : SessionRow) × (find_session j final.db.sessions ≡ some s)
      × Shows k s
      × Keeps (find_session j r.db.sessions) s)
    × (frames_linked j final.db.session_frames ≡ frames_named k.frame_ids r.db.frames)
    × (is_free existing r j ≡ true)
    × (member j final.consumed ≡ (member j r.consumed || member j (key_of existing)))

module _ (existing : Existing) (k : Cluster) (r final : Rebuild) (going : IsGoing existing r) where
  AtId-place_ne :
      (j : ℕ)
      → (spot existing k r going == j) ≡ false
      → (o : Option Cluster) → AtId existing (placed existing k r going) final j o
      → AtId existing r final j o
  AtId-place_ne j ne none h = (
    h.0 ∙ find-place_ne existing k r j ne,
    h.1 ∙ (linked-place existing k r j ∙ ground (arith, ne)),
    h.2 ∙ (consumed-place existing k r going j ∙ ground (arith, ne)),
  )
  AtId-place_ne j ne (some k') h = (
    (h.0.0, h.0.1, h.0.2, subst (λ o. Keeps o h.0.0) (find-place_ne existing k r j ne) h.0.3),
    h.1 ∙ ap (frames_named k'.frame_ids) (frames-place existing k r),
    sym (is_free-place existing k r going j ne) ∙ h.2,
    h.3 ∙ ground (arith, ne, consumed-place existing k r going j),
  )

  AtId-place_self :
      (o : Option Cluster)
      → AtId existing (placed existing k r going) final (spot existing k r going) o
      → (o ≡ none) × AtId existing r final (spot existing k r going) (some k)
  AtId-place_self (some k') h = absurd (ground (arith, h.2, spot-ne-free existing k r going))
  AtId-place_self none h =
      let i = spot existing k r going in
      let at_spot = find-place_self existing k r going in
      (
        refl,
        (
          (at_spot.0, h.0 ∙ at_spot.1, at_spot.2, at_spot.3),
          h.1 ∙ (linked-place existing k r i ∙ ground arith),
          spot-IsFree existing k r going,
          h.2 ∙ (consumed-place existing k r going i ∙ ground arith),
        ),
      )

pub assigned-AtId :
    (existing : Existing) (ks : List Cluster) (r : Rebuild)
    → IsGoing existing r
    → (j : ℕ)
    → AtId existing r (place_clusters existing ks r) j (cluster_at j (assigned existing ks r))
unfolding place_clusters assigned
assigned-AtId existing [] r going j = (refl, refl, refl)
assigned-AtId existing (k ∷ ks) r going j =
    let r' = place_cluster existing k r in
    let i = chosen existing k r in
    let final = place_clusters existing ks r' in
    let later = assigned existing ks r' in
    let ih = assigned-AtId existing ks r' (place-IsGoing existing k r going) in
    elim (Bool-cases (i == j)) [
      | inl e ↦ rw e (
          subst (λ n. AtId existing r final n (some k)) ((==_iff i j).0 e)
            (AtId-place_self existing k r final going (cluster_at i later) (ih i)).1)
      | inr e ↦ rw e (AtId-place_ne existing k r final going j e (cluster_at j later) (ih j))
    ]

pub assigned-IsDistinct :
    (existing : Existing) (ks : List Cluster) (r : Rebuild)
    → IsGoing existing r
    → IsDistinct (assigned existing ks r)
unfolding assigned
assigned-IsDistinct existing [] r going = tt
assigned-IsDistinct existing (k ∷ ks) r going =
    let r' = place_cluster existing k r in
    let later = assigned existing ks r' in
    let going' = place-IsGoing existing k r going in
    let i = chosen existing k r in
    (
      (AtId-place_self existing k r (place_clusters existing ks r') going (cluster_at i later)
          (assigned-AtId existing ks r' going' i)).0,
      assigned-IsDistinct existing ks r' going',
    )

pub map-assigned :
    (existing : Existing) (ks : List Cluster) (r : Rebuild)
    → map (λ e. e.1) (assigned existing ks r) ≡ ks
unfolding assigned
map-assigned existing [] r = refl
map-assigned existing (k ∷ ks) r =
    ap (◌∷◌ k) (map-assigned existing ks (place_cluster existing k r))
