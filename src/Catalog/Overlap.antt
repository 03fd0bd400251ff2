-- ===== src/Catalog/Overlap.antt =====
-- The choice of `_match_cluster_to_session` of server/catalog/sessions.py.
use astrolab.Prelude.{
  ℕ, ◌≤◌, ◌<◌, Option, none, some, List, [], ◌∷◌, if◌then◌else◌, ◌≡◌, refl, arith, Bool-cases, inl,
  inr, ◌⊎◌, ltb, All, ◌∙◌,
}
use astrolab.Catalog.Sessions.{Existing, Best, overlap, member, best_of, match_cluster_to_session}

-- The overlap of a session that no cluster has taken, 0 for one that is taken.
abbrev pub free_overlap : List ℕ → List ℕ → ℕ → List ℕ → ℕ
free_overlap cluster consumed sid ids = if member sid consumed then 0 else overlap cluster ids

-- No session of the list has more free overlap.
abbrev pub IsMost : List ℕ → List ℕ → Existing → ℕ → Type 0
IsMost cluster consumed existing n = All (λ e. free_overlap cluster consumed e.0 e.1 ≤ n) existing

-- A session of the list has this id and this free overlap, which is not 0.
abbrev pub Attains : List ℕ → List ℕ → Existing → ℕ → ℕ → Type 0
Attains cluster consumed [] i n = ⊥
Attains cluster consumed ((sid, ids) ∷ existing) i n =
    ((sid ≡ i) × (free_overlap cluster consumed sid ids ≡ n) × (0 < n))
    ⊎ Attains cluster consumed existing i n

-- What the choice says: no session with any free overlap, or one with the most.
abbrev pub IsBest : List ℕ → List ℕ → Existing → Option ℕ → Type 0
IsBest cluster consumed existing none = IsMost cluster consumed existing 0
IsBest cluster consumed existing (some i) =
    (n : ℕ) × Attains cluster consumed existing i n × IsMost cluster consumed existing n

module _ (cluster consumed : List ℕ) where
  abbrev step : ℕ → List ℕ → Best → Best
  step sid ids b =
      if member sid consumed
      then b
      else if ltb b.best_overlap (overlap cluster ids)
      then record { best_id = some sid; best_overlap = overlap cluster ids }
      else b

  -- What the loop leaves: the start or a session of the list.
  abbrev FromList : Existing → Best → Best → Type 0
  FromList existing b r =
      (r ≡ b)
      ⊎ ((i : ℕ) × (r.best_id ≡ some i) × Attains cluster consumed existing i r.best_overlap)

  step-le :
      (sid : ℕ) (ids : List ℕ) (b : Best)
      → (b.best_overlap ≤ (step sid ids b).best_overlap)
        × (free_overlap cluster consumed sid ids ≤ (step sid ids b).best_overlap)
  step-le sid ids b = ground arith

  step-from :
      (sid : ℕ) (ids : List ℕ) (b : Best)
      → (step sid ids b ≡ b)
        ⊎ ((step sid ids b).best_id ≡ some sid)
          × (free_overlap cluster consumed sid ids ≡ (step sid ids b).best_overlap)
          × (0 < (step sid ids b).best_overlap)
  step-from sid ids b = elim (Bool-cases (member sid consumed)) [
    | inl e ↦ inl (rw e refl)
    | inr e ↦ elim (Bool-cases (ltb b.best_overlap (overlap cluster ids))) [
      | inl f ↦ inr (ground (arith, e, f), ground (arith, e, f), ground (arith, e, f))
      | inr f ↦ inl (ground (arith, e, f))
    ]
  ]

  IsMost-le :
      (existing : Existing) (m n : ℕ)
      → m ≤ n
      → IsMost cluster consumed existing m
      → IsMost cluster consumed existing n
  IsMost-le [] m n h most = tt
  IsMost-le ((sid, ids) ∷ existing) m n h most =
      (omega (arith, most.0), IsMost-le existing m n h most.1)

  best_of-le :
      (existing : Existing) (b : Best)
      → b.best_overlap ≤ (best_of cluster existing consumed b).best_overlap
  unfolding best_of
  best_of-le [] b = omega arith
  best_of-le ((sid, ids) ∷ existing) b =
      omega (arith, (step-le sid ids b).0, best_of-le existing (step sid ids b))

  best_of-IsMost :
      (existing : Existing) (b : Best)
      → IsMost cluster consumed existing (best_of cluster existing consumed b).best_overlap
  unfolding best_of
  best_of-IsMost [] b = tt
  best_of-IsMost ((sid, ids) ∷ existing) b = (
    omega (arith, (step-le sid ids b).1, best_of-le existing (step sid ids b)),
    best_of-IsMost existing (step sid ids b),
  )

  from_step :
      (sid : ℕ) (ids : List ℕ) (existing : Existing) (b r : Best)
      → FromList existing (step sid ids b) r
      → FromList ((sid, ids) ∷ existing) b r
  from_step sid ids existing b r (inr (i, e, a)) = inr (i, e, inr a)
  from_step sid ids existing b r (inl e) = elim (step-from sid ids b) [
    | inl same ↦ inl (e ∙ same)
    | inr (chosen, most, more) ↦ inr (sid, rw e chosen, inl (refl, rw e most, rw e more))
  ]

  best_of-FromList :
      (existing : Existing) (b : Best) → FromList existing b (best_of cluster existing consumed b)
  unfolding best_of
  best_of-FromList [] b = inl refl
  best_of-FromList ((sid, ids) ∷ existing) b =
      from_step sid ids existing b _ (best_of-FromList existing (step sid ids b))

  IsBest-of :
      (existing : Existing) (b r : Best)
      → b.best_id ≡ none
      → b.best_overlap ≡ 0
      → FromList existing b r
      → IsMost cluster consumed existing r.best_overlap
      → IsBest cluster consumed existing r.best_id
  IsBest-of existing b r new zero_start (inl e) most =
      rw (e, new) (IsMost-le existing r.best_overlap 0 (rw (e, zero_start) (omega arith)) most)
  IsBest-of existing b r new zero_start (inr (i, e, a)) most = rw e (r.best_overlap, a, most)

  -- The choice for a cluster is a session that no cluster has taken, shares a frame with it, and
  -- shares no fewer than any other that is not taken; it is None only where no such session shares
  -- a frame.
  pub match_cluster_to_session-IsBest :
      (existing : Existing)
      → IsBest cluster consumed existing (match_cluster_to_session cluster existing consumed)
  unfolding match_cluster_to_session
  match_cluster_to_session-IsBest existing =
      let b : Best = record { best_id = none; best_overlap = 0 } in
      IsBest-of existing b (best_of cluster existing consumed b) refl refl
        (best_of-FromList existing b) (best_of-IsMost existing b)
