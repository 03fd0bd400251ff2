-- ===== src/Catalog/Picks.antt =====
-- The dark that `_match_dark` of server/catalog/matching.py chooses, against its rivals.
use astrolab.Prelude.{
  ℕ, String, Bool, true, false, none, some, List, [], ◌∷◌, ◌≡◌, refl, ◌↔◌, ◌⊎◌, inl, inr, keep_if,
  leb, arith, Bool-cases, All, subst, sym, ap, ◌∙◌,
}
use astrolab.Prelude.Int.{ℤ, pos, int_eq, int_eq_iff}
use astrolab.Catalog.Rows.{MasterRow, SessionRow, exact, absent}
use astrolab.Catalog.Masters.{fits_dark, pick, closer, distance, temp_delta, dark_temp_tolerance}
use astrolab.Catalog.Matchers.{
  Match, dark_of, dark_in_tolerance, in_tolerance, match_dark, setup_of, quality_of,
}

module _ {A : Type 0} where
  abbrev pub IsIn : A → List A → Type 0
  IsIn a [] = ⊥
  IsIn a (x ∷ xs) = (x ≡ a) ⊎ IsIn a xs

  -- Nothing beats what nothing of the first two beats.
  abbrev pub IsOrder : (A → A → Bool) → Type 0
  IsOrder better =
      ((a b : A) → better a b ≡ true → better b a ≡ false)
      × ((a b c : A) → better a b ≡ false → better b c ≡ false → better a c ≡ false)

  pick_left :
      (better : A → A → Bool) (x y : A) (ys : List A)
      → better y x ≡ false
      → pick better x (y ∷ ys) ≡ pick better x ys
  unfolding pick
  pick_left better x y ys e = ground (arith, e)

  pick_right :
      (better : A → A → Bool) (x y : A) (ys : List A)
      → better y x ≡ true
      → pick better x (y ∷ ys) ≡ pick better y ys
  unfolding pick
  pick_right better x y ys e = ground (arith, e)

  pub pick-IsIn : (better : A → A → Bool) (x : A) (xs : List A) → IsIn (pick better x xs) (x ∷ xs)
  unfolding pick
  pick-IsIn better x [] = inl refl
  pick-IsIn better x (y ∷ ys) = elim (Bool-cases (better y x)) [
    | inl e ↦
        subst (λ m. IsIn m (x ∷ y ∷ ys)) (sym (pick_right better x y ys e))
          (inr (pick-IsIn better y ys))
    | inr e ↦
        subst (λ m. IsIn m (x ∷ y ∷ ys)) (sym (pick_left better x y ys e))
          (elim (pick-IsIn better x ys) [ inl f ↦ inl f | inr m ↦ inr (inr m) ])
  ]

  pub pick-unbeaten :
      (better : A → A → Bool)
      → IsOrder better
      → (x : A) (xs : List A) → All (λ y. better y (pick better x xs) ≡ false) (x ∷ xs)
  unfolding pick
  pick-unbeaten better o x [] =
      (elim (Bool-cases (better x x)) [ inl e ↦ o.0 x x e | inr e ↦ e ], tt)
  pick-unbeaten better o x (y ∷ ys) = elim (Bool-cases (better y x)) [
    | inl e ↦
        let ih = pick-unbeaten better o y ys in
        subst (λ m. All (λ z. better z m ≡ false) (x ∷ y ∷ ys)) (sym (pick_right better x y ys e))
          (o.1 x y (pick better y ys) (o.0 y x e) ih.0, ih)
    | inr e ↦
        let ih = pick-unbeaten better o x ys in
        subst (λ m. All (λ z. better z m ≡ false) (x ∷ y ∷ ys)) (sym (pick_left better x y ys e))
          (ih.0, (o.1 y x (pick better x ys) e ih.0, ih.1))
  ]

  keep-in :
      (p : A → Bool) (x : A) (xs : List A) → p x ≡ true → keep_if p (x ∷ xs) ≡ x ∷ keep_if p xs
  keep-in p x xs e = ground (arith, e)

  keep-out : (p : A → Bool) (x : A) (xs : List A) → p x ≡ false → keep_if p (x ∷ xs) ≡ keep_if p xs
  keep-out p x xs e = ground (arith, e)

  pub keep_if-IsIn :
      (p : A → Bool) (a : A) (xs : List A) → IsIn a (keep_if p xs) → IsIn a xs × (p a ≡ true)
  keep_if-IsIn p a [] h = elim h [ ]
  keep_if-IsIn p a (x ∷ xs) h = elim (Bool-cases (p x)) [
    | inl e ↦ elim (subst (IsIn a) (keep-in p x xs e) h) [
      | inl f ↦ (inl f, ap p (sym f) ∙ e)
      | inr m ↦ let r = keep_if-IsIn p a xs m in (inr r.0, r.1)
    ]
    | inr e ↦ let r = keep_if-IsIn p a xs (subst (IsIn a) (keep-out p x xs e) h) in (inr r.0, r.1)
  ]

  -- What holds of the kept ones holds of all to which the test applies.
  pub All-keep_if :
      (P : A → Type 0) (p : A → Bool) (xs : List A)
      → All P (keep_if p xs)
      → All (λ x. p x ≡ true → P x) xs
  All-keep_if P p [] h = tt
  All-keep_if P p (x ∷ xs) h = elim (Bool-cases (p x)) [
    | inl e ↦
        let both = subst (All P) (keep-in p x xs e) h in (λ _. both.0, All-keep_if P p xs both.1)
    | inr e ↦ (
      λ t. absurd (ground (arith, e, t)),
      All-keep_if P p xs (subst (All P) (keep-out p x xs e) h),
    )
  ]

  -- Where nothing is kept, no member passes.
  pub none_kept : (p : A → Bool) (xs : List A) → keep_if p xs ≡ [] → All (λ x. p x ≡ false) xs
  none_kept p [] e = tt
  none_kept p (x ∷ xs) e = elim (Bool-cases (p x)) [
    | inl t ↦ absurd (ground (arith, e, t))
    | inr t ↦ (t, none_kept p xs (ground (arith, e, t)))
  ]

abbrev pub is_near : ℕ → ℤ → MasterRow → Bool
is_near tolerance temp m = leb (distance temp m) tolerance

pub closer-IsOrder : (temp : ℤ) → IsOrder (closer temp)
closer-IsOrder temp = (λ a b h. ground arith, λ a b c h k. ground arith)

-- No master within the tolerance; or one, which no other such master is closer than or, in the same
-- two degrees, deeper than, and it is exact if and only if the temperatures are the same.
abbrev pub IsDark : ℤ → List MasterRow → Match → Type 0
IsDark temp ms r =
    ((r.master_id ≡ none)
      × (r.quality ≡ absent)
      × All (λ m. is_near dark_temp_tolerance temp m ≡ false) ms)
    ⊎ ((m : MasterRow) × (r.master_id ≡ some m.id)
        × IsIn m ms
        × (is_near dark_temp_tolerance temp m ≡ true)
        × All (λ n. is_near dark_temp_tolerance temp n ≡ true → closer temp n m ≡ false) ms
        × ((r.quality ≡ exact) ↔ (temp_delta temp m ≡ pos 0)))

quality_of_iff : (d : ℤ) → (quality_of d ≡ exact) ↔ (d ≡ pos 0)
quality_of_iff d = elim (Bool-cases (int_eq d (pos 0))) [
  | inl e ↦ (λ _. (int_eq_iff d (pos 0)).0 e, λ _. ground (arith, e))
  | inr e ↦ (λ q. absurd (ground (arith, e, q)), λ z. ground (arith, e, int_eq_iff d (pos 0), z))
]

dark_in_tolerance-IsDark :
    (temp : ℤ) (ms near : List MasterRow)
    → near ≡ in_tolerance dark_temp_tolerance temp ms
    → IsDark temp ms (dark_in_tolerance temp near)
unfolding dark_in_tolerance
dark_in_tolerance-IsDark temp ms [] e =
    inl (refl, refl, none_kept (is_near dark_temp_tolerance temp) ms (sym e))
dark_in_tolerance-IsDark temp ms (n ∷ ns) e =
    let m = pick (closer temp) n ns in
    let kept =
      keep_if-IsIn (is_near dark_temp_tolerance temp) m ms
        (subst (IsIn m) e (pick-IsIn (closer temp) n ns)) in
    inr (
      m,
      refl,
      kept.0,
      kept.1,
      All-keep_if (λ k. closer temp k m ≡ false) (is_near dark_temp_tolerance temp) ms
          (subst (All (λ k. closer temp k m ≡ false)) e
            (pick-unbeaten (closer temp) (closer-IsOrder temp) n ns)),
      quality_of_iff (temp_delta temp m),
    )

dark_of-IsDark : (temp : ℤ) (ms : List MasterRow) → IsDark temp ms (dark_of (some temp) ms)
unfolding dark_of
dark_of-IsDark temp [] = inl (refl, refl, tt)
dark_of-IsDark temp (m ∷ ms) = dark_in_tolerance-IsDark temp (m ∷ ms) _ refl

-- For a session with an instrument, an exposure time and a temperature, the dark found is a master
-- that fits the session and is within five degrees, none of these is in a lower bin of two degrees of
-- difference nor a deeper stack in the same bin, and it is exact if and only if its temperature is
-- the session's; nothing is found only where no fitting dark is within five degrees.
pub match_dark-IsDark :
    (masters : List MasterRow) (s : SessionRow) (instrument : String) (exptime : ℕ) (temp : ℤ)
    → s.instrument ≡ some instrument
    → s.exptime ≡ some exptime
    → IsDark temp
        (keep_if (fits_dark (setup_of s instrument exptime)) masters)
        (match_dark masters s (some temp))
unfolding match_dark dark_of
match_dark-IsDark masters s instrument exptime temp e f =
    let ms = keep_if (fits_dark (setup_of s instrument exptime)) masters in
    rw (e, match_dark) (rw (f, match_dark) (dark_of-IsDark temp ms))
