-- ===== src/Catalog/Thermal.antt =====
-- The temperatures of the bundle matcher of server/catalog/matching.py: where the centre of a bin lies, and
-- which dark a bin gets.
use astrolab.Prelude.{
  ℕ, ◌+◌, ◌≤◌, String, true, false, none, some, List, [], ◌∷◌, ◌≡◌, refl, sym, subst, ◌∙◌, ◌⊎◌, inl,
  inr, keep_if, arith, All,
}
use astrolab.Prelude.Int.{ℤ, pos, negsuc, pos_part, neg_part}
use astrolab.Catalog.Rows.{MasterRow}
use astrolab.Catalog.Masters.{pick, fits_dark, closer, temp_delta}
use astrolab.Catalog.Matchers.{in_tolerance}
use astrolab.Catalog.Bundles.{bin_center, BinKey, Bucket}
use astrolab.Catalog.Bins.{
  BinChoice, bin_width, nearer, choose_near, choose_dark, setup_of_bin, best_dark_for_bin,
}
use astrolab.Catalog.Picks.{
  IsIn, IsOrder, pick-IsIn, pick-unbeaten, keep_if-IsIn, All-keep_if, none_kept, is_near,
  closer-IsOrder,
}

-- a + n ≤ b
abbrev pub IsAbove : ℕ → ℤ → ℤ → Type 0
IsAbove n a b = pos_part a + neg_part b + n ≤ pos_part b + neg_part a

-- The centre is within half a width of a temperature.
abbrev pub IsCentred : ℤ → ℤ → Type 0
IsCentred t c =
    (pos_part t + neg_part c ≤ pos_part c + neg_part t + 1000)
    × (pos_part c + neg_part t ≤ pos_part t + neg_part c + 1000)

-- A temperature of 0 or more is within one degree, half a width, of the centre of its bin; a
-- temperature below 0 is at least one degree below the centre of its bin, and less than three.
pub bin_center-IsCentred :
    ((n : ℕ) → IsCentred (pos n) (bin_center bin_width (pos n)))
    × ((n : ℕ)
        → IsAbove 1000 (negsuc n) (bin_center bin_width (negsuc n))
          × ¬ IsAbove 3000 (negsuc n) (bin_center bin_width (negsuc n)))
unfolding bin_center
bin_center-IsCentred = (λ n. ground arith, λ n. (ground arith, λ h. ground arith))

nearer-IsOrder : (temp : ℤ) → IsOrder (nearer temp)
nearer-IsOrder temp = (λ a b h. ground arith, λ a b c h k. ground arith)

-- What a choice says of the master that it is.
abbrev Tells : ℤ → MasterRow → BinChoice → Type 0
Tells temp m c = (c.id ≡ m.id) × (c.path ≡ m.path) × (c.delta ≡ some (temp_delta temp m))

-- One of the candidates: within the tolerance, and none within it is closer; or a fallback where none
-- is within it, and none is nearer.
abbrev pub IsBinDark : ℕ → ℤ → List MasterRow → BinChoice → Type 0
IsBinDark tolerance temp ms c =
    (m : MasterRow) × IsIn m ms
    × Tells temp m c
    × (((c.fallback ≡ false)
          × (is_near tolerance temp m ≡ true)
          × All (λ n. is_near tolerance temp n ≡ true → closer temp n m ≡ false) ms)
        ⊎ ((c.fallback ≡ true)
            × All (λ n. is_near tolerance temp n ≡ false) ms
            × All (λ n. nearer temp n m ≡ false) ms))

choose_near-IsBinDark :
    (tolerance : ℕ) (temp : ℤ) (near : List MasterRow) (m : MasterRow) (ms : List MasterRow)
    → near ≡ in_tolerance tolerance temp (m ∷ ms)
    → IsBinDark tolerance temp (m ∷ ms) (choose_near temp near m ms)
unfolding choose_near
choose_near-IsBinDark tolerance temp [] m ms e = (
  pick (nearer temp) m ms,
  pick-IsIn (nearer temp) m ms,
  (refl, refl, refl),
  inr (
    refl,
    none_kept (is_near tolerance temp) (m ∷ ms) (sym e),
    pick-unbeaten (nearer temp) (nearer-IsOrder temp) m ms,
  ),
)
choose_near-IsBinDark tolerance temp (n ∷ ns) m ms e =
    let best = pick (closer temp) n ns in
    let kept =
      keep_if-IsIn (is_near tolerance temp) best (m ∷ ms)
        (subst (IsIn best) e (pick-IsIn (closer temp) n ns)) in
    (
      best,
      kept.0,
      (refl, refl, refl),
      inl (
        refl,
        kept.1,
        All-keep_if (λ k. closer temp k best ≡ false) (is_near tolerance temp) (m ∷ ms)
            (subst (All (λ k. closer temp k best ≡ false)) e
              (pick-unbeaten (closer temp) (closer-IsOrder temp) n ns)),
      ),
    )

choose_dark-IsBinDark :
    (tolerance : ℕ) (temp : ℤ) (ms : List MasterRow)
    → ((ms ≡ []) × (choose_dark tolerance (some temp) ms ≡ none))
      ⊎ ((c : BinChoice) × (choose_dark tolerance (some temp) ms ≡ some c)
          × IsBinDark tolerance temp ms c)
unfolding choose_dark
choose_dark-IsBinDark tolerance temp [] = inl (refl, refl)
choose_dark-IsBinDark tolerance temp (m ∷ ms) =
    let near = in_tolerance tolerance temp (m ∷ ms) in
    inr (choose_near temp near m ms, refl, choose_near-IsBinDark tolerance temp near m ms refl)

-- A bin with an instrument and a temperature gets no dark only where no master fits it. Otherwise it
-- gets one that fits: within the tolerance, and no other within it is in a lower bin of difference
-- nor deeper in the same one; or, exactly where none is within the tolerance, a nearest one, as a
-- fallback.
pub best_dark_for_bin-IsBinDark :
    (tolerance : ℕ) (masters : List MasterRow) (k : BinKey) (b : Bucket) (i : String) (temp : ℤ)
    → b.instrument ≡ some i
    → k.temp_bin ≡ some temp
    → let ms = keep_if (fits_dark (setup_of_bin k b i)) masters in
      ((ms ≡ []) × (best_dark_for_bin tolerance masters k b ≡ none))
      ⊎ ((c : BinChoice) × (best_dark_for_bin tolerance masters k b ≡ some c)
          × IsBinDark tolerance temp ms c)
unfolding best_dark_for_bin
best_dark_for_bin-IsBinDark tolerance masters k b i temp e f =
    let ms = keep_if (fits_dark (setup_of_bin k b i)) masters in
    let run : best_dark_for_bin tolerance masters k b ≡ choose_dark tolerance (some temp) ms =
      ground (arith, e, f) in
    elim (choose_dark-IsBinDark tolerance temp ms) [
      | inl (gone, r) ↦ inl (gone, run ∙ r)
      | inr (c, r, best) ↦ inr (c, run ∙ r, best)
    ]
