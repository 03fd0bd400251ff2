-- ===== src/Canonical/Texts.antt =====
-- The order in which Python's `sorted` puts texts: by their characters' code points.
use Prim.Native.Nat.{Ordering, compare as compare_ℕ}
use Prim.Native.Char.{code}
use Prim.Native.String.compare
use Prim.Native.String.{[], ◌∷◌, compare}
use text.Mathlib.TextEquality.{path_by_compare}
use astrolab.Prelude.{ℕ, String, Bool, true, false, ◌≡◌, arith}

-- `a <= b`
unfoldable pub str_leb : String → String → Bool
str_leb a b = elim (compare a b) [ Ordering.gt ↦ false | _ ↦ true ]

abbrev at_most : Ordering → Bool
at_most Ordering.gt = false
at_most o = true

abbrev flipped : Ordering → Ordering
flipped Ordering.lt = Ordering.gt
flipped Ordering.eq = Ordering.eq
flipped Ordering.gt = Ordering.lt

flipped-compare_ℕ : (m n : ℕ) → flipped (compare_ℕ m n) ≡ compare_ℕ n m
flipped-compare_ℕ m n = ground arith

flipped-compare : (s t : String) → flipped (compare s t) ≡ compare t s
flipped-compare [] [] = ground arith
flipped-compare [] (d ∷ t) = ground (arith, compare.nil-cons d t, compare.cons-nil d t)
flipped-compare (c ∷ s) [] = ground (arith, compare.nil-cons c s, compare.cons-nil c s)
flipped-compare (c ∷ s) (d ∷ t) = ground (
  arith,
  compare.cons-cons c d s t,
  compare.cons-cons d c t s,
  flipped-compare s t,
  flipped-compare_ℕ (code c) (code d),
)

pub str_leb_total : (s t : String) → str_leb s t ≡ false → str_leb t s ≡ true
unfolding str_leb
str_leb_total s t h = ground (arith, h, flipped-compare s t)

pub str_leb_antisym : (s t : String) → str_leb s t ≡ true → str_leb t s ≡ true → s ≡ t
unfolding str_leb
str_leb_antisym s t h k = path_by_compare s t (ground (arith, h, k, flipped-compare s t))

pub str_leb_trans : (s t u : String) → str_leb s t ≡ true → str_leb t u ≡ true → str_leb s u ≡ true
unfolding str_leb
str_leb_trans [] [] u h k = k
str_leb_trans [] (d ∷ t) [] h k = ground arith
str_leb_trans [] (d ∷ t) (e ∷ u) h k = ground (arith, compare.nil-cons e u)
str_leb_trans (c ∷ s) [] u h k = absurd (ground (arith, h, compare.cons-nil c s))
str_leb_trans (c ∷ s) (d ∷ t) [] h k = absurd (ground (arith, k, compare.cons-nil d t))
str_leb_trans (c ∷ s) (d ∷ t) (e ∷ u) h k = ground (
  arith,
  h,
  k,
  compare.cons-cons c d s t,
  compare.cons-cons d e t u,
  compare.cons-cons c e s u,
  str_leb_trans s t u,
)
