-- ===== src/Canonical/Tests.antt =====
-- Runs of the model of server/canonical.py, and its theorems at values of which the floats are numbers
-- of thousandths.
use Prim.Native.String.{◌++◌ as ◌+s◌}
use mathlib.Core.List.{Permᴰ}
use astrolab.Prelude.{
  ℕ, ◌*◌, ◌/◌, String, false, none, some, [], ◌∷◌, ◌≡◌, refl, if◌then◌else◌, str_eq, eq_iff, subst,
  Bool-cases, inl, inr, ◌==◌, arith,
}
use astrolab.Prelude.Int.{ℤ, pos, negsuc}
use astrolab.Dict.{Dict, get}
use astrolab.Models.{Ref, Input, one, many, image_fits}
use astrolab.Canonical.Values.{
  float, text, object, Fields, no_field, field, Floats, canonical_value,
}
use astrolab.Canonical.Stable.{IsRounding, canonical_value_again, swapped}
use astrolab.Canonical.Print.{Printer, decimal}
use astrolab.Canonical.Key.{node_hash}
use astrolab.Canonical.Alike.{IsAlike, node_hash-same}

-- Every number below a thousand is rounded down to hundreds at a precision of 1, and kept at another.
abbrev rounded : ℕ → ℤ → ℕ
rounded n (pos p) = if p == 1 then n / 100 * 100 else n
rounded n (negsuc p) = n

abbrev floats : Floats ℕ
floats = record {
  nan = 7777;
  zero = 0;
  is_nan = λ n. n == 7777;
  is_zero = λ n. n == 0;
  round = rounded;
}

floats-IsRounding : IsRounding floats
floats-IsRounding = record {
  nan_is_nan = refl;
  zero_is_number = refl;
  zero_is_zero = refl;
  round-zero = λ p. rounded-zero p;
  round_is_number = λ v p h. rounded_is_number v p h;
  round_again = λ v p. rounded_again v p;
}
  where
    rounded-zero : (p : ℤ) → rounded 0 p ≡ 0
    rounded-zero (pos p) = ground arith
    rounded-zero (negsuc p) = refl

    rounded_is_number : (v : ℕ) (p : ℤ) → (v == 7777) ≡ false → (rounded v p == 7777) ≡ false
    rounded_is_number v (pos p) h = ground (arith, h)
    rounded_is_number v (negsuc p) h = h

    rounded_again : (v : ℕ) (p : ℤ) → rounded (rounded v p) p ≡ rounded v p
    rounded_again v (pos p) = ground arith
    rounded_again v (negsuc p) = refl

-- The precision of "sigma" holds inside the value of another field too.
nested :
    canonical_value floats (("sigma", pos 1) ∷ []) none (
      object (
        field "outer"
          (object (field "sigma" (float 456) no_field))
          (field "a" (float 456) no_field)))
    ≡ object (
        field "a"
          (float 456)
          (field "outer" (object (field "sigma" (float 400) no_field)) no_field))
unfolding canonical_value
nested = refl

canonical_value_again_example :
    canonical_value floats
      (("sigma", pos 1) ∷ [])
      (some "sigma")
      (canonical_value floats (("sigma", pos 1) ∷ []) (some "sigma") (float 456))
    ≡ canonical_value floats (("sigma", pos 1) ∷ []) (some "sigma") (float 456)
canonical_value_again_example =
    canonical_value_again floats (("sigma", pos 1) ∷ []) floats-IsRounding (some "sigma")
      (float 456)

prints : decimal 1203 ≡ "1203"
unfolding decimal
prints = refl

abbrev printer : Printer ℕ
printer = record {
  quote = λ s. "'" +s s +s "'";
  repr = λ n. if n == 7777 then none else some (decimal n);
}

abbrev ref : (hash path : String) → Ref
ref hash path = record {
  display_ready = false;
  node_hash = hash;
  port = "out";
  path = path;
  type = image_fits;
}

abbrev darks : Dict Input
darks =
    ("lights", one (ref "a1" "/home/a1/out"))
    ∷ ("darks", many (ref "ext" "/d/2" ∷ ref "ext" "/d/1" ∷ []))
    ∷ []

abbrev moved : Dict Input
moved =
    ("darks", many (ref "ext" "/d/1" ∷ ref "ext" "/d/2" ∷ []))
    ∷ ("lights", one (ref "a1" "/mnt/a1/out"))
    ∷ []

abbrev params : Fields ℕ
params = field "sigma" (float 456) (field "mode" (text "fast") no_field)

abbrev reordered : Fields ℕ
reordered = field "mode" (text "fast") (field "sigma" (float 456) no_field)

hashes :
    node_hash printer floats (λ s. s) "stack" 12 darks params [] (("siril", "1.4") ∷ [])
    ≡ node_hash printer floats (λ s. s) "stack" 12 moved reordered [] (("siril", "1.4") ∷ [])
unfolding node_hash
hashes = refl

refuses :
    node_hash printer floats (λ s. s) "stack" 12 [] (field "sigma" (float 7777) no_field) [] []
    ≡ none
unfolding node_hash
refuses = refl

-- Texts that differ from both ports are no keys.
IsAlike-lookup : (port : String) → IsAlike (get port darks) (get port moved)
unfolding get
IsAlike-lookup port = elim (Bool-cases (str_eq "lights" port)) [
  | inl e ↦ subst (λ p. IsAlike (get p darks) (get p moved)) ((eq_iff "lights" port).0 e) refl
  | inr e ↦ elim (Bool-cases (str_eq "darks" port)) [
    | inl f ↦
        subst (λ p. IsAlike (get p darks) (get p moved)) ((eq_iff "darks" port).0 f)
          (Permᴰ.swap refl refl)
    | inr f ↦
        let left : none ≡ get port darks = ground (arith, e, f) in
        let right : none ≡ get port moved = ground (arith, e, f) in
        subst (λ a. IsAlike a (get port moved)) left right
  ]
]

node_hash-same_example :
    node_hash printer floats (λ s. s) "stack" 12 darks params [] (("siril", "1.4") ∷ [])
    ≡ node_hash printer floats (λ s. s) "stack" 12 moved reordered [] (("siril", "1.4") ∷ [])
node_hash-same_example =
    node_hash-same printer floats (λ s. s) "stack" 12 darks moved params reordered []
      (("siril", "1.4") ∷ []) (("siril", "1.4") ∷ []) (Permᴰ.swap refl refl, IsAlike-lookup)
      (swapped "sigma" "mode" (float 456) (text "fast") no_field
        (ground (arith, eq_iff "sigma" "mode")))
      (Permᴰ.cons refl Permᴰ.nil, λ k. refl)
