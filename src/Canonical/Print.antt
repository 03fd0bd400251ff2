-- ===== src/Canonical/Print.antt =====
-- `_field_precisions` and `canonical_json` of server/canonical.py, with Python's `str` of an integer. What
-- the `json` module writes for a text and for a float are parameters.
use Prim.Native.Nat.{◌%◌}
use Prim.Native.String.{◌++◌ as ◌+s◌, slice}
use mathlib.Core.Option
use astrolab.Prelude.{
  ℕ, zero, suc, ◌/◌, ◌<◌, ◌≡◌, String, Option, none, some, List, [], ◌∷◌, if◌then◌else◌, ltb, arith,
}
use astrolab.Prelude.Int.{ℤ, pos, negsuc}
use astrolab.Dict.{Dict, get, set}
use astrolab.Canonical.Values.{
  Json, null, boolean, integer, float, text, array, object, Items, no_item, item, Fields, no_field,
  field, Floats, canonical_value, canonical_fields,
}

abbrev digit : ℕ → String
digit n = slice "0123456789" n (suc n)

-- The digits before `end`, on fuel.
unfoldable pub digits : (fuel : ℕ) → ℕ → (end : String) → String
digits zero n end = end
digits (suc fuel) n end =
    let more = digits fuel (n / 10) (digit (n % 10) +s end) in
    if ltb n 10 then digit n +s end else more

unfoldable pub decimal : ℕ → String
unfolding digits
decimal n = digits (suc n) n ""

-- More fuel than the number gives the same digits.
digits-enough : (f g n : ℕ) (end : String) → n < f → n < g → digits f n end ≡ digits g n end
unfolding digits
digits-enough zero g n end h k = absurd (omega (arith, h))
digits-enough (suc f) zero n end h k = absurd (omega (arith, k))
digits-enough (suc f) (suc g) n end h k =
    ground (arith, digits-enough f g (n / 10) (digit (n % 10) +s end))

unfoldable pub str_int : ℤ → String
unfolding decimal
str_int (pos n) = decimal n
str_int (negsuc n) = "-" +s decimal (suc n)

-- `repr` has none for NaN and the infinities, which `allow_nan=False` refuses.
pub record Printer (F : Type 0) : Type 0 where
  pub quote : String → String
  pub repr : F → Option String

-- Of each field of a params model its `json_schema_extra`, where that is a dict.
abbrev pub ParamsModel : Type 0 → Type 0
ParamsModel F = Dict (Option (Dict (Json F)))

-- `sep.join(…)`
abbrev pub join : (sep : String) → List String → String
join sep [] = ""
join sep (x ∷ []) = x
join sep (x ∷ y ∷ xs) = x +s sep +s join sep (y ∷ xs)

module _ {F : Type 0} where
  -- `isinstance(…, int)`, which a bool is too.
  abbrev as_int : Option (Json F) → Option ℤ
  as_int (some (integer n)) = some n
  as_int (some (boolean b)) = some (if b then pos 1 else pos 0)
  as_int _ = none

  abbrev precision_in : Option (Dict (Json F)) → Option ℤ
  precision_in none = none
  precision_in (some extra) = as_int (get "hash_precision" extra)

  unfoldable pub field_precisions : ParamsModel F → Dict ℤ → Dict ℤ
  unfolding get set
  field_precisions [] out = out
  field_precisions ((name, extra) ∷ rest) out = elim (precision_in extra) [
    | none ↦ field_precisions rest out
    | some p ↦ field_precisions rest (set name p out)
  ]

  module _ (pr : Printer F) where
    abbrev enclosed : (left right : String) → Option (List String) → Option String
    enclosed left right none = none
    enclosed left right (some xs) = some (left +s join "," xs +s right)

    abbrev prepend : Option String → Option (List String) → Option (List String)
    prepend (some t) (some ts) = some (t ∷ ts)
    prepend _ _ = none

    -- `json.dumps` with the separators "," and ":".
    unfoldable mutual
      unfolding str_int

      pub dumps : Json F → Option String
      dumps null = some "null"
      dumps (boolean b) = some (if b then "true" else "false")
      dumps (integer n) = some (str_int n)
      dumps (float v) = pr.repr v
      dumps (text s) = some (pr.quote s)
      dumps (array xs) = enclosed "[" "]" (dump_items xs)
      dumps (object fs) = enclosed "{" "}" (dump_fields fs)

      pub dump_items : Items F → Option (List String)
      dump_items no_item = some []
      dump_items (item v xs) = prepend (dumps v) (dump_items xs)

      pub dump_fields : Fields F → Option (List String)
      dump_fields no_field = some []
      dump_fields (field k v fs) =
          prepend (Option.map (λ t. pr.quote k +s ":" +s t) (dumps v)) (dump_fields fs)

    -- Of a params model or of a mapping, both as the JSON values of their fields.
    unfoldable pub canonical_json : Floats F → ParamsModel F → Fields F → Option String
    unfolding field_precisions canonical_value dumps
    canonical_json fl model params =
        dumps (object (canonical_fields fl (field_precisions model []) params))
