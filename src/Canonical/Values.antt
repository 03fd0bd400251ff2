-- ===== src/Canonical/Values.antt =====
-- `canonical_value` and `_round_float` of server/canonical.py. Floats are a parameter, and of a params
-- model the precisions of its fields.
use astrolab.Prelude.{String, Bool, Option, none, some, if◌then◌else◌}
use astrolab.Prelude.Int.{ℤ, pos}
use astrolab.Dict.{Dict, get_or}
use astrolab.Canonical.Texts.{str_leb}

-- What `json` can hold, with the keys of an object in the order of the dict.
mutual
  pub data Json (F : Type 0) : Type 0 where
    null : Json F
    boolean : Bool → Json F
    integer : ℤ → Json F
    float : F → Json F
    text : String → Json F
    array : Items F → Json F
    object : Fields F → Json F

  pub data Items (F : Type 0) : Type 0 where
    no_item : Items F
    item : Json F → Items F → Items F

  pub data Fields (F : Type 0) : Type 0 where
    no_field : Fields F
    field : String → Json F → Fields F → Fields F

-- Python's floats: NaN, 0.0 and `round`; 0.0 and -0.0 are both equal to 0.0.
pub record Floats (F : Type 0) : Type 0 where
  pub nan : F
  pub zero : F
  pub is_nan : F → Bool
  pub is_zero : F → Bool
  pub round : F → ℤ → F

abbrev pub default_float_precision : ℤ
default_float_precision = pos 6

module _ {F : Type 0} where
  -- A field among fields whose keys ascend.
  unfoldable pub insert_field : String → Json F → Fields F → Fields F
  unfolding str_leb
  insert_field k v no_field = field k v no_field
  insert_field k v (field j w fs) =
      let rest = insert_field k v fs in
      if str_leb k j then field k v (field j w fs) else field j w rest

  module _ (fl : Floats F) (precisions : Dict ℤ) where
    unfoldable pub round_float : F → ℤ → F
    round_float v precision =
        let rounded = fl.round v precision in
        if fl.is_nan v then fl.nan else if fl.is_zero rounded then fl.zero else rounded

    abbrev pub precision_of : Option String → ℤ
    precision_of none = default_float_precision
    precision_of (some name) = get_or name default_float_precision precisions

    unfoldable mutual
      unfolding round_float insert_field get_or

      pub canonical_value : Option String → Json F → Json F
      canonical_value name null = null
      canonical_value name (boolean b) = boolean b
      canonical_value name (integer n) = integer n
      canonical_value name (float v) = float (round_float v (precision_of name))
      canonical_value name (text s) = text s
      canonical_value name (array xs) = array (canonical_items xs)
      canonical_value name (object fs) = object (canonical_fields fs)

      pub canonical_items : Items F → Items F
      canonical_items no_item = no_item
      canonical_items (item v xs) = item (canonical_value none v) (canonical_items xs)

      pub canonical_fields : Fields F → Fields F
      canonical_fields no_field = no_field
      canonical_fields (field k v fs) =
          insert_field k (canonical_value (some k) v) (canonical_fields fs)
