-- ===== src/Canonical/Stable.antt =====
-- `canonical_value` of server/canonical.py under another order of keys and under a second pass.
use astrolab.Prelude.{
  String, true, false, Option, none, some, ◌≡◌, ◌≢◌, refl, sym, ◌∙◌, ap, arith, Bool-cases, inl,
  inr,
}
use astrolab.Prelude.Int.{ℤ}
use astrolab.Dict.{Dict}
use astrolab.Canonical.Texts.{str_leb, str_leb_total, str_leb_antisym, str_leb_trans}
use astrolab.Canonical.Values.{
  Json, float, array, object, Items, no_item, item, Fields, no_field, field, Floats, insert_field,
  round_float, precision_of, canonical_value, canonical_items, canonical_fields,
}

-- What Python documents of `round`: a second rounding changes nothing, and the result is a number.
pub record IsRounding {F : Type 0} (fl : Floats F) : Type 0 where
  pub nan_is_nan : fl.is_nan fl.nan ≡ true
  pub zero_is_number : fl.is_nan fl.zero ≡ false
  pub zero_is_zero : fl.is_zero fl.zero ≡ true
  pub round-zero : (p : ℤ) → fl.round fl.zero p ≡ fl.zero
  pub round_is_number : (v : F) (p : ℤ) → fl.is_nan v ≡ false → fl.is_nan (fl.round v p) ≡ false
  pub round_again : (v : F) (p : ℤ) → fl.round (fl.round v p) p ≡ fl.round v p

-- Values that Python's `==` takes for the same, whatever the order of the keys of their dicts.
mutual
  pub data Same (F : Type 0) : Json F → Json F → Type 0 where
    same : (v : Json F) → Same F v v
    arrays : (xs ys : Items F) → SameItems F xs ys → Same F (array xs) (array ys)
    objects : (fs gs : Fields F) → SameFields F fs gs → Same F (object fs) (object gs)

  pub data SameItems (F : Type 0) : Items F → Items F → Type 0 where
    no_items : SameItems F no_item no_item
    items :
        (v w : Json F) (xs ys : Items F)
        → Same F v w
        → SameItems F xs ys
        → SameItems F (item v xs) (item w ys)

  pub data SameFields (F : Type 0) : Fields F → Fields F → Type 0 where
    no_fields : SameFields F no_field no_field
    fields :
        (k : String) (v w : Json F) (fs gs : Fields F)
        → Same F v w
        → SameFields F fs gs
        → SameFields F (field k v fs) (field k w gs)
    swapped :
        (k j : String) (v w : Json F) (fs : Fields F)
        → k ≢ j
        → SameFields F (field k v (field j w fs)) (field j w (field k v fs))
    through : (fs gs hs : Fields F) → SameFields F fs gs → SameFields F gs hs → SameFields F fs hs

module _ {F : Type 0} where
  insert_field_later :
      (k j : String) (v w : Json F) (fs : Fields F)
      → str_leb k j ≡ false
      → insert_field k v (insert_field j w fs) ≡ insert_field j w (insert_field k v fs)
  unfolding insert_field
  insert_field_later k j v w no_field h = ground (arith, h, str_leb_total k j)
  insert_field_later k j v w (field i u fs) h = ground (
    arith,
    h,
    str_leb_total k j,
    str_leb_trans j k i,
    str_leb_trans k i j,
    str_leb_total k i,
    str_leb_total j i,
    insert_field_later k j v w fs,
  )

  insert_field_comm :
      (k j : String) (v w : Json F) (fs : Fields F)
      → k ≢ j
      → insert_field k v (insert_field j w fs) ≡ insert_field j w (insert_field k v fs)
  insert_field_comm k j v w fs h = elim (Bool-cases (str_leb k j)) [
    | inr e ↦ insert_field_later k j v w fs e
    | inl e ↦ elim (Bool-cases (str_leb j k)) [
      | inr f ↦ sym (insert_field_later j k w v fs f)
      | inl f ↦ absurd (h (str_leb_antisym k j e f))
    ]
  ]

module _ {F : Type 0} (fl : Floats F) (precisions : Dict ℤ) where
  canonical_fields-insert :
      (k : String) (v : Json F) (fs : Fields F)
      → canonical_fields fl precisions (insert_field k v fs)
        ≡ insert_field k
            (canonical_value fl precisions (some k) v)
            (canonical_fields fl precisions fs)
  unfolding insert_field canonical_value
  canonical_fields-insert k v no_field = ground arith
  canonical_fields-insert k v (field j w fs) = elim (Bool-cases (str_leb k j)) [
    | inl e ↦ ground (arith, e)
    | inr e ↦ ground (
      arith,
      e,
      canonical_fields-insert k v fs,
      insert_field_later k j (canonical_value fl precisions (some k) v)
          (canonical_value fl precisions (some j) w) (canonical_fields fl precisions fs) e,
    )
  ]

  mutual
    unfolding canonical_value

    pub value-Same :
        (name : Option String) (v w : Json F)
        → Same F v w
        → canonical_value fl precisions name v ≡ canonical_value fl precisions name w
    value-Same name _ _ (same v) = refl
    value-Same name _ _ (arrays xs ys h) = ap array (items-Same xs ys h)
    value-Same name _ _ (objects fs gs h) = ap object (fields-Same _ _ h)

    items-Same :
        (xs ys : Items F)
        → SameItems F xs ys
        → canonical_items fl precisions xs ≡ canonical_items fl precisions ys
    items-Same _ _ no_items = refl
    items-Same _ _ (items v w vs ws h hs) =
        ground (arith, value-Same none v w h, items-Same vs ws hs)

    pub fields-Same :
        (fs gs : Fields F)
        → SameFields F fs gs
        → canonical_fields fl precisions fs ≡ canonical_fields fl precisions gs
    fields-Same _ _ no_fields = refl
    fields-Same _ _ (fields k v w hs is h rest) =
        ground (arith, value-Same (some k) v w h, fields-Same hs is rest)
    fields-Same _ _ (swapped k j v w hs h) =
        insert_field_comm k j (canonical_value fl precisions (some k) v)
          (canonical_value fl precisions (some j) w) (canonical_fields fl precisions hs) h
    fields-Same _ _ (through fs hs gs p q) = fields-Same fs hs p ∙ fields-Same hs gs q

  round_float_again :
      IsRounding fl
      → (v : F) (p : ℤ)
      → round_float fl precisions (round_float fl precisions v p) p ≡ round_float fl precisions v p
  unfolding round_float
  round_float_again r v p = ground (
    arith,
    r.nan_is_nan,
    r.zero_is_number,
    r.zero_is_zero,
    r.round-zero p,
    r.round_is_number v p,
    r.round_again v p,
  )

  mutual
    unfolding canonical_value

    value_again :
        IsRounding fl
        → (name : Option String) (v : Json F)
        → canonical_value fl precisions name (canonical_value fl precisions name v)
          ≡ canonical_value fl precisions name v
    value_again r name (float v) =
        ap float (round_float_again r v (precision_of fl precisions name))
    value_again r name (array xs) = ap array (items_again r xs)
    value_again r name (object fs) = ap object (fields_again r fs)
    value_again r name v = refl

    items_again :
        IsRounding fl
        → (xs : Items F)
        → canonical_items fl precisions (canonical_items fl precisions xs)
          ≡ canonical_items fl precisions xs
    items_again r no_item = refl
    items_again r (item v xs) = ground (arith, value_again r none v, items_again r xs)

    fields_again :
        IsRounding fl
        → (fs : Fields F)
        → canonical_fields fl precisions (canonical_fields fl precisions fs)
          ≡ canonical_fields fl precisions fs
    fields_again r no_field = refl
    fields_again r (field k v fs) =
        canonical_fields-insert k (canonical_value fl precisions (some k) v)
          (canonical_fields fl precisions fs)
        ∙ ground (arith, value_again r (some k) v, fields_again r fs)

  -- A canonical value is left as it is by another pass, where `round` is as Python documents it.
  pub canonical_value_again :
      IsRounding fl
      → (name : Option String) (v : Json F)
      → canonical_value fl precisions name (canonical_value fl precisions name v)
        ≡ canonical_value fl precisions name v
  canonical_value_again = value_again
