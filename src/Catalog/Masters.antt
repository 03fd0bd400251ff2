-- ===== src/Catalog/Masters.antt =====
-- What the queries of server/catalog/matching.py on `masters` share, and the choice by a key that `max` and
-- `min` make. The rows come in the order of the table. Temperatures count thousandths of a degree.
use Prim.Native.Char.{code}
use astrolab.Prelude.{
  ℕ, ◌-◌, ◌+◌, ◌/◌, String, Bool, true, false, ◌&&◌, ◌||◌, Option, none, some, List, [], ◌∷◌,
  str_eq, ◌==◌, ltb, if◌then◌else◌,
}
use astrolab.Prelude.Int.{ℤ, pos, negsuc, ◌-ℤ◌, abs, int_eq}
use astrolab.Catalog.Rows.{MasterRow}

abbrev pub or_zero : Option ℕ → ℕ
or_zero none = 0
or_zero (some n) = n

abbrev pub or_int : ℤ → Option ℤ → ℤ
or_int d none = d
or_int d (some i) = i

abbrev pub or_text : Option String → String
or_text none = ""
or_text (some s) = s

-- `column = ?`, which NULL never satisfies.
abbrev pub sql_eq : Option String → String → Bool
sql_eq none s = false
sql_eq (some t) s = str_eq t s

-- `IFNULL(column, -1) = IFNULL(?, -1)`
abbrev pub same_int : Option ℤ → Option ℤ → Bool
same_int a b = int_eq (or_int (negsuc 0) a) (or_int (negsuc 0) b)

-- `camera = ? OR camera IS NULL OR ? IS NULL`
abbrev pub same_camera : Option String → Option String → Bool
same_camera none b = true
same_camera (some a) none = true
same_camera (some a) (some b) = str_eq a b

-- `ABS(IFNULL(exptime, 0) - ?) < 0.001`
abbrev pub same_exptime : Option ℕ → ℕ → Bool
same_exptime a b = ltb ((or_zero a - b) + (b - or_zero a)) 1000

-- What a frame or a session is matched by.
pub record Setup : Type 0 where
  pub instrument : String
  pub camera : Option String
  pub filter : Option String
  pub exptime : ℕ
  pub gain : Option ℤ
  pub binning : Option ℤ

abbrev pub fits_dark : Setup → MasterRow → Bool
fits_dark s m =
    str_eq m.kind "dark"
    && (sql_eq m.instrument s.instrument
        && (same_exptime m.exptime s.exptime
            && (same_int m.gain s.gain
                && (same_int m.binning s.binning && same_camera m.camera s.camera))))

abbrev pub fits_flat : Setup → MasterRow → Bool
fits_flat s m =
    str_eq m.kind "flat"
    && (sql_eq m.instrument s.instrument
        && (str_eq (or_text m.filter) (or_text s.filter)
            && (same_int m.binning s.binning && same_camera m.camera s.camera)))

abbrev pub fits_bias : Setup → MasterRow → Bool
fits_bias s m =
    str_eq m.kind "bias"
    && (sql_eq m.instrument s.instrument
        && (same_int m.binning s.binning && same_camera m.camera s.camera))

-- `max` and `min` with a key: the first one that no other beats.
unfoldable pub pick {ℓ} : {A : Type ℓ} → (better : A → A → Bool) → A → List A → A
pick better x [] = x
pick better x (y ∷ ys) = pick better (if better y x then y else x) ys

abbrev pub stack_of : MasterRow → ℕ
stack_of m = or_zero m.stack_count

abbrev pub deeper : MasterRow → MasterRow → Bool
deeper a b = ltb (stack_of b) (stack_of a)

-- `<` of two texts, by code points.
unfoldable pub str_ltb : String → String → Bool
str_ltb s String.[] = false
str_ltb String.[] (String.◌∷◌ d t) = true
str_ltb (String.◌∷◌ c s) (String.◌∷◌ d t) =
    ltb (code c) (code d) || (code c == code d && str_ltb s t)

abbrev pub newer : MasterRow → MasterRow → Bool
newer a b =
    str_ltb (or_text b.date_built) (or_text a.date_built)
    || (str_eq (or_text b.date_built) (or_text a.date_built) && deeper a b)

-- `abs((r["ccd_temp"] or 0) - temp)`
unfoldable pub temp_delta : ℤ → MasterRow → ℤ
unfolding ◌-ℤ◌
temp_delta temp m = or_int (pos 0) m.ccd_temp -ℤ temp

abbrev pub distance : ℤ → MasterRow → ℕ
distance temp m = abs (temp_delta temp m)

abbrev pub dark_temp_tolerance : ℕ
dark_temp_tolerance = 5000

-- `int(delta / DARK_STACK_BIN_C)`
abbrev pub delta_bin : ℤ → MasterRow → ℕ
delta_bin temp m = distance temp m / 2000

-- `<` of the two scores.
abbrev pub closer : ℤ → MasterRow → MasterRow → Bool
closer temp a b =
    ltb (delta_bin temp a) (delta_bin temp b)
    || (delta_bin temp a == delta_bin temp b && deeper a b)
