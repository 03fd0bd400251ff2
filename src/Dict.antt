-- ===== src/Dict.antt =====
-- Python's `dict` with `str` keys, in insertion order: an assignment to a key that is there keeps
-- its place, one to a new key goes to the end.
use astrolab.Prelude.{
  String, ◌≡◌, refl, Option, none, some, List, [], ◌∷◌, arith, str_eq, eq_iff, if◌then◌else◌, map,
}

abbrev pub Dict {ℓ} : Type ℓ → Type ℓ
Dict V = List (String × V)

module _ {ℓ} {V : Type ℓ} where
  -- `d.get(k)`
  unfoldable pub get : String → Dict V → Option V
  get k [] = none
  get k ((j, v) ∷ d) = if str_eq j k then some v else get k d

  -- `d[k] = v`
  unfoldable pub set : String → V → Dict V → Dict V
  set k v [] = (k, v) ∷ []
  set k v ((j, w) ∷ d) = if str_eq j k then (j, v) ∷ d else (j, w) ∷ set k v d

  -- `d.pop(k, None)`
  unfoldable pub pop : String → Dict V → Dict V
  pop k [] = []
  pop k ((j, v) ∷ d) = let rest = pop k d in if str_eq j k then rest else (j, v) ∷ rest

  -- `d.get(k, x)`
  unfoldable pub get_or : String → V → Dict V → V
  unfolding get
  get_or k x d = elim (get k d) [ none ↦ x | some v ↦ v ]

  -- `d.setdefault(k, x)`, the dict that it leaves
  unfoldable pub set_default : String → V → Dict V → Dict V
  unfolding get set
  set_default k x d = elim (get k d) [ none ↦ set k x d | some _ ↦ d ]

  abbrev pub keys : Dict V → List String
  keys d = map (λ e. e.0) d

  -- No key stands twice, as in every `dict`.
  abbrev pub IsDict : Dict V → Type ℓ
  IsDict [] = Unit
  IsDict ((k, v) ∷ d) = (get k d ≡ none) × IsDict d

  pub get-set :
      (k j : String) (v : V) (d : Dict V)
      → get j (set k v d) ≡ (if str_eq k j then some v else get j d)
  unfolding get set
  get-set k j v [] = refl
  get-set k j v ((i, w) ∷ d) = ground (arith, eq_iff k j, eq_iff i k, eq_iff i j, get-set k j v d)

  pub get-pop :
      (k j : String) (d : Dict V) → get j (pop k d) ≡ (if str_eq k j then none else get j d)
  unfolding get pop
  get-pop k j [] = ground arith
  get-pop k j ((i, v) ∷ d) = ground (arith, get-pop k j d, eq_iff i k, eq_iff i j, eq_iff k j)

  pub get-set_default :
      (k j : String) (x : V) (d : Dict V)
      → get j (set_default k x d) ≡ (if str_eq k j then some (get_or k x d) else get j d)
  unfolding set_default get_or
  get-set_default k j x d = ground (arith, get-set k j x d, eq_iff k j)

  -- A default that is there already is what a read of the missing key gives anyway.
  pub get_or-set_default :
      (k j : String) (x : V) (d : Dict V) → get_or j x (set_default k x d) ≡ get_or j x d
  unfolding set_default get_or
  get_or-set_default k j x d = ground (arith, get-set k j x d, eq_iff k j)

  pub set-IsDict : (k : String) (v : V) (d : Dict V) → IsDict d → IsDict (set k v d)
  unfolding get set
  set-IsDict k v [] h = ground arith
  set-IsDict k v ((j, w) ∷ d) h =
      ground (arith, set-IsDict k v d, get-set k j v d, eq_iff j k, eq_iff k j)

  pub pop-IsDict : (k : String) (d : Dict V) → IsDict d → IsDict (pop k d)
  unfolding pop
  pop-IsDict k [] h = h
  pop-IsDict k ((j, w) ∷ d) h =
      ground (arith, pop-IsDict k d, get-pop k j d, eq_iff j k, eq_iff k j)

  pub set_default-IsDict : (k : String) (x : V) (d : Dict V) → IsDict d → IsDict (set_default k x d)
  unfolding set_default
  set_default-IsDict k x d h = ground (arith, set-IsDict k x d)

pub ruleset dict_laws = (get-set, get-pop, get-set_default)
