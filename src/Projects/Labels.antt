-- ===== src/Projects/Labels.antt =====
-- `_diff_label` of server/projects.py, up to the text that it joins its changes into.
use Prim.Native.Nat.{Ordering}
use Prim.Native.String.{compare}
use astrolab.Prelude.{
  ℕ, zero, suc, ◌-◌, String, Bool, true, false, Option, none, some, List, [], ◌∷◌, ◌++◌, leb, not,
  if◌then◌else◌, length, ◌==◌, ◌&&◌,
}
use astrolab.Dict.{Dict, get, get_or}
use astrolab.Models.{Partial, Overrides}
use astrolab.Projects.Records.{Change, Label, changes}

-- `sorted(set(...))`: one name more, among names that ascend.
unfoldable pub insert_name : String → List String → List String
insert_name a [] = a ∷ []
insert_name a (b ∷ names) = elim (compare a b) [
  | Ordering.lt ↦ a ∷ b ∷ names
  | Ordering.eq ↦ b ∷ names
  | Ordering.gt ↦ b ∷ insert_name a names
]

unfoldable pub sorted_keys {ℓ} : {A : Type ℓ} → Dict A → List String → List String
unfolding insert_name
sorted_keys [] names = names
sorted_keys ((k, _) ∷ d) names = insert_name k (sorted_keys d names)

-- `sorted(set(a) | set(b))`
abbrev pub key_union {ℓ} : {A : Type ℓ} → Dict A → Dict A → List String
key_union a b = sorted_keys a (sorted_keys b [])

unfoldable pub take {ℓ} : {A : Type ℓ} → ℕ → List A → List A
take zero xs = []
take (suc n) [] = []
take (suc n) (x ∷ xs) = x ∷ take n xs

-- Python's `==` on JSON values, and the text "<default>" as such a value.
pub record Values (V : Type 0) : Type 0 where
  pub same : Option V → Option V → Bool
  pub default : Option V

abbrev max_changes : ℕ
max_changes = 3

module _ {V : Type 0} (values : Values V) where
  -- The loop over the params of one node.
  unfoldable pub node_changes : String → Partial V → Partial V → List String → List (Change V)
  unfolding get_or
  node_changes nid p c [] = []
  node_changes nid p c (k ∷ keys) =
      let rest = node_changes nid p c keys in
      let pv = get_or k values.default p in
      let cv = get_or k values.default c in
      if not (values.same pv cv)
      then record { node = nid; key = k; old = pv; new = cv } ∷ rest
      else rest

  unfoldable pub all_changes : Overrides V → Overrides V → List String → List (Change V)
  unfolding node_changes sorted_keys
  all_changes prev curr [] = []
  all_changes prev curr (nid ∷ nodes) =
      let p = get_or nid [] prev in
      let c = get_or nid [] curr in
      node_changes nid p c (key_union p c) ++ all_changes prev curr nodes

  unfoldable pub diff_label : Overrides V → Overrides V → Label V
  unfolding all_changes take
  diff_label prev curr =
      let found = all_changes prev curr (key_union prev curr) in
      if leb (length found) max_changes
      then changes found 0
      else changes (take max_changes found) (length found - max_changes)

  -- `==` of two dicts: as many keys, and each key of the first with an equal value in the second.
  unfoldable pub params_within : Partial V → Partial V → Bool
  unfolding get
  params_within [] b = true
  params_within ((k, v) ∷ a) b =
      elim (get k b) [ none ↦ false | some w ↦ values.same v w ] && params_within a b

  abbrev pub params_eq : Partial V → Partial V → Bool
  params_eq a b = length a == length b && params_within a b

  unfoldable pub nodes_within : Overrides V → Overrides V → Bool
  unfolding get params_within
  nodes_within [] b = true
  nodes_within ((nid, p) ∷ a) b =
      elim (get nid b) [ none ↦ false | some q ↦ params_eq p q ] && nodes_within a b

  unfoldable pub overrides_eq : Overrides V → Overrides V → Bool
  unfolding nodes_within
  overrides_eq a b = length a == length b && nodes_within a b
