-- ===== src/Projects/Overrides.antt =====
-- `_deep_merge_overrides` of server/projects.py. A Python value that may be None is an `Option`;
-- the values other than None are of any type.
use astrolab.Prelude.{
  String, ◌≡◌, refl, ◌≢◌, false, Option, none, some, [], ◌∷◌, arith, str_eq, eq_iff, if◌then◌else◌,
}
use astrolab.Models.{Partial, Overrides}
use astrolab.Dict.{
  Dict, get, set, pop, get_or, set_default, get_or-set_default, IsDict, get-set, get-pop,
  get-set_default, set-IsDict, pop-IsDict, set_default-IsDict,
}

-- `dict[str, dict[str, Any] | None]`
abbrev pub Patch : Type 0 → Type 0
Patch V = Dict (Option (Dict (Option V)))

module _ {V : Type 0} where
  -- The inner loop: the params of one node.
  unfoldable pub merge_params : Partial V → Partial V → Partial V
  merge_params cur [] = cur
  merge_params cur ((k, none) ∷ rest) = merge_params (pop k cur) rest
  merge_params cur ((k, some v) ∷ rest) = merge_params (set k (some v) cur) rest

  -- `if not cur: out.pop(nid, None)`, where `cur` is the dict that stands at `nid`.
  unfoldable pub store_params : String → Partial V → Overrides V → Overrides V
  store_params nid [] out = pop nid out
  store_params nid (e ∷ cur) out = set nid (e ∷ cur) out

  -- The body of the outer loop.
  unfoldable pub merge_node : String → Option (Partial V) → Overrides V → Overrides V
  unfolding merge_params store_params set_default get_or
  merge_node nid none out = pop nid out
  merge_node nid (some partial) out =
      store_params nid (merge_params (get_or nid [] out) partial) (set_default nid [] out)

  unfoldable pub deep_merge_overrides : Overrides V → Patch V → Overrides V
  unfolding merge_node
  deep_merge_overrides out [] = out
  deep_merge_overrides out ((nid, partial) ∷ patch) =
      deep_merge_overrides (merge_node nid partial out) patch

  -- The override of a param, if one stands for it.
  abbrev pub param_at : Overrides V → String → String → Option (Option V)
  param_at o nid k = get k (get_or nid [] o)

  -- What a patch entry makes of an override.
  abbrev pub patched : Option (Option V) → Option (Option V) → Option (Option V)
  patched none old = old
  patched (some none) old = none
  patched (some (some v)) old = some (some v)

  abbrev pub patched_node :
      Option (Option (Partial V)) → String → Option (Option V) → Option (Option V)
  patched_node none k old = old
  patched_node (some none) k old = none
  patched_node (some (some partial)) k old = patched (get k partial) old

  -- Each entry of a patch is None or a dict, and so is the patch.
  abbrev pub IsPatch : Patch V → Type 0
  IsPatch [] = Unit
  IsPatch ((nid, none) ∷ patch) = (get nid patch ≡ none) × IsPatch patch
  IsPatch ((nid, some partial) ∷ patch) = (get nid patch ≡ none) × IsDict partial × IsPatch patch

  pub get-merge_params :
      (k : String) (cur partial : Partial V)
      → IsDict partial
      → get k (merge_params cur partial) ≡ patched (get k partial) (get k cur)
  unfolding merge_params get
  get-merge_params k cur [] h = refl
  get-merge_params k cur ((j, none) ∷ rest) h =
      ground (arith, get-merge_params k (pop j cur) rest h.1, get-pop j k cur, eq_iff j k)
  get-merge_params k cur ((j, some v) ∷ rest) h = ground (
    arith,
    get-merge_params k (set j (some v) cur) rest h.1,
    get-set j k (some v) cur,
    eq_iff j k,
  )

  param_at-store_params :
      (nid n k : String) (cur : Partial V) (out : Overrides V)
      → param_at (store_params nid cur out) n k
        ≡ (if str_eq nid n then get k cur else param_at out n k)
  unfolding store_params get_or get
  param_at-store_params nid n k [] out = ground (arith, get-pop nid n out, eq_iff nid n)
  param_at-store_params nid n k (e ∷ cur) out =
      ground (arith, get-set nid n (e ∷ cur) out, eq_iff nid n)

  param_at-merge_node :
      (nid n k : String) (partial : Option (Partial V)) (out : Overrides V)
      → IsPatch ((nid, partial) ∷ [])
      → param_at (merge_node nid partial out) n k ≡ (
          if str_eq nid n
          then patched_node (some partial) k (param_at out n k)
          else param_at out n k)
  unfolding merge_node
  param_at-merge_node nid n k none out h =
      unfold get_or get in ground (arith, get-pop nid n out, eq_iff nid n)
  param_at-merge_node nid n k (some partial) out h = rw param_at-store_params (
      rw (get_or-set_default nid n [] out)
        (ground (arith, get-merge_params k (get_or nid [] out) partial h.1, eq_iff nid n)))

  -- The merge as a reader of the overrides sees it: at every node and param, the patch decides
  -- where it has an entry (None resets a param, and a None for the node all of its params), and
  -- everything else is as it was.
  pub param_at-deep_merge_overrides :
      (n k : String) (base : Overrides V) (patch : Patch V)
      → IsPatch patch
      → param_at (deep_merge_overrides base patch) n k
        ≡ patched_node (get n patch) k (param_at base n k)
  unfolding deep_merge_overrides
  param_at-deep_merge_overrides n k base [] h = unfold get in refl
  param_at-deep_merge_overrides n k base ((nid, none) ∷ patch) h =
      rw (param_at-deep_merge_overrides n k (merge_node nid none base) patch h.1) (
        rw (param_at-merge_node nid n k none base (unfold get in (refl, tt)))
          (unfold get in ground (arith, eq_iff nid n)))
  param_at-deep_merge_overrides n k base ((nid, some partial) ∷ patch) h =
      rw (param_at-deep_merge_overrides n k (merge_node nid (some partial) base) patch h.2) (
        rw (param_at-merge_node nid n k (some partial) base (unfold get in (refl, h.1, tt)))
          (unfold get in ground (arith, eq_iff nid n)))

  -- No node stands in the overrides with nothing to override.
  abbrev pub HasNoEmpty : Overrides V → Type 0
  HasNoEmpty o = (n : String) → get n o ≢ some []

  store_params-HasNoEmpty :
      (nid : String) (cur : Partial V) (o : Overrides V) (n : String)
      → (str_eq nid n ≡ false → get n o ≢ some [])
      → get n (store_params nid cur o) ≢ some []
  unfolding store_params
  store_params-HasNoEmpty nid [] o n h = ground (arith, get-pop nid n o)
  store_params-HasNoEmpty nid (e ∷ cur) o n h = ground (arith, get-set nid n (e ∷ cur) o)

  merge_node-HasNoEmpty :
      (nid : String) (partial : Option (Partial V)) (o : Overrides V)
      → HasNoEmpty o
      → HasNoEmpty (merge_node nid partial o)
  unfolding merge_node
  merge_node-HasNoEmpty nid none o h n = ground (arith, get-pop nid n o, h n)
  merge_node-HasNoEmpty nid (some partial) o h n =
      store_params-HasNoEmpty nid _ (set_default nid [] o) n
        λ other. ground (arith, get-set_default nid n [] o, h n)

  -- Merging never leaves a node with an empty dict behind.
  pub deep_merge_overrides-HasNoEmpty :
      (base : Overrides V) (patch : Patch V)
      → HasNoEmpty base
      → HasNoEmpty (deep_merge_overrides base patch)
  unfolding deep_merge_overrides
  deep_merge_overrides-HasNoEmpty base [] h = h
  deep_merge_overrides-HasNoEmpty base ((nid, partial) ∷ patch) h =
      deep_merge_overrides-HasNoEmpty (merge_node nid partial base) patch
        (merge_node-HasNoEmpty nid partial base h)

  store_params-IsDict :
      (nid : String) (cur : Partial V) (o : Overrides V)
      → IsDict o
      → IsDict (store_params nid cur o)
  unfolding store_params
  store_params-IsDict nid [] o h = pop-IsDict nid o h
  store_params-IsDict nid (e ∷ cur) o h = set-IsDict nid (e ∷ cur) o h

  merge_node-IsDict :
      (nid : String) (partial : Option (Partial V)) (o : Overrides V)
      → IsDict o
      → IsDict (merge_node nid partial o)
  unfolding merge_node
  merge_node-IsDict nid none o h = pop-IsDict nid o h
  merge_node-IsDict nid (some partial) o h =
      store_params-IsDict nid _ (set_default nid [] o) (set_default-IsDict nid [] o h)

  pub deep_merge_overrides-IsDict :
      (base : Overrides V) (patch : Patch V)
      → IsDict base
      → IsDict (deep_merge_overrides base patch)
  unfolding deep_merge_overrides
  deep_merge_overrides-IsDict base [] h = h
  deep_merge_overrides-IsDict base ((nid, partial) ∷ patch) h =
      deep_merge_overrides-IsDict (merge_node nid partial base) patch
        (merge_node-IsDict nid partial base h)
