-- ===== src/Migrations/Survivors.antt =====
-- Which overrides `migrate_param_overrides` of server/template_migrations.py carries over.
use astrolab.Prelude.{
  ℕ, String, Bool, false, ◌≡◌, refl, Option, none, some, List, [], ◌∷◌, ◌++◌, arith, str_eq, eq_iff,
  if◌then◌else◌, Option-cases, inl, inr, ◌∙◌, ap, sym, subst, Bool-cases,
}
use astrolab.Dict.{Dict, get, get_or, get-set, IsDict}
use astrolab.Models.{Partial, Overrides, NodeSpec, Template}
use astrolab.Migrations.{
  Fields, Migration, Dropped, contains, node_by_id, kept_params, keep_node, filter_overrides,
  migrated, migrate_param_overrides, removed_params, node_removed, kind_missing,
}
use astrolab.Projects.Overrides.{param_at}

abbrev allowed_by : Option (List String) → String → Bool
allowed_by none k = false
allowed_by (some names) k = contains names k

abbrev kept_by : {V : Type 0} → Option (List String) → Partial V → Partial V
kept_by none params = []
kept_by (some names) params = kept_params names params

module _ {V : Type 0} where
  abbrev allowed_at : Fields → Option (NodeSpec V) → String → Bool
  allowed_at fields none k = false
  allowed_at fields (some spec) k = allowed_by (fields spec.kind spec.variant) k

  -- The template has the node, its kind is registered, and its schema has the param.
  abbrev pub is_allowed : Fields → Template V → String → String → Bool
  is_allowed fields t n k = allowed_at fields (node_by_id n t.nodes) k

  get-kept_params :
      (k : String) (names : List String) (params : Partial V)
      → get k (kept_params names params) ≡ (if contains names k then get k params else none)
  unfolding kept_params get
  get-kept_params k names [] = ground arith
  get-kept_params k names ((j, v) ∷ params) =
      ground (arith, get-kept_params k names params, eq_iff j k)

  get-keep_node :
      (m n : String) (kept : Partial V) (survived : Overrides V)
      → str_eq m n ≡ false
      → get n (keep_node m kept survived) ≡ get n survived
  unfolding keep_node
  get-keep_node m n [] survived other = refl
  get-keep_node m n (e ∷ kept) survived other =
      ground (arith, get-set m n (e ∷ kept) survived, other)

  param_at-keep_node :
      (n k : String) (kept : Partial V) (survived : Overrides V)
      → get n survived ≡ none
      → param_at (keep_node n kept survived) n k ≡ get k kept
  unfolding keep_node get_or
  param_at-keep_node n k [] survived new = ground (arith, new)
  param_at-keep_node n k (e ∷ kept) survived new =
      ground (arith, get-set n n (e ∷ kept) survived, eq_iff n n)

  -- The params that the loop keeps of one node.
  abbrev kept_of : Fields → Option (NodeSpec V) → Partial V → Partial V
  kept_of fields none params = []
  kept_of fields (some spec) params = kept_by (fields spec.kind spec.variant) params

  get-kept_of :
      (fields : Fields) (found : Option (NodeSpec V)) (k : String) (params : Partial V)
      → get k (kept_of fields found params)
        ≡ (if allowed_at fields found k then get k params else none)
  unfolding get
  get-kept_of fields none k params = refl
  get-kept_of fields (some spec) k params = elim (Option-cases (fields spec.kind spec.variant)) [
    | inl e ↦ rw e refl
    | inr (names, e) ↦ rw e (get-kept_params k names params)
  ]

  -- One round of the loop keeps those.
  round :
      (fields : Fields) (t : Template V) (m : String) (params : Partial V)
      (overrides survived : Overrides V) (dropped : List Dropped)
      → (more : List Dropped) × (filter_overrides fields t
            ((m, params) ∷ overrides)
            survived
            dropped
          ≡ filter_overrides fields t overrides
              (keep_node m (kept_of fields (node_by_id m t.nodes) params) survived)
              more)
  unfolding filter_overrides keep_node
  round fields t m params overrides survived dropped = elim (Option-cases (node_by_id m t.nodes)) [
    | inl e ↦ (dropped ++ node_removed m t.version ∷ [], ground (arith, e))
    | inr (spec, e) ↦ elim (Option-cases (fields spec.kind spec.variant)) [
      | inl f ↦ (dropped ++ kind_missing m spec.kind ∷ [], ground (arith, e, f))
      | inr (names, f) ↦ (dropped ++ removed_params m t.version names params, ground (arith, e, f))
    ]
  ]

  param_at-other :
      (m n k : String) (kept : Partial V) (survived : Overrides V)
      → str_eq m n ≡ false
      → param_at (keep_node m kept survived) n k ≡ param_at survived n k
  unfolding get_or
  param_at-other m n k kept survived other = ground (arith, get-keep_node m n kept survived other)

  param_at-absent :
      (fields : Fields) (t : Template V) (n k : String) (overrides survived : Overrides V)
      (dropped : List Dropped)
      → get n overrides ≡ none
      → param_at (filter_overrides fields t overrides survived dropped).0 n k
        ≡ param_at survived n k
  unfolding filter_overrides get
  param_at-absent fields t n k [] survived dropped e = refl
  param_at-absent fields t n k ((m, params) ∷ overrides) survived dropped e =
      let (more, once) = round fields t m params overrides survived dropped in
      let next = keep_node m (kept_of fields (node_by_id m t.nodes) params) survived in
      let other : str_eq m n ≡ false = ground (arith, e) in
      ap (λ (r : Overrides V × List Dropped). param_at r.0 n k) once
      ∙ param_at-absent fields t n k overrides next more (ground (arith, e))
      ∙ param_at-other m n k (kept_of fields (node_by_id m t.nodes) params) survived other

  param_at-first :
      (fields : Fields) (t : Template V) (m k : String) (params : Partial V)
      (overrides survived : Overrides V) (dropped : List Dropped)
      → get m overrides ≡ none
      → get m survived ≡ none
      → param_at
          (filter_overrides fields t overrides
            (keep_node m (kept_of fields (node_by_id m t.nodes) params) survived)
            dropped).0
          m
          k
        ≡ (if is_allowed fields t m k then get k params else none)
  param_at-first fields t m k params overrides survived dropped absent new =
      let kept = kept_of fields (node_by_id m t.nodes) params in
      param_at-absent fields t m k overrides (keep_node m kept survived) dropped absent
      ∙ param_at-keep_node m k kept survived new
      ∙ get-kept_of fields (node_by_id m t.nodes) k params

  param_at-filter_overrides :
      (fields : Fields) (t : Template V) (n k : String) (overrides survived : Overrides V)
      (dropped : List Dropped)
      → IsDict overrides
      → get n survived ≡ none
      → param_at (filter_overrides fields t overrides survived dropped).0 n k
        ≡ (if is_allowed fields t n k then param_at overrides n k else none)
  unfolding filter_overrides get get_or
  param_at-filter_overrides fields t n k [] survived dropped d new = ground (arith, new)
  param_at-filter_overrides fields t n k ((m, params) ∷ overrides) survived dropped d new =
      let (more, once) = round fields t m params overrides survived dropped in
      let kept = kept_of fields (node_by_id m t.nodes) params in
      let next = keep_node m kept survived in
      ap (λ (r : Overrides V × List Dropped). param_at r.0 n k) once
      ∙ elim (Bool-cases (str_eq m n)) [
        | inl same ↦
            let is = (eq_iff m n).0 same in
            subst
              (λ x.
                param_at (filter_overrides fields t overrides next more).0 x k
                ≡ (if is_allowed fields t x k then get k params else none))
              is
              (param_at-first fields t m k params overrides survived more d.0
                (subst (λ x. get x survived ≡ none) (sym is) new))
            ∙ ground (arith, same)
        | inr other ↦
            param_at-filter_overrides fields t n k overrides next more d.1
              (get-keep_node m n kept survived other ∙ new)
            ∙ ground (arith, other)
      ]

  -- An override that the registered migration gives (or the old one, where none is registered) is
  -- carried over as it is where the new template has its node, the node's kind is registered and its
  -- schema has the param; there is no other override in the result. The migrated overrides are a
  -- dict.
  pub param_at-migrate_param_overrides :
      (migrations : Dict (Migration V)) (fields : Fields) (t : Template V) (old : ℕ)
      (overrides : Overrides V) (n k : String)
      → IsDict (migrated migrations t old overrides)
      → param_at (migrate_param_overrides migrations fields t old overrides).0 n k ≡ (
          if is_allowed fields t n k
          then param_at (migrated migrations t old overrides) n k
          else none)
  unfolding migrate_param_overrides get
  param_at-migrate_param_overrides migrations fields t old overrides n k d =
      param_at-filter_overrides fields t n k (migrated migrations t old overrides) [] [] d refl
