-- ===== src/Migrations.antt =====
-- server/template_migrations.py. The registered migrations and the registry of node classes are
-- arguments: `fields kind variant` are the names in the node's params_schema, or `none` where the
-- lookup raises. A dropped line is kept by its parts.
use astrolab.Prelude.{
  ℕ, String, Bool, Option, none, some, List, [], ◌∷◌, ◌++◌, str_eq, if◌then◌else◌, any,
}
use astrolab.Dict.{Dict, get, set}
use astrolab.Models.{Partial, Overrides, NodeSpec, Template}
pub mod Survivors
mod Tests

pub data Dropped : Type 0 where
  node_removed : (node : String) → (version : ℕ) → Dropped
  kind_missing : (node kind : String) → Dropped
  param_removed : (node key : String) → (version : ℕ) → Dropped

abbrev pub Fields : Type 0
Fields = (kind : String) → (variant : Option String) → Option (List String)

abbrev pub Migration : Type 0 → Type 0
Migration V = (old new : ℕ) → Overrides V → Overrides V

abbrev pub contains : List String → String → Bool
contains names k = any (λ n. str_eq n k) names

module _ {V : Type 0} where
  -- `{n.id: n for n in nodes}.get(id)`: the last node with the id.
  unfoldable pub node_by_id : String → List (NodeSpec V) → Option (NodeSpec V)
  node_by_id id [] = none
  node_by_id id (n ∷ nodes) = elim (node_by_id id nodes) [
    | some found ↦ some found
    | none ↦ if str_eq n.id id then some n else none
  ]

  -- `{k: v for k, v in params.items() if k in schema_fields}`
  unfoldable pub kept_params : List String → Partial V → Partial V
  kept_params names [] = []
  kept_params names ((k, v) ∷ params) =
      let rest = kept_params names params in if contains names k then (k, v) ∷ rest else rest

  unfoldable pub removed_params : String → ℕ → List String → Partial V → List Dropped
  removed_params node version names [] = []
  removed_params node version names ((k, v) ∷ params) =
      let rest = removed_params node version names params in
      if contains names k then rest else param_removed node k version ∷ rest

  -- `if kept: survived[node_id] = kept`
  unfoldable pub keep_node : String → Partial V → Overrides V → Overrides V
  unfolding set
  keep_node node [] survived = survived
  keep_node node (e ∷ kept) survived = set node (e ∷ kept) survived

  -- The loop over the overrides.
  unfoldable pub filter_overrides :
      Fields → Template V → Overrides V → Overrides V → List Dropped → Overrides V × List Dropped
  unfolding node_by_id kept_params removed_params keep_node
  filter_overrides fields t [] survived dropped = (survived, dropped)
  filter_overrides fields t ((node, params) ∷ overrides) survived dropped =
      elim (node_by_id node t.nodes) [
        | none ↦
            filter_overrides fields t overrides survived
              (dropped ++ node_removed node t.version ∷ [])
        | some spec ↦ elim (fields spec.kind spec.variant) [
          | none ↦
              filter_overrides fields t overrides survived
                (dropped ++ kind_missing node spec.kind ∷ [])
          | some names ↦
              filter_overrides fields t overrides
                (keep_node node (kept_params names params) survived)
                (dropped ++ removed_params node t.version names params)
        ]
      ]

  -- The overrides after the migration that is registered, if one is.
  abbrev pub migrated : Dict (Migration V) → Template V → (old : ℕ) → Overrides V → Overrides V
  migrated migrations t old overrides = elim (get t.id migrations) [
    | none ↦ overrides
    | some fn ↦ fn old t.version overrides
  ]

  unfoldable pub migrate_param_overrides :
      Dict (Migration V)
      → Fields
      → Template V
      → (old : ℕ) → Overrides V
      → Overrides V × List Dropped
  unfolding filter_overrides get
  migrate_param_overrides migrations fields t old overrides =
      filter_overrides fields t (migrated migrations t old overrides) [] []
