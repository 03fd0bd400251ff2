-- ===== src/Migrations/Tests.antt =====
-- A run of the model of server/template_migrations.py, and its theorem there.
use astrolab.Prelude.{ℕ, ◌≡◌, refl, none, some, [], ◌∷◌, if◌then◌else◌}
use astrolab.Dict.{Dict, get, IsDict}
use astrolab.Models.{Overrides, Template, NodeSpec}
use astrolab.Migrations.{
  Fields, Migration, migrated, migrate_param_overrides, param_removed, node_removed,
}
use astrolab.Migrations.Survivors.{is_allowed, param_at-migrate_param_overrides}
use astrolab.Projects.Overrides.{param_at}

abbrev node : NodeSpec ℕ
node = record {
  id = "stack";
  kind = "stack";
  variant = none;
  params = [];
  inputs = [];
  ui_depends_on = none;
}

abbrev template : Template ℕ
template = record {
  id = "mosaic";
  version = 2;
  description = "";
  profile = none;
  nodes = node ∷ [];
  outputs = [];
}

abbrev fields : Fields
fields kind variant = some ("sigma" ∷ [])

abbrev old : Overrides ℕ
old = ("stack", ("sigma", some 3) ∷ ("weight", some 1) ∷ []) ∷ ("crop", ("left", some 4) ∷ []) ∷ []

abbrev migrations : Dict (Migration ℕ)
migrations = []

carried : migrate_param_overrides migrations fields template 1 old ≡ (
  ("stack", ("sigma", some 3) ∷ []) ∷ [],
  param_removed "stack" "weight" 2 ∷ node_removed "crop" 2 ∷ [],
)
unfolding migrate_param_overrides
carried = refl

old-IsDict : IsDict (migrated migrations template 1 old)
unfolding get
old-IsDict = (refl, (refl, tt))

param_at-migrate_param_overrides_example :
    param_at (migrate_param_overrides migrations fields template 1 old).0 "stack" "sigma" ≡ (
      if is_allowed fields template "stack" "sigma"
      then param_at (migrated migrations template 1 old) "stack" "sigma"
      else none)
param_at-migrate_param_overrides_example =
    param_at-migrate_param_overrides migrations fields template 1 old "stack" "sigma" old-IsDict
