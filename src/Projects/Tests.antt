-- ===== src/Projects/Tests.antt =====
-- Runs of the model of server/projects.py on small inputs, and its theorems at such inputs.
use mathlib.Core.Option.{some-injective}
use astrolab.Prelude.{
  ℕ, sym, ◌∙◌, subst, ◌≡◌, refl, Bool, true, false, Option, none, some, List, [], ◌∷◌, ◌==◌, arith,
  eq_iff,
}
use astrolab.Dict
use astrolab.Dict.{Dict, get, set, IsDict}
use astrolab.Models.{Overrides, Partial, Template, Job, auto}
use astrolab.Migrations.{Fields}
use astrolab.Projects.Records.{Project, HistoryEntry, Manager, sessions, entry_at, current_entry}
use astrolab.Projects.Labels.{Values}
use astrolab.Projects.Overrides.{
  Patch, deep_merge_overrides, param_at, patched_node, HasNoEmpty, param_at-deep_merge_overrides,
  deep_merge_overrides-HasNoEmpty,
}
use astrolab.Projects.Manager.{
  Edit, new_project, initial_entry, create, patch, collapses, with_draft,
}
use astrolab.Projects.Rebuild.{swap_sessions, swap_entry, rebound}
use astrolab.Projects.Tables.{rehydrate, entries_of, order_entries}
use astrolab.Projects.TableLaws.{find_row}
use astrolab.Projects.Rows.{HasKey}
use astrolab.Projects.Valid.{IsSound, IsSound-empty}
use astrolab.Projects.Requests.{
  Request, on_create, on_patch, on_swap, perform, serve, serve-IsSound,
}
use astrolab.Jobs.Store.{find_job}
use astrolab.Jobs.Rows.{HasIds}
use astrolab.Projects.Patched.{IsPatched}
use astrolab.Projects.Edits.{patch-IsPatched}
use astrolab.Projects.Sync.{IsSynced}
use astrolab.Projects.TableLaws.{IsPlain}
use astrolab.Projects.PatchSync.{OverwritesPlain}
use astrolab.Projects.Restart.{AreFair, serve-IsSynced, get-rehydrate-serve}
use astrolab.Projects.Overwrite.{patch-not-IsSynced}

abbrev base : Overrides ℕ
base =
    ("stack", ("rejection", some 3) ∷ ("sigma", some 2) ∷ [])
    ∷ ("stretch", ("target", some 5) ∷ [])
    ∷ []

abbrev change : Patch ℕ
change = ("stack", some (("sigma", none) ∷ ("weight", some 1) ∷ [])) ∷ ("stretch", none) ∷ []

merged :
    deep_merge_overrides base change
    ≡ ("stack", ("rejection", some 3) ∷ ("weight", some 1) ∷ []) ∷ []
unfolding deep_merge_overrides Dict.pop
merged = refl

-- A node whose last override is reset is dropped.
merged_empty :
    deep_merge_overrides base (("stretch", some (("target", none) ∷ [])) ∷ [])
    ≡ ("stack", ("rejection", some 3) ∷ ("sigma", some 2) ∷ []) ∷ []
unfolding deep_merge_overrides Dict.pop
merged_empty = refl

param_at-deep_merge_overrides_example :
    param_at (deep_merge_overrides base change) "stack" "sigma"
    ≡ patched_node (get "stack" change) "sigma" (param_at base "stack" "sigma")
param_at-deep_merge_overrides_example =
    param_at-deep_merge_overrides "stack" "sigma" base change
      (unfold get in (refl, (refl, (refl, tt)), (refl, tt)))

base-HasNoEmpty : HasNoEmpty base
unfolding get
base-HasNoEmpty n = ground (arith, eq_iff "stack" n, eq_iff "stretch" n)

deep_merge_overrides-HasNoEmpty_example : HasNoEmpty (deep_merge_overrides base change)
deep_merge_overrides-HasNoEmpty_example =
    deep_merge_overrides-HasNoEmpty base change base-HasNoEmpty

abbrev template : Template ℕ
template = record {
  id = "mosaic";
  version = 1;
  description = "";
  profile = none;
  nodes = [];
  outputs = [];
}

abbrev job : Job ℕ
job = record {
  template_id = "mosaic";
  template_version = 1;
  profile_id = none;
  target_id = none;
  session_ids = [];
  calibration = record { mode = auto; master_ids = [] };
  param_overrides = [];
  inputs = [];
  preview_only = false;
}

abbrev empty : Manager ℕ
empty = record {
  records = [];
  projects = [];
  project_history = [];
  store = record { jobs = []; job_events = [] };
}

abbrev same : Option ℕ → Option ℕ → Bool
same none none = true
same (some a) (some b) = a == b
same _ _ = false

abbrev values : Values ℕ
values = record { same = same; default = none }

abbrev fields : Fields
fields kind variant = none

abbrev slider : Edit ℕ
slider = record {
  overrides = some (("stretch", some (("target", some 7) ∷ [])) ∷ []);
  draft_mode = some true;
  label = none;
  force = false;
}

abbrev new_call : Request ℕ
new_call = on_create "p" "j0" 1 "Wizard" template job ("s1" ∷ [])

abbrev calls : List (Request ℕ)
calls = new_call ∷ on_patch "p" slider "j1" 2 ∷ []

serve-IsSound_example : IsSound (serve values [] fields (λ s. s) calls empty).records
serve-IsSound_example = serve-IsSound values [] fields (λ s. s) calls empty IsSound-empty

abbrev served : Manager ℕ
served = serve values [] fields (λ s. s) calls empty

empty-IsSynced : IsSynced empty
unfolding entries_of order_entries get find_row
empty-IsSynced = record { same = λ pid. refl }

-- The project after its creation.
abbrev created : Manager ℕ
created = (create "p" "j0" 1 "Wizard" template job ("s1" ∷ []) empty).1

abbrev first_entry : HistoryEntry ℕ
first_entry = initial_entry "j0" 1 []

abbrev first : Project ℕ
first = record (new_project "p" 1 "Wizard" template job ("s1" ∷ [])) { history = first_entry ∷ [] }

found : get "p" created.records ≡ some first
unfolding create get set
found = refl

current : current_entry first ≡ some first_entry
unfolding entry_at
current = refl

created-OverwritesPlain : OverwritesPlain "p" created
created-OverwritesPlain p prev at cur c =
    let same = some-injective first p (sym found ∙ at) in
    let first_is = subst (λ q. current_entry q ≡ some prev) (sym same) cur in
    subst IsPlain (some-injective first_entry prev (sym current ∙ first_is)) (refl, refl)

calls-AreFair : AreFair values [] fields (λ s. s) calls empty
unfolding perform create get find_row entries_of
calls-AreFair = ((refl, refl, refl), (created-OverwritesPlain, tt))

served-HasKey : HasKey served.projects
unfolding serve create patch find_row get set entry_at
served-HasKey = (refl, tt)

get-rehydrate-serve_example : get "p" (rehydrate served).records ≡ get "p" served.records
get-rehydrate-serve_example =
    get-rehydrate-serve values [] fields (λ s. s) calls empty "p" calls-AreFair IsSound-empty
      empty-IsSynced served-HasKey

created-HasIds : HasIds created.store.jobs
unfolding create find_job
created-HasIds = (refl, tt)

patch-IsPatched_example :
    IsPatched slider "j1" 2
      (with_draft (some true) first)
      first_entry
      created
      (patch values "p" slider "j1" 2 created)
patch-IsPatched_example =
    patch-IsPatched values "p" slider "j1" 2 created first first_entry created-HasIds found current

abbrev partial : Partial ℕ
partial = []

-- The sessions are swapped and rendered, and the render is still queued.
abbrev swap_calls : List (Request ℕ)
swap_calls = new_call ∷ on_swap "p" job ("s2" ∷ []) (sessions partial) true "j1" 2 ∷ []

abbrev swapped : Manager ℕ
swapped = serve values [] fields (λ s. s) swap_calls empty

abbrev second_entry : HistoryEntry ℕ
second_entry = swap_entry 1 "j1" 2 [] ("s2" ∷ []) (sessions partial)

abbrev second : Project ℕ
second = record (rebound job ("s2" ∷ []) first) {
  history = first_entry ∷ second_entry ∷ [];
  current_seq = 1;
  updated_at = 2;
}

swapped_found : get "p" swapped.records ≡ some second
unfolding serve create swap_sessions get set entry_at
swapped_found = refl

swapped_current : current_entry second ≡ some second_entry
unfolding entry_at
swapped_current = refl

swapped_collapses : collapses second_entry swapped.store ≡ true
unfolding serve create swap_sessions collapses get set entry_at
swapped_collapses = refl

swap_calls-AreFair : AreFair values [] fields (λ s. s) swap_calls empty
unfolding perform create get find_row entries_of
swap_calls-AreFair = ((refl, refl, refl), (tt, tt))

patch-not-IsSynced_example : ¬ IsSynced (patch values "p" slider "j2" 3 swapped).1
patch-not-IsSynced_example =
    patch-not-IsSynced values "p" slider "j2" 3 swapped second second_entry swapped_found
      swapped_current swapped_collapses (λ e. cc)
      (serve-IsSound values [] fields (λ s. s) swap_calls empty IsSound-empty)
      (serve-IsSynced values [] fields (λ s. s) swap_calls empty swap_calls-AreFair IsSound-empty
        empty-IsSynced)
