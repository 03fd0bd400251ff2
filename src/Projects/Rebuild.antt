-- ===== src/Projects/Rebuild.antt =====
-- `swap_sessions` and `upgrade_template` of ProjectManager (server/projects.py): they rebuild what
-- the project's jobs are made from.
use astrolab.Prelude.{
  ℕ, String, Bool, false, Option, none, some, List, [], ◌∷◌, map, leb, str_eq, if◌then◌else◌, ◌||◌,
  not, length,
}
use astrolab.Dict.{Dict, get}
use astrolab.Models.{Overrides, Template, Job}
use astrolab.Migrations.{Migration, Fields, Dropped, migrate_param_overrides}
use astrolab.Projects.Overrides.{Patch, deep_merge_overrides}
use astrolab.Projects.Records.{
  swap_label, upgrade_label, swap_kind, upgrade_kind, Snapshot, versions, HistoryEntry, Project,
  Manager, project_not_found, value_error, stop_iteration, Result, return, raise, current_entry,
}
use astrolab.Projects.Tables.{persist_full, persist_template, persist_entry}
use astrolab.Projects.Manager.{put, submit_with_overrides, cancel_job, next_entry_seq, append_entry}

module _ {V : Type 0} where
  -- Overrides as a patch: a dict for each node.
  abbrev pub as_patch : Overrides V → Patch V
  as_patch o = map (λ e. (e.0, some e.1)) o

  -- `swap_sessions`: overrides of the rebuilt job, under those of the user.
  unfoldable pub swapped_overrides : Job V → HistoryEntry V → Overrides V
  swapped_overrides new_base_job prev = elim new_base_job.param_overrides [
    | [] ↦ prev.overrides
    | _ ∷ _ ↦ deep_merge_overrides new_base_job.param_overrides (as_patch prev.overrides)
  ]

  abbrev pub swap_entry :
      (seq : ℕ) (job_id : String) (now : ℕ)
      → Overrides V
      → List String
      → Snapshot V
      → HistoryEntry V
  swap_entry seq job_id now overrides session_ids snapshot = record {
    seq = seq;
    job_id = job_id;
    overrides = overrides;
    label = some (swap_label (length session_ids));
    created_at = now;
    published = false;
    kind = swap_kind;
    snapshot = some snapshot;
  }

  -- The project with the new sessions bound, before its history grows.
  abbrev pub rebound : Job V → List String → Project V → Project V
  rebound new_base_job session_ids p = record p {
    base_job = record new_base_job { param_overrides = [] };
    source_session_ids = session_ids;
  }

  -- From the current entry on; the id is that of the new job, which only `auto_render` submits.
  unfoldable pub swap_from :
      Job V
      → List String
      → Snapshot V
      → (auto_render : Bool) → (job_id : String) (now : ℕ) → Project V
      → HistoryEntry V
      → Manager V
      → Result (Project V × Option String) × Manager V
  unfolding swapped_overrides submit_with_overrides persist_full persist_entry
  swap_from new_base_job session_ids snapshot auto_render job_id now p prev m =
      let overrides = swapped_overrides new_base_job prev in
      let p' = rebound new_base_job session_ids p in
      let cancelled = cancel_job prev.job_id m in
      let submitted : Manager V =
        if auto_render
        then submit_with_overrides p' overrides false job_id now cancelled
        else cancelled in
      let entry_job_id : String = if auto_render then job_id else prev.job_id in
      let entry = swap_entry (next_entry_seq p) entry_job_id now overrides session_ids snapshot in
      let project = append_entry entry now p' in
      (
        return (project, (if auto_render then some job_id else none)),
        persist_entry p.id entry (persist_full project (put project submitted)),
      )

  unfoldable pub swap_sessions :
      (pid : String)
      → Job V
      → List String
      → Snapshot V
      → (auto_render : Bool) → (job_id : String) (now : ℕ) → Manager V
      → Result (Project V × Option String) × Manager V
  unfolding swap_from
  swap_sessions pid new_base_job session_ids snapshot auto_render job_id now m =
      elim (get pid m.records) [
        | none ↦ (raise project_not_found, m)
        | some p ↦ elim (current_entry p) [
          | none ↦ (raise stop_iteration, m)
          | some prev ↦ swap_from new_base_job session_ids snapshot auto_render job_id now p prev m
        ]
      ]

  -- ---- upgrade_template

  abbrev pub upgrade_entry :
      (seq : ℕ) (job_id : String) (now : ℕ)
      → Overrides V
      → (from to : ℕ) → List Dropped
      → HistoryEntry V
  upgrade_entry seq job_id now overrides from to dropped = record {
    seq = seq;
    job_id = job_id;
    overrides = overrides;
    label = some (upgrade_label from to);
    created_at = now;
    published = false;
    kind = upgrade_kind;
    snapshot = some (versions from to dropped);
  }

  abbrev pub retemplated : Template V → Project V → Project V
  retemplated t p = record p {
    template = t;
    base_job = record p.base_job { template_version = t.version };
  }

  -- From the current entry on, for a target that passed the two checks.
  unfoldable pub upgrade_from :
      Dict (Migration V)
      → Fields
      → Template V
      → (job_id : String) (now : ℕ) → Project V
      → HistoryEntry V
      → Manager V
      → Result (Project V × String × List Dropped) × Manager V
  unfolding submit_with_overrides persist_template persist_entry
  upgrade_from migrations fields t job_id now p prev m =
      let from = p.template.version in
      let (overrides, dropped) = migrate_param_overrides migrations fields t from prev.overrides in
      let p' = retemplated t p in
      let submitted =
        submit_with_overrides p' overrides false job_id now (cancel_job prev.job_id m) in
      let entry = upgrade_entry (next_entry_seq p) job_id now overrides from t.version dropped in
      let project = append_entry entry now p' in
      (
        return (project, job_id, dropped),
        persist_entry p.id entry (persist_template project (put project submitted)),
      )

  unfoldable pub upgrade_template :
      Dict (Migration V)
      → Fields
      → (pid : String) → Template V
      → (job_id : String) (now : ℕ) → Manager V
      → Result (Project V × String × List Dropped) × Manager V
  unfolding upgrade_from
  upgrade_template migrations fields pid t job_id now m = elim (get pid m.records) [
    | none ↦ (raise project_not_found, m)
    | some p ↦
        if not (str_eq t.id p.template.id) || leb t.version p.template.version
        then (raise value_error, m)
        else elim (current_entry p) [
          | none ↦ (raise stop_iteration, m)
          | some prev ↦ upgrade_from migrations fields t job_id now p prev m
        ]
  ]
