-- ===== src/Projects/Manager.antt =====
-- ProjectManager of server/projects.py. A method takes the ids and the instants that it draws as
-- arguments, and gives its result beside the state that it leaves. Writes to the database succeed.
use astrolab.Prelude.{
  ℕ, String, Bool, true, false, Option, none, some, List, [], ◌∷◌, ◌++◌, map, if◌then◌else◌, ◌&&◌,
  ◌||◌,
}
use astrolab.Dict.{get, set}
use astrolab.Models.{Overrides, Template, Job}
use astrolab.Jobs.Store.{Store, JobStatus, interrupted, next_seq}
use astrolab.Jobs.Manager.{submit, cancel, get_job}
use astrolab.Projects.Overrides.{Patch, deep_merge_overrides}
use astrolab.Projects.Records.{
  Label, given, initial_render, reprocess, edit, HistoryEntry, Project, Manager, project_not_found,
  stop_iteration, Result, return, raise, current_entry, overrides_before, replace_entry,
}
use astrolab.Projects.Labels.{Values, diff_label, overrides_eq}
use astrolab.Projects.Tables.{persist_insert, persist_update, persist_entry, persist_entry_replace}

abbrev pub is_interrupted : Option JobStatus → Bool
is_interrupted (some interrupted) = true
is_interrupted _ = false

-- The arguments of `patch` but the id.
pub record Edit (V : Type 0) : Type 0 where
  pub overrides : Option (Patch V)
  pub draft_mode : Option Bool
  pub label : Option String
  pub force : Bool

module _ {V : Type 0} where
  -- The object `project` is the one in the map: a change of it is a change there.
  abbrev pub put : Project V → Manager V → Manager V
  put p m = record m { records = set p.id p m.records }

  -- `_submit_with_overrides`
  unfoldable pub submit_with_overrides :
      Project V → Overrides V → Bool → (job_id : String) (now : ℕ) → Manager V → Manager V
  unfolding submit
  submit_with_overrides p overrides force job_id now m = record m {
    store =
        submit p.template (record p.base_job { param_overrides = overrides }) force job_id now
          m.store;
  }

  -- `self._jobs.cancel`
  abbrev pub cancel_job : String → Manager V → Manager V
  cancel_job job_id m = record m { store = (cancel job_id m.store).0 }

  -- `max((h.seq for h in history), default=-1) + 1`
  abbrev pub next_entry_seq : Project V → ℕ
  next_entry_seq p = next_seq (map (λ h. h.seq) p.history)

  -- An entry at the tail, with the pointer at it.
  abbrev pub append_entry : HistoryEntry V → (updated : ℕ) → Project V → Project V
  append_entry e updated p = record p {
    history = p.history ++ e ∷ [];
    current_seq = e.seq;
    updated_at = updated;
  }

  -- ---- create

  abbrev pub new_project :
      (pid : String) (now : ℕ) (name : String) → Template V → Job V → List String → Project V
  new_project pid now name template base_job session_ids = record {
    id = pid;
    name = name;
    template = template;
    base_job = record base_job { param_overrides = [] };
    current_seq = 0;
    draft_mode = false;
    source_session_ids = session_ids;
    created_at = now;
    updated_at = now;
    history = [];
    cover_seq = none;
    description = none;
  }

  abbrev pub initial_entry : (job_id : String) (now : ℕ) → Overrides V → HistoryEntry V
  initial_entry job_id now overrides = record {
    seq = 0;
    job_id = job_id;
    overrides = overrides;
    label = some initial_render;
    created_at = now;
    published = false;
    kind = edit;
    snapshot = none;
  }

  unfoldable pub create :
      (pid job_id : String) (now : ℕ) (name : String)
      → Template V
      → Job V
      → List String
      → Manager V
      → Project V × Manager V
  unfolding submit_with_overrides persist_insert persist_entry
  create pid job_id now name template base_job session_ids m =
      let overrides = base_job.param_overrides in
      let p = new_project pid now name template base_job session_ids in
      let submitted = submit_with_overrides p overrides false job_id now m in
      let entry = initial_entry job_id now overrides in
      let project = record p { history = entry ∷ [] } in
      (project, persist_entry pid entry (persist_insert project (put project submitted)))

  -- ---- patch

  abbrev pub status_of : String → Store V → Option JobStatus
  status_of job_id store = elim (get_job job_id store) [ none ↦ none | some r ↦ some r.status ]

  -- `prev_status == "interrupted" or cancelled_live`
  unfoldable pub collapses : HistoryEntry V → Store V → Bool
  unfolding get_job cancel
  collapses prev store =
      is_interrupted (status_of prev.job_id store) || (cancel prev.job_id store).1

  unfoldable pub patched_overrides : Edit V → HistoryEntry V → Overrides V
  patched_overrides e prev = elim e.overrides [
    | none ↦ prev.overrides
    | some patch ↦ deep_merge_overrides prev.overrides patch
  ]

  unfoldable pub baseline : Bool → Project V → HistoryEntry V → Overrides V
  baseline collapse p prev = if collapse then overrides_before p prev.seq else prev.overrides

  unfoldable pub derived_label : Values V → Edit V → (old new : Overrides V) → Label V
  derived_label values e old new = elim e.label [
    | some text ↦ given text
    | none ↦ if e.force && overrides_eq values new old then reprocess else diff_label values old new
  ]

  abbrev pub with_draft : Option Bool → Project V → Project V
  with_draft none p = p
  with_draft (some draft) p = record p { draft_mode = draft }

  abbrev pub edit_entry :
      (seq : ℕ) (job_id : String) (now : ℕ)
      → Overrides V
      → Label V
      → (published : Bool) → HistoryEntry V
  edit_entry seq job_id now overrides label published = record {
    seq = seq;
    job_id = job_id;
    overrides = overrides;
    label = some label;
    created_at = now;
    published = published;
    kind = edit;
    snapshot = none;
  }

  -- The `if collapse:` block.
  unfoldable pub patch_collapsed :
      HistoryEntry V → (now : ℕ) → Project V → Manager V → Result (Project V) × Manager V
  unfolding replace_entry persist_update persist_entry_replace
  patch_collapsed entry now p m =
      let project = record p { history = replace_entry entry p.history; updated_at = now } in
      (return project, persist_entry_replace p.id entry (persist_update project (put project m)))

  -- The block below it.
  unfoldable pub patch_appended :
      HistoryEntry V → (now : ℕ) → Project V → Manager V → Result (Project V) × Manager V
  unfolding persist_update persist_entry
  patch_appended entry now p m =
      let project = append_entry entry now p in
      (return project, persist_entry p.id entry (persist_update project (put project m)))

  -- From the current entry on, with the draft mode set.
  unfoldable pub patch_entry :
      Values V
      → Edit V
      → (job_id : String) (now : ℕ) → Project V
      → HistoryEntry V
      → Manager V
      → Result (Project V) × Manager V
  unfolding collapses patched_overrides baseline derived_label submit_with_overrides patch_collapsed
      patch_appended
  patch_entry values e job_id now p prev m =
      let new_overrides = patched_overrides e prev in
      let collapse = collapses prev m.store in
      let old_overrides = baseline collapse p prev in
      let submitted =
        submit_with_overrides p new_overrides e.force job_id now (cancel_job prev.job_id m) in
      let label = derived_label values e old_overrides new_overrides in
      if collapse
      then patch_collapsed (edit_entry prev.seq job_id now new_overrides label prev.published) now p
          submitted
      else patch_appended (edit_entry (next_entry_seq p) job_id now new_overrides label false) now p
          submitted

  unfoldable pub patch :
      Values V
      → (pid : String) → Edit V
      → (job_id : String) (now : ℕ) → Manager V
      → Result (Project V) × Manager V
  unfolding patch_entry
  patch values pid e job_id now m = elim (get pid m.records) [
    | none ↦ (raise project_not_found, m)
    | some p ↦ elim (current_entry p) [
      | none ↦ (raise stop_iteration, m)
      | some prev ↦ patch_entry values e job_id now (with_draft e.draft_mode p) prev m
    ]
  ]
