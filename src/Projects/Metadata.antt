-- ===== src/Projects/Metadata.antt =====
-- The methods of ProjectManager (server/projects.py) that submit no job: the pointer, the cover, the
-- published flag, the description, and the queries.
use astrolab.Prelude.{
  ℕ, String, Bool, true, Option, none, some, List, [], ◌∷◌, map, if◌then◌else◌, is_some, any,
  str_eq,
}
use astrolab.Dict.{Dict, get, pop}
use astrolab.Projects.Records.{
  HistoryEntry, Project, Manager, project_not_found, value_error, Result, return, raise, entry_at,
  publish_entry,
}
use astrolab.Projects.Tables.{persist_update, persist_published}
use astrolab.Projects.Manager.{put}

-- `stripped if stripped else None`
abbrev pub none_if_empty : String → Option String
none_if_empty text = if str_eq text "" then none else some text

-- The value that `set_description` stores; `strip` is Python's `str.strip`.
abbrev pub normalized : (strip : String → String) → Option String → Option String
normalized strip none = none
normalized strip (some text) = none_if_empty (strip text)

module _ {V : Type 0} where
  unfoldable pub forget : String → Manager V → Manager V × Bool
  forget pid m = (record m { records = pop pid m.records }, is_some (get pid m.records))

  abbrev pub stored : Project V → Manager V → Result (Project V) × Manager V
  stored p m = (return p, persist_update p (put p m))

  abbrev pub has_seq : ℕ → Project V → Bool
  has_seq seq p = is_some (entry_at seq p.history)

  unfoldable pub set_cover :
      (pid : String) → Option ℕ → (now : ℕ) → Manager V → Result (Project V) × Manager V
  unfolding persist_update
  set_cover pid seq now m = elim (get pid m.records) [
    | none ↦ (raise project_not_found, m)
    | some p ↦
        if elim seq [ none ↦ true | some s ↦ has_seq s p ]
        then stored (record p { cover_seq = seq; updated_at = now }) m
        else (raise value_error, m)
  ]

  unfoldable pub set_published :
      (pid : String) (seq : ℕ) → Bool → (now : ℕ) → Manager V → Result (Project V) × Manager V
  unfolding publish_entry persist_published persist_update
  set_published pid seq published now m = elim (get pid m.records) [
    | none ↦ (raise project_not_found, m)
    | some p ↦
        if has_seq seq p
        then (let project = record p {
          history = publish_entry seq published p.history;
          updated_at = now;
        } in
            (
              return project,
              persist_update project (persist_published pid seq published (put project m)),
            ))
        else (raise value_error, m)
  ]

  unfoldable pub revert : (pid : String) (seq now : ℕ) → Manager V → Result (Project V) × Manager V
  unfolding persist_update
  revert pid seq now m = elim (get pid m.records) [
    | none ↦ (raise project_not_found, m)
    | some p ↦
        if has_seq seq p
        then stored (record p { current_seq = seq; updated_at = now }) m
        else (raise value_error, m)
  ]

  unfoldable pub set_description :
      (strip : String → String) (pid : String)
      → Option String
      → (now : ℕ) → Manager V
      → Result (Project V) × Manager V
  unfolding persist_update
  set_description strip pid description now m = elim (get pid m.records) [
    | none ↦ (raise project_not_found, m)
    | some p ↦ stored (record p { description = normalized strip description; updated_at = now }) m
  ]

  unfoldable pub get_project : String → Manager V → Option (Project V)
  get_project pid m = get pid m.records

  unfoldable pub list_projects : Manager V → List (Project V)
  list_projects m = map (λ e. e.1) m.records

  unfoldable pub project_for_job_in : String → Dict (Project V) → Option (Project V)
  project_for_job_in job_id [] = none
  project_for_job_in job_id ((_, p) ∷ records) =
      if any (λ (e : HistoryEntry V). str_eq e.job_id job_id) p.history
      then some p
      else project_for_job_in job_id records

  unfoldable pub project_for_job : String → Manager V → Option (Project V)
  unfolding project_for_job_in
  project_for_job job_id m = project_for_job_in job_id m.records
