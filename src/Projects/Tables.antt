-- ===== src/Projects/Tables.antt =====
-- The `_persist_*` methods and `_row_to_project` of server/projects.py, over the two tables.
use astrolab.Prelude.{
  ℕ, String, Bool, none, List, [], ◌∷◌, ◌++◌, leb, ◌==◌, str_eq, if◌then◌else◌, ◌&&◌,
}
use astrolab.Dict.{Dict, set}
use astrolab.Projects.Records.{HistoryEntry, Project, ProjectRow, HistoryRow, Manager}

module _ {V : Type 0} where
  -- The columns of the row that `_persist_project(kind="insert")` writes; cover_seq is left NULL.
  abbrev pub inserted_row : Project V → ProjectRow V
  inserted_row p = record {
    id = p.id;
    name = p.name;
    template = p.template;
    base_job = p.base_job;
    current_seq = p.current_seq;
    draft_mode = p.draft_mode;
    source_session_ids = p.source_session_ids;
    created_at = p.created_at;
    updated_at = p.updated_at;
    cover_seq = none;
    description = p.description;
  }

  -- The columns that `_persist_project(kind="update")` sets.
  abbrev pub updated_row : Project V → ProjectRow V → ProjectRow V
  updated_row p row = record row {
    name = p.name;
    current_seq = p.current_seq;
    draft_mode = p.draft_mode;
    cover_seq = p.cover_seq;
    updated_at = p.updated_at;
    description = p.description;
  }

  -- Those of `_persist_project_full`.
  abbrev pub full_row : Project V → ProjectRow V → ProjectRow V
  full_row p row = record row {
    name = p.name;
    base_job = p.base_job;
    current_seq = p.current_seq;
    draft_mode = p.draft_mode;
    source_session_ids = p.source_session_ids;
    cover_seq = p.cover_seq;
    updated_at = p.updated_at;
    description = p.description;
  }

  -- Those of `_persist_project_template`.
  abbrev pub template_row : Project V → ProjectRow V → ProjectRow V
  template_row p row = record row {
    template = p.template;
    base_job = p.base_job;
    current_seq = p.current_seq;
    updated_at = p.updated_at;
  }

  -- `UPDATE projects SET … WHERE id = ?`
  unfoldable pub update_row :
      (ProjectRow V → ProjectRow V) → String → List (ProjectRow V) → List (ProjectRow V)
  update_row change id [] = []
  update_row change id (r ∷ rows) =
      (if str_eq r.id id then change r else r) ∷ update_row change id rows

  unfoldable pub persist_insert : Project V → Manager V → Manager V
  persist_insert p m = record m { projects = m.projects ++ inserted_row p ∷ [] }

  unfoldable pub persist_update : Project V → Manager V → Manager V
  unfolding update_row
  persist_update p m = record m { projects = update_row (updated_row p) p.id m.projects }

  unfoldable pub persist_full : Project V → Manager V → Manager V
  unfolding update_row
  persist_full p m = record m { projects = update_row (full_row p) p.id m.projects }

  unfoldable pub persist_template : Project V → Manager V → Manager V
  unfolding update_row
  persist_template p m = record m { projects = update_row (template_row p) p.id m.projects }

  unfoldable pub persist_entry : String → HistoryEntry V → Manager V → Manager V
  persist_entry pid entry m = record m {
    project_history = m.project_history ++ record { project_id = pid; entry = entry } ∷ [];
  }

  -- `UPDATE project_history SET … WHERE project_id = ? AND seq = ?`
  unfoldable pub update_entry :
      (HistoryEntry V → HistoryEntry V) → String → ℕ → List (HistoryRow V) → List (HistoryRow V)
  update_entry change pid seq [] = []
  update_entry change pid seq (r ∷ rows) =
      (if str_eq r.project_id pid && r.entry.seq == seq
        then record r { entry = change r.entry }
        else r)
      ∷ update_entry change pid seq rows

  -- The columns that `_persist_history_entry_replace` sets.
  abbrev pub replaced_columns : HistoryEntry V → HistoryEntry V → HistoryEntry V
  replaced_columns entry old = record old {
    job_id = entry.job_id;
    overrides = entry.overrides;
    label = entry.label;
    created_at = entry.created_at;
    published = entry.published;
  }

  unfoldable pub persist_entry_replace : String → HistoryEntry V → Manager V → Manager V
  unfolding update_entry
  persist_entry_replace pid entry m = record m {
    project_history = update_entry (replaced_columns entry) pid entry.seq m.project_history;
  }

  unfoldable pub persist_published : String → ℕ → Bool → Manager V → Manager V
  unfolding update_entry
  persist_published pid seq published m = record m {
    project_history =
        update_entry (λ e. record e { published = published }) pid seq m.project_history;
  }

  -- `SELECT … WHERE project_id = ?`
  unfoldable pub entries_of : String → List (HistoryRow V) → List (HistoryEntry V)
  entries_of pid [] = []
  entries_of pid (r ∷ rows) =
      let rest = entries_of pid rows in if str_eq r.project_id pid then r.entry ∷ rest else rest

  -- `ORDER BY seq ASC`, as a stable sort.
  unfoldable pub insert_entry : HistoryEntry V → List (HistoryEntry V) → List (HistoryEntry V)
  insert_entry e [] = e ∷ []
  insert_entry e (f ∷ entries) =
      if leb e.seq f.seq then e ∷ f ∷ entries else f ∷ insert_entry e entries

  unfoldable pub order_entries : List (HistoryEntry V) → List (HistoryEntry V)
  unfolding insert_entry
  order_entries [] = []
  order_entries (e ∷ entries) = insert_entry e (order_entries entries)

  -- The project that a row and its history make.
  abbrev pub of_row : List (HistoryEntry V) → ProjectRow V → Project V
  of_row history row = record {
    id = row.id;
    name = row.name;
    template = row.template;
    base_job = row.base_job;
    current_seq = row.current_seq;
    draft_mode = row.draft_mode;
    source_session_ids = row.source_session_ids;
    created_at = row.created_at;
    updated_at = row.updated_at;
    history = history;
    cover_seq = row.cover_seq;
    description = row.description;
  }

  unfoldable pub row_to_project : List (HistoryRow V) → ProjectRow V → Project V
  unfolding entries_of order_entries
  row_to_project rows row = of_row (order_entries (entries_of row.id rows)) row

  -- `DELETE FROM projects WHERE id = ?` of `delete_project` in server/storage.py; the foreign key
  -- deletes the history with it.
  unfoldable pub drop_row : String → List (ProjectRow V) → List (ProjectRow V)
  drop_row id [] = []
  drop_row id (r ∷ rows) = let rest = drop_row id rows in if str_eq r.id id then rest else r ∷ rest

  unfoldable pub drop_entries : String → List (HistoryRow V) → List (HistoryRow V)
  drop_entries id [] = []
  drop_entries id (r ∷ rows) =
      let rest = drop_entries id rows in if str_eq r.project_id id then rest else r ∷ rest

  unfoldable pub delete_rows : String → Manager V → Manager V
  unfolding drop_row drop_entries
  delete_rows id m = record m {
    projects = drop_row id m.projects;
    project_history = drop_entries id m.project_history;
  }

  -- `ORDER BY updated_at DESC`, as a stable sort.
  unfoldable pub insert_row : ProjectRow V → List (ProjectRow V) → List (ProjectRow V)
  insert_row r [] = r ∷ []
  insert_row r (q ∷ rows) =
      if leb q.updated_at r.updated_at then r ∷ q ∷ rows else q ∷ insert_row r rows

  unfoldable pub order_rows : List (ProjectRow V) → List (ProjectRow V)
  unfolding insert_row
  order_rows [] = []
  order_rows (r ∷ rows) = insert_row r (order_rows rows)

  -- The loop of `rehydrate`.
  unfoldable pub load_rows :
      List (HistoryRow V) → List (ProjectRow V) → Dict (Project V) → Dict (Project V)
  unfolding row_to_project set
  load_rows history [] records = records
  load_rows history (row ∷ rows) records =
      load_rows history rows (set row.id (row_to_project history row) records)

  unfoldable pub rehydrate : Manager V → Manager V
  unfolding load_rows order_rows
  rehydrate m = record m { records = load_rows m.project_history (order_rows m.projects) [] }
