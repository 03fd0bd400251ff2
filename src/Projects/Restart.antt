-- ===== src/Projects/Restart.antt =====
-- A restart of ProjectManager (server/projects.py), after any sequence of calls.
use astrolab.Prelude.{
  ℕ, String, ◌≡◌, refl, none, some, List, [], ◌∷◌, str_eq, eq_refl, ap, ◌∙◌, Option-cases,
  Bool-cases, inl, inr,
}
use mathlib.Core.List.{append-nil}
use astrolab.Dict.{Dict, get, get-pop}
use astrolab.Models.{Template, Job}
use astrolab.Migrations.{Migration, Fields}
use astrolab.Projects.Records.{Project, Manager}
use astrolab.Projects.Labels.{Values}
use astrolab.Projects.Manager.{create, new_project, initial_entry}
use astrolab.Projects.Metadata.{forget}
use astrolab.Projects.Tables.{
  entries_of, order_entries, delete_rows, inserted_row, of_row, row_to_project, rehydrate,
}
use astrolab.Projects.TableLaws.{find_row, find_row_snoc, entries_of_snoc}
use astrolab.Projects.Valid.{IsSound}
use astrolab.Projects.Sync.{loaded, history_of, IsSynced, put-IsSynced}
use astrolab.Projects.Rows.{
  HasKey, find_row-id, get-rehydrate, found_or, find_row-drop_row, entries_of-drop_entries,
}
use astrolab.Projects.Requests.{Request, perform, serve, perform-IsSound}
use astrolab.Projects.PatchSync.{OverwritesPlain, patch-IsSynced}
use astrolab.Projects.Persist.{
  swap_sessions-IsSynced, upgrade_template-IsSynced, set_cover-IsSynced, set_published-IsSynced,
  revert-IsSynced, set_description-IsSynced,
}

module _ {V : Type 0} where
  -- A drawn uuid is in no table.
  abbrev pub IsFresh : String → Manager V → Type 0
  IsFresh pid m =
      (get pid m.records ≡ none)
      × (find_row pid m.projects ≡ none)
      × (entries_of pid m.project_history ≡ [])

  create-IsSynced :
      (pid job_id : String) (now : ℕ) (name : String) (t : Template V) (j : Job V)
      (session_ids : List String) (m : Manager V)
      → IsFresh pid m
      → IsSynced m
      → IsSynced (create pid job_id now name t j session_ids m).1
  unfolding create
  create-IsSynced pid job_id now name t j session_ids m fresh s =
      let p : Project V = new_project pid now name t j session_ids in
      let entry = initial_entry job_id now j.param_overrides in
      let p' = record p { history = entry ∷ [] } in
      put-IsSynced pid p' m _ refl
        (rw (find_row_snoc pid (inserted_row p') m.projects) (
          rw (entries_of_snoc pid (record { project_id = pid; entry = entry }) m.project_history)
            (rw (fresh.1, fresh.2, eq_refl) (unfold order_entries in refl))))
        (λ q ne. rw (find_row_snoc q (inserted_row p') m.projects) (
          rw (entries_of_snoc q (record { project_id = pid; entry = entry }) m.project_history) (
            rw (ne, append-nil)
              (elim (Option-cases (find_row q m.projects)) [
                | inl e ↦ rw e (rw ne)
                | inr (r, e) ↦ rw e
              ]))))
        s

  delete-IsSynced :
      (pid : String) (m : Manager V) → IsSynced m → IsSynced (forget pid (delete_rows pid m)).0
  unfolding forget delete_rows
  delete-IsSynced pid m s = record {
    same = λ q. rw (find_row-drop_row pid q m.projects) (
        rw (entries_of-drop_entries pid q m.project_history) (
          rw (get-pop pid q m.records)
            (elim (Bool-cases (str_eq pid q)) [ inl e ↦ rw e | inr e ↦ rw e (s.same q) ])));
  }

  -- A row read back as a project is what the map is compared with.
  found_or-read :
      (pid : String) (m : Manager V)
      → found_or m.project_history none (find_row pid m.projects) ≡ loaded pid m
  found_or-read pid m = elim (Option-cases (find_row pid m.projects)) [
    | inl e ↦ rw e
    | inr (r, e) ↦ rw e (
        unfold row_to_project in
        ap (λ i. some (of_row (history_of i m.project_history) r)) (find_row-id pid r m.projects e))
  ]

module _ {V : Type 0} (values : Values V) (migrations : Dict (Migration V)) (fields : Fields)
    (strip : String → String) where
  -- The calls whose writes are complete: a new project's id is fresh, and a patch that overwrites an
  -- entry overwrites a plain edit.
  abbrev pub IsFair : Request V → Manager V → Type 0
  IsFair (Request.on_create pid job_id now name t j ids) m = IsFresh pid m
  IsFair (Request.on_patch pid e job_id now) m = OverwritesPlain pid m
  IsFair _ m = Unit

  abbrev pub AreFair : List (Request V) → Manager V → Type 0
  AreFair [] m = Unit
  AreFair (r ∷ requests) m =
      IsFair r m × AreFair requests (perform values migrations fields strip r m)

  perform-IsSynced :
      (r : Request V) (m : Manager V)
      → IsFair r m
      → IsSound m.records
      → IsSynced m
      → IsSynced (perform values migrations fields strip r m)
  unfolding perform
  perform-IsSynced (Request.on_create pid job_id now name t j ids) m fair h s =
      create-IsSynced pid job_id now name t j ids m fair s
  perform-IsSynced (Request.on_patch pid e job_id now) m fair h s =
      patch-IsSynced values pid e job_id now m h fair s
  perform-IsSynced (Request.on_swap pid j ids snapshot auto job_id now) m fair h s =
      swap_sessions-IsSynced pid j ids snapshot auto job_id now m h s
  perform-IsSynced (Request.on_upgrade pid t job_id now) m fair h s =
      upgrade_template-IsSynced migrations fields pid t job_id now m h s
  perform-IsSynced (Request.on_cover pid seq now) m fair h s = set_cover-IsSynced pid seq now m h s
  perform-IsSynced (Request.on_published pid seq b now) m fair h s =
      set_published-IsSynced pid seq b now m h s
  perform-IsSynced (Request.on_description pid text now) m fair h s =
      set_description-IsSynced strip pid text now m h s
  perform-IsSynced (Request.on_revert pid seq now) m fair h s = revert-IsSynced pid seq now m h s
  perform-IsSynced (Request.on_delete pid) m fair h s = delete-IsSynced pid m s
  perform-IsSynced (Request.on_worker store) m fair h s = record { same = s.same }

  pub serve-IsSynced :
      (requests : List (Request V)) (m : Manager V)
      → AreFair requests m
      → IsSound m.records
      → IsSynced m
      → IsSynced (serve values migrations fields strip requests m)
  unfolding serve
  serve-IsSynced [] m fair h s = s
  serve-IsSynced (r ∷ requests) m fair h s =
      serve-IsSynced requests (perform values migrations fields strip r m) fair.1
        (perform-IsSound values migrations fields strip r m h) (perform-IsSynced r m fair.0 h s)

  -- From a sound state whose tables agree with its map, after any sequence of calls that create
  -- under fresh ids and whose patches overwrite plain edits only, a restart finds under every id
  -- exactly the project that was in memory, or none where there was none. (The ids of `projects` are
  -- a primary key.)
  pub get-rehydrate-serve :
      (requests : List (Request V)) (m : Manager V) (pid : String)
      → AreFair requests m
      → IsSound m.records
      → IsSynced m
      → HasKey (serve values migrations fields strip requests m).projects
      → get pid (rehydrate (serve values migrations fields strip requests m)).records
        ≡ get pid (serve values migrations fields strip requests m).records
  get-rehydrate-serve requests m pid fair h s key =
      let after = serve values migrations fields strip requests m in
      get-rehydrate pid after key
      ∙ found_or-read pid after
      ∙ (serve-IsSynced requests m fair h s).same pid
