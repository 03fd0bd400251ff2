-- ===== src/Projects/Requests.antt =====
-- Sequences of calls to ProjectManager (server/projects.py), with the worker's changes to the jobs
-- between them.
use astrolab.Prelude.{ℕ, String, Bool, Option, List, [], ◌∷◌}
use astrolab.Dict.{Dict}
use astrolab.Models.{Template, Job}
use astrolab.Migrations.{Migration, Fields}
use astrolab.Jobs.Store.{Store}
use astrolab.Projects.Records.{Manager, Snapshot}
use astrolab.Projects.Labels.{Values}
use astrolab.Projects.Manager.{Edit, create, patch}
use astrolab.Projects.Tables.{delete_rows}
use astrolab.Projects.Metadata.{forget, set_cover, set_published, revert, set_description}
use astrolab.Projects.Rebuild.{swap_sessions, upgrade_template}
use astrolab.Projects.Valid.{IsSound, patch-IsSound}
use astrolab.Projects.Kept.{
  create-IsSound, swap_sessions-IsSound, upgrade_template-IsSound, set_cover-IsSound,
  set_published-IsSound, revert-IsSound, set_description-IsSound, forget-IsSound,
}

-- A call with its arguments, the ids and the instant that it draws.
pub data Request (V : Type 0) : Type 0 where
  on_create :
      (pid job_id : String) (now : ℕ) (name : String) → Template V → Job V → List String → Request V
  on_patch : (pid : String) → Edit V → (job_id : String) (now : ℕ) → Request V
  on_swap :
      (pid : String)
      → Job V
      → List String
      → Snapshot V
      → (auto_render : Bool) → (job_id : String) (now : ℕ) → Request V
  on_upgrade : (pid : String) → Template V → (job_id : String) (now : ℕ) → Request V
  on_cover : (pid : String) → Option ℕ → (now : ℕ) → Request V
  on_published : (pid : String) (seq : ℕ) → Bool → (now : ℕ) → Request V
  on_description : (pid : String) → Option String → (now : ℕ) → Request V
  on_revert : (pid : String) (seq now : ℕ) → Request V
  -- `delete_project` of server/storage.py, and then `forget`
  on_delete : (pid : String) → Request V
  -- the worker leaves the tables of the jobs in some other state
  on_worker : Store V → Request V

module _ {V : Type 0} (values : Values V) (migrations : Dict (Migration V)) (fields : Fields)
    (strip : String → String) where
  unfoldable pub perform : Request V → Manager V → Manager V
  perform (on_create pid job_id now name t j ids) m = (create pid job_id now name t j ids m).1
  perform (on_patch pid e job_id now) m = (patch values pid e job_id now m).1
  perform (on_swap pid j ids snapshot auto job_id now) m =
      (swap_sessions pid j ids snapshot auto job_id now m).1
  perform (on_upgrade pid t job_id now) m =
      (upgrade_template migrations fields pid t job_id now m).1
  perform (on_cover pid seq now) m = (set_cover pid seq now m).1
  perform (on_published pid seq b now) m = (set_published pid seq b now m).1
  perform (on_description pid text now) m = (set_description strip pid text now m).1
  perform (on_revert pid seq now) m = (revert pid seq now m).1
  perform (on_delete pid) m = (forget pid (delete_rows pid m)).0
  perform (on_worker store) m = record m { store = store }

  unfoldable pub serve : List (Request V) → Manager V → Manager V
  unfolding perform
  serve [] m = m
  serve (r ∷ requests) m = serve requests (perform r m)

  -- Every call, whether it succeeds or raises, keeps the records sound: each project stands under
  -- its id, its history seqs ascend strictly, and current_seq and cover_seq are on entries of it.
  pub perform-IsSound :
      (r : Request V) (m : Manager V) → IsSound m.records → IsSound (perform r m).records
  unfolding perform
  perform-IsSound (on_create pid job_id now name t j ids) m h =
      create-IsSound pid job_id now name t j ids m h
  perform-IsSound (on_patch pid e job_id now) m h = patch-IsSound values pid e job_id now m h
  perform-IsSound (on_swap pid j ids snapshot auto job_id now) m h =
      swap_sessions-IsSound pid j ids snapshot auto job_id now m h
  perform-IsSound (on_upgrade pid t job_id now) m h =
      upgrade_template-IsSound migrations fields pid t job_id now m h
  perform-IsSound (on_cover pid seq now) m h = set_cover-IsSound pid seq now m h
  perform-IsSound (on_published pid seq b now) m h = set_published-IsSound pid seq b now m h
  perform-IsSound (on_description pid text now) m h = set_description-IsSound strip pid text now m h
  perform-IsSound (on_revert pid seq now) m h = revert-IsSound pid seq now m h
  perform-IsSound (on_delete pid) m h =
      unfold delete_rows in forget-IsSound pid (delete_rows pid m) h
  perform-IsSound (on_worker store) m h = h

  -- After any sequence of calls from sound records, and whatever the worker does in between, the
  -- records are sound: each project stands under its id, its history seqs ascend strictly, and
  -- current_seq and cover_seq are on entries of its history.
  pub serve-IsSound :
      (requests : List (Request V)) (m : Manager V)
      → IsSound m.records
      → IsSound (serve requests m).records
  unfolding serve
  serve-IsSound [] m h = h
  serve-IsSound (r ∷ requests) m h = serve-IsSound requests (perform r m) (perform-IsSound r m h)
