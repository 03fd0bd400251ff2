-- ===== src/Storage/Delete.antt =====
-- `purge_project_cache` and `delete_project` of server/storage.py.
use astrolab.Prelude.{
  String, Bool, true, false, Option, none, some, List, [], ◌∷◌, ◌++◌, map, str_eq, if◌then◌else◌,
  ◌&&◌, not, keep_if,
}
use astrolab.Dict.{Dict}
use astrolab.Models.{Ref}
use astrolab.Jobs.Store.{JobRecord, Store}
use astrolab.Cache.{Cache, member}
use astrolab.Projects.Records.{HistoryEntry, Manager}
use astrolab.Projects.Tables.{entries_of, delete_rows}
use astrolab.Storage.Reach.{CacheEntryInfo, Tiers, Hashes, build_reachability}
use astrolab.Storage.Cleanup.{Sweep, sweep_entry, start_sweep, values, alive_job_ids}

-- `e.owners == {project_id}`
abbrev pub is_sole : String → CacheEntryInfo → Bool
is_sole pid e = elim e.owners [
  | [] ↦ false
  | o ∷ owners ↦ elim owners [ [] ↦ str_eq o pid | _ ∷ _ ↦ false ]
]

abbrev pub output_hashes : Option (Dict Ref) → List String
output_hashes none = []
output_hashes (some outputs) = map (λ o. o.1.node_hash) outputs

abbrev pub is_candidate : String → (kept : List String) → CacheEntryInfo → Bool
is_candidate pid kept e = is_sole pid e && not (member e.node_hash kept)

module _ {V : Type 0} where
  -- The outputs of the rows of `jobs` with the id, in the join.
  unfoldable pub joined : String → List (JobRecord V) → List String
  joined id [] = []
  joined id (r ∷ rows) =
      let rest = joined id rows in if str_eq r.id id then output_hashes r.outputs ++ rest else rest

  unfoldable pub terminal_of : List (HistoryEntry V) → Store V → List String
  unfolding joined
  terminal_of [] db = []
  terminal_of (h ∷ history) db = joined h.job_id db.jobs ++ terminal_of history db

  unfoldable pub terminal_output_hashes : String → Manager V → List String
  unfolding terminal_of entries_of
  terminal_output_hashes pid m = terminal_of (entries_of pid m.project_history) m.store

  -- The loop over the candidates.
  unfoldable pub purge_entries : (alive : List String) → List CacheEntryInfo → Sweep V → Sweep V
  unfolding sweep_entry
  purge_entries alive [] s = s
  purge_entries alive (e ∷ infos) s = purge_entries alive infos (sweep_entry alive e s)

  abbrev pub kept_hashes : String → (keep_outputs : Bool) → Manager V → List String
  kept_hashes pid true m = terminal_output_hashes pid m
  kept_hashes pid false m = []

  unfoldable pub purge_project_cache :
      Tiers → Dict Hashes → Manager V → (pid : String) (keep_outputs : Bool) → Cache V → Sweep V
  unfolding purge_entries terminal_output_hashes alive_job_ids build_reachability
  purge_project_cache tiers payloads m pid keep_outputs c =
      purge_entries (alive_job_ids m.store)
        (keep_if (is_candidate pid (kept_hashes pid keep_outputs m))
          (values (build_reachability tiers payloads m.projects m.project_history c)))
        (start_sweep c)

  unfoldable pub delete_project :
      Tiers → Dict Hashes → Manager V → (pid : String) → Cache V → Sweep V × Manager V
  unfolding purge_project_cache delete_rows
  delete_project tiers payloads m pid c =
      (purge_project_cache tiers payloads m pid false c, delete_rows pid m)
