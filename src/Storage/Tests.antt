-- ===== src/Storage/Tests.antt =====
-- Runs of the models of server/storage.py and server/cache.py on a small cache, and their theorems
-- at it.
use astrolab.Prelude.{
  ℕ, ◌-◌, String, ◌≡◌, refl, true, false, Option, none, some, List, [], ◌∷◌, arith, sym, ◌≤◌,
  if◌then◌else◌, ◌&&◌, not,
}
use mathlib.Core.Option.{some-injective}
use astrolab.Dict.{Dict, get, set, IsDict}
use astrolab.Models.{NodeSpec, Template, Job, auto, Ref, image_fits}
use astrolab.Jobs.Manager.{queued_record}
use astrolab.Projects.Records.{Manager, HistoryEntry, edit}
use astrolab.Cache.{Dir, Cache, is_committed, commit}
use astrolab.Cache.Commit.{LoadsBack, commit-LoadsBack}
use astrolab.Storage.Reach.{keep, bulk, CacheEntryInfo, Hashes, by_node, Tiers, build_reachability}
use astrolab.Storage.Order.{key_leb}
use astrolab.Storage.Cleanup.{values, alive_job_ids, run_cleanup}
use astrolab.Storage.Sweep.{gone_or_live, swept_dir}
use astrolab.Storage.Budget.{IsCleaned, run_cleanup-IsCleaned}
use astrolab.Storage.Turns.{run_cleanup-in_turn}
use astrolab.Storage.Headroom.{
  Holds, swept, ensure_disk_headroom, ensure_disk_headroom-Holds, ensure_disk_headroom-over_budget,
}
use astrolab.Storage.Delete.{purge_project_cache}
use astrolab.Storage.Purge.{is_owned_alone, is_output, get-purge_project_cache}

abbrev node : NodeSpec ℕ
node = record {
  id = "n";
  kind = "stack";
  variant = none;
  params = [];
  inputs = [];
  ui_depends_on = none;
}

abbrev template : Template ℕ
template = record {
  id = "mosaic";
  version = 1;
  description = "";
  profile = none;
  nodes = node ∷ [];
  outputs = [];
}

abbrev job : Job ℕ
job = record {
  template_id = "mosaic";
  template_version = 1;
  profile_id = none;
  target_id = none;
  session_ids = [];
  calibration = record { mode = auto; master_ids = [] };
  param_overrides = [];
  inputs = [];
  preview_only = false;
}

abbrev entry : HistoryEntry ℕ
entry = record {
  seq = 0;
  job_id = "j0";
  overrides = [];
  label = none;
  created_at = 1;
  published = false;
  kind = edit;
  snapshot = none;
}

abbrev m : Manager ℕ
m = record {
  records = [];
  projects =
      record {
        id = "p";
        name = "M 31";
        template = template;
        base_job = job;
        current_seq = 0;
        draft_mode = false;
        source_session_ids = [];
        created_at = 1;
        updated_at = 4;
        cover_seq = none;
        description = none;
      }
      ∷ [];
  project_history = record { project_id = "p"; entry = entry } ∷ [];
  store = record { jobs = queued_record template job false "j9" 5 ∷ []; job_events = [] };
}

abbrev tiers : Tiers
tiers kind variant = some keep

abbrev payloads : Dict Hashes
payloads = ("j0", by_node (("n", "h1") ∷ [])) ∷ []

abbrev dir : ℕ → List String → Dir ℕ
dir bytes marks = record {
  done = true;
  bytes = bytes;
  outputs = none;
  warnings = [];
  marks = marks;
}

-- An entry of the project, an orphan, and one that a live job holds.
abbrev cache : Cache ℕ
cache = ("h1", dir 7 []) ∷ ("h0", dir 5 ("gone" ∷ [])) ∷ ("h2", dir 9 ("j9" ∷ [])) ∷ []

cache-IsDict : IsDict cache
unfolding get
cache-IsDict = (refl, (refl, (refl, tt)))

cleaned : (run_cleanup tiers payloads m 15 cache).0 ≡ record {
  evicted_count = 2;
  bytes_freed = 12;
  bytes_remaining = 9;
  over_budget = false;
  skipped_in_use_count = 1;
}
unfolding run_cleanup
cleaned = refl

run_cleanup-IsCleaned_example :
    IsCleaned
      (values (build_reachability tiers payloads m.projects m.project_history cache))
      (λ q. is_committed q cache)
      (alive_job_ids m.store)
      15
      cache
      (run_cleanup tiers payloads m 15 cache)
run_cleanup-IsCleaned_example = run_cleanup-IsCleaned tiers payloads m 15 cache cache-IsDict

abbrev orphan : CacheEntryInfo
orphan = record {
  node_hash = "h0";
  bytes = 5;
  owners = [];
  tier = bulk;
  oldest_owner_updated_at = none;
}

abbrev owned : CacheEntryInfo
owned = record {
  node_hash = "h1";
  bytes = 7;
  owners = "p" ∷ [];
  tier = keep;
  oldest_owner_updated_at = some 4;
}

at_orphan :
    get "h0" (build_reachability tiers payloads m.projects m.project_history cache) ≡ some orphan
unfolding build_reachability get
at_orphan = refl

at_owned :
    get "h1" (build_reachability tiers payloads m.projects m.project_history cache) ≡ some owned
unfolding build_reachability get
at_owned = refl

orphan_first : key_leb owned orphan ≡ false
unfolding key_leb
orphan_first = refl

owned_gone : get "h1" (run_cleanup tiers payloads m 15 cache).1 ≡ none
unfolding run_cleanup get
owned_gone = refl

run_cleanup-in_turn_example :
    gone_or_live (alive_job_ids m.store) (get "h0" (run_cleanup tiers payloads m 15 cache).1) ≡ true
run_cleanup-in_turn_example =
    run_cleanup-in_turn tiers payloads m 15 cache "h0" "h1" orphan owned cache-IsDict at_orphan
      at_owned orphan_first owned_gone

get-purge_project_cache_example :
    get "h1" (purge_project_cache tiers payloads m "p" false cache).cache ≡ (
      if is_committed "h1" cache
        && is_owned_alone payloads m "p" "h1"
        && not (false && is_output m "p" "h1")
      then swept_dir (alive_job_ids m.store) (get "h1" cache)
      else get "h1" cache)
get-purge_project_cache_example =
    get-purge_project_cache tiers payloads m "p" false cache "h1" cache-IsDict

purges : get "h1" (purge_project_cache tiers payloads m "p" false cache).cache ≡ none
unfolding purge_project_cache get
purges = refl

-- A disk of 40 bytes.
abbrev free : Cache ℕ → ℕ
free [] = 40
free ((h, d) ∷ c) = free c - d.bytes

ensure_disk_headroom-Holds_example :
    Holds free tiers payloads m 25 30 cache (ensure_disk_headroom free tiers payloads m 25 30 cache)
ensure_disk_headroom-Holds_example = ensure_disk_headroom-Holds free tiers payloads m 25 30 cache

room_after : 25 ≤ free (run_cleanup tiers payloads m 0 cache).1
unfolding run_cleanup
room_after = omega arith

ensure_disk_headroom-over_budget_example :
    ensure_disk_headroom free tiers payloads m 25 20 cache
    ≡ (swept (run_cleanup tiers payloads m 0 cache).0, (run_cleanup tiers payloads m 0 cache).1)
ensure_disk_headroom-over_budget_example =
    ensure_disk_headroom-over_budget free tiers payloads m 25 20 cache (omega arith) room_after

abbrev output : Ref
output = record {
  display_ready = true;
  node_hash = "h3";
  port = "image";
  path = "h3/image.fit";
  type = image_fits;
}

-- Paths under which no two files of an entry share a name.
abbrev join : String → String → String
join hash rel = rel

abbrev relative : Ref → Option String
relative r = some r.path

commit-LoadsBack_example :
    LoadsBack join "h3"
      (commit relative "h3" (("image", output) ∷ []) [] 3 (set "h3" (dir 0 []) cache))
commit-LoadsBack_example =
    commit-LoadsBack join relative "h3" (("image", output) ∷ []) [] 3 (set "h3" (dir 0 []) cache)
      (λ r rel e. sym (some-injective r.path rel e)) ((refl, refl), tt)
