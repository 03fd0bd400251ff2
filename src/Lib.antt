-- ===== src/Lib.antt =====
-- astrolab (a local web application that stacks astronomical images): a model of the server's core
-- logic and proofs about it.
--
-- The parts of the program. The API (server/api.py) edits projects through ProjectManager
-- (server/projects.py); each edit makes a new param override set and submits a job through
-- JobManager (server/jobs.py), which inserts a row in the `jobs` table of a SQLite catalog. A worker
-- process (server/worker.py) claims queued rows through JobWorker (server/jobs.py), runs them and
-- logs events in `job_events`. Projects and their histories stand in memory and in the tables
-- `projects` and `project_history`, from which `rehydrate` reads them after a restart.
--
-- The files:
--   Prelude, Dict: shared names, lists, decisions, and Python's dict in insertion order.
--   Models: server/models.py and server/ports.py (NodeSpec, Template, Job, Ref, PortType).
--   Migrations: server/template_migrations.py (`migrate_param_overrides`), with the proof in
--     Migrations/Survivors.
--   Jobs: server/jobs.py. Jobs/Store has the tables and `_persist_event`, `_load_events`;
--     Jobs/Manager has the methods of JobManager; Jobs/Worker those of JobWorker, up to `_run`.
--     Steps has the transactions as a step relation; Rows, Numbers, Polling, Claims, Cancels,
--     Lifecycle and Reclaim have the proofs.
--   Projects: server/projects.py. Projects/Overrides has `_deep_merge_overrides`; Projects/Labels
--     `_diff_label`; Projects/Records the data; Projects/Tables the `_persist_*` methods,
--     `_row_to_project`, `rehydrate`, and the rows that `delete_project` of server/storage.py
--     deletes; Projects/Manager has `create` and `patch`; Projects/Rebuild `swap_sessions` and
--     `upgrade_template`; Projects/Metadata the other methods. The proofs: Seqs, Valid, Kept and
--     Requests (the invariant of the records, over all sequences of calls), Patched and Edits (what a
--     patch does), TableLaws, Sync, Durable, PatchSync, Persist, Rows, Restart (the tables against the map),
--     Overwrite (where the two part).
--   Cache: server/cache.py (ContentCache), with Cache/Commit for the round trip of the outputs.
--   Storage: server/storage.py. Storage/Reach has `build_reachability`; Storage/Order the key of
--     eviction and the sort; Storage/Cleanup `run_cleanup`; Storage/Headroom `ensure_disk_headroom`;
--     Storage/Delete `purge_project_cache` and `delete_project`. The proofs: Sweep (the loop),
--     Described, Owners and Owned (the entries found and their owners), Budget and Turns (what is
--     evicted), and Headroom and Purge.
--   Runtime: server/runtime.py. Runtime/Topo has `_topo_order`; Runtime/Graph `_successors`;
--     Runtime/Inputs `_resolve_inputs` and the helpers beside it; Runtime/Nodes, Plan and Execute
--     the three passes of `run_job`, on the surroundings of Runtime/World, and Runtime/Job all of it.
--     The proofs: Sorted, Fuel, Edges and Order (the order and the plan), Stages and Events (what is
--     sent) and Safe (the outputs).
--   Canonical: server/canonical.py. Canonical/Values has `canonical_value`, Canonical/Print
--     `canonical_json`, Canonical/Key `node_hash`; Texts and Sorting Python's order and `sorted`. The
--     proofs: Stable (canonical values) and Alike (the key).
--   Worker: server/worker.py (`_run_loop`, `_Shutdown`) as a step relation, with the proof in
--     Worker/Drain.
--   Catalog: server/catalog. Catalog/Rows has the tables of db.py; Catalog/Clusters and
--     Catalog/Sessions have sessions.py (`_compute_clusters`, `_match_cluster_to_session`,
--     `cluster_sessions`); Catalog/Masters, Matchers and Matches the matchers, `match_session` and
--     `match_all_sessions` of matching.py, and Bundles and Bins `match_bundle_darks`. The proofs: Runs and
--     Partition (the clusters), Overlap, Placed, Placement, Rounds and Rebuilt (the rebuild), Picks
--     (the best master), Kinds and Settled (what is written), Thermal and Clash (temperatures).
--   Builder: server/job_builder.py. Builder/Bundle has the checks of the sessions, Builder/Staging
--     `_stage_multi_session_lights`, Builder/Wire the ports, Builder/Build `build_from_sessions`. The
--     proofs: Ids, Links and Staged, Compatible and Gates.
--
-- How the code is written. State is passed explicitly: a method takes the state and gives its result
-- beside the state that it leaves, and an exception is a value of `Result`. A table is the list of
-- its rows in the order of insertion, and `UPDATE … WHERE id = ?` goes over all of them. A uuid or an
-- instant that a method draws is an argument; a theorem that needs a fresh uuid says so. JSON columns
-- stand for the values they encode, labels and dropped lines for their parts. A transaction is one
-- function, and calls are serialised, as the managers' locks and SQLite's writer lock do. Instants
-- count microseconds. Floats stand in params only, where they are of any type: exposure times count
-- microseconds and temperatures thousandths of a degree, and the rounding of their arithmetic is not
-- modelled. Python's `sorted` raises a TypeError where it has to compare what cannot be compared,
-- which is written as a test before the sort.
--
-- Parameters stand for code that is not part of the repository or that the operating system answers:
-- Python's `==` on JSON values (Values), `str.strip`, whether a process exists, the registered
-- migrations, the schemas and tiers of the node classes (Fields, Tiers), the bytes free on the disk,
-- and the relative paths of an entry's files. The scores of server/quality.py, which has no model,
-- are an argument of `terminate`. So are Python's `fromisoformat`, SQLite's AVG, the profiles of the
-- scopes, `pathlib`, and the registry of node classes; no file operation of the staging fails. For the
-- runtime they are the schemas of the params, the hash of a node, what the `run` of a node logs and
-- returns, and the files of an entry (Library, World). For the canonical form they are floats with
-- `round`, what `json` writes for a text and a float, and SHA-256.
-- Every loop of the modelled code is a recursion on a list, but for the digits of a number, whose
-- fuel is above the number, and for the search of `_topo_order`: its fuel is one more than the number
-- of nodes, since each call inside another has one more node on the path.
--
-- Not modelled: the HTTP layer, the node kinds that drive Siril, GraXpert and other programs, image
-- previews, the sky charts, the catalog's scanner and its web queries, the telescope scheduler, and
-- the web interface: most of it calls other programs, libraries and devices.

pub mod Prelude
pub mod Dict
pub mod Models
pub mod Migrations
pub mod Jobs
pub mod Projects
pub mod Cache
pub mod Storage
pub mod Runtime
pub mod Worker
pub mod Catalog
pub mod Builder
pub mod Canonical
