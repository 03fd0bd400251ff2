-- ===== src/Projects/Persist.antt =====
-- The other methods of ProjectManager (server/projects.py) and the tables.
use astrolab.Prelude.{
  ℕ, String, ◌≡◌, refl, Bool, true, false, Option, some, List, sym, subst, option_both, if_both,
}
use astrolab.Dict.{Dict, get}
use astrolab.Models.{Template, Job}
use astrolab.Migrations.{Migration, Fields, migrate_param_overrides}
use astrolab.Projects.Records.{
  HistoryEntry, ProjectRow, Project, Manager, Snapshot, current_entry, publish_entry,
}
use astrolab.Projects.Tables.{
  persist_update, persist_published, updated_row, full_row, template_row, of_row,
}
use astrolab.Projects.Manager.{put, append_entry, next_entry_seq}
use astrolab.Projects.Metadata.{
  set_cover, set_published, revert, set_description, has_seq, normalized,
}
use astrolab.Projects.Rebuild.{
  swap_entry, swapped_overrides, upgrade_entry, swap_sessions, swap_from, upgrade_template, rebound,
  retemplated,
}
use astrolab.Projects.Seqs.{IsAscending, seqs}
use astrolab.Projects.Valid.{IsSound}
use astrolab.Projects.TableLaws.{change_at, change_at-publish_entry}
use astrolab.Projects.Sync.{IsSynced}
use astrolab.Projects.Durable.{append-IsSynced, update-IsSynced, edit-IsSynced}
use astrolab.Projects.PatchSync.{Syncs, own_id}

module _ {V : Type 0} where
  swap_from-IsSynced :
      (j : Job V) (session_ids : List String) (snapshot : Snapshot V) (auto : Bool)
      (job_id : String) (now : ℕ) (p : Project V) (prev : HistoryEntry V) (m : Manager V)
      → get p.id m.records ≡ some p
      → IsSynced m
      → IsSynced (swap_from j session_ids snapshot auto job_id now p prev m).1
  unfolding swap_from
  swap_from-IsSynced j session_ids snapshot true job_id now p prev m found s =
      let e =
        swap_entry (next_entry_seq p) job_id now (swapped_overrides j prev) session_ids snapshot in
      append-IsSynced (λ q. append_entry e now (rebound j session_ids q)) full_row e p m _
        (λ q r. refl) (λ h r. refl) found refl s
  swap_from-IsSynced j session_ids snapshot false job_id now p prev m found s =
      let e =
        swap_entry (next_entry_seq p) prev.job_id now (swapped_overrides j prev) session_ids
          snapshot in
      append-IsSynced (λ q. append_entry e now (rebound j session_ids q)) full_row e p m _
        (λ q r. refl) (λ h r. refl) found refl s

  pub swap_sessions-IsSynced :
      (pid : String) (j : Job V) (session_ids : List String) (snapshot : Snapshot V) (auto : Bool)
      (job_id : String) (now : ℕ) (m : Manager V)
      → IsSound m.records
      → IsSynced m
      → IsSynced (swap_sessions pid j session_ids snapshot auto job_id now m).1
  swap_sessions-IsSynced pid j session_ids snapshot auto job_id now m h s =
      unfold swap_sessions in
      option_both Syncs (get pid m.records) s λ p found.
        option_both Syncs (current_entry p) s λ prev _.
          swap_from-IsSynced j session_ids snapshot auto job_id now p prev m
            (own_id pid p m h found) s

  pub upgrade_template-IsSynced :
      (migrations : Dict (Migration V)) (fields : Fields) (pid : String) (t : Template V)
      (job_id : String) (now : ℕ) (m : Manager V)
      → IsSound m.records
      → IsSynced m
      → IsSynced (upgrade_template migrations fields pid t job_id now m).1
  upgrade_template-IsSynced migrations fields pid t job_id now m h s =
      unfold upgrade_template in
      option_both Syncs (get pid m.records) s λ p found. if_both Syncs _ s (
        option_both Syncs (current_entry p) s λ prev _.
          let (overrides, dropped) =
            migrate_param_overrides migrations fields t p.template.version prev.overrides in
          let e =
            upgrade_entry (next_entry_seq p) job_id now overrides p.template.version t.version
              dropped in
          append-IsSynced (λ q. append_entry e now (retemplated t q)) template_row e p m _
            (λ q r. refl) (λ h r. refl) (own_id pid p m h found) refl s)

  pub set_cover-IsSynced :
      (pid : String) (seq : Option ℕ) (now : ℕ) (m : Manager V)
      → IsSound m.records
      → IsSynced m
      → IsSynced (set_cover pid seq now m).1
  set_cover-IsSynced pid seq now m h s =
      unfold set_cover in
      option_both Syncs (get pid m.records) s λ p found.
        if_both Syncs _
          (update-IsSynced (λ q. record q { cover_seq = seq; updated_at = now }) updated_row p m
            (λ q r. refl) (λ h r. refl) (own_id pid p m h found) s)
          s

  pub revert-IsSynced :
      (pid : String) (seq now : ℕ) (m : Manager V)
      → IsSound m.records
      → IsSynced m
      → IsSynced (revert pid seq now m).1
  revert-IsSynced pid seq now m h s =
      unfold revert in
      option_both Syncs (get pid m.records) s λ p found.
        if_both Syncs (has_seq seq p)
          (update-IsSynced (λ q. record q { current_seq = seq; updated_at = now }) updated_row p m
            (λ q r. refl) (λ h r. refl) (own_id pid p m h found) s)
          s

  pub set_description-IsSynced :
      (strip : String → String) (pid : String) (text : Option String) (now : ℕ) (m : Manager V)
      → IsSound m.records
      → IsSynced m
      → IsSynced (set_description strip pid text now m).1
  set_description-IsSynced strip pid text now m h s =
      unfold set_description in
      option_both Syncs (get pid m.records) s λ p found.
        update-IsSynced (λ q. record q { description = normalized strip text; updated_at = now })
          updated_row p m (λ q r. refl) (λ h r. refl) (own_id pid p m h found) s

  -- What `set_published` leaves, where it persists the flag under the id `i`.
  published_at : String → Project V → ℕ → Bool → ℕ → Manager V → Manager V
  unfolding persist_update persist_published
  published_at i p seq b now m =
      let project = record p { history = publish_entry seq b p.history; updated_at = now } in
      persist_update project (persist_published i seq b (put project m))

  published_row :
      (seq : ℕ) (b : Bool) (p : Project V) (h : List (HistoryEntry V)) (r : ProjectRow V)
      → IsAscending (seqs p.history)
      → of_row h r ≡ p
      → change_at (λ e. record e { published = b }) seq h ≡ publish_entry seq b h
  published_row seq b p h r up is =
      change_at-publish_entry seq b h
        (subst (λ (q : Project V). IsAscending (seqs q.history)) (sym is) up)

  pub set_published-IsSynced :
      (pid : String) (seq : ℕ) (b : Bool) (now : ℕ) (m : Manager V)
      → IsSound m.records
      → IsSynced m
      → IsSynced (set_published pid seq b now m).1
  set_published-IsSynced pid seq b now m h s =
      unfold set_published published_at in
      option_both Syncs (get pid m.records) s λ p found.
        if_both Syncs (has_seq seq p)
          (subst (λ i. IsSynced (published_at i p seq b now m)) (h.keyed pid p found)
            (edit-IsSynced
              (λ q. record q { history = publish_entry seq b q.history; updated_at = now })
              updated_row (λ e. record e { published = b }) seq p m m.store (λ q r. refl)
              (λ e. refl)
              (λ h' r is. rw (published_row seq b p h' r (h.valid pid p found).ascending is))
              (own_id pid p m h found) s))
          s
