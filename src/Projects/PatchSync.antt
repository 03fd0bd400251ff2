-- ===== src/Projects/PatchSync.antt =====
-- `patch` of ProjectManager (server/projects.py) and the tables, on both of its ways.
use astrolab.Prelude.{
  ℕ, String, ◌≡◌, refl, Bool, true, Option, none, some, List, sym, ap, ◌∙◌, subst, option_both,
  if_both_eq,
}
use mathlib.Core.Option.{some-injective}
use astrolab.Dict.{get}
use astrolab.Jobs.Store.{Store}
use astrolab.Projects.Records.{
  HistoryEntry, ProjectRow, Project, Manager, Result, entry_at, current_entry, replace_entry,
}
use astrolab.Projects.Labels.{Values}
use astrolab.Projects.Tables.{updated_row, of_row, replaced_columns}
use astrolab.Projects.Manager.{
  Edit, patch, patch_entry, patch_collapsed, patch_appended, collapses, append_entry,
  next_entry_seq, with_draft,
}
use astrolab.Projects.Seqs.{IsAscending, seqs}
use astrolab.Projects.Valid.{IsSound}
use astrolab.Projects.Edits.{entry_at-seq}
use astrolab.Projects.TableLaws.{change_at, IsPlain, change_at-replace_entry}
use astrolab.Projects.Sync.{IsSynced}
use astrolab.Projects.Durable.{append-IsSynced, edit-IsSynced}

module _ {V : Type 0} where
  abbrev pub Syncs : {A : Type 0} → Result A × Manager V → Type 0
  Syncs r = IsSynced r.1

  patch_appended-IsSynced :
      (entry : HistoryEntry V) (now : ℕ) (d : Option Bool) (p : Project V) (m : Manager V)
      (store : Store V)
      → get p.id m.records ≡ some p
      → entry.seq ≡ next_entry_seq p
      → IsSynced m
      → IsSynced (patch_appended entry now (with_draft d p) (record m { store = store })).1
  unfolding patch_appended
  patch_appended-IsSynced entry now none p m store found next s =
      append-IsSynced (append_entry entry now) updated_row entry p m store (λ q r. refl)
        (λ h r. refl) found next s
  patch_appended-IsSynced entry now (some d) p m store found next s =
      append-IsSynced (λ q. append_entry entry now (with_draft (some d) q)) updated_row entry p m
        store (λ q r. refl) (λ h r. refl) found next s

  replaced :
      (entry : HistoryEntry V) (p : Project V) (h : List (HistoryEntry V)) (r : ProjectRow V)
      → IsPlain entry
      → IsAscending (seqs p.history)
      → ((old : HistoryEntry V) → entry_at entry.seq p.history ≡ some old → IsPlain old)
      → of_row h r ≡ p
      → change_at (replaced_columns entry) entry.seq h ≡ replace_entry entry h
  replaced entry p h r plain up old is =
      change_at-replace_entry entry h plain
        (subst (λ (q : Project V). IsAscending (seqs q.history)) (sym is) up)
        (λ o at. old o (subst (λ (q : Project V). entry_at entry.seq q.history ≡ some o) is at))

  patch_collapsed-IsSynced :
      (entry : HistoryEntry V) (now : ℕ) (d : Option Bool) (p : Project V) (m : Manager V)
      (store : Store V)
      → get p.id m.records ≡ some p
      → IsPlain entry
      → IsAscending (seqs p.history)
      → ((old : HistoryEntry V) → entry_at entry.seq p.history ≡ some old → IsPlain old)
      → IsSynced m
      → IsSynced (patch_collapsed entry now (with_draft d p) (record m { store = store })).1
  unfolding patch_collapsed
  patch_collapsed-IsSynced entry now none p m store found plain up old s =
      edit-IsSynced (λ q. record q { history = replace_entry entry q.history; updated_at = now })
        updated_row (replaced_columns entry) entry.seq p m store (λ q r. refl) (λ e. refl)
        (λ h r is. rw (replaced entry p h r plain up old is)) found s
  patch_collapsed-IsSynced entry now (some d) p m store found plain up old s =
      edit-IsSynced
        (λ q. record q {
          history = replace_entry entry q.history;
          updated_at = now;
          draft_mode = d;
        })
        updated_row (replaced_columns entry) entry.seq p m store (λ q r. refl) (λ e. refl)
        (λ h r is. rw (replaced entry p h r plain up old is)) found s

  patch_entry-IsSynced :
      (values : Values V) (e : Edit V) (job_id : String) (now : ℕ) (p : Project V)
      (prev : HistoryEntry V) (m : Manager V)
      → get p.id m.records ≡ some p
      → IsAscending (seqs p.history)
      → current_entry p ≡ some prev
      → (collapses prev m.store ≡ true → IsPlain prev)
      → IsSynced m
      → IsSynced (patch_entry values e job_id now (with_draft e.draft_mode p) prev m).1
  patch_entry-IsSynced values e job_id now p prev m found up cur plain s =
      unfold patch_entry in
      if_both_eq Syncs (collapses prev m.store)
        (λ c.
          patch_collapsed-IsSynced _ now e.draft_mode p m _ found (refl, refl) up
            (λ old at.
              subst IsPlain
                (some-injective prev old (
                  sym cur
                  ∙ ap (λ n. entry_at n p.history)
                      (sym (entry_at-seq p.current_seq prev p.history cur))
                  ∙ at))
                (plain c))
            s)
        (λ c.
          patch_appended-IsSynced _ now e.draft_mode p m _ found (next_with_draft e.draft_mode p) s)
    where
      next_with_draft :
          (d : Option Bool) (p : Project V) → next_entry_seq (with_draft d p) ≡ next_entry_seq p
      next_with_draft none p = refl
      next_with_draft (some d) p = refl

  -- The project under an id, which is its own.
  pub own_id :
      (pid : String) (p : Project V) (m : Manager V)
      → IsSound m.records
      → get pid m.records ≡ some p
      → get p.id m.records ≡ some p
  own_id pid p m h found = subst (λ i. get i m.records ≡ some p) (sym (h.keyed pid p found)) found

  -- The entry under the pointer, if a patch is to overwrite it, holds no more than a plain edit.
  abbrev pub OverwritesPlain : String → Manager V → Type 0
  OverwritesPlain pid m =
      (p : Project V) (prev : HistoryEntry V)
      → get pid m.records ≡ some p
      → current_entry p ≡ some prev
      → collapses prev m.store ≡ true
      → IsPlain prev

  pub patch-IsSynced :
      (values : Values V) (pid : String) (e : Edit V) (job_id : String) (now : ℕ) (m : Manager V)
      → IsSound m.records
      → OverwritesPlain pid m
      → IsSynced m
      → IsSynced (patch values pid e job_id now m).1
  patch-IsSynced values pid e job_id now m h plain s =
      unfold patch in
      option_both Syncs (get pid m.records) s λ p found.
        option_both Syncs (current_entry p) s λ prev cur.
          patch_entry-IsSynced values e job_id now p prev m (own_id pid p m h found)
            (h.valid pid p found).ascending cur (plain p prev found cur) s
