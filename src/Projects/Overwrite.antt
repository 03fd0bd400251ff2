-- ===== src/Projects/Overwrite.antt =====
-- `_persist_history_entry_replace` of server/projects.py, which writes neither the column kind nor
-- snapshot_json.
use mathlib.Core.Option.{some-injective, none-ne-some}
use astrolab.Prelude.{
  ℕ, String, Bool, true, ◌≡◌, ◌≢◌, refl, Option, none, some, List, [], ◌∷◌, sym, eq_refl, ap, ◌∙◌,
  arith, option_at, if_both_eq,
}
use astrolab.Dict.{get, set, get-set}
use astrolab.Jobs.Store.{Store}
use astrolab.Projects.Records.{
  Project, ProjectRow, HistoryEntry, Manager, Result, entry_at, current_entry, replace_entry, edit,
}
use astrolab.Projects.Labels.{Values}
use astrolab.Projects.Manager.{Edit, patch, patch_entry, patch_collapsed, collapses, with_draft}
use astrolab.Projects.Tables.{update_entry, replaced_columns}
use astrolab.Projects.TableLaws.{change_at}
use astrolab.Projects.Valid.{IsSound}
use astrolab.Projects.Edits.{entry_at-seq, entry_at-replace_entry}
use astrolab.Projects.PatchSync.{own_id}
use astrolab.Projects.Sync.{read, history_of, history_of-update, IsSynced}

module _ {V : Type 0} where
  entry_at-change_at :
      (f : HistoryEntry V → HistoryEntry V) (n : ℕ) (old : HistoryEntry V)
      (h : List (HistoryEntry V))
      → ((e : HistoryEntry V) → (f e).seq ≡ e.seq)
      → entry_at n h ≡ some old
      → entry_at n (change_at f n h) ≡ some (f old)
  unfolding entry_at change_at
  entry_at-change_at f n old [] keep at = cc
  entry_at-change_at f n old (e ∷ h) keep at =
      ground (arith, entry_at-change_at f n old h keep, keep e)

  -- The history of a project that a read gives, if it gives one.
  abbrev history_in : Option (Project V) → List (HistoryEntry V)
  history_in none = []
  history_in (some p) = p.history

  history_in-read :
      (h : List (HistoryEntry V)) (row : Option (ProjectRow V)) (p : Project V)
      → read h row ≡ some p
      → h ≡ p.history
  history_in-read h none p e = absurd (none-ne-some p e)
  history_in-read h (some r) p e = ap history_in e

  -- The two states of the project's history after an overwrite, in the table and in the map.
  replaced_kind :
      (entry old : HistoryEntry V) (h : List (HistoryEntry V))
      → entry_at entry.seq h ≡ some old
      → change_at (replaced_columns entry) entry.seq h ≡ replace_entry entry h
      → old.kind ≡ entry.kind
  replaced_kind entry old h at agree =
      let table = entry_at-change_at (replaced_columns entry) entry.seq old h (λ e. refl) at in
      let map = entry_at-replace_entry entry.seq entry h in
      ap (λ (e : HistoryEntry V). e.kind)
        (some-injective (replaced_columns entry old) entry
          (sym table ∙ ap (entry_at entry.seq) agree ∙ map ∙ ground (arith, at)))

  overwritten_kind :
      (pid : String) (p p' : Project V) (entry old : HistoryEntry V) (m m' : Manager V)
      → get pid m.records ≡ some p
      → entry_at entry.seq p.history ≡ some old
      → m'.records ≡ set pid p' m.records
      → m'.project_history ≡ update_entry (replaced_columns entry) pid entry.seq m.project_history
      → p'.history ≡ replace_entry entry p.history
      → IsSynced m
      → IsSynced m'
      → old.kind ≡ entry.kind
  overwritten_kind pid p p' entry old m m' found at recs rows hist s s' =
      let before = history_in-read (history_of pid m.project_history) _ p (s.same pid ∙ found) in
      let stored : get pid m'.records ≡ some p' =
        rw recs (rw (get-set pid pid p' m.records) (rw eq_refl)) in
      let after = history_in-read (history_of pid m'.project_history) _ p' (s'.same pid ∙ stored) in
      let table : history_of pid m'.project_history
          ≡ change_at (replaced_columns entry) entry.seq p.history =
        rw rows (
          rw
            (history_of-update (replaced_columns entry) pid pid entry.seq m.project_history
              (λ e. refl))
            (rw eq_refl (ap (change_at (replaced_columns entry) entry.seq) before))) in
      replaced_kind entry old p.history at (sym table ∙ after ∙ hist)

  collapsed_kind :
      (entry old : HistoryEntry V) (now : ℕ) (d : Option Bool) (p : Project V) (m : Manager V)
      (store : Store V)
      → get p.id m.records ≡ some p
      → entry_at entry.seq p.history ≡ some old
      → IsSynced m
      → IsSynced (patch_collapsed entry now (with_draft d p) (record m { store = store })).1
      → old.kind ≡ entry.kind
  unfolding patch_collapsed
  collapsed_kind entry old now none p m store found at s s' =
      overwritten_kind p.id p _ entry old m _ found at refl refl refl s s'
  collapsed_kind entry old now (some d) p m store found at s s' =
      overwritten_kind p.id p _ entry old m _ found at refl refl refl s s'

  -- Where the current entry is of another kind than an edit (a swap of sessions or an upgrade of the
  -- template) and its job is interrupted or still live, a patch puts an edit over it in memory, but
  -- the tables no longer agree with the map afterwards: they keep the old kind.
  pub patch-not-IsSynced :
      (values : Values V) (pid : String) (e : Edit V) (job_id : String) (now : ℕ) (m : Manager V)
      (p : Project V) (prev : HistoryEntry V)
      → get pid m.records ≡ some p
      → current_entry p ≡ some prev
      → collapses prev m.store ≡ true
      → prev.kind ≢ edit
      → IsSound m.records
      → IsSynced m
      → ¬ IsSynced (patch values pid e job_id now m).1
  patch-not-IsSynced values pid e job_id now m p prev found cur c ne h s =
      let P = λ (r : Result (Project V) × Manager V). ¬ IsSynced r.1 in
      unfold patch in
      option_at P (get pid m.records) p _ _ found (
        option_at P (current_entry p) prev _ _ cur (
          unfold patch_entry in
          if_both_eq P (collapses prev m.store)
            (λ _ s'. ne (
              collapsed_kind _ prev now e.draft_mode p m _ (own_id pid p m h found)
                (ap (λ n. entry_at n p.history) (entry_at-seq p.current_seq prev p.history cur)
                  ∙ cur)
                s s'))
            (λ no_collapse. absurd (cc (sym c ∙ no_collapse)))))
