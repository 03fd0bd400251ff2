-- ===== src/Projects/Edits.antt =====
-- What `patch` of ProjectManager (server/projects.py) does to the history, on both of its ways.
use astrolab.Prelude.{
  ℕ, eq_iff, String, ◌≡◌, refl, Bool, true, false, Option, none, some, List, [], ◌∷◌, ◌++◌, arith,
  ◌==◌, if◌then◌else◌, is_some, option_at, Bool-cases, inl, inr, sym, ◌∙◌,
}
use astrolab.Dict.{get, get-set}
use astrolab.Jobs.Store.{find_job}
use astrolab.Jobs.Rows.{HasIds}
use astrolab.Projects.Records.{
  HistoryEntry, Project, Manager, entry_at, current_entry, overrides_before, replace_entry,
}
use astrolab.Projects.Labels.{Values}
use astrolab.Projects.Manager.{
  Edit, patch, patch_entry, collapses, edit_entry, derived_label, patched_overrides, with_draft,
  next_entry_seq, append_entry,
}
use astrolab.Projects.Seqs.{Below, Below-next_seq, seqs}
use astrolab.Projects.Patched.{is_overwritten, collapses_lem, IsPatched, merged_lem, submitted-jobs}

module _ {V : Type 0} where
  pub entry_at-replace_entry :
      (n : ℕ) (e : HistoryEntry V) (history : List (HistoryEntry V))
      → entry_at n (replace_entry e history) ≡ (
          if n == e.seq
          then (if is_some (entry_at e.seq history) then some e else none)
          else entry_at n history)
  unfolding entry_at replace_entry
  entry_at-replace_entry n e [] = ground arith
  entry_at-replace_entry n e (f ∷ history) = ground (arith, entry_at-replace_entry n e history)

  pub entry_at-seq :
      (n : ℕ) (e : HistoryEntry V) (history : List (HistoryEntry V))
      → entry_at n history ≡ some e
      → e.seq ≡ n
  unfolding entry_at
  entry_at-seq n e [] h = cc
  entry_at-seq n e (f ∷ history) h = ground (arith, entry_at-seq n e history)

  entry_at-Below :
      (n : ℕ) (history : List (HistoryEntry V)) → Below n (seqs history) → entry_at n history ≡ none
  unfolding entry_at
  entry_at-Below n [] h = refl
  entry_at-Below n (f ∷ history) h = ground (arith, entry_at-Below n history)

  entry_at_snoc :
      (n : ℕ) (e : HistoryEntry V) (history : List (HistoryEntry V))
      → Below e.seq (seqs history)
      → entry_at n (history ++ e ∷ []) ≡ (if n == e.seq then some e else entry_at n history)
  unfolding entry_at
  entry_at_snoc n e [] h = ground arith
  entry_at_snoc n e (f ∷ history) h = ground (arith, entry_at_snoc n e history)

  over_entry :
      Values V → Edit V → (job_id : String) (now : ℕ) → Project V → HistoryEntry V → HistoryEntry V
  over_entry values e job_id now p prev =
      edit_entry prev.seq job_id now (patched_overrides e prev)
        (derived_label values e (overrides_before p prev.seq) (patched_overrides e prev))
        prev.published

  tail_entry :
      Values V → Edit V → (job_id : String) (now : ℕ) → Project V → HistoryEntry V → HistoryEntry V
  tail_entry values e job_id now p prev =
      edit_entry (next_entry_seq p) job_id now (patched_overrides e prev)
        (derived_label values e prev.overrides (patched_overrides e prev)) false

  overwrites :
      (values : Values V) (e : Edit V) (job_id : String) (now : ℕ) (p : Project V)
      (prev : HistoryEntry V) (m : Manager V)
      → current_entry p ≡ some prev
      → is_overwritten (find_job prev.job_id m.store.jobs) ≡ true
      → collapses prev m.store ≡ true
      → IsPatched e job_id now p prev m (patch_entry values e job_id now p prev m)
  unfolding patch_entry over_entry
  overwrites values e job_id now p prev m cur b c = rw c (
      let at = entry_at-seq p.current_seq prev p.history cur in
      let over = over_entry values e job_id now p prev in
      let project = record p { history = replace_entry over p.history; updated_at = now } in
      record {
        project = project;
        entry = over;
        returned = refl;
        stored = ground (arith, get-set p.id p.id project m.records, eq_iff p.id p.id);
        at = ground (arith, b);
        job = refl;
        overrides = merged_lem e prev;
        kind = refl;
        published = ground (arith, b);
        pointer = ground (arith, b, at);
        entries = λ n. ground (arith, b, entry_at-replace_entry n over p.history, cur, at);
        jobs = submitted-jobs e job_id now p prev m;
        events = refl;
      })

  appends :
      (values : Values V) (e : Edit V) (job_id : String) (now : ℕ) (p : Project V)
      (prev : HistoryEntry V) (m : Manager V)
      → is_overwritten (find_job prev.job_id m.store.jobs) ≡ false
      → collapses prev m.store ≡ false
      → IsPatched e job_id now p prev m (patch_entry values e job_id now p prev m)
  unfolding patch_entry tail_entry
  appends values e job_id now p prev m b c = rw c (
      let tail = tail_entry values e job_id now p prev in
      let project = append_entry tail now p in
      record {
        project = project;
        entry = tail;
        returned = refl;
        stored = ground (arith, get-set p.id p.id project m.records, eq_iff p.id p.id);
        at = ground (arith, b);
        job = refl;
        overrides = merged_lem e prev;
        kind = refl;
        published = ground (arith, b);
        pointer = ground (arith, b);
        entries = λ n.
            ground (arith, b, entry_at_snoc n tail p.history (Below-next_seq (seqs p.history)));
        jobs = submitted-jobs e job_id now p prev m;
        events = refl;
      })

  patch_entry-IsPatched :
      (values : Values V) (e : Edit V) (job_id : String) (now : ℕ) (p : Project V)
      (prev : HistoryEntry V) (m : Manager V)
      → HasIds m.store.jobs
      → current_entry p ≡ some prev
      → IsPatched e job_id now p prev m (patch_entry values e job_id now p prev m)
  patch_entry-IsPatched values e job_id now p prev m ids cur =
      let b = sym (collapses_lem prev m.store ids) in
      elim (Bool-cases (collapses prev m.store)) [
        | inl c ↦ overwrites values e job_id now p prev m cur (b ∙ c) c
        | inr c ↦ appends values e job_id now p prev m (b ∙ c) c
      ]

  -- With distinct ids in the jobs table, a patch of a known project returns it, and keeps it in the map,
  -- with one new entry for the new job, with the merged overrides. The entry stands over the current one
  -- if that one's job was interrupted or is live, and at the tail under a fresh seq otherwise; the
  -- pointer is on it, and a lookup of any other seq finds what it found before. In the jobs table the
  -- new job is queued at the end, with the project's template and job and the merged overrides, with
  -- its first event; the old entry's job is asked to stop if it is live, and no other row changes.
  pub patch-IsPatched :
      (values : Values V) (pid : String) (e : Edit V) (job_id : String) (now : ℕ) (m : Manager V)
      (p : Project V) (prev : HistoryEntry V)
      → HasIds m.store.jobs
      → get pid m.records ≡ some p
      → current_entry p ≡ some prev
      → IsPatched e job_id now (with_draft e.draft_mode p) prev m (patch values pid e job_id now m)
  patch-IsPatched values pid e job_id now m p prev ids found cur =
      let P = IsPatched e job_id now (with_draft e.draft_mode p) prev m in
      unfold patch in
      option_at P (get pid m.records) p _ _ found (
        option_at P (current_entry p) prev _ _ cur (
          patch_entry-IsPatched values e job_id now (with_draft e.draft_mode p) prev m ids
            (current_with_draft e.draft_mode p prev cur)))
    where
      current_with_draft :
          (d : Option Bool) (p : Project V) (prev : HistoryEntry V)
          → current_entry p ≡ some prev
          → current_entry (with_draft d p) ≡ some prev
      current_with_draft none p prev cur = cur
      current_with_draft (some d) p prev cur = cur
