-- ===== src/Projects/Sync.antt =====
-- The tables of server/projects.py beside the map in memory: what each method persists of its change.
use mathlib.Core.Option.{some-injective, none-ne-some}
use mathlib.Core.List.{append-nil}
use astrolab.Prelude.{
  ℕ, String, ◌≡◌, refl, false, Option, none, some, List, [], ◌∷◌, ◌++◌, str_eq, eq_iff, eq_refl,
  if◌then◌else◌, ap, ◌∙◌, Bool-cases, inl, inr, subst,
}
use astrolab.Dict.{get, set, get-set}
use astrolab.Projects.Records.{HistoryEntry, ProjectRow, HistoryRow, Project, Manager}
use astrolab.Projects.Tables.{update_row, update_entry, entries_of, order_entries, of_row}
use astrolab.Projects.Seqs.{Below, seqs}
use astrolab.Projects.TableLaws.{
  find_row, find_row-update_row, entries_of_snoc, change_at, entries_of-update_entry,
  order_entries_snoc, Below-order_entries, order_entries-change_at,
}

module _ {V : Type 0} where
  -- The history that the table holds of a project.
  abbrev pub history_of : String → List (HistoryRow V) → List (HistoryEntry V)
  history_of pid rows = order_entries (entries_of pid rows)

  -- What a read of the database gives for a project.
  abbrev pub read : List (HistoryEntry V) → Option (ProjectRow V) → Option (Project V)
  read history none = none
  read history (some r) = some (of_row history r)

  abbrev pub loaded : String → Manager V → Option (Project V)
  loaded pid m = read (history_of pid m.project_history) (find_row pid m.projects)

  pub record IsSynced (m : Manager V) : Type 0 where
    pub same : (pid : String) → loaded pid m ≡ get pid m.records

  -- The row behind a project of the map.
  pub of_read :
      (history : List (HistoryEntry V)) (row : Option (ProjectRow V)) (p : Project V)
      → read history row ≡ some p
      → (r : ProjectRow V) × (row ≡ some r) × (of_row history r ≡ p)
  of_read history none p e = absurd (none-ne-some p e)
  of_read history (some r) p e = (r, refl, some-injective (of_row history r) p e)

  -- A change of one project, in the map and in the tables.
  pub put-IsSynced :
      (pid : String) (p' : Project V) (m m' : Manager V)
      → m'.records ≡ set pid p' m.records
      → loaded pid m' ≡ some p'
      → ((q : String) → str_eq pid q ≡ false → loaded q m' ≡ loaded q m)
      → IsSynced m
      → IsSynced m'
  put-IsSynced pid p' m m' recs here others s = record {
    same = λ q. rw recs (
        rw (get-set pid q p' m.records) (elim (Bool-cases (str_eq pid q)) [
          | inl e ↦ rw e (subst (λ q. loaded q m' ≡ some p') ((eq_iff pid q).0 e) here)
          | inr e ↦ rw e (others q e ∙ s.same q)
        ]));
  }

  -- The same, where the row is updated and only its own history may change.
  pub change-IsSynced :
      (pid : String) (p p' : Project V) (f : ProjectRow V → ProjectRow V) (m m' : Manager V)
      → ((r : ProjectRow V) → (f r).id ≡ r.id)
      → get pid m.records ≡ some p
      → m'.records ≡ set pid p' m.records
      → m'.projects ≡ update_row f pid m.projects
      → ((q : String)
          → str_eq pid q ≡ false
          → history_of q m'.project_history ≡ history_of q m.project_history)
      → ((r : ProjectRow V)
          → of_row (history_of pid m.project_history) r ≡ p
          → of_row (history_of pid m'.project_history) (f r) ≡ p')
      → IsSynced m
      → IsSynced m'
  change-IsSynced pid p p' f m m' keep found recs rows others here s =
      let (r, at, is_p) =
        of_read (history_of pid m.project_history) (find_row pid m.projects) p
          (s.same pid ∙ found) in
      put-IsSynced pid p' m m' recs
        (rw rows (
          rw (find_row-update_row f pid pid m.projects keep)
            (rw (at, eq_refl) (ap some (here r is_p)))))
        (λ q ne.
          rw rows (rw (find_row-update_row f pid q m.projects keep) (rw ne (rw (others q ne)))))
        s

  pub history_of_snoc :
      (pid q : String) (e : HistoryEntry V) (rows : List (HistoryRow V))
      → Below e.seq (seqs (history_of pid rows))
      → history_of q (rows ++ record { project_id = pid; entry = e } ∷ [])
        ≡ (if str_eq pid q then history_of q rows ++ e ∷ [] else history_of q rows)
  history_of_snoc pid q e rows below =
      rw (entries_of_snoc q (record { project_id = pid; entry = e }) rows)
        (elim (Bool-cases (str_eq pid q)) [
          | inl same ↦ rw same (
              order_entries_snoc e (entries_of q rows) (
                Below-order_entries e.seq (entries_of q rows) (
                  subst (λ i. Below e.seq (seqs (history_of i rows))) ((eq_iff pid q).0 same)
                    below)))
          | inr other ↦ rw other (rw append-nil)
        ])

  pub history_of-update :
      (g : HistoryEntry V → HistoryEntry V) (pid q : String) (n : ℕ) (rows : List (HistoryRow V))
      → ((e : HistoryEntry V) → (g e).seq ≡ e.seq)
      → history_of q (update_entry g pid n rows)
        ≡ (if str_eq pid q then change_at g n (history_of q rows) else history_of q rows)
  history_of-update g pid q n rows keep =
      rw (entries_of-update_entry g pid q n rows) (elim (Bool-cases (str_eq pid q)) [
        | inl same ↦ rw same (order_entries-change_at g keep n (entries_of q rows))
        | inr other ↦ rw other
      ])
