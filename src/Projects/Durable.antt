-- ===== src/Projects/Durable.antt =====
-- The methods of ProjectManager (server/projects.py) but `patch`, and the tables beside the map.
use astrolab.Prelude.{ℕ, ◌≡◌, refl, some, List, [], ◌∷◌, ◌++◌, eq_refl, ◌∙◌, subst}
use astrolab.Dict.{get, set}
use astrolab.Projects.Records.{HistoryEntry, ProjectRow, Project, Manager, replace_entry}
use astrolab.Jobs.Store.{Store}
use astrolab.Projects.Tables.{update_row, update_entry, of_row}
use astrolab.Projects.Manager.{next_entry_seq}
use astrolab.Projects.Seqs.{Below, seqs, Below-next_seq}
use astrolab.Projects.TableLaws.{find_row, change_at}
use astrolab.Projects.Sync.{
  of_read, history_of, IsSynced, change-IsSynced, history_of_snoc, history_of-update,
}

module _ {V : Type 0} where
  -- A method `change` and the columns `g` that it persists, over the project that a row makes: it is
  -- enough that the row and the history agree there.
  along_row :
      (change : Project V → Project V) (g : Project V → ProjectRow V → ProjectRow V)
      (h h' : List (HistoryEntry V)) (r : ProjectRow V) (p : Project V)
      → of_row h' (g (change (of_row h r)) r) ≡ change (of_row h r)
      → of_row h r ≡ p
      → of_row h' (g (change p) r) ≡ change p
  along_row change g h h' r p agree is = subst (λ q. of_row h' (g (change q) r) ≡ change q) is agree

  abbrev overwrite : HistoryEntry V → (now : ℕ) → Project V → Project V
  overwrite e now p = record p { history = replace_entry e p.history; updated_at = now }

  -- Below the next seq stand all seqs that the table holds.
  Below-next :
      (p : Project V) (h : List (HistoryEntry V)) (r : ProjectRow V) (n : ℕ)
      → n ≡ next_entry_seq p
      → of_row h r ≡ p
      → Below n (seqs h)
  Below-next p h r n eq is =
      rw eq (subst (λ q. Below (next_entry_seq q) (seqs h)) is (Below-next_seq (seqs h)))

  pub row_behind :
      (p : Project V) (m : Manager V)
      → get p.id m.records ≡ some p
      → IsSynced m
      → (r : ProjectRow V) × (of_row (history_of p.id m.project_history) r ≡ p)
  row_behind p m found s =
      let (r, at, is) =
        of_read (history_of p.id m.project_history) (find_row p.id m.projects) p
          (s.same p.id ∙ found) in
      (r, is)

  -- An entry at the tail, with the columns `g` of the row.
  pub append-IsSynced :
      (change : Project V → Project V) (g : Project V → ProjectRow V → ProjectRow V)
      (entry : HistoryEntry V) (p : Project V) (m : Manager V) (store : Store V)
      → ((q : Project V) (r : ProjectRow V) → (g q r).id ≡ r.id)
      → ((h : List (HistoryEntry V)) (r : ProjectRow V)
          → of_row (h ++ entry ∷ []) (g (change (of_row h r)) r) ≡ change (of_row h r))
      → get p.id m.records ≡ some p
      → entry.seq ≡ next_entry_seq p
      → IsSynced m
      → IsSynced (record {
        records = set p.id (change p) m.records;
        projects = update_row (g (change p)) p.id m.projects;
        project_history = m.project_history ++ record { project_id = p.id; entry = entry } ∷ [];
        store = store;
      })
  append-IsSynced change g entry p m store keep agree found next s =
      let (r, is) = row_behind p m found s in
      let below = Below-next p (history_of p.id m.project_history) r entry.seq next is in
      change-IsSynced p.id p (change p) (g (change p)) m _ (keep (change p)) found refl refl
        (λ q ne. rw (history_of_snoc p.id q entry m.project_history below) (rw ne))
        (λ r' is'.
          rw (history_of_snoc p.id p.id entry m.project_history below)
            (rw eq_refl (along_row change g _ _ r' p (agree _ r') is')))
        s

  -- No change of the history.
  pub update-IsSynced :
      (change : Project V → Project V) (g : Project V → ProjectRow V → ProjectRow V) (p : Project V)
      (m : Manager V)
      → ((q : Project V) (r : ProjectRow V) → (g q r).id ≡ r.id)
      → ((h : List (HistoryEntry V)) (r : ProjectRow V)
          → of_row h (g (change (of_row h r)) r) ≡ change (of_row h r))
      → get p.id m.records ≡ some p
      → IsSynced m
      → IsSynced (record m {
        records = set p.id (change p) m.records;
        projects = update_row (g (change p)) p.id m.projects;
      })
  update-IsSynced change g p m keep agree found s =
      change-IsSynced p.id p (change p) (g (change p)) m _ (keep (change p)) found refl refl
        (λ q ne. refl) (λ r is. along_row change g _ _ r p (agree _ r) is) s

  -- An update of the entry at one seq.
  pub edit-IsSynced :
      (change : Project V → Project V) (g : Project V → ProjectRow V → ProjectRow V)
      (f : HistoryEntry V → HistoryEntry V) (n : ℕ) (p : Project V) (m : Manager V)
      (store : Store V)
      → ((q : Project V) (r : ProjectRow V) → (g q r).id ≡ r.id)
      → ((e : HistoryEntry V) → (f e).seq ≡ e.seq)
      → ((h : List (HistoryEntry V)) (r : ProjectRow V)
          → of_row h r ≡ p
          → of_row (change_at f n h) (g (change (of_row h r)) r) ≡ change (of_row h r))
      → get p.id m.records ≡ some p
      → IsSynced m
      → IsSynced (record {
        records = set p.id (change p) m.records;
        projects = update_row (g (change p)) p.id m.projects;
        project_history = update_entry f p.id n m.project_history;
        store = store;
      })
  edit-IsSynced change g f n p m store keep keep_seq agree found s =
      change-IsSynced p.id p (change p) (g (change p)) m _ (keep (change p)) found refl refl
        (λ q ne. rw (history_of-update f p.id q n m.project_history keep_seq) (rw ne))
        (λ r is.
          rw (history_of-update f p.id p.id n m.project_history keep_seq)
            (rw eq_refl (along_row change g _ _ r p (agree _ r is) is)))
        s
