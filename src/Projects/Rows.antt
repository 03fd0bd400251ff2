-- ===== src/Projects/Rows.antt =====
-- `rehydrate` of server/projects.py, as a lookup in its result sees it.
use astrolab.Prelude.{
  String, ◌≡◌, refl, Option, none, some, List, [], ◌∷◌, arith, str_eq, eq_iff, if◌then◌else◌,
}
use astrolab.Dict.{Dict, get, set, get-set}
use astrolab.Projects.Records.{ProjectRow, HistoryRow, Project, Manager}
use astrolab.Projects.Tables.{
  insert_row, order_rows, load_rows, row_to_project, drop_row, drop_entries, entries_of, rehydrate,
}
use astrolab.Projects.TableLaws.{find_row}

module _ {V : Type 0} where
  -- The ids are a primary key.
  abbrev pub HasKey : List (ProjectRow V) → Type 0
  HasKey [] = Unit
  HasKey (r ∷ rows) = (find_row r.id rows ≡ none) × HasKey rows

  pub find_row-id :
      (j : String) (r : ProjectRow V) (rows : List (ProjectRow V))
      → find_row j rows ≡ some r
      → r.id ≡ j
  unfolding find_row
  find_row-id j r [] e = cc
  find_row-id j r (q ∷ rows) e = ground (arith, find_row-id j r rows, eq_iff q.id j)

  find_row-insert_row :
      (j : String) (r : ProjectRow V) (rows : List (ProjectRow V))
      → find_row r.id rows ≡ none
      → find_row j (insert_row r rows) ≡ (if str_eq r.id j then some r else find_row j rows)
  unfolding find_row insert_row
  find_row-insert_row j r [] e = refl
  find_row-insert_row j r (q ∷ rows) e =
      ground (arith, find_row-insert_row j r rows, eq_iff q.id j, eq_iff r.id j, eq_iff q.id r.id)

  HasKey-insert_row :
      (r : ProjectRow V) (rows : List (ProjectRow V))
      → find_row r.id rows ≡ none
      → HasKey rows
      → HasKey (insert_row r rows)
  unfolding insert_row find_row
  HasKey-insert_row r [] e h = (refl, tt)
  HasKey-insert_row r (q ∷ rows) e h = ground (
    arith,
    HasKey-insert_row r rows,
    find_row-insert_row q.id r rows,
    eq_iff q.id r.id,
    eq_iff r.id q.id,
  )

  find_row-order_rows :
      (j : String) (rows : List (ProjectRow V))
      → HasKey rows
      → find_row j (order_rows rows) ≡ find_row j rows
  unfolding order_rows find_row
  find_row-order_rows j [] h = refl
  find_row-order_rows j (r ∷ rows) h = ground (
    arith,
    find_row-insert_row j r (order_rows rows),
    find_row-order_rows r.id rows h.1,
    find_row-order_rows j rows h.1,
  )

  HasKey-order_rows : (rows : List (ProjectRow V)) → HasKey rows → HasKey (order_rows rows)
  unfolding order_rows
  HasKey-order_rows [] h = tt
  HasKey-order_rows (r ∷ rows) h =
      HasKey-insert_row r (order_rows rows) (rw (find_row-order_rows r.id rows h.1) h.0)
        (HasKey-order_rows rows h.1)

  abbrev pub found_or :
      List (HistoryRow V) → Option (Project V) → Option (ProjectRow V) → Option (Project V)
  found_or history x none = x
  found_or history x (some r) = some (row_to_project history r)

  get-load_rows :
      (j : String) (history : List (HistoryRow V)) (rows : List (ProjectRow V))
      (records : Dict (Project V))
      → HasKey rows
      → get j (load_rows history rows records) ≡ found_or history (get j records) (find_row j rows)
  unfolding load_rows find_row
  get-load_rows j history [] records h = refl
  get-load_rows j history (r ∷ rows) records h = ground (
    arith,
    get-load_rows j history rows (set r.id (row_to_project history r) records) h.1,
    get-set r.id j (row_to_project history r) records,
    eq_iff r.id j,
  )

  pub get-rehydrate :
      (j : String) (m : Manager V)
      → HasKey m.projects
      → get j (rehydrate m).records ≡ found_or m.project_history none (find_row j m.projects)
  unfolding rehydrate
  get-rehydrate j m h =
      rw
        (get-load_rows j m.project_history (order_rows m.projects) []
          (HasKey-order_rows m.projects h))
        (rw (find_row-order_rows j m.projects h) (unfold get in refl))

  pub find_row-drop_row :
      (id j : String) (rows : List (ProjectRow V))
      → find_row j (drop_row id rows) ≡ (if str_eq id j then none else find_row j rows)
  unfolding find_row drop_row
  find_row-drop_row id j [] = ground arith
  find_row-drop_row id j (r ∷ rows) =
      ground (arith, find_row-drop_row id j rows, eq_iff id j, eq_iff r.id j, eq_iff r.id id)

  pub entries_of-drop_entries :
      (id j : String) (rows : List (HistoryRow V))
      → entries_of j (drop_entries id rows) ≡ (if str_eq id j then [] else entries_of j rows)
  unfolding entries_of drop_entries
  entries_of-drop_entries id j [] = ground arith
  entries_of-drop_entries id j (r ∷ rows) = ground (
    arith,
    entries_of-drop_entries id j rows,
    eq_iff id j,
    eq_iff r.project_id j,
    eq_iff r.project_id id,
  )
