-- ===== src/Projects/TableLaws.antt =====
-- Laws of the tables of server/projects.py: how an `UPDATE` or an `INSERT` shows in a `SELECT`.
use astrolab.Prelude.{
  ℕ, ◌<◌, String, ◌≡◌, refl, Bool, Option, none, some, List, [], ◌∷◌, ◌++◌, arith, ◌==◌, str_eq,
  eq_iff, ==_iff, if◌then◌else◌, ap, Bool-cases, inl, inr,
}
use astrolab.Projects.Records.{
  HistoryEntry, ProjectRow, HistoryRow, entry_at, replace_entry, publish_entry, edit,
}
use astrolab.Projects.Tables.{
  update_row, update_entry, entries_of, insert_entry, order_entries, replaced_columns,
}
use astrolab.Projects.Seqs.{Below, Above, IsAscending, seqs}

module _ {V : Type 0} where
  -- `SELECT * FROM projects WHERE id = ?`
  unfoldable pub find_row : String → List (ProjectRow V) → Option (ProjectRow V)
  find_row id [] = none
  find_row id (r ∷ rows) = if str_eq r.id id then some r else find_row id rows

  pub find_row-update_row :
      (f : ProjectRow V → ProjectRow V) (id j : String) (rows : List (ProjectRow V))
      → ((r : ProjectRow V) → (f r).id ≡ r.id)
      → find_row j (update_row f id rows) ≡ (
          if str_eq id j
          then elim (find_row j rows) [ none ↦ none | some r ↦ some (f r) ]
          else find_row j rows)
  unfolding find_row update_row
  find_row-update_row f id j [] keep = ground arith
  find_row-update_row f id j (r ∷ rows) keep = ground (
    arith,
    find_row-update_row f id j rows keep,
    keep r,
    eq_iff id j,
    eq_iff r.id id,
    eq_iff r.id j,
  )

  pub find_row_snoc :
      (j : String) (r : ProjectRow V) (rows : List (ProjectRow V))
      → find_row j (rows ++ r ∷ []) ≡ (elim (find_row j rows) [
        | some q ↦ some q
        | none ↦ if str_eq r.id j then some r else none
      ])
  unfolding find_row
  find_row_snoc j r [] = ground arith
  find_row_snoc j r (q ∷ rows) = ground (arith, find_row_snoc j r rows)

  pub entries_of_snoc :
      (pid : String) (r : HistoryRow V) (rows : List (HistoryRow V))
      → entries_of pid (rows ++ r ∷ [])
        ≡ entries_of pid rows ++ (if str_eq r.project_id pid then r.entry ∷ [] else [])
  unfolding entries_of
  entries_of_snoc pid r [] = ground arith
  entries_of_snoc pid r (q ∷ rows) = ground (arith, entries_of_snoc pid r rows)

  -- An update at one seq, on a list of entries.
  unfoldable pub change_at :
      (HistoryEntry V → HistoryEntry V) → ℕ → List (HistoryEntry V) → List (HistoryEntry V)
  change_at f seq [] = []
  change_at f seq (e ∷ es) = (if e.seq == seq then f e else e) ∷ change_at f seq es

  pub entries_of-update_entry :
      (f : HistoryEntry V → HistoryEntry V) (pid j : String) (seq : ℕ) (rows : List (HistoryRow V))
      → entries_of j (update_entry f pid seq rows)
        ≡ (if str_eq pid j then change_at f seq (entries_of j rows) else entries_of j rows)
  unfolding entries_of update_entry change_at
  entries_of-update_entry f pid j seq [] = ground arith
  entries_of-update_entry f pid j seq (r ∷ rows) = ground (
    arith,
    entries_of-update_entry f pid j seq rows,
    eq_iff pid j,
    eq_iff r.project_id pid,
    eq_iff r.project_id j,
  )

  insert_entry_snoc :
      (e x : HistoryEntry V) (es : List (HistoryEntry V))
      → e.seq < x.seq
      → insert_entry e (es ++ x ∷ []) ≡ insert_entry e es ++ x ∷ []
  unfolding insert_entry
  insert_entry_snoc e x [] h = ground arith
  insert_entry_snoc e x (f ∷ es) h = ground (arith, insert_entry_snoc e x es h)

  pub order_entries_snoc :
      (x : HistoryEntry V) (es : List (HistoryEntry V))
      → Below x.seq (seqs es)
      → order_entries (es ++ x ∷ []) ≡ order_entries es ++ x ∷ []
  unfolding order_entries
  order_entries_snoc x [] h = unfold insert_entry in refl
  order_entries_snoc x (e ∷ es) h =
      rw (order_entries_snoc x es h.1) (insert_entry_snoc e x (order_entries es) h.0)

  Below-insert_entry :
      (n : ℕ) (e : HistoryEntry V) (es : List (HistoryEntry V))
      → Below n (seqs (insert_entry e es))
      → (e.seq < n) × Below n (seqs es)
  unfolding insert_entry
  Below-insert_entry n e [] h = h
  Below-insert_entry n e (f ∷ es) h = ground (arith, Below-insert_entry n e es)

  pub Below-order_entries :
      (n : ℕ) (es : List (HistoryEntry V)) → Below n (seqs (order_entries es)) → Below n (seqs es)
  unfolding order_entries
  Below-order_entries n [] h = tt
  Below-order_entries n (e ∷ es) h =
      let (lt, rest) = Below-insert_entry n e (order_entries es) h in
      (lt, Below-order_entries n es rest)

module _ {V : Type 0} (f : HistoryEntry V → HistoryEntry V)
    (keep : (e : HistoryEntry V) → (f e).seq ≡ e.seq) where
  insert_entry-change_at :
      (n : ℕ) (e : HistoryEntry V) (es : List (HistoryEntry V))
      → insert_entry (if e.seq == n then f e else e) (change_at f n es)
        ≡ change_at f n (insert_entry e es)
  unfolding insert_entry change_at
  insert_entry-change_at n e [] = refl
  insert_entry-change_at n e (x ∷ es) =
      ground (arith, insert_entry-change_at n e es, keep e, keep x)

  pub order_entries-change_at :
      (n : ℕ) (es : List (HistoryEntry V))
      → order_entries (change_at f n es) ≡ change_at f n (order_entries es)
  unfolding order_entries change_at
  order_entries-change_at n [] = refl
  order_entries-change_at n (e ∷ es) =
      rw (order_entries-change_at n es) (insert_entry-change_at n e (order_entries es))

module _ {V : Type 0} where
  change_at-Above :
      (f : HistoryEntry V → HistoryEntry V) (n : ℕ) (es : List (HistoryEntry V))
      → Above n (seqs es)
      → change_at f n es ≡ es
  unfolding change_at
  change_at-Above f n [] h = refl
  change_at-Above f n (e ∷ es) h = ground (arith, change_at-Above f n es)

  -- An `UPDATE` of the published flag is what the method does to the entry in memory.
  pub change_at-publish_entry :
      (n : ℕ) (b : Bool) (es : List (HistoryEntry V))
      → IsAscending (seqs es)
      → change_at (λ e. record e { published = b }) n es ≡ publish_entry n b es
  unfolding change_at publish_entry
  change_at-publish_entry n b [] h = refl
  change_at-publish_entry n b (e ∷ es) h = ground (
    arith,
    change_at-publish_entry n b es,
    change_at-Above (λ e. record e { published = b }) e.seq es,
  )

  -- The columns that the `UPDATE` of a collapse leaves alone are those of a plain edit.
  abbrev pub IsPlain : HistoryEntry V → Type 0
  IsPlain e = (e.kind ≡ edit) × (e.snapshot ≡ none)

  pub change_at-replace_entry :
      (x : HistoryEntry V) (es : List (HistoryEntry V))
      → IsPlain x
      → IsAscending (seqs es)
      → ((old : HistoryEntry V) → entry_at x.seq es ≡ some old → IsPlain old)
      → change_at (replaced_columns x) x.seq es ≡ replace_entry x es
  unfolding change_at replace_entry entry_at
  change_at-replace_entry x [] p h plain = refl
  change_at-replace_entry x (e ∷ es) p h plain = elim (Bool-cases (e.seq == x.seq)) [
    | inl same ↦
        let seq : e.seq ≡ x.seq = (==_iff e.seq x.seq).0 same in
        ground
          (arith, plain e (rw same), change_at-Above (replaced_columns x) x.seq es (rw seq at h.0))
    | inr other ↦
        rw other
          (ap (λ l. e ∷ l) (change_at-replace_entry x es p h.1 (λ old at. plain old (rw other at))))
  ]
