-- ===== src/Catalog/Kinds.antt =====
-- What `match_session` of server/catalog/matching.py writes and returns, the user's overrides included.
use astrolab.Prelude.{
  ℕ, String, Bool, false, ◌&&◌, Option, none, some, List, [], ◌∷◌, map, str_eq, eq_iff, ◌==◌,
  ==_iff, ◌≡◌, refl, ap, ◌∙◌, if◌then◌else◌, arith, Bool-cases, inl, inr, any,
}
use astrolab.Catalog.Rows.{SessionRow, MatchRow, Catalog}
use astrolab.Catalog.Matchers.{Match}
use astrolab.Catalog.Matches.{
  Profiles, Average, Entry, find_match, upsert_match, kept_entry, match_kind, found, match_kinds,
}

-- A row that says what the matcher found.
abbrev pub matched : ℕ → String → Match → ℕ → MatchRow
matched sid kind m now = record {
  session_id = sid;
  kind = kind;
  master_id = m.master_id;
  match_quality = m.quality;
  details = m.details;
  overridden = false;
  updated_at = now;
}

-- The row after a match of its session and kind: an override stays, any other is replaced.
abbrev pub settle : ℕ → String → Match → ℕ → Option MatchRow → MatchRow
settle sid kind m now none = matched sid kind m now
settle sid kind m now (some row) = if row.overridden then row else matched sid kind m now

abbrev pub entry_of : String → Match → Option MatchRow → Entry
entry_of kind m none = (kind, m, false)
entry_of kind m (some row) = if row.overridden then kept_entry kind row else (kind, m, false)

find-upsert_match :
    (sid sid' : ℕ) (kind kind' : String) (m : Match) (now : ℕ) (rows : List MatchRow)
    → find_match sid' kind' (upsert_match sid kind m now rows) ≡ (
        if (sid == sid') && str_eq kind kind'
        then some (settle sid kind m now (find_match sid kind rows))
        else find_match sid' kind' rows)
unfolding upsert_match
find-upsert_match sid sid' kind kind' m now [] = ground arith
find-upsert_match sid sid' kind kind' m now (row ∷ rows) = ground (
  arith,
  find-upsert_match sid sid' kind kind' m now rows,
  eq_iff row.kind kind,
  eq_iff row.kind kind',
  eq_iff kind kind',
)

find-match_kind :
    (sid sid' : ℕ) (now : ℕ) (kind kind' : String) (m : Match) (rows : List MatchRow)
    → find_match sid' kind' (match_kind sid now kind m rows).0 ≡ (
        if (sid == sid') && str_eq kind kind'
        then some (settle sid kind m now (find_match sid kind rows))
        else find_match sid' kind' rows)
unfolding match_kind
find-match_kind sid sid' now kind kind' m rows =
    ground (arith, find-upsert_match sid sid' kind kind' m now rows, eq_iff kind kind')

entry-match_kind :
    (sid now : ℕ) (kind : String) (m : Match) (rows : List MatchRow)
    → (match_kind sid now kind m rows).1 ≡ entry_of kind m (find_match sid kind rows)
unfolding match_kind
entry-match_kind sid now kind m rows = ground arith

abbrev pub listed : List String → String → Bool
listed ks kind = any (λ k. str_eq k kind) ks

module _ (profiles : Profiles) (avg : Average) (db : Catalog) (now : ℕ) (s : SessionRow) where
  abbrev pub choice : String → Match
  choice kind = found profiles avg db s kind

  abbrev pub left : List String → List MatchRow → List MatchRow
  left ks rows = (match_kinds profiles avg db now s ks rows).0

  pub find-match_kinds :
      (sid' : ℕ) (kind' : String) (ks : List String) (rows : List MatchRow)
      → find_match sid' kind' (left ks rows) ≡ (
          if (s.id == sid') && listed ks kind'
          then some (settle s.id kind' (choice kind') now (find_match s.id kind' rows))
          else find_match sid' kind' rows)
  unfolding match_kinds
  find-match_kinds sid' kind' [] rows = ground arith
  find-match_kinds sid' kind' (k ∷ ks) rows =
      let rows' = (match_kind s.id now k (choice k) rows).0 in
      elim (Bool-cases (str_eq k kind')) [
        | inl e ↦
            let same : k ≡ kind' = (eq_iff k kind').0 e in
            ground (
              arith,
              e,
              ==_iff s.id sid',
              find-match_kinds sid' kind' ks rows',
              find-match_kind s.id s.id now k kind' (choice k) rows,
              find-match_kind s.id sid' now k kind' (choice k) rows,
              ap (λ n. settle s.id n (choice n) now (find_match s.id n rows)) same,
            )
        | inr e ↦ ground (
          arith,
          e,
          find-match_kinds sid' kind' ks rows',
          find-match_kind s.id s.id now k kind' (choice k) rows,
          find-match_kind s.id sid' now k kind' (choice k) rows,
        )
      ]

  entry-settle :
      (kind : String) (o : Option MatchRow)
      → entry_of kind (choice kind) (some (settle s.id kind (choice kind) now o))
        ≡ entry_of kind (choice kind) o
  entry-settle kind none = refl
  entry-settle kind (some row) = ground arith

  entries-after :
      (k : String) (ks : List String) (rows : List MatchRow)
      → map
          (λ j. entry_of j (choice j) (find_match s.id j (match_kind s.id now k (choice k) rows).0))
          ks
        ≡ map (λ j. entry_of j (choice j) (find_match s.id j rows)) ks
  entries-after k [] rows = refl
  entries-after k (j ∷ ks) rows = elim (Bool-cases (str_eq k j)) [
    | inl e ↦
        let same : k ≡ j = (eq_iff k j).0 e in
        ground (
          arith,
          e,
          entries-after k ks rows,
          find-match_kind s.id s.id now k j (choice k) rows,
          ap (λ n. settle s.id n (choice n) now (find_match s.id n rows)) same,
          entry-settle j (find_match s.id j rows),
        )
    | inr e ↦
        ground
          (arith, e, entries-after k ks rows, find-match_kind s.id s.id now k j (choice k) rows)
  ]

  pub entries_lem :
      (ks : List String) (rows : List MatchRow)
      → (match_kinds profiles avg db now s ks rows).1
        ≡ map (λ k. entry_of k (choice k) (find_match s.id k rows)) ks
  unfolding match_kinds
  entries_lem [] rows = refl
  entries_lem (k ∷ ks) rows =
      let rows' = (match_kind s.id now k (choice k) rows).0 in
      ground (
        arith,
        entry-match_kind s.id now k (choice k) rows,
        entries_lem ks rows' ∙ entries-after k ks rows,
      )
