-- ===== src/Catalog/Settled.antt =====
-- The calls `match_session` and `match_all_sessions` of server/catalog/matching.py as a whole.
use astrolab.Prelude.{
  ℕ, String, true, false, ◌&&◌, Option, none, some, List, [], ◌∷◌, map, ◌==◌, ==_iff, ◌≡◌, refl, ap,
  ◌∙◌, if◌then◌else◌, arith, Bool-cases, Option-cases, inl, inr, is_some, All,
}
use astrolab.Catalog.Rows.{SessionRow, MatchRow, Catalog}
use astrolab.Catalog.Sessions.{member}
use astrolab.Catalog.Matchers.{Match}
use astrolab.Catalog.Matches.{
  avg_ccd_temp, Profiles, Average, Entry, find_match, found, match_kinds, kinds, session_by_id,
  match_session, match_each, match_all_sessions,
}
use astrolab.Catalog.Kinds.{settle, entry_of, listed, find-match_kinds, entries_lem}

id-session_by_id :
    (sid : ℕ) (sessions : List SessionRow) (s : SessionRow)
    → session_by_id sid sessions ≡ some s
    → s.id ≡ sid
id-session_by_id sid [] s e = absurd (ground (arith, e))
id-session_by_id sid (t ∷ sessions) s e = ground (arith, id-session_by_id sid sessions s)

module _ (profiles : Profiles) (avg : Average) where
  -- What a match of a session does: every kind is answered by the user's choice where there is one,
  -- else by what the matcher finds; the table then says the same, and nothing else changes.
  abbrev pub Matches : (now : ℕ) → Catalog → SessionRow → Catalog → List Entry → Type 0
  Matches now db s db' entries =
      (entries
        ≡ map
            (λ k. entry_of k (found profiles avg db s k) (find_match s.id k db.calibration_matches))
            kinds)
      × (db' ≡ record db { calibration_matches = db'.calibration_matches })
      × ((sid : ℕ) (kind : String)
          → find_match sid kind db'.calibration_matches ≡ (
              if (s.id == sid) && listed kinds kind
              then some (
                  settle s.id kind (found profiles avg db s kind) now
                    (find_match s.id kind db.calibration_matches))
              else find_match sid kind db.calibration_matches))

  -- A match of a known session succeeds: each of the three kinds is answered by the user's override
  -- where there is one and by the matcher otherwise, the table holds the answers afterwards, the
  -- override's row as it was, and no other row and no other table changes.
  pub match_session-Matches :
      (now sid : ℕ) (db : Catalog) (s : SessionRow)
      → session_by_id sid db.sessions ≡ some s
      → (db' : Catalog) × (entries : List Entry) × (match_session profiles avg now sid db
          ≡ some (db', entries))
        × Matches now db s db' entries
  unfolding match_session
  match_session-Matches now sid db s e =
      let r = match_kinds profiles avg db now s kinds db.calibration_matches in
      (
        record db { calibration_matches = r.0 },
        r.1,
        rw (e, match_session) refl,
        (
          entries_lem profiles avg db now s kinds db.calibration_matches,
          refl,
          λ sid' kind.
              find-match_kinds profiles avg db now s sid' kind kinds db.calibration_matches,
        ),
      )

  -- The rows of one session and kind after the loop over some sessions.
  abbrev At : (ℕ → ℕ) → List ℕ → Catalog → Catalog → ℕ → String → SessionRow → Type 0
  At now sids db db' sid kind s = find_match sid kind db'.calibration_matches ≡ (
      if member sid sids && listed kinds kind
      then some (
          settle sid kind (found profiles avg db s kind) (now sid)
            (find_match sid kind db.calibration_matches))
      else find_match sid kind db.calibration_matches)

  abbrev Rest : List ℕ → Catalog → Catalog → Type 0
  Rest sids db db' =
      (db' ≡ record db { calibration_matches = db'.calibration_matches })
      × ((sid : ℕ) (kind : String)
          → member sid sids ≡ false
          → find_match sid kind db'.calibration_matches
            ≡ find_match sid kind db.calibration_matches)

  abbrev Known : Catalog → List ℕ → Type 0
  Known db [] = Unit
  Known db (sid ∷ sids) =
      ((s : SessionRow) × (session_by_id sid db.sessions ≡ some s)) × Known db sids

  found-same :
      (db : Catalog) (rows : List MatchRow) (s : SessionRow) (kind : String)
      → found profiles avg (record db { calibration_matches = rows }) s kind
        ≡ found profiles avg db s kind
  unfolding found avg_ccd_temp
  found-same db rows s kind = refl

  settle_twice :
      (sid : ℕ) (kind : String) (m : Match) (now : ℕ) (o : Option MatchRow)
      → settle sid kind m now (some (settle sid kind m now o)) ≡ settle sid kind m now o
  settle_twice sid kind m now none = refl
  settle_twice sid kind m now (some row) = ground arith

  -- One round of the loop before the others.
  At-cons :
      (now : ℕ → ℕ) (sids : List ℕ) (i : ℕ) (db db' : Catalog) (rows : List MatchRow)
      (t : SessionRow) (sid : ℕ) (kind : String) (s : SessionRow)
      → session_by_id i db.sessions ≡ some t
      → session_by_id sid db.sessions ≡ some s
      → find_match sid kind rows ≡ (
          if (t.id == sid) && listed kinds kind
          then some (
              settle t.id kind
                (found profiles avg db t kind)
                (now i)
                (find_match t.id kind db.calibration_matches))
          else find_match sid kind db.calibration_matches)
      → At now sids (record db { calibration_matches = rows }) db' sid kind s
      → At now (i ∷ sids) db db' sid kind s
  At-cons now sids i db db' rows t sid kind s found_i found_s first later =
      let id_i = id-session_by_id i db.sessions t found_i in
      let old = find_match sid kind db.calibration_matches in
      let m = found profiles avg db s kind in
      elim (Bool-cases (i == sid)) [
        | inl e ↦
            let same : i ≡ sid = (==_iff i sid).0 e in
            let one : t ≡ s = cc (ap (λ n. session_by_id n db.sessions) same) in
            let first' : find_match sid kind rows
                ≡ (if listed kinds kind then some (settle sid kind m (now sid) old) else old) =
              ground (
                arith,
                id_i,
                same,
                first,
                ap (λ n. find_match n kind db.calibration_matches) (id_i ∙ same),
                ap (λ r. found profiles avg db r kind) one,
                ap now same,
              ) in
            ground (
              arith,
              e,
              first',
              later,
              found-same db rows s kind,
              settle_twice sid kind m (now sid) old,
            )
        | inr e ↦ ground (arith, e, id_i, first, later, found-same db rows s kind)
      ]

  match_each-At :
      (now : ℕ → ℕ) (sids : List ℕ) (db : Catalog)
      → Known db sids
      → (db' : Catalog) × (match_each profiles avg now sids db ≡ some db')
        × Rest sids db db'
        × ((sid : ℕ) (kind : String) (s : SessionRow)
            → session_by_id sid db.sessions ≡ some s
            → At now sids db db' sid kind s)
  unfolding match_each
  match_each-At now [] db known =
      (db, refl, (refl, λ sid kind h. refl), λ sid kind s e. ground arith)
  match_each-At now (i ∷ sids) db ((t, found_i), known) =
      let first = match_session-Matches (now i) i db t found_i in
      let rows = first.0.calibration_matches in
      let db1 : Catalog = record db { calibration_matches = rows } in
      let later = match_each-At now sids db1 known in
      let id_i = id-session_by_id i db.sessions t found_i in
      let run : match_session profiles avg (now i) i db ≡ some (db1, first.1) =
        first.2 ∙ ap (λ d. some (d, first.1)) first.3.1 in
      (
        later.0,
        rw (run, match_each) later.1,
        (later.2.0, λ sid kind h. ground (arith, later.2.1 sid kind, first.3.2 sid kind, id_i, h)),
        λ sid kind s e.
            At-cons now sids i db later.0 rows t sid kind s found_i e (first.3.2 sid kind)
              (later.3 sid kind s e),
      )

  is_known :
      (i : ℕ) (sessions : List SessionRow)
      → member i (map (λ s. s.id) sessions) ≡ is_some (session_by_id i sessions)
  is_known i [] = refl
  is_known i (t ∷ sessions) = ground (arith, is_known i sessions)

  Known-of :
      (db : Catalog) (sids : List ℕ)
      → All (λ i. is_some (session_by_id i db.sessions) ≡ true) sids
      → Known db sids
  Known-of db [] h = tt
  Known-of db (i ∷ sids) h = elim (Option-cases (session_by_id i db.sessions)) [
    | inl e ↦ absurd (ground (arith, e, h.0))
    | inr f ↦ (f, Known-of db sids h.1)
  ]

  All-known :
      (rest sessions : List SessionRow)
      → ((i : ℕ)
          → is_some (session_by_id i rest) ≡ true
          → is_some (session_by_id i sessions) ≡ true)
      → All (λ i. is_some (session_by_id i sessions) ≡ true) (map (λ s. s.id) rest)
  All-known [] sessions sub = tt
  All-known (t ∷ rest) sessions sub =
      (sub t.id (ground arith), All-known rest sessions (λ i h. sub i (ground (arith, h))))

  -- A match of all sessions never fails. Afterwards, for each session and each of the three kinds,
  -- the table holds the user's override as it was, or else what the matcher finds; the rows of all
  -- other sessions and kinds and the other tables are as before.
  pub match_all_sessions-Settles :
      (now : ℕ → ℕ) (db : Catalog)
      → (db' : Catalog) × (match_all_sessions profiles avg now db ≡ some db')
        × (db' ≡ record db { calibration_matches = db'.calibration_matches })
        × ((sid : ℕ) (kind : String)
            → session_by_id sid db.sessions ≡ none
            → find_match sid kind db'.calibration_matches
              ≡ find_match sid kind db.calibration_matches)
        × ((sid : ℕ) (kind : String) (s : SessionRow)
            → session_by_id sid db.sessions ≡ some s
            → find_match sid kind db'.calibration_matches ≡ (
                if listed kinds kind
                then some (
                    settle sid kind
                      (found profiles avg db s kind)
                      (now sid)
                      (find_match sid kind db.calibration_matches))
                else find_match sid kind db.calibration_matches))
  unfolding match_all_sessions
  match_all_sessions-Settles now db =
      let sids = map (λ s. s.id) db.sessions in
      let r =
        match_each-At now sids db
          (Known-of db sids (All-known db.sessions db.sessions (λ i h. h))) in
      (
        r.0,
        r.1,
        r.2.0,
        λ sid kind e. r.2.1 sid kind (ground (arith, e, is_known sid db.sessions)),
        λ sid kind s e. ground (arith, r.3 sid kind s e, e, is_known sid db.sessions),
      )
