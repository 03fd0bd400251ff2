-- ===== src/Catalog/Matches.antt =====
-- `match_session` and `match_all_sessions` of server/catalog/matching.py. The scope's profile and SQLite's AVG
-- are parameters.
use astrolab.Prelude.{
  ℕ, String, Bool, true, false, ◌&&◌, Option, none, some, List, [], ◌∷◌, map, str_eq, ◌==◌,
  if◌then◌else◌, keep_if, find_first,
}
use astrolab.Prelude.Int.{ℤ}
use astrolab.Catalog.Rows.{FrameRow, SessionRow, MatchRow, Catalog, not_needed, reason}
use astrolab.Catalog.Sessions.{member, frames_linked}
use astrolab.Catalog.Matchers.{Match, match_dark, match_flat, match_bias}

-- What the matcher reads of the profile of a scope: why its lights need no calibration, if so.
abbrev pub Profiles : Type 0
Profiles = Option String → Option String

abbrev pub Average : Type 0
Average = List ℤ → ℤ

unfoldable pub temps_of : List FrameRow → List ℤ
temps_of [] = []
temps_of (f ∷ fs) = elim f.ccd_temp [ none ↦ temps_of fs | some t ↦ t ∷ temps_of fs ]

-- `avg_ccd_temp`, which is NULL where no frame has a temperature.
unfoldable pub avg_ccd_temp : Average → Catalog → ℕ → Option ℤ
unfolding temps_of
avg_ccd_temp avg db sid =
    elim (temps_of (keep_if (λ f. member f.id (frames_linked sid db.session_frames)) db.frames)) [
      | [] ↦ none
      | t ∷ ts ↦ some (avg (t ∷ ts))
    ]

abbrev pub session_by_id : ℕ → List SessionRow → Option SessionRow
session_by_id sid sessions = find_first (λ s. s.id == sid) sessions

abbrev pub is_row : ℕ → String → MatchRow → Bool
is_row sid kind m = m.session_id == sid && str_eq m.kind kind

abbrev pub find_match : ℕ → String → List MatchRow → Option MatchRow
find_match sid kind rows = find_first (is_row sid kind) rows

-- `INSERT … ON CONFLICT(session_id, kind) DO UPDATE … WHERE overridden = 0`
unfoldable pub upsert_match : ℕ → String → Match → (now : ℕ) → List MatchRow → List MatchRow
upsert_match sid kind m now [] =
    record {
      session_id = sid;
      kind = kind;
      master_id = m.master_id;
      match_quality = m.quality;
      details = m.details;
      overridden = false;
      updated_at = now;
    }
    ∷ []
upsert_match sid kind m now (row ∷ rows) =
    if is_row sid kind row
    then (if row.overridden
        then row ∷ rows
        else record row {
          master_id = m.master_id;
          match_quality = m.quality;
          details = m.details;
          updated_at = now;
        }
          ∷ rows)
    else row ∷ upsert_match sid kind m now rows

-- An entry of the result: the choice and whether it is the user's.
abbrev pub Entry : Type 0
Entry = String × Match × Bool

abbrev pub kept_entry : String → MatchRow → Entry
kept_entry kind row = (
  kind,
  record { master_id = row.master_id; quality = row.match_quality; details = row.details },
  true,
)

-- The body of the loop over the kinds.
unfoldable pub match_kind : ℕ → (now : ℕ) → String → Match → List MatchRow → List MatchRow × Entry
unfolding upsert_match
match_kind sid now kind m rows =
    let fresh : List MatchRow × Entry = (upsert_match sid kind m now rows, (kind, m, false)) in
    elim (find_match sid kind rows) [
      | none ↦ fresh
      | some row ↦ if row.overridden then (rows, kept_entry kind row) else fresh
    ]

abbrev pub skipped : String → Match
skipped why = record { master_id = none; quality = not_needed; details = reason why }

-- What the matcher of a kind finds, or that none is needed.
unfoldable pub found : Profiles → Average → Catalog → SessionRow → String → Match
unfolding match_dark match_flat match_bias avg_ccd_temp
found profiles avg db s kind = elim (profiles s.scope_id) [
  | some why ↦ skipped why
  | none ↦
      if str_eq kind "dark"
      then match_dark db.masters s (avg_ccd_temp avg db s.id)
      else if str_eq kind "flat"
      then match_flat db.masters s
      else match_bias db.masters s
]

unfoldable pub match_kinds :
    Profiles
    → Average
    → Catalog
    → (now : ℕ) → SessionRow
    → List String
    → List MatchRow
    → List MatchRow × List Entry
unfolding found match_kind
match_kinds profiles avg db now s [] rows = (rows, [])
match_kinds profiles avg db now s (kind ∷ kinds) rows =
    let (rows', entry) = match_kind s.id now kind (found profiles avg db s kind) rows in
    let (left, entries) = match_kinds profiles avg db now s kinds rows' in (left, entry ∷ entries)

abbrev pub kinds : List String
kinds = "dark" ∷ "flat" ∷ "bias" ∷ []

-- `none` for the ValueError of an unknown session.
unfoldable pub match_session :
    Profiles → Average → (now : ℕ) → ℕ → Catalog → Option (Catalog × List Entry)
unfolding match_kinds
match_session profiles avg now sid db = elim (session_by_id sid db.sessions) [
  | none ↦ none
  | some s ↦
      let (rows, entries) = match_kinds profiles avg db now s kinds db.calibration_matches in
      some (record db { calibration_matches = rows }, entries)
]

-- The loop of `match_all_sessions`, over the ids that were read first. Each call reads the clock.
unfoldable pub match_each : Profiles → Average → (now : ℕ → ℕ) → List ℕ → Catalog → Option Catalog
unfolding match_session
match_each profiles avg now [] db = some db
match_each profiles avg now (sid ∷ sids) db = elim (match_session profiles avg (now sid) sid db) [
  | none ↦ none
  | some (db', entries) ↦ match_each profiles avg now sids db'
]

unfoldable pub match_all_sessions : Profiles → Average → (now : ℕ → ℕ) → Catalog → Option Catalog
unfolding match_each
match_all_sessions profiles avg now db =
    match_each profiles avg now (map (λ s. s.id) db.sessions) db
