-- ===== src/Catalog/Matchers.antt =====
-- `_match_dark`, `_match_flat` and `_match_bias` of server/catalog/matching.py.
use astrolab.Prelude.{
  ℕ, String, Bool, Option, none, some, List, [], ◌∷◌, leb, if◌then◌else◌, keep_if,
}
use astrolab.Prelude.Int.{ℤ, pos, int_eq}
use astrolab.Catalog.Rows.{
  SessionRow, MasterRow, MatchQuality, exact, approx, absent, Details, reason, delta, nothing,
}
use astrolab.Catalog.Masters.{
  Setup, fits_dark, fits_flat, fits_bias, pick, deeper, newer, closer, distance, temp_delta,
  dark_temp_tolerance, str_ltb,
}

pub record Match : Type 0 where
  pub master_id : Option ℕ
  pub quality : MatchQuality
  pub details : Details

abbrev pub no_match : String → Match
no_match why = record { master_id = none; quality = absent; details = reason why }

abbrev pub setup_of : SessionRow → (instrument : String) → (exptime : ℕ) → Setup
setup_of s instrument exptime = record {
  instrument = instrument;
  camera = s.camera;
  filter = s.filter;
  exptime = exptime;
  gain = s.gain;
  binning = s.binning;
}

-- `"exact" if delta_c == 0.0 else "approx"`
abbrev pub quality_of : ℤ → MatchQuality
quality_of d = if int_eq d (pos 0) then exact else approx

unfoldable pub dark_in_tolerance : ℤ → List MasterRow → Match
unfolding pick temp_delta
dark_in_tolerance temp [] = no_match "no dark within the tolerance"
dark_in_tolerance temp (m ∷ ms) =
    let best = pick (closer temp) m ms in
    record {
      master_id = some best.id;
      quality = quality_of (temp_delta temp best);
      details = delta (temp_delta temp best);
    }

abbrev pub in_tolerance : (tolerance : ℕ) → ℤ → List MasterRow → List MasterRow
in_tolerance tolerance temp ms = keep_if (λ m. leb (distance temp m) tolerance) ms

-- The candidates, and the mean temperature of the session's frames.
unfoldable pub dark_of : Option ℤ → List MasterRow → Match
unfolding pick dark_in_tolerance
dark_of temp [] = no_match "no dark candidates with matching exp/gain/bin"
dark_of none (m ∷ ms) = record {
  master_id = some (pick deeper m ms).id;
  quality = approx;
  details = reason "no session ccd_temp; chose deepest stack";
}
dark_of (some temp) (m ∷ ms) =
    dark_in_tolerance temp (in_tolerance dark_temp_tolerance temp (m ∷ ms))

unfoldable pub match_dark : List MasterRow → SessionRow → Option ℤ → Match
unfolding dark_of
match_dark masters s temp = elim s.instrument [
  | none ↦ no_match "session missing instrument or exptime"
  | some i ↦ elim s.exptime [
    | none ↦ no_match "session missing instrument or exptime"
    | some e ↦ dark_of temp (keep_if (fits_dark (setup_of s i e)) masters)
  ]
]

unfoldable pub best_exact : (MasterRow → MasterRow → Bool) → String → List MasterRow → Match
unfolding pick str_ltb
best_exact better why [] = no_match why
best_exact better why (m ∷ ms) = record {
  master_id = some (pick better m ms).id;
  quality = exact;
  details = nothing;
}

unfoldable pub match_flat : List MasterRow → SessionRow → Match
unfolding best_exact
match_flat masters s = elim s.instrument [
  | none ↦ no_match "session missing instrument"
  | some i ↦
      best_exact newer "no flat for filter and bin" (keep_if (fits_flat (setup_of s i 0)) masters)
]

unfoldable pub match_bias : List MasterRow → SessionRow → Match
unfolding best_exact
match_bias masters s = elim s.instrument [
  | none ↦ no_match "session missing instrument"
  | some i ↦ best_exact deeper "no bias for bin" (keep_if (fits_bias (setup_of s i 0)) masters)
]
