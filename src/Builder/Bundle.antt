-- ===== src/Builder/Bundle.antt =====
-- The bundle of sessions in server/job_builder.py: `_load_sessions`, `_assert_compatible`, the number of light
-- frames, `session_lights_folder`, and the order that `sorted(set(…))` brings.
use astrolab.Prelude.{
  ℕ, ◌+◌, String, Bool, not, ◌&&◌, none, some, List, [], ◌∷◌, map, str_eq, ◌==◌, ltb, if◌then◌else◌,
  keep_if, any, length,
}
use astrolab.Prelude.Int.{int_eq}
use astrolab.Catalog.Rows.{FrameRow, SessionRow, Catalog, is_light}
use astrolab.Catalog.Clusters.{opt_eq}
use astrolab.Catalog.Sessions.{member, frames_linked}
use astrolab.Catalog.Matches.{session_by_id}
use astrolab.Builder.Records.{
  Built, ok, err, ◌>>=◌, Paths, session_not_found, no_light_frames, incompatible_sessions,
  spans_folders,
}

unfoldable pub insert_id : ℕ → List ℕ → List ℕ
insert_id i [] = i ∷ []
insert_id i (j ∷ js) = if ltb i j then i ∷ j ∷ js else if i == j then j ∷ js else j ∷ insert_id i js

-- `sorted(set(session_ids))`
unfoldable pub sorted_set : List ℕ → List ℕ
unfolding insert_id
sorted_set [] = []
sorted_set (i ∷ is) = insert_id i (sorted_set is)

unfoldable pub load_sessions : Catalog → List ℕ → Built (List SessionRow)
load_sessions db [] = ok []
load_sessions db (sid ∷ sids) = elim (session_by_id sid db.sessions) [
  | none ↦ err (session_not_found sid)
  | some s ↦ do rest ← load_sessions db sids; ok (s ∷ rest)
]

-- `s[field] != head_val` for some of the sessions.
abbrev pub differs : (SessionRow → SessionRow → Bool) → SessionRow → List SessionRow → Bool
differs same head sessions = any (λ s. not (same s head)) sessions

abbrev pub same_instrument : SessionRow → SessionRow → Bool
same_instrument a b = opt_eq str_eq a.instrument b.instrument

abbrev pub same_camera : SessionRow → SessionRow → Bool
same_camera a b = opt_eq str_eq a.camera b.camera

abbrev pub same_filter : SessionRow → SessionRow → Bool
same_filter a b = opt_eq str_eq a.filter b.filter

abbrev pub same_gain : SessionRow → SessionRow → Bool
same_gain a b = opt_eq int_eq a.gain b.gain

abbrev pub same_binning : SessionRow → SessionRow → Bool
same_binning a b = opt_eq int_eq a.binning b.binning

-- `COMPAT_FIELDS`
abbrev pub compat_fields : List (String × (SessionRow → SessionRow → Bool))
compat_fields =
    ("instrument", same_instrument)
    ∷ ("camera", same_camera)
    ∷ ("filter", same_filter)
    ∷ ("gain", same_gain)
    ∷ ("binning", same_binning)
    ∷ []

unfoldable pub conflicts : SessionRow → List SessionRow → List String
conflicts head rest = map (λ f. f.0) (keep_if (λ f. differs f.1 head rest) compat_fields)

unfoldable pub assert_compatible : List SessionRow → Built (Unit {0})
unfolding conflicts
assert_compatible [] = ok tt
assert_compatible (head ∷ rest) = elim (conflicts head rest) [
  | [] ↦ ok tt
  | f ∷ fs ↦ err (incompatible_sessions (f ∷ fs))
]

-- The light frames of a session.
abbrev pub lights_of : Catalog → ℕ → List FrameRow
lights_of db sid =
    keep_if (λ f. member f.id (frames_linked sid db.session_frames) && is_light f.image_type)
      db.frames

unfoldable pub total_lights : Catalog → List ℕ → ℕ
total_lights db [] = 0
total_lights db (sid ∷ sids) = length (lights_of db sid) + total_lights db sids

-- A set of texts, by its members.
unfoldable pub text_set : List String → List String
text_set [] = []
text_set (s ∷ ss) = let rest = text_set ss in if any (str_eq s) ss then rest else s ∷ rest

unfoldable pub session_lights_folder : Paths → Catalog → ℕ → Built String
unfolding text_set
session_lights_folder paths db sid =
    elim (text_set (map (λ f. paths.parent f.path) (lights_of db sid))) [
      | [] ↦ err no_light_frames
      | p ∷ [] ↦ ok p
      | p ∷ q ∷ ps ↦ err (spans_folders (length (p ∷ q ∷ ps)))
    ]
