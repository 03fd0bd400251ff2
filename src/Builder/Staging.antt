-- ===== src/Builder/Staging.antt =====
-- `_stage_multi_session_lights` of server/job_builder.py, where no file operation fails.
use Prim.Native.String.{◌++◌ as ◌+s◌}
use astrolab.Prelude.{
  ℕ, String, Bool, false, ◌&&◌, ◌||◌, none, some, List, [], ◌∷◌, str_eq, ◌==◌, ltb, if◌then◌else◌,
  keep_if, is_some,
}
use astrolab.Dict.{Dict, get, set, pop, get_or}
use astrolab.Catalog.Rows.{LinkRow, Catalog, is_light}
use astrolab.Catalog.Sessions.{member}
use astrolab.Catalog.Masters.{str_ltb}
use astrolab.Catalog.Bundles.{frame_by_id}
use astrolab.Builder.Records.{Built, ok, err, Paths, Entry, link, file, Files, no_light_frames}

-- The rows of the query, a session and the path of a light frame each, before their order.
unfoldable pub light_rows : Catalog → List ℕ → List LinkRow → List (ℕ × String)
light_rows db sids [] = []
light_rows db sids (l ∷ links) =
    let rest = light_rows db sids links in
    if member l.session_id sids
    then elim (frame_by_id l.frame_id db.frames) [
      | none ↦ rest
      | some f ↦ if is_light f.image_type then (l.session_id, f.path) ∷ rest else rest
    ]
    else rest

-- `ORDER BY sf.session_id, f.path`
unfoldable pub insert_row : ℕ × String → List (ℕ × String) → List (ℕ × String)
unfolding str_ltb
insert_row r [] = r ∷ []
insert_row r (q ∷ qs) =
    if ltb q.0 r.0 || (q.0 == r.0 && str_ltb q.1 r.1) then q ∷ insert_row r qs else r ∷ q ∷ qs

unfoldable pub order_rows : List (ℕ × String) → List (ℕ × String)
unfolding insert_row
order_rows [] = []
order_rows (r ∷ rs) = insert_row r (order_rows rs)

-- `f"s{r['session_id']}__{src.name}"`
abbrev pub link_name : Paths → ℕ × String → String
link_name paths r = "s" +s paths.show r.0 +s "__" +s paths.name (paths.resolve r.1)

unfoldable pub desired_links : Paths → List (ℕ × String) → Dict String → Dict String
unfolding set
desired_links paths [] desired = desired
desired_links paths (r ∷ rs) desired =
    desired_links paths rs (set (link_name paths r) (paths.resolve r.1) desired)

-- The stale links are dropped.
unfoldable pub drop_stale : Dict String → Dict Entry → Dict Entry
unfolding get
drop_stale desired dir = keep_if (λ e. is_some (get e.0 desired)) dir

abbrev pub points_to : String → Entry → Bool
points_to src (link target) = str_eq target src
points_to src file = false

-- One round of the last loop.
unfoldable pub put_link : String → String → Dict Entry → Dict Entry
unfolding get set pop
put_link name src dir = elim (get name dir) [
  | none ↦ set name (link src) dir
  | some e ↦ if points_to src e then dir else set name (link src) (pop name dir)
]

unfoldable pub put_links : Dict String → Dict Entry → Dict Entry
unfolding put_link
put_links [] dir = dir
put_links ((name, src) ∷ desired) dir = put_links desired (put_link name src dir)

unfoldable pub stage_dir : Dict String → Dict Entry → Dict Entry
unfolding drop_stale put_links
stage_dir desired dir = put_links desired (drop_stale desired dir)

unfoldable pub stage_multi_session_lights : Paths → Catalog → List ℕ → Files → Files × Built String
unfolding light_rows order_rows desired_links stage_dir get_or set
stage_multi_session_lights paths db sids files =
    let root = paths.stage_root sids in
    let dir = get_or root [] files in
    elim (order_rows (light_rows db sids db.session_frames)) [
      | [] ↦ (set root dir files, err no_light_frames)
      | r ∷ rs ↦ (set root (stage_dir (desired_links paths (r ∷ rs) []) dir) files, ok root)
    ]
