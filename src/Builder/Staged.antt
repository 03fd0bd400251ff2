-- ===== src/Builder/Staged.antt =====
-- The links that `_stage_multi_session_lights` of server/job_builder.py leaves in the stage directory.
use astrolab.Prelude.{
  ℕ, String, true, some, List, [], ◌∷◌, str_eq, eq_iff, ◌≡◌, refl, subst, is_some, arith,
  Bool-cases, Option-cases, inl, inr, ◌⊎◌,
}
use astrolab.Dict.{Dict, get, set, get_or, get-set, IsDict, set-IsDict}
use astrolab.Catalog.Rows.{Catalog}
use astrolab.Catalog.Picks.{IsIn}
use astrolab.Builder.Records.{Built, ok, err, Paths, Entry, link, Files, no_light_frames}
use astrolab.Builder.Staging.{
  light_rows, order_rows, link_name, desired_links, stage_dir, stage_multi_session_lights,
}
use astrolab.Builder.Links.{get-stage_dir, IsIn-order_rows}

module _ (paths : Paths) where
  desired-IsDict :
      (rs : List (ℕ × String)) (d : Dict String) → IsDict d → IsDict (desired_links paths rs d)
  unfolding desired_links
  desired-IsDict [] d h = h
  desired-IsDict (r ∷ rs) d h =
      desired-IsDict rs (set (link_name paths r) (paths.resolve r.1) d)
        (set-IsDict (link_name paths r) (paths.resolve r.1) d h)

  -- A link name with its source comes from a row of the list.
  abbrev pub IsFrom : List (ℕ × String) → String → String → Type 0
  IsFrom rs n src =
      (r : ℕ × String) × IsIn r rs × (link_name paths r ≡ n) × (paths.resolve r.1 ≡ src)

  desired-IsFrom :
      (rs : List (ℕ × String)) (d : Dict String) (n src : String)
      → get n (desired_links paths rs d) ≡ some src
      → (get n d ≡ some src) ⊎ IsFrom rs n src
  unfolding desired_links
  desired-IsFrom [] d n src e = inl e
  desired-IsFrom (r ∷ rs) d n src e =
      let name = link_name paths r in
      elim (desired-IsFrom rs (set name (paths.resolve r.1) d) n src e) [
        | inr (q, m, p, s) ↦ inr (q, inr m, p, s)
        | inl f ↦ elim (Bool-cases (str_eq name n)) [
          | inl g ↦ inr (
            r,
            inl refl,
            (eq_iff name n).0 g,
            ground (arith, f, g, get-set name n (paths.resolve r.1) d),
          )
          | inr g ↦ inl (ground (arith, f, g, get-set name n (paths.resolve r.1) d))
        ]
      ]

  desired-keeps :
      (rs : List (ℕ × String)) (d : Dict String) (n : String)
      → is_some (get n d) ≡ true
      → is_some (get n (desired_links paths rs d)) ≡ true
  unfolding desired_links
  desired-keeps [] d n h = h
  desired-keeps (r ∷ rs) d n h =
      desired-keeps rs (set (link_name paths r) (paths.resolve r.1) d) n
        (ground (arith, get-set (link_name paths r) n (paths.resolve r.1) d, h))

  desired-has :
      (rs : List (ℕ × String)) (d : Dict String) (r : ℕ × String)
      → IsIn r rs
      → is_some (get (link_name paths r) (desired_links paths rs d)) ≡ true
  unfolding desired_links
  desired-has [] d r h = elim h [ ]
  desired-has (q ∷ rs) d r (inr m) =
      desired-has rs (set (link_name paths q) (paths.resolve q.1) d) r m
  desired-has (q ∷ rs) d r (inl same) =
      let name = link_name paths q in
      let there =
        desired-keeps rs (set name (paths.resolve q.1) d) name
          (ground (arith, get-set name name (paths.resolve q.1) d, eq_iff name name)) in
      subst
        (λ (p : ℕ × String).
          is_some
            (get (link_name paths p) (desired_links paths rs (set name (paths.resolve q.1) d)))
          ≡ true)
        same there

  -- What a stage directory holds: links of the rows, and one for each row.
  abbrev pub IsStaged : List (ℕ × String) → Dict Entry → Type 0
  IsStaged rs dir =
      ((n : String) (e : Entry)
        → get n dir ≡ some e
        → (src : String) × (e ≡ link src) × IsFrom rs n src)
      × ((r : ℕ × String) → IsIn r rs → is_some (get (link_name paths r) dir) ≡ true)

  stage_dir-IsStaged :
      (rs : List (ℕ × String)) (dir : Dict Entry)
      → IsStaged rs (stage_dir (desired_links paths rs []) dir)
  stage_dir-IsStaged rs dir =
      let desired = desired_links paths rs [] in
      let dict = desired-IsDict rs [] tt in
      (
        λ n e h. elim (Option-cases (get n desired)) [
          | inl f ↦ absurd (ground (arith, f, h, get-stage_dir n desired dir dict))
          | inr (src, f) ↦ (
            src,
            ground (arith, f, h, get-stage_dir n desired dir dict),
            elim (desired-IsFrom rs [] n src f) [
              | inl g ↦ absurd (unfold get in ground (arith, g))
              | inr from ↦ from
            ],
          )
        ],
        λ r m.
            ground
              (arith, desired-has rs [] r m, get-stage_dir (link_name paths r) desired dir dict),
      )

  IsStaged-order :
      (rs : List (ℕ × String)) (dir : Dict Entry) → IsStaged (order_rows rs) dir → IsStaged rs dir
  IsStaged-order rs dir h = (
    λ n e g.
        let found = h.0 n e g in
        (
          found.0,
          found.1,
          (found.2.0, (IsIn-order_rows found.2.0 rs).0 found.2.1, found.2.2, found.2.3),
        ),
    λ r m. h.1 r ((IsIn-order_rows r rs).1 m),
  )

  -- What is left of a call: where it gives a directory, that directory is staged.
  abbrev Leaves : Catalog → List ℕ → Files × Built String → Type 0
  Leaves db sids (files, err e) = Unit
  Leaves db sids (files, ok root) =
      (root ≡ paths.stage_root sids)
      × IsStaged (light_rows db sids db.session_frames) (get_or root [] files)

  stage-Leaves :
      (db : Catalog) (sids : List ℕ) (files : Files) (rows : List (ℕ × String))
      → rows ≡ order_rows (light_rows db sids db.session_frames)
      → Leaves db sids (
          let root = paths.stage_root sids in
          let dir = get_or root [] files in
          let out : Files × Built String = elim rows [
            | [] ↦ (set root dir files, err no_light_frames)
            | r ∷ rs ↦ (set root (stage_dir (desired_links paths (r ∷ rs) []) dir) files, ok root)
          ] in
          out)
  unfolding get_or
  stage-Leaves db sids files [] e = tt
  stage-Leaves db sids files (r ∷ rs) e =
      let root = paths.stage_root sids in
      let dir = get_or root [] files in
      let staged = stage_dir (desired_links paths (r ∷ rs) []) dir in
      (
        refl,
        IsStaged-order (light_rows db sids db.session_frames) _ (
            subst (λ rows. IsStaged rows (get_or root [] (set root staged files))) e
              (subst (IsStaged (r ∷ rs))
                (ground (arith, get-set root root staged files, eq_iff root root))
                (stage_dir-IsStaged (r ∷ rs) dir))),
      )

  -- Where a bundle of sessions is staged, whatever the directory held before, it holds links only:
  -- one under the name of each light frame of the sessions, and each to the file of a light frame
  -- of that name.
  pub stage_multi_session_lights-IsStaged :
      (db : Catalog) (sids : List ℕ) (files : Files) (root : String)
      → (stage_multi_session_lights paths db sids files).1 ≡ ok root
      → (root ≡ paths.stage_root sids)
        × IsStaged
            (light_rows db sids db.session_frames)
            (get_or root [] (stage_multi_session_lights paths db sids files).0)
  unfolding stage_multi_session_lights
  stage_multi_session_lights-IsStaged db sids files root e =
      staged_of (stage_multi_session_lights paths db sids files)
        (stage-Leaves db sids files (order_rows (light_rows db sids db.session_frames)) refl) e
    where
      staged_of :
          (r : Files × Built String)
          → Leaves db sids r
          → r.1 ≡ ok root
          → (root ≡ paths.stage_root sids)
            × IsStaged (light_rows db sids db.session_frames) (get_or root [] r.0)
      staged_of (files', err x) h e = absurd (ground (arith, e))
      staged_of (files', ok root') h e =
          let same : root' ≡ root = ground (arith, e) in
          subst
            (λ (p : String).
              (p ≡ paths.stage_root sids)
              × IsStaged (light_rows db sids db.session_frames) (get_or p [] files'))
            same h
