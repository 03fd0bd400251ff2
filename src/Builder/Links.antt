-- ===== src/Builder/Links.antt =====
-- What `_stage_multi_session_lights` of server/job_builder.py leaves in a directory, link by link.
use astrolab.Prelude.{
  ℕ, String, ◌&&◌, ◌||◌, Option, none, some, List, [], ◌∷◌, str_eq, eq_iff, ltb, ◌==◌, ◌≡◌, refl,
  ap, if◌then◌else◌, is_some, arith, Bool-cases, Option-cases, inl, inr, ◌⊎◌,
}
use astrolab.Dict.{Dict, get, pop, get-set, get-pop, IsDict}
use astrolab.Catalog.Masters.{str_ltb}
use astrolab.Catalog.Picks.{IsIn}
use astrolab.Builder.Records.{Entry, link, file}
use astrolab.Builder.Staging.{insert_row, order_rows, drop_stale, put_link, put_links, stage_dir}

get-put_link :
    (m name src : String) (dir : Dict Entry)
    → get m (put_link name src dir) ≡ (if str_eq name m then some (link src) else get m dir)
unfolding put_link
get-put_link m name src dir = elim (Option-cases (get name dir)) [
  | inl e ↦ ground (arith, e, get-set name m (link src) dir)
  | inr (link target, e) ↦ ground (
    arith,
    e,
    eq_iff target src,
    eq_iff name m,
    get-set name m (link src) (pop name dir),
    get-pop name m dir,
  )
  | inr (file, e) ↦ ground (arith, e, get-set name m (link src) (pop name dir), get-pop name m dir)
]

-- A link to each desired source, under its name.
abbrev linked : Dict Entry → String → Option String → Option Entry
linked dir m none = get m dir
linked dir m (some src) = some (link src)

get-put_links :
    (m : String) (desired : Dict String) (dir : Dict Entry)
    → IsDict desired
    → get m (put_links desired dir) ≡ linked dir m (get m desired)
unfolding put_links get
get-put_links m [] dir d = refl
get-put_links m ((name, src) ∷ desired) dir d = ground (
  arith,
  get-put_links m desired (put_link name src dir) d.1,
  get-put_link m name src dir,
  eq_iff name m,
  d.0,
)

get-drop_stale :
    (m : String) (desired : Dict String) (dir : Dict Entry)
    → get m (drop_stale desired dir) ≡ (if is_some (get m desired) then get m dir else none)
unfolding drop_stale get
get-drop_stale m desired [] = ground arith
get-drop_stale m desired ((n, e) ∷ dir) = elim (Bool-cases (str_eq n m)) [
  | inl f ↦
      ground (
        arith,
        f,
        get-drop_stale m desired dir,
        ap (λ k. is_some (get k desired)) ((eq_iff n m).0 f),
      )
  | inr f ↦ ground (arith, f, get-drop_stale m desired dir)
]

pub get-stage_dir :
    (m : String) (desired : Dict String) (dir : Dict Entry)
    → IsDict desired
    → get m (stage_dir desired dir)
      ≡ elim (get m desired) [ none ↦ none | some src ↦ some (link src) ]
unfolding stage_dir
get-stage_dir m desired dir d =
    ground (arith, get-put_links m desired (drop_stale desired dir) d, get-drop_stale m desired dir)

IsIn-insert_row :
    (r q : ℕ × String) (qs : List (ℕ × String))
    → (IsIn r (insert_row q qs) → (q ≡ r) ⊎ IsIn r qs)
      × ((q ≡ r) ⊎ IsIn r qs → IsIn r (insert_row q qs))
unfolding insert_row
IsIn-insert_row r q [] = (λ h. h, λ h. h)
IsIn-insert_row r q (p ∷ ps) = elim (Bool-cases (ltb p.0 q.0 || (p.0 == q.0 && str_ltb p.1 q.1))) [
  | inl e ↦ rw e (
    λ h. elim h [
      | inl s ↦ inr (inl s)
      | inr m ↦ elim ((IsIn-insert_row r q ps).0 m) [ inl s ↦ inl s | inr n ↦ inr (inr n) ]
    ],
    λ h. elim h [
      | inl s ↦ inr ((IsIn-insert_row r q ps).1 (inl s))
      | inr (inl s) ↦ inl s
      | inr (inr n) ↦ inr ((IsIn-insert_row r q ps).1 (inr n))
    ],
  )
  | inr e ↦ rw e (λ h. h, λ h. h)
]

pub IsIn-order_rows :
    (r : ℕ × String) (rs : List (ℕ × String))
    → (IsIn r (order_rows rs) → IsIn r rs) × (IsIn r rs → IsIn r (order_rows rs))
unfolding order_rows
IsIn-order_rows r [] = (λ h. h, λ h. h)
IsIn-order_rows r (q ∷ qs) = (
  λ h. elim ((IsIn-insert_row r q (order_rows qs)).0 h) [
    | inl s ↦ inl s
    | inr m ↦ inr ((IsIn-order_rows r qs).0 m)
  ],
  λ h.
      (IsIn-insert_row r q (order_rows qs)).1
        (elim h [ inl s ↦ inl s | inr m ↦ inr ((IsIn-order_rows r qs).1 m) ]),
)
