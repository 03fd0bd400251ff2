-- ===== src/Runtime/Sorted.antt =====
-- What the search of `_topo_order` (server/runtime.py) leaves, node by node.
use astrolab.Prelude.{
  ℕ, zero, suc, String, true, false, ◌≡◌, refl, List, [], ◌∷◌, ◌++◌, arith, str_eq, eq_iff,
  if◌then◌else◌, All, if_both_eq, Bool-cases, inl, inr, ◌∙◌, sym, subst,
}
use astrolab.Cache.{member}
use astrolab.Runtime.Graph.{add, reversed}
use astrolab.Runtime.Topo.{Search, Visit, done, cycle, no_fuel, visit_each, finish, visit}

reversed-append : (x : String) (xs : List String) → reversed (xs ++ x ∷ []) ≡ x ∷ reversed xs
reversed-append x [] = refl
reversed-append x (y ∷ xs) = ground (arith, reversed-append x xs)

member-append :
    (q x : String) (xs : List String)
    → member q (xs ++ x ∷ []) ≡ (if member q xs then true else str_eq x q)
member-append q x [] = ground arith
member-append q x (y ∷ xs) = ground (arith, member-append q x xs)

pub member-add :
    (q x : String) (xs : List String)
    → member q (add x xs) ≡ (if str_eq x q then true else member q xs)
member-add q x xs = elim (Bool-cases (member x xs)) [
  | inl there ↦ rw there (elim (Bool-cases (str_eq x q)) [
    | inl same ↦ rw same (subst (λ q. member q xs ≡ true) ((eq_iff x q).0 same) there)
    | inr other ↦ rw other
  ])
  | inr new ↦ rw new (ground (arith, member-append q x xs))
]

module _ (deps : String → List String) where
  -- In the reversed order: no node twice, and behind each all that it depends on.
  abbrev pub IsTopo : List String → Type 0
  IsTopo [] = Unit
  IsTopo (n ∷ order) =
      (member n order ≡ false) × All (λ d. member d order ≡ true) (deps n) × IsTopo order

  pub record IsGood (visiting : List String) (s : Search) : Type 0 where
    pub same : (q : String) → member q s.visited ≡ member q (reversed s.order)
    pub topo : IsTopo (reversed s.order)
    pub apart : (q : String) → member q visiting ≡ true → member q s.visited ≡ false

  -- The search went on from `s` to `t`.
  pub record IsAfter (visiting : List String) (s t : Search) : Type 0 where
    pub good : IsGood visiting t
    pub grows : (q : String) → member q s.visited ≡ true → member q t.visited ≡ true

  abbrev pub After : List String → String → Search → Visit → Type 0
  After visiting nid s (done t) = IsAfter visiting s t × (member nid t.visited ≡ true)
  After visiting nid s _ = Unit

  abbrev pub AfterEach : List String → List String → Search → Visit → Type 0
  AfterEach visiting ds s (done t) = IsAfter visiting s t × All (λ d. member d t.visited ≡ true) ds
  AfterEach visiting ds s _ = Unit

  then_each :
      (visiting : List String) (d : String) (ds : List String) (s t : Search) (r : Visit)
      → IsAfter visiting s t
      → member d t.visited ≡ true
      → AfterEach visiting ds t r
      → AfterEach visiting (d ∷ ds) s r
  then_each visiting d ds s t (done u) first there (rest, all) = (
    record { good = rest.good; grows = λ q h. rest.grows q (first.grows q h) },
    (rest.grows d there, all),
  )
  then_each visiting d ds s t (cycle n) first there rest = tt
  then_each visiting d ds s t no_fuel first there rest = tt

  first-After :
      (visiting : List String) (v : String → Search → Visit) (d : String) (ds : List String)
      (s : Search) (r : Visit)
      → After visiting d s r
      → ((t : Search) → IsGood visiting t → AfterEach visiting ds t (visit_each v ds t))
      → AfterEach visiting
          (d ∷ ds)
          s
          (elim r [ done t ↦ visit_each v ds t | cycle n ↦ cycle n | no_fuel ↦ no_fuel ])
  first-After visiting v d ds s (done t) (first, there) rest =
      then_each visiting d ds s t (visit_each v ds t) first there (rest t first.good)
  first-After visiting v d ds s (cycle n) first rest = tt
  first-After visiting v d ds s no_fuel first rest = tt

  pub visit_each-After :
      (visiting : List String) (v : String → Search → Visit)
      → ((d : String) (s : Search) → IsGood visiting s → After visiting d s (v d s))
      → (ds : List String) (s : Search) → IsGood visiting s
      → AfterEach visiting ds s (visit_each v ds s)
  unfolding visit_each
  visit_each-After visiting v step [] s good = (record { good = good; grows = λ q h. h }, tt)
  visit_each-After visiting v step (d ∷ ds) s good =
      first-After visiting v d ds s (v d s) (step d s good)
        (λ t g. visit_each-After visiting v step ds t g)

  finish-After :
      (visiting : List String) (nid : String) (s : Search) (r : Visit)
      → member nid visiting ≡ false
      → IsGood visiting s
      → AfterEach (add nid visiting) (deps nid) s r
      → After visiting nid s (finish nid r)
  finish-After visiting nid s (cycle n) free good each = tt
  finish-After visiting nid s no_fuel free good each = tt
  finish-After visiting nid s (done t) free good (after, all) =
      let fresh : member nid t.visited ≡ false =
        after.good.apart nid (ground (arith, member-add nid nid visiting, eq_iff nid nid)) in
      (
        record {
          good = record {
            same = λ q.
                rw (reversed-append nid t.order)
                  (member-add q nid t.visited ∙ ground (arith, after.good.same q));
            topo = rw (reversed-append nid t.order) (
              sym (after.good.same nid) ∙ fresh,
              behind t after.good.same (deps nid) all,
              after.good.topo,
            );
            apart = λ q h. ground (
              arith,
              member-add q nid t.visited,
              member-add q nid visiting,
              after.good.apart q,
              eq_iff nid q,
              h,
              free,
            );
          };
          grows = λ q h. ground (arith, member-add q nid t.visited, after.grows q h);
        },
        ground (arith, member-add nid nid t.visited, eq_iff nid nid),
      )
    where
      behind :
          (t : Search)
          → ((q : String) → member q t.visited ≡ member q (reversed t.order))
          → (ds : List String) → All (λ d. member d t.visited ≡ true) ds
          → All (λ d. member d (reversed t.order) ≡ true) ds
      behind t same [] all = tt
      behind t same (d ∷ ds) all = (sym (same d) ∙ all.0, behind t same ds all.1)

  pub visit-After :
      (fuel : ℕ) (visiting : List String) (nid : String) (s : Search)
      → IsGood visiting s
      → After visiting nid s (visit deps fuel visiting nid s)
  unfolding visit
  visit-After zero visiting nid s good = tt
  visit-After (suc fuel) visiting nid s good =
      if_both_eq (After visiting nid s) (member nid s.visited)
        (λ there. (record { good = good; grows = λ q h. h }, there))
        (λ fresh.
          if_both_eq (After visiting nid s) (member nid visiting) (λ _. tt)
            (λ free. finish-After visiting nid s _ free good (
              visit_each-After (add nid visiting) (visit deps fuel (add nid visiting))
                (visit-After fuel (add nid visiting)) (deps nid) s
                (record {
                  same = good.same;
                  topo = good.topo;
                  apart = λ q h.
                      ground
                        (arith, member-add q nid visiting, good.apart q, eq_iff nid q, h, fresh);
                }))))
