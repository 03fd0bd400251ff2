-- ===== src/Builder/Compatible.antt =====
-- `_assert_compatible` of server/job_builder.py against a pairwise reading of its rules.
use astrolab.Prelude.{
  ℕ, String, Bool, true, false, Option, none, some, List, [], ◌∷◌, map, str_eq, eq_iff, ◌≡◌, refl,
  sym, ap, ◌∙◌, ◌↔◌, keep_if, arith, All, Bool-cases, Option-cases, inl, inr, subst, ◌⊎◌,
}
use astrolab.Prelude.Int.{int_eq, int_eq_iff}
use astrolab.Catalog.Rows.{SessionRow, Catalog}
use astrolab.Catalog.Clusters.{opt_eq}
use astrolab.Catalog.Matches.{session_by_id}
use astrolab.Builder.Records.{Built, ok, err, ◌>>=◌}
use astrolab.Builder.Bundle.{
  load_sessions, conflicts, assert_compatible, differs, same_instrument, same_camera, same_filter,
  same_gain, same_binning, compat_fields,
}

-- The sessions of the ids, in their order.
abbrev pub AreRows : Catalog → List ℕ → List SessionRow → Type 0
AreRows db [] [] = Unit
AreRows db [] (s ∷ ss) = ⊥
AreRows db (i ∷ is) [] = ⊥
AreRows db (i ∷ is) (s ∷ ss) = (session_by_id i db.sessions ≡ some s) × AreRows db is ss

-- Two sessions agree on the fields that a stack needs.
abbrev pub Agree : SessionRow → SessionRow → Type 0
Agree s t =
    (s.instrument ≡ t.instrument)
    × (s.camera ≡ t.camera)
    × (s.filter ≡ t.filter)
    × (s.gain ≡ t.gain)
    × (s.binning ≡ t.binning)

abbrev pub AllAgree : List SessionRow → Type 0
AllAgree [] = Unit
AllAgree (s ∷ ss) = All (λ t. Agree t s) ss

opt_eq_iff :
    {A : Type 0} (eq : A → A → Bool)
    → ((a b : A) → (eq a b ≡ true) ↔ (a ≡ b))
    → (x y : Option A) → (opt_eq eq x y ≡ true) ↔ (x ≡ y)
opt_eq_iff eq iff none none = (λ _. refl, λ _. refl)
opt_eq_iff eq iff none (some b) = (λ h. absurd (ground (arith, h)), λ h. absurd (ground (arith, h)))
opt_eq_iff eq iff (some a) none = (λ h. absurd (ground (arith, h)), λ h. absurd (ground (arith, h)))
opt_eq_iff eq iff (some a) (some b) =
    (λ h. ap some ((iff a b).0 h), λ h. (iff a b).1 (ground (arith, h)))

pub AreRows-load_sessions :
    (db : Catalog) (sids : List ℕ) (ss : List SessionRow)
    → load_sessions db sids ≡ ok ss
    → AreRows db sids ss
unfolding load_sessions
AreRows-load_sessions db [] [] e = tt
AreRows-load_sessions db [] (s ∷ ss) e = ground (arith, e)
AreRows-load_sessions db (i ∷ is) ss e = elim (Option-cases (session_by_id i db.sessions)) [
  | inl f ↦ absurd (ground (arith, e, f))
  | inr (t, f) ↦
      loaded (load_sessions db is) (AreRows-load_sessions db is) t f ss (ground (arith, e, f))
]
  where
    loaded :
        (r : Built (List SessionRow))
        → ((ss : List SessionRow) → r ≡ ok ss → AreRows db is ss)
        → (t : SessionRow) → session_by_id i db.sessions ≡ some t
        → (ss : List SessionRow) → (r >>= λ rest. ok (t ∷ rest)) ≡ ok ss
        → AreRows db (i ∷ is) ss
    loaded (err x) ih t f ss e = absurd (ground (arith, e))
    loaded (ok rest) ih t f ss e =
        let same : t ∷ rest ≡ ss = ground (arith, e) in
        subst (AreRows db (i ∷ is)) same (f, ih rest refl)

pub load_sessions-AreRows :
    (db : Catalog) (sids : List ℕ) (ss : List SessionRow)
    → AreRows db sids ss
    → load_sessions db sids ≡ ok ss
unfolding load_sessions
load_sessions-AreRows db [] [] h = refl
load_sessions-AreRows db [] (s ∷ ss) h = elim h [ ]
load_sessions-AreRows db (i ∷ is) [] h = elim h [ ]
load_sessions-AreRows db (i ∷ is) (s ∷ ss) h =
    ground (arith, h.0, load_sessions-AreRows db is ss h.1)

abbrev Same : Type 0
Same = SessionRow → SessionRow → Bool

differs_iff :
    (same : Same) (head : SessionRow) (rest : List SessionRow)
    → (differs same head rest ≡ false) ↔ All (λ s. same s head ≡ true) rest
differs_iff same head [] = (λ _. tt, λ _. refl)
differs_iff same head (s ∷ ss) = elim (Bool-cases (same s head)) [
  | inl e ↦ (
    λ h. (e, (differs_iff same head ss).0 (ground (arith, h, e))),
    λ h. ground (arith, e, (differs_iff same head ss).1 h.1),
  )
  | inr e ↦ (λ h. absurd (ground (arith, h, e)), λ h. absurd (ground (arith, h.0, e)))
]

named : List (String × Bool) → List String
named bs = map (λ b. b.0) (keep_if (λ b. b.1) bs)

named-cons :
    (n : String) (b : Bool) (bs : List (String × Bool))
    → (named ((n, b) ∷ bs) ≡ []) ↔ (b ≡ false) × (named bs ≡ [])
unfolding named
named-cons n true bs = (λ h. ground (arith, h), λ h. absurd (ground (arith, h.0)))
named-cons n false bs = (λ h. (refl, h), λ h. h.1)

conflicts-named :
    (head : SessionRow) (rest : List SessionRow) (fs : List (String × Same))
    → map (λ f. f.0) (keep_if (λ f. differs f.1 head rest) fs)
      ≡ named (map (λ f. (f.0, differs f.1 head rest)) fs)
unfolding named
conflicts-named head rest [] = refl
conflicts-named head rest (f ∷ fs) = elim (Bool-cases (differs f.1 head rest)) [
  | inl e ↦ ground (arith, e, conflicts-named head rest fs)
  | inr e ↦ ground (arith, e, conflicts-named head rest fs)
]

-- No test of the fields is true.
abbrev NoneOf : SessionRow → List SessionRow → List (String × Same) → Type 0
NoneOf head rest [] = Unit
NoneOf head rest ((n, same) ∷ fs) = All (λ s. same s head ≡ true) rest × NoneOf head rest fs

named_iff :
    (head : SessionRow) (rest : List SessionRow) (fs : List (String × Same))
    → (named (map (λ f. (f.0, differs f.1 head rest)) fs) ≡ []) ↔ NoneOf head rest fs
named_iff head rest [] = (λ _. tt, λ _. unfold named in refl)
named_iff head rest ((n, same) ∷ fs) =
    let cons = named-cons n (differs same head rest) (map (λ f. (f.0, differs f.1 head rest)) fs) in
    (
      λ h. let r = cons.0 h in ((differs_iff same head rest).0 r.0, (named_iff head rest fs).0 r.1),
      λ h. cons.1 ((differs_iff same head rest).1 h.0, (named_iff head rest fs).1 h.1),
    )

conflicts_iff :
    (head : SessionRow) (rest : List SessionRow)
    → (conflicts head rest ≡ []) ↔ NoneOf head rest compat_fields
unfolding conflicts
conflicts_iff head rest =
    let same = conflicts-named head rest compat_fields in
    (
      λ h. (named_iff head rest compat_fields).0 (sym same ∙ h),
      λ h. same ∙ (named_iff head rest compat_fields).1 h,
    )

Agree-iff :
    (head : SessionRow) (rest : List SessionRow)
    → NoneOf head rest compat_fields ↔ All (λ t. Agree t head) rest
Agree-iff head [] = (λ _. tt, λ _. (tt, (tt, (tt, (tt, (tt, tt))))))
Agree-iff head (s ∷ ss) =
    let i = opt_eq_iff str_eq eq_iff s.instrument head.instrument in
    let c = opt_eq_iff str_eq eq_iff s.camera head.camera in
    let f = opt_eq_iff str_eq eq_iff s.filter head.filter in
    let g = opt_eq_iff int_eq int_eq_iff s.gain head.gain in
    let b = opt_eq_iff int_eq int_eq_iff s.binning head.binning in
    let ih = Agree-iff head ss in
    (
      λ ((i0, is), ((c0, cs), ((f0, fs), ((g0, gs), ((b0, bs), t))))).
          ((i.0 i0, c.0 c0, f.0 f0, g.0 g0, b.0 b0), ih.0 (is, (cs, (fs, (gs, (bs, tt)))))),
      λ h. agree_cons i c f g b h.0 (ih.1 h.1),
    )
  where
    agree_cons :
        (same_instrument s head ≡ true) ↔ (s.instrument ≡ head.instrument)
        → (same_camera s head ≡ true) ↔ (s.camera ≡ head.camera)
        → (same_filter s head ≡ true) ↔ (s.filter ≡ head.filter)
        → (same_gain s head ≡ true) ↔ (s.gain ≡ head.gain)
        → (same_binning s head ≡ true) ↔ (s.binning ≡ head.binning)
        → Agree s head
        → NoneOf head ss compat_fields
        → NoneOf head (s ∷ ss) compat_fields
    agree_cons i c f g b h (is, (cs, (fs, (gs, (bs, t))))) =
        ((i.1 h.0, is), ((c.1 h.1, cs), ((f.1 h.2, fs), ((g.1 h.3, gs), ((b.1 h.4, bs), tt)))))

pub assert_compatible_iff : (ss : List SessionRow) → (assert_compatible ss ≡ ok tt) ↔ AllAgree ss
unfolding assert_compatible
assert_compatible_iff [] = (λ _. tt, λ _. refl)
assert_compatible_iff (s ∷ ss) = elim (list_cases (conflicts s ss)) [
  | inl e ↦ (λ _. (Agree-iff s ss).0 ((conflicts_iff s ss).0 e), λ _. ground (arith, e))
  | inr (n, ns, e) ↦ (
    λ h. absurd (ground (arith, e, h)),
    λ h. absurd (ground (arith, e, (conflicts_iff s ss).1 ((Agree-iff s ss).1 h))),
  )
]
  where
    list_cases :
        (xs : List String) → (xs ≡ []) ⊎ ((n : String) × (ns : List String) × (xs ≡ n ∷ ns))
    list_cases [] = inl refl
    list_cases (n ∷ ns) = inr (n, ns, refl)
