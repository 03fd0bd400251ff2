-- ===== src/Builder/Ids.antt =====
-- The ids of the sessions of a request to `build_from_sessions` of server/job_builder.py, as a set.
use astrolab.Prelude.{
  ℕ, ◌≤◌, ◌<◌, false, ◌||◌, List, [], ◌∷◌, ◌==◌, ==_iff, ◌≡◌, refl, sym, ◌∙◌, arith, All,
  Bool-cases, inl, inr,
}
use astrolab.Models.{Template, CalibrationSpec}
use astrolab.Catalog.Rows.{Catalog}
use astrolab.Catalog.Sessions.{member}
use astrolab.Builder.Records.{Paths, Registry, Files, DarkMeta}
use astrolab.Builder.Bundle.{insert_id, sorted_set}
use astrolab.Builder.Build.{build_from_sessions}

abbrev IsAscending : List ℕ → Type 0
IsAscending [] = Unit
IsAscending (i ∷ is) = All (λ j. i < j) is × IsAscending is

All-lt_trans : (i j : ℕ) (ks : List ℕ) → i < j → All (λ k. j < k) ks → All (λ k. i < k) ks
All-lt_trans i j [] h a = tt
All-lt_trans i j (k ∷ ks) h a = (omega (arith, a.0), All-lt_trans i j ks h a.1)

All-insert_id :
    (h i : ℕ) (js : List ℕ) → h < i → All (λ k. h < k) js → All (λ k. h < k) (insert_id i js)
unfolding insert_id
All-insert_id h i [] l a = (l, tt)
All-insert_id h i (j ∷ js) l a = ground (arith, All-insert_id h i js, a.0, a.1)

insert_id-IsAscending : (i : ℕ) (js : List ℕ) → IsAscending js → IsAscending (insert_id i js)
unfolding insert_id
insert_id-IsAscending i [] a = (tt, tt)
insert_id-IsAscending i (j ∷ js) a =
    ground (arith, insert_id-IsAscending i js, All-insert_id j i js, All-lt_trans i j js)

sorted_set-IsAscending : (is : List ℕ) → IsAscending (sorted_set is)
unfolding sorted_set
sorted_set-IsAscending [] = tt
sorted_set-IsAscending (i ∷ is) =
    insert_id-IsAscending i (sorted_set is) (sorted_set-IsAscending is)

member-insert_id : (k i : ℕ) (js : List ℕ) → member k (insert_id i js) ≡ (i == k || member k js)
unfolding insert_id
member-insert_id k i [] = ground arith
member-insert_id k i (j ∷ js) = ground (arith, member-insert_id k i js)

pub member-sorted_set : (k : ℕ) (is : List ℕ) → member k (sorted_set is) ≡ member k is
unfolding sorted_set
member-sorted_set k [] = refl
member-sorted_set k (i ∷ is) =
    ground (arith, member-insert_id k i (sorted_set is), member-sorted_set k is)

not-member_below : (k x : ℕ) (ys : List ℕ) → k ≤ x → All (λ j. x < j) ys → member k ys ≡ false
not-member_below k x [] h a = refl
not-member_below k x (y ∷ ys) h a = ground (arith, not-member_below k x ys h a.1, a.0)

-- Two ascending lists with the same members are the same.
ascending_ext :
    (xs ys : List ℕ)
    → IsAscending xs
    → IsAscending ys
    → ((k : ℕ) → member k xs ≡ member k ys)
    → xs ≡ ys
ascending_ext [] [] a b h = refl
ascending_ext [] (y ∷ ys) a b h = absurd (ground (arith, h y))
ascending_ext (x ∷ xs) [] a b h = absurd (ground (arith, h x))
ascending_ext (x ∷ xs) (y ∷ ys) a b h =
    let head : x ≡ y = ground (arith, h x, h y, not-member_below x y ys, not-member_below y x xs) in
    let tail : xs ≡ ys = ascending_ext xs ys a.1 b.1 (λ k. elim (Bool-cases (x == k)) [
      | inl e ↦
          let k_x : x ≡ k = (==_iff x k).0 e in
          not-member_below k x xs (omega (arith, k_x)) a.0
          ∙ sym (not-member_below k y ys (omega (arith, k_x, head)) b.0)
      | inr e ↦ ground (arith, h k, e, head)
    ]) in
    ground (arith, head, tail)

-- Requests that name the same sessions, in any order and any of them more than once, have the same
-- outcome: the same job or error, and the same staged files.
pub build_from_sessions-set :
    {V : Type 0} (json : List DarkMeta → V) (paths : Paths) (registry : Registry) (db : Catalog)
    (xs ys : List ℕ) (t : Template V) (cal : CalibrationSpec) (files : Files)
    → ((k : ℕ) → member k xs ≡ member k ys)
    → build_from_sessions json paths registry db xs t cal files
      ≡ build_from_sessions json paths registry db ys t cal files
unfolding build_from_sessions
build_from_sessions-set json paths registry db xs ys t cal files h =
    let same : sorted_set xs ≡ sorted_set ys =
      ascending_ext (sorted_set xs) (sorted_set ys) (sorted_set-IsAscending xs)
        (sorted_set-IsAscending ys)
        (λ k. member-sorted_set k xs ∙ (h k ∙ sym (member-sorted_set k ys))) in
    rw same refl
