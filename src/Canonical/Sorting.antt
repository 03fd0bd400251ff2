-- ===== src/Canonical/Sorting.antt =====
-- Python's `sorted`, by a total order and by a key.
use mathlib.Core.List.{Permᴰ}
use astrolab.Prelude.{Bool, true, false, List, [], ◌∷◌, ◌≡◌, refl, ◌∙◌, map, if◌then◌else◌, arith}

pub record IsOrder {A : Type 0} (leb : A → A → Bool) : Type 0 where
  pub total : (x y : A) → leb x y ≡ false → leb y x ≡ true
  pub antisym : (x y : A) → leb x y ≡ true → leb y x ≡ true → x ≡ y
  pub trans : (x y z : A) → leb x y ≡ true → leb y z ≡ true → leb x z ≡ true

-- The sort is stable: an item goes before the first one that it does not come behind.
unfoldable pub insert {ℓ} : {A : Type ℓ} → (A → A → Bool) → A → List A → List A
insert leb x [] = x ∷ []
insert leb x (y ∷ ys) = let rest = insert leb x ys in if leb x y then x ∷ y ∷ ys else y ∷ rest

unfoldable pub sort {ℓ} : {A : Type ℓ} → (A → A → Bool) → List A → List A
unfolding insert
sort leb [] = []
sort leb (x ∷ xs) = insert leb x (sort leb xs)

module _ {A : Type 0} (leb : A → A → Bool) (o : IsOrder leb) where
  insert_comm :
      (x y : A) (l : List A) → insert leb x (insert leb y l) ≡ insert leb y (insert leb x l)
  unfolding insert
  insert_comm x y [] = ground (arith, o.total x y, o.antisym x y)
  insert_comm x y (z ∷ l) = ground (
    arith,
    o.total x y,
    o.antisym x y,
    o.trans x y z,
    o.trans y x z,
    o.total x z,
    o.total y z,
    insert_comm x y l,
  )

  pub sort-Permᴰ : {xs ys : List A} → Permᴰ xs ys → sort leb xs ≡ sort leb ys
  unfolding sort
  sort-Permᴰ Permᴰ.nil = refl
  sort-Permᴰ (Permᴰ.cons {a} {b} {l₁} {l₂} e p) = ground (arith, e, sort-Permᴰ p)
  sort-Permᴰ (Permᴰ.swap {a} {b} {a'} {b'} {l} e f) =
      ground (arith, e, f, insert_comm a b (sort leb l))
  sort-Permᴰ (Permᴰ.trans p q) = sort-Permᴰ p ∙ sort-Permᴰ q

-- A sort by a key is one of the keys.
module _ {A K : Type 0} (key : A → K) (leb : K → K → Bool) where
  abbrev pub by_key : A → A → Bool
  by_key x y = leb (key x) (key y)

  map-insert :
      (x : A) (xs : List A) → map key (insert by_key x xs) ≡ insert leb (key x) (map key xs)
  unfolding insert
  map-insert x [] = ground arith
  map-insert x (y ∷ ys) = ground (arith, map-insert x ys)

  pub map-sort : (xs : List A) → map key (sort by_key xs) ≡ sort leb (map key xs)
  unfolding sort
  map-sort [] = ground arith
  map-sort (x ∷ xs) = ground (arith, map-insert x (sort by_key xs), map-sort xs)

-- Python's `<=` on pairs: the first items that differ decide.
module _ {A B : Type 0} (leb : A → A → Bool) (leb' : B → B → Bool) where
  abbrev pub pair_leb : A × B → A × B → Bool
  pair_leb (a, b) (c, d) = if leb a c then (if leb c a then leb' b d else true) else false

  pub pair_leb-IsOrder : IsOrder leb → IsOrder leb' → IsOrder pair_leb
  pair_leb-IsOrder o p = record {
    total = λ (a, b) (c, d) h. ground (arith, h, o.total a c, o.total c a, p.total b d);
    antisym = λ (a, b) (c, d) h k. pair_path a b c d h k;
    trans = λ (a, b) (c, d) (e, f) h k.
        ground (arith, h, k, o.trans a c e, o.trans c e a, o.trans e a c, p.trans b d f);
  }
    where
      pair_path :
          (a : A) (b : B) (c : A) (d : B)
          → pair_leb (a, b) (c, d) ≡ true
          → pair_leb (c, d) (a, b) ≡ true
          → Path (A × B) (a, b) (c, d)
      pair_path a b c d h k =
          let first : a ≡ c = ground (arith, h, k, o.antisym a c) in
          let second : b ≡ d = ground (arith, h, k, first, p.antisym b d) in
          λ i. (first i, second i)
