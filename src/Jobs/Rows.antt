-- ===== src/Jobs/Rows.antt =====
-- The rows of the table `jobs` (server/jobs.py) by id: what the updates and transactions do to them.
use astrolab.Prelude.{
  String, Bool, ◌≡◌, refl, Option, none, some, List, [], ◌∷◌, ◌++◌, arith, str_eq, eq_iff,
  if◌then◌else◌,
}
use astrolab.Jobs.Store.{JobRecord, find_job, update_job, rowcount}

module _ {V : Type 0} where
  -- No id stands twice: `id` is the table's primary key.
  abbrev pub HasIds : List (JobRecord V) → Type 0
  HasIds [] = Unit
  HasIds (r ∷ rows) = (find_job r.id rows ≡ none) × HasIds rows

  -- What the update of a row gives, for the row that was found.
  abbrev pub updated :
      (JobRecord V → Bool)
      → (JobRecord V → JobRecord V)
      → Option (JobRecord V)
      → Option (JobRecord V)
  updated test change none = none
  updated test change (some r) = some (if test r then change r else r)

  pub find_job-update_job :
      (test : JobRecord V → Bool) (change : JobRecord V → JobRecord V) (id q : String)
      (rows : List (JobRecord V))
      → ((r : JobRecord V) → (change r).id ≡ r.id)
      → find_job q (update_job test change id rows)
        ≡ (if str_eq id q then updated test change (find_job q rows) else find_job q rows)
  unfolding find_job update_job
  find_job-update_job test change id q [] keep = ground arith
  find_job-update_job test change id q (r ∷ rows) keep = ground (
    arith,
    find_job-update_job test change id q rows keep,
    keep r,
    eq_iff r.id q,
    eq_iff id q,
    eq_iff r.id id,
  )

  pub HasIds-update_job :
      (test : JobRecord V → Bool) (change : JobRecord V → JobRecord V) (id : String)
      (rows : List (JobRecord V))
      → ((r : JobRecord V) → (change r).id ≡ r.id)
      → HasIds rows
      → HasIds (update_job test change id rows)
  unfolding update_job
  HasIds-update_job test change id [] keep h = tt
  HasIds-update_job test change id (r ∷ rows) keep h = ground (
    arith,
    HasIds-update_job test change id rows keep,
    find_job-update_job test change id r.id rows keep,
    keep r,
  )

  pub find_job-append :
      (q : String) (r : JobRecord V) (rows : List (JobRecord V))
      → find_job q rows ≡ none
      → find_job q (rows ++ r ∷ []) ≡ (if str_eq r.id q then some r else none)
  unfolding find_job
  find_job-append q r [] h = ground arith
  find_job-append q r (f ∷ rows) h = ground (arith, find_job-append q r rows)

  pub HasIds-append :
      (r : JobRecord V) (rows : List (JobRecord V))
      → find_job r.id rows ≡ none
      → HasIds rows
      → HasIds (rows ++ r ∷ [])
  unfolding find_job
  HasIds-append r [] new h = (refl, tt)
  HasIds-append r (f ∷ rows) new h =
      ground (
        arith,
        HasIds-append r rows,
        find_job-append f.id r rows,
        eq_iff r.id f.id,
        eq_iff f.id r.id,
      )

  pub rowcount-none :
      (test : JobRecord V → Bool) (id : String) (rows : List (JobRecord V))
      → find_job id rows ≡ none
      → rowcount test id rows ≡ 0
  unfolding find_job rowcount
  rowcount-none test id [] h = refl
  rowcount-none test id (r ∷ rows) h = ground (arith, rowcount-none test id rows)

  -- An update by id counts the one row that it changes.
  pub rowcount-find_job :
      (test : JobRecord V → Bool) (id : String) (r : JobRecord V) (rows : List (JobRecord V))
      → HasIds rows
      → find_job id rows ≡ some r
      → rowcount test id rows ≡ (if test r then 1 else 0)
  unfolding find_job rowcount
  rowcount-find_job test id r [] h found = cc
  rowcount-find_job test id r (f ∷ rows) h found =
      ground
        (arith, rowcount-find_job test id r rows, rowcount-none test id rows, eq_iff f.id id, h.0)
