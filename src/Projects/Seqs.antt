-- ===== src/Projects/Seqs.antt =====
-- The seqs of a project's history (server/projects.py), and how each way to change the history
-- moves them.
use astrolab.Prelude.{
  ℕ, ◌<◌, ◌≤◌, ◌≡◌, refl, Bool, true, false, List, [], ◌∷◌, ◌++◌, map, arith, ◌==◌, if◌then◌else◌,
  is_some, ◌||◌,
}
use astrolab.Jobs.Store.{next_seq}
use astrolab.Projects.Records.{HistoryEntry, entry_at, replace_entry, publish_entry}

-- Every number of the list is below `n`.
abbrev pub Below : ℕ → List ℕ → Type 0
Below n [] = Unit
Below n (s ∷ seqs) = (s < n) × Below n seqs

abbrev pub Above : ℕ → List ℕ → Type 0
Above n [] = Unit
Above n (s ∷ seqs) = (n < s) × Above n seqs

abbrev pub IsAscending : List ℕ → Type 0
IsAscending [] = Unit
IsAscending (s ∷ seqs) = Above s seqs × IsAscending seqs

abbrev pub has : ℕ → List ℕ → Bool
has n [] = false
has n (s ∷ seqs) = if s == n then true else has n seqs

Below-mono : (n m : ℕ) (seqs : List ℕ) → n ≤ m → Below n seqs → Below m seqs
Below-mono n m [] le h = tt
Below-mono n m (s ∷ seqs) le h = (omega arith, Below-mono n m seqs le h.1)

-- The seq of a new entry is above all others.
pub Below-next_seq : (seqs : List ℕ) → Below (next_seq seqs) seqs
unfolding next_seq
Below-next_seq [] = tt
Below-next_seq (s ∷ seqs) =
    (omega arith, Below-mono (next_seq seqs) _ seqs (omega arith) (Below-next_seq seqs))

Above-snoc : (n s : ℕ) (seqs : List ℕ) → n < s → Above n seqs → Above n (seqs ++ s ∷ [])
Above-snoc n s [] lt h = (lt, tt)
Above-snoc n s (t ∷ seqs) lt h = (h.0, Above-snoc n s seqs lt h.1)

pub IsAscending-snoc :
    (s : ℕ) (seqs : List ℕ) → Below s seqs → IsAscending seqs → IsAscending (seqs ++ s ∷ [])
IsAscending-snoc s [] b h = (tt, tt)
IsAscending-snoc s (t ∷ seqs) b h = (Above-snoc t s seqs b.0 h.0, IsAscending-snoc s seqs b.1 h.1)

pub has_snoc : (n s : ℕ) (seqs : List ℕ) → has n (seqs ++ s ∷ []) ≡ has n seqs || (s == n)
has_snoc n s [] = ground arith
has_snoc n s (t ∷ seqs) = ground (arith, has_snoc n s seqs)

module _ {V : Type 0} where
  abbrev pub seqs : List (HistoryEntry V) → List ℕ
  seqs history = map (λ e. e.seq) history

  pub is_some-entry_at :
      (n : ℕ) (history : List (HistoryEntry V))
      → is_some (entry_at n history) ≡ has n (seqs history)
  unfolding entry_at
  is_some-entry_at n [] = refl
  is_some-entry_at n (e ∷ history) = ground (arith, is_some-entry_at n history)

  pub seqs_snoc :
      (e : HistoryEntry V) (history : List (HistoryEntry V))
      → seqs (history ++ e ∷ []) ≡ seqs history ++ e.seq ∷ []
  seqs_snoc e [] = refl
  seqs_snoc e (f ∷ history) = ground (arith, seqs_snoc e history)

  pub seqs-replace_entry :
      (e : HistoryEntry V) (history : List (HistoryEntry V))
      → seqs (replace_entry e history) ≡ seqs history
  unfolding replace_entry
  seqs-replace_entry e [] = refl
  seqs-replace_entry e (f ∷ history) = ground (arith, seqs-replace_entry e history)

  pub seqs-publish_entry :
      (n : ℕ) (b : Bool) (history : List (HistoryEntry V))
      → seqs (publish_entry n b history) ≡ seqs history
  unfolding publish_entry
  seqs-publish_entry n b [] = refl
  seqs-publish_entry n b (f ∷ history) = ground (arith, seqs-publish_entry n b history)
