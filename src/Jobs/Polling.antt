-- ===== src/Jobs/Polling.antt =====
-- `get_events(job_id, after_seq=…)` of server/jobs.py, with which the API follows a job's log.
use astrolab.Prelude.{
  ℕ, zero, suc, drop-nil, ◌-◌, String, ◌≡◌, refl, Option, none, some, List, [], ◌∷◌, map, arith,
  leb, leb→le, str_eq, keep_if, drop, ap, ◌∙◌, sym, ◌&&◌, Bool-cases, inl, inr,
}
use astrolab.Jobs.Store.{
  EventRow, Store, is_after, seqs_of, insert_by_seq, order_by_seq, load_events,
}
use astrolab.Jobs.Manager.{get_events}
use astrolab.Jobs.Steps.{Reach}
use astrolab.Jobs.Numbers.{Counts, IsNumbered, Reach-IsNumbered}

whole : (n : ℕ) → suc n - 0 ≡ suc n
whole n = omega arith

module _ {V : Type 0} where
  abbrev own : String → List (EventRow V) → List (EventRow V)
  own id rows = keep_if (λ e. str_eq e.job_id id) rows

  abbrev seqs : List (EventRow V) → List ℕ
  seqs rows = map (λ e. e.seq) rows

  seqs-own : (id : String) (rows : List (EventRow V)) → seqs (own id rows) ≡ seqs_of id rows
  unfolding seqs_of
  seqs-own id [] = refl
  seqs-own id (e ∷ rows) = ground (arith, seqs-own id rows)

  keep_if-own :
      (id : String) (after : Option ℕ) (rows : List (EventRow V))
      → keep_if (λ e. str_eq e.job_id id && is_after after e.seq) rows
        ≡ keep_if (λ e. is_after after e.seq) (own id rows)
  keep_if-own id after [] = refl
  keep_if-own id after (e ∷ rows) = elim (Bool-cases (str_eq e.job_id id)) [
    | inl c ↦ rw c (rw (keep_if-own id after rows))
    | inr c ↦ rw c (keep_if-own id after rows)
  ]

  keep_if-all : (rows : List (EventRow V)) → keep_if (λ e. is_after none e.seq) rows ≡ rows
  keep_if-all [] = refl
  keep_if-all (e ∷ rows) = ap (λ r. e ∷ r) (keep_if-all rows)

  keep_if-after :
      (n k : ℕ) (rows : List (EventRow V))
      → Counts k (seqs rows)
      → keep_if (λ e. is_after (some n) e.seq) rows ≡ drop (suc n - k) rows
  keep_if-after n k [] h = sym (drop-nil (suc n - k))
  keep_if-after n k (e ∷ rows) h =
      let rest = keep_if-after n (suc k) rows h.1 in
      elim (Bool-cases (leb k n)) [
        | inl c ↦
            let step : suc n - k ≡ suc (suc n - suc k) = omega (arith, leb→le k n c) in
            let dropped : drop (suc n - k) (e ∷ rows) ≡ drop (suc n - suc k) rows =
              ap (λ m. drop m (e ∷ rows)) step in
            ground (arith, rest, dropped, h.0, leb→le k n c)
        | inr c ↦
            let none_now : suc n - k ≡ 0 = ground arith in
            let none_next : suc n - suc k ≡ 0 = ground arith in
            let kept : keep_if (λ e. is_after (some n) e.seq) rows ≡ rows =
              rest ∙ ap (λ m. drop m rows) none_next in
            let all : drop (suc n - k) (e ∷ rows) ≡ e ∷ rows =
              ap (λ m. drop m (e ∷ rows)) none_now in
            ground (arith, kept, all, h.0)
      ]

  order_by_seq-drop :
      (m k : ℕ) (rows : List (EventRow V))
      → Counts k (seqs rows)
      → order_by_seq (drop m rows) ≡ drop m rows
  unfolding order_by_seq insert_by_seq
  order_by_seq-drop m k [] h = rw (drop-nil {A = EventRow V} m)
  order_by_seq-drop zero k (e ∷ []) h = refl
  order_by_seq-drop zero k (e ∷ f ∷ rows) h =
      rw (order_by_seq-drop zero (suc k) (f ∷ rows) h.1) (ground (arith, h.0, h.1.0))
  order_by_seq-drop (suc m) k (e ∷ rows) h = order_by_seq-drop m (suc k) rows h.1

  map-drop :
      (m : ℕ) (rows : List (EventRow V))
      → map (λ e. e.event) (drop m rows) ≡ drop m (map (λ e. e.event) rows)
  map-drop zero rows = refl
  map-drop (suc m) [] = refl
  map-drop (suc m) (e ∷ rows) = map-drop m rows

  get_events-all :
      (id : String) (db : Store V)
      → IsNumbered db
      → get_events id none db ≡ map (λ e. e.event) (own id db.job_events)
  unfolding get_events load_events
  get_events-all id db h = rw (keep_if-own id none db.job_events) (
      rw (keep_if-all (own id db.job_events)) (
        ap (map (λ e. e.event)) (
          order_by_seq-drop 0 0 (own id db.job_events)
            (rw (seqs-own id db.job_events) (h.counts id)))))

  get_events-from :
      (id : String) (n : ℕ) (db : Store V)
      → IsNumbered db
      → get_events id (some n) db ≡ map (λ e. e.event) (drop (suc n) (own id db.job_events))
  unfolding get_events load_events
  get_events-from id n db h =
      let counts : Counts 0 (seqs (own id db.job_events)) =
        rw (seqs-own id db.job_events) (h.counts id) in
      rw (keep_if-own id (some n) db.job_events) (
        rw
          (keep_if-after n 0 (own id db.job_events) counts
            ∙ ap (λ m. drop m (own id db.job_events)) (whole n))
          (ap (map (λ e. e.event)) (order_by_seq-drop (suc n) 0 (own id db.job_events) counts)))

  -- In tables that the transactions made from numbered ones, reading a job's events after seq `n`
  -- gives its whole log less the first `n + 1` of it: nothing is skipped, and nothing comes twice.
  pub get_events-tail :
      (id : String) (n : ℕ) {db after : Store V}
      → Reach db after
      → IsNumbered db
      → get_events id (some n) after ≡ drop (suc n) (get_events id none after)
  get_events-tail id n {after = after} reach start =
      let h = Reach-IsNumbered reach start in
      get_events-from id n after h
      ∙ map-drop (suc n) (own id after.job_events)
      ∙ ap (drop (suc n)) (sym (get_events-all id after h))
