-- ===== src/Projects/Valid.antt =====
-- The well-formedness of the projects of a ProjectManager (server/projects.py).
use astrolab.Prelude.{
  ℕ, String, ◌≡◌, refl, Bool, true, Option, none, some, List, [], ◌∷◌, ◌++◌, arith, str_eq, eq_iff,
  if_both, option_both, subst, Bool-cases, inl, inr,
}
use mathlib.Core.Option.{some-injective, none-ne-some}
use astrolab.Dict.{Dict, get, set, pop, get-set, get-pop}
use astrolab.Projects.Records.{
  HistoryEntry, Project, Manager, Result, current_entry, replace_entry, publish_entry,
}
use astrolab.Projects.Labels.{Values}
use astrolab.Projects.Manager.{
  Edit, patch, collapses, patch_entry, append_entry, next_entry_seq, with_draft,
}
use astrolab.Projects.Seqs.{
  IsAscending, has, Below-next_seq, IsAscending-snoc, has_snoc, seqs, seqs_snoc, seqs-replace_entry,
  seqs-publish_entry,
}

-- The pin of the cover is on an entry.
abbrev pub IsPinned : Option ℕ → List ℕ → Type 0
IsPinned none ns = Unit
IsPinned (some c) ns = has c ns ≡ true

IsPinned-snoc : (c : Option ℕ) (n : ℕ) (ns : List ℕ) → IsPinned c ns → IsPinned c (ns ++ n ∷ [])
IsPinned-snoc none n ns h = tt
IsPinned-snoc (some c) n ns h = ground (arith, has_snoc c n ns)

module _ {V : Type 0} where
  -- Seqs ascend, and the pointer and the cover are on entries.
  pub record IsValid (p : Project V) : Type 0 where
    pub ascending : IsAscending (seqs p.history)
    pub current : has p.current_seq (seqs p.history) ≡ true
    pub cover : IsPinned p.cover_seq (seqs p.history)

  -- Every project stands under its id, and is valid.
  pub record IsSound (records : Dict (Project V)) : Type 0 where
    pub keyed : (pid : String) (p : Project V) → get pid records ≡ some p → p.id ≡ pid
    pub valid : (pid : String) (p : Project V) → get pid records ≡ some p → IsValid p

  -- A method leaves sound records behind.
  abbrev pub Leaves : {A : Type 0} → Result A × Manager V → Type 0
  Leaves r = IsSound r.1.records

  pub get-of_pop :
      (pid q : String) (p : Project V) (records : Dict (Project V))
      → get q (pop pid records) ≡ some p
      → get q records ≡ some p
  get-of_pop pid q p records e = ground (arith, get-pop pid q records)

  pub set-IsSound :
      (p : Project V) (records : Dict (Project V))
      → IsValid p
      → IsSound records
      → IsSound (set p.id p records)
  set-IsSound p records v h = record {
    keyed =
        λ pid q e. ground (arith, get-set p.id pid p records, eq_iff p.id pid, h.keyed pid q, e);
    valid = λ pid q e. elim (Bool-cases (str_eq p.id pid)) [
      | inl same ↦ subst IsValid (some-injective p q (rw (get-set p.id pid p records, same) at e)) v
      | inr other ↦ h.valid pid q (rw (get-set p.id pid p records, other) at e)
    ];
  }

  pub append_entry-IsValid :
      (e : HistoryEntry V) (now : ℕ) (p : Project V)
      → e.seq ≡ next_entry_seq p
      → IsValid p
      → IsValid (append_entry e now p)
  append_entry-IsValid e now p next v =
      let now_seqs = seqs_snoc e p.history in
      record {
        ascending = rw now_seqs (IsAscending-snoc e.seq _ (rw next (Below-next_seq _)) v.ascending);
        current = rw now_seqs (ground (arith, has_snoc e.seq e.seq (seqs p.history)));
        cover = rw now_seqs (IsPinned-snoc p.cover_seq e.seq (seqs p.history) v.cover);
      }

  replace_entry-IsValid :
      (e : HistoryEntry V) (now : ℕ) (p : Project V)
      → IsValid p
      → IsValid (record p { history = replace_entry e p.history; updated_at = now })
  replace_entry-IsValid e now p v = record {
    ascending = rw (seqs-replace_entry e p.history) v.ascending;
    current = rw (seqs-replace_entry e p.history) v.current;
    cover = rw (seqs-replace_entry e p.history) v.cover;
  }

  pub publish_entry-IsValid :
      (seq : ℕ) (b : Bool) (now : ℕ) (p : Project V)
      → IsValid p
      → IsValid (record p { history = publish_entry seq b p.history; updated_at = now })
  publish_entry-IsValid seq b now p v = record {
    ascending = rw (seqs-publish_entry seq b p.history) v.ascending;
    current = rw (seqs-publish_entry seq b p.history) v.current;
    cover = rw (seqs-publish_entry seq b p.history) v.cover;
  }

  patch_entry-IsSound :
      (values : Values V) (e : Edit V) (job_id : String) (now : ℕ) (p : Project V)
      (prev : HistoryEntry V) (m : Manager V)
      → IsValid p
      → IsSound m.records
      → IsSound (patch_entry values e job_id now p prev m).1.records
  unfolding patch_entry
  patch_entry-IsSound values e job_id now p prev m v h =
      if_both Leaves (collapses prev m.store) (set-IsSound _ _ (replace_entry-IsValid _ now p v) h)
        (set-IsSound _ _ (append_entry-IsValid _ now p refl v) h)

  with_draft-IsValid : (d : Option Bool) (p : Project V) → IsValid p → IsValid (with_draft d p)
  with_draft-IsValid none p v = v
  with_draft-IsValid (some d) p v = record {
    ascending = v.ascending;
    current = v.current;
    cover = v.cover;
  }

  pub patch-IsSound :
      (values : Values V) (pid : String) (e : Edit V) (job_id : String) (now : ℕ) (m : Manager V)
      → IsSound m.records
      → IsSound (patch values pid e job_id now m).1.records
  patch-IsSound values pid e job_id now m h =
      unfold patch in
      option_both Leaves (get pid m.records) h λ p found.
        option_both Leaves (current_entry p) h λ prev _.
          patch_entry-IsSound values e job_id now _ prev m
            (with_draft-IsValid e.draft_mode p (h.valid pid p found)) h

  pub IsSound-empty : IsSound []
  unfolding get
  IsSound-empty = record { keyed = λ pid p e. cc; valid = λ pid p e. absurd (none-ne-some p e) }
