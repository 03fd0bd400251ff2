-- ===== src/Projects/Kept.antt =====
-- The methods of ProjectManager (server/projects.py) but `patch`, and the well-formedness of its projects.
use astrolab.Prelude.{
  ℕ, String, refl, Bool, true, false, Option, none, some, List, if_both, if_both_eq, option_both,
  ◌∙◌, sym,
}
use astrolab.Dict.{Dict, get}
use astrolab.Models.{Template, Job}
use astrolab.Migrations.{Migration, Fields}
use astrolab.Projects.Records.{HistoryEntry, Project, Manager, Snapshot, current_entry}
use astrolab.Projects.Manager.{create}
use astrolab.Projects.Metadata.{forget, set_cover, set_published, revert, set_description, has_seq}
use astrolab.Projects.Rebuild.{swap_sessions, swap_from, upgrade_template, rebound, retemplated}
use astrolab.Projects.Seqs.{is_some-entry_at}
use astrolab.Projects.Valid.{
  IsValid, IsSound, Leaves, set-IsSound, append_entry-IsValid, publish_entry-IsValid, get-of_pop,
}

module _ {V : Type 0} where
  pub create-IsSound :
      (pid job_id : String) (now : ℕ) (name : String) (t : Template V) (j : Job V)
      (session_ids : List String) (m : Manager V)
      → IsSound m.records
      → IsSound (create pid job_id now name t j session_ids m).1.records
  unfolding create
  create-IsSound pid job_id now name t j session_ids m h =
      set-IsSound _ m.records (record { ascending = (tt, tt); current = refl; cover = tt }) h

  rebound-IsValid :
      (j : Job V) (session_ids : List String) (p : Project V)
      → IsValid p
      → IsValid (rebound j session_ids p)
  rebound-IsValid j session_ids p v = record {
    ascending = v.ascending;
    current = v.current;
    cover = v.cover;
  }

  retemplated-IsValid : (t : Template V) (p : Project V) → IsValid p → IsValid (retemplated t p)
  retemplated-IsValid t p v = record {
    ascending = v.ascending;
    current = v.current;
    cover = v.cover;
  }

  swap_from-IsSound :
      (j : Job V) (session_ids : List String) (snapshot : Snapshot V) (auto : Bool)
      (job_id : String) (now : ℕ) (p : Project V) (prev : HistoryEntry V) (m : Manager V)
      → IsValid p
      → IsSound m.records
      → IsSound (swap_from j session_ids snapshot auto job_id now p prev m).1.records
  unfolding swap_from
  swap_from-IsSound j session_ids snapshot true job_id now p prev m v h =
      set-IsSound _ m.records
        (append_entry-IsValid _ now (rebound j session_ids p) refl
          (rebound-IsValid j session_ids p v))
        h
  swap_from-IsSound j session_ids snapshot false job_id now p prev m v h =
      set-IsSound _ m.records
        (append_entry-IsValid _ now (rebound j session_ids p) refl
          (rebound-IsValid j session_ids p v))
        h

  pub swap_sessions-IsSound :
      (pid : String) (j : Job V) (session_ids : List String) (snapshot : Snapshot V) (auto : Bool)
      (job_id : String) (now : ℕ) (m : Manager V)
      → IsSound m.records
      → IsSound (swap_sessions pid j session_ids snapshot auto job_id now m).1.records
  swap_sessions-IsSound pid j session_ids snapshot auto job_id now m h =
      unfold swap_sessions in
      option_both Leaves (get pid m.records) h λ p found.
        option_both Leaves (current_entry p) h λ prev _.
          swap_from-IsSound j session_ids snapshot auto job_id now p prev m (h.valid pid p found) h

  pub upgrade_template-IsSound :
      (migrations : Dict (Migration V)) (fields : Fields) (pid : String) (t : Template V)
      (job_id : String) (now : ℕ) (m : Manager V)
      → IsSound m.records
      → IsSound (upgrade_template migrations fields pid t job_id now m).1.records
  upgrade_template-IsSound migrations fields pid t job_id now m h =
      unfold upgrade_template in
      option_both Leaves (get pid m.records) h λ p found. if_both Leaves _ h (
        option_both Leaves (current_entry p) h λ prev _.
          set-IsSound _ m.records
            (append_entry-IsValid _ now (retemplated t p) refl
              (retemplated-IsValid t p (h.valid pid p found)))
            h)

  pub set_cover-IsSound :
      (pid : String) (seq : Option ℕ) (now : ℕ) (m : Manager V)
      → IsSound m.records
      → IsSound (set_cover pid seq now m).1.records
  set_cover-IsSound pid none now m h =
      unfold set_cover in
      option_both Leaves (get pid m.records) h λ p found.
        let v = h.valid pid p found in
        set-IsSound _ m.records
          (record { ascending = v.ascending; current = v.current; cover = tt }) h
  set_cover-IsSound pid (some seq) now m h =
      unfold set_cover in
      option_both Leaves (get pid m.records) h λ p found.
        if_both_eq Leaves (has_seq seq p)
          (λ there.
            let v = h.valid pid p found in
            set-IsSound _ m.records
              (record {
                ascending = v.ascending;
                current = v.current;
                cover = sym (is_some-entry_at seq p.history) ∙ there;
              })
              h)
          (λ _. h)

  pub set_published-IsSound :
      (pid : String) (seq : ℕ) (b : Bool) (now : ℕ) (m : Manager V)
      → IsSound m.records
      → IsSound (set_published pid seq b now m).1.records
  set_published-IsSound pid seq b now m h =
      unfold set_published in
      option_both Leaves (get pid m.records) h λ p found.
        if_both Leaves (has_seq seq p)
          (set-IsSound _ m.records (publish_entry-IsValid seq b now p (h.valid pid p found)) h) h

  pub revert-IsSound :
      (pid : String) (seq now : ℕ) (m : Manager V)
      → IsSound m.records
      → IsSound (revert pid seq now m).1.records
  revert-IsSound pid seq now m h =
      unfold revert in
      option_both Leaves (get pid m.records) h λ p found.
        if_both_eq Leaves (has_seq seq p)
          (λ there.
            let v = h.valid pid p found in
            set-IsSound _ m.records
              (record {
                ascending = v.ascending;
                current = sym (is_some-entry_at seq p.history) ∙ there;
                cover = v.cover;
              })
              h)
          (λ _. h)

  pub set_description-IsSound :
      (strip : String → String) (pid : String) (text : Option String) (now : ℕ) (m : Manager V)
      → IsSound m.records
      → IsSound (set_description strip pid text now m).1.records
  set_description-IsSound strip pid text now m h =
      unfold set_description in
      option_both Leaves (get pid m.records) h λ p found.
        let v = h.valid pid p found in
        set-IsSound _ m.records
          (record { ascending = v.ascending; current = v.current; cover = v.cover }) h

  pub forget-IsSound :
      (pid : String) (m : Manager V) → IsSound m.records → IsSound (forget pid m).0.records
  unfolding forget
  forget-IsSound pid m h = record {
    keyed = λ q p e. h.keyed q p (get-of_pop pid q p m.records e);
    valid = λ q p e. h.valid q p (get-of_pop pid q p m.records e);
  }
