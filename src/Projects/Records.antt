-- ===== src/Projects/Records.antt =====
-- The data of server/projects.py: HistoryEntry, Project, and the rows of the tables `projects` and
-- `project_history` that hold them. A JSON column stands for the value that it encodes. A label is
-- kept by its parts, before they are put into a text.
use astrolab.Prelude.{
  ℕ, String, Bool, Option, none, some, List, [], ◌∷◌, leb, ◌==◌, if◌then◌else◌, keep_if, ltb,
}
use astrolab.Dict.{Dict}
use astrolab.Models.{Partial, Overrides, Template, Job}
use astrolab.Jobs.Store.{Store}
use astrolab.Migrations.{Dropped}

pub record Change (V : Type 0) : Type 0 where
  pub node : String
  pub key : String
  pub old : Option V
  pub new : Option V

pub data Label (V : Type 0) : Type 0 where
  given : String → Label V
  initial_render reprocess : Label V
  -- the changes shown, and how many more there are
  changes : List (Change V) → (more : ℕ) → Label V
  swap_label : (sessions : ℕ) → Label V
  upgrade_label : (from to : ℕ) → Label V

pub data EntryKind : Type 0 where
  edit swap_kind upgrade_kind : EntryKind

pub data Snapshot (V : Type 0) : Type 0 where
  sessions : Partial V → Snapshot V
  versions : (from to : ℕ) → (dropped : List Dropped) → Snapshot V

pub record HistoryEntry (V : Type 0) : Type 0 where
  pub seq : ℕ
  pub job_id : String
  pub overrides : Overrides V
  pub label : Option (Label V)
  pub created_at : ℕ
  pub published : Bool
  pub kind : EntryKind
  pub snapshot : Option (Snapshot V)

pub record Project (V : Type 0) : Type 0 where
  pub id : String
  pub name : String
  pub template : Template V
  pub base_job : Job V
  pub current_seq : ℕ
  pub draft_mode : Bool
  pub source_session_ids : List String
  pub created_at : ℕ
  pub updated_at : ℕ
  pub history : List (HistoryEntry V)
  pub cover_seq : Option ℕ
  pub description : Option String

-- A row of `projects`.
pub record ProjectRow (V : Type 0) : Type 0 where
  pub id : String
  pub name : String
  pub template : Template V
  pub base_job : Job V
  pub current_seq : ℕ
  pub draft_mode : Bool
  pub source_session_ids : List String
  pub created_at : ℕ
  pub updated_at : ℕ
  pub cover_seq : Option ℕ
  pub description : Option String

-- A row of `project_history`.
pub record HistoryRow (V : Type 0) : Type 0 where
  pub project_id : String
  pub entry : HistoryEntry V

-- ProjectManager: the map in memory, the two tables, and the tables of JobManager.
pub record Manager (V : Type 0) : Type 0 where
  pub records : Dict (Project V)
  pub projects : List (ProjectRow V)
  pub project_history : List (HistoryRow V)
  pub store : Store V

pub data Raised : Type 0 where
  project_not_found value_error stop_iteration : Raised

pub data Result (A : Type 0) : Type 0 where
  return : A → Result A
  raise : Raised → Result A

module _ {V : Type 0} where
  -- `next(e for e in self.history if e.seq == seq)`
  unfoldable pub entry_at : ℕ → List (HistoryEntry V) → Option (HistoryEntry V)
  entry_at seq [] = none
  entry_at seq (e ∷ history) = if e.seq == seq then some e else entry_at seq history

  abbrev pub current_entry : Project V → Option (HistoryEntry V)
  current_entry p = entry_at p.current_seq p.history

  -- `prior[-1]` of the entries below `seq`, sorted by it (a stable sort).
  unfoldable pub last_by_seq : List (HistoryEntry V) → Option (HistoryEntry V)
  last_by_seq [] = none
  last_by_seq (e ∷ entries) = elim (last_by_seq entries) [
    | none ↦ some e
    | some f ↦ if leb e.seq f.seq then some f else some e
  ]

  unfoldable pub overrides_before : Project V → ℕ → Overrides V
  unfolding last_by_seq
  overrides_before p seq = elim (last_by_seq (keep_if (λ h. ltb h.seq seq) p.history)) [
    | none ↦ []
    | some h ↦ h.overrides
  ]

  -- `history[idx] = entry`, at the first entry with its seq.
  unfoldable pub replace_entry : HistoryEntry V → List (HistoryEntry V) → List (HistoryEntry V)
  replace_entry entry [] = []
  replace_entry entry (e ∷ history) =
      if e.seq == entry.seq then entry ∷ history else e ∷ replace_entry entry history

  -- `entry.published = published`, at the first entry with the seq.
  unfoldable pub publish_entry : ℕ → Bool → List (HistoryEntry V) → List (HistoryEntry V)
  publish_entry seq published [] = []
  publish_entry seq published (e ∷ history) =
      if e.seq == seq
      then record e { published = published } ∷ history
      else e ∷ publish_entry seq published history
