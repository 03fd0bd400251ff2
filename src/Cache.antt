-- ===== src/Cache.antt =====
-- ContentCache of server/cache.py, on a cache root that is a dict from names to entry directories, in
-- the order in which the file system lists them. Of a directory the model keeps whether `_done` is in
-- it, the bytes of its files, the two manifests as the values they encode, and the jobs that the
-- `_inuse_` files name. Files are written and removed without an error.
use astrolab.Prelude.{
  ℕ, zero, suc, ◌+◌, String, Bool, true, false, Option, none, some, List, [], ◌∷◌, ◌++◌, map,
  str_eq, if◌then◌else◌, ◌&&◌, ◌||◌, not, is_some, keep_if, any, length,
}
use astrolab.Dict.{Dict, get, set, pop}
use astrolab.Models.{Ref, PortType}
pub mod Commit

-- An entry of `_outputs.json`.
pub record Output : Type 0 where
  pub path : String
  pub type : PortType
  pub display_ready : Bool

pub record Dir (V : Type 0) : Type 0 where
  pub done : Bool
  pub bytes : ℕ
  pub outputs : Option (Dict Output)
  pub warnings : List V
  pub marks : List String

abbrev pub Cache : Type 0 → Type 0
Cache V = Dict (Dir V)

-- `x in xs`
abbrev pub member : String → List String → Bool
member x xs = any (λ y. str_eq y x) xs

-- `touch` of a file that may be there.
abbrev pub touch : String → List String → List String
touch job_id marks = if member job_id marks then marks else marks ++ job_id ∷ []

abbrev pub without : String → List String → List String
without job_id marks = keep_if (λ j. not (str_eq j job_id)) marks

-- The marks of live jobs, which `is_in_use` leaves.
abbrev pub live_marks : (alive : List String) → List String → List String
live_marks alive marks = keep_if (λ j. member j alive) marks

-- `join` is the path of a file of an entry's directory.
abbrev pub output_ref : (join : String → String → String) → String → String × Output → String × Ref
output_ref join hash (port, o) = (
  port,
  record {
    display_ready = o.display_ready;
    node_hash = hash;
    port = port;
    path = join hash o.path;
    type = o.type;
  },
)

abbrev pub outputs_of :
    (join : String → String → String) → String → Option (Dict Output) → Option (Dict Ref)
outputs_of join hash none = none
outputs_of join hash (some outputs) = some (map (output_ref join hash) outputs)

module _ {V : Type 0} where
  abbrev pub fresh_dir : Dir V
  fresh_dir = record { done = false; bytes = 0; outputs = none; warnings = []; marks = [] }

  abbrev pub is_done : Option (Dir V) → Bool
  is_done none = false
  is_done (some d) = d.done

  unfoldable pub is_committed : String → Cache V → Bool
  unfolding get
  is_committed hash c = is_done (get hash c)

  -- The wipe of `reserve`: the entry stands at the end of the listing again.
  unfoldable pub reserve : String → (force : Bool) → Cache V → Cache V
  unfolding get set pop is_committed
  reserve hash force c = elim (get hash c) [
    | none ↦ set hash fresh_dir c
    | some d ↦ if force || not (is_committed hash c) then set hash fresh_dir (pop hash c) else c
  ]

  unfoldable pub evict : String → Cache V → ℕ × Cache V
  unfolding get pop
  evict hash c = elim (get hash c) [ none ↦ (0, c) | some d ↦ (d.bytes, pop hash c) ]

  unfoldable pub all_committed_hashes : Cache V → List String
  all_committed_hashes [] = []
  all_committed_hashes ((hash, d) ∷ c) =
      let rest = all_committed_hashes c in if d.done then hash ∷ rest else rest

  abbrev pub size_of : Option (Dir V) → ℕ
  size_of none = 0
  size_of (some d) = d.bytes

  unfoldable pub entry_size : String → Cache V → ℕ
  unfolding get
  entry_size hash c = size_of (get hash c)

  unfoldable pub mark_in_use : String → (job_id : String) → Cache V → Cache V
  unfolding get set
  mark_in_use hash job_id c = elim (get hash c) [
    | none ↦ c
    | some d ↦ set hash (record d { marks = touch job_id d.marks }) c
  ]

  unfoldable pub release_job_marks : (job_id : String) → Cache V → ℕ × Cache V
  release_job_marks job_id [] = (0, [])
  release_job_marks job_id ((hash, d) ∷ c) =
      let (removed, rest) = release_job_marks job_id c in
      (
        (if member job_id d.marks then suc removed else removed),
        (hash, record d { marks = without job_id d.marks }) ∷ rest,
      )

  unfoldable pub in_use_by : String → Cache V → List String
  unfolding get
  in_use_by hash c = elim (get hash c) [ none ↦ [] | some d ↦ d.marks ]

  unfoldable pub is_in_use : String → (alive : List String) → Cache V → Bool × Cache V
  unfolding get set
  is_in_use hash alive c = elim (get hash c) [
    | none ↦ (false, c)
    | some d ↦ (
      any (λ j. member j alive) d.marks,
      set hash (record d { marks = live_marks alive d.marks }) c,
    )
  ]

  unfoldable pub load_warnings : String → Cache V → List V
  unfolding get
  load_warnings hash c = elim (get hash c) [
    | none ↦ []
    | some d ↦ if d.done then d.warnings else []
  ]

  unfoldable pub load_outputs :
      (join : String → String → String) → String → Cache V → Option (Dict Ref)
  unfolding get
  load_outputs join hash c = elim (get hash c) [
    | none ↦ none
    | some d ↦ if d.done then outputs_of join hash d.outputs else none
  ]

-- The errors of `commit`.
pub data CommitError : Type 0 where
  not_reserved output_missing : CommitError

-- `relative ref` is the path of the output below the entry's directory, or `none` where the file is
-- missing or outside of it.
unfoldable pub manifest : (relative : Ref → Option String) → Dict Ref → Option (Dict Output)
manifest relative [] = some []
manifest relative ((port, ref) ∷ outputs) = elim (relative ref) [
  | none ↦ none
  | some rel ↦ elim (manifest relative outputs) [
    | none ↦ none
    | some rest ↦
        some
          ((port, record { path = rel; type = ref.type; display_ready = ref.display_ready }) ∷ rest)
  ]
]

pub data Committed : Type 0 where
  committed : Dict Ref → Committed
  refused : CommitError → Committed

module _ {V : Type 0} where
  -- A later commit of an entry with warnings left from before keeps them if it has none itself.
  abbrev pub written : List V → List V → List V
  written [] old = old
  written (w ∷ warnings) old = w ∷ warnings

  -- `total` is the size of the directory's files after the node's run, its manifests included.
  unfoldable pub commit :
      (relative : Ref → Option String)
      → String
      → Dict Ref
      → List V
      → (total : ℕ) → Cache V
      → Committed × Cache V
  unfolding get set manifest
  commit relative hash outputs warnings total c = elim (get hash c) [
    | none ↦ (refused not_reserved, c)
    | some d ↦ elim (manifest relative outputs) [
      | none ↦ (refused output_missing, c)
      | some entries ↦ (
        committed outputs,
        set hash
            (record d {
              done = true;
              bytes = total;
              outputs = some entries;
              warnings = written warnings d.warnings;
            })
            c,
      )
    ]
  ]
