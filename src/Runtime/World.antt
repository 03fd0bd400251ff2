-- ===== src/Runtime/World.antt =====
-- What the third pass of `run_job` in server/runtime.py reads of its surroundings, and the state that it
-- keeps.
use astrolab.Prelude.{ℕ, String, Bool, Option, none, some, List}
use astrolab.Dict.{Dict}
use astrolab.Models.{Ref, Input}
use astrolab.Cache.{Cache}
use astrolab.Storage.Headroom.{Headroom}
use astrolab.Runtime.Inputs.{NodeClass, Failure, Refs}

pub data RunEvent (V : Type 0) : Type 0 where
  node_started : (node hash : String) → RunEvent V
  node_cached : (node hash : String) → RunEvent V
  node_skipped : (node hash : String) → RunEvent V
  node_completed : (node hash : String) → RunEvent V
  node_failed : (node : String) → RunEvent V
  node_warning : (node : String) → V → RunEvent V
  node_progress : (node : String) → V → RunEvent V

-- What the node calls on its context while it runs.
pub data Note (V : Type 0) : Type 0 where
  progress : V → Note V
  warn : V → Note V

pub data Produced : Type 0 where
  outputs : Dict Ref → Produced
  cancelled_inside : Produced
  raised : Produced

-- `headroom` is `ensure_disk_headroom` where the caller gave a budget.
pub record World (V P : Type 0) : Type 0 where
  pub is_cancelled : (node : String) → Bool
  pub exists : Ref → Bool
  pub is_dir : (hash port : String) → Bool
  pub dir_path : (hash port : String) → String
  pub glob : (hash port : String) → List String
  pub join : String → String → String
  -- 0 where a node gives no estimate.
  pub estimate : NodeClass → Dict Input → P → ℕ
  pub headroom : Option (ℕ → Cache V → Headroom × Cache V)
  pub run : NodeClass → Dict Input → P → List (Note V) × Produced
  pub is_inside : (hash : String) → Ref → Bool
  pub relative : (hash : String) → Ref → Option String
  pub entry_bytes : (hash : String) → Dict Ref → ℕ
  pub job_id : Option String

-- The state of the pass.
pub record Live (V : Type 0) : Type 0 where
  pub cache : Cache V
  pub refs : Refs
  pub events : List (RunEvent V)

-- The failure that a step ends with, if any.
abbrev pub Step : Type 0 → Type 0
Step V = Live V × Option Failure

-- A later step runs where the first one did not fail.
abbrev pub after {ℓ} :
    {V : Type ℓ} → V × Option Failure → (V → V × Option Failure) → V × Option Failure
after (s, none) f = f s
after (s, some e) f = (s, some e)
