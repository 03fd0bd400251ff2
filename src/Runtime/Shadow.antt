-- ===== src/Runtime/Shadow.antt =====
-- Runs of the first pass of `run_job` in server/runtime.py where an external input of a node stands under
-- the key of one of its outputs.
use Prim.Native.String.{◌++◌ as ◌+s◌}
use astrolab.Prelude.{false, ℕ, String, Option, none, some, List, [], ◌∷◌, ◌≡◌, refl, map}
use astrolab.Dict.{Dict, get}
use astrolab.Models.{image_png, auto, Partial, Ref, Input, one, NodeSpec, Template, Job}
use astrolab.Canonical.Print.{decimal}
use astrolab.Runtime.Inputs.{ok, failed}
use astrolab.Runtime.Nodes.{Library, plan_all}

-- Two downscales in a row, of which the first reads a file from outside.
abbrev node : String → Dict String → NodeSpec ℕ
node id inputs = record {
  id = id;
  kind = "downscale";
  variant = none;
  params = [];
  inputs = inputs;
  ui_depends_on = none;
}

abbrev template : Template ℕ
template = record {
  id = "thumbnail";
  version = 1;
  description = "";
  profile = none;
  nodes = node "first" [] ∷ node "second" (("image", "first.image") ∷ []) ∷ [];
  outputs = ("final", "second.image") ∷ [];
}

abbrev outside : Ref
outside = record {
  display_ready = false;
  node_hash = "ext";
  port = "image";
  path = "/in.png";
  type = image_png;
}

-- The first downscale by a factor.
abbrev job_with : ℕ → Job ℕ
job_with factor = record {
  template_id = "thumbnail";
  template_version = 1;
  profile_id = none;
  target_id = none;
  session_ids = [];
  calibration = record { mode = auto; master_ids = [] };
  param_overrides = ("first", ("factor", some factor) ∷ []) ∷ [];
  inputs = ("first.image", one outside) ∷ [];
  preview_only = false;
}

abbrev input_text : Option Input → String
input_text (some (one r)) = r.node_hash
input_text _ = ""

abbrev param_text : Option (Option ℕ) → String
param_text (some (some n)) = decimal n
param_text _ = ""

-- A hash that tells inputs and params apart.
abbrev lib : Library ℕ (Partial ℕ)
lib = record {
  registry = λ kind variant. some (record {
    id = kind;
    version = 1;
    inputs = ("image", image_png) ∷ [];
    outputs = ("image", image_png) ∷ [];
    optional_inputs = [];
  });
  validate = λ cls params. some params;
  hash = λ cls inputs params.
      input_text (get "image" inputs) +s "/" +s param_text (get "factor" params);
  entry_path = λ hash port. hash +s "/" +s port;
}

abbrev hashes_of : Job ℕ → List String
hashes_of job =
    elim (plan_all lib template job none false [] ("first" ∷ "second" ∷ []) job.inputs []) [
      | ok (refs, plan) ↦ map {B = String} (λ e. e.1.h) plan
      | failed e ↦ []
    ]

-- The second node has the same hash, whatever the first one does to the file.
hashes_by_two : hashes_of (job_with 2) ≡ "ext/2" ∷ "ext/" ∷ []
unfolding plan_all get decimal
hashes_by_two = refl

hashes_by_three : hashes_of (job_with 3) ≡ "ext/3" ∷ "ext/" ∷ []
unfolding plan_all get decimal
hashes_by_three = refl
