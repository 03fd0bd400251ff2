-- ===== src/Canonical/Key.antt =====
-- `node_hash` of server/canonical.py, up to the bytes that it hashes: every `update` appends to them.
use Prim.Native.Char.{nul}
use Prim.Native.String.{◌++◌ as ◌+s◌}
use mathlib.Core.Option
use astrolab.Prelude.{
  ℕ, String, Bool, Option, none, some, List, [], ◌∷◌, map, if◌then◌else◌, str_eq,
}
use astrolab.Dict.{Dict, get, keys}
use astrolab.Models.{Ref, Input, one, many}
use astrolab.Canonical.Texts.{str_leb}
use astrolab.Canonical.Sorting.{sort, by_key, pair_leb}
use astrolab.Canonical.Values.{Fields, Floats}
use astrolab.Canonical.Print.{Printer, ParamsModel, join, decimal, canonical_json}

-- "\x00"
abbrev pub separator : String
separator = String.◌∷◌ nul String.[]

abbrev pub RefKey : Type 0
RefKey = String × (String × String)

-- The parts of a ref that the key of a node takes.
abbrev pub ref_key : Ref → RefKey
ref_key r = (r.node_hash, (r.port, r.path))

abbrev pub key_leb : RefKey → RefKey → Bool
key_leb = pair_leb str_leb (pair_leb str_leb str_leb)

unfoldable pub encode_ref : Ref → String
encode_ref r =
    r.node_hash +s "/" +s r.port +s (if str_eq r.node_hash "ext" then "@" +s r.path else "")

unfoldable pub encode_input : Input → String
unfolding encode_ref sort
encode_input (one r) = encode_ref r
encode_input (many rs) = "[" +s join "," (map encode_ref (sort (by_key ref_key key_leb) rs)) +s "]"

-- `inputs[port]` of a port of `inputs`.
abbrev pub encode_at : Option Input → String
encode_at none = ""
encode_at (some i) = encode_input i

unfoldable pub encode_ports : Dict Input → List String → String
unfolding get encode_input
encode_ports inputs [] = ""
encode_ports inputs (port ∷ ports) =
    port +s "=" +s encode_at (get port inputs) +s ";" +s encode_ports inputs ports

abbrev pub text_at : Option String → String
text_at none = ""
text_at (some s) = s

unfoldable pub encode_extra : Dict String → List String → String
unfolding get
encode_extra extra [] = ""
encode_extra extra (k ∷ ks) = k +s "=" +s text_at (get k extra) +s ";" +s encode_extra extra ks

abbrev pub extra_part : Dict String → String
extra_part [] = ""
extra_part extra = separator +s "extra=" +s encode_extra extra (sort str_leb (keys extra))

module _ {F : Type 0} (pr : Printer F) (fl : Floats F) (sha256 : String → String) where
  -- No value where a float of the params cannot be written.
  unfoldable pub node_hash :
      (node_id : String) (node_version : ℕ)
      → Dict Input
      → Fields F
      → ParamsModel F
      → (extra_keys : Dict String) → Option String
  unfolding encode_ports encode_extra sort decimal canonical_json
  node_hash node_id node_version inputs params model extra_keys =
      Option.map
        (λ json. sha256 (
          "id="
          +s node_id
          +s separator
          +s "v="
          +s decimal node_version
          +s separator
          +s "inputs="
          +s encode_ports inputs (sort str_leb (keys inputs))
          +s separator
          +s "params="
          +s json
          +s extra_part extra_keys))
        (canonical_json pr fl model params)
