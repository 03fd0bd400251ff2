-- ===== src/Canonical/Alike.antt =====
-- `node_hash` of server/canonical.py at inputs, params and extra keys that count as the same.
use Prim.Native.String.{◌++◌ as ◌+s◌}
use mathlib.Core.List.{Permᴰ}
use astrolab.Prelude.{
  ℕ, String, Option, none, some, List, [], ◌∷◌, map, ◌≡◌, refl, sym, ◌∙◌, ap, if◌then◌else◌, str_eq,
  eq_iff, arith,
}
use astrolab.Dict.{Dict, get, keys}
use astrolab.Models.{Ref, Input, one, many}
use astrolab.Canonical.Texts.{str_leb, str_leb_total, str_leb_antisym, str_leb_trans}
use astrolab.Canonical.Sorting.{
  IsOrder, sort, sort-Permᴰ, by_key, map-sort, pair_leb, pair_leb-IsOrder,
}
use astrolab.Canonical.Values.{Fields, Floats}
use astrolab.Canonical.Stable.{SameFields, fields-Same}
use astrolab.Canonical.Print.{Printer, ParamsModel, join, canonical_json, field_precisions}
use astrolab.Canonical.Key.{
  RefKey, ref_key, key_leb, encode_ref, encode_input, encode_at, encode_ports, encode_extra,
  extra_part, node_hash,
}

-- A ref without the path, unless it comes from outside of the runtime.
abbrev pub ref_identity : Ref → String × (String × Option String)
ref_identity r = (r.node_hash, (r.port, if str_eq r.node_hash "ext" then some r.path else none))

-- Lists of refs count up to their order.
abbrev pub IsAlike : Option Input → Option Input → Type 0
IsAlike (some (one r)) (some (one s)) = ref_identity r ≡ ref_identity s
IsAlike (some (many rs)) (some (many ss)) = Permᴰ (map ref_key rs) (map ref_key ss)
IsAlike a b = a ≡ b

-- The same ports in any order, each with alike inputs.
abbrev pub SameInputs : Dict Input → Dict Input → Type 0
SameInputs a b = Permᴰ (keys a) (keys b) × ((port : String) → IsAlike (get port a) (get port b))

-- Python's `==` of two dicts of texts.
abbrev pub SameTexts : Dict String → Dict String → Type 0
SameTexts a b = Permᴰ (keys a) (keys b) × ((k : String) → get k a ≡ get k b)

str_leb-IsOrder : IsOrder str_leb
str_leb-IsOrder = record { total = str_leb_total; antisym = str_leb_antisym; trans = str_leb_trans }

key_leb-IsOrder : IsOrder key_leb
key_leb-IsOrder =
    pair_leb-IsOrder str_leb (pair_leb str_leb str_leb) str_leb-IsOrder
      (pair_leb-IsOrder str_leb str_leb str_leb-IsOrder str_leb-IsOrder)

abbrev encode_identity : String × (String × Option String) → String
encode_identity (h, (port, none)) = h +s "/" +s port +s ""
encode_identity (h, (port, some path)) = h +s "/" +s port +s ("@" +s path)

encode_ref-identity : (r : Ref) → encode_ref r ≡ encode_identity (ref_identity r)
unfolding encode_ref
encode_ref-identity r = ground arith

abbrev encode_key : RefKey → String
encode_key (h, (port, path)) = h +s "/" +s port +s (if str_eq h "ext" then "@" +s path else "")

map-encode_ref : (rs : List Ref) → map encode_ref rs ≡ map encode_key (map ref_key rs)
unfolding encode_ref
map-encode_ref [] = refl
map-encode_ref (r ∷ rs) = ground (arith, map-encode_ref rs)

encode_list-keys :
    (rs : List Ref)
    → map encode_ref (sort (by_key ref_key key_leb) rs)
      ≡ map encode_key (sort key_leb (map ref_key rs))
encode_list-keys rs =
    map-encode_ref (sort (by_key ref_key key_leb) rs)
    ∙ ap (map encode_key) (map-sort ref_key key_leb rs)

encode_at-alike : (a b : Option Input) → IsAlike a b → encode_at a ≡ encode_at b
unfolding encode_input
encode_at-alike (some (one r)) (some (one s)) h =
    encode_ref-identity r ∙ ap encode_identity h ∙ sym (encode_ref-identity s)
encode_at-alike (some (many rs)) (some (many ss)) h =
    let keyed : map encode_ref (sort (by_key ref_key key_leb) rs)
        ≡ map encode_ref (sort (by_key ref_key key_leb) ss) =
      encode_list-keys rs
      ∙ ap (map encode_key) (sort-Permᴰ key_leb key_leb-IsOrder h)
      ∙ sym (encode_list-keys ss) in
    ap (λ ts. "[" +s join "," ts +s "]") keyed
encode_at-alike (some (one r)) (some (many ss)) h = ap encode_at h
encode_at-alike (some (many rs)) (some (one s)) h = ap encode_at h
encode_at-alike (some (one r)) none h = ap encode_at h
encode_at-alike (some (many rs)) none h = ap encode_at h
encode_at-alike none b h = ap encode_at h

encode_ports-alike :
    (a b : Dict Input) (ports : List String)
    → ((port : String) → IsAlike (get port a) (get port b))
    → encode_ports a ports ≡ encode_ports b ports
unfolding encode_ports
encode_ports-alike a b [] h = refl
encode_ports-alike a b (port ∷ ports) h =
    let here : encode_at (get port a) ≡ encode_at (get port b) =
      encode_at-alike (get port a) (get port b) (h port) in
    ground (arith, here, encode_ports-alike a b ports h)

encode_extra-same :
    (a b : Dict String) (ks : List String)
    → ((k : String) → get k a ≡ get k b)
    → encode_extra a ks ≡ encode_extra b ks
unfolding encode_extra
encode_extra-same a b [] h = refl
encode_extra-same a b (k ∷ ks) h = ground (arith, h k, encode_extra-same a b ks h)

extra_part-same : (a b : Dict String) → SameTexts a b → extra_part a ≡ extra_part b
extra_part-same [] [] h = refl
extra_part-same [] (e ∷ b) h = absurd (unfold get in ground (arith, h.1 e.0, eq_iff e.0 e.0))
extra_part-same (e ∷ a) [] h = absurd (unfold get in ground (arith, h.1 e.0, eq_iff e.0 e.0))
extra_part-same (e ∷ a) (f ∷ b) h =
    let sorted : sort str_leb (keys (e ∷ a)) ≡ sort str_leb (keys (f ∷ b)) =
      sort-Permᴰ str_leb str_leb-IsOrder h.0 in
    let texts = encode_extra-same (e ∷ a) (f ∷ b) (sort str_leb (keys (e ∷ a))) h.1 in
    ground (arith, sorted, texts)

module _ {F : Type 0} (pr : Printer F) (fl : Floats F) (sha256 : String → String) where
  -- The key of a node is the same for inputs that differ only in the order of the ports, in the order of
  -- the refs of a list or in the path of a single ref that the runtime produced, for params that differ
  -- only in the order of keys, at any depth, and for extra keys that differ only in their order.
  pub node_hash-same :
      (node_id : String) (version : ℕ) (inputs inputs' : Dict Input) (params params' : Fields F)
      (model : ParamsModel F) (extra extra' : Dict String)
      → SameInputs inputs inputs'
      → SameFields F params params'
      → SameTexts extra extra'
      → node_hash pr fl sha256 node_id version inputs params model extra
        ≡ node_hash pr fl sha256 node_id version inputs' params' model extra'
  unfolding node_hash canonical_json
  node_hash-same node_id version inputs inputs' params params' model extra extra' same_in
        same_params same_extra =
      let form = fields-Same fl (field_precisions model []) params params' same_params in
      let sorted : sort str_leb (keys inputs) ≡ sort str_leb (keys inputs') =
        sort-Permᴰ str_leb str_leb-IsOrder same_in.0 in
      let ports = encode_ports-alike inputs inputs' (sort str_leb (keys inputs)) same_in.1 in
      ground (arith, form, sorted, ports, extra_part-same extra extra' same_extra)
