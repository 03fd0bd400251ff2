-- ===== src/Cache/Commit.antt =====
-- `load_outputs` after `commit`, in server/cache.py.
use astrolab.Prelude.{
  ℕ, String, ◌≡◌, Option, none, some, List, [], ◌∷◌, map, arith, eq_iff, ap, All, Option-cases, inl,
  inr, if◌then◌else◌, sym, subst, ◌∙◌, option_both,
}
use astrolab.Dict.{Dict, get, set, get-set}
use astrolab.Models.{Ref}
use astrolab.Cache.{
  Cache, Dir, Output, manifest, output_ref, outputs_of, Committed, committed, refused, commit,
  load_outputs,
}

-- A node's outputs stand under their ports, and carry the entry's hash.
abbrev pub AreOutputs : String → Dict Ref → Type 0
AreOutputs hash outputs = All (λ o. (o.1.port ≡ o.0) × (o.1.node_hash ≡ hash)) outputs

rebuilt :
    (r : Ref) (n p path : String)
    → r.node_hash ≡ n
    → r.port ≡ p
    → r.path ≡ path
    → record {
      display_ready = r.display_ready;
      node_hash = n;
      port = p;
      path = path;
      type = r.type;
    }
      ≡ r
rebuilt r n p path hn hp ha =
    λ i. record r { node_hash = sym hn i; port = sym hp i; path = sym ha i }

output_ref-manifest :
    (join : String → String → String) (relative : Ref → Option String) (hash : String)
    (outputs : Dict Ref) (entries : Dict Output)
    → ((r : Ref) (rel : String) → relative r ≡ some rel → join hash rel ≡ r.path)
    → AreOutputs hash outputs
    → manifest relative outputs ≡ some entries
    → map (output_ref join hash) entries ≡ outputs
unfolding manifest
output_ref-manifest join relative hash [] entries paths own e = ground (arith, e)
output_ref-manifest join relative hash ((port, r) ∷ outputs) entries paths own e =
    elim (Option-cases (relative r)) [
      | inl missing ↦ ground (arith, missing, e)
      | inr (rel, at) ↦ elim (Option-cases (manifest relative outputs)) [
        | inl missing ↦ ground (arith, missing, at, e)
        | inr (rest, found) ↦
            let first : Output = record {
              path = rel;
              type = r.type;
              display_ready = r.display_ready;
            } in
            let whole : (port, first) ∷ rest ≡ entries = ground (arith, at, found, e) in
            let tail = output_ref-manifest join relative hash outputs rest paths own.1 found in
            let ref_is =
              rebuilt r hash port (join hash rel) own.0.1 own.0.0 (sym (paths r rel at)) in
            subst (λ x. map (output_ref join hash) x ≡ (port, r) ∷ outputs) whole
              (rw (ref_is, tail))
      ]
    ]

module _ {V : Type 0} where
  load_outputs-set :
      (join : String → String → String) (hash : String) (d : Dir V) (c : Cache V)
      → load_outputs join hash (set hash d c)
        ≡ (if d.done then outputs_of join hash d.outputs else none)
  unfolding load_outputs
  load_outputs-set join hash d c = ground (arith, get-set hash hash d c, eq_iff hash hash)

  -- What a commit that succeeds leaves to load.
  abbrev pub LoadsBack : (join : String → String → String) → String → Committed × Cache V → Type 0
  LoadsBack join hash (committed outputs, c) = load_outputs join hash c ≡ some outputs
  LoadsBack join hash (refused _, c) = Unit

  -- Where `relative` and `join` agree on the paths of an entry's files, and the outputs carry the
  -- entry's hash and their ports: the outputs that a commit returns are those that a later lookup
  -- loads.
  pub commit-LoadsBack :
      (join : String → String → String) (relative : Ref → Option String) (hash : String)
      (outputs : Dict Ref) (warnings : List V) (total : ℕ) (c : Cache V)
      → ((r : Ref) (rel : String) → relative r ≡ some rel → join hash rel ≡ r.path)
      → AreOutputs hash outputs
      → LoadsBack join hash (commit relative hash outputs warnings total c)
  commit-LoadsBack join relative hash outputs warnings total c paths own =
      unfold commit in
      option_both (LoadsBack join hash) (get hash c) tt λ d _.
        option_both (LoadsBack join hash) (manifest relative outputs) tt λ entries e.
          load_outputs-set join hash _ c
          ∙ ap some (output_ref-manifest join relative hash outputs entries paths own e)
