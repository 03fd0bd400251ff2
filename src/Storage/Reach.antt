-- ===== src/Storage/Reach.antt =====
-- `build_reachability` of server/storage.py. The registry of node classes is an argument: `tiers` gives
-- the tier of a class, or `none` where the lookup raises KeyError. So is the column node_hashes_json
-- of the jobs, decoded, which may hold the older list.
use astrolab.Prelude.{
  ℕ, String, Option, none, some, List, [], ◌∷◌, ◌++◌, str_eq, if◌then◌else◌, ltb,
}
use astrolab.Dict.{Dict, get, set}
use astrolab.Models.{NodeSpec, Template}
use astrolab.Migrations.{node_by_id}
use astrolab.Cache.{Cache, member, all_committed_hashes, entry_size}
use astrolab.Projects.Records.{HistoryEntry, ProjectRow, HistoryRow}
use astrolab.Projects.Tables.{entries_of, order_entries}

pub data Tier : Type 0 where
  bulk keep : Tier

-- `_TIER_ORDER`
abbrev pub tier_rank : Tier → ℕ
tier_rank bulk = 0
tier_rank keep = 1

pub record CacheEntryInfo : Type 0 where
  pub node_hash : String
  pub bytes : ℕ
  pub owners : List String
  pub tier : Tier
  pub oldest_owner_updated_at : Option ℕ

-- The two shapes of node_hashes_json.
pub data Hashes : Type 0 where
  by_node : Dict String → Hashes
  by_place : List String → Hashes

abbrev pub Tiers : Type 0
Tiers = (kind : String) → (variant : Option String) → Option Tier

abbrev pub new_info : String → ℕ → CacheEntryInfo
new_info hash bytes = record {
  node_hash = hash;
  bytes = bytes;
  owners = [];
  tier = bulk;
  oldest_owner_updated_at = none;
}

-- `owners.add(pid)`
abbrev pub add_owner : String → List String → List String
add_owner pid owners = if member pid owners then owners else owners ++ pid ∷ []

abbrev pub promote : Tier → Tier → Tier
promote tier old = if ltb (tier_rank old) (tier_rank tier) then tier else old

abbrev pub oldest : ℕ → Option ℕ → Option ℕ
oldest updated none = some updated
oldest updated (some t) = if ltb updated t then some updated else some t

module _ {V : Type 0} where
  unfoldable pub scan_cache : List String → Cache V → Dict CacheEntryInfo → Dict CacheEntryInfo
  unfolding set entry_size
  scan_cache [] c entries = entries
  scan_cache (hash ∷ hashes) c entries =
      scan_cache hashes c (set hash (new_info hash (entry_size hash c)) entries)

  -- `_node_tier_map`, for the last node with the id whose class is registered.
  unfoldable pub tier_in : Tiers → List (NodeSpec V) → String → Option Tier
  tier_in tiers [] id = none
  tier_in tiers (n ∷ nodes) id = elim (tier_in tiers nodes id) [
    | some t ↦ some t
    | none ↦ if str_eq n.id id then tiers n.kind n.variant else none
  ]

  -- `spec is not None`, and `tier_map.get(spec.id, "bulk")`
  unfoldable pub tier_of : Tiers → Template V → String → Tier → Tier
  unfolding node_by_id tier_in
  tier_of tiers t node old = elim (node_by_id node t.nodes) [
    | none ↦ old
    | some _ ↦ elim (tier_in tiers t.nodes node) [
      | none ↦ promote bulk old
      | some tier ↦ promote tier old
    ]
  ]

  -- The body of the innermost loop.
  unfoldable pub attribute :
      Tiers → ProjectRow V → String × String → Dict CacheEntryInfo → Dict CacheEntryInfo
  unfolding get set tier_of
  attribute tiers p (node, hash) entries = elim (get hash entries) [
    | none ↦ entries
    | some e ↦
        set hash
          (record e {
            owners = add_owner p.id e.owners;
            tier = tier_of tiers p.template node e.tier;
            oldest_owner_updated_at = oldest p.updated_at e.oldest_owner_updated_at;
          })
          entries
  ]

  unfoldable pub attribute_all :
      Tiers → ProjectRow V → List (String × String) → Dict CacheEntryInfo → Dict CacheEntryInfo
  unfolding attribute
  attribute_all tiers p [] entries = entries
  attribute_all tiers p (pair ∷ pairs) entries =
      attribute_all tiers p pairs (attribute tiers p pair entries)

  -- The older list, by the template's order of nodes.
  unfoldable pub by_index : List (NodeSpec V) → List String → List (String × String)
  by_index [] hashes = []
  by_index (n ∷ nodes) [] = []
  by_index (n ∷ nodes) (hash ∷ hashes) = (n.id, hash) ∷ by_index nodes hashes

  unfoldable pub pairs_of : ProjectRow V → Option Hashes → List (String × String)
  unfolding by_index
  pairs_of p none = []
  pairs_of p (some (by_node pairs)) = pairs
  pairs_of p (some (by_place hashes)) = by_index p.template.nodes hashes

  unfoldable pub walk_history :
      Tiers
      → Dict Hashes
      → ProjectRow V
      → List (HistoryEntry V)
      → Dict CacheEntryInfo
      → Dict CacheEntryInfo
  unfolding attribute_all pairs_of get
  walk_history tiers payloads p [] entries = entries
  walk_history tiers payloads p (h ∷ history) entries =
      walk_history tiers payloads p history
        (attribute_all tiers p (pairs_of p (get h.job_id payloads)) entries)

  unfoldable pub walk_projects :
      Tiers
      → Dict Hashes
      → List (HistoryRow V)
      → List (ProjectRow V)
      → Dict CacheEntryInfo
      → Dict CacheEntryInfo
  unfolding walk_history entries_of order_entries
  walk_projects tiers payloads history [] entries = entries
  walk_projects tiers payloads history (p ∷ projects) entries =
      walk_projects tiers payloads history projects
        (walk_history tiers payloads p (order_entries (entries_of p.id history)) entries)

  unfoldable pub build_reachability :
      Tiers
      → Dict Hashes
      → List (ProjectRow V)
      → List (HistoryRow V)
      → Cache V
      → Dict CacheEntryInfo
  unfolding scan_cache walk_projects all_committed_hashes
  build_reachability tiers payloads projects history c =
      walk_projects tiers payloads history projects (scan_cache (all_committed_hashes c) c [])
