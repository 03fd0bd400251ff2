-- ===== src/Storage/Order.antt =====
-- `_eviction_key` of server/storage.py, and the sort by it.
use astrolab.Prelude.{
  ℕ, Bool, true, false, Option, none, some, List, [], ◌∷◌, ◌==◌, ltb, leb, if◌then◌else◌, ◌&&◌,
  ◌||◌,
}
use astrolab.Storage.Reach.{tier_rank, CacheEntryInfo}

abbrev pub has_owners : CacheEntryInfo → ℕ
has_owners e = elim e.owners [ [] ↦ 0 | _ ∷ _ ↦ 1 ]

-- `oldest_owner_updated_at`, where None stands for a text after every time.
abbrev pub age_leb : Option ℕ → Option ℕ → Bool
age_leb _ none = true
age_leb none (some t) = false
age_leb (some s) (some t) = leb s t

-- `<=` of two keys, as tuples compare.
unfoldable pub key_leb : CacheEntryInfo → CacheEntryInfo → Bool
key_leb a b =
    ltb (has_owners a) (has_owners b)
    || ((has_owners a == has_owners b)
        && (ltb (tier_rank a.tier) (tier_rank b.tier)
            || ((tier_rank a.tier == tier_rank b.tier)
                && age_leb a.oldest_owner_updated_at b.oldest_owner_updated_at)))

-- `sorted(entries.values(), key=_eviction_key)`, which is stable.
unfoldable pub insert_info : CacheEntryInfo → List CacheEntryInfo → List CacheEntryInfo
unfolding key_leb
insert_info e [] = e ∷ []
insert_info e (f ∷ infos) = if key_leb e f then e ∷ f ∷ infos else f ∷ insert_info e infos

unfoldable pub eviction_order : List CacheEntryInfo → List CacheEntryInfo
unfolding insert_info
eviction_order [] = []
eviction_order (e ∷ infos) = insert_info e (eviction_order infos)
