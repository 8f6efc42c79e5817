-- ===== src/Memory/Access/Filling.antt =====
-- What a write needs of the cache: with a quota of 0 nothing, and with another an entry for every page.
use socketapp.Common.{
  ℕ, ◌<◌, ◌≡◌, refl, sym, suc, ap, ◌∙◌, inl, inr, List, [], ◌∷◌, All, word, arith, get_elem?,
  length, Option-cases,
}
use socketapp.Memory.Config.{MemoryConfig}
use socketapp.Memory.Cache.{Cache, Clock, unused_entries, cache_init}
use socketapp.Memory.Cache.Filled.{IsUsual, used_entries, HasOwner, Filled, All-get, set-Filled}
use socketapp.Memory.Cache.Replaced.{cache_search-Filled, cache_cache_contents-Filled}
use socketapp.Memory.Access.{patch_entry}
use socketapp.Memory.Access.WritePage.{Caching}

-- With a quota of 0 no page is ever cached, and nothing is asked of the cache.
pub no_quota :
    (config : MemoryConfig) (clocks : Clock)
    → config.cache_per_process ≡ 0
    → Caching config clocks (λ _. Unit {0})
no_quota config clocks e = record {
  searched = λ cache pid page _. tt;
  cached = λ cache pid page content np _. tt;
  patched = λ cache i offset bytes _. tt;
  answers = λ cache pid page content np _. inl e;
}

patch_entry-Filled :
    (config : MemoryConfig) (clocks : Clock) (cache : Cache) (i offset : ℕ) (bytes : List ℕ)
    → Filled config clocks cache
    → Filled config clocks (record cache { entries = patch_entry cache.entries i offset bytes })
patch_entry-Filled config clocks cache i offset bytes h =
    elim (Option-cases (get_elem? cache.entries i)) [
      | inl gone ↦ rw (patch_entry, gone) h
      | inr (entry, there) ↦
          rw (patch_entry, there)
            (set-Filled config clocks cache i cache.ticks entry _ h there refl
              (All-get (IsUsual clocks) cache.entries i {x = entry} h.usual there))
    ]

-- Where clock(), the time of the last use, is below time(), with a quota of one entry at least.
pub some_quota :
    (config : MemoryConfig) (clocks : Clock)
    → ((s t : ℕ) → clocks.clock s < clocks.time t)
    → 0 < config.cache_per_process
    → 0 < config.cache_entry_count
    → config.cache_entry_count < word
    → Caching config clocks (Filled config clocks)
some_quota config clocks before quota some_entry small = record {
  searched = λ cache pid page h. (cache_search-Filled config clocks before cache pid page h).0;
  cached = λ cache pid page content np h.
      (cache_cache_contents-Filled config clocks before quota some_entry small cache pid page
        content np h).2;
  patched = λ cache i offset bytes h. patch_entry-Filled config clocks cache i offset bytes h;
  answers = λ cache pid page content np h.
      let (i, answers, _) =
        cache_cache_contents-Filled config clocks before quota some_entry small cache pid page
          content np h in
      inr (i, answers);
}

unused_entries-IsUsual :
    (clocks : Clock) (block : List (List ℕ))
    → ((t : ℕ) → 0 < clocks.time t)
    → All (IsUsual clocks) (unused_entries block)
      × (used_entries (unused_entries block) ≡ 0)
      × (length (unused_entries block) ≡ length block)
      × All (HasOwner []) (unused_entries block)
unfolding unused_entries
unused_entries-IsUsual clocks [] pos = (tt, refl, refl, tt)
unused_entries-IsUsual clocks (bytes ∷ block) pos =
    let (usual, none_used, same, owned) = unused_entries-IsUsual clocks block pos in
    ((((λ e. refl), pos), usual), omega (arith, none_used), ap suc same, (inl refl, owned))

-- The cache starts that way.
pub cache_init-Filled :
    (config : MemoryConfig) (clocks : Clock) (block : List (List ℕ))
    → ((t : ℕ) → 0 < clocks.time t)
    → length block ≡ config.cache_entry_count
    → Filled config clocks (cache_init block)
unfolding cache_init
cache_init-Filled config clocks block pos size =
    let (usual, none_used, same, owned) = unused_entries-IsUsual clocks block pos in
    record {
      size = same ∙ size;
      usual = usual;
      use_count = sym none_used;
      inside = tt;
      owned = owned;
      any = inl refl;
    }
