-- ===== src/Tests/Memory.antt =====
-- Memory: reads and writes over the table of three frames, with a cache of one entry.
use socketapp.Common.{
  inr, inr, arith, ℕ, zero, suc, ◌≡◌, ◌≢◌, refl, none, some, List, [], ◌∷◌, subst, arith, neg,
  get_elem?, length,
}
use socketapp.Memory.Config.{MemoryConfig}
use socketapp.Memory.Ram.{ram_frame_index_lookup, ram_frame_lookup, probe}
use socketapp.Memory.Cache.{
  find_process, CacheEntry, Clock, search_from, cache_search, cache_cache_contents,
}
use socketapp.Memory.Access.Freed.{after_free, memory_read-ram_free_page}
use socketapp.Memory.Access.{Memory, done, no_page, memory_read, memory_write}
use socketapp.Memory.Access.Coherent.{contents, IsCoherent}
use socketapp.Memory.Access.Pages.{pages}
use socketapp.Memory.Access.Read.{Undisturbed, memory_read-pages, memory_read-no_page}
use socketapp.Memory.Access.WritePage.{Caching}
use socketapp.Memory.Access.Filling.{no_quota, some_quota}
use socketapp.Memory.Cache.Filled.{Filled}
use socketapp.Memory.Cache.Replaced.{cache_cache_contents-Filled}
use socketapp.Memory.Access.Write.{Written, memory_write-Written, memory_read-memory_write}
use socketapp.Tests.Ram.{by_page, sample, sample-IsValid}

abbrev config : MemoryConfig
config = record { frame_count = 16; frame_size = 4; cache_entry_count = 1; cache_per_process = 1 }

-- Entry 0 caches page 1 of process 1.
abbrev memory : Memory
memory = record {
  ram = sample;
  cache = record {
    entries = record { pid = 1; page = 1; content = 20 ∷ 21 ∷ 22 ∷ 23 ∷ []; last_access = 5 } ∷ [];
    processes = record { pid = 1; entries = 0 ∷ [] } ∷ [];
    cache_use_count = 1;
    ticks = 6;
  };
}

abbrev clocks : Clock
clocks = record { clock = λ n. 7; time = λ n. 1000 }

memory-IsCoherent : IsCoherent config by_page memory
unfolding ram_frame_lookup ram_frame_index_lookup probe
memory-IsCoherent = record {
  valid = sample-IsValid;
  sized = sized;
  agrees = record { cached = cached; unique = unique };
}
  where
    sized : (i : ℕ) (frame : List ℕ) → get_elem? sample.frames i ≡ some frame → length frame ≡ 4
    sized zero frame e = ground arith
    sized (suc zero) frame e = ground arith
    sized (suc (suc zero)) frame e = ground arith
    sized (suc (suc (suc i))) frame e = ground arith

    cached :
        (i : ℕ) (entry : CacheEntry)
        → get_elem? memory.cache.entries i ≡ some entry
        → entry.pid ≢ neg 1
        → contents by_page sample entry.pid entry.page ≡ some entry.content
    cached zero entry e np =
        let here : record { pid = 1; page = 1; content = 20 ∷ 21 ∷ 22 ∷ 23 ∷ []; last_access = 5 }
            ≡ entry =
          cc in
        subst (λ (x : CacheEntry). contents by_page sample x.pid x.page ≡ some x.content) here refl
    cached (suc i) entry e np = ground arith

    unique :
        (i j : ℕ) (e e' : CacheEntry)
        → get_elem? memory.cache.entries i ≡ some e
        → get_elem? memory.cache.entries j ≡ some e'
        → e.pid ≢ neg 1
        → e.pid ≡ e'.pid
        → e.page ≡ e'.page
        → i ≡ j
    unique zero zero e e' g g' np p q = refl
    unique zero (suc j) e e' g g' np p q = ground arith
    unique (suc i) j e e' g g' np p q = ground arith

abbrev two_pages : List ℕ
two_pages = 10 ∷ 11 ∷ 12 ∷ 13 ∷ 20 ∷ 21 ∷ 22 ∷ 23 ∷ []

memory_pages : pages (contents by_page sample 1) 0 2 ≡ some two_pages
unfolding ram_frame_lookup ram_frame_index_lookup probe
memory_pages = refl

memory_third : contents by_page sample 1 2 ≡ none
unfolding ram_frame_lookup ram_frame_index_lookup probe
memory_third = refl

-- Three bytes over the boundary of the pages, the last one from the cache.
read_example :
    (memory' : Memory) × Undisturbed config by_page memory memory'
    × (memory_read config clocks by_page memory 1 0 2 3 ≡ (done (12 ∷ 13 ∷ 20 ∷ []), memory'))
read_example =
    memory_read-pages config clocks by_page 1 (omega arith) memory 2 0 2 3 two_pages
      memory-IsCoherent (omega arith) (omega arith) memory_pages (omega arith)

-- The third page is missing.
no_page_example :
    (memory' : Memory) × Undisturbed config by_page memory memory'
    × (memory_read config clocks by_page memory 1 0 3 6 ≡ (no_page, memory'))
no_page_example =
    memory_read-no_page config clocks by_page 1 (omega arith) memory 2 0 3 6 two_pages
      memory-IsCoherent (omega arith) (omega arith) (omega arith) memory_pages memory_third
      (omega arith)

memory-Filled : Filled config clocks memory.cache
unfolding find_process
memory-Filled = record {
  size = refl;
  usual = (((λ e. absurd (cc e)), λ t. omega arith), tt);
  use_count = refl;
  inside = ((omega arith, tt), tt);
  owned = (inr (record { entries = 0 ∷ []; found = refl }), tt);
  any = inr refl;
}

memory-Caching : Caching config clocks (Filled config clocks)
memory-Caching =
    some_quota config clocks (λ s t. omega arith) (omega arith) (omega arith) (omega arith)

uncached-Caching : Caching (record config { cache_per_process = 0 }) clocks (λ _. Unit {0})
uncached-Caching = no_quota (record config { cache_per_process = 0 }) clocks refl

write_example :
    (memory' : Memory) × Written config clocks by_page memory memory' 1 0 2 3
      (7 ∷ 8 ∷ 9 ∷ [])
      two_pages
    × Filled config clocks memory'.cache
    × (memory_write config clocks by_page memory 1 0 3 (7 ∷ 8 ∷ 9 ∷ []) ≡ (done 3, memory'))
write_example =
    memory_write-Written config clocks by_page memory-Caching 1 (omega arith) memory 2 0 3
      (7 ∷ 8 ∷ 9 ∷ []) two_pages memory-IsCoherent memory-Filled (omega arith) (omega arith)
      memory_pages (omega arith)

round_trip_example :
    (written : Memory) × (memory_write config clocks by_page memory 1 0 3 (7 ∷ 8 ∷ 9 ∷ [])
      ≡ (done 3, written))
    × (after : Memory) × (memory_read config clocks by_page written 1 0 3 3
        ≡ (done (7 ∷ 8 ∷ 9 ∷ []), after))
round_trip_example =
    memory_read-memory_write config clocks by_page memory-Caching 1 (omega arith) memory 2 0 3
      (7 ∷ 8 ∷ 9 ∷ []) two_pages memory-IsCoherent memory-Filled (omega arith) (omega arith)
      memory_pages (omega arith)

memory_hit : (cache_search clocks memory.cache 1 1).0 ≡ some 0
unfolding cache_search search_from
memory_hit = refl

memory_second : contents by_page sample 1 1 ≡ some (20 ∷ 21 ∷ 22 ∷ 23 ∷ [])
unfolding ram_frame_lookup ram_frame_index_lookup probe
memory_second = refl

-- The page that was freed is the one in the cache.
freed_read_example :
    (ram_frame_lookup by_page (after_free config clocks by_page memory 1 1).ram 1 1 ≡ none)
    × (memory' : Memory) × (memory_read config clocks by_page
          (after_free config clocks by_page memory 1 1)
          1
          1
          1
          2
        ≡ (done (21 ∷ 22 ∷ []), memory'))
freed_read_example =
    memory_read-ram_free_page config clocks by_page memory 1 1 1 2 1 0 (20 ∷ 21 ∷ 22 ∷ 23 ∷ [])
      memory-IsCoherent (omega arith) (omega arith, refl) memory_second memory_hit (omega arith)
      (omega arith)

-- The one entry passes from process 1 to process 2, which has none.
cache_cache_contents-Filled_example :
    (i : ℕ) × ((cache_cache_contents config clocks memory.cache 2 3 (1 ∷ 2 ∷ 3 ∷ 4 ∷ [])).0
      ≡ some i)
    × Filled config clocks
        (cache_cache_contents config clocks memory.cache 2 3 (1 ∷ 2 ∷ 3 ∷ 4 ∷ [])).1
cache_cache_contents-Filled_example =
    cache_cache_contents-Filled config clocks (λ s t. omega arith) (omega arith) (omega arith)
      (omega arith) memory.cache 2 3 (1 ∷ 2 ∷ 3 ∷ 4 ∷ []) (omega arith) memory-Filled
