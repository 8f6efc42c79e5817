-- ===== src/Memory/Access/WritePage.antt =====
-- `memory_write` of memory.c on one page, over a cache that always finds an entry to replace.
use socketapp.Common.{
  ℕ, ◌≡◌, ◌≢◌, ◌⊎◌, refl, sym, ◌∙◌, inl, inr, true, Option, none, some, List, subst, arith, neg,
  ◌==◌, get_elem?, get_elem?_of_lt, lt_of_get_elem?, get_elem?-set_self, patch, Option-cases,
}
use socketapp.Memory.Config.{MemoryConfig}
use socketapp.Memory.Ram.{ram_frame_lookup}
use socketapp.Memory.Cache.{CacheEntry, Cache, Clock, cache_search, cache_cache_contents}
use socketapp.Memory.Cache.Entries.{
  cache_search-Agrees, length-cache_search, cache_search-hit, cache_search-miss, Cached,
  cache_cache_contents-Cached,
}
use socketapp.Memory.Access.{Memory, done, patch_entry, write_page}
use socketapp.Memory.Access.Coherent.{
  contents, AgreesWithRam, IsCoherent, IsAbsent, Agrees-IsAbsent, Agrees-AgreesWithRam,
  Cached-AgreesWithRam, contents_of_some, contents_of_none,
}
use socketapp.Memory.Access.Round.{
  written, written-IsValid, patch_frame_sized, contents-written_self, contents-written_other,
  patch_entry-AgreesWithRam, absent-AgreesWithRam,
}

-- What a round of a write needs of the cache: an invariant `Kept` under which caching a page finds
-- an entry for it, unless the quota of every process is 0.
pub record Caching (config : MemoryConfig) (clocks : Clock) (Kept : Cache → Type 0) : Type 0 where
  pub searched :
      (cache : Cache) (pid page : ℕ) → Kept cache → Kept (cache_search clocks cache pid page).1
  pub cached :
      (cache : Cache) (pid page : ℕ) (content : List ℕ)
      → pid ≢ neg 1
      → Kept cache
      → Kept (cache_cache_contents config clocks cache pid page content).1
  pub patched :
      (cache : Cache) (i offset : ℕ) (bytes : List ℕ)
      → Kept cache
      → Kept (record cache { entries = patch_entry cache.entries i offset bytes })
  pub answers :
      (cache : Cache) (pid page : ℕ) (content : List ℕ)
      → pid ≢ neg 1
      → Kept cache
      → (config.cache_per_process ≡ 0)
        ⊎ ((i : ℕ) × ((cache_cache_contents config clocks cache pid page content).0 ≡ some i))

module _ (config : MemoryConfig) (clocks : Clock) (hash : ℕ → ℕ → ℕ) where
  -- `memory'` is `memory` with `bytes` written at `offset` of one page, which held `old`.
  pub record PageWritten (memory memory' : Memory) (pid page offset : ℕ) (bytes old : List ℕ)
      : Type 0 where
    pub coherent : IsCoherent config hash memory'
    pub page_is : contents hash memory'.ram pid page ≡ some (patch old offset bytes)
    pub others :
        (p q : ℕ)
        → ¬ ((p ≡ pid) × (q ≡ page))
        → contents hash memory'.ram p q ≡ contents hash memory.ram p q

  module _ {Kept : Cache → Type 0} (caching : Caching config clocks Kept) (memory : Memory)
      (pid page offset : ℕ) (bytes old : List ℕ) (v : IsCoherent config hash memory)
      (kept : Kept memory.cache) (np : pid ≢ neg 1)
      (holds : contents hash memory.ram pid page ≡ some old) where
    finish :
        (f : ℕ) (cache : Cache)
        → ram_frame_lookup hash memory.ram pid page ≡ some f
        → get_elem? memory.ram.frames f ≡ some old
        → AgreesWithRam hash (written memory.ram f offset bytes) cache.entries
        → PageWritten memory
            (record { ram = written memory.ram f offset bytes; cache = cache })
            pid
            page
            offset
            bytes
            old
    finish f cache found get a = record {
      coherent = record {
        valid = written-IsValid memory.ram f offset bytes v.valid;
        sized = patch_frame_sized config.frame_size memory.ram.frames f offset bytes v.sized;
        agrees = a;
      };
      page_is = contents-written_self hash memory.ram v.valid pid page f offset bytes old found get;
      others = contents-written_other hash memory.ram v.valid pid page f offset bytes old found get;
    }

    searched : Cache
    searched = (cache_search clocks memory.cache pid page).1

    searched-AgreesWithRam : AgreesWithRam hash memory.ram searched.entries
    unfolding searched
    searched-AgreesWithRam =
        Agrees-AgreesWithRam hash memory.ram memory.cache.entries _
          (cache_search-Agrees clocks memory.cache pid page) v.agrees

    -- The page is in the cache.
    write_hit :
        (f i : ℕ)
        → ram_frame_lookup hash memory.ram pid page ≡ some f
        → get_elem? memory.ram.frames f ≡ some old
        → (cache_search clocks memory.cache pid page).0 ≡ some i
        → (memory' : Memory) × (write_page config clocks hash memory pid page offset bytes
            ≡ (done tt, memory'))
          × PageWritten memory memory' pid page offset bytes old
          × Kept memory'.cache
    unfolding write_page searched
    write_hit f i found get hit =
        let (_, here, _, _) = cache_search-hit clocks memory.cache pid page hit in
        let (entry, there) =
          get_elem?_of_lt searched.entries i
            (rw length-cache_search (lt_of_get_elem? memory.cache.entries i here)) in
        let (old', here', p', q', _) =
          cache_search-Agrees clocks memory.cache pid page i entry there in
        let (first, here₂, p₂, q₂) = cache_search-hit clocks memory.cache pid page hit in
        let a =
          patch_entry-AgreesWithRam hash memory.ram v.valid pid page f offset bytes old found get
            searched.entries i entry searched-AgreesWithRam np there (ground arith)
            (ground arith) in
        (
          record {
            ram = written memory.ram f offset bytes;
            cache = record searched { entries = patch_entry searched.entries i offset bytes };
          },
          rw (found, hit, write_page),
          finish f _ found get a,
          caching.patched searched i offset bytes (caching.searched memory.cache pid page kept),
        )

    -- The page is not in the cache.
    module _ (f : ℕ) (found : ram_frame_lookup hash memory.ram pid page ≡ some f)
        (get : get_elem? memory.ram.frames f ≡ some old)
        (miss : (cache_search clocks memory.cache pid page).0 ≡ none) where
      after : Option ℕ × Cache
      unfolding searched
      after = cache_cache_contents config clocks searched pid page old

      did : Cached searched pid page old after.0 after.1
      unfolding after
      did = cache_cache_contents-Cached config clocks searched pid page old

      absent : IsAbsent searched.entries pid page
      unfolding searched
      absent =
          Agrees-IsAbsent memory.cache.entries searched.entries pid page
            (cache_search-Agrees clocks memory.cache pid page)
            (λ k entry here. cache_search-miss clocks memory.cache pid page k entry miss here)

      after-Kept : Kept after.1
      unfolding after searched
      after-Kept =
          caching.cached searched pid page old np (caching.searched memory.cache pid page kept)

      after-AgreesWithRam : AgreesWithRam hash memory.ram after.1.entries
      after-AgreesWithRam =
          Cached-AgreesWithRam hash memory.ram searched pid page old after.0 after.1 did
            searched-AgreesWithRam holds absent

      write_replace :
          (i : ℕ)
          → after.0 ≡ some i
          → (memory' : Memory) × (write_page config clocks hash memory pid page offset bytes
              ≡ (done tt, memory'))
            × PageWritten memory memory' pid page offset bytes old
            × Kept memory'.cache
      unfolding write_page after searched
      write_replace i chosen =
          let (now, lt, e) = did.replaced i chosen in
          let entry : CacheEntry = record {
            pid = pid;
            page = page;
            content = old;
            last_access = now;
          } in
          let there : get_elem? after.1.entries i ≡ some entry =
            subst (λ (l : List CacheEntry). get_elem? l i ≡ some entry) (sym e)
              (get_elem?-set_self did.before i entry lt) in
          let a =
            patch_entry-AgreesWithRam hash memory.ram v.valid pid page f offset bytes old found get
              after.1.entries i entry after-AgreesWithRam np there refl refl in
          (
            record {
              ram = written memory.ram f offset bytes;
              cache = record (after.1) { entries = patch_entry after.1.entries i offset bytes };
            },
            rw (found, miss, get, chosen, write_page),
            finish f _ found get a,
            caching.patched after.1 i offset bytes after-Kept,
          )

      write_uncached :
          after.0 ≡ none
          → config.cache_per_process ≡ 0
          → (memory' : Memory) × (write_page config clocks hash memory pid page offset bytes
              ≡ (done tt, memory'))
            × PageWritten memory memory' pid page offset bytes old
            × Kept memory'.cache
      unfolding write_page after searched
      write_uncached chosen quota =
          let same : after.1.entries ≡ did.before = did.unchanged chosen in
          let gone : IsAbsent after.1.entries pid page =
            subst (λ (l : List CacheEntry). IsAbsent l pid page) (sym same)
              (Agrees-IsAbsent searched.entries did.before pid page did.agrees absent) in
          let a =
            absent-AgreesWithRam hash memory.ram v.valid pid page f offset bytes old found get
              after.1.entries after-AgreesWithRam gone in
          let e : (config.cache_per_process == 0) ≡ true = ground arith in
          (
            record { ram = written memory.ram f offset bytes; cache = after.1 },
            rw (found, miss, get, chosen, e, write_page),
            finish f _ found get a,
            after-Kept,
          )

      write_miss :
          (memory' : Memory) × (write_page config clocks hash memory pid page offset bytes
            ≡ (done tt, memory'))
          × PageWritten memory memory' pid page offset bytes old
          × Kept memory'.cache
      unfolding after searched
      write_miss =
          elim (caching.answers searched pid page old np
            (caching.searched memory.cache pid page kept)) [
              | inr (i, chosen) ↦ write_replace i chosen
              | inl quota ↦ elim (Option-cases after.0) [
                | inl none_chosen ↦ write_uncached none_chosen quota
                | inr (i, chosen) ↦ write_replace i chosen
              ]
            ]

    -- The round ends normally, with the bytes in RAM and the cache in agreement.
    pub write_page-PageWritten :
        (memory' : Memory) × (write_page config clocks hash memory pid page offset bytes
          ≡ (done tt, memory'))
        × PageWritten memory memory' pid page offset bytes old
        × Kept memory'.cache
    write_page-PageWritten = elim (Option-cases (ram_frame_lookup hash memory.ram pid page)) [
      | inl gone ↦ absurd (cc (holds, contents_of_none hash memory.ram pid page gone))
      | inr (f, found) ↦
          let get = sym (contents_of_some hash memory.ram pid page found) ∙ holds in
          elim (Option-cases (cache_search clocks memory.cache pid page).0) [
            | inl miss ↦ write_miss f found get miss
            | inr (i, hit) ↦ write_hit f i found get hit
          ]
    ]
