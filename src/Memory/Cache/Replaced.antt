-- ===== src/Memory/Cache/Replaced.antt =====
-- `cache_cache_contents` finds an entry, with a quota of one entry at least, and keeps the invariant.
use socketapp.Common.{
  All-map, ◌⊎◌, ◌++◌, ◌∷◌, [], ◌%◌, All, ℕ, ◌+◌, ◌-◌, ◌<◌, ◌≡◌, ◌≢◌, refl, sym, ◌∙◌, inl, inr, true,
  false, some, List, arith, neg, word, ltb, ◌==◌, get_elem?, get_elem?_of_lt, lt_of_get_elem?, set,
  length, length-set, Bool-cases, Option-cases, subst,
}
use native.Mathlib.Nat.{mod-eq_of_lt}
use socketapp.Memory.Config.{MemoryConfig}
use socketapp.Memory.Cache.{
  ProcessEntries, CacheEntry, Cache, Clock, search_from, touch, cache_search, lru, lru_any_process,
  unused_entry, take_over, fill, ensure_process, entries_of, update_process, remove_entry,
  cache_cache_contents,
}
use socketapp.Memory.Cache.Entries.{search_from-finds, length-cache_search, cache_search-hit}
use socketapp.Memory.Cache.Lru.{
  IsChosen, any_entries, Inside, lru_process-IsChosen, select_lru_process-IsChosen,
}
use socketapp.Memory.Cache.Processes.{
  IsListed, append-Inside, remove-Inside, update_process-IsListed, append-any_entries,
  ensure_process-Ensured,
}
use socketapp.Memory.Cache.Filled.{
  IsUsual, used_entries, Filled, HasOwner, All-get, All-set, used_entries-set,
  used_entries-le-length, search_from-unused, set-Filled,
}

module _ (config : MemoryConfig) (clocks : Clock)
    (before : (s t : ℕ) → clocks.clock s < clocks.time t) where
  pub cache_search-Filled :
      (cache : Cache) (pid page : ℕ)
      → Filled config clocks cache
      → Filled config clocks (cache_search clocks cache pid page).1
        × ((cache_search clocks cache pid page).1.processes ≡ cache.processes)
  unfolding cache_search
  cache_search-Filled cache pid page h =
      elim (Option-cases (search_from pid page 0 cache.entries)) [
        | inl missing ↦ rw (missing, cache_search) (h, refl)
        | inr (i, found) ↦
            let (_, entry, there', _, _) = search_from-finds pid page 0 cache.entries found in
            let back : i - 0 ≡ i = omega arith in
            let there : get_elem? cache.entries i ≡ some entry = rw back at there' in
            let usual = All-get (IsUsual clocks) cache.entries i {x = entry} h.usual there in
            rw (found, touch, there, cache_search)
              (
                set-Filled config clocks cache i (cache.ticks + 1) entry
                    (record entry { last_access = clocks.clock cache.ticks }) h there refl
                    (usual.0, λ t. before cache.ticks t),
                refl,
              )
      ]

  cache_search-found :
      (cache : Cache) (pid page : ℕ) {k : ℕ}
      → search_from pid page 0 cache.entries ≡ some k
      → (cache_search clocks cache pid page).0 ≡ some k
  unfolding cache_search
  cache_search-found cache pid page {k} found = rw (found, cache_search) refl

  lru-Filled :
      (cache : Cache) (mine : List ℕ)
      → 0 < config.cache_per_process
      → 0 < config.cache_entry_count
      → Filled config clocks cache
      → All (λ i. i < length cache.entries) mine
      → IsChosen (lru config clocks cache mine).1.entries (lru config clocks cache mine).0
        × Filled config clocks (lru config clocks cache mine).1
        × ((lru config clocks cache mine).1.processes ≡ cache.processes)
  unfolding lru unused_entry lru_any_process
  lru-Filled cache mine quota some_entry h inside =
      elim (Bool-cases (length mine == config.cache_per_process)) [
        | inl all_used ↦
            rw (all_used, lru)
              (
                lru_process-IsChosen cache.entries (clocks.time cache.ticks) mine (ground arith)
                    inside,
                h,
                refl,
              )
        | inr fewer ↦ elim (Bool-cases (ltb cache.cache_use_count config.cache_entry_count)) [
          | inl room ↦
              let count = h.use_count in
              let size = h.size in
              let (k, found) = search_from-unused clocks cache.entries 0 h.usual (ground arith) in
              let there = cache_search-found cache (neg 1) (neg 1) {k = k} found in
              let (_, here, _, _) = cache_search-hit clocks cache (neg 1) (neg 1) there in
              let (entry, now) =
                get_elem?_of_lt (cache_search clocks cache (neg 1) (neg 1)).1.entries k (
                  rw (length-cache_search clocks cache (neg 1) (neg 1))
                    (lt_of_get_elem? cache.entries k here)) in
              let (filled, same) = cache_search-Filled cache (neg 1) (neg 1) h in
              rw (fewer, room, lru)
                (record { index = k; entry = entry; is_some = there; there = now }, filled, same)
          | inr full ↦
              let any : any_entries cache.processes ≡ true = elim (h.any) [
                | inl unused ↦ absurd (ground arith)
                | inr any ↦ any
              ] in
              rw (fewer, full, lru)
                (
                  select_lru_process-IsChosen cache.entries (clocks.time cache.ticks)
                      (λ i entry there.
                        (All-get (IsUsual clocks) cache.entries i {x = entry} h.usual there).1
                          cache.ticks)
                      cache.processes h.inside any,
                  h,
                  refl,
                )
        ]
      ]

module _ (config : MemoryConfig) (clocks : Clock)
    (before : (s t : ℕ) → clocks.clock s < clocks.time t) (small : config.cache_entry_count < word)
    (cache : Cache) (pid page i : ℕ) (content : List ℕ) (entry : CacheEntry)
    (h : Filled config clocks cache) (np : pid ≢ neg 1)
    (there : get_elem? cache.entries i ≡ some entry) (listed : IsListed pid cache.processes) where
  filled : CacheEntry
  filled = record {
    pid = pid;
    page = page;
    content = content;
    last_access = clocks.clock cache.ticks;
  }

  -- The cache after `cacheEntry` got the page.
  with_entry : Cache → Cache
  with_entry owned = record owned { entries = set cache.entries i filled; ticks = cache.ticks + 1 }

  -- Changes of the lists of the processes, and of the count as the entries that are used change.
  with_entry-Filled :
      (processes : List ProcessEntries) (count : ℕ)
      → count ≡ used_entries (set cache.entries i filled)
      → Inside (length cache.entries) processes
      → ((q : ℕ) → IsListed q cache.processes → IsListed q processes)
      → (count ≡ 0) ⊎ (any_entries processes ≡ true)
      → Filled config clocks
          (with_entry (record cache { processes = processes; cache_use_count = count }))
  unfolding filled with_entry
  with_entry-Filled processes count counted inside stay any =
      let len = length-set cache.entries i filled in
      record {
        size = len ∙ h.size;
        usual =
            All-set (IsUsual clocks) cache.entries i filled h.usual
              ((λ e. absurd (np e)), λ t. before cache.ticks t);
        use_count = counted;
        inside = subst (λ n. Inside n processes) (sym len) inside;
        owned =
            All-set (HasOwner processes) cache.entries i filled
              (All-map (HasOwner cache.processes) (HasOwner processes) cache.entries
                (λ e owner. elim owner [ inl unused ↦ inl unused | inr l ↦ inr (stay e.pid l) ])
                h.owned)
              (inr (stay pid listed));
        any = any;
      }

  take_over-Filled :
      (owned : Cache) × (take_over cache pid i entry ≡ some owned)
      × Filled config clocks (with_entry owned)
  unfolding filled take_over
  take_over-Filled =
      let n = length cache.entries in
      let lt = lt_of_get_elem? cache.entries i there in
      let len = length-set cache.entries i filled in
      let size = h.size in
      let was = h.use_count in
      let count = used_entries-set cache.entries i entry filled there in
      let used : (pid == neg 1) ≡ false = ground arith in
      let at_most = used_entries-le-length (set cache.entries i filled) in
      elim (Bool-cases (entry.pid == neg 1)) [
        | inl unused ↦
            let more : used_entries (set cache.entries i filled) ≡ used_entries cache.entries + 1 =
              ground (arith, count) in
            (
              _,
              rw (unused, take_over) refl,
              with_entry-Filled (update_process pid (λ l. l ++ (i ∷ [])) cache.processes)
                  ((cache.cache_use_count + 1) % word)
                  (mod-eq_of_lt (omega arith) ∙ omega (arith, was, more))
                  (append-Inside n pid i cache.processes lt h.inside)
                  (λ q l. update_process-IsListed q pid (λ l. l ++ (i ∷ [])) cache.processes l)
                  (inr (append-any_entries pid i cache.processes listed)),
            )
        | inr taken ↦
            let same : used_entries (set cache.entries i filled) ≡ used_entries cache.entries =
              ground (arith, count) in
            elim (Bool-cases (entry.pid == pid)) [
              | inl mine ↦ (
                cache,
                rw (taken, mine, take_over) refl,
                with_entry-Filled cache.processes cache.cache_use_count (was ∙ sym same) h.inside
                    (λ q l. l) h.any,
              )
              | inr other ↦
                  let removed = update_process entry.pid (remove_entry i) cache.processes in
                  let owner : IsListed entry.pid cache.processes =
                    elim (All-get (HasOwner cache.processes) cache.entries i {x = entry} h.owned
                      there) [ inl unused ↦ absurd (ground arith) | inr l ↦ l ] in
                  let stays = λ (q : ℕ) (l : IsListed q cache.processes).
                    update_process-IsListed q entry.pid (remove_entry i) cache.processes l in
                  (
                    _,
                    rw (taken, other, owner.found, take_over) refl,
                    with_entry-Filled (update_process pid (λ l. l ++ (i ∷ [])) removed)
                        cache.cache_use_count (was ∙ sym same)
                        (append-Inside n pid i removed lt
                          (remove-Inside n entry.pid i cache.processes h.inside))
                        (λ q l.
                          update_process-IsListed q pid (λ l. l ++ (i ∷ [])) removed (stays q l))
                        (inr (append-any_entries pid i removed (stays pid listed))),
                  )
            ]
      ]

  fill-Filled :
      ((fill clocks cache pid page content (some i)).0 ≡ some i)
      × Filled config clocks (fill clocks cache pid page content (some i)).1
  unfolding fill filled with_entry
  fill-Filled = let (owned, took, kept) = take_over-Filled in rw (there, took, fill) (refl, kept)

module _ (config : MemoryConfig) (clocks : Clock)
    (before : (s t : ℕ) → clocks.clock s < clocks.time t) (quota : 0 < config.cache_per_process)
    (some_entry : 0 < config.cache_entry_count) (small : config.cache_entry_count < word) where
  -- In a cache of some entries, with a quota of one at least, where clock() is below time(): if the used
  -- entries are counted and their processes are listed, the processes' lists name entries of the array, and
  -- some process has one when any is used, cache_cache_contents of a process finds an entry for the page, by whichever way, and keeps that.
  pub cache_cache_contents-Filled :
      (cache : Cache) (pid page : ℕ) (content : List ℕ)
      → pid ≢ neg 1
      → Filled config clocks cache
      → (i : ℕ) × ((cache_cache_contents config clocks cache pid page content).0 ≡ some i)
        × Filled config clocks (cache_cache_contents config clocks cache pid page content).1
  unfolding cache_cache_contents
  cache_cache_contents-Filled cache pid page content np h =
      let processes = ensure_process pid cache.processes in
      let made = ensure_process-Ensured (length cache.entries) pid cache.processes h.inside in
      let started : Cache = record cache { processes = processes } in
      let h' : Filled config clocks started = record {
        size = h.size;
        usual = h.usual;
        use_count = h.use_count;
        inside = made.inside;
        owned =
            All-map (HasOwner cache.processes) (HasOwner processes) cache.entries
              (λ e owner. elim owner [ inl unused ↦ inl unused | inr l ↦ inr (made.stay e.pid l) ])
              h.owned;
        any = elim (h.any) [ inl none_used ↦ inl none_used | inr any ↦ inr (made.any ∙ any) ];
      } in
      let mine = entries_of pid processes in
      let (chosen, kept, same) =
        lru-Filled config clocks before started mine quota some_entry h' made.mine in
      let listed : IsListed pid (lru config clocks started mine).1.processes =
        subst (IsListed pid) (sym same) made.listed in
      let (answers, filled') =
        fill-Filled config clocks before small (lru config clocks started mine).1 pid page
          chosen.index content chosen.entry kept np chosen.there listed in
      (chosen.index, rw (chosen.is_some) answers, rw (chosen.is_some) filled')
