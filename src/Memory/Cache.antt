-- ===== src/Memory/Cache.antt =====
-- Memory/src/functions/cache.c: the page cache with a quota for each process and LRU replacement.
-- A `t_cache_entry*` is the index of the entry in the array.
pub mod Entries
pub mod Lru
pub mod Processes
pub mod Filled
pub mod Replaced
use socketapp.Common.{
  ℕ, zero, suc, ◌+◌, ◌-◌, ◌%◌, Bool, true, false, not, ◌&&◌, ◌||◌, Option, none, some, List, [],
  ◌∷◌, ◌++◌, map, word, neg, ltb, ◌==◌, if◌then◌else◌, get_elem?, set, replicate, length, to_nat,
}
use socketapp.Memory.Config.{MemoryConfig}

-- `t_cache_entry`
pub record CacheEntry : Type 0 where
  pub pid : ℕ
  pub page : ℕ
  pub content : List ℕ
  pub last_access : ℕ

-- `t_proccessEntries`
pub record ProcessEntries : Type 0 where
  pub pid : ℕ
  pub entries : List ℕ

-- The globals of cache.c; `ticks` counts the calls of `clock`.
pub record Cache : Type 0 where
  pub entries : List CacheEntry
  pub processes : List ProcessEntries
  pub cache_use_count : ℕ
  pub ticks : ℕ

-- What `clock()` and `time(NULL)` answer, as the calls go on.
pub record Clock : Type 0 where
  pub clock : ℕ → ℕ
  pub time : ℕ → ℕ

-- `cacheContent` as `malloc` left it is `block`, cut at the entries. `lastAccess` is left unset by the
-- code, and is 0 here.
unfoldable pub unused_entries : List (List ℕ) → List CacheEntry
unused_entries [] = []
unused_entries (bytes ∷ block) =
    record { pid = neg 1; page = neg 1; content = bytes; last_access = 0 } ∷ unused_entries block

unfoldable pub cache_init : List (List ℕ) → Cache
unfolding unused_entries
cache_init block = record {
  entries = unused_entries block;
  processes = [];
  cache_use_count = 0;
  ticks = 0;
}

abbrev pub entry_is : ℕ → ℕ → CacheEntry → Bool
entry_is pid page entry = (entry.pid == pid) && (entry.page == page)

-- The loop of `cache_search`, from entry `i` on.
unfoldable pub search_from : ℕ → ℕ → ℕ → List CacheEntry → Option ℕ
search_from pid page i [] = none
search_from pid page i (entry ∷ entries) =
    if entry_is pid page entry then some i else search_from pid page (i + 1) entries

-- A write of `lastAccess` through the pointer.
abbrev pub touch : List CacheEntry → ℕ → ℕ → List CacheEntry
touch entries i now = elim (get_elem? entries i) [
  | none ↦ entries
  | some entry ↦ set entries i (record entry { last_access = now })
]

unfoldable pub cache_search : Clock → Cache → ℕ → ℕ → Option ℕ × Cache
cache_search clocks cache pid page = elim (search_from pid page 0 cache.entries) [
  | none ↦ (none, cache)
  | some i ↦ (
    some i,
    record cache {
      entries = touch cache.entries i (clocks.clock cache.ticks);
      ticks = cache.ticks + 1;
    },
  )
]

-- `lruTime` and `lruEntry`.
abbrev pub Lru : Type 0
Lru = ℕ × Option ℕ

abbrev pub is_null : Option ℕ → Bool
is_null none = true
is_null (some _) = false

-- `selectLru` of `lruProccess`; `list_iterate` is a fold.
unfoldable pub select_lru : List CacheEntry → List ℕ → Lru → Lru
select_lru cache [] lru = lru
select_lru cache (i ∷ is) lru = select_lru cache is (elim (get_elem? cache i) [
  | none ↦ lru
  | some entry ↦
      if ltb entry.last_access lru.0 || is_null lru.1 then (entry.last_access, some i) else lru
])

unfoldable pub lru_process : List CacheEntry → ℕ → List ℕ → Option ℕ
lru_process cache now entries = (select_lru cache entries (now, none)).1

-- `selectLru` of `lruAnyProccess`.
unfoldable pub select_lru_process : List CacheEntry → ℕ → List ProcessEntries → Lru → Lru
select_lru_process cache now [] lru = lru
select_lru_process cache now (process ∷ processes) lru = select_lru_process cache now processes (
    let current = lru_process cache now process.entries in
    if ltb (length process.entries) 1 then lru else elim current [
      | none ↦ lru
      | some i ↦ elim (get_elem? cache i) [
        | none ↦ lru
        | some entry ↦ if ltb entry.last_access lru.0 then (entry.last_access, some i) else lru
      ]
    ])

unfoldable pub lru_any_process : Cache → ℕ → Option ℕ
lru_any_process cache now = (select_lru_process cache.entries now cache.processes (now, none)).1

unfoldable pub unused_entry : Clock → Cache → Option ℕ × Cache
unused_entry clocks cache = cache_search clocks cache (neg 1) (neg 1)

-- `list_find` by the identifier, and the entries of what it finds.
unfoldable pub find_process : ℕ → List ProcessEntries → Option (List ℕ)
find_process pid [] = none
find_process pid (process ∷ processes) =
    if process.pid == pid then some process.entries else find_process pid processes

-- A change of the list of the process that `list_find` finds.
unfoldable pub update_process : ℕ → (List ℕ → List ℕ) → List ProcessEntries → List ProcessEntries
update_process pid change [] = []
update_process pid change (process ∷ processes) =
    if process.pid == pid
    then record process { entries = change process.entries } ∷ processes
    else process ∷ update_process pid change processes

-- `list_remove_by_condition`: the first that is `i`.
unfoldable pub remove_entry : ℕ → List ℕ → List ℕ
remove_entry i [] = []
remove_entry i (j ∷ js) = if j == i then js else j ∷ remove_entry i js

unfoldable pub lru : MemoryConfig → Clock → Cache → List ℕ → Option ℕ × Cache
lru config clocks cache entries =
    let now = clocks.time cache.ticks in
    if length entries == config.cache_per_process
    then (lru_process cache.entries now entries, cache)
    else if ltb cache.cache_use_count config.cache_entry_count
    then unused_entry clocks cache
    else (lru_any_process cache now, cache)

-- The list of the process, which is made if the process has none.
unfoldable pub ensure_process : ℕ → List ProcessEntries → List ProcessEntries
ensure_process pid processes = elim (find_process pid processes) [
  | some _ ↦ processes
  | none ↦ processes ++ (record { pid = pid; entries = [] } ∷ [])
]

abbrev pub entries_of : ℕ → List ProcessEntries → List ℕ
entries_of pid processes = elim (find_process pid processes) [ some entries ↦ entries | none ↦ [] ]

-- Entry `i`, which `lru` chose, passes to process `pid`; `none`: its owner is not listed, and the code
-- follows a null pointer.
unfoldable pub take_over : Cache → ℕ → ℕ → CacheEntry → Option Cache
take_over cache pid i entry =
    if entry.pid == neg 1
    then some (record cache {
      processes = update_process pid (λ l. l ++ (i ∷ [])) cache.processes;
      cache_use_count = (cache.cache_use_count + 1) % word;
    })
    else if not (entry.pid == pid)
    then elim (find_process entry.pid cache.processes) [
      | none ↦ none
      | some _ ↦ some (record cache {
        processes =
            update_process pid (λ l. l ++ (i ∷ []))
              (update_process entry.pid (remove_entry i) cache.processes);
      })
    ]
    else some cache

-- What `cache_cache_contents` does with the entry that `lru` answered: NULL, or entry `i`. No entry is
-- given where the code follows a null pointer; with a quota of one at least a write then fails.
unfoldable pub fill : Clock → Cache → ℕ → ℕ → List ℕ → Option ℕ → Option ℕ × Cache
fill clocks cache pid page content none = (none, cache)
fill clocks cache pid page content (some i) = elim (get_elem? cache.entries i) [
  | none ↦ (none, cache)
  | some entry ↦ elim (take_over cache pid i entry) [
    | none ↦ (none, cache)
    | some owned ↦ (
      some i,
      record owned {
        entries = set cache.entries i (record {
          pid = pid;
          page = page;
          content = content;
          last_access = clocks.clock cache.ticks;
        });
        ticks = cache.ticks + 1;
      },
    )
  ]
]

unfoldable pub cache_cache_contents :
    MemoryConfig → Clock → Cache → ℕ → ℕ → List ℕ → Option ℕ × Cache
unfolding fill
cache_cache_contents config clocks cache pid page content =
    let processes = ensure_process pid cache.processes in
    let (chosen, cache') =
      lru config clocks (record cache { processes = processes }) (entries_of pid processes) in
    fill clocks cache' pid page content chosen

-- The loop of `cache_program_end`, and how often it lowers `cacheUseCount`.
unfoldable pub end_entries : ℕ → List CacheEntry → List CacheEntry
end_entries pid [] = []
end_entries pid (entry ∷ entries) =
    (if entry.pid == pid then record entry { pid = neg 1; page = neg 1 } else entry)
    ∷ end_entries pid entries

unfoldable pub count_entries : ℕ → List CacheEntry → ℕ
count_entries pid [] = 0
count_entries pid (entry ∷ entries) = to_nat (entry.pid == pid) + count_entries pid entries

unfoldable pub remove_process : ℕ → List ProcessEntries → List ProcessEntries
remove_process pid [] = []
remove_process pid (process ∷ processes) =
    if process.pid == pid then processes else process ∷ remove_process pid processes

unfoldable pub cache_program_end : Cache → ℕ → Cache
unfolding end_entries count_entries remove_process
cache_program_end cache pid = record cache {
  entries = end_entries pid cache.entries;
  processes = remove_process pid cache.processes;
  cache_use_count = (cache.cache_use_count + word - count_entries pid cache.entries % word) % word;
}

unfoldable pub flush_entries : ℕ → List CacheEntry → List CacheEntry
flush_entries frame_size [] = []
flush_entries frame_size (entry ∷ entries) =
    record { pid = neg 1; page = neg 1; content = replicate frame_size 0; last_access = 0 }
    ∷ flush_entries frame_size entries

unfoldable pub cache_flush : MemoryConfig → Cache → Cache
unfolding flush_entries
cache_flush config cache = record cache {
  entries = flush_entries config.frame_size cache.entries;
  processes = [];
  cache_use_count = 0;
}
