-- ===== src/Memory/Cache/Entries.antt =====
-- The entries of the page cache under the operations of cache.c.
use socketapp.Common.{
  ℕ, zero, suc, ◌+◌, ◌-◌, ◌≤◌, ◌<◌, ◌≡◌, refl, sym, ◌∙◌, inl, inr, Option, none, some, List, [],
  ◌∷◌, arith, neg, ltb, ◌==◌, get_elem?, set, length, lt_of_get_elem?, get_elem?-set_self,
  get_elem?-set_ne, length-set, Bool-cases, Option-cases,
}
use native.Mathlib.Decide.{ℕ_discrete}
use native.Mathlib.Nat.{sub_self}
use socketapp.Memory.Config.{MemoryConfig}
use socketapp.Memory.Cache.{
  CacheEntry, Cache, Clock, entry_is, search_from, touch, cache_search, lru, unused_entry, fill,
  take_over, ensure_process, entries_of, cache_cache_contents,
}

-- Every entry of `es'` is the entry of `es` at its index, but for the time of the last access.
abbrev pub Agrees : List CacheEntry → List CacheEntry → Type 0
Agrees es es' =
    (j : ℕ) (entry' : CacheEntry)
    → get_elem? es' j ≡ some entry'
    → (entry : CacheEntry) × (get_elem? es j ≡ some entry)
      × (entry'.pid ≡ entry.pid)
      × (entry'.page ≡ entry.page)
      × (entry'.content ≡ entry.content)

pub Agrees-refl : (es : List CacheEntry) → Agrees es es
Agrees-refl es j entry get = (entry, get, refl, refl, refl)

pub set-Agrees :
    (es : List CacheEntry) (i : ℕ) (old new : CacheEntry)
    → get_elem? es i ≡ some old
    → new.pid ≡ old.pid
    → new.page ≡ old.page
    → new.content ≡ old.content
    → Agrees es (set es i new)
set-Agrees es i old new here p q c j entry' get = elim (ℕ_discrete i j) [
  | yes same ↦
      let written = get_elem?-set_self es i new (lt_of_get_elem? es i here) in
      let e : entry' ≡ new = ground arith in (old, rw (← same) here, rw e p, rw e q, rw e c)
  | no ne ↦ (entry', sym (get_elem?-set_ne es i j new ne) ∙ get, refl, refl, refl)
]

touch_of_none : (es : List CacheEntry) (i now : ℕ) → get_elem? es i ≡ none → touch es i now ≡ es
touch_of_none es i now e = ground arith

touch_of_some :
    (es : List CacheEntry) (i now : ℕ) (entry : CacheEntry)
    → get_elem? es i ≡ some entry
    → touch es i now ≡ set es i (record entry { last_access = now })
touch_of_some es i now entry e = ground arith

pub touch-Agrees : (es : List CacheEntry) (i now : ℕ) → Agrees es (touch es i now)
touch-Agrees es i now = elim (Option-cases (get_elem? es i)) [
  | inl e ↦ rw (touch_of_none es i now e) (Agrees-refl es)
  | inr (entry, e) ↦
      rw (touch_of_some es i now entry e)
        (set-Agrees es i entry (record entry { last_access = now }) e refl refl refl)
]

pub search_from-finds :
    (pid page i : ℕ) (es : List CacheEntry) {k : ℕ}
    → search_from pid page i es ≡ some k
    → (i ≤ k)
      × (entry : CacheEntry) × (get_elem? es (k - i) ≡ some entry)
      × (entry.pid ≡ pid)
      × (entry.page ≡ page)
unfolding search_from
search_from-finds pid page i [] e = absurd (ground arith)
search_from-finds pid page i (x ∷ es) {k} e = elim (Bool-cases (entry_is pid page x)) [
  | inl hit ↦
      let here : k ≡ i = ground arith in
      (omega arith, x, rw (here, sub_self) refl, ground arith, ground arith)
  | inr miss ↦
      let (le, entry, get, p, q) = search_from-finds pid page (i + 1) es {k = k} (ground arith) in
      let e' : k - i ≡ suc (k - (i + 1)) = omega arith in (omega arith, entry, rw e' get, p, q)
]

pub search_from-none :
    (pid page i : ℕ) (es : List CacheEntry) (k : ℕ) (entry : CacheEntry)
    → search_from pid page i es ≡ none
    → get_elem? es k ≡ some entry
    → ¬ ((entry.pid ≡ pid) × (entry.page ≡ page))
unfolding search_from
search_from-none pid page i [] k entry e get = absurd (ground arith)
search_from-none pid page i (x ∷ es) zero entry e get = λ h. ground arith
search_from-none pid page i (x ∷ es) (suc k) entry e get =
    search_from-none pid page (i + 1) es k entry (ground arith) get

pub length-touch : (es : List CacheEntry) (i now : ℕ) → length (touch es i now) ≡ length es
length-touch es i now = elim (Option-cases (get_elem? es i)) [
  | inl e ↦ rw (touch_of_none es i now e)
  | inr (entry, e) ↦ rw (touch_of_some es i now entry e) (length-set es i _)
]

module _ (clocks : Clock) (cache : Cache) (pid page : ℕ) where
  -- A search changes nothing but the time of the last access.
  pub cache_search-Agrees : Agrees cache.entries (cache_search clocks cache pid page).1.entries
  unfolding cache_search
  cache_search-Agrees = elim (Option-cases (search_from pid page 0 cache.entries)) [
    | inl e ↦ rw (e, cache_search) (Agrees-refl cache.entries)
    | inr (i, e) ↦ rw (e, cache_search) (touch-Agrees cache.entries i (clocks.clock cache.ticks))
  ]

  pub length-cache_search :
      length (cache_search clocks cache pid page).1.entries ≡ length cache.entries
  unfolding cache_search
  length-cache_search = elim (Option-cases (search_from pid page 0 cache.entries)) [
    | inl e ↦ rw (e, cache_search)
    | inr (i, e) ↦ rw (e, cache_search) (length-touch cache.entries i (clocks.clock cache.ticks))
  ]

  pub cache_search-hit :
      {i : ℕ}
      → (cache_search clocks cache pid page).0 ≡ some i
      → (entry : CacheEntry) × (get_elem? cache.entries i ≡ some entry)
        × (entry.pid ≡ pid)
        × (entry.page ≡ page)
  unfolding cache_search
  cache_search-hit {i} e =
      let found : search_from pid page 0 cache.entries ≡ some i = ground arith in
      let (_, entry, get, p, q) = search_from-finds pid page 0 cache.entries found in
      let back : i - 0 ≡ i = omega arith in (entry, rw back at get, p, q)

  pub cache_search-miss :
      (k : ℕ) (entry : CacheEntry)
      → (cache_search clocks cache pid page).0 ≡ none
      → get_elem? cache.entries k ≡ some entry
      → ¬ ((entry.pid ≡ pid) × (entry.page ≡ page))
  unfolding cache_search
  cache_search-miss k entry e get =
      search_from-none pid page 0 cache.entries k entry (ground arith) get

module _ (config : MemoryConfig) (clocks : Clock) (cache : Cache) where
  lru-Agrees : (mine : List ℕ) → Agrees cache.entries (lru config clocks cache mine).1.entries
  unfolding lru unused_entry
  lru-Agrees mine = elim (Bool-cases (length mine == config.cache_per_process)) [
    | inl e ↦ rw (e, lru) (Agrees-refl cache.entries)
    | inr e ↦ elim (Bool-cases (ltb cache.cache_use_count config.cache_entry_count)) [
      | inl room ↦ rw (e, room, lru) (cache_search-Agrees clocks cache (neg 1) (neg 1))
      | inr full ↦ rw (e, full, lru) (Agrees-refl cache.entries)
    ]
  ]

-- What caching a page does to the entries: nothing, or it puts the page into one of them.
pub record Cached (cache : Cache) (pid page : ℕ) (content : List ℕ) (chosen : Option ℕ)
    (cache' : Cache) : Type 0 where
  pub before : List CacheEntry
  pub agrees : Agrees cache.entries before
  pub unchanged : chosen ≡ none → cache'.entries ≡ before
  pub replaced :
      (i : ℕ)
      → chosen ≡ some i
      → (now : ℕ) × (i < length before)
        × (cache'.entries
            ≡ set before i
                (record { pid = pid; page = page; content = content; last_access = now }))

fill-Cached :
    (clocks : Clock) (old cache : Cache) (pid page : ℕ) (content : List ℕ) (chosen : Option ℕ)
    → Agrees old.entries cache.entries
    → let (entry, cache') = fill clocks cache pid page content chosen in
      Cached old pid page content entry cache'
unfolding fill
fill-Cached clocks old cache pid page content none kept = record {
  before = cache.entries;
  agrees = kept;
  unchanged = λ e. refl;
  replaced = λ i e. absurd (ground arith);
}
fill-Cached clocks old cache pid page content (some i) kept =
    elim (Option-cases (get_elem? cache.entries i)) [
      | inl out ↦
          rw (out, fill)
            (record {
              before = cache.entries;
              agrees = kept;
              unchanged = λ e. refl;
              replaced = λ i e. absurd (ground arith);
            })
      | inr (entry, get) ↦ elim (Option-cases (take_over cache pid i entry)) [
        | inl lost ↦
            rw (get, lost, fill)
              (record {
                before = cache.entries;
                agrees = kept;
                unchanged = λ e. refl;
                replaced = λ i e. absurd (ground arith);
              })
        | inr (owned, now) ↦
            rw (get, now, fill)
              (record {
                before = cache.entries;
                agrees = kept;
                unchanged = λ e. absurd (ground arith);
                replaced = λ j e.
                    let same : i ≡ j = ground arith in
                    (
                      clocks.clock cache.ticks,
                      rw (← same) (lt_of_get_elem? cache.entries i get),
                      rw same,
                    );
              })
      ]
    ]

pub cache_cache_contents-Cached :
    (config : MemoryConfig) (clocks : Clock) (cache : Cache) (pid page : ℕ) (content : List ℕ)
    → let (chosen, cache') = cache_cache_contents config clocks cache pid page content in
      Cached cache pid page content chosen cache'
unfolding cache_cache_contents
cache_cache_contents-Cached config clocks cache pid page content =
    let processes = ensure_process pid cache.processes in
    let started : Cache = record cache { processes = processes } in
    let mine = entries_of pid processes in
    fill-Cached clocks cache (lru config clocks started mine).1 pid page content
      (lru config clocks started mine).0 (lru-Agrees config clocks started mine)
