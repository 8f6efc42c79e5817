-- ===== src/Memory/Cache/Filled.antt =====
-- An invariant of the cache under which there is always an entry for a page.
use socketapp.Common.{
  All, ℕ, zero, suc, ◌+◌, ◌≤◌, ◌<◌, ◌≡◌, ◌⊎◌, refl, sym, ◌∙◌, inl, inr, true, not, some, List, [],
  ◌∷◌, arith, neg, ◌==◌, get_elem?, set, length, length-set, to_nat, Bool-cases, subst,
}
use socketapp.Memory.Config.{MemoryConfig}
use socketapp.Memory.Cache.{ProcessEntries, CacheEntry, Cache, Clock, search_from}
use socketapp.Memory.Cache.Processes.{IsListed}
use socketapp.Memory.Cache.Lru.{any_entries, Inside}

-- What is asked of one entry: an unused one has page -1, and it was last used before any time.
abbrev pub IsUsual : Clock → CacheEntry → Type 0
IsUsual clocks entry =
    (entry.pid ≡ neg 1 → entry.page ≡ neg 1) × ((t : ℕ) → entry.last_access < clocks.time t)

-- How many entries are used.
abbrev pub used_entries : List CacheEntry → ℕ
used_entries [] = 0
used_entries (entry ∷ es) = to_nat (not (entry.pid == neg 1)) + used_entries es

-- The entry is unused, or its process is listed.
abbrev pub HasOwner : List ProcessEntries → CacheEntry → Type 0
HasOwner processes entry = (entry.pid ≡ neg 1) ⊎ IsListed entry.pid processes

-- The entries are counted in cacheUseCount, their processes are listed, and if any is used a process has one.
pub record Filled (config : MemoryConfig) (clocks : Clock) (cache : Cache) : Type 0 where
  pub size : length cache.entries ≡ config.cache_entry_count
  pub usual : All (IsUsual clocks) cache.entries
  pub use_count : cache.cache_use_count ≡ used_entries cache.entries
  pub inside : Inside (length cache.entries) cache.processes
  pub owned : All (HasOwner cache.processes) cache.entries
  pub any : (cache.cache_use_count ≡ 0) ⊎ (any_entries cache.processes ≡ true)

pub All-get :
    {A : Type 0} (P : A → Type 0) (xs : List A) (i : ℕ) {x : A}
    → All P xs
    → get_elem? xs i ≡ some x
    → P x
All-get P [] i h e = absurd (cc e)
All-get P (y ∷ xs) zero {x} (h, hs) e = let same : y ≡ x = cc e in subst P same h
All-get P (y ∷ xs) (suc i) {x} (h, hs) e = All-get P xs i {x = x} hs e

pub All-set :
    {A : Type 0} (P : A → Type 0) (xs : List A) (i : ℕ) (v : A)
    → All P xs
    → P v
    → All P (set xs i v)
All-set P [] i v h k = tt
All-set P (y ∷ xs) zero v (h, hs) k = (k, hs)
All-set P (y ∷ xs) (suc i) v (h, hs) k = (h, All-set P xs i v hs k)

pub used_entries-set :
    (es : List CacheEntry) (i : ℕ) (old new : CacheEntry)
    → get_elem? es i ≡ some old
    → used_entries (set es i new) + to_nat (not (old.pid == neg 1))
      ≡ used_entries es + to_nat (not (new.pid == neg 1))
used_entries-set [] i old new e = absurd (cc e)
used_entries-set (x ∷ es) zero old new e = let same : x ≡ old = cc e in rw same (omega arith)
used_entries-set (x ∷ es) (suc i) old new e = omega (arith, used_entries-set es i old new e)

pub used_entries-le-length : (es : List CacheEntry) → used_entries es ≤ length es
used_entries-le-length [] = omega arith
used_entries-le-length (x ∷ es) = ground (arith, used_entries-le-length es)

-- Where an entry is unused, the search for one finds one.
pub search_from-unused :
    (clocks : Clock) (es : List CacheEntry) (i : ℕ)
    → All (IsUsual clocks) es
    → used_entries es < length es
    → (k : ℕ) × (search_from (neg 1) (neg 1) i es ≡ some k)
unfolding search_from
search_from-unused clocks [] i h lt = absurd (omega arith)
search_from-unused clocks (x ∷ es) i (h, hs) lt = elim (Bool-cases (x.pid == neg 1)) [
  | inl unused ↦ let page : x.page ≡ neg 1 = h.0 (ground arith) in (i, ground arith)
  | inr used ↦
      let (k, found) = search_from-unused clocks es (i + 1) hs (ground arith) in
      (k, rw (used, search_from) found)
]

-- A change of an entry that leaves its page, and its time before any time.
pub set-Filled :
    (config : MemoryConfig) (clocks : Clock) (cache : Cache) (i ticks : ℕ) (old new : CacheEntry)
    → Filled config clocks cache
    → get_elem? cache.entries i ≡ some old
    → new.pid ≡ old.pid
    → IsUsual clocks new
    → Filled config clocks (record cache { entries = set cache.entries i new; ticks = ticks })
set-Filled config clocks cache i ticks old new h there same usual =
    let len = length-set cache.entries i new in
    let count = used_entries-set cache.entries i old new there in
    let same' : to_nat (not (new.pid == neg 1)) ≡ to_nat (not (old.pid == neg 1)) = rw same refl in
    record {
      size = len ∙ h.size;
      usual = All-set (IsUsual clocks) cache.entries i new h.usual usual;
      use_count = h.use_count ∙ omega (arith, count, same');
      inside = subst (λ n. Inside n cache.processes) (sym len) h.inside;
      owned = All-set (HasOwner cache.processes) cache.entries i new h.owned (
          subst (λ p. (p ≡ neg 1) ⊎ IsListed p cache.processes) (sym same)
            (All-get (HasOwner cache.processes) cache.entries i {x = old} h.owned there));
      any = h.any;
    }
