-- ===== src/Memory/Access/Coherent.antt =====
-- What a page of a process holds, and when the page cache of Memory agrees with the frames.
use socketapp.Common.{
  ℕ, ◌≡◌, ◌≢◌, ◌⊎◌, refl, sym, ◌∙◌, inl, inr, Option, none, some, List, subst, arith, neg,
  get_elem?, set, length, get_elem?_of_lt, lt_of_get_elem?, get_elem?-set-cases, Option-cases,
}
use socketapp.Memory.Config.{MemoryConfig}
use socketapp.Memory.Ram.{Ram, ram_frame_lookup}
use socketapp.Memory.Ram.Valid.{IsValid}
use socketapp.Memory.Cache.{CacheEntry, Cache, Clock, cache_search}
use socketapp.Memory.Cache.Entries.{
  Agrees, cache_search-Agrees, length-cache_search, cache_search-hit, cache_search-miss, Cached,
  cache_cache_contents-Cached,
}
use socketapp.Memory.Access.{Memory, read_page}

-- The bytes of a page of a process in RAM; `none` if the process does not have the page.
abbrev pub contents : (ℕ → ℕ → ℕ) → Ram → ℕ → ℕ → Option (List ℕ)
contents hash ram pid page = elim (ram_frame_lookup hash ram pid page) [
  | none ↦ none
  | some frame ↦ get_elem? ram.frames frame
]

-- Every used entry holds what its page holds, and no page has two entries.
pub record AgreesWithRam (hash : ℕ → ℕ → ℕ) (ram : Ram) (es : List CacheEntry) : Type 0 where
  pub cached :
      (i : ℕ) (entry : CacheEntry)
      → get_elem? es i ≡ some entry
      → entry.pid ≢ neg 1
      → contents hash ram entry.pid entry.page ≡ some entry.content
  pub unique :
      (i j : ℕ) (e e' : CacheEntry)
      → get_elem? es i ≡ some e
      → get_elem? es j ≡ some e'
      → e.pid ≢ neg 1
      → e.pid ≡ e'.pid
      → e.page ≡ e'.page
      → i ≡ j

-- The state of Memory between requests.
pub record IsCoherent (config : MemoryConfig) (hash : ℕ → ℕ → ℕ) (memory : Memory) : Type 0 where
  pub valid : IsValid memory.ram
  pub sized :
      (i : ℕ) (frame : List ℕ)
      → get_elem? memory.ram.frames i ≡ some frame
      → length frame ≡ config.frame_size
  pub agrees : AgreesWithRam hash memory.ram memory.cache.entries

pub Agrees-AgreesWithRam :
    (hash : ℕ → ℕ → ℕ) (ram : Ram) (es es' : List CacheEntry)
    → Agrees es es'
    → AgreesWithRam hash ram es
    → AgreesWithRam hash ram es'
Agrees-AgreesWithRam hash ram es es' kept a = record {
  cached = λ i e get np.
      let (old, get', p, q, c) = kept i e get in
      rw (p, q, c) (a.cached i old get' (λ z. np (p ∙ z)));
  unique = λ i j e f get get' np p q.
      let (old, g, p₁, q₁, _) = kept i e get in
      let (old', g', p₂, q₂, _) = kept j f get' in
      a.unique i j old old' g g' (λ z. np (p₁ ∙ z)) (cc) (cc);
}

abbrev pub IsAbsent : List CacheEntry → ℕ → ℕ → Type 0
IsAbsent es pid page =
    (k : ℕ) (entry : CacheEntry)
    → get_elem? es k ≡ some entry
    → ¬ ((entry.pid ≡ pid) × (entry.page ≡ page))

pub Agrees-IsAbsent :
    (es es' : List CacheEntry) (pid page : ℕ)
    → Agrees es es'
    → IsAbsent es pid page
    → IsAbsent es' pid page
Agrees-IsAbsent es es' pid page kept absent k entry get h =
    let (old, get', p, q, _) = kept k entry get in
    absurd (absent k old get' (sym p ∙ h.0, sym q ∙ h.1))

set-AgreesWithRam :
    (hash : ℕ → ℕ → ℕ) (ram : Ram) (es : List CacheEntry) (i : ℕ) (new : CacheEntry)
    → AgreesWithRam hash ram es
    → contents hash ram new.pid new.page ≡ some new.content
    → IsAbsent es new.pid new.page
    → AgreesWithRam hash ram (set es i new)
set-AgreesWithRam hash ram es i new a holds absent = record {
  cached = λ j e get np. elim (get_elem?-set-cases es i j new e get) [
    | inl (_, same) ↦ rw same holds
    | inr (_, get') ↦ a.cached j e get' np
  ];
  unique = λ j k e f get get' np p q.
      pick j k e f np p q (get_elem?-set-cases es i j new e get)
        (get_elem?-set-cases es i k new f get');
}
  where
    pick :
        (j k : ℕ) (e f : CacheEntry)
        → e.pid ≢ neg 1
        → e.pid ≡ f.pid
        → e.page ≡ f.page
        → ((i ≡ j) × (e ≡ new)) ⊎ ((i ≢ j) × (get_elem? es j ≡ some e))
        → ((i ≡ k) × (f ≡ new)) ⊎ ((i ≢ k) × (get_elem? es k ≡ some f))
        → j ≡ k
    pick j k e f np p q (inl (x, _)) (inl (y, _)) = sym x ∙ y
    pick j k e f np p q (inl (_, same)) (inr (_, g)) = absurd (absent k f g (cc, cc))
    pick j k e f np p q (inr (_, g)) (inl (_, same)) = absurd (absent j e g (cc, cc))
    pick j k e f np p q (inr (_, g)) (inr (_, g')) = a.unique j k e f g g' np p q

-- A page that is not cached passes into the cache.
pub Cached-AgreesWithRam :
    (hash : ℕ → ℕ → ℕ) (ram : Ram) (cache : Cache) (pid page : ℕ) (content : List ℕ)
    (chosen : Option ℕ) (cache' : Cache)
    → Cached cache pid page content chosen cache'
    → AgreesWithRam hash ram cache.entries
    → contents hash ram pid page ≡ some content
    → IsAbsent cache.entries pid page
    → AgreesWithRam hash ram cache'.entries
Cached-AgreesWithRam hash ram cache pid page content none cache' did a holds absent =
    rw (did.unchanged refl) (Agrees-AgreesWithRam hash ram cache.entries did.before did.agrees a)
Cached-AgreesWithRam hash ram cache pid page content (some i) cache' did a holds absent =
    let (now, lt, e) = did.replaced i refl in
    rw e (
      set-AgreesWithRam hash ram did.before i
        (record { pid = pid; page = page; content = content; last_access = now })
        (Agrees-AgreesWithRam hash ram cache.entries did.before did.agrees a) holds
        (Agrees-IsAbsent cache.entries did.before pid page did.agrees absent))

pub contents_of_some :
    (hash : ℕ → ℕ → ℕ) (ram : Ram) (pid page : ℕ) {i : ℕ}
    → ram_frame_lookup hash ram pid page ≡ some i
    → contents hash ram pid page ≡ get_elem? ram.frames i
contents_of_some hash ram pid page e = ground arith

pub contents_of_none :
    (hash : ℕ → ℕ → ℕ) (ram : Ram) (pid page : ℕ)
    → ram_frame_lookup hash ram pid page ≡ none
    → contents hash ram pid page ≡ none
contents_of_none hash ram pid page e = ground arith

-- A page has the size of a frame.
pub contents-length :
    (config : MemoryConfig) (hash : ℕ → ℕ → ℕ) (memory : Memory) (pid page : ℕ) {bytes : List ℕ}
    → IsCoherent config hash memory
    → contents hash memory.ram pid page ≡ some bytes
    → length bytes ≡ config.frame_size
contents-length config hash memory pid page {bytes} v e =
    elim (Option-cases (ram_frame_lookup hash memory.ram pid page)) [
      | inl gone ↦ absurd (cc (e, contents_of_none hash memory.ram pid page gone))
      | inr (i, found) ↦ v.sized i bytes (sym (contents_of_some hash memory.ram pid page found) ∙ e)
    ]

-- With RAM as it was and a cache that agrees with it, the state is one between requests again.
pub IsCoherent-kept :
    (config : MemoryConfig) (hash : ℕ → ℕ → ℕ) (memory memory' : Memory)
    → IsCoherent config hash memory
    → memory'.ram ≡ memory.ram
    → AgreesWithRam hash memory.ram memory'.cache.entries
    → IsCoherent config hash memory'
IsCoherent-kept config hash memory memory' v e a = record {
  valid = subst IsValid (sym e) v.valid;
  sized =
      λ i frame get. v.sized i frame (subst (λ (r : Ram). get_elem? r.frames i ≡ some frame) e get);
  agrees = subst (λ r. AgreesWithRam hash r memory'.cache.entries) (sym e) a;
}

module _ (config : MemoryConfig) (clocks : Clock) (hash : ℕ → ℕ → ℕ) (memory : Memory)
    (pid page : ℕ) (v : IsCoherent config hash memory) (np : pid ≢ neg 1) where
  -- A round of a read: the bytes are those of the page in RAM whether they come from the cache or
  -- not, RAM stays as it is, and the cache goes on agreeing with it.
  pub read_page-contents :
      let (content, memory') = read_page config clocks hash memory pid page in
      (content ≡ contents hash memory.ram pid page)
      × (memory'.ram ≡ memory.ram)
      × AgreesWithRam hash memory.ram memory'.cache.entries
  unfolding read_page
  read_page-contents =
      let searched = (cache_search clocks memory.cache pid page).1 in
      let kept =
        Agrees-AgreesWithRam hash memory.ram memory.cache.entries searched.entries
          (cache_search-Agrees clocks memory.cache pid page) v.agrees in
      elim (Option-cases (cache_search clocks memory.cache pid page).0) [
        | inr (i, e) ↦
            let (old, here, p, q) = cache_search-hit clocks memory.cache pid page e in
            let (entry, get) =
              get_elem?_of_lt searched.entries i
                (rw length-cache_search (lt_of_get_elem? memory.cache.entries i here)) in
            let (old', here', p', q', c) =
              cache_search-Agrees clocks memory.cache pid page i entry get in
            let p'' : entry.pid ≡ pid = ground arith in
            let q'' : entry.page ≡ page = ground arith in
            let holds = kept.cached i entry get (λ z. np (sym p'' ∙ z)) in
            rw (e, get, read_page) (rw (p'', q'') at (sym holds), refl, kept)
        | inl e ↦ elim (Option-cases (ram_frame_lookup hash memory.ram pid page)) [
          | inl gone ↦
              rw (e, gone, read_page)
                (sym (contents_of_none hash memory.ram pid page gone), refl, kept)
          | inr (frame, found) ↦ elim (Option-cases (get_elem? memory.ram.frames frame)) [
            | inl out ↦
                rw (e, found, out, read_page)
                  (sym (contents_of_some hash memory.ram pid page found ∙ out), refl, kept)
            | inr (bytes, get) ↦
                let holds = contents_of_some hash memory.ram pid page found ∙ get in
                rw (e, found, get, read_page)
                  (
                    sym holds,
                    refl,
                    Cached-AgreesWithRam hash memory.ram searched pid page bytes _ _
                        (cache_cache_contents-Cached config clocks searched pid page bytes) kept
                        holds
                        (Agrees-IsAbsent memory.cache.entries searched.entries pid page
                          (cache_search-Agrees clocks memory.cache pid page)
                          (λ k entry get'.
                            cache_search-miss clocks memory.cache pid page k entry e get')),
                  )
          ]
        ]
      ]
