-- ===== src/Memory/Access/Read.antt =====
-- `memory_read` of memory.c against the bytes of the pages.
use socketapp.Common.{
  ℕ, zero, suc, ◌+◌, ◌-◌, ◌%◌, ◌≤◌, ◌<◌, ◌≡◌, ◌≢◌, refl, sym, ap, ◌∙◌, false, none, some, List, [],
  ◌++◌, subst, arith, word, neg, ltb, ◌==◌, length, length-append, take, drop, append-nil,
  append_assoc,
}
use native.Mathlib.Nat.{mod-eq_of_lt}
use socketapp.Memory.Config.{MemoryConfig}
use socketapp.Memory.Ram.{Ram}
use socketapp.Memory.Cache.{Clock}
use socketapp.Memory.Access.{
  Memory, done, no_page, current_page_size, read_page, read_loop, memory_read,
}
use socketapp.Memory.Access.Coherent.{
  contents, IsCoherent, IsCoherent-kept, contents-length, read_page-contents,
}
use socketapp.Memory.Access.Pages.{pages, pages_split, pieces}

-- The state that a read leaves: RAM as it was, and a cache that agrees with it.
pub record Undisturbed (config : MemoryConfig) (hash : ℕ → ℕ → ℕ) (memory memory' : Memory)
    : Type 0 where
  pub ram : memory'.ram ≡ memory.ram
  pub coherent : IsCoherent config hash memory'

module _ (config : MemoryConfig) (clocks : Clock) (hash : ℕ → ℕ → ℕ) (pid : ℕ)
    (np : pid ≢ neg 1) where
  -- One round of the read loop at a page that is there.
  read_loop-step :
      (fuel page offset size : ℕ) (memory : Memory) (buffer bytes : List ℕ)
      → IsCoherent config hash memory
      → 0 < size
      → offset ≤ config.frame_size
      → contents hash memory.ram pid page ≡ some bytes
      → let n = current_page_size config.frame_size offset size in
        (memory' : Memory) × Undisturbed config hash memory memory'
        × (read_loop config clocks hash (suc fuel) memory pid page offset size buffer
            ≡ read_loop config clocks hash fuel memory' pid
                ((page + 1) % word)
                0
                (size - n)
                (buffer ++ take n (drop offset bytes)))
  unfolding read_loop
  read_loop-step fuel page offset size memory buffer bytes v pos inside here =
      let (same, ram, agrees) = read_page-contents config clocks hash memory pid page v np in
      let e₁ : (size == 0) ≡ false = ground arith in
      let e₂ : ltb config.frame_size offset ≡ false = ground arith in
      (
        (read_page config clocks hash memory pid page).1,
        record { ram = ram; coherent = IsCoherent-kept config hash memory _ v ram agrees },
        rw (e₁, e₂, same ∙ here, read_loop),
      )

  Undisturbed-trans :
      (m₁ m₂ m₃ : Memory)
      → Undisturbed config hash m₁ m₂
      → Undisturbed config hash m₂ m₃
      → Undisturbed config hash m₁ m₃
  Undisturbed-trans m₁ m₂ m₃ u w = record { ram = w.ram ∙ u.ram; coherent = w.coherent }

  read_loop-pages :
      (n fuel page offset size : ℕ) (memory : Memory) (buffer all : List ℕ)
      → IsCoherent config hash memory
      → page + n < word
      → offset < config.frame_size
      → size < fuel
      → pages (contents hash memory.ram pid) page n ≡ some all
      → offset + size ≤ length all
      → (memory' : Memory) × Undisturbed config hash memory memory'
        × (read_loop config clocks hash fuel memory pid page offset size buffer
            ≡ (done (buffer ++ take size (drop offset all)), memory'))
  unfolding read_loop
  read_loop-pages n zero page offset size memory buffer all v small inside lt here fits =
      absurd (omega arith)
  read_loop-pages n (suc fuel) page offset zero memory buffer all v small inside lt here fits =
      (memory, record { ram = refl; coherent = v }, rw append-nil)
  read_loop-pages zero (suc fuel) page offset (suc size) memory buffer all v small inside lt here
        fits =
      let e : all ≡ [] = ground arith in
      let e' : length all ≡ 0 = ap length e in absurd (omega arith)
  read_loop-pages (suc n) (suc fuel) page offset (suc size) memory buffer all v small inside lt here
        fits =
      let (bytes, rest, first, others, e) =
        pages_split (contents hash memory.ram pid) page n here in
      let sized = contents-length config hash memory pid page v first in
      let k = current_page_size config.frame_size offset (suc size) in
      let some_bytes : 0 < k = ground arith in
      let (mid, u, step) =
        read_loop-step fuel page offset (suc size) memory buffer bytes v (omega arith) (omega arith)
          first in
      let both : length all ≡ length bytes + length rest = rw e (length-append bytes rest) in
      let (memory', w, run) =
        read_loop-pages n fuel (page + 1) 0 (suc size - k) mid
          (buffer ++ take k (drop offset bytes)) rest u.coherent (omega arith) (omega arith)
          (omega arith)
          (subst (λ (m : Ram). pages (contents hash m pid) (page + 1) n ≡ some rest) (sym u.ram)
            others)
          (ground arith) in
      let wrap : (page + 1) % word ≡ page + 1 = mod-eq_of_lt (omega arith) in
      let whole : take k (drop offset bytes) ++ take (suc size - k) rest
          ≡ take (suc size) (drop offset all) =
        rw e (pieces config.frame_size offset (suc size) bytes rest sized (omega arith)) in
      (
        memory',
        Undisturbed-trans memory mid memory' u w,
        step
            ∙ rw wrap (
                run
                ∙ ap (λ l. (done l, memory'))
                    (append_assoc buffer _ _ ∙ ap (λ l. buffer ++ l) whole)),
      )

  -- One round at a page that is not there ends the loop.
  read_loop-gone :
      (fuel page offset size : ℕ) (memory : Memory) (buffer : List ℕ)
      → IsCoherent config hash memory
      → 0 < size
      → offset ≤ config.frame_size
      → contents hash memory.ram pid page ≡ none
      → (memory' : Memory) × Undisturbed config hash memory memory'
        × (read_loop config clocks hash (suc fuel) memory pid page offset size buffer
            ≡ (no_page, memory'))
  unfolding read_loop
  read_loop-gone fuel page offset size memory buffer v pos inside gone =
      let (same, ram, agrees) = read_page-contents config clocks hash memory pid page v np in
      let e₁ : (size == 0) ≡ false = ground arith in
      let e₂ : ltb config.frame_size offset ≡ false = ground arith in
      (
        (read_page config clocks hash memory pid page).1,
        record { ram = ram; coherent = IsCoherent-kept config hash memory _ v ram agrees },
        rw (e₁, e₂, same ∙ gone, read_loop),
      )

  read_loop-no_page :
      (n fuel page offset size : ℕ) (memory : Memory) (buffer all : List ℕ)
      → IsCoherent config hash memory
      → page + n < word
      → offset < config.frame_size
      → size < fuel
      → 0 < size
      → pages (contents hash memory.ram pid) page n ≡ some all
      → contents hash memory.ram pid (page + n) ≡ none
      → length all < offset + size
      → (memory' : Memory) × Undisturbed config hash memory memory'
        × (read_loop config clocks hash fuel memory pid page offset size buffer
            ≡ (no_page, memory'))
  unfolding read_loop
  read_loop-no_page n zero page offset size memory buffer all v small inside lt pos here gone
        short =
      absurd (omega arith)
  read_loop-no_page zero (suc fuel) page offset size memory buffer all v small inside lt pos here
        gone short =
      let e : page + 0 ≡ page = omega arith in
      read_loop-gone fuel page offset size memory buffer v pos (omega arith) (rw e at gone)
  read_loop-no_page (suc n) (suc fuel) page offset size memory buffer all v small inside lt pos here
        gone short =
      let (bytes, rest, first, others, e) =
        pages_split (contents hash memory.ram pid) page n here in
      let sized = contents-length config hash memory pid page v first in
      let k = current_page_size config.frame_size offset size in
      let (mid, u, step) =
        read_loop-step fuel page offset size memory buffer bytes v pos (omega arith) first in
      let both : length all ≡ length bytes + length rest = ap length e ∙ length-append bytes rest in
      let some_bytes : (0 < k) × (k < size) × (length rest < size - k) = ground arith in
      let next : page + suc n ≡ page + 1 + n = omega arith in
      let (memory', w, run) =
        read_loop-no_page n fuel (page + 1) 0 (size - k) mid (buffer ++ take k (drop offset bytes))
          rest u.coherent (omega arith) (omega arith) (omega arith) (omega arith)
          (subst (λ (m : Ram). pages (contents hash m pid) (page + 1) n ≡ some rest) (sym u.ram)
            others)
          (subst (λ (m : Ram). contents hash m pid (page + 1 + n) ≡ none) (sym u.ram)
            (rw next at gone))
          (omega arith) in
      let wrap : (page + 1) % word ≡ page + 1 = mod-eq_of_lt (omega arith) in
      (memory', Undisturbed-trans memory mid memory' u w, step ∙ rw wrap run)

  -- Reading through the cache is reading RAM. Over a coherent state, for a process whose `n` pages
  -- from `page` on are there and hold `all`: a request for `size` bytes from `offset` on, which
  -- starts in the first page and ends within them, ends and answers exactly the bytes of `all` at
  -- `offset`, in order, over every boundary of a page; RAM stays as it was, and the state is
  -- coherent again.
  pub memory_read-pages :
      (memory : Memory) (n page offset size : ℕ) (all : List ℕ)
      → IsCoherent config hash memory
      → page + n < word
      → offset < config.frame_size
      → pages (contents hash memory.ram pid) page n ≡ some all
      → offset + size ≤ length all
      → (memory' : Memory) × Undisturbed config hash memory memory'
        × (memory_read config clocks hash memory pid page offset size
            ≡ (done (take size (drop offset all)), memory'))
  unfolding memory_read
  memory_read-pages memory n page offset size all v small inside here fits =
      read_loop-pages n (size + 2) page offset size memory [] all v small inside (omega arith) here
        fits

  -- Over a coherent state, where the cache holds no page that is missing: if the request reaches behind the
  -- `n` pages that are there and the next one is missing, it ends and answers NULL; RAM stays, and the state
  -- is coherent again.
  pub memory_read-no_page :
      (memory : Memory) (n page offset size : ℕ) (all : List ℕ)
      → IsCoherent config hash memory
      → page + n < word
      → offset < config.frame_size
      → 0 < size
      → pages (contents hash memory.ram pid) page n ≡ some all
      → contents hash memory.ram pid (page + n) ≡ none
      → length all < offset + size
      → (memory' : Memory) × Undisturbed config hash memory memory'
        × (memory_read config clocks hash memory pid page offset size ≡ (no_page, memory'))
  unfolding memory_read
  memory_read-no_page memory n page offset size all v small inside pos here gone short =
      read_loop-no_page n (size + 2) page offset size memory [] all v small inside (omega arith) pos
        here gone short
