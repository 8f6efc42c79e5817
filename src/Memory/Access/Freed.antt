-- ===== src/Memory/Access/Freed.antt =====
-- A page that was freed while the cache holds it: `ram_free_page` of ram.c, then `memory_read`.
use socketapp.Common.{
  ℕ, suc, ◌+◌, ◌-◌, ◌≤◌, ◌<◌, ◌≡◌, ◌≢◌, ap, ◌∙◌, inl, inr, true, false, none, some, List, arith,
  neg, ltb, ◌==◌, get_elem?, take, drop, Option-cases,
}
use socketapp.Memory.Config.{MemoryConfig}
use socketapp.Memory.Ram.{Ram, ram_free_page, ram_frame_lookup}
use socketapp.Memory.Ram.Valid.{Maps}
use socketapp.Memory.Ram.Release.{ram_free_page-IsValid}
use socketapp.Memory.Cache.{Clock, cache_search}
use socketapp.Memory.Access.{Memory, done, current_page_size, read_page, read_loop, memory_read}
use socketapp.Memory.Access.Coherent.{contents, IsCoherent, read_page-contents}

module _ (config : MemoryConfig) (clocks : Clock) (hash : ℕ → ℕ → ℕ) where
  abbrev pub after_free : Memory → ℕ → ℕ → Memory
  after_free memory pid page = record memory { ram = (ram_free_page hash memory.ram pid page).1 }

  -- On a hit the frames do not matter.
  read_page-hit :
      (memory : Memory) (ram : Ram) (pid page : ℕ) {i : ℕ}
      → (cache_search clocks memory.cache pid page).0 ≡ some i
      → (read_page config clocks hash (record memory { ram = ram }) pid page).0
        ≡ (read_page config clocks hash memory pid page).0
  unfolding read_page
  read_page-hit memory ram pid page {i} hit =
      let searched = (cache_search clocks memory.cache pid page).1 in
      elim (Option-cases (get_elem? searched.entries i)) [
        | inl gone ↦ rw (hit, gone, read_page)
        | inr (entry, here) ↦ rw (hit, here, read_page)
      ]

  -- Over a coherent state, for a page that the process has and that the cache holds: after the page
  -- was freed it has no frame, and yet a read of some bytes within the page still answers the bytes
  -- that it held.
  pub memory_read-ram_free_page :
      (memory : Memory) (pid page offset size frame i : ℕ) (bytes : List ℕ)
      → IsCoherent config hash memory
      → pid ≢ neg 1
      → Maps memory.ram pid page frame
      → contents hash memory.ram pid page ≡ some bytes
      → (cache_search clocks memory.cache pid page).0 ≡ some i
      → 0 < size
      → offset + size ≤ config.frame_size
      → (ram_frame_lookup hash (after_free memory pid page).ram pid page ≡ none)
        × (memory' : Memory) × (memory_read config clocks hash
              (after_free memory pid page)
              pid
              page
              offset
              size
            ≡ (done (take size (drop offset bytes)), memory'))
  unfolding memory_read read_loop
  memory_read-ram_free_page memory pid page offset size frame i bytes v np own here hit pos inside =
      let free = (ram_free_page-IsValid pid page v.valid np hash).0 frame own in
      let ram = (ram_free_page hash memory.ram pid page).1 in
      let gone : ram_frame_lookup hash ram pid page ≡ none = rw (ap (λ x. x.1) (free.0)) (free.3) in
      let same =
        read_page-hit memory ram pid page {i = i} hit
        ∙ (read_page-contents config clocks hash memory pid page v np).0
        ∙ here in
      let rounds : size + 2 ≡ suc (suc size) = omega arith in
      let some_left : (size == 0) ≡ false = ground arith in
      let within : ltb config.frame_size offset ≡ false = ground arith in
      let whole : current_page_size config.frame_size offset size ≡ size = ground arith in
      let none_left : (size - size == 0) ≡ true = ground arith in
      (
        gone,
        (read_page config clocks hash (after_free memory pid page) pid page).1,
        rw (rounds, some_left, within, same, whole, none_left, read_loop) (rw whole),
      )
