-- ===== src/Memory/Access.antt =====
-- Memory/src/functions/memory.c: reads and writes of a process's pages, through the cache.
-- Offsets and sizes are the non-negative values of their `int`s.
pub mod Coherent
pub mod Pages
pub mod Read
pub mod Round
pub mod WritePage
pub mod Write
pub mod Filling
pub mod Freed
use socketapp.Common.{
  ℕ, zero, suc, ◌+◌, ◌-◌, ◌%◌, Bool, true, false, Option, none, some, List, [], ◌++◌, word, neg,
  ltb, ◌==◌, if◌then◌else◌, get_elem?, set, take, drop, length, patch,
}
use socketapp.Memory.Config.{MemoryConfig}
use socketapp.Memory.Ram.{Ram, ram_init, ram_frame_lookup, ram_program_end}
use socketapp.Memory.Cache.{
  CacheEntry, Cache, Clock, cache_init, cache_search, cache_cache_contents, cache_program_end,
}

pub record Memory : Type 0 where
  pub ram : Ram
  pub cache : Cache

-- How a request ends: with its result; at a page that the process does not have; in undefined
-- behaviour; at a failed assertion; or never.
pub data Access {ℓ} (A : Type ℓ) : Type ℓ where
  done : A → Access A
  no_page : Access A
  undefined : Access A
  aborted : Access A
  diverges : Access A

unfoldable pub memory_init : MemoryConfig → List (List ℕ) → List (List ℕ) → Memory
memory_init config ram_block cache_block = record {
  ram = ram_init config ram_block;
  cache = cache_init cache_block;
}

unfoldable pub program_end : Memory → ℕ → Memory
program_end memory pid = record {
  ram = ram_program_end memory.ram pid;
  cache = cache_program_end memory.cache pid;
}

-- `currentPageSize`
abbrev pub current_page_size : ℕ → ℕ → ℕ → ℕ
current_page_size frame_size offset size =
    if ltb size (frame_size - offset) then size else frame_size - offset

-- `memcpy` through a pointer to an entry, `offset` bytes on.
abbrev pub patch_entry : List CacheEntry → ℕ → ℕ → List ℕ → List CacheEntry
patch_entry entries i offset bytes = elim (get_elem? entries i) [
  | none ↦ entries
  | some entry ↦ set entries i (record entry { content = patch entry.content offset bytes })
]

abbrev pub patch_frame : List (List ℕ) → ℕ → ℕ → List ℕ → List (List ℕ)
patch_frame frames i offset bytes = elim (get_elem? frames i) [
  | none ↦ frames
  | some frame ↦ set frames i (patch frame offset bytes)
]

module _ (config : MemoryConfig) (clocks : Clock) (hash : ℕ → ℕ → ℕ) where
  -- One round of `memory_read`: the bytes of the page, from the cache or, if they are not there,
  -- from the frame, which is then cached.
  unfoldable pub read_page : Memory → ℕ → ℕ → Option (List ℕ) × Memory
  read_page memory pid page =
      let (hit, searched) = cache_search clocks memory.cache pid page in
      elim hit [
        | some i ↦ elim (get_elem? searched.entries i) [
          | some entry ↦ (some entry.content, record memory { cache = searched })
          | none ↦ (none, record memory { cache = searched })
        ]
        | none ↦ elim (ram_frame_lookup hash memory.ram pid page) [
          | none ↦ (none, record memory { cache = searched })
          | some frame ↦ elim (get_elem? memory.ram.frames frame) [
            | none ↦ (none, record memory { cache = searched })
            | some bytes ↦
                let (_, cached) = cache_cache_contents config clocks searched pid page bytes in
                (some bytes, record memory { cache = cached })
          ]
        ]
      ]

  -- The `while` loop; `buffer` is what was copied so far.
  unfoldable pub read_loop : ℕ → Memory → ℕ → ℕ → ℕ → ℕ → List ℕ → Access (List ℕ) × Memory
  read_loop zero memory pid page offset size buffer = (diverges, memory)
  read_loop (suc fuel) memory pid page offset size buffer = elim (size == 0) [
    | true ↦ (done buffer, memory)
    | false ↦ elim (ltb config.frame_size offset) [
      | true ↦ (undefined, memory)
      | false ↦
          let n = current_page_size config.frame_size offset size in
          let (content, memory') = read_page memory pid page in
          elim content [
            | none ↦ (no_page, memory')
            | some bytes ↦
                read_loop fuel memory' pid ((page + 1) % word) 0 (size - n)
                  (buffer ++ take n (drop offset bytes))
          ]
    ]
  ]

  -- The rounds: one for each byte at most, one with no byte at the end of a page, and the last test.
  unfoldable pub memory_read : Memory → ℕ → ℕ → ℕ → ℕ → Access (List ℕ) × Memory
  memory_read memory pid page offset size = read_loop (size + 2) memory pid page offset size []

  -- One round of `memory_write` on page `page`: the cached copy and the frame get the bytes.
  unfoldable pub write_page : Memory → ℕ → ℕ → ℕ → List ℕ → Access (Unit {0}) × Memory
  write_page memory pid page offset bytes = elim (ram_frame_lookup hash memory.ram pid page) [
    | none ↦ (no_page, memory)
    | some frame ↦
        let written = record memory.ram {
          frames = patch_frame memory.ram.frames frame offset bytes;
        } in
        let (hit, searched) = cache_search clocks memory.cache pid page in
        elim hit [
          | some i ↦ (
            done tt,
            record {
              ram = written;
              cache = record searched { entries = patch_entry searched.entries i offset bytes };
            },
          )
          | none ↦ elim (get_elem? memory.ram.frames frame) [
            | none ↦ (undefined, memory)
            | some content ↦
                let (entry, cached) =
                  cache_cache_contents config clocks searched pid page content in
                elim entry [
                  | some i ↦ (
                    done tt,
                    record {
                      ram = written;
                      cache = record cached { entries = patch_entry cached.entries i offset bytes };
                    },
                  )
                  | none ↦ elim (config.cache_per_process == 0) [
                    | true ↦ (done tt, record { ram = written; cache = cached })
                    | false ↦ (aborted, record memory { cache = cached })
                  ]
                ]
          ]
        ]
  ]

  -- The `while` loop; `buffer` is what is left to write, and `wrote` is `wroteSize`.
  unfoldable pub write_loop : ℕ → Memory → ℕ → ℕ → ℕ → List ℕ → ℕ → Access ℕ × Memory
  write_loop zero memory pid page offset buffer wrote = (diverges, memory)
  write_loop (suc fuel) memory pid page offset buffer wrote = elim (length buffer == 0) [
    | true ↦ (done wrote, memory)
    | false ↦ elim (ltb config.frame_size offset) [
      | true ↦ (undefined, memory)
      | false ↦
          let n = current_page_size config.frame_size offset (length buffer) in
          let (result, memory') = write_page memory pid page offset (take n buffer) in
          elim result [
            | done _ ↦ write_loop fuel memory' pid ((page + 1) % word) 0 (drop n buffer) (wrote + n)
            | no_page ↦ (no_page, memory')
            | undefined ↦ (undefined, memory')
            | aborted ↦ (aborted, memory')
            | diverges ↦ (diverges, memory')
          ]
    ]
  ]

  unfoldable pub memory_write : Memory → ℕ → ℕ → ℕ → List ℕ → Access ℕ × Memory
  memory_write memory pid page offset buffer =
      write_loop (length buffer + 2) memory pid page offset buffer 0
