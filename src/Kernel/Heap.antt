-- ===== src/Kernel/Heap.antt =====
-- Kernel/src/functions/heap.c: the blocks in the pages of the heap of a process.
pub mod Blocks
pub mod Find
pub mod Take
pub mod Defrag
pub mod Settle
pub mod Alloc
pub mod Free
pub mod Merge
use socketapp.Common.{
  ℕ, zero, suc, ◌+◌, ◌-◌, ◌*◌, ◌%◌, ◌^◌, Bool, true, false, ◌&&◌, ◌||◌, Option, none, some, List,
  [], ◌∷◌, ◌++◌, word, neg, ltb, leb, sle, ◌==◌, if◌then◌else◌,
}
use socketapp.Kernel.Space.{
  HeapMetadata, sizeof_heap_metadata, Space, page_bytes, read_metadata, write_metadata, remove_page,
}
use socketapp.Kernel.Program.{
  HeapPage, Program, Run, error_memory, Grant, find_page, set_free_space, max_page_num,
  heap_max_page_num, space_max, ok, exits, diverges, refused, granted,
}

-- The test of `heap_find_space_available`; the sum is unsigned.
abbrev pub has_room : ℕ → HeapMetadata → Bool
has_room size metadata =
    metadata.is_free
    && (size == metadata.size || leb ((size + sizeof_heap_metadata) % word) metadata.size)

-- `uint32_t` and `int` subtraction.
abbrev pub sub32 : ℕ → ℕ → ℕ
sub32 a b = (a + word - b % word) % word

module _ (page_size : ℕ) where
  -- The walk through the blocks of one page. An offset is taken as unbounded: with its blocks in the page it
  -- stays below the size of a page.
  unfoldable pub find_in_page : ℕ → Space → ℕ → ℕ → ℕ → Run (Option ℕ)
  find_in_page zero space page size offset = diverges
  find_in_page (suc fuel) space page size offset = elim (ltb offset page_size) [
    | false ↦ ok none
    | true ↦ elim (read_metadata space page offset) [
      | none ↦ exits
      | some metadata ↦ elim (has_room size metadata) [
        | true ↦ ok (some offset)
        | false ↦
            find_in_page fuel space page size (offset + (metadata.size + sizeof_heap_metadata))
      ]
    ]
  ]

  -- `list_iterate`; once the space is located the other pages are passed over. A block has eight
  -- bytes at least, so a page has no more blocks than bytes.
  unfoldable pub heap_find_space_available : Space → List HeapPage → ℕ → Run (Option (ℕ × ℕ))
  heap_find_space_available space [] size = ok none
  heap_find_space_available space (hp ∷ hps) size =
      let rest = heap_find_space_available space hps size in
      if sle size hp.free_space
      then elim (find_in_page (page_size + 1) space hp.page size 0) [
        | ok none ↦ rest
        | ok (some offset) ↦ ok (some (hp.page, offset))
        | exits ↦ exits
        | diverges ↦ diverges
      ]
      else rest

  -- The loop of `heap_defrag`: `prev` is the block before `offset`. The new pages and the bytes
  -- that `freeSpace` gained.
  unfoldable pub defrag_loop : ℕ → Space → ℕ → ℕ → HeapMetadata → ℕ → Run (Space × ℕ)
  defrag_loop zero space page offset prev gained = diverges
  defrag_loop (suc fuel) space page offset prev gained = elim (ltb offset page_size) [
    | false ↦ ok (space, gained)
    | true ↦ elim (read_metadata space page offset) [
      | none ↦ exits
      | some current ↦ elim (current.is_free && prev.is_free) [
        | true ↦
            let merged = record prev {
              size = (prev.size + sizeof_heap_metadata + current.size) % word;
            } in
            let offset' = offset + sizeof_heap_metadata + current.size in
            elim (write_metadata space page (offset' - sizeof_heap_metadata - merged.size) merged) [
              | none ↦ exits
              | some space' ↦
                  defrag_loop fuel space' page offset' merged (gained + sizeof_heap_metadata)
            ]
        | false ↦
            defrag_loop fuel space page (offset + sizeof_heap_metadata + current.size) current
              gained
      ]
    ]
  ]

  -- The end of `heap_defrag`: a page with nothing in it is given back to Memory. Its entry stays.
  unfoldable pub release_empty : Program → ℕ → ℕ → Program
  release_empty program page free_space =
      if free_space == page_size - sizeof_heap_metadata
      then elim (page_bytes program.space page) [
        | none ↦ record program { interruption_code = neg 1 }
        | some _ ↦ record program { space = remove_page program.space page }
      ]
      else program

  unfoldable pub heap_defrag : Program → ℕ → Run Program
  heap_defrag program page = elim (find_page program.heap_pages page) [
    | none ↦ exits
    | some hp ↦ elim (read_metadata program.space page 0) [
      | none ↦ exits
      | some prev ↦
          elim (defrag_loop (page_size + 1) program.space page (sizeof_heap_metadata + prev.size)
            prev 0) [
              | exits ↦ exits
              | diverges ↦ diverges
              | ok (space, gained) ↦
                  let free_space = hp.free_space + gained in
                  ok (
                    release_empty
                      (record program {
                        space = space;
                        heap_pages = set_free_space program.heap_pages page free_space;
                      })
                      page free_space)
            ]
    ]
  ]

  -- The part of `heap_alloc` before `heap_defrag`; a page with no entry is a null pointer.
  unfoldable pub take_block : Program → HeapPage → ℕ → ℕ → HeapMetadata → Run Program
  take_block program hp size offset metadata =
      if size == metadata.size
      then elim (write_metadata program.space hp.page offset
          (record metadata { is_free = false })) [
            | none ↦ exits
            | some space ↦ ok (record program {
              space = space;
              heap_pages =
                  set_free_space program.heap_pages hp.page (sub32 hp.free_space metadata.size);
            })
          ]
      else if ltb size metadata.size
      then elim (write_metadata program.space hp.page offset
          (record { size = size; is_free = false })) [
            | none ↦ exits
            | some space ↦
                let rest = record metadata {
                  size = sub32 (sub32 metadata.size size) sizeof_heap_metadata;
                } in
                elim (write_metadata space hp.page (offset + (sizeof_heap_metadata + size)) rest) [
                  | none ↦ exits
                  | some space' ↦ ok (record program {
                    space = space';
                    heap_pages =
                        set_free_space program.heap_pages hp.page
                          (sub32 (sub32 hp.free_space size) sizeof_heap_metadata);
                  })
                ]
          ]
      else exits

  -- A read that Memory refuses leaves the mutex of the connection locked, and `heap_defrag` would wait
  -- for it for ever.
  unfoldable pub heap_alloc : Program → ℕ → ℕ → ℕ → Run Program
  heap_alloc program size page offset = elim (find_page program.heap_pages page) [
    | none ↦ exits
    | some hp ↦ elim (read_metadata program.space page offset) [
      | none ↦ diverges
      | some metadata ↦ elim (take_block program hp size offset metadata) [
        | exits ↦ exits
        | diverges ↦ diverges
        | ok program' ↦ heap_defrag program' page
      ]
    ]
  ]

  unfoldable pub heap_free : Program → ℕ → ℕ → Run Program
  heap_free program page offset =
      if ltb offset sizeof_heap_metadata
      then ok (record program { interruption_code = error_memory })
      else elim (read_metadata program.space page (offset - sizeof_heap_metadata)) [
        | none ↦ exits
        | some metadata ↦
            elim (write_metadata program.space page (offset - sizeof_heap_metadata)
              (record metadata { is_free = true })) [
                | none ↦ exits
                | some space ↦ elim (find_page program.heap_pages page) [
                  | none ↦ exits
                  | some hp ↦
                      heap_defrag
                        (record program {
                          space = space;
                          heap_pages =
                              set_free_space program.heap_pages page
                                (hp.free_space + metadata.size);
                          bytes_free = (program.bytes_free + metadata.size) % word;
                        })
                        page
                ]
              ]
      ]

  -- The result is the number of the page or a negative code. `first` is that of
  -- `heap_max_page_num`.
  unfoldable pub heap_new_page : ℕ → Grant → Program → Run (ℕ × Program)
  heap_new_page first (refused code) program =
      ok (code, record program { interruption_code = code })
  heap_new_page first (granted bytes) program =
      let page = heap_max_page_num first program + 1 in
      let size = page_size - sizeof_heap_metadata in
      let space = program.space ++ ((space_max 0 program.space + 1, bytes) ∷ []) in
      elim (write_metadata space page 0 (record { size = size; is_free = true })) [
        | none ↦ exits
        | some space' ↦ ok (
          page,
          record program {
            space = space';
            heap_pages = program.heap_pages ++ (record { page = page; free_space = size } ∷ []);
          },
        )
      ]
