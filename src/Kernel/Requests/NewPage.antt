-- ===== src/Kernel/Requests/NewPage.antt =====
-- `memory_heap_alloc` of memory.c: a request that takes a page from Memory.
use socketapp.Common.{
  ◌%◌, ℕ, ◌+◌, ◌-◌, ◌*◌, ◌≤◌, ◌<◌, ◌≡◌, ◌≢◌, ap, ◌∙◌, true, false, none, some, List, [], ◌∷◌, ◌++◌,
  arith, word, ltb, ◌==◌, length, length-patch, patch,
}
use socketapp.Common.{◌^◌, leb}
use socketapp.Kernel.Space.{HeapMetadata, encode, page_bytes, set_page}
use socketapp.Kernel.Space.Bytes.{
  block_at-patch_self, page_bytes-set_page_self, page_bytes-set_page_other, read_metadata_inside,
  write_metadata_inside,
}
use socketapp.Kernel.Program.{Program, granted, ok, exits, find_page, heap_max_page_num, space_max}
use socketapp.Kernel.Heap.Blocks.{fits}
use socketapp.Kernel.Heap.{heap_new_page, heap_alloc, take_block}
use socketapp.Kernel.Requests.{memory_heap_alloc, alloc_at}
use socketapp.Kernel.Heap.Blocks.{locate, take_first}
use socketapp.Kernel.Heap.Find.{
  HasBlocks, HaveBlocks, locate_page, heap_find_space_available-locate,
}
use socketapp.Kernel.Heap.Settle.{merge_all, Settled}
use socketapp.Kernel.Heap.Alloc.{heap_alloc-Settled}
use socketapp.Kernel.Requests.Pages.{
  max_page_num-find_page, space_max-page_bytes, find_page-append, page_bytes-append,
  page_bytes-append_other, write_metadata-past,
}

module _ (page_size first : ℕ) (program : Program) where
  abbrev pub new_page : ℕ
  new_page = heap_max_page_num first program + 1

  -- The one block of a page that is new.
  abbrev pub whole_block : HeapMetadata
  whole_block = record { size = page_size - 8; is_free = true }

  -- The program after the page came, with `bytes` in it.
  abbrev pub with_page : List ℕ → Program
  with_page bytes = record program {
    space =
        set_page (program.space ++ ((new_page, bytes) ∷ [])) new_page
          (patch bytes 0 (encode whole_block));
    heap_pages =
        program.heap_pages ++ (record { page = new_page; free_space = page_size - 8 } ∷ []);
  }

  module _ (bytes : List ℕ) (sized : length bytes ≡ page_size) (room : 8 ≤ page_size)
      (small : page_size < 2 ^ 31)
      (agree : space_max 0 program.space ≡ heap_max_page_num first program) where
    free_number : page_bytes program.space new_page ≡ none
    free_number = (space_max-page_bytes 0 program.space new_page (omega arith)).0

    heap_new_page-with_page :
        heap_new_page page_size first (granted bytes) program ≡ ok (new_page, with_page bytes)
    unfolding heap_new_page
    heap_new_page-with_page =
        let there = page_bytes-append program.space new_page bytes free_number in
        rw (
          agree,
          write_metadata_inside (program.space ++ ((new_page, bytes) ∷ [])) new_page bytes there 0
              (omega arith) whole_block,
          heap_new_page,
        )

    with_page-found :
        find_page (with_page bytes).heap_pages new_page
        ≡ some (record { page = new_page; free_space = page_size - 8 })
    unfolding heap_max_page_num
    with_page-found =
        find_page-append program.heap_pages new_page (page_size - 8)
          (max_page_num-find_page (first - 1) program.heap_pages new_page (omega arith)).0

    with_page-HasBlocks :
        HasBlocks page_size
          (with_page bytes).space
          (record { page = new_page; free_space = page_size - 8 })
          (whole_block ∷ [])
    with_page-HasBlocks =
        let there = page_bytes-append program.space new_page bytes free_number in
        record {
          bytes = patch bytes 0 (encode whole_block);
          here =
              page_bytes-set_page_self (program.space ++ ((new_page, bytes) ∷ [])) new_page _
                {old = bytes} there;
          sized = length-patch bytes 0 _ ∙ sized;
          chain = (
            omega (arith, length-patch bytes 0 (encode whole_block)),
            block_at-patch_self bytes 0 whole_block (omega arith) (omega arith),
            omega (arith, length-patch bytes 0 (encode whole_block)),
          );
          counted = omega arith;
        }

module _ (page_size : ℕ) where
  -- What `memory_heap_alloc` comes to when no block of the heap has room and Memory grants a page.
  memory_heap_alloc-granted :
      (first : ℕ) (program : Program) (all : List (List HeapMetadata)) (size : ℕ) (bytes : List ℕ)
      → length bytes ≡ page_size
      → 8 ≤ page_size
      → page_size < 2 ^ 31
      → size ≤ page_size - 8
      → new_page page_size first program < 2 ^ 31
      → space_max 0 program.space ≡ heap_max_page_num first program
      → HaveBlocks page_size program.space program.heap_pages all
      → locate_page page_size size program.heap_pages all ≡ none
      → memory_heap_alloc page_size first (granted bytes) program size
        ≡ alloc_at page_size
            (with_page page_size first program bytes)
            size
            (new_page page_size first program)
            0
  unfolding memory_heap_alloc
  memory_heap_alloc-granted first program all size bytes sized room small fit_page low agree h e =
      let allowed : ltb (page_size - 8) size ≡ false = ground arith in
      let search =
        heap_find_space_available-locate page_size program.space program.heap_pages all size small
          (omega arith) h
        ∙ ap ok e in
      let page = heap_new_page-with_page page_size first program bytes sized room small agree in
      let valid : leb (2 ^ 31) (new_page page_size first program) ≡ false = ground arith in
      rw (allowed, search, page, valid, memory_heap_alloc)

  -- For pages of 8 to 2 ^ 31 - 1 bytes: if every page of the heap has its blocks and none has room, the page
  -- numbers of the Kernel and of Memory agree and are below 2 ^ 31, Memory grants a page of that many bytes,
  -- and the size is all of the page's room or leaves room for a further header, then `memory_heap_alloc`
  -- answers the pointer behind the first header of that page, as 32 bits, and its block is taken.
  pub memory_heap_alloc-new_page :
      (first : ℕ) (program : Program) (all : List (List HeapMetadata)) (size : ℕ) (bytes : List ℕ)
      → length bytes ≡ page_size
      → 8 ≤ page_size
      → page_size < 2 ^ 31
      → fits size (whole_block page_size first program) ≡ true
      → new_page page_size first program < 2 ^ 31
      → space_max 0 program.space ≡ heap_max_page_num first program
      → HaveBlocks page_size program.space program.heap_pages all
      → locate_page page_size size program.heap_pages all ≡ none
      → (program' : Program) × (memory_heap_alloc page_size first (granted bytes) program size
          ≡ ok ((new_page page_size first program * page_size + 0 + 8) % word, program'))
        × Settled page_size
            (with_page page_size first program bytes)
            (new_page page_size first program)
            (merge_all (take_first size (whole_block page_size first program ∷ [])))
            program'
  unfolding alloc_at
  memory_heap_alloc-new_page first program all size bytes sized room small fit low agree h e =
      let page = new_page page_size first program in
      let hit : locate size 0 (whole_block page_size first program ∷ []) ≡ some 0 = rw fit in
      let (program', run, settled) =
        heap_alloc-Settled page_size (with_page page_size first program bytes) page
          (record { page = page; free_space = page_size - 8 })
          (whole_block page_size first program ∷ []) size 0 (omega arith) (omega arith)
          (with_page-found page_size first program bytes sized room small agree)
          (with_page-HasBlocks page_size first program bytes sized room small agree) hit in
      (
        program',
        memory_heap_alloc-granted first program all size bytes sized room small (ground arith) low
              agree h e
            ∙ rw (run, alloc_at),
        settled,
      )

  -- A size that is below the limit of a page by fewer bytes than a header has ends the Kernel, for pages
  -- below 2 ^ 31 bytes, if every page of the heap has its blocks and none has room, the page numbers of the
  -- Kernel and of Memory agree and are below 2 ^ 31, and Memory grants a page of that many bytes: the header
  -- of the rest does not fit into it.
  pub memory_heap_alloc-exits :
      (first : ℕ) (program : Program) (all : List (List HeapMetadata)) (size : ℕ) (bytes : List ℕ)
      → length bytes ≡ page_size
      → page_size < 2 ^ 31
      → size + 8 < page_size
      → page_size < size + 16
      → new_page page_size first program < 2 ^ 31
      → space_max 0 program.space ≡ heap_max_page_num first program
      → HaveBlocks page_size program.space program.heap_pages all
      → locate_page page_size size program.heap_pages all ≡ none
      → memory_heap_alloc page_size first (granted bytes) program size ≡ exits
  unfolding alloc_at heap_alloc take_block
  memory_heap_alloc-exits first program all size bytes sized small below above low agree h e =
      let page = new_page page_size first program in
      let after = with_page page_size first program bytes in
      let block = whole_block page_size first program in
      let v = with_page-HasBlocks page_size first program bytes sized (omega arith) small agree in
      let found = with_page-found page_size first program bytes sized (omega arith) small agree in
      let len = v.sized in
      let read = read_metadata_inside after.space page v.bytes v.here 0 v.chain.0 ∙ v.chain.1 in
      let used : HeapMetadata = record { size = size; is_free = false } in
      let write = write_metadata_inside after.space page v.bytes v.here 0 v.chain.0 used in
      let bytes₁ = patch v.bytes 0 (encode used) in
      let here₁ = page_bytes-set_page_self after.space page bytes₁ {old = v.bytes} v.here in
      let space₁ = set_page after.space page bytes₁ in
      let apart : page ≢ page + 1 = λ same. absurd (omega arith) in
      let before = program.space ++ ((page, bytes) ∷ []) in
      let next : page_bytes space₁ (page + 1) ≡ none =
        page_bytes-set_page_other after.space page bytes₁ (page + 1) apart
        ∙ page_bytes-set_page_other before page (patch bytes 0 (encode block)) (page + 1) apart
        ∙ page_bytes-append_other program.space page (page + 1) bytes apart
            (space_max-page_bytes 0 program.space (page + 1) (omega arith)).0 in
      let past = λ (rest : HeapMetadata).
        write_metadata-past space₁ page (0 + (8 + size)) rest bytes₁ here₁
          (omega (arith, length-patch v.bytes 0 (encode used))) next in
      let other : (size == page_size - 8) ≡ false = ground arith in
      let less : ltb size (page_size - 8) ≡ true = ground arith in
      let split : take_block page_size after (record { page = page; free_space = page_size - 8 })
            size 0 block
          ≡ exits =
        rw (other, less, write, past _, take_block) in
      memory_heap_alloc-granted first program all size bytes sized (omega arith) small (omega arith)
        low agree h e
      ∙ rw (found, read, split, heap_alloc, alloc_at)
