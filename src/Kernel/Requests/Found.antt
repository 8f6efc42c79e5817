-- ===== src/Kernel/Requests/Found.antt =====
-- `memory_heap_alloc` of memory.c: a request that a page of the heap can serve.
use socketapp.Common.{
  ◌%◌, ◌^◌, ℕ, ◌+◌, ◌-◌, ◌*◌, ◌≤◌, ◌<◌, ◌≡◌, ap, ◌∙◌, inl, inr, true, false, none, some, List, [],
  ◌∷◌, arith, word, ltb, ◌==◌, ==-eq-false, Option-cases,
}
use socketapp.Kernel.Space.{HeapMetadata, Space}
use socketapp.Kernel.Program.{HeapPage, Program, Grant, ok, find_page}
use socketapp.Kernel.Requests.{memory_heap_alloc, alloc_at}
use socketapp.Kernel.Heap.Blocks.{locate, take_first}
use socketapp.Kernel.Heap.Find.{
  HasBlocks, HaveBlocks, locate_page, heap_find_space_available-locate,
}
use socketapp.Kernel.Heap.Take.{locate-Located}
use socketapp.Kernel.Heap.Settle.{merge_all, Settled}
use socketapp.Kernel.Heap.Alloc.{heap_alloc-Settled}

-- No two entries have one page.
abbrev pub IsDistinct : List HeapPage → Type 0
IsDistinct [] = Unit
IsDistinct (hp ∷ hps) = (find_page hps hp.page ≡ none) × IsDistinct hps

module _ (page_size : ℕ) where
  -- The page `page` has these blocks.
  pub record OnPage (program : Program) (page size w : ℕ) : Type 0 where
    pub hp : HeapPage
    pub blocks : List HeapMetadata
    pub found : find_page program.heap_pages page ≡ some hp
    pub has : HasBlocks page_size program.space hp blocks
    pub fitting : locate size 0 blocks ≡ some w

  locate_page-find_page :
      (space : Space) (hps : List HeapPage) (all : List (List HeapMetadata)) (size page w : ℕ)
      → HaveBlocks page_size space hps all
      → IsDistinct hps
      → locate_page page_size size hps all ≡ some (page, w)
      → (hp : HeapPage) × (blocks : List HeapMetadata) × (find_page hps page ≡ some hp)
        × HasBlocks page_size space hp blocks
        × (locate size 0 blocks ≡ some w)
  unfolding find_page
  locate_page-find_page space [] [] size page w h d e = absurd (ground arith)
  locate_page-find_page space [] (_ ∷ _) size page w h d e = elim h [ ]
  locate_page-find_page space (hp ∷ hps) [] size page w h d e = elim h [ ]
  locate_page-find_page space (hp ∷ hps) (blocks ∷ all) size page w (v, others) (fresh, d) e =
      elim (Option-cases (locate size 0 blocks)) [
        | inl miss ↦
            let e' : locate_page page_size size hps all ≡ some (page, w) =
              rw (miss, locate_page) at e in
            let (hp', blocks', found, v', fit) =
              locate_page-find_page space hps all size page w others d e' in
            let apart : (hp.page == page) ≡ false =
              ==-eq-false hp.page page (λ same. absurd (ground arith)) in
            (hp', blocks', rw (apart, find_page) found, v', fit)
        | inr (offset, hit) ↦
            let e' : some (hp.page, offset) ≡ some (page, w) = rw (hit, locate_page) at e in
            let same : (hp.page == page) ≡ true = ground arith in
            (hp, blocks, rw (same, find_page), v, hit ∙ ground arith)
      ]

  -- If every page of the heap has its blocks, no page is there twice, pages are below 2 ^ 31 bytes and a
  -- block has room, `memory_heap_alloc` answers the pointer behind the header of the first such block, as 32
  -- bits; that block is taken, whole or in part, adjacent free blocks are joined, and no other page changes.
  pub memory_heap_alloc-found :
      (first : ℕ) (grant : Grant) (program : Program) (all : List (List HeapMetadata))
      (size page w : ℕ)
      → 0 < page_size
      → page_size < 2 ^ 31
      → HaveBlocks page_size program.space program.heap_pages all
      → IsDistinct program.heap_pages
      → locate_page page_size size program.heap_pages all ≡ some (page, w)
      → (on : OnPage program page size w) × (program' : Program) × (memory_heap_alloc page_size
            first grant program size
          ≡ ok ((page * page_size + w + 8) % word, program'))
        × Settled page_size program page (merge_all (take_first size on.blocks)) program'
  unfolding memory_heap_alloc alloc_at
  memory_heap_alloc-found first grant program all size page w pos small h d e =
      let (hp, blocks, found, v, fit) =
        locate_page-find_page program.space program.heap_pages all size page w h d e in
      let l = locate-Located size v.bytes (omega (arith, v.sized)) 0 blocks w v.chain fit in
      let inside = l.inside in
      let sized = v.sized in
      let enough : size ≤ l.block.size = let hit = l.enough in ground arith in
      let allowed : ltb (page_size - 8) size ≡ false = ground arith in
      let search =
        heap_find_space_available-locate page_size program.space program.heap_pages all size small
          (omega arith) h
        ∙ ap ok e in
      let (program', run, settled) =
        heap_alloc-Settled page_size program page hp blocks size w pos (omega arith) found v fit in
      (
        record { hp = hp; blocks = blocks; found = found; has = v; fitting = fit },
        program',
        rw (allowed, search, run, memory_heap_alloc, alloc_at),
        settled,
      )
