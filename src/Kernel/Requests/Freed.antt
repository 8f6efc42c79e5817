-- ===== src/Kernel/Requests/Freed.antt =====
-- `memory_heap_free` of memory.c: what is refused, and what is freed.
use socketapp.Common.{
  ◌%◌, ℕ, ◌+◌, ◌-◌, ◌≤◌, ◌<◌, ◌≡◌, ◌⊎◌, inl, inr, true, false, none, some, List, [], ◌∷◌, ◌++◌,
  arith, word, ltb, Bool-cases, Option-cases,
}
use socketapp.Kernel.Space.{HeapMetadata}
use socketapp.Kernel.Program.{HeapPage, Program, ok, error_memory, find_page}
use socketapp.Kernel.Heap.{heap_free}
use socketapp.Kernel.Heap.Blocks.{IsChain-span, span}
use socketapp.Kernel.Heap.Find.{HasBlocks}
use socketapp.Kernel.Heap.Settle.{merge_all, Settled}
use socketapp.Kernel.Heap.Free.{freed, heap_free-Settled}
use socketapp.Kernel.Requests.{memory_heap_free}

pub span-append :
    (before after : List HeapMetadata) → span (before ++ after) ≡ span before + span after
span-append [] after = omega arith
span-append (x ∷ before) after = omega (arith, span-append before after)

module _ (page_size : ℕ) where
  -- A pointer to no page of the heap, into a page but behind its end, or into the first header of a
  -- page changes nothing but the process's interruption code, which is then ERROR_MEMORY.
  pub memory_heap_free-refused :
      (program : Program) (page offset : ℕ)
      → (find_page program.heap_pages page ≡ none) ⊎ ((page_size ≤ offset) ⊎ (offset < 8))
      → 0 < page_size
      → memory_heap_free page_size program page offset
        ≡ ok (record program { interruption_code = error_memory })
  unfolding memory_heap_free heap_free
  memory_heap_free-refused program page offset h pos =
      elim (Option-cases (find_page program.heap_pages page)) [
        | inl missing ↦ rw (missing, memory_heap_free)
        | inr (hp, found) ↦ elim (Bool-cases (ltb (page_size - 1) offset)) [
          | inl far ↦ rw (found, far, memory_heap_free)
          | inr inside ↦ elim h [
            | inl missing ↦ absurd (ground arith)
            | inr bad ↦
                let header : ltb offset 8 ≡ true = ground arith in
                rw (found, inside, header, memory_heap_free, heap_free)
          ]
        ]
      ]

  -- If the page has its blocks, the pointer behind the header of a used block of some bytes frees that
  -- block: it is free afterwards, adjacent free blocks are joined, no other page changes, and its bytes
  -- are added to the 32-bit count.
  pub memory_heap_free-Settled :
      (program : Program) (page : ℕ) (hp : HeapPage) (before : List HeapMetadata)
      (block : HeapMetadata) (after : List HeapMetadata)
      → 0 < block.size
      → page_size < word
      → find_page program.heap_pages page ≡ some hp
      → HasBlocks page_size program.space hp (before ++ block ∷ after)
      → block.is_free ≡ false
      → (program' : Program) × (memory_heap_free page_size program page (span before + 8)
          ≡ ok program')
        × Settled page_size
            (record program { bytes_free = (program.bytes_free + block.size) % word })
            page
            (merge_all (before ++ freed block ∷ after))
            program'
  unfolding memory_heap_free
  memory_heap_free-Settled program page hp before block after some_bytes small found v used =
      let whole = IsChain-span v.bytes 0 (before ++ block ∷ after) v.chain in
      let sized = v.sized in
      let inside : ltb (page_size - 1) (span before + 8) ≡ false =
        let sum = span-append before (block ∷ after) in ground arith in
      let (program', run, settled) =
        heap_free-Settled page_size program page hp before block after
          (let sum = span-append before (block ∷ after) in omega arith) small found v used in
      (program', rw (found, inside, memory_heap_free) run, settled)
