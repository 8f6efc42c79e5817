-- ===== src/Kernel/Heap/Free.antt =====
-- `heap_free` of heap.c: the block is free again and the page is merged.
use socketapp.Common.{
  ◌%◌, ℕ, ◌+◌, ◌-◌, ◌≤◌, ◌<◌, ◌≡◌, refl, sym, ◌∙◌, inl, true, false, some, List, [], ◌∷◌, ◌++◌,
  subst, arith, word, ltb, length, length-patch, patch,
}
use socketapp.Kernel.Space.{HeapMetadata, encode, page_bytes, set_page}
use socketapp.Kernel.Space.Bytes.{
  block_at, block_at-patch_self, block_at-patch_apart, page_bytes-set_page_self,
  page_bytes-set_page_other, read_metadata_inside, write_metadata_inside,
}
use socketapp.Kernel.Program.{HeapPage, Program, ok, find_page, set_free_space}
use socketapp.Kernel.Heap.{heap_free}
use socketapp.Kernel.Heap.Blocks.{IsChain, IsChain-span, IsChain-patch, span, free_total}
use socketapp.Kernel.Heap.Find.{HasBlocks}
use socketapp.Kernel.Heap.Settle.{
  merge_all, Settled, heap_defrag-Settled, find_page-set_free_space, find_page-page,
}
use socketapp.Kernel.Heap.Alloc.{Settled-after}

abbrev pub freed : HeapMetadata → HeapMetadata
freed block = record block { is_free = true }

-- The header of a block lies behind the blocks before it, and can be marked free in place.
free-IsChain :
    (bytes : List ℕ) (offset : ℕ) (before : List HeapMetadata) (block : HeapMetadata)
    (after : List HeapMetadata) (w : ℕ)
    → length bytes < word
    → offset + span before ≡ w
    → IsChain bytes offset (before ++ block ∷ after)
    → (w + 8 ≤ length bytes)
      × (block_at bytes w ≡ some block)
      × IsChain (patch bytes w (encode (freed block))) offset (before ++ freed block ∷ after)
free-IsChain bytes offset [] block after w small at h =
    let here : w ≡ offset = omega arith in
    let end = IsChain-span bytes (offset + (block.size + 8)) after h.2 in
    subst
      (λ x.
        (x + 8 ≤ length bytes)
        × (block_at bytes x ≡ some block)
        × IsChain (patch bytes x (encode (freed block))) offset (freed block ∷ after))
      (sym here)
      (
        h.0,
        h.1,
        (
          rw length-patch h.0,
          block_at-patch_self bytes offset (freed block) (omega arith) h.0,
          IsChain-patch bytes offset (freed block) (offset + (block.size + 8)) after (omega arith)
              h.2,
        ),
      )
free-IsChain bytes offset (x ∷ before) block after w small at h =
    let later =
      free-IsChain bytes (offset + (x.size + 8)) before block after w small (omega arith) h.2 in
    (
      later.0,
      later.1,
      (
        rw length-patch h.0,
        block_at-patch_apart bytes w (freed block) offset (inl (omega arith)) ∙ h.1,
        later.2,
      ),
    )

free_total-freed :
    (before : List HeapMetadata) (block : HeapMetadata) (after : List HeapMetadata)
    → block.is_free ≡ false
    → free_total (before ++ block ∷ after) + block.size ≡ free_total (before ++ freed block ∷ after)
free_total-freed [] block after used = ground arith
free_total-freed (x ∷ before) block after used =
    omega (arith, free_total-freed before block after used)

module _ (page_size : ℕ) where
  -- `heap_free` at the pointer of a used block makes that block free, merges the page and counts the
  -- bytes of the block.
  pub heap_free-Settled :
      (program : Program) (page : ℕ) (hp : HeapPage) (before : List HeapMetadata)
      (block : HeapMetadata) (after : List HeapMetadata)
      → 0 < page_size
      → page_size < word
      → find_page program.heap_pages page ≡ some hp
      → HasBlocks page_size program.space hp (before ++ block ∷ after)
      → block.is_free ≡ false
      → (program' : Program) × (heap_free page_size program page (span before + 8) ≡ ok program')
        × Settled page_size
            (record program { bytes_free = (program.bytes_free + block.size) % word })
            page
            (merge_all (before ++ freed block ∷ after))
            program'
  unfolding heap_free
  heap_free-Settled program page hp before block after pos small found v used =
      let same = find_page-page program.heap_pages page found in
      let (inside, header, chain) =
        free-IsChain v.bytes 0 before block after (span before) (omega (arith, v.sized))
          (omega arith) v.chain in
      let here : page_bytes program.space page ≡ some v.bytes = rw same at (v.here) in
      let w = span before in
      let back : w + 8 - 8 ≡ w = omega arith in
      let far : ltb (w + 8) 8 ≡ false = ground arith in
      let blocks = before ++ freed block ∷ after in
      let read = read_metadata_inside program.space page v.bytes here w inside ∙ header in
      let write = write_metadata_inside program.space page v.bytes here w inside (freed block) in
      let bytes = patch v.bytes w (encode (freed block)) in
      let space = set_page program.space page bytes in
      let count : hp.free_space + block.size ≡ free_total blocks =
        omega (arith, v.counted, free_total-freed before block after used) in
      let middle : Program = record program {
        space = space;
        heap_pages = set_free_space program.heap_pages page (free_total blocks);
        bytes_free = (program.bytes_free + block.size) % word;
      } in
      let (program', settle, s) =
        heap_defrag-Settled page_size middle page
          (record { page = page; free_space = free_total blocks }) blocks pos small
          (find_page-set_free_space program.heap_pages page (free_total blocks) {hp = hp} found)
          (record {
            bytes = bytes;
            here = page_bytes-set_page_self program.space page bytes {old = v.bytes} here;
            sized = length-patch v.bytes w _ ∙ v.sized;
            chain = chain;
            counted = refl;
          }) in
      (
        program',
        rw (far, back, read, back, write, found, heap_free) (rw count settle),
        Settled-after page_size
            (record program { bytes_free = (program.bytes_free + block.size) % word }) middle page
            (free_total blocks) _ program'
            (λ q ne. page_bytes-set_page_other program.space page bytes q ne) refl refl refl s,
      )
