-- ===== src/Kernel/Heap/Defrag.antt =====
-- `heap_defrag` of heap.c against the blocks of a page.
use socketapp.Common.{
  ℕ, zero, suc, ◌+◌, ◌-◌, ◌%◌, ◌≤◌, ◌<◌, ◌≡◌, ◌≢◌, refl, ◌∙◌, inl, inr, true, false, ◌&&◌, some,
  List, [], ◌∷◌, arith, word, ltb, length, length-patch, patch, Bool-cases,
}
use native.Mathlib.Nat.{mod-eq_of_lt}
use socketapp.Kernel.Space.{
  HeapMetadata, Space, encode, page_bytes, set_page, read_metadata, write_metadata,
}
use socketapp.Kernel.Space.Bytes.{
  block_at, block_at-patch_self, block_at-patch_apart, page_bytes-set_page_self,
  page_bytes-set_page_other, read_metadata_inside, write_metadata_inside,
}
use socketapp.Kernel.Program.{ok}
use socketapp.Kernel.Heap.{defrag_loop}
use socketapp.Kernel.Heap.Blocks.{IsChain, IsChain-span, IsChain-patch, free_total, merge}

-- `space'` is `space` with the blocks of one page, from `at` on, merged.
pub record Merged (space : Space) (bytes : List ℕ) (page at : ℕ) (blocks : List HeapMetadata)
    (space' : Space) : Type 0 where
  pub bytes' : List ℕ
  pub here : page_bytes space' page ≡ some bytes'
  pub sized : length bytes' ≡ length bytes
  pub chain : IsChain bytes' at blocks
  pub before : (i : ℕ) → i + 8 ≤ at → block_at bytes' i ≡ block_at bytes i
  pub others : (q : ℕ) → page ≢ q → page_bytes space' q ≡ page_bytes space q

-- A merge gains a header.
joined_total :
    (prev current : HeapMetadata) (rest : List HeapMetadata)
    → (current.is_free && prev.is_free) ≡ true
    → free_total (record prev { size = prev.size + 8 + current.size } ∷ rest)
      ≡ free_total (prev ∷ current ∷ rest) + 8
joined_total prev current rest h = ground arith

module _ (page_size : ℕ) (small : page_size < word) (page : ℕ) where
  -- One round that joins two free blocks.
  defrag_loop-joined :
      (fuel : ℕ) (space : Space) (offset : ℕ) (prev current : HeapMetadata) (gained size at : ℕ)
      (space₁ : Space)
      → ltb offset page_size ≡ true
      → read_metadata space page offset ≡ some current
      → (current.is_free && prev.is_free) ≡ true
      → (prev.size + 8 + current.size) % word ≡ size
      → offset + 8 + current.size - 8 - size ≡ at
      → write_metadata space page at (record prev { size = size }) ≡ some space₁
      → defrag_loop page_size (suc fuel) space page offset prev gained
        ≡ defrag_loop page_size fuel space₁ page
            (offset + 8 + current.size)
            (record prev { size = size })
            (gained + 8)
  unfolding defrag_loop
  defrag_loop-joined fuel space offset prev current gained size at space₁ more read joined wrap back
        write =
      let joint = (prev.size + 8 + current.size) % word in
      let write' : write_metadata space page (offset + 8 + current.size - 8 - joint)
            (record prev { size = joint })
          ≡ some space₁ =
        rw (wrap, back) write in
      rw (more, read, joined, write', defrag_loop) (rw wrap)

  pub defrag_loop-Merged :
      (fuel : ℕ) (space : Space) (bytes : List ℕ) (at offset : ℕ) (prev : HeapMetadata)
      (rest : List HeapMetadata) (gained : ℕ)
      → page_bytes space page ≡ some bytes
      → length bytes ≡ page_size
      → offset ≡ at + (prev.size + 8)
      → IsChain bytes at (prev ∷ rest)
      → length rest < fuel
      → (space' : Space) × (gained' : ℕ) × (defrag_loop page_size fuel space page offset prev gained
          ≡ ok (space', gained'))
        × Merged space bytes page at (merge prev rest) space'
        × (gained' + free_total (prev ∷ rest) ≡ gained + free_total (merge prev rest))
  unfolding defrag_loop
  defrag_loop-Merged zero space bytes at offset prev rest gained here sized e chain lt =
      absurd (omega arith)
  defrag_loop-Merged (suc fuel) space bytes at offset prev [] gained here sized e chain lt =
      let done : ltb offset page_size ≡ false = ground arith in
      (
        space,
        gained,
        rw (done, defrag_loop),
        record {
          bytes' = bytes;
          here = here;
          sized = refl;
          chain = chain;
          before = λ i h. refl;
          others = λ q ne. refl;
        },
        refl,
      )
  defrag_loop-Merged (suc fuel) space bytes at offset prev (current ∷ rest) gained here sized e
        chain lt =
      let (inside, head, (next_inside, next, tail)) = chain in
      let end = IsChain-span bytes (at + (prev.size + 8) + (current.size + 8)) rest tail in
      let more : ltb offset page_size ≡ true = ground arith in
      let read : read_metadata space page offset ≡ some current =
        rw e
          (read_metadata_inside space page bytes here (at + (prev.size + 8)) next_inside ∙ next) in
      elim (Bool-cases (current.is_free && prev.is_free)) [
        | inr apart ↦
            let (space', gained', run, m, total) =
              defrag_loop-Merged fuel space bytes (at + (prev.size + 8)) (offset + 8 + current.size)
                current rest gained here sized (omega arith) chain.2 (omega arith) in
            (
              space',
              gained',
              rw (more, read, apart, defrag_loop) run,
              record {
                bytes' = m.bytes';
                here = m.here;
                sized = m.sized;
                chain =
                    rw apart (omega (arith, m.sized), m.before at (omega arith) ∙ head, m.chain);
                before = λ i h. m.before i (omega arith);
                others = m.others;
              },
              rw apart (omega (arith, total)),
            )
        | inl joined ↦
            let merged : HeapMetadata = record prev { size = prev.size + 8 + current.size } in
            let wrap : (prev.size + 8 + current.size) % word ≡ prev.size + 8 + current.size =
              mod-eq_of_lt (omega arith) in
            let back : offset + 8 + current.size - 8 - (prev.size + 8 + current.size) ≡ at =
              omega arith in
            let bytes₁ = patch bytes at (encode merged) in
            let write = write_metadata_inside space page bytes here at inside merged in
            let len : length bytes₁ ≡ length bytes = length-patch bytes at (encode merged) in
            let over : at + (merged.size + 8) ≡ at + (prev.size + 8) + (current.size + 8) =
              omega arith in
            let chain₁ : IsChain bytes₁ at (merged ∷ rest) = (
              omega arith,
              block_at-patch_self bytes at merged (omega arith) inside,
              rw over (
                  IsChain-patch bytes at merged (at + (prev.size + 8) + (current.size + 8)) rest
                    (omega arith) tail),
            ) in
            let (space', gained', run, m, total) =
              defrag_loop-Merged fuel (set_page space page bytes₁) bytes₁ at
                (offset + 8 + current.size) merged rest (gained + 8)
                (page_bytes-set_page_self space page bytes₁ here) (len ∙ sized) (omega arith) chain₁
                (omega arith) in
            (
              space',
              gained',
              defrag_loop-joined fuel space offset prev current gained merged.size at _ more read
                    joined wrap back write
                  ∙ run,
              record {
                bytes' = m.bytes';
                here = m.here;
                sized = m.sized ∙ len;
                chain = rw joined m.chain;
                before = λ i h. m.before i h ∙ block_at-patch_apart bytes at merged i (inl h);
                others = λ q ne. m.others q ne ∙ page_bytes-set_page_other space page bytes₁ q ne;
              },
              rw joined (omega (arith, joined_total prev current rest joined, total)),
            )
      ]
