-- ===== src/Kernel/Heap/Find.antt =====
-- `heap_find_space_available` of heap.c against the blocks of the pages.
use native.Mathlib.Nat.{mod-eq_of_lt}
use socketapp.Common.{
  sle-of_small, ap, ◌^◌, ◌==◌, ◌&&◌, ◌||◌, ℕ, zero, suc, ◌+◌, ◌<◌, ◌≡◌, refl, ◌∙◌, inl, inr, true,
  false, Option, none, some, List, [], ◌∷◌, arith, ltb, length, Bool-cases, Option-cases,
}
use socketapp.Common.{leb}
use socketapp.Kernel.Space.{HeapMetadata, Space, page_bytes}
use socketapp.Kernel.Space.Bytes.{read_metadata_inside}
use socketapp.Kernel.Program.{HeapPage, ok}
use socketapp.Kernel.Heap.{has_room, find_in_page, heap_find_space_available}
use socketapp.Kernel.Heap.Blocks.{
  IsChain, IsChain-span, length-le-span, free_total, free_total-le-span, fits, locate,
}

has_room-fits :
    (size : ℕ) (block : HeapMetadata) → size < 2 ^ 31 → has_room size block ≡ fits size block
has_room-fits size block small =
    ap (λ n. block.is_free && (size == block.size || leb n block.size)) (mod-eq_of_lt (omega arith))

module _ (page_size : ℕ) where
  -- The walk through a page finds the first block that fits.
  pub find_in_page-locate :
      (fuel : ℕ) (space : Space) (page size offset : ℕ) (bytes : List ℕ)
      (blocks : List HeapMetadata)
      → page_bytes space page ≡ some bytes
      → length bytes ≡ page_size
      → IsChain bytes offset blocks
      → length blocks < fuel
      → size < 2 ^ 31
      → find_in_page page_size fuel space page size offset ≡ ok (locate size offset blocks)
  unfolding find_in_page
  find_in_page-locate zero space page size offset bytes blocks here sized chain lt small =
      absurd (omega arith)
  find_in_page-locate (suc fuel) space page size offset bytes [] here sized chain lt small =
      let e : ltb offset page_size ≡ false = ground arith in rw (e, find_in_page)
  find_in_page-locate (suc fuel) space page size offset bytes (block ∷ blocks) here sized chain lt
        small =
      let e : ltb offset page_size ≡ true = ground arith in
      let read = read_metadata_inside space page bytes here offset chain.0 ∙ chain.1 in
      let room = has_room-fits size block small in
      elim (Bool-cases (fits size block)) [
        | inl hit ↦ rw (e, read, room, hit, find_in_page)
        | inr miss ↦
            rw (e, read, room, miss, find_in_page)
              (find_in_page-locate fuel space page size (offset + (block.size + 8)) bytes blocks
                here sized chain.2 (omega arith) small)
      ]

  -- Page `hp` of the heap is there, its headers chain `blocks` together over the whole page, and
  -- `freeSpace` is the total of the free ones.
  pub record HasBlocks (space : Space) (hp : HeapPage) (blocks : List HeapMetadata) : Type 0 where
    pub bytes : List ℕ
    pub here : page_bytes space hp.page ≡ some bytes
    pub sized : length bytes ≡ page_size
    pub chain : IsChain bytes 0 blocks
    pub counted : hp.free_space ≡ free_total blocks

  -- Every page of the heap has its blocks.
  abbrev pub HaveBlocks : Space → List HeapPage → List (List HeapMetadata) → Type 0
  HaveBlocks space [] [] = Unit
  HaveBlocks space (hp ∷ hps) (blocks ∷ all) = HasBlocks space hp blocks × HaveBlocks space hps all
  HaveBlocks space _ _ = ⊥

  -- The first block of the heap that `size` bytes fit into: its page and its offset.
  abbrev pub locate_page : ℕ → List HeapPage → List (List HeapMetadata) → Option (ℕ × ℕ)
  locate_page size (hp ∷ hps) (blocks ∷ all) = elim (locate size 0 blocks) [
    | some offset ↦ some (hp.page, offset)
    | none ↦ locate_page size hps all
  ]
  locate_page size _ _ = none

-- A block that fits has `size` bytes among the free ones of its page.
pub locate-none :
    (size offset : ℕ) (blocks : List HeapMetadata)
    → free_total blocks < size
    → locate size offset blocks ≡ none
locate-none size offset [] h = refl
locate-none size offset (block ∷ blocks) h =
    ground (arith, locate-none size (offset + (block.size + 8)) blocks)

module _ (page_size : ℕ) where
  -- The search over the pages of the heap, for a size and pages below 2 ^ 31 bytes. If every page of the heap has its blocks, the walks end
  -- and none of them fails, and the answer is the first block, in the order of the pages and of the
  -- offsets, that is free and either has exactly the size asked for or room for it and a further
  -- header; passing over a page by its `freeSpace` misses no block.
  pub heap_find_space_available-locate :
      (space : Space) (hps : List HeapPage) (all : List (List HeapMetadata)) (size : ℕ)
      → page_size < 2 ^ 31
      → size < 2 ^ 31
      → HaveBlocks page_size space hps all
      → heap_find_space_available page_size space hps size ≡ ok (locate_page page_size size hps all)
  unfolding heap_find_space_available
  heap_find_space_available-locate space [] [] size narrow small h = refl
  heap_find_space_available-locate space [] (_ ∷ _) size narrow small h = elim h [ ]
  heap_find_space_available-locate space (hp ∷ hps) [] size narrow small h = elim h [ ]
  heap_find_space_available-locate space (hp ∷ hps) (blocks ∷ all) size narrow small (v, others) =
      let rest = heap_find_space_available-locate space hps all size narrow small others in
      let short = length-le-span blocks in
      let whole = IsChain-span v.bytes 0 blocks v.chain in
      let size_of = v.sized in
      let walk =
        find_in_page-locate page_size (page_size + 1) space hp.page size 0 v.bytes blocks v.here
          v.sized v.chain (omega arith) small in
      let few = v.counted in
      let at_most = free_total-le-span blocks in
      let signed = sle-of_small size hp.free_space small (omega arith) in
      elim (Bool-cases (leb size hp.free_space)) [
        | inl room ↦ elim (Option-cases (locate size 0 blocks)) [
          | inl miss ↦ rw (signed, room, walk, miss, heap_find_space_available, locate_page) rest
          | inr (offset, hit) ↦ rw (signed, room, walk, hit, heap_find_space_available, locate_page)
        ]
        | inr full ↦
            let miss = locate-none size 0 blocks (ground arith) in
            rw (signed, full, miss, heap_find_space_available, locate_page) rest
      ]
