-- ===== src/Kernel/Heap/Alloc.antt =====
-- `heap_alloc` of heap.c: the block is taken and the page is merged.
use socketapp.Common.{
  ℕ, ◌+◌, ◌-◌, ◌%◌, ◌≤◌, ◌<◌, ◌≡◌, ◌≢◌, refl, ◌∙◌, inl, inr, true, false, some, List, arith, word,
  ltb, ◌==◌, if◌then◌else◌, length, length-patch, patch, Bool-cases,
}
use native.Mathlib.Nat.{mod-eq_of_lt}
use socketapp.Kernel.Space.{HeapMetadata, Space, encode, page_bytes, set_page, read_metadata}
use socketapp.Kernel.Space.Bytes.{
  page_bytes-set_page_self, page_bytes-set_page_other, read_metadata_inside, write_metadata_inside,
}
use socketapp.Kernel.Program.{HeapPage, Program, ok, find_page, set_free_space}
use socketapp.Kernel.Heap.Blocks.{fits}
use socketapp.Kernel.Heap.{sub32, take_block, heap_alloc}
use socketapp.Kernel.Heap.Blocks.{IsChain-span, free_total-le-span, free_total, locate, take_first}
use socketapp.Kernel.Heap.Find.{HasBlocks}
use socketapp.Kernel.Heap.Take.{taken, length-taken, locate-Located}
use socketapp.Kernel.Heap.Settle.{
  merge_all, Settled, heap_defrag-Settled, find_page-set_free_space, set_free_space-set_free_space,
  find_page-page,
}

pub sub32-no_wrap : (a b : ℕ) → b ≤ a → a < word → sub32 a b ≡ a - b
sub32-no_wrap a b le lt =
    let small : b % word ≡ b = mod-eq_of_lt (omega arith) in
    let e : a + word - b ≡ (a - b) + word = omega arith in
    let lt' : a - b < word = omega arith in rw (small, e) (omega arith)

-- The page that was written to is settled in the place of the page before.
pub Settled-after :
    (page_size : ℕ) (program middle : Program) (page n : ℕ) (blocks : List HeapMetadata)
    (program' : Program)
    → ((q : ℕ) → page ≢ q → page_bytes middle.space q ≡ page_bytes program.space q)
    → middle.heap_pages ≡ set_free_space program.heap_pages page n
    → middle.interruption_code ≡ program.interruption_code
    → middle.bytes_free ≡ program.bytes_free
    → Settled page_size middle page blocks program'
    → Settled page_size program page blocks program'
Settled-after page_size program middle page n blocks program' others pages code stats s = record {
  space = s.space;
  has = s.has;
  merged = s.merged;
  others = λ q ne. s.others q ne ∙ others q ne;
  entries =
      rw pages at s.entries
      ∙ set_free_space-set_free_space program.heap_pages page n (free_total blocks);
  kept = s.kept;
  released = s.released;
  no_interruption = s.no_interruption ∙ code;
  same_stats = s.same_stats ∙ stats;
}

abbrev pub cost : ℕ → HeapMetadata → ℕ
cost size block = if size == block.size then size else size + 8

module _ (page_size : ℕ) where
  take_block-taken :
      (program : Program) (hp : HeapPage) (size w : ℕ) (block : HeapMetadata) (bytes : List ℕ)
      → page_bytes program.space hp.page ≡ some bytes
      → w + 8 + block.size ≤ length bytes
      → length bytes < word
      → fits size block ≡ true
      → cost size block ≤ hp.free_space
      → hp.free_space < word
      → (space : Space) × (take_block page_size program hp size w block
          ≡ ok (record program {
            space = space;
            heap_pages =
                set_free_space program.heap_pages hp.page (hp.free_space - cost size block);
          }))
        × (page_bytes space hp.page ≡ some (taken size bytes w block))
        × ((q : ℕ) → hp.page ≢ q → page_bytes space q ≡ page_bytes program.space q)
  unfolding take_block
  take_block-taken program hp size w block bytes here inside small hit enough narrow =
      elim (Bool-cases (size == block.size)) [
        | inl same ↦
            let eq : size ≡ block.size = ground arith in
            let used : HeapMetadata = record block { is_free = false } in
            let write =
              write_metadata_inside program.space hp.page bytes here w (omega arith) used in
            let left : sub32 hp.free_space block.size ≡ hp.free_space - size =
              rw eq (sub32-no_wrap hp.free_space block.size (ground arith) narrow) in
            (
              set_page program.space hp.page (patch bytes w (encode used)),
              rw (same, write, left, take_block),
              rw same (page_bytes-set_page_self program.space hp.page _ {old = bytes} here),
              λ q ne. page_bytes-set_page_other program.space hp.page _ q ne,
            )
        | inr other ↦
            let room : size + 8 ≤ block.size = ground arith in
            let more : ltb size block.size ≡ true = ground arith in
            let used : HeapMetadata = record { size = size; is_free = false } in
            let rest : HeapMetadata = record block { size = block.size - size - 8 } in
            let first = patch bytes w (encode used) in
            let space₁ = set_page program.space hp.page first in
            let here₁ = page_bytes-set_page_self program.space hp.page first {old = bytes} here in
            let len : length first ≡ length bytes = length-patch bytes w (encode used) in
            let write =
              write_metadata_inside program.space hp.page bytes here w (omega arith) used in
            let write' =
              write_metadata_inside space₁ hp.page first here₁ (w + (8 + size)) (omega arith)
                rest in
            let shrink : sub32 (sub32 block.size size) 8 ≡ block.size - size - 8 =
              rw (sub32-no_wrap block.size size (omega arith) (omega arith))
                (sub32-no_wrap (block.size - size) 8 (omega arith) (omega arith)) in
            let costs : size + 8 ≤ hp.free_space = rw other at enough in
            let left : sub32 (sub32 hp.free_space size) 8 ≡ hp.free_space - (size + 8) =
              rw (sub32-no_wrap hp.free_space size (omega arith) narrow) (
                sub32-no_wrap (hp.free_space - size) 8 (omega arith) (omega arith) ∙ omega arith) in
            (
              set_page space₁ hp.page (patch first (w + (8 + size)) (encode rest)),
              rw (other, more, write, shrink, write', left, take_block),
              rw other (page_bytes-set_page_self space₁ hp.page _ {old = first} here₁),
              λ q ne.
                  page_bytes-set_page_other space₁ hp.page _ q ne
                  ∙ page_bytes-set_page_other program.space hp.page first q ne,
            )
      ]

  -- `heap_alloc` on the first block of a page that has room takes that block: it is used as a whole if
  -- it has the size, and split into a used block and the free rest otherwise. Then adjacent free
  -- blocks of the page are joined; the call ends and does not end the Kernel.
  pub heap_alloc-Settled :
      (program : Program) (page : ℕ) (hp : HeapPage) (blocks : List HeapMetadata) (size w : ℕ)
      → 0 < page_size
      → page_size < word
      → find_page program.heap_pages page ≡ some hp
      → HasBlocks page_size program.space hp blocks
      → locate size 0 blocks ≡ some w
      → (program' : Program) × (heap_alloc page_size program size page w ≡ ok program')
        × Settled page_size program page (merge_all (take_first size blocks)) program'
  unfolding heap_alloc
  heap_alloc-Settled program page hp blocks size w pos small found v hit =
      let same = find_page-page program.heap_pages page found in
      let l = locate-Located size v.bytes (omega (arith, v.sized)) 0 blocks w v.chain hit in
      let len = v.sized in
      let whole = IsChain-span v.bytes 0 blocks v.chain in
      let bound = free_total-le-span blocks in
      let read =
        read_metadata_inside program.space hp.page v.bytes v.here w (omega (arith, l.inside))
        ∙ l.header in
      let left : hp.free_space - cost size l.block ≡ free_total (take_first size blocks) =
        omega (arith, v.counted, l.less) in
      let (space, run, here, others) =
        take_block-taken program hp size w l.block v.bytes v.here l.inside (omega arith) l.enough
          (omega (arith, v.counted, l.less)) (omega (arith, v.counted)) in
      let middle : Program = record program {
        space = space;
        heap_pages = set_free_space program.heap_pages page (free_total (take_first size blocks));
      } in
      let (program', settle, s) =
        heap_defrag-Settled page_size middle page
          (record { page = page; free_space = free_total (take_first size blocks) })
          (take_first size blocks) pos small
          (find_page-set_free_space program.heap_pages page (free_total (take_first size blocks))
            {hp = hp} found)
          (record {
            bytes = taken size v.bytes w l.block;
            here = rw same at here;
            sized = length-taken size v.bytes w l.block ∙ v.sized;
            chain = l.chain;
            counted = refl;
          }) in
      let read' : read_metadata program.space page w ≡ some l.block = rw same at read in
      let run' : take_block page_size program hp size w l.block ≡ ok middle =
        run ∙ rw (same, left) refl in
      (
        program',
        rw (found, read', run', heap_alloc) settle,
        Settled-after page_size program middle page (free_total (take_first size blocks)) _ program'
            (rw same at others) refl refl refl s,
      )
