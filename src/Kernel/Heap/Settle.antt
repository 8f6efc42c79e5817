-- ===== src/Kernel/Heap/Settle.antt =====
-- The end of `heap_alloc` and `heap_free` of heap.c: `heap_defrag` on the page.
use socketapp.Common.{
  ℕ, ◌+◌, ◌-◌, ◌<◌, ◌≡◌, ◌≢◌, refl, ap, ◌∙◌, inl, inr, true, some, List, [], ◌∷◌, arith, word, ◌==◌,
  ==-eq-false, Bool-cases,
}
use socketapp.Kernel.Space.{HeapMetadata, Space, page_bytes, remove_page}
use socketapp.Kernel.Space.Bytes.{read_metadata_inside}
use socketapp.Kernel.Program.{HeapPage, Program, ok, find_page, set_free_space}
use socketapp.Kernel.Heap.{release_empty, heap_defrag}
use socketapp.Kernel.Heap.Blocks.{
  IsChain-span, length-le-span, free_total, merge, IsMerged, merge-IsMerged,
}
use socketapp.Kernel.Heap.Find.{HasBlocks}
use socketapp.Kernel.Heap.Defrag.{defrag_loop-Merged}

abbrev pub merge_all : List HeapMetadata → List HeapMetadata
merge_all [] = []
merge_all (block ∷ blocks) = merge block blocks

pub find_page-set_free_space :
    (hps : List HeapPage) (page n : ℕ) {hp : HeapPage}
    → find_page hps page ≡ some hp
    → find_page (set_free_space hps page n) page ≡ some (record { page = page; free_space = n })
unfolding find_page set_free_space
find_page-set_free_space [] page n {hp} h = absurd (ground arith)
find_page-set_free_space (x ∷ hps) page n {hp} h =
    ground (arith, find_page-set_free_space hps page n {hp = hp})

pub find_page-set_free_space_other :
    (hps : List HeapPage) (page n q : ℕ)
    → page ≢ q
    → find_page (set_free_space hps page n) q ≡ find_page hps q
unfolding find_page set_free_space
find_page-set_free_space_other [] page n q ne = refl
find_page-set_free_space_other (x ∷ hps) page n q ne =
    ground (arith, find_page-set_free_space_other hps page n q)

pub set_free_space-set_free_space :
    (hps : List HeapPage) (page n m : ℕ)
    → set_free_space (set_free_space hps page n) page m ≡ set_free_space hps page m
unfolding set_free_space
set_free_space-set_free_space [] page n m = refl
set_free_space-set_free_space (x ∷ hps) page n m =
    ground (arith, set_free_space-set_free_space hps page n m)

pub find_page-page :
    (hps : List HeapPage) (page : ℕ) {hp : HeapPage} → find_page hps page ≡ some hp → hp.page ≡ page
unfolding find_page
find_page-page [] page {hp} h = absurd (ground arith)
find_page-page (x ∷ hps) page {hp} h = ground (arith, find_page-page hps page {hp = hp})

module _ (page_size : ℕ) where
  -- `program'` is `program` with the blocks of one page as given, and with the page given back to
  -- Memory if nothing in it is used; every other page of the process stays.
  pub record Settled (program : Program) (page : ℕ) (blocks : List HeapMetadata)
      (program' : Program) : Type 0 where
    pub space : Space
    pub has :
        HasBlocks page_size space (record { page = page; free_space = free_total blocks }) blocks
    pub merged : IsMerged blocks
    pub others : (q : ℕ) → page ≢ q → page_bytes space q ≡ page_bytes program.space q
    pub entries : program'.heap_pages ≡ set_free_space program.heap_pages page (free_total blocks)
    pub kept : free_total blocks ≢ page_size - 8 → program'.space ≡ space
    pub released : free_total blocks ≡ page_size - 8 → program'.space ≡ remove_page space page
    pub no_interruption : program'.interruption_code ≡ program.interruption_code
    pub same_stats : program'.bytes_free ≡ program.bytes_free

  release_empty-used :
      (program : Program) (page n : ℕ)
      → n ≢ page_size - 8
      → release_empty page_size program page n ≡ program
  unfolding release_empty
  release_empty-used program page n ne = rw (==-eq-false n (page_size - 8) ne, release_empty)

  release_empty-empty :
      (program : Program) (page n : ℕ) (bytes : List ℕ)
      → page_bytes program.space page ≡ some bytes
      → n ≡ page_size - 8
      → release_empty page_size program page n
        ≡ record program { space = remove_page program.space page }
  unfolding release_empty
  release_empty-empty program page n bytes here e =
      let hit : (n == page_size - 8) ≡ true = ground arith in rw (hit, here, release_empty)

  -- What giving the page back leaves alone.
  release_empty-rest :
      (program : Program) (page n : ℕ) (bytes : List ℕ)
      → page_bytes program.space page ≡ some bytes
      → ((release_empty page_size program page n).heap_pages ≡ program.heap_pages)
        × ((release_empty page_size program page n).interruption_code ≡ program.interruption_code)
        × ((release_empty page_size program page n).bytes_free ≡ program.bytes_free)
  release_empty-rest program page n bytes here = elim (Bool-cases (n == page_size - 8)) [
    | inl hit ↦
        let e = release_empty-empty program page n bytes here (ground arith) in
        (ap (λ p. p.heap_pages) e, ap (λ p. p.interruption_code) e, ap (λ p. p.bytes_free) e)
    | inr miss ↦
        let e = release_empty-used program page n (ground arith) in
        (ap (λ p. p.heap_pages) e, ap (λ p. p.interruption_code) e, ap (λ p. p.bytes_free) e)
  ]

  -- `heap_defrag` on a page that has its blocks ends, does not end the Kernel, joins adjacent free
  -- blocks until none are left, counts their bytes, and gives the page back to Memory exactly if
  -- nothing in it is used; no other page of the process changes.
  pub heap_defrag-Settled :
      (program : Program) (page : ℕ) (hp : HeapPage) (blocks : List HeapMetadata)
      → 0 < page_size
      → page_size < word
      → find_page program.heap_pages page ≡ some hp
      → HasBlocks page_size program.space hp blocks
      → (program' : Program) × (heap_defrag page_size program page ≡ ok program')
        × Settled program page (merge_all blocks) program'
  unfolding heap_defrag
  heap_defrag-Settled program page hp [] pos small found v =
      absurd (omega (arith, v.sized, v.chain))
  heap_defrag-Settled program page hp (block ∷ blocks) pos small found v =
      let same : hp.page ≡ page = find_page-page program.heap_pages page found in
      let here : page_bytes program.space page ≡ some v.bytes = rw same at (v.here) in
      let len = v.sized in
      let short = length-le-span (block ∷ blocks) in
      let whole = IsChain-span v.bytes 0 (block ∷ blocks) v.chain in
      let read = read_metadata_inside program.space page v.bytes here 0 v.chain.0 ∙ v.chain.1 in
      let (space, gained, run, m, total) =
        defrag_loop-Merged page_size small page (page_size + 1) program.space v.bytes 0
          (8 + block.size) block blocks 0 here v.sized (omega arith) v.chain (omega arith) in
      let count : hp.free_space + gained ≡ free_total (merge block blocks) =
        omega (arith, v.counted) in
      let before : Program = record program {
        space = space;
        heap_pages = set_free_space program.heap_pages page (free_total (merge block blocks));
      } in
      let rest = release_empty-rest before page (free_total (merge block blocks)) m.bytes' m.here in
      (
        release_empty page_size before page (free_total (merge block blocks)),
        rw (found, read, run, heap_defrag) (rw count),
        record {
          space = space;
          has = record {
            bytes = m.bytes';
            here = m.here;
            sized = m.sized ∙ v.sized;
            chain = m.chain;
            counted = refl;
          };
          merged = merge-IsMerged block blocks;
          others = m.others;
          entries = rest.0;
          kept = λ ne.
              ap (λ p. p.space)
                (release_empty-used before page (free_total (merge block blocks)) ne);
          released = λ e.
              ap (λ p. p.space)
                (release_empty-empty before page (free_total (merge block blocks)) m.bytes' m.here
                  e);
          no_interruption = rest.1;
          same_stats = rest.2;
        },
      )
