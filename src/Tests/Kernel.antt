-- ===== src/Tests/Kernel.antt =====
-- Kernel: pages of 32 bytes; page 1 has a free block of 4 bytes and a used one of 12.
use socketapp.Common.{
  ◌%◌, word, ℕ, ◌+◌, ◌*◌, ◌<◌, ◌≡◌, refl, true, false, some, List, [], ◌∷◌, arith, replicate,
}
use socketapp.Common.{◌^◌}
use socketapp.Kernel.Space.{HeapMetadata, decode, page_bytes}
use socketapp.Kernel.Program.{
  HeapPage, Program, granted, ok, exits, find_page, max_page_num, heap_max_page_num, space_max,
}
use socketapp.Kernel.Heap.{heap_find_space_available, heap_defrag}
use socketapp.Kernel.Requests.{memory_heap_alloc, memory_heap_free}
use socketapp.Kernel.Heap.Find.{HasBlocks, locate_page, heap_find_space_available-locate}
use socketapp.Kernel.Heap.Blocks.{take_first}
use socketapp.Kernel.Heap.Settle.{merge_all, Settled, heap_defrag-Settled}
use socketapp.Kernel.Heap.Free.{freed}
use socketapp.Kernel.Requests.{Caller, handle_cpu_alocar, handle_cpu_liberar}
use socketapp.Kernel.Requests.RoundTrip.{handle_cpu_liberar-handle_cpu_alocar}
use socketapp.Kernel.Requests.Freed.{memory_heap_free-Settled}
use socketapp.Kernel.Requests.Found.{IsDistinct, OnPage, memory_heap_alloc-found}
use socketapp.Kernel.Requests.NewPage.{
  new_page, whole_block, with_page, memory_heap_alloc-new_page, memory_heap_alloc-exits,
}

abbrev small_free : HeapMetadata
small_free = record { size = 4; is_free = true }

abbrev used_rest : HeapMetadata
used_rest = record { size = 12; is_free = false }

abbrev two_blocks : List HeapMetadata
two_blocks = small_free ∷ used_rest ∷ []

abbrev page_one : List ℕ
page_one =
    4 ∷ 0 ∷ 0 ∷ 0 ∷ 1 ∷ 0 ∷ 0 ∷ 0 ∷ 7 ∷ 7 ∷ 7 ∷ 7 ∷ 12 ∷ 0 ∷ 0 ∷ 0 ∷ 0 ∷ 0 ∷ 0 ∷ 0 ∷ 9 ∷ 9 ∷ 9 ∷ 9
    ∷ 9 ∷ 9 ∷ 9 ∷ 9 ∷ 9 ∷ 9 ∷ 9 ∷ 9 ∷ []

abbrev entry_one : HeapPage
entry_one = record { page = 1; free_space = 4 }

abbrev sample_program : Program
sample_program = record {
  space = (0, replicate 32 0) ∷ (1, page_one) ∷ [];
  heap_pages = entry_one ∷ [];
  interruption_code = 0;
  bytes_free = 0;
}

sample-HasBlocks : HasBlocks 32 sample_program.space entry_one two_blocks
unfolding page_bytes decode
sample-HasBlocks = record {
  bytes = page_one;
  here = refl;
  sized = refl;
  chain = (omega arith, refl, (omega arith, refl, refl));
  counted = refl;
}

sample-found : find_page sample_program.heap_pages 1 ≡ some entry_one
unfolding find_page
sample-found = refl

sample-IsDistinct : IsDistinct sample_program.heap_pages
unfolding find_page
sample-IsDistinct = (refl, tt)

sample-agrees : space_max 0 sample_program.space ≡ heap_max_page_num 1 sample_program
unfolding space_max heap_max_page_num max_page_num
sample-agrees = refl

sample-next : new_page 32 1 sample_program < 2 ^ 31
unfolding heap_max_page_num max_page_num
sample-next = omega arith

find_example :
    heap_find_space_available 32 sample_program.space sample_program.heap_pages 4
    ≡ ok (locate_page 32 4 sample_program.heap_pages (two_blocks ∷ []))
find_example =
    heap_find_space_available-locate 32 sample_program.space sample_program.heap_pages
      (two_blocks ∷ []) 4 (omega arith) (omega arith) (sample-HasBlocks, tt)

defrag_example :
    (program' : Program) × (heap_defrag 32 sample_program 1 ≡ ok program')
    × Settled 32 sample_program 1 (merge_all two_blocks) program'
defrag_example =
    heap_defrag-Settled 32 sample_program 1 entry_one two_blocks (omega arith) (omega arith)
      sample-found sample-HasBlocks

found_example :
    (on : OnPage 32 sample_program 1 4 0) × (program' : Program) × (memory_heap_alloc 32 1
        (granted [])
        sample_program
        4
      ≡ ok ((1 * 32 + 0 + 8) % word, program'))
    × Settled 32 sample_program 1 (merge_all (take_first 4 on.blocks)) program'
found_example =
    memory_heap_alloc-found 32 1 (granted []) sample_program (two_blocks ∷ []) 4 1 0 (omega arith)
      (omega arith) (sample-HasBlocks, tt) sample-IsDistinct refl

new_page_example :
    (program' : Program) × (memory_heap_alloc 32 1 (granted (replicate 32 0)) sample_program 10
      ≡ ok ((new_page 32 1 sample_program * 32 + 0 + 8) % word, program'))
    × Settled 32
        (with_page 32 1 sample_program (replicate 32 0))
        (new_page 32 1 sample_program)
        (merge_all (take_first 10 (whole_block 32 1 sample_program ∷ [])))
        program'
new_page_example =
    memory_heap_alloc-new_page 32 1 sample_program (two_blocks ∷ []) 10 (replicate 32 0) refl
      (omega arith) (omega arith) refl sample-next sample-agrees (sample-HasBlocks, tt) refl

exits_example : memory_heap_alloc 32 1 (granted (replicate 32 0)) sample_program 20 ≡ exits
exits_example =
    memory_heap_alloc-exits 32 1 sample_program (two_blocks ∷ []) 20 (replicate 32 0) refl
      (omega arith) (omega arith) (omega arith) sample-next sample-agrees (sample-HasBlocks, tt)
      refl

heap_free_example :
    (program' : Program) × (memory_heap_free 32 sample_program 1 20 ≡ ok program')
    × Settled 32
        (record sample_program { bytes_free = 12 })
        1
        (merge_all (small_free ∷ freed used_rest ∷ []))
        program'
heap_free_example =
    memory_heap_free-Settled 32 sample_program 1 entry_one (small_free ∷ []) used_rest []
      (omega arith) (omega arith) sample-found sample-HasBlocks refl

abbrev caller : Caller
caller = record {
  program = sample_program;
  disconnected = false;
  syscall_ejecutadas = 0;
  syscall_privilegiadas = 0;
  cant_call_alloc = 0;
  bytes_alloc = 0;
  cant_call_free = 0;
  sent = [];
}

handle_cpu_liberar-handle_cpu_alocar_example :
    (on : OnPage 32 sample_program 1 4 0) × (caller' caller'' : Caller) × (handle_cpu_alocar 32 1
        (granted [])
        (some 4)
        true
        caller
      ≡ ok caller')
    × (caller'.sent ≡ (1 * 32 + 0 + 8) ∷ [])
    × (handle_cpu_liberar 32 (some (1 * 32 + 0 + 8)) caller' ≡ ok caller'')
    × Settled 32
        (record (caller'.program) { bytes_free = (caller'.program.bytes_free + 4) % word })
        1
        (merge_all on.blocks)
        caller''.program
handle_cpu_liberar-handle_cpu_alocar_example =
    handle_cpu_liberar-handle_cpu_alocar 32 1 (granted []) caller (two_blocks ∷ []) 4 1 0
      (omega arith) (omega arith) (omega arith) (omega arith) (sample-HasBlocks, tt)
      sample-IsDistinct refl
