-- ===== src/Kernel/Requests/RoundTrip.antt =====
-- A block that is handed out to a program and given back.
use socketapp.Common.{
  ℕ, ◌+◌, ◌-◌, ◌*◌, ◌%◌, ◌^◌, ◌≤◌, ◌<◌, ◌≡◌, ◌≢◌, refl, sym, ap, ◌∙◌, true, some, List, [], ◌∷◌,
  ◌++◌, arith, word, ltb, subst,
}
use native.Mathlib.Nat.{mul-add-div_right, mul-add-mod_self_right, div-eq_of_lt, mod-eq_of_lt}
use socketapp.Kernel.Space.{HeapMetadata, Space}
use socketapp.Kernel.Program.{HeapPage, Program, Grant, ok, find_page}
use socketapp.Kernel.Heap.Blocks.{
  span, free_total, span-merge, free_total-le-span, IsChain-span, take_first, locate,
}
use socketapp.Kernel.Heap.Find.{HasBlocks, HaveBlocks, locate_page}
use socketapp.Kernel.Heap.Settle.{merge_all, Settled, find_page-set_free_space}
use socketapp.Kernel.Heap.Free.{freed}
use socketapp.Kernel.Heap.Merge.{
  handed_out, left_over, take_first-split, merge_all-append_used, merge_all-freed,
}
use socketapp.Kernel.Requests.{
  Caller, int_div, count_heap_call, memory_heap_free, handle_cpu_alocar, handle_cpu_liberar,
}
use socketapp.Kernel.Requests.Found.{IsDistinct, OnPage, memory_heap_alloc-found}
use socketapp.Kernel.Requests.Freed.{span-append, memory_heap_free-Settled}

span-merge_all : (blocks : List HeapMetadata) → span (merge_all blocks) ≡ span blocks
span-merge_all [] = refl
span-merge_all (block ∷ blocks) = span-merge block blocks

free_total-append_used :
    (xs : List HeapMetadata) (size : ℕ) (ys : List HeapMetadata)
    → free_total (xs ++ (handed_out size ∷ ys)) ≡ free_total xs + free_total ys
free_total-append_used [] size ys = omega arith
free_total-append_used (x ∷ xs) size ys = omega (arith, free_total-append_used xs size ys)

int_div-pointer :
    (page page_size offset : ℕ)
    → offset < page_size
    → page * page_size + offset < 2 ^ 31
    → int_div (page * page_size + offset) page_size ≡ (page, offset)
int_div-pointer page page_size offset inside small =
    let positive : ltb (page * page_size + offset) (2 ^ 31) ≡ true = ground arith in
    let pos : 0 < page_size = omega arith in
    let none : page + 0 ≡ page = omega arith in
    rw
      (
        positive,
        mul-add-div_right {m = page_size} pos page offset,
        mul-add-mod_self_right page page_size offset,
        div-eq_of_lt inside,
        mod-eq_of_lt inside,
        none,
      )
      refl

handle_cpu_liberar-ok :
    (page_size posicion page offset : ℕ) (caller : Caller) (program' : Program)
    → int_div posicion page_size ≡ (page, offset)
    → memory_heap_free page_size caller.program page offset ≡ ok program'
    → handle_cpu_liberar page_size (some posicion) caller
      ≡ ok (record (count_heap_call caller) {
        program = program';
        cant_call_free = caller.cant_call_free + 1;
      })
unfolding handle_cpu_liberar
handle_cpu_liberar-ok page_size posicion page offset caller program' quotient answers =
    rw
      (
        ap (λ (t : ℕ × ℕ). t.0) quotient,
        ap (λ (t : ℕ × ℕ). t.1) quotient,
        answers,
        handle_cpu_liberar,
      )
      refl

module _ (page_size : ℕ) where
  -- A page with a block that is in use stays, as it was settled.
  Settled-used :
      (program program' : Program) (page size : ℕ) (hp : HeapPage) (xs ys : List HeapMetadata)
      → 0 < size
      → find_page program.heap_pages page ≡ some hp
      → Settled page_size program page (xs ++ (handed_out size ∷ ys)) program'
      → (span xs + 8 + size ≤ page_size)
        × (find_page program'.heap_pages page
            ≡ some (record { page = page; free_space = free_total (xs ++ (handed_out size ∷ ys)) }))
        × HasBlocks page_size program'.space
            (record { page = page; free_space = free_total (xs ++ (handed_out size ∷ ys)) })
            (xs ++ (handed_out size ∷ ys))
  Settled-used program program' page size hp xs ys some_bytes found settled =
      let blocks = xs ++ (handed_out size ∷ ys) in
      let entry : HeapPage = record { page = page; free_space = free_total blocks } in
      let has = settled.has in
      let sized = has.sized in
      let whole = IsChain-span has.bytes 0 blocks has.chain in
      let sum = span-append xs (handed_out size ∷ ys) in
      let free = free_total-append_used xs size ys in
      let at_most = free_total-le-span xs in
      let at_most' = free_total-le-span ys in
      let not_empty : free_total blocks ≢ page_size - 8 = λ e. absurd (omega arith) in
      (
        omega arith,
        rw (settled.entries)
            (find_page-set_free_space program.heap_pages page (free_total blocks) {hp = hp} found),
        subst (λ (s : Space). HasBlocks page_size s entry blocks) (sym (settled.kept not_empty))
            has,
      )

  -- The first block with room, taken and given back.
  memory_heap_free-take_first :
      (program program' : Program) (page size w : ℕ) (hp : HeapPage) (blocks : List HeapMetadata)
      → 0 < size
      → page_size < word
      → find_page program.heap_pages page ≡ some hp
      → locate size 0 blocks ≡ some w
      → Settled page_size program page (merge_all (take_first size blocks)) program'
      → (w + 8 < page_size)
        × (program'' : Program) × (memory_heap_free page_size program' page (w + 8) ≡ ok program'')
        × Settled page_size
            (record program' { bytes_free = (program'.bytes_free + size) % word })
            page
            (merge_all blocks)
            program''
  memory_heap_free-take_first program program' page size w hp blocks some_bytes small found h
        settled =
      let (before, block, after, split, place, fit, taken) = take_first-split size 0 blocks w h in
      let behind = merge_all (left_over size block ++ after) in
      let same : merge_all (take_first size blocks)
          ≡ merge_all before ++ (handed_out size ∷ behind) =
        ap merge_all taken
        ∙ merge_all-append_used before (handed_out size) (left_over size block ++ after) refl in
      let (inside, found', has) =
        Settled-used program program' page size hp (merge_all before) behind some_bytes found
          (subst (λ l. Settled page_size program page l program') same settled) in
      let (program'', answers, settled') =
        memory_heap_free-Settled page_size program' page
          (record {
            page = page;
            free_space = free_total (merge_all before ++ (handed_out size ∷ behind));
          })
          (merge_all before) (handed_out size) behind some_bytes small found' has refl in
      let back : merge_all (merge_all before ++ (freed (handed_out size) ∷ behind))
          ≡ merge_all blocks =
        merge_all-freed size before block after fit ∙ ap merge_all (sym split) in
      let length_before = span-merge_all before in
      let there : span (merge_all before) + 8 ≡ w + 8 = omega arith in
      (
        omega arith,
        program'',
        ap (memory_heap_free page_size program' page) (sym there) ∙ answers,
        subst
            (λ l.
              Settled page_size
                (record program' { bytes_free = (program'.bytes_free + size) % word }) page l
                program'')
            back settled',
      )

  -- If every page of the heap has its blocks, no page is there twice, one of the pages has room for some
  -- bytes, and the size of a page and the pointers of that page are below 2 ^ 31, handle_cpu_alocar of that many bytes, whose answer goes
  -- through, answers the pointer behind the header of the first block with room, and when
  -- handle_cpu_liberar gets it back the blocks of the page are those of before, with adjacent free ones
  -- joined, no other page changes, and the bytes are added to the 32-bit count of
  -- freed ones.
  pub handle_cpu_liberar-handle_cpu_alocar :
      (first : ℕ) (grant : Grant) (caller : Caller) (all : List (List HeapMetadata))
      (size page w : ℕ)
      → 0 < size
      → 0 < page_size
      → page_size < 2 ^ 31
      → page * page_size + page_size ≤ 2 ^ 31
      → HaveBlocks page_size caller.program.space caller.program.heap_pages all
      → IsDistinct caller.program.heap_pages
      → locate_page page_size size caller.program.heap_pages all ≡ some (page, w)
      → (on : OnPage page_size caller.program page size w) × (caller' caller'' : Caller)
        × (handle_cpu_alocar page_size first grant (some size) true caller ≡ ok caller')
        × (caller'.sent ≡ (page * page_size + w + 8) ∷ caller.sent)
        × (handle_cpu_liberar page_size (some (page * page_size + w + 8)) caller' ≡ ok caller'')
        × Settled page_size
            (record (caller'.program) { bytes_free = (caller'.program.bytes_free + size) % word })
            page
            (merge_all on.blocks)
            caller''.program
  unfolding handle_cpu_alocar
  handle_cpu_liberar-handle_cpu_alocar first grant caller all size page w some_bytes pos small fits
        h d e =
      let (on, program', answers, settled) =
        memory_heap_alloc-found page_size first grant caller.program all size page w pos small h d
          e in
      let (inside, program'', gives, settled') =
        memory_heap_free-take_first caller.program program' page size w on.hp on.blocks some_bytes
          (omega arith) on.found on.fitting settled in
      let pointer : (page * page_size + w + 8) % word ≡ page * page_size + w + 8 =
        mod-eq_of_lt (omega arith) in
      let sum : page * page_size + w + 8 ≡ page * page_size + (w + 8) = omega arith in
      let quotient =
        ap (λ p. int_div p page_size) sum
        ∙ int_div-pointer page page_size (w + 8) inside (omega arith) in
      let called = record (count_heap_call caller) { program = program' } in
      let caller' = record called {
        sent = (page * page_size + w + 8) ∷ caller.sent;
        cant_call_alloc = caller.cant_call_alloc + 1;
        bytes_alloc = (caller.bytes_alloc + size) % word;
      } in
      (
        on,
        caller',
        record (count_heap_call caller') {
          program = program'';
          cant_call_free = caller.cant_call_free + 1;
        },
        rw (answers, pointer, handle_cpu_alocar) refl,
        refl,
        handle_cpu_liberar-ok page_size (page * page_size + w + 8) page (w + 8) caller' program''
            quotient gives,
        settled',
      )
