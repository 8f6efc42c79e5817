-- ===== src/Kernel/Requests.antt =====
-- The heap requests: memory_heap_alloc and memory_heap_free of Kernel/src/interface/memory.c, and
-- handle_cpu_alocar and handle_cpu_liberar of Kernel/src/threads/cpu/handler.c.
pub mod Found
pub mod Pages
pub mod NewPage
pub mod Freed
pub mod RoundTrip
use socketapp.Common.{
  ◌/◌, ℕ, zero, suc, ◌+◌, ◌-◌, ◌*◌, ◌%◌, ◌≤◌, ◌<◌, ◌≡◌, ◌≢◌, ◌↔◌, ◌⊎◌, refl, sym, ap, ◌∙◌, inl, inr,
  Bool, true, false, not, ◌&&◌, Option, none, some, List, [], ◌∷◌, ◌++◌, subst, arith, word, neg,
  ltb, ◌==◌, if◌then◌else◌, to_nat, get_elem?, set, length, replicate, get_elem?_of_lt,
  lt_of_get_elem?, get_elem?-set_self, get_elem?-set_ne, length-set, length-replicate, length-take,
  length-drop, length-append, length-patch, take, drop, patch, take_all, take-zero, take-drop-patch,
  take-append, drop-append, drop_all, take-drop-patch_apart, patch-append, patch-nil, append-nil,
  append_assoc, min, get_elem?-replicate, get_elem?-set-cases, ==_iff, ==_refl, ==-eq-false,
  Bool-cases, Option-cases,
}
use socketapp.Common.{◌^◌, leb}
use socketapp.Kernel.Space.{sizeof_heap_metadata}
use socketapp.Kernel.Program.{
  HeapPage, Program, Run, ok, exits, diverges, Grant, error_memory, find_page,
}
use socketapp.Kernel.Heap.{heap_find_space_available, heap_alloc, heap_free, heap_new_page}

abbrev pub error_alloc_bigger_than_page_size : ℕ
error_alloc_bigger_than_page_size = neg 8

abbrev pub error_no_pages_for_process : ℕ
error_no_pages_for_process = neg 9

module _ (page_size : ℕ) where
  -- The pointer that `heap_alloc` made room for.
  unfoldable pub alloc_at : Program → ℕ → ℕ → ℕ → Run (ℕ × Program)
  alloc_at program size page offset = elim (heap_alloc page_size program size page offset) [
    | exits ↦ exits
    | diverges ↦ diverges
    | ok program' ↦ ok ((page * page_size + offset + sizeof_heap_metadata) % word, program')
  ]

  unfoldable pub memory_heap_alloc : ℕ → Grant → Program → ℕ → Run (ℕ × Program)
  unfolding alloc_at
  memory_heap_alloc first grant program size =
      if ltb (page_size - sizeof_heap_metadata) size
      then ok (
        error_alloc_bigger_than_page_size,
        record program { interruption_code = error_alloc_bigger_than_page_size },
      )
      else elim (heap_find_space_available page_size program.space program.heap_pages size) [
        | exits ↦ exits
        | diverges ↦ diverges
        | ok (some (page, offset)) ↦ alloc_at program size page offset
        | ok none ↦ elim (heap_new_page page_size first grant program) [
          | exits ↦ exits
          | diverges ↦ diverges
          | ok (result, program') ↦
              if leb (2 ^ 31) result
              then ok (
                error_no_pages_for_process,
                record program' { interruption_code = error_no_pages_for_process },
              )
              else alloc_at program' size result 0
        ]
      ]

  -- An `offset` below 0 has a pattern that is above every page size.
  unfoldable pub memory_heap_free : Program → ℕ → ℕ → Run Program
  memory_heap_free program page offset = elim (find_page program.heap_pages page) [
    | none ↦ ok (record program { interruption_code = error_memory })
    | some _ ↦
        if ltb (page_size - 1) offset
        then ok (record program { interruption_code = error_memory })
        else heap_free page_size program page offset
  ]

-- What the handlers use of `t_cpu` and of the counts in `t_stat`; `sent` are the numbers sent to the CPU.
-- The numbers of calls are taken as unbounded.
pub record Caller : Type 0 where
  pub program : Program
  pub disconnected : Bool
  pub syscall_ejecutadas : ℕ
  pub syscall_privilegiadas : ℕ
  pub cant_call_alloc : ℕ
  pub bytes_alloc : ℕ
  pub cant_call_free : ℕ
  pub sent : List ℕ

abbrev pub count_heap_call : Caller → Caller
count_heap_call caller = record caller {
  syscall_ejecutadas = caller.syscall_ejecutadas + 1;
  syscall_privilegiadas = caller.syscall_privilegiadas + 1;
}

-- `div` of an `int`, which rounds towards 0.
abbrev pub int_div : ℕ → ℕ → ℕ × ℕ
int_div n m =
    if ltb n (2 ^ 31)
    then (n / m, n % m)
    else ((word - (word - n) / m) % word, (word - (word - n) % m) % word)

module _ (page_size : ℕ) where
  -- Given is the size, if it comes, and whether the answer goes through.
  unfoldable pub handle_cpu_alocar : ℕ → Grant → Option ℕ → Bool → Caller → Run Caller
  handle_cpu_alocar first grant none goes caller =
      ok (record (count_heap_call caller) { disconnected = true })
  handle_cpu_alocar first grant (some size) goes caller =
      elim (memory_heap_alloc page_size first grant caller.program size) [
        | exits ↦ exits
        | diverges ↦ diverges
        | ok (puntero, program') ↦
            let called = record (count_heap_call caller) { program = program' } in
            if goes
            then ok (record called {
              sent = puntero ∷ caller.sent;
              cant_call_alloc = caller.cant_call_alloc + 1;
              bytes_alloc = (caller.bytes_alloc + size) % word;
            })
            else ok (record called { disconnected = true })
      ]

  unfoldable pub handle_cpu_liberar : Option ℕ → Caller → Run Caller
  handle_cpu_liberar none caller = ok (record (count_heap_call caller) { disconnected = true })
  handle_cpu_liberar (some posicion) caller =
      let (page, offset) = int_div posicion page_size in
      elim (memory_heap_free page_size caller.program page offset) [
        | exits ↦ exits
        | diverges ↦ diverges
        | ok program' ↦ ok (record (count_heap_call caller) {
          program = program';
          cant_call_free = caller.cant_call_free + 1;
        })
      ]
