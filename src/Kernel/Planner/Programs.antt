-- ===== src/Kernel/Planner/Programs.antt =====
-- Kernel/src/functions/program.c: a program comes, and a program is interrupted.
pub mod Interrupts
use socketapp.Common.{
  ℕ, zero, suc, ◌+◌, ◌-◌, ◌*◌, ◌/◌, ◌%◌, ◌^◌, ◌≤◌, ◌<◌, ◌≡◌, ◌≢◌, ◌↔◌, ◌⊎◌, refl, sym, ap, ◌∙◌, inl,
  inr, Bool, true, false, not, ◌&&◌, ◌||◌, Option, none, some, List, [], ◌∷◌, ◌++◌, subst, arith,
  word, neg, ltb, leb, ◌==◌, if◌then◌else◌, ◌>>=◌, get_elem?, set, length, replicate,
  get_elem?_of_lt, lt_of_get_elem?, get_elem?-set_self, get_elem?-set_ne, length-set, length-append,
  take, drop, append-nil, append_assoc, ==_iff, ==_refl, ==-eq-false, Bool-cases, Option-cases,
  same_bytes, same_bytes_iff, List-cases,
}
use socketapp.Kernel.Planner.{
  Process, Cpu, Kernel, KernelConfig, number, program_finish, planificador_largo_plazo,
  cpu_inactive_planner,
}

-- `list_find` and `list_remove_by_condition`.
unfoldable pub find_program : (Process → Bool) → List Process → Option Process
find_program condition [] = none
find_program condition (program ∷ programs) =
    if condition program then some program else find_program condition programs

unfoldable pub remove_program : (Process → Bool) → List Process → List Process
remove_program condition [] = []
remove_program condition (program ∷ programs) =
    if condition program then programs else program ∷ remove_program condition programs

-- The program of the first CPU whose program meets the condition, and a write through its pointer.
unfoldable pub find_running : (Process → Bool) → List Cpu → Option Process
find_running condition [] = none
find_running condition (cpu ∷ cpus) =
    let rest = find_running condition cpus in
    elim cpu.program [
      | none ↦ rest
      | some program ↦ if condition program then some program else rest
    ]

unfoldable pub set_running : (Process → Bool) → (Process → Process) → List Cpu → List Cpu
set_running condition change [] = []
set_running condition change (cpu ∷ cpus) =
    let rest = cpu ∷ set_running condition change cpus in
    elim cpu.program [
      | none ↦ rest
      | some program ↦
          if condition program then record cpu { program = some (change program) } ∷ cpus else rest
    ]

abbrev pub has_socket : ℕ → Process → Bool
has_socket socket program = program.socket == socket

-- `program_finish` of a program that was found in a queue and taken out of it.
abbrev pub interrupt : ℕ → Process → Kernel → Kernel
interrupt code program kernel = program_finish kernel (record program { exit_code = code })

abbrev pub interrupt_running : ℕ → Bool → Process → Process
interrupt_running code override program =
    if program.interruption_code == 0 || override
    then record program { interruption_code = code }
    else program

unfoldable pub program_interrup : ℕ → ℕ → Bool → Kernel → Kernel
program_interrup socket code override kernel = elim (find_running (has_socket socket) kernel.cpus) [
  | some _ ↦ record kernel {
    cpus = set_running (has_socket socket) (interrupt_running code override) kernel.cpus;
  }
  | none ↦ elim (find_program (has_socket socket) kernel.new_programs) [
    | some program ↦
        interrupt code program
          (record kernel { new_programs = remove_program (has_socket socket) kernel.new_programs })
    | none ↦ elim (find_program (has_socket socket) kernel.blocked) [
      | some program ↦
          interrupt code program
            (record kernel { blocked = remove_program (has_socket socket) kernel.blocked })
      | none ↦ elim (find_program (has_socket socket) kernel.ready) [
        | some program ↦
            interrupt code program
              (record kernel { ready = remove_program (has_socket socket) kernel.ready })
        | none ↦ kernel
      ]
    ]
  ]
]

module _ (config : KernelConfig) where
  abbrev pub created : ℕ → ℕ → ℕ → Process
  created pid socket code_size = record {
    pid = pid;
    socket = socket;
    interruption_code = 0;
    exit_code = 1;
    code_size = code_size;
    cant_pags_codigo = 0;
    max_stack_position = 0;
    waiting = false;
    waiting_reason = some [];
    quantum = 0;
    rafagas = 0;
    syscall_ejecutadas = 0;
    syscall_privilegiadas = 0;
  }

  -- `goes`: the pid reaches the console; `code_size`: what it sends then, if it does.
  unfoldable pub program_process_new : ℕ → Bool → Option ℕ → Kernel → Kernel
  program_process_new socket goes code_size kernel =
      let pid = kernel.program_id + 1 in
      let numbered = record kernel { program_id = pid } in
      if not goes then numbered else elim code_size [
        | none ↦ record numbered { sent = kernel.sent ++ (number socket pid ∷ []) }
        | some size ↦ cpu_inactive_planner config (
            planificador_largo_plazo config (record numbered {
              new_programs = kernel.new_programs ++ (created pid socket size ∷ []);
              sent = kernel.sent ++ (number socket pid ∷ []);
            }))
      ]
