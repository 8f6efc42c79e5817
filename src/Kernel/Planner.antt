-- ===== src/Kernel/Planner.antt =====
-- Kernel/src/planner, and what it uses of functions/program.c and functions/cpu.c: the queues of the
-- programs and the CPUs. One handler runs at a time: it holds the mutex of the CPUs.
pub mod Places
pub mod Untouched
pub mod Admission
pub mod Cpus
pub mod Programs
pub mod Semaphores
pub mod Steps
use socketapp.Common.{
  ℕ, zero, suc, ◌+◌, ◌-◌, ◌*◌, ◌/◌, ◌%◌, ◌^◌, ◌≤◌, ◌<◌, ◌≡◌, ◌≢◌, ◌↔◌, ◌⊎◌, refl, sym, ap, ◌∙◌, inl,
  inr, Bool, true, false, not, ◌&&◌, ◌||◌, Option, none, some, List, [], ◌∷◌, ◌++◌, subst, arith,
  word, neg, ltb, leb, ◌==◌, if◌then◌else◌, ◌>>=◌, get_elem?, set, length, replicate,
  get_elem?_of_lt, lt_of_get_elem?, get_elem?-set_self, get_elem?-set_ne, length-set, length-append,
  take, drop, append-nil, append_assoc, ==_iff, ==_refl, ==-eq-false, Bool-cases, Option-cases,
  same_bytes, same_bytes_iff,
}

-- What the planner uses of `t_program` and its PCB. A pid stands for the pointer to the program.
pub record Process : Type 0 where
  pub pid : ℕ
  pub socket : ℕ
  pub interruption_code : ℕ
  pub exit_code : ℕ
  pub code_size : ℕ
  pub cant_pags_codigo : ℕ
  pub max_stack_position : ℕ
  pub waiting : Bool
  pub waiting_reason : Option (List ℕ)
  pub quantum : ℕ
  pub rafagas : ℕ
  pub syscall_ejecutadas : ℕ
  pub syscall_privilegiadas : ℕ

-- `t_cpu`
pub record Cpu : Type 0 where
  pub socket : ℕ
  pub program : Option Process
  pub disconnected : Bool

-- `t_semaforo` and `t_sharedVar`
pub record Semaforo : Type 0 where
  pub nombre : List ℕ
  pub value : ℕ

-- What the Kernel sends, in its order: a PCB, a number and "Success" or "Failure" to a CPU, the end of
-- a program to Memory, and "FinEjecucion" with the exit code to a console.
pub data Message : Type 0 where
  pcb : ℕ → ℕ → Message
  number : ℕ → ℕ → Message
  success : ℕ → Bool → Message
  memory_end : ℕ → Message
  fin_ejecucion : ℕ → ℕ → Message

pub record Kernel : Type 0 where
  pub program_id : ℕ
  pub new_programs : List Process
  pub ready : List Process
  pub blocked : List Process
  pub finished : List Process
  pub cpus : List Cpu
  pub semaforos : List Semaforo
  pub shared_vars : List Semaforo
  pub sent : List Message

pub data Algoritmo : Type 0 where
  fifo rr other : Algoritmo

-- `t_kernel`, and what Memory answers: its frame size, to `memory_init` with a number of pages, and to
-- the write of the code.
pub record KernelConfig : Type 0 where
  pub algoritmo : Algoritmo
  pub quantum : ℕ
  pub grado_multiprog : ℕ
  pub stack_size : ℕ
  pub frame_size : ℕ
  pub init_answer : ℕ → ℕ → ℕ
  pub write_answer : ℕ → ℕ

abbrev pub error_console_disconnected : ℕ
error_console_disconnected = neg 6

abbrev pub error_console_finish_command : ℕ
error_console_finish_command = neg 7

unfoldable pub program_did_finish : List Process → Process → Bool
program_did_finish [] program = false
program_did_finish (p ∷ finished) program =
    let rest = program_did_finish finished program in if p.pid == program.pid then true else rest

abbrev pub is_console_error : ℕ → Bool
is_console_error code = code == error_console_disconnected || code == error_console_finish_command

unfoldable pub program_finish : Kernel → Process → Kernel
program_finish kernel program =
    if program_did_finish kernel.finished program then kernel else record kernel {
      finished = kernel.finished ++ (program ∷ []);
      sent =
          kernel.sent
          ++ (memory_end program.pid
              ∷ (if is_console_error program.interruption_code || is_console_error program.exit_code
                  then []
                  else fin_ejecucion program.socket program.exit_code ∷ []));
    }

-- The pages of the code: a quotient, and one more for the rest.
abbrev pub pages_of_code : ℕ → ℕ → ℕ
pages_of_code frame_size code_size =
    if ltb (code_size / frame_size * frame_size) code_size
    then code_size / frame_size + 1
    else code_size / frame_size

abbrev pub with_quantum : Algoritmo → ℕ → Process → Process
with_quantum fifo quantum program = record program { quantum = neg 1 }
with_quantum rr quantum program = record program { quantum = quantum }
with_quantum other quantum program = program

unfoldable pub busy_cpus : List Cpu → ℕ
busy_cpus [] = 0
busy_cpus (cpu ∷ cpus) =
    let rest = busy_cpus cpus in elim cpu.program [ none ↦ rest | some _ ↦ rest + 1 ]

abbrev pub take_ready : KernelConfig → Kernel → Option Process × Kernel
take_ready config kernel = elim kernel.ready [
  | [] ↦ (none, kernel)
  | program ∷ ready ↦
      (some (with_quantum config.algoritmo config.quantum program), record kernel { ready = ready })
]

-- `cpu_send_pcb` if there is a program.
abbrev pub cpu_send_pcb : ℕ → Option Process → Kernel → Kernel
cpu_send_pcb socket none kernel = kernel
cpu_send_pcb socket (some program) kernel = record kernel {
  sent = kernel.sent ++ (pcb socket program.pid ∷ []);
}

module _ (config : KernelConfig) where
  unfoldable pub program_to_ready : Process → ℕ × Process
  program_to_ready program =
      if config.frame_size == 0 || leb (2 ^ 31) config.frame_size
      then (neg 20, program)
      else (let program' = record program {
        cant_pags_codigo = pages_of_code config.frame_size program.code_size;
        max_stack_position = config.stack_size * config.frame_size;
      } in
          let answer =
            config.init_answer program.pid (program'.cant_pags_codigo + config.stack_size) in
          if not (answer == 0)
          then (answer, program')
          else if not (config.write_answer program.pid == program.code_size)
          then (config.write_answer program.pid, program')
          else (0, program'))

  -- The loop of `planificador_largo_plazo`; `corriendo` is `cantCorriendo`.
  unfoldable pub admit : List Process → ℕ → Kernel → Kernel
  admit [] corriendo kernel = record kernel { new_programs = [] }
  admit (program ∷ programs) corriendo kernel =
      let (status, program') = program_to_ready program in
      let admitted =
        admit programs (corriendo + 1)
          (record kernel { ready = kernel.ready ++ (program' ∷ []) }) in
      let refused =
        admit programs corriendo (program_finish kernel (record program' { exit_code = status })) in
      if ltb corriendo config.grado_multiprog
      then (if status == 0 then admitted else refused)
      else record kernel { new_programs = program ∷ programs }

  unfoldable pub planificador_largo_plazo : Kernel → Kernel
  planificador_largo_plazo kernel =
      admit kernel.new_programs (length kernel.ready + busy_cpus kernel.cpus) kernel

  unfoldable pub planificar : Kernel → Option Process × Kernel
  planificar kernel = take_ready config (planificador_largo_plazo kernel)

  -- `list_iterate` of `cpu_inactive_planner`; the CPUs in `before` are done.
  unfoldable pub inactive_from : List Cpu → List Cpu → Kernel → Kernel
  inactive_from before [] kernel = record kernel { cpus = before }
  inactive_from before (cpu ∷ cpus) kernel = elim cpu.program [
    | some _ ↦ inactive_from (before ++ (cpu ∷ [])) cpus kernel
    | none ↦
        let (program, kernel') = planificar (record kernel { cpus = before ++ cpu ∷ cpus }) in
        inactive_from (before ++ (record cpu { program = program } ∷ [])) cpus
          (cpu_send_pcb cpu.socket program kernel')
  ]

  unfoldable pub cpu_inactive_planner : Kernel → Kernel
  cpu_inactive_planner kernel = inactive_from [] kernel.cpus kernel
