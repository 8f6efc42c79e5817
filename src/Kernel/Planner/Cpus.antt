-- ===== src/Kernel/Planner/Cpus.antt =====
-- The handlers of Kernel/src/threads/cpu that hand programs to CPUs and take them back: handler.c and
-- select.c. `none`: the Kernel reads through a null pointer.
pub mod Writes
pub mod Moves
pub mod Lost
pub mod Burst
use socketapp.Common.{
  ℕ, zero, suc, ◌+◌, ◌-◌, ◌*◌, ◌/◌, ◌%◌, ◌^◌, ◌≤◌, ◌<◌, ◌≡◌, ◌≢◌, ◌↔◌, ◌⊎◌, refl, sym, ap, ◌∙◌, inl,
  inr, Bool, true, false, not, ◌&&◌, ◌||◌, Option, none, some, List, [], ◌∷◌, ◌++◌, subst, arith,
  word, neg, ltb, leb, ◌==◌, if◌then◌else◌, ◌>>=◌, get_elem?, set, length, replicate,
  get_elem?_of_lt, lt_of_get_elem?, get_elem?-set_self, get_elem?-set_ne, length-set, length-append,
  take, drop, append-nil, append_assoc, ==_iff, ==_refl, ==-eq-false, Bool-cases, Option-cases,
  same_bytes, same_bytes_iff, List-cases,
}
use socketapp.Kernel.Planner.{
  Process, Cpu, Kernel, KernelConfig, Message, number, program_finish, planificar, cpu_send_pcb,
}

abbrev pub error_cpu_disconnected : ℕ
error_cpu_disconnected = neg 16

unfoldable pub cpu_find : ℕ → List Cpu → Option Cpu
cpu_find socket [] = none
cpu_find socket (cpu ∷ cpus) = if cpu.socket == socket then some cpu else cpu_find socket cpus

-- A write through the pointer that `cpu_find` answers.
unfoldable pub set_cpu : ℕ → (Cpu → Cpu) → List Cpu → List Cpu
set_cpu socket change [] = []
set_cpu socket change (cpu ∷ cpus) =
    if cpu.socket == socket then change cpu ∷ cpus else cpu ∷ set_cpu socket change cpus

abbrev pub change_cpu : ℕ → (Cpu → Cpu) → Kernel → Kernel
change_cpu socket change kernel = record kernel { cpus = set_cpu socket change kernel.cpus }

-- A send to the CPU; if it does not go through, the CPU is marked.
abbrev pub send : ℕ → Message → Bool → Kernel → Kernel
send socket message true kernel = record kernel { sent = kernel.sent ++ (message ∷ []) }
send socket message false kernel =
    change_cpu socket (λ cpu. record cpu { disconnected = true }) kernel

unfoldable pub handle_interruption : ℕ → Bool → Kernel → Option Kernel
handle_interruption socket goes kernel = do
  cpu ← cpu_find socket kernel.cpus
  program ← cpu.program
  some (send socket (number socket program.interruption_code) goes kernel)

-- `burst` and the program after it.
unfoldable pub burst : Process → ℕ × Process
burst program =
    if program.waiting
    then (0, record program { quantum = 0 })
    else if program.quantum == neg 1
    then (1, program)
    else (let left = (program.quantum + word - 1) % word in
        (if left == 0 then 0 else 1, record program { quantum = left }))

unfoldable pub handle_still_burst : ℕ → Bool → Kernel → Option Kernel
handle_still_burst socket goes kernel = do
  cpu ← cpu_find socket kernel.cpus
  program ← cpu.program
  some (
      send socket (number socket (burst program).0) goes
        (change_cpu socket (λ cpu. record cpu { program = some (burst program).1 }) kernel))

-- Where a program goes whose burst is over.
unfoldable pub after_burst : ℕ → Process → Kernel → Kernel
after_burst termino program kernel =
    if termino == 1
    then program_finish kernel program
    else if program.waiting
    then record kernel { blocked = kernel.blocked ++ (program ∷ []) }
    else record kernel { ready = kernel.ready ++ (program ∷ []) }

unfoldable pub remove_cpu : (Cpu → Bool) → List Cpu → List Cpu
remove_cpu condition [] = []
remove_cpu condition (cpu ∷ cpus) = if condition cpu then cpus else cpu ∷ remove_cpu condition cpus

abbrev pub lost : Process → Process
lost program = record program {
  interruption_code = error_cpu_disconnected;
  exit_code = error_cpu_disconnected;
}

unfoldable pub select_cpu_socket_connection_lost : ℕ → Kernel → Option Kernel
select_cpu_socket_connection_lost socket kernel = do
  cpu ← cpu_find socket kernel.cpus
  let kernel' = record kernel { cpus = remove_cpu (λ cpu. cpu.socket == socket) kernel.cpus }
  elim cpu.program [
    | none ↦ some kernel'
    | some program ↦ some (program_finish kernel' (lost program))
  ]

abbrev pub is_disconnected : Cpu → Bool
is_disconnected cpu = cpu.disconnected

unfoldable pub find_disconnected : List Cpu → Option Cpu
find_disconnected [] = none
find_disconnected (cpu ∷ cpus) = if cpu.disconnected then some cpu else find_disconnected cpus

-- The end of `select_cpu_socket_recive_package`.
unfoldable pub destroy_disconnected : Kernel → Option Kernel
destroy_disconnected kernel = elim (find_disconnected kernel.cpus) [
  | none ↦ some kernel
  | some cpu ↦ do
    program ← cpu.program
    some (
        program_finish (record kernel { cpus = remove_cpu is_disconnected kernel.cpus })
          (lost program))
]

module _ (config : KernelConfig) where
  -- The CPU is in the list before its program is set; `garbage` is what `malloc` left there.
  unfoldable pub handle_new_cpu : Option Process → ℕ → Kernel → Kernel
  handle_new_cpu garbage socket kernel =
      let cpu : Cpu = record { socket = socket; program = garbage; disconnected = false } in
      let (program, kernel') =
        planificar config (record kernel { cpus = kernel.cpus ++ (cpu ∷ []) }) in
      cpu_send_pcb socket program
        (record kernel' { cpus = kernel.cpus ++ (record cpu { program = program } ∷ []) })

  -- The program's PCB is the one that was received, with `exit_code`. `termino` is what is read behind
  -- it, if anything is.
  unfoldable pub handle_end_burst : ℕ → ℕ → Option ℕ → Kernel → Option Kernel
  handle_end_burst socket exit_code termino kernel = do
    cpu ← cpu_find socket kernel.cpus
    program ← cpu.program
    let program' = record program {
      exit_code = exit_code;
      quantum = 0;
      rafagas = program.rafagas + 1;
    }
    let idle = change_cpu socket (λ cpu. record cpu { program = none }) kernel
    elim termino [
      | none ↦ some (change_cpu socket (λ cpu. record cpu { disconnected = true }) idle)
      | some code ↦
          let (next, kernel') = planificar config (after_burst code program' idle) in
          some (
            cpu_send_pcb socket next
              (change_cpu socket (λ cpu. record cpu { program = next }) kernel'))
    ]
