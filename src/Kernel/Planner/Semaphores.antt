-- ===== src/Kernel/Planner/Semaphores.antt =====
-- The semaphores and the shared variables: `program_unblock` of program.c, and the handlers of
-- handler.c. `none`: the Kernel reads through a null pointer.
pub mod Waiters
pub mod Lookup
pub mod Unblock
pub mod Writes
pub mod Balance
pub mod Wait
pub mod Signal
use socketapp.Common.{
  ℕ, zero, suc, ◌+◌, ◌-◌, ◌*◌, ◌/◌, ◌%◌, ◌^◌, ◌≤◌, ◌<◌, ◌≡◌, ◌≢◌, ◌↔◌, ◌⊎◌, refl, sym, ap, ◌∙◌, inl,
  inr, Bool, true, false, not, ◌&&◌, ◌||◌, Option, none, some, List, [], ◌∷◌, ◌++◌, subst, arith,
  word, neg, ltb, leb, ◌==◌, if◌then◌else◌, ◌>>=◌, get_elem?, set, length, replicate,
  get_elem?_of_lt, lt_of_get_elem?, get_elem?-set_self, get_elem?-set_ne, length-set, length-append,
  take, drop, append-nil, append_assoc, ==_iff, ==_refl, ==-eq-false, Bool-cases, Option-cases,
  same_bytes, same_bytes_iff, List-cases,
}
use socketapp.Kernel.Planner.{
  Process, Cpu, Semaforo, Kernel, KernelConfig, number, success, cpu_inactive_planner,
}
use socketapp.Kernel.Planner.Cpus.{cpu_find, change_cpu, send}
use socketapp.Kernel.Planner.Programs.{find_program, remove_program, find_running, set_running}

abbrev pub error_sem_does_not_exist : ℕ
error_sem_does_not_exist = neg 14

abbrev pub error_shared_var_does_not_exist : ℕ
error_shared_var_does_not_exist = neg 15

unfoldable pub find_nombre : List ℕ → List Semaforo → Option Semaforo
find_nombre nombre [] = none
find_nombre nombre (sem ∷ sems) =
    if same_bytes nombre sem.nombre then some sem else find_nombre nombre sems

unfoldable pub set_value : List ℕ → ℕ → List Semaforo → List Semaforo
set_value nombre value [] = []
set_value nombre value (sem ∷ sems) =
    if same_bytes nombre sem.nombre
    then record sem { value = value } ∷ sems
    else sem ∷ set_value nombre value sems

-- A write through `cpu->program`.
abbrev pub map_held : (Process → Process) → Option Process → Option Process
map_held change none = none
map_held change (some program) = some (change program)

abbrev pub change_program : ℕ → (Process → Process) → Kernel → Kernel
change_program socket change kernel =
    change_cpu socket (λ cpu. record cpu { program = map_held change cpu.program }) kernel

abbrev pub count_syscall : Process → Process
count_syscall program = record program {
  syscall_ejecutadas = program.syscall_ejecutadas + 1;
  syscall_privilegiadas = program.syscall_privilegiadas + 1;
}

abbrev pub interrupted : ℕ → Process → Process
interrupted code program = record program { interruption_code = code }

abbrev pub reason_is : List ℕ → Option (List ℕ) → Bool
reason_is nombre none = false
reason_is nombre (some reason) = same_bytes reason nombre

-- A program that waits has a reason.
abbrev pub is_blocked_by_sem : List ℕ → Process → Bool
is_blocked_by_sem nombre program = program.waiting && reason_is nombre program.waiting_reason

abbrev pub unwait : Process → Process
unwait program = record program { waiting = false; waiting_reason = none }

abbrev pub wait_for : List ℕ → Process → Process
wait_for nombre program = record program { waiting = true; waiting_reason = some nombre }

abbrev pub disconnect : ℕ → Kernel → Kernel
disconnect socket kernel = change_cpu socket (λ cpu. record cpu { disconnected = true }) kernel

module _ (config : KernelConfig) where
  unfoldable pub program_unblock : List ℕ → Kernel → Kernel
  program_unblock nombre kernel = elim (find_program (is_blocked_by_sem nombre) kernel.blocked) [
    | some program ↦ cpu_inactive_planner config (record kernel {
      blocked = remove_program (is_blocked_by_sem nombre) kernel.blocked;
      ready = kernel.ready ++ (unwait program ∷ []);
    })
    | none ↦ record kernel { cpus = set_running (is_blocked_by_sem nombre) unwait kernel.cpus }
  ]

-- The handlers take what they receive from the CPU, if it comes, and whether their sends go through.
-- The first half: the name is received and looked up, and the CPU is told; `act` is the rest.
unfoldable pub with_nombre :
    (Kernel → List Semaforo)
    → ℕ
    → ℕ
    → Option (List ℕ)
    → Bool
    → (List ℕ → Semaforo → Kernel → Kernel)
    → Kernel
    → Option Kernel
with_nombre table error socket nombre goes act kernel = do
  cpu ← cpu_find socket kernel.cpus
  program ← cpu.program
  let counted = change_program socket count_syscall kernel
  elim nombre [
    | none ↦ some (disconnect socket counted)
    | some nombre ↦ elim (find_nombre nombre (table kernel)) [
      | none ↦ some (
          send socket (success socket false) goes
            (change_program socket (interrupted error) counted))
      | some sem ↦
          if goes
          then some (act nombre sem (send socket (success socket true) true counted))
          else some (disconnect socket counted)
    ]
  ]

abbrev pub semaforos_of : Kernel → List Semaforo
semaforos_of kernel = kernel.semaforos

abbrev pub shared_vars_of : Kernel → List Semaforo
shared_vars_of kernel = kernel.shared_vars

-- `goes'`: the answer goes through.
unfoldable pub wait_on : ℕ → Bool → List ℕ → Semaforo → Kernel → Kernel
wait_on socket goes' nombre sem kernel =
    let value = (sem.value + word - 1) % word in
    let lowered = record kernel { semaforos = set_value nombre value kernel.semaforos } in
    if ltb value (2 ^ 31)
    then send socket (number socket 1) goes' lowered
    else send socket (number socket 0) goes' (change_program socket (wait_for nombre) lowered)

abbrev pub handle_cpu_wait : ℕ → Option (List ℕ) → Bool → Bool → Kernel → Option Kernel
handle_cpu_wait socket nombre goes goes' kernel =
    with_nombre semaforos_of error_sem_does_not_exist socket nombre goes (wait_on socket goes')
      kernel

unfoldable pub signal_on : KernelConfig → List ℕ → Semaforo → Kernel → Kernel
signal_on config nombre sem kernel =
    program_unblock config nombre
      (record kernel { semaforos = set_value nombre ((sem.value + 1) % word) kernel.semaforos })

abbrev pub handle_cpu_signal : KernelConfig → ℕ → Option (List ℕ) → Bool → Kernel → Option Kernel
handle_cpu_signal config socket nombre goes kernel =
    with_nombre semaforos_of error_sem_does_not_exist socket nombre goes (signal_on config) kernel

abbrev pub handle_cpu_get_shared_variable :
    ℕ → Option (List ℕ) → Bool → Bool → Kernel → Option Kernel
handle_cpu_get_shared_variable socket nombre goes goes' kernel =
    with_nombre shared_vars_of error_shared_var_does_not_exist socket nombre goes
      (λ nombre var kernel. send socket (number socket var.value) goes' kernel) kernel

unfoldable pub handle_cpu_set_shared_variable :
    ℕ → Option (List ℕ) → Option ℕ → Bool → Kernel → Option Kernel
handle_cpu_set_shared_variable socket nombre value goes kernel = do
  cpu ← cpu_find socket kernel.cpus
  program ← cpu.program
  let counted = change_program socket count_syscall kernel
  elim nombre [
    | none ↦ some (disconnect socket counted)
    | some nombre ↦ elim value [
      | none ↦ some (disconnect socket counted)
      | some value ↦ elim (find_nombre nombre kernel.shared_vars) [
        | none ↦ some (
            send socket (success socket false) goes
              (change_program socket (interrupted error_shared_var_does_not_exist) counted))
        | some var ↦ some (
            send socket (success socket true) goes
              (record counted { shared_vars = set_value nombre value kernel.shared_vars }))
      ]
    ]
  ]
