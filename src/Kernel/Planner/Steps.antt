-- ===== src/Kernel/Planner/Steps.antt =====
-- The Kernel handles what its sockets bring, one handler after another: a step relation, and what every
-- run keeps. The requests for the heap and for files move no program and
-- are not steps here.
pub mod Same
pub mod Handlers
pub mod Reached
pub mod EndBurst
use socketapp.Common.{
  ℕ, zero, suc, ◌+◌, ◌-◌, ◌*◌, ◌/◌, ◌%◌, ◌^◌, ◌≤◌, ◌<◌, ◌≡◌, ◌≢◌, ◌↔◌, ◌⊎◌, refl, sym, ap, ◌∙◌, inl,
  inr, Bool, true, false, not, ◌&&◌, ◌||◌, Option, none, some, List, [], ◌∷◌, ◌++◌, subst, arith,
  word, neg, ltb, leb, ◌==◌, if◌then◌else◌, ◌>>=◌, get_elem?, set, length, replicate,
  get_elem?_of_lt, lt_of_get_elem?, get_elem?-set_self, get_elem?-set_ne, length-set, length-append,
  take, drop, append-nil, append_assoc, ==_iff, ==_refl, ==-eq-false, Bool-cases, Option-cases,
  same_bytes, same_bytes_iff, List-cases,
}
use socketapp.Kernel.Planner.{Process, Cpu, Kernel, KernelConfig}
use socketapp.Kernel.Planner.Places.{places, count_one}
use socketapp.Kernel.Planner.Cpus.{
  cpu_find, handle_new_cpu, handle_interruption, handle_still_burst, handle_end_burst,
  select_cpu_socket_connection_lost, destroy_disconnected,
}
use socketapp.Kernel.Planner.Programs.{program_process_new, program_interrup}
use socketapp.Kernel.Planner.Semaphores.{
  handle_cpu_wait, handle_cpu_signal, handle_cpu_get_shared_variable,
  handle_cpu_set_shared_variable,
}

-- One handler. When a burst ends its PCB comes; the number behind it may not, and then the CPU that was
-- found has run a program.
pub data Step (config : KernelConfig) (kernel : Kernel) : Kernel → Type 0 where
  new_cpu :
      (garbage : Option Process) (socket : ℕ)
      → Step config kernel (handle_new_cpu config garbage socket kernel)
  interruption :
      (socket : ℕ) (goes : Bool) {kernel' : Kernel}
      → handle_interruption socket goes kernel ≡ some kernel'
      → Step config kernel kernel'
  still_burst :
      (socket : ℕ) (goes : Bool) {kernel' : Kernel}
      → handle_still_burst socket goes kernel ≡ some kernel'
      → Step config kernel kernel'
  end_burst :
      (socket exit_code termino : ℕ) {kernel' : Kernel}
      → handle_end_burst config socket exit_code (some termino) kernel ≡ some kernel'
      → Step config kernel kernel'
  end_burst_lost :
      (socket exit_code : ℕ) (cpu : Cpu) (program : Process) {kernel' : Kernel}
      → cpu_find socket kernel.cpus ≡ some cpu
      → cpu.program ≡ some program
      → handle_end_burst config socket exit_code none kernel ≡ some kernel'
      → Step config kernel kernel'
  wait :
      (socket : ℕ) (nombre : Option (List ℕ)) (goes goes' : Bool) {kernel' : Kernel}
      → handle_cpu_wait socket nombre goes goes' kernel ≡ some kernel'
      → Step config kernel kernel'
  signal :
      (socket : ℕ) (nombre : Option (List ℕ)) (goes : Bool) {kernel' : Kernel}
      → handle_cpu_signal config socket nombre goes kernel ≡ some kernel'
      → Step config kernel kernel'
  get_shared_variable :
      (socket : ℕ) (nombre : Option (List ℕ)) (goes goes' : Bool) {kernel' : Kernel}
      → handle_cpu_get_shared_variable socket nombre goes goes' kernel ≡ some kernel'
      → Step config kernel kernel'
  set_shared_variable :
      (socket : ℕ) (nombre : Option (List ℕ)) (value : Option ℕ) (goes : Bool) {kernel' : Kernel}
      → handle_cpu_set_shared_variable socket nombre value goes kernel ≡ some kernel'
      → Step config kernel kernel'
  connection_lost :
      (socket : ℕ) {kernel' : Kernel}
      → select_cpu_socket_connection_lost socket kernel ≡ some kernel'
      → Step config kernel kernel'
  destroyed :
      {kernel' : Kernel} → destroy_disconnected kernel ≡ some kernel' → Step config kernel kernel'
  process_new :
      (socket : ℕ) (goes : Bool) (code_size : Option ℕ)
      → Step config kernel (program_process_new config socket goes code_size kernel)
  interrup :
      (socket code : ℕ) (override : Bool)
      → Step config kernel (program_interrup socket code override kernel)

-- A run: any number of handlers in any order.
pub data Reach (config : KernelConfig) (kernel : Kernel) : Kernel → Type 0 where
  here : Reach config kernel kernel
  next :
      {kernel' kernel'' : Kernel}
      → Reach config kernel kernel'
      → Step config kernel' kernel''
      → Reach config kernel kernel''

-- How often a run has lost the program: at ends of its bursts without the number.
abbrev pub lost_by :
    {config : KernelConfig} {kernel kernel' : Kernel} → Step config kernel kernel' → ℕ → ℕ
lost_by (end_burst_lost socket exit_code cpu program found runs e) pid = count_one pid program
lost_by _ pid = 0

abbrev pub lost_in :
    {config : KernelConfig} {kernel kernel' : Kernel} → Reach config kernel kernel' → ℕ → ℕ
lost_in here pid = 0
lost_in (next run step) pid = lost_in run pid + lost_by step pid

-- No program stands in two places, and no pid above the last one is in use.
abbrev pub Safe : Kernel → Type 0
Safe kernel =
    (pid : ℕ) → (places kernel pid ≤ 1) × (kernel.program_id < pid → places kernel pid ≡ 0)
