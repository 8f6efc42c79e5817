-- ===== src/Tests/Planner.antt =====
-- Kernel: three programs, one on a CPU, one ready and one new, and a semaphore that is taken.
use socketapp.Common.{
  ℕ, ◌+◌, ◌-◌, ◌^◌, ◌≤◌, ◌<◌, ◌≡◌, ◌≢◌, refl, sym, ap, ◌∙◌, inl, inr, true, false, none, some, List,
  [], ◌∷◌, subst, arith, word, ltb, if◌then◌else◌, Bool-cases, same_bytes,
}
use mathlib.Core.Option.{some-injective}
use socketapp.Kernel.Planner.{Process, Cpu, Semaforo, Kernel, KernelConfig, rr}
use socketapp.Kernel.Planner.Places.{places}
use socketapp.Kernel.Planner.Cpus.{cpu_find, handle_end_burst}
use socketapp.Kernel.Planner.Cpus.Moves.{handle_end_burst-lost}
use socketapp.Kernel.Planner.Cpus.Burst.{bursts, bursts-quantum}
use socketapp.Kernel.Planner.Programs.{program_process_new}
use socketapp.Kernel.Planner.Semaphores.{find_nombre, handle_cpu_wait, handle_cpu_signal}
use socketapp.Kernel.Planner.Semaphores.Waiters.{waiters}
use socketapp.Kernel.Planner.Semaphores.Balance.{NoneAt, Fair}
use socketapp.Kernel.Planner.Semaphores.Wait.{handle_cpu_wait-Fair}
use socketapp.Kernel.Planner.Semaphores.Signal.{handle_cpu_signal-Fair}
use socketapp.Kernel.Planner.Steps.{process_new, lost_in, Reach, here, next, Safe}
use socketapp.Kernel.Planner.Steps.EndBurst.{handle_end_burst-Fair}
use socketapp.Kernel.Planner.Steps.Reached.{Kept, Reach-Kept}

abbrev round_robin : KernelConfig
round_robin = record {
  algoritmo = rr;
  quantum = 2;
  grado_multiprog = 2;
  stack_size = 2;
  frame_size = 32;
  init_answer = λ pid pages. 0;
  write_answer = λ pid. 40;
}

abbrev process : ℕ → Process
process pid = record {
  pid = pid;
  socket = 20 + pid;
  interruption_code = 0;
  exit_code = 1;
  code_size = 40;
  cant_pags_codigo = 0;
  max_stack_position = 0;
  waiting = false;
  waiting_reason = some [];
  quantum = 2;
  rafagas = 0;
  syscall_ejecutadas = 0;
  syscall_privilegiadas = 0;
}

-- The semaphore `c` is taken.
abbrev taken : Semaforo
taken = record { nombre = 99 ∷ []; value = 0 }

abbrev busy_cpu : Cpu
busy_cpu = record { socket = 5; program = some (process 1); disconnected = false }

abbrev kernel_two : Kernel
kernel_two = record {
  program_id = 3;
  new_programs = process 3 ∷ [];
  ready = process 2 ∷ [];
  blocked = [];
  finished = [];
  cpus = busy_cpu ∷ [];
  semaforos = taken ∷ [];
  shared_vars = [];
  sent = [];
}

kernel_two-Safe : Safe kernel_two
kernel_two-Safe pid = (grind arith, λ above. grind arith)

only_taken :
    (n : List ℕ) (sem : Semaforo) → find_nombre n kernel_two.semaforos ≡ some sem → taken ≡ sem
unfolding find_nombre
only_taken n sem found = elim (Bool-cases (same_bytes n (99 ∷ []))) [
  | inl same ↦ some-injective taken sem (rw same at found)
  | inr different ↦ let e : none ≡ some sem = rw different at found in absurd (ground arith)
]

kernel_two-Fair : Fair kernel_two
kernel_two-Fair = (
  λ n sem found.
      subst
        (λ s.
          (s.value < word)
          × (waiters n kernel_two ≡ (if ltb s.value (2 ^ 31) then 0 else word - s.value)))
        (only_taken n sem found) (omega arith, refl),
  ((refl, tt), (refl, tt)),
)

kernel_two-NoneAt : (value : ℕ) → value ≢ 0 → NoneAt value kernel_two
kernel_two-NoneAt value h n sem found e =
    h (sym e ∙ sym (ap (λ s. s.value) (only_taken n sem found)))

kernel_two-distinct : (q : ℕ) → places kernel_two q ≤ 1
kernel_two-distinct q = (kernel_two-Safe q).0

busy-found : cpu_find 5 kernel_two.cpus ≡ some busy_cpu
unfolding cpu_find
busy-found = refl

handle_end_burst-lost_example :
    (kernel' : Kernel) × (handle_end_burst round_robin 5 0 none kernel_two ≡ some kernel')
    × (places kernel' 1 + 1 ≡ places kernel_two 1)
handle_end_burst-lost_example =
    handle_end_burst-lost round_robin kernel_two kernel_two-distinct 5 {cpu = busy_cpu}
      {program = process 1} busy-found refl 0 1

bursts-quantum_example : bursts 2 (process 1) ≡ (1 ∷ 0 ∷ [], record (process 1) { quantum = 0 })
bursts-quantum_example = bursts-quantum 1 (process 1) refl refl (omega arith)

handle_cpu_wait-Fair_example :
    (kernel' : Kernel) × (handle_cpu_wait 5 (some (99 ∷ [])) true true kernel_two ≡ some kernel')
    × Fair kernel'
handle_cpu_wait-Fair_example =
    handle_cpu_wait-Fair 5 (some (99 ∷ [])) true true kernel_two busy_cpu (process 1) busy-found
      refl refl kernel_two-Fair (kernel_two-NoneAt (2 ^ 31) (omega arith))

handle_end_burst-Fair_example :
    (kernel' : Kernel) × (handle_end_burst round_robin 5 0 (some 0) kernel_two ≡ some kernel')
    × Fair kernel'
handle_end_burst-Fair_example =
    handle_end_burst-Fair round_robin 5 0 0 kernel_two busy_cpu (process 1) busy-found refl
      (omega arith) kernel_two-Fair

handle_cpu_signal-Fair_example :
    (kernel' : Kernel) × (handle_cpu_signal round_robin 5 (some (99 ∷ [])) true kernel_two
      ≡ some kernel')
    × Fair kernel'
handle_cpu_signal-Fair_example =
    handle_cpu_signal-Fair round_robin 5 (some (99 ∷ [])) true kernel_two busy_cpu (process 1)
      busy-found refl kernel_two-Fair (kernel_two-NoneAt (2 ^ 31 - 1) (omega arith))

abbrev with_four : Kernel
with_four = program_process_new round_robin 24 true (some 40) kernel_two

with_four-Reach : Reach round_robin kernel_two with_four
with_four-Reach = next here (process_new 24 true (some 40))

Reach-Kept_example : Kept kernel_two with_four (λ q. lost_in with_four-Reach q)
Reach-Kept_example = Reach-Kept round_robin kernel_two with_four kernel_two-Safe with_four-Reach
