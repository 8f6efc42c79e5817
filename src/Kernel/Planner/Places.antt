-- ===== src/Kernel/Planner/Places.antt =====
-- Where the programs are: how often a pid stands in the queues and on the CPUs.
pub mod Planned
use socketapp.Common.{
  ℕ, ◌+◌, ◌≤◌, ◌<◌, ◌≡◌, refl, ap, ◌∙◌, inl, inr, true, Option, none, some, List, [], ◌∷◌, ◌++◌,
  arith, ltb, ◌==◌, if◌then◌else◌, length, append_assoc, Bool-cases, Option-cases, List-cases,
}
use socketapp.Kernel.Planner.{
  Process, Cpu, Kernel, KernelConfig, Algoritmo, fifo, rr, other, program_did_finish,
  program_finish, program_to_ready, busy_cpus, admit, planificador_largo_plazo, with_quantum,
  take_ready, planificar, cpu_send_pcb, inactive_from, cpu_inactive_planner,
}

abbrev pub count_one : ℕ → Process → ℕ
count_one pid program = if program.pid == pid then 1 else 0

abbrev pub count_pid : ℕ → List Process → ℕ
count_pid pid [] = 0
count_pid pid (program ∷ programs) = count_one pid program + count_pid pid programs

abbrev pub count_held : ℕ → Option Process → ℕ
count_held pid none = 0
count_held pid (some program) = count_one pid program

abbrev pub count_cpus : ℕ → List Cpu → ℕ
count_cpus pid [] = 0
count_cpus pid (cpu ∷ cpus) = count_held pid cpu.program + count_cpus pid cpus

abbrev pub elsewhere : Kernel → ℕ → ℕ
elsewhere kernel pid =
    count_pid pid kernel.ready
    + count_pid pid kernel.blocked
    + count_pid pid kernel.finished
    + count_cpus pid kernel.cpus

-- How often a program stands in a queue or on a CPU.
abbrev pub places : Kernel → ℕ → ℕ
places kernel pid = count_pid pid kernel.new_programs + elsewhere kernel pid

pub count_pid-append :
    (pid : ℕ) (xs ys : List Process)
    → count_pid pid (xs ++ ys) ≡ count_pid pid xs + count_pid pid ys
count_pid-append pid [] ys = omega arith
count_pid-append pid (x ∷ xs) ys = omega (arith, count_pid-append pid xs ys)

pub count_cpus-append :
    (pid : ℕ) (xs ys : List Cpu) → count_cpus pid (xs ++ ys) ≡ count_cpus pid xs + count_cpus pid ys
count_cpus-append pid [] ys = omega arith
count_cpus-append pid (x ∷ xs) ys = omega (arith, count_cpus-append pid xs ys)

did_finish-count :
    (finished : List Process) (program : Process)
    → program_did_finish finished program ≡ true
    → 0 < count_pid program.pid finished
unfolding program_did_finish
did_finish-count [] program h = absurd (ground arith)
did_finish-count (p ∷ finished) program h = ground (arith, did_finish-count finished program)

-- A program that is in no queue goes to the finished ones, and everything else stays.
pub program_finish-places :
    (kernel : Kernel) (program : Process) (pid : ℕ)
    → count_pid program.pid kernel.finished ≡ 0
    → (elsewhere (program_finish kernel program) pid ≡ elsewhere kernel pid + count_one pid program)
      × (count_pid pid (program_finish kernel program).new_programs
          ≡ count_pid pid kernel.new_programs)
      × (count_pid pid (program_finish kernel program).finished
          ≡ count_pid pid kernel.finished + count_one pid program)
unfolding program_finish
program_finish-places kernel program pid fresh =
    elim (Bool-cases (program_did_finish kernel.finished program)) [
      | inl done ↦ absurd (omega (arith, did_finish-count kernel.finished program done))
      | inr open' ↦
          rw (open', program_finish)
            (
              omega (arith, count_pid-append pid kernel.finished (program ∷ [])),
              refl,
              omega (arith, count_pid-append pid kernel.finished (program ∷ [])),
            )
    ]

pub with_quantum-pid :
    (algoritmo : Algoritmo) (quantum : ℕ) (program : Process)
    → (with_quantum algoritmo quantum program).pid ≡ program.pid
with_quantum-pid fifo quantum program = refl
with_quantum-pid rr quantum program = refl
with_quantum-pid other quantum program = refl

pub count_one-pid : (pid : ℕ) (x y : Process) → x.pid ≡ y.pid → count_one pid x ≡ count_one pid y
count_one-pid pid x y e = ap (λ (n : ℕ). if n == pid then 1 else 0) e

pub cpu_send_pcb-places :
    (socket : ℕ) (program : Option Process) (kernel : Kernel) (pid : ℕ)
    → (count_pid pid (cpu_send_pcb socket program kernel).new_programs
        ≡ count_pid pid kernel.new_programs)
      × (elsewhere (cpu_send_pcb socket program kernel) pid ≡ elsewhere kernel pid)
      × (count_cpus pid (cpu_send_pcb socket program kernel).cpus ≡ count_cpus pid kernel.cpus)
cpu_send_pcb-places socket none kernel pid = (refl, refl, refl)
cpu_send_pcb-places socket (some program) kernel pid = (refl, refl, refl)
