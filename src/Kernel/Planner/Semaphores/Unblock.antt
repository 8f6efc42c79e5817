-- ===== src/Kernel/Planner/Semaphores/Unblock.antt =====
-- What unblocking a waiter, and a write through a CPU, do to the number of waiters.
use socketapp.Common.{
  ◌∙◌, ◌≤◌, ℕ, ◌+◌, ◌<◌, ◌≡◌, refl, ap, inl, inr, true, Option, none, some, List, [], ◌∷◌, ◌++◌,
  arith, ◌==◌, if◌then◌else◌, Bool-cases, Option-cases, same_bytes, same_bytes_iff, same_bytes_refl,
}
use socketapp.Kernel.Planner.{Process, Cpu, Kernel, KernelConfig}
use socketapp.Kernel.Planner.Untouched.{untouched, cpu_inactive_planner-untouched}
use socketapp.Kernel.Planner.Places.{places, count_pid-append}
use socketapp.Kernel.Planner.Places.Planned.{cpu_inactive_planner-places}
use socketapp.Kernel.Planner.Programs.Interrupts.{remove_program-count, set_running-count}
use socketapp.Kernel.Planner.Programs.{find_program, remove_program, set_running}
use socketapp.Kernel.Planner.Semaphores.{is_blocked_by_sem, reason_is, unwait, program_unblock}
use socketapp.Kernel.Planner.Semaphores.Waiters.{
  waits_one, waits_in, waits_on_cpus, waiters, QueuesQuiet, IsQuiet-append,
  cpu_inactive_planner-quiet,
}

-- 1 if the second semaphore is the first one.
abbrev pub same_sem : List ℕ → List ℕ → ℕ
same_sem nombre other = if same_bytes nombre other then 1 else 0

-- One of the waiters, if there are any.
abbrev pub released : ℕ → ℕ → ℕ
released count one = if count == 0 then 0 else one

zero_released :
    (count other one : ℕ) → count ≡ 0 → released (count + other) one ≡ released other one
zero_released count other one h = ap (λ c. released c one) (omega (arith, h))

pub some_released : (count one : ℕ) → 0 < count → released count one ≡ one
some_released count one h = ground arith

reason_is-same :
    (nombre other : List ℕ) (reason : Option (List ℕ))
    → reason_is nombre reason ≡ true
    → reason_is other reason ≡ same_bytes nombre other
reason_is-same nombre other none h = absurd (ground arith)
reason_is-same nombre other (some reason) h =
    ap (λ r. same_bytes r other) ((same_bytes_iff reason nombre).0 h)

-- A program that waits for a semaphore waits for no other.
waits_one-same :
    (nombre other : List ℕ) (program : Process)
    → is_blocked_by_sem nombre program ≡ true
    → waits_one other program ≡ same_sem nombre other
waits_one-same nombre other program h =
    let waits : program.waiting ≡ true = ground arith in
    let reason : reason_is nombre program.waiting_reason ≡ true = ground arith in
    rw (waits, reason_is-same nombre other program.waiting_reason reason) refl

waits_in-remove :
    (nombre other : List ℕ) (programs : List Process) {program : Process}
    → find_program (is_blocked_by_sem nombre) programs ≡ some program
    → waits_in other (remove_program (is_blocked_by_sem nombre) programs) + same_sem nombre other
      ≡ waits_in other programs
unfolding find_program remove_program
waits_in-remove nombre other [] {program} h = absurd (ground arith)
waits_in-remove nombre other (x ∷ programs) {program} h =
    elim (Bool-cases (is_blocked_by_sem nombre x)) [
      | inl here ↦ rw (here, remove_program) (omega (arith, waits_one-same nombre other x here))
      | inr apart ↦
          let e : find_program (is_blocked_by_sem nombre) programs ≡ some program =
            rw (apart, find_program) at h in
          rw (apart, remove_program)
            (omega (arith, waits_in-remove nombre other programs {program = program} e))
    ]

waits_in-none :
    (nombre : List ℕ) (programs : List Process)
    → find_program (is_blocked_by_sem nombre) programs ≡ none
    → waits_in nombre programs ≡ 0
unfolding find_program
waits_in-none nombre [] h = refl
waits_in-none nombre (x ∷ programs) h = elim (Bool-cases (is_blocked_by_sem nombre x)) [
  | inl here ↦ absurd (ground arith)
  | inr apart ↦
      let e : find_program (is_blocked_by_sem nombre) programs ≡ none =
        rw (apart, find_program) at h in
      rw apart (omega (arith, waits_in-none nombre programs e))
]

waits_in-some :
    (nombre : List ℕ) (programs : List Process) {program : Process}
    → find_program (is_blocked_by_sem nombre) programs ≡ some program
    → 0 < waits_in nombre programs
waits_in-some nombre programs {program} h =
    let one : same_sem nombre nombre ≡ 1 = rw (same_bytes_refl nombre) refl in
    omega (arith, waits_in-remove nombre nombre programs {program = program} h, one)

waits_on_cpus-set_running :
    (nombre other : List ℕ) (cpus : List Cpu)
    → waits_on_cpus other (set_running (is_blocked_by_sem nombre) unwait cpus)
        + released (waits_on_cpus nombre cpus) (same_sem nombre other)
      ≡ waits_on_cpus other cpus
unfolding set_running
waits_on_cpus-set_running nombre other [] = refl
waits_on_cpus-set_running nombre other (cpu ∷ cpus) =
    let ih = waits_on_cpus-set_running nombre other cpus in
    elim (Option-cases cpu.program) [
      | inl idle ↦
          simp (idle, set_running)
            (omega
              (arith, ih, zero_released 0 (waits_on_cpus nombre cpus) (same_sem nombre other) refl))
      | inr (program, runs) ↦ elim (Bool-cases (is_blocked_by_sem nombre program)) [
        | inl here ↦
            simp (runs, here, set_running)
              (omega (
                arith,
                waits_one-same nombre other program here,
                some_released (1 + waits_on_cpus nombre cpus) (same_sem nombre other) (omega arith),
              ))
        | inr apart ↦
            simp (runs, apart, set_running)
              (omega (
                arith,
                ih,
                zero_released 0 (waits_on_cpus nombre cpus) (same_sem nombre other) refl,
              ))
      ]
    ]

-- A signal's unblocking frees one waiter of its semaphore if there is one, and none of another.
pub program_unblock-waiters :
    (config : KernelConfig) (nombre other : List ℕ) (kernel : Kernel)
    → QueuesQuiet kernel
    → QueuesQuiet (program_unblock config nombre kernel)
      × (waiters other (program_unblock config nombre kernel)
            + released (waiters nombre kernel) (same_sem nombre other)
          ≡ waiters other kernel)
unfolding program_unblock
program_unblock-waiters config nombre other kernel h =
    elim (Option-cases (find_program (is_blocked_by_sem nombre) kernel.blocked)) [
      | inl empty ↦
          rw (empty, program_unblock)
            (
              h,
              omega (
                arith,
                waits_on_cpus-set_running nombre other kernel.cpus,
                zero_released (waits_in nombre kernel.blocked) (waits_on_cpus nombre kernel.cpus)
                    (same_sem nombre other) (waits_in-none nombre kernel.blocked empty),
              ),
            )
      | inr (program, found) ↦
          let freed = record kernel {
            blocked = remove_program (is_blocked_by_sem nombre) kernel.blocked;
            ready = kernel.ready ++ (unwait program ∷ []);
          } in
          let planned =
            cpu_inactive_planner-quiet config freed
              (h.0, IsQuiet-append kernel.ready (unwait program) h.1 refl) other in
          rw (found, program_unblock)
            (
              planned.0,
              omega (
                arith,
                planned.1,
                waits_in-remove nombre other kernel.blocked {program = program} found,
                some_released (waiters nombre kernel) (same_sem nombre other)
                    (omega (arith, waits_in-some nombre kernel.blocked {program = program} found)),
              ),
            )
    ]

pub program_unblock-untouched :
    (config : KernelConfig) (nombre : List ℕ) (kernel : Kernel)
    → untouched (program_unblock config nombre kernel) ≡ untouched kernel
unfolding program_unblock
program_unblock-untouched config nombre kernel =
    elim (Option-cases (find_program (is_blocked_by_sem nombre) kernel.blocked)) [
      | inl empty ↦ rw (empty, program_unblock) refl
      | inr (program, found) ↦
          rw (found, program_unblock)
            (cpu_inactive_planner-untouched config (record kernel {
              blocked = remove_program (is_blocked_by_sem nombre) kernel.blocked;
              ready = kernel.ready ++ (unwait program ∷ []);
            }))
    ]

-- The waiter that is freed goes from the blocked programs to the ready ones, or stays on its CPU.
pub program_unblock-places :
    (config : KernelConfig) (nombre : List ℕ) (kernel : Kernel)
    → ((q : ℕ) → places kernel q ≤ 1)
    → (pid : ℕ) → places (program_unblock config nombre kernel) pid ≡ places kernel pid
unfolding program_unblock
program_unblock-places config nombre kernel distinct pid =
    elim (Option-cases (find_program (is_blocked_by_sem nombre) kernel.blocked)) [
      | inl empty ↦
          rw (empty, program_unblock)
            (omega (
              arith,
              set_running-count (is_blocked_by_sem nombre) unwait pid kernel.cpus (λ x. refl),
            ))
      | inr (program, found) ↦
          let freed = record kernel {
            blocked = remove_program (is_blocked_by_sem nombre) kernel.blocked;
            ready = kernel.ready ++ (unwait program ∷ []);
          } in
          let left = λ (q : ℕ).
            remove_program-count (is_blocked_by_sem nombre) q kernel.blocked {program = program}
              found in
          let put = λ (q : ℕ). count_pid-append q kernel.ready (unwait program ∷ []) in
          rw (found, program_unblock)
            (cpu_inactive_planner-places config freed
                (λ q. omega (arith, distinct q, left q, put q)) pid
              ∙ omega (arith, left pid, put pid))
    ]
