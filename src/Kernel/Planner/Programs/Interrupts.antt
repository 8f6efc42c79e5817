-- ===== src/Kernel/Planner/Programs/Interrupts.antt =====
-- A program that comes or is interrupted: the places of all programs.
use socketapp.Common.{
  ℕ, ◌+◌, ◌≤◌, ◌≡◌, refl, ap, inl, inr, Bool, true, false, Option, none, some, List, [], ◌∷◌, ◌++◌,
  arith, if◌then◌else◌, length, ==_refl, Bool-cases, Option-cases,
}
use mathlib.Core.Option.{some-injective}
use socketapp.Kernel.Planner.{
  Process, Cpu, Kernel, KernelConfig, number, planificador_largo_plazo, busy_cpus,
}
use socketapp.Kernel.Planner.Places.{
  count_one, count_one-pid, count_pid, count_held, count_cpus, places, count_pid-append,
  program_finish-places,
}
use socketapp.Kernel.Planner.Places.Planned.{admit-places, cpu_inactive_planner-places}
use socketapp.Kernel.Planner.Programs.{
  find_program, remove_program, find_running, set_running, has_socket, interrupt, interrupt_running,
  program_interrup, created, program_process_new,
}

pub remove_program-count :
    (condition : Process → Bool) (pid : ℕ) (programs : List Process) {program : Process}
    → find_program condition programs ≡ some program
    → count_pid pid (remove_program condition programs) + count_one pid program
      ≡ count_pid pid programs
unfolding find_program remove_program
remove_program-count condition pid [] {program} h = absurd (ground arith)
remove_program-count condition pid (x ∷ programs) {program} h = elim (Bool-cases (condition x)) [
  | inl here ↦
      let e : some x ≡ some program = rw (here, find_program) at h in
      rw (here, remove_program) (omega (arith, ap (count_one pid) (some-injective x program e)))
  | inr apart ↦
      let e : find_program condition programs ≡ some program = rw (apart, find_program) at h in
      rw (apart, remove_program)
        (omega (arith, remove_program-count condition pid programs {program = program} e))
]

pub set_running-count :
    (condition : Process → Bool) (change : Process → Process) (pid : ℕ) (cpus : List Cpu)
    → ((x : Process) → (change x).pid ≡ x.pid)
    → count_cpus pid (set_running condition change cpus) ≡ count_cpus pid cpus
unfolding set_running
set_running-count condition change pid [] keeps = refl
set_running-count condition change pid (cpu ∷ cpus) keeps =
    let ih = set_running-count condition change pid cpus keeps in
    elim (Option-cases cpu.program) [
      | inl idle ↦ simp (idle, set_running) (omega (arith, ih))
      | inr (program, runs) ↦ elim (Bool-cases (condition program)) [
        | inl here ↦
            simp (runs, here, set_running)
              (omega (
                arith,
                count_one-pid pid (change program) program (keeps program),
                ap (count_held pid) runs,
              ))
        | inr apart ↦ simp (runs, apart, set_running) (omega (arith, ih))
      ]
    ]

interrupt_running-pid :
    (code : ℕ) (override : Bool) (program : Process)
    → (interrupt_running code override program).pid ≡ program.pid
interrupt_running-pid code override program = ground arith

module _ (kernel : Kernel) (distinct : (q : ℕ) → places kernel q ≤ 1) where
  -- A program that is taken out of a queue and finished.
  interrupt-places :
      (code : ℕ) (program : Process) (rest : Kernel) (pid : ℕ)
      → ((q : ℕ) → places rest q + count_one q program ≡ places kernel q)
      → places (interrupt code program rest) pid ≡ places kernel pid
  interrupt-places code program rest pid h =
      let one : count_one program.pid program ≡ 1 = rw ==_refl in
      let out : count_pid program.pid rest.finished ≡ 0 =
        omega (arith, distinct program.pid, h program.pid, one) in
      omega (arith, h pid, program_finish-places rest (record program { exit_code = code }) pid out)

  -- If no program stands in two places, an interruption of the program with a socket, wherever
  -- it is, leaves every program in as many places as before.
  pub program_interrup-places :
      (socket code : ℕ) (override : Bool) (pid : ℕ)
      → places (program_interrup socket code override kernel) pid ≡ places kernel pid
  unfolding program_interrup
  program_interrup-places socket code override pid =
      let test = has_socket socket in
      elim (Option-cases (find_running test kernel.cpus)) [
        | inr (program, runs) ↦
            rw (runs, program_interrup)
              (omega (
                arith,
                set_running-count test (interrupt_running code override) pid kernel.cpus
                    (interrupt_running-pid code override),
              ))
        | inl r ↦ elim (Option-cases (find_program test kernel.new_programs)) [
          | inr (program, found) ↦
              rw (r, found, program_interrup)
                (interrupt-places code program
                  (record kernel { new_programs = remove_program test kernel.new_programs }) pid
                  (λ q. omega (
                    arith,
                    remove_program-count test q kernel.new_programs {program = program} found,
                  )))
          | inl n ↦ elim (Option-cases (find_program test kernel.blocked)) [
            | inr (program, found) ↦
                rw (r, n, found, program_interrup)
                  (interrupt-places code program
                    (record kernel { blocked = remove_program test kernel.blocked }) pid
                    (λ q. omega (
                      arith,
                      remove_program-count test q kernel.blocked {program = program} found,
                    )))
            | inl b ↦ elim (Option-cases (find_program test kernel.ready)) [
              | inr (program, found) ↦
                  rw (r, n, b, found, program_interrup)
                    (interrupt-places code program
                      (record kernel { ready = remove_program test kernel.ready }) pid
                      (λ q. omega (
                        arith,
                        remove_program-count test q kernel.ready {program = program} found,
                      )))
              | inl nowhere ↦ rw (r, n, b, nowhere, program_interrup)
            ]
          ]
        ]
      ]

  module _ (config : KernelConfig) where
    -- If no program stands in two places and the next pid is not in use, a program that comes
    -- gets one place under that pid if its console takes the pid and sends the code, and every
    -- other program stands in as many places as before.
    pub program_process_new-places :
        (socket : ℕ) (goes : Bool) (code_size : Option ℕ) (pid : ℕ)
        → places kernel (kernel.program_id + 1) ≡ 0
        → places (program_process_new config socket goes code_size kernel) pid
          ≡ places kernel pid
            + (if goes
                then count_held pid (elim code_size [
                  | none ↦ none
                  | some size ↦ some (created config (kernel.program_id + 1) socket size)
                ])
                else 0)
    unfolding program_process_new planificador_largo_plazo
    program_process_new-places socket false code_size pid fresh = omega arith
    program_process_new-places socket true none pid fresh = omega arith
    program_process_new-places socket true (some size) pid fresh =
        let new = kernel.program_id + 1 in
        let program = created config new socket size in
        let start = record kernel {
          program_id = new;
          new_programs = kernel.new_programs ++ (program ∷ []);
          sent = kernel.sent ++ (number socket new ∷ []);
        } in
        let queued = λ (q : ℕ). count_pid-append q kernel.new_programs (program ∷ []) in
        let small : (q : ℕ) → places start q ≤ 1 =
          λ q. let b = distinct q in let e = queued q in ground (arith, fresh) in
        let tried = λ (q : ℕ).
          admit-places config start.new_programs (length start.ready + busy_cpus start.cpus) start
            (λ r. omega (arith, small r)) q in
        let moved =
          cpu_inactive_planner-places config (planificador_largo_plazo config start)
            (λ q. omega (arith, small q, tried q)) pid in
        omega (arith, moved, tried pid, queued pid)
