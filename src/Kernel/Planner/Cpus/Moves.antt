-- ===== src/Kernel/Planner/Cpus/Moves.antt =====
-- A new CPU and the end of a burst: no program is lost, none is there twice.
use socketapp.Common.{
  ℕ, ◌+◌, ◌≤◌, ◌≡◌, refl, ap, inl, inr, true, false, Option, none, some, [], ◌∷◌, ◌++◌, arith, ◌==◌,
  ==_refl, Bool-cases,
}
use socketapp.Kernel.Planner.{
  Process, Cpu, Kernel, KernelConfig, program_finish, planificar, cpu_send_pcb,
}
use socketapp.Kernel.Planner.Places.{
  count_one, count_pid, count_held, count_cpus, places, count_pid-append, count_cpus-append,
  program_finish-places, cpu_send_pcb-places,
}
use socketapp.Kernel.Planner.Places.Planned.{planificar-places, planificar-cpus}
use socketapp.Kernel.Planner.Cpus.{
  cpu_find, change_cpu, handle_new_cpu, after_burst, handle_end_burst,
}
use socketapp.Kernel.Planner.Cpus.Writes.{set_cpu-count, set_cpu_same-count, cpu_find-set_cpu}

after_burst-places :
    (code : ℕ) (program : Process) (kernel : Kernel) (pid : ℕ)
    → count_pid program.pid kernel.finished ≡ 0
    → places (after_burst code program kernel) pid ≡ places kernel pid + count_one pid program
unfolding after_burst
after_burst-places code program kernel pid fresh = elim (Bool-cases (code == 1)) [
  | inl done ↦
      rw (done, after_burst) (omega (arith, program_finish-places kernel program pid fresh))
  | inr more ↦ elim (Bool-cases program.waiting) [
    | inl waits ↦
        simp (more, waits, after_burst)
          (omega (arith, count_pid-append pid kernel.blocked (program ∷ [])))
    | inr runs ↦
        simp (more, runs, after_burst)
          (omega (arith, count_pid-append pid kernel.ready (program ∷ [])))
  ]
]

pub after_burst-cpus :
    (code : ℕ) (program : Process) (kernel : Kernel)
    → (after_burst code program kernel).cpus ≡ kernel.cpus
unfolding after_burst program_finish
after_burst-cpus code program kernel = ground arith

module _ (config : KernelConfig) (kernel : Kernel) (distinct : (q : ℕ) → places kernel q ≤ 1) where
  -- A new CPU gets a program if there is one to run, whatever its memory held before.
  pub handle_new_cpu-places :
      (garbage : Option Process) (socket pid : ℕ)
      → places (handle_new_cpu config garbage socket kernel) pid ≡ places kernel pid
  unfolding handle_new_cpu
  handle_new_cpu-places garbage socket pid =
      let cpu : Cpu = record { socket = socket; program = garbage; disconnected = false } in
      let with_cpu = record kernel { cpus = kernel.cpus ++ (cpu ∷ []) } in
      let taken = planificar config with_cpu in
      let moved = planificar-places config with_cpu (λ q. omega (arith, distinct q)) pid in
      let stay = ap (count_cpus pid) (planificar-cpus config with_cpu) in
      let after = record (taken.1) {
        cpus = kernel.cpus ++ (record cpu { program = taken.0 } ∷ []);
      } in
      omega (
        arith,
        moved,
        stay,
        count_cpus-append pid kernel.cpus (cpu ∷ []),
        count_cpus-append pid kernel.cpus (record cpu { program = taken.0 } ∷ []),
        cpu_send_pcb-places socket taken.0 after pid,
      )

  module _ (socket : ℕ) {cpu : Cpu} {program : Process}
      (found : cpu_find socket kernel.cpus ≡ some cpu) (runs : cpu.program ≡ some program) where
    held : (pid : ℕ) → count_held pid cpu.program ≡ count_one pid program
    held pid = ap (count_held pid) runs

    -- A CPU that is found and has a program, where no program stands in two places: when the
    -- burst ends and its end is received whole, the handler answers, and every program stands in
    -- as many places as before.
    pub handle_end_burst-places :
        (exit_code code pid : ℕ)
        → (kernel' : Kernel) × (handle_end_burst config socket exit_code (some code) kernel
            ≡ some kernel')
          × (places kernel' pid ≡ places kernel pid)
    unfolding handle_end_burst
    handle_end_burst-places exit_code code pid =
        let program' : Process = record program {
          exit_code = exit_code;
          quantum = 0;
          rafagas = program.rafagas + 1;
        } in
        let idle = change_cpu socket (λ cpu. record cpu { program = none }) kernel in
        let left = λ (q : ℕ).
          set_cpu-count socket (λ cpu. record cpu { program = none }) kernel.cpus q {cpu = cpu}
            found in
        let out : count_pid program'.pid kernel.finished ≡ 0 =
          let one : count_one program.pid program ≡ 1 = rw ==_refl in
          omega (arith, distinct program.pid, left program.pid, held program.pid, one) in
        let middle = after_burst code program' idle in
        let put = λ (q : ℕ). after_burst-places code program' idle q out in
        let small : (q : ℕ) → places middle q ≤ 1 =
          λ q. omega (arith, distinct q, left q, held q, put q) in
        let taken = planificar config middle in
        let moved = planificar-places config middle (λ q. omega (arith, small q)) pid in
        let there : cpu_find socket middle.cpus ≡ some (record cpu { program = none }) =
          rw (after_burst-cpus code program' idle) (
            cpu_find-set_cpu socket (λ cpu. record cpu { program = none }) kernel.cpus {cpu = cpu}
              (λ x. refl) found) in
        let here : cpu_find socket taken.1.cpus ≡ some (record cpu { program = none }) =
          rw (planificar-cpus config middle) there in
        let set_next =
          set_cpu-count socket (λ cpu. record cpu { program = taken.0 }) taken.1.cpus pid
            {cpu = record cpu { program = none }} here in
        let after = change_cpu socket (λ cpu. record cpu { program = taken.0 }) taken.1 in
        (
          cpu_send_pcb socket taken.0 after,
          rw (found, runs, handle_end_burst),
          omega (
            arith,
            left pid,
            held pid,
            put pid,
            moved,
            set_next,
            cpu_send_pcb-places socket taken.0 after pid,
          ),
        )

    -- A CPU that is found and has a program, where no program stands in two places: if the
    -- number behind the PCB does not come, the handler answers, and that program has one place
    -- less and no other program has.
    pub handle_end_burst-lost :
        (exit_code pid : ℕ)
        → (kernel' : Kernel) × (handle_end_burst config socket exit_code none kernel ≡ some kernel')
          × (places kernel' pid + count_one pid program ≡ places kernel pid)
    unfolding handle_end_burst
    handle_end_burst-lost exit_code pid =
        let idle = change_cpu socket (λ cpu. record cpu { program = none }) kernel in
        let left =
          set_cpu-count socket (λ cpu. record cpu { program = none }) kernel.cpus pid {cpu = cpu}
            found in
        let same =
          set_cpu_same-count socket (λ cpu. record cpu { disconnected = true }) idle.cpus pid
            (λ cpu. refl) in
        (
          change_cpu socket (λ cpu. record cpu { disconnected = true }) idle,
          rw (found, runs, handle_end_burst),
          omega (arith, left, same, held pid),
        )
