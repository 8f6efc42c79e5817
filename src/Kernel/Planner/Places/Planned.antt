-- ===== src/Kernel/Planner/Places/Planned.antt =====
-- The planner moves the programs and loses none.
use socketapp.Common.{
  ℕ, ◌+◌, ◌≤◌, ◌≡◌, refl, ap, ◌∙◌, inl, inr, none, some, List, [], ◌∷◌, ◌++◌, arith, ltb, ◌==◌,
  length, append_assoc, Bool-cases, Option-cases, List-cases,
}
use socketapp.Kernel.Planner.{
  Process, Cpu, Kernel, KernelConfig, program_finish, program_to_ready, busy_cpus, admit,
  planificador_largo_plazo, with_quantum, take_ready, planificar, cpu_send_pcb, inactive_from,
  cpu_inactive_planner,
}
use socketapp.Kernel.Planner.Places.{
  count_pid, count_held, count_cpus, elsewhere, places, count_pid-append, count_cpus-append,
  program_finish-places, with_quantum-pid, count_one-pid, cpu_send_pcb-places,
}

module _ (config : KernelConfig) where
  pub program_to_ready-pid :
      (program : Process) → (program_to_ready config program).1.pid ≡ program.pid
  unfolding program_to_ready
  program_to_ready-pid program = ground arith

  pub admit-places :
      (programs : List Process) (corriendo : ℕ) (kernel : Kernel)
      → ((q : ℕ) → count_pid q kernel.finished + count_pid q programs ≤ 1)
      → (pid : ℕ)
      → places (admit config programs corriendo kernel) pid
        ≡ elsewhere kernel pid + count_pid pid programs
  unfolding admit
  admit-places [] corriendo kernel h pid = omega arith
  admit-places (program ∷ programs) corriendo kernel h pid =
      let program' = (program_to_ready config program).1 in
      let status = (program_to_ready config program).0 in
      let same = program_to_ready-pid program in
      let kernel₁ = record kernel { ready = kernel.ready ++ (program' ∷ []) } in
      let ended : Process = record program' { exit_code = status } in
      let kernel₂ = program_finish kernel ended in
      let queued = λ (q : ℕ). count_pid-append q kernel.ready (program' ∷ []) in
      let one = λ (q : ℕ). count_one-pid q program' program same in
      let out : count_pid ended.pid kernel.finished ≡ 0 =
        let ih = h ended.pid in let e = one ended.pid in ground arith in
      let ended_places = λ (q : ℕ). program_finish-places kernel ended q out in
      elim (Bool-cases (ltb corriendo config.grado_multiprog)) [
        | inr full ↦ rw (full, admit) (omega arith)
        | inl room ↦ elim (Bool-cases (status == 0)) [
          | inl good ↦
              rw (room, good, admit)
                (admit-places programs (corriendo + 1) kernel₁
                    (λ q. omega (arith, h q, queued q, one q)) pid
                  ∙ omega (arith, queued pid, one pid))
          | inr bad ↦
              rw (room, bad, admit)
                (admit-places programs corriendo kernel₂
                    (λ q. omega (arith, h q, ended_places q, one q)) pid
                  ∙ omega (arith, ended_places pid, one pid))
        ]
      ]

  pub planificar-places :
      (kernel : Kernel)
      → ((q : ℕ) → count_pid q kernel.finished + count_pid q kernel.new_programs ≤ 1)
      → (pid : ℕ)
      → places (planificar config kernel).1 pid + count_held pid (planificar config kernel).0
        ≡ places kernel pid
  unfolding planificar planificador_largo_plazo
  planificar-places kernel h pid =
      let after = planificador_largo_plazo config kernel in
      let same =
        admit-places kernel.new_programs (length kernel.ready + busy_cpus kernel.cpus) kernel
          (λ q. omega (arith, h q)) pid in
      elim (List-cases after.ready) [
        | inl e ↦ rw (e, planificar, take_ready) (omega (arith, same))
        | inr (program, rest, e) ↦
            let one =
              count_one-pid pid (with_quantum config.algoritmo config.quantum program) program
                (with_quantum-pid config.algoritmo config.quantum program) in
            let split = ap (count_pid pid) e in
            rw (e, planificar, take_ready) (omega (arith, same, one, split))
      ]

  admit-cpus :
      (programs : List Process) (corriendo : ℕ) (kernel : Kernel)
      → (admit config programs corriendo kernel).cpus ≡ kernel.cpus
  unfolding admit program_finish
  admit-cpus [] corriendo kernel = refl
  admit-cpus (program ∷ programs) corriendo kernel =
      let program' = (program_to_ready config program).1 in
      let ended =
        program_finish kernel
          (record program' { exit_code = (program_to_ready config program).0 }) in
      ground (
        arith,
        admit-cpus programs (corriendo + 1)
            (record kernel { ready = kernel.ready ++ (program' ∷ []) }),
        admit-cpus programs corriendo ended,
      )

  pub planificar-cpus : (kernel : Kernel) → (planificar config kernel).1.cpus ≡ kernel.cpus
  unfolding planificar planificador_largo_plazo
  planificar-cpus kernel =
      let after = planificador_largo_plazo config kernel in
      let same =
        admit-cpus kernel.new_programs (length kernel.ready + busy_cpus kernel.cpus) kernel in
      elim (List-cases after.ready) [
        | inl e ↦ rw (e, planificar, take_ready) same
        | inr (program, rest, e) ↦ rw (e, planificar, take_ready) same
      ]

  pub inactive_from-busy :
      (before : List Cpu) (cpu : Cpu) (cpus : List Cpu) (kernel : Kernel) (program : Process)
      → cpu.program ≡ some program
      → inactive_from config before (cpu ∷ cpus) kernel
        ≡ inactive_from config (before ++ (cpu ∷ [])) cpus kernel
  unfolding inactive_from
  inactive_from-busy before cpu cpus kernel program busy = simp (busy, inactive_from)

  pub inactive_from-idle :
      (before : List Cpu) (cpu : Cpu) (cpus : List Cpu) (kernel : Kernel)
      → cpu.program ≡ none
      → inactive_from config before (cpu ∷ cpus) kernel ≡ (
          let taken = planificar config (record kernel { cpus = before ++ cpu ∷ cpus }) in
          inactive_from config
            (before ++ (record cpu { program = taken.0 } ∷ []))
            cpus
            (cpu_send_pcb cpu.socket taken.0 taken.1))
  unfolding inactive_from
  inactive_from-idle before cpu cpus kernel idle = simp (idle, inactive_from)

  inactive_from-places :
      (before cpus : List Cpu) (kernel : Kernel)
      → ((q : ℕ) → places (record kernel { cpus = before ++ cpus }) q ≤ 1)
      → (pid : ℕ)
      → places (inactive_from config before cpus kernel) pid
        ≡ places (record kernel { cpus = before ++ cpus }) pid
  unfolding inactive_from
  inactive_from-places before [] kernel h pid = omega (arith, count_cpus-append pid before [])
  inactive_from-places before (cpu ∷ cpus) kernel h pid =
      let whole = record kernel { cpus = before ++ cpu ∷ cpus } in
      let taken = planificar config whole in
      let cpu' = record cpu { program = taken.0 } in
      let sent = cpu_send_pcb cpu.socket taken.0 taken.1 in
      let skip = λ (q : ℕ). ap (count_cpus q) (append_assoc before (cpu ∷ []) cpus) in
      let go_on = λ (q : ℕ). ap (count_cpus q) (append_assoc before (cpu' ∷ []) cpus) in
      let split = λ (q : ℕ). count_cpus-append q before (cpu ∷ cpus) in
      let split' = λ (q : ℕ). count_cpus-append q before (cpu' ∷ cpus) in
      let same = λ (q : ℕ). planificar-places whole (λ r. omega (arith, h r)) q in
      let kept = λ (q : ℕ). cpu_send_pcb-places cpu.socket taken.0 taken.1 q in
      let stay = λ (q : ℕ). ap (count_cpus q) (planificar-cpus whole) in
      elim (Option-cases cpu.program) [
        | inr (program, busy) ↦
            ap (λ k. places k pid) (inactive_from-busy before cpu cpus kernel program busy)
            ∙ inactive_from-places (before ++ (cpu ∷ [])) cpus kernel
                (λ q. omega (arith, h q, skip q)) pid
            ∙ omega (arith, skip pid)
        | inl idle ↦
            let none_here = λ (q : ℕ). ap (count_held q) idle in
            ap (λ k. places k pid) (inactive_from-idle before cpu cpus kernel idle)
            ∙ inactive_from-places (before ++ (cpu' ∷ [])) cpus sent
                (λ q.
                  omega
                    (arith, h q, go_on q, split q, split' q, same q, kept q, stay q, none_here q))
                pid
            ∙ omega (
              arith,
              go_on pid,
              split pid,
              split' pid,
              same pid,
              kept pid,
              stay pid,
              none_here pid,
            )
      ]

  -- `cpu_inactive_planner` moves programs to idle CPUs and loses none.
  pub cpu_inactive_planner-places :
      (kernel : Kernel)
      → ((q : ℕ) → places kernel q ≤ 1)
      → (pid : ℕ) → places (cpu_inactive_planner config kernel) pid ≡ places kernel pid
  unfolding cpu_inactive_planner
  cpu_inactive_planner-places kernel h pid = inactive_from-places [] kernel.cpus kernel h pid
