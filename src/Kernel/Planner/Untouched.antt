-- ===== src/Kernel/Planner/Untouched.antt =====
-- What the planner leaves alone: the last pid, the semaphores and the shared variables.
use socketapp.Common.{
  ℕ, ◌+◌, ◌≡◌, refl, ap, ◌∙◌, inl, inr, Option, none, some, List, [], ◌∷◌, ◌++◌, arith, length,
  Option-cases, List-cases,
}
use socketapp.Kernel.Planner.{
  Process, Cpu, Kernel, KernelConfig, Semaforo, program_finish, program_to_ready, admit,
  planificador_largo_plazo, busy_cpus, take_ready, planificar, cpu_send_pcb, inactive_from,
  cpu_inactive_planner,
}
use socketapp.Kernel.Planner.Places.Planned.{inactive_from-busy, inactive_from-idle}

abbrev pub untouched : Kernel → ℕ × List Semaforo × List Semaforo
untouched kernel = (kernel.program_id, kernel.semaforos, kernel.shared_vars)

pub cpu_send_pcb-untouched :
    (socket : ℕ) (program : Option Process) (kernel : Kernel)
    → untouched (cpu_send_pcb socket program kernel) ≡ untouched kernel
cpu_send_pcb-untouched socket none kernel = refl
cpu_send_pcb-untouched socket (some program) kernel = refl

module _ (config : KernelConfig) where
  pub admit-untouched :
      (programs : List Process) (corriendo : ℕ) (kernel : Kernel)
      → untouched (admit config programs corriendo kernel) ≡ untouched kernel
  unfolding admit program_finish
  admit-untouched [] corriendo kernel = refl
  admit-untouched (program ∷ programs) corriendo kernel =
      let program' = (program_to_ready config program).1 in
      let ended =
        program_finish kernel
          (record program' { exit_code = (program_to_ready config program).0 }) in
      ground (
        arith,
        admit-untouched programs (corriendo + 1)
            (record kernel { ready = kernel.ready ++ (program' ∷ []) }),
        admit-untouched programs corriendo ended,
      )

  pub planificar-untouched :
      (kernel : Kernel) → untouched (planificar config kernel).1 ≡ untouched kernel
  unfolding planificar planificador_largo_plazo
  planificar-untouched kernel =
      let same =
        admit-untouched kernel.new_programs (length kernel.ready + busy_cpus kernel.cpus) kernel in
      elim (List-cases (planificador_largo_plazo config kernel).ready) [
        | inl e ↦ rw (e, planificar, take_ready) same
        | inr (program, rest, e) ↦ rw (e, planificar, take_ready) same
      ]

  inactive_from-untouched :
      (before cpus : List Cpu) (kernel : Kernel)
      → untouched (inactive_from config before cpus kernel) ≡ untouched kernel
  unfolding inactive_from
  inactive_from-untouched before [] kernel = refl
  inactive_from-untouched before (cpu ∷ cpus) kernel =
      let whole = record kernel { cpus = before ++ cpu ∷ cpus } in
      let taken = planificar config whole in
      let sent = cpu_send_pcb cpu.socket taken.0 taken.1 in
      elim (Option-cases cpu.program) [
        | inr (program, busy) ↦
            ap untouched (inactive_from-busy config before cpu cpus kernel program busy)
            ∙ inactive_from-untouched (before ++ (cpu ∷ [])) cpus kernel
        | inl idle ↦
            ap untouched (inactive_from-idle config before cpu cpus kernel idle)
            ∙ inactive_from-untouched (before ++ (record cpu { program = taken.0 } ∷ [])) cpus sent
            ∙ cpu_send_pcb-untouched cpu.socket taken.0 taken.1
            ∙ planificar-untouched whole
      ]

  pub cpu_inactive_planner-untouched :
      (kernel : Kernel) → untouched (cpu_inactive_planner config kernel) ≡ untouched kernel
  unfolding cpu_inactive_planner
  cpu_inactive_planner-untouched kernel = inactive_from-untouched [] kernel.cpus kernel
