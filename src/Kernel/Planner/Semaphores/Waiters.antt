-- ===== src/Kernel/Planner/Semaphores/Waiters.antt =====
-- How many programs wait for a semaphore, and what the planner does to that number.
use socketapp.Common.{
  ℕ, ◌+◌, ◌≡◌, refl, sym, ap, ◌∙◌, inl, inr, false, Option, none, some, List, [], ◌∷◌, ◌++◌, subst,
  arith, ltb, ◌==◌, if◌then◌else◌, length, append-nil, append_assoc, Bool-cases, Option-cases,
  List-cases,
}
use socketapp.Kernel.Planner.{
  Process, Cpu, Kernel, KernelConfig, Algoritmo, fifo, rr, other, program_finish, program_to_ready,
  busy_cpus, admit, planificador_largo_plazo, with_quantum, take_ready, planificar, cpu_send_pcb,
  inactive_from, cpu_inactive_planner,
}
use socketapp.Kernel.Planner.Places.Planned.{inactive_from-busy, inactive_from-idle}
use socketapp.Kernel.Planner.Admission.{program_finish-queues}
use socketapp.Kernel.Planner.Semaphores.{is_blocked_by_sem}

abbrev pub waits_one : List ℕ → Process → ℕ
waits_one nombre program = if is_blocked_by_sem nombre program then 1 else 0

abbrev pub waits_in : List ℕ → List Process → ℕ
waits_in nombre [] = 0
waits_in nombre (program ∷ programs) = waits_one nombre program + waits_in nombre programs

abbrev pub waits_held : List ℕ → Option Process → ℕ
waits_held nombre none = 0
waits_held nombre (some program) = waits_one nombre program

abbrev pub waits_on_cpus : List ℕ → List Cpu → ℕ
waits_on_cpus nombre [] = 0
waits_on_cpus nombre (cpu ∷ cpus) = waits_held nombre cpu.program + waits_on_cpus nombre cpus

-- The programs that wait for a semaphore: the blocked ones, and those that are still on their CPUs.
abbrev pub waiters : List ℕ → Kernel → ℕ
waiters nombre kernel = waits_in nombre kernel.blocked + waits_on_cpus nombre kernel.cpus

abbrev pub IsQuiet : List Process → Type 0
IsQuiet [] = Unit {0}
IsQuiet (program ∷ programs) = (program.waiting ≡ false) × IsQuiet programs

-- No program that is new or ready waits.
abbrev pub QueuesQuiet : Kernel → Type 0
QueuesQuiet kernel = IsQuiet kernel.new_programs × IsQuiet kernel.ready

pub IsQuiet-append :
    (xs : List Process) (program : Process)
    → IsQuiet xs
    → program.waiting ≡ false
    → IsQuiet (xs ++ (program ∷ []))
IsQuiet-append [] program h e = (e, tt)
IsQuiet-append (x ∷ xs) program h e = (h.0, IsQuiet-append xs program h.1 e)

pub waits_on_cpus-append :
    (nombre : List ℕ) (xs ys : List Cpu)
    → waits_on_cpus nombre (xs ++ ys) ≡ waits_on_cpus nombre xs + waits_on_cpus nombre ys
waits_on_cpus-append nombre [] ys = omega arith
waits_on_cpus-append nombre (x ∷ xs) ys = omega (arith, waits_on_cpus-append nombre xs ys)

pub waits_quiet :
    (nombre : List ℕ) (program : Process) → program.waiting ≡ false → waits_one nombre program ≡ 0
waits_quiet nombre program e = simp e

with_quantum-waiting :
    (algoritmo : Algoritmo) (quantum : ℕ) (program : Process)
    → (with_quantum algoritmo quantum program).waiting ≡ program.waiting
with_quantum-waiting fifo quantum program = refl
with_quantum-waiting rr quantum program = refl
with_quantum-waiting other quantum program = refl

pub cpu_send_pcb-quiet :
    (socket : ℕ) (program : Option Process) (kernel : Kernel)
    → QueuesQuiet kernel
    → QueuesQuiet (cpu_send_pcb socket program kernel)
      × ((cpu_send_pcb socket program kernel).blocked ≡ kernel.blocked)
cpu_send_pcb-quiet socket none kernel h = (h, refl)
cpu_send_pcb-quiet socket (some program) kernel h = (h, refl)

module _ (config : KernelConfig) where
  to_ready-waiting :
      (program : Process) → (program_to_ready config program).1.waiting ≡ program.waiting
  unfolding program_to_ready
  to_ready-waiting program = ground arith

  admit-quiet :
      (programs : List Process) (corriendo : ℕ) (kernel : Kernel)
      → IsQuiet programs
      → IsQuiet kernel.ready
      → QueuesQuiet (admit config programs corriendo kernel)
        × ((admit config programs corriendo kernel).blocked ≡ kernel.blocked)
  unfolding admit
  admit-quiet [] corriendo kernel h r = ((tt, r), refl)
  admit-quiet (program ∷ programs) corriendo kernel h r =
      let program' = (program_to_ready config program).1 in
      let status = (program_to_ready config program).0 in
      let ended = program_finish kernel (record program' { exit_code = status }) in
      let same = program_finish-queues kernel (record program' { exit_code = status }) in
      let put = record kernel { ready = kernel.ready ++ (program' ∷ []) } in
      elim (Bool-cases (ltb corriendo config.grado_multiprog)) [
        | inr full ↦ rw (full, admit) ((h, r), refl)
        | inl room ↦ elim (Bool-cases (status == 0)) [
          | inl good ↦
              rw (room, good, admit)
                (admit-quiet programs (corriendo + 1) put h.1
                  (IsQuiet-append kernel.ready program' r (to_ready-waiting program ∙ h.0)))
          | inr bad ↦
              let ih = admit-quiet programs corriendo ended h.1 (subst IsQuiet (sym same.0) r) in
              rw (room, bad, admit) (ih.0, ih.1 ∙ same.2)
        ]
      ]

  -- The program that is taken does not wait, and the others stay where they are.
  pub planificar-quiet :
      (kernel : Kernel)
      → QueuesQuiet kernel
      → (nombre : List ℕ)
      → QueuesQuiet (planificar config kernel).1
        × (waits_held nombre (planificar config kernel).0 ≡ 0)
        × ((planificar config kernel).1.blocked ≡ kernel.blocked)
  unfolding planificar planificador_largo_plazo
  planificar-quiet kernel h nombre =
      let after = planificador_largo_plazo config kernel in
      let q =
        admit-quiet kernel.new_programs (length kernel.ready + busy_cpus kernel.cpus) kernel h.0
          h.1 in
      elim (List-cases after.ready) [
        | inl e ↦ rw (e, planificar, take_ready) (q.0, refl, q.1)
        | inr (program, rest, e) ↦
            let r : IsQuiet (program ∷ rest) = subst IsQuiet e q.0.1 in
            rw (e, planificar, take_ready)
              (
                (q.0.0, r.1),
                waits_quiet nombre (with_quantum config.algoritmo config.quantum program)
                    (with_quantum-waiting config.algoritmo config.quantum program ∙ r.0),
                q.1,
              )
      ]

  inactive_from-quiet :
      (before cpus : List Cpu) (kernel : Kernel)
      → QueuesQuiet kernel
      → (nombre : List ℕ)
      → QueuesQuiet (inactive_from config before cpus kernel)
        × (waiters nombre (inactive_from config before cpus kernel)
            ≡ waits_in nombre kernel.blocked + waits_on_cpus nombre (before ++ cpus))
  unfolding inactive_from
  inactive_from-quiet before [] kernel h nombre = (
    h,
    ap (λ cs. waits_in nombre kernel.blocked + waits_on_cpus nombre cs) (sym (append-nil before)),
  )
  inactive_from-quiet before (cpu ∷ cpus) kernel h nombre =
      let whole = record kernel { cpus = before ++ cpu ∷ cpus } in
      let taken = planificar config whole in
      let cpu' = record cpu { program = taken.0 } in
      let sent = cpu_send_pcb cpu.socket taken.0 taken.1 in
      let skip = ap (waits_on_cpus nombre) (append_assoc before (cpu ∷ []) cpus) in
      let go_on = ap (waits_on_cpus nombre) (append_assoc before (cpu' ∷ []) cpus) in
      let split = waits_on_cpus-append nombre before (cpu ∷ cpus) in
      let split' = waits_on_cpus-append nombre before (cpu' ∷ cpus) in
      let same = planificar-quiet whole h nombre in
      let kept = cpu_send_pcb-quiet cpu.socket taken.0 taken.1 same.0 in
      elim (Option-cases cpu.program) [
        | inr (program, busy) ↦
            let ih = inactive_from-quiet (before ++ (cpu ∷ [])) cpus kernel h nombre in
            let step = inactive_from-busy config before cpu cpus kernel program busy in
            (
              subst QueuesQuiet (sym step) ih.0,
              ap (waiters nombre) step ∙ ih.1 ∙ omega (arith, skip),
            )
        | inl idle ↦
            let ih = inactive_from-quiet (before ++ (cpu' ∷ [])) cpus sent kept.0 nombre in
            let step = inactive_from-idle config before cpu cpus kernel idle in
            let none_here = ap (waits_held nombre) idle in
            let blocked = ap (waits_in nombre) (kept.1 ∙ same.2) in
            let quiet = same.1 in
            (
              subst QueuesQuiet (sym step) ih.0,
              ap (waiters nombre) step
                  ∙ ih.1
                  ∙ omega (arith, go_on, split, split', none_here, blocked, quiet),
            )
      ]

  -- No waiter comes or goes when the idle CPUs are given programs.
  pub cpu_inactive_planner-quiet :
      (kernel : Kernel)
      → QueuesQuiet kernel
      → (nombre : List ℕ)
      → QueuesQuiet (cpu_inactive_planner config kernel)
        × (waiters nombre (cpu_inactive_planner config kernel) ≡ waiters nombre kernel)
  unfolding cpu_inactive_planner
  cpu_inactive_planner-quiet kernel h nombre = inactive_from-quiet [] kernel.cpus kernel h nombre
