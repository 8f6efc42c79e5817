-- ===== src/Kernel/Planner/Steps/EndBurst.antt =====
-- The end of a burst and the semaphores: a program that waits goes on waiting among the blocked ones.
use socketapp.Common.{
  ℕ, ◌+◌, ◌≡◌, ◌≢◌, refl, sym, ap, ◌∙◌, inl, inr, Option, none, some, List, [], ◌∷◌, ◌++◌, subst,
  arith, ==-eq-false, Bool-cases,
}
use socketapp.Kernel.Planner.{Process, Cpu, Kernel, KernelConfig, planificar, cpu_send_pcb}
use socketapp.Kernel.Planner.Places.Planned.{planificar-cpus}
use socketapp.Kernel.Planner.Untouched.{untouched, planificar-untouched, cpu_send_pcb-untouched}
use socketapp.Kernel.Planner.Cpus.{cpu_find, change_cpu, after_burst, handle_end_burst}
use socketapp.Kernel.Planner.Cpus.Writes.{cpu_find-set_cpu}
use socketapp.Kernel.Planner.Cpus.Moves.{after_burst-cpus}
use socketapp.Kernel.Planner.Semaphores.{find_nombre}
use socketapp.Kernel.Planner.Semaphores.Waiters.{
  waits_one, waits_in, waits_held, waits_on_cpus, waiters, waits_quiet, QueuesQuiet, IsQuiet-append,
  planificar-quiet, cpu_send_pcb-quiet,
}
use socketapp.Kernel.Planner.Semaphores.Balance.{Fair}
use socketapp.Kernel.Planner.Semaphores.Writes.{waits_on_cpus-set_cpu}
use socketapp.Kernel.Planner.Steps.Same.{after_burst-untouched}

waits_in-append :
    (nombre : List ℕ) (xs : List Process) (program : Process)
    → waits_in nombre (xs ++ (program ∷ [])) ≡ waits_in nombre xs + waits_one nombre program
waits_in-append nombre [] program = omega arith
waits_in-append nombre (x ∷ xs) program = omega (arith, waits_in-append nombre xs program)

-- A program that goes on is blocked if it waits, and ready if it does not.
after_burst-waiters :
    (termino : ℕ) (program : Process) (kernel : Kernel) (nombre : List ℕ)
    → termino ≢ 1
    → QueuesQuiet kernel
    → QueuesQuiet (after_burst termino program kernel)
      × (waiters nombre (after_burst termino program kernel)
          ≡ waiters nombre kernel + waits_one nombre program)
unfolding after_burst
after_burst-waiters termino program kernel nombre goes_on h =
    let more = ==-eq-false termino 1 goes_on in
    elim (Bool-cases program.waiting) [
      | inl waits ↦
          let stays : after_burst termino program kernel
              ≡ record kernel { blocked = kernel.blocked ++ (program ∷ []) } =
            simp (more, waits, after_burst) in
          (
            subst QueuesQuiet (sym stays) h,
            ap (waiters nombre) stays
                ∙ omega (arith, waits_in-append nombre kernel.blocked program),
          )
      | inr runs ↦
          simp (more, runs, after_burst)
            (
              (h.0, IsQuiet-append kernel.ready program h.1 runs),
              omega (arith, waits_quiet nombre program runs),
            )
    ]

cpu_send_pcb-cpus :
    (socket : ℕ) (program : Option Process) (kernel : Kernel)
    → (cpu_send_pcb socket program kernel).cpus ≡ kernel.cpus
cpu_send_pcb-cpus socket none kernel = refl
cpu_send_pcb-cpus socket (some program) kernel = refl

module _ (config : KernelConfig) (socket exit_code termino : ℕ) (kernel : Kernel) (cpu : Cpu)
    (program : Process) where
  -- The end of a burst of a program that goes on (its number is not 1), on the CPU that the socket
  -- belongs to, answers, and keeps that as many programs wait for each semaphore as its value is below
  -- zero and that none of the new and the ready programs waits.
  pub handle_end_burst-Fair :
      cpu_find socket kernel.cpus ≡ some cpu
      → cpu.program ≡ some program
      → termino ≢ 1
      → Fair kernel
      → (kernel' : Kernel) × (handle_end_burst config socket exit_code (some termino) kernel
          ≡ some kernel')
        × Fair kernel'
  unfolding handle_end_burst
  handle_end_burst-Fair found runs goes_on h =
      let program' : Process = record program {
        exit_code = exit_code;
        quantum = 0;
        rafagas = program.rafagas + 1;
      } in
      let leave = λ (c : Cpu). record c { program = none } in
      let idle = change_cpu socket leave kernel in
      let middle = after_burst termino program' idle in
      let taken = planificar config middle in
      let take_on = λ (c : Cpu). record c { program = taken.0 } in
      let after = change_cpu socket take_on taken.1 in
      let final = cpu_send_pcb socket taken.0 after in
      let there : cpu_find socket middle.cpus ≡ some (leave cpu) =
        rw (after_burst-cpus termino program' idle)
          (cpu_find-set_cpu socket leave kernel.cpus {cpu = cpu} (λ c. refl) found) in
      let at_last : cpu_find socket taken.1.cpus ≡ some (leave cpu) =
        rw (planificar-cpus config middle) there in
      let put = λ (n : List ℕ). after_burst-waiters termino program' idle n goes_on h.1 in
      let planned = λ (n : List ℕ). planificar-quiet config middle (put n).0 n in
      let sent = cpu_send_pcb-quiet socket taken.0 after (planned []).0 in
      let same : untouched final ≡ untouched kernel =
        cpu_send_pcb-untouched socket taken.0 after
        ∙ planificar-untouched config middle
        ∙ after_burst-untouched termino program' idle in
      let waiting : (n : List ℕ) → waiters n final ≡ waiters n kernel = λ n. omega (
        arith,
        waits_on_cpus-set_cpu n socket leave kernel.cpus {cpu = cpu} found,
        ap (waits_held n) runs,
        (put n).1,
        (planned n).1,
        ap (waits_in n) (sent.1 ∙ (planned n).2),
        ap (waits_on_cpus n) (planificar-cpus config middle),
        waits_on_cpus-set_cpu n socket take_on taken.1.cpus {cpu = leave cpu} at_last,
        ap (waits_on_cpus n) (cpu_send_pcb-cpus socket taken.0 after),
      ) in
      (
        final,
        rw (found, runs, handle_end_burst),
        (
          λ n sem look.
              let before =
                h.0 n sem (subst (λ s. find_nombre n s ≡ some sem) (ap (λ u. u.1) same) look) in
              (before.0, waiting n ∙ before.1),
          sent.0,
        ),
      )
