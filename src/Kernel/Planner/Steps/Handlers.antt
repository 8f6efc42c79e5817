-- ===== src/Kernel/Planner/Steps/Handlers.antt =====
-- The handlers of semaphores and shared variables leave every program in as many places as it is.
use socketapp.Common.{
  ℕ, ◌+◌, ◌-◌, ◌%◌, ◌^◌, ◌≤◌, ◌≡◌, refl, ap, ◌∙◌, inl, inr, Bool, true, Option, some, List, arith,
  word, ltb, Bool-cases, Option-cases,
}
use socketapp.Kernel.Planner.{Process, Cpu, Semaforo, Kernel, KernelConfig, number, success}
use socketapp.Kernel.Planner.Places.{places}
use socketapp.Kernel.Planner.Cpus.{cpu_find, send}
use socketapp.Kernel.Planner.Semaphores.{
  find_nombre, set_value, change_program, count_syscall, wait_for, disconnect, with_nombre,
  semaforos_of, shared_vars_of, wait_on, handle_cpu_wait, signal_on, handle_cpu_signal,
  handle_cpu_get_shared_variable, handle_cpu_set_shared_variable, error_sem_does_not_exist,
  error_shared_var_does_not_exist, map_held,
}
use socketapp.Kernel.Planner.Semaphores.Unblock.{program_unblock-places, program_unblock-untouched}
use socketapp.Kernel.Planner.Semaphores.Writes.{
  Alike-trans, send-Alike, count_syscall-Alike, disconnect-Alike, failure-Alike, map_held-count,
  with_nombre-cases,
}
use socketapp.Kernel.Planner.Cpus.Writes.{set_cpu_same-count}
use socketapp.Kernel.Planner.Steps.Same.{Same, Alike-Same, bind-some, answered}

Same-trans : {a b c : Kernel} → Same a b → Same b c → Same a c
Same-trans h k = record {
  id_same = k.id_same ∙ h.id_same;
  all_same = λ q. k.all_same q ∙ h.all_same q;
}

wait_on-Same :
    (socket : ℕ) (goes : Bool) (nombre : List ℕ) (sem : Semaforo) (kernel : Kernel)
    → Same kernel (wait_on socket goes nombre sem kernel)
unfolding wait_on
wait_on-Same socket goes nombre sem kernel =
    let value = (sem.value + word - 1) % word in
    let lowered = record kernel { semaforos = set_value nombre value kernel.semaforos } in
    let lower : Same kernel lowered = record { id_same = refl; all_same = λ q. refl } in
    let stops = change_program socket (wait_for nombre) lowered in
    let stopped : Same kernel stops = record {
      id_same = refl;
      all_same = λ q. omega (
        arith,
        set_cpu_same-count socket (λ c. record c { program = map_held (wait_for nombre) c.program })
            kernel.cpus q (λ c. map_held-count (wait_for nombre) (λ p. refl) q c.program),
      );
    } in
    elim (Bool-cases (ltb value (2 ^ 31))) [
      | inl free ↦
          rw (free, wait_on)
            (Same-trans lower (Alike-Same (send-Alike socket (number socket 1) goes lowered)))
      | inr taken ↦
          rw (taken, wait_on)
            (Same-trans stopped (Alike-Same (send-Alike socket (number socket 0) goes stops)))
    ]

signal_on-Same :
    (config : KernelConfig) (nombre : List ℕ) (sem : Semaforo) (kernel : Kernel)
    → ((q : ℕ) → places kernel q ≤ 1)
    → Same kernel (signal_on config nombre sem kernel)
unfolding signal_on
signal_on-Same config nombre sem kernel distinct =
    let raised = record kernel {
      semaforos = set_value nombre ((sem.value + 1) % word) kernel.semaforos;
    } in
    record {
      id_same = ap (λ u. u.0) (program_unblock-untouched config nombre raised);
      all_same = program_unblock-places config nombre raised distinct;
    }

-- A handler that receives a name, whose second half leaves the places alone.
with_nombre-Same :
    (table : Kernel → List Semaforo) (error socket : ℕ) (nombre : Option (List ℕ)) (goes : Bool)
    (act : List ℕ → Semaforo → Kernel → Kernel) (kernel : Kernel) {kernel' : Kernel}
    → ((n : List ℕ) (sem : Semaforo) (k : Kernel) → Same kernel k → Same k (act n sem k))
    → with_nombre table error socket nombre goes act kernel ≡ some kernel'
    → Same kernel kernel'
unfolding with_nombre
with_nombre-Same table error socket nombre goes act kernel {kernel'} acts e =
    let (cpu, found, e₁) = bind-some (cpu_find socket kernel.cpus) _ e in
    let (program, held, e₂) = bind-some cpu.program _ e₁ in
    let counted = change_program socket count_syscall kernel in
    let told = send socket (success socket true) true counted in
    let same = Alike-Same (
      Alike-trans (count_syscall-Alike socket kernel)
        (send-Alike socket (success socket true) true counted)) in
    answered (Same kernel) (with_nombre table error socket nombre goes act kernel) e (
      with_nombre-cases table (Same kernel) error socket nombre goes act kernel cpu program found
        held (λ k. Alike-Same {kernel' = k})
        (λ n sem there. Same-trans same (acts n sem told same)))

pub handle_cpu_wait-Same :
    (socket : ℕ) (nombre : Option (List ℕ)) (goes goes' : Bool) (kernel : Kernel) {kernel' : Kernel}
    → handle_cpu_wait socket nombre goes goes' kernel ≡ some kernel'
    → Same kernel kernel'
handle_cpu_wait-Same socket nombre goes goes' kernel e =
    with_nombre-Same semaforos_of error_sem_does_not_exist socket nombre goes (wait_on socket goes')
      kernel (λ n sem k same. wait_on-Same socket goes' n sem k) e

pub handle_cpu_signal-Same :
    (config : KernelConfig) (socket : ℕ) (nombre : Option (List ℕ)) (goes : Bool) (kernel : Kernel)
    {kernel' : Kernel}
    → ((q : ℕ) → places kernel q ≤ 1)
    → handle_cpu_signal config socket nombre goes kernel ≡ some kernel'
    → Same kernel kernel'
handle_cpu_signal-Same config socket nombre goes kernel distinct e =
    with_nombre-Same semaforos_of error_sem_does_not_exist socket nombre goes (signal_on config)
      kernel
      (λ n sem k same.
        signal_on-Same config n sem k (λ q. omega (arith, distinct q, same.all_same q)))
      e

pub handle_cpu_get_shared_variable-Same :
    (socket : ℕ) (nombre : Option (List ℕ)) (goes goes' : Bool) (kernel : Kernel) {kernel' : Kernel}
    → handle_cpu_get_shared_variable socket nombre goes goes' kernel ≡ some kernel'
    → Same kernel kernel'
handle_cpu_get_shared_variable-Same socket nombre goes goes' kernel e =
    with_nombre-Same shared_vars_of error_shared_var_does_not_exist socket nombre goes
      (λ nombre var kernel. send socket (number socket var.value) goes' kernel) kernel
      (λ n var k same. Alike-Same (send-Alike socket (number socket var.value) goes' k)) e

set_shared_variable-Same :
    (socket : ℕ) (nombre : Option (List ℕ)) (value : Option ℕ) (goes : Bool) (kernel : Kernel)
    (cpu : Cpu) (program : Process)
    → cpu_find socket kernel.cpus ≡ some cpu
    → cpu.program ≡ some program
    → (k : Kernel) × (handle_cpu_set_shared_variable socket nombre value goes kernel ≡ some k)
      × Same kernel k
unfolding handle_cpu_set_shared_variable
set_shared_variable-Same socket nombre value goes kernel cpu program found held =
    let counted = change_program socket count_syscall kernel in
    let same = count_syscall-Alike socket kernel in
    let gone = Alike-Same (Alike-trans same (disconnect-Alike socket counted)) in
    elim (Option-cases nombre) [
      | inl lost ↦ (
        disconnect socket counted,
        simp (found, held, lost, handle_cpu_set_shared_variable),
        gone,
      )
      | inr (n, received) ↦ elim (Option-cases value) [
        | inl lost ↦ (
          disconnect socket counted,
          simp (found, held, received, lost, handle_cpu_set_shared_variable),
          gone,
        )
        | inr (v, sent) ↦ elim (Option-cases (find_nombre n kernel.shared_vars)) [
          | inl missing ↦ (
            _,
            simp (found, held, received, sent, missing, handle_cpu_set_shared_variable),
            Alike-Same (
                Alike-trans same
                  (failure-Alike socket error_shared_var_does_not_exist goes counted)),
          )
          | inr (var, there) ↦
              let wrote = record counted { shared_vars = set_value n v kernel.shared_vars } in
              let write : Same counted wrote = record { id_same = refl; all_same = λ q. refl } in
              (
                send socket (success socket true) goes wrote,
                simp (found, held, received, sent, there, handle_cpu_set_shared_variable),
                Same-trans (Alike-Same same) (
                    Same-trans write
                      (Alike-Same (send-Alike socket (success socket true) goes wrote))),
              )
        ]
      ]
    ]

pub handle_cpu_set_shared_variable-Same :
    (socket : ℕ) (nombre : Option (List ℕ)) (value : Option ℕ) (goes : Bool) (kernel : Kernel)
    {kernel' : Kernel}
    → handle_cpu_set_shared_variable socket nombre value goes kernel ≡ some kernel'
    → Same kernel kernel'
unfolding handle_cpu_set_shared_variable
handle_cpu_set_shared_variable-Same socket nombre value goes kernel e =
    let (cpu, found, e₁) = bind-some (cpu_find socket kernel.cpus) _ e in
    let (program, held, e₂) = bind-some cpu.program _ e₁ in
    answered (Same kernel) (handle_cpu_set_shared_variable socket nombre value goes kernel) e
      (set_shared_variable-Same socket nombre value goes kernel cpu program found held)
