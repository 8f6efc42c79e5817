-- ===== src/Kernel/Planner/Semaphores/Signal.antt =====
-- A signal frees one waiter if there is one.
use socketapp.Common.{
  ap, ℕ, ◌+◌, ◌-◌, ◌%◌, ◌^◌, ◌≡◌, refl, Bool, true, Option, some, List, arith, word,
  same_bytes_refl,
}
use socketapp.Kernel.Planner.{Process, Cpu, Semaforo, Kernel, KernelConfig, success}
use socketapp.Kernel.Planner.Cpus.{cpu_find, send}
use socketapp.Kernel.Planner.Semaphores.{
  semaforos_of, find_nombre, set_value, change_program, count_syscall, program_unblock, signal_on,
  handle_cpu_signal, error_sem_does_not_exist,
}
use socketapp.Kernel.Planner.Semaphores.Waiters.{waiters}
use socketapp.Kernel.Planner.Semaphores.Unblock.{
  same_sem, released, program_unblock-waiters, program_unblock-untouched,
}
use socketapp.Kernel.Planner.Semaphores.Writes.{
  Alike-trans, Alike, count_syscall-Alike, send-Alike, with_nombre-cases,
}
use socketapp.Kernel.Planner.Semaphores.Balance.{
  NoneAt, Fair, Alike-Fair, Balanced-set_value, owed_raised, released_none,
}

-- A signal frees one waiter if there is one.
signal_on-Fair :
    (config : KernelConfig) (nombre : List ℕ) (sem : Semaforo) (kernel : Kernel)
    → Fair kernel
    → NoneAt (2 ^ 31 - 1) kernel
    → find_nombre nombre kernel.semaforos ≡ some sem
    → Fair (signal_on config nombre sem kernel)
unfolding signal_on
signal_on-Fair config nombre sem kernel h limit there =
    let raised = record kernel {
      semaforos = set_value nombre ((sem.value + 1) % word) kernel.semaforos;
    } in
    let freed = λ (other : List ℕ). program_unblock-waiters config nombre other raised h.1 in
    let one : same_sem nombre nombre ≡ 1 = rw (same_bytes_refl nombre) refl in
    let value = h.0 nombre sem there in
    let bound = limit nombre sem there in
    (
      Balanced-set_value kernel (program_unblock config nombre raised) nombre sem
          ((sem.value + 1) % word) h.0 there
          (ap (λ u. u.1) (program_unblock-untouched config nombre raised)) (omega arith)
          (owed_raised sem.value (waiters nombre kernel)
            (waiters nombre (program_unblock config nombre raised)) (same_sem nombre nombre) value.0
            bound value.1 one (freed nombre).1)
          (λ other apart.
            let none_freed : same_sem nombre other ≡ 0 = rw apart refl in
            let kept = released_none (waiters nombre kernel) in
            let count : waiters other (program_unblock config nombre raised)
                  + released (waiters nombre raised) 0
                ≡ waiters other raised =
              rw none_freed at ((freed other).1) in
            omega (arith, count, kept)),
      (freed nombre).0,
    )

-- A CPU that is found and has a program: handle_cpu_signal answers. If as many programs wait for
-- each semaphore as its value is below zero, none of them is new or ready, and no value is the
-- greatest one, then as many wait for each as its value is below zero afterwards.
pub handle_cpu_signal-Fair :
    (config : KernelConfig) (socket : ℕ) (nombre : Option (List ℕ)) (goes : Bool) (kernel : Kernel)
    (cpu : Cpu) (program : Process)
    → cpu_find socket kernel.cpus ≡ some cpu
    → cpu.program ≡ some program
    → Fair kernel
    → NoneAt (2 ^ 31 - 1) kernel
    → (kernel' : Kernel) × (handle_cpu_signal config socket nombre goes kernel ≡ some kernel')
      × Fair kernel'
handle_cpu_signal-Fair config socket nombre goes kernel cpu program found held h limit =
    let counted = change_program socket count_syscall kernel in
    let told = send socket (success socket true) true counted in
    let same : Alike kernel told =
      Alike-trans (count_syscall-Alike socket kernel)
        (send-Alike socket (success socket true) true counted) in
    with_nombre-cases semaforos_of Fair error_sem_does_not_exist socket nombre goes
      (signal_on config) kernel cpu program found held
      (λ kernel' alike. Alike-Fair kernel kernel' h alike)
      (λ n sem there. signal_on-Fair config n sem told (Alike-Fair kernel told h same) limit there)
