-- ===== src/Kernel/Planner/Semaphores/Wait.antt =====
-- A wait that lowers a semaphore below zero makes one more waiter.
use socketapp.Common.{
  ℕ, ◌+◌, ◌-◌, ◌%◌, ◌^◌, ◌≡◌, refl, sym, ap, ◌∙◌, inl, inr, Bool, true, false, Option, some, List,
  arith, word, ltb, if◌then◌else◌, Bool-cases, same_bytes_refl,
}
use socketapp.Kernel.Planner.{Process, Cpu, Semaforo, Kernel, number, success}
use socketapp.Kernel.Planner.Cpus.Writes.{cpu_find-set_cpu}
use socketapp.Kernel.Planner.Cpus.{cpu_find, send}
use socketapp.Kernel.Planner.Semaphores.{
  semaforos_of, find_nombre, set_value, map_held, change_program, count_syscall, wait_for, wait_on,
  handle_cpu_wait, error_sem_does_not_exist,
}
use socketapp.Kernel.Planner.Semaphores.Waiters.{waits_held, waiters}
use socketapp.Kernel.Planner.Semaphores.Unblock.{same_sem}
use socketapp.Kernel.Planner.Semaphores.Writes.{
  Alike-trans, Alike, waits_on_cpus-set_cpu, count_syscall-Alike, send-Alike, with_nombre-cases,
}
use socketapp.Kernel.Planner.Semaphores.Balance.{
  owed, NoneAt, Fair, Alike-Fair, Balanced-set_value, owed_lowered,
}

abbrev one_unless : Bool → ℕ
one_unless test = if test then 0 else 1

module _ (socket : ℕ) (nombre : List ℕ) (sem : Semaforo) (kernel : Kernel) (cpu : Cpu)
    (program : Process) (found : cpu_find socket kernel.cpus ≡ some cpu)
    (held : cpu.program ≡ some program) (active : program.waiting ≡ false) where
  waiting-waiters :
      (other : List ℕ)
      → waiters other (change_program socket (wait_for nombre) kernel)
        ≡ waiters other kernel + same_sem nombre other
  waiting-waiters other =
      let change = λ (c : Cpu). record c { program = map_held (wait_for nombre) c.program } in
      let before : waits_held other cpu.program ≡ 0 = rw (held, active) refl in
      let after : waits_held other (map_held (wait_for nombre) cpu.program)
          ≡ same_sem nombre other =
        rw held refl in
      omega (
        arith,
        waits_on_cpus-set_cpu other socket change kernel.cpus {cpu = cpu} found,
        before,
        after,
      )

  wait_on-Fair :
      (goes : Bool)
      → Fair kernel
      → NoneAt (2 ^ 31) kernel
      → find_nombre nombre kernel.semaforos ≡ some sem
      → Fair (wait_on socket goes nombre sem kernel)
  unfolding wait_on
  wait_on-Fair goes h limit there =
      let value = (sem.value + word - 1) % word in
      let lowered = record kernel { semaforos = set_value nombre value kernel.semaforos } in
      let stops = change_program socket (wait_for nombre) lowered in
      let before = h.0 nombre sem there in
      let owes = owed_lowered sem.value before.0 (limit nombre sem there) in
      let one : same_sem nombre nombre ≡ 1 = rw (same_bytes_refl nombre) refl in
      elim (Bool-cases (ltb value (2 ^ 31))) [
        | inl free ↦
            let owes' : owed value ≡ owed sem.value = omega (arith, owes, ap one_unless free) in
            let fair : Fair lowered = (
              Balanced-set_value kernel lowered nombre sem value h.0 there refl (omega arith)
                  (before.1 ∙ sym owes') (λ other apart. refl),
              h.1,
            ) in
            rw (free, wait_on)
              (Alike-Fair lowered (send socket (number socket 1) goes lowered) fair
                (send-Alike socket (number socket 1) goes lowered))
        | inr taken ↦
            let owes' : owed value ≡ owed sem.value + 1 =
              omega (arith, owes, ap one_unless taken) in
            let here = waiting-waiters nombre in
            let fair : Fair stops = (
              Balanced-set_value kernel stops nombre sem value h.0 there refl (omega arith)
                  (omega (arith, here, before.1, owes', one))
                  (λ other apart.
                    let no : same_sem nombre other ≡ 0 = rw apart refl in
                    omega (arith, waiting-waiters other, no)),
              h.1,
            ) in
            rw (taken, wait_on)
              (Alike-Fair stops (send socket (number socket 0) goes stops) fair
                (send-Alike socket (number socket 0) goes stops))
      ]

-- A CPU that is found and has a program that does not wait: handle_cpu_wait answers. If as many
-- programs wait for each semaphore as its value is below zero, none of them is new or ready, and
-- no value is the least one, then as many wait for each as its value is below zero afterwards.
pub handle_cpu_wait-Fair :
    (socket : ℕ) (nombre : Option (List ℕ)) (goes goes' : Bool) (kernel : Kernel) (cpu : Cpu)
    (program : Process)
    → cpu_find socket kernel.cpus ≡ some cpu
    → cpu.program ≡ some program
    → program.waiting ≡ false
    → Fair kernel
    → NoneAt (2 ^ 31) kernel
    → (kernel' : Kernel) × (handle_cpu_wait socket nombre goes goes' kernel ≡ some kernel')
      × Fair kernel'
handle_cpu_wait-Fair socket nombre goes goes' kernel cpu program found held active h limit =
    let counted = change_program socket count_syscall kernel in
    let told = send socket (success socket true) true counted in
    let same : Alike kernel told =
      Alike-trans (count_syscall-Alike socket kernel)
        (send-Alike socket (success socket true) true counted) in
    let change = λ (c : Cpu). record c { program = map_held count_syscall c.program } in
    let still = cpu_find-set_cpu socket change kernel.cpus {cpu = cpu} (λ c. refl) found in
    with_nombre-cases semaforos_of Fair error_sem_does_not_exist socket nombre goes
      (wait_on socket goes') kernel cpu program found held
      (λ kernel' alike. Alike-Fair kernel kernel' h alike)
      (λ n sem there.
        wait_on-Fair socket n sem told (change cpu) (count_syscall program) still
          (ap (map_held count_syscall) held) active goes' (Alike-Fair kernel told h same) limit
          there)
