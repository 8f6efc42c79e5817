-- ===== src/Kernel/Planner/Cpus/Lost.antt =====
-- A burst that goes on, and a CPU that is lost.
use socketapp.Common.{
  ℕ, ◌+◌, ◌≤◌, ◌≡◌, ap, inl, inr, Bool, some, List, [], ◌∷◌, arith, ◌==◌, ==_refl, Bool-cases,
  Option-cases,
}
use mathlib.Core.Option.{some-injective}
use socketapp.Kernel.Planner.{Process, Cpu, Kernel, number, program_finish}
use socketapp.Kernel.Planner.Places.{
  count_one, count_one-pid, count_pid, count_held, count_cpus, places, program_finish-places,
}
use socketapp.Kernel.Planner.Cpus.{
  cpu_find, change_cpu, send, burst, handle_still_burst, remove_cpu, lost,
  select_cpu_socket_connection_lost, find_disconnected, destroy_disconnected, is_disconnected,
}
use socketapp.Kernel.Planner.Cpus.Writes.{set_cpu-count, send-places}

remove_cpu-count :
    (socket pid : ℕ) (cpus : List Cpu) {cpu : Cpu}
    → cpu_find socket cpus ≡ some cpu
    → count_cpus pid (remove_cpu (λ x. x.socket == socket) cpus) + count_held pid cpu.program
      ≡ count_cpus pid cpus
unfolding cpu_find remove_cpu
remove_cpu-count socket pid [] {cpu} h = absurd (ground arith)
remove_cpu-count socket pid (x ∷ cpus) {cpu} h = elim (Bool-cases (x.socket == socket)) [
  | inl here ↦
      let e : some x ≡ some cpu = rw (here, cpu_find) at h in
      simp (here, remove_cpu)
        (omega (arith, ap (λ y. count_held pid y.program) (some-injective x cpu e)))
  | inr apart ↦
      let e : cpu_find socket cpus ≡ some cpu = rw (apart, cpu_find) at h in
      simp (apart, remove_cpu) (omega (arith, remove_cpu-count socket pid cpus {cpu = cpu} e))
]

remove_disconnected-count :
    (pid : ℕ) (cpus : List Cpu) {cpu : Cpu}
    → find_disconnected cpus ≡ some cpu
    → count_cpus pid (remove_cpu is_disconnected cpus) + count_held pid cpu.program
      ≡ count_cpus pid cpus
unfolding find_disconnected remove_cpu
remove_disconnected-count pid [] {cpu} h = absurd (ground arith)
remove_disconnected-count pid (x ∷ cpus) {cpu} h = elim (Bool-cases x.disconnected) [
  | inl here ↦
      let e : some x ≡ some cpu = simp (here, find_disconnected) at h in
      simp (here, remove_cpu)
        (omega (arith, ap (λ y. count_held pid y.program) (some-injective x cpu e)))
  | inr apart ↦
      let e : find_disconnected cpus ≡ some cpu = simp (apart, find_disconnected) at h in
      simp (apart, remove_cpu) (omega (arith, remove_disconnected-count pid cpus {cpu = cpu} e))
]

burst-pid : (program : Process) → (burst program).1.pid ≡ program.pid
unfolding burst
burst-pid program = ground arith

module _ (kernel : Kernel) where
  pub handle_still_burst-places :
      (socket : ℕ) (goes : Bool) (pid : ℕ) {cpu : Cpu} {program : Process}
      → cpu_find socket kernel.cpus ≡ some cpu
      → cpu.program ≡ some program
      → (kernel' : Kernel) × (handle_still_burst socket goes kernel ≡ some kernel')
        × (places kernel' pid ≡ places kernel pid)
  unfolding handle_still_burst
  handle_still_burst-places socket goes pid {cpu} {program} found runs =
      let middle =
        change_cpu socket (λ cpu. record cpu { program = some (burst program).1 }) kernel in
      let moved =
        set_cpu-count socket (λ cpu. record cpu { program = some (burst program).1 }) kernel.cpus
          pid {cpu = cpu} found in
      let held = ap (count_held pid) runs in
      let one = count_one-pid pid (burst program).1 program (burst-pid program) in
      (
        send socket (number socket (burst program).0) goes middle,
        rw (found, runs, handle_still_burst),
        omega (
          arith,
          moved,
          held,
          one,
          send-places socket (number socket (burst program).0) goes middle pid,
        ),
      )

  module _ (distinct : (q : ℕ) → places kernel q ≤ 1) where
    -- A CPU that is gone gives its program to the finished ones.
    finish_removed-places :
        (cpus : List Cpu) (program : Process) (pid : ℕ)
        → ((q : ℕ) → count_cpus q cpus + count_one q program ≡ count_cpus q kernel.cpus)
        → places (program_finish (record kernel { cpus = cpus }) (lost program)) pid
          ≡ places kernel pid
    finish_removed-places cpus program pid h =
        let one : count_one program.pid program ≡ 1 = rw ==_refl in
        let out : count_pid program.pid kernel.finished ≡ 0 =
          omega (arith, distinct program.pid, h program.pid, one) in
        omega (
          arith,
          h pid,
          program_finish-places (record kernel { cpus = cpus }) (lost program) pid out,
        )

    -- A CPU that is found, where no program stands in two places: when its connection is lost
    -- the Kernel answers, and every program stands in as many places as before.
    pub select_cpu_socket_connection_lost-places :
        (socket pid : ℕ) {cpu : Cpu}
        → cpu_find socket kernel.cpus ≡ some cpu
        → (kernel' : Kernel) × (select_cpu_socket_connection_lost socket kernel ≡ some kernel')
          × (places kernel' pid ≡ places kernel pid)
    unfolding select_cpu_socket_connection_lost
    select_cpu_socket_connection_lost-places socket pid {cpu} found =
        let cpus = remove_cpu (λ x. x.socket == socket) kernel.cpus in
        let count = λ (q : ℕ). remove_cpu-count socket q kernel.cpus {cpu = cpu} found in
        elim (Option-cases cpu.program) [
          | inl idle ↦ (
            record kernel { cpus = cpus },
            rw (found, idle, select_cpu_socket_connection_lost),
            omega (arith, count pid, ap (count_held pid) idle),
          )
          | inr (program, runs) ↦ (
            program_finish (record kernel { cpus = cpus }) (lost program),
            rw (found, runs, select_cpu_socket_connection_lost),
            finish_removed-places cpus program pid
                (λ q. omega (arith, count q, ap (count_held q) runs)),
          )
        ]

    pub destroy_disconnected-places :
        (pid : ℕ) {cpu : Cpu} {program : Process}
        → find_disconnected kernel.cpus ≡ some cpu
        → cpu.program ≡ some program
        → (kernel' : Kernel) × (destroy_disconnected kernel ≡ some kernel')
          × (places kernel' pid ≡ places kernel pid)
    unfolding destroy_disconnected
    destroy_disconnected-places pid {cpu} {program} found runs =
        let cpus = remove_cpu is_disconnected kernel.cpus in
        (
          program_finish (record kernel { cpus = cpus }) (lost program),
          rw (found, runs, destroy_disconnected),
          finish_removed-places cpus program pid (λ q. omega (
            arith,
            remove_disconnected-count q kernel.cpus {cpu = cpu} found,
            ap (count_held q) runs,
          )),
        )
