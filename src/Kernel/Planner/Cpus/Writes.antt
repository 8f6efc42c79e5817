-- ===== src/Kernel/Planner/Cpus/Writes.antt =====
-- Writes through the pointer to a CPU, and the places of the programs.
use socketapp.Common.{
  ℕ, ◌+◌, ◌≡◌, refl, ap, inl, inr, Bool, true, false, some, List, [], ◌∷◌, subst, arith, ◌==◌,
  Bool-cases,
}
use mathlib.Core.Option.{some-injective}
use socketapp.Kernel.Planner.{Cpu, Kernel, Message}
use socketapp.Kernel.Planner.Places.{count_held, count_cpus, places}
use socketapp.Kernel.Planner.Cpus.{cpu_find, set_cpu, send}

pub set_cpu-count :
    (socket : ℕ) (change : Cpu → Cpu) (cpus : List Cpu) (pid : ℕ) {cpu : Cpu}
    → cpu_find socket cpus ≡ some cpu
    → count_cpus pid (set_cpu socket change cpus) + count_held pid cpu.program
      ≡ count_cpus pid cpus + count_held pid (change cpu).program
unfolding cpu_find set_cpu
set_cpu-count socket change [] pid {cpu} h = absurd (ground arith)
set_cpu-count socket change (x ∷ cpus) pid {cpu} h = elim (Bool-cases (x.socket == socket)) [
  | inl here ↦
      let e : some x ≡ some cpu = rw (here, cpu_find) at h in
      let same : x ≡ cpu = some-injective x cpu e in
      subst
        (λ y.
          count_cpus pid (set_cpu socket change (x ∷ cpus)) + count_held pid y.program
          ≡ count_cpus pid (x ∷ cpus) + count_held pid (change y).program)
        same (rw (here, set_cpu) (omega arith))
  | inr apart ↦
      let e : cpu_find socket cpus ≡ some cpu = rw (apart, cpu_find) at h in
      rw (apart, set_cpu) (omega (arith, set_cpu-count socket change cpus pid {cpu = cpu} e))
]

pub set_cpu_same-count :
    (socket : ℕ) (change : Cpu → Cpu) (cpus : List Cpu) (pid : ℕ)
    → ((cpu : Cpu) → count_held pid (change cpu).program ≡ count_held pid cpu.program)
    → count_cpus pid (set_cpu socket change cpus) ≡ count_cpus pid cpus
unfolding set_cpu
set_cpu_same-count socket change [] pid h = refl
set_cpu_same-count socket change (x ∷ cpus) pid h =
    ground (arith, set_cpu_same-count socket change cpus pid h, h x)

pub send-places :
    (socket : ℕ) (message : Message) (goes : Bool) (kernel : Kernel) (pid : ℕ)
    → places (send socket message goes kernel) pid ≡ places kernel pid
send-places socket message true kernel pid = refl
send-places socket message false kernel pid = omega (
  arith,
  set_cpu_same-count socket (λ cpu. record cpu { disconnected = true }) kernel.cpus pid
      (λ cpu. refl),
)

pub cpu_find-set_cpu :
    (socket : ℕ) (change : Cpu → Cpu) (cpus : List Cpu) {cpu : Cpu}
    → ((x : Cpu) → (change x).socket ≡ x.socket)
    → cpu_find socket cpus ≡ some cpu
    → cpu_find socket (set_cpu socket change cpus) ≡ some (change cpu)
unfolding cpu_find set_cpu
cpu_find-set_cpu socket change [] {cpu} keeps h = absurd (ground arith)
cpu_find-set_cpu socket change (x ∷ cpus) {cpu} keeps h = elim (Bool-cases (x.socket == socket)) [
  | inl here ↦
      let e : some x ≡ some cpu = rw (here, cpu_find) at h in
      let there : ((change x).socket == socket) ≡ true = ground (arith, keeps x) in
      simp (here, set_cpu)
        (simp (there, cpu_find) (ap (λ y. some (change y)) (some-injective x cpu e)))
  | inr apart ↦
      let e : cpu_find socket cpus ≡ some cpu = rw (apart, cpu_find) at h in
      rw (apart, set_cpu)
        (rw (apart, cpu_find) (cpu_find-set_cpu socket change cpus {cpu = cpu} keeps e))
]
