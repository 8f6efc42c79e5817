-- ===== src/Kernel/Planner/Semaphores/Writes.antt =====
-- What the writes through the pointer to a CPU do to the number of waiters.
use socketapp.Common.{
  ℕ, ◌+◌, ◌≡◌, refl, ap, ◌∙◌, inl, inr, Bool, true, false, Option, none, some, List, [], ◌∷◌, arith,
  ◌==◌, Bool-cases, Option-cases,
}
use mathlib.Core.Option.{some-injective}
use socketapp.Kernel.Planner.{Process, Cpu, Semaforo, Kernel, Message, success}
use socketapp.Kernel.Planner.Untouched.{untouched}
use socketapp.Kernel.Planner.Places.{count_held, count_one-pid, places}
use socketapp.Kernel.Planner.Cpus.Writes.{set_cpu_same-count}
use socketapp.Kernel.Planner.Cpus.{cpu_find, set_cpu, change_cpu, send}
use socketapp.Kernel.Planner.Semaphores.{
  find_nombre, map_held, change_program, count_syscall, interrupted, disconnect, with_nombre,
}
use socketapp.Kernel.Planner.Semaphores.Waiters.{
  waits_one, waits_in, waits_held, waits_on_cpus, waiters,
}

-- A write through the pointer to a CPU.
pub waits_on_cpus-set_cpu :
    (nombre : List ℕ) (socket : ℕ) (change : Cpu → Cpu) (cpus : List Cpu) {cpu : Cpu}
    → cpu_find socket cpus ≡ some cpu
    → waits_on_cpus nombre (set_cpu socket change cpus) + waits_held nombre cpu.program
      ≡ waits_on_cpus nombre cpus + waits_held nombre (change cpu).program
unfolding cpu_find set_cpu
waits_on_cpus-set_cpu nombre socket change [] {cpu} h = absurd (ground arith)
waits_on_cpus-set_cpu nombre socket change (x ∷ cpus) {cpu} h =
    elim (Bool-cases (x.socket == socket)) [
      | inl here ↦
          let e : some x ≡ some cpu = rw (here, cpu_find) at h in
          let same = some-injective x cpu e in
          rw (here, set_cpu)
            (omega (
              arith,
              ap (λ c. waits_held nombre c.program) same,
              ap (λ c. waits_held nombre (change c).program) same,
            ))
      | inr apart ↦
          let e : cpu_find socket cpus ≡ some cpu = rw (apart, cpu_find) at h in
          rw (apart, set_cpu)
            (omega (arith, waits_on_cpus-set_cpu nombre socket change cpus {cpu = cpu} e))
    ]

-- `Alike kernel kernel'`: nothing that the balance and the places speak of differs.
pub record Alike (kernel kernel' : Kernel) : Type 0 where
  pub untouched_same : untouched kernel' ≡ untouched kernel
  pub waiters_same : (nombre : List ℕ) → waiters nombre kernel' ≡ waiters nombre kernel
  pub places_same : (pid : ℕ) → places kernel' pid ≡ places kernel pid
  pub new_same : kernel'.new_programs ≡ kernel.new_programs
  pub ready_same : kernel'.ready ≡ kernel.ready

pub Alike-trans : {a b c : Kernel} → Alike a b → Alike b c → Alike a c
Alike-trans h k = record {
  untouched_same = k.untouched_same ∙ h.untouched_same;
  waiters_same = λ n. k.waiters_same n ∙ h.waiters_same n;
  places_same = λ q. k.places_same q ∙ h.places_same q;
  new_same = k.new_same ∙ h.new_same;
  ready_same = k.ready_same ∙ h.ready_same;
}

set_cpu-waits :
    (socket : ℕ) (change : Cpu → Cpu)
    → ((nombre : List ℕ) (cpu : Cpu)
        → waits_held nombre (change cpu).program ≡ waits_held nombre cpu.program)
    → (nombre : List ℕ) (cpus : List Cpu)
    → waits_on_cpus nombre (set_cpu socket change cpus) ≡ waits_on_cpus nombre cpus
unfolding set_cpu
set_cpu-waits socket change keeps nombre [] = refl
set_cpu-waits socket change keeps nombre (cpu ∷ cpus) = elim (Bool-cases (cpu.socket == socket)) [
  | inl here ↦ rw (here, set_cpu) (omega (arith, keeps nombre cpu))
  | inr apart ↦ rw (apart, set_cpu) (omega (arith, set_cpu-waits socket change keeps nombre cpus))
]

pub change_cpu-Alike :
    (socket : ℕ) (change : Cpu → Cpu) (kernel : Kernel)
    → ((nombre : List ℕ) (cpu : Cpu)
        → waits_held nombre (change cpu).program ≡ waits_held nombre cpu.program)
    → ((pid : ℕ) (cpu : Cpu) → count_held pid (change cpu).program ≡ count_held pid cpu.program)
    → Alike kernel (change_cpu socket change kernel)
change_cpu-Alike socket change kernel keeps counts = record {
  untouched_same = refl;
  waiters_same = λ n.
      ap (λ (w : ℕ). waits_in n kernel.blocked + w)
        (set_cpu-waits socket change keeps n kernel.cpus);
  places_same = λ q. omega (arith, set_cpu_same-count socket change kernel.cpus q (counts q));
  new_same = refl;
  ready_same = refl;
}

map_held-waits :
    (change : Process → Process)
    → ((nombre : List ℕ) (program : Process)
        → waits_one nombre (change program) ≡ waits_one nombre program)
    → (nombre : List ℕ) (held : Option Process)
    → waits_held nombre (map_held change held) ≡ waits_held nombre held
map_held-waits change keeps nombre none = refl
map_held-waits change keeps nombre (some program) = keeps nombre program

pub map_held-count :
    (change : Process → Process)
    → ((program : Process) → (change program).pid ≡ program.pid)
    → (pid : ℕ) (held : Option Process)
    → count_held pid (map_held change held) ≡ count_held pid held
map_held-count change keeps pid none = refl
map_held-count change keeps pid (some program) =
    count_one-pid pid (change program) program (keeps program)

-- A write to a program that leaves alone its pid and what it waits for.
pub change_program-Alike :
    (socket : ℕ) (change : Process → Process) (kernel : Kernel)
    → ((nombre : List ℕ) (program : Process)
        → waits_one nombre (change program) ≡ waits_one nombre program)
    → ((program : Process) → (change program).pid ≡ program.pid)
    → Alike kernel (change_program socket change kernel)
change_program-Alike socket change kernel keeps pids =
    change_cpu-Alike socket (λ cpu. record cpu { program = map_held change cpu.program }) kernel
      (λ n cpu. map_held-waits change keeps n cpu.program)
      (λ q cpu. map_held-count change pids q cpu.program)

pub send-Alike :
    (socket : ℕ) (message : Message) (goes : Bool) (kernel : Kernel)
    → Alike kernel (send socket message goes kernel)
send-Alike socket message true kernel = record {
  untouched_same = refl;
  waiters_same = λ n. refl;
  places_same = λ q. refl;
  new_same = refl;
  ready_same = refl;
}
send-Alike socket message false kernel =
    change_cpu-Alike socket (λ cpu. record cpu { disconnected = true }) kernel (λ n cpu. refl)
      (λ q cpu. refl)

pub count_syscall-Alike :
    (socket : ℕ) (kernel : Kernel) → Alike kernel (change_program socket count_syscall kernel)
count_syscall-Alike socket kernel =
    change_program-Alike socket count_syscall kernel (λ n p. refl) (λ p. refl)

pub disconnect-Alike : (socket : ℕ) (kernel : Kernel) → Alike kernel (disconnect socket kernel)
disconnect-Alike socket kernel =
    change_cpu-Alike socket (λ cpu. record cpu { disconnected = true }) kernel (λ n cpu. refl)
      (λ q cpu. refl)

pub failure-Alike :
    (socket error : ℕ) (goes : Bool) (kernel : Kernel)
    → Alike kernel
        (send socket (success socket false) goes (change_program socket (interrupted error) kernel))
failure-Alike socket error goes kernel =
    Alike-trans (change_program-Alike socket (interrupted error) kernel (λ n p. refl) (λ p. refl)) (
      send-Alike socket (success socket false) goes
        (change_program socket (interrupted error) kernel))

-- The handlers that receive a name: they change nothing of this, or do their second half.
pub with_nombre-cases :
    (table : Kernel → List Semaforo) (P : Kernel → Type 0) (error socket : ℕ)
    (nombre : Option (List ℕ)) (goes : Bool) (act : List ℕ → Semaforo → Kernel → Kernel)
    (kernel : Kernel) (cpu : Cpu) (program : Process)
    → cpu_find socket kernel.cpus ≡ some cpu
    → cpu.program ≡ some program
    → ((kernel' : Kernel) → Alike kernel kernel' → P kernel')
    → ((n : List ℕ) (sem : Semaforo)
        → find_nombre n (table kernel) ≡ some sem
        → P (
            act n sem (
              send socket (success socket true) true (change_program socket count_syscall kernel))))
    → (kernel' : Kernel) × (with_nombre table error socket nombre goes act kernel ≡ some kernel')
      × P kernel'
unfolding with_nombre
with_nombre-cases table P error socket nombre goes act kernel cpu program found held alike acts =
    let counted = change_program socket count_syscall kernel in
    let same = count_syscall-Alike socket kernel in
    let gone =
      alike (disconnect socket counted) (Alike-trans same (disconnect-Alike socket counted)) in
    elim (Option-cases nombre) [
      | inl lost ↦ (disconnect socket counted, simp (found, held, lost, with_nombre), gone)
      | inr (n, received) ↦ elim (Option-cases (find_nombre n (table kernel))) [
        | inl missing ↦
            let answered =
              send socket (success socket false) goes
                (change_program socket (interrupted error) counted) in
            (
              answered,
              simp (found, held, received, missing, with_nombre),
              alike answered (Alike-trans same (failure-Alike socket error goes counted)),
            )
        | inr (sem, there) ↦ elim (Bool-cases goes) [
          | inl sent ↦ (
            act n sem (send socket (success socket true) true counted),
            simp (found, held, received, there, sent, with_nombre),
            acts n sem there,
          )
          | inr failed ↦ (
            disconnect socket counted,
            simp (found, held, received, there, failed, with_nombre),
            gone,
          )
        ]
      ]
    ]
