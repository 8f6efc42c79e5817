-- ===== src/Kernel/Planner/Cpus/Burst.antt =====
-- How long a program keeps its CPU: the answers of `handle_still_burst` of handler.c.
use socketapp.Common.{
  ℕ, zero, suc, ◌+◌, ◌-◌, ◌%◌, ◌<◌, ◌≡◌, refl, ap, ◌∙◌, false, List, [], ◌∷◌, ◌++◌, arith, word,
  neg, ◌==◌, if◌then◌else◌, replicate,
}
use socketapp.Kernel.Planner.{Process}
use socketapp.Kernel.Planner.Cpus.{burst}

-- The answers to `n` requests of one CPU, and the program after them.
abbrev pub bursts : ℕ → Process → List ℕ × Process
bursts zero program = ([], program)
bursts (suc n) program =
    let (answer, program') = burst program in
    let (answers, last) = bursts n program' in (answer ∷ answers, last)

burst-running :
    (program : Process) (n : ℕ)
    → program.waiting ≡ false
    → program.quantum ≡ suc n
    → suc n < neg 1
    → burst program ≡ (if n == 0 then 0 else 1, record program { quantum = n })
unfolding burst
burst-running program n runs left small =
    let not_fifo : (program.quantum == neg 1) ≡ false = ground arith in
    let less : (program.quantum + word - 1) % word ≡ n = omega arith in
    simp (runs, not_fifo, less, burst)

-- A program that does not wait and whose quantum is n + 1, and not the one that means no limit:
-- n requests to go on are granted, the next one is not, and the quantum is used up.
pub bursts-quantum :
    (n : ℕ) (program : Process)
    → program.waiting ≡ false
    → program.quantum ≡ suc n
    → suc n < neg 1
    → bursts (suc n) program ≡ (replicate n 1 ++ (0 ∷ []), record program { quantum = 0 })
bursts-quantum zero program runs left small = rw (burst-running program 0 runs left small)
bursts-quantum (suc n) program runs left small =
    let step = burst-running program (suc n) runs left small in
    let rest = bursts-quantum n (record program { quantum = suc n }) runs refl (omega arith) in
    let more : (if suc n == 0 then 0 else 1) ≡ 1 =
      let e : (suc n == 0) ≡ false = ground arith in rw e in
    ap (λ (x : ℕ × Process). (x.0 ∷ (bursts (suc n) x.1).0, (bursts (suc n) x.1).1))
      (step ∙ ap (λ (m : ℕ). (m, record program { quantum = suc n })) more)
    ∙ ap (λ (r : List ℕ × Process). (1 ∷ r.0, r.1)) rest
