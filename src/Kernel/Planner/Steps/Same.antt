-- ===== src/Kernel/Planner/Steps/Same.antt =====
-- Handlers that leave every program in as many places as it is.
use socketapp.Common.{
  ℕ, ◌+◌, ◌≤◌, ◌≡◌, refl, sym, ap, ◌∙◌, inl, inr, Bool, Option, none, some, subst, arith, ◌==◌,
  ◌>>=◌, Option-cases,
}
use mathlib.Core.Option.{some-injective}
use socketapp.Kernel.Planner.{
  Process, Kernel, KernelConfig, number, program_finish, planificar, cpu_send_pcb,
}
use socketapp.Kernel.Planner.Places.{places}
use socketapp.Kernel.Planner.Untouched.{untouched, cpu_send_pcb-untouched, planificar-untouched}
use socketapp.Kernel.Planner.Cpus.{
  destroy_disconnected, find_disconnected, is_disconnected, cpu_find, change_cpu, send,
  handle_interruption, handle_still_burst, burst, handle_end_burst, after_burst,
  select_cpu_socket_connection_lost, lost, remove_cpu,
}
use socketapp.Kernel.Planner.Cpus.Moves.{handle_end_burst-places}
use socketapp.Kernel.Planner.Cpus.Lost.{
  destroy_disconnected-places, handle_still_burst-places, select_cpu_socket_connection_lost-places,
}
use socketapp.Kernel.Planner.Semaphores.Writes.{Alike, send-Alike}

-- The last pid and the places of the programs stay.
pub record Same (kernel kernel' : Kernel) : Type 0 where
  pub id_same : kernel'.program_id ≡ kernel.program_id
  pub all_same : (pid : ℕ) → places kernel' pid ≡ places kernel pid

pub Alike-Same : {kernel kernel' : Kernel} → Alike kernel kernel' → Same kernel kernel'
Alike-Same h = record { id_same = ap (λ u. u.0) h.untouched_same; all_same = h.places_same }

pub bind-some {ℓ κ} :
    {A : Type ℓ} {B : Type κ} (m : Option A) (f : A → Option B) {y : B}
    → (m >>= f) ≡ some y
    → (x : A) × (m ≡ some x) × (f x ≡ some y)
bind-some none f h = absurd (ground arith)
bind-some (some x) f h = (x, refl, h)

-- What holds of an answer holds of every answer.
pub answered :
    (P : Kernel → Type 0) (h : Option Kernel) {kernel' : Kernel}
    → h ≡ some kernel'
    → (r : Kernel) × (h ≡ some r) × P r
    → P kernel'
answered P h {kernel'} e (r, found, holds) =
    subst P (some-injective r kernel' (sym found ∙ e)) holds

pub program_finish-untouched :
    (kernel : Kernel) (program : Process)
    → untouched (program_finish kernel program) ≡ untouched kernel
unfolding program_finish
program_finish-untouched kernel program = ground arith

pub after_burst-untouched :
    (code : ℕ) (program : Process) (kernel : Kernel)
    → untouched (after_burst code program kernel) ≡ untouched kernel
unfolding after_burst
after_burst-untouched code program kernel = ground (arith, program_finish-untouched kernel program)

pub handle_interruption-Same :
    (socket : ℕ) (goes : Bool) (kernel : Kernel) {kernel' : Kernel}
    → handle_interruption socket goes kernel ≡ some kernel'
    → Same kernel kernel'
unfolding handle_interruption
handle_interruption-Same socket goes kernel {kernel'} e =
    let (cpu, found, e₁) = bind-some (cpu_find socket kernel.cpus) _ e in
    let (program, held, e₂) = bind-some cpu.program _ e₁ in
    let message = number socket program.interruption_code in
    subst (Same kernel) (some-injective (send socket message goes kernel) kernel' e₂)
      (Alike-Same (send-Alike socket message goes kernel))

pub handle_still_burst-Same :
    (socket : ℕ) (goes : Bool) (kernel : Kernel) {kernel' : Kernel}
    → handle_still_burst socket goes kernel ≡ some kernel'
    → Same kernel kernel'
unfolding handle_still_burst
handle_still_burst-Same socket goes kernel {kernel'} e =
    let (cpu, found, e₁) = bind-some (cpu_find socket kernel.cpus) _ e in
    let (program, held, e₂) = bind-some cpu.program _ e₁ in
    let middle =
      change_cpu socket (λ cpu. record cpu { program = some (burst program).1 }) kernel in
    let message = number socket (burst program).0 in
    let same = some-injective (send socket message goes middle) kernel' e₂ in
    record {
      id_same =
          sym (ap (λ k. k.program_id) same)
          ∙ (Alike-Same (send-Alike socket message goes middle)).id_same;
      all_same = λ q.
          answered (λ k. places k q ≡ places kernel q) (handle_still_burst socket goes kernel) e
            (handle_still_burst-places kernel socket goes q {cpu = cpu} {program = program} found
              held);
    }

pub handle_end_burst-Same :
    (config : KernelConfig) (socket exit_code termino : ℕ) (kernel : Kernel) {kernel' : Kernel}
    → ((q : ℕ) → places kernel q ≤ 1)
    → handle_end_burst config socket exit_code (some termino) kernel ≡ some kernel'
    → Same kernel kernel'
unfolding handle_end_burst
handle_end_burst-Same config socket exit_code termino kernel {kernel'} distinct e =
    let (cpu, found, e₁) = bind-some (cpu_find socket kernel.cpus) _ e in
    let (program, held, e₂) = bind-some cpu.program _ e₁ in
    let program' : Process = record program {
      exit_code = exit_code;
      quantum = 0;
      rafagas = program.rafagas + 1;
    } in
    let idle = change_cpu socket (λ cpu. record cpu { program = none }) kernel in
    let taken = planificar config (after_burst termino program' idle) in
    let after = change_cpu socket (λ cpu. record cpu { program = taken.0 }) taken.1 in
    let same = some-injective (cpu_send_pcb socket taken.0 after) kernel' e₂ in
    record {
      id_same =
          ap (λ u. u.0)
            (sym (ap untouched same)
              ∙ cpu_send_pcb-untouched socket taken.0 after
              ∙ planificar-untouched config (after_burst termino program' idle)
              ∙ after_burst-untouched termino program' idle);
      all_same = λ q.
          answered (λ k. places k q ≡ places kernel q)
            (handle_end_burst config socket exit_code (some termino) kernel) e
            (handle_end_burst-places config kernel distinct socket {cpu = cpu} {program = program}
              found held exit_code termino q);
    }

pub select_cpu_socket_connection_lost-Same :
    (socket : ℕ) (kernel : Kernel) {kernel' : Kernel}
    → ((q : ℕ) → places kernel q ≤ 1)
    → select_cpu_socket_connection_lost socket kernel ≡ some kernel'
    → Same kernel kernel'
unfolding select_cpu_socket_connection_lost
select_cpu_socket_connection_lost-Same socket kernel {kernel'} distinct e =
    let (cpu, found, e₁) = bind-some (cpu_find socket kernel.cpus) _ e in
    let without = record kernel { cpus = remove_cpu (λ cpu. cpu.socket == socket) kernel.cpus } in
    let moved = λ (q : ℕ).
      answered (λ k. places k q ≡ places kernel q) (select_cpu_socket_connection_lost socket kernel)
        e (select_cpu_socket_connection_lost-places kernel distinct socket q {cpu = cpu} found) in
    elim (Option-cases cpu.program) [
      | inl idle ↦
          let e₂ : some without ≡ some kernel' = simp idle at e₁ in
          record {
            id_same = sym (ap (λ k. k.program_id) (some-injective without kernel' e₂));
            all_same = moved;
          }
      | inr (program, runs) ↦
          let ended = program_finish without (lost program) in
          let e₂ : some ended ≡ some kernel' = simp runs at e₁ in
          record {
            id_same =
                ap (λ u. u.0)
                  (sym (ap untouched (some-injective ended kernel' e₂))
                    ∙ program_finish-untouched without (lost program));
            all_same = moved;
          }
    ]

pub destroy_disconnected-Same :
    (kernel : Kernel) {kernel' : Kernel}
    → ((q : ℕ) → places kernel q ≤ 1)
    → destroy_disconnected kernel ≡ some kernel'
    → Same kernel kernel'
unfolding destroy_disconnected
destroy_disconnected-Same kernel {kernel'} distinct e =
    elim (Option-cases (find_disconnected kernel.cpus)) [
      | inl nobody ↦
          let e₁ : some kernel ≡ some kernel' = rw (nobody, destroy_disconnected) at e in
          subst (Same kernel) (some-injective kernel kernel' e₁)
            (record { id_same = refl; all_same = λ q. refl })
      | inr (cpu, found) ↦ elim (Option-cases cpu.program) [
        | inl idle ↦
            let e₁ : none ≡ some kernel' = rw (found, idle, destroy_disconnected) at e in
            absurd (ground arith)
        | inr (program, runs) ↦
            let without = record kernel { cpus = remove_cpu is_disconnected kernel.cpus } in
            let ended = program_finish without (lost program) in
            let e₁ : some ended ≡ some kernel' = rw (found, runs, destroy_disconnected) at e in
            record {
              id_same =
                  ap (λ u. u.0)
                    (sym (ap untouched (some-injective ended kernel' e₁))
                      ∙ program_finish-untouched without (lost program));
              all_same = λ q.
                  answered (λ k. places k q ≡ places kernel q) (destroy_disconnected kernel) e
                    (destroy_disconnected-places kernel distinct q {cpu = cpu} {program = program}
                      found runs);
            }
      ]
    ]
