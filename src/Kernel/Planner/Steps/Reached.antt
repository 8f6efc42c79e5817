-- ===== src/Kernel/Planner/Steps/Reached.antt =====
-- What every handler keeps, and so every run.
use mathlib.Core.Option.{some-injective}
use socketapp.Common.{
  sym, ℕ, ◌+◌, ◌≤◌, ◌<◌, ◌≡◌, refl, ap, ◌∙◌, inl, inr, Bool, true, false, Option, none, some, [],
  ◌∷◌, ◌++◌, arith, ◌==◌, if◌then◌else◌, length, Option-cases,
}
use socketapp.Kernel.Planner.{
  Process, Cpu, Kernel, KernelConfig, number, planificar, planificador_largo_plazo, busy_cpus,
}
use socketapp.Kernel.Planner.Places.{places, count_held, count_one}
use socketapp.Kernel.Planner.Untouched.{
  untouched, admit-untouched, planificar-untouched, cpu_send_pcb-untouched,
  cpu_inactive_planner-untouched,
}
use socketapp.Kernel.Planner.Cpus.{cpu_find, handle_new_cpu, handle_end_burst}
use socketapp.Kernel.Planner.Cpus.Moves.{handle_new_cpu-places, handle_end_burst-lost}
use socketapp.Kernel.Planner.Programs.{
  find_program, find_running, remove_program, has_socket, program_interrup, created,
  program_process_new,
}
use socketapp.Kernel.Planner.Programs.Interrupts.{
  program_interrup-places, program_process_new-places,
}
use socketapp.Kernel.Planner.Steps.{
  destroyed, lost_by, lost_in, end_burst_lost, Step, new_cpu, interruption, still_burst, end_burst,
  wait, signal, get_shared_variable, set_shared_variable, connection_lost, process_new, interrup,
  Reach, here, next, Safe,
}
use socketapp.Kernel.Planner.Steps.Same.{
  destroy_disconnected-Same, Same, program_finish-untouched, handle_interruption-Same,
  handle_still_burst-Same, handle_end_burst-Same, select_cpu_socket_connection_lost-Same,
}
use socketapp.Kernel.Planner.Steps.Handlers.{
  handle_cpu_wait-Same, handle_cpu_signal-Same, handle_cpu_get_shared_variable-Same,
  handle_cpu_set_shared_variable-Same,
}

-- The kernel is safe, and no program has lost its place, but for those that were lost.
abbrev pub Kept : Kernel → Kernel → (ℕ → ℕ) → Type 0
Kept kernel kernel' lost =
    Safe kernel' × ((pid : ℕ) → places kernel pid ≤ places kernel' pid + lost pid)

Same-Kept :
    {kernel kernel' : Kernel} → Safe kernel → Same kernel kernel' → Kept kernel kernel' (λ q. 0)
Same-Kept h same = (
  λ q.
      let (one, fresh) = h q in
      let e = same.all_same q in
      let id = same.id_same in (omega arith, λ above. e ∙ fresh (omega arith)),
  λ q. omega (arith, same.all_same q),
)

handle_new_cpu-untouched :
    (config : KernelConfig) (garbage : Option Process) (socket : ℕ) (kernel : Kernel)
    → untouched (handle_new_cpu config garbage socket kernel) ≡ untouched kernel
unfolding handle_new_cpu
handle_new_cpu-untouched config garbage socket kernel =
    let cpu : Cpu = record { socket = socket; program = garbage; disconnected = false } in
    let with_cpu = record kernel { cpus = kernel.cpus ++ (cpu ∷ []) } in
    let taken = planificar config with_cpu in
    cpu_send_pcb-untouched socket taken.0
      (record taken.1 { cpus = kernel.cpus ++ (record cpu { program = taken.0 } ∷ []) })
    ∙ planificar-untouched config with_cpu

program_interrup-untouched :
    (socket code : ℕ) (override : Bool) (kernel : Kernel)
    → untouched (program_interrup socket code override kernel) ≡ untouched kernel
unfolding program_interrup
program_interrup-untouched socket code override kernel =
    let test = has_socket socket in
    elim (Option-cases (find_running test kernel.cpus)) [
      | inr (p, r) ↦ rw (r, program_interrup) refl
      | inl r ↦ elim (Option-cases (find_program test kernel.new_programs)) [
        | inr (p, n) ↦
            rw (r, n, program_interrup)
              (program_finish-untouched
                (record kernel { new_programs = remove_program test kernel.new_programs })
                (record p { exit_code = code }))
        | inl n ↦ elim (Option-cases (find_program test kernel.blocked)) [
          | inr (p, b) ↦
              rw (r, n, b, program_interrup)
                (program_finish-untouched
                  (record kernel { blocked = remove_program test kernel.blocked })
                  (record p { exit_code = code }))
          | inl b ↦ elim (Option-cases (find_program test kernel.ready)) [
            | inr (p, w) ↦
                rw (r, n, b, w, program_interrup)
                  (program_finish-untouched
                    (record kernel { ready = remove_program test kernel.ready })
                    (record p { exit_code = code }))
            | inl w ↦ rw (r, n, b, w, program_interrup) refl
          ]
        ]
      ]
    ]

program_process_new-id :
    (config : KernelConfig) (socket : ℕ) (goes : Bool) (code_size : Option ℕ) (kernel : Kernel)
    → (program_process_new config socket goes code_size kernel).program_id ≡ kernel.program_id + 1
unfolding program_process_new planificador_largo_plazo
program_process_new-id config socket false code_size kernel = refl
program_process_new-id config socket true none kernel = refl
program_process_new-id config socket true (some size) kernel =
    let new = kernel.program_id + 1 in
    let start = record kernel {
      program_id = new;
      new_programs = kernel.new_programs ++ (created config new socket size ∷ []);
      sent = kernel.sent ++ (number socket new ∷ []);
    } in
    ap (λ u. u.0)
      (cpu_inactive_planner-untouched config (planificador_largo_plazo config start)
        ∙ admit-untouched config start.new_programs (length start.ready + busy_cpus start.cpus)
            start)

new_one :
    (config : KernelConfig) (pid socket : ℕ) (goes : Bool) (code_size : Option ℕ) (q : ℕ)
    → (if goes
        then count_held q
            (elim code_size [ none ↦ none | some size ↦ some (created config pid socket size) ])
        else 0)
      ≤ (if pid == q then 1 else 0)
new_one config pid socket false code_size q = omega arith
new_one config pid socket true none q = omega arith
new_one config pid socket true (some size) q = omega arith

-- The new program's place is the only one, and its pid is the last one.
program_process_new-Kept :
    (config : KernelConfig) (socket : ℕ) (goes : Bool) (code_size : Option ℕ) (kernel : Kernel)
    → Safe kernel
    → Kept kernel (program_process_new config socket goes code_size kernel) (λ q. 0)
program_process_new-Kept config socket goes code_size kernel h =
    let new = kernel.program_id + 1 in
    let fresh = (h new).1 (omega arith) in
    let moved = λ (q : ℕ).
      program_process_new-places kernel (λ r. (h r).0) config socket goes code_size q fresh in
    let id = program_process_new-id config socket goes code_size kernel in
    let one = λ (q : ℕ). new_one config new socket goes code_size q in
    let was : places kernel new ≡ 0 = fresh in
    let bounded : (q : ℕ)
        → (places (program_process_new config socket goes code_size kernel) q ≤ 1)
          × (kernel.program_id + 1 < q
              → places (program_process_new config socket goes code_size kernel) q ≡ 0) =
      λ q.
        let (single, above) = h q in
        let e = moved q in
        let b = one q in
        let at_new : new ≡ q → places kernel q ≡ 0 = λ s. above (omega (arith, s)) in
        let none_above : kernel.program_id + 1 < q → places kernel q ≡ 0 =
          λ high. above (omega (arith, high)) in
        (ground arith, ground arith) in
    (
      λ q. ((bounded q).0, λ above. (bounded q).1 (omega (arith, id, above))),
      λ q. omega (arith, moved q),
    )

handle_end_burst-id :
    (config : KernelConfig) (socket exit_code : ℕ) (cpu : Cpu) (program : Process)
    (kernel kernel' : Kernel)
    → cpu_find socket kernel.cpus ≡ some cpu
    → cpu.program ≡ some program
    → handle_end_burst config socket exit_code none kernel ≡ some kernel'
    → kernel'.program_id ≡ kernel.program_id
unfolding handle_end_burst
handle_end_burst-id config socket exit_code cpu program kernel kernel' found runs e =
    let e' = rw (found, runs, handle_end_burst) at e in
    sym (ap (λ k. k.program_id) (some-injective _ kernel' e'))

handle_end_burst_lost-Kept :
    (config : KernelConfig) (socket exit_code : ℕ) (cpu : Cpu) (program : Process)
    (kernel kernel' : Kernel)
    → Safe kernel
    → cpu_find socket kernel.cpus ≡ some cpu
    → cpu.program ≡ some program
    → handle_end_burst config socket exit_code none kernel ≡ some kernel'
    → Kept kernel kernel' (λ q. count_one q program)
handle_end_burst_lost-Kept config socket exit_code cpu program kernel kernel' h found runs e =
    let id = handle_end_burst-id config socket exit_code cpu program kernel kernel' found runs e in
    let moved : (q : ℕ) → places kernel' q + count_one q program ≡ places kernel q = λ q.
      let (k, answers, fewer) =
        handle_end_burst-lost config kernel (λ r. (h r).0) socket {cpu = cpu} {program = program}
          found runs exit_code q in
      ap (λ x. places x q + count_one q program) (some-injective kernel' k (sym e ∙ answers))
      ∙ fewer in
    (
      λ q.
          let (one, fresh) = h q in
          (
            omega (arith, moved q),
            λ above. let none = fresh (omega (arith, id)) in omega (arith, moved q),
          ),
      λ q. omega (arith, moved q),
    )

-- No handler puts a program in two places or loses one, but at the end of its burst without the number,
-- and no pid above the last one comes into use.
pub Step-Kept :
    (config : KernelConfig) (kernel kernel' : Kernel)
    → Safe kernel
    → (step : Step config kernel kernel') → Kept kernel kernel' (λ q. lost_by step q)
Step-Kept config kernel _ h (new_cpu garbage socket) =
    Same-Kept {kernel = kernel} {kernel' = handle_new_cpu config garbage socket kernel} h (record {
      id_same = ap (λ u. u.0) (handle_new_cpu-untouched config garbage socket kernel);
      all_same = handle_new_cpu-places config kernel (λ q. (h q).0) garbage socket;
    })
Step-Kept config kernel _ h (interruption socket goes e) =
    Same-Kept h (handle_interruption-Same socket goes kernel e)
Step-Kept config kernel _ h (still_burst socket goes e) =
    Same-Kept h (handle_still_burst-Same socket goes kernel e)
Step-Kept config kernel _ h (end_burst socket exit_code termino e) =
    Same-Kept h (handle_end_burst-Same config socket exit_code termino kernel (λ q. (h q).0) e)
Step-Kept config kernel kernel' h (end_burst_lost socket exit_code cpu program found runs e) =
    handle_end_burst_lost-Kept config socket exit_code cpu program kernel kernel' h found runs e
Step-Kept config kernel _ h (wait socket nombre goes goes' e) =
    Same-Kept h (handle_cpu_wait-Same socket nombre goes goes' kernel e)
Step-Kept config kernel _ h (signal socket nombre goes e) =
    Same-Kept h (handle_cpu_signal-Same config socket nombre goes kernel (λ q. (h q).0) e)
Step-Kept config kernel _ h (get_shared_variable socket nombre goes goes' e) =
    Same-Kept h (handle_cpu_get_shared_variable-Same socket nombre goes goes' kernel e)
Step-Kept config kernel _ h (set_shared_variable socket nombre value goes e) =
    Same-Kept h (handle_cpu_set_shared_variable-Same socket nombre value goes kernel e)
Step-Kept config kernel _ h (connection_lost socket e) =
    Same-Kept h (select_cpu_socket_connection_lost-Same socket kernel (λ q. (h q).0) e)
Step-Kept config kernel _ h (destroyed e) =
    Same-Kept h (destroy_disconnected-Same kernel (λ q. (h q).0) e)
Step-Kept config kernel _ h (process_new socket goes code_size) =
    program_process_new-Kept config socket goes code_size kernel h
Step-Kept config kernel _ h (interrup socket code override) =
    Same-Kept {kernel = kernel} {kernel' = program_interrup socket code override kernel} h (record {
      id_same = ap (λ u. u.0) (program_interrup-untouched socket code override kernel);
      all_same = program_interrup-places kernel (λ q. (h q).0) socket code override;
    })

-- If no program stands in two of the queues and CPUs and no pid above the last one is in use,
-- that holds after any run of the handlers of `Step` in any order, and every program stands in as many
-- places as before at least, but for the times that it was lost when the end of its burst came without
-- the number behind its PCB.
pub Reach-Kept :
    (config : KernelConfig) (kernel kernel' : Kernel)
    → Safe kernel
    → (run : Reach config kernel kernel') → Kept kernel kernel' (λ q. lost_in run q)
Reach-Kept config kernel _ h here = (h, λ q. omega arith)
Reach-Kept config kernel kernel' h (next {kernel' = middle} run step) =
    let first = Reach-Kept config kernel middle h run in
    let last = Step-Kept config middle kernel' first.0 step in
    (last.0, λ q. let a = first.1 q in let b = last.1 q in omega arith)
