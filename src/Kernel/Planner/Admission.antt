-- ===== src/Kernel/Planner/Admission.antt =====
-- The long-term planner, ltp.c, and `program_to_ready` of program.c: who is admitted.
use socketapp.Common.{
  ℕ, ◌+◌, ◌*◌, ◌/◌, ◌≤◌, ◌<◌, ◌≡◌, ◌⊎◌, inl, inr, List, [], ◌∷◌, ◌++◌, arith, ltb, ◌==◌,
  if◌then◌else◌, length, Bool-cases,
}
use native.Mathlib.Nat.{div-add-mod', mod-lt}
use socketapp.Kernel.Planner.{
  Process, Kernel, KernelConfig, program_finish, program_to_ready, pages_of_code,
}

-- For pages of a byte at least, the pages of the code hold it, and one page less would not.
pages_of_code-least :
    (frame_size code_size : ℕ)
    → 0 < frame_size
    → (code_size ≤ pages_of_code frame_size code_size * frame_size)
      × (pages_of_code frame_size code_size * frame_size < code_size + frame_size)
pages_of_code-least frame_size code_size pos =
    let whole = div-add-mod' code_size frame_size in
    let small = mod-lt code_size {m = frame_size} pos in
    let one_more : (code_size / frame_size + 1) * frame_size
        ≡ code_size / frame_size * frame_size + frame_size =
      omega arith in
    elim (Bool-cases (ltb (code_size / frame_size * frame_size) code_size)) [
      | inl rest ↦ rw rest (omega (arith, whole, small, one_more), ground (arith, one_more))
      | inr exact ↦ rw exact (ground arith, omega (arith, whole, small))
    ]

pub program_finish-queues :
    (kernel : Kernel) (program : Process)
    → ((program_finish kernel program).ready ≡ kernel.ready)
      × ((program_finish kernel program).cpus ≡ kernel.cpus)
      × ((program_finish kernel program).blocked ≡ kernel.blocked)
unfolding program_finish
program_finish-queues kernel program = ground arith

-- Of the programs, in their order, those for which `program_to_ready` answers 0: Memory has given their
-- pages and taken their code.
abbrev pub taken : KernelConfig → List Process → List Process
taken config [] = []
taken config (program ∷ programs) =
    let (status, program') = program_to_ready config program in
    let rest = taken config programs in if status == 0 then program' ∷ rest else rest

-- `kernel'` is `kernel` after the programs were tried in their order, while fewer than the degree of
-- multiprogramming were at work; `busy` is the number of busy CPUs.
pub record Admitted (config : KernelConfig) (busy : ℕ) (programs : List Process)
    (kernel kernel' : Kernel) : Type 0 where
  pub tried : List Process
  pub in_order : programs ≡ tried ++ kernel'.new_programs
  pub queued : List Process
  pub ready : kernel'.ready ≡ kernel.ready ++ queued
  pub those_taken : queued ≡ taken config tried
  pub exhausted :
      (kernel'.new_programs ≡ []) ⊎ (config.grado_multiprog ≤ length kernel'.ready + busy)
  pub bounded :
      (kernel'.ready ≡ kernel.ready) ⊎ (length kernel'.ready + busy ≤ config.grado_multiprog)
  pub cpus : kernel'.cpus ≡ kernel.cpus
  pub blocked : kernel'.blocked ≡ kernel.blocked
