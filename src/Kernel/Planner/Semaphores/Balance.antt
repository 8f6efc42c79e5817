-- ===== src/Kernel/Planner/Semaphores/Balance.antt =====
-- The value of a semaphore and the programs that wait for it: what wait and signal do to both.
use socketapp.Common.{
  ℕ, ◌+◌, ◌-◌, ◌%◌, ◌^◌, ◌<◌, ◌≡◌, ◌≢◌, sym, ap, ◌∙◌, inl, inr, false, some, List, subst, arith,
  word, ltb, if◌then◌else◌, Bool-cases, same_bytes, same_bytes_iff,
}
use mathlib.Core.Option.{some-injective}
use socketapp.Kernel.Planner.{Semaforo, Kernel}
use socketapp.Kernel.Planner.Semaphores.{find_nombre, set_value}
use socketapp.Kernel.Planner.Semaphores.Waiters.{waiters, QueuesQuiet, IsQuiet}
use socketapp.Kernel.Planner.Semaphores.Lookup.{written, find_nombre-set_value}
use socketapp.Kernel.Planner.Semaphores.Unblock.{released}
use socketapp.Kernel.Planner.Semaphores.Writes.{Alike}

-- A negative value says how many programs wait.
abbrev pub owed : ℕ → ℕ
owed value = if ltb value (2 ^ 31) then 0 else word - value

-- Every semaphore's value is a 32-bit one, and as many programs wait for it as it is below zero.
abbrev pub Balanced : Kernel → Type 0
Balanced kernel =
    (nombre : List ℕ) (sem : Semaforo)
    → find_nombre nombre kernel.semaforos ≡ some sem
    → (sem.value < word) × (waiters nombre kernel ≡ owed sem.value)

-- No semaphore has the given value.
abbrev pub NoneAt : ℕ → Kernel → Type 0
NoneAt value kernel =
    (nombre : List ℕ) (sem : Semaforo)
    → find_nombre nombre kernel.semaforos ≡ some sem
    → sem.value ≢ value

-- A kernel that satisfies the balance and none of whose queued programs waits.
abbrev pub Fair : Kernel → Type 0
Fair kernel = Balanced kernel × QueuesQuiet kernel

pub Alike-Fair : (kernel kernel' : Kernel) → Fair kernel → Alike kernel kernel' → Fair kernel'
Alike-Fair kernel kernel' h same = (
  λ n sem found.
      let before =
        h.0 n sem
          (subst (λ s. find_nombre n s ≡ some sem) (ap (λ u. u.1) same.untouched_same) found) in
      (before.0, same.waiters_same n ∙ before.1),
  (subst IsQuiet (sym same.new_same) h.1.0, subst IsQuiet (sym same.ready_same) h.1.1),
)

-- A new value for one semaphore, whose waiters are those it owes; the others keep theirs.
pub Balanced-set_value :
    (kernel kernel' : Kernel) (nombre : List ℕ) (sem : Semaforo) (value : ℕ)
    → Balanced kernel
    → find_nombre nombre kernel.semaforos ≡ some sem
    → kernel'.semaforos ≡ set_value nombre value kernel.semaforos
    → value < word
    → waiters nombre kernel' ≡ owed value
    → ((other : List ℕ)
        → same_bytes nombre other ≡ false
        → waiters other kernel' ≡ waiters other kernel)
    → Balanced kernel'
Balanced-set_value kernel kernel' nombre sem value h there wrote bounded here apart other sem'
      found =
    let look : written (same_bytes nombre other) value (find_nombre other kernel.semaforos)
        ≡ some sem' =
      sym (find_nombre-set_value nombre other value kernel.semaforos)
      ∙ subst (λ s. find_nombre other s ≡ some sem') wrote found in
    elim (Bool-cases (same_bytes nombre other)) [
      | inl same_name ↦
          let same = (same_bytes_iff nombre other).0 same_name in
          let at_other : find_nombre other kernel.semaforos ≡ some sem =
            subst (λ n. find_nombre n kernel.semaforos ≡ some sem) same there in
          let got : some (record sem { value = value }) ≡ some sem' =
            rw (same_name, at_other) at look in
          let e : value ≡ sem'.value =
            ap (λ s. s.value) (some-injective (record sem { value = value }) sem' got) in
          (
            subst (λ v. v < word) e bounded,
            subst (λ n. waiters n kernel' ≡ owed value) same here ∙ ap owed e,
          )
      | inr different ↦
          let got : find_nombre other kernel.semaforos ≡ some sem' = rw different at look in
          let before = h other sem' got in (before.0, apart other different ∙ before.1)
    ]

-- A value that is raised: one waiter goes, if there is one.
pub owed_raised :
    (value count count' one : ℕ)
    → value < word
    → value ≢ 2 ^ 31 - 1
    → count ≡ owed value
    → one ≡ 1
    → count' + released count one ≡ count
    → count' ≡ owed ((value + 1) % word)
owed_raised value count count' one bounded limit owes single freed = ground arith

-- A value that is lowered: one more waits if it is negative then.
pub owed_lowered :
    (value : ℕ)
    → value < word
    → value ≢ 2 ^ 31
    → owed ((value + word - 1) % word)
      ≡ owed value + (if ltb ((value + word - 1) % word) (2 ^ 31) then 0 else 1)
owed_lowered value bounded limit = ground arith

pub released_none : (count : ℕ) → released count 0 ≡ 0
released_none count = ground arith
