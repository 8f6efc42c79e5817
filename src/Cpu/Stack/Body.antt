-- ===== src/Cpu/Stack/Body.antt =====
-- The body of a function, as the list of what it does with its own variables and arguments.
use socketapp.Common.{
  ℕ, ◌+◌, ◌≡◌, ◌⊎◌, refl, ap, Bool, true, false, Option, none, some, List, [], ◌∷◌, ◌++◌, ◌==◌,
  if◌then◌else◌, ◌>>=◌, length,
}
use socketapp.Serialization.{Pcb, Dictionary}
use socketapp.Serialization.Values.{Position}
use socketapp.Cpu.Stack.{
  last, change_last, remove_last, is_argument, definir_variable, stack_get_arg,
}

-- What the commons library documents of the size of a dictionary.
pub record CountsKeys {D : Type 0} (dictionary : Dictionary D) : Type 0 where
  pub create-empty : length (dictionary.entries dictionary.create) ≡ 0
  pub put-new :
      (dict : D) (key : List ℕ) (value : Position)
      → dictionary.get dict key ≡ none
      → length (dictionary.entries (dictionary.put dict key value))
        ≡ length (dictionary.entries dict) + 1

pub last-append {ℓ} : {A : Type ℓ} (xs : List A) (x : A) → last (xs ++ (x ∷ [])) ≡ some x
unfolding last
last-append [] x = refl
last-append (y ∷ []) x = refl
last-append (y ∷ z ∷ xs) x = last-append (z ∷ xs) x

pub change_last-append {ℓ} :
    {A : Type ℓ} (change : A → A) (xs : List A) (x : A)
    → change_last change (xs ++ (x ∷ [])) ≡ xs ++ (change x ∷ [])
unfolding change_last
change_last-append change [] x = refl
change_last-append change (y ∷ []) x = refl
change_last-append change (y ∷ z ∷ xs) x = ap (λ l. y ∷ l) (change_last-append change (z ∷ xs) x)

pub remove_last-append {ℓ} : {A : Type ℓ} (xs : List A) (x : A) → remove_last (xs ++ (x ∷ [])) ≡ xs
unfolding remove_last
remove_last-append [] x = refl
remove_last-append (y ∷ []) x = refl
remove_last-append (y ∷ z ∷ xs) x = ap (λ l. y ∷ l) (remove_last-append (z ∷ xs) x)

-- What a body does with its own variables and arguments.
pub data Op : Type 0 where
  definir : ℕ → Op
  leer_argumento : ℕ → Op

module _ {D : Type 0} (dictionary : Dictionary D) (page_size : ℕ) where
  abbrev pub run_op : Op → Pcb D → Option (Pcb D)
  run_op (definir id) pcb = do
    (puntero, pcb') ← definir_variable dictionary page_size id pcb
    some pcb'
  run_op (leer_argumento id) pcb = do (pos, pcb') ← stack_get_arg dictionary id pcb; some pcb'

  abbrev pub run_ops : List Op → Pcb D → Option (Pcb D)
  run_ops [] pcb = some pcb
  run_ops (op ∷ ops) pcb = run_op op pcb >>= run_ops ops

abbrev pub defines : List Op → ℕ
defines [] = 0
defines (definir id ∷ ops) = 1 + defines ops
defines (leer_argumento id ∷ ops) = defines ops

abbrev pub reads : List Op → ℕ
reads [] = 0
reads (definir id ∷ ops) = reads ops
reads (leer_argumento id ∷ ops) = 1 + reads ops

abbrev pub member : ℕ → List ℕ → Bool
member id [] = false
member id (x ∷ xs) = let rest = member id xs in if x == id then true else rest

abbrev pub first_or : List ℕ → ℕ
first_or [] = 0
first_or (x ∷ xs) = x

-- No variable is defined twice, and only arguments are read as such.
abbrev pub WellFormed : List ℕ → List Op → Type 0
WellFormed seen [] = Unit {0}
WellFormed seen (definir id ∷ ops) =
    ((is_argument id ≡ true) ⊎ (member id seen ≡ false)) × WellFormed (id ∷ seen) ops
WellFormed seen (leer_argumento id ∷ ops) = (is_argument id ≡ true) × WellFormed seen ops
