-- ===== src/Cpu/Stack/Variables.antt =====
-- A variable that was defined is found again, behind the pages of the code.
use socketapp.Common.{
  ℕ, ◌+◌, ◌*◌, ◌/◌, ◌%◌, ◌^◌, ◌≤◌, ◌<◌, ◌≡◌, refl, ap, true, false, some, List, [], ◌∷◌, arith,
  word, neg, ltb, leb, if◌then◌else◌, get_elem?,
}
use mathlib.Core.Option.{some-injective}
use native.Mathlib.Nat.{div-add-mod', div-le_self}
use socketapp.Serialization.{StackContext, Pcb, Dictionary}
use socketapp.Serialization.Dict.{IsDictionary}
use socketapp.Cpu.Stack.{
  last, change_last, is_argument, next_position, add_var, puntero_to_position, position_to_puntero,
  definir_variable, stack_get_var, obtener_posicion_variable,
}

last-change_last {ℓ} :
    {A : Type ℓ} (change : A → A) (xs : List A) {x : A}
    → last xs ≡ some x
    → last (change_last change xs) ≡ some (change x)
unfolding last change_last
last-change_last change [] {x} h = absurd (ground arith)
last-change_last change (y ∷ []) {x} h = ap (λ z. some (change z)) (some-injective y x h)
last-change_last change (y ∷ z ∷ []) {x} h = last-change_last change (z ∷ []) {x = x} h
last-change_last change (y ∷ z ∷ w ∷ xs) {x} h = last-change_last change (z ∷ w ∷ xs) {x = x} h

first-change_last {ℓ} :
    {A : Type ℓ} (change : A → A) (xs : List A) {x : A}
    → last xs ≡ some x
    → (y : A) × (get_elem? (change_last change xs) 0 ≡ some y)
unfolding last change_last
first-change_last change [] {x} h = absurd (ground arith)
first-change_last change (y ∷ []) {x} h = (change y, refl)
first-change_last change (y ∷ z ∷ xs) {x} h = (y, refl)

-- The position of a place in the stack, moved by whole pages, leads back to the place, as far behind.
position_to_puntero-moved :
    (page_size puntero pages : ℕ)
    → 0 < page_size
    → puntero < 2 ^ 31
    → puntero + pages < word
    → position_to_puntero page_size (record (puntero_to_position page_size puntero) {
      page = ((puntero_to_position page_size puntero).page + pages) % word;
    })
      ≡ (puntero + pages * page_size) % word
unfolding puntero_to_position position_to_puntero
position_to_puntero-moved page_size puntero pages pos small fits =
    let positive : ltb puntero (2 ^ 31) ≡ true = ground arith in
    let whole = div-add-mod' puntero page_size in
    let bound : puntero / page_size ≤ puntero = div-le_self puntero page_size in
    let whole_pages : (puntero / page_size + pages) % word ≡ puntero / page_size + pages =
      omega arith in
    let sum : (puntero / page_size + pages) * page_size + puntero % page_size
        ≡ puntero + pages * page_size =
      grind (arith, whole) in
    rw positive (rw whole_pages (ap (λ (n : ℕ). n % word) sum))

module _ {D : Type 0} (dictionary : Dictionary D) (laws : IsDictionary dictionary) where
  -- A variable that is no argument is defined in a program that has a context, with pages of a
  -- byte at least, the stack position below 2 ^ 31 and its sum with the number of the code pages
  -- below 2 ^ 32: the definition answers the stack position, and the variable is found then at
  -- that position behind the pages of the code, and nothing changes.
  pub definir-obtener :
      (page_size id : ℕ) (pcb : Pcb D) (context : StackContext D)
      → last pcb.indice_de_stack ≡ some context
      → is_argument id ≡ false
      → 0 < page_size
      → pcb.stack_position < 2 ^ 31
      → pcb.stack_position + pcb.cant_pags_codigo < word
      → (pcb' : Pcb D) × (definir_variable dictionary page_size id pcb
          ≡ some (pcb.stack_position, pcb'))
        × (obtener_posicion_variable dictionary page_size id pcb'
            ≡ some ((pcb.stack_position + pcb.cant_pags_codigo * page_size) % word, pcb'))
  unfolding definir_variable obtener_posicion_variable stack_get_var
  definir-obtener page_size id pcb context found variable pos small fits =
      let place = next_position dictionary page_size pcb in
      let change = add_var dictionary id place in
      let after : Pcb D = record pcb {
        indice_de_stack = change_last change pcb.indice_de_stack;
        exit_code = if leb pcb.max_stack_position pcb.stack_position then neg 5 else pcb.exit_code;
        stack_position = (pcb.stack_position + 4) % word;
      } in
      let (first, at_first) = first-change_last change pcb.indice_de_stack {x = context} found in
      let now = last-change_last change pcb.indice_de_stack {x = context} found in
      let there = laws.get-put_self context.vars (id ∷ []) place in
      (
        after,
        rw (found, variable, definir_variable) refl,
        rw (variable, now, at_first, there, stack_get_var, obtener_posicion_variable)
            (ap (λ (n : ℕ). some (n, after))
              (position_to_puntero-moved page_size pcb.stack_position pcb.cant_pags_codigo pos small
                fits)),
      )
