-- ===== src/Cpu/Stack.antt =====
-- CPU/src/functions/stack.c, and the primitives of functions/primitivas.c that work on the stack of a
-- program. `none`: the code reads through a null pointer.
pub mod Body
pub mod Inside
pub mod Calls
pub mod Variables
use socketapp.Common.{
  ℕ, zero, suc, ◌+◌, ◌-◌, ◌*◌, ◌/◌, ◌%◌, ◌^◌, ◌≤◌, ◌<◌, ◌≡◌, ◌≢◌, ◌↔◌, ◌⊎◌, refl, sym, ap, ◌∙◌, inl,
  inr, Bool, true, false, not, ◌&&◌, ◌||◌, Option, none, some, List, [], ◌∷◌, ◌++◌, subst, arith,
  word, neg, ltb, leb, ◌==◌, if◌then◌else◌, ◌>>=◌, get_elem?, set, length, replicate,
  get_elem?_of_lt, lt_of_get_elem?, get_elem?-set_self, get_elem?-set_ne, length-set, length-append,
  take, drop, append-nil, append_assoc, ==_iff, ==_refl, ==-eq-false, Bool-cases, Option-cases,
  same_bytes, same_bytes_iff, List-cases,
}
use socketapp.Serialization.{StackContext, Pcb, Dictionary}
use socketapp.Serialization.Values.{Position}

abbrev pub error_memory : ℕ
error_memory = neg 5

unfoldable pub last {ℓ} : {A : Type ℓ} → List A → Option A
last [] = none
last (x ∷ []) = some x
last (x ∷ y ∷ xs) = last (y ∷ xs)

unfoldable pub change_last {ℓ} : {A : Type ℓ} → (A → A) → List A → List A
change_last change [] = []
change_last change (x ∷ []) = change x ∷ []
change_last change (x ∷ y ∷ xs) = x ∷ change_last change (y ∷ xs)

unfoldable pub remove_last {ℓ} : {A : Type ℓ} → List A → List A
remove_last [] = []
remove_last (x ∷ []) = []
remove_last (x ∷ y ∷ xs) = x ∷ remove_last (y ∷ xs)

-- `div` of an int rounds to 0, and the rest has the sign of the number.
unfoldable pub puntero_to_position : ℕ → ℕ → Position
puntero_to_position page_size puntero =
    if ltb puntero (2 ^ 31)
    then record { page = puntero / page_size; off = puntero % page_size; size = 4 }
    else (let size = word - puntero in
        record {
          page = (word - size / page_size) % word;
          off = (word - size % page_size) % word;
          size = 4;
        })

unfoldable pub position_to_puntero : ℕ → Position → ℕ
position_to_puntero page_size pos = (pos.page * page_size + pos.off) % word

-- '0' to '9'
abbrev pub is_argument : ℕ → Bool
is_argument id = leb 48 id && leb id 57

module _ {D : Type 0} (dictionary : Dictionary D) where
  abbrev pub dictionary_size : D → ℕ
  dictionary_size dict = length (dictionary.entries dict)

  -- The ten places for arguments hold what `malloc` left there.
  unfoldable pub stack_context_create : List Position → StackContext D
  stack_context_create garbage = record {
    vars = dictionary.create;
    arg_count = 0;
    args = garbage;
    ret_pos = neg 1;
    ret_var = none;
  }

  abbrev pub change_current : (StackContext D → StackContext D) → Pcb D → Pcb D
  change_current change pcb = record pcb {
    indice_de_stack = change_last change pcb.indice_de_stack;
  }

  -- Where a variable that is defined now lies, behind the pages of the code.
  abbrev pub next_position : ℕ → Pcb D → Position
  next_position page_size pcb =
      let pos = puntero_to_position page_size pcb.stack_position in
      record pos { page = (pos.page + pcb.cant_pags_codigo) % word }

  abbrev pub add_arg : ℕ → Position → StackContext D → StackContext D
  add_arg id pos context = record context {
    args = set context.args (id - 48) pos;
    arg_count = (context.arg_count + 1) % word;
  }

  abbrev pub add_var : ℕ → Position → StackContext D → StackContext D
  add_var id pos context = record context { vars = dictionary.put context.vars (id ∷ []) pos }

  unfoldable pub definir_variable : ℕ → ℕ → Pcb D → Option (ℕ × Pcb D)
  definir_variable page_size id pcb = do
    context ← last pcb.indice_de_stack
    let pos = next_position page_size pcb
    let added = change_current (if is_argument id then add_arg id pos else add_var id pos) pcb
    some (
      pcb.stack_position,
      record added {
        exit_code =
            if leb pcb.max_stack_position pcb.stack_position then error_memory else pcb.exit_code;
        stack_position = (pcb.stack_position + 4) % word;
      },
    )

  -- Reading an argument counts it once more.
  unfoldable pub stack_get_arg : ℕ → Pcb D → Option (Position × Pcb D)
  stack_get_arg id pcb = do
    context ← last pcb.indice_de_stack
    pos ← get_elem? context.args (id - 48)
    some (
      pos,
      change_current (λ context. record context { arg_count = (context.arg_count + 1) % word }) pcb,
    )

  unfoldable pub stack_get_var : ℕ → Pcb D → Option Position
  stack_get_var id pcb = do
    context ← last pcb.indice_de_stack
    first ← get_elem? pcb.indice_de_stack 0
    elim (dictionary.get context.vars (id ∷ [])) [
      | some pos ↦ some pos
      | none ↦ dictionary.get first.vars (id ∷ [])
    ]

  unfoldable pub obtener_posicion_variable : ℕ → ℕ → Pcb D → Option (ℕ × Pcb D)
  obtener_posicion_variable page_size id pcb =
      if is_argument id
      then (do (pos, pcb') ← stack_get_arg id pcb; some (position_to_puntero page_size pos, pcb'))
      else (do pos ← stack_get_var id pcb; some (position_to_puntero page_size pos, pcb))

  -- `target` is what metadata_buscar_etiqueta of the parser's library answers.
  unfoldable pub llamar_sin_retorno : List Position → ℕ → Pcb D → Pcb D
  llamar_sin_retorno garbage target pcb = record pcb {
    indice_de_stack =
        pcb.indice_de_stack ++ (record (stack_context_create garbage) { ret_pos = pcb.pc } ∷ []);
    pc = target;
  }

  unfoldable pub llamar_con_retorno : ℕ → List Position → ℕ → ℕ → Pcb D → Pcb D
  llamar_con_retorno page_size garbage target donde_retornar pcb = record pcb {
    indice_de_stack =
        pcb.indice_de_stack
        ++ (record (stack_context_create garbage) {
          ret_pos = pcb.pc;
          ret_var = some (puntero_to_position page_size donde_retornar);
        }
            ∷ []);
    pc = target;
  }

  unfoldable pub stack_pop : Pcb D → Option (Pcb D)
  stack_pop pcb = do
    context ← last pcb.indice_de_stack
    let used = (dictionary_size context.vars + context.arg_count) * 4
    some (record pcb {
      stack_position = (pcb.stack_position + (word - used % word)) % word;
      indice_de_stack = remove_last pcb.indice_de_stack;
    })

  -- The exit code after a context is gone: 0 if it was the last one.
  abbrev pub end_code : List (StackContext D) → ℕ → ℕ
  end_code [] code = 0
  end_code (_ ∷ _) code = code

  unfoldable pub finalizar : Pcb D → Option (Pcb D)
  finalizar pcb = do
    context ← last pcb.indice_de_stack
    popped ← stack_pop (record pcb { pc = context.ret_pos })
    some (record popped { exit_code = end_code popped.indice_de_stack popped.exit_code })

  -- What Memory answers to a write of four bytes at a page and an offset.
  unfoldable pub asignar : ℕ → (ℕ → ℕ → ℕ → ℕ) → ℕ → ℕ → Pcb D → Pcb D
  asignar page_size memory_write puntero valor pcb =
      let pos = puntero_to_position page_size puntero in
      if memory_write pos.page pos.off valor == error_memory
      then record pcb { exit_code = error_memory }
      else pcb

  unfoldable pub retornar : ℕ → (ℕ → ℕ → ℕ → ℕ) → ℕ → Pcb D → Option (Pcb D)
  retornar page_size memory_write retorno pcb = do
    context ← last pcb.indice_de_stack
    elim context.ret_var [
      | none ↦ some pcb
      | some pos ↦
          some (asignar page_size memory_write (position_to_puntero page_size pos) retorno pcb)
    ]
