-- ===== src/Tests/Stack.antt =====
-- CPU: a program in its main function, with a variable `x`; page 0 is code, pages have 32 bytes.
use socketapp.Common.{
  ℕ, ◌+◌, ◌*◌, ◌%◌, ◌≡◌, refl, sym, ap, ◌∙◌, inl, inr, none, some, List, [], ◌∷◌, arith, word, neg,
  ◌>>=◌, length, replicate,
}
use socketapp.Serialization.{StackContext, Pcb}
use socketapp.Serialization.Values.{Position}
use socketapp.Serialization.Dict.{IsEntry}
use socketapp.Tests.Serialization.{
  Vars, vars_dictionary, vars_dictionary-IsDictionary, drop_key, lookup_key-entry, live_entries,
  same_key-cases,
}
use socketapp.Cpu.Stack.{
  last, definir_variable, obtener_posicion_variable, llamar_sin_retorno, finalizar,
}
use socketapp.Cpu.Stack.Body.{CountsKeys, Op, definir, leer_argumento, run_ops}
use socketapp.Cpu.Stack.Calls.{llamar-finalizar}
use socketapp.Cpu.Stack.Variables.{definir-obtener}

drop_key-absent :
    (key : List ℕ) (xs : Vars)
    → ((value : Position) → ¬ IsEntry key value xs)
    → drop_key key xs ≡ xs
drop_key-absent key [] h = refl
drop_key-absent key ((k, v) ∷ xs) h = elim (same_key-cases k key) [
  | inl (same, e) ↦ absurd (h v (inl (e, refl)))
  | inr (differ, _) ↦
      rw differ (ap (λ l. (k, v) ∷ l) (drop_key-absent key xs (λ value there. h value (inr there))))
]

vars_dictionary-CountsKeys : CountsKeys vars_dictionary
vars_dictionary-CountsKeys = record {
  create-empty = refl;
  put-new = λ vars key value missing.
      let absent : (v : Position) → ¬ IsEntry key v (live_entries vars) = λ v there.
        let e : none ≡ some v = sym missing ∙ lookup_key-entry vars key v there in
        absurd (ground arith) in
      let same = ap length (drop_key-absent key (live_entries vars) absent) in omega (arith, same);
}

abbrev main_context : StackContext Vars
main_context = record {
  vars = (120 ∷ [], record { page = 1; off = 0; size = 4 }) ∷ [];
  arg_count = 0;
  args = replicate 10 (record { page = 0; off = 0; size = 0 });
  ret_pos = neg 1;
  ret_var = none;
}

abbrev in_main : Pcb Vars
in_main = record {
  pid = 1;
  pc = 7;
  cant_pags_codigo = 1;
  indice_de_codigo_cant = 0;
  indice_de_codigo = [];
  indice_de_etiquetas_cant = 0;
  indice_de_etiquetas = [];
  indice_de_stack = main_context ∷ [];
  stack_position = 4;
  max_stack_position = 64;
  exit_code = 1;
}

-- An argument and a variable are defined, and the argument is read.
abbrev small_body : List Op
small_body = definir 48 ∷ definir 97 ∷ leer_argumento 48 ∷ []

llamar-finalizar_example :
    (exit_code position : ℕ) × ((run_ops vars_dictionary 32 small_body (
          llamar_sin_retorno vars_dictionary
            (replicate 10 (record { page = 0; off = 0; size = 0 }))
            20
            in_main)
        >>= finalizar vars_dictionary)
      ≡ some (record in_main { stack_position = position; exit_code = exit_code }))
    × ((position + 4 * 1) % word ≡ 4)
llamar-finalizar_example =
    llamar-finalizar vars_dictionary vars_dictionary-IsDictionary vars_dictionary-CountsKeys 32
      in_main (replicate 10 (record { page = 0; off = 0; size = 0 })) 20 small_body refl
      (inl refl, (inr refl, (refl, tt))) (omega arith) (omega arith)

main-found : last in_main.indice_de_stack ≡ some main_context
unfolding last
main-found = refl

definir-obtener_example :
    (pcb' : Pcb Vars) × (definir_variable vars_dictionary 32 97 in_main ≡ some (4, pcb'))
    × (obtener_posicion_variable vars_dictionary 32 97 pcb' ≡ some ((4 + 1 * 32) % word, pcb'))
definir-obtener_example =
    definir-obtener vars_dictionary vars_dictionary-IsDictionary 32 97 in_main main_context
      main-found refl (omega arith) (omega arith) (omega arith)
