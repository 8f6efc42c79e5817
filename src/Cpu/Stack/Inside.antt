-- ===== src/Cpu/Stack/Inside.antt =====
-- Inside a function that was called: what each operation of its body does to its context.
use socketapp.Common.{
  ℕ, ◌+◌, ◌-◌, ◌*◌, ◌%◌, ◌<◌, ◌≡◌, ◌≢◌, ◌⊎◌, refl, sym, ap, ◌∙◌, inl, inr, true, false, Option,
  none, some, List, [], ◌∷◌, ◌++◌, arith, word, neg, leb, if◌then◌else◌, get_elem?, length,
  get_elem?_of_lt, length-set, ==_iff, Bool-cases,
}
use socketapp.Serialization.{StackContext, Pcb, Dictionary}
use socketapp.Serialization.Values.{Position}
use socketapp.Serialization.Dict.{IsDictionary}
use socketapp.Cpu.Stack.{
  is_argument, dictionary_size, next_position, add_arg, add_var, definir_variable, stack_get_arg,
  end_code,
}
use socketapp.Cpu.Stack.Body.{
  CountsKeys, last-append, change_last-append, Op, definir, leer_argumento, run_op, run_ops,
  defines, reads, member, first_or, WellFormed,
}

module _ {D : Type 0} (pcb : Pcb D) where
  -- In a function whose context is `context`, `defined` variables and arguments later.
  abbrev pub inside : StackContext D → ℕ → ℕ → ℕ → Pcb D
  inside context defined pc exit_code = record pcb {
    indice_de_stack = pcb.indice_de_stack ++ (context ∷ []);
    stack_position = (pcb.stack_position + 4 * defined) % word;
    pc = pc;
    exit_code = exit_code;
  }

module _ {D : Type 0} (dictionary : Dictionary D) (pcb : Pcb D) where
  -- What is known of the context after a part of the body.
  pub record Known (seen : List ℕ) (defined read : ℕ) (context : StackContext D) : Type 0 where
    pub returns : context.ret_pos ≡ pcb.pc
    pub places : length context.args ≡ 10
    pub used : dictionary_size dictionary context.vars + context.arg_count ≡ defined + read
    pub unseen : (id : ℕ) → member id seen ≡ false → dictionary.get context.vars (id ∷ []) ≡ none

module _ {D : Type 0} (dictionary : Dictionary D) (laws : IsDictionary dictionary)
    (counts : CountsKeys dictionary) (page_size : ℕ) (pcb : Pcb D) where
  abbrev defined_in : ℕ → Position → StackContext D → StackContext D
  defined_in id pos =
      if is_argument id then add_arg dictionary id pos else add_var dictionary id pos

  definir-inside :
      (id : ℕ) (context : StackContext D) (defined pc exit_code : ℕ)
      → (run_op dictionary page_size (definir id) (inside pcb context defined pc exit_code)
          ≡ some (
              inside pcb
                (defined_in id
                  (next_position dictionary page_size (inside pcb context defined pc exit_code))
                  context)
                (defined + 1)
                pc
                (if leb pcb.max_stack_position ((pcb.stack_position + 4 * defined) % word)
                  then neg 5
                  else exit_code)))
  unfolding definir_variable
  definir-inside id context defined pc exit_code =
      let more : ((pcb.stack_position + 4 * defined) % word + 4) % word
          ≡ (pcb.stack_position + 4 * (defined + 1)) % word =
        omega arith in
      let found = last-append pcb.indice_de_stack context in
      let change =
        defined_in id
          (next_position dictionary page_size (inside pcb context defined pc exit_code)) in
      rw (found, change_last-append change pcb.indice_de_stack context, more, definir_variable) refl

  leer-inside :
      (id : ℕ) (context : StackContext D) (defined pc exit_code : ℕ) (pos : Position)
      → get_elem? context.args (id - 48) ≡ some pos
      → run_op dictionary page_size (leer_argumento id) (inside pcb context defined pc exit_code)
        ≡ some (
            inside pcb
              (record context { arg_count = (context.arg_count + 1) % word })
              defined
              pc
              exit_code)
  unfolding stack_get_arg
  leer-inside id context defined pc exit_code pos there =
      let change = λ (c : StackContext D). record c { arg_count = (c.arg_count + 1) % word } in
      rw
        (
          last-append pcb.indice_de_stack context,
          there,
          change_last-append change pcb.indice_de_stack context,
          stack_get_arg,
        )
        refl

  definir-Known :
      (id : ℕ) (pos : Position) (context : StackContext D) (seen : List ℕ) (defined read : ℕ)
      → defined + read + 1 < word
      → (is_argument id ≡ true) ⊎ (member id seen ≡ false)
      → Known dictionary pcb seen defined read context
      → Known dictionary pcb (id ∷ seen) (defined + 1) read (defined_in id pos context)
  definir-Known id pos context seen defined read small fresh k =
      let used = k.used in
      elim (Bool-cases (is_argument id)) [
        | inl argument ↦ rw argument (record {
          returns = k.returns;
          places = length-set context.args (id - 48) pos ∙ k.places;
          used = omega arith;
          unseen = λ other h. k.unseen other (ground arith);
        })
        | inr variable ↦
            let new : member id seen ≡ false = elim fresh [
              | inl argument ↦ absurd (ground arith)
              | inr h ↦ h
            ] in
            let more = counts.put-new context.vars (id ∷ []) pos (k.unseen id new) in
            rw variable (record {
              returns = k.returns;
              places = k.places;
              used = omega (arith, more, used);
              unseen = λ other h.
                  let apart : (id ∷ []) ≢ (other ∷ []) = λ e.
                    let same : id ≡ other = ap first_or e in
                    let seen_first : member other (id ∷ seen) ≡ true =
                      rw ((==_iff id other).1 same) refl in
                    absurd (ground arith) in
                  laws.get-put_other context.vars (id ∷ []) pos (other ∷ []) apart
                  ∙ k.unseen other (ground arith);
            })
      ]

  leer-Known :
      (context : StackContext D) (seen : List ℕ) (defined read : ℕ)
      → defined + read + 1 < word
      → Known dictionary pcb seen defined read context
      → Known dictionary pcb seen defined
          (read + 1)
          (record context { arg_count = (context.arg_count + 1) % word })
  leer-Known context seen defined read small k =
      let used = k.used in
      record { returns = k.returns; places = k.places; used = omega arith; unseen = k.unseen }

  -- The state after a body, as far as the end of the function goes.
  abbrev pub After : List Op → ℕ → ℕ → ℕ → Option (Pcb D) → Type 0
  After ops defined read pc result =
      (context : StackContext D) × ((exit_code : ℕ) × (result
          ≡ some (inside pcb context (defined + defines ops) pc exit_code)))
      × (context.ret_pos ≡ pcb.pc)
      × (dictionary_size dictionary context.vars + context.arg_count
          ≡ defined + defines ops + (read + reads ops))

  pub body-inside :
      (ops : List Op) (seen : List ℕ) (context : StackContext D) (defined read pc exit_code : ℕ)
      → WellFormed seen ops
      → defined + read + (defines ops + reads ops) < word
      → Known dictionary pcb seen defined read context
      → After ops defined read pc
          (run_ops dictionary page_size ops (inside pcb context defined pc exit_code))
  body-inside [] seen context defined read pc exit_code well small k =
      let none_more : defined + 0 ≡ defined = omega arith in
      let used = k.used in
      (
        context,
        (exit_code, ap (λ d. some (inside pcb context d pc exit_code)) (sym none_more)),
        k.returns,
        omega arith,
      )
  body-inside (definir id ∷ ops) seen context defined read pc exit_code well small k =
      let pos = next_position dictionary page_size (inside pcb context defined pc exit_code) in
      let exit' =
        if leb pcb.max_stack_position ((pcb.stack_position + 4 * defined) % word)
        then neg 5
        else exit_code in
      let known = definir-Known id pos context seen defined read (omega arith) well.0 k in
      let (last_context, (end_code, runs), returns, used) =
        body-inside ops (id ∷ seen) (defined_in id pos context) (defined + 1) read pc exit' well.1
          (omega arith) known in
      let count : defined + 1 + defines ops ≡ defined + (1 + defines ops) = omega arith in
      (
        last_context,
        (
          end_code,
          rw (definir-inside id context defined pc exit_code)
              (runs ∙ ap (λ d. some (inside pcb last_context d pc end_code)) count),
        ),
        returns,
        omega (arith, used),
      )
  body-inside (leer_argumento id ∷ ops) seen context defined read pc exit_code well small k =
      let places = k.places in
      let argument = well.0 in
      let (pos, there) = get_elem?_of_lt context.args (id - 48) (ground arith) in
      let known = leer-Known context seen defined read (omega arith) k in
      let next = record context { arg_count = (context.arg_count + 1) % word } in
      let (last_context, (end_code, runs), returns, used) =
        body-inside ops seen next defined (read + 1) pc exit_code well.1 (omega arith) known in
      (
        last_context,
        (end_code, rw (leer-inside id context defined pc exit_code pos there) runs),
        returns,
        omega (arith, used),
      )
