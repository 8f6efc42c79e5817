-- ===== src/Cpu/Stack/Calls.antt =====
-- A function that is called and ends: what its body did to the stack is undone.
use socketapp.Common.{
  ℕ, ◌+◌, ◌-◌, ◌*◌, ◌%◌, ◌<◌, ◌≡◌, refl, ap, some, List, [], ◌∷◌, arith, word, ◌>>=◌, length,
}
use socketapp.Serialization.{StackContext, Pcb, Dictionary}
use socketapp.Serialization.Values.{Position}
use socketapp.Serialization.Dict.{IsDictionary}
use socketapp.Cpu.Stack.{
  dictionary_size, stack_context_create, llamar_sin_retorno, stack_pop, end_code, finalizar,
}
use socketapp.Cpu.Stack.Body.{
  CountsKeys, last-append, remove_last-append, Op, run_ops, defines, reads, WellFormed,
}
use socketapp.Cpu.Stack.Inside.{inside, Known, body-inside}

module _ {D : Type 0} (dictionary : Dictionary D) (laws : IsDictionary dictionary)
    (counts : CountsKeys dictionary) (page_size : ℕ) (pcb : Pcb D) where
  finalizar-inside :
      (context : StackContext D) (defined pc exit_code : ℕ)
      → context.ret_pos ≡ pcb.pc
      → let used = (dictionary_size dictionary context.vars + context.arg_count) * 4 in
        finalizar dictionary (inside pcb context defined pc exit_code)
        ≡ some (record pcb {
          stack_position =
              ((pcb.stack_position + 4 * defined) % word + (word - used % word)) % word;
          exit_code = end_code dictionary pcb.indice_de_stack exit_code;
        })
  unfolding finalizar stack_pop
  finalizar-inside context defined pc exit_code returns =
      let position =
        ((pcb.stack_position + 4 * defined) % word
          + (word - (dictionary_size dictionary context.vars + context.arg_count) * 4 % word))
        % word in
      rw
        (
          last-append pcb.indice_de_stack context,
          remove_last-append pcb.indice_de_stack context,
          stack_pop,
          finalizar,
        )
        (ap
          (λ (n : ℕ). some (record pcb {
            pc = n;
            stack_position = position;
            exit_code = end_code dictionary pcb.indice_de_stack exit_code;
          }))
          returns)

  llamar-inside :
      (garbage : List Position) (target : ℕ)
      → pcb.stack_position < word
      → llamar_sin_retorno dictionary garbage target pcb
        ≡ inside pcb
            (record (stack_context_create dictionary garbage) { ret_pos = pcb.pc })
            0
            target
            pcb.exit_code
  unfolding llamar_sin_retorno
  llamar-inside garbage target small =
      let same : (pcb.stack_position + 4 * 0) % word ≡ pcb.stack_position = omega arith in
      rw same refl

  created-Known :
      (garbage : List Position)
      → length garbage ≡ 10
      → Known dictionary pcb [] 0 0
          (record (stack_context_create dictionary garbage) { ret_pos = pcb.pc })
  unfolding stack_context_create
  created-Known garbage ten =
      let empty = counts.create-empty in
      record {
        returns = refl;
        places = ten;
        used = omega (arith, empty);
        unseen = λ id h. laws.get-create (id ∷ []);
      }

  -- A function is called, its body defines no variable twice and reads only arguments as such,
  -- and it ends: the program is back where it was, with the same stack of contexts and the same
  -- counter, and its stack position is lower by four bytes for each argument that was read. The
  -- size of the dictionary counts its keys, the context has ten places for arguments, and the
  -- counts fit 32 bits.
  pub llamar-finalizar :
      (garbage : List Position) (target : ℕ) (ops : List Op)
      → length garbage ≡ 10
      → WellFormed [] ops
      → defines ops + reads ops < word
      → pcb.stack_position < word
      → (exit_code position : ℕ) × ((run_ops dictionary page_size ops
              (llamar_sin_retorno dictionary garbage target pcb)
            >>= finalizar dictionary)
          ≡ some (record pcb { stack_position = position; exit_code = exit_code }))
        × ((position + 4 * reads ops) % word ≡ pcb.stack_position)
  llamar-finalizar garbage target ops ten well small small' =
      let start = record (stack_context_create dictionary garbage) { ret_pos = pcb.pc } in
      let (context, (exit_code, runs), returns, used) =
        body-inside dictionary laws counts page_size pcb ops [] start 0 0 target pcb.exit_code well
          (omega arith) (created-Known garbage ten) in
      (
        end_code dictionary pcb.indice_de_stack exit_code,
        ((pcb.stack_position + 4 * (0 + defines ops)) % word
              + (word - (dictionary_size dictionary context.vars + context.arg_count) * 4 % word))
            % word,
        rw (llamar-inside garbage target small', runs)
            (finalizar-inside context (0 + defines ops) target exit_code returns),
        omega (arith, used),
      )
