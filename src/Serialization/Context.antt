-- ===== src/Serialization/Context.antt =====
-- A context of the stack: `stack_context_serialize` and back.
use socketapp.Common.{
  All, ℕ, ◌+◌, ◌≤◌, ◌<◌, ◌≡◌, refl, ap, ◌∙◌, true, some, List, ◌++◌, arith, word, length,
  length-append, take, drop, drop-append, drop_all, append_assoc,
}
use socketapp.Common.{leb}
use socketapp.Serialization.{
  StackContext, Dictionary, deserialize_static_type_array, serialize_static_type_dict,
  deserialize_static_type_dict, null_position, stack_context_serialize, stack_context_deserialize,
}
use socketapp.Serialization.Values.{
  write_int, read_int, position_copier, position_serializer, position_deserializer,
}
use socketapp.Serialization.Reads.{
  FitsPosition, or_null, drop-step, read_int-write_int, length-write_int,
  length-position_serializer, position_deserializer-position_serializer, position_copier-IsCopier,
}
use socketapp.Serialization.Arrays.{ArrayBytes, array_bytes}
use socketapp.Serialization.Dict.{
  FitsEntry, IsDictionary, SameVars, deserialize-serialize_static_type_dict,
}

pub drop-front :
    (bytes front rest : List ℕ) → bytes ≡ front ++ rest → drop (length front) bytes ≡ rest
drop-front bytes front rest h = rw h (
    drop-append (length front) front rest (omega arith)
    ∙ rw (drop_all (length front) front (omega arith)))

module _ {D : Type 0} (dictionary : Dictionary D) where
  -- The numbers fit their words, the arguments fit the ten places, and a return variable that is
  -- there is not the position that stands for NULL.
  pub record FitsContext (context : StackContext D) : Type 0 where
    pub few_vars : length (dictionary.entries context.vars) < word
    pub vars : All FitsEntry (dictionary.entries context.vars)
    pub ten : context.arg_count ≤ 10
    pub room : context.arg_count ≤ length context.args
    pub args : All FitsPosition (take context.arg_count context.args)
    pub ret_pos : context.ret_pos < word
    pub ret_var : FitsPosition (or_null context.ret_var)
    pub not_null : null_position dictionary (or_null context.ret_var) ≡ context.ret_var

  module _ (laws : IsDictionary dictionary) where
    -- The same context; of the arguments those that count.
    pub record SameContext (context context' : StackContext D) : Type 0 where
      pub vars : SameVars dictionary laws context.vars context'.vars
      pub arg_count : context'.arg_count ≡ context.arg_count
      pub args : context'.args ≡ take context.arg_count context.args
      pub ret_pos : context'.ret_pos ≡ context.ret_pos
      pub ret_var : context'.ret_var ≡ context.ret_var

    -- The bytes of a context are read back as the same context, whatever follows them.
    pub record ContextBytes (context : StackContext D) : Type 0 where
      pub bytes : List ℕ
      pub run : stack_context_serialize dictionary context ≡ some bytes
      pub back :
          (rest : List ℕ)
          → (context' : StackContext D) × SameContext context context'
            × (stack_context_deserialize dictionary (bytes ++ rest) ≡ some (context', length bytes))

    context_args :
        (context : StackContext D)
        → FitsContext context
        → ArrayBytes position_copier position_copier-IsCopier context.arg_count context.args
    context_args context fit =
        array_bytes position_copier position_copier-IsCopier context.arg_count context.args fit.room
          (omega (arith, fit.ten)) fit.args

    length-context :
        (vars args : List ℕ) (context : StackContext D)
        → length
            (vars ++ (args ++ (position_serializer context.ret_var ++ write_int context.ret_pos)))
          ≡ length vars + length args + 12 + 4
    length-context vars args context =
        let pos = position_serializer context.ret_var in
        let ret = write_int context.ret_pos in
        omega (
          arith,
          length-append vars (args ++ (pos ++ ret)),
          length-append args (pos ++ ret),
          length-append pos ret,
          length-position_serializer context.ret_var,
          length-write_int context.ret_pos,
        )

    context_back :
        (context : StackContext D) (fit : FitsContext context) (rest : List ℕ)
        → let bytes =
            serialize_static_type_dict dictionary context.vars
            ++ ((context_args context fit).bytes
                ++ (position_serializer context.ret_var ++ write_int context.ret_pos)) in
          (context' : StackContext D) × SameContext context context'
          × (stack_context_deserialize dictionary (bytes ++ rest) ≡ some (context', length bytes))
    unfolding stack_context_deserialize
    context_back context fit rest =
        let a = context_args context fit in
        let vars = serialize_static_type_dict dictionary context.vars in
        let pos = position_serializer context.ret_var in
        let ret = write_int context.ret_pos in
        let bytes = (vars ++ (a.bytes ++ (pos ++ ret))) ++ rest in
        let whole : bytes ≡ vars ++ (a.bytes ++ (pos ++ (ret ++ rest))) =
          append_assoc vars (a.bytes ++ (pos ++ ret)) rest
          ∙ ap (λ x. vars ++ x)
              (append_assoc a.bytes (pos ++ ret) rest
                ∙ ap (λ x. a.bytes ++ x) (append_assoc pos ret rest)) in
        let (vars', same, vars_run) =
          deserialize-serialize_static_type_dict dictionary laws context.vars
            (a.bytes ++ (pos ++ (ret ++ rest))) fit.few_vars fit.vars in
        let at_args = drop-front bytes vars (a.bytes ++ (pos ++ (ret ++ rest))) whole in
        let at_pos =
          drop-step (length vars) (length a.bytes) bytes a.bytes (pos ++ (ret ++ rest)) refl
            at_args in
        let at_ret =
          drop-step (length vars + length a.bytes) 12 bytes pos (ret ++ rest)
            (length-position_serializer context.ret_var) at_pos in
        let read : deserialize_static_type_dict dictionary bytes ≡ some (vars', length vars) =
          rw whole vars_run in
        let count : read_int (drop (length vars) bytes) ≡ some context.arg_count =
          rw at_args (a.counted (pos ++ (ret ++ rest))) in
        let args : deserialize_static_type_array position_copier (drop (length vars) bytes)
            ≡ some (take context.arg_count context.args, length a.bytes) =
          rw at_args (a.back (pos ++ (ret ++ rest))) in
        let ten : leb context.arg_count 10 ≡ true = let le = fit.ten in ground arith in
        let position : position_deserializer (drop (length vars + length a.bytes) bytes)
            ≡ some (or_null context.ret_var) =
          rw at_pos
            (position_deserializer-position_serializer context.ret_var (ret ++ rest) fit.ret_var) in
        let number : read_int (drop (length vars + length a.bytes + 12) bytes)
            ≡ some context.ret_pos =
          rw at_ret (read_int-write_int context.ret_pos rest fit.ret_pos) in
        let len = length-context vars a.bytes context in
        (
          record {
            vars = vars';
            arg_count = context.arg_count;
            args = take context.arg_count context.args;
            ret_pos = context.ret_pos;
            ret_var = context.ret_var;
          },
          record { vars = same; arg_count = refl; args = refl; ret_pos = refl; ret_var = refl },
          rw (
            read, count, args, ten, position, number, fit.not_null, len, stack_context_deserialize,
          ),
        )

    pub context_bytes : (context : StackContext D) → FitsContext context → ContextBytes context
    unfolding stack_context_serialize
    context_bytes context fit =
        let a = context_args context fit in
        record {
          bytes =
              serialize_static_type_dict dictionary context.vars
              ++ (a.bytes ++ (position_serializer context.ret_var ++ write_int context.ret_pos));
          run = rw (a.run, stack_context_serialize);
          back = context_back context fit;
        }
