-- ===== src/Serialization/Contexts.antt =====
-- The stack of contexts: `stack_serialize` and back.
use socketapp.Common.{
  All, ℕ, ◌+◌, ◌<◌, ◌≡◌, refl, ◌∙◌, some, List, [], ◌∷◌, ◌++◌, arith, word, length, length-append,
  drop, append_assoc,
}
use socketapp.Serialization.{
  StackContext, Dictionary, stack_context_deserialize, serialize_contexts, stack_serialize,
  deserialize_contexts, stack_deserialize,
}
use socketapp.Serialization.Values.{write_int}
use socketapp.Serialization.Reads.{drop-step, read_int-write_int, length-write_int}
use socketapp.Serialization.Dict.{IsDictionary}
use socketapp.Serialization.Context.{FitsContext, SameContext, context_bytes}

module _ {D : Type 0} (dictionary : Dictionary D) where
  module _ (laws : IsDictionary dictionary) where
    -- The same contexts in the same order.
    abbrev pub SameStack : List (StackContext D) → List (StackContext D) → Type 0
    SameStack [] [] = Unit {0}
    SameStack (context ∷ stack) (context' ∷ stack') =
        SameContext dictionary laws context context' × SameStack stack stack'
    SameStack _ _ = ⊥

    record ContextsBytes (stack : List (StackContext D)) : Type 0 where
      bytes : List ℕ
      run : serialize_contexts dictionary stack ≡ some bytes
      back :
          (offset : ℕ) (stream rest : List ℕ)
          → drop offset stream ≡ bytes ++ rest
          → (stack' : List (StackContext D)) × SameStack stack stack'
            × (deserialize_contexts dictionary (length stack) stream offset
                ≡ some (stack', offset + length bytes))

    contexts_bytes :
        (stack : List (StackContext D)) → All (FitsContext dictionary) stack → ContextsBytes stack
    unfolding serialize_contexts deserialize_contexts
    contexts_bytes [] fit = record {
      bytes = [];
      run = refl;
      back = λ offset stream rest h. let e : offset + 0 ≡ offset = omega arith in ([], tt, rw e);
    }
    contexts_bytes (context ∷ stack) fit =
        let c = context_bytes dictionary laws context fit.0 in
        let s = contexts_bytes stack fit.1 in
        record {
          bytes = c.bytes ++ s.bytes;
          run = rw (c.run, s.run, serialize_contexts);
          back = λ offset stream rest h.
              let split = append_assoc c.bytes s.bytes rest in
              let (context', same, run) = c.back (s.bytes ++ rest) in
              let here : stack_context_deserialize dictionary (drop offset stream)
                  ≡ some (context', length c.bytes) =
                rw (h, split) run in
              let next =
                drop-step offset (length c.bytes) stream c.bytes (s.bytes ++ rest) refl
                  (h ∙ split) in
              let (stack', sames, later) = s.back (offset + length c.bytes) stream rest next in
              let end : offset + length (c.bytes ++ s.bytes)
                  ≡ offset + length c.bytes + length s.bytes =
                omega (arith, length-append c.bytes s.bytes) in
              (context' ∷ stack', (same, sames), rw (here, later, end, deserialize_contexts));
        }

    pub record StackBytes (stack : List (StackContext D)) : Type 0 where
      pub bytes : List ℕ
      pub run : stack_serialize dictionary stack ≡ some bytes
      pub back :
          (rest : List ℕ)
          → (stack' : List (StackContext D)) × SameStack stack stack'
            × (stack_deserialize dictionary (bytes ++ rest) ≡ some (stack', length bytes))

    pub stack_bytes :
        (stack : List (StackContext D))
        → length stack < word
        → All (FitsContext dictionary) stack
        → StackBytes stack
    unfolding stack_serialize stack_deserialize
    stack_bytes stack small fit =
        let s = contexts_bytes stack fit in
        let count = write_int (length stack) in
        record {
          bytes = count ++ s.bytes;
          run = rw (s.run, stack_serialize);
          back = λ rest.
              let split = append_assoc count s.bytes rest in
              let next =
                drop-step 0 4 (count ++ (s.bytes ++ rest)) count (s.bytes ++ rest)
                  (length-write_int (length stack)) refl in
              let (stack', same, run) = s.back 4 (count ++ (s.bytes ++ rest)) rest next in
              let counted = read_int-write_int (length stack) (s.bytes ++ rest) small in
              let len : length (count ++ s.bytes) ≡ 4 + length s.bytes =
                omega (arith, length-append count s.bytes, length-write_int (length stack)) in
              (stack', same, rw (split, counted, run, len, stack_deserialize));
        }
