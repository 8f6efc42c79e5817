-- ===== src/Serialization/Arrays.antt =====
-- Arrays, by a copier that keeps its promise: `serialize_static_type_array` and back.
use socketapp.Common.{
  All, ℕ, zero, suc, ◌+◌, ◌≤◌, ◌<◌, ◌≡◌, refl, ◌∙◌, some, List, [], ◌∷◌, ◌++◌, arith, word, length,
  length-take, length-append, take, drop, append_assoc,
}
use socketapp.Serialization.{
  serialize_elems, serialize_static_type_array, deserialize_elems, deserialize_static_type_array,
}
use socketapp.Serialization.Values.{Copier, write_int, read_int}
use socketapp.Serialization.Reads.{IsCopier, drop-step, read_int-write_int, length-write_int}

module _ {A : Type 0} (copier : Copier A) {Fits : A → Type 0} (promise : IsCopier copier Fits) where
  abbrev pub written : List A → List ℕ
  written [] = []
  written (x ∷ xs) = copier.serializer x ++ written xs

  serialize_elems-written :
      (n : ℕ) (xs : List A)
      → n ≤ length xs
      → serialize_elems copier n xs ≡ some (written (take n xs))
  unfolding serialize_elems
  serialize_elems-written zero xs h = refl
  serialize_elems-written (suc n) [] h = absurd (omega arith)
  serialize_elems-written (suc n) (x ∷ xs) h =
      rw (serialize_elems-written n xs (omega arith), serialize_elems)

  deserialize_elems-written :
      (xs : List A) (offset : ℕ) (bytes rest : List ℕ)
      → drop offset bytes ≡ written xs ++ rest
      → All Fits xs
      → deserialize_elems copier (length xs) bytes offset ≡ some (xs, offset + length (written xs))
  unfolding deserialize_elems
  deserialize_elems-written [] offset bytes rest h fit =
      let e : offset + 0 ≡ offset = omega arith in rw e
  deserialize_elems-written (x ∷ xs) offset bytes rest h fit =
      let split = append_assoc (copier.serializer x) (written xs) rest in
      let here : copier.deserializer (drop offset bytes) ≡ some x =
        rw (h, split) (promise.reads x (written xs ++ rest) fit.0) in
      let next =
        drop-step offset copier.size bytes (copier.serializer x) (written xs ++ rest)
          (promise.sized x) (h ∙ split) in
      let later = deserialize_elems-written xs (offset + copier.size) bytes rest next fit.1 in
      let end : offset + length (copier.serializer x ++ written xs)
          ≡ offset + copier.size + length (written xs) =
        omega (arith, length-append (copier.serializer x) (written xs), promise.sized x) in
      rw (here, later, end, deserialize_elems)

  -- `count` elements in a stream, from the front on.
  pub record ArrayBytes (count : ℕ) (xs : List A) : Type 0 where
    pub bytes : List ℕ
    pub run : serialize_static_type_array copier count xs ≡ some bytes
    pub counted : (rest : List ℕ) → read_int (bytes ++ rest) ≡ some count
    pub back :
        (rest : List ℕ)
        → deserialize_static_type_array copier (bytes ++ rest) ≡ some (take count xs, length bytes)

  pub array_bytes :
      (count : ℕ) (xs : List A)
      → count ≤ length xs
      → count < word
      → All Fits (take count xs)
      → ArrayBytes count xs
  unfolding serialize_static_type_array deserialize_static_type_array
  array_bytes count xs enough small fit =
      let body = written (take count xs) in
      let size : length (take count xs) ≡ count = omega (arith, length-take count xs) in
      let split = λ (rest : List ℕ). append_assoc (write_int count) body rest in
      let counted = λ (rest : List ℕ). read_int-write_int count (body ++ rest) small in
      record {
        bytes = write_int count ++ body;
        run = rw (serialize_elems-written count xs enough, serialize_static_type_array);
        counted = λ rest. rw (split rest) (counted rest);
        back = λ rest.
            let next =
              drop-step 0 4 (write_int count ++ (body ++ rest)) (write_int count) (body ++ rest)
                (length-write_int count) refl in
            let elems =
              deserialize_elems-written (take count xs) 4 (write_int count ++ (body ++ rest)) rest
                next fit in
            let elems' = rw size at elems in
            let len : length (write_int count ++ body) ≡ 4 + length body =
              omega (arith, length-append (write_int count) body, length-write_int count) in
            rw (split rest, counted rest, elems', len, deserialize_static_type_array);
      }
