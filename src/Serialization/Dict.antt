-- ===== src/Serialization/Dict.antt =====
-- The dictionary of the variables: `serialize_static_type_dict` and back.
use socketapp.Common.{
  All, ℕ, ◌+◌, ◌<◌, ◌≡◌, ◌≢◌, ◌⊎◌, refl, sym, ap, ◌∙◌, inl, inr, none, some, List, [], ◌∷◌, ◌++◌,
  arith, word, length, length-append, drop, append_assoc,
}
use mathlib.Core.List.{List-discrete}
use native.Mathlib.Decide.{ℕ_discrete}
use socketapp.Serialization.{
  Dictionary, serialize_entries, serialize_static_type_dict, deserialize_entries,
  deserialize_static_type_dict,
}
use socketapp.Serialization.Values.{
  Position, write_int, read_string, position_serializer, position_deserializer,
}
use socketapp.Serialization.Reads.{
  IsKey, FitsPosition, drop-step, read_int-write_int, length-write_int, read_string-key,
  length-position_serializer, position_deserializer-position_serializer,
}

abbrev pub IsEntry : List ℕ → Position → List (List ℕ × Position) → Type 0
IsEntry key value [] = ⊥
IsEntry key value ((k, v) ∷ entries) = ((k ≡ key) × (v ≡ value)) ⊎ IsEntry key value entries

-- What the commons library documents of its dictionary: a new one is empty, `dictionary_put` sets
-- one key, and the iterator goes through the keys with their values.
pub record IsDictionary {D : Type 0} (dictionary : Dictionary D) : Type 0 where
  pub get-create : (key : List ℕ) → dictionary.get dictionary.create key ≡ none
  pub get-put_self :
      (dict : D) (key : List ℕ) (value : Position)
      → dictionary.get (dictionary.put dict key value) key ≡ some value
  pub get-put_other :
      (dict : D) (key : List ℕ) (value : Position) (other : List ℕ)
      → key ≢ other
      → dictionary.get (dictionary.put dict key value) other ≡ dictionary.get dict other
  pub get-entries :
      (dict : D) (key : List ℕ) (value : Position)
      → IsEntry key value (dictionary.entries dict)
      → dictionary.get dict key ≡ some value
  pub get-no_entry :
      (dict : D) (key : List ℕ)
      → ((value : Position) → ¬ IsEntry key value (dictionary.entries dict))
      → dictionary.get dict key ≡ none

abbrev pub FitsEntry : List ℕ × Position → Type 0
FitsEntry (key, value) = IsKey key × FitsPosition value

module _ {D : Type 0} (dictionary : Dictionary D) where
  abbrev pub put_all : D → List (List ℕ × Position) → D
  put_all dict [] = dict
  put_all dict ((key, value) ∷ entries) = put_all (dictionary.put dict key value) entries

  deserialize_entries-put_all :
      (entries : List (List ℕ × Position)) (dict : D) (offset : ℕ) (bytes rest : List ℕ)
      → drop offset bytes ≡ serialize_entries dictionary entries ++ rest
      → All FitsEntry entries
      → deserialize_entries dictionary (length entries) dict bytes offset
        ≡ some (put_all dict entries, offset + length (serialize_entries dictionary entries))
  unfolding deserialize_entries serialize_entries
  deserialize_entries-put_all [] dict offset bytes rest h fit =
      let e : offset + 0 ≡ offset = omega arith in rw e
  deserialize_entries-put_all ((key, value) ∷ entries) dict offset bytes rest h fit =
      let ends = key ++ (0 ∷ []) in
      let pos = position_serializer (some value) in
      let tail = serialize_entries dictionary entries in
      let split : (ends ++ (pos ++ tail)) ++ rest ≡ ends ++ (pos ++ (tail ++ rest)) =
        append_assoc ends (pos ++ tail) rest ∙ ap (λ x. ends ++ x) (append_assoc pos tail rest) in
      let key_size : length ends ≡ length key + 1 = length-append key (0 ∷ []) in
      let here : read_string (drop offset bytes) ≡ some key =
        rw (h, split) (read_string-key key (pos ++ (tail ++ rest)) fit.0.0) in
      let at_value =
        drop-step offset (length key + 1) bytes ends (pos ++ (tail ++ rest)) key_size (h ∙ split) in
      let there : position_deserializer (drop (offset + (length key + 1)) bytes) ≡ some value =
        rw at_value
          (position_deserializer-position_serializer (some value) (tail ++ rest) fit.0.1) in
      let next =
        drop-step (offset + (length key + 1)) 12 bytes pos (tail ++ rest)
          (length-position_serializer (some value)) at_value in
      let later =
        deserialize_entries-put_all entries (dictionary.put dict key value)
          (offset + (length key + 1) + 12) bytes rest next fit.1 in
      let end : offset + length (ends ++ (pos ++ tail))
          ≡ offset + (length key + 1) + 12 + length tail =
        omega (
          arith,
          length-append ends (pos ++ tail),
          length-append pos tail,
          length-position_serializer (some value),
          key_size,
        ) in
      rw (here, there, later, end, deserialize_entries)

  module _ (laws : IsDictionary dictionary) where
    -- A key is among the entries, with the value that it has in the end, or it is not.
    put_all-get :
        (entries : List (List ℕ × Position)) (dict : D) (key : List ℕ)
        → ((value : Position) × IsEntry key value entries
            × (dictionary.get (put_all dict entries) key ≡ some value))
          ⊎ (((value : Position) → ¬ IsEntry key value entries)
              × (dictionary.get (put_all dict entries) key ≡ dictionary.get dict key))
    put_all-get [] dict key = inr (λ value h. h, refl)
    put_all-get ((k, v) ∷ entries) dict key =
        elim (put_all-get entries (dictionary.put dict k v) key) [
          | inl (value, there, e) ↦ inl (value, inr there, e)
          | inr (nowhere, e) ↦ elim (List-discrete ℕ_discrete k key) [
            | yes same ↦ inl (v, inl (same, refl), e ∙ rw (sym same) (laws.get-put_self dict k v))
            | no apart ↦ inr (
              λ value h. elim h [ inl (same, _) ↦ apart same | inr there ↦ nowhere value there ],
              e ∙ laws.get-put_other dict k v key apart,
            )
          ]
        ]

    -- The same variables, whatever the order of the iterator.
    abbrev pub SameVars : D → D → Type 0
    SameVars dict dict' = (key : List ℕ) → dictionary.get dict' key ≡ dictionary.get dict key

    put_all-SameVars :
        (dict : D) → SameVars dict (put_all dictionary.create (dictionary.entries dict))
    put_all-SameVars dict key = elim (put_all-get (dictionary.entries dict) dictionary.create key) [
      | inl (value, there, e) ↦ e ∙ sym (laws.get-entries dict key value there)
      | inr (nowhere, e) ↦ e ∙ laws.get-create key ∙ sym (laws.get-no_entry dict key nowhere)
    ]

    pub deserialize-serialize_static_type_dict :
        (dict : D) (rest : List ℕ)
        → length (dictionary.entries dict) < word
        → All FitsEntry (dictionary.entries dict)
        → (dict' : D) × SameVars dict dict'
          × (deserialize_static_type_dict dictionary
                (serialize_static_type_dict dictionary dict ++ rest)
              ≡ some (dict', length (serialize_static_type_dict dictionary dict)))
    unfolding deserialize_static_type_dict serialize_static_type_dict
    deserialize-serialize_static_type_dict dict rest small fit =
        let entries = dictionary.entries dict in
        let body = serialize_entries dictionary entries in
        let count = length entries in
        let split = append_assoc (write_int count) body rest in
        let counted = read_int-write_int count (body ++ rest) small in
        let next =
          drop-step 0 4 (write_int count ++ (body ++ rest)) (write_int count) (body ++ rest)
            (length-write_int count) refl in
        let run =
          deserialize_entries-put_all entries dictionary.create 4
            (write_int count ++ (body ++ rest)) rest next fit in
        let len : length (write_int count ++ body) ≡ 4 + length body =
          omega (arith, length-append (write_int count) body, length-write_int count) in
        (
          put_all dictionary.create entries,
          put_all-SameVars dict,
          rw (split, counted, run, len, deserialize_static_type_dict),
        )
