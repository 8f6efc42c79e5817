-- ===== src/Serialization.antt =====
-- functions/serialization.c, the same file in CPU/src and Kernel/src: how a PCB travels between them.
pub mod Values
pub mod Reads
pub mod Arrays
pub mod Dict
pub mod Context
pub mod Contexts
pub mod RoundTrip
use socketapp.Common.{
  ℕ, zero, suc, ◌+◌, ◌-◌, ◌*◌, ◌%◌, ◌≤◌, ◌<◌, ◌≡◌, ◌≢◌, ◌↔◌, ◌⊎◌, refl, sym, ap, ◌∙◌, inl, inr,
  Bool, true, false, not, ◌&&◌, Option, none, some, List, [], ◌∷◌, ◌++◌, subst, arith, word, neg,
  ltb, ◌==◌, if◌then◌else◌, to_nat, get_elem?, set, length, replicate, get_elem?_of_lt,
  lt_of_get_elem?, get_elem?-set_self, get_elem?-set_ne, length-set, length-replicate, length-take,
  length-drop, length-append, length-patch, take, drop, patch, take_all, take-zero, take-drop-patch,
  take-append, drop-append, drop_all, take-drop-patch_apart, patch-append, patch-nil, append-nil,
  append_assoc, min, get_elem?-replicate, get_elem?-set-cases, ==_iff, ==_refl, ==-eq-false,
  Bool-cases, Option-cases,
}
use socketapp.Common.{◌^◌, ◌/◌, leb, ◌>>=◌}
use socketapp.Serialization.Values.{
  Position, Instruction, Copier, write_int, read_int, read_string, read_bytes,
  instruction_serializer, instruction_deserializer, position_serializer, position_deserializer,
  instruction_copier, position_copier,
}

-- `t_indiceDelStack`. A pointer that may be NULL is an option.
pub record StackContext (D : Type 0) : Type 0 where
  pub vars : D
  pub arg_count : ℕ
  pub args : List Position
  pub ret_pos : ℕ
  pub ret_var : Option Position

-- `t_pcb`, less the table of files, which does not travel.
pub record Pcb (D : Type 0) : Type 0 where
  pub pid : ℕ
  pub pc : ℕ
  pub cant_pags_codigo : ℕ
  pub indice_de_codigo_cant : ℕ
  pub indice_de_codigo : List Instruction
  pub indice_de_etiquetas_cant : ℕ
  pub indice_de_etiquetas : List ℕ
  pub indice_de_stack : List (StackContext D)
  pub stack_position : ℕ
  pub max_stack_position : ℕ
  pub exit_code : ℕ

-- The operations of the commons library's `t_dictionary` that the code uses; `entries` is what
-- `dictionary_iterator` goes through, in its order.
pub record Dictionary (D : Type 0) : Type 0 where
  pub create : D
  pub put : D → List ℕ → Position → D
  pub get : D → List ℕ → Option Position
  pub entries : D → List (List ℕ × Position)

module _ {A : Type 0} (copier : Copier A) where
  -- The loop of `serialize_static_type_array`; `none`: the count goes past the end of the array.
  unfoldable pub serialize_elems : ℕ → List A → Option (List ℕ)
  serialize_elems zero array = some []
  serialize_elems (suc n) [] = none
  serialize_elems (suc n) (x ∷ array) = do
    rest ← serialize_elems n array
    some (copier.serializer x ++ rest)

  unfoldable pub serialize_static_type_array : ℕ → List A → Option (List ℕ)
  serialize_static_type_array elem_count array = do
    elems ← serialize_elems elem_count array
    some (write_int elem_count ++ elems)

  -- The loop of `deserialize_static_type_array`; the array and the offset behind it.
  unfoldable pub deserialize_elems : ℕ → List ℕ → ℕ → Option (List A × ℕ)
  deserialize_elems zero bytes offset = some ([], offset)
  deserialize_elems (suc n) bytes offset =
      let rest = deserialize_elems n bytes (offset + copier.size) in
      do x ← copier.deserializer (drop offset bytes); (array, end) ← rest; some (x ∷ array, end)

  unfoldable pub deserialize_static_type_array : List ℕ → Option (List A × ℕ)
  deserialize_static_type_array bytes = do
    elem_count ← read_int bytes
    deserialize_elems elem_count bytes 4

module _ {D : Type 0} (dictionary : Dictionary D) where
  unfoldable pub serialize_entries : List (List ℕ × Position) → List ℕ
  serialize_entries [] = []
  serialize_entries ((key, value) ∷ entries) =
      (key ++ (0 ∷ [])) ++ (position_serializer (some value) ++ serialize_entries entries)

  unfoldable pub serialize_static_type_dict : D → List ℕ
  serialize_static_type_dict dict =
      write_int (length (dictionary.entries dict)) ++ serialize_entries (dictionary.entries dict)

  -- The loop of `deserialize_static_type_dict`; the dictionary and the offset behind it.
  unfoldable pub deserialize_entries : ℕ → D → List ℕ → ℕ → Option (D × ℕ)
  deserialize_entries zero dict bytes offset = some (dict, offset)
  deserialize_entries (suc n) dict bytes offset = do
    key ← read_string (drop offset bytes)
    value ← position_deserializer (drop (offset + (length key + 1)) bytes)
    deserialize_entries n (dictionary.put dict key value) bytes (offset + (length key + 1) + 12)

  unfoldable pub deserialize_static_type_dict : List ℕ → Option (D × ℕ)
  deserialize_static_type_dict bytes = do
    elem_count ← read_int bytes
    deserialize_entries elem_count dictionary.create bytes 4

  unfoldable pub stack_context_serialize : StackContext D → Option (List ℕ)
  stack_context_serialize context = do
    args ← serialize_static_type_array position_copier context.arg_count context.args
    some (
        serialize_static_type_dict context.vars
        ++ (args ++ (position_serializer context.ret_var ++ write_int context.ret_pos)))

  -- The position that was NULL.
  unfoldable pub null_position : Position → Option Position
  null_position p = if p.page == neg 1 && (p.off == neg 1 && p.size == neg 1) then none else some p

  -- `args` has room for ten; past that the copy runs over what follows it.
  unfoldable pub stack_context_deserialize : List ℕ → Option (StackContext D × ℕ)
  stack_context_deserialize bytes = do
    (vars, vars_size) ← deserialize_static_type_dict bytes
    arg_count ← read_int (drop vars_size bytes)
    (args, args_size) ← deserialize_static_type_array position_copier (drop vars_size bytes)
    copied ← if leb arg_count 10 then some args else none
    ret_var ← position_deserializer (drop (vars_size + args_size) bytes)
    ret_pos ← read_int (drop (vars_size + args_size + 12) bytes)
    some (
      record {
        vars = vars;
        arg_count = arg_count;
        args = copied;
        ret_pos = ret_pos;
        ret_var = null_position ret_var;
      },
      vars_size + args_size + 12 + 4,
    )

  unfoldable pub serialize_contexts : List (StackContext D) → Option (List ℕ)
  serialize_contexts [] = some []
  serialize_contexts (context ∷ stack) = do
    bytes ← stack_context_serialize context
    rest ← serialize_contexts stack
    some (bytes ++ rest)

  unfoldable pub stack_serialize : List (StackContext D) → Option (List ℕ)
  stack_serialize stack = do
    contexts ← serialize_contexts stack
    some (write_int (length stack) ++ contexts)

  unfoldable pub deserialize_contexts : ℕ → List ℕ → ℕ → Option (List (StackContext D) × ℕ)
  deserialize_contexts zero bytes offset = some ([], offset)
  deserialize_contexts (suc n) bytes offset = do
    (context, size) ← stack_context_deserialize (drop offset bytes)
    (stack, end) ← deserialize_contexts n bytes (offset + size)
    some (context ∷ stack, end)

  unfoldable pub stack_deserialize : List ℕ → Option (List (StackContext D) × ℕ)
  stack_deserialize bytes = do
    stack_count ← read_int bytes
    deserialize_contexts stack_count bytes 4

  -- The eight numbers in front.
  abbrev pub pcb_fields : Pcb D → List ℕ
  pcb_fields pcb =
      write_int pcb.pid
      ++ (write_int pcb.pc
          ++ (write_int pcb.cant_pags_codigo
              ++ (write_int pcb.indice_de_codigo_cant
                  ++ (write_int pcb.indice_de_etiquetas_cant
                      ++ (write_int pcb.stack_position
                          ++ (write_int pcb.max_stack_position ++ write_int pcb.exit_code))))))

  unfoldable pub pcb_serialize : Pcb D → Option (List ℕ)
  pcb_serialize pcb = do
    code_index ←
        serialize_static_type_array instruction_copier pcb.indice_de_codigo_cant
          pcb.indice_de_codigo
    etiquetas ← read_bytes pcb.indice_de_etiquetas_cant pcb.indice_de_etiquetas
    stack ← stack_serialize pcb.indice_de_stack
    some (pcb_fields pcb ++ (code_index ++ (etiquetas ++ stack)))

  -- The last test is the assertion that all bytes were read.
  unfoldable pub pcb_deserialize : List ℕ → Option (Pcb D)
  pcb_deserialize bytes = do
    pid ← read_int bytes
    pc ← read_int (drop 4 bytes)
    cant_pags_codigo ← read_int (drop 8 bytes)
    indice_de_codigo_cant ← read_int (drop 12 bytes)
    indice_de_etiquetas_cant ← read_int (drop 16 bytes)
    stack_position ← read_int (drop 20 bytes)
    max_stack_position ← read_int (drop 24 bytes)
    exit_code ← read_int (drop 28 bytes)
    (indice_de_codigo, code_index_size) ←
        deserialize_static_type_array instruction_copier (drop 32 bytes)
    indice_de_etiquetas ← read_bytes indice_de_etiquetas_cant (drop (32 + code_index_size) bytes)
    (indice_de_stack, stack_size) ←
        stack_deserialize (drop (32 + code_index_size + indice_de_etiquetas_cant) bytes)
    if length bytes == 32 + code_index_size + indice_de_etiquetas_cant + stack_size
        then some (record {
          pid = pid;
          pc = pc;
          cant_pags_codigo = cant_pags_codigo;
          indice_de_codigo_cant = indice_de_codigo_cant;
          indice_de_codigo = indice_de_codigo;
          indice_de_etiquetas_cant = indice_de_etiquetas_cant;
          indice_de_etiquetas = indice_de_etiquetas;
          indice_de_stack = indice_de_stack;
          stack_position = stack_position;
          max_stack_position = max_stack_position;
          exit_code = exit_code;
        })
        else none
