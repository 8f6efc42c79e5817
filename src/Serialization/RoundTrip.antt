-- ===== src/Serialization/RoundTrip.antt =====
-- `pcb_serialize` and `pcb_deserialize`: a PCB arrives as it was sent.
use socketapp.Common.{
  All, ℕ, ◌+◌, ◌≤◌, ◌<◌, ◌≡◌, refl, true, some, List, [], ◌++◌, arith, word, ◌==◌, length,
  length-take, length-append, take, drop, append-nil,
}
use socketapp.Common.{leb}
use socketapp.Serialization.{
  Pcb, Dictionary, deserialize_static_type_array, stack_deserialize, pcb_fields, pcb_serialize,
  pcb_deserialize,
}
use socketapp.Serialization.Values.{write_int, read_int, read_bytes, instruction_copier}
use socketapp.Serialization.Reads.{
  FitsInstruction, drop-step, read_int-there, read_bytes-front, instruction_copier-IsCopier,
}
use socketapp.Serialization.Arrays.{array_bytes}
use socketapp.Serialization.Dict.{IsDictionary}
use socketapp.Serialization.Context.{FitsContext}
use socketapp.Serialization.Contexts.{SameStack, stack_bytes}

module _ {D : Type 0} (dictionary : Dictionary D) where
  -- The numbers of a PCB fit their words, and the arrays have the elements that are counted.
  pub record FitsPcb (pcb : Pcb D) : Type 0 where
    pub pid : pcb.pid < word
    pub pc : pcb.pc < word
    pub cant_pags_codigo : pcb.cant_pags_codigo < word
    pub codigo_count : pcb.indice_de_codigo_cant < word
    pub codigo_room : pcb.indice_de_codigo_cant ≤ length pcb.indice_de_codigo
    pub codigo : All FitsInstruction (take pcb.indice_de_codigo_cant pcb.indice_de_codigo)
    pub etiquetas_count : pcb.indice_de_etiquetas_cant < word
    pub etiquetas_room : pcb.indice_de_etiquetas_cant ≤ length pcb.indice_de_etiquetas
    pub stack_count : length pcb.indice_de_stack < word
    pub stack : All (FitsContext dictionary) pcb.indice_de_stack
    pub stack_position : pcb.stack_position < word
    pub max_stack_position : pcb.max_stack_position < word
    pub exit_code : pcb.exit_code < word

  fields_then :
      (pcb : Pcb D) (tail : List ℕ)
      → pcb_fields dictionary pcb ++ tail
        ≡ write_int pcb.pid
          ++ (write_int pcb.pc
              ++ (write_int pcb.cant_pags_codigo
                  ++ (write_int pcb.indice_de_codigo_cant
                      ++ (write_int pcb.indice_de_etiquetas_cant
                          ++ (write_int pcb.stack_position
                              ++ (write_int pcb.max_stack_position
                                  ++ (write_int pcb.exit_code ++ tail)))))))
  unfolding write_int
  fields_then pcb tail = refl

  length-pcb_fields : (pcb : Pcb D) → length (pcb_fields dictionary pcb) ≡ 32
  unfolding write_int
  length-pcb_fields pcb = refl

  -- The eight numbers at the front, and what follows them.
  record FieldsRead (pcb : Pcb D) (bytes tail : List ℕ) : Type 0 where
    pid : read_int bytes ≡ some pcb.pid
    pc : read_int (drop 4 bytes) ≡ some pcb.pc
    cant_pags_codigo : read_int (drop 8 bytes) ≡ some pcb.cant_pags_codigo
    codigo_cant : read_int (drop 12 bytes) ≡ some pcb.indice_de_codigo_cant
    etiquetas_cant : read_int (drop 16 bytes) ≡ some pcb.indice_de_etiquetas_cant
    stack_position : read_int (drop 20 bytes) ≡ some pcb.stack_position
    max_stack_position : read_int (drop 24 bytes) ≡ some pcb.max_stack_position
    exit_code : read_int (drop 28 bytes) ≡ some pcb.exit_code
    at_tail : drop 32 bytes ≡ tail

  fields_read :
      (pcb : Pcb D) (tail : List ℕ)
      → FitsPcb pcb
      → FieldsRead pcb (pcb_fields dictionary pcb ++ tail) tail
  fields_read pcb tail fit =
      let bytes = pcb_fields dictionary pcb ++ tail in
      let (pid, at_pc) = read_int-there 0 bytes pcb.pid _ fit.pid (fields_then pcb tail) in
      let (pc, at_pages) = read_int-there 4 bytes pcb.pc _ fit.pc at_pc in
      let (pages, at_codigo) =
        read_int-there 8 bytes pcb.cant_pags_codigo _ fit.cant_pags_codigo at_pages in
      let (codigo, at_etiquetas) =
        read_int-there 12 bytes pcb.indice_de_codigo_cant _ fit.codigo_count at_codigo in
      let (etiquetas, at_position) =
        read_int-there 16 bytes pcb.indice_de_etiquetas_cant _ fit.etiquetas_count at_etiquetas in
      let (position, at_max) =
        read_int-there 20 bytes pcb.stack_position _ fit.stack_position at_position in
      let (max, at_exit) =
        read_int-there 24 bytes pcb.max_stack_position _ fit.max_stack_position at_max in
      let (exit, at_code) = read_int-there 28 bytes pcb.exit_code tail fit.exit_code at_exit in
      record {
        pid = pid;
        pc = pc;
        cant_pags_codigo = pages;
        codigo_cant = codigo;
        etiquetas_cant = etiquetas;
        stack_position = position;
        max_stack_position = max;
        exit_code = exit;
        at_tail = at_code;
      }

  module _ (laws : IsDictionary dictionary) where
    -- The same PCB; of the arrays the elements that are counted.
    pub record SamePcb (pcb pcb' : Pcb D) : Type 0 where
      pub pid : pcb'.pid ≡ pcb.pid
      pub pc : pcb'.pc ≡ pcb.pc
      pub cant_pags_codigo : pcb'.cant_pags_codigo ≡ pcb.cant_pags_codigo
      pub indice_de_codigo_cant : pcb'.indice_de_codigo_cant ≡ pcb.indice_de_codigo_cant
      pub indice_de_codigo :
          pcb'.indice_de_codigo ≡ take pcb.indice_de_codigo_cant pcb.indice_de_codigo
      pub indice_de_etiquetas_cant : pcb'.indice_de_etiquetas_cant ≡ pcb.indice_de_etiquetas_cant
      pub indice_de_etiquetas :
          pcb'.indice_de_etiquetas ≡ take pcb.indice_de_etiquetas_cant pcb.indice_de_etiquetas
      pub indice_de_stack : SameStack dictionary laws pcb.indice_de_stack pcb'.indice_de_stack
      pub stack_position : pcb'.stack_position ≡ pcb.stack_position
      pub max_stack_position : pcb'.max_stack_position ≡ pcb.max_stack_position
      pub exit_code : pcb'.exit_code ≡ pcb.exit_code

    -- For a PCB whose numbers fit their words and whose arrays have the elements that are counted, whose
    -- contexts count ten arguments at most and have no return variable with the pattern that stands for
    -- NULL: `pcb_serialize` succeeds, and `pcb_deserialize` of its bytes succeeds and answers the same PCB,
    -- for every dictionary that behaves as the library documents, in whatever order it goes through its
    -- keys.
    pub pcb_deserialize-pcb_serialize :
        (pcb : Pcb D)
        → FitsPcb pcb
        → (bytes : List ℕ) × (pcb' : Pcb D) × (pcb_serialize dictionary pcb ≡ some bytes)
          × (pcb_deserialize dictionary bytes ≡ some pcb')
          × SamePcb pcb pcb'
    unfolding pcb_serialize pcb_deserialize read_bytes
    pcb_deserialize-pcb_serialize pcb fit =
        let code =
          array_bytes instruction_copier instruction_copier-IsCopier pcb.indice_de_codigo_cant
            pcb.indice_de_codigo fit.codigo_room fit.codigo_count fit.codigo in
        let stack = stack_bytes dictionary laws pcb.indice_de_stack fit.stack_count fit.stack in
        let labels = take pcb.indice_de_etiquetas_cant pcb.indice_de_etiquetas in
        let labels_size : length labels ≡ pcb.indice_de_etiquetas_cant = omega (
          arith,
          length-take pcb.indice_de_etiquetas_cant pcb.indice_de_etiquetas,
          fit.etiquetas_room,
        ) in
        let labels_read : read_bytes pcb.indice_de_etiquetas_cant pcb.indice_de_etiquetas
            ≡ some labels =
          let enough : leb pcb.indice_de_etiquetas_cant (length pcb.indice_de_etiquetas) ≡ true =
            let room = fit.etiquetas_room in ground arith in
          rw (enough, read_bytes) in
        let bytes = pcb_fields dictionary pcb ++ (code.bytes ++ (labels ++ stack.bytes)) in
        let (stack', same, back) = stack.back [] in
        let tail = code.bytes ++ (labels ++ stack.bytes) in
        let f = fields_read pcb tail fit in
        let at_code = f.at_tail in
        let c = length code.bytes in
        let n = pcb.indice_de_etiquetas_cant in
        let at_labels = drop-step 32 c bytes code.bytes (labels ++ stack.bytes) refl at_code in
        let at_stack = drop-step (32 + c) n bytes labels stack.bytes labels_size at_labels in
        let code_run : deserialize_static_type_array instruction_copier (drop 32 bytes)
            ≡ some (take pcb.indice_de_codigo_cant pcb.indice_de_codigo, c) =
          rw at_code (code.back (labels ++ stack.bytes)) in
        let labels_run : read_bytes n (drop (32 + c) bytes) ≡ some labels =
          rw at_labels (read_bytes-front n labels stack.bytes labels_size) in
        let stack_run : stack_deserialize dictionary (drop (32 + c + n) bytes)
            ≡ some (stack', length stack.bytes) =
          rw at_stack (rw (append-nil stack.bytes) at back) in
        let all_read : length bytes ≡ 32 + c + n + length stack.bytes = omega (
          arith,
          length-append (pcb_fields dictionary pcb) tail,
          length-append code.bytes (labels ++ stack.bytes),
          length-append labels stack.bytes,
          length-pcb_fields pcb,
        ) in
        let assertion : (length bytes == 32 + c + n + length stack.bytes) ≡ true = ground arith in
        let pcb' : Pcb D = record pcb {
          indice_de_codigo = take pcb.indice_de_codigo_cant pcb.indice_de_codigo;
          indice_de_etiquetas = labels;
          indice_de_stack = stack';
        } in
        (
          bytes,
          pcb',
          rw (code.run, labels_read, stack.run, pcb_serialize),
          rw (
            f.pid, f.pc, f.cant_pags_codigo, f.codigo_cant, f.etiquetas_cant, f.stack_position,
            f.max_stack_position, f.exit_code, code_run, labels_run, stack_run, assertion,
            pcb_deserialize,
          ),
          record {
            pid = refl;
            pc = refl;
            cant_pags_codigo = refl;
            indice_de_codigo_cant = refl;
            indice_de_codigo = refl;
            indice_de_etiquetas_cant = refl;
            indice_de_etiquetas = refl;
            indice_de_stack = same;
            stack_position = refl;
            max_stack_position = refl;
            exit_code = refl;
          },
        )
