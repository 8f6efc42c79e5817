-- ===== src/Serialization/Values.antt =====
-- functions/serialization.c: the values of a fixed size, numbers and strings in a stream of bytes.
use socketapp.Common.{
  ℕ, ◌+◌, ◌*◌, ◌%◌, Option, none, some, List, [], ◌∷◌, ◌++◌, neg, ◌==◌, if◌then◌else◌, length, take,
  drop,
}
use socketapp.Common.{◌^◌, ◌/◌, leb, ◌>>=◌}

-- `t_position`
pub record Position : Type 0 where
  pub page : ℕ
  pub off : ℕ
  pub size : ℕ

-- `t_intructions` of the parser.
pub record Instruction : Type 0 where
  pub start : ℕ
  pub offset : ℕ

-- A `SerializerCopier`, its `DeserializerCopier` and `serializedElemSize`.
pub record Copier (A : Type 0) : Type 0 where
  pub size : ℕ
  pub serializer : A → List ℕ
  pub deserializer : List ℕ → Option A

-- The four bytes of a `u_int32_t`, the lowest first.
unfoldable pub write_int : ℕ → List ℕ
write_int n = n % 256 ∷ n / 2 ^ 8 % 256 ∷ n / 2 ^ 16 % 256 ∷ n / 2 ^ 24 % 256 ∷ []

-- A stream is the list of the bytes from the pointer on; `none`: the code reads past the last byte.
unfoldable pub read_int : List ℕ → Option ℕ
read_int (a ∷ b ∷ c ∷ d ∷ _) = some (a + 2 ^ 8 * b + 2 ^ 16 * c + 2 ^ 24 * d)
read_int _ = none

-- `string_duplicate` of the bytes before the terminator.
unfoldable pub read_string : List ℕ → Option (List ℕ)
read_string [] = none
read_string (c ∷ bytes) =
    let rest = read_string bytes in if c == 0 then some [] else do key ← rest; some (c ∷ key)

-- `memcpy` of that many bytes from the stream.
unfoldable pub read_bytes : ℕ → List ℕ → Option (List ℕ)
read_bytes n bytes = if leb n (length bytes) then some (take n bytes) else none

unfoldable pub instruction_serializer : Instruction → List ℕ
instruction_serializer instruction = write_int instruction.start ++ write_int instruction.offset

unfoldable pub instruction_deserializer : List ℕ → Option Instruction
instruction_deserializer bytes = do
  start ← read_int bytes
  offset ← read_int (drop 4 bytes)
  some (record { start = start; offset = offset })

-- The NULL position is written as -1, -1, -1.
unfoldable pub position_serializer : Option Position → List ℕ
position_serializer none = write_int (neg 1) ++ (write_int (neg 1) ++ write_int (neg 1))
position_serializer (some p) = write_int p.page ++ (write_int p.off ++ write_int p.size)

unfoldable pub position_deserializer : List ℕ → Option Position
position_deserializer bytes = do
  page ← read_int bytes
  off ← read_int (drop 4 bytes)
  size ← read_int (drop 8 bytes)
  some (record { page = page; off = off; size = size })

abbrev pub instruction_copier : Copier Instruction
instruction_copier = record {
  size = 8;
  serializer = instruction_serializer;
  deserializer = instruction_deserializer;
}

abbrev pub position_copier : Copier Position
position_copier = record {
  size = 12;
  serializer = λ p. position_serializer (some p);
  deserializer = position_deserializer;
}
