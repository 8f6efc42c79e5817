-- ===== src/Serialization/Reads.antt =====
-- What was written to a stream is read back from it.
use socketapp.Common.{
  ℕ, zero, suc, ◌+◌, ◌-◌, ◌<◌, ◌≡◌, refl, ap, ◌∙◌, true, false, Option, none, some, List, [], ◌∷◌,
  ◌++◌, arith, word, neg, ◌==◌, length, length-append, drop, take_all, take-zero, take-append,
  drop-append, drop_all, append-nil, append_assoc,
}
use socketapp.Common.{leb}
use socketapp.Serialization.Values.{
  Position, Instruction, Copier, write_int, read_int, read_string, read_bytes,
  instruction_serializer, instruction_deserializer, position_serializer, position_deserializer,
  instruction_copier, position_copier,
}

pub read_int-write_int :
    (n : ℕ) (rest : List ℕ) → n < word → read_int (write_int n ++ rest) ≡ some n
unfolding read_int write_int
read_int-write_int n rest h = ground arith

pub length-write_int : (n : ℕ) → length (write_int n) ≡ 4
unfolding write_int
length-write_int n = refl

drop-drop : (m n : ℕ) (xs : List ℕ) → drop (m + n) xs ≡ drop n (drop m xs)
drop-drop zero n xs = let e : 0 + n ≡ n = omega arith in rw e
drop-drop (suc m) n [] = let e : suc m + n ≡ suc (m + n) = omega arith in rw e (drop_nil n)
  where
    drop_nil : (k : ℕ) → [] ≡ drop {A = ℕ} k []
    drop_nil zero = refl
    drop_nil (suc k) = refl
drop-drop (suc m) n (x ∷ xs) =
    let e : suc m + n ≡ suc (m + n) = omega arith in rw e (drop-drop m n xs)

-- The stream goes on behind what stands in front.
pub drop-step :
    (offset n : ℕ) (bytes front rest : List ℕ)
    → length front ≡ n
    → drop offset bytes ≡ front ++ rest
    → drop (offset + n) bytes ≡ rest
drop-step offset n bytes front rest size h =
    drop-drop offset n bytes
    ∙ rw h (
        drop-append n front rest (omega (arith, size))
        ∙ rw (drop_all n front (omega (arith, size))))

-- A number read at its place, and what stands behind it.
pub read_int-there :
    (offset : ℕ) (bytes : List ℕ) (n : ℕ) (rest : List ℕ)
    → n < word
    → drop offset bytes ≡ write_int n ++ rest
    → (read_int (drop offset bytes) ≡ some n) × (drop (offset + 4) bytes ≡ rest)
read_int-there offset bytes n rest small h = (
  rw h (read_int-write_int n rest small),
  drop-step offset 4 bytes (write_int n) rest (length-write_int n) h,
)

-- A key has no terminator in it.
abbrev pub IsKey : List ℕ → Type 0
IsKey [] = Unit {0}
IsKey (c ∷ key) = (0 < c) × IsKey key

pub read_string-key :
    (key rest : List ℕ) → IsKey key → read_string ((key ++ (0 ∷ [])) ++ rest) ≡ some key
unfolding read_string
read_string-key [] rest h = refl
read_string-key (c ∷ key) rest h =
    let apart : (c == 0) ≡ false = let pos = h.0 in ground arith in
    rw (apart, read_string-key key rest h.1, read_string)

pub read_bytes-front :
    (n : ℕ) (front rest : List ℕ) → length front ≡ n → read_bytes n (front ++ rest) ≡ some front
unfolding read_bytes
read_bytes-front n front rest size =
    let enough : leb n (length (front ++ rest)) ≡ true =
      let len = length-append front rest in ground arith in
    let none_left : n - length front ≡ 0 = omega arith in
    rw (
      enough,
      read_bytes,
      take-append n front rest,
      take_all n front (omega arith),
      take-zero (n - length front) rest none_left,
      append-nil,
    )

-- What a copier promises: values that fit are read back from the bytes that were written, of which
-- there are always as many.
pub record IsCopier {A : Type 0} (copier : Copier A) (Fits : A → Type 0) : Type 0 where
  pub sized : (x : A) → length (copier.serializer x) ≡ copier.size
  pub reads :
      (x : A) (rest : List ℕ) → Fits x → copier.deserializer (copier.serializer x ++ rest) ≡ some x

abbrev pub FitsInstruction : Instruction → Type 0
FitsInstruction i = (i.start < word) × (i.offset < word)

abbrev pub FitsPosition : Position → Type 0
FitsPosition p = (p.page < word) × (p.off < word) × (p.size < word)

pub instruction_copier-IsCopier : IsCopier instruction_copier FitsInstruction
unfolding instruction_serializer instruction_deserializer
instruction_copier-IsCopier = record {
  sized = λ i.
      length-append (write_int i.start) (write_int i.offset)
      ∙ omega (arith, length-write_int i.start, length-write_int i.offset);
  reads = λ i rest h.
      let bytes = (write_int i.start ++ write_int i.offset) ++ rest in
      let (start, at_offset) =
        read_int-there 0 bytes i.start (write_int i.offset ++ rest) h.0
          (append_assoc (write_int i.start) (write_int i.offset) rest) in
      let (offset, _) = read_int-there 4 bytes i.offset rest h.1 at_offset in rw (start, offset);
}

pub length-position_serializer : (p : Option Position) → length (position_serializer p) ≡ 12
unfolding position_serializer
length-position_serializer none =
    length-append (write_int (neg 1)) _
    ∙ omega (arith, length-write_int (neg 1), length-append (write_int (neg 1)) (write_int (neg 1)))
length-position_serializer (some p) =
    length-append (write_int p.page) (write_int p.off ++ write_int p.size)
    ∙ omega (
      arith,
      length-write_int p.page,
      length-write_int p.off,
      length-write_int p.size,
      length-append (write_int p.off) (write_int p.size),
    )

-- NULL is read as the position -1, -1, -1.
abbrev pub or_null : Option Position → Position
or_null none = record { page = neg 1; off = neg 1; size = neg 1 }
or_null (some p) = p

three_numbers :
    (p : Position) (rest : List ℕ)
    → FitsPosition p
    → position_deserializer ((write_int p.page ++ (write_int p.off ++ write_int p.size)) ++ rest)
      ≡ some p
unfolding position_deserializer
three_numbers p rest h =
    let bytes = (write_int p.page ++ (write_int p.off ++ write_int p.size)) ++ rest in
    let whole : bytes ≡ write_int p.page ++ (write_int p.off ++ (write_int p.size ++ rest)) =
      append_assoc (write_int p.page) (write_int p.off ++ write_int p.size) rest
      ∙ ap (λ x. write_int p.page ++ x) (append_assoc (write_int p.off) (write_int p.size) rest) in
    let (page, at_off) = read_int-there 0 bytes p.page _ h.0 whole in
    let (off, at_size) = read_int-there 4 bytes p.off _ h.1 at_off in
    let (size, _) = read_int-there 8 bytes p.size rest h.2 at_size in rw (page, off, size)

pub position_deserializer-position_serializer :
    (p : Option Position) (rest : List ℕ)
    → FitsPosition (or_null p)
    → position_deserializer (position_serializer p ++ rest) ≡ some (or_null p)
unfolding position_serializer
position_deserializer-position_serializer none rest h = three_numbers (or_null none) rest h
position_deserializer-position_serializer (some p) rest h = three_numbers p rest h

pub position_copier-IsCopier : IsCopier position_copier FitsPosition
position_copier-IsCopier = record {
  sized = λ p. length-position_serializer (some p);
  reads = λ p rest h. position_deserializer-position_serializer (some p) rest h;
}
