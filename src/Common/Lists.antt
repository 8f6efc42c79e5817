-- ===== src/Common/Lists.antt =====
-- C arrays as lists with native indices.
use Prim.Native.Nat.{ℕ, zero, suc, ◌+◌, ◌-◌, ◌<◌, ◌≤◌, min}
use mathlib.Core.Path.{◌≡◌, refl, ap}
use mathlib.Core.Logic.{◌≢◌, ◌⊎◌, inl, inr}
use mathlib.Core.List.{List, [], ◌∷◌, ◌++◌}
use mathlib.Core.Option.{Option, none, some}
use native.Mathlib.Omega.{arith}

module _ {ℓ} {A : Type ℓ} where
  abbrev pub length : List A → ℕ
  length [] = 0
  length (x ∷ xs) = suc (length xs)

  abbrev pub get_elem? : List A → ℕ → Option A
  get_elem? [] i = none
  get_elem? (x ∷ xs) zero = some x
  get_elem? (x ∷ xs) (suc i) = get_elem? xs i

  -- A write out of bounds changes nothing.
  abbrev pub set : List A → ℕ → A → List A
  set [] i v = []
  set (x ∷ xs) zero v = v ∷ xs
  set (x ∷ xs) (suc i) v = x ∷ set xs i v

  abbrev pub take : ℕ → List A → List A
  take zero xs = []
  take (suc n) [] = []
  take (suc n) (x ∷ xs) = x ∷ take n xs

  abbrev pub drop : ℕ → List A → List A
  drop zero xs = xs
  drop (suc n) [] = []
  drop (suc n) (x ∷ xs) = drop n xs

  abbrev pub replicate : ℕ → A → List A
  replicate zero a = []
  replicate (suc n) a = a ∷ replicate n a

module _ {ℓ} {A : Type ℓ} where
  pub length-append : (xs ys : List A) → length (xs ++ ys) ≡ length xs + length ys
  length-append [] ys = omega arith
  length-append (x ∷ xs) ys = omega (arith, length-append xs ys)

  pub length-set : (xs : List A) (i : ℕ) (v : A) → length (set xs i v) ≡ length xs
  length-set [] i v = refl
  length-set (x ∷ xs) zero v = refl
  length-set (x ∷ xs) (suc i) v = ap suc (length-set xs i v)

  pub length-replicate : (n : ℕ) (a : A) → length (replicate n a) ≡ n
  length-replicate zero a = refl
  length-replicate (suc n) a = ap suc (length-replicate n a)

  pub length-take : (n : ℕ) (xs : List A) → length (take n xs) ≡ min n (length xs)
  length-take zero xs = omega arith
  length-take (suc n) [] = omega arith
  length-take (suc n) (x ∷ xs) = omega (arith, length-take n xs)

  pub length-drop : (n : ℕ) (xs : List A) → length (drop n xs) ≡ length xs - n
  length-drop zero xs = omega arith
  length-drop (suc n) [] = omega arith
  length-drop (suc n) (x ∷ xs) = omega (arith, length-drop n xs)

  -- Inside the array there is an element.
  pub get_elem?_of_lt : (xs : List A) (i : ℕ) → i < length xs → (x : A) × (get_elem? xs i ≡ some x)
  get_elem?_of_lt [] i h = elim h [ ]
  get_elem?_of_lt (x ∷ xs) zero h = (x, refl)
  get_elem?_of_lt (x ∷ xs) (suc i) h = get_elem?_of_lt xs i (omega arith)

  pub lt_of_get_elem? : (xs : List A) (i : ℕ) {x : A} → get_elem? xs i ≡ some x → i < length xs
  lt_of_get_elem? [] i e = absurd (ground arith)
  lt_of_get_elem? (x ∷ xs) zero e = omega arith
  lt_of_get_elem? (x ∷ xs) (suc i) e = omega (arith, lt_of_get_elem? xs i e)

  pub get_elem?-set_self :
      (xs : List A) (i : ℕ) (v : A) → i < length xs → get_elem? (set xs i v) i ≡ some v
  get_elem?-set_self [] i v h = elim h [ ]
  get_elem?-set_self (x ∷ xs) zero v h = refl
  get_elem?-set_self (x ∷ xs) (suc i) v h = get_elem?-set_self xs i v (omega arith)

  pub get_elem?-set_ne :
      (xs : List A) (i j : ℕ) (v : A) → i ≢ j → get_elem? (set xs i v) j ≡ get_elem? xs j
  get_elem?-set_ne [] i j v h = refl
  get_elem?-set_ne (x ∷ xs) zero zero v h = absurd (h refl)
  get_elem?-set_ne (x ∷ xs) zero (suc j) v h = refl
  get_elem?-set_ne (x ∷ xs) (suc i) zero v h = refl
  get_elem?-set_ne (x ∷ xs) (suc i) (suc j) v h = get_elem?-set_ne xs i j v (λ e. h (ap suc e))

  pub get_elem?-replicate : (n i : ℕ) (a : A) → i < n → get_elem? (replicate n a) i ≡ some a
  get_elem?-replicate zero i a h = elim h [ ]
  get_elem?-replicate (suc n) zero a h = refl
  get_elem?-replicate (suc n) (suc i) a h = get_elem?-replicate n i a (omega arith)

module _ {ℓ} {A : Type ℓ} where
  -- `memcpy` onto the array from index `offset` on: the bytes of `ys` in place of those of the array.
  abbrev pub patch : List A → ℕ → List A → List A
  patch [] offset ys = []
  patch (x ∷ xs) (suc offset) ys = x ∷ patch xs offset ys
  patch (x ∷ xs) zero [] = x ∷ xs
  patch (x ∷ xs) zero (y ∷ ys) = y ∷ patch xs zero ys

  pub length-patch :
      (xs : List A) (offset : ℕ) (ys : List A) → length (patch xs offset ys) ≡ length xs
  length-patch [] offset ys = refl
  length-patch (x ∷ xs) (suc offset) ys = ap suc (length-patch xs offset ys)
  length-patch (x ∷ xs) zero [] = refl
  length-patch (x ∷ xs) zero (y ∷ ys) = ap suc (length-patch xs zero ys)

  -- What was written is read back.
  pub take-drop-patch :
      (xs : List A) (offset : ℕ) (ys : List A)
      → offset + length ys ≤ length xs
      → take (length ys) (drop offset (patch xs offset ys)) ≡ ys
  take-drop-patch [] zero [] h = refl
  take-drop-patch [] zero (y ∷ ys) h = absurd (omega arith)
  take-drop-patch [] (suc offset) ys h = absurd (omega arith)
  take-drop-patch (x ∷ xs) (suc offset) ys h = take-drop-patch xs offset ys (omega arith)
  take-drop-patch (x ∷ xs) zero [] h = refl
  take-drop-patch (x ∷ xs) zero (y ∷ ys) h =
      ap (λ l. y ∷ l) (take-drop-patch xs zero ys (omega arith))

  -- The bytes before and behind the written ones stay.
  pub get_elem?-patch_outside :
      (xs : List A) (offset : ℕ) (ys : List A) (i : ℕ)
      → (i < offset) ⊎ (offset + length ys ≤ i)
      → get_elem? (patch xs offset ys) i ≡ get_elem? xs i
  get_elem?-patch_outside [] offset ys i h = refl
  get_elem?-patch_outside (x ∷ xs) (suc offset) ys zero h = refl
  get_elem?-patch_outside (x ∷ xs) (suc offset) ys (suc i) h =
      get_elem?-patch_outside xs offset ys i (omega arith)
  get_elem?-patch_outside (x ∷ xs) zero [] i h = refl
  get_elem?-patch_outside (x ∷ xs) zero (y ∷ ys) zero h = absurd (omega arith)
  get_elem?-patch_outside (x ∷ xs) zero (y ∷ ys) (suc i) h =
      get_elem?-patch_outside xs zero ys i (inr (omega arith))

  -- What is found after a write is the value written, or was there before, elsewhere.
  pub get_elem?-set-cases :
      (xs : List A) (i j : ℕ) (v x : A)
      → get_elem? (set xs i v) j ≡ some x
      → ((i ≡ j) × (x ≡ v)) ⊎ ((i ≢ j) × (get_elem? xs j ≡ some x))
  get_elem?-set-cases [] i j v x e = absurd (ground arith)
  get_elem?-set-cases (y ∷ xs) zero zero v x e = inl (refl, cc)
  get_elem?-set-cases (y ∷ xs) zero (suc j) v x e = inr (omega arith, e)
  get_elem?-set-cases (y ∷ xs) (suc i) zero v x e = inr (omega arith, e)
  get_elem?-set-cases (y ∷ xs) (suc i) (suc j) v x e = elim (get_elem?-set-cases xs i j v x e) [
    | inl (p, q) ↦ inl (ap suc p, q)
    | inr (p, q) ↦ inr (omega arith, q)
  ]

pub List-cases {ℓ} :
    {A : Type ℓ} (xs : List A) → (xs ≡ []) ⊎ ((x : A) × (rest : List A) × (xs ≡ x ∷ rest))
List-cases [] = inl refl
List-cases (x ∷ xs) = inr (x, xs, refl)

-- Every element has the property.
abbrev pub All {ℓ κ} : {A : Type ℓ} → (A → Type κ) → List A → Type κ
All P [] = Unit {κ}
All P (x ∷ xs) = P x × All P xs

pub All-append {ℓ κ} :
    {A : Type ℓ} (P : A → Type κ) (xs ys : List A) → All P xs → All P ys → All P (xs ++ ys)
All-append P [] ys h k = k
All-append P (x ∷ xs) ys (h, hs) k = (h, All-append P xs ys hs k)

pub All-map {ℓ κ} :
    {A : Type ℓ} (P Q : A → Type κ) (xs : List A) → ((x : A) → P x → Q x) → All P xs → All Q xs
All-map P Q [] f h = tt
All-map P Q (x ∷ xs) f (h, hs) = (f x h, All-map P Q xs f hs)
