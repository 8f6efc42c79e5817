-- ===== src/Common/Patches.antt =====
-- Parts of arrays: `take`, `drop` and `patch`.
use Prim.Native.Nat.{ℕ, zero, suc, ◌+◌, ◌-◌, ◌≤◌}
use mathlib.Core.Path.{◌≡◌, refl, sym, ap}
use mathlib.Core.Logic.{◌⊎◌, inl, inr}
use mathlib.Core.List.{List, [], ◌∷◌, ◌++◌}
use native.Mathlib.Omega.{arith}
use socketapp.Common.Lists.{length, take, drop, patch}

module _ {ℓ} {A : Type ℓ} where
  pub take_all : (n : ℕ) (xs : List A) → length xs ≤ n → take n xs ≡ xs
  take_all zero [] h = refl
  take_all zero (x ∷ xs) h = absurd (omega arith)
  take_all (suc n) [] h = refl
  take_all (suc n) (x ∷ xs) h = ap (λ l. x ∷ l) (take_all n xs (omega arith))

  pub take-zero : (n : ℕ) (xs : List A) → n ≡ 0 → take n xs ≡ []
  take-zero zero xs e = refl
  take-zero (suc n) xs e = absurd (omega arith)

  pub take-append :
      (n : ℕ) (xs ys : List A) → take n (xs ++ ys) ≡ take n xs ++ take (n - length xs) ys
  take-append n [] ys = let e : n - 0 ≡ n = omega arith in rw (e, take-zero-nil n)
    where
      take-zero-nil : (k : ℕ) → take {A = A} k [] ≡ []
      take-zero-nil zero = refl
      take-zero-nil (suc k) = refl
  take-append zero (x ∷ xs) ys = sym (take-zero (0 - suc (length xs)) ys (omega arith))
  take-append (suc n) (x ∷ xs) ys =
      let e : suc n - suc (length xs) ≡ n - length xs = omega arith in
      rw e (ap (λ l. x ∷ l) (take-append n xs ys))

  pub drop-append : (n : ℕ) (xs ys : List A) → n ≤ length xs → drop n (xs ++ ys) ≡ drop n xs ++ ys
  drop-append zero xs ys h = refl
  drop-append (suc n) [] ys h = absurd (omega arith)
  drop-append (suc n) (x ∷ xs) ys h = drop-append n xs ys (omega arith)

  pub drop_all : (n : ℕ) (xs : List A) → length xs ≤ n → drop n xs ≡ []
  drop_all zero [] h = refl
  drop_all zero (x ∷ xs) h = absurd (omega arith)
  drop_all (suc n) [] h = refl
  drop_all (suc n) (x ∷ xs) h = drop_all n xs (omega arith)

  pub patch-nil : (xs : List A) (offset : ℕ) → patch xs offset [] ≡ xs
  patch-nil [] offset = refl
  patch-nil (x ∷ xs) (suc offset) = ap (λ l. x ∷ l) (patch-nil xs offset)
  patch-nil (x ∷ xs) zero = refl

  -- A write over the end of one array goes on at the start of the next.
  pub patch-append :
      (xs ys : List A) (offset : ℕ) (bs : List A)
      → offset ≤ length xs
      → patch (xs ++ ys) offset bs
        ≡ patch xs offset (take (length xs - offset) bs)
          ++ patch ys 0 (drop (length xs - offset) bs)
  patch-append [] ys zero bs h = refl
  patch-append [] ys (suc offset) bs h = absurd (omega arith)
  patch-append (x ∷ xs) ys (suc offset) bs h =
      let e : suc (length xs) - suc offset ≡ length xs - offset = omega arith in
      rw e (ap (λ l. x ∷ l) (patch-append xs ys offset bs (omega arith)))
  patch-append (x ∷ xs) ys zero [] h =
      let e : suc (length xs) - 0 ≡ suc (length xs) = omega arith in rw (e, patch-nil ys 0)
  patch-append (x ∷ xs) ys zero (b ∷ bs) h =
      let e : suc (length xs) - 0 ≡ suc (length xs) = omega arith in
      let e' : length xs - 0 ≡ length xs = omega arith in
      rw e (ap (λ l. b ∷ l) (rw e' at (patch-append xs ys zero bs (omega arith))))

  -- A write leaves what is read from a place apart from it.
  pub take-drop-patch_before :
      (xs : List A) (offset : ℕ) (ys : List A) (i n : ℕ)
      → i + n ≤ offset
      → take n (drop i (patch xs offset ys)) ≡ take n (drop i xs)
  take-drop-patch_before [] offset ys i n h = refl
  take-drop-patch_before (x ∷ xs) (suc offset) ys zero zero h = refl
  take-drop-patch_before (x ∷ xs) (suc offset) ys zero (suc n) h =
      ap (λ l. x ∷ l) (take-drop-patch_before xs offset ys zero n (omega arith))
  take-drop-patch_before (x ∷ xs) (suc offset) ys (suc i) n h =
      take-drop-patch_before xs offset ys i n (omega arith)
  take-drop-patch_before (x ∷ xs) zero ys zero zero h = refl
  take-drop-patch_before (x ∷ xs) zero ys zero (suc n) h = absurd (omega arith)
  take-drop-patch_before (x ∷ xs) zero ys (suc i) n h = absurd (omega arith)

  drop-patch_behind :
      (xs : List A) (offset : ℕ) (ys : List A) (i : ℕ)
      → offset + length ys ≤ i
      → drop i (patch xs offset ys) ≡ drop i xs
  drop-patch_behind [] offset ys i h = refl
  drop-patch_behind (x ∷ xs) (suc offset) ys zero h = absurd (omega arith)
  drop-patch_behind (x ∷ xs) (suc offset) ys (suc i) h =
      drop-patch_behind xs offset ys i (omega arith)
  drop-patch_behind (x ∷ xs) zero [] i h = refl
  drop-patch_behind (x ∷ xs) zero (y ∷ ys) zero h = absurd (omega arith)
  drop-patch_behind (x ∷ xs) zero (y ∷ ys) (suc i) h = drop-patch_behind xs zero ys i (omega arith)

  pub take-drop-patch_apart :
      (xs : List A) (offset : ℕ) (ys : List A) (i n : ℕ)
      → (i + n ≤ offset) ⊎ (offset + length ys ≤ i)
      → take n (drop i (patch xs offset ys)) ≡ take n (drop i xs)
  take-drop-patch_apart xs offset ys i n (inl before) =
      take-drop-patch_before xs offset ys i n before
  take-drop-patch_apart xs offset ys i n (inr behind) =
      ap (λ l. take n l) (drop-patch_behind xs offset ys i behind)
