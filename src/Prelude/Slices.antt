-- ===== src/Prelude/Slices.antt =====
-- Parts of lists: `take`, `drop`, `set` and one another.
use Prim.Native.Nat.{ℕ, zero, suc, ◌+◌, ◌-◌, ◌≤◌, ◌<◌}
use Prim.Native.Nat.add
use mathlib.Core.Path.{◌≡◌, refl, ap, ◌∙◌, sym}
use mathlib.Core.List.{List, [], ◌∷◌, ◌++◌}
use native.Mathlib.Omega.{arith}
use verkos.Prelude.Lists.{length, get_or, set, take, drop}

module _ {ℓ} {A : Type ℓ} where
  pub take-set :
      (xs : List A) (k : ℕ) (v : A)
      → k < length xs
      → take (suc k) (set xs k v) ≡ take k xs ++ (v ∷ [])
  take-set [] k v h = absurd (omega arith)
  take-set (x ∷ xs) zero v h = refl
  take-set (x ∷ xs) (suc k) v h = ap (◌∷◌ x) (take-set xs k v (omega arith))

  pub drop-set : (xs : List A) (j m : ℕ) (v : A) → j < m → drop m (set xs j v) ≡ drop m xs
  drop-set xs j zero v h = absurd (omega arith)
  drop-set [] j (suc m) v h = refl
  drop-set (x ∷ xs) zero (suc m) v h = refl
  drop-set (x ∷ xs) (suc j) (suc m) v h = drop-set xs j m v (omega arith)

  pub take-drop-suc :
      (xs : List A) (k c : ℕ) (d : A)
      → k < length xs
      → take (suc c) (drop k xs) ≡ get_or xs k d ∷ take c (drop (suc k) xs)
  take-drop-suc [] k c d h = absurd (omega arith)
  take-drop-suc (x ∷ xs) zero c d h = refl
  take-drop-suc (x ∷ xs) (suc k) c d h = take-drop-suc xs k c d (omega arith)

  pub take-take : (xs : List A) (n m : ℕ) → n ≤ m → take n (take m xs) ≡ take n xs
  take-take xs zero m h = refl
  take-take xs (suc n) zero h = absurd (omega arith)
  take-take [] (suc n) (suc m) h = refl
  take-take (x ∷ xs) (suc n) (suc m) h = ap (◌∷◌ x) (take-take xs n m (omega arith))

  pub take_add : (xs : List A) (k n : ℕ) → take (k + n) xs ≡ take k xs ++ take n (drop k xs)
  take_add xs zero n = rw add.zero
  take_add [] (suc k) zero = rw add.suc
  take_add [] (suc k) (suc n) = rw add.suc
  take_add (x ∷ xs) (suc k) n = rw add.suc (ap (◌∷◌ x) (take_add xs k n))

  pub take-nil : (n : ℕ) → take {A = A} n [] ≡ []
  take-nil zero = refl
  take-nil (suc n) = refl

  -- `take` at two equal numbers
  pub take_eq : (xs : List A) (a b : ℕ) → a ≡ b → take a xs ≡ take b xs
  take_eq xs a b e = ap (λ k. take k xs) e

  pub drop-take : (xs : List A) (n m : ℕ) → drop n (take m xs) ≡ take (m - n) (drop n xs)
  drop-take xs zero m = take_eq xs m (m - 0) (omega arith)
  drop-take [] (suc n) zero = sym (take-nil (0 - suc n))
  drop-take [] (suc n) (suc m) = sym (take-nil (suc m - suc n))
  drop-take (x ∷ xs) (suc n) zero = take_eq (drop n xs) 0 (0 - suc n) (omega arith)
  drop-take (x ∷ xs) (suc n) (suc m) =
      drop-take xs n m ∙ take_eq (drop n xs) (m - n) (suc m - suc n) (omega arith)

  pub length-take_le : (n : ℕ) (xs : List A) → n ≤ length xs → length (take n xs) ≡ n
  length-take_le zero xs h = refl
  length-take_le (suc n) [] h = absurd (omega arith)
  length-take_le (suc n) (x ∷ xs) h = ap suc (length-take_le n xs (omega arith))
