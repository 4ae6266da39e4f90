-- ===== src/Memory/Weight.antt =====
-- Counting the pages that a space of pkg/stam/vm.c maps. A word that is no table counts as the entries
-- of the table that would take its place.
use verkos.Prelude.{
  ℕ, zero, suc, ◌+◌, ◌≤◌, ◌≡◌, refl, ap, ◌∙◌, not, ◌&&◌, List, [], ◌∷◌, map, arith, ◌==◌,
  if◌then◌else◌, get_or, set, replicate,
}
use verkos.Memory.Tables.{
  Entry, word, table, L1, L3, is_page, is_ro, frame, split_words, words_2, words_3,
}

unfoldable pub total : {A : Type 0} → (A → ℕ) → List A → ℕ
total f [] = 0
total f (x ∷ xs) = f x + total f xs

pub total-set :
    {A : Type 0} (f : A → ℕ) (xs : List A) (i : ℕ) (v d : A)
    → f d ≡ 0
    → total f (set xs i v) + f (get_or xs i d) ≤ total f xs + f v
unfolding total
total-set f [] i v d z = ground (arith, z)
total-set f (x ∷ xs) zero v d z = omega arith
total-set f (x ∷ xs) (suc i) v d z = omega (arith, total-set f xs i v d z)

pub total-get_or :
    {A : Type 0} (f : A → ℕ) (xs : List A) (i : ℕ) (d : A)
    → f d ≡ 0
    → f (get_or xs i d) ≤ total f xs
unfolding total
total-get_or f [] i d z = ground (arith, z)
total-get_or f (x ∷ xs) zero d z = omega arith
total-get_or f (x ∷ xs) (suc i) d z = omega (arith, total-get_or f xs i d z)

total-map :
    {A B : Type 0} (f : B → ℕ) (g : A → B) (xs : List A)
    → total f (map g xs) ≡ total (λ x. f (g x)) xs
unfolding total
total-map f g [] = refl
total-map f g (x ∷ xs) = ap (λ k. f (g x) + k) (total-map f g xs)

pub total-replicate :
    {A : Type 0} (f : A → ℕ) (n : ℕ) (x : A) → f x ≡ 0 → total f (replicate n x) ≡ 0
unfolding total
total-replicate f zero x z = refl
total-replicate f (suc n) x z = ground (arith, z, total-replicate f n x z)

-- The weight of a space under a weight of descriptors, level by level.
abbrev pub weight_3 : (ℕ → ℕ) → L3 → ℕ
weight_3 f t = total f t.slots

abbrev pub entry_weight : {A : Type 0} → (A → ℕ) → (ℕ → List A) → Entry A → ℕ
entry_weight f made (word d) = total f (made d)
entry_weight f made (table t) = total f t.slots

unfoldable pub weight_e2 : (ℕ → ℕ) → Entry ℕ → ℕ
weight_e2 f = entry_weight f words_3

unfoldable pub weight_e1 : (ℕ → ℕ) → Entry (Entry ℕ) → ℕ
weight_e1 f = entry_weight (weight_e2 f) words_2

unfoldable pub weight : (ℕ → ℕ) → L1 → ℕ
weight f l1 = total (weight_e1 f) l1.slots

-- A page descriptor for the page `n`; one that may be written.
unfoldable pub maps : ℕ → ℕ → ℕ
maps n d = if is_page d && frame d == n then 1 else 0

unfoldable pub may_write : ℕ → ℕ → ℕ
may_write n d = if is_page d && (frame d == n && not (is_ro d)) then 1 else 0

module _ (f : ℕ → ℕ) (z : f 0 ≡ 0) where
  pub empty_2 : weight_e2 f (word 0) ≡ 0
  unfolding weight_e2 split_words
  empty_2 = total-replicate f 512 0 z

  pub empty_1 : weight_e1 f (word 0) ≡ 0
  unfolding weight_e1 split_words
  empty_1 =
      total-map (weight_e2 f) word (replicate 512 0)
      ∙ total-replicate (λ d. weight_e2 f (word d)) 512 0 empty_2
