-- ===== src/Memory/Mapped.antt =====
-- What map_user_page_raw of pkg/stam/vm.c adds to a space and takes from the allocator.
use verkos.Prelude.{ℕ, ◌+◌, ◌≤◌, ◌≡◌, refl, Option, none, some, List, arith}
use verkos.Memory.Frames.{Frames, alloc_page}
use verkos.Memory.Tables.{
  Table, new_table, mapped_2, mapped_3, Entry, word, table, L1, L2, L3, words_2, words_3, descend,
  map_in, map_user_page_raw, index_1, index_2, index_3, put_slot, entry_1, entry_2,
}
use verkos.Memory.Weight.{
  total, total-set, entry_weight, weight_e1, weight_e2, weight, empty_1, empty_2,
}
use verkos.Memory.Pool.{Kept, Kept-refl, Kept-trans, alloc_page-Kept}

-- The table that an entry leads to weighs what the entry did.
abbrev Same : {A : Type 0} → (A → ℕ) → (ℕ → List A) → Entry A → Option (Table A) → Type 0
Same g made e none = Unit
Same g made e (some t) = total g t.slots ≡ entry_weight g made e

descend-Same :
    {A : Type 0} (g : A → ℕ) (made : ℕ → List A) (n : ℕ) (e : Entry A) (fr : Frames)
    → Same g made e (descend made e fr).0 × Kept n fr (descend made e fr).1
unfolding descend
descend-Same g made n (table t) fr = (refl, Kept-refl n fr)
descend-Same g made n (word d) fr = go (alloc_page fr) (alloc_page-Kept n fr)
  where
    go :
        (p : Option ℕ × Frames)
        → Kept n fr p.1
        → Same g made (word d) (new_table (made d) p).0 × Kept n fr (new_table (made d) p).1
    go (none, fr') k = (tt, k)
    go (some p, fr') k = (refl, k)

-- The descriptor is added, at most, and what was at its place is no longer counted.
module _ (f : ℕ → ℕ) (z : f 0 ≡ 0) (n va desc : ℕ) where
  in_2 :
      (l2 : L2) (fr : Frames) (r : Option L3 × Frames)
      → Same f words_3 (entry_2 l2 va) r.0
      → Kept n fr r.1
      → (total (weight_e2 f) (mapped_3 va desc l2 r).1.slots
          ≤ total (weight_e2 f) l2.slots + f desc)
        × Kept n fr (mapped_3 va desc l2 r).2
  unfolding weight_e2
  in_2 l2 fr (none, fr') s k = (omega arith, k)
  in_2 l2 fr (some l3, fr') s k = (
    omega (
      arith,
      s,
      total-set (weight_e2 f) l2.slots (index_2 va) (table (put_slot l3 (index_3 va) desc)) (word 0)
          (empty_2 f z),
      total-set f l3.slots (index_3 va) desc 0 z,
    ),
    k,
  )

  pub map_in_weight :
      (l2 : L2) (fr : Frames)
      → (total (weight_e2 f) (map_in va desc l2 fr).1.slots ≤ total (weight_e2 f) l2.slots + f desc)
        × Kept n fr (map_in va desc l2 fr).2
  unfolding map_in
  map_in_weight l2 fr =
      let d = descend-Same f words_3 n (entry_2 l2 va) fr in
      in_2 l2 fr (descend words_3 (entry_2 l2 va) fr) d.0 d.1

  in_1 :
      (l1 : L1) (fr : Frames) (r : Option L2 × Frames)
      → Same (weight_e2 f) words_2 (entry_1 l1 va) r.0
      → Kept n fr r.1
      → (weight f (mapped_2 va desc l1 r).1 ≤ weight f l1 + f desc)
        × Kept n fr (mapped_2 va desc l1 r).2
  unfolding weight weight_e1
  in_1 l1 fr (none, fr') s k = (omega arith, k)
  in_1 l1 fr (some l2, fr') s k =
      let below = map_in_weight l2 fr' in
      (
        omega (
          arith,
          s,
          below.0,
          total-set (weight_e1 f) l1.slots (index_1 va) (table (map_in va desc l2 fr').1) (word 0)
              (empty_1 f z),
        ),
        Kept-trans n fr fr' (map_in va desc l2 fr').2 k below.1,
      )

  pub map_user_page_raw-weight :
      (l1 : L1) (fr : Frames)
      → (weight f (map_user_page_raw va desc l1 fr).1 ≤ weight f l1 + f desc)
        × Kept n fr (map_user_page_raw va desc l1 fr).2
  unfolding map_user_page_raw
  map_user_page_raw-weight l1 fr =
      let d = descend-Same (weight_e2 f) words_2 n (entry_1 l1 va) fr in
      in_1 l1 fr (descend words_2 (entry_1 l1 va) fr) d.0 d.1
