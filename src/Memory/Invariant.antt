-- ===== src/Memory/Invariant.antt =====
-- Every page is held as Owned asks on every machine that the calls of pkg/stam/vm.c lead to.
use verkos.Prelude.{
  ℕ, zero, suc, ◌+◌, ◌≤◌, ◌<◌, ◌≡◌, refl, Bool, Option, none, some, List, [], ◌∷◌, arith, length,
  get_or, set, replicate,
}
use verkos.Memory.Frames.{Frames, alloc_page}
use verkos.Memory.Tables.{Entry, word, table, L1, new_table, map_user_page}
use verkos.Memory.Spaces.{vm_new_space, vm_copy_space, vm_cow_fault}
use verkos.Memory.Weight.{total, weight_e1, weight_e2, weight, maps, may_write}
use verkos.Memory.Pool.{avail, Kept, alloc_page-Kept}
use verkos.Memory.Owned.{Owned}
use verkos.Memory.Copied.{zero_weights}
use verkos.Memory.Fork.{made_weight, vm_copy_space-Owned}
use verkos.Memory.Fault.{Owned-fewer, Owned-Kept, vm_cow_fault-Owned}
use verkos.Memory.Fresh.{mapped_fresh, new_space_empty}
use verkos.Memory.Reachable.{
  Machine, no_space, space_at, Call, new_space, own_page, copy_space, write_fault, added, give,
  perform, Addressed, Allowed, Reachable, start, next,
}

pub total_split :
    {A : Type 0} (f : A → ℕ) (xs : List A) (i : ℕ) (d v : A)
    → f d ≡ 0
    → i < length xs
    → (total f xs ≡ f (get_or xs i d) + total f (set xs i d))
      × (total f (set xs i v) ≡ f v + total f (set xs i d))
unfolding total
total_split f [] i d v z h = absurd (omega (arith, h))
total_split f (x ∷ xs) zero d v z h = (omega (arith, z), omega (arith, z))
total_split f (x ∷ xs) (suc i) d v z h =
    let r = total_split f xs i d v z (omega (arith, h)) in (omega (arith, r.0), omega (arith, r.1))

total_le :
    {A : Type 0} (f g : A → ℕ) (xs : List A) → ((x : A) → f x ≤ g x) → total f xs ≤ total g xs
unfolding total
total_le f g [] h = omega arith
total_le f g (x ∷ xs) h = omega (arith, h x, total_le f g xs h)

-- What may be written is mapped.
module _ (n : ℕ) where
  may_write_le : (d : ℕ) → may_write n d ≤ maps n d
  unfolding may_write maps
  may_write_le d = ground arith

  may_write_le_2 : (e : Entry ℕ) → weight_e2 (may_write n) e ≤ weight_e2 (maps n) e
  unfolding weight_e2
  may_write_le_2 (word d) = total_le (may_write n) (maps n) _ may_write_le
  may_write_le_2 (table t) = total_le (may_write n) (maps n) t.slots may_write_le

  may_write_le_1 : (e : Entry (Entry ℕ)) → weight_e1 (may_write n) e ≤ weight_e1 (maps n) e
  unfolding weight_e1
  may_write_le_1 (word d) = total_le (weight_e2 (may_write n)) (weight_e2 (maps n)) _ may_write_le_2
  may_write_le_1 (table t) =
      total_le (weight_e2 (may_write n)) (weight_e2 (maps n)) t.slots may_write_le_2

  weight_le : (l1 : L1) → weight (may_write n) l1 ≤ weight (maps n) l1
  unfolding weight
  weight_le l1 = total_le (weight_e1 (may_write n)) (weight_e1 (maps n)) l1.slots may_write_le_1

-- What all spaces together hold is as Owned asks.
abbrev pub Sound : Machine → Type 0
Sound m =
    Owned m.frames (λ n. total (weight (maps n)) m.spaces)
      (λ n. total (weight (may_write n)) m.spaces)

pub weight-no_space : (f : ℕ → ℕ) → weight f no_space ≡ 0
unfolding weight total
weight-no_space f = refl

-- What the spaces but the `i`th hold.
abbrev others : (ℕ → ℕ → ℕ) → Machine → ℕ → ℕ → ℕ
others w m i n = total (weight (w n)) (set m.spaces i no_space)

module _ (m : Machine) (i : ℕ) (inside : i < length m.spaces) where
  split :
      (w : ℕ → ℕ → ℕ) (l1 : L1) (n : ℕ)
      → (total (weight (w n)) m.spaces ≡ weight (w n) (space_at m i) + others w m i n)
        × (total (weight (w n)) (set m.spaces i l1) ≡ weight (w n) l1 + others w m i n)
  split w l1 n = total_split (weight (w n)) m.spaces i no_space l1 (weight-no_space (w n)) inside

  focus :
      Sound m
      → Owned m.frames
          (λ n. weight (maps n) (space_at m i) + others maps m i n)
          (λ n. weight (may_write n) (space_at m i) + others may_write m i n)
  focus own =
      Owned-fewer m.frames _ _ _ _ (λ n. omega (arith, (split maps no_space n).0))
        (λ n. omega (arith, (split may_write no_space n).0)) own

  back :
      (l1 : L1) (fr : Frames)
      → Owned fr
          (λ n. weight (maps n) l1 + others maps m i n)
          (λ n. weight (may_write n) l1 + others may_write m i n)
      → Sound (record { spaces = set m.spaces i l1; frames = fr })
  back l1 fr own =
      Owned-fewer fr _ _ _ _ (λ n. omega (arith, (split maps l1 n).1))
        (λ n. omega (arith, (split may_write l1 n).1)) own

  given :
      (va : ℕ) (executable : Bool)
      → Addressed m.frames
      → Sound m
      → Sound (give i va executable m (alloc_page m.frames))
  given va executable small own =
      go (alloc_page m.frames) (λ n. alloc_page-Kept n m.frames)
        (λ page e.
          mapped_fresh m.frames (space_at m i) (others maps m i) (others may_write m i) va page
            executable (focus own) e (small page e))
    where
      go :
          (r : Option ℕ × Frames)
          → ((n : ℕ) → Kept n m.frames r.1)
          → ((page : ℕ)
              → r.0 ≡ some page
              → let t = map_user_page va page executable (space_at m i) r.1 in
                Owned t.2
                  (λ n. weight (maps n) t.1 + others maps m i n)
                  (λ n. weight (may_write n) t.1 + others may_write m i n))
          → Sound (give i va executable m r)
      go (none, fr) kept held = Owned-Kept m.frames fr _ _ kept own
      go (some page, fr) kept held =
          back (map_user_page va page executable (space_at m i) fr).1
            (map_user_page va page executable (space_at m i) fr).2 (held page refl)

total-added :
    (f : ℕ → ℕ) (x : Option L1) (ss : List L1)
    → total (weight f) (added x ss) ≡ made_weight f x + total (weight f) ss
unfolding total
total-added f none ss = omega arith
total-added f (some l1) ss = refl

made :
    (m : Machine)
    → Sound m
    → Sound (record {
      spaces = added (vm_new_space m.frames).0 m.spaces;
      frames = (vm_new_space m.frames).1;
    })
unfolding vm_new_space
made m own = go (alloc_page m.frames) (λ n. alloc_page-Kept n m.frames)
  where
    go :
        (r : Option ℕ × Frames)
        → ((n : ℕ) → Kept n m.frames r.1)
        → let t = new_table (replicate 512 (word 0)) r in
          Sound (record { spaces = added t.0 m.spaces; frames = t.1 })
    go (none, fr) kept = Owned-Kept m.frames fr _ _ kept own
    go (some k, fr) kept =
        let t : Option L1 = (new_table (replicate 512 (word 0)) (some k, fr)).0 in
        Owned-fewer fr _ _ _ _
          (λ n. omega (
            arith,
            total-added (maps n) t m.spaces,
            new_space_empty (some k, fr) (maps n) (zero_weights n).0,
          ))
          (λ n. omega (
            arith,
            total-added (may_write n) t m.spaces,
            new_space_empty (some k, fr) (may_write n) (zero_weights n).1,
          ))
          (Owned-Kept m.frames fr _ _ kept own)

perform-Sound : (c : Call) (m : Machine) → Allowed c m → Sound m → Sound (perform c m)
unfolding perform
perform-Sound new_space m ok own = made m own
perform-Sound (own_page i va executable) m ok own = given m i ok.0 va executable ok.1 own
perform-Sound (write_fault i va) m ok own =
    let r = vm_cow_fault va (space_at m i) m.frames in
    back m i ok.0 r.1 r.2 (
      vm_cow_fault-Owned va (space_at m i) m.frames (others maps m i) (others may_write m i)
        (focus m i ok.0 own) ok.1)
perform-Sound (copy_space i) m ok own =
    let r = vm_copy_space (space_at m i) m.frames in
    Owned-fewer r.2 _ _ _ _
      (λ n.
        omega (arith, total-added (maps n) r.0 (set m.spaces i r.1), (split m i ok.0 maps r.1 n).1))
      (λ n. omega (
        arith,
        total-added (may_write n) r.0 (set m.spaces i r.1),
        (split m i ok.0 may_write r.1 n).1,
      ))
      (vm_copy_space-Owned (space_at m i) m.frames (others maps m i) (others may_write m i)
        (λ n.
          total_le (weight (may_write n)) (weight (maps n)) (set m.spaces i no_space) (weight_le n))
        (focus m i ok.0 own) ok.1)

pub Reachable-Sound : (m : Machine) → Reachable m → Sound m
unfolding total avail
Reachable-Sound m (start fr e) = record {
  once = λ n. ground (arith, e);
  unused = λ n h. refl;
  held = λ n. omega arith;
  alone = λ n h. omega arith;
}
Reachable-Sound m (next c m' ok r) = perform-Sound c m' ok (Reachable-Sound m' r)
