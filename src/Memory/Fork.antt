-- ===== src/Memory/Fork.antt =====
-- Copying an address space, in pkg/stam/vm.c, keeps every page that can be written with one holder.
use verkos.Prelude.{
  ℕ, ◌+◌, ◌^◌, ◌≤◌, ◌<◌, ◌≡◌, ◌∙◌, inl, inr, Bool, true, false, Option, none, some, List, arith,
  ltb, Bool-cases, replicate,
}
use verkos.Memory.Frames.{Frames, alloc_page, page_count, is_tracked}
use verkos.Memory.Tables.{Entry, word, L1, new_table}
use verkos.Memory.Spaces.{
  Copying, copy_end, copy_into, copy_slots, copy_1, vm_new_space, vm_copy_space,
}
use verkos.Memory.Weight.{total, total-replicate, weight_e1, weight, maps, may_write, empty_1}
use verkos.Memory.Pool.{Kept, alloc_page-Kept}
use verkos.Memory.Owned.{Owned}
use verkos.Memory.Copied.{zero_weights, Copied, copy_all-Copied}

-- The weight of a space that may not have been made.
abbrev pub made_weight : (ℕ → ℕ) → Option L1 → ℕ
made_weight f none = 0
made_weight f (some l1) = weight f l1

-- What is held once the space has been copied, `o` being what the other spaces hold.
abbrev pub after_copy : (ℕ → ℕ → ℕ) → (ℕ → ℕ) → Option L1 × L1 × Frames → ℕ → ℕ
after_copy w o r n = weight (w n) r.1 + made_weight (w n) r.0 + o n

empty_space :
    (f : ℕ → ℕ)
    → f 0 ≡ 0
    → (k : ℕ) → weight f (record { at = k; slots = replicate 512 (word 0) }) ≡ 0
unfolding weight
empty_space f z k = total-replicate (weight_e1 f) 512 (word 0) (empty_1 f z)

all_of :
    (n : ℕ) (src : L1) (st : Copying)
    → let r = copy_slots copy_1 (2 ^ 30) 0 src.slots st in
      Copied n
        (weight (maps n) src)
        (weight (may_write n) src)
        (total (weight_e1 (maps n)) r.1)
        (total (weight_e1 (may_write n)) r.1)
        st
        r.2
unfolding weight
all_of n src st = copy_all-Copied n src.slots st

module _ (src : L1) (o p : ℕ → ℕ) (le : (n : ℕ) → p n ≤ o n) where
  ends :
      (fr : Frames) (st : Copying) (r : Bool × List (Entry (Entry ℕ)) × Copying)
      → Owned fr (λ n. weight (maps n) src + o n) (λ n. weight (may_write n) src + p n)
      → ((n : ℕ)
          → 0 < weight (maps n) src
          → is_tracked n fr ≡ true × page_count n fr + weight (maps n) src ≤ 256)
      → ((n : ℕ) → Kept n fr st.fr)
      → ((n : ℕ) → (weight (maps n) st.dst ≡ 0) × (weight (may_write n) st.dst ≡ 0))
      → ((n : ℕ)
          → Copied n
              (weight (maps n) src)
              (weight (may_write n) src)
              (total (weight_e1 (maps n)) r.1)
              (total (weight_e1 (may_write n)) r.1)
              st
              r.2)
      → Owned
          (copy_end src r).2
          (after_copy maps o (copy_end src r))
          (after_copy may_write p (copy_end src r))
  unfolding weight
  ends fr st (true, xs, st') own room kept empty copied = record {
    once = λ n. omega (arith, own.once n, (kept n).fewer, (copied n).pool);
    unused = λ n h. omega (
      arith,
      own.unused n (omega (arith, (kept n).fewer, (copied n).pool, h)),
      (copied n).split,
      (empty n).0,
      (copied n).same,
    );
    held = λ n. elim (Bool-cases (ltb 0 (weight (maps n) src))) [
      | inl y ↦
          let some_held : 0 < weight (maps n) src = ground (arith, y) in
          let h = room n some_held in
          omega (
            arith,
            own.held n,
            (kept n).holders,
            (copied n).counted ((kept n).tracked ∙ h.0) (omega (arith, h.1, (kept n).holders)),
            (copied n).same,
            (empty n).0,
          )
      | inr m ↦
          let none_held : weight (maps n) src ≡ 0 = ground (arith, m) in
          omega (
            arith,
            own.held n,
            (kept n).holders,
            (copied n).up,
            (copied n).split,
            (copied n).same,
            (empty n).0,
            none_held,
          )
    ];
    alone = λ n h. ground (
      arith,
      own.alone n,
      (copied n).split,
      (copied n).same,
      (copied n).fewer,
      (copied n).read_only,
      empty n,
      le n,
    );
  }
  ends fr st (false, xs, st') own room kept empty copied = record {
    once = λ n. omega (arith, own.once n, (kept n).fewer, (copied n).pool);
    unused = λ n h.
        omega (
          arith,
          own.unused n (omega (arith, (kept n).fewer, (copied n).pool, h)),
          (copied n).same,
        );
    held = λ n. omega (arith, own.held n, (kept n).holders, (copied n).up, (copied n).same);
    alone = λ n h. omega (arith, own.alone n (omega (arith, h, (copied n).fewer)), (copied n).same);
  }

-- A copied space, whether the copy was finished or not, leaves every page as Owned asks: one that
-- an entry of some space may write is mapped by that entry alone. The counts have to have room for
-- another holder of each page of the space, which they keep track of.
pub vm_copy_space-Owned :
    (src : L1) (fr : Frames) (o p : ℕ → ℕ)
    → ((n : ℕ) → p n ≤ o n)
    → Owned fr (λ n. weight (maps n) src + o n) (λ n. weight (may_write n) src + p n)
    → ((n : ℕ)
        → 0 < weight (maps n) src
        → is_tracked n fr ≡ true × page_count n fr + weight (maps n) src ≤ 256)
    → Owned
        (vm_copy_space src fr).2
        (after_copy maps o (vm_copy_space src fr))
        (after_copy may_write p (vm_copy_space src fr))
unfolding vm_copy_space vm_new_space
vm_copy_space-Owned src fr o p le own room = go (alloc_page fr) (λ n. alloc_page-Kept n fr)
  where
    go :
        (r : Option ℕ × Frames)
        → ((n : ℕ) → Kept n fr r.1)
        → let t = copy_into src (new_table (replicate 512 (word 0)) r) in
          Owned t.2 (after_copy maps o t) (after_copy may_write p t)
    go (none, fr') kept = record {
      once = λ n. omega (arith, own.once n, (kept n).fewer);
      unused = λ n h. omega (arith, own.unused n (omega (arith, (kept n).fewer, h)));
      held = λ n. omega (arith, own.held n, (kept n).holders);
      alone = λ n h. omega (arith, own.alone n (omega (arith, h)));
    }
    go (some k, fr') kept =
        let st : Copying = record {
          dst = record { at = k; slots = replicate 512 (word 0) };
          fr = fr';
        } in
        ends src o p le fr st (copy_slots copy_1 (2 ^ 30) 0 src.slots st) own room kept
          (λ n. (
            empty_space (maps n) (zero_weights n).0 k,
            empty_space (may_write n) (zero_weights n).1 k,
          ))
          (λ n. all_of n src st)
