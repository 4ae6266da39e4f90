-- ===== src/Memory/Fresh.antt =====
-- A page of its own, or a new space, for a program, in pkg/stam/vm.c: every page stays held as it was.
use verkos.Prelude.{
  ℕ, ◌+◌, ◌%◌, ◌^◌, ◌≤◌, ◌<◌, ◌≡◌, refl, Bool, true, false, Option, none, some, arith, ◌==◌,
  if◌then◌else◌, replicate,
}
use verkos.Memory.Frames.{Frames, alloc_page, page_count}
use verkos.Memory.Tables.{new_table, word, L1, frame, user_word, map_user_page, map_user_page_raw}
use verkos.Memory.Weight.{total-replicate, weight_e1, weight, maps, may_write, empty_1}
use verkos.Memory.Pool.{alloc_page-Kept, alloc_page-taken}
use verkos.Memory.Mapped.{map_user_page_raw-weight}
use verkos.Memory.Owned.{Owned}
use verkos.Memory.Copied.{zero_weights}
use verkos.Memory.Fork.{made_weight}

one_holder : (n : ℕ) (fr : Frames) → 1 ≤ page_count n fr
unfolding page_count
one_holder n fr = ground arith

user_word_bits :
    (page : ℕ) (executable : Bool)
    → page < 2 ^ 36
    → (user_word page executable % 4 ≡ 3) × (frame (user_word page executable) ≡ page)
unfolding user_word
user_word_bits page true h = (omega arith, omega (arith, h))
user_word_bits page false h = (omega arith, omega (arith, h))

weighs_as :
    (n page d : ℕ)
    → d % 4 ≡ 3
    → frame d ≡ page
    → (maps n d ≡ (if page == n then 1 else 0)) × (may_write n d ≤ maps n d)
unfolding maps may_write
weighs_as n page d bits place = ground (arith, bits, place)

-- What is held once a page that was free is mapped.
module _ (fr : Frames) (l1 : L1) (o p : ℕ → ℕ) (va page : ℕ) (executable : Bool) where
  pub mapped_fresh :
      Owned fr (λ n. weight (maps n) l1 + o n) (λ n. weight (may_write n) l1 + p n)
      → (alloc_page fr).0 ≡ some page
      → page < 2 ^ 36
      → let r = map_user_page va page executable l1 (alloc_page fr).1 in
        Owned r.2 (λ n. weight (maps n) r.1 + o n) (λ n. weight (may_write n) r.1 + p n)
  unfolding map_user_page
  mapped_fresh own took small =
      let d = user_word page executable in
      let bits = user_word_bits page executable small in
      let u = λ (n : ℕ).
        map_user_page_raw-weight (maps n) (zero_weights n).0 n va d l1 (alloc_page fr).1 in
      let v = λ (n : ℕ).
        map_user_page_raw-weight (may_write n) (zero_weights n).1 n va d l1 (alloc_page fr).1 in
      let k = λ (n : ℕ). alloc_page-Kept n fr in
      let w = λ (n : ℕ). weighs_as n page d bits.0 bits.1 in
      let taken = alloc_page-taken page fr took in
      let was_free = own.unused page (omega (arith, taken)) in
      record {
        once = λ n. omega (arith, own.once n, (k n).fewer, (u n).1.fewer);
        unused = λ n h. ground (
          arith,
          h,
          own.unused n,
          (k n).fewer,
          (u n).1.fewer,
          (u n).0,
          w n,
          taken,
          own.once page,
        );
        held = λ n. ground (
          arith,
          own.held n,
          (k n).holders,
          (u n).1.holders,
          (u n).0,
          w n,
          was_free,
          one_holder n (map_user_page_raw va d l1 (alloc_page fr).1).2,
        );
        alone = λ n h. ground (arith, h, own.alone n, (u n).0, (v n).0, w n, was_free);
      }

pub new_space_empty :
    (r : Option ℕ × Frames) (f : ℕ → ℕ)
    → f 0 ≡ 0
    → made_weight f (new_table (replicate 512 (word 0)) r).0 ≡ 0
unfolding weight
new_space_empty (none, fr) f z = refl
new_space_empty (some k, fr) f z = total-replicate (weight_e1 f) 512 (word 0) (empty_1 f z)
