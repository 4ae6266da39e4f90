-- ===== src/Memory/Copied.antt =====
-- What vm_copy_space of pkg/stam/vm.c does to the pages, for one page at a time.
use verkos.Prelude.{
  ℕ, ◌+◌, ◌/◌, ◌%◌, ◌^◌, ◌≤◌, ◌<◌, ◌≡◌, refl, ap, ◌∙◌, inl, inr, Bool, true, false, List, [], ◌∷◌,
  arith, ◌==◌, if◌then◌else◌, Bool-cases,
}
use verkos.Memory.Frames.{page_ref, page_count, is_tracked}
use verkos.Memory.Tables.{
  Entry, word, table, is_page, is_ro, frame, make_ro, words_2, words_3, map_user_page_raw,
}
use verkos.Memory.Spaces.{Copying, Step, copy_slots, copy_entry, copy_page, copy_2, copy_1}
use verkos.Memory.Weight.{total, weight_e1, weight_e2, weight, maps, may_write}
use verkos.Memory.Pool.{avail, page_ref_count}
use verkos.Memory.Mapped.{map_user_page_raw-weight}

-- From `a` to `b`, while `u` entries of the old space that map the page, `v` of them writable, became
-- `u'` and `v'`.
pub record Copied (n u v u' v' : ℕ) (a b : Copying) : Type 0 where
  pub same : u' ≡ u
  pub fewer : v' ≤ v
  pub split : weight (maps n) b.dst + v' ≤ weight (maps n) a.dst + u
  pub read_only : weight (may_write n) b.dst ≤ weight (may_write n) a.dst
  pub up : page_count n a.fr ≤ page_count n b.fr
  pub cap : page_count n b.fr ≤ page_count n a.fr + u
  pub tracked : is_tracked n b.fr ≡ is_tracked n a.fr
  pub counted :
      is_tracked n a.fr ≡ true
      → page_count n a.fr + u ≤ 256
      → weight (maps n) b.dst + page_count n a.fr ≤ weight (maps n) a.dst + page_count n b.fr
  pub pool : avail n b.fr ≤ avail n a.fr
  pub content : avail n a.fr ≡ 0 → (i : ℕ) → b.fr.contents n i ≡ a.fr.contents n i

leave : (n u v : ℕ) (a : Copying) → v ≤ u → Copied n u v u v a a
leave n u v a h = record {
  same = refl;
  fewer = omega arith;
  split = omega arith;
  read_only = omega arith;
  up = omega arith;
  cap = omega arith;
  tracked = refl;
  counted = λ t c. omega arith;
  pool = omega arith;
  content = λ e i. refl;
}

then_ :
    (n u v u' v' s t s' t' : ℕ) (a b c : Copying)
    → Copied n u v u' v' a b
    → Copied n s t s' t' b c
    → Copied n (u + s) (v + t) (u' + s') (v' + t') a c
then_ n u v u' v' s t s' t' a b c h k = record {
  same = omega (arith, h.same, k.same);
  fewer = omega (arith, h.fewer, k.fewer);
  split = omega (arith, h.split, k.split);
  read_only = omega (arith, h.read_only, k.read_only);
  up = omega (arith, h.up, k.up);
  cap = omega (arith, h.cap, k.cap);
  tracked = k.tracked ∙ h.tracked;
  counted = λ y l.
      omega (arith, h.counted y (omega arith), k.counted (h.tracked ∙ y) (omega (arith, h.cap)));
  pool = omega (arith, h.pool, k.pool);
  content = λ e i. k.content (omega (arith, h.pool, e)) i ∙ h.content e i;
}

module _ (n : ℕ) where
  -- A step that copies what it is given.
  abbrev Copies : {A : Type 0} → (A → ℕ) → (A → ℕ) → Step A → Type 0
  Copies wu wv step =
      (va : ℕ) (x : _) (st : Copying)
      → Copied n (wu x) (wv x) (wu (step va x st).1) (wv (step va x st).1) st (step va x st).2

  total_le :
      {A : Type 0} (p q : A → ℕ) → ((x : A) → p x ≤ q x) → (xs : List A) → total p xs ≤ total q xs
  unfolding total
  total_le p q h [] = omega arith
  total_le p q h (x ∷ xs) = omega (arith, h x, total_le p q h xs)

  -- Where the step stops, the entries behind it stay.
  copy_slots-Copied :
      {A : Type 0} (wu wv : A → ℕ) (le : (x : A) → wv x ≤ wu x) (step : Step A)
      → Copies wu wv step
      → (size va : ℕ) (xs : List A) (st : Copying)
      → let r = copy_slots step size va xs st in
        Copied n (total wu xs) (total wv xs) (total wu r.1) (total wv r.1) st r.2
  unfolding copy_slots total
  copy_slots-Copied wu wv le step good size va [] st = leave n 0 0 st (omega arith)
  copy_slots-Copied wu wv le step good size va (x ∷ xs) st =
      let st1 = (step va x st).2 in
      let here = good va x st in
      elim (Bool-cases (step va x st).0) [
        | inl y ↦ rw y (
            then_ n (wu x) (wv x) _ _ (total wu xs) (total wv xs) _ _ st st1 _ here
              (copy_slots-Copied wu wv le step good size (va + size) xs st1))
        | inr m ↦ rw m (
            then_ n (wu x) (wv x) _ _ (total wu xs) (total wv xs) _ _ st st1 _ here
              (leave n (total wu xs) (total wv xs) st1 (total_le wv wu le xs)))
      ]

  may_write_le : (d : ℕ) → may_write n d ≤ maps n d
  unfolding may_write maps
  may_write_le d = ground arith

  -- Neither loses nor moves the page.
  pub make_ro-frame :
      (d : ℕ)
      → (is_page (make_ro d) ≡ is_page d)
        × (frame (make_ro d) ≡ frame d)
        × (is_ro (make_ro d) ≡ true)
  make_ro-frame d = elim (Bool-cases (is_ro d)) [
    | inl y ↦ rw y (refl, refl, y)
    | inr m ↦ rw m (add_ro (ground (arith, m)))
  ]
    where
      add_ro :
          d / 128 % 2 ≡ 0
          → (is_page (d + 128) ≡ is_page d) × (frame (d + 128) ≡ frame d) × (is_ro (d + 128) ≡ true)
      add_ro e =
          let a : (d + 128) % 4 ≡ d % 4 = omega arith in
          let b : (d + 128) / 4096 ≡ d / 4096 = omega arith in
          let c : (d + 128) / 128 % 2 ≡ 1 = omega arith in rw (a, b, c) (refl, refl, refl)

  shared_weights :
      (d : ℕ)
      → is_page d ≡ true
      → (maps n (make_ro d) ≡ maps n d)
        × (maps n d ≡ (if frame d == n then 1 else 0))
        × (may_write n (make_ro d) ≡ 0)
        × (may_write n d ≤ maps n d)
  unfolding maps may_write
  shared_weights d y = let m = make_ro-frame d in ground (arith, y, m)

  pub zero_weights : (maps n 0 ≡ 0) × (may_write n 0 ≡ 0)
  unfolding maps may_write
  zero_weights = (refl, refl)

  -- The count goes up with the weight.
  more :
      (b : Bool) (old new was now later m m' : ℕ)
      → m ≡ (if b then 1 else 0)
      → m' ≡ m
      → new ≤ old + m'
      → later ≡ now
      → was ≤ now
      → (was < 256 → was + (if b then 1 else 0) ≤ now)
      → was + m ≤ 256
      → new + was ≤ old + later
  more true old new was now later m m' e e' h l up add c = omega (arith, add (omega arith))
  more false old new was now later m m' e e' h l up add c = omega arith

  page-Copied :
      (va d : ℕ) (st : Copying)
      → is_page d ≡ true
      → let r = map_user_page_raw va (make_ro d) st.dst (page_ref (frame d) st.fr) in
        Copied n
          (maps n d)
          (may_write n d)
          (maps n (make_ro d))
          (may_write n (make_ro d))
          st
          (record { dst = r.1; fr = r.2 })
  page-Copied va d st y =
      let w = shared_weights d y in
      let fr1 = page_ref (frame d) st.fr in
      let ref = page_ref_count n (frame d) st.fr in
      let u = map_user_page_raw-weight (maps n) zero_weights.0 n va (make_ro d) st.dst fr1 in
      let v = map_user_page_raw-weight (may_write n) zero_weights.1 n va (make_ro d) st.dst fr1 in
      record {
        same = w.0;
        fewer = omega (arith, w.2);
        split = omega (arith, w.0, w.2, u.0);
        read_only = omega (arith, w.2, v.0);
        up = omega (arith, u.1.holders, ref.3);
        cap = omega (arith, u.1.holders, ref.4, w.1);
        tracked = u.1.tracked ∙ ref.1;
        counted = λ t c.
            more (frame d == n) _ _ _ _ _ _ _ (w.1) (w.0) (u.0) u.1.holders ref.3 (ref.5 t) c;
        pool = omega (arith, u.1.fewer, ref.0);
        content = λ e i. u.1.content (ref.0 ∙ e) i ∙ ap (λ q. q n i) ref.2;
      }

  copy_page-Copied : Copies (maps n) (may_write n) copy_page
  unfolding copy_page
  copy_page-Copied va d st = elim (Bool-cases (is_page d)) [
    | inr m ↦ rw m (leave n (maps n d) (may_write n d) st (may_write_le d))
    | inl y ↦ rw y (page-Copied va d st y)
  ]

  le_e2 : (e : Entry ℕ) → weight_e2 (may_write n) e ≤ weight_e2 (maps n) e
  unfolding weight_e2
  le_e2 (word d) = total_le (may_write n) (maps n) may_write_le (words_3 d)
  le_e2 (table t) = total_le (may_write n) (maps n) may_write_le t.slots

  le_e1 : (e : Entry (Entry ℕ)) → weight_e1 (may_write n) e ≤ weight_e1 (maps n) e
  unfolding weight_e1
  le_e1 (word d) = total_le (weight_e2 (may_write n)) (weight_e2 (maps n)) le_e2 (words_2 d)
  le_e1 (table t) = total_le (weight_e2 (may_write n)) (weight_e2 (maps n)) le_e2 t.slots

  copy_2-Copied : Copies (weight_e2 (maps n)) (weight_e2 (may_write n)) copy_2
  unfolding copy_2 copy_entry weight_e2
  copy_2-Copied va (word d) st = leave n _ _ st (le_e2 (word d))
  copy_2-Copied va (table t) st =
      copy_slots-Copied (maps n) (may_write n) may_write_le copy_page copy_page-Copied 4096 va
        t.slots st

  copy_1-Copied : Copies (weight_e1 (maps n)) (weight_e1 (may_write n)) copy_1
  unfolding copy_1 copy_entry weight_e1
  copy_1-Copied va (word d) st = leave n _ _ st (le_e1 (word d))
  copy_1-Copied va (table t) st =
      copy_slots-Copied (weight_e2 (maps n)) (weight_e2 (may_write n)) le_e2 copy_2 copy_2-Copied
        (2 ^ 21) va t.slots st

  -- The loop of vm_copy_space over the whole of a space.
  pub copy_all-Copied :
      (xs : List (Entry (Entry ℕ))) (st : Copying)
      → let r = copy_slots copy_1 (2 ^ 30) 0 xs st in
        Copied n
          (total (weight_e1 (maps n)) xs)
          (total (weight_e1 (may_write n)) xs)
          (total (weight_e1 (maps n)) r.1)
          (total (weight_e1 (may_write n)) r.1)
          st
          r.2
  copy_all-Copied xs st =
      copy_slots-Copied (weight_e1 (maps n)) (weight_e1 (may_write n)) le_e1 copy_1 copy_1-Copied
        (2 ^ 30) 0 xs st
