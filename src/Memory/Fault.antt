-- ===== src/Memory/Fault.antt =====
-- A write to a shared page, in pkg/stam/vm.c: afterwards the page that may be written is the program's
-- alone.
use verkos.Prelude.{
  ℕ, ◌+◌, ◌-◌, ◌/◌, ◌%◌, ◌^◌, ◌≤◌, ◌<◌, ◌≡◌, refl, sym, ap, ◌∙◌, subst, inl, inr, Bool, true, false,
  ◌&&◌, Option, none, some, arith, ltb, ◌==◌, if◌then◌else◌, Bool-cases, Option-cases,
}
use verkos.Memory.Frames.{Frames, alloc_page, page_unref, page_count, is_tracked}
use verkos.Memory.Tables.{
  Entry, word, table, L1, L2, L3, is_page, is_el0, is_ro, frame, make_rw, with_frame, index_1,
  index_2, index_3, entry_1, entry_2, entry_3,
}
use verkos.Memory.Spaces.{
  fresh_copy, resolve, put_1, put_2, put_3, second, third, fault_in, vm_cow_fault,
}
use verkos.Memory.Weight.{
  total-set, total-get_or, weight_e1, weight_e2, weight, maps, may_write, empty_1, empty_2,
}
use verkos.Memory.Pool.{avail, Kept, alloc_page-Kept, alloc_page-taken}
use verkos.Memory.Owned.{Owned}
use verkos.Memory.Copied.{zero_weights}

page_count_pos : (n : ℕ) (fr : Frames) → 1 ≤ page_count n fr
unfolding page_count
page_count_pos n fr = ground arith

make_rw-frame : (d : ℕ) → (is_page (make_rw d) ≡ is_page d) × (frame (make_rw d) ≡ frame d)
make_rw-frame d = elim (Bool-cases (is_ro d)) [
  | inr m ↦ rw m (refl, refl)
  | inl y ↦ rw y (drop_ro (ground (arith, y)))
]
  where
    drop_ro : d / 128 % 2 ≡ 1 → (is_page (d - 128) ≡ is_page d) × (frame (d - 128) ≡ frame d)
    drop_ro e =
        let a : (d - 128) % 4 ≡ d % 4 = omega arith in
        let b : (d - 128) / 4096 ≡ d / 4096 = omega arith in rw (a, b) (refl, refl)

with_frame-frame :
    (n d : ℕ) → n < 2 ^ 36 → (is_page (with_frame n d) ≡ is_page d) × (frame (with_frame n d) ≡ n)
with_frame-frame n d h =
    let a : with_frame n d % 4 ≡ d % 4 = omega arith in
    let b : frame (with_frame n d) ≡ n = omega arith in (ap (λ k. k == 3) a, b)

-- What one descriptor holds: the whole of its weight, and what it may write.
weigh :
    (n d : ℕ)
    → is_page d ≡ true
    → (maps n d ≡ (if frame d == n then 1 else 0)) × (may_write n d ≤ maps n d)
unfolding maps may_write
weigh n d y = ground (arith, y)

-- Fewer entries are held as well.
pub Owned-fewer :
    (fr : Frames) (u w u' w' : ℕ → ℕ)
    → ((n : ℕ) → u' n ≤ u n)
    → ((n : ℕ) → w' n ≤ w n)
    → Owned fr u w
    → Owned fr u' w'
Owned-fewer fr u w u' w' a b own = record {
  once = own.once;
  unused = λ n h. omega (arith, own.unused n h, a n);
  held = λ n. omega (arith, own.held n, a n);
  alone = λ n h. omega (arith, own.alone n (omega (arith, h, b n)), a n);
}

pub Owned-Kept :
    (fr fr' : Frames) (u w : ℕ → ℕ) → ((n : ℕ) → Kept n fr fr') → Owned fr u w → Owned fr' u w
Owned-Kept fr fr' u w k own = record {
  once = λ n. omega (arith, own.once n, (k n).fewer);
  unused = λ n h. own.unused n (omega (arith, (k n).fewer, h));
  held = λ n. omega (arith, own.held n, (k n).holders);
  alone = own.alone;
}

unref_after :
    (n m : ℕ) (fr : Frames) (c : ℕ → ℕ → ℕ)
    → let fr' = (page_unref m (record fr { contents = c })).1 in
      (avail n fr' ≡ avail n fr) × (page_count n fr ≤ page_count n fr' + (if m == n then 1 else 0))
unfolding avail page_unref page_count is_tracked
unref_after n m fr c = ground arith

-- The descriptor `d` and what the other entries hold.
module _ (d : ℕ) (o p : ℕ → ℕ) where
  abbrev Holds : ℕ → Frames → Type 0
  Holds e fr = Owned fr (λ n. maps n e + o n) (λ n. may_write n e + p n)

  abbrev Resolved : Option ℕ × Frames → Type 0
  Resolved (none, fr) = Holds d fr
  Resolved (some e, fr) = Holds e fr

  sole :
      (fr : Frames)
      → is_page d ≡ true
      → page_count (frame d) fr ≤ 1
      → Holds d fr
      → Holds (make_rw d) fr
  sole fr y c own =
      let f = make_rw-frame d in
      let w = λ (n : ℕ). weigh n d y in
      let w' = λ (n : ℕ). weigh n (make_rw d) (f.0 ∙ y) in
      record {
        once = own.once;
        unused = λ n h. ground (arith, own.unused n h, w n, w' n, f.1);
        held = λ n. ground (arith, own.held n, w n, w' n, f.1);
        alone = λ n h. ground (arith, own.alone n, own.held n, w n, w' n, f.1, c, h);
      }

  copied :
      (fr : Frames) (r : Option ℕ × Frames)
      → is_page d ≡ true
      → Holds d fr
      → ((n : ℕ) → Kept n fr r.1)
      → ((k : ℕ) → r.0 ≡ some k → avail k r.1 + 1 ≡ avail k fr)
      → ((k : ℕ) → r.0 ≡ some k → k < 2 ^ 36)
      → Resolved (fresh_copy d r)
  unfolding fresh_copy
  copied fr (none, fr1) y own kept taken small = Owned-Kept fr fr1 _ _ kept own
  copied fr (some k, fr1) y own kept taken small =
      let f = make_rw-frame d in
      let g = with_frame-frame k (make_rw d) (small k refl) in
      let w = λ (n : ℕ). weigh n d y in
      let w' = λ (n : ℕ). weigh n (with_frame k (make_rw d)) (g.0 ∙ f.0 ∙ y) in
      let un = λ (n : ℕ).
        unref_after n (frame d) fr1
          (λ q. if q == k then fr1.contents (frame d) else fr1.contents q) in
      let gone = own.unused k (omega (arith, taken k refl)) in
      record {
        once = λ n. omega (arith, own.once n, (kept n).fewer, (un n).0);
        unused = λ n h. ground (
          arith,
          h,
          own.unused n,
          own.once n,
          (kept n).fewer,
          (un n).0,
          w n,
          w' n,
          g.1,
          taken k refl,
          own.once k,
        );
        held = λ n. ground (
          arith,
          own.held n,
          (kept n).holders,
          (un n).1,
          w n,
          w' n,
          g.1,
          gone,
          page_count_pos n fr,
          page_count_pos n
              (page_unref (frame d) (record fr1 {
                contents = λ q. if q == k then fr1.contents (frame d) else fr1.contents q;
              })).1,
        );
        alone = λ n h. ground (arith, h, own.alone n, w n, w' n, g.1, gone);
      }

  -- Whatever the fault makes of the descriptor is held as the pages allow.
  resolve-Owned :
      (fr : Frames)
      → Holds d fr
      → ((k : ℕ) → (alloc_page fr).0 ≡ some k → k < 2 ^ 36)
      → Resolved (resolve d fr)
  unfolding resolve
  resolve-Owned fr own small = elim (Bool-cases (is_page d && (is_el0 d && is_ro d))) [
    | inr m ↦ rw m own
    | inl y ↦ elim (Bool-cases (ltb 1 (page_count (frame d) fr))) [
      | inl c ↦
          rw (y, c)
            (copied fr (alloc_page fr) (ground (arith, y)) own (λ n. alloc_page-Kept n fr)
              (λ k e. alloc_page-taken k fr e) small)
      | inr c ↦ rw (y, c) (sole fr (ground (arith, y)) (ground (arith, c)) own)
    ]
  ]

second_eq : (e : Entry (Entry ℕ)) (t : L2) → second e ≡ some t → e ≡ table t
second_eq (word d) t q = absurd (ground (arith, q))
second_eq (table t') t q = ap table (ground (arith, q))

third_eq : (e : Entry ℕ) (t : L3) → third e ≡ some t → e ≡ table t
third_eq (word d) t q = absurd (ground (arith, q))
third_eq (table t') t q = ap table (ground (arith, q))

-- Another descriptor at the place of `entry_3 l3 va`.
swap :
    (f : ℕ → ℕ) (z : f 0 ≡ 0) (va e : ℕ) (l1 : L1) (l2 : L2) (l3 : L3)
    → entry_1 l1 va ≡ table l2
    → entry_2 l2 va ≡ table l3
    → (weight f (put_1 va (put_2 va (put_3 va e l3) l2) l1) + f (entry_3 l3 va) ≤ weight f l1 + f e)
      × (f (entry_3 l3 va) ≤ weight f l1)
unfolding weight weight_e1 weight_e2
swap f z va e l1 l2 l3 e1 e2 =
    let a1 = ap (weight_e1 f) e1 in
    let a2 = ap (weight_e2 f) e2 in
    let t1 =
      total-set (weight_e1 f) l1.slots (index_1 va) (table (put_2 va (put_3 va e l3) l2)) (word 0)
        (empty_1 f z) in
    let t2 =
      total-set (weight_e2 f) l2.slots (index_2 va) (table (put_3 va e l3)) (word 0)
        (empty_2 f z) in
    let t3 = total-set f l3.slots (index_3 va) e 0 z in
    (
      omega (arith, a1, a2, t1, t2, t3),
      omega (
        arith,
        a1,
        a2,
        total-get_or (weight_e1 f) l1.slots (index_1 va) (word 0) (empty_1 f z),
        total-get_or (weight_e2 f) l2.slots (index_2 va) (word 0) (empty_2 f z),
        total-get_or f l3.slots (index_3 va) 0 z,
      ),
    )

module _ (va : ℕ) (l1 : L1) (l2 : L2) (l3 : L3) (fr : Frames) (o p : ℕ → ℕ)
    (e1 : entry_1 l1 va ≡ table l2) (e2 : entry_2 l2 va ≡ table l3) where
  -- What the other entries of this space and all other spaces hold.
  rest : (ℕ → ℕ → ℕ) → (ℕ → ℕ) → ℕ → ℕ
  rest f q n = weight (f n) l1 - f n (entry_3 l3 va) + q n

  abbrev Held : Bool × L1 × Frames → Type 0
  Held (b, t, fr') = Owned fr' (λ n. weight (maps n) t + o n) (λ n. weight (may_write n) t + p n)

  back :
      (r : Option ℕ × Frames)
      → Resolved (entry_3 l3 va) (rest maps o) (rest may_write p) r
      → Held (fault_in va l1 l2 l3 r)
  unfolding fault_in rest
  back (none, fr') own =
      Owned-fewer fr' _ _ _ _
        (λ n. omega (arith, (swap (maps n) (zero_weights n).0 va 0 l1 l2 l3 e1 e2).1))
        (λ n. omega (arith, (swap (may_write n) (zero_weights n).1 va 0 l1 l2 l3 e1 e2).1)) own
  back (some e, fr') own =
      Owned-fewer fr' _ _ _ _
        (λ n. omega (arith, swap (maps n) (zero_weights n).0 va e l1 l2 l3 e1 e2))
        (λ n. omega (arith, swap (may_write n) (zero_weights n).1 va e l1 l2 l3 e1 e2)) own

  in_space :
      Owned fr (λ n. weight (maps n) l1 + o n) (λ n. weight (may_write n) l1 + p n)
      → ((k : ℕ) → (alloc_page fr).0 ≡ some k → k < 2 ^ 36)
      → Held (fault_in va l1 l2 l3 (resolve (entry_3 l3 va) fr))
  unfolding rest
  in_space own small =
      back (resolve (entry_3 l3 va) fr)
        (resolve-Owned (entry_3 l3 va) (rest maps o) (rest may_write p) fr start small)
    where
      start : Holds (entry_3 l3 va) (rest maps o) (rest may_write p) (entry_3 l3 va) fr
      start =
          Owned-fewer fr _ _ _ _
            (λ n. omega (arith, (swap (maps n) (zero_weights n).0 va 0 l1 l2 l3 e1 e2).1))
            (λ n. omega (arith, (swap (may_write n) (zero_weights n).1 va 0 l1 l2 l3 e1 e2).1)) own

no_second :
    (va : ℕ) (l1 : L1) (fr : Frames)
    → second (entry_1 l1 va) ≡ none
    → vm_cow_fault va l1 fr ≡ (false, l1, fr)
unfolding vm_cow_fault
no_second va l1 fr e = rw (e, vm_cow_fault) refl

no_third :
    (va : ℕ) (l1 : L1) (l2 : L2) (fr : Frames)
    → second (entry_1 l1 va) ≡ some l2
    → third (entry_2 l2 va) ≡ none
    → vm_cow_fault va l1 fr ≡ (false, l1, fr)
unfolding vm_cow_fault
no_third va l1 l2 fr e e' = rw (e, e', vm_cow_fault) refl

faulted :
    (va : ℕ) (l1 : L1) (l2 : L2) (l3 : L3) (fr : Frames)
    → second (entry_1 l1 va) ≡ some l2
    → third (entry_2 l2 va) ≡ some l3
    → vm_cow_fault va l1 fr ≡ fault_in va l1 l2 l3 (resolve (entry_3 l3 va) fr)
unfolding vm_cow_fault
faulted va l1 l2 l3 fr e e' = rw (e, e', vm_cow_fault) refl

-- A write fault, handled or not, leaves every page as Owned asks, `o` and `p` being what the other
-- spaces hold: so that a page that may be written afterwards is mapped nowhere else. The page that is
-- handed out has an address of 48 bits.
pub vm_cow_fault-Owned :
    (va : ℕ) (l1 : L1) (fr : Frames) (o p : ℕ → ℕ)
    → Owned fr (λ n. weight (maps n) l1 + o n) (λ n. weight (may_write n) l1 + p n)
    → ((k : ℕ) → (alloc_page fr).0 ≡ some k → k < 2 ^ 36)
    → Owned
        (vm_cow_fault va l1 fr).2
        (λ n. weight (maps n) (vm_cow_fault va l1 fr).1 + o n)
        (λ n. weight (may_write n) (vm_cow_fault va l1 fr).1 + p n)
vm_cow_fault-Owned va l1 fr o p own small = elim (Option-cases (second (entry_1 l1 va))) [
  | inl m ↦ subst Fine (sym (no_second va l1 fr m)) own
  | inr (l2, e) ↦ elim (Option-cases (third (entry_2 l2 va))) [
    | inl m ↦ subst Fine (sym (no_third va l1 l2 fr e m)) own
    | inr (l3, e') ↦ subst Fine (sym (faulted va l1 l2 l3 fr e e')) (
        in_space va l1 l2 l3 fr o p (second_eq (entry_1 l1 va) l2 e)
          (third_eq (entry_2 l2 va) l3 e') own small)
  ]
]
  where
    Fine : Bool × L1 × Frames → Type 0
    Fine r = Owned r.2 (λ n. weight (maps n) r.1 + o n) (λ n. weight (may_write n) r.1 + p n)
