-- ===== src/Memory/Isolation.antt =====
-- What Owned means for two programs, and what is lost where the counts keep no track of a page, in
-- pkg/stam/vm.c.
use verkos.Prelude.{
  ℕ, ◌+◌, ◌≤◌, ◌<◌, ◌≡◌, refl, sym, ap, ◌∙◌, ◌≢◌, true, false, some, arith, length, get_or, set,
  get_or-set,
}
use verkos.Memory.Frames.{Frames, page_ref, page_count, is_tracked}
use verkos.Memory.Tables.{
  Entry, word, table, L1, is_page, is_el0, is_ro, frame, make_ro, make_rw, index_1, index_2,
  index_3, entry_1, entry_2, entry_3,
}
use verkos.Memory.Spaces.{leaf_1, leaf_2, leaf_3, walk_to_leaf, resolve}
use verkos.Memory.Weight.{
  total-get_or, weight_e1, weight_e2, weight, maps, may_write, empty_1, empty_2,
}
use verkos.Memory.Owned.{Owned}
use verkos.Memory.Fault.{Owned-fewer}
use verkos.Memory.Reachable.{Machine, no_space, space_at, Reachable}
use verkos.Memory.Invariant.{total_split, weight-no_space, Reachable-Sound}
use verkos.Memory.Copied.{zero_weights, make_ro-frame}

module _ (f : ℕ → ℕ) (z : f 0 ≡ 0) (va d : ℕ) where
  in_leaf : (x : ℕ) → leaf_3 x ≡ some (d, 4096) → (x ≡ d) × (is_page x ≡ true)
  in_leaf x e = ground (arith, e)

  in_second :
      (e : Entry ℕ) → leaf_2 e va ≡ some (d, 4096) → (f d ≤ weight_e2 f e) × (is_page d ≡ true)
  unfolding weight_e2
  in_second (word w) e = absurd (ground (arith, e))
  in_second (table t) e =
      let h = in_leaf (entry_3 t va) e in
      (omega (arith, total-get_or f t.slots (index_3 va) 0 z, ap f h.0), sym (ap is_page h.0) ∙ h.1)

  in_first :
      (e : Entry (Entry ℕ))
      → leaf_1 e va ≡ some (d, 4096)
      → (f d ≤ weight_e1 f e) × (is_page d ≡ true)
  unfolding weight_e1
  in_first (word w) e = absurd (ground (arith, e))
  in_first (table t) e =
      let h = in_second (entry_2 t va) e in
      (
        omega (arith, total-get_or (weight_e2 f) t.slots (index_2 va) (word 0) (empty_2 f z), h.0),
        h.1,
      )

  -- A page that a walk finds is counted.
  leaf_counted :
      (l1 : L1) → walk_to_leaf va l1 ≡ some (d, 4096) → (f d ≤ weight f l1) × (is_page d ≡ true)
  unfolding walk_to_leaf weight
  leaf_counted l1 e =
      let h = in_first (entry_1 l1 va) e in
      (
        omega (arith, total-get_or (weight_e1 f) l1.slots (index_1 va) (word 0) (empty_1 f z), h.0),
        h.1,
      )

counts_itself : (d : ℕ) → is_page d ≡ true → maps (frame d) d ≡ 1
unfolding maps
counts_itself d y = ground (arith, y)

counts_write : (d : ℕ) → is_page d ≡ true → is_ro d ≡ false → may_write (frame d) d ≡ 1
unfolding may_write
counts_write d y r = ground (arith, y, r)

-- Where every page is held as Owned asks, a page that one space may write at some address is not the
-- page of any address of another space.
Owned-apart :
    (fr : Frames) (a b : L1) (o p : ℕ → ℕ) (va va' d d' : ℕ)
    → Owned fr
        (λ n. weight (maps n) a + (weight (maps n) b + o n))
        (λ n. weight (may_write n) a + p n)
    → walk_to_leaf va a ≡ some (d, 4096)
    → walk_to_leaf va' b ≡ some (d', 4096)
    → is_ro d ≡ false
    → frame d ≢ frame d'
Owned-apart fr a b o p va va' d d' own wa wb r e =
    let n = frame d in
    let ua = leaf_counted (maps n) (zero_weights n).0 va d a wa in
    let ub = leaf_counted (maps n) (zero_weights n).0 va' d' b wb in
    let ww = leaf_counted (may_write n) (zero_weights n).1 va d a wa in
    let one : may_write n d ≡ 1 = counts_write d ua.1 r in
    let own_page : maps n d ≡ 1 = counts_itself d ua.1 in
    let other_page : maps n d' ≡ 1 = ap (λ k. maps k d') e ∙ counts_itself d' ub.1 in
    omega (arith, own.alone n (omega (arith, one, ww.0)), own_page, other_page, ua.0, ub.0)

-- On every machine that new spaces, pages given to them, copies and write faults lead to from one without
-- programs, a page that a space lets be written at some address is not the page of any address of
-- another space. A copy asks that the counts keep track of the pages and have room for another holder of
-- each, and the pages that are given have addresses of 48 bits.
pub isolated :
    (m : Machine) (i j va va' d d' : ℕ)
    → Reachable m
    → i ≢ j
    → i < length m.spaces
    → walk_to_leaf va (space_at m i) ≡ some (d, 4096)
    → walk_to_leaf va' (space_at m j) ≡ some (d', 4096)
    → is_ro d ≡ false
    → frame d ≢ frame d'
isolated m i j va va' d d' reached ne inside wa wb r =
    let a = space_at m i in
    let b = space_at m j in
    let split = λ (f : ℕ → ℕ).
      (total_split (weight f) m.spaces i no_space no_space (weight-no_space f) inside).0 in
    let other : get_or (set m.spaces i no_space) j no_space ≡ b =
      ground (arith, get_or-set m.spaces i j no_space no_space, ne) in
    let among = λ (f : ℕ → ℕ).
      total-get_or (weight f) (set m.spaces i no_space) j no_space (weight-no_space f) in
    Owned-apart m.frames a b (λ n. 0) (λ n. 0) va va' d d'
      (Owned-fewer m.frames _ _ _ _
        (λ n. omega (arith, split (maps n), among (maps n), ap (weight (maps n)) other))
        (λ n. omega (arith, split (may_write n))) (Reachable-Sound m reached))
      wa wb r

-- A page that the counts do not keep track of is shared for writing after a copy: the copy raises no
-- count, and a write fault of either side then makes the same page writable again.
pub resolve_untracked :
    (d : ℕ) (fr : Frames)
    → is_page d ≡ true
    → is_el0 (make_ro d) ≡ true
    → is_tracked (frame d) fr ≡ false
    → (page_ref (frame d) fr ≡ fr) × (resolve (make_ro d) fr ≡ (some (make_rw (make_ro d)), fr))
unfolding page_ref resolve page_count
resolve_untracked d fr y u t =
    let m = make_ro-frame 0 d in (rw t refl, rw (m.0 ∙ y, u, m.2, m.1, t) refl)
