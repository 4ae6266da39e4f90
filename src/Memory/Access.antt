-- ===== src/Memory/Access.antt =====
-- What vm_user_ok of pkg/stam/vm.c answers for: every byte of a range that it lets pass.
use verkos.Prelude.{
  ℕ, zero, suc, ◌+◌, ◌*◌, ◌/◌, ◌%◌, ◌^◌, ◌≤◌, ◌<◌, ◌≡◌, refl, sym, ap, ◌∙◌, subst, ◌↔◌, ◌⊎◌, inl,
  inr, Bool, true, false, not, ◌||◌, Option, none, some, arith, ltb, leb, ◌==◌, if◌then◌else◌,
  Bool-cases, get_or,
}
use native.Mathlib.Nat.{div-eq_of_lt-le, div-mul-le_self}
use verkos.Memory.Frames.{Frames}
use verkos.Memory.Tables.{Entry, word, table, L1, L2, is_el0, entry_1, entry_2, entry_3}
use verkos.Memory.Spaces.{
  leaf_1, leaf_2, leaf_3, walk_to_leaf, user_limit, made_writable, range_ok, vm_user_ok,
}

-- A leaf that the program may touch.
abbrev pub may_touch : Option (ℕ × ℕ) → Bool
may_touch none = false
may_touch (some (d, size)) = is_el0 d

same_leaf_3 : (x p a d size : ℕ) → leaf_3 x ≡ some (d, size) → size ≡ 4096
same_leaf_3 x p a d size e = ground (arith, e)

-- An address in the same leaf finds the same leaf.
same_leaf_2 :
    (t : L2) (p a d size : ℕ)
    → leaf_2 (entry_2 t p) p ≡ some (d, size)
    → a / size ≡ p / size
    → (leaf_2 (entry_2 t a) a ≡ some (d, size)) × (a / 2 ^ 30 ≡ p / 2 ^ 30) × (0 < size)
same_leaf_2 t p a d size e h = go (entry_2 t p) refl e
  where
    go :
        (x : Entry ℕ)
        → entry_2 t p ≡ x
        → leaf_2 x p ≡ some (d, size)
        → (leaf_2 (entry_2 t a) a ≡ some (d, size)) × (a / 2 ^ 30 ≡ p / 2 ^ 30) × (0 < size)
    go (word w) q f =
        let s : size ≡ 2 ^ 21 = ground (arith, f) in
        let near : a / 2 ^ 21 ≡ p / 2 ^ 21 = ap (λ k. a / k) (sym s) ∙ h ∙ ap (λ k. p / k) s in
        let at : entry_2 t a ≡ word w = ap (λ k. get_or t.slots (k % 512) (word 0)) near ∙ q in
        (ap (λ k. leaf_2 k a) at ∙ f, omega (arith, near), omega (arith, s))
    go (table l3) q f =
        let s = same_leaf_3 (entry_3 l3 p) p a d size f in
        let near : a / 4096 ≡ p / 4096 = ap (λ k. a / k) (sym s) ∙ h ∙ ap (λ k. p / k) s in
        let mid : a / 2 ^ 21 ≡ p / 2 ^ 21 = omega (arith, near) in
        let at : entry_2 t a ≡ table l3 = ap (λ k. get_or t.slots (k % 512) (word 0)) mid ∙ q in
        (
          ap (λ k. leaf_2 k a) at ∙ ap (λ k. leaf_3 (get_or l3.slots (k % 512) 0)) near ∙ f,
          omega (arith, near),
          omega (arith, s),
        )

same_leaf :
    (l1 : L1) (p a d size : ℕ)
    → walk_to_leaf p l1 ≡ some (d, size)
    → a / size ≡ p / size
    → (walk_to_leaf a l1 ≡ some (d, size)) × (0 < size)
unfolding walk_to_leaf
same_leaf l1 p a d size e h = go (entry_1 l1 p) refl e
  where
    go :
        (x : Entry (Entry ℕ))
        → entry_1 l1 p ≡ x
        → leaf_1 x p ≡ some (d, size)
        → (leaf_1 (entry_1 l1 a) a ≡ some (d, size)) × (0 < size)
    go (word w) q f =
        let s : size ≡ 2 ^ 30 = ground (arith, f) in
        let near : a / 2 ^ 30 ≡ p / 2 ^ 30 = ap (λ k. a / k) (sym s) ∙ h ∙ ap (λ k. p / k) s in
        let at : entry_1 l1 a ≡ word w = ap (λ k. get_or l1.slots (k % 512) (word 0)) near ∙ q in
        (ap (λ k. leaf_1 k a) at ∙ f, omega (arith, s))
    go (table l2) q f =
        let r = same_leaf_2 l2 p a d size f h in
        let at : entry_1 l1 a ≡ table l2 = ap (λ k. get_or l1.slots (k % 512) (word 0)) r.1 ∙ q in
        (ap (λ k. leaf_1 k a) at ∙ r.0, r.2)

made_writable_read :
    (p d : ℕ) (l1 : L1) (fr : Frames) → made_writable p false d l1 fr ≡ (true, l1, fr)
unfolding made_writable
made_writable_read p d l1 fr = refl

same_block : (p a size : ℕ) → 0 < size → p ≤ a → a < p / size * size + size → a / size ≡ p / size
same_block p a size h low high =
    div-eq_of_lt-le {k = p / size} size {m = a} (omega (arith, div-mul-le_self p size, low))
      (omega (arith, high))

range_ok_lem :
    (fuel p end : ℕ) (l1 : L1) (fr : Frames) (a : ℕ)
    → (range_ok fuel p end false l1 fr).0 ≡ true
    → p ≤ a
    → a < end
    → may_touch (walk_to_leaf a l1) ≡ true
unfolding range_ok
range_ok_lem zero p end l1 fr a e low high = absurd (ground (arith, e, low, high))
range_ok_lem (suc fuel) p end l1 fr a e low high =
    go (walk_to_leaf p l1) refl (λ q. range_ok_lem fuel q end l1 fr a) e
  where
    not_done : leb end p ≡ false
    not_done = ground (arith, low, high)

    rest : Option (ℕ × ℕ) → Bool × L1 × Frames
    rest o = elim o [
      | none ↦ (false, l1, fr)
      | some (d, size) ↦
          let (ok, l1', fr') = made_writable p false d l1 fr in
          let rest = range_ok fuel (p / size * size + size) end false l1' fr' in
          if not (is_el0 d) then (false, l1, fr) else if not ok then (false, l1', fr') else rest
    ]

    go :
        (o : Option (ℕ × ℕ))
        → walk_to_leaf p l1 ≡ o
        → ((q : ℕ)
            → (range_ok fuel q end false l1 fr).0 ≡ true
            → q ≤ a
            → a < end
            → may_touch (walk_to_leaf a l1) ≡ true)
        → (if leb end p then (true, l1, fr) else rest o).0 ≡ true
        → may_touch (walk_to_leaf a l1) ≡ true
    go none w ih f = absurd (ground (arith, not_done, f))
    go (some (d, size)) w ih f =
        let no_write = made_writable_read p d l1 fr in
        let f1 : (if not (is_el0 d)
              then (false, l1, fr)
              else range_ok fuel (p / size * size + size) end false l1 fr).0
            ≡ true =
          subst
            (λ m.
              (if not (is_el0 d)
                then (false, l1, fr)
                else if not m.0
                then (false, m.1, m.2)
                else range_ok fuel (p / size * size + size) end false m.1 m.2).0
              ≡ true)
            no_write
            (subst (λ b. (if b then (true, l1, fr) else rest (some (d, size))).0 ≡ true) not_done
              f) in
        elim (Bool-cases (is_el0 d)) [
          | inr n ↦ absurd (ground (arith, n, f1))
          | inl y ↦ elim (Bool-cases (ltb a (p / size * size + size))) [
            | inl l ↦
                let positive = (same_leaf l1 p p d size w refl).1 in
                let here =
                  (same_leaf l1 p a d size w
                    (same_block p a size positive low (ground (arith, l)))).0 in
                ap may_touch here ∙ y
            | inr l ↦
                ih (p / size * size + size)
                  (subst
                    (λ b.
                      (if not b
                        then (false, l1, fr)
                        else range_ok fuel (p / size * size + size) end false l1 fr).0
                      ≡ true)
                    y f1)
                  (ground (arith, l)) high
          ]
        ]

-- What a leaf can map.
IsLeafSize : ℕ → Type 0
IsLeafSize size = (size ≡ 4096) ⊎ (size ≡ 2 ^ 21) ⊎ (size ≡ 2 ^ 30)

leaf_2-IsLeafSize : (x : Entry ℕ) (p d size : ℕ) → leaf_2 x p ≡ some (d, size) → IsLeafSize size
unfolding IsLeafSize
leaf_2-IsLeafSize (word w) p d size e = inr (inl (ground (arith, e)))
leaf_2-IsLeafSize (table t) p d size e = inl (ground (arith, e))

leaf_1-IsLeafSize :
    (x : Entry (Entry ℕ)) (p d size : ℕ) → leaf_1 x p ≡ some (d, size) → IsLeafSize size
unfolding IsLeafSize
leaf_1-IsLeafSize (word w) p d size e = inr (inr (ground (arith, e)))
leaf_1-IsLeafSize (table t) p d size e = leaf_2-IsLeafSize (entry_2 t p) p d size e

walk_to_leaf-IsLeafSize :
    (l1 : L1) (p d size : ℕ) → walk_to_leaf p l1 ≡ some (d, size) → IsLeafSize size
unfolding walk_to_leaf
walk_to_leaf-IsLeafSize l1 p d size e = leaf_1-IsLeafSize (entry_1 l1 p) p d size e

-- A round gets a page further at least, and to the beginning of one.
further :
    (p size : ℕ)
    → IsLeafSize size
    → p % 4096 ≡ 0
    → (p + 4096 ≤ p / size * size + size) × ((p / size * size + size) % 4096 ≡ 0)
unfolding IsLeafSize
further p size (inl e) al = rw e (omega (arith, al), omega (arith, al))
further p size (inr (inl e)) al = rw e (omega (arith, al), omega arith)
further p size (inr (inr e)) al = rw e (omega (arith, al), omega arith)

range_ok_complete :
    (fuel p end : ℕ) (l1 : L1) (fr : Frames)
    → p % 4096 ≡ 0
    → end ≤ p + 4096 * fuel
    → ((a : ℕ) → p ≤ a → a < end → may_touch (walk_to_leaf a l1) ≡ true)
    → (range_ok fuel p end false l1 fr).0 ≡ true
unfolding range_ok
range_ok_complete zero p end l1 fr al enough every = ground (arith, enough)
range_ok_complete (suc fuel) p end l1 fr al enough every = elim (Bool-cases (leb end p)) [
  | inl y ↦ rw y refl
  | inr n ↦
      let going : p < end = ground (arith, n) in
      rw n (
        go (walk_to_leaf p l1) refl (every p (omega arith) going) (λ q b c.
          range_ok_complete fuel q end l1 fr b (omega (arith, c, enough))
            (λ a low high. every a (omega (arith, low, c)) high)))
]
  where
    go :
        (o : Option (ℕ × ℕ))
        → walk_to_leaf p l1 ≡ o
        → may_touch o ≡ true
        → ((q : ℕ) → q % 4096 ≡ 0 → p + 4096 ≤ q → (range_ok fuel q end false l1 fr).0 ≡ true)
        → (elim o as (λ x. Bool × L1 × Frames) [
          | none ↦ (false, l1, fr)
          | some (d, size) ↦
              let (ok, l1', fr') = made_writable p false d l1 fr in
              let rest = range_ok fuel (p / size * size + size) end false l1' fr' in
              if not (is_el0 d) then (false, l1, fr) else if not ok then (false, l1', fr') else rest
        ]).0
          ≡ true
    go none w t ih = absurd (ground (arith, t))
    go (some (d, size)) w t ih =
        let f = further p size (walk_to_leaf-IsLeafSize l1 p d size w) al in
        rw (t, made_writable_read p d l1 fr) (ih (p / size * size + size) f.1 f.0)

no_refusal :
    (va len : ℕ) (l1 : L1) (fr : Frames)
    → 0 < len
    → va + len ≤ user_limit
    → vm_user_ok va len false l1 fr
      ≡ range_ok (len / 4096 + 2) (va / 4096 * 4096) (va + len) false l1 fr
unfolding vm_user_ok
no_refusal va len l1 fr h below =
    let a : (len == 0) ≡ false = ground (arith, h) in
    let b : leb (2 ^ 64) (va + len) ≡ false = ground (arith, below) in
    let c : (leb user_limit va || ltb user_limit (va + len)) ≡ false = ground (arith, h, below) in
    rw (a, b, c) refl

-- Of a range that is not empty and ends below the limit, vm_user_ok lets be read exactly what the
-- program itself may touch: it answers yes where every byte from the beginning of the first page on lies
-- under a leaf that the program may touch, whatever the sizes of the leaves, and only there.
pub vm_user_ok_lem :
    (va len : ℕ) (l1 : L1) (fr : Frames)
    → 0 < len
    → va + len ≤ user_limit
    → ((vm_user_ok va len false l1 fr).0 ≡ true)
      ↔ ((a : ℕ) → va / 4096 * 4096 ≤ a → a < va + len → may_touch (walk_to_leaf a l1) ≡ true)
vm_user_ok_lem va len l1 fr h below =
    let loop = no_refusal va len l1 fr h below in
    (
      λ e a low high.
          range_ok_lem (len / 4096 + 2) (va / 4096 * 4096) (va + len) l1 fr a
            (ap (λ r. r.0) (sym loop) ∙ e) low high,
      λ every.
          ap (λ r. r.0) loop
          ∙ range_ok_complete (len / 4096 + 2) (va / 4096 * 4096) (va + len) l1 fr (omega arith)
              (omega arith) every,
    )
