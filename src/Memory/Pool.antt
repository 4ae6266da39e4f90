-- ===== src/Memory/Pool.antt =====
-- What the allocator of pkg/stam/mmu.c does to the pages that are free and to the counts of holders.
use verkos.Prelude.{
  ℕ, ◌+◌, ◌≤◌, ◌<◌, ◌≡◌, refl, ap, ◌∙◌, inl, inr, true, some, List, [], ◌∷◌, arith, ltb, leb, ◌==◌,
  if◌then◌else◌, Bool-cases,
}
use verkos.Memory.Frames.{
  Frames, take_page, alloc_page, is_tracked, page_ref, page_unref, page_count,
}
use verkos.Memory.Weight.{total}

-- How often the page is on offer: in the list, or still ahead of the allocator.
unfoldable pub avail : ℕ → Frames → ℕ
avail n fr =
    total (λ k. if k == n then 1 else 0) fr.free_list + (if leb fr.free_next n then 1 else 0)

-- A step that at most takes pages away for good, and touches no page that is not on offer.
pub record Kept (n : ℕ) (fr fr' : Frames) : Type 0 where
  pub fewer : avail n fr' ≤ avail n fr
  pub holders : page_count n fr' ≡ page_count n fr
  pub tracked : is_tracked n fr' ≡ is_tracked n fr
  pub content : avail n fr ≡ 0 → (b : ℕ) → fr'.contents n b ≡ fr.contents n b

pub Kept-refl : (n : ℕ) (fr : Frames) → Kept n fr fr
Kept-refl n fr = record {
  fewer = omega arith;
  holders = refl;
  tracked = refl;
  content = λ e b. refl;
}

pub Kept-trans : (n : ℕ) (a b c : Frames) → Kept n a b → Kept n b c → Kept n a c
Kept-trans n a b c h k = record {
  fewer = omega (arith, h.fewer, k.fewer);
  holders = k.holders ∙ h.holders;
  tracked = k.tracked ∙ h.tracked;
  content = λ e i. k.content (omega (arith, h.fewer, e)) i ∙ h.content e i;
}

take_page-Kept :
    (n : ℕ) (xs : List ℕ) (fr : Frames)
    → fr.free_list ≡ xs
    → Kept n fr (take_page xs fr).1
      × ((p : ℕ) → (take_page xs fr).0 ≡ some p → avail p (take_page xs fr).1 + 1 ≡ avail p fr)
unfolding take_page avail total page_count is_tracked
take_page-Kept n [] fr e = elim (Bool-cases (ltb fr.free_top (fr.free_next + 1))) [
  | inl y ↦ rw y (Kept-refl n fr, λ p q. absurd (ground (arith, q)))
  | inr m ↦ rw m (
    record {
      fewer = ground arith;
      holders = refl;
      tracked = refl;
      content = λ z b. ground (arith, z);
    },
    λ p q. ground (arith, q),
  )
]
take_page-Kept n (k ∷ rest) fr e = (
  record {
    fewer = ground (arith, listed n);
    holders = refl;
    tracked = refl;
    content = λ z b. ground (arith, z, listed n);
  },
  λ p q. ground (arith, q, listed p),
)
  where
    listed :
        (p : ℕ)
        → total (λ j. if j == p then 1 else 0) fr.free_list
          ≡ total (λ j. if j == p then 1 else 0) (k ∷ rest)
    listed p = ap (total (λ j. if j == p then 1 else 0)) e

pub alloc_page-Kept : (n : ℕ) (fr : Frames) → Kept n fr (alloc_page fr).1
unfolding alloc_page
alloc_page-Kept n fr = (take_page-Kept n fr.free_list fr refl).0

-- The page that is handed out is on offer once less.
pub alloc_page-taken :
    (p : ℕ) (fr : Frames) → (alloc_page fr).0 ≡ some p → avail p (alloc_page fr).1 + 1 ≡ avail p fr
unfolding alloc_page
alloc_page-taken p fr e = (take_page-Kept p fr.free_list fr refl).1 p e

-- A holder more.
pub page_ref_count :
    (n m : ℕ) (fr : Frames)
    → (avail n (page_ref m fr) ≡ avail n fr)
      × (is_tracked n (page_ref m fr) ≡ is_tracked n fr)
      × ((page_ref m fr).contents ≡ fr.contents)
      × (page_count n fr ≤ page_count n (page_ref m fr))
      × (page_count n (page_ref m fr) ≤ page_count n fr + (if m == n then 1 else 0))
      × (is_tracked n fr ≡ true
          → page_count n fr < 256
          → page_count n fr + (if m == n then 1 else 0) ≤ page_count n (page_ref m fr))
unfolding page_ref page_count is_tracked avail
page_ref_count n m fr = ground arith

-- A holder less, of that page alone.
pub page_unref_count :
    (n m : ℕ) (fr : Frames)
    → (avail n (page_unref m fr).1 ≡ avail n fr)
      × ((page_unref m fr).1.contents ≡ fr.contents)
      × (page_count n fr ≤ page_count n (page_unref m fr).1 + (if m == n then 1 else 0))
      × (page_count n (page_unref m fr).1 ≤ page_count n fr)
unfolding page_unref page_count is_tracked avail
page_unref_count n m fr = ground arith
