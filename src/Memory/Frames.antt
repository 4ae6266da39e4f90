-- ===== src/Memory/Frames.antt =====
-- The page allocator of pkg/stam/mmu.c. A page is named by its number, its physical address over
-- PAGE_SIZE; kva_to_phys and phys_to_kva, which are inverse, are left out with the window they go
-- through. The list of the pages given back is a list here, and the word that tells whether a page
-- was written after it was freed is left out.
use verkos.Prelude.{
  ℕ, ◌+◌, ◌-◌, ◌/◌, Bool, true, not, ◌&&◌, Option, none, some, List, [], ◌∷◌, ltb, leb, ◌==◌,
  if◌then◌else◌,
}

pub record Frames : Type 0 where
  pub free_list : List ℕ
  pub free_next : ℕ
  pub free_top : ℕ
  pub pmm_start : ℕ
  pub pages_taken : ℕ
  pub pages_returned : ℕ
  pub has_refs : Bool
  pub refs : ℕ → ℕ
  pub refs_base : ℕ
  pub refs_pages : ℕ
  pub contents : ℕ → ℕ → ℕ

-- Where the allocator starts, in bytes: behind the image and the device tree, if they are inside.
unfoldable pub first_free : ℕ → ℕ → ℕ → ℕ → ℕ → ℕ
first_free kernel_end ram_base ram_size avoid avoid_size =
    let start =
      if ltb ram_base kernel_end && ltb kernel_end (ram_base + ram_size)
      then kernel_end
      else ram_base in
    if not (avoid_size == 0) && (ltb start (avoid + avoid_size) && ltb avoid (ram_base + ram_size))
    then avoid + avoid_size
    else start

unfoldable pub pmm_init : ℕ → ℕ → ℕ → ℕ → ℕ → Frames → Frames
pmm_init kernel_end ram_base ram_size avoid avoid_size fr =
    let start = (first_free kernel_end ram_base ram_size avoid avoid_size + 4095) / 4096 in
    record fr { free_next = start; free_top = (ram_base + ram_size) / 4096; pmm_start = start }

-- `count` pages from `n` on, set to zero
abbrev pub zeroed : ℕ → ℕ → (ℕ → ℕ → ℕ) → ℕ → ℕ → ℕ
zeroed n count c page byte = if leb n page && ltb page (n + count) then 0 else c page byte

unfoldable pub free_page : ℕ → Frames → Frames
free_page n fr = record fr { free_list = n ∷ fr.free_list; pages_returned = fr.pages_returned + 1 }

-- A page from the list, or else the next one.
unfoldable pub take_page : List ℕ → Frames → Option ℕ × Frames
take_page (n ∷ rest) fr = (
  some n,
  record fr {
    free_list = rest;
    pages_returned = fr.pages_returned - 1;
    contents = zeroed n 1 fr.contents;
  },
)
take_page [] fr = if ltb fr.free_top (fr.free_next + 1) then (none, fr) else (
  some fr.free_next,
  record fr {
    free_next = fr.free_next + 1;
    pages_taken = fr.pages_taken + 1;
    contents = zeroed fr.free_next 1 fr.contents;
  },
)

unfoldable pub alloc_page : Frames → Option ℕ × Frames
alloc_page fr = take_page fr.free_list fr

unfoldable pub alloc_pages : ℕ → Frames → Option ℕ × Frames
alloc_pages count fr =
    if count == 0
    then (none, fr)
    else if ltb fr.free_top (fr.free_next + count)
    then (none, fr)
    else (
      some fr.free_next,
      record fr {
        free_next = fr.free_next + count;
        pages_taken = fr.pages_taken + count;
        contents = zeroed fr.free_next count fr.contents;
      },
    )

-- The table of counts: a byte for every page from where the allocator began.
unfoldable pub pmm_init_refs : Frames → Frames
pmm_init_refs fr =
    let pages = fr.free_top - fr.pmm_start in
    let (table, fr') = alloc_pages ((pages + 4095) / 4096) fr in
    if fr.has_refs then fr else elim table [
      | none ↦ record fr' { refs_base = fr.pmm_start; refs_pages = 0 }
      | some at ↦ record fr' {
        has_refs = true;
        refs = λ i. 0;
        refs_base = fr.pmm_start;
        refs_pages = pages;
      }
    ]

unfoldable pub is_tracked : ℕ → Frames → Bool
is_tracked n fr = fr.has_refs && (leb fr.refs_base n && ltb (n - fr.refs_base) fr.refs_pages)

abbrev pub set_ref : ℕ → ℕ → Frames → Frames
set_ref i k fr = record fr { refs = λ j. if j == i then k else fr.refs j }

unfoldable pub page_ref : ℕ → Frames → Frames
page_ref n fr =
    let i = n - fr.refs_base in
    if is_tracked n fr && ltb (fr.refs i) 255 then set_ref i (fr.refs i + 1) fr else fr

-- The holders that are left, and the counts.
unfoldable pub page_unref : ℕ → Frames → ℕ × Frames
page_unref n fr =
    let i = n - fr.refs_base in
    if is_tracked n fr && ltb 0 (fr.refs i)
    then (fr.refs i, set_ref i (fr.refs i - 1) fr)
    else (0, fr)

unfoldable pub page_count : ℕ → Frames → ℕ
page_count n fr = if is_tracked n fr then fr.refs (n - fr.refs_base) + 1 else 1
