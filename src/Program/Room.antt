-- ===== src/Program/Room.antt =====
-- The pages that elf_load of pkg/stam/elf.c takes from the allocator: they are clear, and there are enough
-- of them where three are free for each page of a segment.
use verkos.Prelude.{
  ℕ, zero, suc, ◌+◌, ◌-◌, ◌*◌, ◌≤◌, ◌≡◌, refl, Bool, true, false, Option, none, some, List, [], ◌∷◌,
  arith, ltb, length,
}
use verkos.Memory.Frames.{Frames, take_page, alloc_page}
use verkos.Memory.Tables.{
  Table, Entry, word, table, L1, L2, new_table, descend, words_2, words_3, entry_1, entry_2,
  mapped_2, mapped_3, map_in, L3, map_user_page_raw, map_user_page, user_word,
}
use verkos.Program.Loader.{Loading, map_page, map_pages}

-- The pages that are left.
abbrev pub pages_left : Frames → ℕ
pages_left fr = length fr.free_list + (fr.free_top - fr.free_next)

take_page_zero :
    (xs : List ℕ) (fr : Frames) (n b : ℕ)
    → (take_page xs fr).0 ≡ some n
    → (take_page xs fr).1.contents n b ≡ 0
unfolding take_page
take_page_zero [] fr n b e = ground (arith, e)
take_page_zero (x ∷ xs) fr n b e = ground (arith, e)

pub alloc_page_zero :
    (fr : Frames) (n b : ℕ) → (alloc_page fr).0 ≡ some n → (alloc_page fr).1.contents n b ≡ 0
unfolding alloc_page
alloc_page_zero fr n b e = take_page_zero fr.free_list fr n b e

take_page_room :
    (xs : List ℕ) (fr : Frames)
    → 1 ≤ length xs + (fr.free_top - fr.free_next)
    → ((n : ℕ) × (take_page xs fr).0 ≡ some n)
      × (length xs + (fr.free_top - fr.free_next) ≤ pages_left (take_page xs fr).1 + 1)
unfolding take_page
take_page_room [] fr h =
    let room : ltb fr.free_top (fr.free_next + 1) ≡ false = ground (arith, h) in
    rw room ((fr.free_next, refl), omega (arith, h))
take_page_room (x ∷ xs) fr h = ((x, refl), omega arith)

alloc_page_room :
    (fr : Frames)
    → 1 ≤ pages_left fr
    → ((n : ℕ) × (alloc_page fr).0 ≡ some n) × (pages_left fr ≤ pages_left (alloc_page fr).1 + 1)
unfolding alloc_page
alloc_page_room fr h = take_page_room fr.free_list fr h

module _ {A : Type 0} where
  new_table_room :
      (xs : List A) (k : ℕ) (r : Option ℕ × Frames)
      → ((n : ℕ) × r.0 ≡ some n)
      → k ≤ pages_left r.1 + 1
      → ((t : Table A) × (new_table xs r).0 ≡ some t) × (k ≤ pages_left (new_table xs r).1 + 1)
  new_table_room xs k (none, fr) e h = absurd (ground (arith, e.1))
  new_table_room xs k (some n, fr) e h = ((record { at = n; slots = xs }, refl), h)

  descend_room :
      (made : ℕ → List A) (e : Entry A) (fr : Frames)
      → 1 ≤ pages_left fr
      → ((t : Table A) × (descend made e fr).0 ≡ some t)
        × (pages_left fr ≤ pages_left (descend made e fr).1 + 1)
  unfolding descend
  descend_room made (table t) fr h = ((t, refl), omega arith)
  descend_room made (word d) fr h =
      let r = alloc_page_room fr h in
      new_table_room (made d) (pages_left fr) (alloc_page fr) r.0 r.1

mapped_3_room :
    (va desc k : ℕ) (l2 : L2) (r : Option L3 × Frames)
    → ((t : L3) × r.0 ≡ some t)
    → k ≤ pages_left r.1 + 1
    → ((mapped_3 va desc l2 r).0 ≡ true) × (k ≤ pages_left (mapped_3 va desc l2 r).2 + 1)
mapped_3_room va desc k l2 (none, fr) e h = absurd (ground (arith, e.1))
mapped_3_room va desc k l2 (some t, fr) e h = (refl, h)

map_in_room :
    (va desc : ℕ) (l2 : L2) (fr : Frames)
    → 1 ≤ pages_left fr
    → ((map_in va desc l2 fr).0 ≡ true) × (pages_left fr ≤ pages_left (map_in va desc l2 fr).2 + 1)
unfolding map_in
map_in_room va desc l2 fr h =
    let r = descend_room words_3 (entry_2 l2 va) fr h in
    mapped_3_room va desc (pages_left fr) l2 (descend words_3 (entry_2 l2 va) fr) r.0 r.1

mapped_2_room :
    (va desc k : ℕ) (l1 : L1) (r : Option L2 × Frames)
    → ((t : L2) × r.0 ≡ some t)
    → k ≤ pages_left r.1 + 1
    → 2 ≤ k
    → ((mapped_2 va desc l1 r).0 ≡ true) × (k ≤ pages_left (mapped_2 va desc l1 r).2 + 2)
mapped_2_room va desc k l1 (none, fr) e h two = absurd (ground (arith, e.1))
mapped_2_room va desc k l1 (some t, fr) e h two =
    let r = map_in_room va desc t fr (omega (arith, h, two)) in (r.0, omega (arith, r.1, h))

map_user_page_room :
    (va n : ℕ) (executable : Bool) (l1 : L1) (fr : Frames)
    → 2 ≤ pages_left fr
    → ((map_user_page va n executable l1 fr).0 ≡ true)
      × (pages_left fr ≤ pages_left (map_user_page va n executable l1 fr).2 + 2)
unfolding map_user_page map_user_page_raw
map_user_page_room va n executable l1 fr h =
    let r = descend_room words_2 (entry_1 l1 va) fr (omega (arith, h)) in
    mapped_2_room va (user_word n executable) (pages_left fr) l1
      (descend words_2 (entry_1 l1 va) fr) r.0 r.1 h

map_page_room :
    (va k : ℕ) (executable : Bool) (st : Loading) (r : Option ℕ × Frames)
    → ((n : ℕ) × r.0 ≡ some n)
    → k ≤ pages_left r.1 + 1
    → 3 ≤ k
    → ((map_page va executable st r).0 ≡ true)
      × (k ≤ pages_left (map_page va executable st r).1.frames + 3)
map_page_room va k executable st (none, fr) e h three = absurd (ground (arith, e.1))
map_page_room va k executable st (some n, fr) e h three =
    let r = map_user_page_room va n executable st.space fr (omega (arith, h, three)) in
    (r.0, omega (arith, r.1, h))

-- Each page needs three at most: itself and a table of each of the two lower levels.
pub map_pages_room :
    (count va : ℕ) (executable : Bool) (st : Loading)
    → 3 * count ≤ pages_left st.frames
    → (map_pages count va executable st).0 ≡ true
unfolding map_pages
map_pages_room zero va executable st h = refl
map_pages_room (suc count) va executable st h =
    let a = alloc_page_room st.frames (omega (arith, h)) in
    let r =
      map_page_room va (pages_left st.frames) executable st (alloc_page st.frames) a.0 a.1
        (omega (arith, h)) in
    rw r.0 (
      map_pages_room count (va + 4096) executable
        (map_page va executable st (alloc_page st.frames)).1 (omega (arith, r.1, h)))
