-- ===== src/Memory/Tables.antt =====
-- The page tables of pkg/stam/vm.c. A table is the page it is in and its 512 entries; an entry of the
-- two upper levels that leads to a table carries it, as no table is reached from two entries. Every
-- other entry is the word itself.
use verkos.Prelude.{
  ℕ, zero, suc, ◌+◌, ◌-◌, ◌*◌, ◌/◌, ◌%◌, ◌^◌, Bool, true, false, Option, none, some, List, [], ◌∷◌,
  map, ◌==◌, if◌then◌else◌, get_or, set, replicate,
}
use verkos.Memory.Frames.{Frames, alloc_page}

pub record Table (A : Type 0) : Type 0 where
  pub at : ℕ
  pub slots : List A

pub data Entry (A : Type 0) : Type 0 where
  word : ℕ → Entry A
  table : Table A → Entry A

-- The three levels.
abbrev pub L3 : Type 0
L3 = Table ℕ

abbrev pub L2 : Type 0
L2 = Table (Entry ℕ)

abbrev pub L1 : Type 0
L1 = Table (Entry (Entry ℕ))

-- D_VALID, D_PAGE, D_AP_EL0, D_AP_RO and ADDR_MASK, read from a word
abbrev pub is_valid : ℕ → Bool
is_valid d = d % 2 == 1

abbrev pub is_block : ℕ → Bool
is_block d = d % 4 == 1

abbrev pub is_page : ℕ → Bool
is_page d = d % 4 == 3

abbrev pub is_el0 : ℕ → Bool
is_el0 d = d / 64 % 2 == 1

abbrev pub is_ro : ℕ → Bool
is_ro d = d / 128 % 2 == 1

-- The page that a descriptor names.
abbrev pub frame : ℕ → ℕ
frame d = d / 4096 % 2 ^ 36

-- d | D_AP_RO, d & ~D_AP_RO
abbrev pub make_ro : ℕ → ℕ
make_ro d = if is_ro d then d else d + 128

abbrev pub make_rw : ℕ → ℕ
make_rw d = if is_ro d then d - 128 else d

-- (page & ADDR_MASK) | (d & ~ADDR_MASK)
abbrev pub with_frame : ℕ → ℕ → ℕ
with_frame n d = d / 2 ^ 48 * 2 ^ 48 + n % 2 ^ 36 * 4096 + d % 4096

-- base + i * child_size, with the attributes of the block; the fields do not overlap.
abbrev pub split_word : ℕ → ℕ → ℕ → ℕ
split_word child old i =
    old / (child * 512) * (child * 512) % 2 ^ 48
    + i * child
    + old / 2 ^ 48 * 2 ^ 48
    + old % 4096 / 4 * 4
    + (if child == 4096 then 3 else 1)

unfoldable pub split_from : ℕ → ℕ → ℕ → ℕ → List ℕ
split_from child old zero i = []
split_from child old (suc count) i = split_word child old i ∷ split_from child old count (i + 1)

-- The entries of the table that takes the place of a word.
unfoldable pub split_words : ℕ → ℕ → List ℕ
split_words child old = if is_valid old then split_from child old 512 0 else replicate 512 0

-- The table in the page that was taken, with the entries `xs`.
abbrev pub new_table : {A : Type 0} → List A → Option ℕ × Frames → Option (Table A) × Frames
new_table xs (none, fr) = (none, fr)
new_table xs (some n, fr) = (some (record { at = n; slots = xs }), fr)

-- `split` and `descend`: the table of an entry, made when there is none. `made` are the entries.
unfoldable pub descend : {A : Type 0} → (ℕ → List A) → Entry A → Frames → Option (Table A) × Frames
descend made (table t) fr = (some t, fr)
descend made (word d) fr = new_table (made d) (alloc_page fr)

abbrev pub words_3 : ℕ → List ℕ
words_3 d = split_words 4096 d

abbrev pub words_2 : ℕ → List (Entry ℕ)
words_2 d = map word (split_words (2 ^ 21) d)

-- The index of an address in the tables of each level.
abbrev pub index_1 : ℕ → ℕ
index_1 va = va / 2 ^ 30 % 512

abbrev pub index_2 : ℕ → ℕ
index_2 va = va / 2 ^ 21 % 512

abbrev pub index_3 : ℕ → ℕ
index_3 va = va / 4096 % 512

abbrev pub put_slot : {A : Type 0} → Table A → ℕ → A → Table A
put_slot t i x = record t { slots = set t.slots i x }

abbrev pub entry_1 : L1 → ℕ → Entry (Entry ℕ)
entry_1 l1 va = get_or l1.slots (index_1 va) (word 0)

abbrev pub entry_2 : L2 → ℕ → Entry ℕ
entry_2 l2 va = get_or l2.slots (index_2 va) (word 0)

abbrev pub entry_3 : L3 → ℕ → ℕ
entry_3 l3 va = get_or l3.slots (index_3 va) 0

-- From the second level down: 0 or -1, the table, the pages.
abbrev pub mapped_3 : ℕ → ℕ → L2 → Option L3 × Frames → Bool × L2 × Frames
mapped_3 va desc l2 (none, fr) = (false, l2, fr)
mapped_3 va desc l2 (some l3, fr) =
    (true, put_slot l2 (index_2 va) (table (put_slot l3 (index_3 va) desc)), fr)

unfoldable pub map_in : ℕ → ℕ → L2 → Frames → Bool × L2 × Frames
map_in va desc l2 fr = mapped_3 va desc l2 (descend words_3 (entry_2 l2 va) fr)

-- A table of the second level that was made stays when there is no page for the third.
abbrev pub mapped_2 : ℕ → ℕ → L1 → Option L2 × Frames → Bool × L1 × Frames
mapped_2 va desc l1 (none, fr) = (false, l1, fr)
mapped_2 va desc l1 (some l2, fr) =
    let (ok, l2', fr') = map_in va desc l2 fr in (ok, put_slot l1 (index_1 va) (table l2'), fr')

unfoldable pub map_user_page_raw : ℕ → ℕ → L1 → Frames → Bool × L1 × Frames
map_user_page_raw va desc l1 fr = mapped_2 va desc l1 (descend words_2 (entry_1 l1 va) fr)

-- D_PAGE | D_AF | D_SH_INNER | normal memory | D_AP_EL0 | D_PXN, and D_UXN
unfoldable pub user_word : ℕ → Bool → ℕ
user_word n executable =
    n % 2 ^ 36 * 4096 + 3 + 1024 + 768 + 4 + 64 + 2 ^ 53 + (if executable then 0 else 2 ^ 54)

unfoldable pub map_user_page : ℕ → ℕ → Bool → L1 → Frames → Bool × L1 × Frames
map_user_page va n executable l1 fr = map_user_page_raw va (user_word n executable) l1 fr
