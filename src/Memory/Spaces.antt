-- ===== src/Memory/Spaces.antt =====
-- Address spaces of pkg/stam/vm.c: the fault of a write to a shared page, the copy of a space, what
-- may be touched for a program, and the end of a space.
use verkos.Prelude.{
  ℕ, zero, suc, ◌+◌, ◌*◌, ◌/◌, ◌^◌, Bool, true, false, not, ◌&&◌, ◌||◌, Option, none, some, List,
  [], ◌∷◌, ltb, leb, ◌==◌, if◌then◌else◌, replicate,
}
use verkos.Memory.Frames.{Frames, alloc_page, free_page, page_ref, page_unref, page_count}
use verkos.Memory.Tables.{
  Table, new_table, Entry, word, table, L1, L2, L3, is_block, is_page, is_el0, is_ro, frame,
  make_ro, make_rw, with_frame, index_1, index_2, index_3, put_slot, entry_1, entry_2, entry_3,
  map_user_page_raw,
}

-- A fresh low half, empty.
unfoldable pub vm_new_space : Frames → Option L1 × Frames
vm_new_space fr = new_table (replicate 512 (word 0)) (alloc_page fr)

-- A page of its own with the contents of the one that `d` names, which has a holder less.
unfoldable pub fresh_copy : ℕ → Option ℕ × Frames → Option ℕ × Frames
fresh_copy d (none, fr) = (none, fr)
fresh_copy d (some n, fr) =
    let c : ℕ → ℕ → ℕ = λ p. if p == n then fr.contents (frame d) else fr.contents p in
    (some (with_frame n (make_rw d)), (page_unref (frame d) (record fr { contents = c })).1)

-- What becomes of the descriptor of the page that is written to: `none` where the program did
-- something it may not do, or memory is short.
unfoldable pub resolve : ℕ → Frames → Option ℕ × Frames
resolve d fr =
    if not (is_page d && (is_el0 d && is_ro d))
    then (none, fr)
    else if ltb 1 (page_count (frame d) fr)
    then fresh_copy d (alloc_page fr)
    else (some (make_rw d), fr)

abbrev pub put_3 : ℕ → ℕ → L3 → L3
put_3 va d l3 = put_slot l3 (index_3 va) d

abbrev pub put_2 : ℕ → L3 → L2 → L2
put_2 va l3 l2 = put_slot l2 (index_2 va) (table l3)

abbrev pub put_1 : ℕ → L2 → L1 → L1
put_1 va l2 l1 = put_slot l1 (index_1 va) (table l2)

-- The table of the third level over an address, and the one of the second.
abbrev pub second : Entry (Entry ℕ) → Option L2
second (word d) = none
second (table t) = some t

abbrev pub third : Entry ℕ → Option L3
third (word d) = none
third (table t) = some t

unfoldable pub fault_in : ℕ → L1 → L2 → L3 → Option ℕ × Frames → Bool × L1 × Frames
fault_in va l1 l2 l3 (none, fr) = (false, l1, fr)
fault_in va l1 l2 l3 (some d, fr) = (true, put_1 va (put_2 va (put_3 va d l3) l2) l1, fr)

-- A write fault at `va`: whether it was handled.
unfoldable pub vm_cow_fault : ℕ → L1 → Frames → Bool × L1 × Frames
vm_cow_fault va l1 fr = elim (second (entry_1 l1 va)) [
  | none ↦ (false, l1, fr)
  | some l2 ↦ elim (third (entry_2 l2 va)) [
    | none ↦ (false, l1, fr)
    | some l3 ↦ fault_in va l1 l2 l3 (resolve (entry_3 l3 va) fr)
  ]
]

-- The leaf over an address and the size of what it maps.
abbrev pub leaf_3 : ℕ → Option (ℕ × ℕ)
leaf_3 d = if is_page d then some (d, 4096) else none

abbrev pub leaf_2 : Entry ℕ → ℕ → Option (ℕ × ℕ)
leaf_2 (word d) va = if is_block d then some (d, 2 ^ 21) else none
leaf_2 (table t) va = leaf_3 (entry_3 t va)

abbrev pub leaf_1 : Entry (Entry ℕ) → ℕ → Option (ℕ × ℕ)
leaf_1 (word d) va = if is_block d then some (d, 2 ^ 30) else none
leaf_1 (table t) va = leaf_2 (entry_2 t va) va

unfoldable pub walk_to_leaf : ℕ → L1 → Option (ℕ × ℕ)
walk_to_leaf va l1 = leaf_1 (entry_1 l1 va) va

abbrev pub user_limit : ℕ
user_limit = 2 ^ 39

-- The leaf, once it may be written, for a call that writes.
unfoldable pub made_writable : ℕ → Bool → ℕ → L1 → Frames → Bool × L1 × Frames
made_writable p write d l1 fr =
    let (ok, l1', fr') = vm_cow_fault p l1 fr in
    if not (write && is_ro d)
    then (true, l1, fr)
    else if not ok
    then (false, l1', fr')
    else (elim (walk_to_leaf p l1') [ none ↦ false | some (d', size) ↦ not (is_ro d') ], l1', fr')

-- The loop from `p` to `end`, a page at least each round; out of fuel it is as if refused.
unfoldable pub range_ok : ℕ → ℕ → ℕ → Bool → L1 → Frames → Bool × L1 × Frames
range_ok zero p end write l1 fr = (leb end p, l1, fr)
range_ok (suc fuel) p end write l1 fr =
    if leb end p then (true, l1, fr) else elim (walk_to_leaf p l1) [
      | none ↦ (false, l1, fr)
      | some (d, size) ↦
          let (ok, l1', fr') = made_writable p write d l1 fr in
          let rest = range_ok fuel (p / size * size + size) end write l1' fr' in
          if not (is_el0 d) then (false, l1, fr) else if not ok then (false, l1', fr') else rest
    ]

unfoldable pub vm_user_ok : ℕ → ℕ → Bool → L1 → Frames → Bool × L1 × Frames
vm_user_ok va len write l1 fr =
    if len == 0
    then (true, l1, fr)
    else if leb (2 ^ 64) (va + len)
    then (false, l1, fr)
    else if leb user_limit va || ltb user_limit (va + len)
    then (false, l1, fr)
    else range_ok (len / 4096 + 2) (va / 4096 * 4096) (va + len) write l1 fr

-- A space being copied: the new one, and the pages.
pub record Copying : Type 0 where
  pub dst : L1
  pub fr : Frames

-- What a step of a loop makes of an entry: whether to go on, the entry, and the rest.
abbrev pub Step : Type 0 → Type 0
Step A = ℕ → A → Copying → Bool × A × Copying

-- for (i = 0; i < 512; i++), where an entry spans `size` bytes
unfoldable pub copy_slots :
    {A : Type 0} → Step A → ℕ → ℕ → List A → Copying → Bool × List A × Copying
copy_slots step size va [] st = (true, [], st)
copy_slots step size va (x ∷ xs) st =
    let (ok, x', st1) = step va x st in
    let (all, xs', st2) = copy_slots step size (va + size) xs st1 in
    if ok then (all, x' ∷ xs', st2) else (false, x' ∷ xs, st1)

-- An entry that is no table is passed over.
unfoldable pub copy_entry : {A : Type 0} → Step A → ℕ → Step (Entry A)
copy_entry step size va (word d) st = (true, word d, st)
copy_entry step size va (table t) st =
    let (ok, xs, st') = copy_slots step size va t.slots st in
    (ok, table (record t { slots = xs }), st')

-- cow_share and map_user_page_raw, for a page; the write permission of both goes.
unfoldable pub copy_page : Step ℕ
copy_page va d st =
    let (ok, dst', fr') = map_user_page_raw va (make_ro d) st.dst (page_ref (frame d) st.fr) in
    if is_page d then (ok, make_ro d, record { dst = dst'; fr = fr' }) else (true, d, st)

unfoldable pub copy_2 : Step (Entry ℕ)
copy_2 = copy_entry copy_page 4096

unfoldable pub copy_1 : Step (Entry (Entry ℕ))
copy_1 = copy_entry copy_2 (2 ^ 21)

-- The new space, or none; the old one as it is left; the pages. What has been made of the new space
-- when a page is missing is not given back.
abbrev pub copy_end : L1 → Bool × List (Entry (Entry ℕ)) × Copying → Option L1 × L1 × Frames
copy_end src (ok, xs, st) = (if ok then some st.dst else none, record src { slots = xs }, st.fr)

abbrev pub copy_into : L1 → Option L1 × Frames → Option L1 × L1 × Frames
copy_into src (none, fr) = (none, src, fr)
copy_into src (some dst, fr) =
    copy_end src (copy_slots copy_1 (2 ^ 30) 0 src.slots (record { dst = dst; fr = fr }))

unfoldable pub vm_copy_space : L1 → Frames → Option L1 × L1 × Frames
vm_copy_space src fr = copy_into src (vm_new_space fr)

-- One entry less: a page goes back when nobody else holds it.
unfoldable pub free_leaf : ℕ → Frames → Frames
free_leaf d fr =
    let (left, fr') = page_unref (frame d) fr in
    if not (is_page d) then fr else if left == 0 then free_page (frame d) fr' else fr'

unfoldable pub free_slots : {A : Type 0} → (A → Frames → Frames) → List A → Frames → Frames
free_slots f [] fr = fr
free_slots f (x ∷ xs) fr = free_slots f xs (f x fr)

unfoldable pub free_table : {A : Type 0} → (A → Frames → Frames) → Table A → Frames → Frames
free_table f t fr = free_page t.at (free_slots f t.slots fr)

unfoldable pub free_entry : {A : Type 0} → (A → Frames → Frames) → Entry A → Frames → Frames
free_entry f (word d) fr = fr
free_entry f (table t) fr = free_table f t fr

unfoldable pub vm_free_space : L1 → Frames → Frames
vm_free_space l1 fr = free_table (free_entry (free_entry free_leaf)) l1 fr
