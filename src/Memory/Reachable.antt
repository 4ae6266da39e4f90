-- ===== src/Memory/Reachable.antt =====
-- All programs of the machine: what pkg/stam/vm.c does to their spaces from the start on, and that no
-- program ever sees a page that another may write.
use verkos.Prelude.{
  ℕ, ◌+◌, ◌^◌, ◌≤◌, ◌<◌, ◌≡◌, Bool, true, Option, none, some, List, [], ◌∷◌, length, get_or, set,
}
use verkos.Memory.Frames.{Frames, alloc_page, page_count, is_tracked}
use verkos.Memory.Tables.{L1, map_user_page}
use verkos.Memory.Spaces.{vm_new_space, vm_copy_space, vm_cow_fault}
use verkos.Memory.Weight.{weight, maps}

pub record Machine : Type 0 where
  pub spaces : List L1
  pub frames : Frames

abbrev pub no_space : L1
no_space = record { at = 0; slots = [] }

abbrev pub space_at : Machine → ℕ → L1
space_at m i = get_or m.spaces i no_space

-- What a program or its start makes the kernel do: a new space, a page of its own at an address of the
-- space `i`, a copy of the space, a write fault in it.
pub data Call : Type 0 where
  new_space : Call
  own_page : ℕ → ℕ → Bool → Call
  copy_space : ℕ → Call
  write_fault : ℕ → ℕ → Call

abbrev pub added : Option L1 → List L1 → List L1
added none ss = ss
added (some l1) ss = l1 ∷ ss

abbrev pub give : ℕ → ℕ → Bool → Machine → Option ℕ × Frames → Machine
give i va executable m (none, fr) = record m { frames = fr }
give i va executable m (some page, fr) =
    let (ok, l1, fr') = map_user_page va page executable (space_at m i) fr in
    record { spaces = set m.spaces i l1; frames = fr' }

unfoldable pub perform : Call → Machine → Machine
perform new_space m =
    let (l1, fr) = vm_new_space m.frames in record { spaces = added l1 m.spaces; frames = fr }
perform (own_page i va executable) m = give i va executable m (alloc_page m.frames)
perform (copy_space i) m =
    let (l1, src, fr) = vm_copy_space (space_at m i) m.frames in
    record { spaces = added l1 (set m.spaces i src); frames = fr }
perform (write_fault i va) m =
    let (ok, l1, fr) = vm_cow_fault va (space_at m i) m.frames in
    record { spaces = set m.spaces i l1; frames = fr }

-- The page that comes next has an address of 48 bits.
abbrev pub Addressed : Frames → Type 0
Addressed fr = (page : ℕ) → (alloc_page fr).0 ≡ some page → page < 2 ^ 36

-- When a call may be made: of a space that exists, and copied where the counts have room for another
-- holder of each of its pages, which they keep track of.
abbrev pub Allowed : Call → Machine → Type 0
Allowed new_space m = Unit
Allowed (own_page i va executable) m = i < length m.spaces × Addressed m.frames
Allowed (copy_space i) m =
    i < length m.spaces
    × ((n : ℕ)
        → 0 < weight (maps n) (space_at m i)
        → is_tracked n m.frames ≡ true
          × page_count n m.frames + weight (maps n) (space_at m i) ≤ 256)
Allowed (write_fault i va) m = i < length m.spaces × Addressed m.frames

-- The machines that are reached from one without programs, whose allocator has not been used.
pub data Reachable : Machine → Type 0 where
  start : (fr : Frames) → fr.free_list ≡ [] → Reachable (record { spaces = []; frames = fr })
  next : (c : Call) (m : Machine) → Allowed c m → Reachable m → Reachable (perform c m)
