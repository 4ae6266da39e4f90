-- ===== src/Memory/Tests.antt =====
-- pkg/stam/mmu.c and pkg/stam/vm.c on a machine of 110 pages, with spaces of a page each.
use verkos.Prelude.{
  ℕ, ◌+◌, ◌*◌, ◌/◌, ◌^◌, ◌≤◌, ◌<◌, ◌≡◌, refl, ◌≢◌, ◌↔◌, true, false, some, [], ◌∷◌, arith, length,
}
use verkos.Memory.Frames.{Frames, take_page, alloc_page, is_tracked, page_count}
use verkos.Memory.Tables.{
  table, L1, is_ro, frame, descend, map_in, user_word, map_user_page, map_user_page_raw,
  split_words, split_from,
}
use verkos.Memory.Spaces.{vm_new_space, vm_user_ok, vm_copy_space, vm_cow_fault, walk_to_leaf}
use verkos.Memory.Weight.{total, weight, weight_e1, weight_e2, maps, may_write}
use verkos.Memory.Pool.{avail}
use verkos.Memory.Owned.{Owned}
use verkos.Memory.Fork.{after_copy, vm_copy_space-Owned}
use verkos.Memory.Fault.{vm_cow_fault-Owned}
use verkos.Memory.Access.{may_touch, vm_user_ok_lem}
use verkos.Memory.Reachable.{
  Machine, space_at, new_space, own_page, perform, Reachable, start, next,
}
use verkos.Memory.Isolation.{isolated}

abbrev machine : Frames
machine = record {
  free_list = [];
  free_next = 100;
  free_top = 110;
  pmm_start = 0;
  pages_taken = 0;
  pages_returned = 0;
  has_refs = true;
  refs = λ i. 0;
  refs_base = 0;
  refs_pages = 110;
  contents = λ p i. 0;
}

-- A page that the program may write.
abbrev data_page : ℕ → ℕ
data_page n = n * 4096 + 64 + 3

-- A page that it may only read.
abbrev shared_page : ℕ → ℕ
shared_page n = n * 4096 + 128 + 64 + 3

abbrev one_page : ℕ → L1
one_page d = record {
  at = 1;
  slots = table (record { at = 2; slots = table (record { at = 3; slots = d ∷ [] }) ∷ [] }) ∷ [];
}

machine-Owned :
    Owned machine
      (λ n. weight (maps n) (one_page (data_page 5)) + 0)
      (λ n. weight (may_write n) (one_page (data_page 5)) + 0)
unfolding weight weight_e1 weight_e2 total maps may_write avail page_count is_tracked
machine-Owned = record {
  once = λ n. ground arith;
  unused = λ n h. ground (arith, h);
  held = λ n. ground arith;
  alone = λ n h. ground arith;
}

room :
    (n : ℕ)
    → 0 < weight (maps n) (one_page (data_page 5))
    → is_tracked n machine ≡ true
      × page_count n machine + weight (maps n) (one_page (data_page 5)) ≤ 256
unfolding weight weight_e1 weight_e2 total maps page_count is_tracked
room n h = ground (arith, h)

vm_copy_space-Owned_example :
    let r = vm_copy_space (one_page (data_page 5)) machine in
    Owned r.2 (after_copy maps (λ n. 0) r) (after_copy may_write (λ n. 0) r)
vm_copy_space-Owned_example =
    vm_copy_space-Owned (one_page (data_page 5)) machine (λ n. 0) (λ n. 0) (λ n. omega arith)
      machine-Owned room

next_small : (k : ℕ) → (alloc_page machine).0 ≡ some k → k < 2 ^ 36
unfolding alloc_page take_page
next_small k e = ground (arith, e)

shared-Owned :
    Owned machine
      (λ n. weight (maps n) (one_page (shared_page 5)) + 0)
      (λ n. weight (may_write n) (one_page (shared_page 5)) + 0)
unfolding weight weight_e1 weight_e2 total maps may_write avail page_count is_tracked
shared-Owned = record {
  once = λ n. ground arith;
  unused = λ n h. ground (arith, h);
  held = λ n. ground arith;
  alone = λ n h. ground arith;
}

vm_cow_fault-Owned_example :
    let r = vm_cow_fault 8 (one_page (shared_page 5)) machine in
    Owned r.2 (λ n. weight (maps n) r.1 + 0) (λ n. weight (may_write n) r.1 + 0)
vm_cow_fault-Owned_example =
    vm_cow_fault-Owned 8 (one_page (shared_page 5)) machine (λ n. 0) (λ n. 0) shared-Owned
      next_small

-- Two programs, each with a page of its own at the first addresses
abbrev two_programs : Machine
two_programs = perform (own_page 1 0 true) (
    perform (own_page 0 0 true)
      (perform new_space (perform new_space (record { spaces = []; frames = machine }))))

one_walk : walk_to_leaf 8 (space_at two_programs 0) ≡ some (user_word 102 true, 4096)
unfolding perform vm_new_space alloc_page take_page map_user_page map_user_page_raw map_in descend
    user_word split_words split_from walk_to_leaf
one_walk = refl

other_walk : walk_to_leaf 8 (space_at two_programs 1) ≡ some (user_word 105 true, 4096)
unfolding perform vm_new_space alloc_page take_page map_user_page map_user_page_raw map_in descend
    user_word split_words split_from walk_to_leaf
other_walk = refl

two_spaces : length two_programs.spaces ≡ 2
unfolding perform vm_new_space alloc_page take_page map_user_page map_user_page_raw map_in descend
    user_word split_words split_from
two_spaces = refl

abbrev both_made : Machine
both_made = perform new_space (perform new_space (record { spaces = []; frames = machine }))

abbrev first_given : Machine
first_given = perform (own_page 0 0 true) both_made

next_102 : (alloc_page both_made.frames).0 ≡ some 102
unfolding perform vm_new_space alloc_page take_page map_user_page map_user_page_raw map_in descend
    user_word split_words split_from
next_102 = refl

next_105 : (alloc_page first_given.frames).0 ≡ some 105
unfolding perform vm_new_space alloc_page take_page map_user_page map_user_page_raw map_in descend
    user_word split_words split_from
next_105 = refl

both_spaces : length both_made.spaces ≡ 2
unfolding perform vm_new_space alloc_page take_page map_user_page map_user_page_raw map_in descend
    user_word split_words split_from
both_spaces = refl

given_spaces : length first_given.spaces ≡ 2
unfolding perform vm_new_space alloc_page take_page map_user_page map_user_page_raw map_in descend
    user_word split_words split_from
given_spaces = refl

two_programs-Reachable : Reachable two_programs
two_programs-Reachable =
    next (own_page 1 0 true) first_given
      (omega (arith, given_spaces), λ page e. ground (arith, next_105, e))
      (next (own_page 0 0 true) both_made
        (omega (arith, both_spaces), λ page e. ground (arith, next_102, e))
        (next new_space (perform new_space (record { spaces = []; frames = machine })) tt
          (next new_space (record { spaces = []; frames = machine }) tt (start machine refl))))

word_writable : is_ro (user_word 102 true) ≡ false
unfolding user_word
word_writable = refl

isolated_example : frame (user_word 102 true) ≢ frame (user_word 105 true)
isolated_example =
    isolated two_programs 0 1 8 8 (user_word 102 true) (user_word 105 true) two_programs-Reachable
      (omega arith) (omega (arith, two_spaces)) one_walk other_walk word_writable

vm_user_ok_lem_example : ((vm_user_ok 8 4 false (one_page (data_page 5)) machine).0 ≡ true) ↔ (
    (a : ℕ)
    → 8 / 4096 * 4096 ≤ a
    → a < 8 + 4
    → may_touch (walk_to_leaf a (one_page (data_page 5))) ≡ true)
vm_user_ok_lem_example =
    vm_user_ok_lem 8 4 (one_page (data_page 5)) machine (omega arith) (omega arith)
