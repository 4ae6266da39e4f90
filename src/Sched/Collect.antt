-- ===== src/Sched/Collect.antt =====
-- What thread_reap, thread_wait and thread_exit of pkg/stam/sched.c make of the children of a thread.
use verkos.Prelude.{
  ℕ, ◌<◌, ◌≡◌, refl, ◌≢◌, inl, inr, Bool, true, false, Option, none, some, List, arith, ◌==◌,
  Bool-cases, Option-cases, length, get_or, length-set, get_or-set, ℤ, neg, find_index,
  find_index_sound, find_index_complete, eqℤ_refl,
}
use verkos.Sched.State.{zombie, free, Thread, Sched, unused, thread_of, put_thread, cpu_of, current}
use verkos.Sched.Keep.{current_eq}
use verkos.Sched.Wait.{
  release_slot, is_child, is_dead_child, is_live_child, Scan, scan_result, collected, unfinished,
  childless, scan_children, exit_begin,
}

-- The id of the current thread.
abbrev pub own_id : ℕ → Sched → ℤ
own_id me s = (thread_of s (current s me)).id

-- The slot of a thread that has been collected: free, and nobody's child.
abbrev pub CollectedSlot : Thread → Type 0
CollectedSlot t = (t.state ≡ free) × (t.id ≡ neg 1) × (t.parent ≡ neg 1)

-- What the scan finds: a child that is a zombie, whose slot it frees while every other stays; or
-- none of them, and then nothing changes, `unfinished` meaning that some child is still to finish
-- and `childless` that every slot that names the thread as parent is free.
abbrev pub Found : ℕ → Sched → Scan → Sched → Type 0
Found me s (collected id status) s' =
    (i : ℕ) × (i < length s.threads)
    × (is_dead_child (own_id me s) (thread_of s i) ≡ true)
    × ((thread_of s i).id ≡ id)
    × ((thread_of s i).status ≡ status)
    × CollectedSlot (thread_of s' i)
    × ((j : ℕ) → i ≢ j → thread_of s' j ≡ thread_of s j)
Found me s unfinished s' =
    (s' ≡ s)
    × ((i : ℕ) → i < length s.threads → is_dead_child (own_id me s) (thread_of s i) ≡ false)
    × ((i : ℕ) × (i < length s.threads) × (is_live_child (own_id me s) (thread_of s i) ≡ true))
Found me s childless s' =
    (s' ≡ s)
    × ((i : ℕ)
        → i < length s.threads
        → is_child (own_id me s) (thread_of s i) ≡ true
        → (thread_of s i).state ≡ free)

none_such :
    (p : Thread → Bool) (ts : List Thread) (i : ℕ)
    → find_index p ts ≡ none
    → i < length ts
    → p (get_or ts i unused) ≡ false
none_such p ts i e h = elim (Bool-cases (p (get_or ts i unused))) [
  | inl y ↦ absurd (find_index_complete p ts unused i h y e)
  | inr n ↦ n
]

freed :
    (me : ℕ) (s : Sched) (i : ℕ)
    → i < length s.threads
    → CollectedSlot (thread_of (put_thread s i (release_slot (thread_of s i))) i)
unfolding release_slot
freed me s i h = ground (arith, get_or-set s.threads i i (release_slot (thread_of s i)) unused)

other :
    (me : ℕ) (s : Sched) (i j : ℕ)
    → i ≢ j
    → thread_of (put_thread s i (release_slot (thread_of s i))) j ≡ thread_of s j
other me s i j ne = ground (arith, get_or-set s.threads i j (release_slot (thread_of s i)) unused)

all_free :
    (id : ℤ) (t : Thread)
    → is_child id t ≡ true
    → is_dead_child id t ≡ false
    → is_live_child id t ≡ false
    → t.state ≡ free
unfolding is_dead_child is_live_child
all_free id t c d l = ground arith

exit_begin_eq :
    (me i : ℕ) (status : ℤ) (s : Sched)
    → (cpu_of s me).cur ≡ some i
    → (exit_begin me status s).1
      ≡ put_thread s i (record (thread_of s i) { state = zombie; status = status; space = 0 })
unfolding exit_begin
exit_begin_eq me i status s here = rw (current_eq s me i here) refl

dead_child :
    (s : Sched) (i : ℕ) (t : Thread)
    → i < length s.threads
    → t.state ≡ zombie
    → t.parent ≡ (thread_of s i).parent
    → is_dead_child (thread_of s i).parent (thread_of (put_thread s i t) i) ≡ true
unfolding is_dead_child is_child
dead_child s i t h z p =
    ground (arith, get_or-set s.threads i i t unused, z, p, eqℤ_refl (thread_of s i).parent)

-- What the scan of thread_reap and thread_wait returns is as Found says: a collected zombie child and
-- no other slot changed, or nothing changed and children still to finish, or none but free slots.
pub scan_children-Found :
    (me : ℕ) (s : Sched) → Found me s (scan_children me s).0 (scan_children me s).1
unfolding scan_children
scan_children-Found me s =
    look (find_index (is_dead_child (own_id me s)) s.threads) refl
      (find_index (is_live_child (own_id me s)) s.threads) refl
  where
    dead : Thread → Bool
    dead = is_dead_child (own_id me s)

    live : Thread → Bool
    live = is_live_child (own_id me s)

    look :
        (d : Option ℕ)
        → find_index dead s.threads ≡ d
        → (l : Option ℕ) → find_index live s.threads ≡ l
        → Found me s (scan_result s d l).0 (scan_result s d l).1
    look (some i) e l f =
        let found = find_index_sound dead s.threads unused i e in
        (i, found.1, found.0, refl, refl, freed me s i found.1, λ j ne. other me s i j ne)
    look none e (some i) f =
        let found = find_index_sound live s.threads unused i f in
        (refl, (λ k h. none_such dead s.threads k e h), (i, found.1, found.0))
    look none e none f = (
      refl,
      λ k h c.
          all_free (own_id me s) (thread_of s k) c (none_such dead s.threads k e h)
            (none_such live s.threads k f h),
    )

scan_children_first :
    (me i : ℕ) (s : Sched)
    → find_index (is_dead_child (own_id me s)) s.threads ≡ some i
    → scan_children me s ≡ scan_result s (some i) none
unfolding scan_children
scan_children_first me i s e = rw e refl

stops :
    (s : Sched) (d l : Option ℕ)
    → d ≢ none
    → ((scan_result s d l).0 ≢ unfinished) × ((scan_result s d l).0 ≢ childless)
stops s (some i) l ne = ground arith
stops s none l ne = absurd (ne refl)

-- A thread that has exited is found: its parent's next scan collects a child.
pub exit_begin_collected :
    (me you i j : ℕ) (status : ℤ) (s : Sched)
    → (cpu_of s me).cur ≡ some i
    → (cpu_of s you).cur ≡ some j
    → i < length s.threads
    → i ≢ j
    → (thread_of s i).parent ≡ (thread_of s j).id
    → ((scan_children you (exit_begin me status s).1).0 ≢ unfinished)
      × ((scan_children you (exit_begin me status s).1).0 ≢ childless)
unfolding scan_children
exit_begin_collected me you i j status s here there h ne p =
    stops after (find_index (is_dead_child (own_id you after)) after.threads)
      (find_index (is_live_child (own_id you after)) after.threads)
      (find_index_complete (is_dead_child (own_id you after)) after.threads unused i in_range dead)
  where
    after : Sched
    after = (exit_begin me status s).1

    t : Thread
    t = record (thread_of s i) { state = zombie; status = status; space = 0 }

    after_eq : after ≡ put_thread s i t
    after_eq = exit_begin_eq me i status s here

    in_range : i < length after.threads
    in_range = rw (after_eq, length-set s.threads i t) h

    id_eq : own_id you after ≡ (thread_of s i).parent
    id_eq = rw after_eq (
        rw (own_id, current_eq (put_thread s i t) you j there)
          (ground (arith, get_or-set s.threads i j t unused, p)))

    dead : is_dead_child (own_id you after) (thread_of after i) ≡ true
    dead = rw (id_eq, after_eq) (dead_child s i t h refl refl)

only_dead :
    (p : Thread → Bool) (ts : List Thread) (i : ℕ)
    → i < length ts
    → p (get_or ts i unused) ≡ true
    → ((k : ℕ) → i ≢ k → p (get_or ts k unused) ≡ false)
    → find_index p ts ≡ some i
only_dead p ts i h y others = elim (Option-cases (find_index p ts)) [
  | inl n ↦ absurd (find_index_complete p ts unused i h y n)
  | inr (k, e) ↦ elim (Bool-cases (i == k)) [
    | inl q ↦ ground (arith, e)
    | inr q ↦ absurd (ground (arith, find_index_sound p ts unused k e, others k))
  ]
]

-- The exit status reaches the parent: where the thread is its only zombie child, the parent's next
-- scan returns the thread's id and status and frees its slot. That scan may come at once, while
-- the processor is still on the thread.
pub exit_begin_released :
    (me you i j : ℕ) (status : ℤ) (s : Sched)
    → (cpu_of s me).cur ≡ some i
    → (cpu_of s you).cur ≡ some j
    → i < length s.threads
    → i ≢ j
    → (thread_of s i).parent ≡ (thread_of s j).id
    → ((k : ℕ) → i ≢ k → is_dead_child (thread_of s j).id (thread_of s k) ≡ false)
    → ((scan_children you (exit_begin me status s).1).0 ≡ collected (thread_of s i).id status)
      × ((thread_of (scan_children you (exit_begin me status s).1).1 i).state ≡ free)
      × ((cpu_of (scan_children you (exit_begin me status s).1).1 me).cur ≡ some i)
exit_begin_released me you i j status s here there h ne p others =
    rw (exit_begin_eq me i status s here)
      (rw whole (ground (arith, at_i), ground (arith, freed me after i in_range), here))
  where
    t : Thread
    t = record (thread_of s i) { state = zombie; status = status; space = 0 }

    after : Sched
    after = put_thread s i t

    in_range : i < length after.threads
    in_range = rw (length-set s.threads i t) h

    at_i : thread_of after i ≡ t
    at_i = ground (arith, get_or-set s.threads i i t unused)

    id_eq : own_id you after ≡ (thread_of s i).parent
    id_eq =
        rw (own_id, current_eq after you j there)
          (ground (arith, get_or-set s.threads i j t unused, p))

    first : find_index (is_dead_child (own_id you after)) after.threads ≡ some i
    first = rw id_eq (
        only_dead (is_dead_child (thread_of s i).parent) after.threads i in_range
          (dead_child s i t h refl refl)
          (λ k n. ground (arith, get_or-set s.threads i k t unused, p, others k n)))

    whole : scan_children you after ≡ scan_result after (some i) none
    whole = scan_children_first you i after first
