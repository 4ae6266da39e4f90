-- ===== src/Sched/Wait.antt =====
-- The end of a thread and its collection, of pkg/stam/sched.c. That the pages of a stack are freed is
-- left to the caller: the result names the stack.
use verkos.Prelude.{
  ℕ, ◌+◌, Bool, not, ◌&&◌, ◌||◌, Option, none, some, List, [], ◌∷◌, map, ◌==◌, if◌then◌else◌, ℤ,
  pos, neg, eqℤ, find_index,
}
use verkos.Sched.State.{
  runnable, zombie, blocked, free, is, Thread, Sched, thread_of, put_thread, current, wait_child,
}
use verkos.Sched.Switch.{schedule_locked, schedule}

unfoldable pub release_slot : Thread → Thread
release_slot t = record t {
  stack_low = 0;
  parent = neg 1;
  id = neg 1;
  space = 0;
  status = pos 0;
  wait_reason = 0;
  wait_object = none;
  state = free;
}

unfoldable pub is_child : ℤ → Thread → Bool
is_child id t = eqℤ t.parent id

unfoldable pub is_dead_child : ℤ → Thread → Bool
is_dead_child id t = is_child id t && is t.state zombie

unfoldable pub is_live_child : ℤ → Thread → Bool
is_live_child id t = is_child id t && (not (is t.state zombie) && not (is t.state free))

-- What a scan for children finds: one that has finished, some that have not, or none. Up to the
-- first zombie the loop only notes live children, so it is two searches.
pub data Scan : Type 0 where
  collected : ℤ → ℤ → Scan
  unfinished childless : Scan

-- By the first zombie child and the first live one.
abbrev pub scan_result : Sched → Option ℕ → Option ℕ → Scan × Sched
scan_result s (some i) live = (
  collected (thread_of s i).id (thread_of s i).status,
  put_thread s i (release_slot (thread_of s i)),
)
scan_result s none (some i) = (unfinished, s)
scan_result s none none = (childless, s)

unfoldable pub scan_children : ℕ → Sched → Scan × Sched
scan_children me s =
    let id = (thread_of s (current s me)).id in
    scan_result s (find_index (is_dead_child id) s.threads)
      (find_index (is_live_child id) s.threads)

-- The id and the status of the child, 0 or -1.
unfoldable pub reap_result : Scan → ℤ × Option ℤ
reap_result (collected id status) = (id, some status)
reap_result unfinished = (pos 0, none)
reap_result childless = (neg 1, none)

unfoldable pub thread_reap : ℕ → Sched → (ℤ × Option ℤ) × Sched
thread_reap me s = let (r, s') = scan_children me s in (reap_result r, s')

-- A round of `thread_wait`: it returns, or its thread is blocked until a child exits (`none`), and
-- then the round is made again.
unfoldable pub thread_wait : ℕ → ℕ → Sched → Option (ℤ × Option ℤ) × Sched
thread_wait me now s =
    let (r, s') = scan_children me s in
    elim r [
      | collected id status ↦ (some (id, some status), s')
      | childless ↦ (some (neg 1, none), s')
      | unfinished ↦
          let t = thread_of s (current s me) in
          (
            none,
            schedule_locked me now (
                put_thread s (current s me)
                  (record t { wait_reason = wait_child; state = blocked })),
          )
    ]

-- The first section of `thread_exit`; the result is the address space to be freed.
unfoldable pub exit_begin : ℕ → ℤ → Sched → ℕ × Sched
exit_begin me status s =
    let t = thread_of s (current s me) in
    (t.space, put_thread s (current s me) (record t { state = zombie; status = status; space = 0 }))

unfoldable pub wake_parent : ℤ → Thread → Thread
wake_parent parent t =
    if eqℤ t.id parent && (is t.state blocked && t.wait_reason == wait_child)
    then record t { state = runnable }
    else t

-- Its last section, once the files are closed and the address space is freed.
unfoldable pub exit_end : ℕ → ℕ → Sched → Sched
exit_end me now s =
    let parent = (thread_of s (current s me)).parent in
    schedule me now (record s { threads = map (wake_parent parent) s.threads })

unfoldable pub threads_alive : List Thread → ℕ
threads_alive [] = 0
threads_alive (t ∷ ts) =
    let n = threads_alive ts in if is t.state runnable || is t.state blocked then n + 1 else n
