-- ===== src/Sched/Waking.antt =====
-- Waiting for an object, in pkg/stam/sched.c: whom thread_wake_pipe wakes, and what a deadline that
-- was left over does to a later sleep.
use verkos.Prelude.{ℕ, ◌≡◌, true, false, arith}
use verkos.Sched.State.{runnable, Thread, Sched, thread_of}
use verkos.Sched.Block.{waits_on, wake_waiter, thread_wake_pipe}
use verkos.Sched.Keep.{wake_waiter-Wakes, at_wake}

wake_waiter_awake : (object : ℕ) (t : Thread) → waits_on object (wake_waiter object t) ≡ false
unfolding wake_waiter waits_on
wake_waiter_awake object t = ground arith

became :
    (object : ℕ) (t : Thread)
    → waits_on object t ≡ true
    → (wake_waiter object t).state ≡ runnable × (wake_waiter object t).wake_at ≡ 0
unfolding wake_waiter
became object t y = ground arith

stayed : (object : ℕ) (t : Thread) → waits_on object t ≡ false → wake_waiter object t ≡ t
unfolding wake_waiter
stayed object t n = ground arith

-- After thread_wake_pipe no thread waits for the object, a thread that waited is runnable with no
-- deadline, and every other thread is as it was.
pub thread_wake_pipe_all :
    (object i : ℕ) (s : Sched)
    → (waits_on object (thread_of (thread_wake_pipe object s) i) ≡ false)
      × (waits_on object (thread_of s i) ≡ true
          → (thread_of (thread_wake_pipe object s) i).state ≡ runnable
            × (thread_of (thread_wake_pipe object s) i).wake_at ≡ 0)
      × (waits_on object (thread_of s i) ≡ false
          → thread_of (thread_wake_pipe object s) i ≡ thread_of s i)
unfolding thread_wake_pipe
thread_wake_pipe_all object i s = (
  rw e (wake_waiter_awake object (thread_of s i)),
  λ y. rw e (became object (thread_of s i) y),
  λ n. rw e (stayed object (thread_of s i) n),
)
  where
    e : thread_of (thread_wake_pipe object s) i ≡ wake_waiter object (thread_of s i)
    e = at_wake (wake_waiter object) (wake_waiter-Wakes object) s i
