-- ===== src/Sched/Switch.antt =====
-- Choosing who runs next, of pkg/stam/sched.c: `next_runnable`, `schedule_locked` and `schedule`.
-- `me` is the index of the processor, and `now` is timer_ticks(). A switch is described up to
-- `cpu_switch`, where another thread's registers are loaded.
use verkos.Prelude.{
  ℕ, zero, suc, ◌+◌, ◌%◌, Bool, true, not, ◌&&◌, Option, none, some, map, leb, ◌==◌, if◌then◌else◌,
  length, pos, negsuc,
}
use verkos.Sched.State.{
  runnable, blocked, running, is, Thread, Cpu, Sched, thread_of, put_thread, cpu_of, put_cpu,
  current, set_bit,
}

-- Whether the slot may be run by this processor.
unfoldable pub may_run : ℕ → Thread → Bool
may_run me t = is t.state runnable && (elim t.home [ pos h ↦ h == me | negsuc h ↦ true ])

-- threads[(start + i) % n_threads] for the `count` values of i from `i` on
unfoldable pub next_from : ℕ → ℕ → ℕ → ℕ → Sched → Option ℕ
next_from me start i zero s = none
next_from me start i (suc count) s =
    let k = (start + i) % length s.threads in
    let rest = next_from me start (i + 1) count s in
    if may_run me (thread_of s k) then some k else rest

unfoldable pub next_runnable : ℕ → ℕ → Sched → Option ℕ
next_runnable me after s = next_from me after 1 (length s.threads) s

-- A sleep that has run out.
unfoldable pub wake_sleeper : ℕ → Thread → Thread
wake_sleeper now t =
    if is t.state blocked && (not (t.wake_at == 0) && leb t.wake_at now)
    then record t { wake_at = 0; state = runnable }
    else t

unfoldable pub wake_sleepers : ℕ → Sched → Sched
wake_sleepers now s = record s { threads = map (wake_sleeper now) s.threads }

-- What the outgoing and the incoming thread become.
unfoldable pub leave : Cpu → Thread → Thread
leave c t = record t {
  user_table = c.user_table;
  state = if is t.state running then runnable else t.state;
}

unfoldable pub enter : ℕ → Thread → Thread
enter me t = record t {
  state = running;
  last_cpu = pos me;
  ran_on = set_bit (me % 32) t.ran_on;
  slices = t.slices + 1;
}

-- From `switches++` to `cpu_switch`.
unfoldable pub switch_to : ℕ → ℕ → ℕ → Sched → Sched
switch_to me prev next s =
    let c = cpu_of s me in
    let s1 = put_thread s prev (leave c (thread_of s prev)) in
    let s2 = put_thread s1 next (enter me (thread_of s1 next)) in
    record (put_cpu s2 me
      (record c { cur = some next; user_table = (thread_of s next).user_table })) {
        switches = s.switches + 1;
      }

-- The decision, with `prev` the current thread.
unfoldable pub choose : ℕ → ℕ → Sched → Sched
choose me prev s = elim (next_runnable me prev s) [
  | some next ↦ if next == prev then s else switch_to me prev next s
  | none ↦ if is (thread_of s prev).state running then s else elim (cpu_of s me).idle [
    | none ↦ s
    | some next ↦ if next == prev then s else switch_to me prev next s
  ]
]

unfoldable pub schedule_locked : ℕ → ℕ → Sched → Sched
schedule_locked me now s = choose me (current s me) (wake_sleepers now s)

unfoldable pub schedule : ℕ → ℕ → Sched → Sched
schedule me now s = if s.started then schedule_locked me now s else s
