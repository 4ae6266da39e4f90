-- ===== src/Sched/Block.antt =====
-- Sleeping and waking, and signals, of pkg/stam/sched.c. A call that blocks ends where its thread is
-- switched away from; the thread goes on behind the call once it is chosen again.
use verkos.Prelude.{
  ℕ, zero, suc, ◌+◌, ◌-◌, ◌%◌, Bool, true, false, not, ◌&&◌, none, some, List, [], ◌∷◌, map, ◌==◌,
  if◌then◌else◌, ℤ, pos, negsuc, neg, eqℤ, find_index,
}
use verkos.Sched.State.{
  runnable, zombie, blocked, free, running, is, Thread, Sched, thread_of, put_thread, current, same,
  set_bit, wait_console, wait_pipe, nsig,
}
use verkos.Sched.Switch.{schedule_locked}

-- The thread that sleeps until the object is woken.
unfoldable pub asleep : ℕ → Thread → Thread
asleep object t = record t {
  wait_reason = wait_pipe;
  wait_object = some object;
  wake_at = 0;
  state = blocked;
}

-- The body of a blocking call, `prev` being the current thread and `f` what it writes to it.
unfoldable pub block_as : ℕ → ℕ → (Thread → Thread) → ℕ → Sched → Sched
block_as me now f prev s =
    if not (is (thread_of s prev).state running)
    then s
    else schedule_locked me now (put_thread s prev (f (thread_of s prev)))

unfoldable pub at_prompt : Thread → Thread
at_prompt t = record t { wait_reason = wait_console; state = blocked }

unfoldable pub thread_block_on_console : ℕ → ℕ → Sched → Sched
thread_block_on_console me now s = block_as me now at_prompt (current s me) s

unfoldable pub thread_block_on_pipe : ℕ → ℕ → ℕ → Sched → Sched
thread_block_on_pipe me now object s = block_as me now (asleep object) (current s me) s

-- At least one tick, so that a deadline set in the tick it is read in does not pass at once.
unfoldable pub asleep_until : ℕ → ℕ → ℕ → Thread → Thread
asleep_until now object ticks t = record t {
  wait_reason = wait_pipe;
  wait_object = some object;
  wake_at = now + (if ticks == 0 then 1 else ticks);
  state = blocked;
}

unfoldable pub thread_block_on_pipe_until : ℕ → ℕ → ℕ → ℕ → Sched → Sched
thread_block_on_pipe_until me now object ticks s =
    block_as me now (asleep_until now object ticks) (current s me) s

-- Whether a thread waits for this object.
unfoldable pub waits_on : ℕ → Thread → Bool
waits_on object t =
    is t.state blocked && (t.wait_reason == wait_pipe && same t.wait_object (some object))

unfoldable pub wake_waiter : ℕ → Thread → Thread
wake_waiter object t = if waits_on object t then record t { wake_at = 0; state = runnable } else t

unfoldable pub thread_wake_pipe : ℕ → Sched → Sched
thread_wake_pipe object s = record s { threads = map (wake_waiter object) s.threads }

unfoldable pub wake_reader : Thread → Thread
wake_reader t =
    if is t.state blocked && t.wait_reason == wait_console then record t { state = runnable } else t

unfoldable pub thread_wake_console : Sched → Sched
thread_wake_console s = record s { threads = map wake_reader s.threads }

-- -pid, on `int`
abbrev pub negate : ℤ → ℤ
negate (pos zero) = pos zero
negate (pos (suc n)) = negsuc n
negate (negsuc n) = pos (suc n)

abbrev pub is_negative : ℤ → Bool
is_negative (pos n) = false
is_negative (negsuc n) = true

-- Whether a signal for `pid` is for this thread.
unfoldable pub is_target : ℤ → Thread → Bool
is_target pid t =
    not (is t.state free)
    && not (is t.state zombie)
    && (if is_negative pid then eqℤ t.pgid (negate pid) else eqℤ t.id pid)

-- `1u << sig` is a shift of a word of 32 bits, whose count the machine takes modulo 32; C leaves a count
-- of 32 or more undefined, and the system call passes on any that it is given.
unfoldable pub raise : ℕ → Thread → Thread
raise sig t = record t {
  pending = set_bit (sig % 32) t.pending;
  state = if is t.state blocked then runnable else t.state;
}

unfoldable pub signal_all : ℤ → ℕ → List Thread → ℕ × List Thread
signal_all pid sig [] = (0, [])
signal_all pid sig (t ∷ ts) =
    let (n, ts') = signal_all pid sig ts in
    if is_target pid t then (n + 1, raise sig t ∷ ts') else (n, t ∷ ts')

unfoldable pub thread_signal : ℤ → ℕ → Sched → ℕ × Sched
thread_signal pid sig s =
    let (n, ts) = signal_all pid sig s.threads in (n, record s { threads = ts })

abbrev pub sigkill : ℕ
sigkill = 9

-- A pending signal that is not held off; SIGKILL cannot be.
unfoldable pub is_due : Thread → ℕ → Bool
is_due t sig = t.pending sig && not (t.held sig && not (sig == sigkill))

-- for (s = sig; s < NSIG; s++): `count` are the numbers left.
unfoldable pub first_due : ℕ → ℕ → Thread → ℕ
first_due zero sig t = 0
first_due (suc count) sig t =
    let rest = first_due count (sig + 1) t in if is_due t sig then sig else rest

unfoldable pub thread_signalled : ℕ → Sched → ℕ
thread_signalled me s = first_due (nsig - 1) 1 (thread_of s (current s me))

-- pid ? pid : current->id
unfoldable pub named : ℕ → ℤ → Sched → ℤ
named me pid s = if eqℤ pid (pos 0) then (thread_of s (current s me)).id else pid

unfoldable pub has_id : ℤ → Thread → Bool
has_id pid t = not (is t.state free) && eqℤ t.id pid

unfoldable pub thread_setpgid : ℕ → ℤ → ℤ → Sched → ℤ × Sched
thread_setpgid me pid pgid s = elim (find_index (has_id (named me pid s)) s.threads) [
  | none ↦ (neg 1, s)
  | some i ↦
      let g = if eqℤ pgid (pos 0) then (thread_of s i).id else pgid in
      (g, put_thread s i (record (thread_of s i) { pgid = g }))
]

unfoldable pub thread_pgid_of : ℕ → ℤ → Sched → ℤ
thread_pgid_of me pid s = elim (find_index (has_id (named me pid s)) s.threads) [
  | none ↦ neg 1
  | some i ↦ (thread_of s i).pgid
]
