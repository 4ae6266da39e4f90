-- ===== src/Sched/Tests.antt =====
-- pkg/stam/sched.c on two processors with an idle thread each, a worker and a child of it.
use verkos.Prelude.{
  ℕ, zero, suc, ◌≤◌, ◌<◌, ◌≡◌, refl, ◌≢◌, ◌⊎◌, true, false, none, some, [], ◌∷◌, arith, ◌==◌, set,
  pos, neg,
}
use verkos.Sched.State.{
  runnable, blocked, free, running, Thread, Sched, unused, thread_of, put_thread, cpu_of, wait_pipe,
  nsig,
}
use verkos.Sched.Switch.{may_run, next_from, next_runnable, wake_sleeper, schedule}
use verkos.Sched.Block.{
  asleep, asleep_until, block_as, waits_on, thread_wake_pipe, at_prompt, is_target, raise,
  signal_all, thread_signal, sigkill, is_due, thread_signalled, thread_block_on_console,
}
use verkos.Sched.Wait.{
  is_child, is_dead_child, collected, unfinished, childless, scan_children, exit_begin,
}
use verkos.Sched.Exclusive.{Parked, Exclusive}
use verkos.Sched.Keep.{schedule-Exclusive, block_as-Exclusive}
use verkos.Sched.Signals.{thread_signalled_kill, thread_signalled_sound, thread_signal_reaches}
use verkos.Sched.Waking.{thread_wake_pipe_all}
use verkos.Sched.Stale.{looked_at, thread_block_on_console_stale}
use verkos.Sched.Collect.{Found, scan_children-Found, exit_begin_collected, exit_begin_released}

abbrev worker : Thread
worker = record unused { id = pos 3; state = running; home = neg 1; parent = pos 1; slices = 4 }

abbrev child : Thread
child = record unused {
  id = pos 4;
  state = blocked;
  home = neg 1;
  parent = pos 3;
  wait_reason = wait_pipe;
  wait_object = some 5;
}

abbrev two : Sched
two = record {
  threads =
      record unused { id = pos 1; state = runnable; home = pos 0 }
      ∷ record unused { id = pos 2; state = running; home = pos 1 }
      ∷ worker
      ∷ child
      ∷ [];
  next_id = 5;
  cpus =
      record { cur = some 2; idle = some 0; user_table = 0 }
      ∷ record { cur = some 1; idle = some 1; user_table = 0 }
      ∷ [];
  switches = 0;
  started = true;
}

two-Parked : (me : ℕ) → Parked me two
two-Parked me = record {
  present = λ c i e. present c i e;
  on_cpu = λ c i n e. busy c i e;
  apart = λ c d i e f. apart c d i e f;
  idle_home = λ c i e. idle c i e;
}
  where
    present : (c i : ℕ) → (cpu_of two c).cur ≡ some i → (c < 2) × (i < 4)
    present zero i e = ground arith
    present (suc zero) i e = ground arith
    present (suc (suc c)) i e = ground arith

    busy : (c i : ℕ) → (cpu_of two c).cur ≡ some i → (thread_of two i).state ≡ running
    busy zero i e = ground arith
    busy (suc zero) i e = ground arith
    busy (suc (suc c)) i e = ground arith

    apart : (c d i : ℕ) → (cpu_of two c).cur ≡ some i → (cpu_of two d).cur ≡ some i → c ≡ d
    apart zero zero i e f = refl
    apart zero (suc zero) i e f = ground arith
    apart zero (suc (suc d)) i e f = ground arith
    apart (suc zero) zero i e f = ground arith
    apart (suc zero) (suc zero) i e f = refl
    apart (suc zero) (suc (suc d)) i e f = ground arith
    apart (suc (suc c)) d i e f = ground arith

    idle :
        (c i : ℕ)
        → (cpu_of two c).idle ≡ some i
        → (i < 4)
          × ((thread_of two i).home ≡ pos c)
          × (((thread_of two i).state ≡ runnable)
              ⊎ ((cpu_of two c).cur ≡ some i) × ((thread_of two i).state ≡ running))
    idle zero i e = ground arith
    idle (suc zero) i e = ground arith
    idle (suc (suc c)) i e = ground arith

two-Exclusive : Exclusive two
two-Exclusive = record { parked = two-Parked; on_cpu = λ c i e. busy c i e }
  where
    busy : (c i : ℕ) → (cpu_of two c).cur ≡ some i → (thread_of two i).state ≡ running
    busy zero i e = ground arith
    busy (suc zero) i e = ground arith
    busy (suc (suc c)) i e = ground arith

schedule-Exclusive_example : Exclusive (schedule 0 7 two)
schedule-Exclusive_example = schedule-Exclusive 0 7 2 0 two two-Exclusive refl refl

sleeps :
    (t : Thread)
    → ((asleep 5 t).state ≡ blocked) × (((asleep 5 t).wake_at ≡ 0) ⊎ (7 < (asleep 5 t).wake_at))
unfolding asleep
sleeps t = ground arith

works : (c : ℕ) → (cpu_of two c).idle ≢ some 2
works zero = ground arith
works (suc zero) = ground arith
works (suc (suc c)) = ground arith

block_as-Exclusive_example : Exclusive (block_as 0 7 (asleep 5) 2 two)
block_as-Exclusive_example =
    block_as-Exclusive 0 7 2 0 (asleep 5) two sleeps two-Exclusive refl refl works

-- The scan goes on behind the current thread and comes round to the idle thread of processor 0.
goes_round : next_runnable 0 2 two ≡ some 0
unfolding next_runnable next_from may_run
goes_round = refl

thread_wake_pipe_all_example :
    (waits_on 5 (thread_of (thread_wake_pipe 5 two) 3) ≡ false)
    × (waits_on 5 (thread_of two 3) ≡ true
        → (thread_of (thread_wake_pipe 5 two) 3).state ≡ runnable
          × (thread_of (thread_wake_pipe 5 two) 3).wake_at ≡ 0)
    × (waits_on 5 (thread_of two 3) ≡ false
        → thread_of (thread_wake_pipe 5 two) 3 ≡ thread_of two 3)
thread_wake_pipe_all_example = thread_wake_pipe_all 5 3 two

thread_signal_reaches_example :
    (is_target (pos 4) (thread_of two 3) ≡ true
      → (thread_of (thread_signal (pos 4) 15 two).1 3).pending 15 ≡ true
        × (thread_of (thread_signal (pos 4) 15 two).1 3).state ≢ blocked)
    × (is_target (pos 4) (thread_of two 3) ≡ false
        → thread_of (thread_signal (pos 4) 15 two).1 3 ≡ thread_of two 3)
    × ((thread_signal (pos 4) 15 two).0 ≡ 0 → is_target (pos 4) (thread_of two 3) ≡ false)
thread_signal_reaches_example = thread_signal_reaches (pos 4) 15 3 two (omega arith)

-- The worker with SIGKILL pending and every signal held off.
abbrev doomed : Sched
doomed = put_thread two 2 (record worker { pending = λ b. b == 9; held = λ b. true })

thread_signalled_kill_example : thread_signalled 0 doomed ≢ 0 × thread_signalled 0 doomed ≤ sigkill
thread_signalled_kill_example = thread_signalled_kill 0 doomed refl

thread_signalled_sound_example :
    is_due (thread_of doomed 2) (thread_signalled 0 doomed) ≡ true
    × thread_signalled 0 doomed < nsig
thread_signalled_sound_example = thread_signalled_sound 0 doomed not_zero
  where
    not_zero : thread_signalled 0 doomed ≢ 0
    not_zero = (thread_signalled_kill 0 doomed refl).0

scan_children-Found_example : Found 0 two (scan_children 0 two).0 (scan_children 0 two).1
scan_children-Found_example = scan_children-Found 0 two

-- The child runs on processor 1 and exits there.
abbrev exiting : Sched
exiting = record two {
  threads = set two.threads 3 (record child { state = running });
  cpus =
      record { cur = some 2; idle = some 0; user_table = 0 }
      ∷ record { cur = some 3; idle = some 1; user_table = 0 }
      ∷ [];
}

exit_begin_collected_example :
    ((scan_children 0 (exit_begin 1 (pos 6) exiting).1).0 ≢ unfinished)
    × ((scan_children 0 (exit_begin 1 (pos 6) exiting).1).0 ≢ childless)
exit_begin_collected_example =
    exit_begin_collected 1 0 3 2 (pos 6) exiting refl refl (omega arith) (ground arith) refl

no_other_zombie : (k : ℕ) → 3 ≢ k → is_dead_child (pos 3) (thread_of exiting k) ≡ false
unfolding is_dead_child is_child
no_other_zombie zero n = refl
no_other_zombie (suc zero) n = refl
no_other_zombie (suc (suc zero)) n = refl
no_other_zombie (suc (suc (suc zero))) n = refl
no_other_zombie (suc (suc (suc (suc k)))) n = refl

exit_begin_released_example :
    ((scan_children 0 (exit_begin 1 (pos 6) exiting).1).0 ≡ collected (pos 4) (pos 6))
    × ((thread_of (scan_children 0 (exit_begin 1 (pos 6) exiting).1).1 3).state ≡ free)
    × ((cpu_of (scan_children 0 (exit_begin 1 (pos 6) exiting).1).1 1).cur ≡ some 3)
exit_begin_released_example =
    exit_begin_released 1 0 3 2 (pos 6) exiting refl refl (omega arith) (ground arith) refl
      no_other_zombie

-- One processor, whose only other thread is blocked: the worker slept with a deadline of 9 that a
-- signal cut short.
abbrev alone : Sched
alone = record two {
  threads = record worker { wake_at = 9 } ∷ record child { wait_object = some 6 } ∷ [];
  cpus = record { cur = some 0; idle = none; user_table = 0 } ∷ [];
}

nobody_else : (j : ℕ) → j ≢ 0 → j < 2 → may_run 0 (thread_of (looked_at 0 12 0 alone) j) ≡ false
unfolding may_run wake_sleeper at_prompt
nobody_else zero n h = absurd (n refl)
nobody_else (suc zero) n h = refl
nobody_else (suc (suc j)) n h = absurd (omega arith)

thread_block_on_console_stale_example :
    ((cpu_of (thread_block_on_console 0 12 alone) 0).cur ≡ some 0)
    × ((thread_of (thread_block_on_console 0 12 alone) 0).state ≡ runnable)
thread_block_on_console_stale_example =
    thread_block_on_console_stale 0 12 0 alone refl refl (omega arith) refl (ground arith)
      (omega arith) nobody_else

-- How the deadline comes to be left over: a sleep until tick 9, ended by a signal at tick 4.
leftover :
    let s = (thread_signal (pos 3) 10 (put_thread two 2 (asleep_until 4 5 5 worker))).1 in
    ((thread_of s 2).state ≡ runnable) × ((thread_of s 2).wake_at ≡ 9)
unfolding thread_signal signal_all is_target raise asleep_until
leftover = (refl, refl)
