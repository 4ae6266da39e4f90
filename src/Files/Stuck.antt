-- ===== src/Files/Stuck.antt =====
-- Sleeping on a pipe of pkg/stam/file.c, and a write that finds it full while its reader sleeps.
use verkos.Prelude.{
  ℕ, zero, suc, ◌+◌, ◌%◌, ◌≤◌, ◌<◌, ◌≡◌, refl, sym, ap, ◌∙◌, subst, ◌≢◌, inl, inr, Bool, true,
  false, ◌&&◌, none, some, List, [], ◌++◌, arith, ltb, ◌==◌, if◌then◌else◌, Bool-cases,
  Option-cases, length, length-set, length-map, get_or-set, ℤ,
}
use verkos.Sched.State.{running, is, Thread, Cpu, Sched, unused, thread_of, put_thread, cpu_of}
use verkos.Sched.Switch.{
  may_run, next_runnable, wake_sleeper, wake_sleepers, leave, enter, switch_to, choose,
  schedule_locked,
}
use verkos.Sched.Block.{asleep, block_as, waits_on, thread_block_on_pipe}
use verkos.Sched.Scan.{next_runnable_sound}
use verkos.Sched.Exclusive.{thread_of-switch_to}
use verkos.Sched.Keep.{Wakes, wake_sleeper-Wakes, at_wake, woken, current_eq}
use verkos.Files.State.{pipe_size, Files, pipe_at}
use verkos.Files.Pipe.{
  pipe_bytes, WriteStop, wrote, broken, full, fill, Written, done, written, write_round,
}
use verkos.Files.Ring.{ring, queue, IsRing}
use verkos.Files.Fifo.{Filled, fill_lem}

-- The thread sleeps on the object and has no deadline.
abbrev pub Asleep : ℕ → ℕ → Sched → Type 0
Asleep object r s = (waits_on object (thread_of s r) ≡ true) × ((thread_of s r).wake_at ≡ 0)

leave-Asleep :
    (object : ℕ) (c : Cpu) (t : Thread)
    → waits_on object t ≡ true
    → (waits_on object (leave c t) ≡ true) × ((leave c t).wake_at ≡ t.wake_at)
unfolding leave waits_on
leave-Asleep object c t w = ground arith

switch_to-Asleep :
    (me prev next object r : ℕ) (s : Sched)
    → prev < length s.threads
    → next < length s.threads
    → next ≢ prev
    → next ≢ r
    → Asleep object r s
    → Asleep object r (switch_to me prev next s)
switch_to-Asleep me prev next object r s hp hn ne nr a = elim (Bool-cases (prev == r)) [
  | inl y ↦
      moved (leave (cpu_of s me) (thread_of s r)) (ground (arith, at_r, y, nr))
        (leave-Asleep object (cpu_of s me) (thread_of s r) a.0)
  | inr n ↦ moved (thread_of s r) (ground (arith, at_r, n, nr)) (a.0, refl)
]
  where
    at_r : thread_of (switch_to me prev next s) r ≡ (
        if next == r
        then enter me (thread_of s next)
        else if prev == r
        then leave (cpu_of s me) (thread_of s prev)
        else thread_of s r)
    at_r = thread_of-switch_to me prev next r s hp hn ne

    moved :
        (t : Thread)
        → thread_of (switch_to me prev next s) r ≡ t
        → (waits_on object t ≡ true) × (t.wake_at ≡ (thread_of s r).wake_at)
        → Asleep object r (switch_to me prev next s)
    moved t e h = (ap (waits_on object) e ∙ h.0, ap (λ z. z.wake_at) e ∙ h.1 ∙ a.1)

not_chosen :
    (me object k r : ℕ) (s : Sched)
    → may_run me (thread_of s k) ≡ true
    → waits_on object (thread_of s r) ≡ true
    → k ≢ r
unfolding may_run waits_on
not_chosen me object k r s m w e = ground arith

choose-some :
    (me prev k : ℕ) (s : Sched)
    → next_runnable me prev s ≡ some k
    → choose me prev s ≡ (if k == prev then s else switch_to me prev k s)
unfolding choose
choose-some me prev k s e = rw (e, choose) refl

choose-none :
    (me prev d : ℕ) (s : Sched)
    → next_runnable me prev s ≡ none
    → (cpu_of s me).idle ≡ some d
    → choose me prev s ≡ (
        if is (thread_of s prev).state running
        then s
        else if d == prev
        then s
        else switch_to me prev d s)
unfolding choose
choose-none me prev d s e i = rw (e, i, choose) refl

choose-Asleep :
    (me prev d object r : ℕ) (s : Sched)
    → prev < length s.threads
    → (cpu_of s me).idle ≡ some d
    → d < length s.threads
    → d ≢ r
    → Asleep object r s
    → Asleep object r (choose me prev s)
choose-Asleep me prev d object r s hp idle hd ne a = elim (Option-cases (next_runnable me prev s)) [
  | inr (k, e) ↦
      let ok = next_runnable_sound me prev s k e in
      subst (Asleep object r) (sym (choose-some me prev k s e))
        (to k ok.1 (not_chosen me object k r s ok.0 a.0))
  | inl n ↦
      subst (Asleep object r) (sym (choose-none me prev d s n idle))
        (pick_Asleep (is (thread_of s prev).state running) s _ a (to d hd ne))
]
  where
    pick_Asleep :
        (b : Bool) (x y : Sched)
        → Asleep object r x
        → Asleep object r y
        → Asleep object r (if b then x else y)
    pick_Asleep true x y p q = p
    pick_Asleep false x y p q = q

    to :
        (k : ℕ)
        → k < length s.threads
        → k ≢ r
        → Asleep object r (if k == prev then s else switch_to me prev k s)
    to k hk nk = elim (Bool-cases (k == prev)) [
      | inl y ↦ rw y a
      | inr n ↦ rw n (switch_to-Asleep me prev k object r s hp hk (ground (arith, n)) nk a)
    ]

kept_asleep :
    (now object : ℕ) (t : Thread)
    → waits_on object t ≡ true
    → t.wake_at ≡ 0
    → (waits_on object (wake_sleeper now t) ≡ true) × ((wake_sleeper now t).wake_at ≡ 0)
unfolding wake_sleeper waits_on
kept_asleep now object t w z = ground arith

-- A scheduling decision leaves a thread asleep that waits for an object with no deadline.
pub schedule_locked-Asleep :
    (me now prev d object r : ℕ) (s : Sched)
    → (cpu_of s me).cur ≡ some prev
    → prev < length s.threads
    → (cpu_of s me).idle ≡ some d
    → d < length s.threads
    → d ≢ r
    → Asleep object r s
    → Asleep object r (schedule_locked me now s)
unfolding schedule_locked wake_sleepers
schedule_locked-Asleep me now prev d object r s here hp idle hd ne a =
    subst (λ k. Asleep object r (choose me k (woken f w s))) (sym (current_eq s me prev here))
      (choose-Asleep me prev d object r (woken f w s) (rw (length-map s.threads f) hp) idle
        (rw (length-map s.threads f) hd) ne
        (rw (at_wake f w s r) (kept_asleep now object (thread_of s r) a.0 a.1)))
  where
    f : Thread → Thread
    f = wake_sleeper now

    w : Wakes f
    w = wake_sleeper-Wakes now

length-ring : (buf : List ℕ) (tail count : ℕ) → length (ring buf tail count) ≡ count
unfolding ring
length-ring buf tail zero = refl
length-ring buf tail (suc count) = ap suc (length-ring buf ((tail + 1) % pipe_size) count)

-- What a round of writing by `prev` leaves behind when the pipe `i` has filled up: it has not
-- returned, and both it and the thread `r` sleep on the pipe.
abbrev pub Stuck : ℕ → ℕ → ℕ → Written × Files × Sched → Type 0
Stuck prev i r (w, s', sc') = ((z : ℤ) → w ≢ done z) × Asleep i r sc' × Asleep i prev sc'

module _ (me now prev d i r : ℕ) (sc : Sched) (here : (cpu_of sc me).cur ≡ some prev)
    (hp : prev < length sc.threads) (run : (thread_of sc prev).state ≡ running)
    (idle : (cpu_of sc me).idle ≡ some d) (hd : d < length sc.threads) (nd : d ≢ r) (np : d ≢ prev)
    (ne : prev ≢ r) (a : Asleep i r sc) where
  abbrev marked : Sched
  marked = put_thread sc prev (asleep i (thread_of sc prev))

  at_marked :
      (j : ℕ)
      → thread_of marked j ≡ (
          if prev == j && ltb prev (length sc.threads)
          then asleep i (thread_of sc prev)
          else thread_of sc j)
  at_marked j = get_or-set sc.threads prev j (asleep i (thread_of sc prev)) unused

  self_Asleep : Asleep i prev marked
  unfolding asleep waits_on
  self_Asleep = ground (arith, at_marked prev)

  other_Asleep : Asleep i r marked
  other_Asleep =
      let e : thread_of marked r ≡ thread_of sc r = ground (arith, at_marked r) in
      (ap (waits_on i) e ∙ a.0, ap (λ t. t.wake_at) e ∙ a.1)

  blocks : thread_block_on_pipe me now i sc ≡ schedule_locked me now marked
  unfolding thread_block_on_pipe block_as
  blocks = rw (current_eq sc me prev here, run) refl

  both_Asleep :
      Asleep i r (thread_block_on_pipe me now i sc)
      × Asleep i prev (thread_block_on_pipe me now i sc)
  both_Asleep =
      let at_len = length-set sc.threads prev (asleep i (thread_of sc prev)) in
      rw blocks (
        schedule_locked-Asleep me now prev d i r marked here (rw at_len hp) idle (rw at_len hd) nd
            other_Asleep,
        schedule_locked-Asleep me now prev d i prev marked here (rw at_len hp) idle (rw at_len hd)
            np self_Asleep,
      )

  stuck :
      (bs : List ℕ) (s : Files) (w : WriteStop)
      → Filled bs 0 (pipe_at s i) w
      → (pipe_at s i).readers ≢ 0
      → queue (pipe_at s i) ≡ []
      → pipe_size ≤ length bs
      → Stuck prev i r (written me now i s sc w)
  unfolding written
  stuck bs s (wrote n p) (c, q, k) rd e len =
      absurd (
        ground
          (arith, ap length (q ∙ ap (λ z. z ++ bs) e), length-ring p.buf p.tail (pipe_bytes p)))
  stuck bs s (broken n p) (z, c, k) rd e len = absurd (rd z)
  stuck bs s (full left n p) f rd e len = ((λ z q. ground arith), both_Asleep.0, both_Asleep.1)

  -- A reader sleeps on an empty pipe and another thread writes 4096 bytes or more to it at once: the
  -- write fills the pipe and goes to sleep as well without waking the reader, so that each of them
  -- sleeps, with no deadline, until somebody else wakes the pipe.
  pub write_round-Stuck :
      (bs : List ℕ) (s : Files)
      → IsRing (pipe_at s i)
      → (pipe_at s i).readers ≢ 0
      → queue (pipe_at s i) ≡ []
      → pipe_size ≤ length bs
      → Stuck prev i r (write_round me now i bs 0 s sc)
  unfolding write_round
  write_round-Stuck bs s k rd e len =
      stuck bs s (fill bs 0 (pipe_at s i)) (fill_lem bs 0 (pipe_at s i) k) rd e len
