-- ===== src/Sched/Signals.antt =====
-- Signals of pkg/stam/sched.c: whom thread_signal reaches, and which signal thread_signalled reports.
use verkos.Prelude.{
  ℕ, zero, suc, ◌+◌, ◌-◌, ◌%◌, ◌≤◌, ◌<◌, ◌≡◌, refl, ap, ◌≢◌, inl, inr, true, false, List, [], ◌∷◌,
  arith, ◌==◌, if◌then◌else◌, Bool-cases, get_or, ℤ,
}
use verkos.Sched.State.{blocked, Thread, Sched, unused, thread_of, current, nsig}
use verkos.Sched.Block.{
  is_target, raise, signal_all, thread_signal, sigkill, is_due, first_due, thread_signalled,
}

first_due_sound :
    (count sig : ℕ) (t : Thread)
    → 0 < sig
    → first_due count sig t ≢ 0
    → is_due t (first_due count sig t) ≡ true × first_due count sig t < sig + count
unfolding first_due
first_due_sound zero sig t p ne = absurd (ne refl)
first_due_sound (suc count) sig t p ne = elim (Bool-cases (is_due t sig)) [
  | inl y ↦ ground (arith, y)
  | inr n ↦ ground (arith, n, first_due_sound count (sig + 1) t (omega arith))
]

first_due_least :
    (count sig k : ℕ) (t : Thread)
    → sig ≤ k
    → k < sig + count
    → 0 < sig
    → is_due t k ≡ true
    → first_due count sig t ≢ 0 × first_due count sig t ≤ k
unfolding first_due
first_due_least zero sig k t a b p d = absurd (omega arith)
first_due_least (suc count) sig k t a b p d = elim (Bool-cases (is_due t sig)) [
  | inl y ↦ ground (arith, y)
  | inr n ↦
      let later : sig + 1 ≤ k = elim (Bool-cases (sig == k)) [
        | inl q ↦ let e : sig ≡ k = ground arith in absurd (ground (arith, ap (is_due t) e))
        | inr q ↦ ground arith
      ] in
      ground (arith, n, first_due_least count (sig + 1) k t later (omega arith) (omega arith) d)
]

-- The signal that thread_signalled reports is pending and not held off, and is below NSIG.
pub thread_signalled_sound :
    (me : ℕ) (s : Sched)
    → thread_signalled me s ≢ 0
    → is_due (thread_of s (current s me)) (thread_signalled me s) ≡ true
      × thread_signalled me s < nsig
unfolding thread_signalled
thread_signalled_sound me s ne =
    first_due_sound (nsig - 1) 1 (thread_of s (current s me)) (omega arith) ne

-- A signal from 1 to NSIG - 1 that is pending and not held off makes thread_signalled report a signal,
-- none above it.
pub thread_signalled_least :
    (me k : ℕ) (s : Sched)
    → 1 ≤ k
    → k < nsig
    → is_due (thread_of s (current s me)) k ≡ true
    → thread_signalled me s ≢ 0 × thread_signalled me s ≤ k
unfolding thread_signalled
thread_signalled_least me k s a b d =
    first_due_least (nsig - 1) 1 k (thread_of s (current s me)) a b (omega arith) d

-- SIGKILL that is pending is never held off, whatever the mask: it is reported, or a lower one is.
pub thread_signalled_kill :
    (me : ℕ) (s : Sched)
    → (thread_of s (current s me)).pending sigkill ≡ true
    → thread_signalled me s ≢ 0 × thread_signalled me s ≤ sigkill
unfolding is_due
thread_signalled_kill me s p =
    thread_signalled_least me sigkill s (omega arith) (omega arith) (ground (arith, p))

signal_all_at :
    (pid : ℤ) (sig i : ℕ) (ts : List Thread)
    → get_or (signal_all pid sig ts).1 i unused ≡ (
        if is_target pid (get_or ts i unused)
        then raise sig (get_or ts i unused)
        else get_or ts i unused)
unfolding signal_all is_target
signal_all_at pid sig i [] = refl
signal_all_at pid sig zero (t ∷ ts) = ground arith
signal_all_at pid sig (suc i) (t ∷ ts) = ground (arith, signal_all_at pid sig i ts)

signal_all_none :
    (pid : ℤ) (sig i : ℕ) (ts : List Thread)
    → (signal_all pid sig ts).0 ≡ 0
    → is_target pid (get_or ts i unused) ≡ false
unfolding signal_all is_target
signal_all_none pid sig i [] e = refl
signal_all_none pid sig zero (t ∷ ts) e = ground arith
signal_all_none pid sig (suc i) (t ∷ ts) e = ground (arith, signal_all_none pid sig i ts)

-- thread_signal marks a signal below 32 pending in every thread it is for, wakes each that was blocked,
-- and touches no other; a result of 0 says that it was for none.
pub thread_signal_reaches :
    (pid : ℤ) (sig i : ℕ) (s : Sched)
    → sig < 32
    → (is_target pid (thread_of s i) ≡ true
        → (thread_of (thread_signal pid sig s).1 i).pending sig ≡ true
          × (thread_of (thread_signal pid sig s).1 i).state ≢ blocked)
      × (is_target pid (thread_of s i) ≡ false
          → thread_of (thread_signal pid sig s).1 i ≡ thread_of s i)
      × ((thread_signal pid sig s).0 ≡ 0 → is_target pid (thread_of s i) ≡ false)
unfolding thread_signal raise
thread_signal_reaches pid sig i s small = (
  λ y.
      let same_bit : sig % 32 ≡ sig = omega (arith, small) in
      ground (arith, signal_all_at pid sig i s.threads, same_bit),
  λ n. ground (arith, signal_all_at pid sig i s.threads),
  λ e. signal_all_none pid sig i s.threads e,
)
