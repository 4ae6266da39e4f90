-- ===== src/Sched/Scan.antt =====
-- The round robin of pkg/stam/sched.c chooses a thread that may run here, and overlooks none.
use native.Mathlib.Nat.{mod-eq_of_lt}
use verkos.Prelude.{
  ℕ, zero, suc, ◌+◌, ◌-◌, ◌%◌, ◌≤◌, ◌<◌, ◌≡◌, ap, ◌≢◌, inl, inr, true, false, none, some, arith,
  ltb, ◌==◌, Bool-cases, length,
}
use verkos.Sched.State.{Sched, thread_of}
use verkos.Sched.Switch.{may_run, next_from, next_runnable}

next_from_sound :
    (me start i count : ℕ) (s : Sched) (k : ℕ)
    → 0 < length s.threads
    → next_from me start i count s ≡ some k
    → (may_run me (thread_of s k) ≡ true) × (k < length s.threads)
unfolding next_from
next_from_sound me start i zero s k h e = absurd (ground arith)
next_from_sound me start i (suc count) s k h e =
    elim (Bool-cases (may_run me (thread_of s ((start + i) % length s.threads)))) [
      | inl y ↦ ground arith
      | inr n ↦ ground (arith, next_from_sound me start (i + 1) count s k h)
    ]

-- Whom the scan chooses may run here.
pub next_runnable_sound :
    (me after : ℕ) (s : Sched) (k : ℕ)
    → next_runnable me after s ≡ some k
    → (may_run me (thread_of s k) ≡ true) × (k < length s.threads)
unfolding next_runnable next_from
next_runnable_sound me after s k e = elim (Bool-cases (ltb 0 (length s.threads))) [
  | inl p ↦ next_from_sound me after 1 (length s.threads) s k (ground arith) e
  | inr z ↦ absurd (ground (arith, nobody z))
]
  where
    nobody : ltb 0 (length s.threads) ≡ false → next_from me after 1 (length s.threads) s ≡ none
    nobody z = let none_left : length s.threads ≡ 0 = ground arith in rw none_left

next_from_complete :
    (me start i count k : ℕ) (s : Sched)
    → may_run me (thread_of s k) ≡ true
    → (j : ℕ) → i ≤ j
    → j < i + count
    → (start + j) % length s.threads ≡ k
    → next_from me start i count s ≢ none
unfolding next_from
next_from_complete me start i zero k s r j a b e = absurd (omega arith)
next_from_complete me start i (suc count) k s r j a b e =
    elim (Bool-cases (may_run me (thread_of s ((start + i) % length s.threads)))) [
      | inl y ↦ ground arith
      | inr n ↦
          ground
            (arith, next_from_complete me start (i + 1) count k s r j (later n) (omega arith) e)
    ]
  where
    later : may_run me (thread_of s ((start + i) % length s.threads)) ≡ false → i + 1 ≤ j
    later n = elim (Bool-cases (i == j)) [
      | inl q ↦
          let same_slot : (start + i) % length s.threads ≡ k = ground arith in
          absurd (ground (arith, ap (λ x. may_run me (thread_of s x)) same_slot))
      | inr q ↦ ground arith
    ]

-- Nobody who may run here is overlooked.
pub next_runnable_complete :
    (me after k : ℕ) (s : Sched)
    → after < length s.threads
    → k < length s.threads
    → may_run me (thread_of s k) ≡ true
    → next_runnable me after s ≢ none
unfolding next_runnable
next_runnable_complete me after k s ha hk r = elim (Bool-cases (ltb after k)) [
  | inl lt ↦
      next_from_complete me after 1 (length s.threads) k s r (k - after) (ground arith)
        (ground arith) (ahead lt)
  | inr ge ↦
      next_from_complete me after 1 (length s.threads) k s r (k + length s.threads - after)
        (ground arith) (ground arith) around
]
  where
    ahead : ltb after k ≡ true → (after + (k - after)) % length s.threads ≡ k
    ahead lt = let e : after + (k - after) ≡ k = ground arith in rw e (mod-eq_of_lt hk)

    around : (after + (k + length s.threads - after)) % length s.threads ≡ k
    around =
        let e : after + (k + length s.threads - after) ≡ k + length s.threads = omega arith in
        rw e (grind arith)
