-- ===== src/Sched/Keep.antt =====
-- The calls of pkg/stam/sched.c that end in a scheduling decision keep every processor on a running
-- thread of its own.
use verkos.Prelude.{
  ℕ, zero, suc, ◌<◌, ◌≡◌, refl, sym, ap, ◌∙◌, subst, ◌≢◌, ◌⊎◌, inl, inr, Bool, true, false, not,
  some, List, [], ◌∷◌, map, arith, if◌then◌else◌, get_or, length-set, length-map, get_or-set,
}
use verkos.Sched.State.{
  runnable, blocked, running, is, Thread, Sched, unused, thread_of, put_thread, cpu_of, current,
}
use verkos.Sched.Switch.{wake_sleeper, wake_sleepers, choose, schedule_locked, schedule}
use verkos.Sched.Block.{block_as, waits_on, wake_waiter}
use verkos.Sched.Exclusive.{Parked, Exclusive, choose-Exclusive}

get_or-map {ℓ κ} :
    {A : Type ℓ} {B : Type κ} (f : A → B) (xs : List A) (i : ℕ) (d : A)
    → get_or (map f xs) i (f d) ≡ f (get_or xs i d)
get_or-map f [] i d = refl
get_or-map f (x ∷ xs) zero d = refl
get_or-map f (x ∷ xs) (suc i) d = get_or-map f xs i d

-- A pass over the table that at most makes blocked threads runnable.
pub record Wakes (f : Thread → Thread) : Type 0 where
  pub home : (t : Thread) → (f t).home ≡ t.home
  pub state :
      (t : Thread) → ((f t).state ≡ t.state) ⊎ ((t.state ≡ blocked) × ((f t).state ≡ runnable))
  pub outside : f unused ≡ unused

pub wake_sleeper-Wakes : (now : ℕ) → Wakes (wake_sleeper now)
unfolding wake_sleeper
wake_sleeper-Wakes now = record {
  home = λ t. ground arith;
  state = λ t. ground arith;
  outside = refl;
}

pub wake_waiter-Wakes : (object : ℕ) → Wakes (wake_waiter object)
unfolding wake_waiter waits_on
wake_waiter-Wakes object = record {
  home = λ t. ground arith;
  state = λ t. ground arith;
  outside = refl;
}

module _ (f : Thread → Thread) (w : Wakes f) (s : Sched) where
  abbrev pub woken : Sched
  woken = record s { threads = map f s.threads }

  pub at_wake : (i : ℕ) → thread_of woken i ≡ f (thread_of s i)
  at_wake i = ap (get_or (map f s.threads) i) (sym w.outside) ∙ get_or-map f s.threads i unused

  -- Waking keeps whoever runs.
  pub wake-Parked : (me : ℕ) → Parked me s → Parked me woken
  wake-Parked me p = record {
    present = λ c i e. rw (length-map s.threads f) (p.present c i e);
    on_cpu = λ c i ne e. ground (arith, at_wake i, w.state (thread_of s i), p.on_cpu c i ne e);
    apart = p.apart;
    idle_home = λ c i e.
        let h = p.idle_home c i e in
        (
          rw (length-map s.threads f) h.0,
          rw (at_wake i, w.home (thread_of s i)) h.1,
          ground (arith, at_wake i, w.state (thread_of s i)),
        );
  }

-- Only the state of the current thread of `me` has changed, and it is no longer running.
module _ (s : Sched) (me prev : ℕ) (t : Thread) (p : Parked me s)
    (here : (cpu_of s me).cur ≡ some prev) (work : (c : ℕ) → (cpu_of s c).idle ≢ some prev) where
  at_put : (i : ℕ) → prev ≢ i → thread_of (put_thread s prev t) i ≡ thread_of s i
  at_put i ne = ground (arith, get_or-set s.threads prev i t unused)

  pub put-Parked : Parked me (put_thread s prev t)
  put-Parked = record {
    present = λ c i e. rw (length-set s.threads prev t) (p.present c i e);
    on_cpu = λ c i ne e.
        rw (at_put i (λ q. ne (p.apart c me i e (here ∙ ap some q)))) (p.on_cpu c i ne e);
    apart = p.apart;
    idle_home = λ c i e.
        let h = p.idle_home c i e in
        let same_thread = at_put i (λ q. work c (e ∙ ap some (sym q))) in
        (rw (length-set s.threads prev t) h.0, rw same_thread h.1, rw same_thread h.2);
  }

pick {ℓ} : {A : Type 0} (P : A → Type ℓ) (b : Bool) (x y : A) → P x → P y → P (if b then x else y)
pick P true x y p q = p
pick P false x y p q = q

pub current_eq : (s : Sched) (me prev : ℕ) → (cpu_of s me).cur ≡ some prev → current s me ≡ prev
current_eq s me prev e = rw (e, current)

schedule_locked-Exclusive :
    (me now prev d : ℕ) (s : Sched)
    → Parked me s
    → (cpu_of s me).cur ≡ some prev
    → (cpu_of s me).idle ≡ some d
    → ((thread_of s prev).state ≡ running)
      ⊎ ((thread_of s prev).state ≡ blocked) × ((c : ℕ) → (cpu_of s c).idle ≢ some prev)
    → (thread_of s prev).state ≡ running ⊎ (wake_sleeper now (thread_of s prev)).state ≢ runnable
    → Exclusive (schedule_locked me now s)
unfolding schedule_locked wake_sleepers
schedule_locked-Exclusive me now prev d s p here idle stays slept =
    subst (λ k. Exclusive (choose me k (woken f w s))) (sym (current_eq s me prev here))
      (choose-Exclusive me prev d (woken f w s) (wake-Parked f w s me p) here idle after)
  where
    f : Thread → Thread
    f = wake_sleeper now

    w : Wakes f
    w = wake_sleeper-Wakes now

    after :
        ((thread_of (woken f w s) prev).state ≡ running)
        ⊎ ((thread_of (woken f w s) prev).state ≢ runnable)
          × ((c : ℕ) → (cpu_of s c).idle ≢ some prev)
    after = elim stays [
      | inl r ↦ inl (ground (arith, at_wake f w s prev, w.state (thread_of s prev)))
      | inr (b, work) ↦ inr ((ground (arith, at_wake f w s prev, slept)), work)
    ]

-- A tick, or a yield: whatever sleeps run out, every processor is again on a running thread, and no
-- two are on the same one.
pub schedule-Exclusive :
    (me now prev d : ℕ) (s : Sched)
    → Exclusive s
    → (cpu_of s me).cur ≡ some prev
    → (cpu_of s me).idle ≡ some d
    → Exclusive (schedule me now s)
unfolding schedule
schedule-Exclusive me now prev d s x here idle =
    pick Exclusive s.started (schedule_locked me now s) s
      (schedule_locked-Exclusive me now prev d s (x.parked me) here idle
        (inl (x.on_cpu me prev here)) (inl (x.on_cpu me prev here)))
      x

still_asleep :
    (now : ℕ) (t : Thread)
    → (t.state ≡ blocked) × ((t.wake_at ≡ 0) ⊎ (now < t.wake_at))
    → (wake_sleeper now t).state ≢ runnable
unfolding wake_sleeper
still_asleep now t h = ground arith

-- The blocking calls: whatever they write to the current thread, if it sleeps afterwards with no
-- deadline that has already passed, and is not an idle thread.
pub block_as-Exclusive :
    (me now prev d : ℕ) (f : Thread → Thread) (s : Sched)
    → ((t : Thread) → ((f t).state ≡ blocked) × (((f t).wake_at ≡ 0) ⊎ (now < (f t).wake_at)))
    → Exclusive s
    → (cpu_of s me).cur ≡ some prev
    → (cpu_of s me).idle ≡ some d
    → ((c : ℕ) → (cpu_of s c).idle ≢ some prev)
    → Exclusive (block_as me now f prev s)
unfolding block_as
block_as-Exclusive me now prev d f s sleeps x here idle work =
    pick Exclusive (not (is (thread_of s prev).state running)) s (schedule_locked me now s1) x (
      schedule_locked-Exclusive me now prev d s1 (put-Parked s me prev t (x.parked me) here work)
        here idle (inr (ground (arith, put, sleeps (thread_of s prev)), work)) (inr still))
  where
    t : Thread
    t = f (thread_of s prev)

    s1 : Sched
    s1 = put_thread s prev t

    put : thread_of s1 prev ≡ t
    put =
        ground (arith, get_or-set s.threads prev prev t unused, (x.parked me).present me prev here)

    still : (wake_sleeper now (thread_of s1 prev)).state ≢ runnable
    still = still_asleep now (thread_of s1 prev) (rw put (sleeps (thread_of s prev)))
