-- ===== src/Sched/Exclusive.antt =====
-- Two processors never run one thread: the invariant of the table of pkg/stam/sched.c that every
-- scheduling decision keeps.
use verkos.Prelude.{
  ℕ, ◌<◌, ◌≡◌, sym, ap, ◌∙◌, ◌≢◌, ◌⊎◌, inl, inr, true, false, some, arith, ◌==◌, if◌then◌else◌,
  ==_iff, Bool-cases, Option-cases, length, get_or, set, length-set, get_or-set, pos,
}
use verkos.Sched.State.{runnable, running, is, Cpu, Sched, unused, no_cpu, thread_of, cpu_of}
use verkos.Sched.Scan.{next_runnable_sound, next_runnable_complete}
use verkos.Sched.Switch.{may_run, next_runnable, leave, enter, switch_to, choose}

pub thread_of-switch_to :
    (me prev next j : ℕ) (s : Sched)
    → prev < length s.threads
    → next < length s.threads
    → next ≢ prev
    → thread_of (switch_to me prev next s) j ≡ (
        if next == j
        then enter me (thread_of s next)
        else if prev == j
        then leave (cpu_of s me) (thread_of s prev)
        else thread_of s j)
unfolding switch_to
thread_of-switch_to me prev next j s hp hn ne = ground (
  arith,
  get_or-set (set s.threads prev (leave (cpu_of s me) (thread_of s prev))) next j
      (enter me (get_or (set s.threads prev (leave (cpu_of s me) (thread_of s prev))) next unused))
      unused,
  get_or-set s.threads prev j (leave (cpu_of s me) (thread_of s prev)) unused,
  get_or-set s.threads prev next (leave (cpu_of s me) (thread_of s prev)) unused,
  length-set s.threads prev (leave (cpu_of s me) (thread_of s prev)),
)

-- The processor after the switch.
abbrev switched : ℕ → ℕ → Sched → Cpu
switched me next s = record (cpu_of s me) {
  cur = some next;
  user_table = (thread_of s next).user_table;
}

cur-switch_to :
    (me prev next c : ℕ) (s : Sched)
    → me < length s.cpus
    → (cpu_of (switch_to me prev next s) c).cur ≡ (if me == c then some next else (cpu_of s c).cur)
unfolding switch_to
cur-switch_to me prev next c s h =
    ground (arith, get_or-set s.cpus me c (switched me next s) no_cpu)

idle-switch_to :
    (me prev next c : ℕ) (s : Sched)
    → (cpu_of (switch_to me prev next s) c).idle ≡ (cpu_of s c).idle
unfolding switch_to
idle-switch_to me prev next c s = ground (arith, get_or-set s.cpus me c (switched me next s) no_cpu)

length-switch_to :
    (me prev next : ℕ) (s : Sched)
    → (length (switch_to me prev next s).threads ≡ length s.threads)
      × (length (switch_to me prev next s).cpus ≡ length s.cpus)
unfolding switch_to
length-switch_to me prev next s = (
  length-set (set s.threads prev (leave (cpu_of s me) (thread_of s prev))) next _
      ∙ length-set s.threads prev (leave (cpu_of s me) (thread_of s prev)),
  length-set s.cpus me (switched me next s),
)

-- Every processor but perhaps `me` is on a thread marked running, no two on the same, and every
-- idle thread is its own processor's and ready unless it is running there.
pub record Parked (me : ℕ) (s : Sched) : Type 0 where
  pub present : (c i : ℕ) → (cpu_of s c).cur ≡ some i → (c < length s.cpus) × (i < length s.threads)
  pub on_cpu : (c i : ℕ) → c ≢ me → (cpu_of s c).cur ≡ some i → (thread_of s i).state ≡ running
  pub apart : (c d i : ℕ) → (cpu_of s c).cur ≡ some i → (cpu_of s d).cur ≡ some i → c ≡ d
  pub idle_home :
      (c i : ℕ)
      → (cpu_of s c).idle ≡ some i
      → (i < length s.threads)
        × ((thread_of s i).home ≡ pos c)
        × (((thread_of s i).state ≡ runnable)
            ⊎ ((cpu_of s c).cur ≡ some i) × ((thread_of s i).state ≡ running))

-- The same, and `me` is on a running thread too.
pub record Exclusive (s : Sched) : Type 0 where
  pub parked : (me : ℕ) → Parked me s
  pub on_cpu : (c i : ℕ) → (cpu_of s c).cur ≡ some i → (thread_of s i).state ≡ running

module _ (me prev next : ℕ) (s : Sched) (p : Parked me s) (here : (cpu_of s me).cur ≡ some prev)
    (there : next < length s.threads) (ne : next ≢ prev)
    (ready : may_run me (thread_of s next) ≡ true) where
  at_switch :
      (j : ℕ)
      → thread_of (switch_to me prev next s) j ≡ (
          if next == j
          then enter me (thread_of s next)
          else if prev == j
          then leave (cpu_of s me) (thread_of s prev)
          else thread_of s j)
  at_switch j = thread_of-switch_to me prev next j s (p.present me prev here).1 there ne

  cur_after :
      (c : ℕ)
      → (cpu_of (switch_to me prev next s) c).cur
        ≡ (if me == c then some next else (cpu_of s c).cur)
  cur_after c = cur-switch_to me prev next c s (p.present me prev here).0

  on_cpu_after :
      (c i : ℕ)
      → (cpu_of (switch_to me prev next s) c).cur ≡ some i
      → (thread_of (switch_to me prev next s) i).state ≡ running
  unfolding enter may_run
  on_cpu_after c i e = ground (arith, at_switch i, cur_after c, p.on_cpu c i, p.apart c me i)

  apart_after :
      (c d i : ℕ)
      → (cpu_of (switch_to me prev next s) c).cur ≡ some i
      → (cpu_of (switch_to me prev next s) d).cur ≡ some i
      → c ≡ d
  unfolding may_run
  apart_after c d i e f =
      ground (arith, cur_after c, cur_after d, p.apart c d i, p.on_cpu c i, p.on_cpu d i)

  present_after :
      (c i : ℕ)
      → (cpu_of (switch_to me prev next s) c).cur ≡ some i
      → (c < length (switch_to me prev next s).cpus)
        × (i < length (switch_to me prev next s).threads)
  present_after c i e =
      ground
        (arith, cur_after c, p.present c i, p.present me prev here, length-switch_to me prev next s)

  module _
      (stays : ((thread_of s prev).state ≡ running)
        ⊎ ((c : ℕ) → (cpu_of s c).idle ≢ some prev)) where
    idle_before :
        (c i : ℕ) → (cpu_of (switch_to me prev next s) c).idle ≡ some i → (cpu_of s c).idle ≡ some i
    idle_before c i e = sym (idle-switch_to me prev next c s) ∙ e

    idle_state_after :
        (c i : ℕ)
        → (cpu_of s c).idle ≡ some i
        → ((thread_of (switch_to me prev next s) i).home ≡ pos c)
          × (((thread_of (switch_to me prev next s) i).state ≡ runnable)
              ⊎ ((cpu_of (switch_to me prev next s) c).cur ≡ some i)
                × ((thread_of (switch_to me prev next s) i).state ≡ running))
    unfolding enter leave may_run
    idle_state_after c i e =
        ground (arith, at_switch i, cur_after c, p.idle_home c i e, stays, prev_idle)
      where
        prev_idle : (i ≡ prev) → ((thread_of s prev).state ≡ running)
        prev_idle q = elim stays [ inl r ↦ r | inr n ↦ absurd (n c (e ∙ ap some q)) ]

    switch_to-Exclusive : Exclusive (switch_to me prev next s)
    switch_to-Exclusive = record {
      parked = λ m. record {
        present = present_after;
        on_cpu = λ c i ne' e. on_cpu_after c i e;
        apart = apart_after;
        idle_home = λ c i e.
            let before = idle_before c i e in
            let rest = idle_state_after c i before in
            (rw (length-switch_to me prev next s).0 (p.idle_home c i before).0, rest.0, rest.1);
      };
      on_cpu = on_cpu_after;
    }

module _ (me prev d : ℕ) (s : Sched) (p : Parked me s) (here : (cpu_of s me).cur ≡ some prev)
    (idle : (cpu_of s me).idle ≡ some d)
    (stays : ((thread_of s prev).state ≡ running)
      ⊎ ((thread_of s prev).state ≢ runnable) × ((c : ℕ) → (cpu_of s c).idle ≢ some prev)) where
  not_ready : may_run me (thread_of s prev) ≡ false
  unfolding may_run
  not_ready = ground arith

  -- The idle thread is always there to be chosen.
  idle_ready : (thread_of s prev).state ≢ running → may_run me (thread_of s d) ≡ true
  unfolding may_run
  idle_ready h = ground (arith, p.idle_home me d idle, idle_not_prev)
    where
      idle_not_prev : d ≡ prev → ⊥
      idle_not_prev e = elim stays [ inl r ↦ h r | inr (n, q) ↦ q me (idle ∙ ap some e) ]

  kept : ((thread_of s prev).state ≡ running) ⊎ ((c : ℕ) → (cpu_of s c).idle ≢ some prev)
  kept = elim stays [ inl r ↦ inl r | inr (n, q) ↦ inr q ]

  keeps : (thread_of s prev).state ≡ running → Exclusive s
  keeps r = record {
    parked = λ m. record {
      present = p.present;
      on_cpu = λ c i ne e. on_all c i e;
      apart = p.apart;
      idle_home = p.idle_home;
    };
    on_cpu = on_all;
  }
    where
      on_all : (c i : ℕ) → (cpu_of s c).cur ≡ some i → (thread_of s i).state ≡ running
      on_all c i e = elim (Bool-cases (c == me)) [
        | inl q ↦
            let i_is : some i ≡ some prev =
              sym e ∙ ap (λ x. (cpu_of s x).cur) ((==_iff c me).0 q) ∙ here in
            ground arith
        | inr q ↦ p.on_cpu c i (λ x. ground arith) e
      ]

  -- A processor that decides who runs next, its own thread running, blocked or ended, leaves the
  -- machine with every processor on a running thread and no two on the same.
  pub choose-Exclusive : Exclusive (choose me prev s)
  unfolding choose
  choose-Exclusive = elim (Option-cases (next_runnable me prev s)) [
    | inr (n, e) ↦
        rw (e, choose)
          (elim (Bool-cases (n == prev)) [
            | inl q ↦ absurd (ground (arith, next_runnable_sound me prev s n e, not_ready))
            | inr q ↦ rw q (
                switch_to-Exclusive me prev n s p here (next_runnable_sound me prev s n e).1
                  (λ x. ground arith) (next_runnable_sound me prev s n e).0 kept)
          ])
    | inl e ↦
        rw (e, choose)
          (elim (Bool-cases (is (thread_of s prev).state running)) [
            | inl q ↦ rw q (keeps (ground arith))
            | inr q ↦ absurd (
                next_runnable_complete me prev d s (p.present me prev here).1
                  (p.idle_home me d idle).0 (idle_ready (λ x. ground arith)) e)
          ])
  ]
