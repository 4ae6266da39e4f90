-- ===== src/Sched/Stale.antt =====
-- A deadline that was left over when a signal ended a sleep, in pkg/stam/sched.c.
use verkos.Prelude.{
  ℕ, ◌≤◌, ◌<◌, ◌≡◌, sym, ◌∙◌, subst, ◌≢◌, inl, inr, true, false, some, arith, ◌==◌, Bool-cases,
  Option-cases, length, set, length-set, length-map, get_or-set, neg,
}
use verkos.Sched.State.{runnable, running, Sched, unused, thread_of, put_thread, cpu_of}
use verkos.Sched.Switch.{
  wake_sleeper, wake_sleepers, may_run, next_runnable, choose, schedule_locked,
}
use verkos.Sched.Block.{block_as, at_prompt, thread_block_on_console}
use verkos.Sched.Scan.{next_runnable_sound, next_runnable_complete}
use verkos.Sched.Keep.{wake_sleeper-Wakes, at_wake, woken, current_eq}

choose_itself :
    (me prev : ℕ) (s : Sched) → next_runnable me prev s ≡ some prev → choose me prev s ≡ s
unfolding choose
choose_itself me prev s e = ground (arith, e)

module _ (me now prev : ℕ) (s : Sched) where
  -- The table once the thread at the prompt is marked blocked, and once the sleeps are looked at.
  abbrev pub marked : Sched
  marked = put_thread s prev (at_prompt (thread_of s prev))

  abbrev pub looked_at : Sched
  looked_at = woken (wake_sleeper now) (wake_sleeper-Wakes now) marked

  prev_after :
      (thread_of s prev).state ≡ running
      → prev < length s.threads
      → (thread_of s prev).home ≡ neg 1
      → (thread_of s prev).wake_at ≢ 0
      → (thread_of s prev).wake_at ≤ now
      → (may_run me (thread_of looked_at prev) ≡ true)
        × ((thread_of looked_at prev).state ≡ runnable)
  unfolding wake_sleeper at_prompt may_run
  prev_after run at h w le = ground (
    arith,
    at_wake (wake_sleeper now) (wake_sleeper-Wakes now) marked prev,
    get_or-set s.threads prev prev (at_prompt (thread_of s prev)) unused,
  )

  only :
      may_run me (thread_of looked_at prev) ≡ true
      → prev < length s.threads
      → ((j : ℕ) → j ≢ prev → j < length s.threads → may_run me (thread_of looked_at j) ≡ false)
      → next_runnable me prev looked_at ≡ some prev
  only r at others = elim (Option-cases (next_runnable me prev looked_at)) [
    | inl n ↦ absurd (next_runnable_complete me prev prev looked_at same_length same_length r n)
    | inr (k, e) ↦
        let found = next_runnable_sound me prev looked_at k e in
        elim (Bool-cases (k == prev)) [
          | inl q ↦ ground (arith, e)
          | inr q ↦ absurd (ground (arith, found, others k, length_eq))
        ]
  ]
    where
      length_eq : length looked_at.threads ≡ length s.threads
      length_eq =
          length-map (set s.threads prev (at_prompt (thread_of s prev))) (wake_sleeper now)
          ∙ length-set s.threads prev (at_prompt (thread_of s prev))

      same_length : prev < length looked_at.threads
      same_length = rw length_eq at

  -- A thread that waits for a line with a deadline left over that has passed, while nobody else may
  -- run, returns at once: it is still on its processor but marked runnable, so that another
  -- processor may run it as well.
  pub thread_block_on_console_stale :
      (cpu_of s me).cur ≡ some prev
      → (thread_of s prev).state ≡ running
      → prev < length s.threads
      → (thread_of s prev).home ≡ neg 1
      → (thread_of s prev).wake_at ≢ 0
      → (thread_of s prev).wake_at ≤ now
      → ((j : ℕ) → j ≢ prev → j < length s.threads → may_run me (thread_of looked_at j) ≡ false)
      → ((cpu_of (thread_block_on_console me now s) me).cur ≡ some prev)
        × ((thread_of (thread_block_on_console me now s) prev).state ≡ runnable)
  unfolding block_as schedule_locked wake_sleepers thread_block_on_console
  thread_block_on_console_stale here run at h w le others =
      rw whole (here, (prev_after run at h w le).1)
    where
      inner : block_as me now at_prompt prev s ≡ looked_at
      inner = ground (
        arith,
        run,
        current_eq marked me prev here,
        choose_itself me prev looked_at (only (prev_after run at h w le).0 at others),
      )

      whole : thread_block_on_console me now s ≡ looked_at
      whole =
          subst (λ k. block_as me now at_prompt k s ≡ looked_at) (sym (current_eq s me prev here))
            inner
