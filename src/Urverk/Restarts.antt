-- ===== src/Urverk/Restarts.antt =====
-- How often pkg/urverk/urverk.c starts a service again.
use verkos.Prelude.{
  ℕ, zero, ◌+◌, ◌-◌, ◌≤◌, ◌≡◌, refl, sym, subst, inl, inr, Bool, true, false, Option, none, some,
  List, [], ◌∷◌, arith, ltb, if◌then◌else◌, Bool-cases,
}
use verkos.Urverk.Service.{
  ServiceType, simple, oneshot, timer, socket, Respawn, respawn_no, respawn_on_failure,
  respawn_always, Svc, Status, is_success, start_service, in_window, counted, should_respawn,
  respawned, reap, stop_service, ctl_stop, ctl_start,
}

-- One end of the process of a service.
pub record Death : Type 0 where
  pub now : ℕ
  pub status : Status
  pub forked : Option ℕ
  pub listening : ℕ

abbrev pub reaped : Death → Svc → Bool × Svc
reaped d s = reap false d.now d.status d.forked d.listening s

-- How often it is started again.
unfoldable pub times_started : List Death → Svc → ℕ
times_started [] s = 0
times_started (d ∷ ds) s =
    let (again, s') = reaped d s in (if again then 1 else 0) + times_started ds s'

abbrev pub AllWithin : ℕ → List Death → Type 0
AllWithin window [] = zero ≡ zero
AllWithin window (d ∷ ds) = (d.now ≤ window + 60) × AllWithin window ds

-- The window stays, and what is left of the five goes down with each start.
Counts : Svc → Bool × Svc → Type 0
Counts s (again, s') =
    (s'.window ≡ s.window) × ((if again then 1 else 0) + (5 - s'.restarts) ≤ 5 - s.restarts)

counted-Counts : (now : ℕ) (s : Svc) → now ≤ s.window + 60 → Counts s (counted (in_window now s))
unfolding Counts
counted-Counts now s h =
    let same_window : ltb 60 (now - s.window) ≡ false = ground (arith, h) in
    elim (Bool-cases (ltb 5 (s.restarts + 1))) [
      | inl y ↦ rw (same_window, y) (refl, ground (arith, y))
      | inr n ↦ rw (same_window, n) (refl, ground (arith, n))
    ]

should_respawn-Counts :
    (now : ℕ) (status : Status) (s : Svc)
    → now ≤ s.window + 60
    → Counts s (should_respawn false now status s)
unfolding Counts should_respawn
should_respawn-Counts now status s h = go s.respawn
  where
    go :
        (r : Respawn)
        → Counts s (elim r as (λ r. Bool × Svc) [
          | respawn_no ↦ (false, s)
          | respawn_on_failure ↦ if is_success status then (false, s) else counted (in_window now s)
          | respawn_always ↦ counted (in_window now s)
        ])
    go respawn_no = (refl, omega arith)
    go respawn_on_failure = elim (Bool-cases (is_success status)) [
      | inl y ↦ rw y (refl, omega arith)
      | inr n ↦ rw n (counted-Counts now s h)
    ]
    go respawn_always = counted-Counts now s h

respawned-Counts :
    (forked : Option ℕ) (s : Svc) (r : Bool × Svc) → Counts s r → Counts s (respawned forked r)
unfolding Counts start_service
respawned-Counts none s (true, s') c = c
respawned-Counts (some p) s (true, s') c = c
respawned-Counts forked s (false, s') c = c

reaped-Counts : (d : Death) (s : Svc) → d.now ≤ s.window + 60 → Counts s (reaped d s)
unfolding Counts reap
reaped-Counts d s h = go s.kind
  where
    ended : Svc
    ended = record s { pid = 0 }

    again : Bool × Svc
    again = respawned d.forked (should_respawn false d.now d.status ended)

    go :
        (k : ServiceType)
        → Counts s (elim k as (λ k. Bool × Svc) [
          | simple ↦ again
          | oneshot ↦ (false, record ended { ready = is_success d.status })
          | timer ↦ (false, ended)
          | socket ↦ if false then again else (false, record ended { lfd = d.listening })
        ])
    go simple = respawned-Counts d.forked s _ (should_respawn-Counts d.now d.status ended h)
    go oneshot = (refl, omega arith)
    go timer = (refl, omega arith)
    go socket = (refl, omega arith)

-- Within the minute that a window lasts, a service is started again five times at most, the starts that
-- the window has seen already included, however often and however its process ends.
pub times_started_le :
    (ds : List Death) (s : Svc) → AllWithin s.window ds → times_started ds s ≤ 5 - s.restarts
unfolding times_started Counts
times_started_le [] s w = omega arith
times_started_le (d ∷ ds) s w =
    let c = reaped-Counts d s w.0 in
    let rest = times_started_le ds (reaped d s).1 (subst (λ k. AllWithin k ds) (sym c.0) w.1) in
    omega (arith, c.1, rest)

-- A service that was stopped on the control socket and then started there again is not supervised any
-- more: whenever its process ends, in whatever way, it is not started again.
pub reap-ctl_start :
    (d : Death) (forked : Option ℕ) (s : Svc) → (reaped d (ctl_start forked (ctl_stop s))).0 ≡ false
unfolding reap ctl_start ctl_stop stop_service start_service should_respawn
reap-ctl_start d none s = ground arith
reap-ctl_start d (some p) s = ground arith
