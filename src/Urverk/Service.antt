-- ===== src/Urverk/Service.antt =====
-- A service of pkg/urverk/urverk.c while the system runs: started, collected when its process ends,
-- started again, stopped. What the system calls answer is an argument.
use verkos.Prelude.{ℕ, ◌+◌, ◌-◌, Bool, true, false, Option, none, some, ltb, ◌==◌, if◌then◌else◌}

pub data ServiceType : Type 0 where
  simple : ServiceType
  oneshot : ServiceType
  timer : ServiceType
  socket : ServiceType

pub data Respawn : Type 0 where
  respawn_no : Respawn
  respawn_on_failure : Respawn
  respawn_always : Respawn

-- svc_t, as far as the supervision changes it or looks at it
pub record Svc : Type 0 where
  pub kind : ServiceType
  pub respawn : Respawn
  pub lfd : ℕ
  pub pid : ℕ
  pub ready : Bool
  pub started : Bool
  pub restarts : ℕ
  pub window : ℕ

-- The status of a process that has ended.
pub data Status : Type 0 where
  exited : ℕ → Status
  signalled : ℕ → Status

abbrev pub is_success : Status → Bool
is_success (exited code) = code == 0
is_success (signalled sig) = false

-- A new process, or none: there is no program to run, or fork fails.
abbrev pub with_process : Option ℕ → Svc → Svc
with_process none s = s
with_process (some p) s = record s {
  pid = p;
  started = true;
  ready = elim s.kind as (λ k. Bool) [
    | simple ↦ true
    | oneshot ↦ s.ready
    | timer ↦ s.ready
    | socket ↦ s.ready
  ];
}

unfoldable pub start_service : Option ℕ → Svc → Svc
start_service forked s = with_process forked s

-- A new window of time, where the last one is over.
abbrev pub in_window : ℕ → Svc → Svc
in_window now s = if ltb 60 (now - s.window) then record s { window = now; restarts = 0 } else s

-- ++s->restarts > 5
abbrev pub counted : Svc → Bool × Svc
counted s =
    if ltb 5 (s.restarts + 1)
    then (false, record s { restarts = s.restarts + 1; respawn = respawn_no })
    else (true, record s { restarts = s.restarts + 1 })

unfoldable pub should_respawn : Bool → ℕ → Status → Svc → Bool × Svc
should_respawn shutdown now status s =
    if shutdown then (false, s) else elim s.respawn as (λ r. Bool × Svc) [
      | respawn_no ↦ (false, s)
      | respawn_on_failure ↦ if is_success status then (false, s) else counted (in_window now s)
      | respawn_always ↦ counted (in_window now s)
    ]

-- The process of the service has ended: `forked` and `listening` are what starting it again and taking
-- its port back give. Whether it was started again, and the service.
abbrev pub respawned : Option ℕ → Bool × Svc → Bool × Svc
respawned forked (again, s) = if again then (true, start_service forked s) else (false, s)

unfoldable pub reap : Bool → ℕ → Status → Option ℕ → ℕ → Svc → Bool × Svc
reap shutdown now status forked listening s =
    let ended : Svc = record s { pid = 0 } in
    let again = respawned forked (should_respawn shutdown now status ended) in
    elim s.kind as (λ k. Bool × Svc) [
      | simple ↦ again
      | oneshot ↦ (false, record ended { ready = is_success status })
      | timer ↦ (false, ended)
      | socket ↦ if shutdown then again else (false, record ended { lfd = listening })
    ]

-- SIGTERM, three seconds, SIGKILL: the process is gone then, and `respawn` is as it was.
unfoldable pub stop_service : Svc → Svc
stop_service s = record s { pid = 0 }

-- The commands `stop` and `start` of the control socket.
unfoldable pub ctl_stop : Svc → Svc
ctl_stop s = record (stop_service s) { respawn = respawn_no }

unfoldable pub ctl_start : Option ℕ → Svc → Svc
ctl_start forked s =
    start_service forked (record (if ltb 0 s.pid then stop_service s else s) { restarts = 0 })
