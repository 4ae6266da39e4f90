-- ===== src/Urverk/Tests.antt =====
-- pkg/urverk/urverk.c with a service that is always started again.
use verkos.Prelude.{ℕ, ◌-◌, ◌≤◌, ◌≡◌, refl, true, false, some, [], ◌∷◌, arith}
use verkos.Urverk.Service.{simple, respawn_always, Svc, signalled, reap, ctl_stop, ctl_start}
use verkos.Urverk.Restarts.{Death, times_started, times_started_le, reap-ctl_start}

abbrev daemon : Svc
daemon = record {
  kind = simple;
  respawn = respawn_always;
  lfd = 0;
  pid = 40;
  ready = true;
  started = true;
  restarts = 3;
  window = 1000;
}

abbrev crash : ℕ → Death
crash t = record { now = t; status = signalled 11; forked = some 41; listening = 0 }

times_started_le_example :
    times_started (crash 1001 ∷ crash 1002 ∷ crash 1060 ∷ []) daemon ≤ 5 - daemon.restarts
times_started_le_example =
    times_started_le (crash 1001 ∷ crash 1002 ∷ crash 1060 ∷ []) daemon
      (omega arith, (omega arith, (omega arith, refl)))

reap-ctl_start_example :
    (reap false 1001 (signalled 11) (some 41) 0 (ctl_start (some 42) (ctl_stop daemon))).0 ≡ false
reap-ctl_start_example = reap-ctl_start (crash 1001) (some 42) daemon
