-- ===== src/Signal/Kill.antt =====
-- SIGKILL cannot be caught, in pkg/stam/signal.c.
use verkos.Prelude.{
  ℕ, zero, suc, ◌≡◌, refl, inl, inr, Bool, false, some, List, [], ◌∷◌, map, arith, ◌==◌, Bool-cases,
  get_or, set, get_or-set, ℤ, pos, negsuc,
}
use verkos.Sched.State.{Thread, Sched, SigAction, no_action, unused, thread_of, put_thread, current}
use verkos.Sched.Block.{sigkill, thread_signalled}
use verkos.Signal.Frame.{Regs, UserMem}
use verkos.Signal.Calls.{
  action_of, sig_action, uncatch, uncatch_all, sig_exec_reset, sig_deliver, act_on_signal,
}

-- No thread of the table has an action for SIGKILL.
abbrev pub Killable : Sched → Type 0
Killable s = (i : ℕ) → (action_of (thread_of s i) sigkill).handler ≡ 0

set-Killable :
    (s : Sched) (k : ℕ) (t : Thread)
    → Killable s
    → (action_of t sigkill).handler ≡ 0
    → Killable (put_thread s k t)
set-Killable s k t x e i = ground (arith, get_or-set s.threads k i t unused, x i, e)

abbrev with_action : Thread → ℕ → SigAction → Thread
with_action t sig a = record t { sigact = set t.sigact sig a }

kept :
    (t : Thread) (sig : ℕ) (a : SigAction)
    → (sig == sigkill) ≡ false
    → (action_of t sigkill).handler ≡ 0
    → (action_of (with_action t sig a) sigkill).handler ≡ 0
kept t sig a n e = ground (arith, get_or-set t.sigact sig sigkill a no_action, n, e)

-- sig_action never installs a handler for SIGKILL, whatever it is asked.
pub sig_action-Killable :
    (me : ℕ) (sig : ℤ) (handler restorer : ℕ) (mask : ℕ → Bool) (mem : UserMem) (s : Sched)
    → Killable s
    → Killable (sig_action me sig handler restorer mask mem s).1
unfolding sig_action
sig_action-Killable me (negsuc n) handler restorer mask mem s x = x
sig_action-Killable me (pos sig) handler restorer mask mem s x =
    elim (Bool-cases (sig == sigkill)) [
      | inl y ↦ ground (arith, y, x)
      | inr n ↦ ground (
        arith,
        x,
        set-Killable s (current s me) (with_action (thread_of s (current s me)) sig a) x
            (kept (thread_of s (current s me)) sig a n (x (current s me))),
      )
    ]
  where
    a : SigAction
    a = record { handler = handler; restorer = restorer; mask = mask }

reset_map :
    (as' : List SigAction) (i : ℕ)
    → (get_or as' i no_action).handler ≡ 0
    → (get_or (map uncatch as') i no_action).handler ≡ 0
unfolding uncatch
reset_map [] i e = e
reset_map (a ∷ as') zero e = ground arith
reset_map (a ∷ as') (suc i) e = reset_map as' i e

reset_all :
    (as' : List SigAction) (i : ℕ)
    → (get_or as' i no_action).handler ≡ 0
    → (get_or (uncatch_all as') i no_action).handler ≡ 0
unfolding uncatch_all
reset_all [] i e = e
reset_all (a ∷ as') zero e = e
reset_all (a ∷ as') (suc i) e = reset_map as' i e

pub sig_exec_reset-Killable : (me : ℕ) (s : Sched) → Killable s → Killable (sig_exec_reset me s)
unfolding sig_exec_reset
sig_exec_reset-Killable me s x =
    set-Killable s (current s me) _ x
      (reset_all (thread_of s (current s me)).sigact sigkill (x (current s me)))

-- Where SIGKILL is what thread_signalled reports, the thread exits with 128 + SIGKILL, whatever it
-- has installed and wherever its stack is.
pub act_on_signal_kills :
    (me : ℕ) (f : Regs) (mem : UserMem) (s : Sched)
    → Killable s
    → thread_signalled me s ≡ sigkill
    → act_on_signal me f mem s ≡ (some (pos 137), f, mem, s)
unfolding act_on_signal sig_deliver
act_on_signal_kills me f mem s x e = rw (e, x (current s me)) refl
