-- ===== src/Signal/Calls.antt =====
-- The functions of pkg/stam/signal.c, for the processor `me`, and what the return from a system call
-- in pkg/stam/syscall.c does with them.
use verkos.Prelude.{
  ℕ, ◌+◌, ◌-◌, ◌*◌, ◌/◌, ◌%◌, ◌^◌, Bool, true, false, not, ◌&&◌, ◌||◌, Option, none, some, List, [],
  ◌∷◌, map, ltb, leb, ◌==◌, if◌then◌else◌, get_or, set, ℤ, pos, negsuc, neg,
}
use verkos.Sched.State.{
  SigAction, Thread, Sched, no_action, thread_of, put_thread, current, clear_bit, nsig,
}
use verkos.Sched.Block.{sigkill, thread_signalled}
use verkos.Signal.Frame.{
  Regs, sigframe_magic, frame_size, UserMem, user_ok, load_frame, store_frame,
}

-- current->sigact[sig]
abbrev pub action_of : Thread → ℕ → SigAction
action_of t sig = get_or t.sigact sig no_action

-- Whether the program may be entered there: 0 and 1 are the default and to ignore. A check for reading
-- leaves the memory as it is (user_ok-read), so that its answer alone is taken.
unfoldable pub is_acceptable : ℕ → ℕ → UserMem → Bool
is_acceptable handler restorer mem =
    not (ltb 1 handler)
    || ((user_ok handler 4 false mem).0
        && (not (restorer == 0) && (user_ok restorer 4 false mem).0))

unfoldable pub sig_action : ℕ → ℤ → ℕ → ℕ → (ℕ → Bool) → UserMem → Sched → ℤ × Sched
sig_action me (negsuc n) handler restorer mask mem s = (neg 22, s)
sig_action me (pos sig) handler restorer mask mem s =
    if sig == 0 || leb nsig sig
    then (neg 22, s)
    else if sig == sigkill
    then (neg 22, s)
    else if not (is_acceptable handler restorer mem)
    then (neg 14, s)
    else let t = thread_of s (current s me) in
      (
        pos 0,
        put_thread s (current s me) (record t {
          sigact =
              set t.sigact sig (record { handler = handler; restorer = restorer; mask = mask });
        }),
      )

-- A caught signal is set back to the default, an ignored one stays ignored.
unfoldable pub uncatch : SigAction → SigAction
uncatch a = if ltb 1 a.handler then no_action else a

unfoldable pub uncatch_all : List SigAction → List SigAction
uncatch_all [] = []
uncatch_all (a ∷ as') = a ∷ map uncatch as'

unfoldable pub sig_exec_reset : ℕ → Sched → Sched
sig_exec_reset me s =
    let t = thread_of s (current s me) in
    put_thread s (current s me) (record t { sigact = uncatch_all t.sigact; held = λ b. false })

-- (sp_el0 - sizeof(sigframe_t)) & ~15, on 64 bits
unfoldable pub frame_at : Regs → ℕ
frame_at f = (f.sp_el0 + 2 ^ 64 - frame_size) % 2 ^ 64 / 16 * 16

-- The thread while its handler runs.
unfoldable pub handling : ℕ → Thread → Thread
handling sig t = record t {
  held = λ b. t.held b || ((action_of t sig).mask b || b == sig);
  pending = clear_bit sig t.pending;
}

-- The registers the handler starts with.
unfoldable pub into_handler : ℕ → ℕ → SigAction → Regs → Regs
into_handler sig sp a f = record f {
  sp_el0 = sp;
  elr = a.handler;
  lr = a.restorer;
  x = set f.x 0 sig;
}

-- The result tells whether the program goes on; otherwise the caller ends it.
unfoldable pub sig_deliver : ℕ → ℕ → Regs → UserMem → Sched → Bool × Regs × UserMem × Sched
sig_deliver me sig f mem s =
    let t = thread_of s (current s me) in
    let a = action_of t sig in
    let sp = frame_at f in
    let (ok, mem') = user_ok sp frame_size true mem in
    if a.handler == 1
    then (
      true,
      f,
      mem,
      put_thread s (current s me) (record t { pending = clear_bit sig t.pending }),
    )
    else if a.handler == 0
    then (false, f, mem, s)
    else if not ok
    then (false, f, mem', s)
    else (
      true,
      into_handler sig sp a f,
      store_frame sp (record { magic = sigframe_magic; blocked = t.held; saved = f }) mem',
      put_thread s (current s me) (handling sig t),
    )

-- spsr & 0xf0000000
unfoldable pub flags_only : ℕ → ℕ
flags_only spsr = spsr / 2 ^ 28 % 16 * 2 ^ 28

-- `some` the registers and the state when the frame is accepted; the call then returns x0. Without
-- one it returns -14 and changes nothing.
unfoldable pub sig_return : ℕ → Regs → UserMem → Sched → Option (Regs × Sched)
sig_return me f mem s =
    let sf = load_frame f.sp_el0 mem in
    let t = thread_of s (current s me) in
    if not (user_ok f.sp_el0 frame_size false mem).0
    then none
    else if not (sf.magic == sigframe_magic)
    then none
    else if not (user_ok sf.saved.elr 4 false mem).0
    then none
    else some (
      record sf.saved { spsr = flags_only sf.saved.spsr },
      put_thread s (current s me) (record t { held = sf.blocked }),
    )

-- The end of a system call: the status that the thread exits with, if it does.
unfoldable pub act_on_signal : ℕ → Regs → UserMem → Sched → Option ℤ × Regs × UserMem × Sched
act_on_signal me f mem s =
    let sig = thread_signalled me s in
    let (alive, f', mem', s') = sig_deliver me sig f mem s in
    if sig == 0
    then (none, f, mem, s)
    else if alive
    then (none, f', mem', s')
    else (some (pos (128 + sig)), f', mem', s')
