-- ===== src/Signal/Resume.antt =====
-- Coming back from a handler, in pkg/stam/signal.c.
use verkos.Prelude.{
  ℕ, zero, suc, ◌+◌, ◌*◌, ◌/◌, ◌%◌, ◌^◌, ◌<◌, ◌≡◌, refl, ◌≢◌, inl, inr, true, false, some, arith,
  Option-cases, get_or-set,
}
use verkos.Sched.State.{Sched, unused, thread_of, current}
use verkos.Memory.Frames.{Frames}
use verkos.Memory.Tables.{L1}
use verkos.Memory.Spaces.{range_ok, made_writable, walk_to_leaf, vm_user_ok}
use verkos.Signal.Frame.{Regs, SigFrame, sigframe_magic, UserMem, user_ok, load_frame}
use verkos.Signal.Calls.{flags_only, sig_return}

-- The frame that a delivery writes.
abbrev pub frame_of : ℕ → Regs → Sched → SigFrame
frame_of me f s = record {
  magic = sigframe_magic;
  blocked = (thread_of s (current s me)).held;
  saved = f;
}

range_ok_read :
    (fuel p end : ℕ) (l1 : L1) (fr : Frames)
    → range_ok fuel p end false l1 fr ≡ ((range_ok fuel p end false l1 fr).0, l1, fr)
unfolding range_ok made_writable
range_ok_read zero p end l1 fr = refl
range_ok_read (suc fuel) p end l1 fr = elim (Option-cases (walk_to_leaf p l1)) [
  | inl m ↦ ground (arith, m)
  | inr ((d, size), e) ↦
      let ih = range_ok_read fuel (p / size * size + size) end l1 fr in ground (arith, e, ih)
]

-- Looking whether memory may be read changes nothing.
user_ok-read : (va len : ℕ) (m : UserMem) → (user_ok va len false m).1 ≡ m
unfolding vm_user_ok
user_ok-read va len m =
    let r = range_ok_read (len / 4096 + 2) (va / 4096 * 4096) (va + len) m.space m.frames in
    ground (arith, r)

-- Whatever the program left on its stack, it goes on at EL0: of the processor state only the four
-- flags are taken from the frame, and the address is one of its own.
pub sig_return_safe :
    (me : ℕ) (f r : Regs) (mem : UserMem) (s s' : Sched)
    → sig_return me f mem s ≡ some (r, s')
    → (r.spsr % 2 ^ 28 ≡ 0)
      × (r.spsr < 2 ^ 32)
      × ((user_ok r.elr 4 false mem).0 ≡ true)
      × ((i : ℕ) → i ≢ current s me → thread_of s' i ≡ thread_of s i)
unfolding sig_return flags_only
sig_return_safe me f r mem s s' e = (
  ground (arith, e),
  ground (arith, e),
  ground (arith, e),
  λ i n. ground (
    arith,
    e,
    get_or-set s.threads (current s me) i
        (record (thread_of s (current s me)) { held = (load_frame f.sp_el0 mem).blocked }) unused,
  ),
)
