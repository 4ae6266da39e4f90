-- ===== src/Sched/State.antt =====
-- The state of pkg/stam/sched.c: the slot table, and what each processor runs. A pointer to a thread
-- is the index of its slot. The thread's name, its saved registers, its manifest (`sav`) and the
-- contents of its stack are left out; a word whose bits are used one by one is the function from the bit's number.
use verkos.Prelude.{
  ℕ, ◌+◌, Bool, true, false, not, ◌&&◌, ◌||◌, Option, none, some, List, ◌==◌, length, get_or, set,
  replicate, ℤ, pos,
}

abbrev pub max_cpus : ℕ
max_cpus = 8

abbrev pub max_threads : ℕ
max_threads = 16 + max_cpus

abbrev pub nsig : ℕ
nsig = 32

abbrev pub nfd : ℕ
nfd = 8

pub data ThreadState : Type 0 where
  runnable zombie blocked free running : ThreadState

abbrev pub code : ThreadState → ℕ
code runnable = 0
code zombie = 1
code blocked = 2
code free = 3
code running = 4

abbrev pub is : ThreadState → ThreadState → Bool
is a b = code a == code b

abbrev pub wait_child : ℕ
wait_child = 1

abbrev pub wait_console : ℕ
wait_console = 2

abbrev pub wait_pipe : ℕ
wait_pipe = 3

pub record SigAction : Type 0 where
  pub handler : ℕ
  pub restorer : ℕ
  pub mask : ℕ → Bool

pub record Thread : Type 0 where
  pub stack_low : ℕ
  pub id : ℤ
  pub state : ThreadState
  pub slices : ℕ
  pub space : ℕ
  pub user_table : ℕ
  pub parent : ℤ
  pub status : ℤ
  pub wait_reason : ℕ
  pub last_cpu : ℤ
  pub ran_on : ℕ → Bool
  pub home : ℤ
  pub pgid : ℤ
  pub pending : ℕ → Bool
  pub wait_object : Option ℕ
  pub wake_at : ℕ
  pub held : ℕ → Bool
  pub sigact : List SigAction
  pub fd : List (Option ℕ)

-- cpu_t; its index is its place in the list.
pub record Cpu : Type 0 where
  pub cur : Option ℕ
  pub idle : Option ℕ
  pub user_table : ℕ

-- `threads` are the slots that have ever been used, so `n_threads` is its length.
pub record Sched : Type 0 where
  pub threads : List Thread
  pub next_id : ℕ
  pub cpus : List Cpu
  pub switches : ℕ
  pub started : Bool

abbrev pub no_action : SigAction
no_action = record { handler = 0; restorer = 0; mask = λ b. false }

-- An entry of the static table that was never used, once alloc_slot has marked it.
abbrev pub unused : Thread
unused = record {
  stack_low = 0;
  id = pos 0;
  state = free;
  slices = 0;
  space = 0;
  user_table = 0;
  parent = pos 0;
  status = pos 0;
  wait_reason = 0;
  last_cpu = pos 0;
  ran_on = λ b. false;
  home = pos 0;
  pgid = pos 0;
  pending = λ b. false;
  wait_object = none;
  wake_at = 0;
  held = λ b. false;
  sigact = replicate nsig no_action;
  fd = replicate nfd none;
}

abbrev pub no_cpu : Cpu
no_cpu = record { cur = none; idle = none; user_table = 0 }

abbrev pub thread_of : Sched → ℕ → Thread
thread_of s i = get_or s.threads i unused

abbrev pub put_thread : Sched → ℕ → Thread → Sched
put_thread s i t = record s { threads = set s.threads i t }

abbrev pub cpu_of : Sched → ℕ → Cpu
cpu_of s me = get_or s.cpus me no_cpu

abbrev pub put_cpu : Sched → ℕ → Cpu → Sched
put_cpu s me c = record s { cpus = set s.cpus me c }

-- `current` where it is not null; a null one, before sched_init, is no slot.
abbrev pub current : Sched → ℕ → ℕ
current s me = elim (cpu_of s me).cur [ some i ↦ i | none ↦ length s.threads ]

abbrev pub same : Option ℕ → Option ℕ → Bool
same none none = true
same (some a) (some b) = a == b
same none (some b) = false
same (some a) none = false

-- word | 1 << b, word & ~(1 << b)
abbrev pub set_bit : ℕ → (ℕ → Bool) → ℕ → Bool
set_bit b w k = k == b || w k

abbrev pub clear_bit : ℕ → (ℕ → Bool) → ℕ → Bool
clear_bit b w k = not (k == b) && w k
