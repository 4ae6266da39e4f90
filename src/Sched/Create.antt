-- ===== src/Sched/Create.antt =====
-- Slots and how they are filled, of pkg/stam/sched.c. What `alloc_pages` returns is an argument, the
-- address of the stack or `none`.
use verkos.Prelude.{
  ℕ, ◌+◌, true, false, Option, none, some, [], ◌∷◌, ◌++◌, ltb, if◌then◌else◌, length, replicate, ℤ,
  pos, neg, find_index,
}
use verkos.Sched.State.{
  runnable, free, running, is, Sched, unused, no_action, thread_of, put_thread, cpu_of, put_cpu,
  current, max_threads, nsig, nfd,
}

unfoldable pub alloc_slot : Sched → Option (ℕ × Sched)
alloc_slot s = elim (find_index (λ t. is t.state free) s.threads) [
  | some i ↦ some (i, s)
  | none ↦
      if ltb (length s.threads) max_threads
      then some (length s.threads, record s { threads = s.threads ++ (unused ∷ []) })
      else none
]

-- current ? current->id : -1, and the same for the group
unfoldable pub inherited_parent : ℕ → Sched → ℤ
inherited_parent me s = elim (cpu_of s me).cur [ some i ↦ (thread_of s i).id | none ↦ neg 1 ]

unfoldable pub inherited_pgid : ℕ → Sched → ℤ
inherited_pgid me s = elim (cpu_of s me).cur [ some i ↦ (thread_of s i).pgid | none ↦ pos 0 ]

-- Everything but the state.
unfoldable pub slot_init : ℕ → ℕ → ℕ → Sched → Sched
slot_init me i space s =
    record (put_thread s i (record {
      stack_low = 0;
      id = pos s.next_id;
      state = (thread_of s i).state;
      slices = 0;
      space = space;
      user_table = 0;
      parent = inherited_parent me s;
      status = pos 0;
      wait_reason = 0;
      last_cpu = neg 1;
      ran_on = λ b. false;
      home = neg 1;
      pgid = inherited_pgid me s;
      pending = λ b. false;
      wait_object = none;
      wake_at = 0;
      held = λ b. false;
      sigact = replicate nsig no_action;
      fd = replicate nfd none;
    })) { next_id = s.next_id + 1 }

unfoldable pub thread_create : ℕ → Option ℕ → Sched → Option ℕ × Sched
thread_create me stack s = elim (alloc_slot s) [
  | none ↦ (none, s)
  | some (i, s1) ↦ elim stack [
    | none ↦ (none, put_thread s1 i (record (thread_of s1 i) { state = free }))
    | some at ↦
        let s2 = slot_init me i 0 s1 in
        (some i, put_thread s2 i (record (thread_of s2 i) { stack_low = at; state = runnable }))
  ]
]

-- The copy of one already in the middle of a system call. The descriptors are `current`'s; that each of
-- the files behind them gains a holder (`file_ref` of Files.Objects) is left to the caller.
unfoldable pub thread_fork : ℕ → Option ℕ → ℕ → Sched → Option ℕ × Sched
thread_fork me stack space s = elim (alloc_slot s) [
  | none ↦ (none, s)
  | some (i, s1) ↦ elim stack [
    | none ↦ (none, put_thread s1 i (record (thread_of s1 i) { state = free }))
    | some at ↦
        let s2 = slot_init me i space s1 in
        let p = thread_of s2 (current s2 me) in
        (
          some i,
          put_thread s2 i (record (thread_of s2 i) {
            fd = p.fd;
            sigact = p.sigact;
            held = p.held;
            stack_low = at;
            state = runnable;
          }),
        )
  ]
]

-- The boot code's thread, on processor `me`.
unfoldable pub sched_init : ℕ → Sched → Sched
sched_init me s = elim (alloc_slot s) [
  | none ↦ s
  | some (i, s1) ↦
      let s2 = slot_init me i 0 s1 in
      let s3 = put_thread s2 i (record (thread_of s2 i) { parent = neg 1; state = running }) in
      record (put_cpu s3 me (record (cpu_of s3 me) { cur = some i })) { started = true }
]

-- A secondary processor's own thread, which is its idle thread.
unfoldable pub sched_cpu_init : ℕ → Sched → Sched
sched_cpu_init me s = elim (alloc_slot s) [
  | none ↦ s
  | some (i, s1) ↦
      let s2 = slot_init me i 0 s1 in
      let s3 =
        put_thread s2 i
          (record (thread_of s2 i) { parent = neg 1; home = pos me; state = running }) in
      put_cpu s3 me (record (cpu_of s3 me) { cur = some i; idle = some i })
]

unfoldable pub sched_cpu_idle : ℕ → Option ℕ → Sched → Sched
sched_cpu_idle me stack s =
    let (made, s1) = thread_create me stack s in
    elim made [
      | none ↦ s1
      | some i ↦
          let s2 = put_thread s1 i (record (thread_of s1 i) { home = pos me }) in
          put_cpu s2 me (record (cpu_of s2 me) { idle = some i })
    ]
