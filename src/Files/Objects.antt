-- ===== src/Files/Objects.antt =====
-- Making, holding and letting go of file objects, in pkg/stam/file.c.
use verkos.Prelude.{
  ℕ, ◌+◌, ◌-◌, Bool, true, false, not, ◌&&◌, Option, none, some, ltb, ◌==◌, if◌then◌else◌, ℤ, pos,
  neg, find_index,
}
use verkos.Sched.State.{Sched}
use verkos.Sched.Block.{thread_wake_pipe}
use verkos.Files.State.{
  Kind, free, console, pipe_r, pipe_w, fat, udp, tcp, has_kind, Pipe, File, Files, file_at,
  put_file, pipe_at, put_pipe,
}

-- What file_alloc writes; `writable` and the place on the disk stay as they were.
unfoldable pub allocated : Kind → Option ℕ → File → File
allocated kind p f = record f {
  kind = kind;
  refs = 1;
  pipe = p;
  mem_file = none;
  ro = 0;
  ro_len = 0;
  at = 0;
  sock = none;
  conn = none;
}

unfoldable pub file_alloc : Kind → Option ℕ → Files → Option (ℕ × Files)
file_alloc kind p s = elim (find_index (λ f. has_kind f.kind free) s.files) [
  | none ↦ none
  | some i ↦ some (i, put_file s i (allocated kind p (file_at s i)))
]

unfoldable pub file_console : Files → Option ℕ × Files
file_console s = elim s.console_file [
  | some i ↦ (some i, put_file s i (record (file_at s i) { refs = (file_at s i).refs + 1 }))
  | none ↦ elim (file_alloc console none s) [
    | none ↦ (none, s)
    | some (i, s1) ↦ (some i, record s1 { console_file = some i })
  ]
]

-- A pipe just taken.
unfoldable pub opened : Pipe → Pipe
opened p = record p { used = true; head = 0; tail = 0; readers = 1; writers = 1 }

unfoldable pub unused_pipe : ℕ → Files → Files
unused_pipe i s = put_pipe s i (record (pipe_at s i) { used = false })

-- The read end and the write end.
unfoldable pub file_pipe : Files → Option (ℕ × ℕ) × Files
file_pipe s = elim (find_index (λ p. not p.used) s.pipes) [
  | none ↦ (none, s)
  | some i ↦
      let s1 = put_pipe s i (opened (pipe_at s i)) in
      elim (file_alloc pipe_r (some i) s1) [
        | none ↦ (none, unused_pipe i s1)
        | some (r, s2) ↦ elim (file_alloc pipe_w (some i) s2) [
          | none ↦ (
            none,
            unused_pipe i (put_file s2 r (record (file_at s2 r) { kind = free; refs = 0 })),
          )
          | some (w, s3) ↦ (some (r, w), s3)
        ]
      ]
]

unfoldable pub file_ref : Option ℕ → Files → Files
file_ref none s = s
file_ref (some i) s = put_file s i (record (file_at s i) { refs = (file_at s i).refs + 1 })

-- What is left to do once the lock is given back.
pub record Released : Type 0 where
  pub close_sock : Option ℕ
  pub close_conn : Option ℕ
  pub sync_disk : Bool

abbrev pub nothing : Released
nothing = record { close_sock = none; close_conn = none; sync_disk = false }

-- One end fewer; the pipe is unused when both ends are closed.
unfoldable pub drop_end : Kind → Pipe → Pipe
drop_end kind p =
    let q =
      if has_kind kind pipe_r
      then record p { readers = p.readers - 1 }
      else record p { writers = p.writers - 1 } in
    if q.readers == 0 && q.writers == 0 then record q { used = false } else q

unfoldable pub released_of : File → Released
released_of f = record {
  close_sock = if has_kind f.kind udp then f.sock else none;
  close_conn = if has_kind f.kind tcp then f.conn else none;
  sync_disk = has_kind f.kind fat && f.writable;
}

-- The console is no longer that object.
unfoldable pub forget_console : ℕ → Files → Files
forget_console i s = elim s.console_file [
  | none ↦ s
  | some c ↦ if c == i then record s { console_file = none } else s
]

-- The last holder lets go of the object `i`; its waiters are woken by the number of the pipe.
unfoldable pub last_close : ℕ → Files → Sched → Released × Files × Sched
last_close i s sc =
    let f = file_at s i in
    let s1 =
      forget_console i (
        put_file s i (record f { refs = 0; kind = free; pipe = none; sock = none; conn = none })) in
    elim f.pipe [
      | none ↦ (released_of f, s1, sc)
      | some p ↦
          (released_of f, put_pipe s1 p (drop_end f.kind (pipe_at s1 p)), thread_wake_pipe p sc)
    ]

unfoldable pub file_close : Option ℕ → Files → Sched → Released × Files × Sched
file_close none s sc = (nothing, s, sc)
file_close (some i) s sc =
    let f = file_at s i in
    if ltb 1 f.refs
    then (nothing, put_file s i (record f { refs = f.refs - 1 }), sc)
    else last_close i s sc

-- Both take a socket that has been made; without a free object the caller closes it again.
unfoldable pub file_udp : Option ℕ → Files → (ℤ × Option ℕ) × Files
file_udp none s = ((neg 105, none), s)
file_udp (some c) s = elim (file_alloc udp none s) [
  | none ↦ ((neg 24, none), s)
  | some (i, s1) ↦ ((pos 0, some i), put_file s1 i (record (file_at s1 i) { sock = some c }))
]

unfoldable pub file_tcp : Option ℕ → Files → (ℤ × Option ℕ) × Files
file_tcp none s = ((neg 105, none), s)
file_tcp (some c) s = elim (file_alloc tcp none s) [
  | none ↦ ((neg 24, none), s)
  | some (i, s1) ↦ ((pos 0, some i), put_file s1 i (record (file_at s1 i) { conn = some c }))
]

unfoldable pub file_tcp_adopt : Option ℕ → Files → (ℤ × Option ℕ) × Files
file_tcp_adopt none s = ((neg 22, none), s)
file_tcp_adopt (some c) s = file_tcp (some c) s

unfoldable pub file_udp_sock : Option ℕ → Files → Option ℕ
file_udp_sock none s = none
file_udp_sock (some i) s = if has_kind (file_at s i).kind udp then (file_at s i).sock else none

unfoldable pub file_tcp_conn : Option ℕ → Files → Option ℕ
file_tcp_conn none s = none
file_tcp_conn (some i) s = if has_kind (file_at s i).kind tcp then (file_at s i).conn else none
