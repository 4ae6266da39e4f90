-- ===== src/Files/Pipe.antt =====
-- The ring of a pipe, and one round of reading from it and writing to it, in pkg/stam/file.c.
use verkos.Prelude.{
  ℕ, zero, suc, ◌+◌, ◌-◌, ◌%◌, ◌^◌, Option, none, some, List, [], ◌∷◌, ◌==◌, if◌then◌else◌, length,
  get_or, set, ℤ, pos, neg,
}
use verkos.Sched.State.{Sched}
use verkos.Sched.Block.{thread_wake_pipe, thread_block_on_pipe}
use verkos.Files.State.{Pipe, pipe_size, Files, pipe_at, put_pipe}

-- (head - tail) % PIPE_SIZE, on `unsigned`
abbrev pub pipe_bytes : Pipe → ℕ
pipe_bytes p = (p.head + 2 ^ 32 - p.tail) % 2 ^ 32 % pipe_size

unfoldable pub put_byte : ℕ → Pipe → Pipe
put_byte b p = record p { buf = set p.buf p.head b; head = (p.head + 1) % pipe_size }

unfoldable pub drop_byte : Pipe → Pipe
drop_byte p = record p { tail = (p.tail + 1) % pipe_size }

-- while (n < len && pipe_bytes(p) > 0): `len` is what is still wanted.
unfoldable pub drain : ℕ → Pipe → List ℕ × Pipe
drain zero p = ([], p)
drain (suc len) p =
    let (bs, p') = drain len (drop_byte p) in
    if pipe_bytes p == 0 then ([], p) else (get_or p.buf p.tail 0 ∷ bs, p')

-- Where the writing loop stops: all is written, nobody reads, or there is no room for what is left.
pub data WriteStop : Type 0 where
  wrote : ℕ → Pipe → WriteStop
  broken : ℕ → Pipe → WriteStop
  full : List ℕ → ℕ → Pipe → WriteStop

unfoldable pub fill : List ℕ → ℕ → Pipe → WriteStop
fill [] n p = wrote n p
fill (b ∷ bs) n p =
    let rest = fill bs (n + 1) (put_byte b p) in
    if p.readers == 0
    then broken n p
    else if pipe_bytes p == pipe_size - 1
    then full (b ∷ bs) n p
    else rest

-- A round of reading: the count and the bytes, or `none` when the thread sleeps on the pipe and the
-- round is made again once it goes on.
unfoldable pub read_round : ℕ → ℕ → ℕ → ℕ → Files → Sched → Option (ℤ × List ℕ) × Files × Sched
read_round me now i len s sc =
    let p = pipe_at s i in
    let (bs, p') = drain len p in
    if pipe_bytes p == 0
    then if p.writers == 0
      then (some (pos 0, []), s, sc)
      else (none, s, thread_block_on_pipe me now i sc)
    else (some (pos (length bs), bs), put_pipe s i p', thread_wake_pipe i sc)

-- The result of a round of writing: the count or the error, or what is left and the count so far.
pub data Written : Type 0 where
  done : ℤ → Written
  asleep_with : List ℕ → ℕ → Written

unfoldable pub written : ℕ → ℕ → ℕ → Files → Sched → WriteStop → Written × Files × Sched
written me now i s sc (wrote n p) = (done (pos n), put_pipe s i p, thread_wake_pipe i sc)
written me now i s sc (broken n p) = (done (if n == 0 then neg 32 else pos n), put_pipe s i p, sc)
written me now i s sc (full bs n p) =
    (asleep_with bs n, put_pipe s i p, thread_block_on_pipe me now i sc)

-- A round of writing `bs` after `n` bytes have been written.
unfoldable pub write_round : ℕ → ℕ → ℕ → List ℕ → ℕ → Files → Sched → Written × Files × Sched
write_round me now i bs n s sc = written me now i s sc (fill bs n (pipe_at s i))
