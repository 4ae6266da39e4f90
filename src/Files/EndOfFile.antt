-- ===== src/Files/EndOfFile.antt =====
-- Letting go of the ends of a pipe, in pkg/stam/file.c.
use verkos.Prelude.{
  ℕ, ◌<◌, ◌≡◌, refl, sym, ap, ◌∙◌, ◌≢◌, true, false, Option, none, some, [], arith, length, get_or,
  set, get_or-set, pos, find_index, find_index_sound,
}
use verkos.Sched.State.{Sched, thread_of}
use verkos.Sched.Block.{waits_on, thread_wake_pipe}
use verkos.Sched.Waking.{thread_wake_pipe_all}
use verkos.Files.State.{
  Kind, free, pipe_w, has_kind, Pipe, File, Files, no_file, no_pipe, file_at, put_file, pipe_at,
  put_pipe,
}
use verkos.Files.Objects.{
  allocated, file_alloc, drop_end, released_of, forget_console, last_close, file_close,
}
use verkos.Files.Pipe.{pipe_bytes, read_round}

-- What is left of the object and of the pipe.
abbrev freed : File → File
freed f = record f { refs = 0; kind = free; pipe = none; sock = none; conn = none }

closed :
    (i p : ℕ) (s : Files) (sc : Sched)
    → (file_at s i).refs ≡ 1
    → (file_at s i).kind ≡ pipe_w
    → (file_at s i).pipe ≡ some p
    → let s1 = forget_console i (put_file s i (freed (file_at s i))) in
      file_close (some i) s sc ≡ (
        released_of (file_at s i),
        put_pipe s1 p (drop_end pipe_w (pipe_at s1 p)),
        thread_wake_pipe p sc,
      )
unfolding file_close last_close released_of forget_console thread_wake_pipe
closed i p s sc rf k e = rw rf (rw (e, k, last_close) refl)

forget_keeps :
    (i : ℕ) (s : Files)
    → ((forget_console i s).files ≡ s.files) × ((forget_console i s).pipes ≡ s.pipes)
unfolding forget_console
forget_keeps i s = ground arith

freed_kind :
    (s : Files) (i : ℕ)
    → i < length s.files
    → (file_at (forget_console i (put_file s i (freed (file_at s i)))) i).kind ≡ free
freed_kind s i h =
    ap (λ z. (get_or z i no_file).kind) (forget_keeps i (put_file s i (freed (file_at s i)))).0
    ∙ ground (arith, get_or-set s.files i i (freed (file_at s i)) no_file)

same_pipes :
    (s : Files) (i p : ℕ)
    → p < length s.pipes
    → pipe_at (put_pipe (forget_console i s) p (drop_end pipe_w (pipe_at (forget_console i s) p))) p
      ≡ drop_end pipe_w (pipe_at s p)
same_pipes s i p h =
    ap (λ z. get_or (set z p (drop_end pipe_w (get_or z p no_pipe))) p no_pipe) (forget_keeps i s).1
    ∙ ground (arith, get_or-set s.pipes p p (drop_end pipe_w (pipe_at s p)) no_pipe)

dropped :
    (p : Pipe)
    → ((drop_end pipe_w p).buf ≡ p.buf)
      × (pipe_bytes (drop_end pipe_w p) ≡ pipe_bytes p)
      × (p.writers ≡ 1 → (drop_end pipe_w p).writers ≡ 0)
unfolding drop_end
dropped p = ground arith

at_end :
    (me now p len : ℕ) (s : Files) (sc : Sched)
    → pipe_bytes (pipe_at s p) ≡ 0
    → (pipe_at s p).writers ≡ 0
    → (read_round me now p len s sc).0 ≡ some (pos 0, [])
unfolding read_round
at_end me now p len s sc b w = rw (b, w) refl

-- When the last holder of the only write end lets go, nobody waits for the pipe any more, the end
-- of the file is there once the pipe is empty, and the bytes that wait are still read.
pub file_close_ends :
    (i p me now len : ℕ) (s : Files) (sc sc' : Sched)
    → i < length s.files
    → p < length s.pipes
    → (file_at s i).refs ≡ 1
    → (file_at s i).kind ≡ pipe_w
    → (file_at s i).pipe ≡ some p
    → (pipe_at s p).writers ≡ 1
    → let after = file_close (some i) s sc in
      ((r : ℕ) → waits_on p (thread_of after.2 r) ≡ false)
      × ((file_at after.1 i).kind ≡ free)
      × (pipe_bytes (pipe_at s p) ≡ 0 → (read_round me now p len after.1 sc').0 ≡ some (pos 0, []))
      × ((pipe_at after.1 p).buf ≡ (pipe_at s p).buf)
      × (pipe_bytes (pipe_at after.1 p) ≡ pipe_bytes (pipe_at s p))
file_close_ends i p me now len s sc sc' hi hp rf k e w = rw (closed i p s sc rf k e) (
  (λ r. (thread_wake_pipe_all p r sc).0),
  freed_kind s i hi,
  (λ z.
      at_end me now p len (put_pipe s1 p (drop_end pipe_w (pipe_at s1 p))) sc'
        (ap pipe_bytes at_p ∙ (dropped (pipe_at s p)).1 ∙ z)
        (ap (λ q. q.writers) at_p ∙ (dropped (pipe_at s p)).2 w)),
  ap (λ q. q.buf) at_p ∙ (dropped (pipe_at s p)).0,
  ap pipe_bytes at_p ∙ (dropped (pipe_at s p)).1,
)
  where
    s1 : Files
    s1 = forget_console i (put_file s i (freed (file_at s i)))

    at_p :
        pipe_at (put_pipe s1 p (drop_end pipe_w (pipe_at s1 p))) p ≡ drop_end pipe_w (pipe_at s p)
    at_p = same_pipes (put_file s i (freed (file_at s i))) i p hp

pub file_alloc_at :
    (kind : Kind) (p : Option ℕ) (i : ℕ) (s s' : Files)
    → file_alloc kind p s ≡ some (i, s')
    → (s' ≡ put_file s i (allocated kind p (file_at s i)))
      × (find_index (λ f. has_kind f.kind free) s.files ≡ some i)
unfolding file_alloc
file_alloc_at kind p i s s' e = go (find_index (λ f. has_kind f.kind free) s.files) e
  where
    taken : ℕ → Files
    taken k = put_file s k (allocated kind p (file_at s k))

    go :
        (r : Option ℕ)
        → (elim r as (λ x. Option (ℕ × Files)) [ none ↦ none | some k ↦ some (k, taken k) ])
          ≡ some (i, s')
        → (s' ≡ taken i) × (r ≡ some i)
    go none q = absurd (ground arith)
    go (some k) q =
        let k_eq : k ≡ i = ground (arith, q) in
        let t_eq : taken k ≡ s' = ground (arith, q) in (sym t_eq ∙ ap taken k_eq, ap some k_eq)

as_asked :
    (kind : Kind) (p : Option ℕ) (f : File)
    → ((allocated kind p f).kind ≡ kind)
      × ((allocated kind p f).refs ≡ 1)
      × ((allocated kind p f).writable ≡ f.writable)
unfolding allocated
as_asked kind p f = (refl, refl, refl)

is_free : (f : File) → has_kind f.kind free ≡ true → f.kind ≡ free
is_free f e = ground (arith, e)

-- The writing mark of an open file that is let go stays in its slot: the next file object made there
-- has it too.
pub file_alloc_writable :
    (kind : Kind) (p : Option ℕ) (i : ℕ) (s s' : Files)
    → file_alloc kind p s ≡ some (i, s')
    → ((file_at s' i).kind ≡ kind)
      × ((file_at s' i).refs ≡ 1)
      × ((file_at s i).kind ≡ free)
      × ((file_at s' i).writable ≡ (file_at s i).writable)
      × ((j : ℕ) → i ≢ j → file_at s' j ≡ file_at s j)
file_alloc_writable kind p i s s' e =
    let (at_slot, f) = file_alloc_at kind p i s s' e in
    let found = find_index_sound (λ f. has_kind f.kind free) s.files no_file i f in
    let here : file_at s' i ≡ allocated kind p (file_at s i) =
      ap (λ z. file_at z i) at_slot
      ∙ ground (arith, found, get_or-set s.files i i (allocated kind p (file_at s i)) no_file) in
    (
      rw here (as_asked kind p (file_at s i)).0,
      rw here (as_asked kind p (file_at s i)).1,
      is_free (file_at s i) found.0,
      rw here (as_asked kind p (file_at s i)).2,
      λ j ne.
          ap (λ z. file_at z j) at_slot
          ∙ ground (arith, ne, get_or-set s.files i j (allocated kind p (file_at s i)) no_file),
    )
