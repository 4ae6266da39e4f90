-- ===== src/Files/Descriptors.antt =====
-- The descriptors of a process, of pkg/stam/syscall.c: what close, dup and dup3 do to the table and to
-- the objects behind it. What file_close leaves to be done (`Released`) is a result.
use verkos.Prelude.{
  ℕ, ◌+◌, ◌-◌, ◌<◌, ◌≡◌, refl, ap, ◌∙◌, Bool, true, false, Option, none, some, arith, ltb, leb,
  ◌==◌, if◌then◌else◌, length, get_or, set, length-set, get_or-set, ℤ, pos, neg, find_index,
}
use verkos.Sched.State.{Sched, thread_of, put_thread, current, nfd}
use verkos.Files.State.{File, Files, no_file, file_at, put_file}
use verkos.Files.Objects.{Released, nothing, file_ref, file_close}

unfoldable pub fd_get : ℕ → ℕ → Sched → Option ℕ
fd_get me fd sc = if leb nfd fd then none else get_or (thread_of sc (current sc me)).fd fd none

unfoldable pub set_fd : ℕ → ℕ → Option ℕ → Sched → Sched
set_fd me fd f sc =
    let t = thread_of sc (current sc me) in
    put_thread sc (current sc me) (record t { fd = set t.fd fd f })

abbrev pub is_none : Option ℕ → Bool
is_none none = true
is_none (some i) = false

unfoldable pub fd_alloc : ℕ → Option ℕ → Sched → ℤ × Sched
fd_alloc me f sc = elim (find_index is_none (thread_of sc (current sc me)).fd) [
  | none ↦ (neg 1, sc)
  | some n ↦ (pos n, set_fd me n f sc)
]

unfoldable pub sys_close : ℕ → ℕ → Files → Sched → (ℤ × Released) × Files × Sched
sys_close me fd s sc = elim (fd_get me fd sc) [
  | none ↦ ((neg 9, nothing), s, sc)
  | some i ↦ let (r, s', sc') = file_close (some i) s sc in ((pos 0, r), s', set_fd me fd none sc')
]

unfoldable pub sys_dup : ℕ → ℕ → Files → Sched → (ℤ × Released) × Files × Sched
sys_dup me fd s sc = elim (fd_get me fd sc) [
  | none ↦ ((neg 9, nothing), s, sc)
  | some i ↦
      let s1 = file_ref (some i) s in
      let (r, s', sc') = file_close (some i) s1 sc in
      elim (find_index is_none (thread_of sc (current sc me)).fd) [
        | none ↦ ((neg 24, r), s', sc')
        | some n ↦ ((pos n, nothing), s1, set_fd me n (some i) sc)
      ]
]

unfoldable pub sys_dup3 : ℕ → ℕ → ℕ → Files → Sched → (ℤ × Released) × Files × Sched
sys_dup3 me old new s sc = elim (fd_get me old sc) [
  | none ↦ ((neg 9, nothing), s, sc)
  | some i ↦
      let s1 = file_ref (some i) s in
      let (r, s', sc') = file_close (fd_get me new sc) s1 sc in
      if leb nfd new
      then ((neg 9, nothing), s, sc)
      else if old == new
      then ((neg 22, nothing), s, sc)
      else ((pos new, r), s', set_fd me new (some i) sc')
]

held_again :
    (i : ℕ) (s : Files)
    → i < length s.files
    → file_at (file_ref (some i) s) i ≡ record (file_at s i) { refs = (file_at s i).refs + 1 }
unfolding file_ref
held_again i s h =
    ground (
      arith,
      get_or-set s.files i i (record (file_at s i) { refs = (file_at s i).refs + 1 }) no_file,
    )

let_go :
    (i : ℕ) (s : Files) (sc : Sched)
    → 1 < (file_at s i).refs
    → file_close (some i) s sc
      ≡ (nothing, put_file s i (record (file_at s i) { refs = (file_at s i).refs - 1 }), sc)
unfolding file_close
let_go i s sc h = let more : ltb 1 (file_at s i).refs ≡ true = ground arith in rw more refl

abbrev one_less : File → File
one_less f = record f { refs = f.refs - 1 }

same_refs : (f : File) → 0 < f.refs → record f { refs = f.refs + 1 - 1 } ≡ f
same_refs f h = ground arith

length-file_ref : (i : ℕ) (s : Files) → length (file_ref (some i) s).files ≡ length s.files
unfolding file_ref
length-file_ref i s = length-set s.files i _

-- Where the object is held, dup without a free descriptor gives back the reference it took: the
-- result is -EMFILE, and the objects and the threads are as they were.
pub sys_dup_full :
    (me fd i : ℕ) (s : Files) (sc : Sched)
    → fd_get me fd sc ≡ some i
    → i < length s.files
    → 0 < (file_at s i).refs
    → find_index is_none (thread_of sc (current sc me)).fd ≡ none
    → ((sys_dup me fd s sc).0 ≡ (neg 24, nothing))
      × (file_at (sys_dup me fd s sc).1 i ≡ file_at s i)
      × ((sys_dup me fd s sc).2 ≡ sc)
unfolding sys_dup
sys_dup_full me fd i s sc g h held full =
    rw (g, full, sys_dup)
      (ap (λ z. (neg 24, z.0)) closed, ap (λ z. file_at z.1 i) closed ∙ back, ap (λ z. z.2) closed)
  where
    s1 : Files
    s1 = file_ref (some i) s

    closed :
        file_close (some i) s1 sc
        ≡ (nothing, put_file s1 i (record (file_at s1 i) { refs = (file_at s1 i).refs - 1 }), sc)
    closed = let_go i s1 sc (rw (held_again i s h) (omega arith))

    back :
        file_at (put_file s1 i (record (file_at s1 i) { refs = (file_at s1 i).refs - 1 })) i
        ≡ file_at s i
    back =
        ground (
          arith,
          length-file_ref i s,
          get_or-set s1.files i i (record (file_at s1 i) { refs = (file_at s1 i).refs - 1 })
              no_file,
        )
        ∙ ap one_less (held_again i s h)
        ∙ same_refs (file_at s i) held
