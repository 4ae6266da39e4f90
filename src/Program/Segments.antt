-- ===== src/Program/Segments.antt =====
-- What lies at the addresses of a segment once pkg/stam/elf.c has loaded it.
use verkos.Prelude.{
  ℕ, zero, suc, ◌+◌, ◌-◌, ◌*◌, ◌/◌, ◌%◌, ◌^◌, ◌≤◌, ◌<◌, ◌≡◌, refl, ap, ◌∙◌, inl, inr, Bool, true,
  false, not, ◌&&◌, Option, none, some, arith, ltb, leb, ◌==◌, if◌then◌else◌, Bool-cases,
}
use verkos.Archive.Reader.{Bytes, add64}
use verkos.Memory.Frames.{Frames, alloc_page}
use verkos.Program.Room.{pages_left, alloc_page_zero, map_pages_room}
use verkos.Program.Loader.{
  Loading, map_page, map_pages, copy_bytes, page_of, page_span, load_segment,
}

abbrev pub in_range : ℕ → ℕ → ℕ → Bool
in_range lo count a = leb lo a && ltb a (lo + count)

copy_bytes_lem :
    (count dst : ℕ) (e : Bytes) (p : ℕ) (memory : ℕ → ℕ) (a : ℕ)
    → dst + count ≤ 2 ^ 64
    → copy_bytes count dst e p memory a
      ≡ (if in_range dst count a then e (p + (a - dst)) else memory a)
unfolding copy_bytes
copy_bytes_lem zero dst e p memory a h = ground arith
copy_bytes_lem (suc zero) dst e p memory a h = elim (Bool-cases (a == dst)) [
  | inl y ↦
      let same_place : p + (a - dst) ≡ p = ground (arith, y) in ground (arith, y, ap e same_place)
  | inr n ↦ ground (arith, n)
]
copy_bytes_lem (suc (suc count)) dst e p memory a h =
    let up : add64 dst 1 ≡ suc dst = omega (arith, h) in
    let ih =
      copy_bytes_lem (suc count) (suc dst) e (p + 1) (λ k. if k == dst then e p else memory k) a
        (omega (arith, h)) in
    ap (λ d. copy_bytes (suc count) d e (p + 1) (λ k. if k == dst then e p else memory k) a) up
    ∙ ih
    ∙ elim (Bool-cases (a == dst)) [
      | inl y ↦
          let same_place : p + (a - dst) ≡ p = ground (arith, y) in
          ground (arith, y, ap e same_place)
      | inr n ↦ elim (Bool-cases (ltb dst a)) [
        | inl l ↦
            let next_place : p + 1 + (a - suc dst) ≡ p + (a - dst) = ground (arith, l) in
            ground (arith, n, l, ap e next_place)
        | inr l ↦ ground (arith, n, l)
      ]
    ]

map_page_memory :
    (va : ℕ) (executable : Bool) (st : Loading) (r : Option ℕ × Frames) (a : ℕ)
    → ((page : ℕ) → r.0 ≡ some page → r.1.contents page (a % 4096) ≡ 0)
    → (map_page va executable st r).0 ≡ true
    → (map_page va executable st r).1.memory a
      ≡ (if a / 4096 == va % 2 ^ 39 / 4096 then 0 else st.memory a)
map_page_memory va executable st (none, frames) a clear e = absurd (ground (arith, e))
map_page_memory va executable st (some page, frames) a clear e = rw (e, clear page refl) refl

map_pages_lem :
    (count va : ℕ) (executable : Bool) (st : Loading) (a : ℕ)
    → (map_pages count va executable st).0 ≡ true
    → va % 4096 ≡ 0
    → va + count * 4096 ≤ 2 ^ 39
    → (map_pages count va executable st).1.memory a
      ≡ (if in_range va (count * 4096) a then 0 else st.memory a)
unfolding map_pages
map_pages_lem zero va executable st a e al h = ground arith
map_pages_lem (suc count) va executable st a e al h =
    go (map_page va executable st (alloc_page st.frames))
      (map_page_memory va executable st (alloc_page st.frames) a
        (λ page f. alloc_page_zero st.frames page (a % 4096) f))
      (λ st' f.
        map_pages_lem count (va + 4096) executable st' a f (omega (arith, al)) (omega (arith, h)))
      e
  where
    go :
        (r : Bool × Loading)
        → (r.0 ≡ true → r.1.memory a ≡ (if a / 4096 == va % 2 ^ 39 / 4096 then 0 else st.memory a))
        → ((st' : Loading)
            → (map_pages count (va + 4096) executable st').0 ≡ true
            → (map_pages count (va + 4096) executable st').1.memory a
              ≡ (if in_range (va + 4096) (count * 4096) a then 0 else st'.memory a))
        → (if r.0 then map_pages count (va + 4096) executable r.1 else (false, r.1)).0 ≡ true
        → (if r.0 then map_pages count (va + 4096) executable r.1 else (false, r.1)).1.memory a
          ≡ (if in_range va (suc count * 4096) a then 0 else st.memory a)
    go (false, st') m ih f = absurd (ground (arith, f))
    go (true, st') m ih f = let before = m refl in ih st' f ∙ ground (arith, before, al, h)

-- What a segment that was loaded went through.
loaded_lem :
    (e : Bytes) (size : ℕ) (executable : Bool) (offset vaddr filesz memsz : ℕ) (st : Loading)
    → (load_segment e size executable offset vaddr filesz memsz st).0 ≡ true
    → let r = map_pages (page_span vaddr memsz) (page_of vaddr) executable st in
      (r.0 ≡ true)
      × (filesz ≤ memsz)
      × ((load_segment e size executable offset vaddr filesz memsz st).1.memory
          ≡ copy_bytes filesz vaddr e offset r.1.memory)
unfolding load_segment
loaded_lem e size executable offset vaddr filesz memsz st ok =
    go (map_pages (page_span vaddr memsz) (page_of vaddr) executable st) ok
  where
    after : Bool × Loading → Bool × Loading
    after r =
        if ltb size (add64 offset filesz)
        then (false, st)
        else if ltb memsz filesz
        then (false, st)
        else if not r.0
        then (false, r.1)
        else (
          true,
          record r.1 {
            memory = copy_bytes filesz vaddr e offset r.1.memory;
            loaded = r.1.loaded + 1;
          },
        )

    go :
        (r : Bool × Loading)
        → (after r).0 ≡ true
        → (r.0 ≡ true)
          × (filesz ≤ memsz)
          × ((after r).1.memory ≡ copy_bytes filesz vaddr e offset r.1.memory)
    go (b, st') f = elim (Bool-cases (ltb size (add64 offset filesz))) [
      | inl y ↦ absurd (ground (arith, f, y))
      | inr n ↦ elim (Bool-cases (ltb memsz filesz)) [
        | inl y ↦ absurd (ground (arith, f, n, y))
        | inr m ↦ elim (Bool-cases b) [
          | inl y ↦ rw (n, m, y) (refl, ground (arith, m), refl)
          | inr k ↦ absurd (ground (arith, f, n, m, k))
        ]
      ]
    ]

-- A segment that was loaded, whose pages are addresses of a program, has the bytes of the file at its
-- addresses; the rest of its pages, from the one its first byte is in to the one its last byte is in,
-- holds zeros, and nothing outside of them has changed.
pub load_segment_lem :
    (e : Bytes) (size : ℕ) (executable : Bool) (offset vaddr filesz memsz : ℕ) (st : Loading)
    (a : ℕ)
    → (load_segment e size executable offset vaddr filesz memsz st).0 ≡ true
    → vaddr + memsz + 4095 < 2 ^ 39
    → (load_segment e size executable offset vaddr filesz memsz st).1.memory a ≡ (
        if leb vaddr a && ltb a (vaddr + filesz)
        then e (offset + (a - vaddr))
        else if leb (vaddr / 4096 * 4096) a && ltb a ((vaddr + memsz + 4095) / 4096 * 4096)
        then 0
        else st.memory a)
load_segment_lem e size executable offset vaddr filesz memsz st a ok h =
    let l = loaded_lem e size executable offset vaddr filesz memsz st ok in
    let pages =
      map_pages_lem (page_span vaddr memsz) (page_of vaddr) executable st a l.0 (omega arith)
        (omega (arith, h)) in
    let last : page_of vaddr + page_span vaddr memsz * 4096 ≡ (vaddr + memsz + 4095) / 4096 * 4096 =
      omega (arith, h) in
    ap (λ m. m a) l.2
    ∙ copy_bytes_lem filesz vaddr e offset
        (map_pages (page_span vaddr memsz) (page_of vaddr) executable st).1.memory a
        (omega (arith, h, l.1))
    ∙ ap (λ k. if in_range vaddr filesz a then e (offset + (a - vaddr)) else k) pages
    ∙ ap
        (λ k.
          if in_range vaddr filesz a
          then e (offset + (a - vaddr))
          else if leb (page_of vaddr) a && ltb a k
          then 0
          else st.memory a)
        last

accepted_lem :
    (e : Bytes) (size : ℕ) (executable : Bool) (offset vaddr filesz memsz : ℕ) (st : Loading)
    → ltb size (add64 offset filesz) ≡ false
    → ltb memsz filesz ≡ false
    → (map_pages (page_span vaddr memsz) (page_of vaddr) executable st).0 ≡ true
    → (load_segment e size executable offset vaddr filesz memsz st).0 ≡ true
unfolding load_segment
accepted_lem e size executable offset vaddr filesz memsz st a b c = rw (a, b, c) refl

-- No address is refused: a segment that lies in the file, claims no less memory than it has data and for
-- which there are pages is loaded, and the bytes of the file are stored at its addresses, whatever these
-- are, the kernel's included.
pub load_segment_anywhere :
    (e : Bytes) (size : ℕ) (executable : Bool) (offset vaddr filesz memsz : ℕ) (st : Loading)
    (b : ℕ)
    → offset + filesz ≤ size
    → size < 2 ^ 64
    → filesz ≤ memsz
    → vaddr + filesz ≤ 2 ^ 64
    → 3 * (memsz / 4096 + 2) ≤ pages_left st.frames
    → b < filesz
    → ((load_segment e size executable offset vaddr filesz memsz st).0 ≡ true)
      × ((load_segment e size executable offset vaddr filesz memsz st).1.memory (vaddr + b)
          ≡ e (offset + b))
load_segment_anywhere e size executable offset vaddr filesz memsz st b inside fits covers h free
      small =
    let few : page_span vaddr memsz ≤ memsz / 4096 + 2 = omega arith in
    let in_file : ltb size (add64 offset filesz) ≡ false = ground (arith, inside, fits) in
    let covered : ltb memsz filesz ≡ false = ground (arith, covers) in
    let ok = accepted_lem e size executable offset vaddr filesz memsz st in_file covered (
      map_pages_room (page_span vaddr memsz) (page_of vaddr) executable st
        (omega (arith, few, free))) in
    let l = loaded_lem e size executable offset vaddr filesz memsz st ok in
    let here : offset + (vaddr + b - vaddr) ≡ offset + b = omega arith in
    (
      ok,
      ap (λ m. m (vaddr + b)) l.2
          ∙ copy_bytes_lem filesz vaddr e offset
              (map_pages (page_span vaddr memsz) (page_of vaddr) executable st).1.memory (vaddr + b)
              h
          ∙ ground (arith, small, ap e here),
    )
