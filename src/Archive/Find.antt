-- ===== src/Archive/Find.antt =====
-- pkg/stam/cpio.c finds in the output of pkg/vcpio/vcpio.c the first file that has the name.
use verkos.Prelude.{
  ℕ, zero, suc, ◌+◌, ◌*◌, ◌/◌, ◌%◌, ◌^◌, ◌≤◌, ◌<◌, ◌≡◌, refl, sym, ◌∙◌, subst, inl, inr, false,
  Option, none, some, List, [], ◌∷◌, ◌++◌, arith, ltb, if◌then◌else◌, Bool-cases, length,
  length-append,
}
use verkos.Archive.Reader.{
  Bytes, add64, trailer, Round, refused, found, next, Result, missing, at, examine, find_from,
  cpio_find, skip_slash_of,
}
use verkos.Archive.Writer.{
  CpioEntry, pad4, newc_header, hexfield, put_digits, end_entry, write_entry, behind, do_create,
}
use verkos.Archive.Holds.{Holds, IsString, eq_string, skip_slash_of-IsString}
use verkos.Archive.Written.{read_entry, parts, trailer-IsString, length-pad4}

-- The first entry of that name; a slash at the beginning of its own does not count, and an entry that
-- is named as the end of the archive ends it.
unfoldable pub first_named : List ℕ → List CpioEntry → Option CpioEntry
first_named want [] = none
first_named want (e ∷ es) =
    if eq_string e.name trailer
    then none
    else if eq_string (skip_slash_of e.name) want
    then some e
    else first_named want es

-- The answer names the contents of the entry, or says that there is none.
pub data Finds (mem : Bytes) : Option CpioEntry → Option Result → Type 0 where
  no_file : Finds mem none (some missing)
  a_file :
      (e : CpioEntry) (place : ℕ)
      → Holds mem place e.contents
      → Finds mem (some e) (some (at place (length e.contents)))

-- What the format can carry.
pub record Writable (e : CpioEntry) : Type 0 where
  pub named : IsString e.name
  pub short_name : length e.name + 1 < 2 ^ 32
  pub short : length e.contents < 2 ^ 32

abbrev pub AllWritable : List CpioEntry → Type 0
AllWritable [] = zero ≡ zero
AllWritable (e ∷ es) = Writable e × AllWritable es

-- Where the archive ends.
unfoldable pub ends_at : ℕ → List CpioEntry → ℕ
ends_at at_pos [] = behind at_pos end_entry
ends_at at_pos (e ∷ es) = ends_at (behind at_pos e) es

behind_le : (at_pos : ℕ) (e : CpioEntry) → at_pos + 111 ≤ behind at_pos e
unfolding behind
behind_le at_pos e = omega arith

behind_aligned : (at_pos : ℕ) (e : CpioEntry) → behind at_pos e % 4 ≡ 0
unfolding behind
behind_aligned at_pos e = omega (
  arith,
  length-pad4 (
      at_pos
      + 110
      + (length e.name + 1)
      + length (pad4 (at_pos + 110 + (length e.name + 1)))
      + length e.contents),
)

ends_at_le : (es : List CpioEntry) (at_pos : ℕ) → at_pos + 110 * (length es + 1) ≤ ends_at at_pos es
unfolding ends_at
ends_at_le [] at_pos = omega (arith, behind_le at_pos end_entry)
ends_at_le (e ∷ es) at_pos = omega (arith, behind_le at_pos e, ends_at_le es (behind at_pos e))

length-write_entry :
    (at_pos : ℕ) (e : CpioEntry) (rest : List ℕ)
    → at_pos + length (write_entry at_pos e rest) ≡ behind at_pos e + length rest
unfolding write_entry behind newc_header hexfield put_digits
length-write_entry at_pos e rest =
    let named = at_pos + 110 + (length e.name + 1) in
    let after = named + length (pad4 named) + length e.contents in
    omega (
      arith,
      length-append e.name (0 ∷ (pad4 named ++ (e.contents ++ (pad4 after ++ rest)))),
      length-append (pad4 named) (e.contents ++ (pad4 after ++ rest)),
      length-append e.contents (pad4 after ++ rest),
      length-append (pad4 after) rest,
    )

length-do_create :
    (es : List CpioEntry) (at_pos : ℕ) → at_pos + length (do_create at_pos es) ≡ ends_at at_pos es
unfolding do_create ends_at
length-do_create [] at_pos = length-write_entry at_pos end_entry [] ∙ omega arith
length-do_create (e ∷ es) at_pos =
    length-write_entry at_pos e (do_create (behind at_pos e) es)
    ∙ length-do_create es (behind at_pos e)

find_from-next :
    (mem : Bytes) (size : ℕ) (want : List ℕ) (fuel off : ℕ) (r : Round)
    → ltb size (add64 off 110) ≡ false
    → examine mem size want off ≡ r
    → find_from mem size want (suc fuel) off ≡ elim r [
      | refused ↦ some missing
      | found d n ↦ some (at d n)
      | next off' ↦ find_from mem size want fuel off'
    ]
unfolding find_from
find_from-next mem size want fuel off r l e = rw (l, find_from, e) refl

module _ (mem : Bytes) (size : ℕ) (want : List ℕ) (w : IsString want) (small : size < 2 ^ 63) where
  in_archive :
      (es : List CpioEntry) (fuel off : ℕ)
      → off % 4 ≡ 0
      → AllWritable es
      → Holds mem off (do_create off es)
      → ends_at off es ≤ size
      → length es < fuel
      → Finds mem (first_named want es) (find_from mem size want fuel off)
  unfolding do_create ends_at first_named eq_string
  in_archive es zero off a ok h fits enough = absurd (omega (arith, enough))
  in_archive [] (suc fuel) off a ok h fits enough =
      let r =
        parts mem size want off end_entry w trailer-IsString a fits small (omega arith)
          (omega arith) [] h in
      let l : ltb size (add64 off 110) ≡ false =
        ground (arith, behind_le off end_entry, fits, small) in
      subst (Finds mem none) (sym (find_from-next mem size want fuel off _ l r.0)) no_file
  in_archive (e ∷ es) (suc fuel) off a ok h fits enough =
      let later = ends_at_le es (behind off e) in
      let r =
        parts mem size want off e w ok.0.named a (omega (arith, later, fits)) small ok.0.short
          ok.0.short_name (do_create (behind off e) es) h in
      let l : ltb size (add64 off 110) ≡ false =
        ground (arith, behind_le off e, later, fits, small) in
      let ih =
        in_archive es fuel (behind off e) (behind_aligned off e) ok.1 r.2 fits
          (omega (arith, enough)) in
      subst (Finds mem (first_named want (e ∷ es)))
        (sym (find_from-next mem size want fuel off _ l r.0)) (go r.1 ih)
    where
      go :
          Holds mem
            (off + 110 + (length e.name + 1) + length (pad4 (off + 110 + (length e.name + 1))))
            e.contents
          → Finds mem (first_named want es) (find_from mem size want fuel (behind off e))
          → Finds mem (first_named want (e ∷ es)) (elim (read_entry off want e) [
            | refused ↦ some missing
            | found d n ↦ some (at d n)
            | next off' ↦ find_from mem size want fuel off'
          ])
      go c ih = elim (Bool-cases (eq_string e.name trailer)) [
        | inl y ↦ rw y no_file
        | inr n ↦ elim (Bool-cases (eq_string (skip_slash_of e.name) want)) [
          | inl y ↦ rw (n, y) (a_file e _ c)
          | inr m ↦ rw (n, m) ih
        ]
      ]

-- In an archive that vcpio wrote, whatever lies behind it in the memory, cpio_find finds the first file
-- of the name, with the place and the size of its contents, and without a file of that name it answers
-- -1; a slash at the beginning of either name does not count. The names hold no zero byte, the contents
-- are below 4 GiB and the size is below 2^63.
pub cpio_find-do_create :
    (mem : Bytes) (size : ℕ) (want : List ℕ) (es : List CpioEntry)
    → IsString want
    → AllWritable es
    → Holds mem 0 (do_create 0 es)
    → length (do_create 0 es) ≤ size
    → size < 2 ^ 63
    → Finds mem (first_named (skip_slash_of want) es) (cpio_find mem size want)
unfolding cpio_find
cpio_find-do_create mem size want es w ok h fits small =
    let total = length-do_create es 0 in
    in_archive mem size (skip_slash_of want) (skip_slash_of-IsString want w) small es
      (size / 110 + 1) 0 refl ok h (omega (arith, total, fits))
      (omega (arith, ends_at_le es 0, total, fits))
