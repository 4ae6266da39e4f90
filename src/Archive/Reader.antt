-- ===== src/Archive/Reader.antt =====
-- cpio_find of pkg/stam/cpio.c. The memory is a function from the distance to the beginning of the
-- image to the byte there, so that a name without an end is read past the image, as the code does.
use verkos.Prelude.{
  ℕ, zero, suc, ◌+◌, ◌-◌, ◌*◌, ◌/◌, ◌%◌, ◌^◌, Bool, not, ◌&&◌, ◌||◌, Option, none, some, List, [],
  ◌∷◌, ltb, leb, ◌==◌, if◌then◌else◌,
}

abbrev pub Bytes : Type 0
Bytes = ℕ → ℕ

-- uint64_t addition
abbrev pub add64 : ℕ → ℕ → ℕ
add64 a b = (a + b) % 2 ^ 64

unfoldable pub hexval : ℕ → Option ℕ
hexval c =
    if leb 48 c && leb c 57
    then some (c - 48)
    else if leb 97 c && leb c 102
    then some (c - 97 + 10)
    else if leb 65 c && leb c 70
    then some (c - 65 + 10)
    else none

-- (v << 4) | d
abbrev pub with_digit : ℕ → Option ℕ → Option ℕ
with_digit v none = none
with_digit v (some d) = some (v * 16 % 2 ^ 64 + d)

-- `count` digits from `p` on, after those that made `v`
unfoldable pub digits_from : Bytes → ℕ → ℕ → ℕ → Option ℕ
digits_from mem zero p v = some v
digits_from mem (suc count) p v = elim (with_digit v (hexval (mem p))) [
  | none ↦ none
  | some v' ↦ digits_from mem count (suc p) v'
]

unfoldable pub field : Bytes → ℕ → Option ℕ
field mem p = digits_from mem 8 p 0

abbrev pub round4 : ℕ → ℕ
round4 n = add64 n 3 / 4 * 4

-- The string at `a` against one with an end of its own.
unfoldable pub same_at : Bytes → ℕ → List ℕ → Bool
same_at mem a [] = mem a == 0
same_at mem a (b ∷ bs) =
    if not (mem a == 0) && mem a == b then same_at mem (suc a) bs else mem a == b

-- skip_slash on a string in memory, and on one with an end of its own
unfoldable pub skip_slash_at : Bytes → ℕ → ℕ
skip_slash_at mem a = if mem a == 47 then suc a else a

unfoldable pub skip_slash_of : List ℕ → List ℕ
skip_slash_of [] = []
skip_slash_of (b ∷ bs) = if b == 47 then bs else b ∷ bs

-- TRAILER!!!
abbrev pub trailer : List ℕ
trailer = 84 ∷ 82 ∷ 65 ∷ 73 ∷ 76 ∷ 69 ∷ 82 ∷ 33 ∷ 33 ∷ 33 ∷ []

-- What the loop does with an entry: -1, the file, or the next entry.
pub data Round : Type 0 where
  refused : Round
  found : ℕ → ℕ → Round
  next : ℕ → Round

abbrev pub is_newc : Bytes → ℕ → Bool
is_newc mem off =
    mem off == 48
    && (mem (off + 1) == 55
        && (mem (off + 2) == 48
            && (mem (off + 3) == 55 && (mem (off + 4) == 48 && mem (off + 5) == 49))))

-- The part of a round behind the two fields, `data` being where the bytes begin.
unfoldable pub examine_data : Bytes → ℕ → List ℕ → ℕ → ℕ → ℕ → Round
examine_data mem size want off filesize data_at =
    if ltb size (add64 data_at filesize)
    then refused
    else if same_at mem (off + 110) trailer
    then refused
    else if same_at mem (skip_slash_at mem (off + 110)) want
    then found data_at filesize
    else next (add64 data_at (round4 filesize))

abbrev pub examine_fields : Bytes → ℕ → List ℕ → ℕ → Option ℕ → Option ℕ → Round
examine_fields mem size want off none namesize = refused
examine_fields mem size want off (some filesize) none = refused
examine_fields mem size want off (some filesize) (some namesize) =
    if namesize == 0 || ltb size (add64 (add64 off 110) namesize)
    then refused
    else examine_data mem size want off filesize (add64 off (round4 (110 + namesize)))

unfoldable pub examine : Bytes → ℕ → List ℕ → ℕ → Round
examine mem size want off =
    if is_newc mem off
    then examine_fields mem size want off (field mem (off + 54)) (field mem (off + 94))
    else refused

-- 0 with the place and the size, or -1.
pub data Result : Type 0 where
  missing : Result
  at : ℕ → ℕ → Result

-- while (off + HDR <= size); `none` when the fuel does not last.
unfoldable pub find_from : Bytes → ℕ → List ℕ → ℕ → ℕ → Option Result
find_from mem size want zero off = none
find_from mem size want (suc fuel) off =
    if ltb size (add64 off 110) then some missing else elim (examine mem size want off) [
      | refused ↦ some missing
      | found d n ↦ some (at d n)
      | next off' ↦ find_from mem size want fuel off'
    ]

unfoldable pub cpio_find : Bytes → ℕ → List ℕ → Option Result
cpio_find mem size want = find_from mem size (skip_slash_of want) (size / 110 + 1) 0
