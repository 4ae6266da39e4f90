-- ===== src/Archive/Written.antt =====
-- pkg/stam/cpio.c on an archive that pkg/vcpio/vcpio.c wrote.
use verkos.Prelude.{
  ℕ, suc, ◌+◌, ◌-◌, ◌%◌, ◌^◌, ◌≤◌, ◌<◌, ◌≡◌, refl, ap, ◌∙◌, true, false, ◌||◌, some, List, ◌∷◌,
  ◌++◌, arith, ltb, ◌==◌, if◌then◌else◌, length, length-replicate,
}
use verkos.Archive.Reader.{
  Bytes, add64, round4, trailer, Round, refused, found, next, is_newc, examine_data, examine, field,
  skip_slash_of,
}
use verkos.Archive.Writer.{CpioEntry, newc_header, pad4, write_entry, behind}
use verkos.Archive.Holds.{
  Holds, Holds-at, Holds-append, IsString, eq_string, same_at-eq_string, skip_slash_lem,
  skip_slash_of-IsString,
}
use verkos.Archive.Digits.{field-hexfield, after_hexfield}

-- What the header says, and where it ends.
header_lem :
    (mem : Bytes) (off : ℕ) (e : CpioEntry) (rest : List ℕ)
    → length e.contents < 2 ^ 32
    → length e.name + 1 < 2 ^ 32
    → Holds mem off (newc_header e rest)
    → (is_newc mem off ≡ true)
      × (field mem (off + 54) ≡ some (length e.contents))
      × (field mem (off + 94) ≡ some (length e.name + 1))
      × Holds mem (off + 110) rest
unfolding newc_header
header_lem mem off e rest c n h =
    let f0 = h.1.1.1.1.1.1 in
    let f1 = after_hexfield mem e.stat.ino _ _ f0 in
    let f2 = after_hexfield mem e.stat.mode _ _ f1 in
    let f3 = after_hexfield mem e.stat.uid _ _ f2 in
    let f4 = after_hexfield mem e.stat.gid _ _ f3 in
    let f5 = after_hexfield mem e.stat.nlink _ _ f4 in
    let f6 = after_hexfield mem e.stat.mtime _ _ f5 in
    let size = field-hexfield mem (length e.contents) _ _ c f6 in
    let f8 = after_hexfield mem 0 _ _ size.1 in
    let f9 = after_hexfield mem 0 _ _ f8 in
    let f10 = after_hexfield mem 0 _ _ f9 in
    let f11 = after_hexfield mem 0 _ _ f10 in
    let name = field-hexfield mem (length e.name + 1) _ _ n f11 in
    let end = after_hexfield mem 0 _ _ name.1 in
    (
      ground (arith, h.0, h.1.0, h.1.1.0, h.1.1.1.0, h.1.1.1.1.0, h.1.1.1.1.1.0),
      ap (field mem) (omega arith) ∙ size.0,
      ap (field mem) (omega arith) ∙ name.0,
      Holds-at mem rest _ _ (omega arith) end,
    )

-- What the reader makes of an entry that was written at `off`.
abbrev pub read_entry : ℕ → List ℕ → CpioEntry → Round
read_entry off want e =
    if eq_string e.name trailer
    then refused
    else if eq_string (skip_slash_of e.name) want
    then found (off + 110 + (length e.name + 1) + length (pad4 (off + 110 + (length e.name + 1))))
        (length e.contents)
    else next (behind off e)

pub trailer-IsString : IsString trailer
trailer-IsString = ground arith

pub length-pad4 : (n : ℕ) → length (pad4 n) ≡ (4 - n % 4) % 4
length-pad4 n = length-replicate ((4 - n % 4) % 4) 0

module _ (mem : Bytes) (size : ℕ) (want : List ℕ) (off : ℕ) (e : CpioEntry) (w : IsString want)
    (i : IsString e.name) (aligned : off % 4 ≡ 0) (fits : behind off e ≤ size)
    (small : size < 2 ^ 63) (c : length e.contents < 2 ^ 32) (n : length e.name + 1 < 2 ^ 32) where
  abbrev named : ℕ
  named = off + 110 + (length e.name + 1)

  abbrev data_at : ℕ
  data_at = named + length (pad4 named)

  data_place : add64 off (round4 (110 + (length e.name + 1))) ≡ data_at
  unfolding behind
  data_place = omega (arith, length-pad4 named, aligned, fits, small)

  next_place : add64 data_at (round4 (length e.contents)) ≡ behind off e
  unfolding behind
  next_place =
      omega (
        arith,
        length-pad4 named,
        length-pad4 (data_at + length e.contents),
        aligned,
        fits,
        small,
        c,
      )

  data_room : ltb size (add64 data_at (length e.contents)) ≡ false
  unfolding behind
  data_room = ground (arith, fits, small, c)

  name_room :
      (length e.name + 1 == 0 || ltb size (add64 (add64 off 110) (length e.name + 1))) ≡ false
  unfolding behind
  name_room = ground (arith, fits, small, n)

  examine_data-entry :
      Holds mem (off + 110) e.name
      → mem (off + 110 + length e.name) ≡ 0
      → examine_data mem size want off (length e.contents) data_at ≡ read_entry off want e
  unfolding examine_data
  examine_data-entry h z =
      let s = skip_slash_lem mem e.name (off + 110) h z in
      let t = same_at-eq_string mem e.name trailer (off + 110) h z i trailer-IsString in
      let u =
        same_at-eq_string mem (skip_slash_of e.name) want _ s.0 s.1
          (skip_slash_of-IsString e.name i) w in
      rw (data_room, t, u, next_place) refl

  pub examine-entry :
      (rest : List ℕ)
      → Holds mem off (newc_header e (e.name ++ (0 ∷ rest)))
      → examine mem size want off ≡ read_entry off want e
  unfolding examine
  examine-entry rest h =
      let r = header_lem mem off e (e.name ++ (0 ∷ rest)) c n h in
      let s = Holds-append mem e.name (0 ∷ rest) (off + 110) r.3 in
      rw (r.0, r.1, r.2, name_room, data_place) (examine_data-entry s.0 s.1.0)

  -- The contents lie where the reader says, and the next entry behind them.
  pub parts :
      (rest : List ℕ)
      → Holds mem off (write_entry off e rest)
      → (examine mem size want off ≡ read_entry off want e)
        × Holds mem data_at e.contents
        × Holds mem (behind off e) rest
  unfolding write_entry behind
  parts rest h =
      let r = header_lem mem off e _ c n h in
      let s = Holds-append mem e.name _ (off + 110) r.3 in
      let p = Holds-append mem (pad4 named) _ (suc (off + 110 + length e.name)) s.1.1 in
      let q = Holds-append mem e.contents _ _ p.1 in
      let t = Holds-append mem (pad4 (data_at + length e.contents)) rest _ q.1 in
      (
        examine-entry _ h,
        Holds-at mem e.contents _ _ (omega arith) q.0,
        Holds-at mem rest _ _ (omega arith) t.1,
      )
