-- ===== src/Archive/Writer.antt =====
-- write_entry and do_create of pkg/vcpio/vcpio.c. A file that is named on the input is what lstat and
-- the reading of it give; the output is the list of its bytes.
use verkos.Prelude.{
  ℕ, zero, suc, ◌+◌, ◌-◌, ◌/◌, ◌%◌, ◌^◌, List, [], ◌∷◌, ◌++◌, ltb, if◌then◌else◌, length, replicate,
}
use verkos.Archive.Reader.{trailer}

-- struct stat, as far as it is written
pub record Stat : Type 0 where
  pub ino : ℕ
  pub mode : ℕ
  pub uid : ℕ
  pub gid : ℕ
  pub nlink : ℕ
  pub mtime : ℕ

-- A name, and the contents of a file, the target of a link, or nothing.
pub record CpioEntry : Type 0 where
  pub name : List ℕ
  pub stat : Stat
  pub contents : List ℕ

unfoldable pub hex_digit : ℕ → ℕ
hex_digit d = if ltb d 10 then 48 + d else 87 + d

-- The digits of `v` at the power `p` and below, then `rest`.
unfoldable pub put_digits : ℕ → ℕ → List ℕ → List ℕ
put_digits zero v rest = rest
put_digits (suc count) v rest = hex_digit (v / 16 ^ count % 16) ∷ put_digits count v rest

-- %08x of an unsigned
unfoldable pub hexfield : ℕ → List ℕ → List ℕ
hexfield v rest = put_digits 8 (v % 2 ^ 32) rest

-- The bytes up to a multiple of four.
abbrev pub pad4 : ℕ → List ℕ
pad4 at_pos = replicate ((4 - at_pos % 4) % 4) 0

unfoldable pub newc_header : CpioEntry → List ℕ → List ℕ
newc_header e rest =
    48
    ∷ 55
    ∷ 48
    ∷ 55
    ∷ 48
    ∷ 49
    ∷ hexfield e.stat.ino (
        hexfield e.stat.mode (
          hexfield e.stat.uid (
            hexfield e.stat.gid (
              hexfield e.stat.nlink (
                hexfield e.stat.mtime (
                  hexfield (length e.contents) (
                    hexfield 0 (
                      hexfield 0 (
                        hexfield 0
                          (hexfield 0 (hexfield (length e.name + 1) (hexfield 0 rest))))))))))))

-- The bytes of an entry, `at_pos` having been written before.
unfoldable pub write_entry : ℕ → CpioEntry → List ℕ → List ℕ
write_entry at_pos e rest =
    let named = at_pos + 110 + (length e.name + 1) in
    let data_at = named + length (pad4 named) in
    let after = data_at + length e.contents in
    newc_header e (e.name ++ (0 ∷ (pad4 named ++ (e.contents ++ (pad4 after ++ rest)))))

-- at_pos behind the entry
unfoldable pub behind : ℕ → CpioEntry → ℕ
behind at_pos e =
    let named = at_pos + 110 + (length e.name + 1) in
    let data_at = named + length (pad4 named) in
    let after = data_at + length e.contents in after + length (pad4 after)

abbrev pub end_entry : CpioEntry
end_entry = record {
  name = trailer;
  stat = record { ino = 0; mode = 0; uid = 0; gid = 0; nlink = 1; mtime = 0 };
  contents = [];
}

unfoldable pub do_create : ℕ → List CpioEntry → List ℕ
do_create at_pos [] = write_entry at_pos end_entry []
do_create at_pos (e ∷ es) = write_entry at_pos e (do_create (behind at_pos e) es)
