-- ===== src/Archive/Tests.antt =====
-- An archive of one file, and the names `..` and `a`.
use verkos.Prelude.{
  ℕ, ◌≤◌, ◌≡◌, refl, false, ◌||◌, none, some, List, [], ◌∷◌, arith, ◌==◌, if◌then◌else◌, length,
  get_or,
}
use verkos.Archive.Reader.{Bytes, cpio_find, skip_slash_of}
use verkos.Archive.Writer.{
  CpioEntry, newc_header, hexfield, put_digits, hex_digit, write_entry, behind, do_create,
}
use verkos.Archive.Extract.{strip_slashes, entry_name}
use verkos.Archive.Holds.{Holds}
use verkos.Archive.Find.{first_named, Finds, cpio_find-do_create}
use verkos.Archive.Bounds.{Inside, cpio_find-Inside}
use verkos.Archive.Components.{components, any_dot_dot, begins_with_slash, entry_name_lem}

-- init, holding the bytes 7 and 8
abbrev init_file : CpioEntry
init_file = record {
  name = 105 ∷ 110 ∷ 105 ∷ 116 ∷ [];
  stat = record { ino = 1; mode = 33188; uid = 0; gid = 0; nlink = 1; mtime = 5 };
  contents = 7 ∷ 8 ∷ [];
}

abbrev init_name : List ℕ
init_name = 47 ∷ 105 ∷ 110 ∷ 105 ∷ 116 ∷ []

image : Bytes
image i = get_or (do_create 0 (init_file ∷ [])) i 0

image-Holds : Holds image 0 (do_create 0 (init_file ∷ []))
unfolding image do_create write_entry behind newc_header hexfield put_digits hex_digit
image-Holds = ground arith

archive_fits : length (do_create 0 (init_file ∷ [])) ≤ 300
unfolding do_create write_entry behind newc_header hexfield put_digits
archive_fits = omega arith

cpio_find-do_create_example :
    Finds image
      (first_named (skip_slash_of init_name) (init_file ∷ []))
      (cpio_find image 300 init_name)
cpio_find-do_create_example =
    cpio_find-do_create image 300 init_name (init_file ∷ []) (ground arith)
      (record { named = ground arith; short_name = omega arith; short = omega arith }, refl)
      image-Holds archive_fits (omega arith)

cpio_find-Inside_example : Inside 100 (cpio_find image 100 init_name)
cpio_find-Inside_example = cpio_find-Inside image 100 init_name (omega arith)

entry_name_lem_example :
    let nm = strip_slashes (47 ∷ 97 ∷ 47 ∷ 46 ∷ 46 ∷ []) in
    (entry_name (47 ∷ 97 ∷ 47 ∷ 46 ∷ 46 ∷ [])
      ≡ (if any_dot_dot (components nm) || length nm == 0 then none else some nm))
    × (begins_with_slash nm ≡ false)
entry_name_lem_example = entry_name_lem (47 ∷ 97 ∷ 47 ∷ 46 ∷ 46 ∷ [])
