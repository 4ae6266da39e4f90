-- ===== src/Files/Getdents.antt =====
-- `file_getdents` of pkg/stam/file.c: the names of a directory in the layout of getdents64.
use verkos.Prelude.{
  ℕ, zero, suc, ◌+◌, ◌-◌, ◌*◌, ◌/◌, ◌%◌, Bool, true, false, not, ◌&&◌, Option, none, some, List, [],
  ◌∷◌, ◌++◌, ltb, ◌==◌, if◌then◌else◌, length, replicate, ℤ, pos, neg,
}
use verkos.Files.State.{fat_dir, has_kind, FatFile, Files, file_at, put_file}

-- The bytes of an entry: its name of `n` bytes, padded to a multiple of 8.
abbrev pub record_len : ℕ → ℕ
record_len n = (19 + n + 1 + 7) / 8 * 8

-- 8 bytes, the lowest first
unfoldable pub le_bytes : ℕ → ℕ → List ℕ
le_bytes zero v = []
le_bytes (suc k) v = v % 256 ∷ le_bytes k (v / 256)

unfoldable pub entry : List ℕ → Bool → ℕ → List ℕ
entry name is_dir off =
    let len = record_len (length name) in
    let kind = if is_dir then 4 else 8 in
    let tail = name ++ replicate (len - 19 - length name) 0 in
    replicate 8 0 ++ (le_bytes 8 off ++ (len % 256 ∷ (len / 256 % 256 ∷ (kind ∷ tail))))

-- The loop from the entry `at` on, with `fuel` entries at most and `room` bytes left: the bytes, where
-- the position stands, and whether it stopped for lack of room.
unfoldable pub entries : (ℕ → Option (List ℕ × Bool)) → ℕ → ℕ → ℕ → List ℕ × ℕ × Bool
entries dirent zero at room = ([], at, false)
entries dirent (suc fuel) at room = elim (dirent at) [
  | none ↦ ([], at, false)
  | some (name, is_dir) ↦
      let (rest, at', short) = entries dirent fuel (at + 1) (room - record_len (length name)) in
      if ltb room (record_len (length name))
      then ([], at, true)
      else (entry name is_dir (at + 1) ++ rest, at', short)
]

-- `dirent` is fat_dirent on this directory. Each entry takes 24 bytes at least, so `len` of them are
-- more than fit.
unfoldable pub file_getdents :
    (FatFile → ℕ → Option (List ℕ × Bool)) → Option ℕ → ℕ → Files → (ℤ × List ℕ) × Files
file_getdents dirent none len s = ((neg 20, []), s)
file_getdents dirent (some i) len s =
    let f = file_at s i in
    let (bs, at, short) = entries (dirent f.on_disk) (len + 1) f.at len in
    if not (has_kind f.kind fat_dir)
    then ((neg 20, []), s)
    else if short && length bs == 0
    then ((neg 22, []), s)
    else ((pos (length bs), bs), put_file s i (record f { at = at }))
