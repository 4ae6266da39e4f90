-- ===== src/Files/Open.antt =====
-- `file_open` of pkg/stam/file.c. The disk and the archive are an interface; a name is the bytes
-- before its final 0.
use verkos.Prelude.{
  ℕ, Bool, true, false, not, ◌&&◌, ◌||◌, Option, none, some, List, [], ◌∷◌, ◌==◌, if◌then◌else◌,
  set, take, ℤ, pos, neg, find_index,
}
use verkos.Files.State.{
  Kind, initrd, mem, fat, fat_dir, MemFile, FatFile, File, Files, file_at, put_file,
}
use verkos.Files.Objects.{file_alloc}
use verkos.Files.Transfer.{mem_at}

pub data Mode : Type 0 where
  open_read open_write open_append : Mode

abbrev pub is_read : Mode → Bool
is_read open_read = true
is_read open_write = false
is_read open_append = false

abbrev pub is_write : Mode → Bool
is_write open_read = false
is_write open_write = true
is_write open_append = false

-- fat_mounted, fat_open, fat_create, fat_truncate and cpio_find
pub record Storage : Type 1 where
  pub World : Type 0
  pub fat_mounted : World → Bool
  pub fat_open : List ℕ → World → Option FatFile
  pub fat_create : List ℕ → World → Option FatFile × World
  pub fat_truncate : FatFile → World → Option FatFile × World
  pub cpio_find : ℕ → ℕ → List ℕ → Option (ℕ × ℕ)

unfoldable pub file_set_archive : ℕ → ℕ → Files → Files
file_set_archive addr size s = record s { archive_addr = addr; archive_size = size }

unfoldable pub name_eq : List ℕ → List ℕ → Bool
name_eq [] [] = true
name_eq [] (b ∷ bs) = false
name_eq (a ∷ as') [] = false
name_eq (a ∷ as') (b ∷ bs) = a == b && name_eq as' bs

-- name[0] == '/'
abbrev pub is_absolute : List ℕ → Bool
is_absolute [] = false
is_absolute (b ∷ bs) = b == 47

unfoldable pub skip_slash : List ℕ → List ℕ
skip_slash [] = []
skip_slash (b ∷ bs) = if b == 47 then bs else b ∷ bs

-- What is found on the disk before the lock is taken.
pub data Lookup : Type 0 where
  refused : ℤ → Lookup
  to_write : FatFile → Lookup
  to_read : FatFile → Lookup
  not_there : Lookup

unfoldable pub plain_file : Option FatFile → Option FatFile
plain_file none = none
plain_file (some f) = if f.is_dir then none else some f

unfoldable pub made_or : ℤ → Option FatFile → Lookup
made_or error none = refused error
made_or error (some f) = to_write f

unfoldable pub look_up : (d : Storage) → Mode → Bool → List ℕ → d.World → Lookup × d.World
look_up d mode absolute name w =
    if not (d.fat_mounted w)
    then (not_there, w)
    else if is_read mode
    then (elim (d.fat_open name w) [ some f ↦ to_read f | none ↦ not_there ], w)
    else if not absolute
    then (not_there, w)
    else elim (plain_file (d.fat_open name w)) [
      | none ↦ let (r, w') = d.fat_create name w in (made_or (neg 2) r, w')
      | some f ↦
          let (r, w') = d.fat_truncate f w in
          if is_write mode then (made_or (neg 5) r, w') else (to_write f, w)
    ]

-- The result and the object.
abbrev pub Opened : Type 0
Opened = (ℤ × Option ℕ) × Files

-- A new object, completed by `f`, or -EMFILE.
unfoldable pub with_object : Kind → (File → File) → Files → Opened
with_object kind f s = elim (file_alloc kind none s) [
  | none ↦ ((neg 24, none), s)
  | some (i, s1) ↦ ((pos 0, some i), put_file s1 i (f (file_at s1 i)))
]

unfoldable pub written_file : Mode → FatFile → File → File
written_file mode ff f = record f {
  on_disk = ff;
  ro_len = ff.size;
  writable = true;
  at = if is_write mode then 0 else ff.size;
}

-- A file or a directory of the disk opened for reading.
unfoldable pub read_only : FatFile → File → File
read_only ff f = record f { on_disk = ff; ro_len = ff.size; at = 0 }

abbrev pub kind_of : FatFile → Kind
kind_of ff = if ff.is_dir then fat_dir else fat

unfoldable pub is_named : List ℕ → MemFile → Bool
is_named name m = m.in_use && name_eq m.name name

-- The memory file of that name, or else an unused one.
unfoldable pub mem_slot : List ℕ → Files → Option ℕ
mem_slot name s = elim (find_index (is_named name) s.memfiles) [
  | some m ↦ some m
  | none ↦ find_index (λ m. not m.in_use) s.memfiles
]

-- for (; k < NAME_MAX - 1 && name[k]; k++); a new one is empty, and so is one opened to be written.
unfoldable pub claimed : Mode → List ℕ → MemFile → MemFile
claimed mode name m = record m {
  name = take 31 name;
  data_len = if is_write mode || not m.in_use then 0 else m.data_len;
  in_use = true;
}

unfoldable pub open_memory : Mode → List ℕ → Files → Opened
open_memory mode name s = elim (mem_slot name s) [
  | none ↦ ((neg 24, none), s)
  | some k ↦
      let m = claimed mode name (mem_at s k) in
      with_object mem
        (λ f. record f { mem_file = some k; at = if is_write mode then 0 else m.data_len })
        (record s { memfiles = set s.memfiles k m })
]

-- cpio_find, where there is an archive
unfoldable pub in_archive : (d : Storage) → List ℕ → Files → Option (ℕ × ℕ)
in_archive d name s =
    if s.archive_size == 0 then none else d.cpio_find s.archive_addr s.archive_size name

unfoldable pub open_found : Lookup → Files → Opened
open_found (to_read ff) s = with_object (kind_of ff) (read_only ff) s
open_found (to_write ff) s = ((neg 2, none), s)
open_found (refused e) s = ((neg 2, none), s)
open_found not_there s = ((neg 2, none), s)

-- Reading: a memory file, else the archive, else the disk.
unfoldable pub open_reading : (d : Storage) → List ℕ → Lookup → Files → Opened
open_reading d name found s = elim (find_index (is_named name) s.memfiles) [
  | some k ↦ with_object mem (λ f. record f { mem_file = some k; at = 0 }) s
  | none ↦ elim (in_archive d name s) [
    | some (at, len) ↦ with_object initrd (λ f. record f { ro = at; ro_len = len; at = 0 }) s
    | none ↦ open_found found s
  ]
]

-- The part under the lock.
unfoldable pub open_locked : (d : Storage) → Mode → List ℕ → Lookup → Files → Opened
open_locked d mode name (refused e) s = ((e, none), s)
open_locked d mode name (to_write ff) s = with_object fat (written_file mode ff) s
open_locked d mode name not_there s =
    if is_read mode then open_reading d name not_there s else open_memory mode name s
open_locked d mode name (to_read ff) s =
    if is_read mode then open_reading d name (to_read ff) s else open_memory mode name s

unfoldable pub file_open : (d : Storage) → List ℕ → Mode → Files → d.World → Opened × d.World
file_open d name mode s w =
    let (found, w') = look_up d mode (is_absolute name) (skip_slash name) w in
    (open_locked d mode (skip_slash name) found s, w')
