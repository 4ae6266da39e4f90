-- ===== src/Files/Transfer.antt =====
-- `file_read` and `file_write` of pkg/stam/file.c. The console, the disk, the connections and the
-- bytes of the archive are an interface, which the files of those parts implement.
use verkos.Prelude.{
  ℕ, zero, suc, ◌+◌, ◌%◌, ◌^◌, Bool, true, false, not, ◌&&◌, Option, none, some, List, [], ◌∷◌, ltb,
  ◌==◌, if◌then◌else◌, length, get_or, set, take, ℤ, pos, negsuc, neg,
}
use verkos.Sched.State.{Sched}
use verkos.Files.State.{
  Kind, free, console, pipe_r, pipe_w, initrd, mem, fat, fat_dir, udp, tcp, MemFile, FatFile, File,
  Files, file_at, put_file,
}
use verkos.Files.Pipe.{read_round, Written, done, write_round}

abbrev pub mem_size : ℕ
mem_size = 4096

pub record Devices : Type 1 where
  pub World : Type 0
  pub console_read_line : ℕ → World → (ℤ × List ℕ) × World
  pub kputc : ℕ → World → World
  pub fat_read : FatFile → ℕ → ℕ → World → (ℤ × List ℕ) × World
  pub fat_write : FatFile → ℕ → List ℕ → World → (ℤ × FatFile) × World
  pub recv : Option ℕ → ℕ → World → (ℤ × List ℕ) × World
  pub send : Option ℕ → List ℕ → World → ℤ × World
  pub archive_byte : ℕ → ℕ

abbrev pub no_mem : MemFile
no_mem = record { name = []; data_len = 0; contents = []; in_use = false }

abbrev pub mem_at : Files → ℕ → MemFile
mem_at s i = get_or s.memfiles i no_mem

-- while (n < len && f->pos < total) buf[n++] = src[f->pos++];
unfoldable pub read_loop : (ℕ → ℕ) → ℕ → ℕ → ℕ → List ℕ
read_loop src zero at total = []
read_loop src (suc len) at total =
    let rest = read_loop src len (at + 1) total in if ltb at total then src at ∷ rest else []

-- while (n < len && f->pos < MEM_SIZE): the count and the array
unfoldable pub mem_write : List ℕ → List ℕ → ℕ → ℕ × List ℕ
mem_write [] buf at = (0, buf)
mem_write (b ∷ bs) buf at =
    let (n, buf') = mem_write bs (set buf at b) (at + 1) in
    if ltb at mem_size then (n + 1, buf') else (0, buf)

-- The position goes on by a result above 0.
unfoldable pub moved_by : ℤ → File → File
moved_by (pos n) f = record f { at = f.at + n }
moved_by (negsuc n) f = f

-- The memory file of an open file; an index of none is no memory file.
abbrev pub mem_index : File → Files → ℕ
mem_index f s = elim f.mem_file [ some m ↦ m | none ↦ length s.memfiles ]

-- A round of reading: the result and the bytes, or asleep, or the code follows a pipe that is null.
pub data Read : Type 0 where
  got : ℤ × List ℕ → Read
  sleeping null_pipe : Read

-- The same for writing.
pub data Wrote : Type 0 where
  result : Written → Wrote
  null_written : Wrote

unfoldable pub read_result : Option (ℤ × List ℕ) → Read
read_result none = sleeping
read_result (some r) = got r

unfoldable pub read_pipe : ℕ → ℕ → ℕ → Option ℕ → Files → Sched → Read × Files × Sched
read_pipe me now len none s sc = (null_pipe, s, sc)
read_pipe me now len (some p) s sc =
    let (r, s', sc') = read_round me now p len s sc in (read_result r, s', sc')

unfoldable pub write_pipe : ℕ → ℕ → List ℕ → ℕ → Option ℕ → Files → Sched → Wrote × Files × Sched
write_pipe me now [] n none s sc = (result (done (pos n)), s, sc)
write_pipe me now (b ∷ bs) n none s sc = (null_written, s, sc)
write_pipe me now bs n (some p) s sc =
    let (r, s', sc') = write_round me now p bs n s sc in (result r, s', sc')

unfoldable pub read_file : ℕ → File → ℕ → (ℕ → ℕ) → ℕ → Files → (ℤ × List ℕ) × Files
read_file i f len src total s =
    let bs = read_loop src len f.at total in
    ((pos (length bs), bs), put_file s i (record f { at = f.at + length bs }))

-- A round of `file_read` on the object `i`, by its kind; a directory is taken for a pipe.
unfoldable pub read_kind :
    (d : Devices)
    → ℕ
    → ℕ
    → ℕ
    → ℕ
    → File
    → Kind
    → Files
    → Sched
    → d.World
    → Read × Files × Sched × d.World
read_kind d me now i len f free s sc w = (got (neg 9, []), s, sc, w)
read_kind d me now i len f pipe_w s sc w = (got (neg 9, []), s, sc, w)
read_kind d me now i len f udp s sc w = (got (neg 9, []), s, sc, w)
read_kind d me now i len f console s sc w =
    let (r, w') = d.console_read_line len w in (got r, s, sc, w')
read_kind d me now i len f tcp s sc w =
    let (r, w') = d.recv f.conn (len % 2 ^ 32) w in (got r, s, sc, w')
read_kind d me now i len f initrd s sc w =
    let (r, s') = read_file i f len (λ k. d.archive_byte (f.ro + k)) f.ro_len s in
    (got r, s', sc, w)
read_kind d me now i len f mem s sc w =
    let m = mem_at s (mem_index f s) in
    let (r, s') = read_file i f len (λ k. get_or m.contents k 0) m.data_len s in (got r, s', sc, w)
read_kind d me now i len f fat s sc w =
    let (r, w') = d.fat_read f.on_disk f.at len w in (got r, put_file s i (moved_by r.0 f), sc, w')
read_kind d me now i len f pipe_r s sc w =
    let (r, s', sc') = read_pipe me now len f.pipe s sc in (r, s', sc', w)
read_kind d me now i len f fat_dir s sc w =
    let (r, s', sc') = read_pipe me now len f.pipe s sc in (r, s', sc', w)

-- The kinds whose count of 0 is not looked at first.
abbrev pub asks_device : Kind → Bool
asks_device free = true
asks_device pipe_w = true
asks_device console = true
asks_device tcp = true
asks_device udp = true
asks_device initrd = false
asks_device mem = false
asks_device fat = false
asks_device fat_dir = false
asks_device pipe_r = false

unfoldable pub file_read :
    (d : Devices) → ℕ → ℕ → Option ℕ → ℕ → Files → Sched → d.World → Read × Files × Sched × d.World
file_read d me now none len s sc w = (got (neg 9, []), s, sc, w)
file_read d me now (some i) len s sc w =
    let f = file_at s i in
    if not (asks_device f.kind) && len == 0
    then (got (pos 0, []), s, sc, w)
    else read_kind d me now i len f f.kind s sc w

unfoldable pub put_all : (d : Devices) → List ℕ → d.World → d.World
put_all d [] w = w
put_all d (b ∷ bs) w = put_all d bs (d.kputc b w)

-- The memory file after a write up to the position `at`.
unfoldable pub grown : List ℕ → ℕ → MemFile → MemFile
grown buf at m = record m {
  contents = buf;
  data_len = if ltb m.data_len at then at else m.data_len;
}

unfoldable pub write_mem : ℕ → File → List ℕ → Files → ℤ × Files
write_mem i f bs s =
    let m = mem_at s (mem_index f s) in
    let (n, buf) = mem_write bs m.contents f.at in
    (
      if n == 0 && not (length bs == 0) then neg 28 else pos n,
      record (put_file s i (record f { at = f.at + n })) {
        memfiles = set s.memfiles (mem_index f s) (grown buf (f.at + n) m);
      },
    )

-- A round of `file_write` of `bs` after `n` bytes went into a pipe (0 for every other kind).
unfoldable pub write_kind :
    (d : Devices)
    → ℕ
    → ℕ
    → ℕ
    → List ℕ
    → ℕ
    → File
    → Kind
    → Files
    → Sched
    → d.World
    → Wrote × Files × Sched × d.World
write_kind d me now i bs n f free s sc w = (result (done (neg 9)), s, sc, w)
write_kind d me now i bs n f pipe_r s sc w = (result (done (neg 9)), s, sc, w)
write_kind d me now i bs n f console s sc w =
    (result (done (pos (length bs))), s, sc, put_all d bs w)
write_kind d me now i bs n f tcp s sc w =
    let (r, w') = d.send f.conn (take (length bs % 2 ^ 32) bs) w in (result (done r), s, sc, w')
write_kind d me now i bs n f udp s sc w = (result (done (neg 9)), s, sc, w)
write_kind d me now i bs n f initrd s sc w = (result (done (neg 9)), s, sc, w)
write_kind d me now i bs n f fat s sc w =
    let (r, w') = d.fat_write f.on_disk f.at bs w in
    if not f.writable
    then (result (done (neg 9)), s, sc, w)
    else (result (done r.0), put_file s i (moved_by r.0 (record f { on_disk = r.1 })), sc, w')
write_kind d me now i bs n f mem s sc w =
    let (r, s') = write_mem i f bs s in (result (done r), s', sc, w)
write_kind d me now i bs n f pipe_w s sc w =
    let (r, s', sc') = write_pipe me now bs n f.pipe s sc in (r, s', sc', w)
write_kind d me now i bs n f fat_dir s sc w =
    let (r, s', sc') = write_pipe me now bs n f.pipe s sc in (r, s', sc', w)

unfoldable pub file_write :
    (d : Devices)
    → ℕ
    → ℕ
    → Option ℕ
    → List ℕ
    → ℕ
    → Files
    → Sched
    → d.World
    → Wrote × Files × Sched × d.World
file_write d me now none bs n s sc w = (result (done (neg 9)), s, sc, w)
file_write d me now (some i) bs n s sc w =
    write_kind d me now i bs n (file_at s i) (file_at s i).kind s sc w
