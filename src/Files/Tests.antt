-- ===== src/Files/Tests.antt =====
-- pkg/stam/file.c on a table of two file objects and one pipe.
use verkos.Prelude.{
  ℕ, zero, suc, ◌+◌, ◌%◌, ◌≤◌, ◌≡◌, refl, ◌≢◌, Bool, true, false, Option, none, some, List, [], ◌∷◌,
  arith, length, replicate, length-replicate, pos, neg, find_index,
}
use verkos.Sched.State.{runnable, blocked, running, Sched, unused, thread_of, wait_pipe, put_thread}
use verkos.Sched.Block.{waits_on}
use verkos.Files.State.{
  FatFile, fat, Kind, console, pipe_r, pipe_w, fat_dir, Pipe, Files, no_file, file_at, put_file,
  pipe_at,
}
use verkos.Files.Objects.{nothing, allocated, file_alloc, file_close}
use verkos.Files.Pipe.{done, pipe_bytes, drain, read_round, write_round}
use verkos.Files.Transfer.{Devices, got, result, file_read, file_write}
use verkos.Files.Ring.{ring, queue, IsRing}
use verkos.Files.Fifo.{Drained, drain_lem}
use verkos.Files.Talk.{Talk, writes, reads, talk, stream, talk-stream}
use verkos.Files.Memory.{file_read-file_write}
use verkos.Files.Stuck.{Asleep, Stuck, write_round-Stuck}
use verkos.Files.EndOfFile.{file_close_ends, file_alloc_writable}
use verkos.Files.Open.{
  Storage, open_read, look_up, with_object, read_only, in_archive, open_found, open_reading,
  open_locked, is_named, name_eq, skip_slash, file_open,
}
use verkos.Files.Getdents.{entries}
use verkos.Files.Reading.{file_open_reading}
use verkos.Files.Entries.{entries_fit}
use verkos.Files.Descriptors.{fd_get, sys_dup, sys_dup_full}

abbrev empty_pipe : Pipe
empty_pipe = record {
  buf = replicate 4096 0;
  head = 4095;
  tail = 4095;
  readers = 1;
  writers = 1;
  used = true;
}

empty_pipe-IsRing : IsRing empty_pipe
empty_pipe-IsRing = record {
  size = length-replicate {A = ℕ} 4096 0;
  head_in = omega arith;
  tail_in = omega arith;
}

drain_lem_example : Drained 3 empty_pipe (drain 3 empty_pipe).0 (drain 3 empty_pipe).1
drain_lem_example = drain_lem 3 empty_pipe empty_pipe-IsRing

abbrev started : Talk
started = record { pipe = empty_pipe; left = 1 ∷ 2 ∷ 3 ∷ []; out = 9 ∷ [] }

talk-stream_example :
    (stream (talk (writes ∷ reads 2 ∷ writes ∷ reads 5 ∷ []) started) ≡ stream started)
    × IsRing (talk (writes ∷ reads 2 ∷ writes ∷ reads 5 ∷ []) started).pipe
talk-stream_example =
    talk-stream (writes ∷ reads 2 ∷ writes ∷ reads 5 ∷ []) started empty_pipe-IsRing

abbrev both_ends : Files
both_ends = record {
  files =
      record no_file { refs = 1; kind = pipe_r; pipe = some 0 }
      ∷ record no_file { refs = 1; kind = pipe_w; pipe = some 0 }
      ∷ record no_file { writable = true }
      ∷ [];
  pipes = empty_pipe ∷ [];
  memfiles = [];
  console_file = none;
  archive_addr = 0;
  archive_size = 0;
}

-- A writer on the processor, its idle thread and a reader that sleeps on the pipe.
abbrev shell : Sched
shell = record {
  threads =
      record unused { id = pos 1; state = runnable; home = pos 0 }
      ∷ record unused { id = pos 2; state = running; home = neg 1 }
      ∷ record unused {
        id = pos 3;
        state = blocked;
        home = neg 1;
        wait_reason = wait_pipe;
        wait_object = some 0;
      }
      ∷ [];
  next_id = 4;
  cpus = record { cur = some 1; idle = some 0; user_table = 0 } ∷ [];
  switches = 0;
  started = true;
}

reader-Asleep : Asleep 0 2 shell
unfolding waits_on
reader-Asleep = (refl, refl)

nothing_waits : queue empty_pipe ≡ []
unfolding ring
nothing_waits = refl

write_round-Stuck_example : Stuck 1 0 2 (write_round 0 7 0 (replicate 4096 1) 0 both_ends shell)
write_round-Stuck_example =
    write_round-Stuck 0 7 1 0 0 2 shell refl (omega arith) refl refl (omega arith) (ground arith)
      (ground arith) (ground arith) reader-Asleep (replicate 4096 1) both_ends empty_pipe-IsRing
      (ground arith) nothing_waits (ground (arith, length-replicate {A = ℕ} 4096 1))

file_close_ends_example :
    let after = file_close (some 1) both_ends shell in
    ((r : ℕ) → waits_on 0 (thread_of after.2 r) ≡ false)
    × ((file_at after.1 1).kind ≡ Kind.free)
    × (pipe_bytes (pipe_at both_ends 0) ≡ 0
        → (read_round 0 7 0 10 after.1 shell).0 ≡ some (pos 0, []))
    × ((pipe_at after.1 0).buf ≡ (pipe_at both_ends 0).buf)
    × (pipe_bytes (pipe_at after.1 0) ≡ pipe_bytes (pipe_at both_ends 0))
file_close_ends_example =
    file_close_ends 1 0 0 7 10 both_ends shell shell (omega arith) (omega arith) refl refl refl refl

abbrev made_console : Files
made_console = put_file both_ends 2 (record no_file { refs = 1; kind = console; writable = true })

alloc_two : file_alloc console none both_ends ≡ some (2, made_console)
unfolding file_alloc allocated find_index
alloc_two = refl

file_alloc_writable_example :
    ((file_at made_console 2).kind ≡ console)
    × ((file_at made_console 2).refs ≡ 1)
    × ((file_at both_ends 2).kind ≡ Kind.free)
    × ((file_at made_console 2).writable ≡ (file_at both_ends 2).writable)
    × ((j : ℕ) → 2 ≢ j → file_at made_console j ≡ file_at both_ends j)
file_alloc_writable_example = file_alloc_writable console none 2 both_ends made_console alloc_two

abbrev no_devices : Devices
no_devices = record {
  World = ℕ;
  console_read_line = λ n w. ((pos 0, []), w);
  kputc = λ b w. w + 1;
  fat_read = λ f at n w. ((pos 0, []), w);
  fat_write = λ f at bs w. ((pos 0, f), w);
  recv = λ c n w. ((pos 0, []), w);
  send = λ c bs w. (pos 0, w);
  archive_byte = λ k. k;
}

-- Two objects on one empty memory file, both at its third byte
abbrev note_file : Files
note_file = record both_ends {
  files =
      record no_file { refs = 1; kind = Kind.mem; mem_file = some 0; at = 2 }
      ∷ record no_file { refs = 1; kind = Kind.mem; mem_file = some 0; at = 2 }
      ∷ [];
  memfiles =
      record { name = 110 ∷ []; data_len = 0; contents = replicate 4096 0; in_use = true } ∷ [];
}

file_read-file_write_example :
    let r = file_write no_devices 0 7 (some 0) (5 ∷ 6 ∷ []) 0 note_file shell 0 in
    (r.0 ≡ result (done (pos 2)))
    × ((file_read no_devices 0 7 (some 1) 2 r.1 shell 0).0 ≡ got (pos 2, 5 ∷ 6 ∷ []))
file_read-file_write_example =
    file_read-file_write no_devices 0 7 0 1 0 (5 ∷ 6 ∷ []) note_file shell 0 (omega arith) refl refl
      refl refl refl (omega arith) (length-replicate {A = ℕ} 4096 0) (omega arith)

abbrev made_directory : Files
made_directory = put_file both_ends 2 (record no_file { refs = 1; kind = fat_dir; writable = true })

alloc_directory : file_alloc fat_dir none both_ends ≡ some (2, made_directory)
unfolding file_alloc allocated find_index
alloc_directory = refl

-- A disk on which every name is the same file, and no archive.
abbrev one_file : FatFile
one_file = record { cluster = 5; size = 300; is_dir = false; dir_sec = 40; dir_off = 32 }

abbrev one_disk : Storage
one_disk = record {
  World = ℕ;
  fat_mounted = λ w. true;
  fat_open = λ name w. some one_file;
  fat_create = λ name w. (none, w);
  fat_truncate = λ f w. (some (record f { size = 0 }), w + 1);
  cpio_find = λ addr size name. none;
}

abbrev opened_file : Files
opened_file =
    put_file both_ends 2
      (record no_file { refs = 1; kind = fat; ro_len = 300; on_disk = one_file; writable = true })

opens_slash_a :
    (file_open one_disk (47 ∷ 97 ∷ []) open_read both_ends 0).0 ≡ ((pos 0, some 2), opened_file)
unfolding file_open look_up open_locked open_reading open_found in_archive with_object read_only
    file_alloc allocated find_index skip_slash is_named name_eq
opens_slash_a = refl

nothing_found : in_archive one_disk (skip_slash (47 ∷ 97 ∷ [])) both_ends ≡ none
unfolding in_archive
nothing_found = refl

file_open_reading_example :
    ((file_at opened_file 2).on_disk ≡ one_file)
    × ((file_at opened_file 2).kind ≡ fat)
    × ((file_at opened_file 2).at ≡ 0)
    × ((file_at opened_file 2).writable ≡ (file_at both_ends 2).writable)
unfolding find_index
file_open_reading_example =
    file_open_reading one_disk (47 ∷ 97 ∷ []) 2 both_ends opened_file 0 one_file refl refl refl
      nothing_found opens_slash_a

abbrev two_names : ℕ → Option (List ℕ × Bool)
two_names zero = some (97 ∷ [], false)
two_names (suc zero) = some (98 ∷ 99 ∷ [], true)
two_names (suc (suc k)) = none

entries_fit_example :
    (length (entries two_names 101 0 100).0 ≤ 100)
    × (length (entries two_names 101 0 100).0 % 8 ≡ 0)
    × ((entries two_names 101 0 100).2 ≡ false → two_names (entries two_names 101 0 100).1 ≡ none)
entries_fit_example = entries_fit two_names 101 0 100 (omega arith)

-- The writer of `shell` with every descriptor on the read end of the pipe.
abbrev all_taken : Sched
all_taken = put_thread shell 1 (record (thread_of shell 1) { fd = replicate 8 (some 0) })

sys_dup_full_example :
    ((sys_dup 0 3 both_ends all_taken).0 ≡ (neg 24, nothing))
    × (file_at (sys_dup 0 3 both_ends all_taken).1 0 ≡ file_at both_ends 0)
    × ((sys_dup 0 3 both_ends all_taken).2 ≡ all_taken)
unfolding fd_get find_index
sys_dup_full_example = sys_dup_full 0 3 0 both_ends all_taken refl (omega arith) (omega arith) refl
