-- ===== src/Files/State.antt =====
-- The state of pkg/stam/file.c: the pools of file objects, pipes and memory files. A pointer into a
-- pool is an index.
use verkos.Prelude.{ℕ, Bool, false, Option, none, List, [], ◌==◌, get_or, set}

abbrev pub npipe : ℕ
npipe = 8

abbrev pub nfile : ℕ
nfile = 32

abbrev pub pipe_size : ℕ
pipe_size = 4096

pub data Kind : Type 0 where
  free console pipe_r pipe_w initrd mem fat fat_dir udp tcp : Kind

abbrev pub number : Kind → ℕ
number free = 0
number console = 1
number pipe_r = 2
number pipe_w = 3
number initrd = 4
number mem = 5
number fat = 6
number fat_dir = 7
number udp = 8
number tcp = 9

abbrev pub has_kind : Kind → Kind → Bool
has_kind a b = number a == number b

-- pipe_t. A count of ends that would go below 0 stays 0; the code asks only for `<= 0`.
pub record Pipe : Type 0 where
  pub buf : List ℕ
  pub head : ℕ
  pub tail : ℕ
  pub readers : ℕ
  pub writers : ℕ
  pub used : Bool

-- memfile_t; `name` is what stands before the final 0.
pub record MemFile : Type 0 where
  pub name : List ℕ
  pub data_len : ℕ
  pub contents : List ℕ
  pub in_use : Bool

-- fat_file_t
pub record FatFile : Type 0 where
  pub cluster : ℕ
  pub size : ℕ
  pub is_dir : Bool
  pub dir_sec : ℕ
  pub dir_off : ℕ

pub record File : Type 0 where
  pub refs : ℕ
  pub kind : Kind
  pub pipe : Option ℕ
  pub mem_file : Option ℕ
  pub ro : ℕ
  pub ro_len : ℕ
  pub on_disk : FatFile
  pub sock : Option ℕ
  pub conn : Option ℕ
  pub writable : Bool
  pub at : ℕ

pub record Files : Type 0 where
  pub files : List File
  pub pipes : List Pipe
  pub memfiles : List MemFile
  pub console_file : Option ℕ
  pub archive_addr : ℕ
  pub archive_size : ℕ

abbrev pub no_fat : FatFile
no_fat = record { cluster = 0; size = 0; is_dir = false; dir_sec = 0; dir_off = 0 }

abbrev pub no_file : File
no_file = record {
  refs = 0;
  kind = free;
  pipe = none;
  mem_file = none;
  ro = 0;
  ro_len = 0;
  on_disk = no_fat;
  sock = none;
  conn = none;
  writable = false;
  at = 0;
}

abbrev pub no_pipe : Pipe
no_pipe = record { buf = []; head = 0; tail = 0; readers = 0; writers = 0; used = false }

abbrev pub file_at : Files → ℕ → File
file_at s i = get_or s.files i no_file

abbrev pub put_file : Files → ℕ → File → Files
put_file s i f = record s { files = set s.files i f }

abbrev pub pipe_at : Files → ℕ → Pipe
pipe_at s i = get_or s.pipes i no_pipe

abbrev pub put_pipe : Files → ℕ → Pipe → Files
put_pipe s i p = record s { pipes = set s.pipes i p }
