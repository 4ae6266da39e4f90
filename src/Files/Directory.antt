-- ===== src/Files/Directory.antt =====
-- Reading from an open directory, in pkg/stam/file.c.
use verkos.Prelude.{
  ℕ, ◌≡◌, refl, ap, ◌∙◌, ◌≢◌, false, none, some, arith, ◌==◌, get_or-set, find_index,
  find_index_sound,
}
use verkos.Sched.State.{Sched}
use verkos.Files.State.{free, fat_dir, has_kind, File, Files, no_file, file_at, put_file}
use verkos.Files.Objects.{allocated, file_alloc}
use verkos.Files.Transfer.{Devices, null_pipe, read_pipe, read_kind, file_read}
use verkos.Files.EndOfFile.{file_alloc_at}

as_directory :
    (f : File)
    → ((allocated fat_dir none f).kind ≡ fat_dir) × ((allocated fat_dir none f).pipe ≡ none)
unfolding allocated
as_directory f = (refl, refl)

no_pipe_there :
    (d : Devices) (me now i len : ℕ) (s : Files) (sc : Sched) (w : d.World)
    → (file_at s i).kind ≡ fat_dir
    → (file_at s i).pipe ≡ none
    → len ≢ 0
    → (file_read d me now (some i) len s sc w).0 ≡ null_pipe
unfolding file_read read_kind read_pipe
no_pipe_there d me now i len s sc w k e ne =
    let some_left : (len == 0) ≡ false = ground (arith, ne) in rw (k, some_left, e) refl

-- A file object made for a directory, with no pipe as file_open makes it, and then read for at least
-- one byte: the code goes on to the pipe, which is null.
pub file_read_directory :
    (d : Devices) (me now i len : ℕ) (s s' : Files) (sc : Sched) (w : d.World)
    → file_alloc fat_dir none s ≡ some (i, s')
    → len ≢ 0
    → (file_read d me now (some i) len s' sc w).0 ≡ null_pipe
file_read_directory d me now i len s s' sc w e ne =
    no_pipe_there d me now i len s' sc w (ap (λ f. f.kind) here ∙ made.0)
      (ap (λ f. f.pipe) here ∙ made.1) ne
  where
    there :
        (s' ≡ put_file s i (allocated fat_dir none (file_at s i)))
        × (find_index (λ f. has_kind f.kind free) s.files ≡ some i)
    there = file_alloc_at fat_dir none i s s' e

    here : file_at s' i ≡ allocated fat_dir none (file_at s i)
    here =
        ap (λ z. file_at z i) there.0
        ∙ ground (
          arith,
          find_index_sound (λ f. has_kind f.kind free) s.files no_file i there.1,
          get_or-set s.files i i (allocated fat_dir none (file_at s i)) no_file,
        )

    made :
        ((allocated fat_dir none (file_at s i)).kind ≡ fat_dir)
        × ((allocated fat_dir none (file_at s i)).pipe ≡ none)
    made = as_directory (file_at s i)
