-- ===== src/Files/Memory.antt =====
-- A memory file of pkg/stam/file.c gives back what was written to it.
use verkos.Prelude.{
  ℕ, suc, ◌+◌, ◌≤◌, ◌<◌, ◌≡◌, refl, ap, ◌∙◌, ◌≢◌, true, false, not, ◌&&◌, some, List, [], ◌∷◌,
  arith, ltb, ◌==◌, if◌then◌else◌, length, get_or, set, length-set, get_or-set, pos,
}
use verkos.Sched.State.{Sched}
use verkos.Files.State.{Kind, mem, MemFile, File, Files, no_file, file_at, put_file}
use verkos.Files.Pipe.{done}
use verkos.Files.Transfer.{
  mem_size, Devices, no_mem, mem_at, read_loop, mem_write, Read, got, result, asks_device,
  read_file, read_kind, file_read, grown, write_mem, write_kind, file_write,
}

mem_write_before :
    (bs buf : List ℕ) (at k : ℕ) → k < at → get_or (mem_write bs buf at).1 k 0 ≡ get_or buf k 0
unfolding mem_write
mem_write_before [] buf at k h = refl
mem_write_before (b ∷ bs) buf at k h =
    ground (arith, mem_write_before bs (set buf at b) (at + 1) k, get_or-set buf at k b 0)

read_loop_at :
    (src : ℕ → ℕ) (n at total : ℕ)
    → at < total
    → read_loop src (suc n) at total ≡ src at ∷ read_loop src n (at + 1) total
unfolding read_loop
read_loop_at src n at total h = ground arith

mem_write_cons :
    (b : ℕ) (bs buf : List ℕ) (at : ℕ)
    → at < mem_size
    → mem_write (b ∷ bs) buf at
      ≡ ((mem_write bs (set buf at b) (at + 1)).0 + 1, (mem_write bs (set buf at b) (at + 1)).1)
unfolding mem_write
mem_write_cons b bs buf at h = let room : ltb at mem_size ≡ true = ground arith in rw room refl

mem_write_nil : (buf : List ℕ) (at : ℕ) → (mem_write [] buf at).0 ≡ 0
unfolding mem_write
mem_write_nil buf at = refl

-- Where the bytes fit, a write to a memory file counts them all, and reading as many from the same
-- position, up to a length that covers them, gives them back.
read_loop-mem_write :
    (bs buf : List ℕ) (at total : ℕ)
    → length buf ≡ mem_size
    → at + length bs ≤ mem_size
    → at + length bs ≤ total
    → ((mem_write bs buf at).0 ≡ length bs)
      × (read_loop (λ k. get_or (mem_write bs buf at).1 k 0) (length bs) at total ≡ bs)
unfolding read_loop
read_loop-mem_write [] buf at total l h t = (mem_write_nil buf at, refl)
read_loop-mem_write (b ∷ bs) buf at total l h t =
    let ih =
      read_loop-mem_write bs (set buf at b) (at + 1) total (length-set buf at b ∙ l) (omega arith)
        (omega arith) in
    let first : get_or (mem_write bs (set buf at b) (at + 1)).1 at 0 ≡ b =
      mem_write_before bs (set buf at b) (at + 1) at (omega arith)
      ∙ ground (arith, get_or-set buf at at b 0) in
    let opened_cons = mem_write_cons b bs buf at (omega arith) in
    (
      ap (λ z. z.0) opened_cons ∙ ground (arith, ih.0),
      ap (λ z. read_loop (λ k. get_or z.1 k 0) (suc (length bs)) at total) opened_cons
          ∙ read_loop_at (λ k. get_or (mem_write bs (set buf at b) (at + 1)).1 k 0) (length bs) at
              total (omega arith)
          ∙ ap
              (λ z.
                z
                ∷ read_loop (λ k. get_or (mem_write bs (set buf at b) (at + 1)).1 k 0) (length bs)
                    (at + 1) total)
              first
          ∙ ap (◌∷◌ b) ih.1,
    )

-- The memory file `m` after the bytes were written at `at`.
abbrev written : ℕ → List ℕ → Files → ℕ → MemFile
written at bs s m = grown (mem_write bs (mem_at s m).contents at).1 (at + length bs) (mem_at s m)

write_mem_lem :
    (i m : ℕ) (f : File) (bs : List ℕ) (s : Files)
    → f.mem_file ≡ some m
    → (mem_write bs (mem_at s m).contents f.at).0 ≡ length bs
    → write_mem i f bs s ≡ (
      pos (length bs),
      record (put_file s i (record f { at = f.at + length bs })) {
        memfiles = set s.memfiles m (written f.at bs s m);
      },
    )
unfolding write_mem
write_mem_lem i m f bs s here all =
    let counted : (length bs == 0 && not (length bs == 0)) ≡ false = ground arith in
    rw (here, all, counted) refl

-- What is read from a memory file that holds the bytes at the position.
module _ (d : Devices) (me now j m : ℕ) (f : File) (s : Files) (sc : Sched) (w : d.World) where
  read_kind_lem :
      (bs : List ℕ)
      → f.mem_file ≡ some m
      → read_loop (λ k. get_or (mem_at s m).contents k 0) (length bs) f.at (mem_at s m).data_len
        ≡ bs
      → (read_kind d me now j (length bs) f mem s sc w).0 ≡ got (pos (length bs), bs)
  unfolding read_kind read_file
  read_kind_lem bs here same = rw (here, same) refl

  file_read_lem :
      (bs : List ℕ)
      → file_at s j ≡ f
      → f.kind ≡ mem
      → f.mem_file ≡ some m
      → read_loop (λ k. get_or (mem_at s m).contents k 0) (length bs) f.at (mem_at s m).data_len
        ≡ bs
      → (file_read d me now (some j) (length bs) s sc w).0 ≡ got (pos (length bs), bs)
  unfolding file_read
  file_read_lem bs object kind here same =
      ap (λ g. (read_object (length bs) g g.kind).0) object
      ∙ ap (λ k. (read_object (length bs) f k).0) kind
      ∙ rest bs here same
    where
      read_object : ℕ → File → Kind → Read × Files × Sched × d.World
      read_object len g k =
          if not (asks_device k) && len == 0
          then (got (pos 0, []), s, sc, w)
          else read_kind d me now j len g k s sc w

      rest :
          (bs : List ℕ)
          → f.mem_file ≡ some m
          → read_loop (λ k. get_or (mem_at s m).contents k 0) (length bs) f.at (mem_at s m).data_len
            ≡ bs
          → (read_object (length bs) f mem).0 ≡ got (pos (length bs), bs)
      rest [] here same = refl
      rest (b ∷ bs) here same =
          let asked : (suc (length bs) == 0) ≡ false = ground arith in
          rw asked (read_kind_lem (b ∷ bs) here same)

-- Where the bytes fit behind the position, file_write of a memory file counts them all, and file_read of
-- as many from an object that stands at the same position of it gives them back.
pub file_read-file_write :
    (d : Devices) (me now i j m : ℕ) (bs : List ℕ) (s : Files) (sc : Sched) (w : d.World)
    → i ≢ j
    → (file_at s i).kind ≡ mem
    → (file_at s j).kind ≡ mem
    → (file_at s i).mem_file ≡ some m
    → (file_at s j).mem_file ≡ some m
    → (file_at s j).at ≡ (file_at s i).at
    → m < length s.memfiles
    → length (mem_at s m).contents ≡ mem_size
    → (file_at s i).at + length bs ≤ mem_size
    → let r = file_write d me now (some i) bs 0 s sc w in
      (r.0 ≡ result (done (pos (length bs))))
      × ((file_read d me now (some j) (length bs) r.1 sc w).0 ≡ got (pos (length bs), bs))
unfolding file_write write_kind grown
file_read-file_write d me now i j m bs s sc w ne ki kj hi hj at_same inside whole room =
    let f = file_at s i in
    let buf = (mem_at s m).contents in
    let last : f.at + length bs ≤ (written f.at bs s m).data_len = ground arith in
    let both = read_loop-mem_write bs buf f.at (written f.at bs s m).data_len whole room last in
    let after : Files = record (put_file s i (record f { at = f.at + length bs })) {
      memfiles = set s.memfiles m (written f.at bs s m);
    } in
    let wrote : file_write d me now (some i) bs 0 s sc w
        ≡ (result (done (pos (length bs))), after, sc, w) =
      ap (λ k. write_kind d me now i bs 0 f k s sc w) ki
      ∙ ap (λ r. (result (done r.0), r.1, sc, w)) (write_mem_lem i m f bs s hi both.0) in
    let object : file_at after j ≡ file_at s j =
      ground (arith, get_or-set s.files i j (record f { at = f.at + length bs }) no_file, ne) in
    let grew : mem_at after m ≡ written f.at bs s m =
      ground (arith, get_or-set s.memfiles m m (written f.at bs s m) no_mem, inside) in
    let same : read_loop (λ k. get_or (mem_at after m).contents k 0) (length bs) (file_at s j).at
          (mem_at after m).data_len
        ≡ bs =
      rw (grew, at_same) both.1 in
    (
      ap (λ r. r.0) wrote,
      ap (λ r. (file_read d me now (some j) (length bs) r.1 sc w).0) wrote
          ∙ file_read_lem d me now j m (file_at s j) after sc w bs object kj hj same,
    )
