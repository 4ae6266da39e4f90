-- ===== src/Files/Reading.antt =====
-- Opening a file of the disk to read it, in pkg/stam/file.c.
use verkos.Prelude.{
  ℕ, zero, suc, ◌<◌, ◌≡◌, refl, sym, ap, ◌∙◌, true, Option, none, some, List, [], ◌∷◌, arith,
  length, get_or, set, pos, neg, find_index, find_index_sound,
}
use verkos.Files.State.{Kind, free, has_kind, FatFile, File, Files, no_file, file_at, put_file}
use verkos.Files.Objects.{allocated, file_alloc}
use verkos.Files.EndOfFile.{file_alloc_at}
use verkos.Files.Open.{
  Storage, open_read, skip_slash, to_read, look_up, with_object, read_only, kind_of, is_named,
  in_archive, open_found, open_reading, open_locked, Opened, file_open,
}

nothing_before :
    (d : Storage) (name : List ℕ) (s : Files) (ff : FatFile)
    → find_index (is_named name) s.memfiles ≡ none
    → in_archive d name s ≡ none
    → open_reading d name (to_read ff) s ≡ with_object (kind_of ff) (read_only ff) s
unfolding open_reading open_found
nothing_before d name s ff n a = rw (n, a, open_reading) refl

opens :
    (d : Storage) (name : List ℕ) (s : Files) (w : d.World) (ff : FatFile)
    → d.fat_mounted w ≡ true
    → d.fat_open (skip_slash name) w ≡ some ff
    → find_index (is_named (skip_slash name)) s.memfiles ≡ none
    → in_archive d (skip_slash name) s ≡ none
    → (file_open d name open_read s w).0 ≡ with_object (kind_of ff) (read_only ff) s
unfolding file_open look_up open_locked
opens d name s w ff m o n a = rw (m, o) (nothing_before d (skip_slash name) s ff n a)

twice :
    (xs : List File) (k : ℕ) (v : File) (f : File → File)
    → k < length xs
    → get_or (set (set xs k v) k (f (get_or (set xs k v) k no_file))) k no_file ≡ f v
twice [] k v f h = absurd (omega arith)
twice (x ∷ xs) zero v f h = refl
twice (x ∷ xs) (suc k) v f h = twice xs k v f (omega arith)

in_slot :
    (f g : File → File) (k : ℕ) (s s1 : Files)
    → s1 ≡ put_file s k (g (file_at s k))
    → k < length s.files
    → file_at (put_file s1 k (f (file_at s1 k))) k ≡ f (g (file_at s k))
in_slot f g k s s1 e h =
    ap (λ z. file_at (put_file z k (f (file_at z k))) k) e
    ∙ twice s.files k (g (file_at s k)) (λ x. f x) h

completed :
    (kind : Kind) (f : File → File) (i : ℕ) (s s' : Files)
    → with_object kind f s ≡ ((pos 0, some i), s')
    → file_at s' i ≡ f (allocated kind none (file_at s i))
unfolding with_object
completed kind f i s s' e = go (file_alloc kind none s) refl e
  where
    result : Option (ℕ × Files) → Opened
    result none = ((neg 24, none), s)
    result (some (k, s1)) = ((pos 0, some k), put_file s1 k (f (file_at s1 k)))

    go :
        (r : Option (ℕ × Files))
        → file_alloc kind none s ≡ r
        → result r ≡ ((pos 0, some i), s')
        → file_at s' i ≡ f (allocated kind none (file_at s i))
    go none q h = absurd (ground (arith, h))
    go (some (k, s1)) q h =
        let k_eq : k ≡ i = ground (arith, h) in
        let s_eq : put_file s1 k (f (file_at s1 k)) ≡ s' = ap (λ z. z.1) h in
        let made = file_alloc_at kind none k s s1 q in
        let found = find_index_sound (λ f. has_kind f.kind free) s.files no_file k made.1 in
        sym (ap (λ z. file_at z i) s_eq)
        ∙ sym (ap (λ z. file_at (put_file s1 k (f (file_at s1 k))) z) k_eq)
        ∙ in_slot f (allocated kind none) k s s1 made.0 found.1
        ∙ ap (λ z. f (allocated kind none (file_at s z))) k_eq

-- A file of the disk opened for reading, where neither a memory file nor the archive has the name: its
-- object is on that file, at its beginning, and may be written exactly when the object that was in
-- the slot before could.
pub file_open_reading :
    (d : Storage) (name : List ℕ) (i : ℕ) (s s' : Files) (w : d.World) (ff : FatFile)
    → d.fat_mounted w ≡ true
    → d.fat_open (skip_slash name) w ≡ some ff
    → find_index (is_named (skip_slash name)) s.memfiles ≡ none
    → in_archive d (skip_slash name) s ≡ none
    → (file_open d name open_read s w).0 ≡ ((pos 0, some i), s')
    → ((file_at s' i).on_disk ≡ ff)
      × ((file_at s' i).kind ≡ kind_of ff)
      × ((file_at s' i).at ≡ 0)
      × ((file_at s' i).writable ≡ (file_at s i).writable)
unfolding read_only allocated
file_open_reading d name i s s' w ff m o n a e =
    rw (completed (kind_of ff) (read_only ff) i s s' (sym (opens d name s w ff m o n a) ∙ e))
      (refl, refl, refl, refl)
