-- ===== src/Files/Entries.antt =====
-- What file_getdents of pkg/stam/file.c writes fits, and where it ends.
use verkos.Prelude.{
  ℕ, zero, suc, ◌+◌, ◌-◌, ◌/◌, ◌%◌, ◌≤◌, ◌<◌, ◌≡◌, refl, ap, ◌∙◌, inl, inr, Bool, false, Option,
  none, List, ◌∷◌, ◌++◌, arith, ltb, if◌then◌else◌, Bool-cases, Option-cases, length, replicate,
  length-append,
}
use verkos.Files.Getdents.{record_len, le_bytes, entry, entries}

length-replicate : (n v : ℕ) → length (replicate n v) ≡ n
length-replicate zero v = refl
length-replicate (suc n) v = ap suc (length-replicate n v)

length-le_bytes : (k v : ℕ) → length (le_bytes k v) ≡ k
unfolding le_bytes
length-le_bytes zero v = refl
length-le_bytes (suc k) v = ap suc (length-le_bytes k (v / 256))

length-entry :
    (name : List ℕ) (is_dir : Bool) (off : ℕ)
    → length (entry name is_dir off) ≡ record_len (length name)
unfolding entry
length-entry name is_dir off =
    let pad : List ℕ = replicate (record_len (length name) - 19 - length name) 0 in
    ground (
      arith,
      length-append (le_bytes 8 off) (
          (record_len (length name) % 256)
          ∷ (record_len (length name) / 256 % 256)
          ∷ (if is_dir then 4 else 8)
          ∷ (name ++ pad)),
      length-le_bytes 8 off,
      length-append name pad,
      length-replicate (record_len (length name) - 19 - length name) 0,
    )

-- The bytes fit into the room there is and are a whole number of words of 8; where the loop did not
-- stop for lack of room, the directory has no entry at the position it stands at.
pub entries_fit :
    (dirent : ℕ → Option (List ℕ × Bool)) (fuel at room : ℕ)
    → room < fuel
    → (length (entries dirent fuel at room).0 ≤ room)
      × (length (entries dirent fuel at room).0 % 8 ≡ 0)
      × ((entries dirent fuel at room).2 ≡ false → dirent (entries dirent fuel at room).1 ≡ none)
unfolding entries
entries_fit dirent zero at room h = absurd (omega arith)
entries_fit dirent (suc fuel) at room h = elim (Option-cases (dirent at)) [
  | inl n ↦ rw (n, entries) (omega arith, refl, λ e. n)
  | inr ((name, is_dir), e) ↦ elim (Bool-cases (ltb room (record_len (length name)))) [
    | inl y ↦ rw (e, y, entries) (omega arith, refl, λ q. ground arith)
    | inr n ↦
        let rec_len = record_len (length name) in
        let ih = entries_fit dirent fuel (at + 1) (room - rec_len) (ground arith) in
        let whole =
          length-append (entry name is_dir (at + 1))
            (entries dirent fuel (at + 1) (room - rec_len)).0
          ∙ ap (λ k. k + length (entries dirent fuel (at + 1) (room - rec_len)).0)
              (length-entry name is_dir (at + 1)) in
        rw (e, n, entries) (ground (arith, whole, ih.0), ground (arith, whole, ih.1), ih.2)
  ]
]
