-- ===== src/Program/Note.antt =====
-- build_note of pkg/sav/src/elf.c: the manifest as the compiler writes it. A name is the list of its
-- bytes without the zero at the end.
use verkos.Prelude.{ℕ, ◌+◌, ◌-◌, ◌*◌, ◌/◌, ◌%◌, ◌^◌, List, [], ◌∷◌, ◌++◌, length, replicate}

pub record Image : Type 0 where
  pub syscalls : List ℕ
  pub capnames : List (List ℕ)

unfoldable pub put_le32 : ℕ → List ℕ → List ℕ
put_le32 v rest = v % 256 ∷ v / 2 ^ 8 % 256 ∷ v / 2 ^ 16 % 256 ∷ v / 2 ^ 24 % 256 ∷ rest

unfoldable pub names_bytes : List (List ℕ) → List ℕ
names_bytes [] = []
names_bytes (n ∷ ns) = n ++ (0 ∷ names_bytes ns)

unfoldable pub put_calls : List ℕ → List ℕ → List ℕ
put_calls [] rest = rest
put_calls (c ∷ cs) rest = put_le32 c (put_calls cs rest)

abbrev pub desc_size : Image → ℕ
desc_size img = 16 + length img.syscalls * 4 + length (names_bytes img.capnames)

abbrev pub desc_pad : Image → ℕ
desc_pad img = (desc_size img + 3) / 4 * 4

unfoldable pub build_note : Image → List ℕ
build_note img = put_le32 4 (
    put_le32 (desc_pad img) (
      put_le32 1 (
        115
        ∷ 97
        ∷ 118
        ∷ 0
        ∷ put_le32 827736403 (
            put_le32 1 (
              put_le32 (length img.syscalls) (
                put_le32 (length (names_bytes img.capnames)) (
                  put_calls img.syscalls
                    (names_bytes img.capnames ++ replicate (desc_pad img - desc_size img) 0))))))))
