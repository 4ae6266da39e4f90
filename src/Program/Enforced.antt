-- ===== src/Program/Enforced.antt =====
-- The manifest that the compiler wrote is the one that the kernel enforces.
use verkos.Prelude.{
  ℕ, suc, ◌+◌, ◌-◌, ◌*◌, ◌^◌, ◌≤◌, ◌<◌, ◌≡◌, refl, ap, ◌∙◌, false, ◌||◌, List, [], ◌∷◌, ◌++◌, arith,
  ltb, length, replicate, length-append, length-replicate,
}
use verkos.Archive.Reader.{Bytes, add64}
use verkos.Archive.Holds.{Holds, Holds-at}
use verkos.Program.Manifest.{
  le32, SavManifest, is_listed, sav_allows, read_description, read_sav_note,
}
use verkos.Program.Note.{Image, names_bytes, put_calls, put_le32, desc_size, desc_pad, build_note}
use verkos.Program.Little.{le32-put_le32, AreWords, calls_at-put_calls}

length-put_calls : (cs rest : List ℕ) → length (put_calls cs rest) ≡ length cs * 4 + length rest
unfolding put_calls put_le32
length-put_calls [] rest = omega arith
length-put_calls (c ∷ cs) rest = omega (arith, length-put_calls cs rest)

length-build_note : (img : Image) → length (build_note img) ≡ 16 + desc_pad img
unfolding build_note put_le32
length-build_note img =
    let names = names_bytes img.capnames in
    let pad = replicate {A = ℕ} (desc_pad img - desc_size img) 0 in
    omega (
      arith,
      length-put_calls img.syscalls (names ++ pad),
      length-append names pad,
      length-replicate {A = ℕ} (desc_pad img - desc_size img) 0,
    )

-- A note of the right kind and name that fits.
read_sav_note_lem :
    (e : Bytes) (size off len descsz : ℕ) (out : SavManifest)
    → le32 e off ≡ 4
    → le32 e (off + 4) ≡ descsz
    → le32 e (off + 8) ≡ 1
    → (e (off + 12) ≡ 115) × (e (off + 13) ≡ 97) × (e (off + 14) ≡ 118) × (e (off + 15) ≡ 0)
    → off + len ≤ size
    → size < 2 ^ 63
    → 16 + descsz ≤ len
    → read_sav_note e size off len out ≡ read_description e (off + 16) descsz out
unfolding read_sav_note
read_sav_note_lem e size off len descsz out a b c d fits small room =
    let inside : (ltb size (add64 off len) || ltb len 16) ≡ false = ground arith in
    let whole : ltb len (16 + descsz) ≡ false = ground arith in
    rw (a, b, c, inside, whole, d.0, d.1, d.2, d.3) refl

module _ (e : Bytes) (img : Image) (w : AreWords img.syscalls) (few : length img.syscalls ≤ 48)
    (short : length (names_bytes img.capnames) < 2 ^ 31) where
  abbrev tail : List ℕ
  tail = names_bytes img.capnames ++ replicate (desc_pad img - desc_size img) 0

  description :
      (d nr : ℕ) (out : SavManifest)
      → Holds e d (
          put_le32 827736403 (
            put_le32 1 (
              put_le32
                (length img.syscalls)
                (put_le32 (length (names_bytes img.capnames)) (put_calls img.syscalls tail)))))
      → sav_allows (read_description e d (desc_pad img) out) nr ≡ is_listed nr img.syscalls
  unfolding read_description sav_allows
  description d nr out h =
      let magic = le32-put_le32 e d d 827736403 _ refl (omega arith) h in
      let version = le32-put_le32 e (d + 4) (d + 4) 1 _ refl (omega arith) magic.1 in
      let ncalls =
        le32-put_le32 e (d + 4 + 4) (d + 8) (length img.syscalls) _ (omega arith)
          (omega (arith, few)) version.1 in
      let nameslen =
        le32-put_le32 e (d + 8 + 4) (d + 12) (length (names_bytes img.capnames)) _ (omega arith)
          (omega (arith, short)) ncalls.1 in
      let calls =
        calls_at-put_calls e img.syscalls (d + 16) tail w
          (Holds-at e _ _ _ (omega arith) nameslen.1) in
      let a : ltb (desc_pad img) 16 ≡ false = ground arith in
      let b : ltb (desc_pad img) (16 + length img.syscalls * 4 + length (names_bytes img.capnames))
          ≡ false =
        ground arith in
      let c : ltb 48 (length img.syscalls) ≡ false = ground (arith, few) in
      rw (magic.0, version.0, ncalls.0, nameslen.0, a, b, c, calls) refl

  pub note_enforced :
      (size off nr : ℕ) (out : SavManifest)
      → Holds e off (build_note img)
      → off + length (build_note img) ≤ size
      → size < 2 ^ 63
      → sav_allows (read_sav_note e size off (length (build_note img)) out) nr
        ≡ is_listed nr img.syscalls
  unfolding read_sav_note build_note
  note_enforced size off nr out h fits small =
      let len = length-build_note img in
      let namesz = le32-put_le32 e off off 4 _ refl (omega arith) h in
      let descsz =
        le32-put_le32 e (off + 4) (off + 4) (desc_pad img) _ refl (omega (arith, few, short))
          namesz.1 in
      let kind = le32-put_le32 e (off + 4 + 4) (off + 8) 1 _ (omega arith) (omega arith) descsz.1 in
      let name : (e (off + 12) ≡ 115)
          × (e (off + 13) ≡ 97)
          × (e (off + 14) ≡ 118)
          × (e (off + 15) ≡ 0) =
        (
          ap e (omega arith) ∙ kind.1.0,
          ap e (omega arith) ∙ kind.1.1.0,
          ap e (omega arith) ∙ kind.1.1.1.0,
          ap e (omega arith) ∙ kind.1.1.1.1.0,
        ) in
      ap (λ m. sav_allows m nr)
        (read_sav_note_lem e size off (length (build_note img)) (desc_pad img) out namesz.0 descsz.0
          kind.0 name fits small (omega (arith, len)))
      ∙ description (off + 16) nr out (
          Holds-at e
            (put_le32 827736403 (
              put_le32 1 (
                put_le32 (length img.syscalls)
                  (put_le32 (length (names_bytes img.capnames)) (put_calls img.syscalls tail)))))
            (suc (suc (suc (suc (off + 8 + 4))))) (off + 16) (omega arith) kind.1.1.1.1.1)
