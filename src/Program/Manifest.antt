-- ===== src/Program/Manifest.antt =====
-- The manifest of a program, sav_manifest_t of pkg/stam/savnote.h, and read_sav_note and sav_allows of
-- pkg/stam/elf.c. The image is a function from the distance to its beginning to the byte there.
use verkos.Prelude.{
  ℕ, zero, suc, ◌+◌, ◌-◌, ◌*◌, ◌/◌, ◌%◌, ◌^◌, min, Bool, true, false, not, ◌&&◌, ◌||◌, List, [],
  ◌∷◌, ltb, ◌==◌, if◌then◌else◌, length, min,
}
use verkos.Archive.Reader.{Bytes, add64}

unfoldable pub le16 : Bytes → ℕ → ℕ
le16 e p = e p + e (p + 1) * 2 ^ 8

unfoldable pub le32 : Bytes → ℕ → ℕ
le32 e p = e p + e (p + 1) * 2 ^ 8 + e (p + 2) * 2 ^ 16 + e (p + 3) * 2 ^ 24

unfoldable pub le64 : Bytes → ℕ → ℕ
le64 e p = le32 e p + le32 e (p + 4) * 2 ^ 32

abbrev pub sav_max_calls : ℕ
sav_max_calls = 48

abbrev pub sav_caps_bytes : ℕ
sav_caps_bytes = 64

-- The calls are the first `ncalls` of the array, `caps` the string without its end.
pub record SavManifest : Type 0 where
  pub present : Bool
  pub call : List ℕ
  pub caps : List ℕ

abbrev pub no_manifest : SavManifest
no_manifest = record { present = false; call = []; caps = [] }

abbrev pub is_listed : ℕ → List ℕ → Bool
is_listed nr [] = false
is_listed nr (c ∷ cs) = c == nr % 2 ^ 32 || is_listed nr cs

unfoldable pub sav_allows : SavManifest → ℕ → Bool
sav_allows m nr = if not m.present then true else is_listed nr m.call

-- `count` numbers of 32 bits from `p` on
unfoldable pub calls_at : Bytes → ℕ → ℕ → List ℕ
calls_at e zero p = []
calls_at e (suc count) p = le32 e p ∷ calls_at e count (p + 4)

-- `count` names' bytes from `p` on, a space for a zero
unfoldable pub caps_at : Bytes → ℕ → ℕ → List ℕ
caps_at e zero p = []
caps_at e (suc count) p = (if e p == 0 then 32 else e p) ∷ caps_at e count (suc p)

-- while (k && out->caps[k - 1] == ' ') k--
unfoldable pub trimmed : List ℕ → List ℕ
trimmed [] = []
trimmed (c ∷ cs) = let rest = trimmed cs in if c == 32 && length rest == 0 then [] else c ∷ rest

-- From the description `d` of `descsz` bytes on.
unfoldable pub read_description : Bytes → ℕ → ℕ → SavManifest → SavManifest
read_description e d descsz out =
    let ncalls = le32 e (d + 8) in
    let nameslen = le32 e (d + 12) in
    if ltb descsz 16 || (not (le32 e d == 827736403) || not (le32 e (d + 4) == 1))
    then out
    else if ltb descsz (16 + ncalls * 4 + nameslen)
    then out
    else if ltb sav_max_calls ncalls
    then out
    else record {
      present = true;
      call = calls_at e ncalls (d + 16);
      caps = trimmed (caps_at e (min nameslen (sav_caps_bytes - 1)) (d + 16 + ncalls * 4));
    }

-- (namesz + 3) & ~3u, behind the three fields of the note
abbrev pub desc_place : ℕ → ℕ
desc_place namesz = 12 + (namesz + 3) % 2 ^ 32 / 4 * 4

unfoldable pub read_sav_note : Bytes → ℕ → ℕ → ℕ → SavManifest → SavManifest
read_sav_note e size off len out =
    let namesz = le32 e off in
    let descsz = le32 e (off + 4) in
    let kind = le32 e (off + 8) in
    if ltb size (add64 off len) || ltb len 16
    then out
    else if ltb len (desc_place namesz + descsz)
    then out
    else if not (kind == 1) || not (namesz == 4)
    then out
    else if e (off + 12) == 115
        && (e (off + 13) == 97 && (e (off + 14) == 118 && e (off + 15) == 0))
    then read_description e (off + desc_place namesz) descsz out
    else out
