-- ===== src/Archive/Bounds.antt =====
-- cpio_find of pkg/stam/cpio.c on any memory: it ends, and what it finds lies inside the image.
use verkos.Prelude.{
  ℕ, zero, suc, ◌+◌, ◌*◌, ◌/◌, ◌%◌, ◌^◌, ◌≤◌, ◌<◌, ◌≡◌, refl, ap, inl, inr, ◌||◌, Option, none,
  some, List, arith, ltb, ◌==◌, Bool-cases,
}
use native.Mathlib.Nat.{mul_assoc, mul-le-mul_right}
use verkos.Archive.Reader.{
  Bytes, add64, round4, hexval, with_digit, digits_from, field, Round, refused, found, next,
  is_newc, examine_data, examine_fields, examine, Result, missing, at, find_from, cpio_find,
  skip_slash_of,
}

hexval_small : (c d : ℕ) → hexval c ≡ some d → d < 16
unfolding hexval
hexval_small c d e = ground (arith, e)

-- A number of so many digits behind `v`.
digits_from_small :
    (mem : Bytes) (count p v r : ℕ) → digits_from mem count p v ≡ some r → r < (v + 1) * 16 ^ count
unfolding digits_from
digits_from_small mem zero p v r e = ground (arith, e)
digits_from_small mem (suc count) p v r e =
    go (λ v'. digits_from_small mem count (suc p) v' r) (hexval (mem p)) refl e
  where
    go :
        ((v' : ℕ) → digits_from mem count (suc p) v' ≡ some r → r < (v' + 1) * 16 ^ count)
        → (h : Option ℕ) → hexval (mem p) ≡ h
        → elim (with_digit v h) [ none ↦ none | some v' ↦ digits_from mem count (suc p) v' ]
          ≡ some r
        → r < (v + 1) * 16 ^ suc count
    go ih none q e = absurd (ground (arith, e))
    go ih (some d) q e =
        let power : 16 ^ suc count ≡ 16 * 16 ^ count = omega arith in
        omega (
          arith,
          ih (v * 16 % 2 ^ 64 + d) e,
          mul-le-mul_right {m = v * 16 % 2 ^ 64 + d + 1} {n = (v + 1) * 16} (16 ^ count)
              (omega (arith, hexval_small (mem p) d q)),
          mul_assoc (v + 1) 16 (16 ^ count),
          ap (λ k. (v + 1) * k) power,
        )

pub field_small : (mem : Bytes) (p r : ℕ) → field mem p ≡ some r → r < 2 ^ 32
unfolding field
field_small mem p r e = omega (arith, digits_from_small mem 8 p 0 r e)

-- An answer: a file behind its header and inside the image, or none.
abbrev pub Inside : ℕ → Option Result → Type 0
Inside size none = zero ≡ 1
Inside size (some missing) = zero ≡ zero
Inside size (some (at d n)) = (110 ≤ d) × (d + n ≤ size)

module _ (mem : Bytes) (size : ℕ) (want : List ℕ) (small : size < 2 ^ 63) where
  -- What a round at `off` may answer.
  abbrev Fine : ℕ → Round → Type 0
  Fine off refused = zero ≡ zero
  Fine off (found d n) = (off + 110 ≤ d) × (d + n ≤ size)
  Fine off (next off') = (off + 110 ≤ off') × (off' ≤ size + 3)

  data-Fine :
      (off filesize data_at : ℕ)
      → off + 110 ≤ data_at
      → data_at < 2 ^ 63 + 2 ^ 40
      → filesize < 2 ^ 32
      → Fine off (examine_data mem size want off filesize data_at)
  unfolding examine_data
  data-Fine off filesize data_at a b c = ground (arith, a, b, c, small)

  fields-Fine :
      (off : ℕ) (filesize namesize : Option ℕ)
      → off + 110 ≤ size
      → ((r : ℕ) → filesize ≡ some r → r < 2 ^ 32)
      → ((r : ℕ) → namesize ≡ some r → r < 2 ^ 32)
      → Fine off (examine_fields mem size want off filesize namesize)
  fields-Fine off none n h f g = refl
  fields-Fine off (some f) none h a b = refl
  fields-Fine off (some f) (some n) h a b =
      elim (Bool-cases (n == 0 || ltb size (add64 (add64 off 110) n))) [
        | inl y ↦ rw y refl
        | inr m ↦ rw m (
            data-Fine off f (add64 off (round4 (110 + n))) (omega (arith, b n refl, h, small))
              (omega (arith, b n refl, h, small)) (a f refl))
      ]

  examine-Fine : (off : ℕ) → off + 110 ≤ size → Fine off (examine mem size want off)
  unfolding examine
  examine-Fine off h = elim (Bool-cases (is_newc mem off)) [
    | inl y ↦ rw y (
        fields-Fine off (field mem (off + 54)) (field mem (off + 94)) h (field_small mem (off + 54))
          (field_small mem (off + 94)))
    | inr m ↦ rw m refl
  ]

  find_from-Inside :
      (fuel off : ℕ)
      → 0 < fuel
      → size < 110 * fuel + off
      → off ≤ size + 3
      → Inside size (find_from mem size want fuel off)
  unfolding find_from
  find_from-Inside zero off p e h = absurd (omega (arith, p))
  find_from-Inside (suc fuel) off p e h = elim (Bool-cases (ltb size (add64 off 110))) [
    | inl y ↦ rw y refl
    | inr m ↦
        let room : off + 110 ≤ size = ground (arith, m, h, small) in
        rw m (
          go room (λ off'. find_from-Inside fuel off') (examine mem size want off)
            (examine-Fine off room))
  ]
    where
      go :
          off + 110 ≤ size
          → ((off' : ℕ)
              → 0 < fuel
              → size < 110 * fuel + off'
              → off' ≤ size + 3
              → Inside size (find_from mem size want fuel off'))
          → (r : Round) → Fine off r
          → Inside size (elim r [
            | refused ↦ some missing
            | found d n ↦ some (at d n)
            | next off' ↦ find_from mem size want fuel off'
          ])
      go room ih refused f = refl
      go room ih (found d n) f = (omega (arith, f.0), f.1)
      go room ih (next off') f = ih off' (omega (arith, room, e)) (omega (arith, f.0, e)) f.1

-- Whatever the image holds, cpio_find ends, and the file it finds lies behind its header and inside the
-- image, whose size is below 2^63.
pub cpio_find-Inside :
    (mem : Bytes) (size : ℕ) (want : List ℕ) → size < 2 ^ 63 → Inside size (cpio_find mem size want)
unfolding cpio_find
cpio_find-Inside mem size want small =
    find_from-Inside mem size (skip_slash_of want) small (size / 110 + 1) 0 (omega arith)
      (omega arith) (omega arith)
