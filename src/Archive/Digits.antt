-- ===== src/Archive/Digits.antt =====
-- The eight digits that pkg/vcpio/vcpio.c prints are the number that pkg/stam/cpio.c reads.
use verkos.Prelude.{
  ℕ, zero, suc, ◌+◌, ◌*◌, ◌/◌, ◌%◌, ◌^◌, ◌<◌, ◌≡◌, refl, sym, ap, ◌∙◌, subst, some, List, arith,
}
use native.Mathlib.Nat.{div-div-eq-div-mul, div-le_self}
use verkos.Archive.Reader.{Bytes, hexval, digits_from, field}
use verkos.Archive.Writer.{hex_digit, put_digits, hexfield}
use verkos.Archive.Holds.{Holds, Holds-at}

hexval-hex_digit : (d : ℕ) → d < 16 → hexval (hex_digit d) ≡ some d
unfolding hexval hex_digit
hexval-hex_digit d h = ground (arith, h)

power : (count : ℕ) → 0 < 16 ^ count
power zero = omega arith
power (suc count) = omega (arith, power count)

one_more : (v k m : ℕ) → m ≡ 16 * k → 0 < k → v < 2 ^ 32 → v / m * 16 % 2 ^ 64 + v / k % 16 ≡ v / k
one_more v k m e h b =
    let low : v / m ≡ v / k / 16 =
      ap (λ j. v / j) (omega (arith, e)) ∙ sym (div-div-eq-div-mul v k 16) in
    omega (arith, low, div-le_self v k, b)

digit_step :
    (mem : Bytes) (count p v d v' : ℕ)
    → hexval (mem p) ≡ some d
    → v * 16 % 2 ^ 64 + d ≡ v'
    → digits_from mem (suc count) p v ≡ digits_from mem count (suc p) v'
unfolding digits_from
digit_step mem count p v d v' e f = rw (e, digits_from, f) refl

-- The digits below 16^count bring `v / 16^count` back to `v`.
digits_from-put_digits :
    (mem : Bytes) (count v p : ℕ) (rest : List ℕ)
    → v < 2 ^ 32
    → Holds mem p (put_digits count v rest)
    → (digits_from mem count p (v / 16 ^ count) ≡ some v) × Holds mem (p + count) rest
unfolding digits_from put_digits
digits_from-put_digits mem zero v p rest h b =
    (ap some (omega arith), subst (λ k. Holds mem k rest) (omega arith) b)
digits_from-put_digits mem (suc count) v p rest h b =
    let d = v / 16 ^ count % 16 in
    let e : hexval (mem p) ≡ some d = ap hexval b.0 ∙ hexval-hex_digit d (omega arith) in
    let up = one_more v (16 ^ count) (16 ^ suc count) (omega arith) (power count) h in
    let ih = digits_from-put_digits mem count v (suc p) rest h b.1 in
    (
      digit_step mem count p (v / 16 ^ suc count) d (v / 16 ^ count) e up ∙ ih.0,
      subst (λ k. Holds mem k rest) (omega arith) ih.1,
    )

pub field-hexfield :
    (mem : Bytes) (v p : ℕ) (rest : List ℕ)
    → v < 2 ^ 32
    → Holds mem p (hexfield v rest)
    → (field mem p ≡ some v) × Holds mem (p + 8) rest
unfolding field hexfield
field-hexfield mem v p rest h b =
    let e : v % 2 ^ 32 ≡ v = omega arith in
    let r =
      digits_from-put_digits mem 8 v p rest h
        (subst (λ k. Holds mem p (put_digits 8 k rest)) e b) in
    let z : v / 16 ^ 8 ≡ 0 = omega arith in (ap (λ k. digits_from mem 8 p k) (sym z) ∙ r.0, r.1)

-- The bytes behind a field, whatever its value.
pub after_hexfield :
    (mem : Bytes) (v p : ℕ) (rest : List ℕ) → Holds mem p (hexfield v rest) → Holds mem (p + 8) rest
unfolding hexfield put_digits
after_hexfield mem v p rest b = Holds-at mem rest _ _ (omega arith) b.1.1.1.1.1.1.1.1
