-- ===== src/Net/Checksum.antt =====
-- The internet checksum of pkg/stam/net.c: `sum_add`, `sum_fold`, `checksum` and
-- `net_ip_checksum_with_pseudo`. The accumulator is a `uint32_t` and wraps.
use verkos.Prelude.{
  ℕ, zero, suc, ◌+◌, ◌-◌, ◌*◌, ◌/◌, ◌%◌, ◌^◌, ◌≤◌, ◌<◌, ◌≡◌, ap, ◌∙◌, List, [], ◌∷◌, ◌++◌, arith,
  ◌==◌, if◌then◌else◌, length, get_or, set, replicate,
}
use native.Mathlib.Numerals.{add-one}
use verkos.Net.Wire.{put16, put32, get16, byte, length-put16}

-- sum_add: an odd last byte is padded with zero on the right.
unfoldable pub sum_add : ℕ → List ℕ → ℕ
sum_add sum [] = sum
sum_add sum (a ∷ []) = (sum + a * 2 ^ 8) % 2 ^ 32
sum_add sum (a ∷ b ∷ p) = sum_add ((sum + (a * 256 + b)) % 2 ^ 32) p

-- `while (sum >> 16) sum = (sum & 0xffff) + (sum >> 16);` on fuel.
unfoldable pub fold_carries : ℕ → ℕ → ℕ
fold_carries zero sum = sum
fold_carries (suc fuel) sum =
    let rest = fold_carries fuel (sum % 2 ^ 16 + sum / 2 ^ 16) in
    if sum / 2 ^ 16 == 0 then sum else rest

-- Three rounds are enough for 32 bits: `fold_carries_lem`. The result is `(uint16_t)~sum`.
unfoldable pub sum_fold : ℕ → ℕ
unfolding fold_carries
sum_fold sum = 2 ^ 16 - 1 - fold_carries 3 sum % 2 ^ 16

unfoldable pub checksum : List ℕ → ℕ
checksum p = sum_fold (sum_add 0 p)

-- The twelve bytes that are summed and not sent.
unfoldable pub pseudo_header : ℕ → ℕ → ℕ → ℕ → List ℕ
unfolding put16 put32
pseudo_header src dst proto len =
    put16 (put32 (put32 (replicate 8 0 ++ 0 ∷ proto ∷ replicate 2 0) 0 src) 4 dst) 10 (len % 2 ^ 16)

unfoldable pub net_ip_checksum_with_pseudo : ℕ → ℕ → ℕ → List ℕ → ℕ
net_ip_checksum_with_pseudo src dst proto seg =
    sum_fold (sum_add (sum_add 0 (pseudo_header src dst proto (length seg))) seg)

-- The sum of the 16-bit words, without the wrap.
abbrev pub word_sum : List ℕ → ℕ
word_sum [] = 0
word_sum (a ∷ []) = a * 256
word_sum (a ∷ b ∷ p) = a * 256 + b + word_sum p

pub sum_add_lem :
    (sum : ℕ) (p : List ℕ) → sum < 2 ^ 32 → sum_add sum p ≡ (sum + word_sum p) % 2 ^ 32
unfolding sum_add
sum_add_lem sum [] h = omega arith
sum_add_lem sum (a ∷ []) h = omega arith
sum_add_lem sum (a ∷ b ∷ p) h =
    omega (arith, sum_add_lem ((sum + (a * 256 + b)) % 2 ^ 32) p (omega arith))

-- On a 32-bit sum the loop ends within the fuel, keeps the value modulo 2^16 - 1, and is zero
-- only at zero.
pub fold_carries_lem :
    (s : ℕ)
    → s < 2 ^ 32
    → (fold_carries 3 s < 2 ^ 16)
      × (fold_carries 3 s % 65535 ≡ s % 65535)
      × (fold_carries 3 s ≡ 0 → s ≡ 0)
unfolding fold_carries
fold_carries_lem s h = ground arith

-- A segment whose words, with the pseudo-header's, add up to a multiple of 2^16 - 1 that is not
-- zero has the checksum zero, which is what a receiver tests.
pub sum_fold_zero : (s : ℕ) → s < 2 ^ 32 → 0 < s → s % 65535 ≡ 0 → sum_fold s ≡ 0
unfolding sum_fold
sum_fold_zero s h p m = ground (arith, fold_carries_lem s h)

pub sum_fold_lt : (s : ℕ) → sum_fold s < 2 ^ 16
unfolding sum_fold
sum_fold_lt s = omega arith

-- Adding the checksum of a sum to that sum gives one whose checksum is zero.
pub sum_fold_add : (s : ℕ) → s + 65535 < 2 ^ 32 → 0 < s → sum_fold (s + sum_fold s) ≡ 0
unfolding sum_fold
sum_fold_add s h p =
    sum_fold_zero (s + sum_fold s) (omega arith) (omega arith)
      (omega (arith, fold_carries_lem s (omega arith)))

abbrev pub double : ℕ → ℕ
double zero = 0
double (suc n) = suc (suc (double n))

-- Writing a zero field at an even offset adds the field to the sum of the words.
word_sum-set :
    (p : List ℕ) (j a b : ℕ)
    → suc (double j) < length p
    → get_or p (double j) 0 ≡ 0
    → get_or p (suc (double j)) 0 ≡ 0
    → word_sum (set (set p (double j) a) (suc (double j)) b) ≡ word_sum p + (a * 256 + b)
word_sum-set [] j a b h z z' = absurd (omega arith)
word_sum-set (x ∷ []) j a b h z z' = absurd (omega arith)
word_sum-set (x ∷ y ∷ p) zero a b h z z' = omega arith
word_sum-set (x ∷ y ∷ p) (suc j) a b h z z' = omega (arith, word_sum-set p j a b (omega arith) z z')

pub word_sum-put16 :
    (p : List ℕ) (j v : ℕ)
    → double j + 1 < length p
    → get16 p (double j) ≡ 0
    → v < 2 ^ 16
    → word_sum (put16 p (double j) v) ≡ word_sum p + v
unfolding put16 get16
word_sum-put16 p j v h z b = rw add-one (
    omega (
      arith,
      word_sum-set p j (byte (v / 2 ^ 8)) (byte v) (omega arith) (omega arith)
          (rw (← add-one) (omega arith)),
    ))

abbrev pub IsBytes : List ℕ → Type 0
IsBytes [] = Unit
IsBytes (a ∷ p) = (a < 256) × IsBytes p

word_sum-le : (p : List ℕ) → IsBytes p → 2 * word_sum p ≤ (length p + 1) * 65535
word_sum-le [] h = omega arith
word_sum-le (a ∷ []) h = omega arith
word_sum-le (a ∷ b ∷ p) h = omega (arith, word_sum-le p h.1.1)

word_sum-pseudo_header :
    (src dst proto len : ℕ)
    → proto < 256
    → src < 2 ^ 32
    → dst < 2 ^ 32
    → (word_sum (pseudo_header src dst proto len) < 6 * 65536)
      × (proto ≤ word_sum (pseudo_header src dst proto len))
unfolding pseudo_header
word_sum-pseudo_header src dst proto len hp hs hd = omega arith

sum_add_twice :
    (p q : List ℕ)
    → word_sum p + word_sum q < 2 ^ 32
    → sum_add (sum_add 0 p) q ≡ word_sum p + word_sum q
sum_add_twice p q h =
    rw (sum_add_lem 0 p (omega arith))
      (omega (arith, sum_add_lem ((0 + word_sum p) % 2 ^ 32) q (omega arith)))

-- For every segment of bytes whose checksum field is zero, at an even offset, the segment with the
-- computed checksum written there has the checksum zero, which is the test of the receiver.
pub checksum_verifies :
    (src dst proto : ℕ) (seg : List ℕ) (j : ℕ)
    → src < 2 ^ 32
    → dst < 2 ^ 32
    → 0 < proto
    → proto < 256
    → IsBytes seg
    → length seg < 2 ^ 16
    → double j + 1 < length seg
    → get16 seg (double j) ≡ 0
    → net_ip_checksum_with_pseudo src dst proto
        (put16 seg (double j) (net_ip_checksum_with_pseudo src dst proto seg))
      ≡ 0
unfolding net_ip_checksum_with_pseudo
checksum_verifies src dst proto seg j hs hd p0 hp bs hl hj z =
    rw (length-put16 seg (double j) c, total)
      (sum_fold_add w (omega (arith, bounds)) (omega (arith, bounds)))
  where
    P : List ℕ
    P = pseudo_header src dst proto (length seg)

    w : ℕ
    w = word_sum P + word_sum seg

    bounds : (w + 65535 + 65535 < 2 ^ 32) × (0 < w)
    bounds =
        omega
          (arith, word_sum-le seg bs, word_sum-pseudo_header src dst proto (length seg) hp hs hd)

    before : sum_add (sum_add 0 P) seg ≡ w
    before = sum_add_twice P seg (omega (arith, bounds))

    c : ℕ
    c = sum_fold (sum_add (sum_add 0 P) seg)

    written : word_sum (put16 seg (double j) c) ≡ word_sum seg + c
    written = word_sum-put16 seg j c hj z (sum_fold_lt _)

    small : word_sum P + word_sum (put16 seg (double j) c) < 2 ^ 32
    small = omega (arith, written, bounds, sum_fold_lt (sum_add (sum_add 0 P) seg))

    total : sum_add (sum_add 0 P) (put16 seg (double j) c) ≡ w + sum_fold w
    total =
        sum_add_twice P (put16 seg (double j) c) small ∙ omega (arith, written, ap sum_fold before)
