-- ===== src/Net/Wire.antt =====
-- The byte accessors of pkg/stam/net.c and pkg/stam/tcp.c: every field on the wire is big-endian.
-- A packet is a list of bytes, and `p + k` is its offset.
use verkos.Prelude.{
  ℕ, ◌+◌, ◌*◌, ◌/◌, ◌%◌, ◌^◌, ◌<◌, ◌≡◌, ◌∙◌, List, arith, ◌==◌, if◌then◌else◌, length, get_or, set,
  length-set, get_or-set,
}

abbrev pub byte : ℕ → ℕ
byte v = v % 256

-- put16(p + k, v)
unfoldable pub put16 : List ℕ → ℕ → ℕ → List ℕ
put16 p k v = set (set p k (byte (v / 2 ^ 8))) (k + 1) (byte v)

-- put32(p + k, v)
unfoldable pub put32 : List ℕ → ℕ → ℕ → List ℕ
put32 p k v =
    set
      (set (set (set p k (byte (v / 2 ^ 24))) (k + 1) (byte (v / 2 ^ 16))) (k + 2)
        (byte (v / 2 ^ 8)))
      (k + 3) (byte v)

-- get16(p + k); a read past the end does not occur, and gives 0 here.
unfoldable pub get16 : List ℕ → ℕ → ℕ
get16 p k = get_or p k 0 * 256 + get_or p (k + 1) 0

-- get32(p + k)
unfoldable pub get32 : List ℕ → ℕ → ℕ
get32 p k =
    get_or p k 0 * 2 ^ 24
    + get_or p (k + 1) 0 * 2 ^ 16
    + get_or p (k + 2) 0 * 2 ^ 8
    + get_or p (k + 3) 0

-- A read after `put16`, by its bytes.
pub get_or-put16 :
    (p : List ℕ) (k v j : ℕ)
    → k + 1 < length p
    → get_or (put16 p k v) j 0
      ≡ (if j == k then byte (v / 2 ^ 8) else if j == k + 1 then byte v else get_or p j 0)
unfolding put16
get_or-put16 p k v j h = ground (
  arith,
  get_or-set (set p k (byte (v / 2 ^ 8))) (k + 1) j (byte v) 0,
  get_or-set p k j (byte (v / 2 ^ 8)) 0,
  length-set p k (byte (v / 2 ^ 8)),
)

pub length-put16 : (p : List ℕ) (k v : ℕ) → length (put16 p k v) ≡ length p
unfolding put16
length-put16 p k v =
    length-set (set p k (byte (v / 2 ^ 8))) (k + 1) (byte v) ∙ length-set p k (byte (v / 2 ^ 8))

-- `put32` is two `put16`s.
pub put32-put16 :
    (p : List ℕ) (k v : ℕ) → v < 2 ^ 32 → put32 p k v ≡ put16 (put16 p k (v / 2 ^ 16)) (k + 2) v
unfolding put32 put16
put32-put16 p k v h = rw (top, next)
  where
    top : v / 2 ^ 24 ≡ v / 2 ^ 16 / 2 ^ 8
    top = omega arith

    next : k + 3 ≡ k + 2 + 1
    next = omega arith

-- A 16-bit field reads back as it was written, wherever it fits.
pub get16-put16 : (p : List ℕ) (k v : ℕ) → k + 1 < length p → v < 2 ^ 16 → get16 (put16 p k v) k ≡ v
unfolding get16
get16-put16 p k v h b = ground (arith, get_or-put16 p k v k, get_or-put16 p k v (k + 1))

-- A 32-bit field reads back as it was written, wherever it fits.
pub get32-put32 : (p : List ℕ) (k v : ℕ) → k + 3 < length p → v < 2 ^ 32 → get32 (put32 p k v) k ≡ v
unfolding get32
get32-put32 p k v h b = rw (put32-put16 p k v b) (
    ground (
      arith,
      length-put16 p k (v / 2 ^ 16),
      get_or-put16 (put16 p k (v / 2 ^ 16)) (k + 2) v k,
      get_or-put16 (put16 p k (v / 2 ^ 16)) (k + 2) v (k + 1),
      get_or-put16 (put16 p k (v / 2 ^ 16)) (k + 2) v (k + 2),
      get_or-put16 (put16 p k (v / 2 ^ 16)) (k + 2) v (k + 3),
      get_or-put16 p k (v / 2 ^ 16) k,
      get_or-put16 p k (v / 2 ^ 16) (k + 1),
    ))
