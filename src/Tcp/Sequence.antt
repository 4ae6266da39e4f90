-- ===== src/Tcp/Sequence.antt =====
-- Sequence numbers of pkg/stam/tcp.c: what `seq_ge` means in a space that wraps.
use verkos.Prelude.{ℕ, ◌^◌, ◌<◌, ◌≡◌, ap, true, arith, ltb}
use verkos.Tcp.State.{seq_ge, add32}

-- `seq_ge` compares modulo 2^32: a number that lies d ahead of a passes exactly when d is less than
-- half the space, whether or not the addition wraps.
pub seq_ge-add32 : (a d : ℕ) → a < 2 ^ 32 → d < 2 ^ 32 → seq_ge (add32 a d) a ≡ ltb d (2 ^ 31)
unfolding seq_ge
seq_ge-add32 a d ha hd = ap (λ x. ltb x (2 ^ 31)) (omega arith)

-- Of two different numbers at most one is ahead of the other.
pub seq_ge_antisymm :
    (a b : ℕ) → a < 2 ^ 32 → b < 2 ^ 32 → seq_ge a b ≡ true → seq_ge b a ≡ true → a ≡ b
unfolding seq_ge
seq_ge_antisymm a b ha hb p q = ground arith
