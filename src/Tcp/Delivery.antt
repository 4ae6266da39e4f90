-- ===== src/Tcp/Delivery.antt =====
-- What reaches the reader of a connection of pkg/stam/tcp.c: the bytes of the peer's stream, in
-- order, whatever order the segments arrive in.
use mathlib.Core.List.{append_assoc, append-nil}
use native.Mathlib.Numerals.{add-one}
use native.Mathlib.Nat.{add-zero}
use verkos.Prelude.{
  ℕ, zero, suc, ◌+◌, ◌-◌, ◌≤◌, min, ◌≡◌, refl, sym, ap, ◌∙◌, false, List, [], ◌∷◌, ◌++◌, arith,
  ◌==◌, if◌then◌else◌, ==_iff, length, get_or, set, take, drop, length-set, take-set, drop-set,
  take-drop-suc, take_add, length-take_le, take_eq,
}
use verkos.Tcp.State.{add32, Sock, rxbuf}
use verkos.Tcp.Segment.{Segment}
use verkos.Tcp.Input.{copy_in, taken, take_data}
use verkos.Tcp.Calls.{take_out, read_len, shift_down}
use verkos.Tcp.Invariant.{IsValid}

-- The bytes that wait for the reader.
abbrev pub readable : Sock → List ℕ
readable s = take s.rxlen s.rx

take-copy_in :
    (rx : List ℕ) (k : ℕ) (bs : List ℕ)
    → k + length bs ≤ length rx
    → take (k + length bs) (copy_in rx k bs) ≡ take k rx ++ bs
unfolding copy_in
take-copy_in rx k [] h = rw (append-nil, add-zero)
take-copy_in rx k (b ∷ bs) h =
    take_eq (copy_in (set rx k b) (k + 1) bs) (k + suc (length bs)) (k + 1 + length bs)
      (omega arith)
    ∙ take-copy_in (set rx k b) (k + 1) bs (omega (arith, length-set rx k b))
    ∙ ap (λ l. l ++ bs) (rw add-one (take-set rx k b (omega arith)))
    ∙ append_assoc (take k rx) (b ∷ []) bs

-- The loop that moves the rest of the buffer to its front.
take-shift_down :
    (c n j k : ℕ) (rx : List ℕ)
    → k ≡ n + j
    → k + c ≤ length rx
    → take (j + c) (shift_down c n k rx) ≡ take j rx ++ take c (drop k rx)
unfolding shift_down
take-shift_down zero n j k rx e h = rw (append-nil, add-zero)
take-shift_down (suc c) n j k rx e h =
    take_eq (shift_down c n (k + 1) (set rx (k - n) v)) (j + suc c) (j + 1 + c) (omega arith)
    ∙ take-shift_down c n (j + 1) (k + 1) (set rx (k - n) v) (omega arith)
        (omega (arith, length-set rx (k - n) v))
    ∙ rw (
      place,
      add-one,
      take-set rx j v (omega arith),
      add-one,
      drop-set rx j (suc k) v (omega arith),
      take-drop-suc rx k c 0 (omega arith),
      append_assoc,
    )
  where
    v : ℕ
    v = get_or rx k 0

    place : k - n ≡ j
    place = omega arith

pub taken_bounds :
    (g : Segment) (s : Sock) → IsValid s → taken g s ≡ min (length g.body) (rxbuf - s.rxlen)
taken_bounds g s v = ground arith

-- Data in order is put behind what waits, as much of it as there is room for.
pub readable-take_data :
    (g : Segment) (s : Sock)
    → IsValid s
    → g.seq ≡ s.rcv_nxt
    → readable (take_data g s) ≡ readable s ++ take (taken g s) g.body
unfolding take_data
readable-take_data g s v e = rw ((==_iff g.seq s.rcv_nxt).1 e) (
    take_eq (copy_in s.rx s.rxlen new) (s.rxlen + taken g s) (s.rxlen + length new)
      (omega (arith, all))
    ∙ take-copy_in s.rx s.rxlen new (omega (arith, all, taken_bounds g s v)))
  where
    new : List ℕ
    new = take (taken g s) g.body

    all : length new ≡ taken g s
    all = length-take_le (taken g s) g.body (omega (arith, taken_bounds g s v))

-- A read takes the first bytes that wait, and leaves the others.
pub readable-take_out :
    (max : ℕ) (s : Sock)
    → IsValid s
    → (take_out max s).0 ++ readable (take_out max s).1 ≡ readable s
unfolding take_out
readable-take_out max s v =
    ap (λ l. take n s.rx ++ l)
      (take_eq (shift_down (s.rxlen - n) n n s.rx) (s.rxlen - n) (0 + (s.rxlen - n)) (omega arith)
        ∙ take-shift_down (s.rxlen - n) n 0 n s.rx (omega arith) (omega (arith, le)))
    ∙ sym (take_add s.rx n (s.rxlen - n))
    ∙ take_eq s.rx (n + (s.rxlen - n)) s.rxlen (omega (arith, le))
  where
    n : ℕ
    n = read_len max s

    le : n ≤ s.rxlen
    le = ground arith

length-shift_down : (c n k : ℕ) (rx : List ℕ) → length (shift_down c n k rx) ≡ length rx
unfolding shift_down
length-shift_down zero n k rx = refl
length-shift_down (suc c) n k rx =
    length-shift_down c n (k + 1) (set rx (k - n) (get_or rx k 0))
    ∙ length-set rx (k - n) (get_or rx k 0)

pub take_out-IsValid : (max : ℕ) (s : Sock) → IsValid s → IsValid (take_out max s).1
unfolding take_out
take_out-IsValid max s v =
    ground
      (arith, length-shift_down (s.rxlen - read_len max s) (read_len max s) (read_len max s) s.rx)

-- A read leaves the sequence numbers and the state alone.
pub take_out_keeps :
    (max : ℕ) (s : Sock)
    → ((take_out max s).1.rcv_nxt ≡ s.rcv_nxt) × ((take_out max s).1.state ≡ s.state)
unfolding take_out
take_out_keeps max s = (refl, refl)

pub take_data_keeps :
    (g : Segment) (s : Sock)
    → ((take_data g s).rcv_nxt
        ≡ (if g.seq == s.rcv_nxt then add32 s.rcv_nxt (taken g s) else s.rcv_nxt))
      × ((take_data g s).state ≡ s.state)
unfolding take_data
take_data_keeps g s = ground arith

pub take_data_skips : (g : Segment) (s : Sock) → (g.seq == s.rcv_nxt) ≡ false → take_data g s ≡ s
unfolding take_data
take_data_skips g s e = rw e
