-- ===== src/Files/Fifo.antt =====
-- A pipe of pkg/stam/file.c is a queue: what is written comes out in order, once.
use verkos.Prelude.{
  ℕ, zero, suc, ◌+◌, ◌-◌, ◌≡◌, refl, sym, ap, ◌∙◌, ◌≢◌, inl, inr, List, [], ◌∷◌, ◌++◌, arith, ◌==◌,
  Bool-cases, length, get_or, take, drop,
}
use verkos.Files.State.{Pipe, pipe_size}
use verkos.Files.Pipe.{pipe_bytes, put_byte, drop_byte, drain, WriteStop, wrote, broken, full, fill}
use verkos.Files.Ring.{
  ring, queue, IsRing, put_byte-IsRing, drop_byte-IsRing, queue-put_byte, queue-drop_byte,
}

pub append_assoc {ℓ} : {A : Type ℓ} (xs ys zs : List A) → (xs ++ ys) ++ zs ≡ xs ++ (ys ++ zs)
append_assoc [] ys zs = refl
append_assoc (x ∷ xs) ys zs = ap (◌∷◌ x) (append_assoc xs ys zs)

pub append_nil {ℓ} : {A : Type ℓ} (xs : List A) → xs ++ [] ≡ xs
append_nil [] = refl
append_nil (x ∷ xs) = ap (◌∷◌ x) (append_nil xs)

queue_empty : (p : Pipe) → pipe_bytes p ≡ 0 → queue p ≡ []
unfolding ring
queue_empty p e = ap (ring p.buf p.tail) e

-- The loop that reads takes as many bytes as it may from the front of the queue.
pub record Drained (len : ℕ) (p : Pipe) (bs : List ℕ) (p' : Pipe) : Type 0 where
  pub bytes : bs ≡ take len (queue p)
  pub rest : queue p' ≡ drop len (queue p)
  pub ring_kept : IsRing p'
  pub ends_kept : (p'.readers ≡ p.readers) × (p'.writers ≡ p.writers)

pub drain_lem : (len : ℕ) (p : Pipe) → IsRing p → Drained len p (drain len p).0 (drain len p).1
unfolding drain drop_byte
drain_lem zero p r = record { bytes = refl; rest = refl; ring_kept = r; ends_kept = (refl, refl) }
drain_lem (suc len) p r = elim (Bool-cases (pipe_bytes p == 0)) [
  | inl y ↦ rw y (empty (queue_empty p (ground (arith, y))))
  | inr n ↦ rw n (
      more (drain_lem len (drop_byte p) (drop_byte-IsRing p r))
        (queue-drop_byte p r (ground (arith, n))))
]
  where
    empty : queue p ≡ [] → Drained (suc len) p [] p
    empty e = record {
      bytes = rw e refl;
      rest = rw e refl;
      ring_kept = r;
      ends_kept = (refl, refl);
    }

    more :
        Drained len (drop_byte p) (drain len (drop_byte p)).0 (drain len (drop_byte p)).1
        → queue p ≡ get_or p.buf p.tail 0 ∷ queue (drop_byte p)
        → Drained
            (suc len)
            p
            (get_or p.buf p.tail 0 ∷ (drain len (drop_byte p)).0)
            (drain len (drop_byte p)).1
    more h e = record {
      bytes = rw e (ap (◌∷◌ (get_or p.buf p.tail 0)) h.bytes);
      rest = rw e h.rest;
      ring_kept = h.ring_kept;
      ends_kept = h.ends_kept;
    }

-- Where the loop that writes stops: all of the bytes are at the end of the queue and counted; or the
-- first of them are, and the ring is full; or nobody reads and nothing has happened.
abbrev pub Filled : List ℕ → ℕ → Pipe → WriteStop → Type 0
Filled bs n p (wrote k p') = (k ≡ n + length bs) × (queue p' ≡ queue p ++ bs) × IsRing p'
Filled bs n p (broken k p') = (p.readers ≡ 0) × (k ≡ n) × (p' ≡ p)
Filled bs n p (full left k p') =
    (k + length left ≡ n + length bs)
    × (queue p' ++ left ≡ queue p ++ bs)
    × IsRing p'
    × (pipe_bytes p' ≡ pipe_size - 1)
    × (left ≢ [])

-- One byte more in front.
step :
    (b : ℕ) (bs : List ℕ) (n : ℕ) (p : Pipe)
    → p.readers ≢ 0
    → queue (put_byte b p) ≡ queue p ++ (b ∷ [])
    → (w : WriteStop) → Filled bs (n + 1) (put_byte b p) w
    → Filled (b ∷ bs) n p w
unfolding put_byte
step b bs n p ne q (wrote k p') (c, e, r) =
    (ground arith, e ∙ ap (λ z. z ++ bs) q ∙ append_assoc (queue p) (b ∷ []) bs, r)
step b bs n p ne q (broken k p') (z, c, e) = absurd (ne z)
step b bs n p ne q (full left k p') (c, e, r, f, l) =
    (ground arith, e ∙ ap (λ z. z ++ bs) q ∙ append_assoc (queue p) (b ∷ []) bs, r, f, l)

-- On a ring, the writing loop stops as Filled says: with all bytes at the end of the queue and counted,
-- or with the first of them there and the ring full, or at once where nobody reads.
pub fill_lem : (bs : List ℕ) (n : ℕ) (p : Pipe) → IsRing p → Filled bs n p (fill bs n p)
unfolding fill
fill_lem [] n p r = (omega arith, sym (append_nil (queue p)), r)
fill_lem (b ∷ bs) n p r = elim (Bool-cases (p.readers == 0)) [
  | inl y ↦ rw y (ground (arith, y), refl, refl)
  | inr ne ↦ elim (Bool-cases (pipe_bytes p == pipe_size - 1)) [
    | inl y ↦ rw (ne, y) (refl, refl, r, ground (arith, y), λ e. ground (arith, e))
    | inr room ↦
        rw (ne, room)
          (step b bs n p (ground (arith, ne)) (queue-put_byte b p r (ground (arith, room)))
            (fill bs (n + 1) (put_byte b p))
            (fill_lem bs (n + 1) (put_byte b p) (put_byte-IsRing b p r)))
  ]
]
