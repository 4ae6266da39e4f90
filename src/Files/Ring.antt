-- ===== src/Files/Ring.antt =====
-- The bytes that wait in a pipe of pkg/stam/file.c, as a list: the ring implements a queue.
use verkos.Prelude.{
  ℕ, zero, suc, ◌+◌, ◌-◌, ◌%◌, ◌<◌, ◌≡◌, refl, ap, ◌∙◌, ◌≢◌, List, [], ◌∷◌, ◌++◌, arith, leb,
  if◌then◌else◌, length, get_or, set, length-set, get_or-set,
}
use verkos.Files.State.{Pipe, pipe_size}
use verkos.Files.Pipe.{pipe_bytes, put_byte, drop_byte}

-- `count` bytes of the ring from `tail` on
unfoldable pub ring : List ℕ → ℕ → ℕ → List ℕ
ring buf tail zero = []
ring buf tail (suc count) = get_or buf tail 0 ∷ ring buf ((tail + 1) % pipe_size) count

abbrev pub queue : Pipe → List ℕ
queue p = ring p.buf p.tail (pipe_bytes p)

-- The array has its size and both indexes lie in it.
pub record IsRing (p : Pipe) : Type 0 where
  pub size : length p.buf ≡ pipe_size
  pub head_in : p.head < pipe_size
  pub tail_in : p.tail < pipe_size

pub pipe_bytes_small :
    (p : Pipe)
    → IsRing p
    → pipe_bytes p ≡ (if leb p.tail p.head then p.head - p.tail else p.head + pipe_size - p.tail)
pipe_bytes_small p r = ground (arith, r.head_in, r.tail_in)

pub ring_put :
    (buf : List ℕ) (tail count head b : ℕ)
    → length buf ≡ pipe_size
    → tail < pipe_size
    → count < pipe_size
    → head ≡ (tail + count) % pipe_size
    → ring (set buf head b) tail (suc count) ≡ ring buf tail count ++ (b ∷ [])
unfolding ring
ring_put buf tail zero head b l t c e = ground (arith, get_or-set buf head tail b 0, e)
ring_put buf tail (suc count) head b l t c e =
    let ih =
      ring_put buf ((tail + 1) % pipe_size) count head b l (ground arith) (omega arith)
        (ground (arith, e)) in
    let same : get_or (set buf head b) tail 0 ≡ get_or buf tail 0 =
      ground (arith, get_or-set buf head tail b 0, e) in
    rw (same, ih) refl

pub put_bytes :
    (b : ℕ) (p : Pipe)
    → IsRing p
    → pipe_bytes p ≢ pipe_size - 1
    → pipe_bytes (put_byte b p) ≡ suc (pipe_bytes p)
unfolding put_byte
put_bytes b p r ne = ground (arith, r.head_in, r.tail_in)

pub drop_bytes :
    (p : Pipe) → IsRing p → pipe_bytes p ≢ 0 → pipe_bytes p ≡ suc (pipe_bytes (drop_byte p))
unfolding drop_byte
drop_bytes p r ne = ground (arith, r.head_in, r.tail_in)

pub put_byte-IsRing : (b : ℕ) (p : Pipe) → IsRing p → IsRing (put_byte b p)
unfolding put_byte
put_byte-IsRing b p r = record {
  size = length-set p.buf p.head b ∙ r.size;
  head_in = ground arith;
  tail_in = r.tail_in;
}

pub drop_byte-IsRing : (p : Pipe) → IsRing p → IsRing (drop_byte p)
unfolding drop_byte
drop_byte-IsRing p r = record { size = r.size; head_in = r.head_in; tail_in = ground arith }

head_eq : (p : Pipe) → IsRing p → p.head ≡ (p.tail + pipe_bytes p) % pipe_size
head_eq p r = ground (arith, r.head_in, r.tail_in)

-- Writing a byte where there is room puts it at the end of the queue.
pub queue-put_byte :
    (b : ℕ) (p : Pipe)
    → IsRing p
    → pipe_bytes p ≢ pipe_size - 1
    → queue (put_byte b p) ≡ queue p ++ (b ∷ [])
unfolding put_byte
queue-put_byte b p r ne =
    ap (ring (put_byte b p).buf (put_byte b p).tail) (put_bytes b p r ne)
    ∙ ring_put p.buf p.tail (pipe_bytes p) p.head b r.size r.tail_in (ground arith) (head_eq p r)

-- Reading takes the byte at the front.
pub queue-drop_byte :
    (p : Pipe) → IsRing p → pipe_bytes p ≢ 0 → queue p ≡ get_or p.buf p.tail 0 ∷ queue (drop_byte p)
unfolding ring drop_byte
queue-drop_byte p r ne = ap (ring p.buf p.tail) (drop_bytes p r ne)
