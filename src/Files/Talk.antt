-- ===== src/Files/Talk.antt =====
-- A writer and a reader on the two ends of a pipe of pkg/stam/file.c, each a round at a time.
use verkos.Prelude.{ℕ, zero, suc, ◌≡◌, refl, sym, ap, ◌∙◌, List, [], ◌∷◌, ◌++◌, take, drop}
use verkos.Files.State.{Pipe}
use verkos.Files.Pipe.{drain, WriteStop, wrote, broken, full, fill}
use verkos.Files.Ring.{queue, IsRing}
use verkos.Files.Fifo.{append_assoc, append_nil, Drained, drain_lem, Filled, fill_lem}

-- The pipe, what the writer has still to write and what the reader has read.
pub record Talk : Type 0 where
  pub pipe : Pipe
  pub left : List ℕ
  pub out : List ℕ

-- The writer goes on, or the reader asks for a number of bytes.
pub data Turn : Type 0 where
  writes : Turn
  reads : ℕ → Turn

abbrev pub after_fill : Talk → WriteStop → Talk
after_fill t (wrote n p) = record t { pipe = p; left = [] }
after_fill t (broken n p) = t
after_fill t (full left n p) = record t { pipe = p; left = left }

abbrev pub turn : Turn → Talk → Talk
turn writes t = after_fill t (fill t.left 0 t.pipe)
turn (reads len) t = record t { pipe = (drain len t.pipe).1; out = t.out ++ (drain len t.pipe).0 }

abbrev pub talk : List Turn → Talk → Talk
talk [] t = t
talk (e ∷ es) t = talk es (turn e t)

-- Everything that has been or is still to be written, in the order in which it was.
abbrev pub stream : Talk → List ℕ
stream t = t.out ++ (queue t.pipe ++ t.left)

take-append-drop {ℓ} : {A : Type ℓ} (n : ℕ) (xs : List A) → take n xs ++ drop n xs ≡ xs
take-append-drop zero xs = refl
take-append-drop (suc n) [] = refl
take-append-drop (suc n) (x ∷ xs) = ap (◌∷◌ x) (take-append-drop n xs)

after_fill-stream :
    (t : Talk) (w : WriteStop)
    → IsRing t.pipe
    → Filled t.left 0 t.pipe w
    → (stream (after_fill t w) ≡ stream t) × IsRing (after_fill t w).pipe
after_fill-stream t (wrote n p) r (c, q, k) = (ap (λ z. t.out ++ z) (append_nil (queue p) ∙ q), k)
after_fill-stream t (broken n p) r f = (refl, r)
after_fill-stream t (full left n p) r (c, q, k, f, l) = (ap (λ z. t.out ++ z) q, k)

turn-stream :
    (e : Turn) (t : Talk) → IsRing t.pipe → (stream (turn e t) ≡ stream t) × IsRing (turn e t).pipe
turn-stream writes t r = after_fill-stream t (fill t.left 0 t.pipe) r (fill_lem t.left 0 t.pipe r)
turn-stream (reads len) t r = (same_stream, d.ring_kept)
  where
    d : Drained len t.pipe (drain len t.pipe).0 (drain len t.pipe).1
    d = drain_lem len t.pipe r

    same_stream : stream (turn (reads len) t) ≡ stream t
    same_stream =
        rw (d.bytes, d.rest)
          (append_assoc t.out (take len (queue t.pipe)) (drop len (queue t.pipe) ++ t.left)
            ∙ ap (λ z. t.out ++ z)
                (sym (append_assoc (take len (queue t.pipe)) (drop len (queue t.pipe)) t.left)
                  ∙ ap (λ z. z ++ t.left) (take-append-drop len (queue t.pipe))))

-- However the rounds of the writer and the reader follow one another, what has been read, what waits in
-- the pipe and what is still to be written are together the stream, in its order: no byte is lost,
-- doubled or moved.
pub talk-stream :
    (es : List Turn) (t : Talk)
    → IsRing t.pipe
    → (stream (talk es t) ≡ stream t) × IsRing (talk es t).pipe
talk-stream [] t r = (refl, r)
talk-stream (e ∷ es) t r =
    let here = turn-stream e t r in
    let rest = talk-stream es (turn e t) here.1 in (rest.0 ∙ here.0, rest.1)
