-- ===== src/Tcp/Stream.antt =====
-- The promise of pkg/stam/tcp.c to a reader: segments may be lost, doubled or out of order, and the
-- bytes that are read are still a beginning of what the peer sent.
use mathlib.Core.List.{append_assoc}
use verkos.Prelude.{
  ℕ, ◌+◌, ◌^◌, ◌≤◌, ◌<◌, ◌≡◌, sym, ap, ◌∙◌, inl, inr, Bool, true, false, List, [], ◌∷◌, ◌++◌, arith,
  ◌==◌, if◌then◌else◌, Bool-cases, length, take, drop, take-take, take_add,
}
use verkos.Tcp.State.{SockState, established, close_wait, fin_wait, Sock, add32}
use verkos.Tcp.Segment.{Segment, has, f_fin, f_rst}
use verkos.Tcp.Input.{NetOps, take_ack, taken, take_data, on_data, on_fin, on_stream, conn_input}
use verkos.Tcp.Calls.{take_out}
use verkos.Tcp.Invariant.{IsValid, IsSegment, take_data-IsValid}
use verkos.Tcp.Delivery.{
  readable, readable-take_data, readable-take_out, taken_bounds, take_out-IsValid, take_out_keeps,
  take_data_keeps, take_data_skips,
}

-- The states in which data is accepted.
abbrev pub receives : SockState → Bool
receives established = true
receives close_wait = true
receives fin_wait = true
receives _ = false

-- A segment of plain data: no reset, no end of stream, and its bytes stand in the stream `sent` at
-- the place that its number says, counted from `isn`.
pub record IsSlice (sent : List ℕ) (isn : ℕ) (g : Segment) : Type 0 where
  pub off : ℕ
  pub well_formed : IsSegment g
  pub plain : (has g.flags f_rst ≡ false) × (has g.flags f_fin ≡ false)
  pub place : g.seq ≡ add32 isn off
  pub within : off + length g.body ≤ length sent
  pub content : g.body ≡ take (length g.body) (drop off sent)

-- What a connection goes through: segments, and reads of at most so many bytes.
pub data Event : Type 0 where
  arrives : Segment → Event
  reads : ℕ → Event

abbrev pub IsEvent : List ℕ → ℕ → Event → Type 0
IsEvent sent isn (arrives g) = IsSlice sent isn g
IsEvent sent isn (reads max) = Unit

abbrev pub AreEvents : List ℕ → ℕ → List Event → Type 0
AreEvents sent isn [] = Unit
AreEvents sent isn (e ∷ es) = IsEvent sent isn e × AreEvents sent isn es

-- The first `k` bytes of the stream have been read (`out`) or wait in the buffer.
pub record Follows (sent : List ℕ) (isn : ℕ) (out : List ℕ) (s : Sock) : Type 0 where
  pub k : ℕ
  pub valid : IsValid s
  pub open_state : receives s.state ≡ true
  pub within : k ≤ length sent
  pub next : s.rcv_nxt ≡ add32 isn k
  pub content : out ++ readable s ≡ take k sent

module _ (sent : List ℕ) (isn : ℕ) (small : length sent < 2 ^ 32) where
  take_ack-Follows :
      (g : Segment) (out : List ℕ) (s : Sock)
      → IsSegment g
      → Follows sent isn out s
      → Follows sent isn out (take_ack g s)
  unfolding take_ack
  take_ack-Follows g out s h f = ground (arith, f.k, f)

  take_data-Follows :
      (g : Segment) (out : List ℕ) (s : Sock)
      → IsSlice sent isn g
      → Follows sent isn out s
      → Follows sent isn out (take_data g s)
  take_data-Follows g out s h f = elim (Bool-cases (g.seq == s.rcv_nxt)) [
    | inr miss ↦ rw (take_data_skips g s miss) f
    | inl hit ↦ record {
      k = f.k + taken g s;
      valid = take_data-IsValid g s f.valid;
      open_state = rw (take_data_keeps g s).1 f.open_state;
      within = omega (arith, in_order hit, taken_bounds g s f.valid);
      next = ground (arith, take_data_keeps g s);
      content = rw (readable-take_data g s f.valid (in_order hit).1) (
          sym (append_assoc out (readable s) (take (taken g s) g.body))
          ∙ ap (λ l. l ++ take (taken g s) g.body) f.content
          ∙ ap (λ l. take f.k sent ++ l) (new_bytes hit)
          ∙ sym (take_add sent f.k (taken g s)));
    }
  ]
    where
      in_order : (g.seq == s.rcv_nxt) ≡ true → (h.off ≡ f.k) × (g.seq ≡ s.rcv_nxt)
      in_order hit = ground arith

      new_bytes :
          (g.seq == s.rcv_nxt) ≡ true → take (taken g s) g.body ≡ take (taken g s) (drop f.k sent)
      new_bytes hit =
          ap (take (taken g s)) h.content
          ∙ take-take (drop h.off sent) (taken g s) (length g.body)
              (omega (arith, taken_bounds g s f.valid))
          ∙ ap (λ j. take (taken g s) (drop j sent)) (in_order hit).0

  take_out-Follows :
      (max : ℕ) (out : List ℕ) (s : Sock)
      → Follows sent isn out s
      → Follows sent isn (out ++ (take_out max s).0) (take_out max s).1
  take_out-Follows max out s f = record {
    k = f.k;
    valid = take_out-IsValid max s f.valid;
    open_state = rw (take_out_keeps max s).1 f.open_state;
    within = f.within;
    next = (take_out_keeps max s).0 ∙ f.next;
    content =
        append_assoc out (take_out max s).0 (readable (take_out max s).1)
        ∙ ap (λ l. out ++ l) (readable-take_out max s f.valid)
        ∙ f.content;
  }

-- A plain segment in a receiving state is an acknowledgement and then data.
conn_input_plain :
    (net : NetOps) (g : Segment) (s : Sock) (st : net.St)
    → has g.flags f_rst ≡ false
    → has g.flags f_fin ≡ false
    → receives s.state ≡ true
    → (conn_input net g s st).0
      ≡ (if length g.body == 0 then take_ack g s else take_data g (take_ack g s))
unfolding conn_input on_stream on_data on_fin
conn_input_plain net g s st r f o = ground arith

-- The reader's side of a connection through a history of events: what was read so far, the socket
-- and what lies below it.
unfoldable pub step : (net : NetOps) → Event → List ℕ × Sock × net.St → List ℕ × Sock × net.St
step net (arrives g) (out, s, st) = let (s', st') = conn_input net g s st in (out, s', st')
step net (reads max) (out, s, st) = (out ++ (take_out max s).0, (take_out max s).1, st)

unfoldable pub run : (net : NetOps) → List Event → List ℕ × Sock × net.St → List ℕ × Sock × net.St
unfolding step
run net [] r = r
run net (e ∷ es) r = run net es (step net e r)

step-Follows :
    (net : NetOps) (sent : List ℕ) (isn : ℕ) (e : Event) (out : List ℕ) (s : Sock) (st : net.St)
    → length sent < 2 ^ 32
    → IsEvent sent isn e
    → Follows sent isn out s
    → let (out', s', st') = step net e (out, s, st) in Follows sent isn out' s'
unfolding step
step-Follows net sent isn (arrives g) out s st small h f =
    rw (conn_input_plain net g s st h.plain.0 h.plain.1 f.open_state)
      (elim (Bool-cases (length g.body == 0)) [
        | inl e ↦ rw e acked
        | inr e ↦ rw e (take_data-Follows sent isn small g out (take_ack g s) h acked)
      ])
  where
    acked : Follows sent isn out (take_ack g s)
    acked = take_ack-Follows sent isn small g out s h.well_formed f
step-Follows net sent isn (reads max) out s st small h f =
    take_out-Follows sent isn small max out s f

-- Of any history of a connection in which the data segments carry slices of the peer's stream at
-- their sequence numbers, in any order, doubled or missing, and in which the program reads whenever
-- and as much as it likes: what was read, followed by what waits in the buffer, is a beginning of
-- the stream, and the next number expected is the one behind it. Segments with a reset or an end of
-- stream are not among them.
pub run-Follows :
    (net : NetOps) (sent : List ℕ) (isn : ℕ) (es : List Event) (out : List ℕ) (s : Sock)
    (st : net.St)
    → length sent < 2 ^ 32
    → AreEvents sent isn es
    → Follows sent isn out s
    → let (out', s', st') = run net es (out, s, st) in Follows sent isn out' s'
unfolding run
run-Follows net sent isn [] out s st small h f = f
run-Follows net sent isn (e ∷ es) out s st small h f =
    run-Follows net sent isn es _ _ _ small h.1 (step-Follows net sent isn e out s st small h.0 f)
