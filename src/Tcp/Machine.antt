-- ===== src/Tcp/Machine.antt =====
-- The state machine of pkg/stam/tcp.c: which states a segment can lead to, the end of a stream, and
-- the handshake.
use verkos.Prelude.{
  ◌+◌, ◌-◌, ◌%◌, ◌^◌, min, ◌≡◌, refl, sym, ap, ◌∙◌, ◌≢◌, ◌⊎◌, inl, inr, Bool, true, false, ◌++◌,
  arith, Bool-cases, length, take,
}
use verkos.Tcp.State.{
  SockState, free, syn_sent, syn_rcvd, established, close_wait, fin_wait, closed, is, Sock, rxbuf,
  seq_ge,
}
use verkos.Tcp.Segment.{Segment, has, f_fin, f_rst}
use verkos.Tcp.Input.{
  NetOps, take_ack, taken, take_data, take_fin, after_fin, on_data, on_fin, on_stream, on_syn_sent,
  conn_input,
}
use verkos.Tcp.Invariant.{IsSegment, take_ack-IsValid, IsValid}
use verkos.Tcp.Delivery.{readable, readable-take_data, taken_bounds, take_data_keeps}
use verkos.Tcp.Stream.{receives}

-- The moves that a segment without a reset may make.
abbrev pub may_move : SockState → SockState → Bool
may_move syn_sent established = true
may_move syn_rcvd established = true
may_move syn_rcvd close_wait = true
may_move established close_wait = true
may_move fin_wait closed = true
may_move a b = is a b

take_ack_state : (g : Segment) (s : Sock) → (take_ack g s).state ≡ s.state
unfolding take_ack
take_ack_state g s = ground arith

on_stream_state :
    (net : NetOps) (g : Segment) (s : Sock) (st : net.St)
    → ((on_stream net g s st).0.state ≡ s.state)
      ⊎ ((on_stream net g s st).0.state ≡ after_fin s.state) × (has g.flags f_fin ≡ true)
unfolding on_stream on_data on_fin
on_stream_state net g s st = ground (arith, take_ack_state g s, take_data_keeps g (take_ack g s))

-- The state after a segment without a reset, as the code computes it.
abbrev Outcome : SockState → SockState → Type 0
Outcome a b =
    (b ≡ a)
    ⊎ ((a ≡ syn_sent) × (b ≡ established))
    ⊎ ((a ≡ syn_rcvd) × (b ≡ established))
    ⊎ ((a ≡ syn_rcvd) × (b ≡ close_wait))
    ⊎ (b ≡ after_fin a)

on_syn_sent_state :
    (net : NetOps) (g : Segment) (s : Sock) (st : net.St)
    → ((on_syn_sent net g s st).0.state ≡ s.state)
      ⊎ ((on_syn_sent net g s st).0.state ≡ established)
unfolding on_syn_sent
on_syn_sent_state net g s st = ground arith

is_eq : (a b : SockState) → is a b ≡ true → a ≡ b
is_eq a b h = ground arith

conn_input-Outcome :
    (net : NetOps) (g : Segment) (s : Sock) (st : net.St)
    → has g.flags f_rst ≡ false
    → Outcome s.state (conn_input net g s st).0.state
unfolding conn_input after_fin
conn_input-Outcome net g s st h = ground (
  arith,
  is_eq s.state syn_sent,
  is_eq s.state syn_rcvd,
  on_syn_sent_state net g s st,
  on_stream_state net g s st,
  on_stream_state net g (record s { snd_una = g.ack; state = established }) st,
)

Outcome-may_move : (a b : SockState) → Outcome a b → may_move a b ≡ true
unfolding after_fin
Outcome-may_move free b h = ground arith
Outcome-may_move a b h = ground arith

conn_input_reset :
    (net : NetOps) (g : Segment) (s : Sock) (st : net.St)
    → has g.flags f_rst ≡ true
    → (conn_input net g s st).0 ≡ record s { reset = true; state = closed }
unfolding conn_input
conn_input_reset net g s st h = rw h

-- Whatever the segment, its connection makes one of the moves above; a reset closes it, and nothing
-- leaves `closed`.
pub conn_input_moves :
    (net : NetOps) (g : Segment) (s : Sock) (st : net.St)
    → let s' = (conn_input net g s st).0 in
      ((has g.flags f_rst ≡ true) × (s'.state ≡ closed) × (s'.reset ≡ true))
      ⊎ ((has g.flags f_rst ≡ false) × (may_move s.state s'.state ≡ true))
conn_input_moves net g s st = elim (Bool-cases (has g.flags f_rst)) [
  | inl r ↦ inl (
    r,
    ap (λ (x : Sock). x.state) (conn_input_reset net g s st r),
    ap (λ (x : Sock). x.reset) (conn_input_reset net g s st r),
  )
  | inr r ↦ inr (r, Outcome-may_move s.state _ (conn_input-Outcome net g s st r))
]

conn_input-receives :
    (net : NetOps) (g : Segment) (s : Sock) (st : net.St)
    → receives s.state ≡ true
    → has g.flags f_rst ≡ false
    → conn_input net g s st ≡ on_stream net g s st
unfolding conn_input
conn_input-receives net g s st o r = ground arith

-- What `if (flags & F_FIN)` makes of the socket.
abbrev finish : Segment → Sock → Sock
finish g d = record (take_fin g d) { state = after_fin d.state }

on_stream_fin :
    (net : NetOps) (g : Segment) (s : Sock) (st : net.St)
    → has g.flags f_fin ≡ true
    → length g.body ≢ 0
    → seq_ge (take_data g (take_ack g s)).rcv_nxt g.seq ≡ true
    → (on_stream net g s st).0 ≡ finish g (take_data g (take_ack g s))
unfolding on_stream on_data on_fin
on_stream_fin net g s st f n a = ground arith

take_ack_keeps :
    (g : Segment) (s : Sock)
    → ((take_ack g s).rcv_nxt ≡ s.rcv_nxt)
      × ((take_ack g s).rxlen ≡ s.rxlen)
      × ((take_ack g s).rx ≡ s.rx)
unfolding take_ack
take_ack_keeps g s = ground arith

-- The number behind the accepted part is not behind the segment's own.
ahead :
    (g : Segment) (s : Sock)
    → IsValid s
    → g.seq ≡ s.rcv_nxt
    → seq_ge (take_data g s).rcv_nxt g.seq ≡ true
unfolding seq_ge
ahead g s v e = ground (arith, take_data_keeps g s, taken_bounds g s v)

-- The end of a stream in order: whatever part of the segment's bytes there is room for is kept, and
-- the next number expected lies behind all of them and the FIN.
pub fin_in_order :
    (net : NetOps) (g : Segment) (s : Sock) (st : net.St)
    → IsSegment g
    → IsValid s
    → receives s.state ≡ true
    → has g.flags f_rst ≡ false
    → has g.flags f_fin ≡ true
    → length g.body ≢ 0
    → g.seq ≡ s.rcv_nxt
    → let s' = (conn_input net g s st).0 in
      (readable s' ≡ readable s ++ take (min (length g.body) (rxbuf - s.rxlen)) g.body)
      × (s'.rcv_nxt ≡ (g.seq + length g.body + 1) % 2 ^ 32)
      × (s'.fin_seen ≡ true)
      × (s'.state ≡ after_fin s.state)
unfolding take_fin
fin_in_order net g s st h v o r f n e =
    rw
      (
        conn_input-receives net g s st o r,
        on_stream_fin net g s st f n (ahead g a va (e ∙ sym k.0)),
      )
      (
        readable-take_data g a va (e ∙ sym k.0)
            ∙ ap (λ l. l ++ take (taken g a) g.body) same
            ∙ ap (λ m. readable s ++ take m g.body) room,
        refl,
        refl,
        ap after_fin ((take_data_keeps g a).1 ∙ take_ack_state g s),
      )
  where
    a : Sock
    a = take_ack g s

    k : (a.rcv_nxt ≡ s.rcv_nxt) × (a.rxlen ≡ s.rxlen) × (a.rx ≡ s.rx)
    k = take_ack_keeps g s

    va : IsValid a
    va = take_ack-IsValid g s h v

    same : readable a ≡ readable s
    same = rw (k.1, k.2)

    room : taken g a ≡ min (length g.body) (rxbuf - s.rxlen)
    room = taken_bounds g a va ∙ ap (λ m. min (length g.body) (rxbuf - m)) k.1
