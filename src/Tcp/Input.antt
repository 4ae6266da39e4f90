-- ===== src/Tcp/Input.antt =====
-- `tcp_input` of pkg/stam/tcp.c: one segment, from the address `src`. What lies below TCP is the
-- interface `NetOps`, with the state of the network card, the clock and the counter in `St`.
use verkos.Prelude.{
  ℕ, ◌+◌, ◌-◌, ◌%◌, ◌^◌, Bool, true, false, not, ◌&&◌, ◌||◌, none, some, List, [], ◌∷◌, ltb, ◌==◌,
  if◌then◌else◌, length, set, take, find_index,
}
use verkos.Tcp.State.{
  SockState, free, listen, syn_sent, syn_rcvd, established, close_wait, fin_wait, closed, is, Sock,
  Tcp, sock_at, put_sock, seq_ge, add32, rxbuf,
}
use verkos.Tcp.Segment.{Segment, build, parse, has, f_fin, f_syn, f_rst, f_ack}

-- What pkg/stam/tcp.c calls of pkg/stam/net.c, pkg/stam/timer.c and the processor.
pub record NetOps : Type 1 where
  pub St : Type 0
  -- net_my_ip(), net_present()
  pub my_ip : St → ℕ
  pub present : St → Bool
  -- net_ip_send(dst, 6, seg, n) and whether it returned 0, where the hardware address of the next
  -- machine is in the cache; the segments that arrive while it is asked for, which the code hands to
  -- tcp_input inside of the send, are not modelled.
  pub ip_send : ℕ → List ℕ → St → Bool × St
  -- net_poll(): the segments, each with its source, that it hands to tcp_input
  pub poll : St → List (List ℕ × ℕ) × St
  -- net_wait(1)
  pub wait : St → St
  -- timer_ticks(), timer_hz() and cntpct_el0
  pub ticks : St → ℕ
  pub hz : ℕ
  pub counter : St → ℕ

-- for (i = 0; i < take; i++) rx[k + i] = body[i];
unfoldable pub copy_in : List ℕ → ℕ → List ℕ → List ℕ
copy_in rx k [] = rx
copy_in rx k (b ∷ bs) = copy_in (set rx k b) (k + 1) bs

-- `s != 0` of the first search: a connection is identified by the ports and the address.
unfoldable pub is_connection : Segment → ℕ → Sock → Bool
is_connection g src s =
    not (is s.state free)
    && not (is s.state listen)
    && s.lport == g.dport
    && s.rport == g.sport
    && s.rip == src

unfoldable pub is_listener : ℕ → Sock → Bool
is_listener port s = is s.state listen && s.lport == port

-- A cumulative acknowledgement, which only moves forward.
unfoldable pub take_ack : Segment → Sock → Sock
take_ack g s =
    if has g.flags f_ack && (seq_ge g.ack s.snd_una && seq_ge s.snd_nxt g.ack)
    then record s { snd_una = g.ack }
    else s

-- room = RXBUF - s->rxlen; take = dlen < room ? dlen : room;
abbrev pub taken : Segment → Sock → ℕ
taken g s =
    let room = (2 ^ 32 + rxbuf - s.rxlen) % 2 ^ 32 in
    if ltb (length g.body) room then length g.body else room

-- Data in order, as much as there is room for.
unfoldable pub take_data : Segment → Sock → Sock
take_data g s =
    if g.seq == s.rcv_nxt
    then record s {
      rx = copy_in s.rx s.rxlen (take (taken g s) g.body);
      rxlen = s.rxlen + taken g s;
      rcv_nxt = add32 s.rcv_nxt (taken g s);
    }
    else s

-- The other end has closed its half.
unfoldable pub take_fin : Segment → Sock → Sock
take_fin g s = record s { rcv_nxt = (g.seq + length g.body + 1) % 2 ^ 32; fin_seen = true }

unfoldable pub after_fin : SockState → SockState
after_fin established = close_wait
after_fin fin_wait = closed
after_fin st = st

-- The socket of a connection that arrives at the listener `l`.
unfoldable pub accepted : Segment → ℕ → ℕ → ℕ → Sock → Sock
accepted g src l iss c = record c {
  state = syn_rcvd;
  lport = g.dport;
  rport = g.sport;
  rip = src;
  rxlen = 0;
  fin_seen = false;
  reset = false;
  parent = some l;
  rcv_nxt = add32 g.seq 1;
  snd_una = iss;
  snd_nxt = add32 iss 1;
}

module _ (net : NetOps) where
  open net use {St, my_ip, present, ip_send, poll, wait, ticks, hz, counter}

  unfoldable pub send_seg : Sock → ℕ → ℕ → List ℕ → Bool → St → Bool × St
  send_seg s flags seq body with_mss st =
      ip_send s.rip (build (my_ip st) s flags seq body with_mss) st

  -- send_seg(s, F_ACK, s->snd_nxt, 0, 0, 0);
  unfoldable pub send_ack : Sock → St → St
  send_ack s st = (send_seg s f_ack s.snd_nxt [] false st).1

  unfoldable pub on_data : Segment → Sock → St → Sock × St
  on_data g s st =
      if length g.body == 0 then (s, st) else (take_data g s, send_ack (take_data g s) st)

  unfoldable pub on_fin : Segment → Sock → St → Sock × St
  on_fin g s st =
      if has g.flags f_fin && seq_ge s.rcv_nxt g.seq
      then (record (take_fin g s) { state = after_fin s.state }, send_ack (take_fin g s) st)
      else (s, st)

  -- From `if (flags & F_ACK)` on: acknowledgement, data, end of stream.
  unfoldable pub on_stream : Segment → Sock → St → Sock × St
  on_stream g s st = let (s', st') = on_data g (take_ack g s) st in on_fin g s' st'

  unfoldable pub on_syn_sent : Segment → Sock → St → Sock × St
  on_syn_sent g s st =
      if not (has g.flags f_syn) || not (has g.flags f_ack)
      then (s, st)
      else if not (g.ack == s.snd_nxt)
      then (s, st)
      else let s' = record s { snd_una = g.ack; rcv_nxt = add32 g.seq 1; state = established } in
        (s', send_ack s' st)

  -- A segment for the connection `s`.
  unfoldable pub conn_input : Segment → Sock → St → Sock × St
  conn_input g s st =
      if has g.flags f_rst
      then (record s { reset = true; state = closed }, st)
      else if is s.state syn_sent
      then on_syn_sent g s st
      else if is s.state syn_rcvd
      then if not (has g.flags f_ack) || not (g.ack == s.snd_nxt)
        then (s, st)
        else on_stream g (record s { snd_una = g.ack; state = established }) st
      else on_stream g s st

  -- A SYN for a port on which somebody listens, if a slot is free.
  unfoldable pub syn_input : Segment → ℕ → Tcp → St → Tcp × St
  syn_input g src t st = elim (find_index (is_listener g.dport) t.socks) [
    | none ↦ (t, st)
    | some l ↦ elim (find_index (λ s. is s.state free) t.socks) [
      | none ↦ (t, st)
      | some c ↦
          let iss = counter st % 2 ^ 32 in
          let s = accepted g src l iss (sock_at t c) in
          (put_sock t c s, (send_seg s (f_syn + f_ack) iss [] true st).1)
    ]
  ]

  unfoldable pub dispatch : Segment → ℕ → Tcp → St → Tcp × St
  dispatch g src t st = elim (find_index (is_connection g src) t.socks) [
    | some i ↦ let (s, st') = conn_input g (sock_at t i) st in (put_sock t i s, st')
    | none ↦ if has g.flags f_syn && not (has g.flags f_ack) then syn_input g src t st else (t, st)
  ]

  unfoldable pub tcp_input : List ℕ → ℕ → Tcp → St → Tcp × St
  tcp_input seg src t st = elim (parse src (my_ip st) seg) [
    | none ↦ (t, st)
    | some g ↦ dispatch g src t st
  ]

  unfoldable pub deliver : List (List ℕ × ℕ) → Tcp → St → Tcp × St
  deliver [] t st = (t, st)
  deliver ((seg, src) ∷ segs) t st = let (t', st') = tcp_input seg src t st in deliver segs t' st'

  -- net_poll(), with the segments that it finds handed to `tcp_input` in order
  unfoldable pub net_poll : Tcp → St → Tcp × St
  net_poll t st = let (segs, st') = poll st in deliver segs t st'
