-- ===== src/Tcp/Transfer.antt =====
-- `tcp_send`, `tcp_recv` and `tcp_close` of pkg/stam/tcp.c. As in `Calls`, a null pointer is `none`,
-- and a loop that waits runs on fuel.
use verkos.Prelude.{
  ℕ, zero, suc, ◌+◌, ◌*◌, ◌/◌, true, false, not, ◌&&◌, Option, none, some, List, [], ◌∷◌, ltb, ◌==◌,
  if◌then◌else◌, length, take, drop, ℤ, pos, neg,
}
use verkos.Tcp.State.{
  Sock, free, listen, close_wait, fin_wait, closed, is, Tcp, sock_at, put_sock, seq_ge, add32, mss,
  retries,
}
use verkos.Tcp.Segment.{f_fin, f_psh, f_ack}
use verkos.Tcp.Input.{NetOps, send_seg, net_poll}
use verkos.Tcp.Calls.{is_open, read_len, take_out, poll_until, poll_for}

-- How the attempts to send one chunk end: it was acknowledged, no attempt was, or the call gives up
-- at once with an error number.
pub data Attempt : Type 0 where
  acked timed_out : Attempt
  gave_up : ℕ → Attempt

-- return sent ? (long)sent : -e;
abbrev pub partial : ℕ → ℕ → ℤ
partial sent e = if sent == 0 then neg e else pos sent

-- The tests of the inner loop of `tcp_send`.
unfoldable pub ack_test : ℕ → ℕ → Tcp → Option Attempt
ack_test i end t =
    if (sock_at t i).reset
    then some (gave_up 104)
    else if seq_ge (sock_at t i).snd_una end
    then some acked
    else none

-- What the loop of `tcp_recv` finds.
pub data Arrival : Type 0 where
  bytes was_reset ended : Arrival

unfoldable pub recv_test : ℕ → Tcp → Option Arrival
recv_test i t =
    if not ((sock_at t i).rxlen == 0)
    then some bytes
    else if (sock_at t i).reset
    then some was_reset
    else if (sock_at t i).fin_seen
    then some ended
    else none

-- The socket of `tcp_close` once the FIN, which takes a number of its own, has gone out.
unfoldable pub closing : Sock → Sock
closing s = record s {
  snd_nxt = add32 s.snd_nxt 1;
  state = if is s.state close_wait then closed else fin_wait;
}

module _ (net : NetOps) where
  open net use {St, wait, ticks, hz}

  -- for (try = 0; try < RETRIES && !acked; try++) …, from number `try` on
  unfoldable pub send_tries : ℕ → ℕ → ℕ → List ℕ → ℕ → ℕ → Tcp → St → Option (Attempt × Tcp × St)
  send_tries fuel i seq chunk zero try t st = some (timed_out, t, st)
  send_tries fuel i seq chunk (suc left) try t st =
      let (sent, st1) = send_seg net (sock_at t i) (f_ack + f_psh) seq chunk false st in
      let end = add32 seq (length chunk) in
      let round = poll_until net fuel (ticks st1 + (try + 1) * 20) (ack_test i end) t st1 in
      elim sent [
        | false ↦ some (gave_up 101, t, st1)
        | true ↦ elim round [
          | none ↦ none
          | some (some r, t', st') ↦ some (r, t', st')
          | some (none, t', st') ↦ send_tries fuel i seq chunk left (try + 1) t' st'
        ]
      ]

  -- while (sent < len) …: `rest` are the bytes not sent yet. A round takes a byte at least, so the
  -- first argument, the rounds allowed, is the number of bytes.
  unfoldable pub send_chunks : ℕ → ℕ → ℕ → ℕ → List ℕ → Tcp → St → Option (ℤ × Tcp × St)
  send_chunks rounds fuel i sent [] t st = some (pos sent, t, st)
  send_chunks zero fuel i sent (b ∷ rest) t st = none
  send_chunks (suc rounds) fuel i sent (b ∷ rest) t st =
      let chunk = take mss (b ∷ rest) in
      let seq = (sock_at t i).snd_nxt in
      let t1 = put_sock t i (record (sock_at t i) { snd_nxt = add32 seq (length chunk) }) in
      elim (send_tries fuel i seq chunk retries 0 t1 st) [
        | none ↦ none
        | some (gave_up e, t', st') ↦ some (partial sent e, t', st')
        | some (timed_out, t', st') ↦
            some (partial sent 110, put_sock t' i (record (sock_at t' i) { snd_nxt = seq }), st')
        | some (acked, t', st') ↦
            send_chunks rounds fuel i (sent + length chunk) (drop mss (b ∷ rest)) t' st'
      ]

  unfoldable pub tcp_send : ℕ → Option ℕ → List ℕ → Tcp → St → Option (ℤ × Tcp × St)
  tcp_send fuel none buf t st = some (neg 104, t, st)
  tcp_send fuel (some i) buf t st =
      if (sock_at t i).reset
      then some (neg 104, t, st)
      else if not (is_open (sock_at t i).state)
      then some (neg 107, t, st)
      else send_chunks (length buf) fuel i 0 buf t st

  -- The result and the bytes that are written to `buf`.
  unfoldable pub tcp_recv : ℕ → Option ℕ → ℕ → Tcp → St → Option (ℤ × List ℕ × Tcp × St)
  tcp_recv fuel none max t st = some (neg 104, [], t, st)
  tcp_recv fuel (some i) max t st =
      if (sock_at t i).reset
      then some (neg 104, [], t, st)
      else elim (poll_for net fuel (ticks st + hz * 5) (recv_test i) t st) [
        | none ↦ none
        | some (none, t', st') ↦ some (neg 11, [], t', st')
        | some (some was_reset, t', st') ↦ some (neg 104, [], t', st')
        | some (some ended, t', st') ↦ some (pos 0, [], t', st')
        | some (some bytes, t', st') ↦
            let (out, s) = take_out max (sock_at t' i) in
            some (pos (read_len max (sock_at t' i)), out, put_sock t' i s, st')
      ]

  -- while (timer_ticks() < deadline && s->state != T_CLOSED) { net_poll(); net_wait(1); }
  unfoldable pub drain : ℕ → ℕ → ℕ → Tcp → St → Option (Tcp × St)
  drain zero deadline i t st = none
  drain (suc fuel) deadline i t st =
      let (t', st') = net_poll net t st in
      let rest = drain fuel deadline i t' (wait st') in
      if ltb (ticks st) deadline && not (is (sock_at t i).state closed) then rest else some (t, st)

  abbrev free_sock : ℕ → Tcp → Tcp
  free_sock i t = put_sock t i (record (sock_at t i) { state = free })

  unfoldable pub tcp_close : ℕ → Option ℕ → Tcp → St → Option (Tcp × St)
  tcp_close fuel none t st = some (t, st)
  tcp_close fuel (some i) t st =
      let s = sock_at t i in
      if is s.state listen
      then some (free_sock i t, st)
      else if not (is_open s.state)
      then some (free_sock i t, st)
      else let st1 = (send_seg net s (f_ack + f_fin) s.snd_nxt [] false st).1 in
        elim (drain fuel (ticks st1 + hz / 2) i (put_sock t i (closing s)) st1) [
          | none ↦ none
          | some (t', st') ↦ some (free_sock i t', st')
        ]
