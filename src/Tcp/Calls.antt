-- ===== src/Tcp/Calls.antt =====
-- The calls of pkg/stam/tcp.c: open, bind, listen, accept, connect, send, receive and close. A null
-- pointer is `none`. A loop that waits runs on fuel, and `none` means that the fuel ran out.
use verkos.Prelude.{
  ℕ, zero, suc, ◌+◌, ◌-◌, ◌*◌, ◌%◌, ◌^◌, Bool, true, false, not, ◌&&◌, ◌||◌, Option, none, some,
  List, [], ◌∷◌, ltb, leb, ◌==◌, if◌then◌else◌, get_or, set, take, ℤ, pos, negsuc, neg, find_index,
}
use verkos.Tcp.State.{
  SockState, free, listen, syn_sent, established, close_wait, closed, is, Sock, Tcp, sock_at,
  put_sock, add32, retries,
}
use verkos.Tcp.Segment.{f_syn}
use verkos.Tcp.Input.{NetOps, send_seg, net_poll}

unfoldable pub tcp_open : Tcp → Option ℕ × Tcp
tcp_open t = elim (find_index (λ s. is s.state free) t.socks) [
  | none ↦ (none, t)
  | some i ↦ (
    some i,
    put_sock t i (record (sock_at t i) {
      state = closed;
      rxlen = 0;
      fin_seen = false;
      reset = false;
      lport = 0;
      rport = 0;
      rip = 0;
      parent = none;
    }),
  )
]

-- Whether another socket than `i` listens on the port; `k` is the index of the head of the list.
unfoldable pub port_listens : ℕ → ℕ → ℕ → List Sock → Bool
port_listens i port k [] = false
port_listens i port k (s ∷ ss) =
    (not (k == i) && is s.state listen && s.lport == port) || port_listens i port (k + 1) ss

unfoldable pub tcp_bind : Option ℕ → ℕ → Tcp → ℤ × Tcp
tcp_bind none port t = (neg 22, t)
tcp_bind (some i) port t =
    if not (is (sock_at t i).state closed)
    then (neg 22, t)
    else if port_listens i port 0 t.socks
    then (neg 98, t)
    else (pos 0, put_sock t i (record (sock_at t i) { lport = port }))

-- `present` is net_present().
unfoldable pub tcp_listen : Bool → Option ℕ → Tcp → ℤ × Tcp
tcp_listen present none t = (neg 22, t)
tcp_listen present (some i) t =
    let s = sock_at t i in
    if not (is s.state closed) || not present
    then (neg 22, t)
    else if s.lport == 0
    then (neg 22, t)
    else if port_listens i s.lport 0 t.socks
    then (neg 98, t)
    else (pos 0, put_sock t i (record s { rport = 0; rip = 0; parent = none; state = listen }))

unfoldable pub tcp_peer_ip : Option ℕ → Tcp → ℕ
tcp_peer_ip none t = 0
tcp_peer_ip (some i) t = (sock_at t i).rip

unfoldable pub tcp_peer_port : Option ℕ → Tcp → ℕ
tcp_peer_port none t = 0
tcp_peer_port (some i) t = (sock_at t i).rport

abbrev pub is_open : SockState → Bool
is_open st = is st established || is st close_wait

unfoldable pub tcp_state_established : Option ℕ → Tcp → Bool
tcp_state_established none t = false
tcp_state_established (some i) t = is_open (sock_at t i).state

abbrev pub same_sock : Option ℕ → ℕ → Bool
same_sock none i = false
same_sock (some j) i = j == i

-- A connection of the listener `i` that finished its handshake.
unfoldable pub is_ready : ℕ → Sock → Bool
is_ready i s = same_sock s.parent i && is_open s.state

-- for (k = n; k < rxlen; k++) rx[k - n] = rx[k];  with `count` rounds left
unfoldable pub shift_down : ℕ → ℕ → ℕ → List ℕ → List ℕ
shift_down zero n k rx = rx
shift_down (suc count) n k rx = shift_down count n (k + 1) (set rx (k - n) (get_or rx k 0))

-- n = s->rxlen < max ? s->rxlen : max
abbrev pub read_len : ℕ → Sock → ℕ
read_len max s = if ltb s.rxlen max then s.rxlen else max

-- What `tcp_recv` takes out of the buffer: at most `max` bytes.
unfoldable pub take_out : ℕ → Sock → List ℕ × Sock
take_out max s =
    let n = read_len max s in
    (take n s.rx, record s { rx = shift_down (s.rxlen - n) n n s.rx; rxlen = s.rxlen - n })

-- The new socket of `tcp_connect` before the first segment goes out.
unfoldable pub connecting : ℕ → ℕ → ℕ → ℕ → Sock → Sock
connecting ip port lport iss s = record s {
  snd_una = iss;
  snd_nxt = add32 iss 1;
  rcv_nxt = 0;
  rip = ip;
  rport = port;
  lport = lport;
  state = syn_sent;
}

-- next_port++, which wraps to the first ephemeral port
unfoldable pub bump_port : ℕ → ℕ
bump_port p = let q = (p + 1) % 2 ^ 16 in if ltb q 40000 then 40000 else q

-- The tests of the inner loop of `tcp_connect`.
unfoldable pub connect_test : ℕ → Tcp → Option ℤ
connect_test i t =
    if (sock_at t i).reset
    then some (neg 111)
    else if is (sock_at t i).state established
    then some (pos 0)
    else none

abbrev pub close_sock : ℕ → Tcp → Tcp
close_sock i t = put_sock t i (record (sock_at t i) { state = closed })

module _ (net : NetOps) where
  open net use {St, present, wait, ticks, hz, counter}

  -- while (timer_ticks() < deadline) { net_poll(); if (test) return …; net_wait(1); }
  -- The result `none` means that the deadline passed.
  unfoldable pub poll_until {ℓ} :
      {R : Type ℓ} → ℕ → ℕ → (Tcp → Option R) → Tcp → St → Option (Option R × Tcp × St)
  poll_until zero deadline test t st = none
  poll_until (suc fuel) deadline test t st =
      let (t', st') = net_poll net t st in
      let rest = poll_until fuel deadline test t' (wait st') in
      if ltb (ticks st) deadline
      then elim (test t') [ some r ↦ some (some r, t', st') | none ↦ rest ]
      else some (none, t, st)

  -- for (;;) { net_poll(); if (test) return …; if (timer_ticks() >= deadline) return …; net_wait(1); }
  unfoldable pub poll_for {ℓ} :
      {R : Type ℓ} → ℕ → ℕ → (Tcp → Option R) → Tcp → St → Option (Option R × Tcp × St)
  poll_for zero deadline test t st = none
  poll_for (suc fuel) deadline test t st =
      let (t', st') = net_poll net t st in
      let rest = poll_for fuel deadline test t' (wait st') in
      elim (test t') [
        | some r ↦ some (some r, t', st')
        | none ↦ if leb deadline (ticks st') then some (none, t', st') else rest
      ]

  unfoldable pub tcp_accept : ℕ → Option ℕ → ℕ → Tcp → St → Option (Option ℕ × Tcp × St)
  tcp_accept fuel none wait_ticks t st = some (none, t, st)
  tcp_accept fuel (some i) wait_ticks t st =
      if not (is (sock_at t i).state listen)
      then some (none, t, st)
      else elim (poll_for fuel (ticks st + wait_ticks) (λ u. find_index (is_ready i) u.socks) t
          st) [
            | none ↦ none
            | some (none, t', st') ↦ some (none, t', st')
            | some (some j, t', st') ↦
                some (some j, put_sock t' j (record (sock_at t' j) { parent = none }), st')
          ]

  -- The attempts of `tcp_connect`, from number `try` on.
  unfoldable pub connect_tries : ℕ → ℕ → ℕ → ℕ → ℕ → Tcp → St → Option (ℤ × Tcp × St)
  connect_tries fuel i iss zero try t st = some (neg 110, close_sock i t, st)
  connect_tries fuel i iss (suc left) try t st =
      let (sent, st1) = send_seg net (sock_at t i) f_syn iss [] true st in
      let round = poll_until fuel (ticks st1 + (try + 1) * 20) (connect_test i) t st1 in
      elim sent [
        | false ↦ some (neg 110, close_sock i t, st1)
        | true ↦ elim round [
          | none ↦ none
          | some (some (pos n), t', st') ↦ some (pos n, t', st')
          | some (some (negsuc n), t', st') ↦ some (negsuc n, close_sock i t', st')
          | some (none, t', st') ↦ connect_tries fuel i iss left (try + 1) t' st'
        ]
      ]

  unfoldable pub tcp_connect : ℕ → Option ℕ → ℕ → ℕ → Tcp → St → Option (ℤ × Tcp × St)
  tcp_connect fuel none ip port t st = some (neg 1, t, st)
  tcp_connect fuel (some i) ip port t st =
      if not (is (sock_at t i).state closed) || not (present st)
      then some (neg 1, t, st)
      else let iss = counter st % 2 ^ 32 in
        let s = connecting ip port t.next_port iss (sock_at t i) in
        connect_tries fuel i iss retries 0
          (record (put_sock t i s) { next_port = bump_port t.next_port }) st
