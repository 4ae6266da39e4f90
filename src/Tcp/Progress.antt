-- ===== src/Tcp/Progress.antt =====
-- The waits of pkg/stam/tcp.c end: once the clock reaches the deadline within the rounds that the
-- fuel allows, every call returns.
use verkos.Prelude.{
  ℕ, zero, suc, ◌+◌, ◌*◌, ◌/◌, ◌%◌, ◌^◌, ◌≤◌, ◌≡◌, refl, ◌≢◌, true, false, Option, none, some, List,
  [], ◌∷◌, arith, length, take, drop, length-drop, ℤ, pos, negsuc, find_index,
}
use verkos.Tcp.State.{Tcp, sock_at, put_sock, retries, mss, add32}
use verkos.Tcp.Segment.{f_syn, f_ack, f_fin, f_psh}
use verkos.Tcp.Input.{NetOps, net_poll, send_seg}
use verkos.Tcp.Calls.{
  poll_until, poll_for, tcp_accept, is_ready, connect_test, connect_tries, connecting, bump_port,
  tcp_connect,
}
use verkos.Tcp.Transfer.{
  Attempt, recv_test, tcp_recv, drain, closing, tcp_close, ack_test, send_tries, send_chunks,
  tcp_send,
}

module _ (net : NetOps) where
  open net use {St, wait, ticks, hz, counter}

  -- So many rounds of net_poll(); net_wait(1);
  unfoldable pub rounds : ℕ → Tcp → St → Tcp × St
  rounds zero t st = (t, st)
  rounds (suc k) t st = let (t', st') = net_poll net t st in rounds k t' (wait st')

  -- In `fuel` rounds the clock moves by at least `span` ticks, wherever they start.
  abbrev pub ClockRuns : ℕ → ℕ → Type 0
  ClockRuns span fuel = (t : Tcp) (st : St) → ticks st + span ≤ ticks (rounds fuel t st).1

  poll_until-ne-none {ℓ} :
      {R : Type ℓ} (k deadline : ℕ) (test : Tcp → Option R) (t : Tcp) (st : St)
      → deadline ≤ ticks (rounds k t st).1
      → poll_until net (suc k) deadline test t st ≢ none
  unfolding rounds poll_until
  poll_until-ne-none zero deadline test t st h = ground arith
  poll_until-ne-none (suc k) deadline test t st h = ground (
    arith,
    poll_until-ne-none k deadline test (net_poll net t st).0 (wait (net_poll net t st).1) h,
  )

  -- Polling does not turn the clock back.
  abbrev pub KeepsTime : Type 0
  KeepsTime = (t : Tcp) (st : St) → ticks st ≤ ticks (net_poll net t st).1

  poll_for-ne-none {ℓ} :
      {R : Type ℓ} (k deadline : ℕ) (test : Tcp → Option R) (t : Tcp) (st : St)
      → KeepsTime
      → deadline ≤ ticks (rounds k t st).1
      → poll_for net (suc k) deadline test t st ≢ none
  unfolding rounds poll_for
  poll_for-ne-none zero deadline test t st keeps h = ground (arith, keeps t st)
  poll_for-ne-none (suc k) deadline test t st keeps h = ground (
    arith,
    poll_for-ne-none k deadline test (net_poll net t st).0 (wait (net_poll net t st).1) keeps h,
  )

  drain-ne-none :
      (k deadline i : ℕ) (t : Tcp) (st : St)
      → deadline ≤ ticks (rounds k t st).1
      → drain net (suc k) deadline i t st ≢ none
  unfolding rounds drain
  drain-ne-none zero deadline i t st h = ground arith
  drain-ne-none (suc k) deadline i t st h =
      ground
        (arith, drain-ne-none k deadline i (net_poll net t st).0 (wait (net_poll net t st).1) h)

  -- `tcp_accept` returns if the clock can pass the time it was given.
  pub tcp_accept_total :
      (k wait_ticks : ℕ) (s : Option ℕ) (t : Tcp) (st : St)
      → KeepsTime
      → ClockRuns wait_ticks k
      → tcp_accept net (suc k) s wait_ticks t st ≢ none
  unfolding tcp_accept
  tcp_accept_total k wait_ticks none t st keeps runs = ground arith
  tcp_accept_total k wait_ticks (some i) t st keeps runs = ground (
    arith,
    poll_for-ne-none k (ticks st + wait_ticks) (λ u. find_index (is_ready i) u.socks) t st keeps
        (runs t st),
  )

  -- `tcp_recv` returns.
  pub tcp_recv_total :
      (k max : ℕ) (s : Option ℕ) (t : Tcp) (st : St)
      → KeepsTime
      → ClockRuns (hz * 5) k
      → tcp_recv net (suc k) s max t st ≢ none
  unfolding tcp_recv
  tcp_recv_total k max none t st keeps runs = ground arith
  tcp_recv_total k max (some i) t st keeps runs =
      ground (arith, poll_for-ne-none k (ticks st + hz * 5) (recv_test i) t st keeps (runs t st))

  -- The state below TCP once the FIN of `tcp_close` has gone out.
  abbrev fin_sent : ℕ → Tcp → St → St
  fin_sent i t st = (send_seg net (sock_at t i) (f_ack + f_fin) (sock_at t i).snd_nxt [] false st).1

  -- `tcp_close` returns.
  pub tcp_close_total :
      (k : ℕ) (s : Option ℕ) (t : Tcp) (st : St)
      → ClockRuns (hz / 2) k
      → tcp_close net (suc k) s t st ≢ none
  unfolding tcp_close
  tcp_close_total k none t st runs = ground arith
  tcp_close_total k (some i) t st runs = ground (
    arith,
    drain-ne-none k (ticks (fin_sent i t st) + hz / 2) i (put_sock t i (closing (sock_at t i)))
        (fin_sent i t st) (runs (put_sock t i (closing (sock_at t i))) (fin_sent i t st)),
  )

  connect_tries-ne-none :
      (k i iss left try : ℕ) (t : Tcp) (st : St)
      → try + left ≤ 6
      → ClockRuns 120 k
      → connect_tries net (suc k) i iss left try t st ≢ none
  unfolding connect_tries
  connect_tries-ne-none k i iss zero try t st h runs = ground arith
  connect_tries-ne-none k i iss (suc left) try t st h runs =
      go (λ t' st'. connect_tries-ne-none k i iss left (try + 1) t' st' (omega arith) runs)
        (poll_until net (suc k) d (connect_test i) t st1) refl
    where
      st1 : St
      st1 = (send_seg net (sock_at t i) f_syn iss [] true st).1

      d : ℕ
      d = ticks st1 + (try + 1) * 20

      go :
          ((t' : Tcp) (st' : St) → connect_tries net (suc k) i iss left (try + 1) t' st' ≢ none)
          → (r : Option (Option ℤ × Tcp × St)) → poll_until net (suc k) d (connect_test i) t st1 ≡ r
          → connect_tries net (suc k) i iss (suc left) try t st ≢ none
      go ih none e =
          absurd (poll_until-ne-none k d (connect_test i) t st1 (omega (arith, runs t st1)) e)
      go ih (some (none, t', st')) e = ground (arith, ih t' st')
      go ih (some (some (pos n), t', st')) e = ground arith
      go ih (some (some (negsuc n), t', st')) e = ground arith

  -- `tcp_connect` returns, with all its attempts.
  pub tcp_connect_total :
      (k : ℕ) (s : Option ℕ) (ip port : ℕ) (t : Tcp) (st : St)
      → ClockRuns 120 k
      → tcp_connect net (suc k) s ip port t st ≢ none
  unfolding tcp_connect
  tcp_connect_total k none ip port t st runs = ground arith
  tcp_connect_total k (some i) ip port t st runs = ground (
    arith,
    connect_tries-ne-none k i (counter st % 2 ^ 32) retries 0
        (record (put_sock t i
          (connecting ip port t.next_port (counter st % 2 ^ 32) (sock_at t i))) {
            next_port = bump_port t.next_port;
          })
        st (omega arith) runs,
  )

  send_tries-ne-none :
      (k i seq : ℕ) (chunk : List ℕ) (left try : ℕ) (t : Tcp) (st : St)
      → try + left ≤ 6
      → ClockRuns 120 k
      → send_tries net (suc k) i seq chunk left try t st ≢ none
  unfolding send_tries
  send_tries-ne-none k i seq chunk zero try t st h runs = ground arith
  send_tries-ne-none k i seq chunk (suc left) try t st h runs =
      go (λ t' st'. send_tries-ne-none k i seq chunk left (try + 1) t' st' (omega arith) runs)
        (poll_until net (suc k) d (ack_test i end) t st1) refl
    where
      st1 : St
      st1 = (send_seg net (sock_at t i) (f_ack + f_psh) seq chunk false st).1

      d : ℕ
      d = ticks st1 + (try + 1) * 20

      end : ℕ
      end = add32 seq (length chunk)

      go :
          ((t' : Tcp) (st' : St) → send_tries net (suc k) i seq chunk left (try + 1) t' st' ≢ none)
          → (r : Option (Option Attempt × Tcp × St))
          → poll_until net (suc k) d (ack_test i end) t st1 ≡ r
          → send_tries net (suc k) i seq chunk (suc left) try t st ≢ none
      go ih none e =
          absurd (poll_until-ne-none k d (ack_test i end) t st1 (omega (arith, runs t st1)) e)
      go ih (some (none, t', st')) e = ground (arith, ih t' st')
      go ih (some (some r, t', st')) e = ground arith

  send_chunks-ne-none :
      (rounds_left k i sent : ℕ) (rest : List ℕ) (t : Tcp) (st : St)
      → length rest ≤ rounds_left
      → ClockRuns 120 k
      → send_chunks net rounds_left (suc k) i sent rest t st ≢ none
  unfolding send_chunks
  send_chunks-ne-none n k i sent [] t st h runs = ground arith
  send_chunks-ne-none zero k i sent (b ∷ rest) t st h runs = absurd (omega arith)
  send_chunks-ne-none (suc n) k i sent (b ∷ rest) t st h runs =
      go
        (λ m t' st'.
          send_chunks-ne-none n k i m (drop mss (b ∷ rest)) t' st'
            (omega (arith, length-drop mss (b ∷ rest))) runs)
        (send_tries net (suc k) i seq chunk retries 0 t1 st) refl
    where
      chunk : List ℕ
      chunk = take mss (b ∷ rest)

      seq : ℕ
      seq = (sock_at t i).snd_nxt

      t1 : Tcp
      t1 = put_sock t i (record (sock_at t i) { snd_nxt = add32 seq (length chunk) })

      go :
          ((m : ℕ) (t' : Tcp) (st' : St)
            → send_chunks net n (suc k) i m (drop mss (b ∷ rest)) t' st' ≢ none)
          → (r : Option (Attempt × Tcp × St))
          → send_tries net (suc k) i seq chunk retries 0 t1 st ≡ r
          → send_chunks net (suc n) (suc k) i sent (b ∷ rest) t st ≢ none
      go ih none e = absurd (send_tries-ne-none k i seq chunk retries 0 t1 st (omega arith) runs e)
      go ih (some (Attempt.gave_up x, t', st')) e = ground arith
      go ih (some (Attempt.timed_out, t', st')) e = ground arith
      go ih (some (Attempt.acked, t', st')) e = ground (arith, ih (sent + length chunk) t' st')

  -- `tcp_send` returns, whatever the length of the data.
  pub tcp_send_total :
      (k : ℕ) (s : Option ℕ) (buf : List ℕ) (t : Tcp) (st : St)
      → ClockRuns 120 k
      → tcp_send net (suc k) s buf t st ≢ none
  unfolding tcp_send
  tcp_send_total k none buf t st runs = ground arith
  tcp_send_total k (some i) buf t st runs =
      ground (arith, send_chunks-ne-none (length buf) k i 0 buf t st (omega arith) runs)

  -- Each of the five calls that wait returns once the clock can pass the time that the call was given:
  -- a peer that is silent, a connection that fails and data of any length included.
  pub calls_total :
      (k wait_ticks : ℕ) (s : Option ℕ) (ip port max : ℕ) (buf : List ℕ) (t : Tcp) (st : St)
      → KeepsTime
      → ClockRuns (wait_ticks + hz * 5) k
      → ClockRuns 120 k
      → (tcp_accept net (suc k) s wait_ticks t st ≢ none)
        × (tcp_recv net (suc k) s max t st ≢ none)
        × (tcp_connect net (suc k) s ip port t st ≢ none)
        × (tcp_send net (suc k) s buf t st ≢ none)
        × (tcp_close net (suc k) s t st ≢ none)
  calls_total k wait_ticks s ip port max buf t st keeps runs tries = (
    tcp_accept_total k wait_ticks s t st keeps (λ u v. omega (arith, runs u v)),
    tcp_recv_total k max s t st keeps (λ u v. omega (arith, runs u v)),
    tcp_connect_total k s ip port t st tries,
    tcp_send_total k s buf t st tries,
    tcp_close_total k s t st (λ u v. omega (arith, runs u v)),
  )
