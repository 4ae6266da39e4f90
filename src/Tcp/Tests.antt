-- ===== src/Tcp/Tests.antt =====
-- pkg/stam/tcp.c on concrete inputs: a card with a script of arrivals and a clock that ticks once a
-- wait.
use verkos.Prelude.{
  ℕ, zero, suc, ◌+◌, ◌*◌, min, ◌≡◌, refl, ◌∙◌, ◌≢◌, ◌⊎◌, true, false, none, some, List, [], ◌∷◌,
  ◌++◌, arith, take, replicate, min,
}
use verkos.Tcp.State.{established, close_wait, Sock, Tcp, blank, sock_at, seq_ge}
use verkos.Tcp.Segment.{Segment, build, parse, f_ack, f_fin, f_syn}
use verkos.Tcp.Input.{
  on_stream, on_data, on_fin, take_ack, take_data, copy_in, send_ack, send_seg, after_fin, NetOps,
  conn_input, accepted, deliver, net_poll, tcp_input,
}
use verkos.Tcp.Calls.{take_out, shift_down, connecting, tcp_accept}
use verkos.Tcp.Transfer.{tcp_recv, tcp_send, tcp_close}
use verkos.Tcp.Sequence.{seq_ge_antisymm}
use verkos.Tcp.RoundTrip.{sent_segment, parse-build}
use verkos.Tcp.Invariant.{IsValid, IsTable, blank-IsValid, tcp_input-IsTable}
use verkos.Tcp.Delivery.{readable}
use verkos.Tcp.Stream.{Event, arrives, reads, IsSlice, AreEvents, Follows, run, run-Follows}
use verkos.Tcp.Machine.{fin_in_order}
use verkos.Tcp.Handshake.{handshake}
use verkos.Tcp.Isolation.{Touched, tcp_input-Touched}
use verkos.Tcp.Progress.{ClockRuns, KeepsTime, rounds, calls_total}
use verkos.Tcp.Calls.{tcp_connect}

record Card : Type 0 where
  clock : ℕ
  arrivals : List (List (List ℕ × ℕ))
  sent : List (ℕ × List ℕ)

abbrev next_arrivals : List (List (List ℕ × ℕ)) → List (List ℕ × ℕ)
next_arrivals [] = []
next_arrivals (a ∷ as') = a

abbrev later_arrivals : List (List (List ℕ × ℕ)) → List (List (List ℕ × ℕ))
later_arrivals [] = []
later_arrivals (a ∷ as') = as'

abbrev card : NetOps
card = record {
  St = Card;
  my_ip = λ c. 7;
  present = λ c. true;
  ip_send = λ dst seg c. (true, record c { sent = (dst, seg) ∷ c.sent });
  poll = λ c. (next_arrivals c.arrivals, record c { arrivals = later_arrivals c.arrivals });
  wait = λ c. record c { clock = c.clock + 1 };
  ticks = λ c. c.clock;
  hz = 1;
  counter = λ c. c.clock + 500;
}

abbrev quiet : Card
quiet = record { clock = 0; arrivals = []; sent = [] }

abbrev connection : Sock
connection = record blank {
  state = established;
  lport = 40000;
  rport = 80;
  rip = 9;
  snd_nxt = 100;
  snd_una = 100;
  rcv_nxt = 5;
}

abbrev table : Tcp
table = record { socks = connection ∷ replicate 5 blank; next_port = 40001 }

connection-IsValid : IsValid connection
connection-IsValid = let b = blank-IsValid in ground (arith, b)

data_at : ℕ → List ℕ → Segment
data_at seq body = record {
  sport = 80;
  dport = 40000;
  seq = seq;
  ack = 100;
  flags = f_ack;
  body = body;
}

seq_ge_antisymm_example : ◌≡◌ {A = ℕ} 7 7
unfolding seq_ge
seq_ge_antisymm_example = seq_ge_antisymm 7 7 (omega arith) (omega arith) refl refl

parse-build_example :
    parse 7 9 (build 7 connection 24 100 (1 ∷ 2 ∷ 3 ∷ []) false)
    ≡ some (sent_segment connection 24 100 (1 ∷ 2 ∷ 3 ∷ []))
parse-build_example =
    parse-build 7 24 100 connection (1 ∷ 2 ∷ 3 ∷ []) false (omega arith) (omega arith) (omega arith)
      (omega arith) (omega arith) (omega arith)

-- The blank table with one connection.
table-IsTable : IsTable table
table-IsTable = record { size = refl; valid = valid; port_ge = omega arith; port_lt = omega arith }
  where
    valid : (i : ℕ) → IsValid (sock_at table i)
    valid zero = connection-IsValid
    valid (suc zero) = blank-IsValid
    valid (suc (suc zero)) = blank-IsValid
    valid (suc (suc (suc zero))) = blank-IsValid
    valid (suc (suc (suc (suc zero)))) = blank-IsValid
    valid (suc (suc (suc (suc (suc zero))))) = blank-IsValid
    valid (suc (suc (suc (suc (suc (suc i)))))) = blank-IsValid

tcp_input-IsTable_example : IsTable (tcp_input card (0 ∷ 80 ∷ 156 ∷ 64 ∷ []) 9 table quiet).0
tcp_input-IsTable_example =
    tcp_input-IsTable card (0 ∷ 80 ∷ 156 ∷ 64 ∷ []) 9 table quiet (omega arith) (omega arith)
      table-IsTable

tcp_input-Touched_example :
    let s' = sock_at (tcp_input card (0 ∷ 80 ∷ []) 9 table quiet).0 0 in
    ((parse 9 7 (0 ∷ 80 ∷ []) ≡ none) × (s' ≡ connection))
    ⊎ ((g : Segment) × (parse 9 7 (0 ∷ 80 ∷ []) ≡ some g) × Touched g 9 connection s')
tcp_input-Touched_example = tcp_input-Touched card (0 ∷ 80 ∷ []) 9 table quiet 0

-- The stream 10 20 30 40 behind number 5, in two segments that arrive in the wrong order, the
-- second one twice, with a read between.
abbrev stream : List ℕ
stream = 10 ∷ 20 ∷ 30 ∷ 40 ∷ []

abbrev history : List Event
history =
    arrives (data_at 7 (30 ∷ 40 ∷ []))
    ∷ arrives (data_at 5 (10 ∷ 20 ∷ []))
    ∷ reads 1
    ∷ arrives (data_at 7 (30 ∷ 40 ∷ []))
    ∷ []

history-AreEvents : AreEvents stream 5 history
unfolding data_at
history-AreEvents = (late, (first, (tt, (late, tt))))
  where
    late : IsSlice stream 5 (data_at 7 (30 ∷ 40 ∷ []))
    late = record {
      off = 2;
      well_formed = omega arith;
      plain = (refl, refl);
      place = refl;
      within = omega arith;
      content = refl;
    }

    first : IsSlice stream 5 (data_at 5 (10 ∷ 20 ∷ []))
    first = record {
      off = 0;
      well_formed = omega arith;
      plain = (refl, refl);
      place = refl;
      within = omega arith;
      content = refl;
    }

connection-Follows : Follows stream 5 [] connection
connection-Follows = record {
  k = 0;
  valid = connection-IsValid;
  open_state = refl;
  within = omega arith;
  next = refl;
  content = refl;
}

run-Follows_example :
    let (out, s, st) = run card history ([], connection, quiet) in Follows stream 5 out s
run-Follows_example =
    run-Follows card stream 5 history [] connection quiet (omega arith) history-AreEvents
      connection-Follows

-- What the reader of that history sees.
history_out : (run card history ([], connection, quiet)).0 ≡ 10 ∷ []
unfolding run conn_input on_stream on_data on_fin take_ack take_data copy_in send_ack send_seg
    take_out shift_down data_at seq_ge
history_out = refl

-- A FIN with ten bytes when there is room for one.
abbrev nearly_full : Sock
nearly_full = record connection { rxlen = 4095 }

nearly_full-IsValid : IsValid nearly_full
nearly_full-IsValid = let v = connection-IsValid in ground (arith, v)

last_segment : Segment
last_segment = record {
  sport = 80;
  dport = 40000;
  seq = 5;
  ack = 100;
  flags = f_ack + f_fin;
  body = 1 ∷ 2 ∷ 3 ∷ 4 ∷ [];
}

fin_in_order_example :
    let s' = (conn_input card last_segment nearly_full quiet).0 in
    (readable s' ≡ readable nearly_full ++ take (min 4 1) (1 ∷ 2 ∷ 3 ∷ 4 ∷ []))
    × (s'.rcv_nxt ≡ 10)
    × (s'.fin_seen ≡ true)
    × (s'.state ≡ close_wait)
unfolding last_segment after_fin
fin_in_order_example =
    fin_in_order card last_segment nearly_full quiet (omega arith) nearly_full-IsValid refl refl
      refl (omega arith) refl

handshake_example :
    let a1 = connecting 9 80 40000 500 blank in
    let syn = sent_segment a1 f_syn 500 [] in
    let b1 = accepted syn 7 0 900 blank in
    let a2 = (conn_input card (sent_segment b1 (f_syn + f_ack) 900 []) a1 quiet).0 in
    let b2 = (conn_input card (sent_segment a2 f_ack a2.snd_nxt []) b1 quiet).0 in
    (a2.state ≡ established)
    × (b2.state ≡ established)
    × (a2.rcv_nxt ≡ b2.snd_nxt)
    × (b2.rcv_nxt ≡ a2.snd_nxt)
    × (a2.snd_una ≡ a2.snd_nxt)
    × (b2.snd_una ≡ b2.snd_nxt)
    × (a2.rport ≡ b2.lport)
    × (b2.rport ≡ a2.lport)
handshake_example =
    handshake card card blank blank quiet quiet 7 9 40000 80 500 900 0 (omega arith) (omega arith)

-- A card on which nothing arrives: its state is the clock.
abbrev silent : NetOps
silent = record {
  St = ℕ;
  my_ip = λ c. 7;
  present = λ c. true;
  ip_send = λ dst seg c. (true, c);
  poll = λ c. ([], c);
  wait = λ c. c + 1;
  ticks = λ c. c;
  hz = 1;
  counter = λ c. c + 500;
}

silent_clock : (k : ℕ) (t : Tcp) (c : ℕ) → (rounds silent k t c).1 ≡ c + k
unfolding rounds net_poll deliver
silent_clock zero t c = omega arith
silent_clock (suc k) t c = silent_clock k t (c + 1) ∙ omega arith

silent-ClockRuns : (k : ℕ) → ClockRuns silent k k
silent-ClockRuns k t c = omega (arith, silent_clock k t c)

silent_KeepsTime : KeepsTime silent
unfolding net_poll deliver
silent_KeepsTime t c = omega arith

silent_longer : ClockRuns silent (3 + silent.hz * 5) 120
silent_longer t c = omega (arith, silent_clock 120 t c)

calls_total_example :
    (tcp_accept silent 121 (some 0) 3 table 0 ≢ none)
    × (tcp_recv silent 121 (some 0) 100 table 0 ≢ none)
    × (tcp_connect silent 121 (some 0) 9 80 table 0 ≢ none)
    × (tcp_send silent 121 (some 0) (1 ∷ 2 ∷ 3 ∷ []) table 0 ≢ none)
    × (tcp_close silent 121 (some 0) table 0 ≢ none)
calls_total_example =
    calls_total silent 120 3 (some 0) 9 80 100 (1 ∷ 2 ∷ 3 ∷ []) table 0 silent_KeepsTime
      silent_longer (silent-ClockRuns 120)
