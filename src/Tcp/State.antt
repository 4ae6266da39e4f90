-- ===== src/Tcp/State.antt =====
-- The state of pkg/stam/tcp.c: `struct tcp_sock`, the table `socks` and `next_port`; and sequence
-- arithmetic. A pointer to a socket is its index in the table.
use verkos.Prelude.{
  ℕ, ◌+◌, ◌-◌, ◌%◌, ◌^◌, Bool, false, Option, none, List, ltb, ◌==◌, get_or, set, replicate,
}

abbrev pub ntcp : ℕ
ntcp = 6

abbrev pub rxbuf : ℕ
rxbuf = 4096

abbrev pub mss : ℕ
mss = 1400

abbrev pub retries : ℕ
retries = 6

pub data SockState : Type 0 where
  free listen syn_sent syn_rcvd established close_wait fin_wait closed : SockState

-- the value of the enumeration
abbrev pub code : SockState → ℕ
code free = 0
code listen = 1
code syn_sent = 2
code syn_rcvd = 3
code established = 4
code close_wait = 5
code fin_wait = 6
code closed = 7

abbrev pub is : SockState → SockState → Bool
is a b = code a == code b

-- `rx` is the whole array; its first `rxlen` bytes have arrived and were not read.
pub record Sock : Type 0 where
  pub state : SockState
  pub lport : ℕ
  pub rport : ℕ
  pub rip : ℕ
  pub snd_nxt : ℕ
  pub snd_una : ℕ
  pub rcv_nxt : ℕ
  pub rx : List ℕ
  pub rxlen : ℕ
  pub fin_seen : Bool
  pub reset : Bool
  pub parent : Option ℕ

pub record Tcp : Type 0 where
  pub socks : List Sock
  pub next_port : ℕ

-- A zeroed entry of the static table.
abbrev pub blank : Sock
blank = record {
  state = free;
  lport = 0;
  rport = 0;
  rip = 0;
  snd_nxt = 0;
  snd_una = 0;
  rcv_nxt = 0;
  rx = replicate rxbuf 0;
  rxlen = 0;
  fin_seen = false;
  reset = false;
  parent = none;
}

-- `socks[i]`
abbrev pub sock_at : Tcp → ℕ → Sock
sock_at t i = get_or t.socks i blank

abbrev pub put_sock : Tcp → ℕ → Sock → Tcp
put_sock t i s = record t { socks = set t.socks i s }

-- `(int32_t)(a - b) >= 0`, on `uint32_t`
unfoldable pub seq_ge : ℕ → ℕ → Bool
seq_ge a b = ltb ((a + 2 ^ 32 - b) % 2 ^ 32) (2 ^ 31)

abbrev pub add32 : ℕ → ℕ → ℕ
add32 a b = (a + b) % 2 ^ 32
