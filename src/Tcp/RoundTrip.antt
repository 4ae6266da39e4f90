-- ===== src/Tcp/RoundTrip.antt =====
-- A segment that `send_seg` of pkg/stam/tcp.c writes is one that `tcp_input` reads.
use verkos.Prelude.{
  ℕ, ◌^◌, ◌≤◌, ◌<◌, ◌≡◌, refl, Bool, true, false, some, List, [], ◌∷◌, ◌++◌, arith, length,
  length-append,
}
use verkos.Net.Wire.{put16, put32, get16, get32}
use verkos.Net.Checksum.{net_ip_checksum_with_pseudo, checksum_verifies, IsBytes}
use verkos.Tcp.State.{Sock}
use verkos.Tcp.Segment.{Segment, header, header_len, build, parse}

-- The fields of a socket that go into a segment, in the ranges of their C types.
pub record IsWire (s : Sock) : Type 0 where
  pub lport_lt : s.lport < 2 ^ 16
  pub rport_lt : s.rport < 2 ^ 16
  pub rip_lt : s.rip < 2 ^ 32
  pub rcv_nxt_lt : s.rcv_nxt < 2 ^ 32

unfoldable pub sent_segment : Sock → ℕ → ℕ → List ℕ → Segment
sent_segment s flags seq body = record {
  sport = s.lport;
  dport = s.rport;
  seq = seq;
  ack = s.rcv_nxt;
  flags = flags;
  body = body;
}

header-IsBytes :
    (s : Sock) (flags seq : ℕ) (m : Bool) → flags < 256 → IsBytes (header s flags seq m)
unfolding header put16 put32
header-IsBytes s flags seq true h = omega arith
header-IsBytes s flags seq false h = omega arith

append-IsBytes : (p q : List ℕ) → IsBytes p → IsBytes q → IsBytes (p ++ q)
append-IsBytes [] q h k = k
append-IsBytes (a ∷ p) q h k = (h.0, append-IsBytes p q h.1 k)

length-header : (s : Sock) (flags seq : ℕ) (m : Bool) → length (header s flags seq m) ≡ header_len m
unfolding header put16 put32
length-header s flags seq true = refl
length-header s flags seq false = refl

-- The checksum field of the unfinished segment is zero.
field_zero :
    (s : Sock) (flags seq : ℕ) (body : List ℕ) (m : Bool)
    → get16 (header s flags seq m ++ body) 16 ≡ 0
unfolding header put16 put32 get16
field_zero s flags seq body true = refl
field_zero s flags seq body false = refl

-- Whatever the checksum is, a segment that carries it keeps its fields.
parse_fields :
    (src dst c flags seq : ℕ) (s : Sock) (body : List ℕ) (m : Bool)
    → IsWire s
    → seq < 2 ^ 32
    → net_ip_checksum_with_pseudo src dst 6 (put16 (header s flags seq m ++ body) 16 c) ≡ 0
    → parse src dst (put16 (header s flags seq m ++ body) 16 c)
      ≡ some (sent_segment s flags seq body)
unfolding header put16 put32 get16 get32 parse sent_segment
parse_fields src dst c flags seq s body true w hs z = ground arith
parse_fields src dst c flags seq s body false w hs z = ground arith

-- Every segment that `send_seg` builds, with or without the option, for a socket whose fields fit
-- their types and at most a segment's worth of bytes, passes the checks of `tcp_input` at the other
-- end, which reads the same ports, numbers, flags and bytes.
pub parse-build :
    (my_ip flags seq : ℕ) (s : Sock) (body : List ℕ) (m : Bool)
    → IsWire s
    → my_ip < 2 ^ 32
    → flags < 256
    → seq < 2 ^ 32
    → IsBytes body
    → length body ≤ 1400
    → parse my_ip s.rip (build my_ip s flags seq body m) ≡ some (sent_segment s flags seq body)
unfolding build
parse-build my_ip flags seq s body m w hi hf hs hb hl =
    parse_fields my_ip s.rip _ flags seq s body m w hs (
      checksum_verifies my_ip s.rip 6 (header s flags seq m ++ body) 8 hi w.rip_lt (omega arith)
        (omega arith)
        (append-IsBytes (header s flags seq m) body (header-IsBytes s flags seq m hf) hb) size.0
        size.1 (field_zero s flags seq body m))
  where
    size :
        (length (header s flags seq m ++ body) < 2 ^ 16)
        × (17 < length (header s flags seq m ++ body))
    size = ground (arith, length-append (header s flags seq m) body, length-header s flags seq m)
