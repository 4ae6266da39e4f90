-- ===== src/Tcp/Segment.antt =====
-- A segment on the wire: what `send_seg` of pkg/stam/tcp.c writes, and what `tcp_input` reads.
use verkos.Prelude.{
  ℕ, ◌+◌, ◌-◌, ◌*◌, ◌/◌, ◌%◌, ◌^◌, Bool, not, ◌||◌, Option, none, some, List, ◌++◌, ltb, ◌==◌,
  if◌then◌else◌, length, get_or, set, drop, replicate,
}
use verkos.Net.Wire.{put16, put32, get16, get32, byte}
use verkos.Net.Checksum.{net_ip_checksum_with_pseudo}
use verkos.Tcp.State.{Sock, rxbuf, mss}

abbrev pub f_fin : ℕ
f_fin = 0x01

abbrev pub f_syn : ℕ
f_syn = 0x02

abbrev pub f_rst : ℕ
f_rst = 0x04

abbrev pub f_psh : ℕ
f_psh = 0x08

abbrev pub f_ack : ℕ
f_ack = 0x10

-- `flags & f`, for one of the single bits above
abbrev pub has : ℕ → ℕ → Bool
has flags f = flags / f % 2 == 1

abbrev pub header_len : Bool → ℕ
header_len with_mss = if with_mss then 24 else 20

-- The header with a zero checksum field. The window is `(uint16_t)(RXBUF - s->rxlen)`, where the
-- subtraction is on 32 bits.
unfoldable pub header : Sock → ℕ → ℕ → Bool → List ℕ
header s flags seq with_mss =
    let hlen = header_len with_mss in
    let p = put16 (replicate hlen 0) 0 s.lport in
    let p = put16 p 2 s.rport in
    let p = put32 p 4 seq in
    let p = put32 p 8 s.rcv_nxt in
    let p = set p 12 (byte (hlen / 4 * 16)) in
    let p = set p 13 flags in
    let p = put16 p 14 ((2 ^ 32 + rxbuf - s.rxlen) % 2 ^ 16) in
    if with_mss then put16 (set (set p 20 2) 21 4) 22 mss else p

-- The bytes that `send_seg` hands to `net_ip_send`.
unfoldable pub build : ℕ → Sock → ℕ → ℕ → List ℕ → Bool → List ℕ
build my_ip s flags seq body with_mss =
    let seg = header s flags seq with_mss ++ body in
    put16 seg 16 (net_ip_checksum_with_pseudo my_ip s.rip 6 seg)

pub record Segment : Type 0 where
  pub sport : ℕ
  pub dport : ℕ
  pub seq : ℕ
  pub ack : ℕ
  pub flags : ℕ
  pub body : List ℕ

-- `(seg[12] >> 4) * 4`, the length of the header
abbrev pub data_offset : List ℕ → ℕ
data_offset seg = get_or seg 12 0 / 2 ^ 4 * 4

unfoldable pub fields : List ℕ → Segment
fields seg = record {
  sport = get16 seg 0;
  dport = get16 seg 2;
  seq = get32 seg 4;
  ack = get32 seg 8;
  flags = get_or seg 13 0;
  body = drop (data_offset seg) seg;
}

-- The checks with which `tcp_input` begins, and the fields that it reads.
unfoldable pub parse : ℕ → ℕ → List ℕ → Option Segment
unfolding fields
parse src my_ip seg =
    if ltb (length seg) 20
    then none
    else if ltb (data_offset seg) 20 || ltb (length seg) (data_offset seg)
    then none
    else if not (net_ip_checksum_with_pseudo src my_ip 6 seg == 0)
    then none
    else some (fields seg)
