-- ===== src/Net/Datagram.antt =====
-- Datagrams of pkg/stam/net.c: udp_send_from, which writes a frame, and handle_ipv4 and handle_udp,
-- which read one. A frame that arrives is the list of its bytes, as many as the card said.
use verkos.Prelude.{
  ℕ, ◌+◌, ◌-◌, ◌*◌, ◌/◌, ◌%◌, ◌^◌, Bool, true, not, ◌&&◌, ◌||◌, Option, none, some, List, ◌∷◌, ◌++◌,
  ltb, ◌==◌, if◌then◌else◌, length, get_or, take, drop, replicate, find_index,
}
use Prim.Native.Nat.{bit_xor}
use verkos.Net.Wire.{put16, put32, get16, get32}
use verkos.Net.Checksum.{sum_add, sum_fold, checksum, pseudo_header}
use verkos.Net.Stack.{UdpSock, Stack, udp_at, put_udp}

abbrev pub dgram_max : ℕ
dgram_max = 1472

-- The six bytes of a hardware address.
abbrev pub six : List ℕ → List ℕ → List ℕ
six mac rest =
    get_or mac 0 0
    ∷ get_or mac 1 0
    ∷ get_or mac 2 0
    ∷ get_or mac 3 0
    ∷ get_or mac 4 0
    ∷ get_or mac 5 0
    ∷ rest

-- eth_header, in front of the packet
unfoldable pub eth_header : List ℕ → List ℕ → ℕ → List ℕ → List ℕ
eth_header my_mac dst kind rest = six dst (six my_mac (kind / 2 ^ 8 % 256 ∷ kind % 256 ∷ rest))

-- The header of a packet of `total` bytes before its checksum is put in.
unfoldable pub ip_fields : ℕ → ℕ → ℕ → ℕ → ℕ → List ℕ
unfolding put16 put32
ip_fields total ident proto src dst =
    put32
      (put32 (put16 (put16 (69 ∷ replicate 7 0 ++ (64 ∷ proto ∷ replicate 10 0)) 2 total) 4 ident)
        12 src)
      16 dst

unfoldable pub ip_header : ℕ → ℕ → ℕ → ℕ → ℕ → List ℕ
ip_header total ident proto src dst =
    put16 (ip_fields total ident proto src dst) 10 (checksum (ip_fields total ident proto src dst))

-- The eight bytes in front of the data, and the data, before the checksum is put in.
unfoldable pub udp_fields : ℕ → ℕ → List ℕ → List ℕ
unfolding put16
udp_fields src_port dst_port buf =
    put16 (put16 (put16 (replicate 8 0) 0 src_port) 2 dst_port) 4 ((8 + length buf) % 2 ^ 16) ++ buf

-- The checksum of a datagram, 0xffff for zero.
unfoldable pub udp_checksum : ℕ → ℕ → List ℕ → ℕ
udp_checksum src dst udp =
    let c = sum_fold (sum_add (sum_add 0 (pseudo_header src dst 17 (length udp))) udp) in
    if c == 0 then 65535 else c

unfoldable pub udp_packet : ℕ → ℕ → ℕ → ℕ → List ℕ → List ℕ
udp_packet src_ip src_port dst_ip dst_port buf =
    let udp = udp_fields src_port dst_port buf in put16 udp 6 (udp_checksum src_ip dst_ip udp)

-- The frame that is handed to the card, or -1.
unfoldable pub udp_send_from : Stack → ℕ → ℕ → ℕ → ℕ → List ℕ → List ℕ → Option (List ℕ)
udp_send_from st src_ip src_port dst_ip dst_port dst_mac buf =
    if ltb dgram_max (length buf)
    then none
    else some (
        eth_header st.my_mac dst_mac 2048 (
          ip_header (20 + 8 + length buf) (bit_xor src_port dst_port) 17 src_ip dst_ip
          ++ udp_packet src_ip src_port dst_ip dst_port buf))

abbrev pub is_for : ℕ → UdpSock → Bool
is_for dport s = s.in_use && s.port == dport

-- What a socket that is free to take it holds then.
abbrev pub received : List ℕ → ℕ → ℕ → UdpSock → UdpSock
received payload src sport s =
    if s.have
    then s
    else record s { have = true; from_ip = src; from_port = sport; bytes = take dgram_max payload }

unfoldable pub handle_udp : List ℕ → ℕ → Stack → Stack
handle_udp u src st =
    let ulen = get16 u 4 in
    if ltb (length u) 8
    then st
    else if ltb ulen 8 || ltb (length u) ulen
    then st
    else elim (find_index (is_for (get16 u 2)) st.socks) [
      | none ↦ st
      | some i ↦ put_udp st i (received (take (ulen - 8) (drop 8 u)) src (get16 u 0) (udp_at st i))
    ]

-- What is handed on: the protocol, the payload and the source.
pub record Packet : Type 0 where
  pub proto : ℕ
  pub payload : List ℕ
  pub source : ℕ

-- The tests of handle_ipv4.
unfoldable pub accept_ipv4 : ℕ → List ℕ → Option Packet
accept_ipv4 my_ip r =
    let ip = drop 14 r in
    let ihl = get_or ip 0 0 % 16 * 4 in
    let total = get16 ip 2 in
    let dst = get32 ip 16 in
    if ltb (length r) 34
    then none
    else if not (get_or ip 0 0 / 16 == 4) || ltb ihl 20
    then none
    else if ltb (length r) (14 + ihl)
    then none
    else if not (checksum (take ihl ip) == 0)
    then none
    else if ltb total ihl || ltb (length r) (14 + total)
    then none
    else if not (my_ip == 0) && (not (dst == my_ip) && not (dst == 2 ^ 32 - 1))
    then none
    else some (record {
      proto = get_or ip 9 0;
      payload = take (total - ihl) (drop ihl ip);
      source = get32 ip 12;
    })

-- handle_icmp and tcp_input, which a packet of theirs goes to
pub record Uppers : Type 0 where
  pub icmp : List ℕ → ℕ → Stack → Stack
  pub tcp : List ℕ → ℕ → Stack → Stack

abbrev pub hand_on : Uppers → Packet → Stack → Stack
hand_on above p st =
    if p.proto == 1
    then above.icmp p.payload p.source st
    else if p.proto == 17
    then handle_udp p.payload p.source st
    else if p.proto == 6
    then above.tcp p.payload p.source st
    else st

unfoldable pub handle_ipv4 : Uppers → List ℕ → Stack → Stack
handle_ipv4 above r st = elim (accept_ipv4 st.my_ip r) [ none ↦ st | some p ↦ hand_on above p st ]
