-- ===== src/Net/Stack.antt =====
-- The state of pkg/stam/net.c below the streams: the ARP cache and the UDP sockets, with arp_learn to
-- udp_recvfrom. A socket is its index in the table.
use verkos.Prelude.{
  ℕ, zero, suc, ◌+◌, ◌%◌, ◌^◌, Bool, true, false, not, ◌&&◌, ◌||◌, Option, none, some, List, [],
  ◌∷◌, ◌==◌, if◌then◌else◌, get_or, set, take, find_index,
}

pub record ArpEntry : Type 0 where
  pub ip : ℕ
  pub mac : List ℕ
  pub in_use : Bool

-- struct udp_sock; the bytes are those of the datagram that it holds.
pub record UdpSock : Type 0 where
  pub in_use : Bool
  pub port : ℕ
  pub have : Bool
  pub from_ip : ℕ
  pub from_port : ℕ
  pub bytes : List ℕ

pub record Stack : Type 0 where
  pub my_mac : List ℕ
  pub my_ip : ℕ
  pub my_mask : ℕ
  pub gw_ip : ℕ
  pub up : Bool
  pub arp : List ArpEntry
  pub socks : List UdpSock
  pub next_ephemeral : ℕ

abbrev pub no_sock : UdpSock
no_sock = record { in_use = false; port = 0; have = false; from_ip = 0; from_port = 0; bytes = [] }

abbrev pub udp_at : Stack → ℕ → UdpSock
udp_at st i = get_or st.socks i no_sock

abbrev pub put_udp : Stack → ℕ → UdpSock → Stack
put_udp st i s = record st { socks = set st.socks i s }

abbrev pub is_entry_of : ℕ → ArpEntry → Bool
is_entry_of ip e = e.in_use && e.ip == ip

-- Where the address goes: its own entry, a free one, or else the first.
abbrev pub arp_slot : ℕ → List ArpEntry → ℕ
arp_slot ip arp = elim (find_index (is_entry_of ip) arp) [
  | some i ↦ i
  | none ↦ elim (find_index (λ e. not e.in_use) arp) [ some i ↦ i | none ↦ 0 ]
]

unfoldable pub arp_learn : ℕ → List ℕ → Stack → Stack
arp_learn ip mac st = record st {
  arp = set st.arp (arp_slot ip st.arp) (record { ip = ip; mac = mac; in_use = true });
}

abbrev pub no_entry : ArpEntry
no_entry = record { ip = 0; mac = []; in_use = false }

unfoldable pub arp_lookup : ℕ → Stack → Option (List ℕ)
arp_lookup ip st = elim (find_index (is_entry_of ip) st.arp) [
  | none ↦ none
  | some i ↦ some (get_or st.arp i no_entry).mac
]

unfoldable pub port_taken : ℕ → List UdpSock → Bool
port_taken p [] = false
port_taken p (s ∷ ss) = s.in_use && s.port == p || port_taken p ss

unfoldable pub udp_open : Stack → Option ℕ × Stack
udp_open st = elim (find_index (λ s. not s.in_use) st.socks) [
  | none ↦ (none, st)
  | some i ↦
      if not st.up
      then (none, st)
      else (some i, put_udp st i (record (udp_at st i) { in_use = true; port = 0; have = false }))
]

unfoldable pub udp_close : Option ℕ → Stack → Stack
udp_close none st = st
udp_close (some i) st =
    put_udp st i (record (udp_at st i) { in_use = false; port = 0; have = false })

-- next_ephemeral++, and the wrap to the first of them
abbrev pub bump_ephemeral : ℕ → ℕ
bump_ephemeral p = if (p + 1) % 2 ^ 16 == 0 then 49152 else (p + 1) % 2 ^ 16

-- for (tries = 0; tries < 4096; tries++)
unfoldable pub bind_ephemeral : ℕ → ℕ → Stack → Bool × Stack
bind_ephemeral zero i st = (false, st)
bind_ephemeral (suc tries) i st =
    let p = st.next_ephemeral in
    let st' : Stack = record st { next_ephemeral = bump_ephemeral p } in
    let rest = bind_ephemeral tries i st' in
    if not (port_taken p st.socks)
    then (true, put_udp st' i (record (udp_at st i) { port = p }))
    else rest

-- Whether it worked: 0 or -1.
unfoldable pub udp_bind : Option ℕ → ℕ → Stack → Bool × Stack
udp_bind none port st = (false, st)
udp_bind (some i) port st =
    if not (udp_at st i).in_use
    then (false, st)
    else if port == 0
    then bind_ephemeral 4096 i st
    else if port_taken port st.socks
    then (false, st)
    else (true, put_udp st i (record (udp_at st i) { port = port }))

unfoldable pub udp_port : Option ℕ → Stack → ℕ
udp_port none st = 0
udp_port (some i) st = (udp_at st i).port

-- The bytes, the sender's address and port, or -1.
unfoldable pub udp_recvfrom : Option ℕ → ℕ → Stack → Option (List ℕ × ℕ × ℕ) × Stack
udp_recvfrom none max st = (none, st)
udp_recvfrom (some i) max st =
    let s = udp_at st i in
    if not s.in_use || not s.have
    then (none, st)
    else (some (take max s.bytes, s.from_ip, s.from_port), put_udp st i (record s { have = false }))
