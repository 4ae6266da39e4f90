-- ===== src/Net/Arp.antt =====
-- ARP in pkg/stam/net.c: the question of net_arp_resolve and handle_arp, which answers one and learns
-- from both. A frame that arrives is the list of its bytes.
use verkos.Prelude.{
  ℕ, ◌/◌, ◌%◌, ◌^◌, not, ◌||◌, Option, none, some, List, ◌∷◌, ltb, ◌==◌, if◌then◌else◌, length,
  get_or, take, drop, replicate,
}
use verkos.Net.Wire.{get16, get32}
use verkos.Net.Stack.{Stack, arp_learn}
use verkos.Net.Datagram.{six, eth_header}

abbrev pub be16 : ℕ → List ℕ → List ℕ
be16 v rest = v / 2 ^ 8 % 256 ∷ v % 256 ∷ rest

abbrev pub be32 : ℕ → List ℕ → List ℕ
be32 v rest = v / 2 ^ 24 % 256 ∷ v / 2 ^ 16 % 256 ∷ v / 2 ^ 8 % 256 ∷ v % 256 ∷ rest

-- The sixty bytes of a question (1) or an answer (2).
unfoldable pub arp_frame : Stack → List ℕ → ℕ → List ℕ → ℕ → List ℕ
arp_frame st dst op target_mac target_ip = eth_header st.my_mac dst 2054 (
    be16 1 (
      be16 2048 (
        6
        ∷ 4
        ∷ be16 op
            (six st.my_mac (be32 st.my_ip (six target_mac (be32 target_ip (replicate 18 0))))))))

abbrev pub bcast_mac : List ℕ
bcast_mac = replicate 6 255

-- What net_arp_resolve sends.
unfoldable pub arp_request : Stack → ℕ → List ℕ
arp_request st ip = arp_frame st bcast_mac 1 (replicate 6 0) ip

-- The state, and the answer that is sent.
unfoldable pub handle_arp : List ℕ → Stack → Stack × Option (List ℕ)
handle_arp r st =
    let sender = get32 r 28 in
    let sender_mac = take 6 (drop 22 r) in
    let st' = arp_learn sender sender_mac st in
    if ltb (length r) 42
    then (st, none)
    else if not (get16 r 16 == 2048) || (not (get_or r 18 0 == 6) || not (get_or r 19 0 == 4))
    then (st, none)
    else if not (get16 r 20 == 1)
    then (st', none)
    else if st.my_ip == 0 || not (get32 r 38 == st.my_ip)
    then (st', none)
    else (st', some (arp_frame st sender_mac 2 sender_mac sender))
