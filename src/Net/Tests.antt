-- ===== src/Net/Tests.antt =====
-- pkg/stam/net.c on two machines, 1 and 2, that know nothing of one another.
use verkos.Prelude.{
  ℕ, zero, suc, ◌+◌, ◌≡◌, refl, ◌≢◌, true, none, some, List, [], ◌∷◌, ◌++◌, arith, length,
  replicate, find_index,
}
use verkos.Net.Stack.{UdpSock, Stack, no_entry, no_sock, arp_lookup, udp_at, udp_recvfrom}
use verkos.Net.Datagram.{six, dgram_max, udp_send_from, Uppers, is_for, handle_ipv4}
use verkos.Net.Arp.{arp_frame, arp_request, handle_arp}
use verkos.Net.Delivered.{handle_ipv4-udp_send_from}
use verkos.Net.Ports.{Distinct, open_one, bind, after_calls, after_calls-Distinct}
use verkos.Net.Resolve.{arp_exchange}
use verkos.Net.Config.{option_from, dhcp_option}
use verkos.Net.Options.{InMessage, dhcp_option-InMessage}

abbrev bound_sock : UdpSock
bound_sock = record no_sock { in_use = true; port = 68 }

abbrev machine : ℕ → Stack
machine n = record {
  my_mac = n ∷ 1 ∷ 2 ∷ 3 ∷ 4 ∷ 5 ∷ [];
  my_ip = n;
  my_mask = 255;
  gw_ip = 9;
  up = true;
  arp = no_entry ∷ no_entry ∷ no_entry ∷ no_entry ∷ [];
  socks = no_sock ∷ bound_sock ∷ [];
  next_ephemeral = 49152;
}

abbrev nothing_above : Uppers
nothing_above = record { icmp = λ p src st. st; tcp = λ p src st. st }

abbrev message : List ℕ
message = 7 ∷ 8 ∷ []

abbrev bcast : List ℕ
bcast = replicate 6 255

abbrev sent_frame : List ℕ
sent_frame = elim (udp_send_from (machine 1) 1 67 2 68 bcast message) [ none ↦ [] | some f ↦ f ]

was_sent : udp_send_from (machine 1) 1 67 2 68 bcast message ≡ some sent_frame
unfolding udp_send_from
was_sent = refl

second_takes : find_index (is_for 68) (machine 2).socks ≡ some 1
unfolding find_index
second_takes = refl

handle_ipv4-udp_send_from_example :
    let after = handle_ipv4 nothing_above sent_frame (machine 2) in
    ((udp_recvfrom (some 1) dgram_max after).0 ≡ some (message, 1, 67))
    × ((j : ℕ) → j ≢ 1 → udp_at after j ≡ udp_at (machine 2) j)
    × (record after { socks = (machine 2).socks } ≡ machine 2)
handle_ipv4-udp_send_from_example =
    handle_ipv4-udp_send_from (machine 1) (machine 2) nothing_above 1 67 68 1 bcast message
      sent_frame (omega arith) (omega arith) (omega arith) (omega arith) was_sent second_takes

machine-Distinct : Distinct (machine 2).socks
machine-Distinct zero j ne a b e = refl
machine-Distinct (suc zero) zero ne a b e = absurd (ground (arith, b))
machine-Distinct (suc zero) (suc zero) ne a b e = absurd (ne refl)
machine-Distinct (suc zero) (suc (suc j)) ne a b e = absurd (ground (arith, b))
machine-Distinct (suc (suc i)) j ne a b e = refl

after_calls-Distinct_example :
    Distinct (after_calls (open_one ∷ bind (some 0) 68 ∷ []) (machine 2)).socks
after_calls-Distinct_example =
    after_calls-Distinct (open_one ∷ bind (some 0) 68 ∷ []) (machine 2) machine-Distinct

arp_exchange_example :
    let asked = handle_arp (arp_request (machine 1) 2) (machine 2) in
    let answer =
      arp_frame (machine 2) (six (machine 1).my_mac []) 2 (six (machine 1).my_mac []) 1 in
    (asked.1 ≡ some answer)
    × (arp_lookup 1 asked.0 ≡ some (six (machine 1).my_mac []))
    × (arp_lookup 2 (handle_arp answer (machine 1)).0 ≡ some (six (machine 2).my_mac []))
arp_exchange_example =
    arp_exchange (machine 1) (machine 2) (omega arith) (omega arith) (omega arith) (omega arith)
      (ground arith)

-- An offer with one option
abbrev offer : List ℕ
offer = replicate 240 0 ++ 53 ∷ 1 ∷ 2 ∷ 255 ∷ []

dhcp_option-InMessage_example :
    InMessage offer (dhcp_option offer 53)
    × (option_from (5 + length offer) offer 53 240 ≡ dhcp_option offer 53)
dhcp_option-InMessage_example = dhcp_option-InMessage offer 53 5
