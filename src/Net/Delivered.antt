-- ===== src/Net/Delivered.antt =====
-- A datagram that one machine sends, in pkg/stam/net.c, reaches the socket of another.
use verkos.Prelude.{
  ℕ, zero, suc, ◌+◌, ◌-◌, ◌^◌, ◌≤◌, ◌<◌, ◌≡◌, refl, sym, ap, ◌∙◌, ◌≢◌, inl, inr, false, not, ◌&&◌,
  some, List, [], ◌∷◌, ◌++◌, arith, ltb, ◌==◌, if◌then◌else◌, Bool-cases, length, get_or, take,
  drop, get_or-set, take-nil, find_index, find_index_sound,
}
use Prim.Native.Nat.{bit_xor}
use mathlib.Core.Option.{some-injective}
use verkos.Net.Wire.{put16, put32, get16, get32}
use verkos.Net.Checksum.{
  sum_add, sum_fold, checksum, sum_fold_add, sum_fold_lt, sum_add_lem, word_sum,
}
use verkos.Net.Stack.{Stack, no_sock, udp_at, put_udp, udp_recvfrom}
use verkos.Net.Datagram.{
  eth_header, ip_fields, ip_header, udp_fields, udp_packet, dgram_max, accept_ipv4, is_for,
  received, handle_udp, Uppers, handle_ipv4, udp_send_from,
}

module _ (total ident proto src dst : ℕ) (p : proto < 256) where
  fields_sum :
      (word_sum (ip_fields total ident proto src dst) < 2 ^ 20)
      × (0 < word_sum (ip_fields total ident proto src dst))
  unfolding ip_fields put16 put32
  fields_sum = (omega (arith, p), omega arith)

  header_sum :
      (c : ℕ)
      → c < 2 ^ 16
      → word_sum (put16 (ip_fields total ident proto src dst) 10 c)
        ≡ word_sum (ip_fields total ident proto src dst) + c
  unfolding ip_fields put16 put32
  header_sum c h = omega (arith, h)

  -- The header that was written is accepted by its checksum.
  header_verifies : checksum (ip_header total ident proto src dst) ≡ 0
  unfolding ip_header checksum
  header_verifies =
      let fields = ip_fields total ident proto src dst in
      let w = word_sum fields in
      let before : sum_add 0 fields ≡ w =
        omega (arith, sum_add_lem 0 fields (omega arith), fields_sum) in
      let small = sum_fold_lt (sum_add 0 fields) in
      let after : sum_add 0 (put16 fields 10 (sum_fold (sum_add 0 fields))) ≡ w + sum_fold w =
        omega (
          arith,
          sum_add_lem 0 (put16 fields 10 (sum_fold (sum_add 0 fields))) (omega arith),
          header_sum (sum_fold (sum_add 0 fields)) small,
          fields_sum,
          small,
          ap sum_fold before,
        ) in
      rw after (sum_fold_add w (omega (arith, fields_sum)) (omega (arith, fields_sum)))

header_fields :
    (total ident proto src dst : ℕ) (rest : List ℕ)
    → total < 2 ^ 16
    → src < 2 ^ 32
    → dst < 2 ^ 32
    → let ip = ip_header total ident proto src dst ++ rest in
      (get_or ip 0 0 ≡ 69)
      × (get16 ip 2 ≡ total)
      × (get_or ip 9 0 ≡ proto)
      × (get32 ip 12 ≡ src)
      × (get32 ip 16 ≡ dst)
      × (take 20 ip ≡ ip_header total ident proto src dst)
      × (drop 20 ip ≡ rest)
unfolding ip_header ip_fields put16 put32 get16 get32
header_fields total ident proto src dst rest a b c =
    (refl, omega (arith, a), refl, omega (arith, b), omega (arith, c), refl, refl)

take_all : (xs : List ℕ) (n : ℕ) → length xs ≤ n → take n xs ≡ xs
take_all [] n h = take-nil n
take_all (x ∷ xs) zero h = absurd (omega (arith, h))
take_all (x ∷ xs) (suc n) h = ap (◌∷◌ x) (take_all xs n (omega (arith, h)))

-- What the packet of a datagram says.
packet_fields :
    (src_ip src_port dst_ip dst_port : ℕ) (buf : List ℕ)
    → src_port < 2 ^ 16
    → dst_port < 2 ^ 16
    → length buf ≤ dgram_max
    → let u = udp_packet src_ip src_port dst_ip dst_port buf in
      (get16 u 0 ≡ src_port)
      × (get16 u 2 ≡ dst_port)
      × (get16 u 4 ≡ 8 + length buf)
      × (drop 8 u ≡ buf)
      × (length u ≡ 8 + length buf)
unfolding udp_packet udp_fields put16 get16
packet_fields src_ip src_port dst_ip dst_port buf a b c =
    (omega (arith, a), omega (arith, b), omega (arith, c), refl, omega arith)

received_lem :
    (u buf : List ℕ) (src sport dport : ℕ) (st : Stack) (i : ℕ)
    → get16 u 0 ≡ sport
    → get16 u 2 ≡ dport
    → get16 u 4 ≡ 8 + length buf
    → drop 8 u ≡ buf
    → length u ≡ 8 + length buf
    → find_index (is_for dport) st.socks ≡ some i
    → handle_udp u src st ≡ put_udp st i (received buf src sport (udp_at st i))
unfolding handle_udp
received_lem u buf src sport dport st i a b c d e f =
    let whole : take (8 + length buf - 8) buf ≡ buf =
      take_all buf (8 + length buf - 8) (omega arith) in
    let short : ltb (8 + length buf) 8 ≡ false = ground arith in
    let fits : ltb (8 + length buf) (8 + length buf) ≡ false = ground arith in
    rw (handle_udp, e, c, short, fits, b, f, a, d, c, whole) refl

accept_ipv4_lem :
    (my_ip ident proto src dst : ℕ) (r rest : List ℕ)
    → drop 14 r ≡ ip_header (20 + length rest) ident proto src dst ++ rest
    → length r ≡ 34 + length rest
    → length rest < 2 ^ 16 - 20
    → proto < 256
    → src < 2 ^ 32
    → dst < 2 ^ 32
    → dst ≡ my_ip
    → accept_ipv4 my_ip r ≡ some (record { proto = proto; payload = rest; source = src })
unfolding accept_ipv4
accept_ipv4_lem my_ip ident proto src dst r rest e n small p a b mine =
    let h = header_fields (20 + length rest) ident proto src dst rest (omega (arith, small)) a b in
    let sum = ap checksum h.5 ∙ header_verifies (20 + length rest) ident proto src dst p in
    let long : ltb (34 + length rest) 34 ≡ false = ground arith in
    let whole : ltb (34 + length rest) (14 + (20 + length rest)) ≡ false = ground arith in
    let header : ltb (20 + length rest) 20 ≡ false = ground arith in
    let all : take (20 + length rest - 20) rest ≡ rest =
      take_all rest (20 + length rest - 20) (omega arith) in
    let addressed : (not (my_ip == 0) && (not (dst == my_ip) && not (dst == 2 ^ 32 - 1))) ≡ false =
      ground (arith, mine) in
    rw (e, n, h.0, h.1, h.2, h.3, h.4, sum, long, whole, header, addressed, h.6, all) refl

sent_lem :
    (a : Stack) (src_ip src_port dst_ip dst_port : ℕ) (mac buf f : List ℕ)
    → udp_send_from a src_ip src_port dst_ip dst_port mac buf ≡ some f
    → let packet = udp_packet src_ip src_port dst_ip dst_port buf in
      (length buf ≤ dgram_max)
      × (drop 14 f
          ≡ ip_header (20 + 8 + length buf) (bit_xor src_port dst_port) 17 src_ip dst_ip ++ packet)
      × (length f ≡ 34 + length packet)
unfolding udp_send_from eth_header ip_header ip_fields put16 put32
sent_lem a src_ip src_port dst_ip dst_port mac buf f e =
    elim (Bool-cases (ltb dgram_max (length buf))) [
      | inl y ↦ absurd (ground (arith, e, y))
      | inr n ↦
          let frame = eth_header a.my_mac mac 2048 (
            ip_header (20 + 8 + length buf) (bit_xor src_port dst_port) 17 src_ip dst_ip
            ++ udp_packet src_ip src_port dst_ip dst_port buf) in
          let sends : udp_send_from a src_ip src_port dst_ip dst_port mac buf ≡ some frame =
            rw n refl in
          let it : frame ≡ f = some-injective frame f (sym sends ∙ e) in
          (ground (arith, n), ap (drop 14) (sym it), ap length (sym it) ∙ omega arith)
    ]

-- What the frame does where it arrives.
sent-received :
    (a b : Stack) (above : Uppers) (src_ip src_port dst_port i : ℕ) (mac buf f : List ℕ)
    → src_ip < 2 ^ 32
    → b.my_ip < 2 ^ 32
    → src_port < 2 ^ 16
    → dst_port < 2 ^ 16
    → udp_send_from a src_ip src_port b.my_ip dst_port mac buf ≡ some f
    → find_index (is_for dst_port) b.socks ≡ some i
    → handle_ipv4 above f b ≡ put_udp b i (received buf src_ip src_port (udp_at b i))
unfolding udp_send_from handle_ipv4
sent-received a b above src_ip src_port dst_port i mac buf f ha hb hs hd sent bound =
    let sent_frame = sent_lem a src_ip src_port b.my_ip dst_port mac buf f sent in
    let packet = udp_packet src_ip src_port b.my_ip dst_port buf in
    let u = packet_fields src_ip src_port b.my_ip dst_port buf hs hd sent_frame.0 in
    let accepted =
      accept_ipv4_lem b.my_ip (bit_xor src_port dst_port) 17 src_ip b.my_ip f packet
        (sent_frame.1
          ∙ ap (λ k. ip_header k (bit_xor src_port dst_port) 17 src_ip b.my_ip ++ packet)
              (omega (arith, u.4)))
        sent_frame.2 (omega (arith, u.4, sent_frame.0)) (omega arith) ha hb refl in
    rw (handle_ipv4, accepted)
      (received_lem packet buf src_ip src_port dst_port b i u.0 u.1 u.2 u.3 u.4 bound)

-- A socket that is written by `received` gives the datagram when it is read, or the one that it held.
recvfrom-received :
    (b : Stack) (buf : List ℕ) (src_ip src_port port i : ℕ)
    → length buf ≤ dgram_max
    → find_index (is_for port) b.socks ≡ some i
    → (udp_recvfrom (some i) dgram_max (put_udp b i (received buf src_ip src_port (udp_at b i)))).0
      ≡ (if (udp_at b i).have
          then (udp_recvfrom (some i) dgram_max b).0
          else some (buf, src_ip, src_port))
unfolding udp_recvfrom
recvfrom-received b buf src_ip src_port port i small bound =
    let place = find_index_sound (is_for port) b.socks no_sock i bound in
    let whole = take_all buf dgram_max small in
    let there = get_or-set b.socks i i (received buf src_ip src_port (udp_at b i)) no_sock in
    elim (Bool-cases (udp_at b i).have) [
      | inl y ↦ ground (arith, place, there, y)
      | inr n ↦ ground (arith, place, there, n, whole)
    ]

-- A datagram that udp_send_from writes to the address of the machine where it arrives: the socket that
-- is bound to its port then gives all its bytes, with the address and the port of the sender, unless a
-- datagram was waiting there, which it then gives instead. No other socket changes, and nothing else.
pub handle_ipv4-udp_send_from :
    (a b : Stack) (above : Uppers) (src_ip src_port dst_port i : ℕ) (mac buf f : List ℕ)
    → src_ip < 2 ^ 32
    → b.my_ip < 2 ^ 32
    → src_port < 2 ^ 16
    → dst_port < 2 ^ 16
    → udp_send_from a src_ip src_port b.my_ip dst_port mac buf ≡ some f
    → find_index (is_for dst_port) b.socks ≡ some i
    → ((udp_recvfrom (some i) dgram_max (handle_ipv4 above f b)).0 ≡ (
        if (udp_at b i).have
        then (udp_recvfrom (some i) dgram_max b).0
        else some (buf, src_ip, src_port)))
      × ((j : ℕ) → j ≢ i → udp_at (handle_ipv4 above f b) j ≡ udp_at b j)
      × (record (handle_ipv4 above f b) { socks = b.socks } ≡ b)
handle_ipv4-udp_send_from a b above src_ip src_port dst_port i mac buf f ha hb hs hd sent bound =
    let arrives =
      sent-received a b above src_ip src_port dst_port i mac buf f ha hb hs hd sent bound in
    let short = (sent_lem a src_ip src_port b.my_ip dst_port mac buf f sent).0 in
    let other =
      λ (j : ℕ). get_or-set b.socks i j (received buf src_ip src_port (udp_at b i)) no_sock in
    (
      ap (λ st. (udp_recvfrom (some i) dgram_max st).0) arrives
          ∙ recvfrom-received b buf src_ip src_port dst_port i short bound,
      λ j n. ap (λ st. udp_at st j) arrives ∙ ground (arith, other j, n),
      ap {B = Stack} (λ st. record st { socks = b.socks }) arrives,
    )
