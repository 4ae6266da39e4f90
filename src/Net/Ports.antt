-- ===== src/Net/Ports.antt =====
-- No two UDP sockets of pkg/stam/net.c have the same port.
use verkos.Prelude.{
  ℕ, zero, suc, ◌-◌, ◌≡◌, refl, sym, ap, ◌∙◌, ◌≢◌, inl, inr, Bool, true, false, not, ◌&&◌, ◌||◌,
  Option, none, some, List, [], ◌∷◌, arith, ltb, ◌==◌, if◌then◌else◌, Bool-cases, length, get_or,
  set, take, drop, get_or-set, find_index,
}
use verkos.Net.Stack.{
  UdpSock, Stack, no_sock, udp_at, put_udp, port_taken, bump_ephemeral, udp_open, udp_close,
  bind_ephemeral, udp_bind, udp_recvfrom,
}
use verkos.Net.Wire.{get16}
use verkos.Net.Datagram.{is_for, received, handle_udp}

-- Two sockets in use that have one port are unbound.
abbrev pub Distinct : List UdpSock → Type 0
Distinct ss =
    (i j : ℕ)
    → i ≢ j
    → (get_or ss i no_sock).in_use ≡ true
    → (get_or ss j no_sock).in_use ≡ true
    → (get_or ss i no_sock).port ≡ (get_or ss j no_sock).port
    → (get_or ss i no_sock).port ≡ 0

port_taken_lem :
    (p : ℕ) (ss : List UdpSock) (j : ℕ)
    → port_taken p ss ≡ false
    → (get_or ss j no_sock).in_use ≡ true
    → (get_or ss j no_sock).port ≢ p
unfolding port_taken
port_taken_lem p [] j f u = ground (arith, u)
port_taken_lem p (s ∷ ss) zero f u = ground (arith, f, u)
port_taken_lem p (s ∷ ss) (suc j) f u = port_taken_lem p ss j (ground (arith, f)) u

-- A socket whose new port is 0, its old one, or no other's.
set-Distinct :
    (ss : List UdpSock) (k : ℕ) (s : UdpSock)
    → Distinct ss
    → ((j : ℕ)
        → j ≢ k
        → (get_or ss j no_sock).in_use ≡ true
        → s.in_use ≡ true
        → (get_or ss j no_sock).port ≡ s.port
        → s.port ≡ 0)
    → Distinct (set ss k s)
set-Distinct ss k s d new i j ne ui uj e = elim (Bool-cases (k == i && ltb k (length ss))) [
  | inl y ↦
      let at_i : get_or (set ss k s) i no_sock ≡ s = get_or-set ss k i s no_sock ∙ rw y refl in
      let at_j : get_or (set ss k s) j no_sock ≡ get_or ss j no_sock =
        get_or-set ss k j s no_sock ∙ other j (λ q. ne (ground (arith, y, q))) in
      ap port at_i
      ∙ new j (λ q. ne (ground (arith, y, q))) (sym (ap in_use at_j) ∙ uj)
          (sym (ap in_use at_i) ∙ ui) (sym (ap port at_j) ∙ sym e ∙ ap port at_i)
  | inr n ↦
      let at_i : get_or (set ss k s) i no_sock ≡ get_or ss i no_sock =
        get_or-set ss k i s no_sock ∙ rw n refl in
      elim (Bool-cases (k == j && ltb k (length ss))) [
        | inl y ↦
            let at_j : get_or (set ss k s) j no_sock ≡ s =
              get_or-set ss k j s no_sock ∙ rw y refl in
            e
            ∙ ap port at_j
            ∙ new i (λ q. ne (ground (arith, y, q))) (sym (ap in_use at_i) ∙ ui)
                (sym (ap in_use at_j) ∙ uj) (sym (ap port at_i) ∙ e ∙ ap port at_j)
        | inr m ↦
            let at_j : get_or (set ss k s) j no_sock ≡ get_or ss j no_sock =
              get_or-set ss k j s no_sock ∙ rw m refl in
            ap port at_i
            ∙ d i j ne (sym (ap in_use at_i) ∙ ui) (sym (ap in_use at_j) ∙ uj)
                (sym (ap port at_i) ∙ e ∙ ap port at_j)
      ]
]
  where
    port : UdpSock → ℕ
    port t = t.port

    in_use : UdpSock → Bool
    in_use t = t.in_use

    other :
        (j : ℕ)
        → j ≢ k
        → (if k == j && ltb k (length ss) then s else get_or ss j no_sock) ≡ get_or ss j no_sock
    other j ne = ground (arith, ne)

-- A call of a program, or a datagram that arrives.
pub data Call : Type 0 where
  open_one : Call
  close : Option ℕ → Call
  bind : Option ℕ → ℕ → Call
  receive : Option ℕ → ℕ → Call
  arrives : List ℕ → ℕ → Call

abbrev pub after_call : Call → Stack → Stack
after_call open_one st = (udp_open st).1
after_call (close s) st = udp_close s st
after_call (bind s port) st = (udp_bind s port st).1
after_call (receive s max) st = (udp_recvfrom s max st).1
after_call (arrives u src) st = handle_udp u src st

abbrev pub after_calls : List Call → Stack → Stack
after_calls [] st = st
after_calls (c ∷ cs) st = after_calls cs (after_call c st)

-- A socket that keeps its port, and is in use only if it was.
kept-Distinct :
    (ss : List UdpSock) (k : ℕ) (s : UdpSock)
    → Distinct ss
    → (s.in_use ≡ true → (get_or ss k no_sock).in_use ≡ true)
    → s.port ≡ (get_or ss k no_sock).port
    → Distinct (set ss k s)
kept-Distinct ss k s d u e =
    set-Distinct ss k s d (λ j ne uj us q. e ∙ d k j (λ z. ne (sym z)) (u us) uj (sym e ∙ sym q))

free_port-Distinct :
    (ss : List UdpSock) (k : ℕ) (s : UdpSock)
    → Distinct ss
    → port_taken s.port ss ≡ false
    → Distinct (set ss k s)
free_port-Distinct ss k s d f =
    set-Distinct ss k s d (λ j ne uj us q. absurd (port_taken_lem s.port ss j f uj q))

bind_ephemeral-Distinct :
    (tries i : ℕ) (st : Stack) → Distinct st.socks → Distinct (bind_ephemeral tries i st).1.socks
unfolding bind_ephemeral
bind_ephemeral-Distinct zero i st d = d
bind_ephemeral-Distinct (suc tries) i st d =
    elim (Bool-cases (port_taken st.next_ephemeral st.socks)) [
      | inl y ↦ rw y (
          bind_ephemeral-Distinct tries i
            (record st { next_ephemeral = bump_ephemeral st.next_ephemeral }) d)
      | inr n ↦
          rw n
            (free_port-Distinct st.socks i (record (udp_at st i) { port = st.next_ephemeral }) d n)
    ]

udp_bind-Distinct :
    (s : Option ℕ) (p : ℕ) (st : Stack) → Distinct st.socks → Distinct (udp_bind s p st).1.socks
unfolding udp_bind
udp_bind-Distinct none p st d = d
udp_bind-Distinct (some i) p st d = elim (Bool-cases (udp_at st i).in_use) [
  | inr n ↦ rw n d
  | inl y ↦ elim (Bool-cases (p == 0)) [
    | inl z ↦ rw (y, z) (bind_ephemeral-Distinct 4096 i st d)
    | inr z ↦ elim (Bool-cases (port_taken p st.socks)) [
      | inl t ↦ rw (y, z, t) d
      | inr t ↦
          rw (y, z, t)
            (free_port-Distinct st.socks i (record (udp_at st i) { in_use = true; port = p }) d t)
    ]
  ]
]

udp_open-Distinct : (st : Stack) → Distinct st.socks → Distinct (udp_open st).1.socks
unfolding udp_open
udp_open-Distinct st d = go (find_index (λ s. not s.in_use) st.socks)
  where
    go :
        (r : Option ℕ)
        → Distinct
            (elim r as (λ x. Option ℕ × Stack) [
              | none ↦ (none, st)
              | some i ↦ if not st.up then (none, st) else (
                some i,
                put_udp st i (record (udp_at st i) { in_use = true; port = 0; have = false }),
              )
            ]).1.socks
    go none = d
    go (some i) = elim (Bool-cases st.up) [
      | inl y ↦ rw y (
          set-Distinct st.socks i (record (udp_at st i) { in_use = true; port = 0; have = false }) d
            (λ j ne uj us q. refl))
      | inr n ↦ rw n d
    ]

handle_udp-Distinct :
    (u : List ℕ) (src : ℕ) (st : Stack) → Distinct st.socks → Distinct (handle_udp u src st).socks
unfolding handle_udp
handle_udp-Distinct u src st d = elim (Bool-cases (ltb (length u) 8)) [
  | inl y ↦ rw y d
  | inr n ↦ elim (Bool-cases (ltb (get16 u 4) 8 || ltb (length u) (get16 u 4))) [
    | inl y ↦ rw (n, y) d
    | inr m ↦ rw (n, m) (go (find_index (is_for (get16 u 2)) st.socks))
  ]
]
  where
    go :
        (r : Option ℕ)
        → Distinct
            (elim r as (λ x. Stack) [
              | none ↦ st
              | some i ↦
                  put_udp st i
                    (received (take (get16 u 4 - 8) (drop 8 u)) src (get16 u 0) (udp_at st i))
            ]).socks
    go none = d
    go (some i) = elim (Bool-cases (udp_at st i).have) [
      | inl y ↦ rw y (kept-Distinct st.socks i (udp_at st i) d (λ e. e) refl)
      | inr n ↦ rw n (kept-Distinct st.socks i _ d (λ e. e) refl)
    ]

udp_close-Distinct :
    (s : Option ℕ) (st : Stack) → Distinct st.socks → Distinct (udp_close s st).socks
unfolding udp_close
udp_close-Distinct none st d = d
udp_close-Distinct (some i) st d =
    set-Distinct st.socks i (record (udp_at st i) { in_use = false; port = 0; have = false }) d
      (λ j ne uj us q. refl)

udp_recvfrom-Distinct :
    (s : Option ℕ) (max : ℕ) (st : Stack)
    → Distinct st.socks
    → Distinct (udp_recvfrom s max st).1.socks
unfolding udp_recvfrom
udp_recvfrom-Distinct none max st d = d
udp_recvfrom-Distinct (some i) max st d =
    elim (Bool-cases (not (udp_at st i).in_use || not (udp_at st i).have)) [
      | inl y ↦ rw y d
      | inr n ↦
          rw n (kept-Distinct st.socks i (record (udp_at st i) { have = false }) d (λ e. e) refl)
    ]

-- Whatever the programs call and whatever arrives, in any order, two sockets that are in use and bound
-- have different ports, if they had before.
pub after_calls-Distinct :
    (cs : List Call) (st : Stack) → Distinct st.socks → Distinct (after_calls cs st).socks
after_calls-Distinct [] st d = d
after_calls-Distinct (open_one ∷ cs) st d = after_calls-Distinct cs _ (udp_open-Distinct st d)
after_calls-Distinct (close s ∷ cs) st d = after_calls-Distinct cs _ (udp_close-Distinct s st d)
after_calls-Distinct (bind s p ∷ cs) st d = after_calls-Distinct cs _ (udp_bind-Distinct s p st d)
after_calls-Distinct (receive s max ∷ cs) st d =
    after_calls-Distinct cs _ (udp_recvfrom-Distinct s max st d)
after_calls-Distinct (arrives u src ∷ cs) st d =
    after_calls-Distinct cs _ (handle_udp-Distinct u src st d)
