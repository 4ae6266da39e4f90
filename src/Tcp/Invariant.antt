-- ===== src/Tcp/Invariant.antt =====
-- What stays true of the table of pkg/stam/tcp.c, whatever arrives.
use verkos.Prelude.{
  ℕ, zero, suc, ◌+◌, ◌^◌, ◌≤◌, ◌<◌, ◌≡◌, refl, ◌∙◌, subst, inl, inr, ◌&&◌, some, List, [], ◌∷◌,
  arith, ltb, ◌==◌, if◌then◌else◌, Bool-cases, Option-cases, length, get_or, set, take, drop,
  length-set, length-replicate, get_or-set, find_index,
}
use verkos.Net.Wire.{get16, get32}
use verkos.Net.Checksum.{IsBytes}
use verkos.Tcp.State.{
  established, seq_ge, free, is, Sock, Tcp, blank, sock_at, put_sock, ntcp, rxbuf,
}
use verkos.Tcp.Segment.{has, f_fin, Segment, data_offset, fields, parse}
use verkos.Tcp.Input.{
  NetOps, copy_in, take_ack, taken, take_data, take_fin, on_data, on_fin, on_stream, on_syn_sent,
  conn_input, accepted, syn_input, dispatch, tcp_input, is_connection, is_listener,
}

-- The receive buffer holds what it says it holds, and every field fits its C type.
pub record IsValid (s : Sock) : Type 0 where
  pub buffer : length s.rx ≡ rxbuf
  pub fits : s.rxlen ≤ rxbuf
  pub lport_lt : s.lport < 2 ^ 16
  pub rport_lt : s.rport < 2 ^ 16
  pub rip_lt : s.rip < 2 ^ 32
  pub snd_nxt_lt : s.snd_nxt < 2 ^ 32
  pub snd_una_lt : s.snd_una < 2 ^ 32
  pub rcv_nxt_lt : s.rcv_nxt < 2 ^ 32

pub record IsTable (t : Tcp) : Type 0 where
  pub size : length t.socks ≡ ntcp
  pub valid : (i : ℕ) → IsValid (sock_at t i)
  pub port_ge : 40000 ≤ t.next_port
  pub port_lt : t.next_port < 2 ^ 16

pub record IsSegment (g : Segment) : Type 0 where
  pub sport_lt : g.sport < 2 ^ 16
  pub dport_lt : g.dport < 2 ^ 16
  pub seq_lt : g.seq < 2 ^ 32
  pub ack_lt : g.ack < 2 ^ 32
  pub body_bytes : IsBytes g.body

pub blank-IsValid : IsValid blank
blank-IsValid = record {
  buffer = length-replicate {A = ℕ} rxbuf 0;
  fits = omega arith;
  lport_lt = omega arith;
  rport_lt = omega arith;
  rip_lt = omega arith;
  snd_nxt_lt = omega arith;
  snd_una_lt = omega arith;
  rcv_nxt_lt = omega arith;
}

pub length-copy_in : (rx : List ℕ) (k : ℕ) (bs : List ℕ) → length (copy_in rx k bs) ≡ length rx
unfolding copy_in
length-copy_in rx k [] = refl
length-copy_in rx k (b ∷ bs) = length-copy_in (set rx k b) (k + 1) bs ∙ length-set rx k b

pub take_ack-IsValid : (g : Segment) (s : Sock) → IsSegment g → IsValid s → IsValid (take_ack g s)
unfolding take_ack
take_ack-IsValid g s h v = ground arith

pub take_data-IsValid : (g : Segment) (s : Sock) → IsValid s → IsValid (take_data g s)
unfolding take_data
take_data-IsValid g s v = ground (arith, length-copy_in s.rx s.rxlen (take (taken g s) g.body))

pub take_fin-IsValid : (g : Segment) (s : Sock) → IsValid s → IsValid (take_fin g s)
unfolding take_fin
take_fin-IsValid g s v = ground arith

byte_at : (p : List ℕ) (k : ℕ) → IsBytes p → get_or p k 0 < 256
byte_at [] k h = omega arith
byte_at (a ∷ p) zero h = h.0
byte_at (a ∷ p) (suc k) h = byte_at p k h.1

drop-IsBytes : (n : ℕ) (p : List ℕ) → IsBytes p → IsBytes (drop n p)
drop-IsBytes zero p h = h
drop-IsBytes (suc n) [] h = tt
drop-IsBytes (suc n) (a ∷ p) h = drop-IsBytes n p h.1

get16_lt : (p : List ℕ) (k : ℕ) → IsBytes p → get16 p k < 2 ^ 16
unfolding get16
get16_lt p k h = omega (arith, byte_at p k h, byte_at p (k + 1) h)

get32_lt : (p : List ℕ) (k : ℕ) → IsBytes p → get32 p k < 2 ^ 32
unfolding get32
get32_lt p k h =
    omega (arith, byte_at p k h, byte_at p (k + 1) h, byte_at p (k + 2) h, byte_at p (k + 3) h)

fields-IsSegment : (seg : List ℕ) → IsBytes seg → IsSegment (fields seg)
unfolding fields
fields-IsSegment seg h = record {
  sport_lt = get16_lt seg 0 h;
  dport_lt = get16_lt seg 2 h;
  seq_lt = get32_lt seg 4 h;
  ack_lt = get32_lt seg 8 h;
  body_bytes = drop-IsBytes (data_offset seg) seg h;
}

parse-fields :
    (src dst : ℕ) (seg : List ℕ) (g : Segment) → parse src dst seg ≡ some g → fields seg ≡ g
unfolding parse
parse-fields src dst seg g e = ground arith

pub parse-IsSegment :
    (src dst : ℕ) (seg : List ℕ) (g : Segment)
    → IsBytes seg
    → parse src dst seg ≡ some g
    → IsSegment g
parse-IsSegment src dst seg g h e =
    subst IsSegment (parse-fields src dst seg g e) (fields-IsSegment seg h)

-- The table after one entry has changed.
pub put_sock-IsTable :
    (t : Tcp) (i : ℕ) (s : Sock) → IsTable t → IsValid s → IsTable (put_sock t i s)
put_sock-IsTable t i s v h = record {
  size = length-set t.socks i s ∙ v.size;
  valid = λ j. rw (get_or-set t.socks i j s blank) (pick j);
  port_ge = v.port_ge;
  port_lt = v.port_lt;
}
  where
    pick :
        (j : ℕ) → IsValid (if i == j && ltb i (length t.socks) then s else get_or t.socks j blank)
    pick j = elim (Bool-cases (i == j && ltb i (length t.socks))) [
      | inl e ↦ rw e h
      | inr e ↦ rw e (v.valid j)
    ]

module _ (net : NetOps) where
  open net use {St}

  on_data-IsValid : (g : Segment) (s : Sock) (st : St) → IsValid s → IsValid (on_data net g s st).0
  unfolding on_data
  on_data-IsValid g s st v = elim (Bool-cases (length g.body == 0)) [
    | inl e ↦ rw e v
    | inr e ↦ rw e (take_data-IsValid g s v)
  ]

  on_fin-IsValid : (g : Segment) (s : Sock) (st : St) → IsValid s → IsValid (on_fin net g s st).0
  unfolding on_fin
  on_fin-IsValid g s st v = elim (Bool-cases (has g.flags f_fin && seq_ge s.rcv_nxt g.seq)) [
    | inl e ↦ rw e (ground (arith, take_fin-IsValid g s v))
    | inr e ↦ rw e v
  ]

  on_stream-IsValid :
      (g : Segment) (s : Sock) (st : St)
      → IsSegment g
      → IsValid s
      → IsValid (on_stream net g s st).0
  unfolding on_stream
  on_stream-IsValid g s st h v =
      on_fin-IsValid g _ _ (on_data-IsValid g (take_ack g s) st (take_ack-IsValid g s h v))

  on_syn_sent-IsValid :
      (g : Segment) (s : Sock) (st : St)
      → IsSegment g
      → IsValid s
      → IsValid (on_syn_sent net g s st).0
  unfolding on_syn_sent
  on_syn_sent-IsValid g s st h v = ground arith

  pub conn_input-IsValid :
      (g : Segment) (s : Sock) (st : St)
      → IsSegment g
      → IsValid s
      → IsValid (conn_input net g s st).0
  unfolding conn_input
  conn_input-IsValid g s st h v = ground (
    arith,
    on_syn_sent-IsValid g s st h v,
    on_stream-IsValid g s st h v,
    on_stream-IsValid g (record s { snd_una = g.ack; state = established }) st h (ground arith),
  )

  syn_input-IsTable :
      (g : Segment) (src : ℕ) (t : Tcp) (st : St)
      → IsSegment g
      → src < 2 ^ 32
      → IsTable t
      → IsTable (syn_input net g src t st).0
  unfolding syn_input accepted
  syn_input-IsTable g src t st h hs v =
      elim (Option-cases (find_index (is_listener g.dport) t.socks)) [
        | inl e ↦ rw (e, syn_input) v
        | inr (l, e) ↦
            rw (e, syn_input)
              (elim (Option-cases (find_index (λ s. is s.state free) t.socks)) [
                | inl e' ↦ rw e' v
                | inr (c, e') ↦ rw e' (put_sock-IsTable t c _ v (let w = v.valid c in ground arith))
              ])
      ]

  pub dispatch-IsTable :
      (g : Segment) (src : ℕ) (t : Tcp) (st : St)
      → IsSegment g
      → src < 2 ^ 32
      → IsTable t
      → IsTable (dispatch net g src t st).0
  unfolding dispatch
  dispatch-IsTable g src t st h hs v =
      elim (Option-cases (find_index (is_connection g src) t.socks)) [
        | inl e ↦ rw (e, dispatch) (ground (arith, v, syn_input-IsTable g src t st h hs v))
        | inr (i, e) ↦
            rw (e, dispatch)
              (put_sock-IsTable t i _ v (conn_input-IsValid g (sock_at t i) st h (v.valid i)))
      ]

  -- Whatever bytes arrive, from whatever address, the table stays well formed.
  pub tcp_input-IsTable :
      (seg : List ℕ) (src : ℕ) (t : Tcp) (st : St)
      → IsBytes seg
      → src < 2 ^ 32
      → IsTable t
      → IsTable (tcp_input net seg src t st).0
  unfolding tcp_input
  tcp_input-IsTable seg src t st h hs v = elim (Option-cases (parse src (net.my_ip st) seg)) [
    | inl e ↦ rw (e, tcp_input) v
    | inr (g, e) ↦
        rw (e, tcp_input) (dispatch-IsTable g src t st (parse-IsSegment src _ seg g h e) hs v)
  ]
