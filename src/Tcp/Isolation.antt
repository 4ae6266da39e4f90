-- ===== src/Tcp/Isolation.antt =====
-- A segment reaches the connection that it belongs to, and no other.
use verkos.Prelude.{
  ℕ, ◌≡◌, refl, subst, ◌⊎◌, inl, inr, true, false, ◌&&◌, none, some, List, arith, ltb, ◌==◌,
  if◌then◌else◌, Bool-cases, Option-cases, length, get_or, get_or-set, find_index, find_index_sound,
}
use verkos.Tcp.State.{free, syn_rcvd, is, Sock, Tcp, blank, sock_at, put_sock}
use verkos.Tcp.Segment.{Segment, parse}
use verkos.Tcp.Input.{NetOps, is_connection, is_listener, accepted, syn_input, dispatch, tcp_input}

-- A socket before and after a segment `g` from `src` arrived.
abbrev pub Touched : Segment → ℕ → Sock → Sock → Type 0
Touched g src s s' =
    (s' ≡ s)
    ⊎ (is_connection g src s ≡ true)
    ⊎ ((s.state ≡ free)
        × (s'.state ≡ syn_rcvd)
        × (s'.rip ≡ src)
        × (s'.rport ≡ g.sport)
        × (s'.lport ≡ g.dport))

Touched-put_sock :
    (g : Segment) (src : ℕ) (t : Tcp) (i j : ℕ) (s : Sock)
    → Touched g src (sock_at t i) s
    → Touched g src (sock_at t j) (sock_at (put_sock t i s) j)
Touched-put_sock g src t i j s h =
    rw (get_or-set t.socks i j s blank) (pick (Bool-cases (i == j && ltb i (length t.socks))))
  where
    pick :
        ((i == j && ltb i (length t.socks)) ≡ true) ⊎ ((i == j && ltb i (length t.socks)) ≡ false)
        → Touched g src
            (sock_at t j)
            (if i == j && ltb i (length t.socks) then s else get_or t.socks j blank)
    pick (inl e) = rw e (subst (λ k. Touched g src (sock_at t k) s) (ground arith) h)
    pick (inr e) = rw e (inl refl)

module _ (net : NetOps) where
  open net use {St}

  syn_input-Touched :
      (g : Segment) (src : ℕ) (t : Tcp) (st : St) (j : ℕ)
      → Touched g src (sock_at t j) (sock_at (syn_input net g src t st).0 j)
  unfolding syn_input accepted
  syn_input-Touched g src t st j = elim (Option-cases (find_index (is_listener g.dport) t.socks)) [
    | inl e ↦ rw (e, syn_input) (inl refl)
    | inr (l, e) ↦
        rw (e, syn_input)
          (elim (Option-cases (find_index (λ s. is s.state free) t.socks)) [
            | inl e' ↦ rw e' (inl refl)
            | inr (c, e') ↦
                rw e' (
                  Touched-put_sock g src t c j _ (inr (inr (is_free c e', refl, refl, refl, refl))))
          ])
  ]
    where
      is_free :
          (c : ℕ) → find_index (λ s. is s.state free) t.socks ≡ some c → (sock_at t c).state ≡ free
      is_free c e = ground (arith, find_index_sound (λ s. is s.state free) t.socks blank c e)

  dispatch-Touched :
      (g : Segment) (src : ℕ) (t : Tcp) (st : St) (j : ℕ)
      → Touched g src (sock_at t j) (sock_at (dispatch net g src t st).0 j)
  unfolding dispatch
  dispatch-Touched g src t st j = elim (Option-cases (find_index (is_connection g src) t.socks)) [
    | inl e ↦ rw (e, dispatch) (ground (arith, syn_input-Touched g src t st j))
    | inr (i, e) ↦
        rw (e, dispatch)
          (Touched-put_sock g src t i j _ (inr (inl (find_index_sound _ t.socks blank i e).0)))
  ]

  -- A segment leaves every socket as it was but two kinds: a connection with exactly its ports and
  -- the address that it came from, and a free slot, which becomes a half-open connection with them.
  -- What does not parse, its checksum included, changes no socket.
  pub tcp_input-Touched :
      (seg : List ℕ) (src : ℕ) (t : Tcp) (st : St) (j : ℕ)
      → let s = sock_at t j in
        let s' = sock_at (tcp_input net seg src t st).0 j in
        ((parse src (net.my_ip st) seg ≡ none) × (s' ≡ s))
        ⊎ ((g : Segment) × (parse src (net.my_ip st) seg ≡ some g) × Touched g src s s')
  unfolding tcp_input
  tcp_input-Touched seg src t st j = elim (Option-cases (parse src (net.my_ip st) seg)) [
    | inl e ↦ inl (e, rw (e, tcp_input) refl)
    | inr (g, e) ↦ inr (g, e, rw (e, tcp_input) (dispatch-Touched g src t st j))
  ]
