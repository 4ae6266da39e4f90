-- ===== src/Tcp/Handshake.antt =====
-- The handshake of pkg/stam/tcp.c, seen from both ends.
use verkos.Prelude.{ℕ, ◌+◌, ◌^◌, ◌<◌, ◌≡◌, [], arith}
use verkos.Tcp.State.{established, Sock}
use verkos.Tcp.Segment.{f_syn, f_ack}
use verkos.Tcp.Input.{
  NetOps, take_ack, on_data, on_fin, on_stream, on_syn_sent, conn_input, accepted,
}
use verkos.Tcp.Calls.{connecting}
use verkos.Tcp.RoundTrip.{sent_segment}

-- The handshake: the socket of `tcp_connect` and the socket that `tcp_input` makes for its SYN,
-- each given the segment that the other sends. Both are established, and each expects the number
-- that the other will use next, with everything acknowledged.
pub handshake :
    (netA netB : NetOps) (sA cB : Sock) (stA : netA.St) (stB : netB.St)
    (ipA ipB portA portB issA issB l : ℕ)
    → issA < 2 ^ 32
    → issB < 2 ^ 32
    → let a1 = connecting ipB portB portA issA sA in
      let syn = sent_segment a1 f_syn issA [] in
      let b1 = accepted syn ipA l issB cB in
      let a2 = (conn_input netA (sent_segment b1 (f_syn + f_ack) issB []) a1 stA).0 in
      let b2 = (conn_input netB (sent_segment a2 f_ack a2.snd_nxt []) b1 stB).0 in
      (a2.state ≡ established)
      × (b2.state ≡ established)
      × (a2.rcv_nxt ≡ b2.snd_nxt)
      × (b2.rcv_nxt ≡ a2.snd_nxt)
      × (a2.snd_una ≡ a2.snd_nxt)
      × (b2.snd_una ≡ b2.snd_nxt)
      × (a2.rport ≡ b2.lport)
      × (b2.rport ≡ a2.lport)
unfolding connecting sent_segment accepted conn_input on_syn_sent on_stream on_data on_fin take_ack
handshake netA netB sA cB stA stB ipA ipB portA portB issA issB l hA hB = ground arith
