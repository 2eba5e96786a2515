-- ===== src/Router/Node/Sends.antt =====
-- Sending and forwarding in the states that a router reaches.
use gotcp.Prelude.{refl, ℕ, Bool, true, false, ◌≡◌, ◌≢◌, List, if◌then◌else◌}
use gotcp.Ip.Addr.{Addr}
use gotcp.Ip.Forward.{
  AddrPort, Interface, IpPacket, Link, link, unreachable, Sent, dropped, wrote, refused, send,
  send_on, forward_packet, find_link_layer_src_dst,
}
use gotcp.Ip.Named.{find_link_layer_src_dst_safe}
use gotcp.Config.Parse.{IpConfig}
use gotcp.Router.Node.{
  Node, new_node, Reaches, received_here, forwarded, is_mine, forward_on, router_test_recv_handler,
}
use gotcp.Router.Node.Steady.{Reaches-Steady}

abbrev Calm : Sent → Type 0
Calm s = s ≢ Sent.panicked

if_Calm : (b : Bool) (s t : Sent) → Calm s → Calm t → Calm (if b then s else t)
if_Calm true s t h k = h
if_Calm false s t h k = k

module _ (socket : AddrPort → IpPacket → Bool) where
  forward_packet-Calm :
      (i : Interface) (remote : AddrPort) (p : IpPacket) → Calm (forward_packet socket i remote p)
  unfolding forward_packet
  forward_packet-Calm i remote p =
      if_Calm i.is_down dropped _ (λ e. cc)
        (if_Calm (socket remote p) (wrote remote p) refused (λ e. cc) (λ e. cc))

  send_on-Calm :
      (dest_ip : Addr) (msg : List ℕ) (proto_num : ℕ) (l : Link)
      → l ≢ Link.panicked
      → Calm (send_on socket dest_ip msg proto_num l)
  send_on-Calm dest_ip msg proto_num Link.panicked h = absurd (h refl)
  send_on-Calm dest_ip msg proto_num Link.running h = λ e. cc
  send_on-Calm dest_ip msg proto_num unreachable h = λ e. cc
  send_on-Calm dest_ip msg proto_num (link i remote) h = forward_packet-Calm i remote _

  forward_on-Calm : (p : IpPacket) (l : Link) → l ≢ Link.panicked → Calm (forward_on socket p l)
  forward_on-Calm p Link.panicked h = absurd (h refl)
  forward_on-Calm p Link.running h = λ e. cc
  forward_on-Calm p unreachable h = λ e. cc
  forward_on-Calm p (link i remote) h = forward_packet-Calm i remote p

-- In every state that a router reaches, neither Send nor the handler of test packets panics, whatever
-- the destination, the bytes, the protocol number and the socket.
pub send_safe :
    (c : IpConfig) (n : Node) (socket : AddrPort → IpPacket → Bool) (fuel : ℕ) (dest_ip : Addr)
    (msg : List ℕ) (proto_num : ℕ) (packet : IpPacket)
    → Reaches (new_node c) n
    → (send socket fuel n.ip dest_ip msg proto_num ≢ Sent.panicked)
      × (router_test_recv_handler socket fuel n.ip packet ≢ forwarded Sent.panicked)
unfolding send router_test_recv_handler
send_safe c n socket fuel dest_ip msg proto_num packet r = (
  if_Calm _ refused _ (λ e. cc) (send_on-Calm socket dest_ip msg proto_num _ (located dest_ip)),
  tested (is_mine packet.dst n.ip.interfaces),
)
  where
    located : (dest : Addr) → find_link_layer_src_dst fuel n.ip dest ≢ Link.panicked
    located dest = find_link_layer_src_dst_safe fuel n.ip dest (Reaches-Steady c n r).formed.0

    sent :
        forwarded (forward_on socket packet (find_link_layer_src_dst fuel n.ip packet.dst))
        ≢ forwarded Sent.panicked
    sent e = forward_on-Calm socket packet _ (located packet.dst) (same e)
      where
        same : {s t : Sent} → forwarded s ≡ forwarded t → s ≡ t
        same h = cc

    tested :
        (b : Bool)
        → (if b
            then received_here
            else forwarded
                (forward_on socket packet (find_link_layer_src_dst fuel n.ip packet.dst)))
          ≢ forwarded Sent.panicked
    tested true = λ e. cc
    tested false = sent
