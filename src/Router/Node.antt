-- ===== src/Router/Node.antt =====
-- A router as a whole, in pkg/vrouter/vrouter.go: the tables of package ipstack with the handlers
-- that change them, one step for each, as each runs under the mutex of the table or from the
-- command line.
pub mod Tables
pub mod Steady
mod Sends
mod Tests
use Prim.Native.String.{String}
use gotcp.Prelude.{
  ℕ, Bool, true, false, ◌≡◌, List, [], ◌∷◌, Option, none, some, ◌==◌, if◌then◌else◌,
}
use gotcp.Ip.Addr.{Addr}
use gotcp.Ip.Table.{RoutingTable}
use gotcp.Ip.Forward.{
  AddrPort, Interface, IpGlobalInfo, IpPacket, Link, unreachable, link, Sent, refused,
  forward_packet, find_link_layer_src_dst,
}
use gotcp.Ip.Init.{init, set_interface_is_down}
use gotcp.Config.Parse.{IpConfig}
use gotcp.Router.Handler.{Router, Message, rip_recv_handler, expire}

pub record Node : Type 0 where
  pub ip : IpGlobalInfo
  pub rip_neighbors : List Addr

unfoldable pub new_node : IpConfig → Node
unfolding init
new_node config = record { ip = init config; rip_neighbors = config.rip_neighbors }

abbrev pub router_of : Node → Router
router_of n = record { table = n.ip.routing_table; rip_neighbors = n.rip_neighbors }

abbrev pub with_table : Node → RoutingTable → Node
with_table n t = record n { ip = record n.ip { routing_table = t } }

-- A RIP packet that does not panic the handler, the timer of expired entries, and the commands `up`
-- and `down`.
pub data StepsTo (n : Node) : Node → Type 0 where
  received :
      (now : ℕ) (src : Addr) (payload : List ℕ) (r : Router) (sent : List Message)
      → rip_recv_handler now (router_of n) src payload ≡ some (r, sent)
      → StepsTo n (with_table n r.table)
  expired : (now : ℕ) → StepsTo n (with_table n (expire now (router_of n)).0.table)
  switched :
      (ifname : String) (down : Bool) (s : IpGlobalInfo)
      → set_interface_is_down n.ip ifname down ≡ some s
      → StepsTo n (record n { ip = s })

pub data Reaches (n : Node) : Node → Type 0 where
  here : Reaches n n
  later : (m o : Node) → Reaches n m → StepsTo m o → Reaches n o

-- What the handler of test packets ends with: the packet is for one of the interfaces, or it is
-- sent on.
pub data Tested : Type 0 where
  received_here : Tested
  forwarded : Sent → Tested

unfoldable pub is_mine : Addr → List (String × Interface) → Bool
is_mine dst [] = false
is_mine dst ((_, i) ∷ is) = if dst == i.assigned_ip then true else is_mine dst is

abbrev pub forward_on : (AddrPort → IpPacket → Bool) → IpPacket → Link → Sent
forward_on socket packet Link.panicked = Sent.panicked
forward_on socket packet Link.running = Sent.running
forward_on socket packet unreachable = refused
forward_on socket packet (link i remote) = forward_packet socket i remote packet

unfoldable pub router_test_recv_handler :
    (AddrPort → IpPacket → Bool) → ℕ → IpGlobalInfo → IpPacket → Tested
unfolding is_mine forward_packet find_link_layer_src_dst
router_test_recv_handler socket fuel s packet =
    let sent = forward_on socket packet (find_link_layer_src_dst fuel s packet.dst) in
    if is_mine packet.dst s.interfaces then received_here else forwarded sent
