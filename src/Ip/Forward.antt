-- ===== src/Ip/Forward.antt =====
-- pkg/ipstack/ip_internal.go and ipstack.go, pkg/proto/ippacket.go: from a destination to the
-- interface and the link-layer address, and what the IP layer sends and takes in. A Go map from
-- names is an association list; a link-layer address is the pair of an address and a port. Sockets
-- and the header's checksum are parameters.
mod Longest
pub mod Hops
pub mod Packets
mod Tests
use Prim.Native.String.{String, compare}
use Prim.Native.Nat.{Ordering}
use gotcp.Prelude.{
  ℕ, zero, suc, ◌+◌, ◌-◌, Bool, true, false, ◌&&◌, not, Option, none, some, List, [], ◌∷◌, min, ltb,
  leb, ◌==◌, if◌then◌else◌, length, take,
}
use gotcp.Proto.Segment.{mtu, default_ip_header_len}
use gotcp.Ip.Addr.{Addr, Prefix, opt_eq, contains}
use gotcp.Ip.Table.{RoutingEntry, RoutingTable, lookup_route}

abbrev pub name_eq : String → String → Bool
name_eq a b = elim (compare a b) [ Ordering.eq ↦ true | _ ↦ false ]

abbrev pub AddrPort : Type 0
AddrPort = Addr × ℕ

pub record Interface : Type 0 where
  pub assigned_ip : Addr
  pub assigned_prefix : Prefix
  pub udp_addr : AddrPort
  pub is_down : Bool

pub record Neighbor : Type 0 where
  pub vip : Addr
  pub nbhr_udp_addr : AddrPort

pub record IpGlobalInfo : Type 0 where
  pub interfaces : List (String × Interface)
  pub if_neighbors : List (String × List Neighbor)
  pub routing_table : RoutingTable

-- `m[name]`: a missing name has the zero value.
abbrev pub get : {A : Type 0} → String → List (String × A) → Option A
get name [] = none
get name ((n, a) ∷ m) = if name_eq n name then some a else get name m

abbrev pub contains? : Prefix → Option Addr → Bool
contains? p none = false
contains? p (some a) = contains p a

-- `prefix.Bits()`; it is asked only of prefixes that contain an address.
abbrev pub bits_of : Prefix → ℕ
bits_of p = elim p.bits [ none ↦ 0 | some n ↦ n ]

unfoldable pub longest_from : Option Addr → RoutingTable → Option Prefix → ℕ → Option Prefix
longest_from dest [] longest max_length = longest
longest_from dest ((p, _) ∷ t) longest max_length =
    let longer = longest_from dest t (some p) (bits_of p) in
    let same = longest_from dest t longest max_length in
    if contains? p dest && leb max_length (bits_of p) then longer else same

unfoldable pub find_longest_matched_prefix : RoutingTable → Option Addr → Option Prefix
unfolding longest_from
find_longest_matched_prefix t dest = longest_from dest t none 0

-- What findNextHopEntry yields: a nil dereference, fuel that ran out, no entry, or an entry; the last
-- two with the address one step before.
pub data Hop : Type 0 where
  panicked running : Hop
  no_route : Option Addr → Hop
  hop : RoutingEntry → Option Addr → Hop

unfoldable pub follow : ℕ → RoutingTable → Option Addr → Option RoutingEntry → Hop
unfolding find_longest_matched_prefix lookup_route
follow zero t alt_addr entry = running
follow (suc fuel) t alt_addr none = panicked
follow (suc fuel) t alt_addr (some entry) =
    let next = λ (p : Prefix). follow fuel t entry.next_hop (lookup_route p t) in
    if name_eq entry.local_next_hop ""
    then elim (find_longest_matched_prefix t entry.next_hop) [
      | none ↦ no_route entry.next_hop
      | some p ↦ next p
    ]
    else hop entry alt_addr

unfoldable pub find_next_hop_entry : ℕ → RoutingTable → Addr → Hop
unfolding follow
find_next_hop_entry fuel t dest_ip = elim (find_longest_matched_prefix t (some dest_ip)) [
  | none ↦ no_route none
  | some p ↦ follow fuel t none (lookup_route p t)
]

unfoldable pub find_neighbor : Addr → List Neighbor → Option Neighbor
find_neighbor nexthop_ip [] = none
find_neighbor nexthop_ip (n ∷ nbhrs) =
    if n.vip == nexthop_ip then some n else find_neighbor nexthop_ip nbhrs

abbrev neighbors_of : Option (List Neighbor) → List Neighbor
neighbors_of none = []
neighbors_of (some l) = l

unfoldable pub find_next_hop_neighbor : IpGlobalInfo → String → Addr → Option Neighbor
unfolding find_neighbor
find_next_hop_neighbor s if_name nexthop_ip =
    find_neighbor nexthop_ip (neighbors_of (get if_name s.if_neighbors))

pub data Link : Type 0 where
  panicked running unreachable : Link
  link : Interface → AddrPort → Link

abbrev pub or_else : Option Addr → Addr → Addr
or_else none a = a
or_else (some b) a = b

abbrev pub to_neighbor : Interface → Option Neighbor → Link
to_neighbor i none = unreachable
to_neighbor i (some n) = link i n.nbhr_udp_addr

abbrev pub on_interface : IpGlobalInfo → Addr → String → Addr → Option Interface → Link
on_interface s dest_ip if_name alt_dest_ip none = Link.panicked
on_interface s dest_ip if_name alt_dest_ip (some i) =
    if i.assigned_ip == dest_ip
    then link i i.udp_addr
    else to_neighbor i (find_next_hop_neighbor s if_name alt_dest_ip)

abbrev pub linked : IpGlobalInfo → Addr → Hop → Link
linked s dest_ip panicked = Link.panicked
linked s dest_ip running = Link.running
linked s dest_ip (no_route _) = unreachable
linked s dest_ip (hop e alt) =
    if name_eq e.local_next_hop ""
    then unreachable
    else on_interface s dest_ip e.local_next_hop (or_else alt dest_ip)
        (get e.local_next_hop s.interfaces)

unfoldable pub find_link_layer_src_dst : ℕ → IpGlobalInfo → Addr → Link
unfolding find_next_hop_entry find_next_hop_neighbor
find_link_layer_src_dst fuel s dest_ip =
    linked s dest_ip (find_next_hop_entry fuel s.routing_table dest_ip)

-- The header fields that the program sets or reads.
pub record IpPacket : Type 0 where
  pub total_len : ℕ
  pub ttl : ℕ
  pub protocol : ℕ
  pub src : Addr
  pub dst : Addr
  pub payload : List ℕ

-- NewPacket.
unfoldable pub new_packet : Addr → Addr → List ℕ → ℕ → IpPacket
new_packet src_ip dest_ip msg proto_num =
    let total_len = min (default_ip_header_len + length msg) mtu in
    record {
      total_len = total_len;
      ttl = 32;
      protocol = proto_num;
      src = src_ip;
      dst = dest_ip;
      payload = take (total_len - default_ip_header_len) msg;
    }

abbrev pub proto_num_rip : ℕ
proto_num_rip = 200

abbrev pub proto_num_test : ℕ
proto_num_test = 0

abbrev pub proto_num_tcp : ℕ
proto_num_tcp = 6

-- What Send ends with: a panic or a loop below it, an error, a packet dropped without an error as
-- the interface is down, or a packet given to the socket for a link-layer address.
pub data Sent : Type 0 where
  panicked running refused dropped : Sent
  wrote : AddrPort → IpPacket → Sent

-- ForwardPacket; the parameter says whether the socket takes the packet.
unfoldable pub forward_packet :
    (AddrPort → IpPacket → Bool) → Interface → AddrPort → IpPacket → Sent
forward_packet socket src_if remote packet =
    if src_if.is_down
    then dropped
    else if socket remote packet
    then Sent.wrote remote packet
    else refused

abbrev pub send_on : (AddrPort → IpPacket → Bool) → Addr → List ℕ → ℕ → Link → Sent
send_on socket dest_ip msg proto_num Link.panicked = Sent.panicked
send_on socket dest_ip msg proto_num Link.running = Sent.running
send_on socket dest_ip msg proto_num unreachable = refused
send_on socket dest_ip msg proto_num (link i remote) =
    forward_packet socket i remote (new_packet i.assigned_ip dest_ip msg proto_num)

unfoldable pub send : (AddrPort → IpPacket → Bool) → ℕ → IpGlobalInfo → Addr → List ℕ → ℕ → Sent
unfolding find_link_layer_src_dst forward_packet new_packet
send socket fuel s dest_ip msg proto_num =
    if not (proto_num == proto_num_rip)
      && (not (proto_num == proto_num_test) && not (proto_num == proto_num_tcp))
    then refused
    else send_on socket dest_ip msg proto_num (find_link_layer_src_dst fuel s dest_ip)

-- A packet that listenOn has read and parsed, on interface `i`: dropped, or with its TTL one less
-- to the handler of its protocol, if there is one.
pub data Taken : Type 0 where
  ignored : Taken
  handled : IpPacket → Taken

-- `checksum_ok` stands for the comparison with the header's checksum, and `has_handler` for the
-- map of handlers.
unfoldable pub listen_on : (IpPacket → Bool) → (ℕ → Bool) → Interface → IpPacket → Taken
listen_on checksum_ok has_handler i packet =
    let p = record packet { ttl = packet.ttl - 1 } in
    if i.is_down
    then ignored
    else if not (p.dst == i.assigned_ip) && p.ttl == 0
    then ignored
    else if not (checksum_ok packet)
    then ignored
    else if has_handler p.protocol
    then handled p
    else ignored
