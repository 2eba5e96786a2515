-- ===== src/Ip/Forward/Packets.antt =====
-- NewPacket and listenOn: the size of a packet, and its life.
use gotcp.Prelude.{
  ℕ, ◌+◌, ◌-◌, ◌≤◌, ◌<◌, ◌≡◌, ◌⊎◌, Bool, true, false, List, arith, min, length, take, take_all,
  length-take,
}
use gotcp.Proto.Segment.{mtu, mss, default_tcp_header_len, default_ip_header_len}
use gotcp.Ip.Addr.{Addr}
use gotcp.Ip.Forward.{IpPacket, Interface, new_packet, listen_on, Taken, ignored, handled}

-- A packet of NewPacket is no longer than the MTU, its length field counts its header and payload,
-- and a message that with its header fits the MTU is carried whole: so is a TCP header with a
-- maximal segment.
pub new_packet-Sized :
    (src_ip dest_ip : Addr)
    → (msg : List ℕ) → (proto_num : ℕ)
    → let p = new_packet src_ip dest_ip msg proto_num in
      (p.total_len ≤ mtu)
      × (p.total_len ≡ default_ip_header_len + length p.payload)
      × (length msg ≤ default_tcp_header_len + mss → p.payload ≡ msg)
unfolding new_packet
new_packet-Sized src_ip dest_ip msg proto_num = (omega arith, omega (arith, len), whole)
  where
    n : ℕ
    n = min (default_ip_header_len + length msg) mtu - default_ip_header_len

    len : length (take n msg) ≡ min n (length msg)
    len = length-take n msg

    whole : length msg ≤ default_tcp_header_len + mss → take n msg ≡ msg
    whole h = take_all n msg (omega arith)

abbrev pub TakenSpec : (IpPacket → Bool) → Interface → IpPacket → Taken → Type 0
TakenSpec checksum_ok i packet ignored = Unit
TakenSpec checksum_ok i packet (handled p) =
    (i.is_down ≡ false)
    × (checksum_ok packet ≡ true)
    × (p.ttl ≡ packet.ttl - 1)
    × ((packet.dst ≡ i.assigned_ip) ⊎ (p.ttl < packet.ttl) × (0 < p.ttl))
    × (p.payload ≡ packet.payload)
    × (p.dst ≡ packet.dst)

-- A packet that listenOn hands to a handler came in on an interface that is up, with a right
-- checksum; it is whole but for its TTL, which is one less, and not used up unless the packet is
-- for the interface itself.
pub listen_on-TakenSpec :
    (checksum_ok : IpPacket → Bool)
    → (has_handler : ℕ → Bool) → (i : Interface) → (packet : IpPacket)
    → TakenSpec checksum_ok i packet (listen_on checksum_ok has_handler i packet)
unfolding listen_on
listen_on-TakenSpec checksum_ok has_handler i packet = ground arith
