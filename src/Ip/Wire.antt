-- ===== src/Ip/Wire.antt =====
-- pkg/proto/ippacket.go: Marshal, Unmarshal and the two checksum functions, and around them the ends
-- of ForwardPacket and listenOn of pkg/ipstack. The header's bytes and the checksum are those of
-- packages iptcp-headers and netstack, and so are parameters.
pub mod Arrives
use Prim.Native.Nat.{bit_xor}
use gotcp.Prelude.{
  ℕ, ◌-◌, ◌≤◌, ◌≡◌, ◌≢◌, Bool, Option, none, some, List, [], ◌++◌, length, take, replicate, copy_at,
  slice, ◌==◌, ◌>>=◌, if◌then◌else◌,
}
use gotcp.Proto.Segment.{mtu, default_ip_header_len}
use gotcp.Proto.Rip.{Unmarshalled, invalid_input, parsed}
use gotcp.Ip.Forward.{Interface, IpPacket, Taken, ignored, listen_on}

-- The header of a packet with a checksum in it, as bytes, and back with its length and its checksum;
-- `none` is an error. `checksum` starts from an initial value.
pub record HeaderCodec : Type 0 where
  pub header_bytes : IpPacket → ℕ → Option (List ℕ)
  pub parse_header : List ℕ → Option (IpPacket × (ℕ × ℕ))
  pub sum : List ℕ → ℕ → ℕ

unfoldable pub compute_checksum : HeaderCodec → List ℕ → ℕ
compute_checksum h b = bit_xor (h.sum b 0) 65535

unfoldable pub validate_ip_checksum : HeaderCodec → List ℕ → ℕ → ℕ
validate_ip_checksum h b from_header = h.sum b from_header

unfoldable pub marshal : HeaderCodec → IpPacket → ℕ → Option (List ℕ)
marshal h p checksum = h.header_bytes p checksum >>= λ b. some (b ++ p.payload)

-- What ForwardPacket writes to the socket: the checksum is that of the header with checksum 0.
unfoldable pub datagram : HeaderCodec → IpPacket → Option (List ℕ)
unfolding compute_checksum marshal
datagram h p = h.header_bytes p 0 >>= λ b. marshal h p (compute_checksum h b)

abbrev with_payload : IpPacket × (ℕ × ℕ) → Option (List ℕ) → Unmarshalled (IpPacket × (ℕ × ℕ))
with_payload q none = Unmarshalled.panicked
with_payload (p, q) (some payload) = parsed (record p { payload = payload }, q)

abbrev unmarshal_from : List ℕ → Option (IpPacket × (ℕ × ℕ)) → Unmarshalled (IpPacket × (ℕ × ℕ))
unmarshal_from b none = invalid_input
unmarshal_from b (some (p, (len, c))) = with_payload (p, (len, c)) (slice b len (length b))

-- The packet with the length of its header and the checksum in it.
unfoldable pub unmarshal : HeaderCodec → List ℕ → Unmarshalled (IpPacket × (ℕ × ℕ))
unmarshal h b = unmarshal_from b (h.parse_header b)

-- `make([]byte, n)`
unfoldable pub zeros : ℕ → List ℕ
zeros n = replicate n 0

-- A datagram is read into a buffer of zeros, of the size of the largest packet; all of the buffer is
-- unmarshalled.
unfoldable pub read_from_udp : List ℕ → List ℕ
unfolding zeros
read_from_udp d = copy_at (zeros mtu) 0 d

pub data Received : Type 0 where
  panicked : Received
  received : Taken → Received

abbrev pub listened :
    HeaderCodec → (ℕ → Bool) → Interface → List ℕ → Unmarshalled (IpPacket × (ℕ × ℕ)) → Received
listened h has_handler i b Unmarshalled.panicked = Received.panicked
listened h has_handler i b invalid_input = received ignored
listened h has_handler i b (parsed (p, (len, c))) =
    received (listen_on (λ _. c == validate_ip_checksum h (take len b) c) has_handler i p)

-- One round of listenOn, on a datagram.
unfoldable pub receive : HeaderCodec → (ℕ → Bool) → Interface → List ℕ → Received
unfolding read_from_udp unmarshal validate_ip_checksum listen_on
receive h has_handler i d =
    let b = read_from_udp d in
    if i.is_down then received ignored else listened h has_handler i b (unmarshal h b)

-- What the two packages document: a header of 20 bytes is parsed back with what it was made from,
-- and the sum of a header with its own checksum in it, started from that checksum, is that
-- checksum, if it is not 0.
pub record HeaderLaws (h : HeaderCodec) : Type 0 where
  pub length_header :
      (p : IpPacket) (c : ℕ) (b : List ℕ)
      → h.header_bytes p c ≡ some b
      → length b ≡ default_ip_header_len
  pub parsed_back :
      (p : IpPacket) (c : ℕ) (b rest : List ℕ)
      → h.header_bytes p c ≡ some b
      → h.parse_header (b ++ rest) ≡ some (record p { payload = [] }, (default_ip_header_len, c))
  pub sum_self :
      (p : IpPacket) (b d : List ℕ)
      → h.header_bytes p 0 ≡ some b
      → compute_checksum h b ≢ 0
      → h.header_bytes p (compute_checksum h b) ≡ some d
      → h.sum d (compute_checksum h b) ≡ compute_checksum h b
