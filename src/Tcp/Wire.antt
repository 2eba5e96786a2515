-- ===== src/Tcp/Wire.antt =====
-- pkg/proto/tcppacket.go, `send` of pkg/tcpstack/tcp_internal.go and tcpRecvHandler of tcpstack.go: a
-- segment as bytes, its checksum, and back. The header's bytes, the reading of its fields and the
-- sum are those of package netstack, and so are parameters.
pub mod Arrives
mod Tests
use Prim.Native.Nat.{bit_xor}
use gotcp.Prelude.{
  ℕ, ◌+◌, ◌-◌, ◌≤◌, ◌<◌, ◌≡◌, Bool, true, false, Option, none, some, List, [], ◌∷◌, ◌++◌, length,
  slice, leb, ◌==◌, ◌>>=◌, if◌then◌else◌,
}
use gotcp.Prelude.Words.{u16, u16_mod, u32_mod}
use gotcp.Ip.Addr.{Addr}
use gotcp.Proto.Segment.{TcpPacket, default_ip_header_len, default_tcp_header_len}
use gotcp.Proto.Rip.{uint16_to_bytes, uint32_to_bytes}
use gotcp.Ip.Forward.{IpPacket, proto_num_tcp}
use gotcp.Tcp.Tables.{TcpGlobalInfo, TcpEndpointId, Target, tcp_recv_handler}

-- The bytes of a header, and its fields out of bytes; `none` is a read past the end. `sum` starts
-- from an initial value.
pub record TcpCodec : Type 0 where
  pub encode : TcpPacket → List ℕ
  pub get_source_port : List ℕ → Option ℕ
  pub get_destination_port : List ℕ → Option ℕ
  pub get_sequence_number : List ℕ → Option ℕ
  pub get_ack_number : List ℕ → Option ℕ
  pub get_data_offset : List ℕ → Option ℕ
  pub get_flags : List ℕ → Option ℕ
  pub get_window_size : List ℕ → Option ℕ
  pub get_checksum : List ℕ → Option ℕ
  pub sum : List ℕ → ℕ → ℕ

-- The header of the bytes, with no payload.
unfoldable pub parse_tcp_header : TcpCodec → List ℕ → Option TcpPacket
parse_tcp_header c b = c.get_source_port b >>= λ src_port. c.get_destination_port b >>= λ dst_port.
    c.get_sequence_number b >>= λ seq_num. c.get_ack_number b >>= λ ack_num.
    c.get_data_offset b >>= λ data_offset. c.get_flags b >>= λ flags.
    c.get_window_size b >>= λ window_size. c.get_checksum b >>= λ checksum. some (record {
      src_port = src_port;
      dst_port = dst_port;
      seq_num = seq_num;
      ack_num = ack_num;
      data_offset = data_offset;
      flags = flags;
      window_size = window_size;
      checksum = checksum;
      urgent_pointer = 0;
      payload = [];
    })

-- `none` is a panic.
unfoldable pub unmarshal : TcpCodec → List ℕ → Option TcpPacket
unfolding parse_tcp_header
unmarshal c b = parse_tcp_header c b >>= λ hdr.
    slice b hdr.data_offset (length b) >>= λ payload. some (record hdr { payload = payload })

unfoldable pub pseudo_header : Addr → Addr → List ℕ → List ℕ
pseudo_header source_ip dest_ip payload =
    uint32_to_bytes source_ip
    ++ (uint32_to_bytes dest_ip
        ++ (0 ∷ proto_num_tcp ∷ uint16_to_bytes (u16 (default_tcp_header_len + length payload))))

unfoldable pub compute_tcp_checksum : TcpCodec → TcpPacket → Addr → Addr → ℕ
unfolding pseudo_header
compute_tcp_checksum c p source_ip dest_ip =
    let pseudo_header_checksum = c.sum (pseudo_header source_ip dest_ip p.payload) 0 in
    let header_checksum = c.sum (c.encode p) pseudo_header_checksum in
    bit_xor (c.sum p.payload header_checksum) 65535

-- The answer, and the packet with its checksum cleared.
unfoldable pub valid_tcp_checksum : TcpCodec → TcpPacket → Addr → Addr → Bool × TcpPacket
unfolding compute_tcp_checksum
valid_tcp_checksum c p src_ip dst_ip =
    let cleared = record p { checksum = 0 } in
    (compute_tcp_checksum c cleared src_ip dst_ip == p.checksum, cleared)

-- The bytes that `send` gives to the IP layer.
unfoldable pub segment_bytes : TcpCodec → TcpPacket → Addr → Addr → List ℕ
unfolding compute_tcp_checksum
segment_bytes c p src_ip dest_ip =
    let cleared = record p { checksum = 0 } in
    c.encode (record cleared { checksum = compute_tcp_checksum c cleared src_ip dest_ip })
    ++ p.payload

-- What tcpRecvHandler does with a packet: a panic, nothing as the checksum is wrong, or a segment
-- for a target.
pub data Handled : Type 0 where
  panicked wrong_checksum : Handled
  handled : Target → TcpPacket → Handled

abbrev pub endpoint_of : IpPacket → TcpPacket → TcpEndpointId
endpoint_of q p = record {
  local_addr = q.dst;
  local_port = p.dst_port;
  remote_addr = q.src;
  remote_port = p.src_port;
}

abbrev pub checked : TcpGlobalInfo → IpPacket → Bool × TcpPacket → Handled
checked t q (ok, p) =
    if ok then handled (tcp_recv_handler t (endpoint_of q p)) p else wrong_checksum

abbrev pub handle_segment : TcpCodec → TcpGlobalInfo → IpPacket → Option TcpPacket → Handled
handle_segment c t q none = panicked
handle_segment c t q (some p) = checked t q (valid_tcp_checksum c p q.src q.dst)

-- The header of the packet has no options, so its length is 20.
unfoldable pub handle_tcp_packet : TcpCodec → TcpGlobalInfo → IpPacket → Handled
unfolding unmarshal valid_tcp_checksum tcp_recv_handler
handle_tcp_packet c t q =
    let segment =
      if leb default_ip_header_len q.total_len
      then slice q.payload 0 (q.total_len - default_ip_header_len)
      else none in
    handle_segment c t q (segment >>= unmarshal c)

-- The fields fit, the header has no options, and nothing is urgent.
pub record InRange (p : TcpPacket) : Type 0 where
  pub src_port_lt : p.src_port < u16_mod
  pub dst_port_lt : p.dst_port < u16_mod
  pub seq_num_lt : p.seq_num < u32_mod
  pub ack_num_lt : p.ack_num < u32_mod
  pub data_offset_eq : p.data_offset ≡ default_tcp_header_len
  pub flags_lt : p.flags < 256
  pub window_size_lt : p.window_size < u16_mod
  pub checksum_lt : p.checksum < u16_mod
  pub urgent_pointer_eq : p.urgent_pointer ≡ 0

-- What the package documents: a header has 20 bytes, each field of the header is read back, and a
-- sum fits in 16 bits.
pub record TcpLaws (c : TcpCodec) : Type 0 where
  pub length-encode : (p : TcpPacket) → length (c.encode p) ≡ default_tcp_header_len
  pub source_port_back :
      (p : TcpPacket) (rest : List ℕ)
      → InRange p
      → c.get_source_port (c.encode p ++ rest) ≡ some p.src_port
  pub destination_port_back :
      (p : TcpPacket) (rest : List ℕ)
      → InRange p
      → c.get_destination_port (c.encode p ++ rest) ≡ some p.dst_port
  pub sequence_number_back :
      (p : TcpPacket) (rest : List ℕ)
      → InRange p
      → c.get_sequence_number (c.encode p ++ rest) ≡ some p.seq_num
  pub ack_number_back :
      (p : TcpPacket) (rest : List ℕ)
      → InRange p
      → c.get_ack_number (c.encode p ++ rest) ≡ some p.ack_num
  pub data_offset_back :
      (p : TcpPacket) (rest : List ℕ)
      → InRange p
      → c.get_data_offset (c.encode p ++ rest) ≡ some p.data_offset
  pub flags_back :
      (p : TcpPacket) (rest : List ℕ) → InRange p → c.get_flags (c.encode p ++ rest) ≡ some p.flags
  pub window_size_back :
      (p : TcpPacket) (rest : List ℕ)
      → InRange p
      → c.get_window_size (c.encode p ++ rest) ≡ some p.window_size
  pub checksum_back :
      (p : TcpPacket) (rest : List ℕ)
      → InRange p
      → c.get_checksum (c.encode p ++ rest) ≡ some p.checksum
  pub sum_lt : (b : List ℕ) (i : ℕ) → c.sum b i < u16_mod
