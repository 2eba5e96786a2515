-- ===== src/Proto/Segment.antt =====
-- pkg/proto/tcppacket.go: a TCP segment and its flags. The flag bits and the header size are those
-- of netstack's header package.
use Prim.Native.Nat.{bit_and}
use gotcp.Prelude.{ℕ, ◌-◌, Bool, not, List, ◌==◌}

abbrev pub tcp_flag_fin : ℕ
tcp_flag_fin = 1

abbrev pub tcp_flag_syn : ℕ
tcp_flag_syn = 2

abbrev pub tcp_flag_rst : ℕ
tcp_flag_rst = 4

abbrev pub tcp_flag_ack : ℕ
tcp_flag_ack = 16

abbrev pub mtu : ℕ
mtu = 1400

abbrev pub default_ip_header_len : ℕ
default_ip_header_len = 20

abbrev pub default_tcp_header_len : ℕ
default_tcp_header_len = 20

abbrev pub mss : ℕ
mss = mtu - default_tcp_header_len - default_ip_header_len

-- The header fields, with the payload beside them.
pub record TcpPacket : Type 0 where
  pub src_port : ℕ  -- uint16
  pub dst_port : ℕ  -- uint16
  pub seq_num : ℕ  -- uint32
  pub ack_num : ℕ  -- uint32
  pub data_offset : ℕ  -- uint8
  pub flags : ℕ  -- uint8
  pub window_size : ℕ  -- uint16
  pub checksum : ℕ  -- uint16
  pub urgent_pointer : ℕ  -- uint16
  pub payload : List ℕ

unfoldable pub new_tcp_packet : ℕ → ℕ → ℕ → ℕ → ℕ → List ℕ → ℕ → TcpPacket
new_tcp_packet local_port dest_port seq ack flags payload window_size = record {
  src_port = local_port;
  dst_port = dest_port;
  seq_num = seq;
  ack_num = ack;
  data_offset = default_tcp_header_len;
  flags = flags;
  window_size = window_size;
  checksum = 0;
  urgent_pointer = 0;
  payload = payload;
}

unfoldable pub is_ack : TcpPacket → Bool
is_ack p = not (bit_and p.flags tcp_flag_ack == 0)

unfoldable pub is_syn : TcpPacket → Bool
is_syn p = not (bit_and p.flags tcp_flag_syn == 0)

unfoldable pub is_fin : TcpPacket → Bool
is_fin p = not (bit_and p.flags tcp_flag_fin == 0)

unfoldable pub is_rst : TcpPacket → Bool
is_rst p = not (bit_and p.flags tcp_flag_rst == 0)
