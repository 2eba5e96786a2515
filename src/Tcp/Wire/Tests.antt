-- ===== src/Tcp/Wire/Tests.antt =====
-- An instance of the theorem on a segment's way from socket to socket, with encodings of the headers
-- that put each field into one element of 20, and with sums of the elements. The sum of an IP header
-- leaves out its checksum, and an initial value that is not 0 is the sum.

use gotcp.Prelude.{
  ℕ, ◌+◌, ◌≡◌, ◌==◌, ◌≢◌, refl, subst, arith, Bool, false, Option, none, some, List, [], ◌∷◌, ◌++◌,
  length, replicate,
}
use gotcp.Prelude.Words.{u16}
use gotcp.Proto.Segment.{TcpPacket, default_tcp_header_len}
use gotcp.Ip.Forward.{IpPacket, Interface, new_packet, proto_num_tcp, Taken}
use gotcp.Ip.Wire.{HeaderCodec, HeaderLaws, compute_checksum, datagram, marshal, receive, received}
use gotcp.Tcp.Tables.{TcpGlobalInfo, tcp_recv_handler}
use gotcp.Tcp.Wire.{TcpCodec, TcpLaws, InRange, segment_bytes, handle_tcp_packet, handled}
use gotcp.Tcp.Wire.Arrives.{segment_arrives}

abbrev nth : ℕ → List ℕ → Option ℕ
nth n [] = none
nth ℕ.zero (x ∷ xs) = some x
nth (ℕ.suc n) (x ∷ xs) = nth n xs

abbrev total : List ℕ → ℕ
total [] = 0
total (x ∷ xs) = x + total xs

abbrev tcp_codec : TcpCodec
tcp_codec = record {
  encode = λ p.
      p.src_port
      ∷ p.dst_port
      ∷ p.seq_num
      ∷ p.ack_num
      ∷ p.data_offset
      ∷ p.flags
      ∷ p.window_size
      ∷ p.checksum
      ∷ replicate 12 0;
  get_source_port = nth 0;
  get_destination_port = nth 1;
  get_sequence_number = nth 2;
  get_ack_number = nth 3;
  get_data_offset = nth 4;
  get_flags = nth 5;
  get_window_size = nth 6;
  get_checksum = nth 7;
  sum = λ b i. u16 (i + total b);
}

tcp_codec-TcpLaws : TcpLaws tcp_codec
tcp_codec-TcpLaws = record {
  length-encode = λ p. refl;
  source_port_back = λ p rest r. refl;
  destination_port_back = λ p rest r. refl;
  sequence_number_back = λ p rest r. refl;
  ack_number_back = λ p rest r. refl;
  data_offset_back = λ p rest r. refl;
  flags_back = λ p rest r. refl;
  window_size_back = λ p rest r. refl;
  checksum_back = λ p rest r. refl;
  sum_lt = λ b i. omega arith;
}

abbrev parse_header : List ℕ → Option (IpPacket × (ℕ × ℕ))
parse_header (c ∷ l ∷ t ∷ o ∷ s ∷ d ∷ _) =
    some (record { total_len = l; ttl = t; protocol = o; src = s; dst = d; payload = [] }, (20, c))
parse_header _ = none

abbrev header_sum : List ℕ → ℕ → ℕ
header_sum (c ∷ b) ℕ.zero = u16 (total b)
header_sum _ i = i

abbrev ip_codec : HeaderCodec
ip_codec = record {
  header_bytes =
      λ p c. some (c ∷ p.total_len ∷ p.ttl ∷ p.protocol ∷ p.src ∷ p.dst ∷ replicate 14 0);
  parse_header = parse_header;
  sum = header_sum;
}

header_sum_self : (b : List ℕ) (c : ℕ) → c ≢ 0 → header_sum b c ≡ c
header_sum_self [] c h = refl
header_sum_self (x ∷ b) ℕ.zero h = absurd (h refl)
header_sum_self (x ∷ b) (ℕ.suc c) h = refl

ip_codec-HeaderLaws : HeaderLaws ip_codec
unfolding compute_checksum
ip_codec-HeaderLaws = record {
  length_header = λ p c b e. subst (λ l. length l ≡ 20) (same e) refl;
  parsed_back = λ p c b rest e.
      subst (λ l. parse_header (l ++ rest) ≡ some (record p { payload = [] }, (20, c))) (same e)
        refl;
  sum_self = λ p b d e n k. header_sum_self d _ n;
}
  where
    same : {b d : List ℕ} → some b ≡ some d → b ≡ d
    same e = cc

abbrev segment : TcpPacket
segment = record {
  src_port = 80;
  dst_port = 5000;
  seq_num = 1001;
  ack_num = 77;
  data_offset = default_tcp_header_len;
  flags = 16;
  window_size = 4000;
  checksum = 0;
  urgent_pointer = 0;
  payload = 1 ∷ 2 ∷ 3 ∷ [];
}

segment-InRange : InRange segment
segment-InRange = record {
  src_port_lt = omega arith;
  dst_port_lt = omega arith;
  seq_num_lt = omega arith;
  ack_num_lt = omega arith;
  data_offset_eq = refl;
  flags_lt = omega arith;
  window_size_lt = omega arith;
  checksum_lt = omega arith;
  urgent_pointer_eq = refl;
}

-- From the host 1 to the host 2.
abbrev packet : IpPacket
unfolding new_packet segment_bytes
packet = new_packet 1 2 (segment_bytes tcp_codec segment 1 2) proto_num_tcp

abbrev header : List ℕ
unfolding packet
header =
    0 ∷ packet.total_len ∷ packet.ttl ∷ packet.protocol ∷ packet.src ∷ packet.dst ∷ replicate 14 0

abbrev bytes : List ℕ
unfolding packet header compute_checksum
bytes =
    (compute_checksum ip_codec header
      ∷ packet.total_len
      ∷ packet.ttl
      ∷ packet.protocol
      ∷ packet.src
      ∷ packet.dst
      ∷ replicate 14 0)
    ++ packet.payload

abbrev interface : Interface
interface = record {
  assigned_ip = 2;
  assigned_prefix = record { addr = 0; bits = some 24 };
  udp_addr = (9, 5000);
  is_down = false;
}

abbrev handles_tcp : ℕ → Bool
handles_tcp n = n == proto_num_tcp

abbrev tables : TcpGlobalInfo
tables = record { own_addr = 2; listener_table = (5000, 0) ∷ []; conn_table = []; socket_num = 1 }

bytes-datagram : datagram ip_codec packet ≡ some bytes
unfolding datagram marshal packet header bytes compute_checksum new_packet segment_bytes
bytes-datagram = refl

segment_arrives_example :
    (q : IpPacket) × (receive ip_codec handles_tcp interface bytes ≡ received (Taken.handled q))
    × (handle_tcp_packet tcp_codec tables q
        ≡ handled
            (tcp_recv_handler tables
              (record { local_addr = 2; local_port = 5000; remote_addr = 1; remote_port = 80 }))
            segment)
unfolding packet header bytes compute_checksum new_packet segment_bytes
segment_arrives_example =
    segment_arrives tcp_codec tcp_codec-TcpLaws segment segment-InRange 1 2 ip_codec tables
      handles_tcp interface header bytes ip_codec-HeaderLaws (omega arith) refl (λ e. cc)
      bytes-datagram refl refl refl
