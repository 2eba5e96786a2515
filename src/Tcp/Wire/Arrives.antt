-- ===== src/Tcp/Wire/Arrives.antt =====
-- A segment from `send` to tcpRecvHandler.
use mathlib.Core.List.{append-nil}
use gotcp.Prelude.{
  ℕ, ◌+◌, ◌-◌, ◌≤◌, ◌<◌, ◌≡◌, refl, sym, ap, subst, ◌∙◌, arith, Bool, true, false, some, List, [],
  ◌++◌, length, slice, le→leb, ◌≢◌, ==_iff, length-append,
}
use gotcp.Prelude.Copies.{slice_middle}
use gotcp.Prelude.Xor.{bit_xor_lt}
use gotcp.Prelude.Words.{u16_mod}
use gotcp.Ip.Addr.{Addr}
use gotcp.Proto.Segment.{TcpPacket, mtu, mss, default_ip_header_len, default_tcp_header_len}
use gotcp.Ip.Forward.{IpPacket, proto_num_tcp, new_packet}
use gotcp.Ip.Forward.{Interface, Taken, listen_on}
use gotcp.Ip.Forward.Packets.{new_packet-Sized}
use gotcp.Ip.Wire.{HeaderCodec, HeaderLaws, compute_checksum, datagram, receive, received, zeros}
use gotcp.Ip.Wire.Arrives.{receive-datagram}
use gotcp.Tcp.Tables.{TcpGlobalInfo, tcp_recv_handler}
use gotcp.Tcp.Wire.{
  TcpCodec, TcpLaws, InRange, parse_tcp_header, unmarshal, compute_tcp_checksum, valid_tcp_checksum,
  segment_bytes, handled, handle_tcp_packet, handle_segment, checked,
}

-- The part of a slice behind its first bytes.
slice-rest :
    (xs ys : List ℕ) (n : ℕ) → length xs ≡ n → slice (xs ++ ys) n (length (xs ++ ys)) ≡ some ys
slice-rest xs ys n h =
    subst (λ l. slice (xs ++ l) n (length (xs ++ ys)) ≡ some ys) (append-nil ys)
      (slice_middle xs ys [] n (length (xs ++ ys)) (sym h) (length-append xs ys))

-- The part of the payload that the total length gives.
handle_tcp_packet-padded :
    (c : TcpCodec) (t : TcpGlobalInfo) (q : IpPacket) (segment rest : List ℕ)
    → q.payload ≡ segment ++ rest
    → q.total_len ≡ default_ip_header_len + length segment
    → handle_tcp_packet c t q ≡ handle_segment c t q (unmarshal c segment)
unfolding handle_tcp_packet
handle_tcp_packet-padded c t q segment rest e l =
    rw
      (
        e,
        le→leb default_ip_header_len q.total_len (omega (arith, l)),
        slice_middle [] segment rest 0 (q.total_len - default_ip_header_len) refl
            (omega (arith, l)),
      )
      refl

module _ (c : TcpCodec) (laws : TcpLaws c) where
  parse_tcp_header-encode :
      (p : TcpPacket) (rest : List ℕ)
      → InRange p
      → parse_tcp_header c (c.encode p ++ rest)
        ≡ some (record p { urgent_pointer = 0; payload = [] })
  unfolding parse_tcp_header
  parse_tcp_header-encode p rest r =
      rw
        (
          laws.source_port_back p rest r,
          laws.destination_port_back p rest r,
          laws.sequence_number_back p rest r,
          laws.ack_number_back p rest r,
          laws.data_offset_back p rest r,
          laws.flags_back p rest r,
          laws.window_size_back p rest r,
          laws.checksum_back p rest r,
        )
        refl

  unmarshal-encode :
      (p : TcpPacket) (rest : List ℕ)
      → InRange p
      → unmarshal c (c.encode p ++ rest) ≡ some (record p { payload = rest })
  unfolding unmarshal
  unmarshal-encode p rest r =
      rw
        (
          parse_tcp_header-encode p rest r,
          slice-rest (c.encode p) rest p.data_offset (laws.length-encode p ∙ sym r.data_offset_eq),
          r.urgent_pointer_eq,
        )
        refl

  compute_tcp_checksum_lt :
      (p : TcpPacket) (src dst : Addr) → compute_tcp_checksum c p src dst < u16_mod
  unfolding compute_tcp_checksum
  compute_tcp_checksum_lt p src dst = bit_xor_lt 16 _ 65535 (laws.sum_lt p.payload _) (omega arith)

  module _ (p : TcpPacket) (r : InRange p) (src dst : Addr) where
    abbrev cleared : TcpPacket
    cleared = record p { checksum = 0 }

    abbrev sealed : TcpPacket
    sealed = record p { checksum = compute_tcp_checksum c cleared src dst }

    sealed-InRange : InRange sealed
    sealed-InRange = record {
      src_port_lt = r.src_port_lt;
      dst_port_lt = r.dst_port_lt;
      seq_num_lt = r.seq_num_lt;
      ack_num_lt = r.ack_num_lt;
      data_offset_eq = r.data_offset_eq;
      flags_lt = r.flags_lt;
      window_size_lt = r.window_size_lt;
      checksum_lt = compute_tcp_checksum_lt cleared src dst;
      urgent_pointer_eq = r.urgent_pointer_eq;
    }

    -- The checksum of a segment that was sent is found right.
    valid_tcp_checksum-sealed : valid_tcp_checksum c sealed src dst ≡ (true, cleared)
    unfolding valid_tcp_checksum
    valid_tcp_checksum-sealed = rw ((==_iff (compute_tcp_checksum c cleared src dst) _).1 refl) refl

    abbrev packet : IpPacket
    packet = new_packet src dst (segment_bytes c p src dst) proto_num_tcp

    sized :
        (packet.total_len ≤ mtu)
        × (packet.total_len ≡ default_ip_header_len + length packet.payload)
        × (length (segment_bytes c p src dst) ≤ default_tcp_header_len + mss
            → packet.payload ≡ segment_bytes c p src dst)
    sized = new_packet-Sized src dst (segment_bytes c p src dst) proto_num_tcp

    carried : length p.payload ≤ mss → packet.payload ≡ segment_bytes c p src dst
    unfolding segment_bytes
    carried h =
        sized.2
          (omega (arith, length-append (c.encode sealed) p.payload, laws.length-encode sealed, h))

    unmarshalled : unmarshal c (segment_bytes c p src dst) ≡ some sealed
    unfolding segment_bytes
    unmarshalled = unmarshal-encode sealed p.payload sealed-InRange

    -- The packet that carries the segment, as it comes in: with less time to live, and with what follows
    -- the payload in the buffer.
    abbrev arrived : ℕ → List ℕ → IpPacket
    arrived ttl rest = record packet { ttl = ttl; payload = packet.payload ++ rest }

    -- A segment with at most the payload that fits, sent in an IP packet, comes out as it was, with its
    -- checksum found right and cleared, for the target that its ports and addresses name, whatever
    -- follows it in the buffer.
    pub handle_tcp_packet-segment_bytes :
        (t : TcpGlobalInfo) (ttl : ℕ) (rest : List ℕ)
        → length p.payload ≤ mss
        → handle_tcp_packet c t (arrived ttl rest)
          ≡ handled
              (tcp_recv_handler t (record {
                local_addr = dst;
                local_port = p.dst_port;
                remote_addr = src;
                remote_port = p.src_port;
              }))
              cleared
    unfolding new_packet
    handle_tcp_packet-segment_bytes t ttl rest fits =
        handle_tcp_packet-padded c t (arrived ttl rest) (segment_bytes c p src dst) rest
          (ap (λ l. l ++ rest) (carried fits))
          (sized.1 ∙ ap (λ l. default_ip_header_len + length l) (carried fits))
        ∙ ap (handle_segment c t (arrived ttl rest)) unmarshalled
        ∙ ap (checked t (arrived ttl rest)) valid_tcp_checksum-sealed

    arrived-listen_on :
        (has_handler : ℕ → Bool) (i : Interface) (rest : List ℕ)
        → i.is_down ≡ false
        → i.assigned_ip ≡ dst
        → has_handler proto_num_tcp ≡ true
        → listen_on (λ _. true) has_handler i (record packet { payload = packet.payload ++ rest })
          ≡ Taken.handled (arrived 31 rest)
    unfolding listen_on new_packet
    arrived-listen_on has_handler i rest up mine ours =
        rw (up, mine, (==_iff dst dst).1 refl, ours) refl

    -- The same from socket to socket: the datagram that ForwardPacket writes for the segment makes the
    -- interface with the destination's address hand a packet to the TCP handler, and the handler
    -- takes the segment that was sent out of it.
    pub segment_arrives :
        (h : HeaderCodec) (t : TcpGlobalInfo) (has_handler : ℕ → Bool) (i : Interface)
        (b d : List ℕ)
        → HeaderLaws h
        → length p.payload ≤ mss
        → h.header_bytes packet 0 ≡ some b
        → compute_checksum h b ≢ 0
        → datagram h packet ≡ some d
        → i.is_down ≡ false
        → i.assigned_ip ≡ dst
        → has_handler proto_num_tcp ≡ true
        → (q : IpPacket) × (receive h has_handler i d ≡ received (Taken.handled q))
          × (handle_tcp_packet c t q
              ≡ handled
                  (tcp_recv_handler t (record {
                    local_addr = dst;
                    local_port = p.dst_port;
                    remote_addr = src;
                    remote_port = p.src_port;
                  }))
                  cleared)
    segment_arrives h t has_handler i b d laws_h fits e n k up mine ours =
        let padding = zeros (mtu - (default_ip_header_len + length packet.payload)) in
        (
          arrived 31 padding,
          receive-datagram h laws_h packet b d has_handler i e n k (omega (arith, sized.0, sized.1))
                up
              ∙ ap received (arrived-listen_on has_handler i padding up mine ours),
          handle_tcp_packet-segment_bytes t 31 padding fits,
        )
