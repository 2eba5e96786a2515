-- ===== src/Ip/Wire/Arrives.antt =====
-- A packet from ForwardPacket to listenOn.
use gotcp.Prelude.{
  ℕ, zero, suc, subst, inl, inr, Option-cases, ==_iff, ◌+◌, ◌-◌, ◌≤◌, ◌≡◌, ◌≢◌, refl, sym, ap, ◌∙◌,
  arith, Bool, true, false, none, some, List, [], ◌++◌, length, take, drop, copy_at, slice, ◌==◌,
  length-append, length-replicate, take-append-drop,
}
use mathlib.Core.List.{append-nil, append_assoc}
use gotcp.Prelude.Copies.{take-copy_at, drop-copy_at, slice_middle, take-append}
use gotcp.Proto.Segment.{mtu, default_ip_header_len}
use gotcp.Proto.Rip.{parsed}
use gotcp.Ip.Forward.{Interface, IpPacket, listen_on}
use gotcp.Ip.Wire.{
  zeros, HeaderCodec, HeaderLaws, compute_checksum, validate_ip_checksum, marshal, datagram,
  unmarshal, read_from_udp, received, receive,
}

length-zeros : (n : ℕ) → length (zeros n) ≡ n
unfolding zeros
length-zeros n = length-replicate n 0

same-zeros : (m n : ℕ) → m ≡ n → zeros m ≡ zeros n
same-zeros m n e = ap zeros e

drop-zeros : (n m : ℕ) → drop n (zeros m) ≡ zeros (m - n)
unfolding zeros
drop-zeros zero m = same-zeros m (m - 0) (omega arith)
drop-zeros (suc n) zero = same-zeros 0 (0 - suc n) (omega arith)
drop-zeros (suc n) (suc m) = drop-zeros n m ∙ same-zeros (m - n) (suc m - suc n) (omega arith)

-- The buffer after a datagram that fits.
read_from_udp-fits : (d : List ℕ) → length d ≤ mtu → read_from_udp d ≡ d ++ zeros (mtu - length d)
unfolding read_from_udp
read_from_udp-fits d h =
    sym (take-append-drop (length d) (copy_at (zeros mtu) 0 d))
    ∙ ap (λ l. l ++ drop (length d) (copy_at (zeros mtu) 0 d)) (take-copy_at (zeros mtu) d fits)
    ∙ ap (λ l. d ++ l) (drop-copy_at (zeros mtu) d fits ∙ drop-zeros (length d) mtu)
  where
    fits : length d ≤ length (zeros mtu)
    fits = omega (arith, length-zeros mtu)

-- The part of a slice behind its first bytes.
slice-rest :
    {A : Type 0} (xs ys : List A) (n : ℕ)
    → length xs ≡ n
    → slice (xs ++ ys) n (length (xs ++ ys)) ≡ some ys
slice-rest xs ys n h =
    subst (λ l. slice (xs ++ l) n (length (xs ++ ys)) ≡ some ys) (append-nil ys)
      (slice_middle xs ys [] n (length (xs ++ ys)) (sym h) (length-append xs ys))

module _ (h : HeaderCodec) (laws : HeaderLaws h) where
  unmarshal-marshal :
      (p : IpPacket) (c : ℕ) (b rest : List ℕ)
      → h.header_bytes p c ≡ some b
      → unmarshal h (b ++ rest) ≡ parsed (record p { payload = rest }, (default_ip_header_len, c))
  unfolding unmarshal
  unmarshal-marshal p c b rest e =
      rw
        (
          laws.parsed_back p c b rest e,
          slice-rest b rest default_ip_header_len (laws.length_header p c b e),
        )
        refl

  -- What ForwardPacket writes.
  datagram-bytes :
      (p : IpPacket) (b d : List ℕ)
      → h.header_bytes p 0 ≡ some b
      → datagram h p ≡ some d
      → (b1 : List ℕ) × (h.header_bytes p (compute_checksum h b) ≡ some b1) × (d ≡ b1 ++ p.payload)
  unfolding datagram marshal
  datagram-bytes p b d e k = elim (Option-cases (h.header_bytes p (compute_checksum h b))) [
    | inl n ↦ absurd (none_not (rw (e, n) at k))
    | inr (b1, m) ↦ (b1, m, same (rw (e, m) at k))
  ]
    where
      none_not : none ≡ some d → ⊥
      none_not q = cc

      same : {x : List ℕ} → some x ≡ some d → d ≡ x
      same q = cc

  -- A packet of at most the size of the buffer, written by ForwardPacket, is taken by an interface that
  -- is up as the packet that it was, with zeros behind its payload up to the size of the buffer,
  -- and with a checksum that is found right, if that checksum is not 0.
  pub receive-datagram :
      (p : IpPacket) (b d : List ℕ) (has_handler : ℕ → Bool) (i : Interface)
      → h.header_bytes p 0 ≡ some b
      → compute_checksum h b ≢ 0
      → datagram h p ≡ some d
      → default_ip_header_len + length p.payload ≤ mtu
      → i.is_down ≡ false
      → receive h has_handler i d
        ≡ received (
            listen_on
              (λ _. true)
              has_handler
              i
              (record p {
                payload = p.payload ++ zeros (mtu - (default_ip_header_len + length p.payload));
              }))
  unfolding receive validate_ip_checksum
  receive-datagram p b d has_handler i e c k fits up =
      let (b1, m, w) = datagram-bytes p b d e k in
      let size : length d ≡ default_ip_header_len + length p.payload =
        ap length w
        ∙ length-append b1 p.payload
        ∙ ap (λ n. n + length p.payload) (laws.length_header p _ b1 m) in
      let whole : read_from_udp d
          ≡ b1 ++ (p.payload ++ zeros (mtu - (default_ip_header_len + length p.payload))) =
        read_from_udp-fits d (omega (arith, size, fits))
        ∙ ap (λ n. d ++ zeros (mtu - n)) size
        ∙ ap (λ l. l ++ zeros (mtu - (default_ip_header_len + length p.payload))) w
        ∙ append_assoc b1 p.payload _ in
      rw (up, whole, unmarshal-marshal p (compute_checksum h b) b1 _ m, right b1 m) refl
    where
      padded : List ℕ
      padded = p.payload ++ zeros (mtu - (default_ip_header_len + length p.payload))

      right :
          (b1 : List ℕ)
          → h.header_bytes p (compute_checksum h b) ≡ some b1
          → (compute_checksum h b
              == h.sum (take default_ip_header_len (b1 ++ padded)) (compute_checksum h b))
            ≡ true
      right b1 m = (==_iff _ _).1 (
          sym (
            ap (λ n. h.sum (take n (b1 ++ padded)) (compute_checksum h b))
              (sym (laws.length_header p _ b1 m))
            ∙ ap (λ l. h.sum l (compute_checksum h b)) (take-append b1 padded)
            ∙ laws.sum_self p b b1 e c m))
