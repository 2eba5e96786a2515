-- ===== src/Config/Lines.antt =====
-- The lines of a configuration file, against what holds of a configuration.
use Prim.Native.String.{String}
use gotcp.Prelude.{ℕ, ◌+◌, ◌≡◌, Option, none, some, List, [], ◌∷◌, Bool-cases, inl, inr}
use gotcp.Prelude.{subst}
use gotcp.Prelude.Quantifiers.{All-append, Any-append, All-map}
use gotcp.Ip.Addr.{Addr, Prefix}
use gotcp.Ip.Forward.{name_eq}
use gotcp.Config.Text.{split, fscanf}
use gotcp.Config.Netip.{parse_addr, parse_prefix, parse_addr_port, has_ipv6_text, masked}
use gotcp.Config.Bounds.{
  Gives, Gives->>=, parse_addr_lt, IsPrefix, parse_prefix_ok, IsAddrPort, parse_addr_port_ok,
  masked-IsPrefix, contains-masked,
}
use gotcp.Config.Parse.{
  IpConfig, Parsed, panicked, refused, parsed, has_prefix, has_neighbor, add_originating_prefix,
  add_rip_neighbor, rip_command, originate_prefix, advertise_address, originate, advertise_to,
  routing_type, route_from, neighbor_from, interface_from,
}
use gotcp.Config.Load.{
  head_of, is_skipped, after, parse_command, parse_line, Loaded, parse_lines, parse_config, loaded,
  empty_config,
}
use gotcp.Config.Consistent.{
  Consistent, Kept, IsAddr, if_Kept, from_fields, set_static_route-All, loaded_inj, has_prefix-Any,
  has_neighbor-Any, masked_idem,
}

module _ (c : IpConfig) (ok : Consistent c) where
  add_originating_prefix-Kept : (p : Prefix) → Kept (add_originating_prefix c p)
  unfolding add_originating_prefix
  add_originating_prefix-Kept p =
      let (is, ns, ps, rs, ss) = ok in
      elim (Bool-cases (has_prefix p c.interfaces)) [
        | inr h ↦ rw h tt
        | inl h ↦ rw h (is, ns, All-append _ _ p ps (has_prefix-Any p _ h), rs, ss)
      ]

  add_rip_neighbor-Kept : (a : Addr) → Kept (add_rip_neighbor c a)
  unfolding add_rip_neighbor
  add_rip_neighbor-Kept a =
      let (is, ns, ps, rs, ss) = ok in
      elim (Bool-cases (has_neighbor a c.neighbors)) [
        | inr h ↦ rw h tt
        | inl h ↦ rw h (is, ns, ps, All-append _ _ a rs (has_neighbor-Any a _ h), ss)
      ]

  originate_prefix-Kept : (o : Option Prefix) → Kept (originate_prefix c o)
  originate_prefix-Kept none = tt
  originate_prefix-Kept (some q) = add_originating_prefix-Kept (masked q)

  advertise_address-Kept : (o : Option Addr) → Kept (advertise_address c o)
  advertise_address-Kept none = tt
  advertise_address-Kept (some a) = add_rip_neighbor-Kept a

  rip_command-Kept : (ts : List String) → Kept (rip_command c ts)
  rip_command-Kept [] = tt
  rip_command-Kept (_ ∷ []) = tt
  rip_command-Kept (_ ∷ cmd ∷ ts) =
      if_Kept (name_eq cmd "originate") _ _ (originated ts)
        (if_Kept (name_eq cmd "advertise-to") _ _ (advertised ts) tt)
    where
      originated : (ts : List String) → Kept (originate c ts)
      originated [] = tt
      originated (t ∷ []) = if_Kept (name_eq t "prefix") _ _ tt tt
      originated (t ∷ p ∷ _) = originate_prefix-Kept (parse_prefix p)

      advertised : (ts : List String) → Kept (advertise_to c ts)
      advertised [] = tt
      advertised (t ∷ _) = advertise_address-Kept (parse_addr t)

  routing_type-Kept : (ts : List String) → Kept (routing_type c ts)
  routing_type-Kept [] = tt
  routing_type-Kept (_ ∷ []) = tt
  routing_type-Kept (_ ∷ rt ∷ _) =
      if_Kept (name_eq rt "static") _ _ ok (if_Kept (name_eq rt "rip") _ _ ok tt)

  route_from-Kept : (ws : List String) → Gives Consistent (route_from c ws)
  route_from-Kept [] = tt
  route_from-Kept (_ ∷ []) = tt
  route_from-Kept (p ∷ a ∷ []) =
      let (is, ns, ps, rs, ss) = ok in
      Gives->>= IsPrefix Consistent (parse_prefix p) _ (parse_prefix_ok p) λ q hq.
        Gives->>= IsAddr Consistent (parse_addr a) _ (parse_addr_lt a)
          λ b hb. (is, ns, ps, rs, set_static_route-All q b hq hb _ ss)
  route_from-Kept (_ ∷ _ ∷ _ ∷ _) = tt

  neighbor_from-Kept : (ws : List String) → Gives Consistent (neighbor_from c ws)
  neighbor_from-Kept [] = tt
  neighbor_from-Kept (_ ∷ []) = tt
  neighbor_from-Kept (_ ∷ _ ∷ []) = tt
  neighbor_from-Kept (a ∷ u ∷ n ∷ []) =
      let (is, ns, ps, rs, ss) = ok in
      Gives->>= IsAddr Consistent (parse_addr a) _ (parse_addr_lt a) λ b hb.
        Gives->>= IsAddrPort Consistent (parse_addr_port u) _ (parse_addr_port_ok u) λ v hv.
          (is, All-append _ _ _ ns (hb, hv), ps, All-map _ (λ r h. Any-append _ _ _ h) rs, ss)
  neighbor_from-Kept (_ ∷ _ ∷ _ ∷ _ ∷ _) = tt

  interface_from-Kept : (ws : List String) → Gives Consistent (interface_from c ws)
  interface_from-Kept [] = tt
  interface_from-Kept (_ ∷ []) = tt
  interface_from-Kept (_ ∷ _ ∷ []) = tt
  interface_from-Kept (n ∷ p ∷ u ∷ []) =
      let (is, ns, ps, rs, ss) = ok in
      Gives->>= IsPrefix Consistent (parse_prefix p) _ (parse_prefix_ok p) λ q hq.
        Gives->>= IsAddrPort Consistent (parse_addr_port u) _ (parse_addr_port_ok u) λ v hv. (
          All-append _ _ _ is
              (hq.0, masked-IsPrefix q hq, masked_idem q hq, contains-masked q hq, hv),
          ns,
          All-map _ (λ r h. Any-append _ _ _ h) ps,
          rs,
          ss,
        )
  interface_from-Kept (_ ∷ _ ∷ _ ∷ _ ∷ _) = tt

  parse_command-Kept : (head line : String) → Kept (parse_command head line c)
  unfolding parse_command
  parse_command-Kept head line =
      if_Kept (name_eq head "interface") _ _
        (from_fields (interface_from c) (fscanf ("interface " ∷ " " ∷ " " ∷ []) line)
          interface_from-Kept)
        (if_Kept (name_eq head "neighbor") _ _
          (from_fields (neighbor_from c) (fscanf ("neighbor " ∷ " at " ∷ " via " ∷ []) line)
            neighbor_from-Kept)
          (if_Kept (name_eq head "routing") _ _ (routing_type-Kept (split b' ' line)) (
            if_Kept (name_eq head "route") _ _
              (from_fields (route_from c) (fscanf ("route " ∷ " via " ∷ []) line) route_from-Kept)
              (if_Kept (name_eq head "rip") _ _ (rip_command-Kept (split b' ' line)) tt))))

  parse_line-Kept : (line : String) → Kept (parse_line line c)
  unfolding parse_line
  parse_line-Kept line =
      let words = split b' ' line in
      if_Kept (is_skipped (head_of words)) (parsed c) _ ok (
        if_Kept (has_ipv6_text words) Parsed.outside (parse_command (head_of words) line c) tt
          (parse_command-Kept (head_of words) line))

after-Consistent :
    (ln : ℕ) (r : Parsed) (next : IpConfig → Loaded) (d : IpConfig)
    → Kept r
    → ((c : IpConfig) → Consistent c → next c ≡ loaded d → Consistent d)
    → after ln r next ≡ loaded d
    → Consistent d
after-Consistent ln panicked next d k f e = absurd cc
after-Consistent ln refused next d k f e = absurd cc
after-Consistent ln Parsed.outside next d k f e = absurd cc
after-Consistent ln (parsed c) next d k f e = f c k e

-- The configuration is consistent after each line.
parse_lines-Consistent :
    (ln : ℕ) (lines : List String) (c d : IpConfig)
    → Consistent c
    → parse_lines ln lines c ≡ loaded d
    → Consistent d
unfolding parse_lines
parse_lines-Consistent ln [] c d ok h = subst Consistent (loaded_inj h) ok
parse_lines-Consistent ln (line ∷ lines) c d ok h =
    after-Consistent (ln + 1) (parse_line line c) (parse_lines (ln + 1) lines) d
      (parse_line-Kept c ok line) (λ c1 k. parse_lines-Consistent (ln + 1) lines c1 d k) h

-- A configuration that a file of IPv4 texts gives, one with no line outside the model, is consistent:
-- each address fits in 32 bits and each port in 16, no prefix is longer than 32 bits, the prefix of an interface is masked and contains the
-- address of the interface, an originating prefix is the prefix of an interface, and a RIP
-- neighbour is the address of a neighbour.
pub parse_config-Consistent :
    (lines : List String) (c : IpConfig) → parse_config lines ≡ loaded c → Consistent c
unfolding parse_config
parse_config-Consistent lines c h =
    parse_lines-Consistent 0 lines empty_config c (tt, tt, tt, tt, tt) h
