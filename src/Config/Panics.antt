-- ===== src/Config/Panics.antt =====
-- The lines that parseRip reads past the end of: the usage error of `rip originate` asks for two
-- faults at once.
use Prim.Native.String.{String}
use text.Mathlib.TextEquality.{eq_iff}
use gotcp.Prelude.{
  List, [], ◌∷◌, ◌≡◌, ◌↔◌, ◌⊎◌, inl, inr, Bool, true, false, Bool-cases, if◌then◌else◌, refl,
  Option, some, none, ap, subst, sym,
}
use gotcp.Ip.Addr.{Addr, Prefix}
use gotcp.Ip.Forward.{name_eq}
use gotcp.Config.Text.{split}
use gotcp.Config.Netip.{parse_addr, parse_prefix, has_ipv6_text, masked}
use gotcp.Config.Parse.{
  IpConfig, Parsed, panicked, refused, parsed, rip_command, originate, originate_prefix,
  advertise_to, advertise_address, add_originating_prefix, add_rip_neighbor, or_refuse, parse_rip,
  parse_routing, parse_route, parse_interface, parse_neighbor, routing_type, has_prefix,
  has_neighbor,
}
use gotcp.Config.Load.{parse_line, parse_command, is_skipped, head_of}

name_eq_iff : (a b : String) → (name_eq a b ≡ true) ↔ (a ≡ b)
name_eq_iff a b = eq_iff a b

-- Text by text: `rip originate` alone, or with `prefix` and no prefix.
abbrev pub Unfinished : List String → Type 0
Unfinished ws = (ws ≡ "rip" ∷ "originate" ∷ []) ⊎ (ws ≡ "rip" ∷ "originate" ∷ "prefix" ∷ [])

refused_not : refused ≡ panicked → ⊥
refused_not h = cc

outside_not : Parsed.outside ≡ panicked → ⊥
outside_not h = cc

parsed_not : {c : IpConfig} → parsed c ≡ panicked → ⊥
parsed_not h = cc

-- Which branch it was that panicked.
if_panics :
    {G : Type 0} (b : Bool) (x y : Parsed)
    → (b ≡ true → x ≡ panicked → G)
    → (y ≡ panicked → G)
    → (if b then x else y) ≡ panicked
    → G
if_panics true x y h k = h refl
if_panics false x y h k = k

if_no_panic :
    {G : Type 0} (b : Bool) (x y : Parsed)
    → (x ≡ panicked → ⊥)
    → (y ≡ panicked → G)
    → (if b then x else y) ≡ panicked
    → G
if_no_panic b x y h = if_panics b x y (λ _ e. absurd (h e))

add_originating_prefix-ends :
    (c : IpConfig) (p : Prefix) → add_originating_prefix c p ≡ panicked → ⊥
unfolding add_originating_prefix
add_originating_prefix-ends c p = if_no_panic (has_prefix p c.interfaces) _ _ parsed_not refused_not

add_rip_neighbor-ends : (c : IpConfig) (a : Addr) → add_rip_neighbor c a ≡ panicked → ⊥
unfolding add_rip_neighbor
add_rip_neighbor-ends c a = if_no_panic (has_neighbor a c.neighbors) _ _ parsed_not refused_not

or_refuse-ends : (o : Option IpConfig) → or_refuse o ≡ panicked → ⊥
or_refuse-ends none h = cc
or_refuse-ends (some c) h = cc

originate_prefix-ends : (c : IpConfig) (o : Option Prefix) → originate_prefix c o ≡ panicked → ⊥
originate_prefix-ends c none h = cc
originate_prefix-ends c (some p) h = add_originating_prefix-ends c (masked p) h

advertise_address-ends : (c : IpConfig) (o : Option Addr) → advertise_address c o ≡ panicked → ⊥
advertise_address-ends c none h = cc
advertise_address-ends c (some a) h = add_rip_neighbor-ends c a h

advertise_to-ends : (c : IpConfig) (ws : List String) → advertise_to c ws ≡ panicked → ⊥
advertise_to-ends c [] h = cc
advertise_to-ends c (t ∷ ws) h = advertise_address-ends c (parse_addr t) h

routing_type-ends : (c : IpConfig) (ws : List String) → routing_type c ws ≡ panicked → ⊥
routing_type-ends c [] h = cc
routing_type-ends c (_ ∷ []) h = cc
routing_type-ends c (_ ∷ rt ∷ _) h =
    if_no_panic (name_eq rt "static") _ _ parsed_not
      (if_no_panic (name_eq rt "rip") _ _ parsed_not refused_not) h

-- What of the words behind `rip originate` makes it panic.
originate-panics :
    (c : IpConfig) (ws : List String) → originate c ws ≡ panicked → (ws ≡ []) ⊎ (ws ≡ "prefix" ∷ [])
originate-panics c [] h = inl refl
originate-panics c (t ∷ []) h = elim (Bool-cases (name_eq t "prefix")) [
  | inl e ↦ inr (ap (λ w. w ∷ []) ((name_eq_iff t "prefix").0 e))
  | inr e ↦ absurd (refused_not (rw e at h))
]
originate-panics c (t ∷ p ∷ ws) h = absurd (originate_prefix-ends c (parse_prefix p) h)

rip_command-panics :
    (c : IpConfig) (h : String) (ws : List String)
    → rip_command c (h ∷ ws) ≡ panicked
    → (ws ≡ "originate" ∷ []) ⊎ (ws ≡ "originate" ∷ "prefix" ∷ [])
rip_command-panics c h [] = λ e. absurd (refused_not e)
rip_command-panics c h (cmd ∷ ws) = if_panics (name_eq cmd "originate") (originate c ws) _ ends (
    if_no_panic (name_eq cmd "advertise-to") (advertise_to c ws) refused (advertise_to-ends c ws)
      (λ e. absurd (refused_not e)))
  where
    ends :
        name_eq cmd "originate" ≡ true
        → originate c ws ≡ panicked
        → (cmd ∷ ws ≡ "originate" ∷ []) ⊎ (cmd ∷ ws ≡ "originate" ∷ "prefix" ∷ [])
    ends n e = elim (originate-panics c ws e) [
      | inl w ↦ inl (cc ((name_eq_iff cmd "originate").0 n, w))
      | inr w ↦ inr (cc ((name_eq_iff cmd "originate").0 n, w))
    ]

rip-panics :
    (c : IpConfig) (ws : List String)
    → name_eq (head_of ws) "rip" ≡ true
    → rip_command c ws ≡ panicked
    → Unfinished ws
rip-panics c [] n e = absurd (refused_not e)
rip-panics c (h ∷ ws) n e = elim (rip_command-panics c h ws e) [
  | inl w ↦ inl (cc ((name_eq_iff h "rip").0 n, w))
  | inr w ↦ inr (cc ((name_eq_iff h "rip").0 n, w))
]

parse_interface-ends : (line : String) (c : IpConfig) → parse_interface line c ≡ panicked → ⊥
unfolding parse_interface
parse_interface-ends line c = or_refuse-ends _

parse_neighbor-ends : (line : String) (c : IpConfig) → parse_neighbor line c ≡ panicked → ⊥
unfolding parse_neighbor
parse_neighbor-ends line c = or_refuse-ends _

parse_route-ends : (line : String) (c : IpConfig) → parse_route line c ≡ panicked → ⊥
unfolding parse_route
parse_route-ends line c = or_refuse-ends _

Unfinished-has_ipv6_text :
    (has_ipv6_text ("rip" ∷ "originate" ∷ []) ≡ false)
    × (has_ipv6_text ("rip" ∷ "originate" ∷ "prefix" ∷ []) ≡ false)
unfolding has_ipv6_text
Unfinished-has_ipv6_text = (refl, refl)

-- A line makes the program panic exactly if it is `rip originate` with nothing behind it, or with
-- just `prefix` behind it.
pub parse_line_panics :
    (line : String) (c : IpConfig) → (parse_line line c ≡ panicked) ↔ Unfinished (split b' ' line)
unfolding parse_line parse_command parse_rip parse_routing
parse_line_panics line c = (forth (split b' ' line), back)
  where
    directives : (ws : List String) → Parsed
    directives ws =
        if name_eq (head_of ws) "interface"
        then parse_interface line c
        else if name_eq (head_of ws) "neighbor"
        then parse_neighbor line c
        else if name_eq (head_of ws) "routing"
        then routing_type c ws
        else if name_eq (head_of ws) "route"
        then parse_route line c
        else if name_eq (head_of ws) "rip"
        then rip_command c ws
        else refused

    forth :
        (ws : List String)
        → (if is_skipped (head_of ws)
            then parsed c
            else if has_ipv6_text ws
            then Parsed.outside
            else directives ws)
          ≡ panicked
        → Unfinished ws
    forth ws = if_no_panic (is_skipped (head_of ws)) (parsed c) _ parsed_not (
        if_no_panic (has_ipv6_text ws) Parsed.outside (directives ws) outside_not (
          if_no_panic (name_eq (head_of ws) "interface") (parse_interface line c) _
            (parse_interface-ends line c)
            (if_no_panic (name_eq (head_of ws) "neighbor") (parse_neighbor line c) _
              (parse_neighbor-ends line c)
              (if_no_panic (name_eq (head_of ws) "routing") (routing_type c ws) _
                (routing_type-ends c ws)
                (if_no_panic (name_eq (head_of ws) "route") (parse_route line c) _
                  (parse_route-ends line c)
                  (if_panics (name_eq (head_of ws) "rip") (rip_command c ws) refused
                    (rip-panics c ws) (λ e. absurd (refused_not e))))))))

    none_such :
        {ws : List String}
        → split b' ' line ≡ ws
        → has_ipv6_text ws ≡ false
        → has_ipv6_text (split b' ' line) ≡ false
    none_such e h = subst (λ ws. has_ipv6_text ws ≡ false) (sym e) h

    back : Unfinished (split b' ' line) → parse_line line c ≡ panicked
    back (inl e) = rw (none_such e Unfinished-has_ipv6_text.0, e) refl
    back (inr e) = rw (none_such e Unfinished-has_ipv6_text.1, e) refl
