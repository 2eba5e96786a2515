-- ===== src/Config/Netip.antt =====
-- The texts of addresses that pkg/lnxconfig/lnxconfig.go gives to Go's net/netip: ParseAddr,
-- ParsePrefix and ParseAddrPort on IPv4 texts, and Prefix.Masked. An IPv6 text has two
-- colons or more, and `parse_line` keeps a line with such a word outside the model.
use Prim.Native.Char.{Char, code}
use Prim.Native.String.{String}
use gotcp.Prelude.{
  ℕ, ◌+◌, ◌-◌, ◌*◌, ◌/◌, ◌^◌, Bool, false, ◌&&◌, ◌||◌, Option, none, some, List, [], ◌∷◌, leb, ◌==◌,
  if◌then◌else◌, ◌>>=◌,
}
use gotcp.Ip.Addr.{Addr, Prefix}
use gotcp.Config.Text.{split}

abbrev is_digit : Char → Bool
is_digit c = leb b'0' (code c) && leb (code c) b'9'

digits : ℕ → String → Option ℕ
digits n String.[] = some n
digits n (String.◌∷◌ c s) =
    let more = digits (n * 10 + (code c - b'0')) s in if is_digit c then more else none

abbrev pub at_most : ℕ → ℕ → Option ℕ
at_most bound n = if leb n bound then some n else none

-- A number with no sign, at most `bound`.
unfoldable pub parse_uint : ℕ → String → Option ℕ
unfolding digits
parse_uint bound String.[] = none
parse_uint bound (String.◌∷◌ c s) = digits 0 (String.◌∷◌ c s) >>= at_most bound

-- A number with no leading zero: an octet of an address, and the length of a prefix.
unfoldable pub parse_field : ℕ → String → Option ℕ
unfolding parse_uint
parse_field bound String.[] = none
parse_field bound (String.◌∷◌ c String.[]) = parse_uint bound (String.◌∷◌ c String.[])
parse_field bound (String.◌∷◌ c s) =
    if code c == b'0' then none else parse_uint bound (String.◌∷◌ c s)

abbrev pub octets : List String → Option Addr
octets (a ∷ b ∷ c ∷ d ∷ []) = parse_field 255 a >>= λ w. parse_field 255 b >>= λ x.
    parse_field 255 c >>= λ y. parse_field 255 d >>= λ z. some (((w * 256 + x) * 256 + y) * 256 + z)
octets _ = none

unfoldable pub parse_addr : String → Option Addr
unfolding split parse_field
parse_addr s = octets (split b'.' s)

abbrev pub prefix_of : List String → Option Prefix
prefix_of (a ∷ n ∷ []) = parse_addr a >>= λ ip.
    parse_field 32 n >>= λ bits. some (record { addr = ip; bits = some bits })
prefix_of _ = none

unfoldable pub parse_prefix : String → Option Prefix
unfolding split parse_field parse_addr
parse_prefix s = prefix_of (split b'/' s)

abbrev pub addr_port_of : List String → Option (Addr × ℕ)
addr_port_of (a ∷ p ∷ []) = parse_uint 65535 p >>= λ port. parse_addr a >>= λ ip. some (ip, port)
addr_port_of _ = none

unfoldable pub parse_addr_port : String → Option (Addr × ℕ)
unfolding split parse_uint parse_addr
parse_addr_port s = addr_port_of (split b':' s)

unfoldable pub colons : String → ℕ
colons String.[] = 0
colons (String.◌∷◌ c s) = (if code c == b':' then 1 else 0) + colons s

-- Whether one of the words may be, or hold, an IPv6 text.
unfoldable pub has_ipv6_text : List String → Bool
unfolding colons
has_ipv6_text [] = false
has_ipv6_text (w ∷ ws) = leb 2 (colons w) || has_ipv6_text ws

abbrev pub clear_low : ℕ → Addr → Addr
clear_low n a = a / 2 ^ (32 - n) * 2 ^ (32 - n)

unfoldable pub masked : Prefix → Prefix
masked p = elim p.bits [ none ↦ p | some n ↦ record p { addr = clear_low n p.addr } ]
