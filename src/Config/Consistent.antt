-- ===== src/Config/Consistent.antt =====
-- What holds of a configuration after every line of its file.
use Prim.Native.String.{String}
use gotcp.Prelude.{
  ℕ, ap, ◌*◌, ◌^◌, ◌-◌, ◌/◌, ◌<◌, ◌≡◌, Option, none, some, List, [], ◌∷◌, Bool-cases, Bool, true,
  false, inl, inr, ◌==◌, if◌then◌else◌, ◌>>=◌, ==_iff,
}
use gotcp.Prelude.Quantifiers.{All, Any}
use native.Mathlib.Nat.{mul-div_cancel}
use gotcp.Ip.Addr.{Addr, Prefix, contains, prefix_eq, prefix_eq_iff}
use gotcp.Config.Netip.{masked, clear_low}
use gotcp.Config.Bounds.{pow_pos, Gives, IsPrefix, IsAddrPort}
use gotcp.Config.Parse.{
  InterfaceConfig, NeighborConfig, IpConfig, Parsed, parsed, or_refuse, has_prefix, has_neighbor,
  set_static_route,
}
use gotcp.Config.Load.{loaded}

-- The address and the port fit, the length of the prefix is at most 32, and the prefix is masked
-- and contains the address.
abbrev pub ValidInterface : InterfaceConfig → Type 0
ValidInterface i =
    (i.assigned_ip < 4294967296)
    × IsPrefix i.assigned_prefix
    × (masked i.assigned_prefix ≡ i.assigned_prefix)
    × (contains i.assigned_prefix i.assigned_ip ≡ true)
    × IsAddrPort i.udp_addr

abbrev pub ValidNeighbor : NeighborConfig → Type 0
ValidNeighbor n = (n.dest_addr < 4294967296) × IsAddrPort n.udp_addr

abbrev pub ValidRoute : Prefix × Addr → Type 0
ValidRoute (p, a) = IsPrefix p × (a < 4294967296)

abbrev pub Consistent : IpConfig → Type 0
Consistent c =
    All ValidInterface c.interfaces
    × All ValidNeighbor c.neighbors
    × All (λ p. Any (λ i. i.assigned_prefix ≡ p) c.interfaces) c.originating_prefixes
    × All (λ a. Any (λ n. n.dest_addr ≡ a) c.neighbors) c.rip_neighbors
    × All ValidRoute c.static_routes

abbrev pub Kept : Parsed → Type 0
Kept (parsed c) = Consistent c
Kept _ = Unit

pub or_refuse-Kept : (o : Option IpConfig) → Gives Consistent o → Kept (or_refuse o)
or_refuse-Kept none h = tt
or_refuse-Kept (some c) h = h

pub if_Kept : (b : Bool) (x y : Parsed) → Kept x → Kept y → Kept (if b then x else y)
if_Kept true x y h k = h
if_Kept false x y h k = k

pub from_fields :
    (f : List String → Option IpConfig) (o : Option (List String))
    → ((ws : List String) → Gives Consistent (f ws))
    → Kept (or_refuse (o >>= f))
from_fields f none h = tt
from_fields f (some ws) h = or_refuse-Kept (f ws) (h ws)

abbrev pub IsAddr : Addr → Type 0
IsAddr a = a < 4294967296

pub masked_idem : (p : Prefix) → IsPrefix p → masked (masked p) ≡ masked p
unfolding masked
masked_idem p (h, (n, e, k)) =
    rw e (ap (λ a. record { addr = a; bits = some n }) (cleared n p.addr))
  where
    cleared : (n : ℕ) (a : Addr) → clear_low n (clear_low n a) ≡ clear_low n a
    cleared n a = ap (λ q. q * 2 ^ (32 - n)) (mul-div_cancel (a / 2 ^ (32 - n)) (pow_pos (32 - n)))

pub set_static_route-All :
    (p : Prefix) (a : Addr)
    → IsPrefix p
    → a < 4294967296
    → (m : List (Prefix × Addr)) → All ValidRoute m
    → All ValidRoute (set_static_route p a m)
unfolding set_static_route
set_static_route-All p a hp ha [] h = ((hp, ha), tt)
set_static_route-All p a hp ha ((q, b) ∷ m) (hq, h) = elim (Bool-cases (prefix_eq q p)) [
  | inl e ↦ rw e ((hp, ha), h)
  | inr e ↦ rw e (hq, set_static_route-All p a hp ha m h)
]

pub loaded_inj : {c d : IpConfig} → loaded c ≡ loaded d → c ≡ d
loaded_inj h = cc

pub has_prefix-Any :
    (p : Prefix) (is : List InterfaceConfig)
    → has_prefix p is ≡ true
    → Any (λ i. i.assigned_prefix ≡ p) is
unfolding has_prefix
has_prefix-Any p (i ∷ is) h = elim (Bool-cases (prefix_eq i.assigned_prefix p)) [
  | inl e ↦ inl ((prefix_eq_iff _ _).0 e)
  | inr e ↦ inr (has_prefix-Any p is (rw e at h))
]
has_prefix-Any p [] h = cc

pub has_neighbor-Any :
    (a : Addr) (ns : List NeighborConfig) → has_neighbor a ns ≡ true → Any (λ n. n.dest_addr ≡ a) ns
unfolding has_neighbor
has_neighbor-Any a (n ∷ ns) h = elim (Bool-cases (n.dest_addr == a)) [
  | inl e ↦ inl ((==_iff _ _).0 e)
  | inr e ↦ inr (has_neighbor-Any a ns (rw e at h))
]
has_neighbor-Any a [] h = cc
