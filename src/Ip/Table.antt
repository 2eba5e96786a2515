-- ===== src/Ip/Table.antt =====
-- The routing table of pkg/ipstack/ipstack.go: a Go map from prefix to entry, kept as a list with
-- one row for each key. The order of the rows stands for the order, unspecified in Go, in which a
-- `range` visits the map.
use gotcp.Prelude.{
  ℕ, ◌≡◌, refl, false, Option, none, some, List, [], ◌∷◌, arith, ◌∙◌, if◌then◌else◌, Bool-cases,
  inl, inr,
}
use gotcp.Ip.Addr.{Addr, Prefix, prefix_eq, prefix_eq_iff}
use Prim.Native.String.{String}

pub data RouteType : Type 0 where
  local static rip : RouteType

pub record RoutingEntry : Type 0 where
  pub route_type : RouteType
  pub prefix : Prefix
  pub next_hop : Option Addr  -- the zero address if local
  pub local_next_hop : String  -- "" if not local
  pub cost : ℕ  -- uint32
  pub updated_at : ℕ

abbrev pub RoutingTable : Type 0
RoutingTable = List (Prefix × RoutingEntry)

unfoldable pub lookup_route : Prefix → RoutingTable → Option RoutingEntry
lookup_route p [] = none
lookup_route p ((q, e) ∷ t) = if prefix_eq q p then some e else lookup_route p t

-- `table[p] = e`
unfoldable pub insert_route : Prefix → RoutingEntry → RoutingTable → RoutingTable
insert_route p e [] = (p, e) ∷ []
insert_route p e ((q, f) ∷ t) = if prefix_eq q p then (p, e) ∷ t else (q, f) ∷ insert_route p e t

pub lookup_route-insert_route :
    (p q : Prefix) (e : RoutingEntry) (t : RoutingTable)
    → lookup_route q (insert_route p e t) ≡ (if prefix_eq p q then some e else lookup_route q t)
unfolding lookup_route insert_route
lookup_route-insert_route p q e [] = refl
lookup_route-insert_route p q e ((r, f) ∷ t) = ground (arith, lookup_route-insert_route p q e t)

-- A Go map has one entry for each key.
abbrev pub UniqueKeys : RoutingTable → Type 0
UniqueKeys [] = Unit
UniqueKeys ((p, e) ∷ t) = (lookup_route p t ≡ none) × UniqueKeys t

pub insert_route-UniqueKeys :
    (p : Prefix) (e : RoutingEntry) (t : RoutingTable)
    → UniqueKeys t
    → UniqueKeys (insert_route p e t)
unfolding lookup_route insert_route
insert_route-UniqueKeys p e [] u = (refl, tt)
insert_route-UniqueKeys p e ((q, f) ∷ t) (n, u) = elim (Bool-cases (prefix_eq q p)) [
  | inl h ↦ rw h (rw (← (prefix_eq_iff q p).0 h) n, u)
  | inr h ↦ rw h (lookup_route-insert_route p q e t ∙ other h, insert_route-UniqueKeys p e t u)
]
  where
    other : prefix_eq q p ≡ false → (if prefix_eq p q then some e else lookup_route q t) ≡ none
    other h = ground arith
