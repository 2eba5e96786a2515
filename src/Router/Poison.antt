-- ===== src/Router/Poison.antt =====
-- Poisoned reverse between two routers: neither can be led back through the other.
use gotcp.Prelude.{◌<◌, ◌≡◌, true, ◌⊎◌, List, [], ◌∷◌, Option, none, some}
use gotcp.Ip.Addr.{Addr, Prefix, prefix_eq}
use gotcp.Ip.Table.{RoutingEntry}
use gotcp.Proto.Rip.{infinity}
use gotcp.Router.Update.{is_rip}

-- A route that `us` would use through `dest`, and `dest` through `us`, at finite cost.
abbrev pub UsableVia : Addr → Option RoutingEntry → Type 0
UsableVia us none = ⊥
UsableVia us (some r) = (is_rip r.route_type ≡ true) × (r.next_hop ≡ some us) × (r.cost < infinity)

abbrev pub Poisoned : Addr → Prefix → List RoutingEntry → Type 0
Poisoned dest p [] = Unit
Poisoned dest p (e ∷ es) =
    (prefix_eq e.prefix p ≡ true → e.next_hop ≡ some dest) × Poisoned dest p es

-- The entries name the prefix `p` at least once.
abbrev pub Covers : Prefix → List RoutingEntry → Type 0
Covers p [] = ⊥
Covers p (e ∷ es) = (prefix_eq e.prefix p ≡ true) ⊎ Covers p es
