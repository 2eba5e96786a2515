-- ===== src/Ip/Init/Tables.antt =====
-- The tables that the directives of a configuration stand for.
use Prim.Native.String.{String}
use gotcp.Prelude.{
  Bool, true, false, Option, none, some, List, [], ◌∷◌, if◌then◌else◌, ◌≡◌, refl, sym, ◌∙◌, ap,
}
use gotcp.Ip.Addr.{Addr, Prefix, prefix_eq}
use gotcp.Ip.Table.{RoutingEntry, lookup_route, insert_route, lookup_route-insert_route}
use gotcp.Ip.Forward.{name_eq, Interface, Neighbor, IpGlobalInfo, get}
use gotcp.Ip.Init.{
  interface_of, local_entry, add_interface, add_interfaces, static_entry, add_static_routes,
}
use gotcp.Ip.Named.{get-put}
use gotcp.Config.Parse.{InterfaceConfig, NeighborConfig}

-- The first of two that there is.
abbrev pub or_other : {A : Type 0} → Option A → Option A → Option A
or_other none o = o
or_other (some a) o = some a

or_other_assoc :
    {A : Type 0} (a b c : Option A) → or_other (or_other a b) c ≡ or_other a (or_other b c)
or_other_assoc none b c = refl
or_other_assoc (some a) b c = refl

pub or_other-none : {A : Type 0} (a : Option A) → or_other a none ≡ a
or_other-none none = refl
or_other-none (some a) = refl

or_other_if :
    {A : Type 0} (b : Bool) (v : A) (o : Option A)
    → (if b then some v else o) ≡ or_other (if b then some v else none) o
or_other_if true v o = refl
or_other_if false v o = refl

-- The last interface of a name, the local route of the last interface with a prefix, the last static
-- route for a prefix, and the neighbours on an interface.
abbrev pub interface_named : String → List InterfaceConfig → Option Interface
interface_named name [] = none
interface_named name (i ∷ is) =
    or_other (interface_named name is) (if name_eq i.name name then some (interface_of i) else none)

abbrev pub local_route : Prefix → List InterfaceConfig → Option RoutingEntry
local_route p [] = none
local_route p (i ∷ is) =
    or_other (local_route p is)
      (if prefix_eq i.assigned_prefix p then some (local_entry i) else none)

abbrev pub static_route : Prefix → List (Prefix × Addr) → Option RoutingEntry
static_route p [] = none
static_route p ((q, a) ∷ m) =
    or_other (static_route p m) (if prefix_eq q p then some (static_entry q a) else none)

abbrev pub neighbors_on : String → List NeighborConfig → List Neighbor
neighbors_on name [] = []
neighbors_on name (n ∷ ns) =
    let rest = neighbors_on name ns in
    let neighbor : Neighbor = record { vip = n.dest_addr; nbhr_udp_addr = n.udp_addr } in
    if name_eq n.interface_name name then neighbor ∷ rest else rest

-- A loop of assignments, followed by one more lookup.
step_or :
    {A : Type 0} (b : Bool) (v : A) (o rest : Option A)
    → or_other rest (if b then some v else o)
      ≡ or_other (or_other rest (if b then some v else none)) o
step_or b v o rest =
    ap (or_other rest) (or_other_if b v o)
    ∙ sym (or_other_assoc rest (if b then some v else none) o)

pub add_interfaces-interfaces :
    (name : String) (s : IpGlobalInfo) (is : List InterfaceConfig)
    → get name (add_interfaces s is).interfaces
      ≡ or_other (interface_named name is) (get name s.interfaces)
unfolding add_interfaces add_interface
add_interfaces-interfaces name s [] = refl
add_interfaces-interfaces name s (i ∷ is) =
    add_interfaces-interfaces name (add_interface s i) is
    ∙ ap (or_other (interface_named name is)) (get-put i.name name (interface_of i) s.interfaces)
    ∙ step_or (name_eq i.name name) (interface_of i) (get name s.interfaces)
        (interface_named name is)

pub add_interfaces-routes :
    (p : Prefix) (s : IpGlobalInfo) (is : List InterfaceConfig)
    → lookup_route p (add_interfaces s is).routing_table
      ≡ or_other (local_route p is) (lookup_route p s.routing_table)
unfolding add_interfaces add_interface
add_interfaces-routes p s [] = refl
add_interfaces-routes p s (i ∷ is) =
    add_interfaces-routes p (add_interface s i) is
    ∙ ap (or_other (local_route p is))
        (lookup_route-insert_route i.assigned_prefix p (local_entry i) s.routing_table)
    ∙ step_or (prefix_eq i.assigned_prefix p) (local_entry i) (lookup_route p s.routing_table)
        (local_route p is)

pub add_static_routes-routes :
    (p : Prefix) (s : IpGlobalInfo) (m : List (Prefix × Addr))
    → lookup_route p (add_static_routes s m).routing_table
      ≡ or_other (static_route p m) (lookup_route p s.routing_table)
unfolding add_static_routes
add_static_routes-routes p s [] = refl
add_static_routes-routes p s ((q, a) ∷ m) =
    add_static_routes-routes p
      (record s { routing_table = insert_route q (static_entry q a) s.routing_table }) m
    ∙ ap (or_other (static_route p m))
        (lookup_route-insert_route q p (static_entry q a) s.routing_table)
    ∙ step_or (prefix_eq q p) (static_entry q a) (lookup_route p s.routing_table) (static_route p m)
