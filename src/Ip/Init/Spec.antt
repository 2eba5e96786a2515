-- ===== src/Ip/Init/Spec.antt =====
-- Init as a whole, against the configuration.
use Prim.Native.String.{String}
use mathlib.Core.List.{append-nil, append_assoc}
use text.Mathlib.TextEquality.{eq_iff}
use gotcp.Prelude.{
  true, false, some, List, [], ◌∷◌, ◌++◌, ◌≡◌, refl, sym, ◌∙◌, arith, inl, inr, Bool-cases, ap,
}
use gotcp.Ip.Addr.{Addr, Prefix}
use gotcp.Ip.Table.{lookup_route, insert_route, UniqueKeys, insert_route-UniqueKeys}
use gotcp.Ip.Forward.{name_eq, Interface, IpGlobalInfo, get}
use gotcp.Ip.Init.{
  put, interface_of, local_entry, add_interface, add_interfaces, neighbors_of, add_neighbor,
  add_neighbors, static_entry, add_static_routes, empty_info, init,
}
use gotcp.Ip.Init.Tables.{
  or_other, or_other-none, interface_named, local_route, static_route, neighbors_on,
  add_interfaces-interfaces, add_interfaces-routes, add_static_routes-routes,
}
use gotcp.Ip.Named.{get-put, Named, insert_route-Named, put-Includes, Includes-Named}
use gotcp.Config.Parse.{InterfaceConfig, NeighborConfig, IpConfig}

-- Neighbours leave the interfaces and the routes alone, and static routes all but the routes.
add_neighbors-others :
    (s : IpGlobalInfo) (ns : List NeighborConfig)
    → ((add_neighbors s ns).interfaces ≡ s.interfaces)
      × ((add_neighbors s ns).routing_table ≡ s.routing_table)
unfolding add_neighbors add_neighbor
add_neighbors-others s [] = (refl, refl)
add_neighbors-others s (n ∷ ns) = add_neighbors-others (add_neighbor s n) ns

add_static_routes-others :
    (s : IpGlobalInfo) (m : List (Prefix × Addr))
    → ((add_static_routes s m).interfaces ≡ s.interfaces)
      × ((add_static_routes s m).if_neighbors ≡ s.if_neighbors)
unfolding add_static_routes
add_static_routes-others s [] = (refl, refl)
add_static_routes-others s ((p, a) ∷ m) =
    add_static_routes-others
      (record s { routing_table = insert_route p (static_entry p a) s.routing_table }) m

add_neighbor-neighbors :
    (name : String) (s : IpGlobalInfo) (n : NeighborConfig)
    → neighbors_of (get name (add_neighbor s n).if_neighbors)
      ≡ neighbors_of (get name s.if_neighbors) ++ neighbors_on name (n ∷ [])
unfolding add_neighbor
add_neighbor-neighbors name s n = elim (Bool-cases (name_eq n.interface_name name)) [
  | inl e ↦
      rw (get-put n.interface_name name _ s.if_neighbors, e, (eq_iff n.interface_name name).0 e)
        refl
  | inr e ↦ rw (get-put n.interface_name name _ s.if_neighbors, e) (sym (append-nil _))
]

add_neighbors-neighbors :
    (name : String) (s : IpGlobalInfo) (ns : List NeighborConfig)
    → neighbors_of (get name (add_neighbors s ns).if_neighbors)
      ≡ neighbors_of (get name s.if_neighbors) ++ neighbors_on name ns
unfolding add_neighbors
add_neighbors-neighbors name s [] = sym (append-nil _)
add_neighbors-neighbors name s (n ∷ ns) =
    add_neighbors-neighbors name (add_neighbor s n) ns
    ∙ ap (λ l. l ++ neighbors_on name ns) (add_neighbor-neighbors name s n)
    ∙ append_assoc _ (neighbors_on name (n ∷ [])) (neighbors_on name ns)
    ∙ ap (λ l. neighbors_of (get name s.if_neighbors) ++ l) joined
  where
    joined : neighbors_on name (n ∷ []) ++ neighbors_on name ns ≡ neighbors_on name (n ∷ ns)
    joined = ground arith

add_interfaces-neighbors :
    (name : String) (s : IpGlobalInfo) (is : List InterfaceConfig)
    → neighbors_of (get name s.if_neighbors) ≡ []
    → neighbors_of (get name (add_interfaces s is).if_neighbors) ≡ []
unfolding add_interfaces add_interface
add_interfaces-neighbors name s [] h = h
add_interfaces-neighbors name s (i ∷ is) h =
    add_interfaces-neighbors name (add_interface s i) is
      (ap neighbors_of (get-put i.name name [] s.if_neighbors) ∙ ground (arith, h))

abbrev pub InitSpec : IpConfig → IpGlobalInfo → Type 0
InitSpec c s =
    ((name : String) → get name s.interfaces ≡ interface_named name c.interfaces)
    × ((name : String) → neighbors_of (get name s.if_neighbors) ≡ neighbors_on name c.neighbors)
    × ((p : Prefix)
        → lookup_route p s.routing_table
          ≡ or_other (static_route p c.static_routes) (local_route p c.interfaces))
    × UniqueKeys s.routing_table

true_not : true ≡ false → ⊥
true_not h = cc

abbrev Good : IpGlobalInfo → Type 0
Good s = Named s.interfaces s.routing_table × UniqueKeys s.routing_table

add_interfaces-Good :
    (s : IpGlobalInfo) (is : List InterfaceConfig) → Good s → Good (add_interfaces s is)
unfolding add_interfaces add_interface
add_interfaces-Good s [] h = h
add_interfaces-Good s (i ∷ is) (n, u) = add_interfaces-Good (add_interface s i) is (
  insert_route-Named _ i.assigned_prefix (local_entry i) s.routing_table (λ _. here)
      (Includes-Named s.interfaces _ s.routing_table
        (put-Includes i.name (interface_of i) s.interfaces) n),
  insert_route-UniqueKeys i.assigned_prefix (local_entry i) s.routing_table u,
)
  where
    here : (j : Interface) × (get i.name (put i.name (interface_of i) s.interfaces) ≡ some j)
    here =
        rw (get-put i.name i.name (interface_of i) s.interfaces, (eq_iff i.name i.name).1 refl)
          (interface_of i, refl)

add_static_routes-Good :
    (s : IpGlobalInfo) (m : List (Prefix × Addr)) → Good s → Good (add_static_routes s m)
unfolding add_static_routes
add_static_routes-Good s [] h = h
add_static_routes-Good s ((p, a) ∷ m) (n, u) =
    add_static_routes-Good
      (record s { routing_table = insert_route p (static_entry p a) s.routing_table }) m
      (
        insert_route-Named s.interfaces p (static_entry p a) s.routing_table
            (λ h. absurd (true_not h)) n,
        insert_route-UniqueKeys p (static_entry p a) s.routing_table u,
      )

module _ (c : IpConfig) where
  abbrev with_interfaces : IpGlobalInfo
  with_interfaces = add_interfaces empty_info c.interfaces

  abbrev with_neighbors : IpGlobalInfo
  with_neighbors = add_neighbors with_interfaces c.neighbors

  -- Each route of a new node that names an interface names one of its interfaces, and there is one
  -- route for each prefix.
  pub init-Good :
      Named (init c).interfaces (init c).routing_table × UniqueKeys (init c).routing_table
  unfolding init
  init-Good = add_static_routes-Good with_neighbors c.static_routes (
      rw
        (
          (add_neighbors-others with_interfaces c.neighbors).0,
          (add_neighbors-others with_interfaces c.neighbors).1,
        )
        (add_interfaces-Good empty_info c.interfaces (tt, tt)))

  -- Init gives a name the last interface configured for it, and the neighbours configured for it in
  -- their order; it gives a prefix its static route, and else the local route of the last interface
  -- with that prefix; each prefix has one route.
  pub init-InitSpec : InitSpec c (init c)
  unfolding init lookup_route
  init-InitSpec = (
    λ name.
        ap (get name) (add_static_routes-others with_neighbors c.static_routes).0
        ∙ ap (get name) (add_neighbors-others with_interfaces c.neighbors).0
        ∙ add_interfaces-interfaces name empty_info c.interfaces
        ∙ or_other-none (interface_named name c.interfaces),
    λ name.
        ap (λ m. neighbors_of (get name m))
          (add_static_routes-others with_neighbors c.static_routes).1
        ∙ add_neighbors-neighbors name with_interfaces c.neighbors
        ∙ ap (λ l. l ++ neighbors_on name c.neighbors)
            (add_interfaces-neighbors name empty_info c.interfaces refl),
    λ p.
        add_static_routes-routes p with_neighbors c.static_routes
        ∙ ap (or_other (static_route p c.static_routes)) (
            ap (lookup_route p) (add_neighbors-others with_interfaces c.neighbors).1
            ∙ add_interfaces-routes p empty_info c.interfaces
            ∙ or_other-none (local_route p c.interfaces)),
    init-Good.1,
  )
