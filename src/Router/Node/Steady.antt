-- ===== src/Router/Node/Steady.antt =====
-- What the steps of a router keep.
use Prim.Native.String.{String}
use gotcp.Prelude.{
  ℕ, Bool, true, false, ◌≡◌, refl, sym, subst, List, [], ◌∷◌, Option, none, some, if◌then◌else◌,
  ◌==◌, inl, inr, Bool-cases, Option-cases, ◌∙◌, ap,
}
use gotcp.Ip.Addr.{Addr, Prefix, prefix_eq}
use gotcp.Ip.Table.{RoutingEntry, RoutingTable, lookup_route}
use gotcp.Ip.Forward.{Interface, IpGlobalInfo, get}
use gotcp.Ip.Named.{Includes-Named, put-Includes}
use gotcp.Ip.Init.{init, set_interface_is_down}
use gotcp.Ip.Init.Tables.{or_other, local_route, static_route}
use gotcp.Ip.Init.Spec.{init-Good, init-InitSpec}
use gotcp.Config.Parse.{IpConfig, InterfaceConfig}
use gotcp.Proto.Rip.{
  Unmarshalled, RipMsg, unmarshal, routing_cmd_type_request, routing_cmd_type_response,
}
use gotcp.Router.Convert.{rip_entries_to_routing_entries}
use gotcp.Router.Update.{is_rip, update_routing_table, remove_expired_entries}
use gotcp.Router.Relax.{update_routing_table_fixed}
use gotcp.Router.Expiry.{unexpired, rows_left}
use gotcp.Router.Handler.{
  Router, Message, handle_msg, handle_unmarshalled, rip_recv_handler, expire,
}
use gotcp.Router.Node.{
  Node, new_node, router_of, with_table, StepsTo, received, expired, switched, Reaches, here, later,
}
use gotcp.Router.Node.Tables.{
  WellFormed, update_routing_table-WellFormed, rip_entries-Remote,
  remove_expired_entries-WellFormed,
}

-- The second table is well formed if the first is, and has its routes that were not learned.
record Improves (is : List (String × Interface)) (t u : RoutingTable) : Type 0 where
  formed : WellFormed is u
  kept :
      (p : Prefix) (r : RoutingEntry)
      → lookup_route p t ≡ some r
      → is_rip r.route_type ≡ false
      → lookup_route p u ≡ some r

update_routing_table-Improves :
    (is : List (String × Interface)) (now : ℕ) (t : RoutingTable) (msg : RipMsg) (src : Addr)
    → WellFormed is t
    → Improves is t (update_routing_table now t (rip_entries_to_routing_entries msg.entries src)).0
update_routing_table-Improves is now t msg src w = record {
  formed = update_routing_table-WellFormed is now t _ (rip_entries-Remote is msg.entries src) w;
  kept = λ p r h f. update_routing_table_fixed now t _ p h f;
}

remove_expired_entries-Improves :
    (is : List (String × Interface)) (now : ℕ) (t : RoutingTable)
    → WellFormed is t
    → Improves is t (remove_expired_entries now t).0
remove_expired_entries-Improves is now t w = record {
  formed = remove_expired_entries-WellFormed is now t w;
  kept = λ p r h f. rows_left now t p w.1 ∙ ap (unexpired now) h ∙ stays p r f;
}
  where
    stays :
        (p : Prefix) (r : RoutingEntry)
        → is_rip r.route_type ≡ false
        → unexpired now (some r) ≡ some r
    stays p r f = rw f refl

same-Improves :
    (is : List (String × Interface)) (t : RoutingTable) → WellFormed is t → Improves is t t
same-Improves is t w = record { formed = w; kept = λ p r h f. h }

handle_msg-Improves :
    (is : List (String × Interface)) (now : ℕ) (r : Router) (src : Addr) (msg : RipMsg)
    → WellFormed is r.table
    → Improves is r.table (handle_msg now r src msg).0.table
handle_msg-Improves is now r src msg w =
    elim (Bool-cases (msg.command == routing_cmd_type_request)) [
      | inl e ↦ rw e (elim (Bool-cases (msg.num_entries == 0)) [
        | inl z ↦ rw z (same-Improves is r.table w)
        | inr z ↦ rw z (same-Improves is r.table w)
      ])
      | inr e ↦ elim (Bool-cases (msg.command == routing_cmd_type_response)) [
        | inl z ↦ rw (e, z) (update_routing_table-Improves is now r.table msg src w)
        | inr z ↦ rw (e, z) (same-Improves is r.table w)
      ]
    ]

-- A route, if there is one, that was not learned from a neighbour.
abbrev Fixed : Option RoutingEntry → Type 0
Fixed none = Unit
Fixed (some r) = is_rip r.route_type ≡ false

or_other-Fixed : (a b : Option RoutingEntry) → Fixed a → Fixed b → Fixed (or_other a b)
or_other-Fixed none b h k = k
or_other-Fixed (some a) b h k = h

if_Fixed :
    (b : Bool) (r : RoutingEntry) → is_rip r.route_type ≡ false → Fixed (if b then some r else none)
if_Fixed true r h = h
if_Fixed false r h = tt

local_route-Fixed : (p : Prefix) (is : List InterfaceConfig) → Fixed (local_route p is)
local_route-Fixed p [] = tt
local_route-Fixed p (i ∷ is) =
    or_other-Fixed (local_route p is) _ (local_route-Fixed p is)
      (if_Fixed (prefix_eq i.assigned_prefix p) _ refl)

static_route-Fixed : (p : Prefix) (m : List (Prefix × Addr)) → Fixed (static_route p m)
static_route-Fixed p [] = tt
static_route-Fixed p ((q, a) ∷ m) =
    or_other-Fixed (static_route p m) _ (static_route-Fixed p m) (if_Fixed (prefix_eq q p) _ refl)

configured-Fixed :
    (c : IpConfig) (p : Prefix) (r : RoutingEntry)
    → lookup_route p (init c).routing_table ≡ some r
    → is_rip r.route_type ≡ false
configured-Fixed c p r h =
    let (_, _, routes, _) = init-InitSpec c in
    subst Fixed (sym (routes p) ∙ h)
      (or_other-Fixed _ _ (static_route-Fixed p c.static_routes) (local_route-Fixed p c.interfaces))

pub record Steady (c : IpConfig) (n : Node) : Type 0 where
  pub formed : WellFormed n.ip.interfaces n.ip.routing_table
  pub routes_kept :
      (p : Prefix) (r : RoutingEntry)
      → lookup_route p (init c).routing_table ≡ some r
      → lookup_route p n.ip.routing_table ≡ some r
  pub neighbors_kept : n.rip_neighbors ≡ c.rip_neighbors

new_node-Steady : (c : IpConfig) → Steady c (new_node c)
unfolding new_node
new_node-Steady c = record { formed = init-Good c; routes_kept = λ p r h. h; neighbors_kept = refl }

with_table-Steady :
    (c : IpConfig) (n : Node) (t : RoutingTable)
    → Steady c n
    → Improves n.ip.interfaces n.ip.routing_table t
    → Steady c (with_table n t)
with_table-Steady c n t s i = record {
  formed = i.formed;
  routes_kept = λ p r h. i.kept p r (s.routes_kept p r h) (configured-Fixed c p r h);
  neighbors_kept = s.neighbors_kept;
}

rip_recv_handler-Improves :
    (is : List (String × Interface)) (now : ℕ) (r : Router) (src : Addr) (payload : List ℕ)
    (r' : Router) (sent : List Message)
    → WellFormed is r.table
    → rip_recv_handler now r src payload ≡ some (r', sent)
    → Improves is r.table r'.table
unfolding rip_recv_handler
rip_recv_handler-Improves is now r src payload r' sent w = unmarshalled (unmarshal payload)
  where
    result : (q : Router × List Message) → some q ≡ some (r', sent) → q.0 ≡ r'
    result q e = cc

    unmarshalled :
        (u : Unmarshalled RipMsg)
        → handle_unmarshalled now r src u ≡ some (r', sent)
        → Improves is r.table r'.table
    unmarshalled Unmarshalled.panicked e = absurd cc
    unmarshalled Unmarshalled.invalid_input e =
        subst (λ (q : Router). Improves is r.table q.table) (result (r, []) e)
          (same-Improves is r.table w)
    unmarshalled (Unmarshalled.parsed msg) e =
        subst (λ (q : Router). Improves is r.table q.table) (result (handle_msg now r src msg) e)
          (handle_msg-Improves is now r src msg w)

set_interface_is_down-Steady :
    (c : IpConfig) (n : Node) (ifname : String) (down : Bool) (s : IpGlobalInfo)
    → set_interface_is_down n.ip ifname down ≡ some s
    → Steady c n
    → Steady c (record n { ip = s })
unfolding set_interface_is_down
set_interface_is_down-Steady c n ifname down s e k =
    elim (Option-cases (get ifname n.ip.interfaces)) [
      | inl g ↦ absurd (none_not (rw g at e))
      | inr (i, g) ↦
          subst (λ t. Steady c (record n { ip = t })) (same (rw g at e))
            (record {
              formed = (
                Includes-Named _ _ n.ip.routing_table
                    (put-Includes ifname (record i { is_down = down }) n.ip.interfaces) k.formed.0,
                k.formed.1,
              );
              routes_kept = k.routes_kept;
              neighbors_kept = k.neighbors_kept;
            })
    ]
  where
    none_not : none ≡ some s → ⊥
    none_not h = cc

    same : {t : IpGlobalInfo} → some t ≡ some s → t ≡ s
    same h = cc

StepsTo-Steady : (c : IpConfig) (n m : Node) → StepsTo n m → Steady c n → Steady c m
unfolding expire
StepsTo-Steady c n _ (received now src payload r sent e) s =
    with_table-Steady c n r.table s
      (rip_recv_handler-Improves n.ip.interfaces now (router_of n) src payload r sent s.formed e)
StepsTo-Steady c n _ (expired now) s =
    with_table-Steady c n _ s
      (remove_expired_entries-Improves n.ip.interfaces now n.ip.routing_table s.formed)
StepsTo-Steady c n _ (switched ifname down t e) s =
    set_interface_is_down-Steady c n ifname down t e s

-- Whatever RIP packets come in, whenever entries expire, and whichever interfaces are switched: the
-- table has one route for each prefix, a route that names an interface names one of the node's,
-- every local and static route that the configuration gave is as it was, and so are the neighbours
-- that RIP messages go to.
pub Reaches-Steady : (c : IpConfig) (n : Node) → Reaches (new_node c) n → Steady c n
Reaches-Steady c _ here = new_node-Steady c
Reaches-Steady c o (later m _ r s) = StepsTo-Steady c m o s (Reaches-Steady c m r)
