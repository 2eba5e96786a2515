-- ===== src/Router/Relax.antt =====
-- What the loop of updateRoutingTable does to one prefix: a state machine of its own.
use gotcp.Prelude.{
  ℕ, ◌≡◌, refl, ◌∙◌, ap, false, not, List, [], ◌∷◌, Option, none, some, arith, ltb, if◌then◌else◌,
  Bool-cases, Option-cases, inl, inr,
}
use gotcp.Ip.Addr.{opt_eq, Prefix, prefix_eq, prefix_eq_iff}
use gotcp.Ip.Table.{RoutingEntry, RoutingTable, lookup_route, lookup_route-insert_route}
use gotcp.Proto.Rip.{infinity}
use gotcp.Router.Update.{is_rip, Updating, update_entry, update_entries, update_routing_table}

-- What an advertised entry makes of the route that the router has. A local or static route stays.
-- The next hop of a route sets its cost, up or down; another neighbour takes the route over only
-- if it offers a lower cost. Where there is no route, one of finite cost is taken up.
abbrev pub relax : ℕ → Option RoutingEntry → RoutingEntry → Option RoutingEntry
relax now none e = if ltb e.cost infinity then some (record e { updated_at = now }) else none
relax now (some old) e =
    if not (is_rip old.route_type)
    then some old
    else if opt_eq old.next_hop e.next_hop
    then some (record old { updated_at = now; cost = e.cost })
    else if ltb e.cost old.cost
    then some (record old { updated_at = now; next_hop = e.next_hop; cost = e.cost })
    else some old

unfoldable pub relax_all :
    ℕ → Prefix → Option RoutingEntry → List RoutingEntry → Option RoutingEntry
relax_all now p o [] = o
relax_all now p o (e ∷ es) = relax_all now p (if prefix_eq e.prefix p then relax now o e else o) es

-- At its own prefix, and at any other.
update_entry_self :
    (now : ℕ) (s : Updating) (e : RoutingEntry)
    → lookup_route e.prefix (update_entry now s e).table
      ≡ relax now (lookup_route e.prefix s.table) e
unfolding update_entry
update_entry_self now s e = elim (Option-cases (lookup_route e.prefix s.table)) [
  | inl n ↦ ground (
    arith,
    prefix_eq_iff e.prefix e.prefix,
    lookup_route-insert_route e.prefix e.prefix (record e { updated_at = now }) s.table,
  )
  | inr (old, o) ↦ ground (
    arith,
    prefix_eq_iff e.prefix e.prefix,
    lookup_route-insert_route e.prefix e.prefix (record old { updated_at = now }) s.table,
    lookup_route-insert_route e.prefix e.prefix (record old { updated_at = now; cost = e.cost })
        s.table,
    lookup_route-insert_route e.prefix e.prefix
        (record old { updated_at = now; next_hop = e.next_hop; cost = e.cost }) s.table,
  )
]

update_entry_other :
    (now : ℕ) (s : Updating) (e : RoutingEntry) (p : Prefix)
    → prefix_eq e.prefix p ≡ false
    → lookup_route p (update_entry now s e).table ≡ lookup_route p s.table
unfolding update_entry
update_entry_other now s e p h = elim (Option-cases (lookup_route e.prefix s.table)) [
  | inl n ↦
      ground (arith, lookup_route-insert_route e.prefix p (record e { updated_at = now }) s.table)
  | inr (old, o) ↦ ground (
    arith,
    lookup_route-insert_route e.prefix p (record old { updated_at = now }) s.table,
    lookup_route-insert_route e.prefix p (record old { updated_at = now; cost = e.cost }) s.table,
    lookup_route-insert_route e.prefix p
        (record old { updated_at = now; next_hop = e.next_hop; cost = e.cost }) s.table,
  )
]

pub update_entry-relax :
    (now : ℕ) (s : Updating) (e : RoutingEntry) (p : Prefix)
    → lookup_route p (update_entry now s e).table ≡ (
        if prefix_eq e.prefix p
        then relax now (lookup_route p s.table) e
        else lookup_route p s.table)
update_entry-relax now s e p = elim (Bool-cases (prefix_eq e.prefix p)) [
  | inl h ↦ rw (h, ← (prefix_eq_iff e.prefix p).0 h) (update_entry_self now s e)
  | inr h ↦ rw h (update_entry_other now s e p h)
]

update_entries-relax :
    (now : ℕ) (s : Updating) (es : List RoutingEntry) (p : Prefix)
    → lookup_route p (update_entries now s es).table ≡ relax_all now p (lookup_route p s.table) es
unfolding update_entries relax_all
update_entries-relax now s [] p = refl
update_entries-relax now s (e ∷ es) p =
    update_entries-relax now (update_entry now s e) es p
    ∙ ap (λ (o : Option RoutingEntry). relax_all now p o es) (update_entry-relax now s e p)

-- The loop works prefix by prefix: the route to `p` in the new table is the old route put through
-- `relax` by the entries for `p` alone, in their order.
pub update_routing_table-relax :
    (now : ℕ) (t : RoutingTable) (es : List RoutingEntry) (p : Prefix)
    → lookup_route p (update_routing_table now t es).0 ≡ relax_all now p (lookup_route p t) es
unfolding update_routing_table
update_routing_table-relax now t es p = update_entries-relax now _ es p

-- A local or static route is never changed by RIP.
relax_all_fixed :
    (now : ℕ) (p : Prefix) (r : RoutingEntry) (es : List RoutingEntry)
    → is_rip r.route_type ≡ false
    → relax_all now p (some r) es ≡ some r
unfolding relax_all
relax_all_fixed now p r [] h = refl
relax_all_fixed now p r (e ∷ es) h = ground (arith, relax_all_fixed now p r es h)

-- Whatever is advertised, a local or static route stays as it is.
pub update_routing_table_fixed :
    (now : ℕ) (t : RoutingTable) (es : List RoutingEntry) (p : Prefix) {r : RoutingEntry}
    → lookup_route p t ≡ some r
    → is_rip r.route_type ≡ false
    → lookup_route p (update_routing_table now t es).0 ≡ some r
update_routing_table_fixed now t es p {r} h f =
    update_routing_table-relax now t es p
    ∙ ap (λ (o : Option RoutingEntry). relax_all now p o es) h
    ∙ relax_all_fixed now p r es f
