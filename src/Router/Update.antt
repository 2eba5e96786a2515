-- ===== src/Router/Update.antt =====
-- pkg/vrouter/vrouter.go: the changes to the routing table. Entries are shared by pointer between
-- the table and the list of updated entries, so that list is kept as prefixes and read off the
-- table at the end. The mutex makes each function one step; `now` is the clock, in nanoseconds.
use gotcp.Prelude.{
  ℕ, ◌+◌, Bool, true, false, not, ◌&&◌, ◌||◌, List, [], ◌∷◌, ◌++◌, none, some, ltb, ◌==◌,
  if◌then◌else◌,
}
use gotcp.Ip.Addr.{opt_eq, Prefix}
use gotcp.Ip.Table.{RouteType, local, rip, RoutingEntry, RoutingTable, lookup_route, insert_route}
use gotcp.Proto.Rip.{infinity}

abbrev pub is_rip : RouteType → Bool
is_rip rip = true
is_rip _ = false

abbrev pub is_local : RouteType → Bool
is_local local = true
is_local _ = false

-- The table and the prefixes of the entries to announce, in order.
pub record Updating : Type 0 where
  pub table : RoutingTable
  pub updated : List Prefix

abbrev store : Prefix → RoutingEntry → Updating → Updating
store p e s = record s { table = insert_route p e s.table }

abbrev store_and_announce : Prefix → RoutingEntry → Updating → Updating
store_and_announce p e s = record {
  table = insert_route p e s.table;
  updated = s.updated ++ p ∷ [];
}

-- The body of the loop, for a prefix that has an entry and for one that has none.
abbrev pub update_old : ℕ → RoutingEntry → RoutingEntry → Updating → Updating
update_old now old entry s =
    if not (is_rip old.route_type)
    then s
    else if opt_eq old.next_hop entry.next_hop
    then (if old.cost == entry.cost
        then store entry.prefix (record old { updated_at = now }) s
        else store_and_announce entry.prefix (record old { updated_at = now; cost = entry.cost }) s)
    else if ltb entry.cost old.cost
    then store_and_announce entry.prefix
        (record old { updated_at = now; next_hop = entry.next_hop; cost = entry.cost }) s
    else s

abbrev pub update_new : ℕ → RoutingEntry → Updating → Updating
update_new now entry s =
    if ltb entry.cost infinity
    then store_and_announce entry.prefix (record entry { updated_at = now }) s
    else s

unfoldable pub update_entry : ℕ → Updating → RoutingEntry → Updating
update_entry now s entry = elim (lookup_route entry.prefix s.table) [
  | some old ↦ update_old now old entry s
  | none ↦ update_new now entry s
]

unfoldable pub update_entries : ℕ → Updating → List RoutingEntry → Updating
update_entries now s [] = s
update_entries now s (e ∷ es) = update_entries now (update_entry now s e) es

-- The entries that the prefixes have at the end.
unfoldable pub resolve : RoutingTable → List Prefix → List RoutingEntry
resolve t [] = []
resolve t (p ∷ ps) = elim (lookup_route p t) [ none ↦ resolve t ps | some e ↦ e ∷ resolve t ps ]

-- The new table, and the entries for sendRipUpdate.
unfoldable pub update_routing_table :
    ℕ → RoutingTable → List RoutingEntry → RoutingTable × List RoutingEntry
update_routing_table now t entries =
    let s = update_entries now (record { table = t; updated = [] }) entries in
    (s.table, resolve s.table s.updated)

-- 12 seconds.
abbrev pub lifetime : ℕ
lifetime = 12000000000

abbrev pub is_expired : ℕ → RoutingEntry → Bool
is_expired now e = is_rip e.route_type && ltb (e.updated_at + lifetime) now

-- The rows that stay, and the expired entries, at infinite cost.
unfoldable pub remove_expired_entries : ℕ → RoutingTable → RoutingTable × List RoutingEntry
remove_expired_entries now [] = ([], [])
remove_expired_entries now ((p, e) ∷ t) =
    let (kept, updated) = remove_expired_entries now t in
    if is_expired now e
    then (kept, record e { cost = infinity } ∷ updated)
    else ((p, e) ∷ kept, updated)

unfoldable pub get_all_entries : RoutingTable → List RoutingEntry
get_all_entries [] = []
get_all_entries ((p, e) ∷ t) =
    let rest = get_all_entries t in
    if is_rip e.route_type || is_local e.route_type then e ∷ rest else rest
