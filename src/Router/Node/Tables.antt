-- ===== src/Router/Node/Tables.antt =====
-- The changes to the routing table, against the interfaces of the node.
use Prim.Native.String.{String}
use gotcp.Prelude.{
  ℕ, Bool, true, false, ◌≡◌, refl, List, [], ◌∷◌, if◌then◌else◌, ◌==◌, ltb, not, inl, inr,
  Bool-cases, Option-cases, ◌∙◌, ap,
}
use gotcp.Ip.Addr.{Addr, Prefix, opt_eq}
use gotcp.Ip.Table.{
  RoutingEntry, RoutingTable, lookup_route, insert_route, UniqueKeys, insert_route-UniqueKeys,
}
use gotcp.Ip.Forward.{Interface, name_eq}
use gotcp.Ip.Named.{HasInterface, Named, insert_route-Named, lookup_route-Named}
use gotcp.Proto.Rip.{RipEntry, infinity}
use gotcp.Router.Convert.{rip_entry_to_routing_entry, rip_entries_to_routing_entries}
use gotcp.Router.Update.{
  Updating, is_rip, update_old, update_entry, update_entries, update_routing_table, is_expired,
  remove_expired_entries,
}
use gotcp.Router.Expiry.{unexpired, rows_left}

module _ (is : List (String × Interface)) where
  abbrev pub WellFormed : RoutingTable → Type 0
  WellFormed t = Named is t × UniqueKeys t

  if_WellFormed :
      (b : Bool) (s u : Updating)
      → WellFormed s.table
      → WellFormed u.table
      → WellFormed (if b then s else u).table
  if_WellFormed true s u h k = h
  if_WellFormed false s u h k = k

  insert_route-WellFormed :
      (p : Prefix) (e : RoutingEntry) (t : RoutingTable)
      → HasInterface is e
      → WellFormed t
      → WellFormed (insert_route p e t)
  insert_route-WellFormed p e t h (n, u) =
      (insert_route-Named is p e t h n, insert_route-UniqueKeys p e t u)

  update_old-WellFormed :
      (now : ℕ) (old e : RoutingEntry) (s : Updating)
      → HasInterface is old
      → WellFormed s.table
      → WellFormed (update_old now old e s).table
  update_old-WellFormed now old e s h w = if_WellFormed (not (is_rip old.route_type)) s _ w (
      if_WellFormed (opt_eq old.next_hop e.next_hop) _ _
        (if_WellFormed (old.cost == e.cost) _ _ (insert_route-WellFormed e.prefix _ s.table h w)
          (insert_route-WellFormed e.prefix _ s.table h w))
        (if_WellFormed (ltb e.cost old.cost) _ s (insert_route-WellFormed e.prefix _ s.table h w)
          w))

  update_entry-WellFormed :
      (now : ℕ) (s : Updating) (e : RoutingEntry)
      → HasInterface is e
      → WellFormed s.table
      → WellFormed (update_entry now s e).table
  unfolding update_entry
  update_entry-WellFormed now s e h w = elim (Option-cases (lookup_route e.prefix s.table)) [
    | inl n ↦
        rw (n, WellFormed, update_entry)
          (if_WellFormed (ltb e.cost infinity) _ s (insert_route-WellFormed e.prefix _ s.table h w)
            w)
    | inr (old, o) ↦
        rw (o, WellFormed, update_entry)
          (update_old-WellFormed now old e s (lookup_route-Named is e.prefix old s.table w.0 o) w)
  ]

  -- Entries that name no interface, as those of a RIP message.
  abbrev pub Remote : List RoutingEntry → Type 0
  Remote [] = Unit
  Remote (e ∷ es) = (name_eq e.local_next_hop "" ≡ true) × Remote es

  update_entries-WellFormed :
      (now : ℕ) (s : Updating) (es : List RoutingEntry)
      → Remote es
      → WellFormed s.table
      → WellFormed (update_entries now s es).table
  unfolding update_entries
  update_entries-WellFormed now s [] h w = w
  update_entries-WellFormed now s (e ∷ es) (h, hs) w =
      update_entries-WellFormed now (update_entry now s e) es hs
        (update_entry-WellFormed now s e (λ n. absurd (differ (rw h at n))) w)
    where
      differ : true ≡ false → ⊥
      differ d = cc

  pub update_routing_table-WellFormed :
      (now : ℕ) (t : RoutingTable) (es : List RoutingEntry)
      → Remote es
      → WellFormed t
      → WellFormed (update_routing_table now t es).0
  unfolding update_routing_table
  update_routing_table-WellFormed now t es h w = update_entries-WellFormed now _ es h w

  pub rip_entries-Remote :
      (es : List RipEntry) (src : Addr) → Remote (rip_entries_to_routing_entries es src)
  unfolding rip_entries_to_routing_entries rip_entry_to_routing_entry
  rip_entries-Remote [] src = tt
  rip_entries-Remote (e ∷ es) src = (refl, rip_entries-Remote es src)

  pub remove_expired_entries-WellFormed :
      (now : ℕ) (t : RoutingTable) → WellFormed t → WellFormed (remove_expired_entries now t).0
  unfolding remove_expired_entries
  remove_expired_entries-WellFormed now [] w = w
  remove_expired_entries-WellFormed now ((p, e) ∷ t) ((h, n), (k, u)) =
      let (n', u') = remove_expired_entries-WellFormed now t (n, u) in
      elim (Bool-cases (is_expired now e)) [
        | inl x ↦ rw x (n', u')
        | inr x ↦ rw x ((h, n'), (rows_left now t p u ∙ ap (unexpired now) k, u'))
      ]
