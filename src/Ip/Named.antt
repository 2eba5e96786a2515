-- ===== src/Ip/Named.antt =====
-- The interfaces that routes name, for the search of FindLinkLayerSrcDst.
use Prim.Native.String.{String}
use text.Mathlib.TextEquality.{eq_iff}
use gotcp.Prelude.{
  false, Option, none, some, List, [], ◌∷◌, if◌then◌else◌, ◌≡◌, refl, arith, inl, inr, Bool-cases,
  Option-cases, ◌≢◌, ◌==◌,
}
use gotcp.Prelude.{ℕ, zero, suc}
use gotcp.Ip.Addr.{Addr, Prefix, prefix_eq}
use gotcp.Ip.Table.{RoutingEntry, RoutingTable, lookup_route, insert_route}
use gotcp.Ip.Forward.{
  name_eq, Interface, Neighbor, IpGlobalInfo, get, Hop, hop, linked, or_else, on_interface,
  to_neighbor, link, find_next_hop_neighbor, no_route, follow, find_next_hop_entry,
  find_longest_matched_prefix, Link, find_link_layer_src_dst,
}
use gotcp.Ip.Forward.Hops.{found-lookup_route}
use gotcp.Ip.Init.{put}

abbrev pub HasInterface : List (String × Interface) → RoutingEntry → Type 0
HasInterface is e =
    name_eq e.local_next_hop "" ≡ false → (i : Interface) × (get e.local_next_hop is ≡ some i)

abbrev pub Named : List (String × Interface) → RoutingTable → Type 0
Named is [] = Unit
Named is ((p, e) ∷ t) = HasInterface is e × Named is t

pub insert_route-Named :
    (is : List (String × Interface)) (p : Prefix) (e : RoutingEntry) (t : RoutingTable)
    → HasInterface is e
    → Named is t
    → Named is (insert_route p e t)
unfolding insert_route
insert_route-Named is p e [] h k = (h, tt)
insert_route-Named is p e ((q, f) ∷ t) h (k, ks) = elim (Bool-cases (prefix_eq q p)) [
  | inl x ↦ rw x (h, ks)
  | inr x ↦ rw x (k, insert_route-Named is p e t h ks)
]

some_inj : {e f : RoutingEntry} → some f ≡ some e → f ≡ e
some_inj h = cc

none-some : {e : RoutingEntry} → none ≡ some e → ⊥
none-some h = cc

pub lookup_route-Named :
    (is : List (String × Interface)) (p : Prefix) (e : RoutingEntry) (t : RoutingTable)
    → Named is t
    → lookup_route p t ≡ some e
    → HasInterface is e
unfolding lookup_route
lookup_route-Named is p e [] k h = absurd (none-some h)
lookup_route-Named is p e ((q, f) ∷ t) (k, ks) h = elim (Bool-cases (prefix_eq q p)) [
  | inl x ↦ let same : f ≡ e = some_inj (rw x at h) in rw (← same) k
  | inr x ↦ lookup_route-Named is p e t ks (rw x at h)
]

-- The interfaces of the second map include the names of the first.
abbrev pub Includes : List (String × Interface) → List (String × Interface) → Type 0
Includes is js =
    (name : String) (i : Interface)
    → get name is ≡ some i
    → (j : Interface) × (get name js ≡ some j)

pub get-put :
    {A : Type 0} (k j : String) (v : A) (m : List (String × A))
    → get j (put k v m) ≡ (if name_eq k j then some v else get j m)
unfolding put
get-put k j v [] = refl
get-put k j v ((i, w) ∷ m) = ground (arith, eq_iff k j, eq_iff i k, eq_iff i j, get-put k j v m)

pub put-Includes :
    (k : String) (v : Interface) (is : List (String × Interface)) → Includes is (put k v is)
put-Includes k v is name i h =
    rw (get-put k name v is)
      (elim (Bool-cases (name_eq k name)) [ inl e ↦ rw e (v, refl) | inr e ↦ rw e (i, h) ])

pub Includes-Named :
    (is js : List (String × Interface)) (t : RoutingTable)
    → Includes is js
    → Named is t
    → Named js t
Includes-Named is js [] h k = tt
Includes-Named is js ((p, e) ∷ t) h (k, ks) =
    (λ n. let (i, g) = k n in h e.local_next_hop i g, Includes-Named is js t h ks)

module _ (t : RoutingTable) (is : List (String × Interface)) (named : Named is t) where
  -- The search does not dereference a missing entry, and what it finds has its interface.
  abbrev Located : Hop → Type 0
  Located Hop.panicked = ⊥
  Located (hop e alt) = (name_eq e.local_next_hop "" ≡ false) × HasInterface is e
  Located _ = Unit

  follow-Located :
      (fuel : ℕ) (alt : Option Addr) (p : Prefix)
      → (e : RoutingEntry) × (lookup_route p t ≡ some e)
      → Located (follow fuel t alt (lookup_route p t))
  unfolding follow
  follow-Located zero alt p (e, k) = tt
  follow-Located (suc fuel) alt p (e, k) = elim (Bool-cases (name_eq e.local_next_hop "")) [
    | inr l ↦ rw (k, l) (l, lookup_route-Named is p e t named k)
    | inl l ↦
        rw (k, l)
          (elim (Option-cases (find_longest_matched_prefix t e.next_hop)) [
            | inl n ↦ rw n tt
            | inr (q, m) ↦
                rw m (follow-Located fuel e.next_hop q (found-lookup_route t e.next_hop q m))
          ])
  ]

  find_next_hop_entry-Located :
      (fuel : ℕ) (dest_ip : Addr) → Located (find_next_hop_entry fuel t dest_ip)
  unfolding find_next_hop_entry
  find_next_hop_entry-Located fuel dest_ip =
      elim (Option-cases (find_longest_matched_prefix t (some dest_ip))) [
        | inl n ↦ rw (n, Located, find_next_hop_entry) tt
        | inr (p, m) ↦
            rw (m, Located, find_next_hop_entry)
              (follow-Located fuel none p (found-lookup_route t (some dest_ip) p m))
      ]

to_neighbor_safe : (i : Interface) (o : Option Neighbor) → to_neighbor i o ≢ Link.panicked
to_neighbor_safe i none = λ e. cc
to_neighbor_safe i (some n) = λ e. cc

on_interface_safe :
    (s : IpGlobalInfo) (dest_ip : Addr) (name : String) (alt : Addr) (i : Interface)
    → on_interface s dest_ip name alt (some i) ≢ Link.panicked
on_interface_safe s dest_ip name alt i = λ e. elim (Bool-cases (i.assigned_ip == dest_ip)) [
  | inl h ↦ link_not (rw h at e)
  | inr h ↦ to_neighbor_safe i (find_next_hop_neighbor s name alt) (rw h at e)
]
  where
    link_not : link i i.udp_addr ≢ Link.panicked
    link_not = λ e. cc

pub find_link_layer_src_dst_safe :
    (fuel : ℕ) (s : IpGlobalInfo) (dest_ip : Addr)
    → Named s.interfaces s.routing_table
    → find_link_layer_src_dst fuel s dest_ip ≢ Link.panicked
unfolding find_link_layer_src_dst
find_link_layer_src_dst_safe fuel s dest_ip n =
    linked_safe (find_next_hop_entry fuel s.routing_table dest_ip)
      (find_next_hop_entry-Located s.routing_table s.interfaces n fuel dest_ip)
  where
    linked_safe :
        (h : Hop) → Located s.routing_table s.interfaces n h → linked s dest_ip h ≢ Link.panicked
    linked_safe Hop.panicked k e = k
    linked_safe Hop.running k e = cc
    linked_safe (no_route _) k e = cc
    linked_safe (hop r alt) (l, k) e =
        let (i, g) = k l in
        on_interface_safe s dest_ip r.local_next_hop (or_else alt dest_ip) i (rw (l, g) at e)
