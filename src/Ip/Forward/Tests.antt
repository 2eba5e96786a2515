-- ===== src/Ip/Forward/Tests.antt =====
-- Instances of the forwarding theorems: a local route, a default route to a neighbour, and a static
-- route that points into itself.
use gotcp.Prelude.{ℕ, ◌≡◌, ◌<◌, refl, true, [], ◌∷◌, some, none, arith}
use gotcp.Prelude.{subst, sym, if◌then◌else◌, Bool-cases, inl, inr}
use gotcp.Ip.Addr.{opt_eq, prefix_eq, prefix_eq_iff, Prefix, contains}
use gotcp.Ip.Table.{RoutingEntry, RoutingTable, local, static, lookup_route}
use gotcp.Ip.Forward.{find_longest_matched_prefix, find_next_hop_entry, hop, name_eq}
use gotcp.Ip.Forward.Longest.{LongestSpec, find_longest_matched_prefix-LongestSpec}
use gotcp.Ip.Forward.Hops.{Ranked, Resolved, find_next_hop_entry-Resolved}

-- 10.1.0.0/24
abbrev lan : Prefix
lan = record { addr = 167837696; bits = some 24 }

abbrev everything : Prefix
everything = record { addr = 0; bits = some 0 }

abbrev lan_route : RoutingEntry
lan_route = record {
  route_type = local;
  prefix = lan;
  next_hop = none;
  local_next_hop = "if0";
  cost = 0;
  updated_at = 0;
}

-- By way of 10.1.0.1.
abbrev default_route : RoutingEntry
default_route = record {
  route_type = static;
  prefix = everything;
  next_hop = some 167837697;
  local_next_hop = "";
  cost = 0;
  updated_at = 0;
}

abbrev table : RoutingTable
table = (lan, lan_route) ∷ (everything, default_route) ∷ []

find_longest_matched_prefix-LongestSpec_example :
    LongestSpec (some 167837697) table (find_longest_matched_prefix table (some 167837697))
find_longest_matched_prefix-LongestSpec_example =
    find_longest_matched_prefix-LongestSpec (some 167837697) table

next_hop_runs : find_next_hop_entry 2 table 134744072 ≡ hop lan_route (some 167837697)
unfolding find_next_hop_entry contains
next_hop_runs = refl

-- A route to everything leads to the local one.
abbrev rank : Prefix → ℕ
rank p = if opt_eq p.bits (some 0) then 1 else 0

table-Ranked : Ranked table rank
unfolding lookup_route find_longest_matched_prefix contains
table-Ranked p q e k l m = elim (Bool-cases (prefix_eq lan p)) [
  | inl h ↦ absurd (not_lan (rw h at k))
  | inr h ↦ elim (Bool-cases (prefix_eq everything p)) [
    | inr h' ↦ absurd (nothing (rw (h, h') at k))
    | inl h' ↦ lower ((prefix_eq_iff everything p).0 h') (rw (h, h') at k)
  ]
]
  where
    not_lan : some lan_route ≡ some e → ⊥
    not_lan same =
        let e' : lan_route ≡ e = cc in
        let l' : name_eq "if0" "" ≡ true =
          subst (λ (r : RoutingEntry). name_eq r.local_next_hop "" ≡ true) (sym e') l in
        cc

    nothing : none ≡ some e → ⊥
    nothing same = cc

    lower : everything ≡ p → some default_route ≡ some e → rank q < rank p
    lower ep same =
        let e' : default_route ≡ e = cc in
        let m' : some lan ≡ some q =
          subst (λ (r : RoutingEntry). find_longest_matched_prefix table r.next_hop ≡ some q)
            (sym e') m in
        let q' : lan ≡ q = cc in
        subst (λ (r : Prefix). rank r < rank p) q'
          (subst (λ (r : Prefix). rank lan < rank r) ep (omega arith))

find_next_hop_entry-Resolved_example : Resolved (find_next_hop_entry 2 table 134744072)
find_next_hop_entry-Resolved_example =
    find_next_hop_entry-Resolved 2 table rank 134744072 table-Ranked (λ p. ground arith)
