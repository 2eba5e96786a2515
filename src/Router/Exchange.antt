-- ===== src/Router/Exchange.antt =====
-- A response that one router encodes, decoded by its neighbour.
use gotcp.Prelude.{
  ℕ, zero, suc, ◌+◌, ◌-◌, ◌≤◌, ◌<◌, ◌≡◌, refl, min, Bool, true, ◌&&◌, List, [], ◌∷◌, ◌++◌, map,
  Option, none, some, arith, if◌then◌else◌, length, length-map,
}
use mathlib.Core.Path.{ap₂}
use gotcp.Prelude.Words.{u16_mod, u32_mod}
use gotcp.Ip.Addr.{Addr, opt_eq, opt_eq_iff}
use gotcp.Ip.Table.{rip, RoutingEntry}
use gotcp.Proto.Rip.{
  infinity, RipMsg, parsed, unmarshal, routing_cmd_type_response, uint32_to_bytes, bytes_to_uint32,
}
use gotcp.Proto.Rip.Roundtrip.{IsWordEntry, AreWordEntries, unmarshal-marshal}
use gotcp.Router.Convert.{
  prefix_len_to_ip_mask, ip_mask_to_prefix_len, uint32_to_ip, ip_to_uint32,
  routing_entry_to_rip_entry, routing_entries_to_rip_entries, rip_entry_to_routing_entry,
  rip_entries_to_routing_entries, create_rip_response,
}

-- The lengths 1 to `top` are read back.
masks_back : ℕ → Bool
masks_back zero = true
masks_back (suc top) =
    let len = some (top + 1) in
    opt_eq (ip_mask_to_prefix_len (prefix_len_to_ip_mask len)) len && masks_back top

masks_back_32 : masks_back 32 ≡ true
unfolding masks_back ip_mask_to_prefix_len prefix_len_to_ip_mask
masks_back_32 = refl

masks_back-each :
    (top b : ℕ)
    → b < top
    → masks_back top ≡ true
    → ip_mask_to_prefix_len (prefix_len_to_ip_mask (some (b + 1))) ≡ some (b + 1)
unfolding masks_back
masks_back-each zero b below all = absurd (omega arith)
masks_back-each (suc top) b below all = ground (
  arith,
  masks_back-each top b,
  opt_eq_iff (ip_mask_to_prefix_len (prefix_len_to_ip_mask (some (b + 1)))) (some (b + 1)),
)

-- Every prefix length but 0 is read back from its mask.
pub ip_mask_to_prefix_len-prefix_len_to_ip_mask :
    (b : ℕ) → 0 < b → b ≤ 32 → ip_mask_to_prefix_len (prefix_len_to_ip_mask (some b)) ≡ some b
ip_mask_to_prefix_len-prefix_len_to_ip_mask b p q =
    let e : b ≡ b - 1 + 1 = omega arith in
    rw e (masks_back-each 32 (b - 1) (omega arith) masks_back_32)

-- An entry of the table that RIP can carry.
pub record IsCarried (e : RoutingEntry) : Type 0 where
  pub len : ℕ
  pub len_eq : e.prefix.bits ≡ some len
  pub len_pos : 0 < len
  pub len_le : len ≤ 32
  pub addr_lt : e.prefix.addr < u32_mod
  pub cost_le : e.cost ≤ infinity

abbrev pub AreCarried : List RoutingEntry → Type 0
AreCarried [] = Unit
AreCarried (e ∷ es) = IsCarried e × AreCarried es

-- What the neighbour `dest` makes of the entry `e` of its neighbour `us`: a RIP route through `us`,
-- one hop longer, and at infinite cost if `us` itself goes through `dest`.
abbrev pub received : Addr → Addr → RoutingEntry → RoutingEntry
received dest us e = record {
  route_type = rip;
  prefix = e.prefix;
  next_hop = some us;
  local_next_hop = "";
  cost = if opt_eq e.next_hop (some dest) then infinity else min (e.cost + 1) infinity;
  updated_at = 0;
}

word_back : (u : ℕ) → u < u32_mod → bytes_to_uint32 (uint32_to_bytes u) ≡ u
unfolding bytes_to_uint32 uint32_to_bytes
word_back u h = omega arith

mask-lt : (o : Option ℕ) → prefix_len_to_ip_mask o < u32_mod
unfolding prefix_len_to_ip_mask
mask-lt none = omega arith
mask-lt (some b) = omega arith

entry-IsWordEntry :
    (dest : Addr) (e : RoutingEntry) → IsCarried e → IsWordEntry (routing_entry_to_rip_entry dest e)
unfolding routing_entry_to_rip_entry ip_to_uint32
entry-IsWordEntry dest e c =
    ground (arith, c, word_back e.prefix.addr c.addr_lt, mask-lt e.prefix.bits)

entries-AreWordEntries :
    (dest : Addr) (es : List RoutingEntry)
    → AreCarried es
    → AreWordEntries (routing_entries_to_rip_entries es dest)
unfolding routing_entries_to_rip_entries
entries-AreWordEntries dest [] c = tt
entries-AreWordEntries dest (e ∷ es) (c, cs) =
    (entry-IsWordEntry dest e c, entries-AreWordEntries dest es cs)

prefix_back :
    (e : RoutingEntry)
    → IsCarried e
    → (uint32_to_ip (ip_to_uint32 e.prefix.addr) ≡ e.prefix.addr)
      × (ip_mask_to_prefix_len (prefix_len_to_ip_mask e.prefix.bits) ≡ e.prefix.bits)
unfolding uint32_to_ip ip_to_uint32
prefix_back e c = (
  cc (word_back e.prefix.addr c.addr_lt),
  rw c.len_eq (ip_mask_to_prefix_len-prefix_len_to_ip_mask c.len c.len_pos c.len_le),
)

entry_received :
    (dest us : Addr) (e : RoutingEntry)
    → IsCarried e
    → rip_entry_to_routing_entry us (routing_entry_to_rip_entry dest e) ≡ received dest us e
unfolding rip_entry_to_routing_entry routing_entry_to_rip_entry
entry_received dest us e c = ground (arith, c, prefix_back e c)

entries_received :
    (dest us : Addr) (es : List RoutingEntry)
    → AreCarried es
    → rip_entries_to_routing_entries (routing_entries_to_rip_entries es dest) us
      ≡ map (received dest us) es
unfolding rip_entries_to_routing_entries routing_entries_to_rip_entries
entries_received dest us [] c = refl
entries_received dest us (e ∷ es) (c, cs) =
    ap₂ ◌∷◌ (entry_received dest us e c) (entries_received dest us es cs)

length-entries :
    (dest : Addr) (es : List RoutingEntry)
    → length (routing_entries_to_rip_entries es dest) ≡ length es
unfolding routing_entries_to_rip_entries
length-entries dest es = length-map es (routing_entry_to_rip_entry dest)

-- The response that `us` encodes for `dest` is decoded, whatever padding follows, into just the
-- entries of `us`: each as a RIP route through `us`, one hop longer, at infinite cost if `us` goes
-- through `dest`. There are fewer than 2 ^ 16 entries, each with a prefix length of 1 to 32, an address
-- of 32 bits and a cost of at most 16.
pub create_rip_response-received :
    (dest us : Addr) (es : List RoutingEntry) (rest : List ℕ)
    → length es < u16_mod
    → AreCarried es
    → (m : RipMsg) × (unmarshal (create_rip_response es dest ++ rest) ≡ parsed m)
      × (m.command ≡ routing_cmd_type_response)
      × (rip_entries_to_routing_entries m.entries us ≡ map (received dest us) es)
unfolding create_rip_response
create_rip_response-received dest us es rest h c = (
  _,
  unmarshal-marshal _ rest (omega arith) (omega arith) (omega (arith, length-entries dest es))
      (entries-AreWordEntries dest es c),
  refl,
  entries_received dest us es c,
)
