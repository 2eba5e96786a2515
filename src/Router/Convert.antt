-- ===== src/Router/Convert.antt =====
-- pkg/vrouter/utils.go: between routing entries and the entries of a RIP message.
use gotcp.Prelude.{
  ℕ, zero, suc, ◌-◌, ◌/◌, ◌%◌, ◌^◌, min, List, map, Option, none, some, ltb, ◌==◌, if◌then◌else◌,
  length,
}
use gotcp.Prelude.Words.{u16, u32_mod, add32, sub32}
use gotcp.Ip.Addr.{Addr, opt_eq}
use gotcp.Ip.Table.{rip, RoutingEntry}
use gotcp.Proto.Rip.{
  infinity, RipEntry, routing_cmd_type_response, marshal, uint32_to_bytes, bytes_to_uint32,
}

-- `^((1 << (32 - b)) - 1)`, in 32 bits. A prefix of `bits` -1 shifts by 33.
unfoldable pub prefix_len_to_ip_mask : Option ℕ → ℕ
prefix_len_to_ip_mask (some b) = u32_mod - 1 - sub32 (2 ^ (32 - b) % u32_mod) 1
prefix_len_to_ip_mask none = u32_mod - 1 - sub32 (2 ^ 33 % u32_mod) 1

-- The integer part of the logarithm to base 2, in at most `fuel` halvings.
log2 : ℕ → ℕ → ℕ
log2 zero x = 0
log2 (suc fuel) x = let rest = log2 fuel (x / 2) in if ltb x 2 then 0 else suc rest

-- A mask of 0 gives the logarithm of 0, and no valid length.
unfoldable pub ip_mask_to_prefix_len : ℕ → Option ℕ
unfolding log2
ip_mask_to_prefix_len m =
    let hosts = add32 (u32_mod - 1 - m) 1 in if hosts == 0 then none else some (32 - log2 32 hosts)

unfoldable pub uint32_to_ip : ℕ → Addr
uint32_to_ip u = bytes_to_uint32 (uint32_to_bytes u)

unfoldable pub ip_to_uint32 : Addr → ℕ
ip_to_uint32 ip = bytes_to_uint32 (uint32_to_bytes ip)

-- Split horizon with poisoned reverse: a route through `dest` is offered to it at infinite cost.
unfoldable pub routing_entry_to_rip_entry : Addr → RoutingEntry → RipEntry
routing_entry_to_rip_entry dest entry = record {
  address = ip_to_uint32 entry.prefix.addr;
  mask = prefix_len_to_ip_mask entry.prefix.bits;
  cost = if opt_eq entry.next_hop (some dest) then infinity else entry.cost;
}

unfoldable pub routing_entries_to_rip_entries : List RoutingEntry → Addr → List RipEntry
routing_entries_to_rip_entries entries dest = map (routing_entry_to_rip_entry dest) entries

unfoldable pub rip_entry_to_routing_entry : Addr → RipEntry → RoutingEntry
rip_entry_to_routing_entry proposer entry = record {
  route_type = rip;
  prefix = record { addr = uint32_to_ip entry.address; bits = ip_mask_to_prefix_len entry.mask };
  next_hop = some proposer;
  local_next_hop = "";
  cost = min (add32 entry.cost 1) infinity;
  updated_at = 0;
}

unfoldable pub rip_entries_to_routing_entries : List RipEntry → Addr → List RoutingEntry
rip_entries_to_routing_entries entries proposer = map (rip_entry_to_routing_entry proposer) entries

unfoldable pub create_rip_response : List RoutingEntry → Addr → List ℕ
create_rip_response entries dest = marshal (record {
  command = routing_cmd_type_response;
  num_entries = u16 (length entries);
  entries = routing_entries_to_rip_entries entries dest;
})
