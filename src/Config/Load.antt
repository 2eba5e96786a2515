-- ===== src/Config/Load.antt =====
-- ParseConfig of pkg/lnxconfig/lnxconfig.go: line by line, from the empty configuration.
use Prim.Native.Char.{code}
use Prim.Native.String.{String}
use gotcp.Prelude.{ℕ, ◌+◌, Bool, true, List, [], ◌∷◌, ◌==◌, if◌then◌else◌}
use gotcp.Ip.Forward.{name_eq}
use gotcp.Config.Text.{split}
use gotcp.Config.Netip.{has_ipv6_text}
use gotcp.Config.Parse.{
  IpConfig, routing_type_none, Parsed, refused, parsed, parse_rip, parse_routing, parse_route,
  parse_interface, parse_neighbor,
}

-- `parseCommands[head]`, an unknown word being an error.
unfoldable pub parse_command : String → String → IpConfig → Parsed
unfolding parse_rip parse_routing parse_route parse_interface parse_neighbor
parse_command head line c =
    if name_eq head "interface"
    then parse_interface line c
    else if name_eq head "neighbor"
    then parse_neighbor line c
    else if name_eq head "routing"
    then parse_routing line c
    else if name_eq head "route"
    then parse_route line c
    else if name_eq head "rip"
    then parse_rip line c
    else refused

abbrev pub head_of : List String → String
head_of [] = ""
head_of (h ∷ _) = h

-- An empty line, a line that starts with a space, and a comment.
abbrev pub is_skipped : String → Bool
is_skipped String.[] = true
is_skipped (String.◌∷◌ c s) = code c == b'#'

unfoldable pub parse_line : String → IpConfig → Parsed
unfolding split has_ipv6_text parse_command
parse_line line c =
    let words = split b' ' line in
    if is_skipped (head_of words)
    then parsed c
    else if has_ipv6_text words
    then Parsed.outside
    else parse_command (head_of words) line c

-- An error names the line that it is on. `outside` is a file with an IPv6 text.
pub data Loaded : Type 0 where
  panicked outside : Loaded
  refused_at : ℕ → Loaded
  loaded : IpConfig → Loaded

abbrev pub after : ℕ → Parsed → (IpConfig → Loaded) → Loaded
after ln Parsed.panicked rest = Loaded.panicked
after ln Parsed.outside rest = Loaded.outside
after ln refused rest = refused_at ln
after ln (parsed c) rest = rest c

unfoldable pub parse_lines : ℕ → List String → IpConfig → Loaded
unfolding parse_line
parse_lines ln [] c = loaded c
parse_lines ln (line ∷ lines) c = after (ln + 1) (parse_line line c) (parse_lines (ln + 1) lines)

abbrev pub empty_config : IpConfig
empty_config = record {
  interfaces = [];
  neighbors = [];
  originating_prefixes = [];
  routing_mode = routing_type_none;
  rip_neighbors = [];
  static_routes = [];
}

unfoldable pub parse_config : List String → Loaded
unfolding parse_lines
parse_config lines = parse_lines 0 lines empty_config
