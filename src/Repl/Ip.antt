-- ===== src/Repl/Ip.antt =====
-- The commands of pkg/ipstack/ip_repl.go. What `ln`, `li` and `lr` print is left out.
use Prim.Native.String.{String}
use gotcp.Prelude.{ℕ, Bool, true, false, Option, none, some, List, [], ◌∷◌}
use gotcp.Ip.Addr.{Addr}
use gotcp.Ip.Forward.{AddrPort, IpPacket, IpGlobalInfo, Sent, send, proto_num_test}
use gotcp.Ip.Init.{set_interface_is_down}
use gotcp.Config.Text.{split}
use gotcp.Config.Netip.{parse_addr}
use gotcp.Repl.Words.{join_words}

-- A command panics, fails with its usage or with the error below it, lists something, changes the
-- tables, or sends.
pub data IpDone : Type 0 where
  panicked refused listing : IpDone
  changed : IpGlobalInfo → IpDone
  sent : Sent → IpDone

-- The handlers of `ln`, `li` and `lr`.
abbrev list_words : List String → IpDone
list_words (_ ∷ []) = listing
list_words _ = refused

unfoldable pub list_handler : String → IpDone
unfolding split
list_handler input = list_words (split b' ' input)

abbrev or_refused : Option IpGlobalInfo → IpDone
or_refused none = refused
or_refused (some s) = changed s

abbrev switch_words : IpGlobalInfo → Bool → List String → IpDone
switch_words s down (_ ∷ name ∷ []) = or_refused (set_interface_is_down s name down)
switch_words s down _ = refused

unfoldable pub up_handler : IpGlobalInfo → String → IpDone
unfolding split set_interface_is_down
up_handler s input = switch_words s false (split b' ' input)

unfoldable pub down_handler : IpGlobalInfo → String → IpDone
unfolding split set_interface_is_down
down_handler s input = switch_words s true (split b' ' input)

-- `netip.MustParseAddr` panics.
abbrev send_to :
    (AddrPort → IpPacket → Bool) → ℕ → IpGlobalInfo → List String → Option Addr → IpDone
send_to socket fuel s msg none = panicked
send_to socket fuel s msg (some dest_ip) =
    sent (send socket fuel s dest_ip (join_words msg) proto_num_test)

abbrev send_words : (AddrPort → IpPacket → Bool) → ℕ → IpGlobalInfo → List String → IpDone
send_words socket fuel s (_ ∷ addr ∷ w ∷ ws) = send_to socket fuel s (w ∷ ws) (parse_addr addr)
send_words socket fuel s _ = refused

unfoldable pub send_handler : (AddrPort → IpPacket → Bool) → ℕ → IpGlobalInfo → String → IpDone
unfolding split parse_addr send join_words
send_handler socket fuel s input = send_words socket fuel s (split b' ' input)
