-- ===== src/Host.antt =====
-- pkg/vhost/vhost.go, a host from its configuration, and the starts of cmd/vhost/vhost.go and
-- cmd/vrouter/vrouter.go. What a file that cannot be opened or a missing flag prints is left out.
pub mod Starts
mod Tests
use Prim.Native.String.{String}
use gotcp.Prelude.{Option, none, some, List}
use gotcp.Ip.Forward.{IpGlobalInfo}
use gotcp.Ip.Init
use gotcp.Config.Parse.{IpConfig}
use gotcp.Config.Load.{Loaded, refused_at, loaded, parse_config}
use gotcp.Router.Handler.{Message, send_rip_request}
use gotcp.Router.Node.{Node, new_node, router_of}
use gotcp.Repl.{Repl}
use gotcp.Repl.Commands.{Handler, ip_repl, host_repl}
use gotcp.Tcp.Tables.{TcpGlobalInfo}
use gotcp.Tcp.Tables.Sockets

pub record Host : Type 0 where
  pub ip : IpGlobalInfo
  pub tcp : TcpGlobalInfo

abbrev pub with_tcp : IpGlobalInfo → Option TcpGlobalInfo → Option Host
with_tcp ip none = none
with_tcp ip (some tcp) = some (record { ip = ip; tcp = tcp })

-- `none` is the error of a configuration without an interface.
unfoldable pub new_host : IpConfig → Option Host
unfolding gotcp.Ip.Init.init gotcp.Tcp.Tables.Sockets.init
new_host config =
    let ip = gotcp.Ip.Init.init config in with_tcp ip (gotcp.Tcp.Tables.Sockets.init ip.interfaces)

-- A panic of the parser, an error, a configuration outside the model, a host with its commands, or a router with its commands and the
-- requests that it sends first.
pub data Started : Type 0 where
  panicked failed outside : Started
  host : Host → Repl Handler → Started
  router : Node → List Message → Repl Handler → Started

abbrev pub with_commands : Option Host → Option (Repl Handler) → Started
with_commands none _ = failed
with_commands (some h) none = failed
with_commands (some h) (some r) = host h r

abbrev pub host_from : Loaded → Started
host_from Loaded.panicked = panicked
host_from Loaded.outside = outside
host_from (refused_at ln) = failed
host_from (loaded c) = with_commands (new_host c) host_repl

-- On the lines of the configuration file.
unfoldable pub start_host : List String → Started
unfolding parse_config new_host host_repl
start_host lines = host_from (parse_config lines)

abbrev router_from : Loaded → Started
router_from Loaded.panicked = panicked
router_from Loaded.outside = outside
router_from (refused_at ln) = failed
router_from (loaded c) =
    let node = new_node c in router node (send_rip_request (router_of node)) ip_repl

unfoldable pub start_router : List String → Started
unfolding parse_config new_node send_rip_request ip_repl
start_router lines = router_from (parse_config lines)
