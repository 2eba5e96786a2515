-- ===== src/Host/Starts.antt =====
-- The start of a host, against its configuration.
use Prim.Native.String.{String}
use gotcp.Prelude.{◌≡◌, refl, subst, ap, inl, Option, none, some, List, [], ◌∷◌}
use gotcp.Prelude.Quantifiers.{Any}
use gotcp.Ip.Forward.{Interface}
use gotcp.Ip.Init
use gotcp.Ip.Init.Spec.{InitSpec, init-InitSpec, init-Good}
use gotcp.Ip.Named.{Named}
use gotcp.Config.Parse.{IpConfig}
use gotcp.Config.Load.{Loaded, refused_at, loaded, parse_config}
use gotcp.Config.Consistent.{Consistent}
use gotcp.Config.Lines.{parse_config-Consistent}
use gotcp.Tcp.Tables.{TcpGlobalInfo}
use gotcp.Tcp.Tables.Sockets
use gotcp.Repl.{Repl}
use gotcp.Repl.Commands.{Handler, host_repl}
use gotcp.Host.{Host, new_host, with_tcp, with_commands, host_from, host, start_host}

-- The interfaces and neighbours and routes are those that the configuration gives, each route that
-- names an interface names one that there is, and the host's own address is that of an interface.
abbrev pub SoundHost : IpConfig → Host → Type 0
SoundHost c h =
    InitSpec c h.ip
    × Named h.ip.interfaces h.ip.routing_table
    × Any (λ (i : String × Interface). i.1.assigned_ip ≡ h.tcp.own_addr) h.ip.interfaces

own_addr-Any :
    (is : List (String × Interface)) (t : TcpGlobalInfo)
    → gotcp.Tcp.Tables.Sockets.init is ≡ some t
    → Any (λ (i : String × Interface). i.1.assigned_ip ≡ t.own_addr) is
unfolding gotcp.Tcp.Tables.Sockets.init
own_addr-Any [] t e = absurd cc
own_addr-Any ((n, i) ∷ is) t e = inl (first e)
  where
    first : {u : TcpGlobalInfo} → some u ≡ some t → u.own_addr ≡ t.own_addr
    first q = cc

new_host-SoundHost : (c : IpConfig) (h : Host) → new_host c ≡ some h → SoundHost c h
unfolding new_host
new_host-SoundHost c h = from (gotcp.Tcp.Tables.Sockets.init (gotcp.Ip.Init.init c).interfaces) refl
  where
    from :
        (o : Option TcpGlobalInfo)
        → gotcp.Tcp.Tables.Sockets.init (gotcp.Ip.Init.init c).interfaces ≡ o
        → with_tcp (gotcp.Ip.Init.init c) o ≡ some h
        → SoundHost c h
    from none e q = absurd cc
    from (some t) e q =
        subst (SoundHost c) (same q)
          (init-InitSpec c, (init-Good c).0, own_addr-Any (gotcp.Ip.Init.init c).interfaces t e)
      where
        same : {g : Host} → some g ≡ some h → g ≡ h
        same p = cc

-- A host that starts from a file of IPv4 texts has a configuration that the file gives and that is consistent, and tables with
-- just what that configuration says; each route that names an interface names one that there is, and
-- the host's own address is that of one of its interfaces.
pub start_host-SoundHost :
    (lines : List String) (h : Host) (r : Repl Handler)
    → start_host lines ≡ host h r
    → (c : IpConfig) × (parse_config lines ≡ loaded c) × Consistent c × SoundHost c h
unfolding start_host
start_host-SoundHost lines h r = from (parse_config lines) refl
  where
    combined :
        (o : Option Host) (p : Option (Repl Handler)) → with_commands o p ≡ host h r → o ≡ some h
    combined none p e = absurd cc
    combined (some g) none e = absurd cc
    combined (some g) (some s) e = ap some (same e)
      where
        same : {s : Repl Handler} → host g s ≡ host h r → g ≡ h
        same q = cc

    from :
        (l : Loaded)
        → parse_config lines ≡ l
        → host_from l ≡ host h r
        → (c : IpConfig) × (parse_config lines ≡ loaded c) × Consistent c × SoundHost c h
    from Loaded.panicked e q = absurd cc
    from Loaded.outside e q = absurd cc
    from (refused_at n) e q = absurd cc
    from (loaded c) e q = (
      c,
      e,
      parse_config-Consistent lines c e,
      new_host-SoundHost c h (combined (new_host c) host_repl q),
    )
