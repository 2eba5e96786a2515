-- ===== src/Tcp/Tables/Ports.antt =====
-- The port that a connection gets.
use gotcp.Prelude.{
  ℕ, ◌+◌, ◌≤◌, ◌<◌, ◌≡◌, true, false, List, [], ◌∷◌, Option, none, some, arith, Bool-cases, inl,
  inr,
}
use gotcp.Prelude.Words.{u16}
use gotcp.Prelude.Quantifiers.{All}
use gotcp.Tcp.Tables.{TcpGlobalInfo, is_port_in_use}
use gotcp.Tcp.Tables.Sockets.{generate_random_port_num, min_random_port}

abbrev pub PortSpec : TcpGlobalInfo → List ℕ → Option ℕ → Type 0
PortSpec t draws none = All (λ n. is_port_in_use t (u16 (min_random_port + n)) ≡ true) draws
PortSpec t draws (some port) =
    (is_port_in_use t port ≡ false) × (min_random_port ≤ port) × (port < 65535)

-- A port is found as soon as the port of a draw is free; it is then free, at least 20000, and never
-- the last port, 65535.
pub generate_random_port_num-PortSpec :
    (t : TcpGlobalInfo) (draws : List ℕ)
    → All (λ n. n < 45535) draws
    → PortSpec t draws (generate_random_port_num t draws)
unfolding generate_random_port_num
generate_random_port_num-PortSpec t [] h = tt
generate_random_port_num-PortSpec t (n ∷ ns) (h, hs) =
    elim (Bool-cases (is_port_in_use t (u16 (min_random_port + n)))) [
      | inr e ↦ rw e (e, omega arith, omega arith)
      | inl e ↦
          rw e (more (generate_random_port_num t ns) e (generate_random_port_num-PortSpec t ns hs))
    ]
  where
    more :
        (o : Option ℕ)
        → is_port_in_use t (u16 (min_random_port + n)) ≡ true
        → PortSpec t ns o
        → PortSpec t (n ∷ ns) o
    more none e k = (e, k)
    more (some port) e k = k
