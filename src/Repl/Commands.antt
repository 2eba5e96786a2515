-- ===== src/Repl/Commands.antt =====
-- The commands of a node: IpRepl of pkg/ipstack/ip_repl.go and TcpRepl of pkg/tcpstack/tcp_repl.go,
-- with a name for each handler.
mod Tests
use gotcp.Prelude.{List, [], ◌∷◌, Option}
use gotcp.Repl.{Repl, new_repl, add_command, combine_repls}

pub data Handler : Type 0 where
  ln li lr up down send : Handler
  accept ls connect close read_bytes send_bytes send_file read_file : Handler

unfoldable pub ip_repl : Repl Handler
unfolding add_command
ip_repl =
    add_command "send" send "Sends the messgae to the dest ip address. usage: send <dest IP> <msg>"
      (add_command "down" down "Sets the interface's state to down. usage: down <interface name>" (
        add_command "up" up "Sets the interface's state to up. usage: up <interface name>" (
          add_command "lr" lr "Prints the routing table of the current s. usage: lr" (
            add_command "li" li "Prints all interfaces of the current s. usage: li"
              (add_command "ln" ln "Prints neighbors of the current s. usage: ln" (new_repl))))))

unfoldable pub tcp_repl : Repl Handler
unfolding add_command
tcp_repl =
    add_command "rf" read_file
      "Read a file into the destination file on a listening port. usage: rf <dest file> <port>"
      (add_command "sf" send_file
        "Send file to destination addr port. usage: sf <file path> <dst addr> <dst port>"
        (add_command "s" send_bytes
          "Send n bytes of data on a socket. usage: s <socket ID> <bytes to send>"
          (add_command "r" read_bytes
            "Read n bytes of data on a socket. usage: r <socket ID> <numbytes>"
            (add_command "cl" close "Closes a socket. usage: cl <socket ID>" (
              add_command "c" connect
                "Creates a new socket that connects to the specified virtual IP address and port. usage: c <vip> <port>"
                (add_command "ls" ls "Lists all sockets. usage: ls" (
                  add_command "a" accept "Listens and accpets a port. usage: a <port>"
                    (new_repl))))))))

-- The commands of a host.
unfoldable pub host_repl : Option (Repl Handler)
unfolding ip_repl tcp_repl combine_repls
host_repl = combine_repls (ip_repl ∷ tcp_repl ∷ [])
