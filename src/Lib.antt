-- ===== src/Lib.antt =====
-- A userspace TCP/IP stack: hosts and routers that exchange IP packets over UDP links, learn
-- routes by RIP, and offer TCP sockets.
--
-- The parts and their files, with paths from the repository's root:
--   * Tcp/RecvBuf: pkg/tcpstack/recvbuf.go, the circular buffer of bytes received and not yet read
--     (RecvBuf; read, write, window_size, free_space, is_empty, bytes, advance_nxt, set_lbr).
--   * Tcp/SendBuf: pkg/tcpstack/sendbuf.go, the circular buffer of bytes written and not yet
--     acknowledged (SendBuf; write_to_send_buf, bytes_not_sent, usable_send_window).
--   * Tcp/Early: pkg/tcpstack/priorityqueue.go and aggregateEarlyArrivals of tcp_internal.go, the
--     queue of segments that came early, with container/heap's Pop.
--   * Tcp/Conn, Tcp/Segments: the connection of tcpstack.go and conn.go, and state_internal.go and
--     ackInflight, the handlers of a segment's sequence number, acknowledgement, text and FIN. They
--     use the two buffers and the queue of early arrivals.
--   * Tcp/State: pkg/tcpstack/state.go, one function per state, which call the handlers of Segments.
--   * Tcp/Sender: sendBufferedData and doHandshakes of conn.go and handleRTO of retransmission.go,
--     one turn of each goroutine's loop.
--   * Tcp/User: VRead of conn.go and activeClose of state.go, the user's calls. Tcp/User/Writing:
--     VWrite of conn.go, its loop over writeToSendBuf, between acknowledgements.
--   * Tcp/Tables: the tables of listeners and connections of tcpstack.go and tcp_internal.go, VListen,
--     and the dispatch of tcpRecvHandler. Tcp/Tables/Sockets: Init, VConnect and VAccept around
--     their handshakes, VClose of a listener (listener.go), the lookups and deletions, and the choice
--     of a port (utils.go).
--   * Tcp/Wire: Unmarshal and the checksum of pkg/proto/tcppacket.go, `send` of tcp_internal.go and
--     tcpRecvHandler: a segment as bytes and back.
--   * Proto/Segment, Proto/Rip: pkg/proto/tcppacket.go and rip.go.
--   * Ip/Addr, Ip/Table, Ip/Forward: pkg/ipstack/ipstack.go and ip_internal.go and
--     pkg/proto/ippacket.go: prefixes, the routing table, the search for the next hop, Send and the
--     receiving loop. Ip/Init: Init, from a configuration. Ip/Wire: Marshal, Unmarshal and the
--     checksum, with ForwardPacket and listenOn around them.
--   * Config: pkg/lnxconfig/lnxconfig.go. Parse has the directives and Load the loop over the lines;
--     Text and Netip write out the functions of fmt, strings and net/netip that they call.
--   * Router: pkg/vrouter: Convert (utils.go), Update (the changes to the table) and Handler (RIP
--     messages). It uses the table of Ip and the encoding of Proto/Rip. Router/Node: a router as a
--     whole, from its configuration through the steps that its handlers, its timer and its
--     commands take.
--   * Repl: pkg/repl/repl.go, and the commands of pkg/ipstack/ip_repl.go (Repl/Ip) and of
--     pkg/tcpstack/tcp_repl.go (Repl/Tcp), up to the calls that they make; Repl/Files and
--     Repl/Received have the loops of the goroutines that send a file, over VWrite, and receive one.
--     Repl/Commands has the tables of commands (IpRepl and TcpRepl).
--   * Host: pkg/vhost/vhost.go, and the starts of cmd/vhost/vhost.go and cmd/vrouter/vrouter.go.
--   * Prelude: names passed on, Boolean tests, lists over the native numbers, fixed-width
--     arithmetic. Tcp/Ring: windows on a circular array.
--
-- State is passed explicitly: a step of a connection takes a Conn and ends with a panic, a wait, an
-- endless loop, an error that the callers log, or a value and the connection after it. Numbers of
-- 32 and 16 bits keep their wrap-around (add32, sub32, u16), the ids of sockets among them. Go maps are association lists whose
-- order stands for the unspecified order of a range. What leaves a connection is its list of
-- actions. Mutexes make each function one step. Of the retransmission timer, Conn keeps whether it
-- runs and whether handleRTO has taken its expiry: a reset or a stop of a running timer whose expiry
-- is taken waits for a channel that stays empty, with the mutex held that handleRTO waits for. The
-- loop of `rf` keeps whether its call of Read waits for a signal.
--
-- Fuel: the loop of aggregateEarlyArrivals has two rounds more than the queue has items, which is
-- enough unless the window cuts a segment short; heap's down has as many rounds as there are items;
-- findNextHopEntry takes its fuel as an argument, and a ranking of the routes bounds what it needs.
--
-- VWrite takes the rounds of its loop as an argument, and the choice of a port its random draws; in
-- both, what stands for "still running" when they end is a result of its own.
--
-- Parameters: whether the network takes a segment, the clock, UDP sockets, whether a file can be
-- opened, the table of protocol handlers, random numbers, and the encodings of the IP header (package
-- iptcp-headers) and of the TCP header (package netstack) with netstack's sum (HeaderCodec and
-- TcpCodec, with what those packages document in HeaderLaws and TcpLaws).
--
-- Not modelled: the floating-point estimate of the round trip and the length of the timeouts, printing
-- and the terminal, the flags and tickers of the entry points,
-- and interleavings of goroutines inside one function. Addresses are those of IPv4: a line of the
-- configuration with a word of two colons, as every IPv6 text has, gives the outcome `outside`, of
-- which nothing is said.
pub mod Prelude
pub mod Tcp
pub mod Proto
pub mod Ip
pub mod Router
pub mod Config
pub mod Repl
pub mod Host
