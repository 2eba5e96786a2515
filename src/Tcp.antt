-- ===== src/Tcp.antt =====
-- pkg/tcpstack: the TCP half of the stack.
pub mod Ring
pub mod RecvBuf
pub mod Early
pub mod SendBuf
pub mod Conn
pub mod Segments
pub mod State
pub mod Sender
pub mod User
pub mod Tables
pub mod Wire
