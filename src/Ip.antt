-- ===== src/Ip.antt =====
-- pkg/ipstack: interfaces, the routing table and the choice of a link-layer destination.
pub mod Addr
pub mod Table
pub mod Forward
pub mod Init
pub mod Named
pub mod Wire
