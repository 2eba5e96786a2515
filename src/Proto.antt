-- ===== src/Proto.antt =====
-- pkg/proto: the packets of the stack and their encodings.
pub mod Rip
pub mod Segment
