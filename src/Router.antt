-- ===== src/Router.antt =====
-- pkg/vrouter: the distance-vector router. `Convert` is utils.go, `Update` the table updates of
-- vrouter.go, and `Handler` its RIP handler.
pub mod Convert
mod Exchange
pub mod Update
mod Relax
mod Announce
mod Expiry
pub mod Handler
mod Poison
pub mod Node
mod Tests
