-- ===== src/Servers.antt =====
-- "7_Sockets": the programs that exchange one request for one reply, over TCP and UDP.
pub mod Message
pub mod Stream
pub mod Select
pub mod Named
pub mod Pool
pub mod Laws
mod Tests
