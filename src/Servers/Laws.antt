-- ===== src/Servers/Laws.antt =====
-- What the programs of "7_Sockets" exchange.
pub mod Text
pub mod Exchange
pub mod Both
