-- ===== src/Ipc.antt =====
-- "5_Inter-Process Communication": requests and replies between processes, over FIFOs (fifos.c, fifoc.c).
pub mod Fifo
pub mod Flag
pub mod MessageQueue
mod Tests
