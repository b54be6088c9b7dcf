-- ===== src/Sipc.antt =====
-- "6_Synchronization": one request and one reply between two threads, in sipc4.c with semaphores and in
-- sipc3.c with a mutex and a condition variable.
pub mod Semaphores
pub mod Condition
pub mod Started
mod Tests
use linux_system_programming.Prelude.{ℕ}

-- What the shared array holds; the source writes "This is a request from %ld." and "This is a reply
-- from %ld." with the number of the thread.
pub data Message : Type 0 where
  blank : Message
  request : ℕ → Message
  reply : ℕ → Message
