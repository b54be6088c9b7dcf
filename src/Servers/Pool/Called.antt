-- ===== src/Servers/Pool/Called.antt =====
-- hw3.c: what the threads have been started for, and the properties of the pool together.
use linux_system_programming.Prelude.{◌≡◌, ◌≢◌, ◌⊎◌, []}
use linux_system_programming.Servers.Pool.{Side, Pool}

-- Threads that have not taken a request have been started for requests of their kind.
abbrev pub IsCalledFor : Side → Type 0
IsCalledFor s = (s.idle ≡ 0) ⊎ (s.arrived ≢ [])

abbrev BothCalledFor : Pool → Type 0
BothCalledFor s = IsCalledFor s.tcp × IsCalledFor s.udp
