-- ===== src/Servers/Pool.antt =====
-- hw3.c as a whole: `main` starts threads for the requests that wait, clients send requests meanwhile, and
-- each thread takes a request and answers it, in any interleaving.
pub mod Laws
pub mod Answers
pub mod Called
use linux_system_programming.Prelude.{
  ℕ, suc, ◌+◌, ◌-◌, ◌≡◌, true, Bool, false, Option, none, some, List, [], ◌∷◌, ◌++◌, ◌==◌,
  if◌then◌else◌,
}
use linux_system_programming.Servers.Message.{Progress, done, stopped, undefined, blocked}
use linux_system_programming.Servers.Stream.{Peer, Log}
use linux_system_programming.Servers.Select.{
  is_ready, ready_count, Task, tcp_task, udp_task, spawn, tcp_thread, udp_thread,
}

-- The requests of one kind: those that have arrived, those that threads have taken, and those that wait;
-- the threads that have not taken one; and the requests that threads hold or have done with.
pub record Side : Type 0 where
  pub arrived : List Peer
  pub taken : List Peer
  pub waiting : List Peer
  pub idle : ℕ
  pub held : List Peer
  pub over : List Peer

pub record Pool : Type 0 where
  pub tcp : Side
  pub udp : Side
  pub log : Log

abbrev pub arrive : Peer → Side → Side
arrive p s = record s { arrived = s.arrived ++ (p ∷ []); waiting = s.waiting ++ (p ∷ []) }

-- `accept` or `recvfrom` of a thread, which waits while there is no request.
abbrev pub take_first : List Peer → Side → Option Side
take_first [] s = none
take_first (p ∷ rest) s = some (record s {
  taken = s.taken ++ (p ∷ []);
  waiting = rest;
  idle = s.idle - 1;
  held = s.held ++ (p ∷ []);
})

unfoldable pub thread_takes : Side → Option Side
thread_takes s = if s.idle == 0 then none else take_first s.waiting s

-- The threads that a round has started.
abbrev pub started_for : List Task → Pool → Pool
started_for [] s = s
started_for (tcp_task ∷ tasks) s =
    started_for tasks (record s { tcp = record (s.tcp) { idle = s.tcp.idle + 1 } })
started_for (udp_task ∷ tasks) s =
    started_for tasks (record s { udp = record (s.udp) { idle = s.udp.idle + 1 } })

abbrev pub after_spawn : Pool → Progress (List Task) → Option Pool
after_spawn s (done tasks) = some (started_for tasks s)
after_spawn s _ = none

-- A round of `main`, where `pthread_create` succeeds; `select` waits while no request is there.
unfoldable pub pool_round : Bool → Bool → Pool → Option Pool
pool_round false false s = none
pool_round tcp_bit udp_bit s =
    after_spawn s (spawn true tcp_bit udp_bit (ready_count tcp_bit udp_bit) [])

-- A thread is done with the request `p`.
abbrev pub finish : Peer → List Peer → List Peer → Side → Side
finish p before behind s = record s { held = before ++ behind; over = s.over ++ (p ∷ []) }

pub data PoolStep (pid : ℕ) (s : Pool) : Pool → Type 0 where
  tcp_arrives : (p : Peer) → PoolStep pid s (record s { tcp = arrive p s.tcp })
  udp_arrives : (p : Peer) → PoolStep pid s (record s { udp = arrive p s.udp })
  round :
      {t : Pool}
      → pool_round (is_ready s.tcp.waiting) (is_ready s.udp.waiting) s ≡ some t
      → PoolStep pid s t
  tcp_taken :
      {side : Side} → thread_takes s.tcp ≡ some side → PoolStep pid s (record s { tcp = side })
  udp_taken :
      {side : Side} → thread_takes s.udp ≡ some side → PoolStep pid s (record s { udp = side })
  tcp_answered :
      (p : Peer) (before behind : List Peer) {log : Log}
      → s.tcp.held ≡ before ++ (p ∷ behind)
      → tcp_thread pid p s.log ≡ some log
      → PoolStep pid s (record s { tcp = finish p before behind s.tcp; log = log })
  udp_answered :
      (p : Peer) (before behind : List Peer) {log : Log}
      → s.udp.held ≡ before ++ (p ∷ behind)
      → udp_thread pid p s.log ≡ some log
      → PoolStep pid s (record s { udp = finish p before behind s.udp; log = log })

abbrev pub new_side : Side
new_side = record { arrived = []; taken = []; waiting = []; idle = 0; held = []; over = [] }

abbrev pub pool_start : Pool
pool_start = record {
  tcp = new_side;
  udp = new_side;
  log = record { requests = []; replies = []; closed = [] };
}

pub data PoolRun (pid : ℕ) : Pool → Type 0 where
  begin : PoolRun pid pool_start
  more : {s t : Pool} → PoolRun pid s → PoolStep pid s t → PoolRun pid t
