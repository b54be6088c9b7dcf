-- ===== src/Servers/Stream.antt =====
-- tcps.c, hw2.c, udps.c, tcpc.c, tcpc_dns.c and udpc.c. A connection is what `read` brings into `msg`
-- and whether `write` succeeds.
use linux_system_programming.Prelude.{
  ℕ, Bool, Option, none, some, List, [], ◌∷◌, ◌++◌, if◌then◌else◌,
}
use linux_system_programming.Servers.Message.{
  Progress, done, stopped, ◌>>=◌, MsgType, msg_request, msg_reply, reply_text, request_text,
  print_into, shown, prepare,
}

-- The other side of a connection, or the sender of a datagram: `got` is `msg` after it has been read.
pub record Peer : Type 0 where
  pub fd : ℕ
  pub got : Option MsgType
  pub write_ok : Bool

-- What a server has printed, whom it has answered, and which sockets it has closed.
pub record Log : Type 0 where
  pub requests : List (List ℕ)
  pub replies : List (ℕ × MsgType)
  pub closed : List ℕ

-- `socket`, `bind` and `listen` of a server: the descriptor, or the end of the program.
pub record Setup : Type 0 where
  pub socket : Option ℕ
  pub bind_ok : Bool

unfoldable pub make_server : Setup → Progress ℕ
make_server c = elim c.socket [
  | none ↦ stopped 1
  | some fd ↦ if c.bind_ok then done fd else stopped 1
]

-- `write(newSockfd, ...)` or `sendto`, and the log of it.
unfoldable pub write_reply : Peer → MsgType → Log → Progress Log
write_reply peer m log =
    if peer.write_ok
    then done (record log { replies = log.replies ++ ((peer.fd, m) ∷ []) })
    else stopped 1

-- A full stop.
abbrev pub full_stop : List ℕ
full_stop = b'.' ∷ []

-- A round of tcps.c after `accept`.
unfoldable pub tcp_round : ℕ → Peer → Log → Progress Log
tcp_round pid peer log = elim peer.got [
  | none ↦ stopped 1
  | some m ↦ prepare (reply_text pid full_stop) m (record m { kind = msg_reply }) >>= (λ r.
      write_reply peer r.1 (record log { requests = log.requests ++ (r.0 ∷ []) })
      >>= (λ log'. done (record log' { closed = log'.closed ++ (peer.fd ∷ []) })))
]

-- The loop of tcps.c, for the connections that `accept` gives; `none` is a failing `accept`. Where no
-- connection is left it waits.
unfoldable pub tcp_server : ℕ → List (Option Peer) → Log → Progress Log
tcp_server pid [] log = done log
tcp_server pid (none ∷ more) log = stopped 1
tcp_server pid (some peer ∷ more) log =
    tcp_round pid peer log >>= (λ log'. tcp_server pid more log')

-- hw2.c: the child of a connection, with its own process number; it answers and exits with 1.
unfoldable pub child_process : ℕ → Peer → Log → Progress Log
child_process pid peer log = elim peer.got [
  | none ↦ stopped 1
  | some m ↦ prepare (reply_text pid full_stop) m (record m { kind = msg_reply }) >>= (λ r.
      write_reply peer r.1 (record log { requests = log.requests ++ (r.0 ∷ []) })
      >>= (λ log'. done (record log' { closed = log'.closed ++ (peer.fd ∷ []) })))
]

-- hw2.c: a round of the parent. `fork` gives the child's process number; the parent closes its copy of
-- the connection and goes on, whatever the child does.
unfoldable pub parent_round :
    Option ℕ → Peer → List (ℕ × Peer) × List ℕ → Progress (List (ℕ × Peer) × List ℕ)
parent_round none peer (children, closed) = stopped 1
parent_round (some pid) peer (children, closed) =
    done (children ++ ((pid, peer) ∷ []), closed ++ (peer.fd ∷ []))

-- A round of udps.c.
unfoldable pub udp_round : ℕ → Peer → Log → Progress Log
udp_round pid peer log = elim peer.got [
  | none ↦ stopped 1
  | some m ↦
      prepare (reply_text pid full_stop) m (record m { kind = msg_reply })
      >>= (λ r. write_reply peer r.1 (record log { requests = log.requests ++ (r.0 ∷ []) }))
]

unfoldable pub udp_server : ℕ → List Peer → Log → Progress Log
udp_server pid [] log = done log
udp_server pid (peer ∷ more) log = udp_round pid peer log >>= (λ log'. udp_server pid more log')

-- What a client's calls answer; `got` is `msg` after the reply has been read.
pub record ClientCalls : Type 0 where
  pub socket : Option ℕ
  pub connect_ok : Bool
  pub write_ok : Bool
  pub got : Option MsgType

-- What a client has sent, and what it prints of the reply.
pub record Asked : Type 0 where
  pub sent : MsgType
  pub printed : List ℕ

-- The request, written into the `msg` of the program's stack.
unfoldable pub ask : ℕ → MsgType → ClientCalls → Progress Asked
ask pid m calls = print_into (request_text pid) (record m { kind = msg_request }) >>= (λ m'.
    if calls.write_ok
    then elim calls.got [
      | none ↦ stopped 1
      | some answer ↦ shown answer >>= (λ text. done (record { sent = m'; printed = text }))
    ]
    else stopped 1)

-- tcpc.c
unfoldable pub tcp_client : ℕ → MsgType → ClientCalls → Progress Asked
tcp_client pid m calls = elim calls.socket [
  | none ↦ stopped 1
  | some fd ↦ if calls.connect_ok then ask pid m calls else stopped 1
]

-- udpc.c
unfoldable pub udp_client : ℕ → MsgType → ClientCalls → Progress Asked
udp_client pid m calls = elim calls.socket [ none ↦ stopped 1 | some fd ↦ ask pid m calls ]
