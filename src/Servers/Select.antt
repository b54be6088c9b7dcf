-- ===== src/Servers/Select.antt =====
-- select.c and hw3.c: one server for TCP and UDP requests. `tcp` are the connections that wait for
-- `accept`, `udp` the datagrams that wait for `recvfrom`.
use linux_system_programming.Prelude.{
  ℕ, zero, suc, Bool, true, false, Option, none, some, List, [], ◌∷◌, ◌++◌, if◌then◌else◌,
}
use linux_system_programming.Servers.Message.{
  Progress, done, stopped, undefined, blocked, ◌>>=◌, msg_reply, reply_text, prepare,
}
use linux_system_programming.Servers.Stream.{Peer, Log, Setup, make_server, write_reply}

pub record Pending : Type 0 where
  pub tcp : List Peer
  pub udp : List Peer
  pub log : Log

-- `ProcessTcpRequest` after `accept`; the type of the message stays what it was.
unfoldable pub answer_tcp : ℕ → Peer → Log → Progress Log
answer_tcp pid peer log = elim peer.got [
  | none ↦ stopped 1
  | some m ↦ prepare (reply_text pid []) m m >>= (λ r.
      write_reply peer r.1 (record log { requests = log.requests ++ (r.0 ∷ []) })
      >>= (λ log'. done (record log' { closed = log'.closed ++ (peer.fd ∷ []) })))
]

-- `ProcessTcpRequest`: `accept` waits where no connection is left.
unfoldable pub process_tcp_request : ℕ → List Peer → Pending → Progress Pending
process_tcp_request pid [] s = blocked
process_tcp_request pid (peer ∷ more) s =
    answer_tcp pid peer s.log >>= (λ log. done (record s { tcp = more; log = log }))

unfoldable pub answer_udp : ℕ → Peer → Log → Progress Log
answer_udp pid peer log = elim peer.got [
  | none ↦ stopped 1
  | some m ↦
      prepare (reply_text pid []) m (record m { kind = msg_reply })
      >>= (λ r. write_reply peer r.1 (record log { requests = log.requests ++ (r.0 ∷ []) }))
]

-- `ProcessUdpRequest`
unfoldable pub process_udp_request : ℕ → List Peer → Pending → Progress Pending
process_udp_request pid [] s = blocked
process_udp_request pid (peer ∷ more) s =
    answer_udp pid peer s.log >>= (λ log. done (record s { udp = more; log = log }))

-- Whether a list has an element: the bit of a descriptor after `select`.
abbrev pub is_ready : List Peer → Bool
is_ready [] = false
is_ready (x ∷ xs) = true

-- `select`: how many of the two descriptors are ready.
abbrev pub ready_count : Bool → Bool → ℕ
ready_count true true = 2
ready_count true false = 1
ready_count false true = 1
ready_count false false = 0

-- `while(count--)`, with the bits of the two descriptors, which stay as `select` has set them.
unfoldable pub serve : ℕ → Bool → Bool → ℕ → Pending → Progress Pending
serve pid tcp_bit udp_bit zero s = done s
serve pid tcp_bit udp_bit (suc count) s =
    (if tcp_bit
      then process_tcp_request pid s.tcp s
      else if udp_bit
      then process_udp_request pid s.udp s
      else done s)
    >>= (λ s'. serve pid tcp_bit udp_bit count s')

-- A round of `main`'s loop in select.c; `select` waits until a request is there.
unfoldable pub select_round : ℕ → Pending → Progress Pending
select_round pid s =
    if is_ready s.tcp
    then serve pid true (is_ready s.udp) (ready_count true (is_ready s.udp)) s
    else if is_ready s.udp
    then serve pid false true 1 s
    else blocked

-- `main` of select.c before the loop: both sockets, in this order.
unfoldable pub make_sockets : Setup → Setup → Progress (ℕ × ℕ)
make_sockets tcp udp = make_server tcp >>= (λ t. make_server udp >>= (λ u. done (t, u)))

-- What a thread of hw3.c is started for.
pub data Task : Type 0 where
  tcp_task udp_task : Task

-- `while(count--)` of hw3.c: a thread for each unit of the count, or the end of the program where
-- `pthread_create` fails.
unfoldable pub spawn : Bool → Bool → Bool → ℕ → List Task → Progress (List Task)
spawn create_ok tcp_bit udp_bit zero tasks = done tasks
spawn create_ok tcp_bit udp_bit (suc count) tasks =
    (if tcp_bit
      then (if create_ok then done (tasks ++ (tcp_task ∷ [])) else stopped 1)
      else if udp_bit
      then (if create_ok then done (tasks ++ (udp_task ∷ [])) else stopped 1)
      else done tasks)
    >>= (λ tasks'. spawn create_ok tcp_bit udp_bit count tasks')

-- A thread of hw3.c for a TCP request, after `accept`: where a call fails only the thread ends, and the
-- connection stays open.
unfoldable pub tcp_thread : ℕ → Peer → Log → Option Log
tcp_thread pid peer log = elim peer.got [
  | none ↦ some log
  | some m ↦ elim (prepare (reply_text pid []) m m) [
    | done (text, m') ↦
        if peer.write_ok
        then some (record {
          requests = log.requests ++ (text ∷ []);
          replies = log.replies ++ ((peer.fd, m') ∷ []);
          closed = log.closed ++ (peer.fd ∷ []);
        })
        else some (record log { requests = log.requests ++ (text ∷ []) })
    | stopped n ↦ none
    | undefined ↦ none
    | blocked ↦ none
  ]
]

-- A thread of hw3.c for a UDP request, after `recvfrom`.
unfoldable pub udp_thread : ℕ → Peer → Log → Option Log
udp_thread pid peer log = elim peer.got [
  | none ↦ some log
  | some m ↦ elim (prepare (reply_text pid []) m (record m { kind = msg_reply })) [
    | done (text, m') ↦
        if peer.write_ok
        then some (record log {
          requests = log.requests ++ (text ∷ []);
          replies = log.replies ++ ((peer.fd, m') ∷ []);
        })
        else some (record log { requests = log.requests ++ (text ∷ []) })
    | stopped n ↦ none
    | undefined ↦ none
    | blocked ↦ none
  ]
]
