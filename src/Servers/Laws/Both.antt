-- ===== src/Servers/Laws/Both.antt =====
-- select.c and hw3.c: which of the requests that wait are answered in a round.
use linux_system_programming.Prelude.{
  ℕ, zero, suc, ◌≡◌, refl, sym, ap, ◌∙◌, Bool, true, List, [], ◌∷◌, ◌++◌, arith, append_assoc,
  append-nil, replicate,
}
use linux_system_programming.Servers.Message.{done, blocked, msg_reply, reply_text, shown}
use linux_system_programming.Servers.Stream.{Peer, Log, write_reply}
use linux_system_programming.Servers.Select.{
  Pending, answer_tcp, process_tcp_request, answer_udp, process_udp_request, serve, select_round,
  Task, tcp_task, spawn,
}
use linux_system_programming.Servers.Laws.Text.{holding, prepare-fits, length-reply_text}
use linux_system_programming.Servers.Laws.Exchange.{Caller, peer_of}

-- The logs after a TCP request, whose message keeps its type, and after a UDP request.
abbrev pub tcp_served : ℕ → Caller → Log → Log
tcp_served pid p log = record {
  requests = log.requests ++ (p.text ∷ []);
  replies = log.replies ++ ((p.fd, holding (reply_text pid []) p.msg) ∷ []);
  closed = log.closed ++ (p.fd ∷ []);
}

abbrev pub udp_served : ℕ → Caller → Log → Log
udp_served pid p log = record log {
  requests = log.requests ++ (p.text ∷ []);
  replies =
      log.replies ++ ((p.fd, holding (reply_text pid []) (record p.msg { kind = msg_reply })) ∷ []);
}

answer_tcp-served :
    (pid : ℕ) (p : Caller) (log : Log)
    → shown p.msg ≡ done p.text
    → answer_tcp pid (peer_of p) log ≡ done (tcp_served pid p log)
unfolding answer_tcp write_reply
answer_tcp-served pid p log e = rw (
    prepare-fits (reply_text pid []) p.text p.msg p.msg e
      (omega (arith, length-reply_text pid [] (omega arith))))

answer_udp-served :
    (pid : ℕ) (p : Caller) (log : Log)
    → shown p.msg ≡ done p.text
    → answer_udp pid (peer_of p) log ≡ done (udp_served pid p log)
unfolding answer_udp write_reply
answer_udp-served pid p log e = rw (
    prepare-fits (reply_text pid []) p.text p.msg (record p.msg { kind = msg_reply }) e
      (omega (arith, length-reply_text pid [] (omega arith))))

process_tcp_request-served :
    (pid : ℕ) (p : Caller) (ps us : List Peer) (log : Log)
    → shown p.msg ≡ done p.text
    → process_tcp_request pid
        (peer_of p ∷ ps)
        (record { tcp = peer_of p ∷ ps; udp = us; log = log })
      ≡ done (record { tcp = ps; udp = us; log = tcp_served pid p log })
unfolding process_tcp_request
process_tcp_request-served pid p ps us log e = rw (answer_tcp-served pid p log e)

process_udp_request-served :
    (pid : ℕ) (p : Caller) (us : List Peer) (log : Log)
    → shown p.msg ≡ done p.text
    → process_udp_request pid
        (peer_of p ∷ us)
        (record { tcp = []; udp = peer_of p ∷ us; log = log })
      ≡ done (record { tcp = []; udp = us; log = udp_served pid p log })
unfolding process_udp_request
process_udp_request-served pid p us log e = rw (answer_udp-served pid p log e)

accept_waits : (pid : ℕ) (s : Pending) → process_tcp_request pid [] s ≡ blocked
unfolding process_tcp_request
accept_waits pid s = refl

-- A round of select.c with one kind of request waiting answers the first of them; the reply over TCP keeps
-- the type of the request, the reply over UDP has the type `MSG_REPLY`.
pub select_round-one_kind :
    (pid : ℕ) (p : Caller) (more : List Peer) (log : Log)
    → shown p.msg ≡ done p.text
    → (select_round pid (record { tcp = peer_of p ∷ more; udp = []; log = log })
        ≡ done (record { tcp = more; udp = []; log = tcp_served pid p log }))
      × (select_round pid (record { tcp = []; udp = peer_of p ∷ more; log = log })
          ≡ done (record { tcp = []; udp = more; log = udp_served pid p log }))
unfolding select_round serve
select_round-one_kind pid p more log e = (
  rw (process_tcp_request-served pid p more [] log e),
  rw (process_udp_request-served pid p more log e),
)

-- With both kinds waiting, the round of select.c turns to TCP twice and leaves the datagrams alone: with
-- two connections both are answered, and with one it waits in `accept` for a second, for ever if none
-- comes.
pub select_round-both :
    (pid : ℕ) (p q : Caller) (u : Peer) (more us : List Peer) (log : Log)
    → shown p.msg ≡ done p.text
    → shown q.msg ≡ done q.text
    → (select_round pid (record { tcp = peer_of p ∷ peer_of q ∷ more; udp = u ∷ us; log = log })
        ≡ done (record { tcp = more; udp = u ∷ us; log = tcp_served pid q (tcp_served pid p log) }))
      × (select_round pid (record { tcp = peer_of p ∷ []; udp = u ∷ us; log = log }) ≡ blocked)
unfolding select_round serve
select_round-both pid p q u more us log e e' = (
  rw (
    process_tcp_request-served pid p (peer_of q ∷ more) (u ∷ us) log e,
    process_tcp_request-served pid q more (u ∷ us) (tcp_served pid p log) e',
  ),
  rw (process_tcp_request-served pid p [] (u ∷ us) log e, accept_waits),
)

replicate-snoc :
    {A : Type 0} (n : ℕ) (x : A) (xs : List A)
    → (xs ++ (x ∷ [])) ++ replicate n x ≡ xs ++ replicate (suc n) x
replicate-snoc n x xs = append_assoc xs (x ∷ []) (replicate n x)

-- While a connection waits, a round of hw3.c starts a TCP thread for each of the descriptors that are
-- ready, and none for a datagram.
pub spawn-tcp :
    (udp_bit : Bool) (count : ℕ) (tasks : List Task)
    → spawn true true udp_bit count tasks ≡ done (tasks ++ replicate count tcp_task)
unfolding spawn
spawn-tcp udp_bit zero tasks = ap done (sym (append-nil tasks))
spawn-tcp udp_bit (suc count) tasks =
    spawn-tcp udp_bit count (tasks ++ (tcp_task ∷ []))
    ∙ ap done (replicate-snoc count tcp_task tasks)
