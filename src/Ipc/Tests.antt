-- ===== src/Ipc/Tests.antt =====
-- The programs of "5_Inter-Process Communication" that exchange a request and a reply, run step by step.
use linux_system_programming.Prelude.{
  ℕ, ◌≡◌, ◌⊎◌, refl, true, false, none, some, Option, List, [], ◌∷◌, ◌++◌, replicate,
}
use linux_system_programming.Prelude.Threads.{begin, Trace, schedule}
use linux_system_programming.Sipc.{Message, request, reply}
use linux_system_programming.Ipc.Fifo.{
  FifoMessage, ServerAt, ClientAt, World, FifoStep, serve, ask, interrupt, FifoRun, more,
  fifo_start, server_at, client_at, interrupted,
}
use linux_system_programming.Ipc.Fifo
use linux_system_programming.Ipc.Fifo.Inv.{shown_at}
use linux_system_programming.Ipc.Fifo.Order.{served_in_order}
use linux_system_programming.Ipc.Fifo.Laws.{clients_answered, IsOver, fifo_goes_on}
use linux_system_programming.Ipc.Flag.{answerer_at, asker_at, flag_answer, flag_ask, flag_start}
use linux_system_programming.Ipc.MessageQueue.{
  server1_at, client2_at, queue_server, queue_client, queue_start,
}

-- Who makes the next step: the server, a client, or a signal.
data Mover : Type 0 where
  server : Mover
  client : ℕ → Mover
  signal : Mover

abbrev FifoTrace : Type 0
FifoTrace = (s : World) × FifoRun 9 s

fifo_server :
    (s : World) → FifoRun 9 s → (o : Option World) → server_at 9 s.server s ≡ o → FifoTrace
fifo_server s r none e = (s, r)
fifo_server s r (some t) e = (t, more r (serve e))

fifo_client :
    (i : ℕ) (s : World)
    → FifoRun 9 s
    → (o : Option World) → client_at i (s.clients i) s ≡ o
    → FifoTrace
fifo_client i s r none e = (s, r)
fifo_client i s r (some t) e = (t, more r (ask i e))

fifo_turns : List Mover → FifoTrace → FifoTrace
unfolding fifo_server fifo_client
fifo_turns [] (s, r) = (s, r)
fifo_turns (server ∷ turns) (s, r) =
    fifo_turns turns (fifo_server s r (server_at 9 s.server s) refl)
fifo_turns (client i ∷ turns) (s, r) =
    fifo_turns turns (fifo_client i s r (client_at i (s.clients i) s) refl)
fifo_turns (signal ∷ turns) (s, r) = fifo_turns turns (interrupted s, more r interrupt)

-- Two clients write their requests, and the first one has read its reply.
abbrev two_clients : FifoTrace
two_clients =
    fifo_turns
      ((server ∷ [])
        ++ (replicate 3 (client 4)
            ++ (replicate 3 (client 5)
                ++ (replicate 5 server ++ (replicate 2 (client 4) ++ (server ∷ []))))))
      (fifo_start, Fifo.begin)

two_clients-printed :
    (two_clients.0.server_printed ≡ request 4 ∷ request 5 ∷ [])
    × (two_clients.0.printed 4 ≡ reply 9 ∷ [])
    × (two_clients.0.printed 5 ≡ [])
unfolding fifo_turns server_at client_at
two_clients-printed = (refl, refl, refl)

clients_answered_example : two_clients.0.printed 4 ≡ shown_at 9 (two_clients.0.clients 4)
clients_answered_example = clients_answered 9 two_clients.1 4

served_in_order_example :
    (rest : List Message) × (two_clients.0.sent ≡ two_clients.0.server_printed ++ rest)
served_in_order_example = served_in_order 9 two_clients.1

fifo_goes_on_example :
    ((t : World) × ((server_at 9 two_clients.0.server two_clients.0 ≡ some t)
        ⊎ (client_at 5 (two_clients.0.clients 5) two_clients.0 ≡ some t)))
    ⊎ IsOver two_clients.0 5
fifo_goes_on_example = fifo_goes_on 9 two_clients.1 5

opening :
    two_clients.0.server ≡ ServerAt.open_reply (record { return_fifo = 5; data_text = request 5 })
unfolding fifo_turns server_at client_at
opening = refl

-- A client that is started before the server leaves its FIFO behind.
abbrev no_server : FifoTrace
no_server = fifo_turns (replicate 2 (client 4)) (fifo_start, Fifo.begin)

no_server-fifos : (no_server.0.clients 4 ≡ ClientAt.failed) × (no_server.0.fifos 4 ≡ true)
unfolding fifo_turns client_at
no_server-fifos = (refl, refl)

-- Both processes have returned.
abbrev flag_end : Trace (flag_answer 1) (flag_ask 2) flag_start
flag_end =
    schedule (flag_answer 1) (flag_ask 2) flag_start
      (replicate 3 false ++ (replicate 5 true ++ replicate 2 false)) (0, flag_start, begin)

flag_end-printed : (flag_end.1.printed1 ≡ request 2 ∷ []) × (flag_end.1.printed2 ≡ reply 1 ∷ [])
unfolding schedule answerer_at asker_at
flag_end-printed = (refl, refl)

-- The server removes the queue before the client has read the reply.
abbrev removed_early : Trace (queue_server 1) (queue_client 2) queue_start
removed_early =
    schedule (queue_server 1) (queue_client 2) queue_start
      ((true ∷ []) ++ (replicate 2 false ++ (replicate 4 true ++ (false ∷ []))))
      (0, queue_start, begin)

removed_early-printed : removed_early.1.client_printed ≡ []
unfolding schedule server1_at client2_at
removed_early-printed = refl
