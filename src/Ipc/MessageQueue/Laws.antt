-- ===== src/Ipc/MessageQueue/Laws.antt =====
-- msgq1.c and msgq2.c: the states that they reach, what they print, and how they end.
use linux_system_programming.Prelude.{ℕ, ◌≡◌, none, some, Option, List, [], ◌∷◌}
use linux_system_programming.Prelude.Threads.{Run}
use linux_system_programming.Sipc.{Message, request, reply}
use linux_system_programming.Ipc.MessageQueue.{
  QueueMessage, kind_request, kind_reply, Server1, Client2, MessageExchange, queue_server,
  queue_client, queue_start,
}

-- How far the exchange has come.
pub data Phase : Type 0 where
  not_made turned_away made alone ready asked taken printed : Phase
  replied got got_removed done_first done too_late lost : Phase

module _ (a b : ℕ) where
  abbrev asking : QueueMessage
  asking = record { kind = kind_request; data_text = request b }

  abbrev answer : QueueMessage
  answer = record { kind = kind_reply; data_text = reply a }

  abbrev state :
      Option (List QueueMessage) → Server1 → Client2 → List Message → List Message → MessageExchange
  state q sv cl out out' = record {
    queue = q;
    server = sv;
    client = cl;
    server_printed = out;
    client_printed = out';
  }

  -- The only states that occur.
  abbrev pub state_of : Phase → MessageExchange
  state_of not_made = state none Server1.get Client2.get [] []
  state_of turned_away = state none Server1.get Client2.failed [] []
  state_of made = state (some []) Server1.receive Client2.get [] []
  state_of alone = state (some []) Server1.receive Client2.failed [] []
  state_of ready = state (some []) Server1.receive Client2.send [] []
  state_of asked = state (some (asking ∷ [])) Server1.receive Client2.receive [] []
  state_of taken = state (some []) (Server1.print asking) Client2.receive [] []
  state_of printed = state (some []) (Server1.send asking) Client2.receive (request b ∷ []) []
  state_of replied = state (some (answer ∷ [])) Server1.remove Client2.receive (request b ∷ []) []
  state_of got = state (some []) Server1.remove (Client2.print answer) (request b ∷ []) []
  state_of got_removed = state none Server1.returned (Client2.print answer) (request b ∷ []) []
  state_of done_first =
      state (some []) Server1.remove Client2.returned (request b ∷ []) (reply a ∷ [])
  state_of done = state none Server1.returned Client2.returned (request b ∷ []) (reply a ∷ [])
  state_of too_late = state none Server1.returned Client2.receive (request b ∷ []) []
  state_of lost = state none Server1.returned Client2.failed (request b ∷ []) []

  abbrev Known : MessageExchange → Type 0
  Known s = (p : Phase) × (s ≡ state_of p)

  abbrev pub QueueRun : ℕ → MessageExchange → Type 0
  QueueRun n s = Run (queue_server a) (queue_client b) queue_start n s

  -- How the exchange ends: both processes have returned; the server has removed the queue before the
  -- client has read the reply; or the client has begun before there was a queue, and the server waits.
  pub data HasEnded (s : MessageExchange) : Type 0 where
    both_returned :
        s.server ≡ Server1.returned
        → s.client ≡ Client2.returned
        → s.server_printed ≡ request b ∷ []
        → s.client_printed ≡ reply a ∷ []
        → HasEnded s
    reply_lost :
        s.server ≡ Server1.returned
        → s.client ≡ Client2.failed
        → s.server_printed ≡ request b ∷ []
        → s.client_printed ≡ []
        → HasEnded s
    no_request :
        s.server ≡ Server1.receive
        → s.client ≡ Client2.failed
        → s.server_printed ≡ []
        → s.client_printed ≡ []
        → HasEnded s
