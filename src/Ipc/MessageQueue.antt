-- ===== src/Ipc/MessageQueue.antt =====
-- "5_Inter-Process Communication": msgq1.c, msgq2.c and msg.h, one request and one reply over a message
-- queue. A step is one call on the queue or one text that is printed.
pub mod Laws
use linux_system_programming.Prelude.{
  ℕ, Option, none, some, Bool, true, false, List, [], ◌∷◌, ◌++◌, ◌==◌, if◌then◌else◌,
}
use linux_system_programming.Sipc.{Message, request, reply}

-- `MsgType`; the type is 1 for a request and 2 for a reply.
pub record QueueMessage : Type 0 where
  pub kind : ℕ
  pub data_text : Message

abbrev pub kind_request : ℕ
kind_request = 1

abbrev pub kind_reply : ℕ
kind_reply = 2

-- Where msgq1.c stands; `failed` is `exit(1)`.
pub data Server1 : Type 0 where
  get receive : Server1
  print : QueueMessage → Server1
  send : QueueMessage → Server1
  remove returned failed : Server1

-- Where msgq2.c stands.
pub data Client2 : Type 0 where
  get send receive : Client2
  print : QueueMessage → Client2
  returned failed : Client2

-- The queue, `none` where there is none, the processes, and what each has printed.
pub record MessageExchange : Type 0 where
  pub queue : Option (List QueueMessage)
  pub server : Server1
  pub client : Client2
  pub server_printed : List Message
  pub client_printed : List Message

-- What is found behind a message of another type.
abbrev pub behind :
    QueueMessage
    → Option (QueueMessage × List QueueMessage)
    → Option (QueueMessage × List QueueMessage)
behind m none = none
behind m (some (found, others)) = some (found, m ∷ others)

-- `msgrcv` with a type above 0: the first message of that type, and the others.
abbrev pub first_of : ℕ → List QueueMessage → Option (QueueMessage × List QueueMessage)
first_of kind [] = none
first_of kind (m ∷ ms) =
    let rest = first_of kind ms in if m.kind == kind then some (m, ms) else behind m rest

-- Where the server goes on when its call waits, fails or brings a message.
abbrev pub server_got :
    Option (QueueMessage × List QueueMessage) → MessageExchange → Option MessageExchange
server_got none s = none
server_got (some (m, others)) s = some (record s { queue = some others; server = print m })

abbrev pub server_receive : Option (List QueueMessage) → MessageExchange → Option MessageExchange
server_receive none s = some (record s { server = failed })
server_receive (some ms) s = server_got (first_of kind_request ms) s

abbrev pub server_send :
    QueueMessage → Option (List QueueMessage) → MessageExchange → Option MessageExchange
server_send m none s = some (record s { server = failed })
server_send m (some ms) s = some (record s { queue = some (ms ++ (m ∷ [])); server = remove })

-- `msgget` with `IPC_CREAT`
abbrev pub make_queue : Option (List QueueMessage) → List QueueMessage
make_queue none = []
make_queue (some ms) = ms

-- One step of msgq1.c, as process `self`; `none` while it waits or has ended.
unfoldable pub server1_at : ℕ → Server1 → MessageExchange → Option MessageExchange
server1_at self get s = some (record s { queue = some (make_queue s.queue); server = receive })
server1_at self receive s = server_receive s.queue s
server1_at self (print m) s =
    some (record s { server_printed = s.server_printed ++ (m.data_text ∷ []); server = send m })
server1_at self (send m) s =
    server_send (record m { kind = kind_reply; data_text = reply self }) s.queue s
server1_at self remove s = some (record s { queue = none; server = returned })
server1_at self returned s = none
server1_at self failed s = none

abbrev pub client_get : Option (List QueueMessage) → Client2
client_get none = failed
client_get (some ms) = send

abbrev pub client_send :
    QueueMessage → Option (List QueueMessage) → MessageExchange → Option MessageExchange
client_send m none s = some (record s { client = failed })
client_send m (some ms) s = some (record s { queue = some (ms ++ (m ∷ [])); client = receive })

abbrev pub client_got :
    Option (QueueMessage × List QueueMessage) → MessageExchange → Option MessageExchange
client_got none s = none
client_got (some (m, others)) s = some (record s { queue = some others; client = print m })

-- A `msgrcv` that waits fails when the queue is removed.
abbrev pub client_receive : Option (List QueueMessage) → MessageExchange → Option MessageExchange
client_receive none s = some (record s { client = failed })
client_receive (some ms) s = client_got (first_of kind_reply ms) s

-- One step of msgq2.c, as process `self`.
unfoldable pub client2_at : ℕ → Client2 → MessageExchange → Option MessageExchange
client2_at self get s = some (record s { client = client_get s.queue })
client2_at self send s =
    client_send (record { kind = kind_request; data_text = request self }) s.queue s
client2_at self receive s = client_receive s.queue s
client2_at self (print m) s =
    some (record s { client_printed = s.client_printed ++ (m.data_text ∷ []); client = returned })
client2_at self returned s = none
client2_at self failed s = none

abbrev pub queue_server : ℕ → MessageExchange → Option MessageExchange
queue_server self s = server1_at self s.server s

abbrev pub queue_client : ℕ → MessageExchange → Option MessageExchange
queue_client self s = client2_at self s.client s

-- No queue, and neither process has begun.
abbrev pub queue_start : MessageExchange
queue_start = record {
  queue = none;
  server = get;
  client = get;
  server_printed = [];
  client_printed = [];
}
