-- ===== src/Ipc/Fifo.antt =====
-- "5_Inter-Process Communication": fifos.c, fifoc.c and fifo.h, a server and any number of clients. A step is
-- one call on a FIFO or one message that is printed. Messages are shorter than PIPE_BUF, so that each is
-- written and read whole. The FIFO of a client is named by the client's process number.
pub mod Inv
pub mod Order
pub mod Laws
use linux_system_programming.Prelude.{
  ℕ, ◌≡◌, Bool, true, false, Option, none, some, List, [], ◌∷◌, ◌++◌, if◌then◌else◌, put_at,
}
use linux_system_programming.Sipc.{Message, request, reply}

-- `Msgtype`
pub record FifoMessage : Type 0 where
  pub return_fifo : ℕ
  pub data_text : Message

-- Where the server stands, with the `msg` that it is about to answer; `ended` by a signal or by `exit`,
-- with what it held then.
pub data ServerAt : Type 0 where
  make_fifo : ServerAt
  wait_request : ServerAt
  print_request : FifoMessage → ServerAt
  open_reply : FifoMessage → ServerAt
  write_reply : FifoMessage → ServerAt
  ended : List FifoMessage → ServerAt

-- Where a client stands; `failed` by `exit(1)`.
pub data ClientAt : Type 0 where
  make_fifo : ClientAt
  open_server : ClientAt
  send : ClientAt
  receive : ClientAt
  print_reply : FifoMessage → ClientAt
  remove_fifo : ClientAt
  returned : ClientAt
  failed : ClientAt

-- Whether SERV_FIFO and each client's FIFO exist, what they hold, the processes, and what each has
-- printed. `sent` is the texts of the requests in the order in which they were written.
pub record World : Type 0 where
  pub served : Bool
  pub requests : List FifoMessage
  pub fifos : ℕ → Bool
  pub replies : ℕ → List FifoMessage
  pub server : ServerAt
  pub clients : ℕ → ClientAt
  pub server_printed : List Message
  pub printed : ℕ → List Message
  pub sent : List Message

-- A `read` of the server; one that is interrupted is made again.
abbrev pub read_request : List FifoMessage → World → Option World
read_request [] s = none
read_request (m ∷ rest) s = some (record s { requests = rest; server = print_request m })

-- One step of fifos.c, as process `self`; `none` while it waits. The FIFO of a client is opened for
-- writing only; the client that made it holds it open.
unfoldable pub server_at : ℕ → ServerAt → World → Option World
server_at self make_fifo s = some (record s { served = true; server = wait_request })
server_at self wait_request s = read_request s.requests s
server_at self (print_request m) s =
    some
      (record s { server_printed = s.server_printed ++ (m.data_text ∷ []); server = open_reply m })
server_at self (open_reply m) s =
    some (record s { server = if s.fifos m.return_fifo then write_reply m else ended (m ∷ []) })
server_at self (write_reply m) s = some (record s {
  replies =
      put_at s.replies m.return_fifo
        (s.replies m.return_fifo ++ (record m { data_text = reply self } ∷ []));
  server = wait_request;
})
server_at self (ended held) s = none

-- What the server holds and has not answered.
abbrev pub hand : ServerAt → List FifoMessage
hand (print_request m) = m ∷ []
hand (open_reply m) = m ∷ []
hand (write_reply m) = m ∷ []
hand (ended held) = held
hand _ = []

-- `sigintHandler`, at any place of the server.
abbrev pub interrupted : World → World
interrupted s = record s { served = false; server = ended (hand s.server) }

abbrev pub move : ℕ → ClientAt → World → World
move self at s = record s { clients = put_at s.clients self at }

-- A `read` of the client on its own FIFO.
abbrev pub read_reply : ℕ → List FifoMessage → World → Option World
read_reply self [] s = none
read_reply self (m ∷ rest) s =
    some (move self (print_reply m) (record s { replies = put_at s.replies self rest }))

-- One step of fifoc.c, as process `self`; `none` while it waits or has ended.
unfoldable pub client_at : ℕ → ClientAt → World → Option World
client_at self make_fifo s = some (
    if s.fifos self
    then move self failed s
    else move self open_server (record s { fifos = put_at s.fifos self true }))
client_at self open_server s = some (move self (if s.served then send else failed) s)
client_at self send s = some (
    move self receive (record s {
      requests = s.requests ++ (record { return_fifo = self; data_text = request self } ∷ []);
      sent = s.sent ++ (request self ∷ []);
    }))
client_at self receive s = read_reply self (s.replies self) s
client_at self (print_reply m) s = some (
    move self remove_fifo
      (record s { printed = put_at s.printed self (s.printed self ++ (m.data_text ∷ [])) }))
client_at self remove_fifo s =
    some (move self returned (record s { fifos = put_at s.fifos self false }))
client_at self returned s = none
client_at self failed s = none

-- The server as process `self`, any client, or a signal to the server makes the next step.
pub data FifoStep (self : ℕ) (s : World) : World → Type 0 where
  serve : {t : World} → server_at self s.server s ≡ some t → FifoStep self s t
  ask :
      {t : World} (client : ℕ) → client_at client (s.clients client) s ≡ some t → FifoStep self s t
  interrupt : FifoStep self s (interrupted s)

-- No FIFO exists, and no client has been started.
abbrev pub fifo_start : World
fifo_start = record {
  served = false;
  requests = [];
  fifos = λ i. false;
  replies = λ i. [];
  server = make_fifo;
  clients = λ i. make_fifo;
  server_printed = [];
  printed = λ i. [];
  sent = [];
}

pub data FifoRun (self : ℕ) : World → Type 0 where
  begin : FifoRun self fifo_start
  more : {s t : World} → FifoRun self s → FifoStep self s t → FifoRun self t
