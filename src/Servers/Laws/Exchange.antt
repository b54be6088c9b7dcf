-- ===== src/Servers/Laws/Exchange.antt =====
-- tcps.c, tcpc.c, udps.c and udpc.c: a request and its reply, and the servers' loops.
use linux_system_programming.Prelude.{
  ℕ, ◌≡◌, refl, ap, ◌∙◌, true, some, List, [], ◌∷◌, ◌++◌, map, arith, append_assoc, append-nil,
}
use linux_system_programming.Servers.Message.{
  Progress, done, ◌>>=◌, MsgType, msg_request, msg_reply, reply_text, request_text, shown,
}
use linux_system_programming.Servers.Stream.{
  Peer, Log, ClientCalls, full_stop, write_reply, tcp_round, tcp_server, udp_round, ask, tcp_client,
  udp_client,
}
use linux_system_programming.Servers.Laws.Text.{
  holding, print_into-fits, shown-holding, prepare-fits, reply_text-IsText, request_text-IsText,
  length-reply_text, length-request_text,
}

-- The request of process `c`, in the array of its `msg`.
abbrev pub request_of : ℕ → MsgType → MsgType
request_of c m = holding (request_text c) (record m { kind = msg_request })

-- The reply of process `s` to a message.
abbrev pub reply_to : ℕ → MsgType → MsgType
reply_to s m = holding (reply_text s full_stop) (record m { kind = msg_reply })

-- A log with one more exchange over TCP; over UDP nothing is closed.
abbrev pub tcp_logged : ℕ → ℕ → List ℕ → MsgType → Log → Log
tcp_logged s fd text m log = record {
  requests = log.requests ++ (text ∷ []);
  replies = log.replies ++ ((fd, reply_to s m) ∷ []);
  closed = log.closed ++ (fd ∷ []);
}

abbrev pub udp_logged : ℕ → ℕ → List ℕ → MsgType → Log → Log
udp_logged s fd text m log = record log {
  requests = log.requests ++ (text ∷ []);
  replies = log.replies ++ ((fd, reply_to s m) ∷ []);
}

pub tcp_round-answers :
    (s fd : ℕ) (m : MsgType) (text : List ℕ) (log : Log)
    → shown m ≡ done text
    → tcp_round s (record { fd = fd; got = some m; write_ok = true }) log
      ≡ done (tcp_logged s fd text m log)
unfolding tcp_round write_reply
tcp_round-answers s fd m text log e = rw (
    prepare-fits (reply_text s full_stop) text m (record m { kind = msg_reply }) e
      (omega (arith, length-reply_text s full_stop (omega arith))))

pub udp_round-answers :
    (s fd : ℕ) (m : MsgType) (text : List ℕ) (log : Log)
    → shown m ≡ done text
    → udp_round s (record { fd = fd; got = some m; write_ok = true }) log
      ≡ done (udp_logged s fd text m log)
unfolding udp_round write_reply
udp_round-answers s fd m text log e = rw (
    prepare-fits (reply_text s full_stop) text m (record m { kind = msg_reply }) e
      (omega (arith, length-reply_text s full_stop (omega arith))))

request_shown : (c : ℕ) (m : MsgType) → shown (request_of c m) ≡ done (request_text c)
request_shown c m =
    shown-holding (request_text c) (record m { kind = msg_request }) (request_text-IsText c)

reply_shown : (s : ℕ) (m : MsgType) → shown (reply_to s m) ≡ done (reply_text s full_stop)
reply_shown s m =
    shown-holding (reply_text s full_stop) (record m { kind = msg_reply })
      (reply_text-IsText s full_stop (omega arith))

ask-replied :
    (c : ℕ) (m answer : MsgType) (text : List ℕ) (calls : ClientCalls)
    → calls.write_ok ≡ true
    → calls.got ≡ some answer
    → shown answer ≡ done text
    → ask c m calls ≡ done (record { sent = request_of c m; printed = text })
unfolding ask
ask-replied c m answer text calls w g e = rw (
  print_into-fits (request_text c) (record m { kind = msg_request }) (length-request_text c),
  w,
  g,
  e,
)

-- tcpc.c and tcps.c together, when their calls succeed and each side receives what the other has sent:
-- the server prints the client's request, answers on the same connection with a message of the type
-- `MSG_REPLY`, and closes it; the client prints the server's reply. The texts fit whatever the process
-- numbers are.
pub tcp_exchange :
    (c s fd sockfd : ℕ) (m : MsgType) (log : Log)
    → (tcp_client c m (record {
      socket = some sockfd;
      connect_ok = true;
      write_ok = true;
      got = some (reply_to s (request_of c m));
    })
        ≡ done (record { sent = request_of c m; printed = reply_text s full_stop }))
      × (tcp_round s (record { fd = fd; got = some (request_of c m); write_ok = true }) log
          ≡ done (tcp_logged s fd (request_text c) (request_of c m) log))
unfolding tcp_client
tcp_exchange c s fd sockfd m log = (
  ask-replied c m (reply_to s (request_of c m)) (reply_text s full_stop) _ refl refl
      (reply_shown s (request_of c m)),
  tcp_round-answers s fd (request_of c m) (request_text c) log (request_shown c m),
)

-- udpc.c and udps.c together, likewise, but that the server closes nothing.
pub udp_exchange :
    (c s fd sockfd : ℕ) (m : MsgType) (log : Log)
    → (udp_client c m (record {
      socket = some sockfd;
      connect_ok = true;
      write_ok = true;
      got = some (reply_to s (request_of c m));
    })
        ≡ done (record { sent = request_of c m; printed = reply_text s full_stop }))
      × (udp_round s (record { fd = fd; got = some (request_of c m); write_ok = true }) log
          ≡ done (udp_logged s fd (request_text c) (request_of c m) log))
unfolding udp_client
udp_exchange c s fd sockfd m log = (
  ask-replied c m (reply_to s (request_of c m)) (reply_text s full_stop) _ refl refl
      (reply_shown s (request_of c m)),
  udp_round-answers s fd (request_of c m) (request_text c) log (request_shown c m),
)

-- A connection that brings a readable message and takes the reply.
pub record Caller : Type 0 where
  pub fd : ℕ
  pub msg : MsgType
  pub text : List ℕ

abbrev pub AreReadable : List Caller → Type 0
AreReadable [] = Unit
AreReadable (p ∷ ps) = (shown p.msg ≡ done p.text) × AreReadable ps

abbrev pub peer_of : Caller → Peer
peer_of p = record { fd = p.fd; got = some p.msg; write_ok = true }

-- The log after all of them, in order.
abbrev pub all_logged : ℕ → List Caller → Log → Log
all_logged s ps log = record {
  requests = log.requests ++ map (λ (p : Caller). p.text) ps;
  replies = log.replies ++ map (λ (p : Caller). (p.fd, reply_to s p.msg)) ps;
  closed = log.closed ++ map (λ (p : Caller). p.fd) ps;
}

all_logged-step :
    (s : ℕ) (p : Caller) (ps : List Caller) (log : Log)
    → all_logged s ps (tcp_logged s p.fd p.text p.msg log) ≡ all_logged s (p ∷ ps) log
all_logged-step s p ps log = ground (
  arith,
  append_assoc log.requests (p.text ∷ []) (map (λ (q : Caller). q.text) ps),
  append_assoc log.replies ((p.fd, reply_to s p.msg) ∷ [])
      (map (λ (q : Caller). (q.fd, reply_to s q.msg)) ps),
  append_assoc log.closed (p.fd ∷ []) (map (λ (q : Caller). q.fd) ps),
)

all_logged-none : (s : ℕ) (log : Log) → log ≡ all_logged s [] log
all_logged-none s log =
    ground (arith, append-nil log.requests, append-nil log.replies, append-nil log.closed)

-- tcps.c answers every connection once, in the order of `accept`, and closes each of them: none is left
-- open and none is answered twice.
pub tcp_server-answers :
    (s : ℕ) (ps : List Caller) (log : Log)
    → AreReadable ps
    → tcp_server s (map (λ (p : Caller). some (peer_of p)) ps) log ≡ done (all_logged s ps log)
unfolding tcp_server
tcp_server-answers s [] log h = ap done (all_logged-none s log)
tcp_server-answers s (p ∷ ps) log h =
    ap
      (λ (r : Progress Log).
        r >>= (λ l. tcp_server s (map (λ (q : Caller). some (peer_of q)) ps) l))
      (tcp_round-answers s p.fd p.msg p.text log h.0)
    ∙ tcp_server-answers s ps (tcp_logged s p.fd p.text p.msg log) h.1
    ∙ ap done (all_logged-step s p ps log)
