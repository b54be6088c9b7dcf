-- ===== src/Chat.antt =====
-- "9_Chatting server & client/chats.c": the chat server. Its global variables are one record, and a
-- round of `main`'s loop is a function of that record and of what the kernel answers in the round.
pub mod Results
pub mod Clients
pub mod Send
pub mod Messages
pub mod Inv
pub mod Rounds
mod Tests
use linux_system_programming.Prelude.{
  ℕ, zero, suc, ◌+◌, ◌≤◌, ◌<◌, ◌≡◌, Bool, true, false, ◌&&◌, not, Option, none, some, List, [], ◌∷◌,
  ◌++◌, length, get_elem?, set, replicate, overwrite, ltb, ◌==◌, if◌then◌else◌, put_at,
}
use linux_system_programming.Prelude.Text.{codes}
use Results.{Outcome, ok, exited, fault, out_of_fuel, ◌>>=◌, or_fault}

abbrev pub max_client : ℕ
max_client = 5

abbrev pub max_id : ℕ
max_id = 32

abbrev pub max_buf : ℕ
max_buf = 256

-- The length of the array `sockIdx`.
abbrev pub max_sock : ℕ
max_sock = 256

-- `ClientType`, without the field `tid`, which nothing uses. A character array is a list of its bytes.
pub record ClientType : Type 0 where
  pub sockfd : ℕ
  pub in_use : Bool
  pub uid : List ℕ
  pub first : Bool

-- The global variables, `main`'s `fd_max` and `sockIdx`, and what has been sent and closed so far.
pub record Server : Type 0 where
  pub listener : ℕ
  pub reads : ℕ → Bool
  pub client : List ClientType
  pub fd_max : ℕ
  pub sock_idx : ℕ → ℕ
  pub sent : List (ℕ × List ℕ)
  pub closed : List ℕ

-- What the kernel answers in one round; `none` is a result below 0. `stack fd` is what the array
-- `buf` of `ProcessClient` holds before `recv` when the message comes from `fd`.
pub record Kernel : Type 0 where
  pub select : Option ℕ
  pub ready : ℕ → Bool
  pub accept : (ℕ → Bool) → Option ℕ
  pub recv : ℕ → ℕ → Option (List ℕ)
  pub send_ok : ℕ → Bool
  pub stack : ℕ → List ℕ

-- What is documented of these calls: `accept` gives a descriptor that is not in use, `recv` at most
-- as many bytes as asked for; and the array has its declared length.
pub record IsKernel (k : Kernel) : Type 0 where
  pub accept_fresh :
      (open_fds : ℕ → Bool) (fd : ℕ) → k.accept open_fds ≡ some fd → open_fds fd ≡ false
  pub recv_le : (fd n : ℕ) (bytes : List ℕ) → k.recv fd n ≡ some bytes → length bytes ≤ n
  pub stack_length : (fd : ℕ) → length (k.stack fd) ≡ max_buf

-- `GetID`: the first unused entry is taken. Where there is none the function ends without a value.
unfoldable pub get_id : List ClientType → Option (ℕ × List ClientType)
get_id [] = none
get_id (c ∷ cs) =
    if not c.in_use
    then some (0, record c { in_use = true } ∷ cs)
    else elim (get_id cs) [ none ↦ none | some (i, cs') ↦ some (suc i, c ∷ cs') ]

-- The characters of an array up to its NUL; `none` where there is none, and a read goes past the end.
unfoldable pub c_string : List ℕ → Option (List ℕ)
c_string [] = none
c_string (c ∷ cs) =
    if c == 0 then some [] else elim (c_string cs) [ none ↦ none | some t ↦ some (c ∷ t) ]

-- `sprintf(msg, "%s> %s", uid, buf)` into `char msg[MAX_BUF+MAX_ID]`, its NUL included in the bound.
unfoldable pub format_msg : List ℕ → List ℕ → Option (List ℕ)
format_msg uid buf = elim (c_string uid) [
  | none ↦ none
  | some u ↦ elim (c_string buf) [
    | none ↦ none
    | some t ↦
        let msg = u ++ (codes "> " ++ t) in
        if ltb (length msg) (max_buf + max_id) then some msg else none
  ]
]

-- The loop of `SendToOtherClients` from the entry `i` on: what is sent, in order, NUL included.
unfoldable pub send_loop : Kernel → ℕ → List ℕ → ℕ → List ClientType → Outcome (List (ℕ × List ℕ))
send_loop k id msg i [] = ok []
send_loop k id msg i (c ∷ cs) =
    let rest = send_loop k id msg (i + 1) cs in
    if c.in_use && not (i == id)
    then (if k.send_ok c.sockfd
        then rest >>= (λ out. ok ((c.sockfd, msg ++ (0 ∷ [])) ∷ out))
        else exited 1)
    else rest

-- `SendToOtherClients`
unfoldable pub send_to_other_clients : Kernel → ℕ → List ℕ → Server → Outcome Server
send_to_other_clients k id buf s = do
  c ← or_fault (get_elem? s.client id)
  msg ← or_fault (format_msg c.uid buf)
  out ← send_loop k id msg 0 s.client
  ok (record s { sent = s.sent ++ out })

-- The first message is the user's name: it goes to the front of `uid`, and is printed.
unfoldable pub log_in : Kernel → ℕ → ClientType → Server → Outcome Server
log_in k id c s = elim (k.recv c.sockfd max_id) [
  | none ↦ exited 1
  | some name ↦
      let uid = overwrite name c.uid in
      or_fault (c_string uid) >>= (λ printed.
        ok (record s { client = set s.client id (record c { uid = uid; first = true }) }))
]

-- An empty message: the client has gone.
unfoldable pub log_out : ℕ → ClientType → Server → Server
log_out id c s = record s {
  reads = put_at s.reads c.sockfd false;
  closed = s.closed ++ (c.sockfd ∷ []);
  client = set s.client id (record c { in_use = false });
}

-- `"log-out.....\n"` with its NUL
abbrev pub log_out_text : List ℕ
log_out_text = codes "log-out....." ++ (10 ∷ 0 ∷ [])

-- A message of a client that is logged in.
unfoldable pub client_msg : Kernel → ℕ → ClientType → Server → Outcome Server
client_msg k id c s = elim (k.recv c.sockfd max_buf) [
  | none ↦ exited 1
  | some bytes ↦
      let buf = overwrite bytes (k.stack c.sockfd) in
      if length bytes == 0
      then (or_fault (c_string c.uid)
          >>= (λ printed. send_to_other_clients k id (overwrite log_out_text buf) (log_out id c s)))
      else send_to_other_clients k id buf s
]

-- `ProcessClient`
unfoldable pub process_client : Kernel → ℕ → Server → Outcome Server
process_client k id s = do
  c ← or_fault (get_elem? s.client id)
  if c.first then client_msg k id c s else log_in k id c s

-- The branch of `main` for a connection.
unfoldable pub connect_client : Kernel → Server → Outcome Server
connect_client k s = elim (k.accept s.reads) [
  | none ↦ exited 1
  | some fd ↦ do
    taken ← or_fault (get_id s.client)
    c ← or_fault (get_elem? taken.1 taken.0)
    if ltb fd max_sock
        then ok (record s {
          reads = put_at s.reads fd true;
          fd_max = if ltb s.fd_max fd then fd else s.fd_max;
          sock_idx = put_at s.sock_idx fd taken.0;
          client = set taken.1 taken.0 (record c { sockfd = fd; first = false });
        })
        else fault
]

unfoldable pub serve : Kernel → ℕ → Server → Outcome Server
serve k i s = if i == s.listener then connect_client k s else process_client k (s.sock_idx i) s

-- `for (i = 0; i < fd_max + 1; i++)`, over the copy `cpy_reads` that `select` has left.
unfoldable pub scan : Kernel → (ℕ → Bool) → ℕ → ℕ → Server → Outcome Server
scan k cpy_reads zero i s = out_of_fuel
scan k cpy_reads (suc fuel) i s = elim (ltb i (s.fd_max + 1)) [
  | true ↦ (if cpy_reads i then serve k i s else ok s) >>= (λ s'. scan k cpy_reads fuel (i + 1) s')
  | false ↦ ok s
]

-- The fuel of a round: the loop runs over descriptors below `max_sock`.
abbrev pub scan_fuel : ℕ
scan_fuel = max_sock + 1

-- One round of `while (1)`.
unfoldable pub round : Kernel → Server → Outcome Server
round k s = elim k.select [
  | none ↦ exited 1
  | some zero ↦ ok s
  | some (suc n) ↦ scan k (λ fd. s.reads fd && k.ready fd) scan_fuel 0 s
]

-- The rounds of a run.
unfoldable pub run : List Kernel → Server → Outcome Server
run [] s = ok s
run (k ∷ ks) s = round k s >>= (λ s'. run ks s')

abbrev pub no_client : ClientType
no_client = record { sockfd = 0; in_use = false; uid = replicate max_id 0; first = false }

-- The variables when `main` enters its loop; static data is zero, `sock_idx` is not initialised.
unfoldable pub init : ℕ → (ℕ → ℕ) → Server
init listener sock_idx = record {
  listener = listener;
  reads = put_at (λ fd. false) listener true;
  client = replicate max_client no_client;
  fd_max = listener;
  sock_idx = sock_idx;
  sent = [];
  closed = [];
}

close_used : List ClientType → List ℕ
close_used [] = []
close_used (c ∷ cs) = let rest = close_used cs in if c.in_use then c.sockfd ∷ rest else rest

-- `CloseServer`, up to its `exit(0)`: the descriptors that it closes.
unfoldable pub close_server : Server → List ℕ
unfolding close_used
close_server s = s.listener ∷ close_used s.client
