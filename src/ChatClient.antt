-- ===== src/ChatClient.antt =====
-- "9_Chatting server & client/chatc.c": the chat client. Standard input is the bytes still to be read, and
-- the two threads are functions of what their system calls answer. A `buf` holds 256 bytes.
pub mod Sending
pub mod Receiving
pub mod Delivery
mod Tests
use linux_system_programming.Prelude.{
  ℕ, zero, suc, Bool, true, false, ◌&&◌, not, Option, none, some, List, [], ◌∷◌, ◌++◌, set,
  overwrite, leb, ◌==◌, if◌then◌else◌, length,
}
use linux_system_programming.Chat.{c_string}
use linux_system_programming.Chat.Results.{Outcome, ok, exited, fault, ◌>>=◌, or_fault}

abbrev pub client_buf : ℕ
client_buf = 256

-- What is still to be read, what has been sent on `Sockfd`, and what has been printed of it.
pub record Client : Type 0 where
  pub stdin : List ℕ
  pub sent : List (List ℕ)
  pub shown : List ℕ

-- What `fgets` takes, at most `n` bytes and at most one line, and what it leaves.
unfoldable pub take_line : ℕ → List ℕ → List ℕ × List ℕ
take_line zero xs = ([], xs)
take_line (suc n) [] = ([], [])
take_line (suc n) (x ∷ xs) =
    let rest = take_line n xs in if x == 10 then (x ∷ [], xs) else (x ∷ rest.0, rest.1)

-- `fgets(buf, MAX_BUF, stdin)`: the array and what is left to read; at the end of the input the array
-- stays as it is.
unfoldable pub fgets : List ℕ → List ℕ → List ℕ × List ℕ
fgets buf [] = (buf, [])
fgets buf (x ∷ xs) =
    let (line, rest) = take_line 255 (x ∷ xs) in (overwrite (line ++ (0 ∷ [])) buf, rest)

-- `strchr(buf, '\n')`, as an index.
unfoldable pub newline_at : List ℕ → Option ℕ
newline_at [] = none
newline_at (x ∷ xs) =
    if x == 10
    then some 0
    else if x == 0
    then none
    else elim (newline_at xs) [ none ↦ none | some i ↦ some (suc i) ]

-- `send(Sockfd, buf, strlen(buf)+1, 0)`
unfoldable pub send_text : Bool → List ℕ → Client → Outcome Client
send_text send_ok buf c = do
  text ← or_fault (c_string buf)
  if send_ok then ok (record c { sent = c.sent ++ ((text ++ (0 ∷ [])) ∷ []) }) else exited 1

-- `SendID`, with what `buf` holds before. Where there is no newline the write goes through the null
-- pointer that `strchr` returns.
unfoldable pub send_id : Bool → List ℕ → Client → Outcome Client
send_id send_ok buf c =
    let (line, rest) = fgets buf c.stdin in
    or_fault (newline_at line)
    >>= (λ i. send_text send_ok (set line i 0) (record c { stdin = rest }))

-- A round of `SendMsg`.
unfoldable pub send_round : Bool → List ℕ → Client → Outcome (List ℕ × Client)
send_round send_ok buf c =
    let (line, rest) = fgets buf c.stdin in
    send_text send_ok line (record c { stdin = rest }) >>= (λ c'. ok (line, c'))

-- The loop of `SendMsg`, a round for each answer of `send`.
unfoldable pub send_msg : List Bool → List ℕ → Client → Outcome (List ℕ × Client)
send_msg [] buf c = ok (buf, c)
send_msg (send_ok ∷ more) buf c = send_round send_ok buf c >>= (λ r. send_msg more r.0 r.1)

-- After a round of `ReceiveMsg` the loop goes on, or the thread has ended and the socket is closed.
pub data Received : Type 0 where
  going : List ℕ → Client → Received
  closed : Client → Received

-- A round of `ReceiveMsg`. `stop_ok` says whether `SendMsg` can be cancelled and joined.
unfoldable pub receive_round : Bool → Option (List ℕ) → List ℕ → Client → Outcome Received
receive_round stop_ok none buf c = exited 1
receive_round stop_ok (some []) buf c = if stop_ok then ok (closed c) else exited 1
receive_round stop_ok (some (x ∷ xs)) buf c =
    let buf' = overwrite (x ∷ xs) buf in
    or_fault (c_string buf') >>= (λ text. ok (going buf' (record c { shown = c.shown ++ text })))

-- The loop of `ReceiveMsg`, a round for each answer of `recv`.
unfoldable pub receive_msg : Bool → List (Option (List ℕ)) → List ℕ → Client → Outcome Received
receive_msg stop_ok [] buf c = ok (going buf c)
receive_msg stop_ok (got ∷ more) buf c = receive_round stop_ok got buf c >>= (λ r. elim r [
  | going buf' c' ↦ receive_msg stop_ok more buf' c'
  | closed c' ↦ ok (closed c')
])

-- What the calls of `main` answer: a descriptor, addresses, and whether a connection is made and a thread
-- is created.
pub record Net : Type 0 where
  pub socket : Option ℕ
  pub inet_addr : List ℕ → ℕ
  pub gethostbyname : List ℕ → Option ℕ
  pub connect : ℕ → ℕ → Bool
  pub create_ok : Bool

unfoldable pub isdigit : ℕ → Bool
isdigit ch = leb 48 ch && leb ch 57

-- The address of `argv[1]`.
unfoldable pub server_address : Net → List ℕ → Outcome ℕ
server_address net [] = elim (net.gethostbyname []) [ none ↦ exited 1 | some a ↦ ok a ]
server_address net (ch ∷ host) =
    if isdigit ch
    then ok (net.inet_addr (ch ∷ host))
    else elim (net.gethostbyname (ch ∷ host)) [ none ↦ exited 1 | some a ↦ ok a ]

-- `main`, up to the start of the threads; `args` are the arguments after the program's name.
unfoldable pub start_client : Net → List (List ℕ) → Bool → List ℕ → Client → Outcome Client
start_client net [] send_ok buf c = exited 1
start_client net (host ∷ extra ∷ args) send_ok buf c = exited 1
start_client net (host ∷ []) send_ok buf c = elim net.socket [
  | none ↦ exited 1
  | some sockfd ↦ server_address net host >>= (λ address.
      if net.connect sockfd address
      then (send_id send_ok buf c >>= (λ c'. if net.create_ok then ok c' else exited 1))
      else exited 1)
]

-- `CloseClient`: the threads are cancelled and joined, in this order, and the program ends.
unfoldable pub close_client : Bool → Bool → Bool → Bool → ℕ
close_client cancel_r cancel_s join_r join_s =
    if cancel_r && (cancel_s && (join_r && join_s)) then 0 else 1
