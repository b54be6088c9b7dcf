-- ===== src/ChatClient/Tests.antt =====
-- chatc.c, with short texts.
use linux_system_programming.Prelude.{
  ℕ, ◌≡◌, refl, true, false, none, some, List, [], ◌∷◌, ◌++◌, replicate, leb, if◌then◌else◌,
}
use linux_system_programming.Chat.{ClientType, Kernel, Server, c_string}
use linux_system_programming.Chat.Results.{ok, exited}
use linux_system_programming.ChatClient.{
  Client, Net, send_id, start_client, isdigit, server_address, send_text, fgets, take_line,
  newline_at,
}

abbrev blank_buf : List ℕ
blank_buf = replicate 256 7

-- A user types a name and two lines.
abbrev user : Client
user = record { stdin = 97 ∷ 10 ∷ 104 ∷ 105 ∷ 10 ∷ 33 ∷ 10 ∷ []; sent = []; shown = [] }

abbrev net : Net
net = record {
  socket = some 3;
  inet_addr = λ host. 1;
  gethostbyname = λ host. none;
  connect = λ fd address. true;
  create_ok = true;
}

-- A dotted address needs no look-up, and the name is sent.
started :
    start_client net ((49 ∷ []) ∷ []) true blank_buf user
    ≡ ok (record user { stdin = 104 ∷ 105 ∷ 10 ∷ 33 ∷ 10 ∷ []; sent = (97 ∷ 0 ∷ []) ∷ [] })
unfolding start_client server_address isdigit send_id send_text fgets take_line newline_at c_string
started = refl

unknown_host : start_client net ((97 ∷ []) ∷ []) true blank_buf user ≡ exited 1
unfolding start_client server_address isdigit
unknown_host = refl

abbrev speaking : Client
speaking = record user { stdin = 104 ∷ 105 ∷ 10 ∷ 33 ∷ 10 ∷ [] }

abbrev lines : List (List ℕ)
lines = (104 ∷ 105 ∷ []) ∷ (33 ∷ []) ∷ []

abbrev silent : Client
silent = record user { stdin = [] }

abbrev long_name : Client
long_name = record user { stdin = replicate 255 97 ++ (10 ∷ []) }

-- The server, with client `a` logged in, a client without a name, and a kernel that brings `bytes`.
abbrev server : Server
server = record {
  listener = 3;
  reads = λ fd. leb 3 fd;
  client =
      record { sockfd = 4; in_use = true; uid = 97 ∷ 0 ∷ []; first = true }
      ∷ record { sockfd = 5; in_use = true; uid = 0 ∷ 0 ∷ []; first = false }
      ∷ [];
  fd_max = 5;
  sock_idx = λ fd. if leb fd 4 then 0 else 1;
  sent = [];
  closed = [];
}

abbrev bringing : List ℕ → Kernel
bringing bytes = record {
  select = some 1;
  ready = λ fd. true;
  accept = λ open_fds. none;
  recv = λ fd n. some bytes;
  send_ok = λ fd. true;
  stack = λ fd. blank_buf;
}

abbrev newcomer : ClientType
newcomer = record { sockfd = 5; in_use = true; uid = 0 ∷ 0 ∷ []; first = false }

abbrev speaker : ClientType
speaker = record { sockfd = 4; in_use = true; uid = 97 ∷ 0 ∷ []; first = true }

abbrev hi : List ℕ
hi = 104 ∷ 105 ∷ []
