-- ===== src/Chat/Tests.antt =====
-- chats.c on small tables of clients.
use linux_system_programming.Prelude.{
  put_at, ℕ, ◌≡◌, refl, true, false, Bool, none, some, List, [], ◌∷◌, ◌++◌, length, get_elem?, set,
  replicate, arith, if◌then◌else◌, leb, ◌==◌,
}
use linux_system_programming.Chat.{
  ClientType, Server, Kernel, IsKernel, no_client, init, max_buf, run, process_client, format_msg,
  c_string, round, scan, serve, connect_client, get_id, client_msg, log_in, send_to_other_clients,
  send_loop,
}
use linux_system_programming.Chat.Results.{ok, ◌>>=◌, Ensures}
use linux_system_programming.Chat.Send.{line, packets, format_msg_lem}
use linux_system_programming.Chat.Messages.{gone, process_client-message, process_client-log_out}
use linux_system_programming.Chat.Inv.{IsValid}
use linux_system_programming.Chat.Rounds.{run-Ensures}

-- Only `waiting` is ready, the kernel hands out descriptor 4, and every `recv` gives `bytes`.
abbrev answering_on : ℕ → List ℕ → Kernel
answering_on waiting bytes = record {
  select = some 1;
  ready = λ fd. fd == waiting;
  accept = λ open_fds. if open_fds 4 then none else some 4;
  recv = λ fd n. if leb (length bytes) n then some bytes else none;
  send_ok = λ fd. true;
  stack = λ fd. replicate max_buf 7;
}

abbrev answering : List ℕ → Kernel
answering bytes = answering_on 4 bytes

answering_on-IsKernel : (waiting : ℕ) (bytes : List ℕ) → IsKernel (answering_on waiting bytes)
answering_on-IsKernel waiting bytes = record {
  accept_fresh = λ open_fds fd e. ground arith;
  recv_le = λ fd n got e. ground arith;
  stack_length = λ fd. refl;
}

abbrev named : ℕ → ℕ → Bool → ClientType
named fd letter first = record {
  sockfd = fd;
  in_use = true;
  uid = letter ∷ replicate 31 0;
  first = first;
}

-- Clients `a` and `b` are logged in, a third one is not.
abbrev three : Server
three = record {
  listener = 3;
  reads = λ fd. leb 3 fd;
  client = named 4 97 true ∷ named 5 98 true ∷ named 6 0 false ∷ no_client ∷ no_client ∷ [];
  fd_max = 6;
  sock_idx = λ fd. if leb fd 4 then 0 else if leb fd 5 then 1 else 2;
  sent = [];
  closed = [];
}

-- A client is accepted, sends its name and says `hi`.
abbrev visit : List Kernel
visit = answering_on 3 [] ∷ answering_on 4 (97 ∷ 0 ∷ []) ∷ answering_on 4 (104 ∷ 105 ∷ 0 ∷ []) ∷ []

-- The server is still there, and knows the client under its name.
visit-named :
    run visit (init 3 (λ fd. 0)) >>= (λ s. ok (get_elem? s.client 0)) ≡ ok (some (named 4 97 true))
unfolding run round scan serve process_client connect_client get_id c_string client_msg log_in
    format_msg send_to_other_clients send_loop init
visit-named = refl

run-Ensures_example : Ensures IsValid (run visit (init 3 (λ fd. 0)))
run-Ensures_example =
    run-Ensures visit 3 (λ fd. 0)
      (
        answering_on-IsKernel 3 [],
        (answering_on-IsKernel 4 (97 ∷ 0 ∷ []), (answering_on-IsKernel 4 (104 ∷ 105 ∷ 0 ∷ []), tt)),
      )
      (omega arith)

abbrev hi : List ℕ
hi = 104 ∷ 105 ∷ []

-- Client `a` says `hi`: `b` and the client without a name get `a> hi`.
process_client-message_example :
    process_client (answering (104 ∷ 105 ∷ 0 ∷ [])) 0 three
    ≡ ok (record three { sent = packets (line (97 ∷ []) hi) (5 ∷ 6 ∷ []) })
unfolding c_string
process_client-message_example =
    process_client-message (answering (104 ∷ 105 ∷ 0 ∷ [])) 0 three (named 4 97 true) refl (97 ∷ [])
      hi [] refl refl (omega arith) refl (omega arith) (refl, (refl, tt))

process_client-log_out_example :
    process_client (answering []) 1 three
    ≡ ok (record three {
      reads = put_at three.reads 5 false;
      closed = three.closed ++ (5 ∷ []);
      client = set three.client 1 (record (named 5 98 true) { in_use = false });
      sent = packets (line (98 ∷ []) gone) (4 ∷ 6 ∷ []);
    })
unfolding c_string
process_client-log_out_example =
    process_client-log_out (answering []) 1 three (named 5 98 true) refl (98 ∷ []) refl refl refl
      (omega arith) (refl, (refl, tt))

-- Five clients, all in use.
abbrev full_house : Server
full_house = record three { client = replicate 5 (named 4 97 true) }

full_house-used :
    (j : ℕ) (c : ClientType) → get_elem? full_house.client j ≡ some c → c.in_use ≡ true
full_house-used j c e = ground arith

-- The longest name and the longest text that the two arrays hold.
abbrev long_name : List ℕ
long_name = replicate 31 97

abbrev long_text : List ℕ
long_text = replicate 255 98

-- Together they are one character too many.
longest_overflows : format_msg (long_name ++ (0 ∷ [])) (long_text ++ (0 ∷ [])) ≡ none
unfolding c_string
longest_overflows =
    format_msg_lem (long_name ++ (0 ∷ [])) (long_text ++ (0 ∷ [])) long_name long_text refl refl
