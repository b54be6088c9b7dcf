-- ===== src/Servers/Tests.antt =====
-- The programs of "7_Sockets", with process numbers 41 and 7.
use linux_system_programming.Prelude.{
  ◌==◌, ◌≡◌, refl, true, false, some, [], ◌∷◌, ◌++◌, map, replicate, overwrite, ℕ,
}
use linux_system_programming.Prelude.Text.{codes}
use linux_system_programming.Chat.{c_string}
use linux_system_programming.Servers.Message.{
  done, stopped, MsgType, msg_request, decimal, digits, shown, prepare, print_into, reply_text,
}
use linux_system_programming.Servers.Stream.{Log, make_server, tcp_server, parent_round}
use linux_system_programming.Servers.Select.{make_sockets, spawn, tcp_thread}
use linux_system_programming.ChatClient.{Net, isdigit}
use linux_system_programming.Servers.Named.{resolve}
use linux_system_programming.Servers.Pool.{
  Side, Pool, new_side, PoolRun, begin, more, tcp_arrives, round, tcp_taken, tcp_answered,
  pool_round, thread_takes,
}
use linux_system_programming.Servers.Pool.Laws.{threads_unbounded}
use linux_system_programming.Servers.Laws.Exchange.{Caller, peer_of, all_logged, tcp_server-answers}

decimal-41 : decimal 41 ≡ codes "41"
unfolding decimal digits
decimal-41 = refl

-- What the stack of a program holds.
abbrev stack_msg : MsgType
stack_msg = record { kind = 9; text = replicate 128 7 }

abbrev nothing : Log
nothing = record { requests = []; replies = []; closed = [] }

abbrev hello : MsgType
hello = record { kind = msg_request; text = codes "hello" ++ replicate 123 0 }

abbrev caller : ℕ → Caller
caller fd = record { fd = fd; msg = hello; text = codes "hello" }

tcp_server-answers_example :
    tcp_server 7 (map (λ (p : Caller). some (peer_of p)) (caller 4 ∷ caller 5 ∷ [])) nothing
    ≡ done (all_logged 7 (caller 4 ∷ caller 5 ∷ []) nothing)
unfolding shown c_string
tcp_server-answers_example =
    tcp_server-answers 7 (caller 4 ∷ caller 5 ∷ []) nothing (refl, (refl, tt))

-- The parent of hw2.c goes on at once, and closes its copy of the connection.
parent_goes_on :
    parent_round (some 42) (peer_of (caller 4)) ([], [])
    ≡ done ((42, peer_of (caller 4)) ∷ [], 4 ∷ [])
unfolding parent_round
parent_goes_on = refl

unbound :
    make_sockets
      (record { socket = some 3; bind_ok = true })
      (record { socket = some 4; bind_ok = false })
    ≡ stopped 1
unfolding make_sockets make_server
unbound = refl

-- A connection arrives, `main` starts a thread, and the thread takes the connection.
abbrev one_side : Side
one_side = record {
  arrived = peer_of (caller 4) ∷ [];
  taken = peer_of (caller 4) ∷ [];
  waiting = [];
  idle = 0;
  held = peer_of (caller 4) ∷ [];
  over = [];
}

abbrev one_taken : Pool
one_taken = record { tcp = one_side; udp = new_side; log = nothing }

one_taken-PoolRun : PoolRun 7 one_taken
unfolding pool_round spawn thread_takes
one_taken-PoolRun =
    more (more (more begin (tcp_arrives (peer_of (caller 4)))) (round refl)) (tcp_taken refl)

-- The thread has answered, and the connection is closed.
abbrev replied_to_4 : Log
replied_to_4 = record {
  requests = codes "hello" ∷ [];
  replies =
      (4, record hello { text = overwrite (codes "This is a reply from 7" ++ (0 ∷ [])) hello.text })
      ∷ [];
  closed = 4 ∷ [];
}

abbrev one_over : Pool
one_over = record {
  tcp = record one_side { held = []; over = peer_of (caller 4) ∷ [] };
  udp = new_side;
  log = replied_to_4;
}

abbrev one_over-PoolRun : PoolRun 7 one_over
unfolding tcp_thread prepare shown print_into reply_text decimal digits c_string
one_over-PoolRun = more one_taken-PoolRun (tcp_answered (peer_of (caller 4)) [] [] refl refl)

threads_unbounded_example :
    (s : Pool) × PoolRun 7 s × (s.tcp.arrived ≡ peer_of (caller 4) ∷ []) × (s.tcp.idle ≡ 1000)
threads_unbounded_example = threads_unbounded 7 1000 (peer_of (caller 4))

-- A client with the server's name in place of its address.
abbrev network : Net
network = record {
  socket = some 3;
  inet_addr = λ host. 1;
  gethostbyname = λ host. some 2;
  connect = λ fd address. address == 2;
  create_ok = true;
}

resolve_name : resolve network (codes "server") ≡ done 2
unfolding resolve isdigit
resolve_name = refl

resolve_digits : resolve network (codes "10.0.0.1") ≡ done 1
unfolding resolve isdigit
resolve_digits = refl
