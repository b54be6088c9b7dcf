-- ===== src/Ipc/Fifo/Order.antt =====
-- fifos.c prints the requests in the order in which they were written.
use linux_system_programming.Prelude.{
  ℕ, ◌≡◌, refl, some, List, [], ◌∷◌, ◌++◌, append_assoc, arith, Bool-cases, inl, inr,
}
use linux_system_programming.Sipc.{Message, request}
use linux_system_programming.Ipc.Fifo.{
  FifoMessage, ServerAt, ClientAt, World, read_request, read_reply, server_at, client_at, serve,
  ask, interrupt, FifoRun, begin, more,
}
use linux_system_programming.Ipc.Fifo.Inv.{texts, texts-append, unprinted}

-- What is still to be printed: the requests that the server holds or can read; an ended server prints
-- nothing more.
abbrev IsLeft : ServerAt → List FifoMessage → List Message → Type 0
IsLeft (ServerAt.ended held) requests rest = Unit
IsLeft at requests rest = rest ≡ texts (unprinted at ++ requests)

record Ordered (s : World) : Type 0 where
  rest : List Message
  order : s.sent ≡ s.server_printed ++ rest
  left : IsLeft s.server s.requests rest

read_request-Ordered :
    (rs : List FifoMessage) (s t : World)
    → read_request rs s ≡ some t
    → s.requests ≡ rs
    → s.server ≡ ServerAt.wait_request
    → Ordered s
    → Ordered t
read_request-Ordered [] s t e place at v = absurd (ground arith)
read_request-Ordered (m ∷ rest) s t e place at v = record {
  rest = v.rest;
  order = ground (arith, v.order);
  left = ground (arith, v.left);
}

server-Ordered :
    (self : ℕ) (at : ServerAt) (s t : World)
    → server_at self at s ≡ some t
    → s.server ≡ at
    → Ordered s
    → Ordered t
unfolding server_at
server-Ordered self ServerAt.wait_request s t e at v =
    read_request-Ordered s.requests s t e refl at v
server-Ordered self (ServerAt.print_request m) s t e at v = record {
  rest = texts s.requests;
  order =
      ground (
        arith,
        v.order,
        v.left,
        append_assoc s.server_printed (m.data_text ∷ []) (texts s.requests),
      );
  left = ground arith;
}
server-Ordered self (ServerAt.open_reply m) s t e at v = elim (Bool-cases (s.fifos m.return_fifo)) [
  | inl there ↦ record {
    rest = v.rest;
    order = ground (arith, v.order);
    left = ground (arith, v.left);
  }
  | inr gone ↦ record {
    rest = v.rest;
    order = ground (arith, v.order);
    left = ground (arith, v.left);
  }
]
server-Ordered self _ s t e at v = record {
  rest = v.rest;
  order = ground (arith, v.order);
  left = ground (arith, v.left);
}

read_reply-Ordered :
    (c : ℕ) (rs : List FifoMessage) (s t : World)
    → read_reply c rs s ≡ some t
    → Ordered s
    → Ordered t
read_reply-Ordered c [] s t e v = absurd (ground arith)
read_reply-Ordered c (m ∷ rs) s t e v = record {
  rest = v.rest;
  order = ground (arith, v.order);
  left = ground (arith, v.left);
}

-- A request behind those that are left.
IsLeft-send :
    (c : ℕ) (at : ServerAt) (requests : List FifoMessage) (rest : List Message)
    → IsLeft at requests rest
    → IsLeft at
        (requests ++ (record { return_fifo = c; data_text = request c } ∷ []))
        (rest ++ (request c ∷ []))
IsLeft-send c (ServerAt.ended held) requests rest h = tt
IsLeft-send c (ServerAt.print_request m) requests rest h =
    ground (arith, texts-append requests (record { return_fifo = c; data_text = request c } ∷ []))
IsLeft-send c _ requests rest h =
    ground (arith, texts-append requests (record { return_fifo = c; data_text = request c } ∷ []))

client-Ordered :
    (c : ℕ) (at : ClientAt) (s t : World)
    → client_at c at s ≡ some t
    → s.clients c ≡ at
    → Ordered s
    → Ordered t
unfolding client_at
client-Ordered c ClientAt.send s t e at v = record {
  rest = v.rest ++ (request c ∷ []);
  order = ground (arith, v.order, append_assoc s.server_printed v.rest (request c ∷ []));
  left = ground (arith, IsLeft-send c s.server s.requests v.rest v.left);
}
client-Ordered c ClientAt.receive s t e at v = read_reply-Ordered c (s.replies c) s t e v
client-Ordered c ClientAt.make_fifo s t e at v = elim (Bool-cases (s.fifos c)) [
  | inl there ↦ record {
    rest = v.rest;
    order = ground (arith, v.order);
    left = ground (arith, v.left);
  }
  | inr gone ↦ record {
    rest = v.rest;
    order = ground (arith, v.order);
    left = ground (arith, v.left);
  }
]
client-Ordered c _ s t e at v = record {
  rest = v.rest;
  order = ground (arith, v.order);
  left = ground (arith, v.left);
}

FifoRun-Ordered : (self : ℕ) {s : World} → FifoRun self s → Ordered s
FifoRun-Ordered self begin = record { rest = []; order = refl; left = refl }
FifoRun-Ordered self (more {s} {t} r (serve e)) =
    server-Ordered self s.server s t e refl (FifoRun-Ordered self r)
FifoRun-Ordered self (more {s} {t} r (ask c e)) =
    client-Ordered c (s.clients c) s t e refl (FifoRun-Ordered self r)
FifoRun-Ordered self (more {s} r interrupt) =
    let v = FifoRun-Ordered self r in record { rest = v.rest; order = v.order; left = tt }

-- Whatever the processes do, the server has printed the first of the requests that were written, in
-- order, none left out and none twice.
pub served_in_order :
    (self : ℕ) {s : World}
    → FifoRun self s
    → (rest : List Message) × (s.sent ≡ s.server_printed ++ rest)
served_in_order self r = let v = FifoRun-Ordered self r in (v.rest, v.order)
