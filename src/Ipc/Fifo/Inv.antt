-- ===== src/Ipc/Fifo/Inv.antt =====
-- What holds in every state that fifos.c and any number of fifoc.c reach.
use linux_system_programming.Prelude.{
  ℕ, ◌+◌, ◌≡◌, refl, Bool, true, false, some, List, [], ◌∷◌, ◌++◌, length, arith, if◌then◌else◌,
  ◌==◌, length-append, Bool-cases, inl, inr, ◌≤◌,
}
use linux_system_programming.Sipc.{Message, request, reply}
use linux_system_programming.Ipc.Fifo.{
  FifoMessage, ServerAt, ClientAt, World, read_request, read_reply, server_at, client_at, hand,
  interrupted, serve, ask, interrupt, FifoRun, begin, more,
}

-- How many messages name the FIFO of a client.
abbrev pub count : ℕ → List FifoMessage → ℕ
count i [] = 0
count i (m ∷ ms) = (if m.return_fifo == i then 1 else 0) + count i ms

pub count-append : (i : ℕ) (xs ys : List FifoMessage) → count i (xs ++ ys) ≡ count i xs + count i ys
count-append i [] ys = omega arith
count-append i (m ∷ xs) ys = omega (arith, count-append i xs ys)

-- Each text is the request of the client that is to be answered.
abbrev pub AreRequests : List FifoMessage → Type 0
AreRequests [] = Unit
AreRequests (m ∷ ms) = (m.data_text ≡ request m.return_fifo) × AreRequests ms

abbrev pub AreReplies : ℕ → List FifoMessage → Type 0
AreReplies self [] = Unit
AreReplies self (m ∷ ms) = (m.data_text ≡ reply self) × AreReplies self ms

pub AreRequests-append :
    (xs ys : List FifoMessage) → AreRequests xs → AreRequests ys → AreRequests (xs ++ ys)
AreRequests-append [] ys p q = q
AreRequests-append (m ∷ xs) ys p q = (p.0, AreRequests-append xs ys p.1 q)

pub AreReplies-append :
    (self : ℕ) (xs ys : List FifoMessage)
    → AreReplies self xs
    → AreReplies self ys
    → AreReplies self (xs ++ ys)
AreReplies-append self [] ys p q = q
AreReplies-append self (m ∷ xs) ys p q = (p.0, AreReplies-append self xs ys p.1 q)

abbrev pub texts : List FifoMessage → List Message
texts [] = []
texts (m ∷ ms) = m.data_text ∷ texts ms

pub texts-append : (xs ys : List FifoMessage) → texts (xs ++ ys) ≡ texts xs ++ texts ys
texts-append [] ys = refl
texts-append (m ∷ xs) ys = rw (texts-append xs ys)

abbrev pub receiving : ClientAt → ℕ
receiving ClientAt.receive = 1
receiving _ = 0

abbrev pub has_fifo : ClientAt → Bool
has_fifo ClientAt.make_fifo = false
has_fifo ClientAt.returned = false
has_fifo _ = true

-- What a client has printed at a place.
abbrev pub shown_at : ℕ → ClientAt → List Message
shown_at self ClientAt.remove_fifo = reply self ∷ []
shown_at self ClientAt.returned = reply self ∷ []
shown_at self _ = []

abbrev pub HoldsReply : ℕ → ClientAt → Type 0
HoldsReply self (ClientAt.print_reply m) = m.data_text ≡ reply self
HoldsReply self _ = Unit

-- What the server holds and has not printed yet.
abbrev pub unprinted : ServerAt → List FifoMessage
unprinted (ServerAt.print_request m) = m ∷ []
unprinted _ = []

-- Where the server goes on, and whether it has been ended.
abbrev pub has_ended : ServerAt → Bool
has_ended (ServerAt.ended held) = true
has_ended _ = false

pub record ClientInv (self i : ℕ) (s : World) : Type 0 where
  pub one :
      count i s.requests + count i (hand s.server) + length (s.replies i) ≡ receiving (s.clients i)
  pub own : s.fifos i ≡ has_fifo (s.clients i)
  pub answers : AreReplies self (s.replies i)
  pub holds : HoldsReply self (s.clients i)
  pub shown : s.printed i ≡ shown_at self (s.clients i)

pub record WorldInv (self : ℕ) (s : World) : Type 0 where
  pub client : (i : ℕ) → ClientInv self i s
  pub asked : AreRequests s.requests
  pub held : AreRequests (hand s.server)

read_request-keeps :
    (self : ℕ) (rs : List FifoMessage) (s t : World)
    → read_request rs s ≡ some t
    → s.requests ≡ rs
    → s.server ≡ ServerAt.wait_request
    → WorldInv self s
    → WorldInv self t
read_request-keeps self [] s t e at place v = absurd (ground arith)
read_request-keeps self (m ∷ rest) s t e at place v = record {
  client = λ i.
      let w = v.client i in
      record {
        one = ground (arith, w.one);
        own = ground (arith, w.own);
        answers = ground (arith, w.answers);
        holds = ground (arith, w.holds);
        shown = ground (arith, w.shown);
      };
  asked = ground (arith, v.asked);
  held = ground (arith, v.asked);
}

receiving-one : (at : ClientAt) → 1 ≤ receiving at → at ≡ ClientAt.receive
receiving-one ClientAt.receive h = refl
receiving-one _ h = absurd (omega arith)

-- A client whose request the server is about to answer waits for the reply.
pub awaited :
    (self : ℕ) (s : World) (m : FifoMessage)
    → WorldInv self s
    → s.server ≡ ServerAt.open_reply m
    → s.clients m.return_fifo ≡ ClientAt.receive
awaited self s m v at =
    receiving-one (s.clients m.return_fifo) (ground (arith, (v.client m.return_fifo).one))

server-keeps :
    (self : ℕ) (at : ServerAt) (s t : World)
    → server_at self at s ≡ some t
    → s.server ≡ at
    → WorldInv self s
    → WorldInv self t
unfolding server_at
server-keeps self ServerAt.wait_request s t e at v =
    read_request-keeps self s.requests s t e refl at v
server-keeps self (ServerAt.open_reply m) s t e at v = elim (Bool-cases (s.fifos m.return_fifo)) [
  | inl there ↦ record {
    client = λ i.
        let w = v.client i in
        record {
          one = ground (arith, w.one);
          own = ground (arith, w.own);
          answers = ground (arith, w.answers);
          holds = ground (arith, w.holds);
          shown = ground (arith, w.shown);
        };
    asked = ground (arith, v.asked);
    held = ground (arith, v.held);
  }
  | inr gone ↦ absurd (ground (arith, (v.client m.return_fifo).own, awaited self s m v at))
]
server-keeps self (ServerAt.write_reply m) s t e at v = record {
  client = λ i.
      let w = v.client i in
      record {
        one = ground (
          arith,
          w.one,
          length-append (s.replies m.return_fifo) (record m { data_text = reply self } ∷ []),
        );
        own = ground (arith, w.own);
        answers = ground (
          arith,
          w.answers,
          AreReplies-append self (s.replies m.return_fifo)
              (record m { data_text = reply self } ∷ []),
        );
        holds = ground (arith, w.holds);
        shown = ground (arith, w.shown);
      };
  asked = ground (arith, v.asked);
  held = ground (arith, v.held);
}
server-keeps self _ s t e at v = record {
  client = λ i.
      let w = v.client i in
      record {
        one = ground (arith, w.one);
        own = ground (arith, w.own);
        answers = ground (arith, w.answers);
        holds = ground (arith, w.holds);
        shown = ground (arith, w.shown);
      };
  asked = ground (arith, v.asked);
  held = ground (arith, v.held);
}

read_reply-keeps :
    (self c : ℕ) (rs : List FifoMessage) (s t : World)
    → read_reply c rs s ≡ some t
    → s.replies c ≡ rs
    → s.clients c ≡ ClientAt.receive
    → WorldInv self s
    → WorldInv self t
read_reply-keeps self c [] s t e place at v = absurd (ground arith)
read_reply-keeps self c (m ∷ rest) s t e place at v = record {
  client = λ i.
      let w = v.client i in
      record {
        one = ground (arith, w.one);
        own = ground (arith, w.own);
        answers = ground (arith, w.answers, (v.client c).answers);
        holds = ground (arith, w.holds, (v.client c).answers);
        shown = ground (arith, w.shown);
      };
  asked = ground (arith, v.asked);
  held = ground (arith, v.held);
}

client-keeps :
    (self c : ℕ) (at : ClientAt) (s t : World)
    → client_at c at s ≡ some t
    → s.clients c ≡ at
    → WorldInv self s
    → WorldInv self t
unfolding client_at
client-keeps self c ClientAt.receive s t e at v =
    read_reply-keeps self c (s.replies c) s t e refl at v
client-keeps self c ClientAt.send s t e at v = record {
  client = λ i.
      let w = v.client i in
      record {
        one = ground (
          arith,
          w.one,
          count-append i s.requests (record { return_fifo = c; data_text = request c } ∷ []),
        );
        own = ground (arith, w.own);
        answers = ground (arith, w.answers);
        holds = ground (arith, w.holds);
        shown = ground (arith, w.shown);
      };
  asked = ground (
    arith,
    v.asked,
    AreRequests-append s.requests (record { return_fifo = c; data_text = request c } ∷ []),
  );
  held = ground (arith, v.held);
}
client-keeps self c ClientAt.make_fifo s t e at v = record {
  client = λ i.
      let w = v.client i in
      record {
        one = ground (arith, w.one);
        own = ground (arith, w.own, (v.client c).own);
        answers = ground (arith, w.answers);
        holds = ground (arith, w.holds);
        shown = ground (arith, w.shown);
      };
  asked = ground (arith, v.asked);
  held = ground (arith, v.held);
}
client-keeps self c _ s t e at v = record {
  client = λ i.
      let w = v.client i in
      record {
        one = ground (arith, w.one);
        own = ground (arith, w.own);
        answers = ground (arith, w.answers);
        holds = ground (arith, w.holds);
        shown = ground (arith, w.shown);
      };
  asked = ground (arith, v.asked);
  held = ground (arith, v.held);
}

interrupt-keeps : (self : ℕ) (s : World) → WorldInv self s → WorldInv self (interrupted s)
interrupt-keeps self s v = record {
  client = λ i.
      let w = v.client i in
      record { one = w.one; own = w.own; answers = w.answers; holds = w.holds; shown = w.shown };
  asked = v.asked;
  held = v.held;
}

pub FifoRun-WorldInv : (self : ℕ) {s : World} → FifoRun self s → WorldInv self s
FifoRun-WorldInv self begin = record {
  client = λ i. record { one = refl; own = refl; answers = tt; holds = tt; shown = refl };
  asked = tt;
  held = tt;
}
FifoRun-WorldInv self (more {s} {t} r (serve e)) =
    server-keeps self s.server s t e refl (FifoRun-WorldInv self r)
FifoRun-WorldInv self (more {s} {t} r (ask c e)) =
    client-keeps self c (s.clients c) s t e refl (FifoRun-WorldInv self r)
FifoRun-WorldInv self (more {s} r interrupt) = interrupt-keeps self s (FifoRun-WorldInv self r)
