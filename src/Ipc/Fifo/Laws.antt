-- ===== src/Ipc/Fifo/Laws.antt =====
-- fifos.c and fifoc.c: what each client prints, and that no client waits for ever.
use linux_system_programming.Prelude.{
  ℕ, ◌≡◌, ◌⊎◌, inl, inr, none, some, [], ◌∷◌, List, ◌+◌, length, refl, arith, Option-cases, true,
}
use linux_system_programming.Ipc.Fifo.{
  FifoMessage, ServerAt, ClientAt, World, FifoRun, server_at, client_at, read_request, read_reply,
}
use linux_system_programming.Ipc.Fifo.Inv.{WorldInv, count, shown_at, awaited, FifoRun-WorldInv}

-- Any number of clients at once: each one prints the server's reply, once, and nothing else.
pub clients_answered :
    (self : ℕ) {s : World}
    → FifoRun self s
    → (client : ℕ) → s.printed client ≡ shown_at self (s.clients client)
clients_answered self r client = ((FifoRun-WorldInv self r).client client).shown

-- A client is at the end of its program, or the server has been ended by a signal.
pub data IsOver (s : World) (client : ℕ) : Type 0 where
  has_returned : s.clients client ≡ ClientAt.returned → IsOver s client
  has_failed : s.clients client ≡ ClientAt.failed → IsOver s client
  server_ended : (held : List FifoMessage) → s.server ≡ ServerAt.ended held → IsOver s client

stuck_read :
    (i : ℕ) (rs qs : List FifoMessage) (s : World)
    → s.replies i ≡ rs
    → s.requests ≡ qs
    → read_reply i rs s ≡ none
    → read_request qs s ≡ none
    → count i s.requests + length (s.replies i) ≡ 0
stuck_read i [] [] s pr pq e e' = ground arith
stuck_read i (m ∷ rs) qs s pr pq e e' = absurd (ground arith)
stuck_read i [] (q ∷ qs) s pr pq e e' = absurd (ground arith)

stuck_IsOver :
    (self i : ℕ) (p : ServerAt) (c : ClientAt) (s : World)
    → s.server ≡ p
    → s.clients i ≡ c
    → WorldInv self s
    → server_at self p s ≡ none
    → client_at i c s ≡ none
    → IsOver s i
unfolding server_at client_at
stuck_IsOver self i (ServerAt.ended held) c s sp cp v e e' = server_ended held sp
stuck_IsOver self i ServerAt.wait_request ClientAt.returned s sp cp v e e' = has_returned cp
stuck_IsOver self i ServerAt.wait_request ClientAt.failed s sp cp v e e' = has_failed cp
stuck_IsOver self i ServerAt.wait_request ClientAt.receive s sp cp v e e' =
    absurd
      (ground (arith, stuck_read i (s.replies i) s.requests s refl refl e' e, (v.client i).one))
stuck_IsOver self i _ _ s sp cp v e e' = absurd (ground arith)

-- Whatever has happened before, for each client: the server or this client can make its next step, with no
-- signal; or the client has ended, or the server has been.
pub fifo_goes_on :
    (self : ℕ) {s : World}
    → FifoRun self s
    → (client : ℕ)
    → ((t : World) × ((server_at self s.server s ≡ some t)
          ⊎ (client_at client (s.clients client) s ≡ some t)))
      ⊎ IsOver s client
fifo_goes_on self {s} r client = elim (Option-cases (server_at self s.server s)) [
  | inr (t, e) ↦ inl (t, inl e)
  | inl stuck ↦ elim (Option-cases (client_at client (s.clients client) s)) [
    | inr (t, e) ↦ inl (t, inr e)
    | inl stuck' ↦ inr (
        stuck_IsOver self client s.server (s.clients client) s refl refl (FifoRun-WorldInv self r)
          stuck stuck')
  ]
]

-- The FIFO that a request names exists when the server opens it, so that the server does not exit.
pub reply_fifo_there :
    (self : ℕ) {s : World} (m : FifoMessage)
    → FifoRun self s
    → s.server ≡ ServerAt.open_reply m
    → s.fifos m.return_fifo ≡ true
reply_fifo_there self {s} m r at =
    let v = FifoRun-WorldInv self r in
    ground (arith, (v.client m.return_fifo).own, awaited self s m v at)
