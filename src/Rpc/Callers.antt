-- ===== src/Rpc/Callers.antt =====
-- app.c and rpc.c with any number of clients at once, which share one number in memory.
use linux_system_programming.Prelude.{ℕ, ◌+◌, ◌-◌, ◌≡◌, refl, some, [], ◌∷◌, put_at, ◌==◌, false}
use linux_system_programming.Prelude.Int.{ℤ, pos}
use linux_system_programming.Rpc.{sum_to, CalcAt, RpcAt, Service, calc_at, rpc_at, service_start}

-- The shared number, the semaphores and the server; and where the call of each client stands.
pub record Callers : Type 0 where
  pub service : Service
  pub calls : ℕ → CalcAt

-- A client's `Calc` sees the service with its own place.
abbrev pub seen_by : ℕ → Callers → Service
seen_by client s = record (s.service) { calc = s.calls client }

-- The server, or a client that has been asked for the number `asked client`, makes the next step.
pub data CallersStep (asked : ℕ → ℤ) (s : Callers) : Callers → Type 0 where
  answer :
      {t : Service}
      → rpc_at s.service.rpc s.service ≡ some t
      → CallersStep asked s (record s { service = t })
  call :
      (client : ℕ) {t : Service}
      → calc_at (asked client) (s.calls client) (seen_by client s) ≡ some t
      → CallersStep asked s (record { service = t; calls = put_at s.calls client t.calc })

abbrev pub callers_start : ℤ → Callers
callers_start old = record { service = service_start old []; calls = λ client. CalcAt.write_number }

pub data CallersRun (asked : ℕ → ℤ) (old : ℤ) : Callers → Type 0 where
  begin : CallersRun asked old (callers_start old)
  more : {s t : Callers} → CallersRun asked old s → CallersStep asked s t → CallersRun asked old t

read_sum :
    (s : Service) (v : ℕ)
    → sum_to s.number ≡ some v
    → rpc_at RpcAt.read_number s ≡ some (record s { rpc = RpcAt.store v })
unfolding rpc_at
read_sum s v sum = rw (rpc_at, sum)

-- The server goes through a round, for a number whose sum is `v`.
abbrev answered : ℕ → Callers → Callers
answered v s = record s {
  service = record (s.service) {
    number = pos v;
    sema1 = s.service.sema1 - 1;
    sema2 = s.service.sema2 + 1;
    printed = v ∷ s.service.printed;
    rpc = RpcAt.wait_request;
  };
}

module _ (asked : ℕ → ℤ) (old : ℤ) where
  -- Both clients write their numbers, and both post.
  abbrev requested : Callers
  requested = record {
    service = record {
      number = asked 1;
      sema1 = 2;
      sema2 = 0;
      calc = CalcAt.wait_answer;
      rpc = RpcAt.wait_request;
      printed = [];
    };
    calls =
        put_at
          (put_at
            (put_at (put_at (λ client. CalcAt.write_number) 0 CalcAt.post_request) 1
              CalcAt.post_request)
            0 CalcAt.wait_answer)
          1 CalcAt.wait_answer;
  }

  requested-CallersRun : CallersRun asked old requested
  unfolding calc_at
  requested-CallersRun =
      more (more (more (more begin (call 0 refl)) (call 1 refl)) (call 0 refl)) (call 1 refl)

  serve_round :
      (v : ℕ) (s : Callers)
      → CallersRun asked old s
      → s.service.rpc ≡ RpcAt.wait_request
      → (s.service.sema1 == 0) ≡ false
      → sum_to s.service.number ≡ some v
      → CallersRun asked old (answered v s)
  unfolding rpc_at
  serve_round v s r at some_request sum =
      let received : Service = record (s.service) {
        sema1 = s.service.sema1 - 1;
        rpc = RpcAt.read_number;
      } in
      let took : rpc_at s.service.rpc s.service ≡ some received = rw (at, some_request) in
      more (more (more (more r (answer took)) (answer (read_sum received v sum))) (answer refl))
        (answer refl)

  -- Of two clients at once, whose numbers may be any with sums that fit, the first may be told the sum for the
  -- other one's number, and the other one the sum for that sum.
  pub wrong_sums :
      (v w : ℕ)
      → sum_to (asked 1) ≡ some v
      → sum_to (pos v) ≡ some w
      → (s : Callers) × CallersRun asked old s
        × (s.calls 0 ≡ CalcAt.returned (pos v))
        × (s.calls 1 ≡ CalcAt.returned (pos w))
  unfolding calc_at
  wrong_sums v w first second =
      let one = serve_round v requested requested-CallersRun refl refl first in
      let two = more (more one (call 0 refl)) (call 0 refl) in
      let three = serve_round w _ two refl refl second in
      (_, more (more three (call 1 refl)) (call 1 refl), refl, refl)
