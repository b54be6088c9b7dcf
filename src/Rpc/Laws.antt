-- ===== src/Rpc/Laws.antt =====
-- app.c and rpc.c together: one call and its answer.
use linux_system_programming.Prelude.{
  ℕ, suc, ◌+◌, ◌*◌, ◌/◌, ◌≤◌, ◌<◌, ◌≡◌, refl, sym, [], subst, some, List, ◌∷◌, ◌⊎◌, inl, inr, arith,
}
use linux_system_programming.Prelude.Int.{ℤ, pos}
use linux_system_programming.Prelude.Threads.{Step, Run, begin, more, by_first, by_second}
use linux_system_programming.Rpc.{
  sum_to, CalcAt, RpcAt, Service, calc_at, rpc_at, calc_step, rpc_step, service_start, app_again,
}
use linux_system_programming.Rpc.Sums.{sum_to-triangle}

-- The states of a call, one after the other.
pub data Stage : Type 0 where
  idle written requested received summed stored answered taken over : Stage

abbrev pub place : Stage → ℕ
place Stage.idle = 0
place Stage.written = 1
place Stage.requested = 2
place Stage.received = 3
place Stage.summed = 4
place Stage.stored = 5
place Stage.answered = 6
place Stage.taken = 7
place Stage.over = 8

abbrev later : Stage → Stage
later Stage.idle = Stage.written
later Stage.written = Stage.requested
later Stage.requested = Stage.received
later Stage.received = Stage.summed
later Stage.summed = Stage.stored
later Stage.stored = Stage.answered
later Stage.answered = Stage.taken
later Stage.taken = Stage.over
later Stage.over = Stage.over

module _ (old n : ℤ) (out : List ℕ) (v : ℕ) where
  abbrev pub stage : Stage → Service
  stage Stage.idle = service_start old out
  stage Stage.written = record (service_start old out) { number = n; calc = CalcAt.post_request }
  stage Stage.requested = record (service_start old out) {
    number = n;
    sema1 = 1;
    calc = CalcAt.wait_answer;
  }
  stage Stage.received = record (service_start old out) {
    number = n;
    calc = CalcAt.wait_answer;
    rpc = RpcAt.read_number;
  }
  stage Stage.summed = record (service_start old out) {
    number = n;
    calc = CalcAt.wait_answer;
    rpc = RpcAt.store v;
  }
  stage Stage.stored = record (service_start old (v ∷ out)) {
    number = pos v;
    calc = CalcAt.wait_answer;
    rpc = RpcAt.post_answer;
  }
  stage Stage.answered = record (service_start old (v ∷ out)) {
    number = pos v;
    sema2 = 1;
    calc = CalcAt.wait_answer;
  }
  stage Stage.taken = record (service_start old (v ∷ out)) {
    number = pos v;
    calc = CalcAt.read_answer;
  }
  stage Stage.over = record (service_start old (v ∷ out)) {
    number = pos v;
    calc = CalcAt.returned (pos v);
  }

  calc-stage :
      (st : Stage) (t : Service)
      → calc_step n (stage st) ≡ some t
      → (t ≡ stage (later st)) × (place (later st) ≡ suc (place st))
  unfolding calc_at
  calc-stage Stage.over t e = absurd (cc)
  calc-stage _ t e = ground arith

  rpc-stage :
      (st : Stage) (t : Service)
      → sum_to n ≡ some v
      → rpc_step (stage st) ≡ some t
      → (t ≡ stage (later st)) × (place (later st) ≡ suc (place st))
  unfolding rpc_at
  rpc-stage Stage.over t total e = absurd (cc)
  rpc-stage _ t total e = ground arith

  -- Neither process can leave the order of the call.
  call_order :
      {k : ℕ} {s : Service}
      → sum_to n ≡ some v
      → Run (calc_step n) rpc_step (service_start old out) k s
      → (st : Stage) × (s ≡ stage st) × (place st ≡ k)
  call_order total begin = (Stage.idle, refl, refl)
  call_order total (more {n = m} {s} {t} r (by_first e)) =
      let (st, same, k) = call_order total r in
      let next = calc-stage st t (subst (λ (x : Service). calc_step n x ≡ some t) same e) in
      (later st, next.0, omega (arith, next.1, k))
  call_order total (more {n = m} {s} {t} r (by_second e)) =
      let (st, same, k) = call_order total r in
      let next = rpc-stage st t total (subst (λ (x : Service). rpc_step x ≡ some t) same e) in
      (later st, next.0, omega (arith, next.1, k))

  stage-Step :
      (st : Stage)
      → sum_to n ≡ some v
      → ((t : Service) × Step (calc_step n) rpc_step (stage st) t)
        ⊎ ((stage st).calc ≡ CalcAt.returned (pos v))
  unfolding calc_at rpc_at
  stage-Step Stage.idle total = inl (_, by_first refl)
  stage-Step Stage.written total = inl (_, by_first refl)
  stage-Step Stage.requested total = inl (_, by_second refl)
  stage-Step Stage.received total = inl (stage Stage.summed, by_second (ground arith))
  stage-Step Stage.summed total = inl (_, by_second refl)
  stage-Step Stage.stored total = inl (_, by_second refl)
  stage-Step Stage.answered total = inl (_, by_first refl)
  stage-Step Stage.taken total = inl (_, by_first refl)
  stage-Step Stage.over total = inr refl

  place-le : (st : Stage) → place st ≤ 8
  place-le st = ground arith

  stage-returned : (st : Stage) (r : ℤ) → (stage st).calc ≡ CalcAt.returned r → r ≡ pos v
  stage-returned st r e = ground arith

-- A further call returns its own number, and the server prints nothing meanwhile.
abbrev NextCall : ℤ → Service → Type 0
NextCall n s =
    (t : Service) × Run (calc_step n) rpc_step (app_again s) 4 t
    × (t.calc ≡ CalcAt.returned n)
    × (t.printed ≡ s.printed)

-- The first call `Calc(m)` after rpc.c has set the semaphores, for an `m` from 0: whatever number was left in
-- the memory and however the two processes
-- interleave, the call ends within 8 steps, it can always go on until it returns, and what it returns is
-- m (m + 1) / 2, if that is below 2 ^ 31.
pub calc_returns :
    (old : ℤ) (m : ℕ) (k : ℕ) (s : Service)
    → m * (m + 1) / 2 < 2147483648
    → Run (calc_step (pos m)) rpc_step (service_start old []) k s
    → (k ≤ 8)
      × (((t : Service) × Step (calc_step (pos m)) rpc_step s t)
          ⊎ (s.calc ≡ CalcAt.returned (pos (m * (m + 1) / 2))))
calc_returns old m k s small r =
    let total = sum_to-triangle m small in
    let (st, same, made) = call_order old (pos m) [] (m * (m + 1) / 2) total r in
    (
      omega (arith, made, place-le old (pos m) [] (m * (m + 1) / 2) st),
      subst
          (λ (x : Service).
            ((t : Service) × Step (calc_step (pos m)) rpc_step x t)
            ⊎ (x.calc ≡ CalcAt.returned (pos (m * (m + 1) / 2))))
          (sym same) (stage-Step old (pos m) [] (m * (m + 1) / 2) st total),
    )

-- Once the first call `Calc(m)` has returned, the result is m (m + 1) / 2.
pub calc_result :
    (old : ℤ) (m : ℕ) (k : ℕ) (s : Service) (r : ℤ)
    → m * (m + 1) / 2 < 2147483648
    → Run (calc_step (pos m)) rpc_step (service_start old []) k s
    → s.calc ≡ CalcAt.returned r
    → r ≡ pos (m * (m + 1) / 2)
calc_result old m k s r small run e =
    let (st, same, made) =
      call_order old (pos m) [] (m * (m + 1) / 2) (sum_to-triangle m small) run in
    stage-returned old (pos m) [] (m * (m + 1) / 2) st r
      (subst (λ (x : Service). x.calc ≡ CalcAt.returned r) same e)
