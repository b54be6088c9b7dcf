-- ===== src/Rpc.antt =====
-- "8_Programs": app.c asks rpc.c for a sum, through a number in shared memory and two semaphores. A step
-- is one semaphore call or one use of the shared number.
pub mod Sums
pub mod Laws
pub mod Callers
mod Tests
use linux_system_programming.Prelude.{
  ℕ, zero, suc, ◌+◌, ◌-◌, Option, none, some, List, [], ◌∷◌, ltb, ◌==◌, if◌then◌else◌,
}
use linux_system_programming.Prelude.Int.{ℤ, pos, negsuc}

-- `for(int i = 0; i <= num; i++) sum += i;` with the rounds that are left, `i` and `sum`. `none` is the
-- overflow of an `int`, which C leaves undefined.
unfoldable pub sum_loop : ℕ → ℕ → ℕ → Option ℕ
sum_loop zero i sum = some sum
sum_loop (suc rounds) i sum =
    let rest = sum_loop rounds (i + 1) (sum + i) in if ltb (sum + i) 2147483648 then rest else none

-- The loop makes no round for a number below 0.
unfoldable pub sum_to : ℤ → Option ℕ
sum_to (pos num) = sum_loop (num + 1) 0 0
sum_to (negsuc n) = some 0

-- Where `Calc` of app.c stands.
pub data CalcAt : Type 0 where
  write_number post_request wait_answer read_answer : CalcAt
  returned : ℤ → CalcAt

-- Where the loop of rpc.c stands; `store v` has read the number and summed.
pub data RpcAt : Type 0 where
  wait_request read_number : RpcAt
  store : ℕ → RpcAt
  post_answer overflowed : RpcAt

-- The shared number, the semaphores of `EMPTY_SEM_KEY` and `FULL_SEM_KEY`, the processes, and what rpc.c
-- has printed.
pub record Service : Type 0 where
  pub number : ℤ
  pub sema1 : ℕ
  pub sema2 : ℕ
  pub calc : CalcAt
  pub rpc : RpcAt
  pub printed : List ℕ

unfoldable pub calc_at : ℤ → CalcAt → Service → Option Service
calc_at n write_number s = some (record s { number = n; calc = post_request })
calc_at n post_request s = some (record s { sema1 = s.sema1 + 1; calc = wait_answer })
calc_at n wait_answer s =
    if s.sema2 == 0 then none else some (record s { sema2 = s.sema2 - 1; calc = read_answer })
calc_at n read_answer s = some (record s { calc = returned s.number })
calc_at n (returned r) s = none

unfoldable pub rpc_at : RpcAt → Service → Option Service
rpc_at wait_request s =
    if s.sema1 == 0 then none else some (record s { sema1 = s.sema1 - 1; rpc = read_number })
rpc_at read_number s = elim (sum_to s.number) [
  | none ↦ some (record s { rpc = overflowed })
  | some v ↦ some (record s { rpc = store v })
]
rpc_at (store v) s = some (record s { number = pos v; printed = v ∷ s.printed; rpc = post_answer })
rpc_at post_answer s = some (record s { sema2 = s.sema2 + 1; rpc = wait_request })
rpc_at overflowed s = none

-- `Calc(n)` of app.c.
abbrev pub calc_step : ℤ → Service → Option Service
calc_step n s = calc_at n s.calc s

-- A round of the loop of rpc.c.
abbrev pub rpc_step : Service → Option Service
rpc_step s = rpc_at s.rpc s

-- rpc.c has set both semaphores to 0, and app.c is started for the first time; the number is what is left in the memory.
abbrev pub service_start : ℤ → List ℕ → Service
service_start old printed = record {
  number = old;
  sema1 = 0;
  sema2 = 0;
  calc = write_number;
  rpc = wait_request;
  printed = printed;
}

-- `main` of app.c returns, and app.c is started again. With `SEM_UNDO` the exit takes back what the process
-- has done to the semaphores: it takes one from the first, which stops at 0, and gives one to the second.
abbrev pub app_again : Service → Service
app_again s = record s { sema1 = s.sema1 - 1; sema2 = s.sema2 + 1; calc = write_number }
