-- ===== src/Rpc/Tests.antt =====
-- app.c and rpc.c: the sum up to 4.
use linux_system_programming.Prelude.{
  ℕ, ◌==◌, if◌then◌else◌, ◌+◌, ◌*◌, ◌/◌, ◌≤◌, ◌≡◌, refl, true, false, some, [], ◌++◌, ◌⊎◌,
  replicate, arith,
}
use linux_system_programming.Prelude.Int.{ℤ, pos, negsuc}
use linux_system_programming.Prelude.Threads.{Step, begin, Trace, schedule}
use linux_system_programming.Rpc.{
  CalcAt, Service, sum_loop, sum_to, calc_step, rpc_step, service_start,
}
use linux_system_programming.Rpc.Callers.{Callers, CallersRun, wrong_sums}
use linux_system_programming.Rpc.Laws.{calc_returns}

-- No round is made for a number below 0.
sum_to-negative : sum_to (negsuc 3) ≡ some 0
unfolding sum_to
sum_to-negative = refl

-- 3 was left in the memory.
abbrev called : Trace (calc_step (pos 4)) rpc_step (service_start (pos 3) [])
called =
    schedule (calc_step (pos 4)) rpc_step (service_start (pos 3) [])
      (replicate 2 true ++ replicate 4 false ++ replicate 2 true)
      (0, service_start (pos 3) [], begin)

calc_returns_example :
    (called.0 ≤ 8)
    × (((t : Service) × Step (calc_step (pos 4)) rpc_step called.1 t)
        ⊎ (called.1.calc ≡ CalcAt.returned (pos (4 * (4 + 1) / 2))))
calc_returns_example = calc_returns (pos 3) 4 called.0 called.1 (omega arith) called.2

-- One client asks for 3, the other one for 4; they are told 10 and 55.
abbrev three_or_four : ℕ → ℤ
three_or_four client = if client == 0 then pos 3 else pos 4

sum_to-4 : sum_to (pos 4) ≡ some 10
unfolding sum_to sum_loop
sum_to-4 = refl

sum_to-10 : sum_to (pos 10) ≡ some 55
unfolding sum_to sum_loop
sum_to-10 = refl

wrong_sums_example :
    (s : Callers) × CallersRun three_or_four (pos 0) s
    × (s.calls 0 ≡ CalcAt.returned (pos 10))
    × (s.calls 1 ≡ CalcAt.returned (pos 55))
wrong_sums_example = wrong_sums three_or_four (pos 0) 10 55 sum_to-4 sum_to-10
