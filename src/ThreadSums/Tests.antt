-- ===== src/ThreadSums/Tests.antt =====
-- tadd.c, with the threads one after the other.
use linux_system_programming.Prelude.{◌≡◌, ◌⊎◌, ◌≤◌, refl, true, false, ◌++◌, replicate}
use linux_system_programming.Prelude.Threads.{Step, begin, Trace, schedule}
use linux_system_programming.ThreadSums.{Sums, adder_at, sum50, sum100, sums_start, result}
use linux_system_programming.ThreadSums.Laws.{sums_result}

abbrev summed : Trace sum50 sum100 sums_start
summed =
    schedule sum50 sum100 sums_start (replicate 151 true ++ replicate 151 false)
      (0, sums_start, begin)

summed-result : result summed.1 ≡ 5050
unfolding schedule adder_at
summed-result = refl

sums_result_example :
    (summed.0 ≤ 302) × (((t : Sums) × Step sum50 sum100 summed.1 t) ⊎ (result summed.1 ≡ 5050))
sums_result_example = sums_result summed.2
