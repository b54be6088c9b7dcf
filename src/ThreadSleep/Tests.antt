-- ===== src/ThreadSleep/Tests.antt =====
-- `ThreadUsleep` for half a second, from 0.9 seconds past a second on.
use linux_system_programming.Prelude.{◌+◌, ◌*◌, ◌<◌, ◌≡◌, ◌↔◌, refl, true, arith}
use linux_system_programming.ThreadSleep.{
  TimeVal, TimeSpec, PthreadCalls, slept, carried, thread_usleep,
}
use linux_system_programming.ThreadSleep.Laws.{nanos, now_nanos, AllSucceed, thread_usleep-slept}

abbrev all_succeed : PthreadCalls
all_succeed = record {
  cond_init = true;
  mutex_init = true;
  mutex_lock = true;
  timedwait = true;
  cond_destroy = true;
  mutex_destroy = true;
}

abbrev present : TimeVal
present = record { tv_sec = 7; tv_usec = 900000 }

abbrev wanted : TimeSpec
wanted = record { ts_sec = 8; ts_nsec = 400000000 }

half_second : thread_usleep all_succeed present 500000 ≡ slept wanted
unfolding thread_usleep carried
half_second = refl

thread_usleep-slept_example : (thread_usleep all_succeed present 500000 ≡ slept wanted) ↔ (
    AllSucceed all_succeed
    × (nanos wanted ≡ now_nanos present + 500000 * 1000)
    × (wanted.ts_nsec < 1000000000))
thread_usleep-slept_example = thread_usleep-slept all_succeed present 500000 wanted (omega arith)
