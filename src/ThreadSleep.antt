-- ===== src/ThreadSleep.antt =====
-- `ThreadUsleep` of "6_Synchronization/prodcons_s.c", which prodcons_m.c and prodcons_t.c repeat: a thread
-- sleeps by waiting on a condition variable that nothing signals, up to a point in time.
pub mod Laws
mod Tests
use linux_system_programming.Prelude.{
  ℕ, ◌+◌, ◌-◌, ◌*◌, ◌/◌, ◌%◌, Bool, true, false, ltb, if◌then◌else◌,
}

-- `struct timeval`, and `struct timespec` with nanoseconds.
pub record TimeVal : Type 0 where
  pub tv_sec : ℕ
  pub tv_usec : ℕ

pub record TimeSpec : Type 0 where
  pub ts_sec : ℕ
  pub ts_nsec : ℕ

-- Whether each of the calls returns 0 or more.
pub record PthreadCalls : Type 0 where
  pub cond_init : Bool
  pub mutex_init : Bool
  pub mutex_lock : Bool
  pub timedwait : Bool
  pub cond_destroy : Bool
  pub mutex_destroy : Bool

-- The function returns after a wait up to a point in time, or ends the thread: before the wait, or behind
-- a call of `pthread_cond_timedwait` with that point.
pub data Slept : Type 0 where
  slept : TimeSpec → Slept
  ended_before : Slept
  ended_after : TimeSpec → Slept

-- The microseconds added to the present time, as nanoseconds that may be a second or more.
abbrev pub added : TimeVal → ℕ → TimeSpec
added tv usecs = record {
  ts_sec = tv.tv_sec + usecs / 1000000;
  ts_nsec = (tv.tv_usec + usecs % 1000000) * 1000;
}

-- `if (ts.tv_nsec >= 1000000000)`
unfoldable pub carried : TimeSpec → TimeSpec
carried ts =
    if ltb ts.ts_nsec 1000000000
    then ts
    else record { ts_sec = ts.ts_sec + 1; ts_nsec = ts.ts_nsec - 1000000000 }

unfoldable pub thread_usleep : PthreadCalls → TimeVal → ℕ → Slept
thread_usleep calls tv usecs =
    if calls.cond_init
    then (if calls.mutex_init
        then (let ts = carried (added tv usecs) in
            if calls.mutex_lock
            then (if calls.timedwait
                then (if calls.cond_destroy
                    then (if calls.mutex_destroy then slept ts else ended_after ts)
                    else ended_after ts)
                else ended_after ts)
            else ended_before)
        else ended_before)
    else ended_before
