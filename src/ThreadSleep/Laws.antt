-- ===== src/ThreadSleep/Laws.antt =====
-- `ThreadUsleep`: until when it waits.
use linux_system_programming.Prelude.{
  ℕ, ◌+◌, ◌*◌, ◌<◌, ◌≡◌, ◌↔◌, ap, ap₂, sym, ◌∙◌, subst, true, arith,
}
use linux_system_programming.ThreadSleep.{
  TimeVal, TimeSpec, PthreadCalls, slept, added, carried, thread_usleep,
}

-- A point in time in nanoseconds, and the present time.
abbrev pub nanos : TimeSpec → ℕ
nanos ts = ts.ts_sec * 1000000000 + ts.ts_nsec

abbrev pub now_nanos : TimeVal → ℕ
now_nanos tv = (tv.tv_sec * 1000000 + tv.tv_usec) * 1000

-- The point in time that a call waits for is `usecs` microseconds from now, and its nanoseconds are less
-- than a second, as `pthread_cond_timedwait` asks for.
pub carried-added :
    (tv : TimeVal) (usecs : ℕ)
    → tv.tv_usec < 1000000
    → (nanos (carried (added tv usecs)) ≡ now_nanos tv + usecs * 1000)
      × ((carried (added tv usecs)).ts_nsec < 1000000000)
unfolding carried
carried-added tv usecs valid = (ground arith, ground arith)

-- A point in time is known by its nanoseconds.
nanos-injective :
    (a b : TimeSpec) → nanos a ≡ nanos b → a.ts_nsec < 1000000000 → b.ts_nsec < 1000000000 → a ≡ b
nanos-injective a b e u v =
    ap₂ (λ (s n : ℕ). record { ts_sec = s; ts_nsec = n }) (omega (arith, e, u, v))
      (omega (arith, e, u, v))

-- No call fails.
pub record AllSucceed (calls : PthreadCalls) : Type 0 where
  pub cond_init : calls.cond_init ≡ true
  pub mutex_init : calls.mutex_init ≡ true
  pub mutex_lock : calls.mutex_lock ≡ true
  pub timedwait : calls.timedwait ≡ true
  pub cond_destroy : calls.cond_destroy ≡ true
  pub mutex_destroy : calls.mutex_destroy ≡ true

succeeded :
    (calls : PthreadCalls) (tv : TimeVal) (usecs : ℕ) (ts : TimeSpec)
    → thread_usleep calls tv usecs ≡ slept ts
    → AllSucceed calls × (carried (added tv usecs) ≡ ts)
unfolding thread_usleep
succeeded calls tv usecs ts e = (
  record {
    cond_init = ground arith;
    mutex_init = ground arith;
    mutex_lock = ground arith;
    timedwait = ground arith;
    cond_destroy = ground arith;
    mutex_destroy = ground arith;
  },
  ground arith,
)

waited :
    (calls : PthreadCalls) (tv : TimeVal) (usecs : ℕ)
    → AllSucceed calls
    → thread_usleep calls tv usecs ≡ slept (carried (added tv usecs))
unfolding thread_usleep
waited calls tv usecs h =
    rw (h.cond_init, h.mutex_init, h.mutex_lock, h.timedwait, h.cond_destroy, h.mutex_destroy)

-- `ThreadUsleep` returns exactly if no call fails, and then it has waited for the point in time that is
-- `usecs` microseconds from now, whose nanoseconds are less than a second.
pub thread_usleep-slept :
    (calls : PthreadCalls) (tv : TimeVal) (usecs : ℕ) (ts : TimeSpec)
    → tv.tv_usec < 1000000
    → (thread_usleep calls tv usecs ≡ slept ts)
      ↔ (AllSucceed calls × (nanos ts ≡ now_nanos tv + usecs * 1000) × (ts.ts_nsec < 1000000000))
thread_usleep-slept calls tv usecs ts valid =
    let due = carried-added tv usecs valid in
    (
      λ e.
          let (good, same) = succeeded calls tv usecs ts e in
          let at =
            subst (λ t. (nanos t ≡ now_nanos tv + usecs * 1000) × (t.ts_nsec < 1000000000)) same
              due in
          (good, at.0, at.1),
      λ (good, at, small).
          waited calls tv usecs good
          ∙ ap slept (nanos-injective (carried (added tv usecs)) ts (due.0 ∙ sym at) due.1 small),
    )
