-- ===== src/Signals/Alarm.antt =====
-- "4_Signals/alarm.c": a handler of SIGALRM that sets the alarm again. Between two seconds the program does
-- what it can; a second takes one off the alarm, and the signal comes when none is left.
use linux_system_programming.Prelude.{ℕ, zero, suc, ◌+◌, ◌*◌, ◌≤◌, ◌<◌, ◌≡◌, refl, arith}

-- `alsecs`, the seconds until the alarm, 0 if there is none, the dots printed, and, for the statements, the
-- seconds since the alarm was first set.
pub record Clock : Type 0 where
  pub alsecs : ℕ
  pub remaining : ℕ
  pub dots : ℕ
  pub elapsed : ℕ

-- `setalarm`, where `signal` succeeds.
unfoldable pub setalarm : ℕ → Clock → Clock
setalarm nsecs s = record s { alsecs = nsecs; remaining = nsecs }

-- `alhandler`
unfoldable pub alhandler : Clock → Clock
alhandler s = record s { remaining = s.alsecs; dots = s.dots + 1 }

-- A second, with what the handler does if the alarm goes off.
abbrev pub after_second : ℕ → Clock → Clock
after_second zero s = s
after_second (suc zero) s = alhandler s
after_second (suc (suc n)) s = record s { remaining = suc n }

abbrev pub second : Clock → Clock
second s = after_second s.remaining (record s { elapsed = s.elapsed + 1 })

-- The loop of `main`, for a number of seconds; it does nothing but wait.
unfoldable pub alarm_loop : ℕ → Clock → Clock
alarm_loop zero s = s
alarm_loop (suc n) s = alarm_loop n (second s)

-- `main` with the alarm set to `nsecs` in place of 1.
abbrev pub alarm_main : ℕ → ℕ → Clock
alarm_main nsecs seconds =
    alarm_loop seconds
      (setalarm nsecs (record { alsecs = 0; remaining = 0; dots = 0; elapsed = 0 }))

record OnTime (nsecs : ℕ) (s : Clock) : Type 0 where
  period : s.alsecs ≡ nsecs
  running : 1 ≤ s.remaining
  due : s.remaining ≤ nsecs
  dots_due : s.elapsed + s.remaining ≡ (s.dots + 1) * nsecs

after_second-OnTime :
    (nsecs n : ℕ) (s : Clock)
    → OnTime nsecs s
    → s.remaining ≡ n
    → OnTime nsecs (after_second n (record s { elapsed = s.elapsed + 1 }))
unfolding alhandler
after_second-OnTime nsecs zero s v at = absurd (omega (arith, v.running, at))
after_second-OnTime nsecs (suc zero) s v at = record {
  period = v.period;
  running = ground (arith, v.period, v.running, v.due);
  due = ground (arith, v.period);
  dots_due = omega (arith, v.dots_due, at, v.period);
}
after_second-OnTime nsecs (suc (suc n)) s v at = record {
  period = v.period;
  running = omega arith;
  due = omega (arith, v.due, at);
  dots_due = omega (arith, v.dots_due, at);
}

loop-OnTime : (nsecs n : ℕ) (s : Clock) → OnTime nsecs s → OnTime nsecs (alarm_loop n s)
unfolding alarm_loop
loop-OnTime nsecs zero s v = v
loop-OnTime nsecs (suc n) s v =
    loop-OnTime nsecs n (second s) (after_second-OnTime nsecs s.remaining s v refl)

after_second-elapsed : (n : ℕ) (s : Clock) → (after_second n s).elapsed ≡ s.elapsed
unfolding alhandler
after_second-elapsed zero s = refl
after_second-elapsed (suc zero) s = refl
after_second-elapsed (suc (suc n)) s = refl

loop-elapsed : (n : ℕ) (s : Clock) → (alarm_loop n s).elapsed ≡ s.elapsed + n
unfolding alarm_loop
loop-elapsed zero s = omega arith
loop-elapsed (suc n) s = omega (
  arith,
  loop-elapsed n (second s),
  after_second-elapsed s.remaining (record s { elapsed = s.elapsed + 1 }),
)

-- alarm.c prints a dot every `nsecs` seconds: after any time, as many dots as that time holds.
pub alarm_dots :
    (nsecs seconds : ℕ)
    → 0 < nsecs
    → ((alarm_main nsecs seconds).dots * nsecs ≤ seconds)
      × (seconds < ((alarm_main nsecs seconds).dots + 1) * nsecs)
unfolding setalarm
alarm_dots nsecs seconds pos =
    let begin : Clock =
      setalarm nsecs (record { alsecs = 0; remaining = 0; dots = 0; elapsed = 0 }) in
    let v =
      loop-OnTime nsecs seconds begin
        (record { period = refl; running = pos; due = omega arith; dots_due = omega arith }) in
    let passed = loop-elapsed seconds begin in
    (omega (arith, v.dots_due, v.due, passed), omega (arith, v.dots_due, v.running, passed))
