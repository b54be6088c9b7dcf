-- ===== src/Signals/Sleep.antt =====
-- "4_Signals/mysleep.c": waiting for the signal of an alarm, with the seconds and the signals that may come
-- between any two calls.
use linux_system_programming.Prelude.{
  ℕ, zero, suc, ◌+◌, ◌-◌, ◌≡◌, ◌≤◌, ◌⊎◌, refl, ap, ◌∙◌, subst, Option, none, some, Bool, true,
  false, ltb, ◌==◌, if◌then◌else◌, arith,
}

-- The next call of `mysleep`, or its result; `paused` is inside `pause`.
pub data SleepAt : Type 0 where
  set_handler : SleepAt
  set_alarm : SleepAt
  call_pause : SleepAt
  paused : SleepAt
  cancel_alarm : SleepAt
  returned : ℕ → SleepAt

-- The seconds until the alarm, 0 if there is none. For the statements: the seconds from the call of
-- `alarm` to the return, and whether a signal other than the alarm's has ended `pause`.
pub record Sleeper : Type 0 where
  pub at : SleepAt
  pub remaining : ℕ
  pub elapsed : ℕ
  pub disturbed : Bool

-- One call of `mysleep(nsecs)`; `installed` is whether `signal` succeeds.
unfoldable pub mysleep_at : Bool → ℕ → SleepAt → Sleeper → Option Sleeper
mysleep_at installed nsecs set_handler s =
    some (record s { at = if installed then set_alarm else returned nsecs })
mysleep_at installed nsecs set_alarm s =
    some (record s { at = call_pause; remaining = nsecs; elapsed = 0 })
mysleep_at installed nsecs call_pause s = some (record s { at = paused })
mysleep_at installed nsecs paused s = none
mysleep_at installed nsecs cancel_alarm s =
    some (record s { at = returned s.remaining; remaining = 0 })
mysleep_at installed nsecs (returned left) s = none

-- `sigalarm` and what it interrupts: only in `pause` does the signal change where the program stands.
abbrev pub woken : SleepAt → SleepAt
woken paused = cancel_alarm
woken at = at

abbrev alarm_second : ℕ → Sleeper → Sleeper
alarm_second zero s = s
alarm_second (suc zero) s = record s { at = woken s.at; remaining = 0 }
alarm_second (suc (suc n)) s = record s { remaining = suc n }

abbrev seconds_counted : SleepAt → ℕ → ℕ
seconds_counted (returned left) n = n
seconds_counted _ n = n + 1

-- A second passes.
abbrev pub second_passes : Sleeper → Sleeper
second_passes s = alarm_second s.remaining (record s { elapsed = seconds_counted s.at s.elapsed })

-- The program, a second, or another signal that has a handler.
pub data SleepStep (installed : Bool) (nsecs : ℕ) (s : Sleeper) : Sleeper → Type 0 where
  call : {t : Sleeper} → mysleep_at installed nsecs s.at s ≡ some t → SleepStep installed nsecs s t
  second : SleepStep installed nsecs s (second_passes s)
  signal :
      s.at ≡ paused → SleepStep installed nsecs s (record s { at = cancel_alarm; disturbed = true })

abbrev pub sleep_start : Sleeper
sleep_start = record { at = set_handler; remaining = 0; elapsed = 0; disturbed = false }

pub data SleepRun (installed : Bool) (nsecs : ℕ) : Sleeper → Type 0 where
  begin : SleepRun installed nsecs sleep_start
  more :
      {s t : Sleeper}
      → SleepRun installed nsecs s
      → SleepStep installed nsecs s t
      → SleepRun installed nsecs t

-- The result tells what was left of the time; without another signal, nothing.
abbrev Told : ℕ → SleepAt → ℕ → ℕ → Bool → Type 0
Told nsecs SleepAt.set_handler remaining elapsed disturbed = remaining ≡ 0
Told nsecs SleepAt.set_alarm remaining elapsed disturbed = remaining ≡ 0
Told nsecs (SleepAt.returned left) remaining elapsed disturbed =
    (left ≡ nsecs - elapsed) × (remaining ≡ 0) × ((disturbed ≡ true) ⊎ (left ≡ 0))
Told nsecs SleepAt.cancel_alarm remaining elapsed disturbed =
    (remaining ≡ nsecs - elapsed) × ((disturbed ≡ true) ⊎ (remaining ≡ 0))
Told nsecs at remaining elapsed disturbed = remaining ≡ nsecs - elapsed

abbrev IsTold : ℕ → Sleeper → Type 0
IsTold nsecs s = Told nsecs s.at s.remaining s.elapsed s.disturbed

call-IsTold :
    (nsecs : ℕ) (at : SleepAt) (s t : Sleeper)
    → mysleep_at true nsecs at s ≡ some t
    → s.at ≡ at
    → IsTold nsecs s
    → IsTold nsecs t
unfolding mysleep_at
call-IsTold nsecs SleepAt.set_alarm s t e pl v = ground (arith, v)
call-IsTold nsecs _ s t e pl v = ground (arith, v)

second-Told :
    (nsecs n : ℕ) (at : SleepAt) (s : Sleeper)
    → s.at ≡ at
    → s.remaining ≡ n
    → IsTold nsecs s
    → IsTold nsecs (alarm_second n (record s { elapsed = seconds_counted at s.elapsed }))
second-Told nsecs zero SleepAt.set_alarm s pl left v = ground (arith, v)
second-Told nsecs zero _ s pl left v = ground (arith, v)
second-Told nsecs (suc zero) SleepAt.set_alarm s pl left v = ground (arith, v)
second-Told nsecs (suc zero) _ s pl left v = ground (arith, v)
second-Told nsecs (suc (suc n)) SleepAt.set_alarm s pl left v = ground (arith, v)
second-Told nsecs (suc (suc n)) _ s pl left v = ground (arith, v)

SleepRun-IsTold : (nsecs : ℕ) {s : Sleeper} → SleepRun true nsecs s → IsTold nsecs s
SleepRun-IsTold nsecs begin = refl
SleepRun-IsTold nsecs (more {s} {t} r (call e)) =
    call-IsTold nsecs s.at s t e refl (SleepRun-IsTold nsecs r)
SleepRun-IsTold nsecs (more {s} r second) =
    second-Told nsecs s.remaining s.at s refl refl (SleepRun-IsTold nsecs r)
SleepRun-IsTold nsecs (more {s} r (signal at)) =
    let v = SleepRun-IsTold nsecs r in ground (arith, v)

-- What `mysleep` returns is what was left of the time; and unless another signal has ended its `pause`, it
-- has waited for at least as many seconds as it was asked to.
pub mysleep_left :
    (nsecs left : ℕ) {s : Sleeper}
    → SleepRun true nsecs s
    → s.at ≡ returned left
    → (left ≡ nsecs - s.elapsed) × ((s.disturbed ≡ true) ⊎ (nsecs ≤ s.elapsed))
mysleep_left nsecs left {s} r at =
    let v =
      subst (λ a. Told nsecs a s.remaining s.elapsed s.disturbed) at (SleepRun-IsTold nsecs r) in
    (v.0, ground (arith, v.0, v.2))

-- A number of seconds, in which the program makes no call.
abbrev pub pass : ℕ → Sleeper → Sleeper
pass zero s = s
pass (suc n) s = pass n (second_passes s)

pass_awake :
    (n : ℕ) (s : Sleeper) → s.at ≡ cancel_alarm → s.remaining ≡ 0 → (pass n s).at ≡ cancel_alarm
pass_awake zero s at none_left = at
pass_awake (suc n) s at none_left = pass_awake n (second_passes s) (ground arith) (ground arith)

-- When a pause has ended after `n` seconds more, if it has `left` seconds to go.
abbrev pub end_of_pause : ℕ → ℕ → SleepAt
end_of_pause n left = if left == 0 then paused else (if ltb n left then paused else cancel_alarm)

-- A first second, and `n` others.
pause_ends_after :
    (n left : ℕ) (s : Sleeper)
    → s.at ≡ paused
    → s.remaining ≡ left
    → (e : ℕ) → ((t : Sleeper) → t.at ≡ paused → (pass n t).at ≡ end_of_pause n t.remaining)
    → (pass n (alarm_second left (record s { elapsed = e }))).at ≡ end_of_pause (suc n) s.remaining
pause_ends_after n zero s at known e ih = ih (record s { elapsed = e }) at ∙ ground arith
pause_ends_after n (suc zero) s at known e ih =
    pass_awake n (record s { at = woken s.at; remaining = 0; elapsed = e }) (ground arith) refl
    ∙ ground arith
pause_ends_after n (suc (suc k)) s at known e ih =
    ih (record s { remaining = suc k; elapsed = e }) at ∙ ground arith

pass-paused : (n : ℕ) (s : Sleeper) → s.at ≡ paused → (pass n s).at ≡ end_of_pause n s.remaining
pass-paused zero s at = ground arith
pass-paused (suc n) s at =
    pause_ends_after n s.remaining s at refl (seconds_counted s.at s.elapsed) (pass-paused n)

-- A call of `mysleep(nsecs)` that has come to `pause`, some seconds after its call of `alarm`, and to which no
-- other signal comes: `pause` ends when `nsecs` seconds have passed since `alarm`; but where they have passed before the call of `pause`, or
-- `nsecs` is 0, it never does.
pub pause_ends :
    (nsecs n : ℕ) {s : Sleeper}
    → SleepRun true nsecs s
    → s.at ≡ paused
    → (pass n s).at ≡ end_of_pause n (nsecs - s.elapsed)
pause_ends nsecs n {s} r at =
    pass-paused n s at
    ∙ ap (end_of_pause n)
        (subst (λ a. Told nsecs a s.remaining s.elapsed s.disturbed) at (SleepRun-IsTold nsecs r))
