-- ===== src/Signals/Tests.antt =====
-- alarm.c and mysleep.c over some seconds.
use linux_system_programming.Prelude.{◌+◌, ◌-◌, ◌*◌, ◌≤◌, ◌<◌, ◌≡◌, refl, true, false, arith}
use linux_system_programming.Signals.Alarm.{alarm_main, alarm_loop, setalarm, alhandler, alarm_dots}
use linux_system_programming.Signals.Sleep.{
  SleepAt, Sleeper, SleepRun, begin, more, call, second, mysleep_at, pass, end_of_pause, pause_ends,
}

alarm_main-7 : (alarm_main 2 7).dots ≡ 3
unfolding setalarm alarm_loop alhandler
alarm_main-7 = refl

alarm_dots_example : ((alarm_main 2 7).dots * 2 ≤ 7) × (7 < ((alarm_main 2 7).dots + 1) * 2)
alarm_dots_example = alarm_dots 2 7 (omega arith)

-- In `pause` for two seconds.
abbrev pausing : Sleeper
pausing = record { at = SleepAt.paused; remaining = 2; elapsed = 0; disturbed = false }

abbrev pausing-SleepRun : SleepRun true 2 pausing
unfolding mysleep_at
pausing-SleepRun = more (more (more begin (call refl)) (call refl)) (call refl)

-- Two seconds later `mysleep` returns.
abbrev over : Sleeper
over = record { at = SleepAt.returned 0; remaining = 0; elapsed = 2; disturbed = false }

abbrev over-SleepRun : SleepRun true 2 over
unfolding mysleep_at
over-SleepRun = more (more (more pausing-SleepRun second) second) (call refl)

-- The alarm of one second goes off before the call of `pause`.
abbrev missed : Sleeper
missed = record { at = SleepAt.paused; remaining = 0; elapsed = 1; disturbed = false }

abbrev missed-SleepRun : SleepRun true 1 missed
unfolding mysleep_at
missed-SleepRun = more (more (more (more begin (call refl)) (call refl)) second) (call refl)

pause_ends_example : (pass 100 missed).at ≡ end_of_pause 100 (1 - missed.elapsed)
pause_ends_example = pause_ends 1 100 missed-SleepRun refl
