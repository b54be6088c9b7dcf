-- ===== src/Signals.antt =====
-- "4_Signals": alarm.c and mysleep.c, with the clock of `alarm` and the signals that it brings.
pub mod Alarm
pub mod Sleep
mod Tests
