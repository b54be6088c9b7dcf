-- ===== src/Processes/Removal.antt =====
-- producer_s.c and consumer_s.c with the end of producer_s.c, which removes the semaphores whether or not the
-- consumer still uses them.
pub mod Laws
use linux_system_programming.Prelude.{
  ℕ, Bool, true, false, Option, none, some, ltb, ◌==◌, if◌then◌else◌,
}
use linux_system_programming.ProdCons.{ConsumerPc, nloops}
use linux_system_programming.Processes.{
  Setup, set_empty, set_mutex, set_full, set_up, ProcessState, producer_process, consumer_process,
  process_start,
}

-- The calls of `semDestroy` that producer_s.c has made after its loop.
pub data Removed : Type 0 where
  nothing empty_removed mutex_removed all_removed : Removed

-- The processes in their loops, and whether the consumer has left its loop by `exit(1)`.
pub record Removal : Type 0 where
  pub processes : ProcessState
  pub removed : Removed
  pub failed : Bool

abbrev empty_gone : Removed → Bool
empty_gone nothing = false
empty_gone _ = true

abbrev mutex_gone : Removed → Bool
mutex_gone nothing = false
mutex_gone empty_removed = false
mutex_gone _ = true

abbrev full_gone : Removed → Bool
full_gone all_removed = true
full_gone _ = false

abbrev in_processes : Removal → Option ProcessState → Option Removal
in_processes e none = none
in_processes e (some t) = some (record e { processes = t })

-- A step of producer_s.c. Its exit comes after the removal, which leaves nothing to undo; and what the exit
-- of consumer_s.c undoes comes after the last call of producer_s.c that waits.
unfoldable pub producer_removes : (ℕ → ℕ) → Removed → Removal → Option Removal
producer_removes items nothing e =
    if e.processes.system.produced == nloops
    then some (record e { removed = empty_removed })
    else in_processes e (producer_process items e.processes)
producer_removes items empty_removed e = some (record e { removed = mutex_removed })
producer_removes items mutex_removed e = some (record e { removed = all_removed })
producer_removes items all_removed e = none

-- Whether the next call of consumer_s.c on a semaphore is on one that is gone.
abbrev pub loop_misses : Removed → ConsumerPc → ℕ → Bool
loop_misses r ConsumerPc.wait_full consumed = if ltb consumed nloops then full_gone r else false
loop_misses r ConsumerPc.wait_mutex consumed = mutex_gone r
loop_misses r ConsumerPc.post_mutex consumed = mutex_gone r
loop_misses r ConsumerPc.post_empty consumed = empty_gone r
loop_misses r _ consumed = false

abbrev pub misses : Removed → Setup → ProcessState → Bool
misses r set_empty s = empty_gone r
misses r set_mutex s = mutex_gone r
misses r set_full s = full_gone r
misses r set_up s = loop_misses r s.system.consumer s.system.consumed

-- A step of consumer_s.c; a call on a semaphore that is gone fails, also one that waits.
unfoldable pub consumer_misses : Bool → Bool → Removal → Option Removal
consumer_misses true missing e = none
consumer_misses false true e = some (record e { failed = true })
consumer_misses false false e = in_processes e (consumer_process e.processes)

abbrev pub producer_ending : (ℕ → ℕ) → Removal → Option Removal
producer_ending items e = producer_removes items e.removed e

abbrev pub consumer_ending : Removal → Option Removal
consumer_ending e = consumer_misses e.failed (misses e.removed e.processes.setup e.processes) e

abbrev pub removal_start : Removal
removal_start = record { processes = process_start; removed = nothing; failed = false }
