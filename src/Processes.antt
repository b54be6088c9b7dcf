-- ===== src/Processes.antt =====
-- "6_Synchronization/producer_s.c" and consumer_s.c: the loops of prodcons_s.c in two processes, with the
-- buffer in shared memory and the System V semaphores of semlib.c. Only the consumer gives the
-- semaphores their values, after both processes may have started.
pub mod Lift
pub mod Laws
pub mod Removal
mod Tests
use linux_system_programming.Prelude.{ℕ, ◌+◌, ◌≡◌, Option, none, some, [], replicate}
use linux_system_programming.ProdCons.{
  System, ProducerPc, ConsumerPc, producer_at, consumer_at, max_buf,
}

-- How far consumer_s.c is: at one of its three calls of `semInitValue`, or past them.
pub data Setup : Type 0 where
  set_empty : Setup
  set_mutex : Setup
  set_full : Setup
  set_up : Setup

-- The shared memory, the semaphores and the places in both loops are those of `System`. `wiped` is the
-- value of the semaphore that counts the items, when `semInitValue` sets it to 0.
pub record ProcessState : Type 0 where
  pub setup : Setup
  pub system : System
  pub wiped : ℕ

abbrev pub in_system : ProcessState → Option System → Option ProcessState
in_system s none = none
in_system s (some t) = some (record s { system = t })

-- A step of the loop of producer_s.c, which may begin at any time.
abbrev pub producer_process : (ℕ → ℕ) → ProcessState → Option ProcessState
producer_process items s = in_system s (producer_at items s.system.producer s.system)

-- A step of consumer_s.c: one call of `semInitValue`, or a step of its loop.
unfoldable pub consumer_setup : Setup → ProcessState → Option ProcessState
consumer_setup set_empty s =
    some (record s { setup = set_mutex; system = record (s.system) { empty_sem = max_buf } })
consumer_setup set_mutex s =
    some (record s { setup = set_full; system = record (s.system) { mutex_sem = 1 } })
consumer_setup set_full s = some (record {
  setup = set_up;
  system = record (s.system) { full_sem = 0 };
  wiped = s.system.full_sem;
})
consumer_setup set_up s = in_system s (consumer_at s.system.consumer s.system)

abbrev pub consumer_process : ProcessState → Option ProcessState
consumer_process s = consumer_setup s.setup s

-- New shared memory and new semaphores, all zero.
abbrev pub process_start : ProcessState
process_start = record {
  setup = set_empty;
  system = record {
    shared = record { buf = replicate max_buf 0; in_idx = 0; out_idx = 0; counter = 0 };
    empty_sem = 0;
    full_sem = 0;
    mutex_sem = 0;
    produced = 0;
    producer = ProducerPc.wait_empty;
    consumed = 0;
    consumer = ConsumerPc.wait_full;
    got = [];
  };
  wiped = 0;
}
