-- ===== src/Busy.antt =====
-- "6_Synchronization/prodcons_t.c" (and producer.c, consumer.c, which are its loops in two processes): the
-- bounded buffer with busy waiting and no synchronisation. One step is one access to shared memory;
-- `counter++` and `counter--` are a load and a store. A thread that waits busily makes no step.
pub mod Laws
pub mod Calm
mod Tests
use linux_system_programming.Prelude.{
  ℕ, ◌+◌, ◌-◌, ◌∷◌, ◌++◌, [], Option, none, some, List, get_or, replicate, ltb, ◌==◌, if◌then◌else◌,
}
use linux_system_programming.ProdCons.{
  BoundedBuffer, nloops, max_buf, write_slot, next_in, next_out, set_counter,
}

-- Where `Producer` stands in a round of its loop.
pub data BusyProducer : Type 0 where
  test_full : BusyProducer
  write_item : BusyProducer
  advance_in : BusyProducer
  load_counter : BusyProducer
  store_counter : ℕ → BusyProducer

-- Where `Consumer` stands in a round of its loop.
pub data BusyConsumer : Type 0 where
  test_empty : BusyConsumer
  read_item : BusyConsumer
  advance_out : BusyConsumer
  load_counter : BusyConsumer
  store_counter : ℕ → BusyConsumer

-- `Buf`, and each thread's counter `i` and place. `got` is the data that the consumer has read so far.
pub record BusyState : Type 0 where
  pub shared : BoundedBuffer
  pub produced : ℕ
  pub producer : BusyProducer
  pub consumed : ℕ
  pub consumer : BusyConsumer
  pub got : List ℕ

-- One step of `Producer`; `none` where it waits or has finished. `items n` is the data of round `n`.
unfoldable pub producer_busy : (ℕ → ℕ) → BusyProducer → BusyState → Option BusyState
producer_busy items test_full s =
    if ltb s.produced nloops
    then (if s.shared.counter == max_buf then none else some (record s { producer = write_item }))
    else none
producer_busy items write_item s =
    some (record s { shared = write_slot s.shared (items s.produced); producer = advance_in })
producer_busy items advance_in s =
    some (record s { shared = next_in s.shared; producer = load_counter })
producer_busy items load_counter s = some (record s { producer = store_counter s.shared.counter })
producer_busy items (store_counter n) s = some (record s {
  shared = set_counter s.shared (n + 1);
  produced = s.produced + 1;
  producer = test_full;
})

-- One step of `Consumer`. The subtraction in the store of `counter--` stops at 0.
unfoldable pub consumer_busy : BusyConsumer → BusyState → Option BusyState
consumer_busy test_empty s =
    if ltb s.consumed nloops
    then (if s.shared.counter == 0 then none else some (record s { consumer = read_item }))
    else none
consumer_busy read_item s = some (record s {
  got = s.got ++ (get_or s.shared.buf s.shared.out_idx 0 ∷ []);
  consumer = advance_out;
})
consumer_busy advance_out s =
    some (record s { shared = next_out s.shared; consumer = load_counter })
consumer_busy load_counter s = some (record s { consumer = store_counter s.shared.counter })
consumer_busy (store_counter n) s = some (record s {
  shared = set_counter s.shared (n - 1);
  consumed = s.consumed + 1;
  consumer = test_empty;
})

-- A step of the thread, or of the process of producer.c, at its place.
abbrev pub producer_turn : (ℕ → ℕ) → BusyState → Option BusyState
producer_turn items s = producer_busy items s.producer s

-- A step of the thread, or of the process of consumer.c, at its place.
abbrev pub consumer_turn : BusyState → Option BusyState
consumer_turn s = consumer_busy s.consumer s

-- `main`, up to the threads' start.
abbrev pub busy_start : BusyState
busy_start = record {
  shared = record { buf = replicate max_buf 0; in_idx = 0; out_idx = 0; counter = 0 };
  produced = 0;
  producer = test_full;
  consumed = 0;
  consumer = test_empty;
  got = [];
}
