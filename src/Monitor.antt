-- ===== src/Monitor.antt =====
-- "6_Synchronization/prodcons_m.c": the producer and the consumer over the bounded buffer of prodcons.h,
-- as a monitor of one mutex and two condition variables. A thread is a place in the code, and one step
-- is one access to the buffer or one pthread call; `counter++` and `counter--` are a load and a store.
pub mod Inv
pub mod Keep
pub mod Laws
mod Tests
use linux_system_programming.Prelude.{
  ℕ, zero, suc, ◌+◌, ◌-◌, ◌≡◌, Bool, true, false, Option, none, some, List, [], ◌∷◌, ◌++◌, get_or,
  replicate, ltb, ◌==◌, if◌then◌else◌,
}
use linux_system_programming.ProdCons.{
  BoundedBuffer, write_slot, next_in, next_out, set_counter, max_buf, nloops,
}

-- Where `Producer` stands in a round of its loop: `asleep` inside `pthread_cond_wait(&NotFull, ...)`,
-- and `relock` there too, woken and waiting for the mutex.
pub data ProducerAt : Type 0 where
  lock : ProducerAt
  check_full : ProducerAt
  asleep : ProducerAt
  relock : ProducerAt
  write_item : ProducerAt
  advance_in : ProducerAt
  load_counter : ProducerAt
  store_counter : ℕ → ProducerAt
  signal : ProducerAt
  unlock : ProducerAt

-- Where `Consumer` stands; it sleeps on `NotEmpty`.
pub data ConsumerAt : Type 0 where
  lock : ConsumerAt
  check_empty : ConsumerAt
  asleep : ConsumerAt
  relock : ConsumerAt
  read_item : ConsumerAt
  advance_out : ConsumerAt
  load_counter : ConsumerAt
  store_counter : ℕ → ConsumerAt
  signal : ConsumerAt
  unlock : ConsumerAt

-- `Buf`, whether `Mutex` is locked, and each thread's counter `i` and place. `got` is the data that the
-- consumer has read so far, in order.
pub record MonitorState : Type 0 where
  pub shared : BoundedBuffer
  pub locked : Bool
  pub produced : ℕ
  pub producer : ProducerAt
  pub consumed : ℕ
  pub consumer : ConsumerAt
  pub got : List ℕ

-- `pthread_cond_signal(&NotFull)`: only the producer waits for it.
unfoldable pub signal_not_full : ProducerAt → ProducerAt
signal_not_full asleep = relock
signal_not_full pc = pc

-- `pthread_cond_signal(&NotEmpty)`: only the consumer waits for it.
unfoldable pub signal_not_empty : ConsumerAt → ConsumerAt
signal_not_empty asleep = relock
signal_not_empty pc = pc

-- One step of `Producer`; `none` where it waits or has finished. `items n` is the data of round `n`,
-- in the source `(rand()%100)*10000`.
unfoldable pub producer_step : (ℕ → ℕ) → ProducerAt → MonitorState → Option MonitorState
producer_step items lock s =
    if ltb s.produced nloops
    then (if s.locked then none else some (record s { locked = true; producer = check_full }))
    else none
producer_step items check_full s =
    if s.shared.counter == max_buf
    then some (record s { locked = false; producer = asleep })
    else some (record s { producer = write_item })
producer_step items asleep s = none
producer_step items relock s =
    if s.locked then none else some (record s { locked = true; producer = check_full })
producer_step items write_item s =
    some (record s { shared = write_slot s.shared (items s.produced); producer = advance_in })
producer_step items advance_in s =
    some (record s { shared = next_in s.shared; producer = load_counter })
producer_step items load_counter s = some (record s { producer = store_counter s.shared.counter })
producer_step items (store_counter n) s =
    some (record s { shared = set_counter s.shared (n + 1); producer = signal })
producer_step items signal s =
    some (record s { consumer = signal_not_empty s.consumer; producer = unlock })
producer_step items unlock s =
    some (record s { locked = false; produced = s.produced + 1; producer = lock })

-- One step of `Consumer`. The subtraction in the store of `counter--` stops at 0.
unfoldable pub consumer_step : ConsumerAt → MonitorState → Option MonitorState
consumer_step lock s =
    if ltb s.consumed nloops
    then (if s.locked then none else some (record s { locked = true; consumer = check_empty }))
    else none
consumer_step check_empty s =
    if s.shared.counter == 0
    then some (record s { locked = false; consumer = asleep })
    else some (record s { consumer = read_item })
consumer_step asleep s = none
consumer_step relock s =
    if s.locked then none else some (record s { locked = true; consumer = check_empty })
consumer_step read_item s = some (record s {
  got = s.got ++ (get_or s.shared.buf s.shared.out_idx 0 ∷ []);
  consumer = advance_out;
})
consumer_step advance_out s =
    some (record s { shared = next_out s.shared; consumer = load_counter })
consumer_step load_counter s = some (record s { consumer = store_counter s.shared.counter })
consumer_step (store_counter n) s =
    some (record s { shared = set_counter s.shared (n - 1); consumer = signal })
consumer_step signal s =
    some (record s { producer = signal_not_full s.producer; consumer = unlock })
consumer_step unlock s =
    some (record s { locked = false; consumed = s.consumed + 1; consumer = lock })

-- A step of a thread's own code.
pub data Turn (items : ℕ → ℕ) (s : MonitorState) : MonitorState → Type 0 where
  produce : {t : MonitorState} → producer_step items s.producer s ≡ some t → Turn items s t
  consume : {t : MonitorState} → consumer_step s.consumer s ≡ some t → Turn items s t

-- `main`, up to the threads' start: the globals are zero.
abbrev pub monitor_start : MonitorState
monitor_start = record {
  shared = record { buf = replicate max_buf 0; in_idx = 0; out_idx = 0; counter = 0 };
  locked = false;
  produced = 0;
  producer = lock;
  consumed = 0;
  consumer = lock;
  got = [];
}

-- What the program can reach. `pthread_cond_wait` may return without a signal, at any time.
pub data Reachable (items : ℕ → ℕ) : MonitorState → Type 0 where
  here : Reachable items monitor_start
  next : {s t : MonitorState} → Reachable items s → Turn items s t → Reachable items t
  spurious_producer :
      {s : MonitorState}
      → Reachable items s
      → s.producer ≡ asleep
      → Reachable items (record s { producer = relock })
  spurious_consumer :
      {s : MonitorState}
      → Reachable items s
      → s.consumer ≡ asleep
      → Reachable items (record s { consumer = relock })
