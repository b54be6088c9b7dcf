-- ===== src/ProdCons.antt =====
-- "6_Synchronization/prodcons_s.c" and prodcons.h: a producer and a consumer thread over a bounded
-- buffer, synchronised by three semaphores of semlib2.c. A thread is a program counter with the local
-- variables that are live there, and one step is one access to shared memory. `counter++` and
-- `counter--` are a load and a store. `sem_wait` is one step, possible while the value is not 0.
pub mod Inv
pub mod Keep
pub mod Progress
mod Tests
use linux_system_programming.Prelude.{
  ℕ, zero, suc, ◌+◌, ◌-◌, ◌*◌, ◌%◌, ◌≡◌, Option, none, some, List, [], ◌∷◌, ◌++◌, length, get_or,
  set, replicate, ltb, ◌==◌, if◌then◌else◌,
}

abbrev pub nloops : ℕ
nloops = 20

abbrev pub max_buf : ℕ
max_buf = 2

-- `BoundedBufferType`
pub record BoundedBuffer : Type 0 where
  pub buf : List ℕ
  pub in_idx : ℕ
  pub out_idx : ℕ
  pub counter : ℕ

-- Where `Producer` stands in a round of its loop.
pub data ProducerPc : Type 0 where
  wait_empty : ProducerPc
  wait_mutex : ProducerPc
  write_item : ProducerPc
  advance_in : ProducerPc
  load_counter : ProducerPc
  store_counter : ℕ → ProducerPc
  post_mutex : ProducerPc
  post_full : ProducerPc

-- Where `Consumer` stands in a round of its loop.
pub data ConsumerPc : Type 0 where
  wait_full : ConsumerPc
  wait_mutex : ConsumerPc
  read_item : ConsumerPc
  advance_out : ConsumerPc
  load_counter : ConsumerPc
  store_counter : ℕ → ConsumerPc
  post_mutex : ConsumerPc
  post_empty : ConsumerPc

-- The global variables, the values of the three semaphores, and each thread's counter `i` and place.
-- `got` is the data that the consumer has read so far, in order.
pub record System : Type 0 where
  pub shared : BoundedBuffer
  pub empty_sem : ℕ
  pub full_sem : ℕ
  pub mutex_sem : ℕ
  pub produced : ℕ
  pub producer : ProducerPc
  pub consumed : ℕ
  pub consumer : ConsumerPc
  pub got : List ℕ

-- `Buf.buf[Buf.in].data = data;`
abbrev pub write_slot : BoundedBuffer → ℕ → BoundedBuffer
write_slot b item = record b { buf = set b.buf b.in_idx item }

-- `Buf.in = (Buf.in + 1) % MAX_BUF;`
abbrev pub next_in : BoundedBuffer → BoundedBuffer
next_in b = record b { in_idx = (b.in_idx + 1) % max_buf }

-- `Buf.out = (Buf.out + 1) % MAX_BUF;`
abbrev pub next_out : BoundedBuffer → BoundedBuffer
next_out b = record b { out_idx = (b.out_idx + 1) % max_buf }

abbrev pub set_counter : BoundedBuffer → ℕ → BoundedBuffer
set_counter b n = record b { counter = n }

-- One step of `Producer`; `none` where it waits or has finished. `items n` is the data of round `n`,
-- in the source `(rand()%100)*10000`.
unfoldable pub producer_at : (ℕ → ℕ) → ProducerPc → System → Option System
producer_at items wait_empty s =
    if ltb s.produced nloops
    then (if s.empty_sem == 0
        then none
        else some (record s { empty_sem = s.empty_sem - 1; producer = wait_mutex }))
    else none
producer_at items wait_mutex s =
    if s.mutex_sem == 0
    then none
    else some (record s { mutex_sem = s.mutex_sem - 1; producer = write_item })
producer_at items write_item s =
    some (record s { shared = write_slot s.shared (items s.produced); producer = advance_in })
producer_at items advance_in s =
    some (record s { shared = next_in s.shared; producer = load_counter })
producer_at items load_counter s = some (record s { producer = store_counter s.shared.counter })
producer_at items (store_counter n) s =
    some (record s { shared = set_counter s.shared (n + 1); producer = post_mutex })
producer_at items post_mutex s =
    some (record s { mutex_sem = s.mutex_sem + 1; producer = post_full })
producer_at items post_full s =
    some (record s { full_sem = s.full_sem + 1; produced = s.produced + 1; producer = wait_empty })

-- One step of `Consumer`. The subtraction in the store of `counter--` stops at 0.
unfoldable pub consumer_at : ConsumerPc → System → Option System
consumer_at wait_full s =
    if ltb s.consumed nloops
    then (if s.full_sem == 0
        then none
        else some (record s { full_sem = s.full_sem - 1; consumer = wait_mutex }))
    else none
consumer_at wait_mutex s =
    if s.mutex_sem == 0
    then none
    else some (record s { mutex_sem = s.mutex_sem - 1; consumer = read_item })
consumer_at read_item s = some (record s {
  got = s.got ++ (get_or s.shared.buf s.shared.out_idx 0 ∷ []);
  consumer = advance_out;
})
consumer_at advance_out s = some (record s { shared = next_out s.shared; consumer = load_counter })
consumer_at load_counter s = some (record s { consumer = store_counter s.shared.counter })
consumer_at (store_counter n) s =
    some (record s { shared = set_counter s.shared (n - 1); consumer = post_mutex })
consumer_at post_mutex s = some (record s { mutex_sem = s.mutex_sem + 1; consumer = post_empty })
consumer_at post_empty s =
    some (record s { empty_sem = s.empty_sem + 1; consumed = s.consumed + 1; consumer = wait_full })

-- Either thread may make the next step.
pub data Step (items : ℕ → ℕ) (s : System) : System → Type 0 where
  produce : {t : System} → producer_at items s.producer s ≡ some t → Step items s t
  consume : {t : System} → consumer_at s.consumer s ≡ some t → Step items s t

-- `main`, up to the threads' start: the globals are zero, the semaphores are initialised.
abbrev pub start : System
start = record {
  shared = record { buf = replicate max_buf 0; in_idx = 0; out_idx = 0; counter = 0 };
  empty_sem = max_buf;
  full_sem = 0;
  mutex_sem = 1;
  produced = 0;
  producer = wait_empty;
  consumed = 0;
  consumer = wait_full;
  got = [];
}

pub data Reach (items : ℕ → ℕ) : System → Type 0 where
  here : Reach items start
  next : {s t : System} → Reach items s → Step items s t → Reach items t
