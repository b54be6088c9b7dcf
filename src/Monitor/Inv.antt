-- ===== src/Monitor/Inv.antt =====
-- What holds in every state that prodcons_m.c reaches.
use linux_system_programming.Prelude.{
  ℕ, ◌+◌, ◌*◌, ◌%◌, ◌≤◌, ◌<◌, ◌≡◌, refl, Bool, true, false, length, get_or, arith,
}
use linux_system_programming.ProdCons.{max_buf, nloops}
use linux_system_programming.ProdCons.Inv.{first_items}
use linux_system_programming.Monitor.{MonitorState, ProducerAt, ConsumerAt, monitor_start}

-- 1 between two places in the code, 0 elsewhere: within a round, with the mutex held, asleep, sure of a
-- free slot, after the write, after the index has moved, after the store, before the signal.
abbrev pub p_round : ProducerAt → ℕ
p_round ProducerAt.lock = 0
p_round _ = 1

abbrev pub p_holds : ProducerAt → ℕ
p_holds ProducerAt.lock = 0
p_holds ProducerAt.asleep = 0
p_holds ProducerAt.relock = 0
p_holds _ = 1

abbrev pub p_sleeps : ProducerAt → ℕ
p_sleeps ProducerAt.asleep = 1
p_sleeps _ = 0

abbrev pub p_room : ProducerAt → ℕ
p_room ProducerAt.write_item = 1
p_room ProducerAt.advance_in = 1
p_room ProducerAt.load_counter = 1
p_room (ProducerAt.store_counter n) = 1
p_room _ = 0

abbrev pub p_counted : ProducerAt → ℕ
p_counted ProducerAt.signal = 1
p_counted ProducerAt.unlock = 1
p_counted _ = 0

abbrev pub p_moved : ProducerAt → ℕ
p_moved ProducerAt.load_counter = 1
p_moved (ProducerAt.store_counter n) = 1
p_moved pc = p_counted pc

abbrev pub p_wrote : ProducerAt → ℕ
p_wrote ProducerAt.advance_in = 1
p_wrote pc = p_moved pc

abbrev pub p_signals : ProducerAt → ℕ
p_signals ProducerAt.signal = 1
p_signals _ = 0

abbrev pub c_round : ConsumerAt → ℕ
c_round ConsumerAt.lock = 0
c_round _ = 1

abbrev pub c_holds : ConsumerAt → ℕ
c_holds ConsumerAt.lock = 0
c_holds ConsumerAt.asleep = 0
c_holds ConsumerAt.relock = 0
c_holds _ = 1

abbrev pub c_sleeps : ConsumerAt → ℕ
c_sleeps ConsumerAt.asleep = 1
c_sleeps _ = 0

abbrev pub c_item : ConsumerAt → ℕ
c_item ConsumerAt.read_item = 1
c_item ConsumerAt.advance_out = 1
c_item ConsumerAt.load_counter = 1
c_item (ConsumerAt.store_counter n) = 1
c_item _ = 0

abbrev pub c_counted : ConsumerAt → ℕ
c_counted ConsumerAt.signal = 1
c_counted ConsumerAt.unlock = 1
c_counted _ = 0

abbrev pub c_moved : ConsumerAt → ℕ
c_moved ConsumerAt.load_counter = 1
c_moved (ConsumerAt.store_counter n) = 1
c_moved pc = c_counted pc

abbrev pub c_read : ConsumerAt → ℕ
c_read ConsumerAt.advance_out = 1
c_read pc = c_moved pc

abbrev pub c_signals : ConsumerAt → ℕ
c_signals ConsumerAt.signal = 1
c_signals _ = 0

-- What a thread has loaded is still the counter.
abbrev pub PFresh : ProducerAt → ℕ → Type 0
PFresh (ProducerAt.store_counter n) counter = n ≡ counter
PFresh _ counter = Unit

abbrev pub CFresh : ConsumerAt → ℕ → Type 0
CFresh (ConsumerAt.store_counter n) counter = n ≡ counter
CFresh _ counter = Unit

abbrev pub as_number : Bool → ℕ
as_number true = 1
as_number false = 0

pub record Inv (items : ℕ → ℕ) (s : MonitorState) : Type 0 where
  pub few_produced : s.produced + p_round s.producer ≤ nloops
  pub few_consumed : s.consumed + c_round s.consumer ≤ nloops
  pub mutex : p_holds s.producer + c_holds s.consumer ≡ as_number s.locked
  pub room : s.shared.counter + p_room s.producer ≤ max_buf
  pub item : c_item s.consumer ≤ s.shared.counter
  pub count :
      s.shared.counter + s.consumed + c_counted s.consumer ≡ s.produced + p_counted s.producer
  pub wakes_producer : p_sleeps s.producer * max_buf ≤ s.shared.counter + c_signals s.consumer
  pub wakes_consumer :
      s.shared.counter + c_sleeps s.consumer * max_buf ≤ p_signals s.producer + max_buf
  pub loaded_p : PFresh s.producer s.shared.counter
  pub loaded_c : CFresh s.consumer s.shared.counter
  pub size : length s.shared.buf ≡ max_buf
  pub in_at : s.shared.in_idx ≡ (s.produced + p_moved s.producer) % max_buf
  pub out_at : s.shared.out_idx ≡ (s.consumed + c_moved s.consumer) % max_buf
  pub fifo : s.got ≡ first_items items (s.consumed + c_read s.consumer)
  pub stored :
      (n : ℕ)
      → s.consumed + c_read s.consumer ≤ n
      → n < s.produced + p_wrote s.producer
      → get_or s.shared.buf (n % max_buf) 0 ≡ items n

pub Inv-start : (items : ℕ → ℕ) → Inv items monitor_start
Inv-start items = record {
  few_produced = omega arith;
  few_consumed = omega arith;
  mutex = refl;
  room = omega arith;
  item = omega arith;
  count = refl;
  wakes_producer = omega arith;
  wakes_consumer = omega arith;
  loaded_p = tt;
  loaded_c = tt;
  size = refl;
  in_at = refl;
  out_at = refl;
  fifo = refl;
  stored = λ n low high. absurd (omega arith);
}
