-- ===== src/ProdCons/Inv.antt =====
-- What holds in every state that prodcons_s.c reaches.
use linux_system_programming.Prelude.{
  ℕ, zero, suc, ◌+◌, ◌%◌, ◌≤◌, ◌<◌, ◌≡◌, refl, List, [], ◌∷◌, ◌++◌, length, get_or, arith,
}
use linux_system_programming.ProdCons.{System, ProducerPc, ConsumerPc, start, max_buf, nloops}

-- Progress within a round: 1 between two places in the code, 0 elsewhere.
abbrev pub p_slot : ProducerPc → ℕ
p_slot ProducerPc.wait_empty = 0
p_slot _ = 1

abbrev pub p_inside : ProducerPc → ℕ
p_inside ProducerPc.wait_empty = 0
p_inside ProducerPc.wait_mutex = 0
p_inside ProducerPc.post_full = 0
p_inside _ = 1

abbrev pub p_wrote : ProducerPc → ℕ
p_wrote ProducerPc.wait_empty = 0
p_wrote ProducerPc.wait_mutex = 0
p_wrote ProducerPc.write_item = 0
p_wrote _ = 1

abbrev pub p_moved : ProducerPc → ℕ
p_moved ProducerPc.advance_in = 0
p_moved pc = p_wrote pc

abbrev pub p_counted : ProducerPc → ℕ
p_counted ProducerPc.post_mutex = 1
p_counted ProducerPc.post_full = 1
p_counted _ = 0

abbrev pub c_item : ConsumerPc → ℕ
c_item ConsumerPc.wait_full = 0
c_item _ = 1

abbrev pub c_inside : ConsumerPc → ℕ
c_inside ConsumerPc.wait_full = 0
c_inside ConsumerPc.wait_mutex = 0
c_inside ConsumerPc.post_empty = 0
c_inside _ = 1

abbrev pub c_read : ConsumerPc → ℕ
c_read ConsumerPc.wait_full = 0
c_read ConsumerPc.wait_mutex = 0
c_read ConsumerPc.read_item = 0
c_read _ = 1

abbrev pub c_moved : ConsumerPc → ℕ
c_moved ConsumerPc.advance_out = 0
c_moved pc = c_read pc

abbrev pub c_counted : ConsumerPc → ℕ
c_counted ConsumerPc.post_mutex = 1
c_counted ConsumerPc.post_empty = 1
c_counted _ = 0

-- What a thread has loaded is still the counter.
abbrev pub PFresh : ProducerPc → ℕ → Type 0
PFresh (ProducerPc.store_counter n) counter = n ≡ counter
PFresh _ counter = Unit

abbrev pub CFresh : ConsumerPc → ℕ → Type 0
CFresh (ConsumerPc.store_counter n) counter = n ≡ counter
CFresh _ counter = Unit

-- The first `n` items.
abbrev pub first_items : (ℕ → ℕ) → ℕ → List ℕ
first_items items zero = []
first_items items (suc n) = first_items items n ++ (items n ∷ [])

pub record Inv (items : ℕ → ℕ) (s : System) : Type 0 where
  pub few_produced : s.produced + p_slot s.producer ≤ nloops
  pub few_consumed : s.consumed + c_item s.consumer ≤ nloops
  pub mutex : s.mutex_sem + p_inside s.producer + c_inside s.consumer ≡ 1
  pub empty : s.empty_sem + s.produced + p_slot s.producer ≡ s.consumed + max_buf
  pub full : s.full_sem + s.consumed + c_item s.consumer ≡ s.produced
  pub count :
      s.shared.counter + s.consumed + c_counted s.consumer ≡ s.produced + p_counted s.producer
  pub loaded_p : PFresh s.producer s.shared.counter
  pub loaded_c : CFresh s.consumer s.shared.counter
  pub size : length s.shared.buf ≡ max_buf
  pub in_at : s.shared.in_idx ≡ (s.produced + p_moved s.producer) % max_buf
  pub out_at : s.shared.out_idx ≡ (s.consumed + c_moved s.consumer) % max_buf
  pub fifo : s.got ≡ first_items items (s.consumed + c_read s.consumer)
  pub stored :
      (n : ℕ)
      → s.consumed + c_read s.consumer ≤ n
      → n < s.produced + p_wrote s.producer
      → get_or s.shared.buf (n % max_buf) 0 ≡ items n

pub Inv-start : (items : ℕ → ℕ) → Inv items start
Inv-start items = record {
  few_produced = omega arith;
  few_consumed = omega arith;
  mutex = refl;
  empty = refl;
  full = refl;
  count = refl;
  loaded_p = tt;
  loaded_c = tt;
  size = refl;
  in_at = refl;
  out_at = refl;
  fifo = refl;
  stored = λ n low high. absurd (omega arith);
}
