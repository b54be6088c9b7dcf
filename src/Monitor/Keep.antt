-- ===== src/Monitor/Keep.antt =====
-- Each step of prodcons_m.c keeps the invariant.
use mathlib.Core.Option.{some-injective}
use linux_system_programming.Prelude.{
  subst, ℕ, ◌+◌, ◌%◌, ◌≤◌, ◌<◌, ◌≡◌, refl, ap, ap₂, sym, ◌∙◌, some, List, [], ◌∷◌, ◌++◌, get_or,
  set, ◌==◌, arith, length-set, Bool-cases, inl, inr,
}
use linux_system_programming.ProdCons.{max_buf}
use linux_system_programming.ProdCons.Inv.{first_items}
use linux_system_programming.ProdCons.Keep.{get_or-set, slot_ne, first_items-add, first_items-zero}
use linux_system_programming.Monitor.{
  MonitorState, ProducerAt, ConsumerAt, producer_step, consumer_step, signal_not_full,
  signal_not_empty, Turn, produce, consume, Reachable, here, next, spurious_producer,
  spurious_consumer,
}
use linux_system_programming.Monitor.Inv.{Inv, Inv-start, c_read, c_counted, p_counted, p_wrote}

c_counted-le : (pc : ConsumerAt) → c_counted pc ≤ c_read pc
c_counted-le ConsumerAt.signal = omega arith
c_counted-le ConsumerAt.unlock = omega arith
c_counted-le _ = omega arith

p_counted-le : (pc : ProducerAt) → p_counted pc ≤ p_wrote pc
p_counted-le ProducerAt.signal = omega arith
p_counted-le ProducerAt.unlock = omega arith
p_counted-le _ = omega arith

stored_write :
    (items : ℕ → ℕ) (s : MonitorState)
    → Inv items s
    → s.producer ≡ ProducerAt.write_item
    → (n : ℕ) → s.consumed + c_read s.consumer ≤ n
    → n < s.produced + 1
    → get_or (set s.shared.buf s.shared.in_idx (items s.produced)) (n % max_buf) 0 ≡ items n
stored_write items s v at n low high = elim (Bool-cases (n == s.produced)) [
  | inl last ↦ ground (
    arith,
    get_or-set s.shared.buf s.shared.in_idx (n % max_buf) (items s.produced),
    v.in_at,
    v.size,
  )
  | inr older ↦ ground (
    arith,
    get_or-set s.shared.buf s.shared.in_idx (n % max_buf) (items s.produced),
    v.in_at,
    v.size,
    v.stored n,
    slot_ne n s.produced,
    v.count,
    v.room,
    c_counted-le s.consumer,
  )
]

-- The producer wakes the consumer.
keep_producer_signal :
    (items : ℕ → ℕ) (pc : ConsumerAt) (s : MonitorState)
    → s.producer ≡ ProducerAt.signal
    → s.consumer ≡ pc
    → Inv items s
    → Inv items (record s { consumer = signal_not_empty pc; producer = ProducerAt.unlock })
unfolding signal_not_empty
keep_producer_signal items ConsumerAt.asleep s at there v = record {
  few_produced = ground arith;
  few_consumed = ground arith;
  mutex = ground arith;
  room = ground arith;
  item = ground arith;
  count = ground arith;
  wakes_producer = ground arith;
  wakes_consumer = ground arith;
  loaded_p = ground arith;
  loaded_c = ground arith;
  size = ground arith;
  in_at = ground arith;
  out_at = ground arith;
  fifo = ground arith;
  stored = λ n low high. ground (arith, v.stored n);
}
keep_producer_signal items _ s at there v = record {
  few_produced = ground arith;
  few_consumed = ground arith;
  mutex = ground arith;
  room = ground arith;
  item = ground arith;
  count = ground arith;
  wakes_producer = ground arith;
  wakes_consumer = ground arith;
  loaded_p = ground arith;
  loaded_c = ground arith;
  size = ground arith;
  in_at = ground arith;
  out_at = ground arith;
  fifo = ground arith;
  stored = λ n low high. ground (arith, v.stored n);
}

-- The consumer wakes the producer.
keep_consumer_signal :
    (items : ℕ → ℕ) (pc : ProducerAt) (s : MonitorState)
    → s.consumer ≡ ConsumerAt.signal
    → s.producer ≡ pc
    → Inv items s
    → Inv items (record s { producer = signal_not_full pc; consumer = ConsumerAt.unlock })
unfolding signal_not_full
keep_consumer_signal items ProducerAt.asleep s at there v = record {
  few_produced = ground arith;
  few_consumed = ground arith;
  mutex = ground arith;
  room = ground arith;
  item = ground arith;
  count = ground arith;
  wakes_producer = ground arith;
  wakes_consumer = ground arith;
  loaded_p = ground arith;
  loaded_c = ground arith;
  size = ground arith;
  in_at = ground arith;
  out_at = ground arith;
  fifo = ground arith;
  stored = λ n low high. ground (arith, v.stored n);
}
keep_consumer_signal items _ s at there v = record {
  few_produced = ground arith;
  few_consumed = ground arith;
  mutex = ground arith;
  room = ground arith;
  item = ground arith;
  count = ground arith;
  wakes_producer = ground arith;
  wakes_consumer = ground arith;
  loaded_p = ground arith;
  loaded_c = ground arith;
  size = ground arith;
  in_at = ground arith;
  out_at = ground arith;
  fifo = ground arith;
  stored = λ n low high. ground (arith, v.stored n);
}

keep_producer :
    (items : ℕ → ℕ) (pc : ProducerAt) (s t : MonitorState)
    → producer_step items pc s ≡ some t
    → s.producer ≡ pc
    → Inv items s
    → Inv items t
unfolding producer_step
keep_producer items ProducerAt.signal s t e at v =
    subst (Inv items) (some-injective _ _ e) (keep_producer_signal items s.consumer s at refl v)
keep_producer items ProducerAt.write_item s t e at v = record {
  few_produced = ground arith;
  few_consumed = ground arith;
  mutex = ground arith;
  room = ground arith;
  item = ground arith;
  count = ground arith;
  wakes_producer = ground arith;
  wakes_consumer = ground arith;
  loaded_p = ground arith;
  loaded_c = ground arith;
  size = ground (arith, length-set s.shared.buf s.shared.in_idx (items s.produced));
  in_at = ground arith;
  out_at = ground arith;
  fifo = ground arith;
  stored = λ n low high. ground (arith, stored_write items s v at n);
}
keep_producer items _ s t e at v = record {
  few_produced = ground arith;
  few_consumed = ground arith;
  mutex = ground arith;
  room = ground arith;
  item = ground arith;
  count = ground arith;
  wakes_producer = ground arith;
  wakes_consumer = ground arith;
  loaded_p = ground arith;
  loaded_c = ground arith;
  size = ground arith;
  in_at = ground arith;
  out_at = ground arith;
  fifo = ground arith;
  stored = λ n low high. ground (arith, v.stored n);
}

-- What the consumer reads is the next item.
read_value :
    (items : ℕ → ℕ) (s : MonitorState)
    → Inv items s
    → s.consumer ≡ ConsumerAt.read_item
    → get_or s.shared.buf s.shared.out_idx 0 ≡ items s.consumed
read_value items s v at =
    ground (arith, v.stored s.consumed, v.out_at, v.count, v.item, p_counted-le s.producer)

read_fifo :
    (items : ℕ → ℕ) (s : MonitorState)
    → Inv items s
    → s.consumer ≡ ConsumerAt.read_item
    → s.got ++ (get_or s.shared.buf s.shared.out_idx 0 ∷ []) ≡ first_items items (s.consumed + 1)
read_fifo items s v at =
    ap₂ (λ (xs : List ℕ) x. xs ++ (x ∷ []))
      (v.fifo
        ∙ ap (λ pc. first_items items (s.consumed + c_read pc)) at
        ∙ first_items-zero items s.consumed)
      (read_value items s v at)
    ∙ sym (first_items-add items s.consumed)

keep_consumer :
    (items : ℕ → ℕ) (pc : ConsumerAt) (s t : MonitorState)
    → consumer_step pc s ≡ some t
    → s.consumer ≡ pc
    → Inv items s
    → Inv items t
unfolding consumer_step
keep_consumer items ConsumerAt.signal s t e at v =
    subst (Inv items) (some-injective _ _ e) (keep_consumer_signal items s.producer s at refl v)
keep_consumer items ConsumerAt.read_item s t e at v = record {
  few_produced = ground arith;
  few_consumed = ground arith;
  mutex = ground arith;
  room = ground arith;
  item = ground arith;
  count = ground arith;
  wakes_producer = ground arith;
  wakes_consumer = ground arith;
  loaded_p = ground arith;
  loaded_c = ground arith;
  size = ground arith;
  in_at = ground arith;
  out_at = ground arith;
  fifo = ground (arith, read_fifo items s v);
  stored = λ n low high. ground (arith, v.stored n);
}
keep_consumer items _ s t e at v = record {
  few_produced = ground arith;
  few_consumed = ground arith;
  mutex = ground arith;
  room = ground arith;
  item = ground arith;
  count = ground arith;
  wakes_producer = ground arith;
  wakes_consumer = ground arith;
  loaded_p = ground arith;
  loaded_c = ground arith;
  size = ground arith;
  in_at = ground arith;
  out_at = ground arith;
  fifo = ground arith;
  stored = λ n low high. ground (arith, v.stored n);
}

keep_spurious_producer :
    (items : ℕ → ℕ) (s : MonitorState)
    → s.producer ≡ ProducerAt.asleep
    → Inv items s
    → Inv items (record s { producer = ProducerAt.relock })
keep_spurious_producer items s at v = record {
  few_produced = ground arith;
  few_consumed = ground arith;
  mutex = ground arith;
  room = ground arith;
  item = ground arith;
  count = ground arith;
  wakes_producer = ground arith;
  wakes_consumer = ground arith;
  loaded_p = ground arith;
  loaded_c = ground arith;
  size = ground arith;
  in_at = ground arith;
  out_at = ground arith;
  fifo = ground arith;
  stored = λ n low high. ground (arith, v.stored n);
}

keep_spurious_consumer :
    (items : ℕ → ℕ) (s : MonitorState)
    → s.consumer ≡ ConsumerAt.asleep
    → Inv items s
    → Inv items (record s { consumer = ConsumerAt.relock })
keep_spurious_consumer items s at v = record {
  few_produced = ground arith;
  few_consumed = ground arith;
  mutex = ground arith;
  room = ground arith;
  item = ground arith;
  count = ground arith;
  wakes_producer = ground arith;
  wakes_consumer = ground arith;
  loaded_p = ground arith;
  loaded_c = ground arith;
  size = ground arith;
  in_at = ground arith;
  out_at = ground arith;
  fifo = ground arith;
  stored = λ n low high. ground (arith, v.stored n);
}

Turn-Inv : (items : ℕ → ℕ) {s t : MonitorState} → Turn items s t → Inv items s → Inv items t
Turn-Inv items {s} {t} (produce e) v = keep_producer items s.producer s t e refl v
Turn-Inv items {s} {t} (consume e) v = keep_consumer items s.consumer s t e refl v

-- The invariant holds in every state that the program reaches.
pub Reachable-Inv : (items : ℕ → ℕ) {s : MonitorState} → Reachable items s → Inv items s
Reachable-Inv items here = Inv-start items
Reachable-Inv items (next r st) = Turn-Inv items st (Reachable-Inv items r)
Reachable-Inv items (spurious_producer {s} r at) =
    keep_spurious_producer items s at (Reachable-Inv items r)
Reachable-Inv items (spurious_consumer {s} r at) =
    keep_spurious_consumer items s at (Reachable-Inv items r)
