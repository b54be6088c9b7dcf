-- ===== src/Busy/Calm.antt =====
-- prodcons_t.c, as long as the threads do not both stand between the load and the store of the counter.
use linux_system_programming.Prelude.{
  ℕ, ◌+◌, ◌%◌, ◌≤◌, ◌<◌, ◌≡◌, ◌∙◌, refl, none, ap, ap₂, sym, some, List, [], ◌∷◌, ◌++◌, get_or, set,
  ◌==◌, Bool-cases, arith, inl, inr,
}
use linux_system_programming.Prelude.Threads.{Step, by_first, by_second}
use linux_system_programming.ProdCons.{nloops, max_buf}
use linux_system_programming.ProdCons.Inv.{first_items}
use linux_system_programming.ProdCons.Keep.{get_or-set, slot_ne, first_items-add, first_items-zero}
use linux_system_programming.Busy.{
  BusyProducer, BusyConsumer, BusyState, producer_busy, consumer_busy, producer_turn, consumer_turn,
  busy_start,
}
use linux_system_programming.Busy.Laws.{
  InRange, InRange-start, stuck_at, both_done, consumer_waits, producer_waits, keep_producer,
  keep_consumer,
}

-- 1 between the load and the store of the counter.
abbrev pub p_updates : BusyProducer → ℕ
p_updates (BusyProducer.store_counter n) = 1
p_updates _ = 0

abbrev pub c_updates : BusyConsumer → ℕ
c_updates (BusyConsumer.store_counter n) = 1
c_updates _ = 0

abbrev pub IsApart : BusyState → Type 0
IsApart s = p_updates s.producer + c_updates s.consumer ≤ 1

-- What is reached by runs in which no two updates of the counter overlap.
pub data CalmRun (items : ℕ → ℕ) : BusyState → Type 0 where
  calm_start : CalmRun items busy_start
  calm_next :
      {s t : BusyState}
      → CalmRun items s
      → Step (producer_turn items) consumer_turn s t
      → IsApart t
      → CalmRun items t

-- Progress within a round.
abbrev pub p_put : BusyProducer → ℕ
p_put BusyProducer.test_full = 0
p_put BusyProducer.write_item = 0
p_put _ = 1

abbrev p_moved : BusyProducer → ℕ
p_moved BusyProducer.advance_in = 0
p_moved p = p_put p

abbrev pub c_got : BusyConsumer → ℕ
c_got BusyConsumer.test_empty = 0
c_got BusyConsumer.read_item = 0
c_got _ = 1

abbrev c_moved : BusyConsumer → ℕ
c_moved BusyConsumer.advance_out = 0
c_moved c = c_got c

-- What a thread has loaded is still the counter.
abbrev PSame : BusyProducer → ℕ → Type 0
PSame (BusyProducer.store_counter n) counter = n ≡ counter
PSame _ counter = Unit

abbrev CSame : BusyConsumer → ℕ → Type 0
CSame (BusyConsumer.store_counter n) counter = n ≡ counter
CSame _ counter = Unit

record Exact (items : ℕ → ℕ) (s : BusyState) : Type 0 where
  range : InRange s
  apart : IsApart s
  same_p : PSame s.producer s.shared.counter
  same_c : CSame s.consumer s.shared.counter
  count : s.shared.counter + s.consumed ≡ s.produced
  in_at : s.shared.in_idx ≡ (s.produced + p_moved s.producer) % max_buf
  out_at : s.shared.out_idx ≡ (s.consumed + c_moved s.consumer) % max_buf
  fifo : s.got ≡ first_items items (s.consumed + c_got s.consumer)
  stored :
      (n : ℕ)
      → s.consumed + c_got s.consumer ≤ n
      → n < s.produced + p_put s.producer
      → get_or s.shared.buf (n % max_buf) 0 ≡ items n

-- The item that is written overwrites none that waits.
stored_write :
    (items : ℕ → ℕ) (s : BusyState)
    → Exact items s
    → s.producer ≡ BusyProducer.write_item
    → (n : ℕ) → s.consumed + c_got s.consumer ≤ n
    → n < s.produced + 1
    → get_or (set s.shared.buf s.shared.in_idx (items s.produced)) (n % max_buf) 0 ≡ items n
stored_write items s v at n low high =
    let written = get_or-set s.shared.buf s.shared.in_idx (n % max_buf) (items s.produced) in
    elim (Bool-cases (n == s.produced)) [
      | inl last ↦ ground (arith, written, v.in_at, v.range.size)
      | inr older ↦ ground (
        arith,
        written,
        v.in_at,
        v.range.size,
        v.stored n,
        slot_ne n s.produced,
        v.count,
        v.range.room,
      )
    ]

read_fifo :
    (items : ℕ → ℕ) (s : BusyState)
    → Exact items s
    → s.consumer ≡ BusyConsumer.read_item
    → s.got ++ (get_or s.shared.buf s.shared.out_idx 0 ∷ []) ≡ first_items items (s.consumed + 1)
read_fifo items s v at =
    ap₂ (λ (xs : List ℕ) x. xs ++ (x ∷ []))
      (v.fifo
        ∙ ap (λ pc. first_items items (s.consumed + c_got pc)) at
        ∙ first_items-zero items s.consumed)
      (ground (arith, v.stored s.consumed, v.out_at, v.count, v.range.item))
    ∙ sym (first_items-add items s.consumed)

Exact-producer :
    (items : ℕ → ℕ) (p : BusyProducer) (s t : BusyState)
    → producer_busy items p s ≡ some t
    → s.producer ≡ p
    → InRange t
    → IsApart t
    → Exact items s
    → Exact items t
unfolding producer_busy
Exact-producer items BusyProducer.write_item s t e at range' calm v = record {
  range = range';
  apart = calm;
  same_p = ground (arith, v.same_p, v.apart);
  same_c = ground (arith, v.same_c, v.apart);
  count = ground (arith, v.count, v.same_p, v.same_c, v.range.item);
  in_at = ground (arith, v.in_at);
  out_at = ground (arith, v.out_at);
  fifo = ground (arith, v.fifo);
  stored = λ n low high. ground (arith, stored_write items s v at n);
}
Exact-producer items _ s t e at range' calm v = record {
  range = range';
  apart = calm;
  same_p = ground (arith, v.same_p, v.apart);
  same_c = ground (arith, v.same_c, v.apart);
  count = ground (arith, v.count, v.same_p, v.same_c, v.range.item);
  in_at = ground (arith, v.in_at);
  out_at = ground (arith, v.out_at);
  fifo = ground (arith, v.fifo);
  stored = λ n low high. ground (arith, v.stored n);
}

Exact-consumer :
    (items : ℕ → ℕ) (c : BusyConsumer) (s t : BusyState)
    → consumer_busy c s ≡ some t
    → s.consumer ≡ c
    → InRange t
    → IsApart t
    → Exact items s
    → Exact items t
unfolding consumer_busy
Exact-consumer items BusyConsumer.read_item s t e at range' calm v = record {
  range = range';
  apart = calm;
  same_p = ground (arith, v.same_p, v.apart);
  same_c = ground (arith, v.same_c, v.apart);
  count = ground (arith, v.count, v.same_p, v.same_c, v.range.item);
  in_at = ground (arith, v.in_at);
  out_at = ground (arith, v.out_at);
  fifo = ground (arith, read_fifo items s v);
  stored = λ n low high. ground (arith, v.stored n);
}
Exact-consumer items _ s t e at range' calm v = record {
  range = range';
  apart = calm;
  same_p = ground (arith, v.same_p, v.apart);
  same_c = ground (arith, v.same_c, v.apart);
  count = ground (arith, v.count, v.same_p, v.same_c, v.range.item);
  in_at = ground (arith, v.in_at);
  out_at = ground (arith, v.out_at);
  fifo = ground (arith, v.fifo);
  stored = λ n low high. ground (arith, v.stored n);
}

Exact-start : (items : ℕ → ℕ) → Exact items busy_start
Exact-start items = record {
  range = InRange-start;
  apart = omega arith;
  same_p = tt;
  same_c = tt;
  count = refl;
  in_at = refl;
  out_at = refl;
  fifo = refl;
  stored = λ n low high. absurd (omega arith);
}

CalmRun-Exact : (items : ℕ → ℕ) {s : BusyState} → CalmRun items s → Exact items s
CalmRun-Exact items calm_start = Exact-start items
CalmRun-Exact items (calm_next {s} {t} r (by_first e) calm) =
    let v = CalmRun-Exact items r in
    Exact-producer items s.producer s t e refl
      (keep_producer items s.producer s.consumer s t e refl refl v.range) calm v
CalmRun-Exact items (calm_next {s} {t} r (by_second e) calm) =
    let v = CalmRun-Exact items r in
    Exact-consumer items s.consumer s t e refl
      (keep_consumer s.producer s.consumer s t e refl refl v.range) calm v

-- As long as no two updates of the counter overlap, the consumer has read the producer's items in
-- order, none lost and none twice, and the counter is the number of items between the two.
pub calm_fifo :
    (items : ℕ → ℕ) {s : BusyState}
    → CalmRun items s
    → (s.got ≡ first_items items (s.consumed + c_got s.consumer))
      × (s.shared.counter + s.consumed ≡ s.produced)
calm_fifo items r = let v = CalmRun-Exact items r in (v.fifo, v.count)

-- As long as no two updates of the counter overlap, the threads stop only when both have finished.
pub calm_end :
    (items : ℕ → ℕ) {s : BusyState}
    → CalmRun items s
    → producer_turn items s ≡ none
    → consumer_turn s ≡ none
    → (s.produced ≡ nloops) × (s.consumed ≡ nloops)
calm_end items {s} r pn cn =
    let v = CalmRun-Exact items r in
    elim (stuck_at items s.producer s.consumer s refl refl v.range pn cn) [
      | both_done p c ↦ (p, c)
      | consumer_waits p c z ↦ absurd (omega (arith, v.count, p, c, z))
      | producer_waits c p z ↦ absurd (omega (arith, v.count, p, c, z))
    ]
