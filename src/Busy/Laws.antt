-- ===== src/Busy/Laws.antt =====
-- prodcons_t.c: what holds in spite of the updates of the counter that are lost, and how it ends.
use linux_system_programming.Prelude.{
  ℕ, ◌+◌, ◌≤◌, ◌<◌, ◌≡◌, refl, none, some, length, length-set, ◌⊎◌, inl, inr, arith,
}
use linux_system_programming.Prelude.Threads.{Run, Run-keeps, Step, Step-or_stuck}
use linux_system_programming.ProdCons.{nloops, max_buf}
use linux_system_programming.Busy.{
  BusyProducer, BusyConsumer, BusyState, producer_busy, consumer_busy, producer_turn, consumer_turn,
  busy_start,
}

-- Between its test and its store the producer finds room, and the consumer an item.
abbrev pub HasRoom : BusyProducer → ℕ → Type 0
HasRoom BusyProducer.test_full counter = Unit
HasRoom (BusyProducer.store_counter n) counter = n < max_buf
HasRoom _ counter = counter < max_buf

abbrev pub HasItem : BusyConsumer → ℕ → Type 0
HasItem BusyConsumer.test_empty counter = Unit
HasItem (BusyConsumer.store_counter n) counter = (0 < n) × (n ≤ max_buf)
HasItem _ counter = 0 < counter

-- 1 within a round, 0 at its first test.
abbrev pub p_round : BusyProducer → ℕ
p_round BusyProducer.test_full = 0
p_round _ = 1

abbrev pub c_round : BusyConsumer → ℕ
c_round BusyConsumer.test_empty = 0
c_round _ = 1

pub record InRange (s : BusyState) : Type 0 where
  pub few_produced : s.produced + p_round s.producer ≤ nloops
  pub few_consumed : s.consumed + c_round s.consumer ≤ nloops
  pub counter_le : s.shared.counter ≤ max_buf
  pub room : HasRoom s.producer s.shared.counter
  pub item : HasItem s.consumer s.shared.counter
  pub size : length s.shared.buf ≡ max_buf
  pub in_at : s.shared.in_idx < max_buf
  pub out_at : s.shared.out_idx < max_buf

pub keep_producer :
    (items : ℕ → ℕ) (p : BusyProducer) (c : BusyConsumer) (s t : BusyState)
    → producer_busy items p s ≡ some t
    → s.producer ≡ p
    → s.consumer ≡ c
    → InRange s
    → InRange t
unfolding producer_busy
keep_producer items BusyProducer.write_item c s t e pe ce v = record {
  few_produced = ground (arith, v.few_produced);
  few_consumed = ground (arith, v.few_consumed);
  counter_le = ground (arith, v.counter_le);
  room = ground (arith, v.room);
  item = ground (arith, v.item);
  size = ground (arith, length-set s.shared.buf s.shared.in_idx (items s.produced), v.size);
  in_at = ground (arith, v.in_at);
  out_at = ground (arith, v.out_at);
}
keep_producer items _ BusyConsumer.test_empty s t e pe ce v = record {
  few_produced = ground (arith, v.few_produced);
  few_consumed = ground (arith, v.few_consumed);
  counter_le = ground (arith, v.counter_le, v.room);
  room = ground (arith, v.room, v.counter_le);
  item = ground (arith, v.item);
  size = ground (arith, v.size);
  in_at = ground (arith, v.in_at);
  out_at = ground (arith, v.out_at);
}
keep_producer items _ _ s t e pe ce v = record {
  few_produced = ground (arith, v.few_produced);
  few_consumed = ground (arith, v.few_consumed);
  counter_le = ground (arith, v.counter_le, v.room);
  room = ground (arith, v.room, v.counter_le);
  item = ground (arith, v.item);
  size = ground (arith, v.size);
  in_at = ground (arith, v.in_at);
  out_at = ground (arith, v.out_at);
}

pub keep_consumer :
    (p : BusyProducer) (c : BusyConsumer) (s t : BusyState)
    → consumer_busy c s ≡ some t
    → s.producer ≡ p
    → s.consumer ≡ c
    → InRange s
    → InRange t
unfolding consumer_busy
keep_consumer BusyProducer.test_full BusyConsumer.test_empty s t e pe ce v = record {
  few_produced = ground (arith, v.few_produced);
  few_consumed = ground (arith, v.few_consumed);
  counter_le = ground (arith, v.counter_le, v.item);
  room = ground (arith, v.room, v.item);
  item = ground (arith, v.item, v.counter_le);
  size = ground (arith, v.size);
  in_at = ground (arith, v.in_at);
  out_at = ground (arith, v.out_at);
}
keep_consumer _ _ s t e pe ce v = record {
  few_produced = ground (arith, v.few_produced);
  few_consumed = ground (arith, v.few_consumed);
  counter_le = ground (arith, v.counter_le, v.item);
  room = ground (arith, v.room, v.item);
  item = ground (arith, v.item, v.counter_le);
  size = ground (arith, v.size);
  in_at = ground (arith, v.in_at);
  out_at = ground (arith, v.out_at);
}

pub InRange-start : InRange busy_start
InRange-start = record {
  few_produced = omega arith;
  few_consumed = omega arith;
  counter_le = omega arith;
  room = tt;
  item = tt;
  size = refl;
  in_at = omega arith;
  out_at = omega arith;
}

-- What `prodcons_t.c` can reach.
abbrev pub BusyRun : (ℕ → ℕ) → ℕ → BusyState → Type 0
BusyRun items n s = Run (producer_turn items) consumer_turn busy_start n s

Run-InRange : (items : ℕ → ℕ) {n : ℕ} {s : BusyState} → BusyRun items n s → InRange s
Run-InRange items r =
    Run-keeps (producer_turn items) consumer_turn InRange
      (λ s t e v. keep_producer items s.producer s.consumer s t e refl refl v)
      (λ s t e v. keep_consumer s.producer s.consumer s t e refl refl v) InRange-start r

-- Although updates of the counter may be lost, it stays between 0 and the size of the buffer, the
-- consumer never stores a decrement of 0, and both indices stay inside the buffer.
pub busy_bounds :
    (items : ℕ → ℕ) {n : ℕ} {s : BusyState}
    → BusyRun items n s
    → (s.shared.counter ≤ max_buf)
      × HasItem s.consumer s.shared.counter
      × (s.shared.in_idx < length s.shared.buf)
      × (s.shared.out_idx < length s.shared.buf)
busy_bounds items {n} {s} r =
    let v = Run-InRange items r in
    (v.counter_le, v.item, omega (arith, v.size, v.in_at), omega (arith, v.size, v.out_at))

-- How it ends: both threads have finished; or one has, and the counter, after lost updates, keeps the
-- other waiting busily.
pub data BusyEnd (s : BusyState) : Type 0 where
  both_done : s.produced ≡ nloops → s.consumed ≡ nloops → BusyEnd s
  consumer_waits : s.produced ≡ nloops → s.consumed < nloops → s.shared.counter ≡ 0 → BusyEnd s
  producer_waits :
      s.consumed ≡ nloops → s.produced < nloops → s.shared.counter ≡ max_buf → BusyEnd s

done_or : (n : ℕ) → n ≤ nloops → (n ≡ nloops) ⊎ (n < nloops)
done_or n h = ground arith

pub stuck_at :
    (items : ℕ → ℕ) (p : BusyProducer) (c : BusyConsumer) (s : BusyState)
    → s.producer ≡ p
    → s.consumer ≡ c
    → InRange s
    → producer_busy items p s ≡ none
    → consumer_busy c s ≡ none
    → BusyEnd s
unfolding producer_busy consumer_busy
stuck_at items BusyProducer.test_full BusyConsumer.test_empty s pe ce v pn cn =
    elim (done_or (s.produced) (ground (arith, v.few_produced))) [
      | inl p ↦ elim (done_or (s.consumed) (ground (arith, v.few_consumed))) [
        | inl c ↦ both_done p c
        | inr c ↦ consumer_waits p c (ground arith)
      ]
      | inr p ↦ elim (done_or (s.consumed) (ground (arith, v.few_consumed))) [
        | inl c ↦ producer_waits c p (ground arith)
        | inr c ↦ absurd (ground arith)
      ]
    ]
stuck_at items _ _ s pe ce v pn cn = absurd (ground arith)

-- No deadlock of both: one of the threads can go on, or has finished; the other one waits only for a
-- counter that stays as it is.
pub busy_end :
    (items : ℕ → ℕ) {n : ℕ} {s : BusyState}
    → BusyRun items n s
    → ((t : BusyState) × Step (producer_turn items) consumer_turn s t) ⊎ BusyEnd s
busy_end items {n} {s} r = elim (Step-or_stuck (producer_turn items) consumer_turn s) [
  | inl more ↦ inl more
  | inr stuck ↦
      inr (stuck_at items s.producer s.consumer s refl refl (Run-InRange items r) stuck.0 stuck.1)
]
