-- ===== src/Monitor/Laws.antt =====
-- prodcons_m.c: what holds of every interleaving of its threads, spurious wake-ups included.
use linux_system_programming.Prelude.{
  ℕ, ◌+◌, ◌≤◌, ◌<◌, ◌≡◌, refl, ap₂, ◌∙◌, false, none, length, arith, inl, inr, ◌⊎◌, Option-cases,
}
use linux_system_programming.ProdCons.{max_buf, nloops}
use linux_system_programming.ProdCons.Inv.{first_items}
use linux_system_programming.Monitor.{
  MonitorState, ProducerAt, ConsumerAt, producer_step, consumer_step, Turn, produce, consume,
  Reachable,
}
use linux_system_programming.Monitor.Inv.{Inv, p_holds, c_holds, c_read, as_number, p_room, c_item}
use linux_system_programming.Monitor.Keep.{Reachable-Inv}

-- Both threads have left their loops.
pub record IsDone (s : MonitorState) : Type 0 where
  pub all_produced : s.produced ≡ nloops
  pub all_consumed : s.consumed ≡ nloops
  pub producer_left : s.producer ≡ ProducerAt.lock
  pub consumer_left : s.consumer ≡ ConsumerAt.lock

-- The mutex is locked exactly when one thread stands between taking it and giving it back, and two
-- never do.
pub mutex_holders :
    (items : ℕ → ℕ) (s : MonitorState)
    → Reachable items s
    → p_holds s.producer + c_holds s.consumer ≡ as_number s.locked
mutex_holders items s r = (Reachable-Inv items r).mutex

-- In every reachable state the consumer has read the items of the first rounds, in order, none lost
-- and none twice.
pub monitor_fifo :
    (items : ℕ → ℕ) (s : MonitorState)
    → Reachable items s
    → s.got ≡ first_items items (s.consumed + c_read s.consumer)
monitor_fifo items s r = (Reachable-Inv items r).fifo

-- From its test to the end of its store the producer has a free slot, and the consumer has an item in
-- the buffer; the counter and the two indices stay within the buffer.
pub slots_ready :
    (items : ℕ → ℕ) (s : MonitorState)
    → Reachable items s
    → (s.shared.counter + p_room s.producer ≤ max_buf)
      × (c_item s.consumer ≤ s.shared.counter)
      × (s.shared.in_idx < length s.shared.buf)
      × (s.shared.out_idx < length s.shared.buf)
slots_ready items s r =
    let v = Reachable-Inv items r in
    (v.room, v.item, omega (arith, v.size, v.in_at), omega (arith, v.size, v.out_at))

never_stuck_at :
    (items : ℕ → ℕ) (s : MonitorState) (p : ProducerAt) (c : ConsumerAt)
    → s.producer ≡ p
    → s.consumer ≡ c
    → Inv items s
    → producer_step items p s ≡ none
    → consumer_step c s ≡ none
    → IsDone s
unfolding producer_step consumer_step
never_stuck_at items s _ _ pe ce v pn cn = ground arith

-- No wake-up is lost: in every reachable state a thread can go on with its own code, without a
-- spurious wake-up, or both have finished.
pub never_stuck :
    (items : ℕ → ℕ) (s : MonitorState)
    → Reachable items s
    → ((t : MonitorState) × Turn items s t) ⊎ IsDone s
never_stuck items s r = elim (Option-cases (producer_step items s.producer s)) [
  | inr (t, e) ↦ inl (t, produce e)
  | inl stuck_p ↦ elim (Option-cases (consumer_step s.consumer s)) [
    | inr (t, e) ↦ inl (t, consume e)
    | inl stuck_c ↦ inr (
        never_stuck_at items s s.producer s.consumer refl refl (Reachable-Inv items r) stuck_p
          stuck_c)
  ]
]

-- When both threads have finished, the consumer has read all items in order, the buffer is empty and
-- the mutex is free.
pub monitor_result :
    (items : ℕ → ℕ) (s : MonitorState)
    → Reachable items s
    → IsDone s
    → (s.got ≡ first_items items nloops) × (s.shared.counter ≡ 0) × (s.locked ≡ false)
monitor_result items s r d =
    let v = Reachable-Inv items r in
    (
      v.fifo ∙ ap₂ (λ n pc. first_items items (n + c_read pc)) d.all_consumed d.consumer_left,
      ground (arith, v.count, d.all_produced),
      ground (arith, v.mutex, d.producer_left),
    )
