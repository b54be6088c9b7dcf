-- ===== src/ProdCons/Progress.antt =====
-- prodcons_s.c: no deadlock, every run ends, and what has been consumed at the end.
use linux_system_programming.Prelude.{
  ℕ, zero, suc, ◌+◌, ◌*◌, ◌≤◌, ◌<◌, ◌≡◌, refl, ap, ap₂, ◌↔◌, ◌∙◌, subst, none, some, length, arith,
  inl, inr, ◌⊎◌, Option-cases,
}
use linux_system_programming.ProdCons.{
  System, ProducerPc, ConsumerPc, producer_at, consumer_at, Step, produce, consume, start, Reach,
  here, next, max_buf, nloops,
}
use linux_system_programming.ProdCons.Inv.{
  Inv, p_slot, p_inside, p_counted, c_item, c_inside, c_read, first_items,
}
use linux_system_programming.ProdCons.Keep.{Reach-Inv}

-- Both threads have left their loops.
pub record IsFinished (s : System) : Type 0 where
  pub all_produced : s.produced ≡ nloops
  pub all_consumed : s.consumed ≡ nloops
  pub producer_idle : s.producer ≡ ProducerPc.wait_empty
  pub consumer_idle : s.consumer ≡ ConsumerPc.wait_full

-- Mutual exclusion: the threads are never both between `sem_wait(&MutexSem)` and
-- `sem_post(&MutexSem)`.
pub mutual_exclusion :
    (items : ℕ → ℕ) (s : System) → Reach items s → p_inside s.producer + c_inside s.consumer ≤ 1
mutual_exclusion items s r = omega (arith, (Reach-Inv items r).mutex)

-- First in, first out: in every reachable state the consumer has read the items of the first rounds,
-- in order, none lost and none twice.
pub fifo_order :
    (items : ℕ → ℕ) (s : System)
    → Reach items s
    → s.got ≡ first_items items (s.consumed + c_read s.consumer)
fifo_order items s r = (Reach-Inv items r).fifo

p_counted-le : (pc : ProducerPc) → p_counted pc ≤ p_slot pc
p_counted-le ProducerPc.wait_empty = omega arith
p_counted-le _ = omega arith

-- In every reachable state the counter is at most the size of the buffer and both indices lie inside
-- it.
pub buffer_bounds :
    (items : ℕ → ℕ) (s : System)
    → Reach items s
    → (s.shared.counter ≤ max_buf)
      × (s.shared.in_idx < length s.shared.buf)
      × (s.shared.out_idx < length s.shared.buf)
buffer_bounds items s r =
    let v = Reach-Inv items r in
    (
      omega (arith, v.count, v.empty, p_counted-le s.producer),
      omega (arith, v.size, v.in_at),
      omega (arith, v.size, v.out_at),
    )

-- When the consumer is about to store its decrement, what it has loaded is the counter, and is not 0.
pub counter_positive :
    (items : ℕ → ℕ) (s : System) (n : ℕ)
    → Reach items s
    → s.consumer ≡ ConsumerPc.store_counter n
    → (n ≡ s.shared.counter) × (0 < n)
counter_positive items s n r at =
    let v = Reach-Inv items r in ground (arith, v.loaded_c, v.count, v.full)

-- A thread that waits at a semaphore whose value is 0, and neither can go on otherwise.
deadlock_free_pc :
    (items : ℕ → ℕ) (s : System) (p : ProducerPc) (c : ConsumerPc)
    → s.producer ≡ p
    → s.consumer ≡ c
    → Inv items s
    → producer_at items p s ≡ none
    → consumer_at c s ≡ none
    → IsFinished s
unfolding producer_at consumer_at
deadlock_free_pc items s ProducerPc.wait_empty ConsumerPc.wait_full pe ce v pn cn = ground arith
deadlock_free_pc items s _ _ pe ce v pn cn = ground arith

-- No deadlock: in every reachable state some thread can make a step, or both have finished.
pub deadlock_free :
    (items : ℕ → ℕ) (s : System) → Reach items s → ((t : System) × Step items s t) ⊎ IsFinished s
deadlock_free items s r = elim (Option-cases (producer_at items s.producer s)) [
  | inr (t, e) ↦ inl (t, produce e)
  | inl stuck_p ↦ elim (Option-cases (consumer_at s.consumer s)) [
    | inr (t, e) ↦ inl (t, consume e)
    | inl stuck_c ↦ inr (
        deadlock_free_pc items s s.producer s.consumer refl refl (Reach-Inv items r) stuck_p
          stuck_c)
  ]
]

-- When both threads have finished, the consumer has read all items in order, and the buffer and the
-- semaphores are as at the start.
pub finished_result :
    (items : ℕ → ℕ) (s : System)
    → Reach items s
    → IsFinished s
    → (s.got ≡ first_items items nloops)
      × (s.shared.counter ≡ 0)
      × (s.empty_sem ≡ max_buf)
      × (s.full_sem ≡ 0)
      × (s.mutex_sem ≡ 1)
finished_result items s r f =
    let v = Reach-Inv items r in
    (
      v.fifo ∙ ap₂ (λ n pc. first_items items (n + c_read pc)) f.all_consumed f.consumer_idle,
      ground (arith, v.count, f.all_produced),
      ground (arith, v.empty, f.all_produced),
      ground (arith, v.full, f.all_produced),
      ground (arith, v.mutex, f.producer_idle),
    )

-- The steps made in the present round.
abbrev p_place : ProducerPc → ℕ
p_place ProducerPc.wait_empty = 0
p_place ProducerPc.wait_mutex = 1
p_place ProducerPc.write_item = 2
p_place ProducerPc.advance_in = 3
p_place ProducerPc.load_counter = 4
p_place (ProducerPc.store_counter n) = 5
p_place ProducerPc.post_mutex = 6
p_place ProducerPc.post_full = 7

abbrev c_place : ConsumerPc → ℕ
c_place ConsumerPc.wait_full = 0
c_place ConsumerPc.wait_mutex = 1
c_place ConsumerPc.read_item = 2
c_place ConsumerPc.advance_out = 3
c_place ConsumerPc.load_counter = 4
c_place (ConsumerPc.store_counter n) = 5
c_place ConsumerPc.post_mutex = 6
c_place ConsumerPc.post_empty = 7

abbrev steps_made : System → ℕ
steps_made s = 8 * s.produced + p_place s.producer + 8 * s.consumed + c_place s.consumer

-- A run with its number of steps.
pub data Run (items : ℕ → ℕ) : ℕ → System → Type 0 where
  begin : Run items 0 start
  more : {n : ℕ} {s t : System} → Run items n s → Step items s t → Run items (suc n) t

pub Run-Reach : (items : ℕ → ℕ) {n : ℕ} {s : System} → Run items n s → Reach items s
Run-Reach items begin = here
Run-Reach items (more r st) = next (Run-Reach items r) st

produce-counts :
    (items : ℕ → ℕ) (pc : ProducerPc) (s t : System)
    → producer_at items pc s ≡ some t
    → s.producer ≡ pc
    → steps_made t ≡ suc (steps_made s)
unfolding producer_at
produce-counts items ProducerPc.wait_empty s t e at = ground arith
produce-counts items _ s t e at = ground arith

consume-counts :
    (pc : ConsumerPc) (s t : System)
    → consumer_at pc s ≡ some t
    → s.consumer ≡ pc
    → steps_made t ≡ suc (steps_made s)
unfolding consumer_at
consume-counts ConsumerPc.wait_full s t e at = ground arith
consume-counts _ s t e at = ground arith

Step-counts : (items : ℕ → ℕ) {s t : System} → Step items s t → steps_made t ≡ suc (steps_made s)
Step-counts items {s} {t} (produce e) = produce-counts items s.producer s t e refl
Step-counts items {s} {t} (consume e) = consume-counts s.consumer s t e refl

steps_made-Run : (items : ℕ → ℕ) {n : ℕ} {s : System} → Run items n s → steps_made s ≡ n
steps_made-Run items begin = refl
steps_made-Run items (more r st) = Step-counts items st ∙ ap suc (steps_made-Run items r)

p_place-le : (pc : ProducerPc) → p_place pc ≤ 8 * p_slot pc
p_place-le ProducerPc.wait_empty = omega arith
p_place-le _ = omega arith

c_place-le : (pc : ConsumerPc) → c_place pc ≤ 8 * c_item pc
c_place-le ConsumerPc.wait_full = omega arith
c_place-le _ = omega arith

producer_full :
    (pc : ProducerPc) (n : ℕ)
    → 160 ≤ 8 * n + p_place pc
    → n + p_slot pc ≤ nloops
    → (n ≡ nloops) × (pc ≡ ProducerPc.wait_empty)
producer_full ProducerPc.wait_empty n h few = (omega arith, refl)
producer_full _ n h few = absurd (omega arith)

consumer_full :
    (pc : ConsumerPc) (n : ℕ)
    → 160 ≤ 8 * n + c_place pc
    → n + c_item pc ≤ nloops
    → (n ≡ nloops) × (pc ≡ ConsumerPc.wait_full)
consumer_full ConsumerPc.wait_full n h few = (omega arith, refl)
consumer_full _ n h few = absurd (omega arith)

finished_of_steps : (items : ℕ → ℕ) (s : System) → Inv items s → steps_made s ≡ 320 → IsFinished s
finished_of_steps items s v all =
    let p =
      producer_full s.producer s.produced
        (omega (arith, all, v.few_consumed, c_place-le s.consumer)) v.few_produced in
    let c =
      consumer_full s.consumer s.consumed
        (omega (arith, all, v.few_produced, p_place-le s.producer)) v.few_consumed in
    record { all_produced = p.0; all_consumed = c.0; producer_idle = p.1; consumer_idle = c.1 }

-- Every run ends: it has at most 320 steps, and has that many exactly when both threads have
-- finished.
pub run_length :
    (items : ℕ → ℕ) (n : ℕ) (s : System) → Run items n s → (n ≤ 320) × ((n ≡ 320) ↔ IsFinished s)
run_length items n s r =
    let v = Reach-Inv items (Run-Reach items r) in
    let made : steps_made s ≡ n = steps_made-Run items r in
    (
      omega (
        arith,
        made,
        v.few_produced,
        v.few_consumed,
        p_place-le s.producer,
        c_place-le s.consumer,
      ),
      (
        λ all. finished_of_steps items s v (made ∙ all),
        λ f. ground (arith, made, f.all_produced, f.all_consumed, f.producer_idle, f.consumer_idle),
      ),
    )

complete_from :
    (items : ℕ → ℕ) (k n : ℕ) (s : System)
    → Run items n s
    → 320 ≤ n + k
    → (t : System) × Run items 320 t
complete_from items zero n s r enough =
    (s, subst (λ (m : ℕ). Run items m s) (omega (arith, (run_length items n s r).0)) r)
complete_from items (suc k) n s r enough = elim (deadlock_free items s (Run-Reach items r)) [
  | inr finished ↦ (s, subst (λ (m : ℕ). Run items m s) ((run_length items n s r).1.1 finished) r)
  | inl (t, st) ↦ complete_from items k (suc n) t (more r st) (omega arith)
]

-- From every state of a run the threads can go on until both have finished.
pub run_completes :
    (items : ℕ → ℕ) (n : ℕ) (s : System)
    → Run items n s
    → (t : System) × Run items 320 t × IsFinished t
run_completes items n s r =
    let (t, whole) = complete_from items 320 n s r (omega arith) in
    (t, whole, (run_length items 320 t whole).1.0 refl)
