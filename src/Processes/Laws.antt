-- ===== src/Processes/Laws.antt =====
-- producer_s.c and consumer_s.c: what holds whenever the processes are started, and how they end.
use linux_system_programming.Prelude.{
  ℕ, ◌+◌, ◌≤◌, ◌≡◌, refl, none, some, Option, ◌⊎◌, inl, inr, arith,
}
use linux_system_programming.Prelude.Threads.{Run, Step, Step-or_stuck}
use linux_system_programming.ProdCons.{
  System, ProducerPc, ConsumerPc, producer_at, consumer_at, nloops, max_buf,
}
use linux_system_programming.ProdCons.Inv.{Inv, p_inside, c_inside, c_read, first_items}
use linux_system_programming.ProdCons.Keep.{Reach-Inv}
use linux_system_programming.ProdCons.Progress.{IsFinished, fifo_order, mutual_exclusion}
use linux_system_programming.Processes.{
  Setup, set_up, ProcessState, in_system, producer_process, consumer_setup, consumer_process,
  process_start,
}
use linux_system_programming.Processes.Lift.{lifted, HeldUp, Run-Simulated}

-- Before producer_s.c removes the semaphores, whenever either process is started: the consumer reads the producer's items in order, none lost and
-- none twice, and the processes are never both in their critical sections.
pub processes_in_order :
    (items : ℕ → ℕ) {n : ℕ} {s : ProcessState}
    → Run (producer_process items) consumer_process process_start n s
    → (s.system.got ≡ first_items items (s.system.consumed + c_read s.system.consumer))
      × (p_inside s.system.producer + c_inside s.system.consumer ≤ 1)
processes_in_order items {n} {s} r =
    let v = Run-Simulated items r in
    (fifo_order items (lifted s) v.reach, mutual_exclusion items (lifted s) v.reach)

-- Neither process can go on: both have left their loops; or one unit was wiped out, and the consumer
-- waits for the last item; or both were, and each waits for the other.
pub data HasStopped (s : ProcessState) : Type 0 where
  all_done : s.wiped ≡ 0 → IsFinished s.system → HasStopped s
  last_missing :
      s.wiped ≡ 1 → s.system.produced ≡ nloops → s.system.consumed + 1 ≡ nloops → HasStopped s
  none_taken :
      s.wiped ≡ max_buf → s.system.produced ≡ max_buf → s.system.consumed ≡ 0 → HasStopped s

in_system-none : (s : ProcessState) (o : Option System) → in_system s o ≡ none → o ≡ none
in_system-none s none e = refl
in_system-none s (some t) e = absurd (ground arith)

le_one : (n : ℕ) → n ≤ 1 → (n ≡ 0) ⊎ (n ≡ 1)
le_one n h = ground arith

-- The cases, for the places of the two processes.
stopped_at :
    (items : ℕ → ℕ) (s : ProcessState) (p : ProducerPc) (c : ConsumerPc)
    → s.system.producer ≡ p
    → s.system.consumer ≡ c
    → s.setup ≡ set_up
    → Inv items (lifted s)
    → HeldUp set_up s
    → producer_at items p s.system ≡ none
    → consumer_at c s.system ≡ none
    → HasStopped s
unfolding producer_at consumer_at
stopped_at items s ProducerPc.wait_empty ConsumerPc.wait_full pe ce up v h pn cn = elim h [
  | inr (w, zero_read) ↦ none_taken w (ground (arith, v.empty, v.full)) zero_read
  | inl few ↦ elim (le_one s.wiped few) [
    | inl zero ↦ all_done zero (record {
      all_produced = ground (arith, v.empty, v.full, v.few_produced);
      all_consumed = ground (arith, v.empty, v.full, v.few_produced);
      producer_idle = pe;
      consumer_idle = ce;
    })
    | inr one ↦
        last_missing one (ground (arith, v.empty, v.full, v.few_produced))
          (ground (arith, v.empty, v.full, v.few_produced))
  ]
]
stopped_at items s _ _ pe ce up v h pn cn = absurd (ground (arith, v.mutex))

-- Past the set-up, which no process waits in.
stopped_setup :
    (items : ℕ → ℕ) (at : Setup) (s : ProcessState)
    → s.setup ≡ at
    → Inv items (lifted s)
    → HeldUp at s
    → producer_at items s.system.producer s.system ≡ none
    → consumer_setup at s ≡ none
    → HasStopped s
unfolding consumer_setup
stopped_setup items set_up s up v h pn cn =
    stopped_at items s s.system.producer s.system.consumer refl refl up v h pn
      (in_system-none s (consumer_at s.system.consumer s.system) cn)
stopped_setup items _ s up v h pn cn = absurd (ground arith)

-- Before producer_s.c removes the semaphores, whenever the processes are started: one of them can go on, or both have left their loops, or the
-- consumer's `semInitValue(fullSemid, 0)` has wiped out the units of items that were in the buffer. With
-- one such unit the consumer waits for its last item, with two the processes wait for each other from
-- the third item on.
pub processes_end :
    (items : ℕ → ℕ) {n : ℕ} {s : ProcessState}
    → Run (producer_process items) consumer_process process_start n s
    → ((t : ProcessState) × Step (producer_process items) consumer_process s t) ⊎ HasStopped s
processes_end items {n} {s} r = elim (Step-or_stuck (producer_process items) consumer_process s) [
  | inl more ↦ inl more
  | inr stuck ↦
      let v = Run-Simulated items r in
      inr (
        stopped_setup items s.setup s refl (Reach-Inv items v.reach) v.held
          (in_system-none s (producer_at items s.system.producer s.system) stuck.0) stuck.1)
]
