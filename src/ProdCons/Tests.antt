-- ===== src/ProdCons/Tests.antt =====
-- prodcons_s.c, run step by step.
use linux_system_programming.Prelude.{
  ℕ, suc, ◌+◌, ◌*◌, ◌≤◌, ◌≡◌, refl, Bool, true, false, Option, none, some, List, [], ◌∷◌, ◌⊎◌, ◌↔◌,
}
use linux_system_programming.ProdCons.{
  System, producer_at, consumer_at, Step, produce, consume, start,
}
use linux_system_programming.ProdCons.Inv.{p_inside, c_inside, c_read, first_items}
use linux_system_programming.ProdCons.Progress.{
  IsFinished, Run, begin, more, Run-Reach, mutual_exclusion, fifo_order, deadlock_free, run_length,
  run_completes,
}

-- The data of round `n`.
abbrev tens : ℕ → ℕ
tens n = n * 10

-- A run of some length.
abbrev Trace : Type 0
Trace = (n : ℕ) × (s : System) × Run tens n s

step_producer :
    (n : ℕ) (s : System)
    → Run tens n s
    → (o : Option System) → producer_at tens s.producer s ≡ o
    → Trace
step_producer n s r none e = (n, s, r)
step_producer n s r (some t) e = (suc n, t, more r (produce e))

step_consumer :
    (n : ℕ) (s : System) → Run tens n s → (o : Option System) → consumer_at s.consumer s ≡ o → Trace
step_consumer n s r none e = (n, s, r)
step_consumer n s r (some t) e = (suc n, t, more r (consume e))

-- The threads take turns as the list says, the producer at `true`.
schedule : List Bool → Trace → Trace
unfolding step_producer step_consumer
schedule [] (n, s, r) = (n, s, r)
schedule (true ∷ turns) (n, s, r) =
    schedule turns (step_producer n s r (producer_at tens s.producer s) refl)
schedule (false ∷ turns) (n, s, r) =
    schedule turns (step_consumer n s r (consumer_at s.consumer s) refl)

-- Two items are in the buffer, and the consumer, inside its critical section, has read the first.
abbrev midway : Trace
midway =
    schedule
      (true ∷ true ∷ true ∷ true ∷ true ∷ true ∷ true ∷ true ∷ true ∷ true ∷ true ∷ true ∷ true
        ∷ true ∷ true ∷ true ∷ false ∷ false ∷ false ∷ [])
      (0, start, begin)

midway-got : midway.1.got ≡ 0 ∷ []
unfolding schedule producer_at consumer_at
midway-got = refl

mutual_exclusion_example : p_inside midway.1.producer + c_inside midway.1.consumer ≤ 1
mutual_exclusion_example = mutual_exclusion tens midway.1 (Run-Reach tens midway.2)

fifo_order_example : midway.1.got ≡ first_items tens (midway.1.consumed + c_read midway.1.consumer)
fifo_order_example = fifo_order tens midway.1 (Run-Reach tens midway.2)

deadlock_free_example : ((t : System) × Step tens midway.1 t) ⊎ IsFinished midway.1
deadlock_free_example = deadlock_free tens midway.1 (Run-Reach tens midway.2)

run_length_example : (midway.0 ≤ 320) × ((midway.0 ≡ 320) ↔ IsFinished midway.1)
run_length_example = run_length tens midway.0 midway.1 midway.2

-- The end of a run that starts midway.
abbrev ended : (t : System) × Run tens 320 t × IsFinished t
ended = run_completes tens midway.0 midway.1 midway.2
