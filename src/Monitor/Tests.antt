-- ===== src/Monitor/Tests.antt =====
-- prodcons_m.c, run step by step.
use linux_system_programming.Prelude.{
  ℕ, zero, suc, ◌+◌, ◌*◌, ◌≡◌, refl, Bool, true, false, Option, none, some, List, [], ◌∷◌, ◌⊎◌,
  replicate, ◌++◌,
}
use linux_system_programming.ProdCons.Inv.{first_items}
use linux_system_programming.Monitor.{
  MonitorState, producer_step, consumer_step, Turn, produce, consume, monitor_start, Reachable,
  here, next, signal_not_empty, signal_not_full, spurious_consumer,
}
use linux_system_programming.Monitor.Inv.{c_read}
use linux_system_programming.Monitor.Laws.{IsDone, monitor_fifo, never_stuck}

-- The data of round `n`.
abbrev tens : ℕ → ℕ
tens n = n * 10

-- A state with how it is reached.
abbrev Trace : Type 0
Trace = (s : MonitorState) × Reachable tens s

producer_turn :
    (s : MonitorState)
    → Reachable tens s
    → (o : Option MonitorState) → producer_step tens s.producer s ≡ o
    → Trace
producer_turn s r none e = (s, r)
producer_turn s r (some t) e = (t, next r (produce e))

consumer_turn :
    (s : MonitorState)
    → Reachable tens s
    → (o : Option MonitorState) → consumer_step s.consumer s ≡ o
    → Trace
consumer_turn s r none e = (s, r)
consumer_turn s r (some t) e = (t, next r (consume e))

-- The threads take turns as the list says, the producer at `true`.
schedule : List Bool → Trace → Trace
unfolding producer_turn consumer_turn
schedule [] (s, r) = (s, r)
schedule (true ∷ turns) (s, r) =
    schedule turns (producer_turn s r (producer_step tens s.producer s) refl)
schedule (false ∷ turns) (s, r) =
    schedule turns (consumer_turn s r (consumer_step s.consumer s) refl)

-- The consumer finds the buffer empty and sleeps.
abbrev sleeping : Trace
sleeping = schedule (replicate 2 false) (monitor_start, here)

-- It wakes without a signal; then the producer fills the buffer and sleeps, and the consumer, which has
-- taken the mutex and found the buffer filled, reads an item.
abbrev midway : Trace
unfolding schedule producer_step consumer_step
midway =
    schedule (replicate 2 false ++ replicate 18 true ++ replicate 3 false)
      (_, spurious_consumer sleeping.1 refl)

midway-got : midway.0.got ≡ 0 ∷ []
unfolding schedule producer_step consumer_step signal_not_empty signal_not_full
midway-got = refl

monitor_fifo_example :
    midway.0.got ≡ first_items tens (midway.0.consumed + c_read midway.0.consumer)
monitor_fifo_example = monitor_fifo tens midway.0 midway.1

never_stuck_example : ((t : MonitorState) × Turn tens midway.0 t) ⊎ IsDone midway.0
never_stuck_example = never_stuck tens midway.0 midway.1

-- `n` rounds in which each thread makes an item's steps without sleeping.
rounds : ℕ → List Bool
rounds zero = []
rounds (suc n) = replicate 8 true ++ replicate 8 false ++ rounds n

abbrev ended : Trace
ended = schedule (rounds 20) (monitor_start, here)

ended-IsDone : IsDone ended.0
unfolding schedule rounds producer_step consumer_step signal_not_empty signal_not_full
ended-IsDone = record {
  all_produced = refl;
  all_consumed = refl;
  producer_left = refl;
  consumer_left = refl;
}
