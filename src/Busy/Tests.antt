-- ===== src/Busy/Tests.antt =====
-- prodcons_t.c, run step by step.
use linux_system_programming.Prelude.{
  ℕ, zero, suc, ◌+◌, ◌*◌, ◌≡◌, refl, true, false, none, some, Option, Bool, leb, arith, List, [],
  ◌∷◌, ◌++◌, replicate,
}
use linux_system_programming.Prelude.Threads.{Step, by_first, by_second, begin, Trace, schedule}
use linux_system_programming.ProdCons.Inv.{first_items}
use linux_system_programming.Busy.{
  BusyState, producer_busy, consumer_busy, producer_turn, consumer_turn, busy_start,
}
use linux_system_programming.Busy.Calm.{
  CalmRun, calm_start, calm_next, c_got, p_updates, c_updates, IsApart, calm_fifo, calm_end,
}
use linux_system_programming.ProdCons.{nloops}

abbrev tens : ℕ → ℕ
tens n = n * 10

-- A round of the producer, then one of the consumer, a number of times.
abbrev rounds : ℕ → List Bool
rounds zero = []
rounds (suc n) = replicate 5 true ++ (replicate 5 false ++ rounds n)

-- The producer stores the second increment while the consumer is about to store its decrement.
abbrev overlapped : Trace (producer_turn tens) consumer_turn busy_start
overlapped =
    schedule (producer_turn tens) consumer_turn busy_start
      (replicate 5 true ++ replicate 4 false ++ replicate 5 true ++ (false ∷ []))
      (0, busy_start, begin)

overlapped-counter :
    (overlapped.1.shared.counter ≡ 0) × (overlapped.1.produced ≡ 2) × (overlapped.1.consumed ≡ 1)
unfolding schedule producer_busy consumer_busy
overlapped-counter = (refl, refl, refl)

-- The other rounds follow one another: the consumer waits for the last item for ever.
abbrev item_left : Trace (producer_turn tens) consumer_turn busy_start
item_left = schedule (producer_turn tens) consumer_turn busy_start (rounds 18) overlapped

item_left-stuck :
    (item_left.1.produced ≡ 20)
    × (item_left.1.consumed ≡ 19)
    × (producer_turn tens item_left.1 ≡ none)
    × (consumer_turn item_left.1 ≡ none)
unfolding schedule producer_busy consumer_busy
item_left-stuck = (refl, refl, refl, refl)

-- A run in which the updates do not overlap.
abbrev CalmTrace : Type 0
CalmTrace = (s : BusyState) × CalmRun tens s

IsApart-test :
    (s : BusyState) → leb (p_updates s.producer + c_updates s.consumer) 1 ≡ true → IsApart s
IsApart-test s h = ground arith

calm_step :
    (s t : BusyState)
    → CalmRun tens s
    → Step (producer_turn tens) consumer_turn s t
    → (b : Bool) → leb (p_updates t.producer + c_updates t.consumer) 1 ≡ b
    → CalmTrace
calm_step s t r st true e = (t, calm_next r st (IsApart-test t e))
calm_step s t r st false e = (s, r)

calm_producer :
    (s : BusyState) → CalmRun tens s → (o : Option BusyState) → producer_turn tens s ≡ o → CalmTrace
unfolding calm_step
calm_producer s r none e = (s, r)
calm_producer s r (some t) e =
    calm_step s t r (by_first e) (leb (p_updates t.producer + c_updates t.consumer) 1) refl

calm_consumer :
    (s : BusyState) → CalmRun tens s → (o : Option BusyState) → consumer_turn s ≡ o → CalmTrace
unfolding calm_step
calm_consumer s r none e = (s, r)
calm_consumer s r (some t) e =
    calm_step s t r (by_second e) (leb (p_updates t.producer + c_updates t.consumer) 1) refl

-- A turn that would make updates overlap is left out.
calm_schedule : List Bool → CalmTrace → CalmTrace
unfolding calm_producer calm_consumer
calm_schedule [] (s, r) = (s, r)
calm_schedule (true ∷ turns) (s, r) =
    calm_schedule turns (calm_producer s r (producer_turn tens s) refl)
calm_schedule (false ∷ turns) (s, r) =
    calm_schedule turns (calm_consumer s r (consumer_turn s) refl)

-- Five items have been read, and the consumer is in its sixth round while the producer writes.
abbrev calm_middle : CalmTrace
calm_middle =
    calm_schedule (rounds 5 ++ replicate 6 true ++ replicate 2 false) (busy_start, calm_start)

calm_middle-got : calm_middle.0.got ≡ 0 ∷ 10 ∷ 20 ∷ 30 ∷ 40 ∷ 50 ∷ []
unfolding calm_schedule producer_busy consumer_busy
calm_middle-got = refl

calm_fifo_example :
    (calm_middle.0.got ≡ first_items tens (calm_middle.0.consumed + c_got calm_middle.0.consumer))
    × (calm_middle.0.shared.counter + calm_middle.0.consumed ≡ calm_middle.0.produced)
calm_fifo_example = calm_fifo tens calm_middle.1

abbrev calm_last : CalmTrace
calm_last = calm_schedule (rounds 20) (busy_start, calm_start)

calm_last-stuck : (producer_turn tens calm_last.0 ≡ none) × (consumer_turn calm_last.0 ≡ none)
unfolding calm_schedule producer_busy consumer_busy
calm_last-stuck = (refl, refl)

calm_end_example : (calm_last.0.produced ≡ nloops) × (calm_last.0.consumed ≡ nloops)
calm_end_example = calm_end tens calm_last.1 calm_last-stuck.0 calm_last-stuck.1
