-- ===== src/Processes/Tests.antt =====
-- producer_s.c and consumer_s.c, run step by step.
use linux_system_programming.Prelude.{
  ℕ, zero, suc, ◌+◌, ◌*◌, ◌≡◌, refl, true, false, Bool, none, List, [], ◌∷◌, ◌++◌, ◌⊎◌, replicate,
}
use linux_system_programming.Prelude.Threads.{Step, begin, Trace, schedule}
use linux_system_programming.ProdCons.{producer_at, consumer_at}
use linux_system_programming.Processes.{
  producer_process, consumer_process, consumer_setup, process_start,
}
use linux_system_programming.ProdCons.Inv.{first_items, c_read}
use linux_system_programming.Processes.Removal.{
  Removal, producer_removes, consumer_misses, producer_ending, consumer_ending, removal_start,
}
use linux_system_programming.Processes.Removal.Laws.{HasEnded, removal_end}

abbrev tens : ℕ → ℕ
tens n = n * 10

-- The producer has put two items before the consumer sets the third semaphore.
abbrev overtaken : Trace (producer_process tens) consumer_process process_start
overtaken =
    schedule (producer_process tens) consumer_process process_start
      (replicate 2 false ++ replicate 16 true ++ (false ∷ [])) (0, process_start, begin)

overtaken-wiped : (overtaken.1.wiped ≡ 2) × (overtaken.1.system.produced ≡ 2)
unfolding schedule producer_at consumer_at consumer_setup
overtaken-wiped = (refl, refl)

-- The consumer reads the first item while the second one is in the buffer.
abbrev reading : Trace (producer_process tens) consumer_process process_start
reading =
    schedule (producer_process tens) consumer_process process_start
      (replicate 3 false ++ replicate 16 true ++ replicate 12 false) (0, process_start, begin)

reading-got : reading.1.system.got ≡ 0 ∷ 10 ∷ []
unfolding schedule producer_at consumer_at consumer_setup
reading-got = refl

-- Rounds of the producer and the consumer in turn.
abbrev rounds : ℕ → List Bool
rounds zero = []
rounds (suc n) = replicate 8 true ++ (replicate 8 false ++ rounds n)

-- One unit is wiped out in the set-up, and the consumer waits for its last item when the semaphores are
-- removed.
abbrev cut : Trace (producer_ending tens) consumer_ending removal_start
cut =
    schedule (producer_ending tens) consumer_ending removal_start
      (replicate 2 false
        ++ (replicate 8 true ++ (false ∷ []))
        ++ rounds 19
        ++ replicate 3 true
        ++ (false ∷ []))
      (0, removal_start, begin)

cut-failed :
    (cut.1.failed ≡ true)
    × (cut.1.processes.system.produced ≡ 20)
    × (cut.1.processes.system.consumed ≡ 19)
    × (producer_ending tens cut.1 ≡ none)
    × (consumer_ending cut.1 ≡ none)
unfolding schedule producer_at consumer_at consumer_setup producer_removes consumer_misses
cut-failed = (refl, refl, refl, refl, refl)

removal_end_example :
    (cut.1.processes.system.got
      ≡ first_items tens (cut.1.processes.system.consumed + c_read cut.1.processes.system.consumer))
    × (((t : Removal) × Step (producer_ending tens) consumer_ending cut.1 t) ⊎ HasEnded tens cut.1)
removal_end_example = removal_end tens cut.2
