-- ===== src/Sipc/Tests.antt =====
-- sipc3.c and sipc4.c, run step by step: thread 1 answers thread 2.
use linux_system_programming.Prelude.{◌≡◌, refl, none, true, false, [], ◌∷◌, ◌++◌, ◌⊎◌, replicate}
use linux_system_programming.Prelude.Threads.{Step, begin, Trace, schedule}
use linux_system_programming.Sipc.{blank, request, reply}
use linux_system_programming.Sipc.Semaphores.{
  sipc1_at, sipc2_at, answer_step, ask_step, exchange_start,
}
use linux_system_programming.Sipc.Started.{
  answer_at, answer_process, ask_process, started, Ending, sipc1_ending, sipc1_process,
  sipc2_process, ending_start,
}
use linux_system_programming.Sipc.Started.Exit.{AtMost, HasEnded, exchange_ends_or_lost}
use linux_system_programming.Sipc.Condition.{
  Talk, Sipc1Place, wake1, wake2, sipc1_place, sipc2_place, answer_talk, ask_talk, talk_start,
}

-- The request has been printed.
abbrev exchanged : Trace (answer_step 1) (ask_step 2) exchange_start
exchanged =
    schedule (answer_step 1) (ask_step 2) exchange_start
      (replicate 2 true ++ replicate 6 false ++ replicate 3 true) (0, exchange_start, begin)

exchanged-printed : exchanged.1.printed1 ≡ request 2 ∷ []
unfolding schedule sipc1_at sipc2_at
exchanged-printed = refl

-- `Sipc1` sleeps, `Sipc2` fills the array and sleeps, and `Sipc1` prints the request.
abbrev talked : Trace (answer_talk 1) (ask_talk 2) talk_start
talked =
    schedule (answer_talk 1) (ask_talk 2) talk_start
      (replicate 2 true ++ replicate 5 false ++ replicate 2 true) (0, talk_start, begin)

talked-printed : talked.1.printed1 ≡ request 2 ∷ []
unfolding schedule sipc1_place sipc2_place wake1
talked-printed = refl

-- `Sipc1` alone: it sleeps, wakes without a signal, prints the blank array and returns.
abbrev sleeping : Trace (answer_talk 1) (ask_talk 2) talk_start
sleeping =
    schedule (answer_talk 1) (ask_talk 2) talk_start (replicate 2 true) (0, talk_start, begin)

abbrev woken : Talk
woken = record sleeping.1 { sipc1 = Sipc1Place.relock }

abbrev gone : Trace (answer_talk 1) (ask_talk 2) woken
gone = schedule (answer_talk 1) (ask_talk 2) woken (replicate 6 true) (0, woken, begin)

gone-printed : gone.1.printed1 ≡ blank ∷ []
unfolding schedule sipc1_place wake2
gone-printed = refl

-- `Sipc2` asks, and sleeps.
abbrev asked : Trace (answer_talk 1) (ask_talk 2) gone.1
asked = schedule (answer_talk 1) (ask_talk 2) gone.1 (replicate 9 false) (0, gone.1, begin)

-- sipc2.c is started first, and sends its request as soon as the semaphores have their values.
abbrev asked_first : Trace (answer_process 1) (ask_process 2) started
asked_first =
    schedule (answer_process 1) (ask_process 2) started
      (replicate 2 false
        ++ (true ∷ false ∷ true ∷ true ∷ [])
        ++ replicate 6 false
        ++ replicate 6 true
        ++ replicate 2 false)
      (0, started, begin)

asked_first-printed :
    (asked_first.1.exchange.printed1 ≡ request 2 ∷ [])
    × (asked_first.1.exchange.printed2 ≡ reply 1 ∷ [])
unfolding schedule sipc1_at sipc2_at answer_at
asked_first-printed = (refl, refl)

-- The same, but that sipc1.c exits at once when it has returned.
abbrev exited_first : Trace (sipc1_process 1) (sipc2_process 2) ending_start
exited_first =
    schedule (sipc1_process 1) (sipc2_process 2) ending_start
      (replicate 3 true ++ replicate 6 false ++ replicate 7 true ++ replicate 2 false)
      (0, ending_start, begin)

-- sipc2.c waits for ever.
exited_first-lost :
    (exited_first.1.state.exchange.printed2 ≡ [])
    × (sipc1_process 1 exited_first.1 ≡ none)
    × (sipc2_process 2 exited_first.1 ≡ none)
unfolding schedule sipc1_at sipc2_at answer_at sipc1_ending
exited_first-lost = (refl, refl, refl)

exchange_ends_or_lost_example :
    AtMost (request 2) exited_first.1.state.exchange.printed1
    × AtMost (reply 1) exited_first.1.state.exchange.printed2
    × (((t : Ending) × Step (sipc1_process 1) (sipc2_process 2) exited_first.1 t)
        ⊎ HasEnded 1 2 exited_first.1)
exchange_ends_or_lost_example = exchange_ends_or_lost 1 2 exited_first.2
