-- ===== src/Mipc/Tests.antt =====
-- mipc.c, run step by step.
use linux_system_programming.Prelude.{
  ℕ, zero, suc, ◌+◌, ◌-◌, ◌≡◌, refl, Bool, true, false, Option, none, some, List, [], ◌∷◌, ◌++◌,
  replicate,
}
use linux_system_programming.Mipc.{
  Family, parent_said, wait_child, wait_parent, parent_step, child_step, parent_moves, child_moves,
  forked, Reached, here, next,
}
use linux_system_programming.Mipc.Inv.{unprinted, count_up}
use linux_system_programming.Mipc.Laws.{printed_in_turn, HaveLeft}

-- A state with how it is reached.
abbrev Trace : Type 0
Trace = (s : Family) × Reached s

parent_turn : (s : Family) → Reached s → (o : Option Family) → parent_step s.parent s ≡ o → Trace
parent_turn s r none e = (s, r)
parent_turn s r (some t) e = (t, next r (parent_moves e))

child_turn : (s : Family) → Reached s → (o : Option Family) → child_step s.child s ≡ o → Trace
child_turn s r none e = (s, r)
child_turn s r (some t) e = (t, next r (child_moves e))

-- The processes take turns as the list says, the parent at `true`.
schedule : List Bool → Trace → Trace
unfolding parent_turn child_turn
schedule [] (s, r) = (s, r)
schedule (true ∷ turns) (s, r) = schedule turns (parent_turn s r (parent_step s.parent s) refl)
schedule (false ∷ turns) (s, r) = schedule turns (child_turn s r (child_step s.child s) refl)

-- The child has counted 1 and not yet printed it.
abbrev midway : Trace
midway = schedule (replicate 5 true ++ replicate 4 false) (forked, here)

midway-printed : midway.0.printed ≡ parent_said 0 ∷ []
unfolding schedule parent_step child_step wait_child wait_parent
midway-printed = refl

printed_in_turn_example :
    midway.0.printed
    ≡ count_up (midway.0.area - (unprinted midway.0.parent + unprinted midway.0.child))
printed_in_turn_example = printed_in_turn midway.0 midway.1

-- `n` rounds of both, the parent first.
rounds : ℕ → List Bool
rounds zero = []
rounds (suc n) = replicate 6 true ++ replicate 6 false ++ rounds n

abbrev ended : Trace
ended = schedule (rounds 7) (forked, here)

ended-HaveLeft : HaveLeft ended.0
unfolding schedule rounds parent_step child_step wait_child wait_parent
ended-HaveLeft = record { parent_left = refl; child_left = refl }
