-- ===== src/Mipc/Laws.antt =====
-- mipc.c: the two processes alternate, none is stuck, and what holds at the end.
use linux_system_programming.Prelude.{
  ℕ, ◌+◌, ◌-◌, ◌≡◌, ◌≢◌, refl, ap, ◌∙◌, none, List, [], ◌∷◌, length, arith, inl, inr, ◌⊎◌,
  Option-cases,
}
use linux_system_programming.Mipc.{
  Place, left, exited, Family, wait_child, wait_parent, parent_step, child_step, Move, parent_moves,
  child_moves, Reached, mipc_loops,
}
use linux_system_programming.Mipc.Inv.{Inv, Reached-Inv, unprinted, count_up, Fits}

Fits-not_exited : (pc : Place) (i area : ℕ) → Fits pc i area → pc ≢ exited
Fits-not_exited pc i area h e = ground arith

-- Neither process ever finds a "Counter mismatch" or a wrong byte in its pipe.
pub no_mismatch : (s : Family) → Reached s → (s.parent ≢ exited) × (s.child ≢ exited)
no_mismatch s r =
    let v = Reached-Inv r in
    (
      Fits-not_exited s.parent s.parent_i s.area v.parent_fits,
      Fits-not_exited s.child s.child_i s.area v.child_fits,
    )

-- The processes alternate: in every reachable state the lines printed are those for 0, 1, 2 and so on, in
-- order, up to the number in the shared memory, the last of which may still have to be printed; the lines for
-- even numbers are the parent's, those for odd numbers the child's.
pub printed_in_turn :
    (s : Family)
    → Reached s
    → s.printed ≡ count_up (s.area - (unprinted s.parent + unprinted s.child))
printed_in_turn s r =
    let v = Reached-Inv r in
    let all : v.count ≡ s.area - (unprinted s.parent + unprinted s.child) =
      omega (arith, v.counted) in
    v.lines ∙ ap count_up all

-- Both processes have left their loops.
pub record HaveLeft (s : Family) : Type 0 where
  pub parent_left : s.parent ≡ left
  pub child_left : s.child ≡ left

stuck_HaveLeft :
    (s : Family) (p c : Place) (to_child to_parent : List ℕ)
    → s.parent ≡ p
    → s.child ≡ c
    → s.pfd1 ≡ to_child
    → s.pfd2 ≡ to_parent
    → Inv s
    → parent_step p s ≡ none
    → child_step c s ≡ none
    → HaveLeft s
unfolding parent_step child_step wait_child wait_parent
stuck_HaveLeft s _ _ [] [] pe ce e1 e2 v pn cn = ground arith
stuck_HaveLeft s _ _ (x ∷ xs) [] pe ce e1 e2 v pn cn = ground arith
stuck_HaveLeft s _ _ [] (y ∷ ys) pe ce e1 e2 v pn cn = ground arith
stuck_HaveLeft s p c (x ∷ xs) (y ∷ ys) pe ce e1 e2 v pn cn = absurd (ground (arith, v.turns))

-- In every reachable state a process can go on, or both have left their loops.
pub turns_go_on : (s : Family) → Reached s → ((t : Family) × Move s t) ⊎ HaveLeft s
turns_go_on s r = elim (Option-cases (parent_step s.parent s)) [
  | inr (t, e) ↦ inl (t, parent_moves e)
  | inl stuck_p ↦ elim (Option-cases (child_step s.child s)) [
    | inr (t, e) ↦ inl (t, child_moves e)
    | inl stuck_c ↦ inr (
        stuck_HaveLeft s s.parent s.child s.pfd1 s.pfd2 refl refl refl refl (Reached-Inv r) stuck_p
          stuck_c)
  ]
]

-- When both have left their loops, the number is `NLOOPS`, all numbers below it have been printed in
-- order, and the pipes are empty.
pub mipc_result :
    (s : Family)
    → Reached s
    → HaveLeft s
    → (s.area ≡ mipc_loops)
      × (s.printed ≡ count_up mipc_loops)
      × (length s.pfd1 + length s.pfd2 ≡ 0)
mipc_result s r d =
    let v = Reached-Inv r in
    let area : s.area ≡ mipc_loops = ground (
      arith, v.added, v.apart, v.even, v.parent_fits, v.child_fits, v.turns, d.parent_left,
      d.child_left,
    ) in
    let all : v.count ≡ mipc_loops = ground (arith, v.counted, area, d.parent_left, d.child_left) in
    (area, v.lines ∙ ap count_up all, ground (arith, v.turns, d.parent_left))
