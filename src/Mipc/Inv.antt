-- ===== src/Mipc/Inv.antt =====
-- mipc.c: what holds in every state that the two processes reach.
use linux_system_programming.Prelude.{
  ℕ, zero, suc, ◌+◌, ◌*◌, ◌%◌, ◌≤◌, ◌<◌, ◌≡◌, refl, ap, some, List, [], ◌∷◌, ◌++◌, length, arith,
  ◌==◌, if◌then◌else◌,
}
use linux_system_programming.Mipc.{
  Said, parent_said, child_said, Place, test, store, compare, tell, wait, left, exited, Family,
  wait_child, wait_parent, parent_step, child_step, Move, parent_moves, child_moves, forked,
  Reached, here, next, mipc_loops,
}

-- Whose turn it is: the parent's at all places but `wait`, the child's from `load` to `tell`.
abbrev pub parent_turn : Place → ℕ
parent_turn wait = 0
parent_turn _ = 1

abbrev pub child_turn : Place → ℕ
child_turn test = 0
child_turn wait = 0
child_turn left = 0
child_turn _ = 1

-- Whether the number has been counted up in this round.
abbrev pub parent_added : Place → ℕ
parent_added (compare n) = 1
parent_added tell = 1
parent_added wait = 1
parent_added _ = 0

abbrev pub child_added : Place → ℕ
child_added (compare n) = 1
child_added tell = 1
child_added _ = 0

-- Counted up and not yet printed.
abbrev pub unprinted : Place → ℕ
unprinted (compare n) = 1
unprinted _ = 0

-- The lines for the numbers below `n`: the parent's for the even ones, the child's for the odd ones.
abbrev pub in_turn : ℕ → Said
in_turn n = if n % 2 == 0 then parent_said n else child_said n

abbrev pub count_up : ℕ → List Said
count_up zero = []
count_up (suc n) = count_up n ++ (in_turn n ∷ [])

-- What a process has loaded fits the number, its counter fits its place, and it has not exited with 1.
abbrev pub Fits : Place → ℕ → ℕ → Type 0
Fits test i area = i ≤ mipc_loops + 1
Fits left i area = (mipc_loops ≤ i) × (i ≤ mipc_loops + 1)
Fits (store n) i area = (n ≡ area) × (i < mipc_loops)
Fits (compare n) i area = (n + 1 ≡ area) × (i < mipc_loops)
Fits exited i area = ⊥
Fits _ i area = i < mipc_loops

-- A pipe that holds nothing but one kind of byte, and the count of its bytes.
abbrev pub Holds : ℕ → List ℕ → Type 0
Holds c [] = Unit
Holds c (x ∷ xs) = (x ≡ c) × Holds c xs

pub record Inv (s : Family) : Type 0 where
  pub turns : length s.pfd1 + length s.pfd2 + parent_turn s.parent + child_turn s.child ≡ 1
  pub added :
      2 * s.area + 1 ≡ s.parent_i + 2 * parent_added s.parent + s.child_i + 2 * child_added s.child
  pub apart : s.child_i ≡ s.parent_i + 1 + 2 * length s.pfd2
  pub even : s.parent_i % 2 ≡ 0
  pub parent_fits : Fits s.parent s.parent_i s.area
  pub child_fits : Fits s.child s.child_i s.area
  pub to_child : Holds b'p' s.pfd1
  pub to_parent : Holds b'c' s.pfd2
  pub count : ℕ
  pub lines : s.printed ≡ count_up count
  pub counted : count + unprinted s.parent + unprinted s.child ≡ s.area

Inv-forked : Inv forked
Inv-forked = record {
  turns = refl;
  added = refl;
  apart = refl;
  even = refl;
  parent_fits = omega arith;
  child_fits = omega arith;
  to_child = tt;
  to_parent = tt;
  count = 0;
  lines = refl;
  counted = refl;
}

Holds-append : (c : ℕ) (xs : List ℕ) → Holds c xs → Holds c (xs ++ (c ∷ []))
Holds-append c [] h = (refl, tt)
Holds-append c (x ∷ xs) h = (h.0, Holds-append c xs h.1)

length-append_one : (c : ℕ) (xs : List ℕ) → length (xs ++ (c ∷ [])) ≡ suc (length xs)
length-append_one c [] = refl
length-append_one c (x ∷ xs) = ap suc (length-append_one c xs)

keep_wait_child :
    (pipe : List ℕ) (s t : Family)
    → wait_child pipe s ≡ some t
    → s.pfd2 ≡ pipe
    → s.parent ≡ wait
    → Inv s
    → Inv t
unfolding wait_child
keep_wait_child [] s t e pe at v = absurd (ground arith)
keep_wait_child (c ∷ rest) s t e pe at v = record {
  turns = ground arith;
  added = ground arith;
  apart = ground arith;
  even = ground arith;
  parent_fits = ground arith;
  child_fits = ground arith;
  to_child = ground arith;
  to_parent = ground arith;
  count = v.count;
  lines = ground (arith, v.lines);
  counted = ground (arith, v.counted);
}

keep_wait_parent :
    (pipe : List ℕ) (s t : Family)
    → wait_parent pipe s ≡ some t
    → s.pfd1 ≡ pipe
    → s.child ≡ wait
    → Inv s
    → Inv t
unfolding wait_parent
keep_wait_parent [] s t e pe at v = absurd (ground arith)
keep_wait_parent (c ∷ rest) s t e pe at v = record {
  turns = ground arith;
  added = ground arith;
  apart = ground arith;
  even = ground arith;
  parent_fits = ground arith;
  child_fits = ground arith;
  to_child = ground arith;
  to_parent = ground arith;
  count = v.count;
  lines = ground (arith, v.lines);
  counted = ground (arith, v.counted);
}

turn_unprinted : (pc : Place) → (unprinted pc ≤ parent_turn pc) × (unprinted pc ≤ child_turn pc)
turn_unprinted (compare n) = (omega arith, omega arith)
turn_unprinted _ = (omega arith, omega arith)

keep_parent :
    (pc : Place) (s t : Family) → parent_step pc s ≡ some t → s.parent ≡ pc → Inv s → Inv t
unfolding parent_step
keep_parent wait s t e at v = keep_wait_child s.pfd2 s t e refl at v
keep_parent (compare n) s t e at v = record {
  turns = ground (arith, turn_unprinted s.child);
  added = ground (arith, turn_unprinted s.child);
  apart = ground (arith, turn_unprinted s.child);
  even = ground (arith, turn_unprinted s.child);
  parent_fits = ground (arith, turn_unprinted s.child);
  child_fits = ground (arith, turn_unprinted s.child);
  to_child = ground (arith, turn_unprinted s.child);
  to_parent = ground (arith, turn_unprinted s.child);
  count = suc v.count;
  lines = ground (arith, v.lines, v.counted, turn_unprinted s.child);
  counted = ground (arith, v.counted, turn_unprinted s.child);
}
keep_parent tell s t e at v = record {
  turns = ground (arith, length-append_one b'p' s.pfd1);
  added = ground (arith, length-append_one b'p' s.pfd1);
  apart = ground (arith, length-append_one b'p' s.pfd1);
  even = ground (arith, length-append_one b'p' s.pfd1);
  parent_fits = ground (arith, length-append_one b'p' s.pfd1);
  child_fits = ground (arith, length-append_one b'p' s.pfd1);
  to_child = ground (arith, Holds-append b'p' s.pfd1);
  to_parent = ground (arith, length-append_one b'p' s.pfd1);
  count = v.count;
  lines = ground (arith, v.lines);
  counted = ground (arith, v.counted, length-append_one b'p' s.pfd1);
}
keep_parent _ s t e at v = record {
  turns = ground arith;
  added = ground arith;
  apart = ground arith;
  even = ground arith;
  parent_fits = ground arith;
  child_fits = ground arith;
  to_child = ground arith;
  to_parent = ground arith;
  count = v.count;
  lines = ground (arith, v.lines);
  counted = ground (arith, v.counted);
}

keep_child : (pc : Place) (s t : Family) → child_step pc s ≡ some t → s.child ≡ pc → Inv s → Inv t
unfolding child_step
keep_child wait s t e at v = keep_wait_parent s.pfd1 s t e refl at v
keep_child (compare n) s t e at v = record {
  turns = ground (arith, turn_unprinted s.parent);
  added = ground (arith, turn_unprinted s.parent);
  apart = ground (arith, turn_unprinted s.parent);
  even = ground (arith, turn_unprinted s.parent);
  parent_fits = ground (arith, turn_unprinted s.parent);
  child_fits = ground (arith, turn_unprinted s.parent);
  to_child = ground (arith, turn_unprinted s.parent);
  to_parent = ground (arith, turn_unprinted s.parent);
  count = suc v.count;
  lines = ground (arith, v.lines, v.counted, turn_unprinted s.parent);
  counted = ground (arith, v.counted, turn_unprinted s.parent);
}
keep_child tell s t e at v = record {
  turns = ground (arith, length-append_one b'c' s.pfd2);
  added = ground (arith, length-append_one b'c' s.pfd2);
  apart = ground (arith, length-append_one b'c' s.pfd2);
  even = ground (arith, length-append_one b'c' s.pfd2);
  parent_fits = ground (arith, length-append_one b'c' s.pfd2);
  child_fits = ground (arith, length-append_one b'c' s.pfd2);
  to_child = ground (arith, length-append_one b'c' s.pfd2);
  to_parent = ground (arith, Holds-append b'c' s.pfd2);
  count = v.count;
  lines = ground (arith, v.lines);
  counted = ground (arith, v.counted, length-append_one b'c' s.pfd2);
}
keep_child _ s t e at v = record {
  turns = ground arith;
  added = ground arith;
  apart = ground arith;
  even = ground arith;
  parent_fits = ground arith;
  child_fits = ground arith;
  to_child = ground arith;
  to_parent = ground arith;
  count = v.count;
  lines = ground (arith, v.lines);
  counted = ground (arith, v.counted);
}

Move-Inv : {s t : Family} → Move s t → Inv s → Inv t
Move-Inv {s} {t} (parent_moves e) v = keep_parent s.parent s t e refl v
Move-Inv {s} {t} (child_moves e) v = keep_child s.child s t e refl v

pub Reached-Inv : {s : Family} → Reached s → Inv s
Reached-Inv here = Inv-forked
Reached-Inv (next r m) = Move-Inv m (Reached-Inv r)
