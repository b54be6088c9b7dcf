-- ===== src/Mipc.antt =====
-- "5_Inter-Process Communication/mipc.c" and synclib.c: a parent and a child that take turns at counting
-- up a number in shared memory, with two pipes between them. A step is one access to the number or one
-- call on a pipe; `(*ptr)++` is a load and a store.
pub mod Inv
pub mod Laws
mod Tests
use linux_system_programming.Prelude.{
  ℕ, ◌+◌, Bool, Option, none, some, List, [], ◌∷◌, ◌++◌, ◌≡◌, ltb, ◌==◌, if◌then◌else◌,
}

-- `NLOOPS`
abbrev pub mipc_loops : ℕ
mipc_loops = 10

-- Where a process stands in its loop; the parent tells and then waits, the child waits and then tells.
-- `store n` and `compare n` have loaded `n`.
pub data Place : Type 0 where
  test : Place
  load : Place
  store : ℕ → Place
  compare : ℕ → Place
  tell : Place
  wait : Place
  left : Place
  exited : Place

-- What a line of output says.
pub data Said : Type 0 where
  parent_said : ℕ → Said
  child_said : ℕ → Said

-- The number, the pipes `Pfd1` to the child and `Pfd2` to the parent, the processes' counters `i` and
-- places, and the lines printed so far.
pub record Family : Type 0 where
  pub area : ℕ
  pub pfd1 : List ℕ
  pub pfd2 : List ℕ
  pub parent_i : ℕ
  pub parent : Place
  pub child_i : ℕ
  pub child : Place
  pub printed : List Said

-- `WAIT_CHILD()` and the `i+=2` after it; `none` while the pipe is empty. Both processes keep all ends of
-- the pipes open, so that a read never meets the end of a pipe.
unfoldable pub wait_child : List ℕ → Family → Option Family
wait_child [] s = none
wait_child (c ∷ rest) s =
    if c == b'c'
    then some (record s { pfd2 = rest; parent_i = s.parent_i + 2; parent = test })
    else some (record s { pfd2 = rest; parent = exited })

unfoldable pub wait_parent : List ℕ → Family → Option Family
wait_parent [] s = none
wait_parent (c ∷ rest) s =
    if c == b'p'
    then some (record s { pfd1 = rest; child = load })
    else some (record s { pfd1 = rest; child = exited })

-- `TELL_CHILD()` and `TELL_PARENT()`
abbrev pub tell_child : Family → Family
tell_child s = record s { pfd1 = s.pfd1 ++ (b'p' ∷ []) }

abbrev pub tell_parent : Family → Family
tell_parent s = record s { pfd2 = s.pfd2 ++ (b'c' ∷ []) }

-- One step of the parent; `none` where it waits or has ended.
unfoldable pub parent_step : Place → Family → Option Family
parent_step test s =
    if ltb s.parent_i mipc_loops
    then some (record s { parent = load })
    else some (record s { parent = left })
parent_step load s = some (record s { parent = store s.area })
parent_step (store n) s = some (record s { area = n + 1; parent = compare n })
parent_step (compare n) s =
    if n == s.parent_i
    then some (record s { printed = s.printed ++ (parent_said n ∷ []); parent = tell })
    else some (record s { parent = exited })
parent_step tell s = some (record (tell_child s) { parent = wait })
parent_step wait s = wait_child s.pfd2 s
parent_step left s = none
parent_step exited s = none

-- One step of the child; `tell` includes the `i+=2` after it.
unfoldable pub child_step : Place → Family → Option Family
child_step test s =
    if ltb s.child_i mipc_loops
    then some (record s { child = wait })
    else some (record s { child = left })
child_step wait s = wait_parent s.pfd1 s
child_step load s = some (record s { child = store s.area })
child_step (store n) s = some (record s { area = n + 1; child = compare n })
child_step (compare n) s =
    if n == s.child_i
    then some (record s { printed = s.printed ++ (child_said n ∷ []); child = tell })
    else some (record s { child = exited })
child_step tell s = some (record (tell_parent s) { child_i = s.child_i + 2; child = test })
child_step left s = none
child_step exited s = none

-- Either process may make the next step.
pub data Move (s : Family) : Family → Type 0 where
  parent_moves : {t : Family} → parent_step s.parent s ≡ some t → Move s t
  child_moves : {t : Family} → child_step s.child s ≡ some t → Move s t

-- After `fork`: the memory mapped from /dev/zero is zero, the pipes of `TELL_WAIT` are empty.
abbrev pub forked : Family
forked = record {
  area = 0;
  pfd1 = [];
  pfd2 = [];
  parent_i = 0;
  parent = test;
  child_i = 1;
  child = test;
  printed = [];
}

pub data Reached : Family → Type 0 where
  here : Reached forked
  next : {s t : Family} → Reached s → Move s t → Reached t
