-- ===== src/ThreadSums.antt =====
-- "3_Processes and Threads/tadd.c": two threads that sum up the two halves of the numbers from 1 to 100, each
-- in a variable of its own. `+=` is a load and a store.
pub mod Laws
mod Tests
use linux_system_programming.Prelude.{ℕ, ◌+◌, Option, none, some, leb, if◌then◌else◌}

-- Where a thread stands: at the test of its loop, at the load, or at the store of a sum.
pub data Adding : Type 0 where
  test : Adding
  load : Adding
  store : ℕ → Adding
  returned : Adding

-- A variable that a thread adds to, and the thread's `i`.
pub record Adder : Type 0 where
  pub total : ℕ
  pub i : ℕ
  pub at : Adding

-- A step of `Sum50` or `Sum100`, whose loop ends with `last`.
unfoldable pub adder_at : ℕ → Adding → Adder → Option Adder
adder_at last test s =
    if leb s.i last then some (record s { at = load }) else some (record s { at = returned })
adder_at last load s = some (record s { at = store (s.total + s.i) })
adder_at last (store sum) s = some (record s { total = sum; i = s.i + 1; at = test })
adder_at last returned s = none

-- `fif` with `Sum50`, and `han` with `Sum100`.
pub record Sums : Type 0 where
  pub fif : Adder
  pub han : Adder

abbrev pub with_fif : Sums → Option Adder → Option Sums
with_fif s none = none
with_fif s (some a) = some (record s { fif = a })

abbrev pub with_han : Sums → Option Adder → Option Sums
with_han s none = none
with_han s (some a) = some (record s { han = a })

abbrev pub sum50 : Sums → Option Sums
sum50 s = with_fif s (adder_at 50 s.fif.at s.fif)

abbrev pub sum100 : Sums → Option Sums
sum100 s = with_han s (adder_at 100 s.han.at s.han)

abbrev pub sums_start : Sums
sums_start = record {
  fif = record { total = 0; i = 1; at = test };
  han = record { total = 0; i = 51; at = test };
}

-- `main`, after both `pthread_join`
abbrev pub result : Sums → ℕ
result s = s.fif.total + s.han.total
