-- ===== src/Queue.antt =====
-- What the bounded buffers of prodcons_s.c and prodcons_m.c promise: a queue of at most `max_buf` items.
pub mod Window
pub mod Refine
pub mod RefineMonitor
mod Tests
use linux_system_programming.Prelude.{
  ℕ, zero, suc, ◌+◌, ◌-◌, ◌%◌, ◌≤◌, ◌≡◌, List, [], ◌∷◌, ◌++◌, length, get_or,
}
use linux_system_programming.ProdCons.{BoundedBuffer, max_buf}

-- The items that wait, and those that have been taken, in order.
pub record Queue : Type 0 where
  pub waiting : List ℕ
  pub taken : List ℕ

-- A step of a queue: an item is put behind the others if there is room, or the first one is taken.
pub data QueueStep (q q' : Queue) : Type 0 where
  put :
      (item : ℕ)
      → suc (length q.waiting) ≤ max_buf
      → q' ≡ record q { waiting = q.waiting ++ (item ∷ []) }
      → QueueStep q q'
  get :
      (item : ℕ)
      → q.waiting ≡ item ∷ q'.waiting
      → q'.taken ≡ q.taken ++ (item ∷ [])
      → QueueStep q q'

-- The `n` slots of the ring from the place `lo` on.
abbrev pub slots : List ℕ → ℕ → ℕ → List ℕ
slots buf lo zero = []
slots buf lo (suc n) = get_or buf (lo % max_buf) 0 ∷ slots buf (lo + 1) n

-- The queue that a buffer holds when `lo` items have been taken and `hi` have been put.
abbrev pub queue_of : BoundedBuffer → ℕ → ℕ → List ℕ → Queue
queue_of b lo hi got = record { waiting = slots b.buf lo (hi - lo); taken = got }
