-- ===== src/Queue/RefineMonitor.antt =====
-- prodcons_m.c refines the queue.
use linux_system_programming.Prelude.{ℕ, ◌+◌, ◌≤◌, ◌≡◌, refl, some, arith, ◌⊎◌}
use linux_system_programming.Monitor.{
  MonitorState, ProducerAt, ConsumerAt, signal_not_full, signal_not_empty, producer_step,
  consumer_step, Turn, produce, consume, Reachable, next,
}
use linux_system_programming.Monitor.Inv.{Inv, p_counted, p_wrote, c_counted, c_item, c_read}
use linux_system_programming.Monitor.Keep.{Reachable-Inv}
use linux_system_programming.Queue.{Queue, QueueStep, queue_of}
use linux_system_programming.Queue.Window.{
  queue_at, queue_of-queue_at, Advance, stays, puts, gets, Advance-refines,
}

-- How many items have been taken and put.
abbrev pub taken_of : MonitorState → ℕ
taken_of s = s.consumed + c_read s.consumer

abbrev pub put_of : MonitorState → ℕ
put_of s = s.produced + p_wrote s.producer

-- The queue that a state of prodcons_m.c stands for: what lies in the buffer's slots and has not been
-- read, and what has been read.
abbrev pub queue_m : MonitorState → Queue
queue_m s = queue_of s.shared (taken_of s) (put_of s) s.got

-- Counted and not yet read, or written and not yet counted.
c_read-le : (pc : ConsumerAt) → c_read pc ≤ c_counted pc + c_item pc
c_read-le pc = grind arith

c_counted-le : (pc : ConsumerAt) → c_counted pc ≤ c_read pc
c_counted-le pc = grind arith

p_wrote-le : (pc : ProducerAt) → p_counted pc ≤ p_wrote pc
p_wrote-le pc = grind arith

woken_wrote : (pc : ProducerAt) → p_wrote (signal_not_full pc) ≡ p_wrote pc
unfolding signal_not_full
woken_wrote ProducerAt.asleep = refl
woken_wrote _ = refl

woken_read : (pc : ConsumerAt) → c_read (signal_not_empty pc) ≡ c_read pc
unfolding signal_not_empty
woken_read ConsumerAt.asleep = refl
woken_read _ = refl

producer-Advance :
    (items : ℕ → ℕ) (pc : ProducerAt) (s t : MonitorState)
    → producer_step items pc s ≡ some t
    → s.producer ≡ pc
    → Inv items s
    → Advance items (taken_of s) (put_of s) (taken_of t) (put_of t)
unfolding producer_step
producer-Advance items ProducerAt.write_item s t e at v =
    puts (ground arith) (ground arith) (ground (arith, v.count, v.room, c_counted-le s.consumer))
      (ground (arith, v.count, v.item, c_read-le s.consumer))
producer-Advance items _ s t e at v = stays (ground (arith, woken_read s.consumer)) (ground arith)

consumer-Advance :
    (items : ℕ → ℕ) (pc : ConsumerAt) (s t : MonitorState)
    → consumer_step pc s ≡ some t
    → s.consumer ≡ pc
    → Inv items s
    → Advance items (taken_of s) (put_of s) (taken_of t) (put_of t)
unfolding consumer_step
consumer-Advance items ConsumerAt.read_item s t e at v =
    gets (ground arith) (ground arith) (ground (arith, v.count, v.item, p_wrote-le s.producer))
consumer-Advance items _ s t e at v = stays (ground arith) (ground (arith, woken_wrote s.producer))

taken-le : (items : ℕ → ℕ) (s : MonitorState) → Inv items s → taken_of s ≤ put_of s
taken-le items s v = omega (arith, v.count, v.item, c_read-le s.consumer, p_wrote-le s.producer)

queue_m-queue_at :
    (items : ℕ → ℕ) (s : MonitorState)
    → Inv items s
    → queue_m s ≡ queue_at items (taken_of s) (put_of s)
queue_m-queue_at items s v =
    queue_of-queue_at items s.shared (taken_of s) (put_of s) s.got (taken-le items s v) v.fifo
      v.stored

Turn-Advance :
    (items : ℕ → ℕ) (s t : MonitorState)
    → Turn items s t
    → Inv items s
    → Advance items (taken_of s) (put_of s) (taken_of t) (put_of t)
Turn-Advance items s t (produce e) v = producer-Advance items s.producer s t e refl v
Turn-Advance items s t (consume e) v = consumer-Advance items s.consumer s t e refl v

-- prodcons_m.c refines a queue of at most `max_buf` items: every turn of a thread in a reachable state
-- either leaves the queue that the state stands for as it is, or is one step of the queue.
pub monitor_refines_queue :
    (items : ℕ → ℕ) (s t : MonitorState)
    → Reachable items s
    → Turn items s t
    → (queue_m t ≡ queue_m s) ⊎ QueueStep (queue_m s) (queue_m t)
monitor_refines_queue items s t r st =
    let v = Reachable-Inv items r in
    Advance-refines items (queue_m s) (queue_m t) (taken_of s) (put_of s) (taken_of t) (put_of t)
      (queue_m-queue_at items s v) (queue_m-queue_at items t (Reachable-Inv items (next r st)))
      (Turn-Advance items s t st v)
