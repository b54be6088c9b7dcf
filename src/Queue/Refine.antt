-- ===== src/Queue/Refine.antt =====
-- prodcons_s.c refines the queue.
use linux_system_programming.Prelude.{ℕ, ◌+◌, ◌≤◌, ◌≡◌, refl, some, arith, ◌⊎◌}
use linux_system_programming.ProdCons.{
  System, ProducerPc, ConsumerPc, producer_at, consumer_at, Step, produce, consume, Reach, next,
}
use linux_system_programming.ProdCons.Inv.{Inv, p_slot, p_wrote, c_item, c_read}
use linux_system_programming.ProdCons.Keep.{Reach-Inv}
use linux_system_programming.Queue.{Queue, QueueStep, queue_of}
use linux_system_programming.Queue.Window.{
  queue_at, queue_of-queue_at, Advance, stays, puts, gets, Advance-refines,
}

-- How many items have been taken and put.
abbrev pub taken_of : System → ℕ
taken_of s = s.consumed + c_read s.consumer

abbrev pub put_of : System → ℕ
put_of s = s.produced + p_wrote s.producer

-- The queue that a state of prodcons_s.c stands for: what lies in the buffer's slots and has not been
-- read, and what has been read.
abbrev pub queue_s : System → Queue
queue_s s = queue_of s.shared (taken_of s) (put_of s) s.got

p_wrote-le : (pc : ProducerPc) → p_wrote pc ≤ p_slot pc
p_wrote-le ProducerPc.wait_empty = omega arith
p_wrote-le _ = omega arith

c_read-le : (pc : ConsumerPc) → c_read pc ≤ c_item pc
c_read-le ConsumerPc.wait_full = omega arith
c_read-le _ = omega arith

producer-Advance :
    (items : ℕ → ℕ) (pc : ProducerPc) (s t : System)
    → producer_at items pc s ≡ some t
    → s.producer ≡ pc
    → Inv items s
    → Advance items (taken_of s) (put_of s) (taken_of t) (put_of t)
unfolding producer_at
producer-Advance items ProducerPc.write_item s t e at v =
    puts (ground arith) (ground arith) (ground (arith, v.empty, v.full))
      (ground (arith, v.full, c_read-le s.consumer))
producer-Advance items _ s t e at v = stays (ground arith) (ground arith)

consumer-Advance :
    (items : ℕ → ℕ) (pc : ConsumerPc) (s t : System)
    → consumer_at pc s ≡ some t
    → s.consumer ≡ pc
    → Inv items s
    → Advance items (taken_of s) (put_of s) (taken_of t) (put_of t)
unfolding consumer_at
consumer-Advance items ConsumerPc.read_item s t e at v =
    gets (ground arith) (ground arith) (ground (arith, v.full))
consumer-Advance items _ s t e at v = stays (ground arith) (ground arith)

taken-le : (items : ℕ → ℕ) (s : System) → Inv items s → taken_of s ≤ put_of s
taken-le items s v = omega (arith, v.full, c_read-le s.consumer)

queue_s-queue_at :
    (items : ℕ → ℕ) (s : System) → Inv items s → queue_s s ≡ queue_at items (taken_of s) (put_of s)
queue_s-queue_at items s v =
    queue_of-queue_at items s.shared (taken_of s) (put_of s) s.got (taken-le items s v) v.fifo
      v.stored

Step-Advance :
    (items : ℕ → ℕ) (s t : System)
    → Step items s t
    → Inv items s
    → Advance items (taken_of s) (put_of s) (taken_of t) (put_of t)
Step-Advance items s t (produce e) v = producer-Advance items s.producer s t e refl v
Step-Advance items s t (consume e) v = consumer-Advance items s.consumer s t e refl v

-- prodcons_s.c refines a queue of at most `max_buf` items: every step of a reachable state either leaves
-- the queue that the state stands for as it is, or is one step of the queue.
pub refines_queue :
    (items : ℕ → ℕ) (s t : System)
    → Reach items s
    → Step items s t
    → (queue_s t ≡ queue_s s) ⊎ QueueStep (queue_s s) (queue_s t)
refines_queue items s t r st =
    let v = Reach-Inv items r in
    Advance-refines items (queue_s s) (queue_s t) (taken_of s) (put_of s) (taken_of t) (put_of t)
      (queue_s-queue_at items s v) (queue_s-queue_at items t (Reach-Inv items (next r st)))
      (Step-Advance items s t st v)
