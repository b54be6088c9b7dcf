-- ===== src/Processes/Lift.antt =====
-- producer_s.c and consumer_s.c are simulated by prodcons_s.c: units that the semaphores have not been
-- given yet, or that were wiped out, are added to them.
use linux_system_programming.Prelude.{
  ℕ, ◌+◌, ◌≡◌, refl, sym, subst, some, ◌≤◌, arith, ◌⊎◌, inl, none, Option,
}
use linux_system_programming.Prelude.Threads.{Run, Run-keeps}
use linux_system_programming.ProdCons.{
  System, ProducerPc, ConsumerPc, producer_at, consumer_at, produce, consume, Reach, here, next,
  max_buf,
}
use linux_system_programming.ProdCons.Inv.{Inv}
use linux_system_programming.ProdCons.Keep.{Reach-Inv}
use linux_system_programming.Processes.{
  Setup, set_empty, set_mutex, set_full, set_up, ProcessState, in_system, producer_process,
  consumer_process, consumer_setup, process_start,
}

-- The system with more units in its semaphores.
abbrev pub lift : ℕ → ℕ → ℕ → System → System
lift e f m s = record s {
  empty_sem = s.empty_sem + e;
  full_sem = s.full_sem + f;
  mutex_sem = s.mutex_sem + m;
}

lift-producer :
    (items : ℕ → ℕ) (e f m : ℕ) (pc : ProducerPc) (s t : System)
    → producer_at items pc s ≡ some t
    → producer_at items pc (lift e f m s) ≡ some (lift e f m t)
unfolding producer_at
lift-producer items e f m ProducerPc.wait_empty s t h = ground arith
lift-producer items e f m _ s t h = ground arith

lift-consumer :
    (e f m : ℕ) (pc : ConsumerPc) (s t : System)
    → consumer_at pc s ≡ some t
    → consumer_at pc (lift e f m s) ≡ some (lift e f m t)
unfolding consumer_at
lift-consumer e f m ConsumerPc.wait_full s t h = ground arith
lift-consumer e f m _ s t h = ground arith

-- What the semaphores have not been given yet.
abbrev pub due_empty : Setup → ℕ
due_empty set_empty = max_buf
due_empty _ = 0

abbrev pub due_mutex : Setup → ℕ
due_mutex set_empty = 1
due_mutex set_mutex = 1
due_mutex _ = 0

abbrev pub lifted : ProcessState → System
lifted s = lift (due_empty s.setup) s.wiped (due_mutex s.setup) s.system

-- During the set-up the semaphores that have no value yet are 0, and hold up the producer. If all units
-- were wiped out, the consumer reads nothing afterwards.
abbrev pub HeldUp : Setup → ProcessState → Type 0
HeldUp set_empty s =
    (s.system.empty_sem ≡ 0)
    × (s.system.mutex_sem ≡ 0)
    × (s.system.producer ≡ ProducerPc.wait_empty)
    × (s.wiped ≡ 0)
    × (s.system.consumed ≡ 0)
HeldUp set_mutex s =
    (s.system.mutex_sem ≡ 0)
    × ((s.system.producer ≡ ProducerPc.wait_empty) ⊎ (s.system.producer ≡ ProducerPc.wait_mutex))
    × (s.wiped ≡ 0)
    × (s.system.consumed ≡ 0)
HeldUp set_full s = (s.wiped ≡ 0) × (s.system.consumed ≡ 0)
HeldUp set_up s = (s.wiped ≤ 1) ⊎ ((s.wiped ≡ max_buf) × (s.system.consumed ≡ 0))

-- A state, with the run of prodcons_s.c that it stands for.
pub record Simulated (items : ℕ → ℕ) (s : ProcessState) : Type 0 where
  pub held : HeldUp s.setup s
  pub reach : Reach items (lifted s)

pub in_system-some :
    (s t : ProcessState) (o : Option System)
    → in_system s o ≡ some t
    → (u : System) × (o ≡ some u) × (t ≡ record s { system = u })
in_system-some s t none e = absurd (ground arith)
in_system-some s t (some u) e = (u, refl, ground arith)

producer-HeldUp :
    (items : ℕ → ℕ) (at : Setup) (pc : ProducerPc) (s : ProcessState) (u : System)
    → producer_at items pc s.system ≡ some u
    → s.system.producer ≡ pc
    → HeldUp at s
    → HeldUp at (record s { system = u })
unfolding producer_at
producer-HeldUp items set_empty ProducerPc.wait_empty s u e pl h = ground arith
producer-HeldUp items set_empty _ s u e pl h = ground arith
producer-HeldUp items set_mutex ProducerPc.wait_empty s u e pl h = ground arith
producer-HeldUp items set_mutex ProducerPc.wait_mutex s u e pl h = ground arith
producer-HeldUp items set_mutex _ s u e pl h = ground arith
producer-HeldUp items set_full ProducerPc.wait_empty s u e pl h = ground arith
producer-HeldUp items set_full _ s u e pl h = ground arith
producer-HeldUp items set_up ProducerPc.wait_empty s u e pl h = ground arith
producer-HeldUp items set_up _ s u e pl h = ground arith

consumer-HeldUp :
    (items : ℕ → ℕ) (pc : ConsumerPc) (s : ProcessState) (u : System)
    → consumer_at pc s.system ≡ some u
    → s.system.consumer ≡ pc
    → s.setup ≡ set_up
    → Inv items (lifted s)
    → HeldUp set_up s
    → HeldUp set_up (record s { system = u })
unfolding consumer_at
consumer-HeldUp items ConsumerPc.wait_full s u e pl up v h = ground (arith, v.full, v.empty)
consumer-HeldUp items _ s u e pl up v h = ground (arith, v.full, v.empty)

producer-Simulated :
    (items : ℕ → ℕ) (s t : ProcessState)
    → producer_process items s ≡ some t
    → Simulated items s
    → Simulated items t
producer-Simulated items s t e v =
    let (u, made, t_is) = in_system-some s t (producer_at items s.system.producer s.system) e in
    subst (Simulated items) (sym t_is) (record {
      held = producer-HeldUp items s.setup s.system.producer s u made refl v.held;
      reach = next v.reach (
          produce (
            lift-producer items (due_empty s.setup) s.wiped (due_mutex s.setup) s.system.producer
              s.system u made));
    })

-- A step that is not seen in the system that the states are lifted to.
same_lifted :
    (items : ℕ → ℕ) (s t u : ProcessState)
    → some u ≡ some t
    → lifted s ≡ lifted u
    → HeldUp u.setup u
    → Simulated items s
    → Simulated items t
same_lifted items s t u e same held v =
    subst (Simulated items) (ground arith)
      (record { held = held; reach = subst (Reach items) same v.reach })

full_sem-le : (items : ℕ → ℕ) (s : System) → Reach items s → s.full_sem ≤ max_buf
full_sem-le items s r = let v = Reach-Inv items r in omega (arith, v.full, v.empty)

-- The three calls of `semInitValue` leave the lifted system as it is.
setup-Simulated :
    (items : ℕ → ℕ) (at : Setup) (s t : ProcessState)
    → consumer_setup at s ≡ some t
    → s.setup ≡ at
    → Simulated items s
    → Simulated items t
unfolding consumer_setup
setup-Simulated items set_empty s t e pl v =
    let held = subst (λ a. HeldUp a s) pl v.held in
    same_lifted items s t _ e (ground arith) (held.1, inl held.2, held.3, held.4) v
setup-Simulated items set_mutex s t e pl v =
    let held = subst (λ a. HeldUp a s) pl v.held in
    same_lifted items s t _ e (ground arith) (held.2, held.3) v
setup-Simulated items set_full s t e pl v =
    let held = subst (λ a. HeldUp a s) pl v.held in
    same_lifted items s t _ e (ground arith) (ground (arith, full_sem-le items (lifted s) v.reach))
      v
setup-Simulated items set_up s t e pl v =
    let (u, made, t_is) = in_system-some s t (consumer_at s.system.consumer s.system) e in
    subst (Simulated items) (sym t_is) (record {
      held =
          subst (λ a. HeldUp a (record s { system = u })) (sym pl)
            (consumer-HeldUp items s.system.consumer s u made refl pl (Reach-Inv items v.reach)
              (subst (λ a. HeldUp a s) pl v.held));
      reach = next v.reach (
          consume (
            lift-consumer (due_empty s.setup) s.wiped (due_mutex s.setup) s.system.consumer s.system
              u made));
    })

start-Simulated : (items : ℕ → ℕ) → Simulated items process_start
start-Simulated items = record { held = (refl, refl, refl, refl, refl); reach = here }

-- Whatever the two processes do, prodcons_s.c can do on the lifted system.
pub Run-Simulated :
    (items : ℕ → ℕ) {n : ℕ} {s : ProcessState}
    → Run (producer_process items) consumer_process process_start n s
    → Simulated items s
Run-Simulated items r =
    Run-keeps (producer_process items) consumer_process (Simulated items) (producer-Simulated items)
      (λ s t e v. setup-Simulated items s.setup s t e refl v) (start-Simulated items) r
