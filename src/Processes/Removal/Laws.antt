-- ===== src/Processes/Removal/Laws.antt =====
-- producer_s.c and consumer_s.c: how the processes end when the semaphores are removed.
use linux_system_programming.Prelude.{
  ℕ, suc, ◌+◌, ◌≡◌, ◌≢◌, ◌≤◌, ◌⊎◌, ◌∙◌, ◌==◌, Bool-cases, inl, inr, refl, sym, ap, subst, Bool,
  true, false, Option, none, some, arith,
}
use linux_system_programming.Prelude.Threads.{
  Run, begin, more, by_first, by_second, Run-keeps, Step, Step-or_stuck,
}
use linux_system_programming.ProdCons.{System, ConsumerPc, consumer_at, nloops, max_buf}
use linux_system_programming.ProdCons.Inv.{c_read, first_items}
use linux_system_programming.Processes.{
  Setup, set_up, ProcessState, producer_process, consumer_setup, consumer_process, process_start,
}
use linux_system_programming.Processes.Laws.{
  HasStopped, all_done, last_missing, none_taken, processes_end, processes_in_order,
}
use linux_system_programming.Processes.Lift.{in_system-some, Run-Simulated}
use linux_system_programming.ProdCons.Keep.{Reach-Inv}
use linux_system_programming.Processes.Removal.{
  Removed, nothing, empty_removed, mutex_removed, all_removed, Removal, in_processes,
  producer_removes, consumer_misses, misses, loop_misses, producer_ending, consumer_ending,
  removal_start,
}

-- The loops run as they do without the removal, which comes after all items have been produced.
record Under (items : ℕ → ℕ) (e : Removal) : Type 0 where
  length : ℕ
  run : Run (producer_process items) consumer_process process_start length e.processes
  produced : (e.removed ≡ nothing) ⊎ (e.processes.system.produced ≡ nloops)
  failing : (e.failed ≡ false) ⊎ (e.processes.system.produced ≡ nloops)

in_processes-some :
    (e t : Removal) (o : Option ProcessState)
    → in_processes e o ≡ some t
    → (s : ProcessState) × (o ≡ some s) × (t ≡ record e { processes = s })
in_processes-some e t none h = absurd (ground arith)
in_processes-some e t (some s) h = (s, refl, ground arith)

in_processes-none : (e : Removal) (o : Option ProcessState) → in_processes e o ≡ none → o ≡ none
in_processes-none e none h = refl
in_processes-none e (some s) h = absurd (ground arith)

loop-produced :
    (pc : ConsumerPc) (s t : System) → consumer_at pc s ≡ some t → t.produced ≡ s.produced
unfolding consumer_at
loop-produced _ s t e = ground arith

consumer-produced :
    (at : Setup) (s t : ProcessState)
    → consumer_setup at s ≡ some t
    → t.system.produced ≡ s.system.produced
unfolding consumer_setup
consumer-produced set_up s t e =
    let (u, made, t_is) = in_system-some s t (consumer_at s.system.consumer s.system) e in
    subst (λ x. x.system.produced ≡ s.system.produced) (sym t_is)
      (loop-produced s.system.consumer s.system u made)
consumer-produced _ s t e = ground arith

producer-loop :
    (items : ℕ → ℕ) (e t : Removal)
    → in_processes e (producer_process items e.processes) ≡ some t
    → e.removed ≡ nothing
    → e.failed ≡ false
    → Under items e
    → Under items t
producer-loop items e t h none_removed going u =
    let (s, made, t_is) = in_processes-some e t (producer_process items e.processes) h in
    subst (Under items) (sym t_is) (record {
      length = suc u.length;
      run = more u.run (by_first made);
      produced = inl none_removed;
      failing = inl going;
    })

with_removed :
    (items : ℕ → ℕ) (e t : Removal) (r : Removed)
    → some (record e { removed = r }) ≡ some t
    → e.processes.system.produced ≡ nloops
    → Under items e
    → Under items t
with_removed items e t r h all u =
    let u' : Under items (record e { removed = r }) = record {
      length = u.length;
      run = u.run;
      produced = inr all;
      failing = inr all;
    } in
    let same : record e { removed = r } ≡ t = ground arith in subst (Under items) same u'

all_produced :
    (items : ℕ → ℕ) (e : Removal)
    → Under items e
    → e.removed ≢ nothing
    → e.processes.system.produced ≡ nloops
all_produced items e u some_removed = elim (u.produced) [
  | inl none_removed ↦ absurd (some_removed none_removed)
  | inr all ↦ all
]

still_going :
    (items : ℕ → ℕ) (e : Removal)
    → Under items e
    → e.processes.system.produced ≢ nloops
    → e.failed ≡ false
still_going items e u more_to_come = elim (u.failing) [
  | inl going ↦ going
  | inr all ↦ absurd (more_to_come all)
]

misses-nothing : (r : Removed) (at : Setup) (s : ProcessState) → misses r at s ≡ true → r ≢ nothing
misses-nothing r at s h e = ground arith

producer-Under :
    (items : ℕ → ℕ) (r : Removed) (e t : Removal)
    → producer_removes items r e ≡ some t
    → e.removed ≡ r
    → Under items e
    → Under items t
unfolding producer_removes
producer-Under items nothing e t h pl u =
    elim (Bool-cases (e.processes.system.produced == nloops)) [
      | inl done ↦ with_removed items e t empty_removed (ground arith) (ground arith) u
      | inr not_done ↦
          producer-loop items e t (ground arith) pl (still_going items e u (ground arith)) u
    ]
producer-Under items empty_removed e t h pl u =
    with_removed items e t mutex_removed h (all_produced items e u (ground arith)) u
producer-Under items mutex_removed e t h pl u =
    with_removed items e t all_removed h (all_produced items e u (ground arith)) u
producer-Under items all_removed e t h pl u = absurd (ground arith)

consumer-Under :
    (items : ℕ → ℕ) (failed missing : Bool) (e t : Removal)
    → consumer_misses failed missing e ≡ some t
    → e.failed ≡ failed
    → misses e.removed e.processes.setup e.processes ≡ missing
    → Under items e
    → Under items t
unfolding consumer_misses
consumer-Under items true missing e t h f m u = absurd (ground arith)
consumer-Under items false true e t h f m u =
    let u' : Under items (record e { failed = true }) = record {
      length = u.length;
      run = u.run;
      produced = u.produced;
      failing =
          inr (all_produced items e u (misses-nothing e.removed e.processes.setup e.processes m));
    } in
    let same : record e { failed = true } ≡ t = ground arith in subst (Under items) same u'
consumer-Under items false false e t h f m u =
    let (s, made, t_is) = in_processes-some e t (consumer_process e.processes) h in
    let kept = consumer-produced e.processes.setup e.processes s made in
    subst (Under items) (sym t_is) (record {
      length = suc u.length;
      run = more u.run (by_second made);
      produced = elim (u.produced) [
        | inl none_removed ↦ inl none_removed
        | inr all ↦ inr (kept ∙ all)
      ];
      failing = inl f;
    })

Run-Under :
    (items : ℕ → ℕ) {n : ℕ} {e : Removal}
    → Run (producer_ending items) consumer_ending removal_start n e
    → Under items e
Run-Under items r =
    Run-keeps (producer_ending items) consumer_ending (Under items)
      (λ e t h u. producer-Under items e.removed e t h refl u)
      (λ e t h u.
        consumer-Under items e.failed (misses e.removed e.processes.setup e.processes) e t h refl
          refl u)
      (record { length = 0; run = begin; produced = inl refl; failing = inl refl }) r

-- How they end: the consumer has read all items, in order, before it met a removed semaphore; or it met one,
-- and has left its loop by `exit(1)`; or its `semInitValue(fullSemid, 0)` wiped out the units of two items,
-- and the processes wait for each other.
pub data HasEnded (items : ℕ → ℕ) (e : Removal) : Type 0 where
  all_read :
      e.removed ≡ all_removed
      → e.failed ≡ false
      → e.processes.system.consumed ≡ nloops
      → e.processes.system.got ≡ first_items items nloops
      → HasEnded items e
  cut_off : e.removed ≡ all_removed → e.failed ≡ true → HasEnded items e
  both_wait :
      e.removed ≡ nothing
      → e.failed ≡ false
      → e.processes.wiped ≡ max_buf
      → e.processes.system.produced ≡ max_buf
      → e.processes.system.consumed ≡ 0
      → HasEnded items e

-- Where no semaphore is missing although all are gone, the consumer can go on, or has finished.
all_gone :
    (pc : ConsumerPc) (s : System)
    → loop_misses all_removed pc s.consumed ≡ false
    → consumer_at pc s ≡ none
    → (pc ≡ ConsumerPc.wait_full) × (nloops ≤ s.consumed)
unfolding consumer_at
all_gone ConsumerPc.wait_full s m stuck = (refl, ground arith)
all_gone _ s m stuck = absurd (ground arith)

all_gone_setup :
    (at : Setup) (s : ProcessState)
    → misses all_removed at s ≡ false
    → consumer_setup at s ≡ none
    → (s.system.consumer ≡ ConsumerPc.wait_full) × (nloops ≤ s.system.consumed)
unfolding consumer_setup
all_gone_setup set_up s m stuck = all_gone s.system.consumer s.system m (ground arith)
all_gone_setup _ s m stuck = absurd (ground arith)

-- Without the removal neither process could go on either.
stopped-HasEnded :
    (items : ℕ → ℕ) (e : Removal)
    → HasStopped e.processes
    → e.removed ≡ nothing
    → e.failed ≡ false
    → e.processes.system.produced ≢ nloops
    → HasEnded items e
stopped-HasEnded items e (all_done w f) r g ne = absurd (ne f.all_produced)
stopped-HasEnded items e (last_missing w p c) r g ne = absurd (ne p)
stopped-HasEnded items e (none_taken w p c) r g ne = both_wait r g w p c

finished_reading :
    (items : ℕ → ℕ) (e : Removal)
    → Under items e
    → e.removed ≡ all_removed
    → e.failed ≡ false
    → (e.processes.system.consumer ≡ ConsumerPc.wait_full) × (nloops ≤ e.processes.system.consumed)
    → HasEnded items e
finished_reading items e u r f (at, enough) =
    let v = Reach-Inv items (Run-Simulated items u.run).reach in
    let consumed : e.processes.system.consumed ≡ nloops = omega (arith, v.few_consumed, enough) in
    let count : e.processes.system.consumed + c_read e.processes.system.consumer ≡ nloops =
      ground (arith, consumed, at) in
    all_read r f consumed ((processes_in_order items u.run).0 ∙ ap (first_items items) count)

neither-HasStopped :
    (items : ℕ → ℕ) (e : Removal)
    → Under items e
    → producer_process items e.processes ≡ none
    → consumer_process e.processes ≡ none
    → HasStopped e.processes
neither-HasStopped items e u stuck stuck' = elim (processes_end items u.run) [
  | inl (t, by_first go) ↦ cc
  | inl (t, by_second go) ↦ cc
  | inr stopped ↦ stopped
]

stuck-HasEnded :
    (items : ℕ → ℕ) (r : Removed) (failed missing : Bool) (e : Removal)
    → e.removed ≡ r
    → e.failed ≡ failed
    → misses e.removed e.processes.setup e.processes ≡ missing
    → Under items e
    → producer_removes items r e ≡ none
    → consumer_misses failed missing e ≡ none
    → HasEnded items e
unfolding producer_removes consumer_misses
stuck-HasEnded items all_removed true missing e rl f m u stuck stuck' = cut_off rl f
stuck-HasEnded items all_removed false true e rl f m u stuck stuck' = absurd (ground arith)
stuck-HasEnded items all_removed false false e rl f m u stuck stuck' =
    finished_reading items e u rl f (
      all_gone_setup e.processes.setup e.processes
        (subst (λ r. misses r e.processes.setup e.processes ≡ false) rl m)
        (in_processes-none e (consumer_process e.processes) stuck'))
stuck-HasEnded items nothing failed true e rl f m u stuck stuck' =
    absurd (misses-nothing e.removed e.processes.setup e.processes m rl)
stuck-HasEnded items nothing failed false e rl f m u stuck stuck' =
    elim (Bool-cases (e.processes.system.produced == nloops)) [
      | inl done ↦ absurd (ground arith)
      | inr not_done ↦
          let more_to_come : e.processes.system.produced ≢ nloops = ground arith in
          let going = still_going items e u more_to_come in
          stopped-HasEnded items e
            (neither-HasStopped items e u
              (in_processes-none e (producer_process items e.processes) (ground arith))
              (in_processes-none e (consumer_process e.processes) (ground arith)))
            rl going more_to_come
    ]
stuck-HasEnded items _ failed missing e rl f m u stuck stuck' = absurd (ground arith)

-- Whenever the processes are started, and however long the consumer is in its loop when producer_s.c removes
-- the semaphores: what the consumer has read are the producer's items, in order, none lost and none twice;
-- and one of the processes can go on, the removal included, until the consumer has read all items, or has met
-- a removed semaphore and left with 1, or both wait for ever, since the units of two items were wiped out.
pub removal_end :
    (items : ℕ → ℕ) {n : ℕ} {e : Removal}
    → Run (producer_ending items) consumer_ending removal_start n e
    → (e.processes.system.got
        ≡ first_items items (e.processes.system.consumed + c_read e.processes.system.consumer))
      × (((t : Removal) × Step (producer_ending items) consumer_ending e t) ⊎ HasEnded items e)
removal_end items {n} {e} r =
    let u = Run-Under items r in
    (
      (processes_in_order items u.run).0,
      elim (Step-or_stuck (producer_ending items) consumer_ending e) [
        | inl go ↦ inl go
        | inr (stuck, stuck') ↦ inr (
            stuck-HasEnded items e.removed e.failed (misses e.removed e.processes.setup e.processes)
              e refl refl refl u stuck stuck')
      ],
    )
