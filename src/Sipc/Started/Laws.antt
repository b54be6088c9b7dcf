-- ===== src/Sipc/Started/Laws.antt =====
-- sipc1.c and sipc2.c do what sipc4.c does, whichever of them is started first.
use linux_system_programming.Prelude.{
  ℕ, suc, ◌+◌, ◌≡◌, refl, sym, subst, Option, none, some, [], ◌∷◌, ◌⊎◌, inl, inr, leb,
  if◌then◌else◌, arith,
}
use linux_system_programming.Prelude.Threads.{
  Run, begin, more, by_first, by_second, Run-keeps, Step, Step-or_stuck,
}
use linux_system_programming.Sipc.{request, reply}
use linux_system_programming.Sipc.Semaphores.{
  Exchange, Sipc1At, Sipc2At, sipc1_at, sipc2_at, answer_step, ask_step, exchange_start,
}
use linux_system_programming.Sipc.Semaphores.Laws.{
  Inv, Run-Inv, made1, made2, HaveReturned, stuck_HaveReturned,
}
use linux_system_programming.Sipc.Started.{
  Giving, give_empty, give_full, give_mutex, given, Started, in_exchange, answer_at, answer_process,
  ask_process, started,
}

-- The exchange with more units in its semaphores.
abbrev lift : ℕ → ℕ → Exchange → Exchange
lift e m s = record s { empty = s.empty + e; mutex = s.mutex + m }

lift-sipc1 :
    (self e m : ℕ) (pc : Sipc1At) (s t : Exchange)
    → sipc1_at self pc s ≡ some t
    → sipc1_at self pc (lift e m s) ≡ some (lift e m t)
unfolding sipc1_at
lift-sipc1 self e m Sipc1At.wait_full s t h = ground arith
lift-sipc1 self e m _ s t h = ground arith

lift-sipc2 :
    (self e m : ℕ) (pc : Sipc2At) (s t : Exchange)
    → sipc2_at self pc s ≡ some t
    → sipc2_at self pc (lift e m s) ≡ some (lift e m t)
unfolding sipc2_at
lift-sipc2 self e m Sipc2At.wait_empty s t h = ground arith
lift-sipc2 self e m _ s t h = ground arith

-- What the semaphores have not been given yet.
abbrev due_empty : Giving → ℕ
due_empty give_empty = 1
due_empty _ = 0

abbrev due_mutex : Giving → ℕ
due_mutex given = 0
due_mutex _ = 1

abbrev pub lifted : Started → Exchange
lifted s = lift (due_empty s.giving) (due_mutex s.giving) s.exchange

-- Until the mutex is 1, sipc2.c gets no further than its wait for it.
abbrev HeldUp : Giving → Exchange → Type 0
HeldUp give_empty s = (s.empty ≡ 0) × (s.full ≡ 0) × (s.mutex ≡ 0) × (s.sipc2 ≡ Sipc2At.wait_empty)
HeldUp give_full s =
    (s.full ≡ 0) × (s.mutex ≡ 0) × ((s.sipc2 ≡ Sipc2At.wait_empty) ⊎ (s.sipc2 ≡ Sipc2At.wait_mutex))
HeldUp give_mutex s =
    (s.mutex ≡ 0) × ((s.sipc2 ≡ Sipc2At.wait_empty) ⊎ (s.sipc2 ≡ Sipc2At.wait_mutex))
HeldUp given s = Unit

-- A state, with the run of sipc4.c that it stands for.
pub record Simulated (a b : ℕ) (s : Started) : Type 0 where
  pub held : HeldUp s.giving s.exchange
  pub run : (m : ℕ) × Run (answer_step a) (ask_step b) exchange_start m (lifted s)

pub in_exchange-some :
    (s t : Started) (o : Option Exchange)
    → in_exchange s o ≡ some t
    → (u : Exchange) × (o ≡ some u) × (t ≡ record s { exchange = u })
in_exchange-some s t none e = absurd (ground arith)
in_exchange-some s t (some u) e = (u, refl, ground arith)

pub in_exchange-none : (s : Started) (o : Option Exchange) → in_exchange s o ≡ none → o ≡ none
in_exchange-none s none e = refl
in_exchange-none s (some t) e = absurd (ground arith)

ask-HeldUp :
    (self : ℕ) (at : Giving) (pc : Sipc2At) (s t : Exchange)
    → sipc2_at self pc s ≡ some t
    → s.sipc2 ≡ pc
    → HeldUp at s
    → HeldUp at t
unfolding sipc2_at
ask-HeldUp self give_empty Sipc2At.wait_empty s t e pl h = ground arith
ask-HeldUp self give_empty _ s t e pl h = ground arith
ask-HeldUp self give_full Sipc2At.wait_empty s t e pl h = ground arith
ask-HeldUp self give_full Sipc2At.wait_mutex s t e pl h = ground arith
ask-HeldUp self give_full _ s t e pl h = ground arith
ask-HeldUp self give_mutex Sipc2At.wait_empty s t e pl h = ground arith
ask-HeldUp self give_mutex Sipc2At.wait_mutex s t e pl h = ground arith
ask-HeldUp self give_mutex _ s t e pl h = ground arith
ask-HeldUp self given pc s t e pl h = tt

ask-Simulated :
    (a b : ℕ) (s t : Started) → ask_process b s ≡ some t → Simulated a b s → Simulated a b t
ask-Simulated a b s t e v =
    let (u, made, t_is) = in_exchange-some s t (sipc2_at b s.exchange.sipc2 s.exchange) e in
    subst (Simulated a b) (sym t_is) (record {
      held = ask-HeldUp b s.giving s.exchange.sipc2 s.exchange u made refl v.held;
      run = (
        suc v.run.0,
        more v.run.1 (
            by_second (
              lift-sipc2 b (due_empty s.giving) (due_mutex s.giving) s.exchange.sipc2 s.exchange u
                made)),
      );
    })

same_lifted :
    (a b : ℕ) (s t u : Started)
    → some u ≡ some t
    → lifted s ≡ lifted u
    → HeldUp u.giving u.exchange
    → Simulated a b s
    → Simulated a b t
same_lifted a b s t u e same held v = subst (Simulated a b) (ground arith) (record {
  held = held;
  run = (v.run.0, subst (Run (answer_step a) (ask_step b) exchange_start v.run.0) same v.run.1);
})

answer-Simulated :
    (a b : ℕ) (at : Giving) (s t : Started)
    → answer_at a at s ≡ some t
    → s.giving ≡ at
    → Simulated a b s
    → Simulated a b t
unfolding answer_at
answer-Simulated a b give_empty s t e pl v =
    let held = subst (λ g. HeldUp g s.exchange) pl v.held in
    same_lifted a b s t _ e (ground arith) (held.1, held.2, inl held.3) v
answer-Simulated a b give_full s t e pl v =
    let held = subst (λ g. HeldUp g s.exchange) pl v.held in
    same_lifted a b s t _ e (ground arith) (held.1, held.2) v
answer-Simulated a b give_mutex s t e pl v =
    let held = subst (λ g. HeldUp g s.exchange) pl v.held in
    same_lifted a b s t _ e (ground arith) tt v
answer-Simulated a b given s t e pl v =
    let (u, made, t_is) = in_exchange-some s t (sipc1_at a s.exchange.sipc1 s.exchange) e in
    subst (Simulated a b) (sym t_is) (record {
      held = subst (λ g. HeldUp g u) (sym pl) tt;
      run = (
        suc v.run.0,
        more v.run.1 (
            by_first (
              lift-sipc1 a (due_empty s.giving) (due_mutex s.giving) s.exchange.sipc1 s.exchange u
                made)),
      );
    })

pub Run-Simulated :
    (a b : ℕ) {n : ℕ} {s : Started}
    → Run (answer_process a) (ask_process b) started n s
    → Simulated a b s
Run-Simulated a b r =
    Run-keeps (answer_process a) (ask_process b) (Simulated a b)
      (λ s t e v. answer-Simulated a b s.giving s t e refl v) (ask-Simulated a b)
      (record { held = (refl, refl, refl, refl); run = (0, begin) }) r

-- Past the calls of `semInitValue`, which do not wait.
stopped_at :
    (a b : ℕ) (at : Giving) (s : Started)
    → s.giving ≡ at
    → Inv a b (lifted s)
    → answer_at a at s ≡ none
    → sipc2_at b s.exchange.sipc2 s.exchange ≡ none
    → HaveReturned s.exchange
unfolding answer_at
stopped_at a b given s pl v stuck stuck' =
    stuck_HaveReturned a b s.exchange s.exchange.sipc1 s.exchange.sipc2 refl refl
      (subst (Inv a b) (ground arith) v)
      (in_exchange-none s (sipc1_at a s.exchange.sipc1 s.exchange) stuck) stuck'
stopped_at a b _ s pl v stuck stuck' = absurd (ground arith)

-- Before sipc1.c exits, whichever process is started first: each prints the other's message and nothing else, and one of them
-- can go on until both have returned.
pub started_exchange :
    (a b : ℕ) {n : ℕ} {s : Started}
    → Run (answer_process a) (ask_process b) started n s
    → (s.exchange.printed1 ≡ (if leb 3 (made1 s.exchange.sipc1) then request b ∷ [] else []))
      × (s.exchange.printed2 ≡ (if leb 7 (made2 s.exchange.sipc2) then reply a ∷ [] else []))
      × (((t : Started) × Step (answer_process a) (ask_process b) s t) ⊎ HaveReturned s.exchange)
started_exchange a b {n} {s} r =
    let v = Run-Inv a b (Run-Simulated a b r).run.1 in
    (
      v.printed1,
      v.printed2,
      elim (Step-or_stuck (answer_process a) (ask_process b) s) [
        | inl go ↦ inl go
        | inr (stuck, stuck') ↦ inr (
            stopped_at a b s.giving s refl v stuck
              (in_exchange-none s (sipc2_at b s.exchange.sipc2 s.exchange) stuck'))
      ],
    )
