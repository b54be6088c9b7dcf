-- ===== src/Sipc/Started/Exit.antt =====
-- sipc1.c and sipc2.c with the exit of sipc1.c: what is printed, and how they end.
use linux_system_programming.Prelude.{
  ℕ, suc, ◌≡◌, refl, sym, subst, Bool, true, false, List, Option, none, some, [], ◌∷◌, ◌⊎◌, inl,
  inr, leb, if◌then◌else◌, arith,
}
use linux_system_programming.Prelude.Threads.{
  Run, begin, more, by_first, by_second, Run-keeps, Step, Step-or_stuck,
}
use linux_system_programming.Sipc.{Message, request, reply}
use linux_system_programming.Sipc.Semaphores.{Exchange, Sipc1At, Sipc2At, sipc2_at}
use linux_system_programming.Sipc.Semaphores.Laws.{Inv, Run-Inv, made1, made2}
use linux_system_programming.Sipc.Started.{
  Started, answer_process, ask_process, started, Ending, undone, in_state, sipc1_ending,
  sipc1_process, sipc2_process, ending_start,
}
use linux_system_programming.Sipc.Started.Laws.{
  lifted, Run-Simulated, started_exchange, in_exchange-some, in_exchange-none,
}

-- After the exit: sipc2.c waits, for ever, or has the reply.
abbrev AfterExit : ℕ → ℕ → Sipc2At → Exchange → Type 0
AfterExit a b Sipc2At.wait_reply s =
    (s.printed1 ≡ request b ∷ []) × (s.empty ≡ 0) × (s.printed2 ≡ [])
AfterExit a b Sipc2At.print_reply s =
    (s.printed1 ≡ request b ∷ []) × (s.shared ≡ reply a) × (s.printed2 ≡ [])
AfterExit a b Sipc2At.returned s = (s.printed1 ≡ request b ∷ []) × (s.printed2 ≡ reply a ∷ [])
AfterExit a b _ s = ⊥

-- Before the exit the processes are those of `Started`.
data Phase (a b : ℕ) (e : Ending) : Type 0 where
  running :
      e.gone ≡ false
      → (n : ℕ) → Run (answer_process a) (ask_process b) started n e.state
      → Phase a b e
  exited : e.gone ≡ true → AfterExit a b e.state.exchange.sipc2 e.state.exchange → Phase a b e

undone-AfterExit :
    (a b : ℕ) (s : Started) (at : Sipc2At)
    → s.exchange.sipc1 ≡ Sipc1At.returned
    → s.exchange.sipc2 ≡ at
    → Inv a b (lifted s)
    → AfterExit a b at (undone s.exchange)
undone-AfterExit a b s _ pl ql v = ground (arith, v.full, v.empty, v.shared, v.printed1, v.printed2)

ask-AfterExit :
    (a b : ℕ) (at : Sipc2At) (s t : Exchange)
    → sipc2_at b at s ≡ some t
    → AfterExit a b at s
    → AfterExit a b t.sipc2 t
unfolding sipc2_at
ask-AfterExit a b Sipc2At.wait_reply s t e v = ground (arith, v)
ask-AfterExit a b Sipc2At.print_reply s t e v = ground (arith, v)
ask-AfterExit a b Sipc2At.returned s t e v = absurd (ground arith)
ask-AfterExit a b _ s t e v = absurd v

in_state-some :
    (e t : Ending) (o : Option Started)
    → in_state e o ≡ some t
    → (u : Started) × (o ≡ some u) × (t ≡ record e { state = u })
in_state-some e t none h = absurd (ground arith)
in_state-some e t (some u) h = (u, refl, ground arith)

sipc2-Phase : (a b : ℕ) (e t : Ending) → sipc2_process b e ≡ some t → Phase a b e → Phase a b t
sipc2-Phase a b e t h (running here n r) =
    let (u, made, t_is) = in_state-some e t (ask_process b e.state) h in
    subst (Phase a b) (sym t_is) (running here (suc n) (more r (by_second made)))
sipc2-Phase a b e t h (exited gone v) =
    let (u, made, t_is) = in_state-some e t (ask_process b e.state) h in
    let (x, moved, u_is) =
      in_exchange-some e.state u (sipc2_at b e.state.exchange.sipc2 e.state.exchange) made in
    subst (Phase a b) (sym t_is) (
      subst (λ w. Phase a b (record e { state = w })) (sym u_is)
        (exited gone (ask-AfterExit a b e.state.exchange.sipc2 e.state.exchange x moved v)))

sipc1-Phase :
    (a b : ℕ) (gone : Bool) (at : Sipc1At) (e t : Ending)
    → sipc1_ending a gone at e ≡ some t
    → e.gone ≡ gone
    → e.state.exchange.sipc1 ≡ at
    → Phase a b e
    → Phase a b t
unfolding sipc1_ending
sipc1-Phase a b true at e t h g pl v = absurd (ground arith)
sipc1-Phase a b false at e t h g pl (exited gone v) = absurd (ground arith)
sipc1-Phase a b false Sipc1At.returned e t h g pl (running here n r) =
    let u : Ending = record {
      state = record (e.state) { exchange = undone e.state.exchange };
      gone = true;
    } in
    let same : u ≡ t = ground arith in
    subst (Phase a b) same (
      exited refl (
        undone-AfterExit a b e.state e.state.exchange.sipc2 pl refl
          (Run-Inv a b (Run-Simulated a b r).run.1)))
sipc1-Phase a b false _ e t h g pl (running here n r) =
    let (u, made, t_is) = in_state-some e t (answer_process a e.state) h in
    subst (Phase a b) (sym t_is) (running here (suc n) (more r (by_first made)))

Run-Phase :
    (a b : ℕ) {n : ℕ} {e : Ending}
    → Run (sipc1_process a) (sipc2_process b) ending_start n e
    → Phase a b e
Run-Phase a b r =
    Run-keeps (sipc1_process a) (sipc2_process b) (Phase a b)
      (λ e t h v. sipc1-Phase a b e.gone e.state.exchange.sipc1 e t h refl refl v) (sipc2-Phase a b)
      (running refl 0 begin) r

-- How they end: each has printed the other's message; or sipc1.c has exited, and sipc2.c, which was still
-- waiting for the reply, waits for ever.
pub data HasEnded (a b : ℕ) (e : Ending) : Type 0 where
  answered :
      e.gone ≡ true
      → e.state.exchange.sipc2 ≡ Sipc2At.returned
      → e.state.exchange.printed1 ≡ request b ∷ []
      → e.state.exchange.printed2 ≡ reply a ∷ []
      → HasEnded a b e
  lost :
      e.gone ≡ true
      → e.state.exchange.sipc2 ≡ Sipc2At.wait_reply
      → e.state.exchange.printed1 ≡ request b ∷ []
      → e.state.exchange.printed2 ≡ []
      → HasEnded a b e

in_state-none : (e : Ending) (o : Option Started) → in_state e o ≡ none → o ≡ none
in_state-none e none h = refl
in_state-none e (some t) h = absurd (ground arith)

-- Before its exit sipc1.c can go on wherever sipc2.c cannot.
stuck_running :
    (a b : ℕ) (at : Sipc1At) (e : Ending) {n : ℕ}
    → e.state.exchange.sipc1 ≡ at
    → Run (answer_process a) (ask_process b) started n e.state
    → sipc1_ending a false at e ≡ none
    → ask_process b e.state ≡ none
    → ⊥
unfolding sipc1_ending
stuck_running a b Sipc1At.returned e pl r stuck stuck' = ground arith
stuck_running a b _ e pl r stuck stuck' = elim ((started_exchange a b r).2) [
  | inl (t, by_first go) ↦ cc
  | inl (t, by_second go) ↦ cc
  | inr over ↦ ground arith
]

stuck_exited :
    (a b : ℕ) (at : Sipc2At) (e : Ending)
    → e.state.exchange.sipc2 ≡ at
    → e.gone ≡ true
    → AfterExit a b at e.state.exchange
    → sipc2_at b at e.state.exchange ≡ none
    → HasEnded a b e
unfolding sipc2_at
stuck_exited a b Sipc2At.wait_reply e pl gone v stuck = lost gone pl v.0 v.2
stuck_exited a b Sipc2At.print_reply e pl gone v stuck = absurd (ground arith)
stuck_exited a b Sipc2At.returned e pl gone v stuck = answered gone pl v.0 v.1
stuck_exited a b _ e pl gone v stuck = absurd v

-- Nothing has been printed, or one message.
abbrev pub AtMost : Message → List Message → Type 0
AtMost m out = (out ≡ []) ⊎ (out ≡ m ∷ [])

if-AtMost :
    (m : Message) (out : List Message) (c : Bool) → out ≡ (if c then m ∷ [] else []) → AtMost m out
if-AtMost m out true e = inr e
if-AtMost m out false e = inl e

exited-AtMost :
    (a b : ℕ) (at : Sipc2At) (s : Exchange)
    → AfterExit a b at s
    → AtMost (request b) s.printed1 × AtMost (reply a) s.printed2
exited-AtMost a b Sipc2At.wait_reply s v = (inr v.0, inl v.2)
exited-AtMost a b Sipc2At.print_reply s v = (inr v.0, inl v.2)
exited-AtMost a b Sipc2At.returned s v = (inr v.0, inr v.1)
exited-AtMost a b _ s v = absurd v

Phase-AtMost :
    (a b : ℕ) (e : Ending)
    → Phase a b e
    → AtMost (request b) e.state.exchange.printed1 × AtMost (reply a) e.state.exchange.printed2
Phase-AtMost a b e (running here n r) =
    let v = started_exchange a b r in
    (
      if-AtMost (request b) e.state.exchange.printed1 (leb 3 (made1 e.state.exchange.sipc1)) v.0,
      if-AtMost (reply a) e.state.exchange.printed2 (leb 7 (made2 e.state.exchange.sipc2)) v.1,
    )
Phase-AtMost a b e (exited gone v) = exited-AtMost a b e.state.exchange.sipc2 e.state.exchange v

stuck-HasEnded :
    (a b : ℕ) (gone : Bool) (e : Ending)
    → e.gone ≡ gone
    → Phase a b e
    → sipc1_ending a gone e.state.exchange.sipc1 e ≡ none
    → sipc2_process b e ≡ none
    → HasEnded a b e
stuck-HasEnded a b true e g (running here n r) stuck stuck' = absurd (ground arith)
stuck-HasEnded a b false e g (running here n r) stuck stuck' = absurd (
    stuck_running a b e.state.exchange.sipc1 e refl r stuck
      (in_state-none e (ask_process b e.state) stuck'))
stuck-HasEnded a b gone e g (exited gone' v) stuck stuck' =
    stuck_exited a b e.state.exchange.sipc2 e refl gone' v (
      in_exchange-none e.state (sipc2_at b e.state.exchange.sipc2 e.state.exchange)
        (in_state-none e (ask_process b e.state) stuck'))

-- Whichever process is started first: each prints the other's message, once, or nothing; and one of them can
-- go on, the exit of sipc1.c included, until both messages have been printed, or sipc1.c has exited while
-- sipc2.c waits for the reply, which then waits for ever.
pub exchange_ends_or_lost :
    (a b : ℕ) {n : ℕ} {e : Ending}
    → Run (sipc1_process a) (sipc2_process b) ending_start n e
    → AtMost (request b) e.state.exchange.printed1
      × AtMost (reply a) e.state.exchange.printed2
      × (((t : Ending) × Step (sipc1_process a) (sipc2_process b) e t) ⊎ HasEnded a b e)
exchange_ends_or_lost a b {n} {e} r =
    let v = Run-Phase a b r in
    let out = Phase-AtMost a b e v in
    (
      out.0,
      out.1,
      elim (Step-or_stuck (sipc1_process a) (sipc2_process b) e) [
        | inl go ↦ inl go
        | inr (stuck, stuck') ↦ inr (stuck-HasEnded a b e.gone e refl v stuck stuck')
      ],
    )
