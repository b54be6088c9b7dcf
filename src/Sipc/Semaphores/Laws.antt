-- ===== src/Sipc/Semaphores/Laws.antt =====
-- sipc4.c: the order of the exchange in any interleaving.
use linux_system_programming.Prelude.{
  ℕ, suc, ◌+◌, ◌≤◌, ◌≡◌, refl, ap, ◌∙◌, none, some, [], ◌∷◌, ◌⊎◌, inl, inr, leb, if◌then◌else◌,
  arith,
}
use linux_system_programming.Prelude.Threads.{
  Step, Run, Run-keeps, Step-or_stuck, begin, more, by_first, by_second,
}
use linux_system_programming.Sipc.{Message, blank, request, reply}
use linux_system_programming.Sipc.Semaphores.{
  Sipc1At, Sipc2At, Exchange, sipc1_at, sipc2_at, answer_step, ask_step, exchange_start,
}

-- How many steps a thread has made.
abbrev pub made1 : Sipc1At → ℕ
made1 Sipc1At.wait_full = 0
made1 Sipc1At.wait_mutex = 1
made1 Sipc1At.print_request = 2
made1 Sipc1At.write_reply = 3
made1 Sipc1At.post_mutex = 4
made1 Sipc1At.post_empty = 5
made1 Sipc1At.returned = 6

abbrev pub made2 : Sipc2At → ℕ
made2 Sipc2At.wait_empty = 0
made2 Sipc2At.wait_mutex = 1
made2 Sipc2At.write_request = 2
made2 Sipc2At.post_mutex = 3
made2 Sipc2At.post_full = 4
made2 Sipc2At.wait_reply = 5
made2 Sipc2At.print_reply = 6
made2 Sipc2At.returned = 7

-- 1 once `n` reaches `k`.
abbrev from : ℕ → ℕ → ℕ
from k n = if leb k n then 1 else 0

-- 1 from `lo` to `hi`.
abbrev within : ℕ → ℕ → ℕ → ℕ
within lo hi n = if leb lo n then (if leb n hi then 1 else 0) else 0

-- What the array holds when the threads have made so many steps.
abbrev pub content : ℕ → ℕ → ℕ → ℕ → Message
content a b n m = if leb 4 n then reply a else (if leb 3 m then request b else blank)

pub record Inv (a b : ℕ) (s : Exchange) : Type 0 where
  pub full : s.full + from 1 (made1 s.sipc1) ≡ from 5 (made2 s.sipc2)
  pub empty : s.empty + from 1 (made2 s.sipc2) + from 6 (made2 s.sipc2) ≡ 1 + from 6 (made1 s.sipc1)
  pub mutex : s.mutex + within 2 4 (made1 s.sipc1) + within 2 3 (made2 s.sipc2) ≡ 1
  pub shared : s.shared ≡ content a b (made1 s.sipc1) (made2 s.sipc2)
  pub printed1 : s.printed1 ≡ (if leb 3 (made1 s.sipc1) then request b ∷ [] else [])
  pub printed2 : s.printed2 ≡ (if leb 7 (made2 s.sipc2) then reply a ∷ [] else [])

keep_sipc1 :
    (a b : ℕ) (pc : Sipc1At) (s t : Exchange)
    → sipc1_at a pc s ≡ some t
    → s.sipc1 ≡ pc
    → Inv a b s
    → Inv a b t
unfolding sipc1_at
keep_sipc1 a b _ s t e at v = ground arith

keep_sipc2 :
    (a b : ℕ) (pc : Sipc2At) (s t : Exchange)
    → sipc2_at b pc s ≡ some t
    → s.sipc2 ≡ pc
    → Inv a b s
    → Inv a b t
unfolding sipc2_at
keep_sipc2 a b _ s t e at v = ground arith

Inv-start : (a b : ℕ) → Inv a b exchange_start
Inv-start a b = record {
  full = refl;
  empty = refl;
  mutex = refl;
  shared = refl;
  printed1 = refl;
  printed2 = refl;
}

pub Run-Inv :
    (a b : ℕ) {n : ℕ} {s : Exchange}
    → Run (answer_step a) (ask_step b) exchange_start n s
    → Inv a b s
Run-Inv a b r =
    Run-keeps (answer_step a) (ask_step b) (Inv a b)
      (λ s t e v. keep_sipc1 a b s.sipc1 s t e refl v)
      (λ s t e v. keep_sipc2 a b s.sipc2 s t e refl v) (Inv-start a b) r

-- In any interleaving `Sipc1` prints the request of `Sipc2` and nothing else, and `Sipc2` prints the
-- reply of `Sipc1` and nothing else.
pub exchange_printed :
    (a b n : ℕ) (s : Exchange)
    → Run (answer_step a) (ask_step b) exchange_start n s
    → (s.printed1 ≡ (if leb 3 (made1 s.sipc1) then request b ∷ [] else []))
      × (s.printed2 ≡ (if leb 7 (made2 s.sipc2) then reply a ∷ [] else []))
exchange_printed a b n s r = let v = Run-Inv a b r in (v.printed1, v.printed2)

-- Whether a thread is about to use the array.
abbrev pub uses1 : Sipc1At → ℕ
uses1 Sipc1At.print_request = 1
uses1 Sipc1At.write_reply = 1
uses1 _ = 0

abbrev pub uses2 : Sipc2At → ℕ
uses2 Sipc2At.write_request = 1
uses2 Sipc2At.print_reply = 1
uses2 _ = 0

uses_apart :
    (a b : ℕ) (s : Exchange) (p : Sipc1At) (q : Sipc2At)
    → s.sipc1 ≡ p
    → s.sipc2 ≡ q
    → Inv a b s
    → uses1 p + uses2 q ≤ 1
uses_apart a b s Sipc1At.print_request q pe qe v = ground arith
uses_apart a b s Sipc1At.write_reply q pe qe v = ground arith
uses_apart a b s p q pe qe v = ground arith

-- The two threads are never both about to use the shared array, also where `Sipc2` prints it with the
-- mutex free.
pub no_race :
    (a b n : ℕ) (s : Exchange)
    → Run (answer_step a) (ask_step b) exchange_start n s
    → uses1 s.sipc1 + uses2 s.sipc2 ≤ 1
no_race a b n s r = uses_apart a b s s.sipc1 s.sipc2 refl refl (Run-Inv a b r)

-- Both threads have returned.
pub record HaveReturned (s : Exchange) : Type 0 where
  pub first : s.sipc1 ≡ Sipc1At.returned
  pub second : s.sipc2 ≡ Sipc2At.returned

pub stuck_HaveReturned :
    (a b : ℕ) (s : Exchange) (p : Sipc1At) (q : Sipc2At)
    → s.sipc1 ≡ p
    → s.sipc2 ≡ q
    → Inv a b s
    → sipc1_at a p s ≡ none
    → sipc2_at b q s ≡ none
    → HaveReturned s
unfolding sipc1_at sipc2_at
stuck_HaveReturned a b s _ _ pe qe v pn qn = ground arith

made1_step :
    (a : ℕ) (pc : Sipc1At) (s t : Exchange)
    → sipc1_at a pc s ≡ some t
    → s.sipc1 ≡ pc
    → made1 t.sipc1 + made2 t.sipc2 ≡ suc (made1 s.sipc1 + made2 s.sipc2)
unfolding sipc1_at
made1_step a _ s t e at = ground arith

made2_step :
    (b : ℕ) (pc : Sipc2At) (s t : Exchange)
    → sipc2_at b pc s ≡ some t
    → s.sipc2 ≡ pc
    → made1 t.sipc1 + made2 t.sipc2 ≡ suc (made1 s.sipc1 + made2 s.sipc2)
unfolding sipc2_at
made2_step b _ s t e at = ground arith

made-Run :
    (a b : ℕ) {n : ℕ} {s : Exchange}
    → Run (answer_step a) (ask_step b) exchange_start n s
    → made1 s.sipc1 + made2 s.sipc2 ≡ n
made-Run a b begin = refl
made-Run a b (more {n} {s} {t} r (by_first e)) =
    made1_step a s.sipc1 s t e refl ∙ ap suc (made-Run a b r)
made-Run a b (more {n} {s} {t} r (by_second e)) =
    made2_step b s.sipc2 s t e refl ∙ ap suc (made-Run a b r)

made-le : (p : Sipc1At) (q : Sipc2At) → made1 p + made2 q ≤ 13
made-le p q = grind arith

-- The exchange always comes to its end: in every state of a run a thread can go on or both have
-- returned, and no run is longer than 13 steps.
pub exchange_ends :
    (a b n : ℕ) (s : Exchange)
    → Run (answer_step a) (ask_step b) exchange_start n s
    → (n ≤ 13) × (((t : Exchange) × Step (answer_step a) (ask_step b) s t) ⊎ HaveReturned s)
exchange_ends a b n s r = (
  omega (arith, made-Run a b r, made-le s.sipc1 s.sipc2),
  elim (Step-or_stuck (answer_step a) (ask_step b) s) [
    | inl go ↦ inl go
    | inr (stuck, stuck') ↦
        inr (stuck_HaveReturned a b s s.sipc1 s.sipc2 refl refl (Run-Inv a b r) stuck stuck')
  ],
)
