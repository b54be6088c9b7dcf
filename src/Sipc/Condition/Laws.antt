-- ===== src/Sipc/Condition/Laws.antt =====
-- sipc3.c: the order of the exchange in any interleaving in which `pthread_cond_wait` returns only after
-- a signal.
use mathlib.Core.Option.{some-injective}
use linux_system_programming.Prelude.{
  subst, ℕ, ◌*◌, ◌+◌, ◌≤◌, ◌≡◌, ◌≢◌, refl, Bool, true, false, none, some, [], ◌∷◌, ◌⊎◌, inl, inr,
  leb, if◌then◌else◌, arith,
}
use linux_system_programming.Prelude.Threads.{Step, Run, Run-keeps, Step-or_stuck}
use linux_system_programming.Sipc.{Message, blank, request, reply}
use linux_system_programming.Sipc.Condition.{
  Sipc1Place, Sipc2Place, Talk, wake1, wake2, sipc1_place, sipc2_place, answer_talk, ask_talk,
  talk_start,
}

-- How far a thread has come; waiting is not before the test and not after the wake-up.
abbrev pub far1 : Sipc1Place → ℕ
far1 Sipc1Place.lock = 0
far1 Sipc1Place.test = 1
far1 Sipc1Place.asleep = 1
far1 Sipc1Place.relock = 1
far1 Sipc1Place.print_request = 2
far1 Sipc1Place.clear = 3
far1 Sipc1Place.write_reply = 4
far1 Sipc1Place.signal = 5
far1 Sipc1Place.unlock = 6
far1 Sipc1Place.returned = 7

abbrev pub far2 : Sipc2Place → ℕ
far2 Sipc2Place.lock = 0
far2 Sipc2Place.write_request = 1
far2 Sipc2Place.fill = 2
far2 Sipc2Place.signal = 3
far2 Sipc2Place.test = 4
far2 Sipc2Place.asleep = 4
far2 Sipc2Place.relock = 4
far2 Sipc2Place.print_reply = 5
far2 Sipc2Place.unlock = 6
far2 Sipc2Place.returned = 7

abbrev pub holds1 : Sipc1Place → ℕ
holds1 Sipc1Place.lock = 0
holds1 Sipc1Place.asleep = 0
holds1 Sipc1Place.relock = 0
holds1 Sipc1Place.returned = 0
holds1 _ = 1

abbrev pub holds2 : Sipc2Place → ℕ
holds2 Sipc2Place.lock = 0
holds2 Sipc2Place.asleep = 0
holds2 Sipc2Place.relock = 0
holds2 Sipc2Place.returned = 0
holds2 _ = 1

-- 1 where a thread sleeps, and where it has been woken.
abbrev pub sleeps1 : Sipc1Place → ℕ
sleeps1 Sipc1Place.asleep = 1
sleeps1 _ = 0

abbrev pub woken1 : Sipc1Place → ℕ
woken1 Sipc1Place.relock = 1
woken1 _ = 0

abbrev pub sleeps2 : Sipc2Place → ℕ
sleeps2 Sipc2Place.asleep = 1
sleeps2 _ = 0

abbrev pub woken2 : Sipc2Place → ℕ
woken2 Sipc2Place.relock = 1
woken2 _ = 0

abbrev pub talk_content : ℕ → ℕ → ℕ → ℕ → Message
talk_content a b n m = if leb 5 n then reply a else (if leb 2 m then request b else blank)

abbrev pub as_number : Bool → ℕ
as_number true = 1
as_number false = 0

-- The answer comes after the request, and the reply is printed after the answer; a thread that sleeps
-- will be signalled; one that is woken has what it waited for.
pub record Inv (a b : ℕ) (s : Talk) : Type 0 where
  pub mutex : holds1 s.sipc1 + holds2 s.sipc2 ≡ as_number s.locked
  pub nbuf : s.nbuf ≡ (if leb 4 (far1 s.sipc1) then 0 else (if leb 3 (far2 s.sipc2) then 1 else 0))
  pub asked : (if leb 2 (far1 s.sipc1) then 3 else 0) ≤ far2 s.sipc2
  pub answered : (if leb 5 (far2 s.sipc2) then 6 else 0) ≤ far1 s.sipc1
  pub sleeping1 : far2 s.sipc2 + 4 * sleeps1 s.sipc1 ≤ 7
  pub awake1 : 4 * woken1 s.sipc1 ≤ far2 s.sipc2
  pub sleeping2 : far1 s.sipc1 + 2 * sleeps2 s.sipc2 ≤ 7
  pub awake2 : 6 * woken2 s.sipc2 ≤ far1 s.sipc1
  pub shared : s.shared ≡ talk_content a b (far1 s.sipc1) (far2 s.sipc2)
  pub printed1 : s.printed1 ≡ (if leb 3 (far1 s.sipc1) then request b ∷ [] else [])
  pub printed2 : s.printed2 ≡ (if leb 6 (far2 s.sipc2) then reply a ∷ [] else [])

place1_cases : (p : Sipc1Place) → (far1 p ≤ 1) ⊎ (holds1 p ≡ 1) ⊎ (far1 p ≡ 7)
place1_cases p = ground arith

place2_cases : (q : Sipc2Place) → (far2 q ≡ 0) ⊎ (far2 q ≡ 4) ⊎ (holds2 q ≡ 1) ⊎ (far2 q ≡ 7)
place2_cases q = ground arith

keep_wake2 :
    (a b : ℕ) (q : Sipc2Place) (s : Talk)
    → s.sipc1 ≡ Sipc1Place.signal
    → s.sipc2 ≡ q
    → Inv a b s
    → Inv a b (record s { sipc2 = wake2 q; sipc1 = Sipc1Place.unlock })
unfolding wake2
keep_wake2 a b Sipc2Place.asleep s at there v = ground arith
keep_wake2 a b _ s at there v = ground arith

keep_wake1 :
    (a b : ℕ) (p : Sipc1Place) (s : Talk)
    → s.sipc2 ≡ Sipc2Place.signal
    → s.sipc1 ≡ p
    → Inv a b s
    → Inv a b (record s { sipc1 = wake1 p; sipc2 = Sipc2Place.test })
unfolding wake1
keep_wake1 a b Sipc1Place.asleep s at there v = ground arith
keep_wake1 a b _ s at there v = ground arith

keep_sipc1 :
    (a b : ℕ) (pc : Sipc1Place) (s t : Talk)
    → sipc1_place a pc s ≡ some t
    → s.sipc1 ≡ pc
    → Inv a b s
    → Inv a b t
unfolding sipc1_place
keep_sipc1 a b Sipc1Place.signal s t e at v =
    subst (Inv a b) (some-injective _ _ e) (keep_wake2 a b s.sipc2 s at refl v)
keep_sipc1 a b _ s t e at v = ground (arith, place2_cases s.sipc2)

keep_sipc2 :
    (a b : ℕ) (pc : Sipc2Place) (s t : Talk)
    → sipc2_place b pc s ≡ some t
    → s.sipc2 ≡ pc
    → Inv a b s
    → Inv a b t
unfolding sipc2_place
keep_sipc2 a b Sipc2Place.signal s t e at v =
    subst (Inv a b) (some-injective _ _ e) (keep_wake1 a b s.sipc1 s at refl v)
keep_sipc2 a b _ s t e at v = ground (arith, place1_cases s.sipc1)

Inv-start : (a b : ℕ) → Inv a b talk_start
Inv-start a b = record {
  mutex = refl;
  nbuf = refl;
  asked = omega arith;
  answered = omega arith;
  sleeping1 = omega arith;
  awake1 = omega arith;
  sleeping2 = omega arith;
  awake2 = omega arith;
  shared = refl;
  printed1 = refl;
  printed2 = refl;
}

Run-Inv : (a b : ℕ) {n : ℕ} {s : Talk} → Run (answer_talk a) (ask_talk b) talk_start n s → Inv a b s
Run-Inv a b r =
    Run-keeps (answer_talk a) (ask_talk b) (Inv a b)
      (λ s t e v. keep_sipc1 a b s.sipc1 s t e refl v)
      (λ s t e v. keep_sipc2 a b s.sipc2 s t e refl v) (Inv-start a b) r

-- In any interleaving without spurious wake-ups `Sipc1` prints the request of `Sipc2` and nothing else,
-- `Sipc2` prints the reply of `Sipc1` and nothing else, and `Nbuf` is 1 from the request to its receipt
-- and 0 otherwise.
pub talk_printed :
    (a b n : ℕ) (s : Talk)
    → Run (answer_talk a) (ask_talk b) talk_start n s
    → (s.printed1 ≡ (if leb 3 (far1 s.sipc1) then request b ∷ [] else []))
      × (s.printed2 ≡ (if leb 6 (far2 s.sipc2) then reply a ∷ [] else []))
      × (s.nbuf ≡ (if leb 4 (far1 s.sipc1) then 0 else (if leb 3 (far2 s.sipc2) then 1 else 0)))
talk_printed a b n s r = let v = Run-Inv a b r in (v.printed1, v.printed2, v.nbuf)

-- Both threads have returned.
pub record TalkOver (s : Talk) : Type 0 where
  pub first : s.sipc1 ≡ Sipc1Place.returned
  pub second : s.sipc2 ≡ Sipc2Place.returned

stuck_TalkOver :
    (a b : ℕ) (s : Talk) (p : Sipc1Place) (q : Sipc2Place)
    → s.sipc1 ≡ p
    → s.sipc2 ≡ q
    → Inv a b s
    → sipc1_place a p s ≡ none
    → sipc2_place b q s ≡ none
    → TalkOver s
unfolding sipc1_place sipc2_place
stuck_TalkOver a b s _ _ pe qe v pn qn = ground arith

-- Without spurious wake-ups neither thread waits for ever: in every state of a run a thread can go on or
-- both have returned.
pub talk_goes_on :
    (a b n : ℕ) (s : Talk)
    → Run (answer_talk a) (ask_talk b) talk_start n s
    → ((t : Talk) × Step (answer_talk a) (ask_talk b) s t) ⊎ TalkOver s
talk_goes_on a b n s r = elim (Step-or_stuck (answer_talk a) (ask_talk b) s) [
  | inl go ↦ inl go
  | inr (stuck, stuck') ↦
      inr (stuck_TalkOver a b s s.sipc1 s.sipc2 refl refl (Run-Inv a b r) stuck stuck')
]

-- `Sipc1` is gone, and `Sipc2` has not come past its test.
pub record Unanswered (s : Talk) : Type 0 where
  pub gone : s.sipc1 ≡ Sipc1Place.returned
  pub before : far2 s.sipc2 + woken2 s.sipc2 ≤ 4
  pub filled : (far2 s.sipc2 ≤ 2) ⊎ (s.nbuf ≡ 1)

keep_unanswered1 :
    (a : ℕ) (s t : Talk) (pc : Sipc1Place)
    → sipc1_place a pc s ≡ some t
    → s.sipc1 ≡ pc
    → Unanswered s
    → Unanswered t
unfolding sipc1_place
keep_unanswered1 a s t Sipc1Place.returned e at u = absurd (ground arith)
keep_unanswered1 a s t _ e at u = absurd (ground (arith, u.gone))

keep_unanswered2 :
    (b : ℕ) (s t : Talk) (pc : Sipc2Place)
    → sipc2_place b pc s ≡ some t
    → s.sipc2 ≡ pc
    → Unanswered s
    → Unanswered t
unfolding sipc2_place wake1
keep_unanswered2 b s t Sipc2Place.signal e at u = grind (arith, u.gone)
keep_unanswered2 b s t _ e at u = ground (arith, u.gone)

Unanswered-not_returned : (s : Talk) → Unanswered s → s.sipc2 ≢ Sipc2Place.returned
Unanswered-not_returned s u e = ground arith

-- If `Sipc1` has returned before `Sipc2` has taken the mutex, as after a spurious wake-up, `Sipc2` waits
-- for ever: nothing that the threads do makes it return.
pub reply_lost :
    (a b n : ℕ) (s t : Talk)
    → s.sipc1 ≡ Sipc1Place.returned
    → s.sipc2 ≡ Sipc2Place.lock
    → Run (answer_talk a) (ask_talk b) s n t
    → t.sipc2 ≢ Sipc2Place.returned
reply_lost a b n s t gone waits r =
    let u : Unanswered s = record { gone = gone; before = ground arith; filled = ground arith } in
    let v : Unanswered t =
      Run-keeps (answer_talk a) (ask_talk b) Unanswered
        (λ x y e w. keep_unanswered1 a x y x.sipc1 e refl w)
        (λ x y e w. keep_unanswered2 b x y x.sipc2 e refl w) u r in
    Unanswered-not_returned t v
