-- ===== src/Ipc/Flag/Laws.antt =====
-- sipc1.c and sipc2.c of "5_Inter-Process Communication": what is printed, and that both end.
use linux_system_programming.Prelude.{
  ℕ, suc, ◌+◌, ◌≤◌, ◌≡◌, ◌⊎◌, inl, inr, refl, none, some, [], ◌∷◌, leb, if◌then◌else◌, ◌&&◌, arith,
}
use linux_system_programming.Prelude.Threads.{
  Run, Run-keeps, begin, more, by_first, by_second, Step, Step-or_stuck,
}
use linux_system_programming.Sipc.{blank, request, reply}
use linux_system_programming.Ipc.Flag.{
  Answerer, Asker, Segment, answerer_at, asker_at, flag_answer, flag_ask, flag_start,
}

-- The steps that a process has made.
abbrev pub answered : Answerer → ℕ
answered Answerer.wait_flag = 0
answered Answerer.print_request = 1
answered Answerer.write_reply = 2
answered Answerer.clear_flag = 3
answered Answerer.remove = 4
answered Answerer.returned = 5

abbrev pub asked : Asker → ℕ
asked Asker.write_request = 0
asked Asker.set_flag = 1
asked Asker.wait_clear = 2
asked Asker.print_reply = 3
asked Asker.returned = 4

record FlagInv (a b : ℕ) (s : Segment) : Type 0 where
  flag : s.flag ≡ (if leb 2 (asked s.asker) && leb (answered s.answerer) 3 then 1 else 0)
  first : (answered s.answerer ≡ 0) ⊎ (2 ≤ asked s.asker)
  second : (asked s.asker ≤ 2) ⊎ (4 ≤ answered s.answerer)
  text : s.text ≡ (
      if leb 3 (answered s.answerer)
      then reply a
      else (if leb 1 (asked s.asker) then request b else blank))
  printed1 : s.printed1 ≡ (if leb 2 (answered s.answerer) then request b ∷ [] else [])
  printed2 : s.printed2 ≡ (if leb 4 (asked s.asker) then reply a ∷ [] else [])

answerer-keeps :
    (a b : ℕ) (at : Answerer) (s t : Segment)
    → answerer_at a at s ≡ some t
    → s.answerer ≡ at
    → FlagInv a b s
    → FlagInv a b t
unfolding answerer_at
answerer-keeps a b Answerer.wait_flag s t e at v = record {
  flag = ground (arith, v.flag, v.first, v.second);
  first = ground (arith, v.flag, v.first, v.second);
  second = ground (arith, v.flag, v.first, v.second);
  text = ground (arith, v.text, v.first);
  printed1 = ground (arith, v.printed1, v.text);
  printed2 = ground (arith, v.printed2);
}
answerer-keeps a b _ s t e at v = record {
  flag = ground (arith, v.flag, v.first, v.second);
  first = ground (arith, v.flag, v.first, v.second);
  second = ground (arith, v.flag, v.first, v.second);
  text = ground (arith, v.text, v.first, v.second);
  printed1 = ground (arith, v.printed1, v.text, v.first);
  printed2 = ground (arith, v.printed2);
}

asker-keeps :
    (a b : ℕ) (at : Asker) (s t : Segment)
    → asker_at b at s ≡ some t
    → s.asker ≡ at
    → FlagInv a b s
    → FlagInv a b t
unfolding asker_at
asker-keeps a b Asker.wait_clear s t e at v = record {
  flag = ground (arith, v.flag, v.first, v.second);
  first = ground (arith, v.flag, v.first, v.second);
  second = ground (arith, v.flag, v.first, v.second);
  text = ground (arith, v.text, v.first);
  printed1 = ground (arith, v.printed1, v.text);
  printed2 = ground (arith, v.printed2);
}
asker-keeps a b _ s t e at v = record {
  flag = ground (arith, v.flag, v.first, v.second);
  first = ground (arith, v.flag, v.first, v.second);
  second = ground (arith, v.flag, v.first, v.second);
  text = ground (arith, v.text, v.first, v.second);
  printed1 = ground (arith, v.printed1);
  printed2 = ground (arith, v.printed2, v.text, v.first, v.second);
}

abbrev pub FlagRun : ℕ → ℕ → ℕ → Segment → Type 0
FlagRun a b n s = Run (flag_answer a) (flag_ask b) flag_start n s

Run-FlagInv : (a b : ℕ) {n : ℕ} {s : Segment} → FlagRun a b n s → FlagInv a b s
Run-FlagInv a b r =
    Run-keeps (flag_answer a) (flag_ask b) (FlagInv a b)
      (λ s t e v. answerer-keeps a b s.answerer s t e refl v)
      (λ s t e v. asker-keeps a b s.asker s t e refl v)
      (record {
        flag = refl;
        first = inl refl;
        second = inl (omega arith);
        text = refl;
        printed1 = refl;
        printed2 = refl;
      })
      r

answerer-counts :
    (a : ℕ) (at : Answerer) (s t : Segment)
    → answerer_at a at s ≡ some t
    → s.answerer ≡ at
    → answered t.answerer + asked t.asker ≡ suc (answered s.answerer + asked s.asker)
unfolding answerer_at
answerer-counts a Answerer.wait_flag s t e at = ground arith
answerer-counts a _ s t e at = ground arith

asker-counts :
    (b : ℕ) (at : Asker) (s t : Segment)
    → asker_at b at s ≡ some t
    → s.asker ≡ at
    → answered t.answerer + asked t.asker ≡ suc (answered s.answerer + asked s.asker)
unfolding asker_at
asker-counts b Asker.wait_clear s t e at = ground arith
asker-counts b _ s t e at = ground arith

Run-count :
    (a b : ℕ) {n : ℕ} {s : Segment} → FlagRun a b n s → answered s.answerer + asked s.asker ≡ n
Run-count a b begin = refl
Run-count a b (more {n} {s} {t} r (by_first e)) =
    omega (arith, Run-count a b r, answerer-counts a s.answerer s t e refl)
Run-count a b (more {n} {s} {t} r (by_second e)) =
    omega (arith, Run-count a b r, asker-counts b s.asker s t e refl)

answered-le : (p : Answerer) → answered p ≤ 5
answered-le Answerer.returned = omega arith
answered-le _ = omega arith

asked-le : (q : Asker) → asked q ≤ 4
asked-le Asker.returned = omega arith
asked-le _ = omega arith

-- Both processes have returned.
pub record BothReturned (s : Segment) : Type 0 where
  pub first : s.answerer ≡ Answerer.returned
  pub second : s.asker ≡ Asker.returned

stuck_BothReturned :
    (a b : ℕ) (p : Answerer) (q : Asker) (s : Segment)
    → s.answerer ≡ p
    → s.asker ≡ q
    → FlagInv a b s
    → answerer_at a p s ≡ none
    → asker_at b q s ≡ none
    → BothReturned s
unfolding answerer_at asker_at
stuck_BothReturned a b Answerer.returned Asker.returned s pe qe v e e' = record {
  first = pe;
  second = qe;
}
stuck_BothReturned a b _ _ s pe qe v e e' = absurd (ground (arith, v.flag, v.first, v.second))

-- In any interleaving each process prints the other's message and nothing else; no run is longer than 9
-- steps, and one of the processes can go on until both have returned.
pub flag_exchange :
    (a b : ℕ) {n : ℕ} {s : Segment}
    → FlagRun a b n s
    → (s.printed1 ≡ (if leb 2 (answered s.answerer) then request b ∷ [] else []))
      × (s.printed2 ≡ (if leb 4 (asked s.asker) then reply a ∷ [] else []))
      × (n ≤ 9)
      × (((t : Segment) × Step (flag_answer a) (flag_ask b) s t) ⊎ BothReturned s)
flag_exchange a b {n} {s} r =
    let v = Run-FlagInv a b r in
    (
      v.printed1,
      v.printed2,
      omega (arith, Run-count a b r, answered-le s.answerer, asked-le s.asker),
      elim (Step-or_stuck (flag_answer a) (flag_ask b) s) [
        | inl go ↦ inl go
        | inr (stuck, stuck') ↦
            inr (stuck_BothReturned a b s.answerer s.asker s refl refl v stuck stuck')
      ],
    )
