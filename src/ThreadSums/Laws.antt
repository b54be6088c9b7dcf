-- ===== src/ThreadSums/Laws.antt =====
-- tadd.c: what the threads have added up, and the result.
use linux_system_programming.Prelude.{
  ℕ, suc, ◌+◌, ◌-◌, ◌*◌, ◌≤◌, ◌≡◌, ◌⊎◌, inl, inr, refl, sym, subst, none, some, Option, arith,
}
use linux_system_programming.Prelude.Threads.{
  Run, begin, more, by_first, by_second, Run-keeps, Step, Step-or_stuck,
}
use linux_system_programming.Rpc.Sums.{below, below-add_one}
use linux_system_programming.ThreadSums.{
  Adding, Adder, adder_at, Sums, with_fif, with_han, sum50, sum100, sums_start, result,
}

-- The variable holds the sum of the numbers from `first` up to `i`, without `i`, and `i` is at most one past
-- the last number.
abbrev IsSum : ℕ → ℕ → Adding → Adder → Type 0
IsSum first last Adding.test s = (s.total + below first ≡ below s.i) × (s.i ≤ last + 1)
IsSum first last Adding.load s = (s.total + below first ≡ below s.i) × (s.i ≤ last)
IsSum first last (Adding.store sum) s =
    (s.total + below first ≡ below s.i) × (s.i ≤ last) × (sum ≡ s.total + s.i)
IsSum first last Adding.returned s = (s.total + below first ≡ below s.i) × (s.i ≡ last + 1)

adder-IsSum :
    (first last : ℕ) (at : Adding) (s t : Adder)
    → adder_at last at s ≡ some t
    → s.at ≡ at
    → IsSum first last s.at s
    → IsSum first last t.at t
unfolding adder_at
adder-IsSum first last Adding.test s t e pl v = ground (arith, v)
adder-IsSum first last Adding.load s t e pl v = ground (arith, v)
adder-IsSum first last (Adding.store sum) s t e pl v = ground (arith, v, below-add_one s.i)
adder-IsSum first last Adding.returned s t e pl v = absurd (ground arith)

in_fif-some :
    (s t : Sums) (o : Option Adder)
    → with_fif s o ≡ some t
    → (a : Adder) × (o ≡ some a) × (t ≡ record s { fif = a })
in_fif-some s t none e = absurd (ground arith)
in_fif-some s t (some a) e = (a, refl, ground arith)

in_han-some :
    (s t : Sums) (o : Option Adder)
    → with_han s o ≡ some t
    → (a : Adder) × (o ≡ some a) × (t ≡ record s { han = a })
in_han-some s t none e = absurd (ground arith)
in_han-some s t (some a) e = (a, refl, ground arith)

abbrev AreSums : Sums → Type 0
AreSums s = IsSum 1 50 s.fif.at s.fif × IsSum 51 100 s.han.at s.han

fif-AreSums : (s t : Sums) → sum50 s ≡ some t → AreSums s → AreSums t
fif-AreSums s t e v =
    let (a, made, t_is) = in_fif-some s t (adder_at 50 s.fif.at s.fif) e in
    subst AreSums (sym t_is) (adder-IsSum 1 50 s.fif.at s.fif a made refl v.0, v.1)

han-AreSums : (s t : Sums) → sum100 s ≡ some t → AreSums s → AreSums t
han-AreSums s t e v =
    let (a, made, t_is) = in_han-some s t (adder_at 100 s.han.at s.han) e in
    subst AreSums (sym t_is) (v.0, adder-IsSum 51 100 s.han.at s.han a made refl v.1)

Run-AreSums : {n : ℕ} {s : Sums} → Run sum50 sum100 sums_start n s → AreSums s
Run-AreSums r =
    Run-keeps sum50 sum100 AreSums fif-AreSums han-AreSums
      ((refl, omega arith), (refl, omega arith)) r

returned_sum :
    (first last : ℕ) (at : Adding) (s : Adder)
    → adder_at last at s ≡ none
    → IsSum first last at s
    → s.total + below first ≡ below (last + 1)
unfolding adder_at
returned_sum first last Adding.test s stuck v = absurd (ground arith)
returned_sum first last Adding.returned s stuck v = ground (arith, v)
returned_sum first last _ s stuck v = absurd (ground arith)

with_fif-none : (s : Sums) (o : Option Adder) → with_fif s o ≡ none → o ≡ none
with_fif-none s none e = refl
with_fif-none s (some a) e = absurd (ground arith)

with_han-none : (s : Sums) (o : Option Adder) → with_han s o ≡ none → o ≡ none
with_han-none s none e = refl
with_han-none s (some a) e = absurd (ground arith)

-- The steps that are left to a thread.
abbrev left_to : ℕ → Adding → Adder → ℕ
left_to last Adding.test s = 3 * (last + 1 - s.i) + 1
left_to last Adding.load s = 3 * (last + 1 - s.i)
left_to last (Adding.store sum) s = 3 * (last + 1 - s.i) - 1
left_to last Adding.returned s = 0

adder-left_to :
    (first last : ℕ) (at : Adding) (s t : Adder)
    → adder_at last at s ≡ some t
    → s.at ≡ at
    → IsSum first last at s
    → left_to last s.at s ≡ left_to last t.at t + 1
unfolding adder_at
adder-left_to first last Adding.test s t e pl v = ground (arith, v)
adder-left_to first last Adding.load s t e pl v = ground (arith, v)
adder-left_to first last (Adding.store sum) s t e pl v = ground (arith, v)
adder-left_to first last Adding.returned s t e pl v = absurd (ground arith)

abbrev steps_left : Sums → ℕ
steps_left s = left_to 50 s.fif.at s.fif + left_to 100 s.han.at s.han

Run-steps_left : {n : ℕ} {s : Sums} → Run sum50 sum100 sums_start n s → n + steps_left s ≡ 302
Run-steps_left begin = refl
Run-steps_left (more {n} {s} {t} r (by_first e)) =
    let (a, made, t_is) = in_fif-some s t (adder_at 50 s.fif.at s.fif) e in
    subst (λ u. suc n + steps_left u ≡ 302) (sym t_is)
      (omega
        (arith, Run-steps_left r, adder-left_to 1 50 s.fif.at s.fif a made refl (Run-AreSums r).0))
Run-steps_left (more {n} {s} {t} r (by_second e)) =
    let (a, made, t_is) = in_han-some s t (adder_at 100 s.han.at s.han) e in
    subst (λ u. suc n + steps_left u ≡ 302) (sym t_is)
      (omega (
        arith,
        Run-steps_left r,
        adder-left_to 51 100 s.han.at s.han a made refl (Run-AreSums r).1,
      ))

-- The threads make at most 302 steps. However they interleave, one of them can go on, or the result is the
-- sum of the numbers from 1 to 100.
pub sums_result :
    {n : ℕ} {s : Sums}
    → Run sum50 sum100 sums_start n s
    → (n ≤ 302) × (((t : Sums) × Step sum50 sum100 s t) ⊎ (result s ≡ 5050))
sums_result {n} {s} r = (
  omega (arith, Run-steps_left r),
  elim (Step-or_stuck sum50 sum100 s) [
    | inl go ↦ inl go
    | inr (stuck, stuck') ↦
        let v = Run-AreSums r in
        inr (
          omega (
            arith,
            returned_sum 1 50 s.fif.at s.fif (with_fif-none s (adder_at 50 s.fif.at s.fif) stuck)
                v.0,
            returned_sum 51 100 s.han.at s.han
                (with_han-none s (adder_at 100 s.han.at s.han) stuck') v.1,
          ))
  ],
)
