-- ===== src/Listing/Number/Reverse.antt =====
-- Turning an array round in place reverses it.
use linux_system_programming.Prelude.{
  ℕ, zero, suc, ◌+◌, ◌-◌, ◌≤◌, ◌≡◌, refl, ap, ap₂, sym, ◌∙◌, List, [], ◌∷◌, ◌++◌, length,
  length-append, append_assoc, append-nil, get_or, set, lt→ltb, arith,
}
use mathlib.Core.List.{reverse, reverse-cons, reverse-append}
use linux_system_programming.Listing.Number.{swap, turn_round}

-- A list of two elements or more has a last one.
pub data Ends : List ℕ → Type 0 where
  none_left : Ends []
  one_left : (x : ℕ) → Ends (x ∷ [])
  two_ends : (x y : ℕ) (mid : List ℕ) → Ends (x ∷ (mid ++ (y ∷ [])))

Ends-cons : (x : ℕ) {xs : List ℕ} → Ends xs → Ends (x ∷ xs)
Ends-cons x none_left = one_left x
Ends-cons x (one_left y) = two_ends x y []
Ends-cons x (two_ends y z mid) = two_ends x z (y ∷ mid)

pub ends : (xs : List ℕ) → Ends xs
ends [] = none_left
ends (x ∷ xs) = Ends-cons x (ends xs)

get_or-append : (pre rest : List ℕ) (x : ℕ) → get_or (pre ++ (x ∷ rest)) (length pre) 0 ≡ x
get_or-append [] rest x = refl
get_or-append (p ∷ pre) rest x = get_or-append pre rest x

set-append :
    (pre rest : List ℕ) (x v : ℕ) → set (pre ++ (x ∷ rest)) (length pre) v ≡ pre ++ (v ∷ rest)
set-append [] rest x v = refl
set-append (p ∷ pre) rest x v = ap (◌∷◌ p) (set-append pre rest x v)

-- The same list, cut before its last two parts.
recut :
    (pre mid post : List ℕ) (x y : ℕ)
    → pre ++ (x ∷ ((mid ++ (y ∷ [])) ++ post)) ≡ (pre ++ (x ∷ mid)) ++ (y ∷ post)
recut pre mid post x y =
    ap (λ r. pre ++ (x ∷ r)) (append_assoc mid (y ∷ []) post)
    ∙ sym (append_assoc pre (x ∷ mid) (y ∷ post))

length-recut : (pre mid : List ℕ) (x y : ℕ) → length (pre ++ (x ∷ mid)) ≡ length (pre ++ (y ∷ mid))
length-recut [] mid x y = refl
length-recut (p ∷ pre) mid x y = ap suc (length-recut pre mid x y)

swap_ends :
    (pre mid post : List ℕ) (x y : ℕ)
    → swap (pre ++ ((x ∷ (mid ++ (y ∷ []))) ++ post)) (length pre) (length (pre ++ (x ∷ mid)))
      ≡ (pre ++ (y ∷ [])) ++ (mid ++ (x ∷ post))
swap_ends pre mid post x y =
    let rest = (mid ++ (y ∷ [])) ++ post in
    let last = length (pre ++ (x ∷ mid)) in
    let s = pre ++ (x ∷ rest) in
    ap₂ (λ (v w : ℕ). set (set s (length pre) v) last w)
      (ap (λ (t : List ℕ). get_or t last 0) (recut pre mid post x y)
        ∙ get_or-append (pre ++ (x ∷ mid)) post y)
      (get_or-append pre rest x)
    ∙ ap (λ (t : List ℕ). set t last x) (set-append pre rest x y ∙ recut pre mid post y y)
    ∙ ap (λ (n : ℕ). set ((pre ++ (y ∷ mid)) ++ (y ∷ post)) n x) (length-recut pre mid x y)
    ∙ set-append (pre ++ (y ∷ mid)) post y x
    ∙ append_assoc pre (y ∷ mid) (x ∷ post)
    ∙ sym (append_assoc pre (y ∷ []) (mid ++ (x ∷ post)))

reverse_ends :
    (mid : List ℕ) (x y : ℕ) → reverse (x ∷ (mid ++ (y ∷ []))) ≡ y ∷ (reverse mid ++ (x ∷ []))
reverse_ends mid x y =
    reverse-cons x (mid ++ (y ∷ [])) ∙ ap (λ r. r ++ (x ∷ [])) (reverse-append mid (y ∷ []))

stays : (fuel i j : ℕ) (s : List ℕ) → j ≤ i → turn_round fuel i j s ≡ s
unfolding turn_round
stays zero i j s h = refl
stays (suc fuel) i j s h = ground arith

last_at :
    (pre mid : List ℕ) (x y i j : ℕ)
    → i ≡ length pre
    → j ≡ length pre + length (x ∷ (mid ++ (y ∷ []))) - 1
    → j ≡ length (pre ++ (x ∷ mid))
last_at pre mid x y i j at to =
    omega (arith, to, length-append mid (y ∷ []), length-append pre (x ∷ mid))

turn_round-middle :
    (fuel i j : ℕ) (pre xs post : List ℕ)
    → Ends xs
    → length xs ≤ fuel
    → i ≡ length pre
    → j ≡ length pre + length xs - 1
    → turn_round fuel i j (pre ++ (xs ++ post)) ≡ pre ++ (reverse xs ++ post)
unfolding turn_round
turn_round-middle fuel i j pre xs post none_left few at to =
    stays fuel i j (pre ++ post) (omega (arith, at, to))
turn_round-middle fuel i j pre xs post (one_left x) few at to =
    stays fuel i j (pre ++ (x ∷ post)) (omega (arith, at, to))
turn_round-middle zero i j pre xs post (two_ends x y mid) few at to = absurd (omega (arith, few))
turn_round-middle (suc fuel) i j pre xs post (two_ends x y mid) few at to =
    rw (lt→ltb i j (omega (arith, few, at, to, length-append mid (y ∷ [])))) (
      ap₂
        (λ (k l : ℕ).
          turn_round fuel (i + 1) (j - 1) (swap (pre ++ ((x ∷ (mid ++ (y ∷ []))) ++ post)) k l))
        at (last_at pre mid x y i j at to)
      ∙ ap (turn_round fuel (i + 1) (j - 1)) (swap_ends pre mid post x y)
      ∙ turn_round-middle fuel (i + 1) (j - 1) (pre ++ (y ∷ [])) mid (x ∷ post) (ends mid)
          (omega (arith, few, length-append mid (y ∷ [])))
          (omega (arith, at, length-append pre (y ∷ [])))
          (omega (arith, to, length-append mid (y ∷ []), length-append pre (y ∷ [])))
      ∙ append_assoc pre (y ∷ []) (reverse mid ++ (x ∷ post))
      ∙ ap (λ r. pre ++ (y ∷ r)) (sym (append_assoc (reverse mid) (x ∷ []) post))
      ∙ ap (λ r. pre ++ (r ++ post)) (sym (reverse_ends mid x y)))

-- The loop reverses the text.
pub turn_round-reverse : (s : List ℕ) → turn_round (length s) 0 (length s - 1) s ≡ reverse s
turn_round-reverse s =
    ap (turn_round (length s) 0 (length s - 1)) (sym (append-nil s))
    ∙ turn_round-middle (length s) 0 (length s - 1) [] s [] (ends s) (omega arith) refl
        (omega arith)
    ∙ append-nil (reverse s)
