-- ===== src/Listing/Number/Laws.antt =====
-- mylsl.c: what `ch_int` writes is what `%d` prints.
use linux_system_programming.Prelude.{
  ℕ, zero, suc, ◌+◌, ◌/◌, ◌%◌, ◌≡◌, ap, ◌∙◌, List, [], ◌∷◌, ◌++◌, ltb, ltb→lt, true, false,
  Bool-cases, inl, inr, arith,
}
use mathlib.Core.List.{reverse, reverse-append}
use linux_system_programming.Prelude.Int.{pos}
use linux_system_programming.Servers.Message.{digits, decimal}
use linux_system_programming.Listing.Number.{other_digits, ch_digits, ch_int}
use linux_system_programming.Listing.Number.Reverse.{turn_round-reverse}

one_digit : (n : ℕ) → ltb n 10 ≡ true → ltb 0 (n / 10) ≡ false
one_digit n h = ground arith

more_digits : (n : ℕ) → ltb n 10 ≡ false → ltb 0 (n / 10) ≡ true
more_digits n h = ground arith

last_digit : (n : ℕ) (acc : List ℕ) → (n % 10 + b'0') ∷ acc ≡ digits 1 n acc
unfolding digits
last_digit n acc = ground arith

-- The digits from the first one on, whatever stands behind them.
other_digits-digits :
    (k n : ℕ) (s : List ℕ)
    → reverse (other_digits k n (s ++ ((n % 10 + b'0') ∷ []))) ≡ digits (suc k) n (reverse s)
unfolding other_digits digits
other_digits-digits zero n s = reverse-append s ((n % 10 + b'0') ∷ []) ∙ last_digit n (reverse s)
other_digits-digits (suc k) n s = elim (Bool-cases (ltb n 10)) [
  | inl small ↦
      rw (small, one_digit n small)
        (reverse-append s ((n % 10 + b'0') ∷ [])
          ∙ ap (λ (c : ℕ). c ∷ reverse s) (omega (arith, ltb→lt n 10 small)))
  | inr large ↦
      rw (large, more_digits n large)
        (other_digits-digits k (n / 10) (s ++ ((n % 10 + b'0') ∷ []))
          ∙ ap (digits (suc k) (n / 10)) (
              reverse-append s ((n % 10 + b'0') ∷ [])
              ∙ ap (λ (c : ℕ). c ∷ reverse s) (omega arith)))
]

-- `ch_int` writes a number from 0 as `printf` does with `%d`.
pub ch_int-decimal : (n : ℕ) → ch_int (pos n) ≡ decimal n
unfolding ch_int ch_digits decimal
ch_int-decimal n = turn_round-reverse (ch_digits (pos n)) ∙ other_digits-digits 9 n []
