-- ===== src/Rpc/Sums.antt =====
-- rpc.c: what the loop sums up.
use linux_system_programming.Prelude.{
  ℕ, zero, suc, ◌+◌, ◌*◌, ◌/◌, ◌≤◌, ◌<◌, ◌≡◌, refl, subst, lt→ltb, ap, ◌∙◌, some, ◌==◌, arith, true,
  Bool-cases, inl, inr,
}
use native.Mathlib.Numerals.{add-one}
use linux_system_programming.Prelude.Int.{pos}
use linux_system_programming.Rpc.{sum_loop, sum_to}

-- The sum of the numbers below `n`.
abbrev pub below : ℕ → ℕ
below zero = 0
below (suc n) = below n + n

below-twice : (n : ℕ) → 2 * below (suc n) ≡ n * (n + 1)
below-twice zero = refl
below-twice (suc n) = grind (arith, below-twice n)

below-le : (i k : ℕ) → i ≤ k → below i ≤ below k
below-le i zero h = omega (arith, ap below (equal h))
  where
    equal : i ≤ 0 → i ≡ 0
    equal g = omega arith
below-le i (suc k) h = elim (Bool-cases (i == suc k)) [
  | inl same ↦ omega (arith, ap below (equal same))
  | inr less ↦ omega (arith, below-le i k (ground arith))
]
  where
    equal : (i == suc k) ≡ true → i ≡ suc k
    equal e = ground arith

pub below-add_one : (i : ℕ) → below (i + 1) ≡ below i + i
below-add_one i = ap below (add-one i)

sum_loop-below :
    (r i k : ℕ) → k ≡ i + r → below k < 2147483648 → sum_loop r i (below i) ≡ some (below k)
unfolding sum_loop
sum_loop-below zero i k e h = ap (λ (n : ℕ). some (below n)) (omega arith)
sum_loop-below (suc r) i k e h =
    let ih : sum_loop r (i + 1) (below i + i) ≡ some (below k) =
      subst (λ (n : ℕ). sum_loop r (i + 1) n ≡ some (below k)) (below-add_one i)
        (sum_loop-below r (i + 1) k (omega arith) h) in
    let small : below i + i < 2147483648 =
      omega (arith, below-add_one i, below-le (i + 1) k (omega arith)) in
    rw (lt→ltb (below i + i) 2147483648 small, ih)

below-half : (n : ℕ) → below (suc n) ≡ n * (n + 1) / 2
below-half n = omega (arith, below-twice n)

-- The loop of rpc.c sums up the numbers from 0 to `n`, which are n (n + 1) / 2, as long as that is below
-- 2 ^ 31.
pub sum_to-triangle :
    (n : ℕ) → n * (n + 1) / 2 < 2147483648 → sum_to (pos n) ≡ some (n * (n + 1) / 2)
unfolding sum_to
sum_to-triangle n h =
    sum_loop-below (n + 1) 0 (suc n) (omega arith) (omega (arith, below-half n))
    ∙ ap some (below-half n)
