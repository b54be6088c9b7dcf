-- ===== src/Prelude/Arrays.antt =====
-- C arrays of characters: a write over the front of an array, and updates of a map.
use Prim.Native.Nat.{ℕ, zero, suc, ◌+◌, ◌-◌, ◌≤◌, ◌<◌}
use mathlib.Core.Path.{◌≡◌, refl, sym, ap, ◌∙◌}
use mathlib.Core.List.{List, [], ◌∷◌, ◌++◌}
use mathlib.Core.Option.{some}
use linux_system_programming.Prelude.Tests.{◌==◌, if◌then◌else◌}
use native.Mathlib.Omega.{arith}
use linux_system_programming.Prelude.Lists.{
  get_elem?, set, length, take, drop, length-append, length-drop,
}

module _ {ℓ} {A : Type ℓ} where
  -- The bytes `xs` copied to the start of the array `buf`, what lies behind them left as it is.
  abbrev pub overwrite : List A → List A → List A
  overwrite xs buf = xs ++ drop (length xs) buf

  pub take-length-append : (xs ys : List A) → take (length xs) (xs ++ ys) ≡ xs
  take-length-append [] ys = refl
  take-length-append (x ∷ xs) ys = ap (◌∷◌ x) (take-length-append xs ys)

  pub take-length : (xs : List A) → take (length xs) xs ≡ xs
  take-length [] = refl
  take-length (x ∷ xs) = ap (◌∷◌ x) (take-length xs)

  pub take-overwrite : (xs buf : List A) → take (length xs) (overwrite xs buf) ≡ xs
  take-overwrite xs buf = take-length-append xs (drop (length xs) buf)

  pub length-overwrite :
      (xs buf : List A) → length xs ≤ length buf → length (overwrite xs buf) ≡ length buf
  length-overwrite xs buf h =
      omega (arith, length-append xs (drop (length xs) buf), length-drop (length xs) buf)

  drop-nil : (k : ℕ) → ◌≡◌ {A = List A} (drop k []) []
  drop-nil zero = refl
  drop-nil (suc k) = refl

  take-nil : (k : ℕ) → ◌≡◌ {A = List A} (take k []) []
  take-nil zero = refl
  take-nil (suc k) = refl

  pub drop-drop : (m n : ℕ) (xs : List A) → drop m (drop n xs) ≡ drop (n + m) xs
  drop-drop m zero xs = ap (λ k. drop k xs) (omega arith)
  drop-drop m (suc n) [] = rw (drop-nil m, drop-nil (suc n + m))
  drop-drop m (suc n) (x ∷ xs) =
      drop-drop m n xs ∙ ap (λ k. drop k (x ∷ xs)) {x = suc (n + m)} (omega arith)

  pub drop-length : (xs : List A) → drop (length xs) xs ≡ []
  drop-length [] = refl
  drop-length (x ∷ xs) = drop-length xs

  pub drop-length-add : (n : ℕ) (xs : List A) → drop (length xs + n) xs ≡ []
  drop-length-add n xs =
      sym (drop-drop n (length xs) xs) ∙ ap (drop n) (drop-length xs) ∙ drop-nil n

  take-append-drop-length : (n : ℕ) (xs : List A) → take n xs ++ drop (length (take n xs)) xs ≡ xs
  take-append-drop-length zero xs = refl
  take-append-drop-length (suc n) [] = refl
  take-append-drop-length (suc n) (x ∷ xs) = ap (◌∷◌ x) (take-append-drop-length n xs)

  -- At most `n` elements from the place `m` on, and then what is left behind them.
  pub take-drop-append :
      (m n : ℕ) (xs : List A)
      → take n (drop m xs) ++ drop (m + length (take n (drop m xs))) xs ≡ drop m xs
  take-drop-append m n xs =
      ap (λ ys. take n (drop m xs) ++ ys) (sym (drop-drop (length (take n (drop m xs))) m xs))
      ∙ take-append-drop-length n (drop m xs)

  -- A prefix, cut in two.
  pub take-append-take :
      (k n : ℕ) (xs : List A) → k ≤ n → take k xs ++ take (n - k) (drop k xs) ≡ take n xs
  take-append-take zero n xs h = ap (λ m. take m xs) (omega arith)
  take-append-take (suc k) zero xs h = absurd (omega arith)
  take-append-take (suc k) (suc n) [] h = take-nil (suc n - suc k)
  take-append-take (suc k) (suc n) (x ∷ xs) h = ap (◌∷◌ x) (
      ap (λ m. take k xs ++ take m (drop k xs)) (omega arith)
      ∙ take-append-take k n xs (omega arith))

  -- What a write inside the bounds leaves at each place.
  pub get_elem?-set :
      (xs : List A) (i j : ℕ) (v : A)
      → i < length xs
      → get_elem? (set xs i v) j ≡ (if i == j then some v else get_elem? xs j)
  get_elem?-set [] i j v h = absurd (omega arith)
  get_elem?-set (x ∷ xs) zero zero v h = refl
  get_elem?-set (x ∷ xs) zero (suc j) v h = ground arith
  get_elem?-set (x ∷ xs) (suc i) zero v h = ground arith
  get_elem?-set (x ∷ xs) (suc i) (suc j) v h = ground (arith, get_elem?-set xs i j v)
