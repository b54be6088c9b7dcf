-- ===== src/Prelude/Threads.antt =====
-- Two threads, each a function that makes its next step, and what they reach in any interleaving.
use Prim.Native.Nat.{ℕ, suc}
use mathlib.Core.Path.{◌≡◌, refl}
use mathlib.Core.Logic.{◌⊎◌, inl, inr}
use mathlib.Core.Bool.{Bool, true, false}
use mathlib.Core.Option.{Option, none, some}
use mathlib.Core.List.{List, [], ◌∷◌}
use linux_system_programming.Prelude.Tests.{Option-cases}

module _ {ℓ} {S : Type ℓ} (first second : S → Option S) where
  -- Either thread may make the next step.
  pub data Step (s : S) : S → Type ℓ where
    by_first : {t : S} → first s ≡ some t → Step s t
    by_second : {t : S} → second s ≡ some t → Step s t

  -- What is reached in a number of steps.
  pub data Run (start : S) : ℕ → S → Type ℓ where
    begin : Run start 0 start
    more : {n : ℕ} {s t : S} → Run start n s → Step s t → Run start (suc n) t

  pub Step-or_stuck : (s : S) → ((t : S) × Step s t) ⊎ ((first s ≡ none) × (second s ≡ none))
  Step-or_stuck s = elim (Option-cases (first s)) [
    | inr (t, e) ↦ inl (t, by_first e)
    | inl stuck ↦ elim (Option-cases (second s)) [
      | inr (t, e) ↦ inl (t, by_second e)
      | inl stuck' ↦ inr (stuck, stuck')
    ]
  ]

  -- A property that both threads keep holds of all that is reached.
  pub Run-keeps {κ} :
      (P : S → Type κ) {start : S}
      → ((s t : S) → first s ≡ some t → P s → P t)
      → ((s t : S) → second s ≡ some t → P s → P t)
      → P start
      → {n : ℕ} {s : S} → Run start n s
      → P s
  Run-keeps P f g p begin = p
  Run-keeps P f g p (more {n} {s} {t} r (by_first e)) = f s t e (Run-keeps P f g p r)
  Run-keeps P f g p (more {n} {s} {t} r (by_second e)) = g s t e (Run-keeps P f g p r)

  -- The threads take turns as a list says, the first at `true`; one that waits makes no step.
  abbrev pub Trace : S → Type ℓ
  Trace start = (n : ℕ) × (s : S) × Run start n s

  first_turn :
      (start : S) (n : ℕ) (s : S) → Run start n s → (o : Option S) → first s ≡ o → Trace start
  first_turn start n s r none e = (n, s, r)
  first_turn start n s r (some t) e = (suc n, t, more r (by_first e))

  second_turn :
      (start : S) (n : ℕ) (s : S) → Run start n s → (o : Option S) → second s ≡ o → Trace start
  second_turn start n s r none e = (n, s, r)
  second_turn start n s r (some t) e = (suc n, t, more r (by_second e))

  unfoldable pub schedule : (start : S) → List Bool → Trace start → Trace start
  unfolding first_turn second_turn
  schedule start [] (n, s, r) = (n, s, r)
  schedule start (true ∷ turns) (n, s, r) =
      schedule start turns (first_turn start n s r (first s) refl)
  schedule start (false ∷ turns) (n, s, r) =
      schedule start turns (second_turn start n s r (second s) refl)
