-- ===== src/Directories/Removal.antt =====
-- "2_Files and Directories/myrm.c": the names are removed from the last one to the first one. What `remove`
-- does is a parameter: the files after it, or nothing where it fails.
use linux_system_programming.Prelude.{
  ℕ, zero, suc, ◌≡◌, refl, ap, ◌∙◌, sym, Option, none, some, List, [], ◌∷◌, ◌++◌, length, get_elem?,
  take, take-length, ◌≤◌, ◌<◌, arith,
}
use linux_system_programming.Prelude.Text.{String}

get_elem?-some :
    (xs : List String) (i : ℕ) → i < length xs → (x : String) × (get_elem? xs i ≡ some x)
get_elem?-some [] i h = absurd (omega arith)
get_elem?-some (x ∷ xs) zero h = (x, refl)
get_elem?-some (x ∷ xs) (suc i) h = get_elem?-some xs i (omega arith)

take-suc :
    (xs : List String) (i : ℕ) {x : String}
    → get_elem? xs i ≡ some x
    → take (suc i) xs ≡ take i xs ++ (x ∷ [])
take-suc [] i e = absurd (ground arith)
take-suc (y ∷ xs) zero e = ground arith
take-suc (y ∷ xs) (suc i) e = ap (◌∷◌ y) (take-suc xs i e)

module _ {ℓ} {S : Type ℓ} (remove : String → S → Option S) where
  -- `while(--argc) if(remove(argv[argc])<0) exit(1);`, where `argc` is what is left after `--argc`. The
  -- result is the exit status and the files; there is none where the code leaves what C defines.
  unfoldable pub rm_loop : ℕ → List String → S → Option (ℕ × S)
  rm_loop zero argv s = some (0, s)
  rm_loop (suc argc) argv s = elim (get_elem? argv (suc argc)) [
    | none ↦ none
    | some name ↦ elim (remove name s) [ none ↦ some (1, s) | some s' ↦ rm_loop argc argv s' ]
  ]

  -- `main` of myrm.c
  unfoldable pub myrm : List String → S → Option (ℕ × S)
  myrm [] s = none
  myrm (prog ∷ []) s = some (1, s)
  myrm (prog ∷ name ∷ names) s = rm_loop (suc (length names)) (prog ∷ name ∷ names) s

  abbrev next : String → ℕ × S → ℕ × S
  next name (zero, s) = elim (remove name s) [ none ↦ (1, s) | some s' ↦ (0, s') ]
  next name (suc status, s) = (suc status, s)

  -- The names behind a name are removed before it, and it is removed if that has worked.
  pub last_first : List String → S → ℕ × S
  last_first [] s = (0, s)
  last_first (name ∷ names) s = next name (last_first names s)

  -- What removing `name` and then the names before it comes to.
  abbrev then_before : List String → S → Option S → ℕ × S
  then_before names s none = (1, s)
  then_before names s (some s') = last_first names s'

  next-then_before :
      (x : String) (names : List String) (s : S) (o : Option S)
      → next x (then_before names s o) ≡ then_before (x ∷ names) s o
  unfolding last_first
  next-then_before x names s none = refl
  next-then_before x names s (some s') = refl

  then_before-nil :
      (name : String) (s : S) (o : Option S)
      → remove name s ≡ o
      → next name (0, s) ≡ then_before [] s o
  unfolding last_first
  then_before-nil name s none e = rw (next, e)
  then_before-nil name s (some s') e = rw (next, e)

  last_first-append :
      (names : List String) (name : String) (s : S)
      → last_first (names ++ (name ∷ [])) s ≡ then_before names s (remove name s)
  unfolding last_first
  last_first-append [] name s = then_before-nil name s (remove name s) refl
  last_first-append (x ∷ names) name s =
      ap (next x) (last_first-append names name s) ∙ next-then_before x names s (remove name s)

  rm_loop-step :
      (argc : ℕ) (argv : List String) (names : List String) (s : S) (o : Option S)
      → ((s' : S) → rm_loop argc argv s' ≡ some (last_first names s'))
      → (elim o [ none ↦ some (1, s) | some s' ↦ rm_loop argc argv s' ])
        ≡ some (then_before names s o)
  rm_loop-step argc argv names s none ih = refl
  rm_loop-step argc argv names s (some s') ih = ih s'

  rm_loop-last_first :
      (argc : ℕ) (prog : String) (names : List String) (s : S)
      → argc ≤ length names
      → rm_loop argc (prog ∷ names) s ≡ some (last_first (take argc names) s)
  unfolding rm_loop last_first
  rm_loop-last_first zero prog names s few = refl
  rm_loop-last_first (suc argc) prog names s few =
      let (name, found) = get_elem?-some names argc (omega arith) in
      rw (rm_loop, found, take-suc names argc found)
        (rm_loop-step argc (prog ∷ names) (take argc names) s (remove name s)
            (λ s'. rm_loop-last_first argc prog names s' (omega arith))
          ∙ ap some (sym (last_first-append (take argc names) name s)))

  -- The names are removed from the last one to the first one, up to the first that cannot be removed:
  -- the names before it are left alone.
  pub myrm-last_first :
      (prog name : String) (names : List String) (s : S)
      → myrm (prog ∷ name ∷ names) s ≡ some (last_first (name ∷ names) s)
  unfolding myrm
  myrm-last_first prog name names s =
      rm_loop-last_first (suc (length names)) prog (name ∷ names) s (omega arith)
      ∙ ap (λ xs. some (last_first xs s)) (take-length (name ∷ names))
