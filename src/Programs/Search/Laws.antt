-- ===== src/Programs/Search/Laws.antt =====
-- pattern.c: what the array holds in each round, and what is counted.
use linux_system_programming.Prelude.{
  ℕ, zero, suc, ◌+◌, ◌<◌, ◌≤◌, ◌≡◌, refl, sym, ap, ◌∙◌, true, false, Option, some, List, [], ◌∷◌,
  ◌++◌, length, take, drop, overwrite, replicate, ◌==◌, if◌then◌else◌, arith, Bool,
}
use linux_system_programming.Chat.Send.{IsText}
use linux_system_programming.Programs.Search.{is_prefix, strstr, pattern_loop, pattern}

-- The last byte.
abbrev pub last_or : ℕ → List ℕ → ℕ
last_or d [] = d
last_or d (x ∷ t) = last_or x t

abbrev pub one_if : Bool → ℕ
one_if true = 1
one_if false = 0

-- The number of suffixes that begin with `p`, if bytes `d` stand behind the text.
abbrev pub occurrences : List ℕ → ℕ → List ℕ → ℕ
occurrences p d [] = 0
occurrences p d (x ∷ t) =
    one_if (is_prefix p ((x ∷ t) ++ replicate (length p) d)) + occurrences p d t

-- The first bytes of a text that goes on with `d`.
abbrev window : ℕ → ℕ → List ℕ → List ℕ
window zero d t = []
window (suc m) d [] = d ∷ window m d []
window (suc m) d (x ∷ t) = x ∷ window m d t

overwrite-window :
    (m d y : ℕ) (t : List ℕ)
    → last_or y t ≡ d
    → overwrite (take m t) (window m d (y ∷ t)) ≡ window m d t
overwrite-window zero d y t e = refl
overwrite-window (suc m) d y [] e = ap (λ z. z ∷ window m d []) e
overwrite-window (suc m) d y (z ∷ t) e = ap (◌∷◌ z) (overwrite-window m d z t e)

overwrite-window_self : (m d : ℕ) (t : List ℕ) → overwrite (take m t) (window m d t) ≡ window m d t
overwrite-window_self zero d t = refl
overwrite-window_self (suc m) d [] = refl
overwrite-window_self (suc m) d (x ∷ t) = ap (◌∷◌ x) (overwrite-window_self m d t)

overwrite-first :
    (m d : ℕ) (t buf : List ℕ)
    → length buf ≡ m
    → m ≤ length t
    → overwrite (take m t) buf ≡ window m d t
overwrite-first zero d t [] e le = refl
overwrite-first zero d t (b ∷ buf) e le = absurd (omega arith)
overwrite-first (suc m) d [] buf e le = absurd (omega arith)
overwrite-first (suc m) d (x ∷ t) [] e le = absurd (omega arith)
overwrite-first (suc m) d (x ∷ t) (b ∷ buf) e le =
    ap (◌∷◌ x) (overwrite-first m d t buf (omega arith) (omega arith))

length-window : (m d : ℕ) (t : List ℕ) → length (window m d t) ≡ m
length-window zero d t = refl
length-window (suc m) d [] = ap suc (length-window m d [])
length-window (suc m) d (x ∷ t) = ap suc (length-window m d t)

is_prefix-window :
    (p : List ℕ) (d : ℕ) (t behind : List ℕ) (k : ℕ)
    → length p ≤ k
    → is_prefix p (window (length p) d t ++ behind) ≡ is_prefix p (t ++ replicate k d)
is_prefix-window [] d t behind k le = refl
is_prefix-window (c ∷ p) d [] behind zero le = absurd (omega arith)
is_prefix-window (c ∷ p) d [] behind (suc k) le =
    ap (λ b. if c == d then b else false) (is_prefix-window p d [] behind k (omega arith))
is_prefix-window (c ∷ p) d (x ∷ t) behind k le =
    ap (λ b. if c == x then b else false) (is_prefix-window p d t behind k (omega arith))

is_prefix-short :
    (p w junk : List ℕ) → IsText p → length w < length p → is_prefix p (w ++ (0 ∷ junk)) ≡ false
is_prefix-short [] w junk h lt = absurd (omega arith)
is_prefix-short (c ∷ p) [] junk h lt = ground (arith, h.0)
is_prefix-short (c ∷ p) (x ∷ w) junk h lt =
    ground (arith, is_prefix-short p w junk h.1 (omega arith))

strstr-short :
    (p w junk : List ℕ) → IsText p → length w < length p → strstr (w ++ (0 ∷ junk)) p ≡ false
strstr-short p [] junk h lt = ground (arith, is_prefix-short p [] junk h lt)
strstr-short p (x ∷ w) junk h lt =
    ground (arith, is_prefix-short p (x ∷ w) junk h lt, strstr-short p w junk h (omega arith))

-- In a text that is no longer than `p` only the first place can be one of `p`.
strstr-is_prefix :
    (p w junk : List ℕ)
    → IsText p
    → 1 ≤ length p
    → length w ≤ length p
    → strstr (w ++ (0 ∷ junk)) p ≡ is_prefix p (w ++ (0 ∷ junk))
strstr-is_prefix p [] junk h one le =
    strstr-short p [] junk h one ∙ sym (is_prefix-short p [] junk h one)
strstr-is_prefix p (x ∷ w) junk h one le = ground (arith, strstr-short p w junk h (omega arith))

counted :
    (p : List ℕ) (d : ℕ) (t junk : List ℕ)
    → IsText p
    → 1 ≤ length p
    → strstr (window (length p) d t ++ (0 ∷ junk)) p ≡ is_prefix p (t ++ replicate (length p) d)
counted p d t junk h one =
    strstr-is_prefix p (window (length p) d t) junk h one
      (omega (arith, length-window (length p) d t))
    ∙ is_prefix-window p d t (0 ∷ junk) (length p) (omega arith)

drop-tail : (n x : ℕ) (xs t : List ℕ) → drop n xs ≡ x ∷ t → drop (suc n) xs ≡ t
drop-tail zero x [] t e = absurd (ground arith)
drop-tail zero x (y ∷ xs) t e = ground arith
drop-tail (suc n) x [] t e = absurd (ground arith)
drop-tail (suc n) x (y ∷ xs) t e = drop-tail n x xs t e

add-one_if : (b : Bool) (r o : ℕ) → (if b then r + 1 else r) + o ≡ r + (one_if b + o)
add-one_if true r o = omega arith
add-one_if false r o = omega arith

last_or-tail : (d x : ℕ) (t : List ℕ) → last_or x t ≡ d → last_or d t ≡ d
last_or-tail d x [] e = refl
last_or-tail d x (y ∷ t) e = e

module _ (p file junk : List ℕ) where
  -- The loop goes on with `b` in the array.
  abbrev go_on : ℕ → ℕ → ℕ → List ℕ → Bool → Option ℕ
  go_on fuel idx result b v =
      pattern_loop fuel p (0 ∷ junk) file idx (idx + 1) b (if v then result + 1 else result)

  round :
      (fuel pos idx : ℕ) (buf : List ℕ) (result x : ℕ) (got : List ℕ)
      → take (length p) (drop pos file) ≡ x ∷ got
      → pattern_loop (suc fuel) p (0 ∷ junk) file pos idx buf result
        ≡ go_on fuel idx result
            (overwrite (x ∷ got) buf)
            (strstr (overwrite (x ∷ got) buf ++ (0 ∷ junk)) p)
  unfolding pattern_loop
  round fuel pos idx buf result x got read = rw (pattern_loop, read)

  round_with :
      (fuel pos idx : ℕ) (buf : List ℕ) (result x : ℕ) (got b : List ℕ) (v : Bool)
      → take (length p) (drop pos file) ≡ x ∷ got
      → overwrite (x ∷ got) buf ≡ b
      → strstr (b ++ (0 ∷ junk)) p ≡ v
      → pattern_loop (suc fuel) p (0 ∷ junk) file pos idx buf result ≡ go_on fuel idx result b v
  round_with fuel pos idx buf result x got b v read over found =
      round fuel pos idx buf result x got read
      ∙ ap (λ c. go_on fuel idx result c (strstr (c ++ (0 ∷ junk)) p)) over
      ∙ ap (go_on fuel idx result b) found

module _ (c : ℕ) (p file junk : List ℕ) (p_text : IsText (c ∷ p)) (d : ℕ) where
  abbrev m : ℕ
  m = suc (length p)

  one_round :
      (fuel pos idx : ℕ) (buf : List ℕ) (result x : ℕ) (t : List ℕ)
      → drop pos file ≡ x ∷ t
      → overwrite (take m (x ∷ t)) buf ≡ window m d (x ∷ t)
      → pattern_loop (suc fuel) (c ∷ p) (0 ∷ junk) file pos idx buf result
        ≡ go_on
            (c ∷ p)
            file
            junk
            fuel
            idx
            result
            (window m d (x ∷ t))
            (is_prefix (c ∷ p) ((x ∷ t) ++ replicate m d))
  one_round fuel pos idx buf result x t at fits =
      round_with (c ∷ p) file junk fuel pos idx buf result x (take (length p) t)
        (window m d (x ∷ t)) (is_prefix (c ∷ p) ((x ∷ t) ++ replicate m d)) (ap (take m) at) fits
        (counted (c ∷ p) d (x ∷ t) junk p_text (omega arith))

  rounds :
      (fuel pos : ℕ) (buf : List ℕ) (result : ℕ) (rest : List ℕ)
      → drop pos file ≡ rest
      → last_or d rest ≡ d
      → overwrite (take m rest) buf ≡ window m d rest
      → length rest < fuel
      → pattern_loop fuel (c ∷ p) (0 ∷ junk) file pos (suc pos) buf result
        ≡ some (result + occurrences (c ∷ p) d rest)
  unfolding pattern_loop
  rounds zero pos buf result rest at ends fits lt = absurd (omega arith)
  rounds (suc fuel) pos buf result [] at ends fits lt =
      rw (pattern_loop, at) (ap some (omega arith))
  rounds (suc fuel) pos buf result (x ∷ t) at ends fits lt =
      let here = is_prefix (c ∷ p) ((x ∷ t) ++ replicate m d) in
      let next = if here then result + 1 else result in
      one_round fuel pos (suc pos) buf result x t at fits
      ∙ ap
          (λ idx. pattern_loop fuel (c ∷ p) (0 ∷ junk) file (suc pos) idx (window m d (x ∷ t)) next)
          (omega arith)
      ∙ rounds fuel (suc pos) (window m d (x ∷ t)) next t (drop-tail pos x file t at)
          (last_or-tail d x t ends) (overwrite-window m d x t ends) (omega arith)
      ∙ ap some (add-one_if here result (occurrences (c ∷ p) d t))

is_prefix-append : (p t u : List ℕ) → length p ≤ length t → is_prefix p (t ++ u) ≡ is_prefix p t
is_prefix-append [] t u le = refl
is_prefix-append (c ∷ p) [] u le = absurd (omega arith)
is_prefix-append (c ∷ p) (x ∷ t) u le =
    ap (λ b. if c == x then b else false) (is_prefix-append p t u (omega arith))

zero-one_if : (b : Bool) → (if b then 0 + 1 else 0) ≡ one_if b
zero-one_if true = refl
zero-one_if false = refl

-- The text has no NUL and at least one byte, the file is no shorter than it, and a NUL happens to stand behind
-- the array. Then what is counted is the places of the text in the file as it would go on with copies of its
-- last byte, and the first place is counted twice.
pub pattern-occurrences :
    (fd file junk buf : List ℕ)
    → IsText fd
    → 1 ≤ length fd
    → length fd ≤ length file
    → length buf ≡ length fd
    → pattern fd (0 ∷ junk) buf file
      ≡ some (one_if (is_prefix fd file) + occurrences fd (last_or 0 file) file)
unfolding pattern
pattern-occurrences [] file junk buf text one le size = absurd (omega arith)
pattern-occurrences (c ∷ p) [] junk buf text one le size = absurd (omega arith)
pattern-occurrences (c ∷ p) (x ∷ t) junk buf text one le size =
    let file = x ∷ t in
    let d = last_or x t in
    let first = is_prefix (c ∷ p) (file ++ replicate (suc (length p)) d) in
    let next = if first then 0 + 1 else 0 in
    ap (λ fuel. pattern_loop fuel (c ∷ p) (0 ∷ junk) file 0 0 buf 0) (omega arith)
    ∙ one_round c p file junk text d (length file + 1) 0 0 buf 0 x t refl
        (overwrite-first (suc (length p)) d file buf size le)
    ∙ rounds c p file junk text d (length file + 1) 0 (window (suc (length p)) d file) next file
        refl refl (overwrite-window_self (suc (length p)) d file) (omega arith)
    ∙ ap (λ n. some (n + occurrences (c ∷ p) d file))
        (zero-one_if first
          ∙ ap one_if (is_prefix-append (c ∷ p) file (replicate (suc (length p)) d) le))
