-- ===== src/Programs/Del.antt =====
-- del.c: the loop is a filter of the text, and stays within the array.
use linux_system_programming.Prelude.{
  ℕ, zero, suc, ◌+◌, ◌<◌, ◌≡◌, ◌≢◌, refl, sym, ap, ap₂, ◌∙◌, true, false, Option, some, List, [],
  ◌∷◌, ◌++◌, length, get_elem?, set, ◌==◌, if◌then◌else◌, arith, append_assoc, append-nil,
  length-append, length-set, Bool-cases, inl, inr,
}
use linux_system_programming.Chat.{c_string}
use linux_system_programming.Chat.Send.{IsText, IsText-append, c_string_text}
use linux_system_programming.Programs.{del_loop, del}

-- A text without the character `c`.
abbrev pub without : ℕ → List ℕ → List ℕ
without c [] = []
without c (x ∷ t) = if x == c then without c t else x ∷ without c t

read_at :
    (kept gap rest : List ℕ) (x : ℕ)
    → get_elem? (kept ++ (gap ++ (x ∷ rest))) (length kept + length gap) ≡ some x
read_at [] [] rest x = refl
read_at [] (g ∷ gap) rest x = ground (arith, read_at [] gap rest x)
read_at (k ∷ kept) gap rest x = ground (arith, read_at kept gap rest x)

-- The gap after a write to its first place, or to the place behind it if it is empty.
abbrev shifted : List ℕ → ℕ → List ℕ
shifted [] x = []
shifted (g ∷ gap) x = gap ++ (x ∷ [])

write_at :
    (kept gap rest : List ℕ) (x v : ℕ)
    → set (kept ++ (gap ++ (x ∷ rest))) (length kept) v ≡ kept ++ (v ∷ (shifted gap x ++ rest))
write_at [] [] rest x v = refl
write_at [] (g ∷ gap) rest x v = ap (◌∷◌ v) (sym (append_assoc gap (x ∷ []) rest))
write_at (k ∷ kept) gap rest x v = ap (◌∷◌ k) (write_at kept gap rest x v)

length-shifted : (gap : List ℕ) (x : ℕ) → length (shifted gap x) ≡ length gap
length-shifted [] x = refl
length-shifted (g ∷ gap) x = omega (arith, length-append gap (x ∷ []))

-- The result of the loop: the array holds the text, and has its length still.
record Deleted (text memory : List ℕ) (r : Option (List ℕ)) : Type 0 where
  result : List ℕ
  ended : r ≡ some result
  holds : c_string result ≡ some text
  length_kept : length result ≡ length memory

-- A round of the loop, by the character that it reads.
module _ (c fuel : ℕ) (memory : List ℕ) (str dst x : ℕ) (found : get_elem? memory str ≡ some x)
    (room : dst < length memory) where
  round-end : x ≡ 0 → del_loop (suc fuel) c memory str dst ≡ some (set memory dst 0)
  unfolding del_loop
  round-end e = ground arith

  round-keeps :
      x ≢ 0
      → (x == c) ≡ false
      → del_loop (suc fuel) c memory str dst
        ≡ del_loop fuel c (set memory dst x) (str + 1) (dst + 1)
  unfolding del_loop
  round-keeps ne other = ground arith

  round-drops :
      x ≢ 0
      → (x == c) ≡ true
      → del_loop (suc fuel) c memory str dst ≡ del_loop fuel c memory (str + 1) dst
  unfolding del_loop
  round-drops ne same = ground arith

-- The array with the text that is kept, the gap behind it, and what is still to be read.
abbrev laid : List ℕ → List ℕ → List ℕ → List ℕ
laid kept gap rest = kept ++ (gap ++ rest)

kept-room : (kept gap rest : List ℕ) (x : ℕ) → length kept < length (laid kept gap (x ∷ rest))
kept-room kept gap rest x =
    omega (arith, length-append kept (gap ++ (x ∷ rest)), length-append gap (x ∷ rest))

laid-keeps :
    (kept gap rest : List ℕ) (x : ℕ)
    → set (laid kept gap (x ∷ rest)) (length kept) x ≡ laid (kept ++ (x ∷ [])) (shifted gap x) rest
laid-keeps kept gap rest x =
    write_at kept gap rest x x ∙ sym (append_assoc kept (x ∷ []) (shifted gap x ++ rest))

laid-drops :
    (kept gap rest : List ℕ) (x : ℕ) → laid kept gap (x ∷ rest) ≡ laid kept (gap ++ (x ∷ [])) rest
laid-drops kept gap rest x = ap (λ (xs : List ℕ). kept ++ xs) (sym (append_assoc gap (x ∷ []) rest))

Deleted-of :
    (text text' m m' : List ℕ) (r r' : Option (List ℕ))
    → text' ≡ text
    → length m' ≡ length m
    → r ≡ r'
    → Deleted text' m' r'
    → Deleted text m r
Deleted-of text text' m m' r r' words same e d = record {
  result = d.result;
  ended = e ∙ d.ended;
  holds = d.holds ∙ ap some words;
  length_kept = d.length_kept ∙ same;
}

step_drops :
    (c fuel : ℕ) (text kept gap rest : List ℕ) (x : ℕ)
    → x ≢ 0
    → (x == c) ≡ true
    → Deleted text (laid kept (gap ++ (x ∷ [])) rest) (
        del_loop fuel c
          (laid kept (gap ++ (x ∷ [])) rest)
          (length kept + length (gap ++ (x ∷ [])))
          (length kept))
    → Deleted text
        (laid kept gap (x ∷ rest))
        (del_loop (suc fuel) c (laid kept gap (x ∷ rest)) (length kept + length gap) (length kept))
step_drops c fuel text kept gap rest x ne same d =
    Deleted-of text text _ (laid kept (gap ++ (x ∷ [])) rest) _ _ refl
      (ap length (sym (laid-drops kept gap rest x)))
      (round-drops c fuel (laid kept gap (x ∷ rest)) _ (length kept) x (read_at kept gap rest x)
          (kept-room kept gap rest x) ne same
        ∙ ap₂ (λ (m : List ℕ) (i : ℕ). del_loop fuel c m i (length kept))
            (laid-drops kept gap rest x) (omega (arith, length-append gap (x ∷ []))))
      d

step_keeps :
    (c fuel : ℕ) (w kept gap rest : List ℕ) (x : ℕ)
    → x ≢ 0
    → (x == c) ≡ false
    → Deleted ((kept ++ (x ∷ [])) ++ w) (laid (kept ++ (x ∷ [])) (shifted gap x) rest) (
        del_loop fuel c
          (laid (kept ++ (x ∷ [])) (shifted gap x) rest)
          (length (kept ++ (x ∷ [])) + length (shifted gap x))
          (length (kept ++ (x ∷ []))))
    → Deleted
        (kept ++ (x ∷ w))
        (laid kept gap (x ∷ rest))
        (del_loop (suc fuel) c (laid kept gap (x ∷ rest)) (length kept + length gap) (length kept))
step_keeps c fuel w kept gap rest x ne other d =
    Deleted-of (kept ++ (x ∷ w)) ((kept ++ (x ∷ [])) ++ w) _
      (laid (kept ++ (x ∷ [])) (shifted gap x) rest) _ _ (append_assoc kept (x ∷ []) w)
      (ap length (sym (laid-keeps kept gap rest x))
        ∙ length-set (laid kept gap (x ∷ rest)) (length kept) x)
      (round-keeps c fuel (laid kept gap (x ∷ rest)) _ (length kept) x (read_at kept gap rest x)
          (kept-room kept gap rest x) ne other
        ∙ ap₂ (λ (m : List ℕ) (i : ℕ). del_loop fuel c m i (length kept + 1))
            (laid-keeps kept gap rest x)
            (omega (arith, length-append kept (x ∷ []), length-shifted gap x))
        ∙ ap
            (λ (j : ℕ).
              del_loop fuel c (laid (kept ++ (x ∷ [])) (shifted gap x) rest)
                (length (kept ++ (x ∷ [])) + length (shifted gap x)) j)
            (omega (arith, length-append kept (x ∷ []))))
      d

-- The text is what is kept already and, of the rest, what is not `c`.
del_loop-Deleted :
    (c fuel : ℕ) (t kept gap junk : List ℕ)
    → IsText kept
    → IsText t
    → length t < fuel
    → Deleted
        (kept ++ without c t)
        (laid kept gap (t ++ (0 ∷ junk)))
        (del_loop fuel c (laid kept gap (t ++ (0 ∷ junk))) (length kept + length gap) (length kept))
del_loop-Deleted c zero t kept gap junk h g enough = absurd (omega arith)
del_loop-Deleted c (suc fuel) [] kept gap junk h g enough = record {
  result = set (laid kept gap (0 ∷ junk)) (length kept) 0;
  ended = round-end c fuel _ _ _ 0 (read_at kept gap junk 0) (kept-room kept gap junk 0) refl;
  holds =
      ap c_string (write_at kept gap junk 0 0)
      ∙ c_string_text kept (shifted gap 0 ++ junk) h
      ∙ ap some (sym (append-nil kept));
  length_kept = length-set (laid kept gap (0 ∷ junk)) (length kept) 0;
}
del_loop-Deleted c (suc fuel) (x ∷ t) kept gap junk h g enough = elim (Bool-cases (x == c)) [
  | inl same ↦ rw same (
      step_drops c fuel (kept ++ without c t) kept gap (t ++ (0 ∷ junk)) x g.0 same
        (del_loop-Deleted c fuel t kept (gap ++ (x ∷ [])) junk h g.1 (omega arith)))
  | inr other ↦ rw other (
      step_keeps c fuel (without c t) kept gap (t ++ (0 ∷ junk)) x g.0 other (
        del_loop-Deleted c fuel t (kept ++ (x ∷ [])) (shifted gap x) junk
          (IsText-append kept (x ∷ []) h (g.0, tt)) g.1 (omega arith)))
]

-- `del` reads and writes within the array only, comes to its end, leaves the text without the character
-- `c` and in order, and the array at its length.
pub del-without :
    (c : ℕ) (t junk : List ℕ)
    → IsText t
    → (r : List ℕ) × (del c (t ++ (0 ∷ junk)) ≡ some r)
      × (c_string r ≡ some (without c t))
      × (length r ≡ length (t ++ (0 ∷ junk)))
unfolding del
del-without c t junk h =
    let d =
      del_loop-Deleted c (suc (length (t ++ (0 ∷ junk)))) t [] [] junk tt h
        (omega (arith, length-append t (0 ∷ junk))) in
    (d.result, d.ended, d.holds, d.length_kept)
