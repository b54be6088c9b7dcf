-- ===== src/Programs/Tests.antt =====
-- del.c, at the text of its `main`, and pattern.c at small files.
use linux_system_programming.Prelude.{
  ℕ, ◌+◌, ◌≡◌, refl, some, List, [], ◌∷◌, ◌++◌, length, replicate, arith,
}
use linux_system_programming.Prelude.Text.{codes}
use linux_system_programming.Chat.{c_string}
use linux_system_programming.Programs.{del, del_loop}
use linux_system_programming.Programs.Del.{without, del-without}
use linux_system_programming.Programs.Search.{is_prefix, pattern, pattern_loop}
use linux_system_programming.Programs.Search.Laws.{
  last_or, occurrences, one_if, pattern-occurrences,
}

-- `char str[20] = "Hello"; del(str, 'l');`
hello :
    del b'l' (codes "Hello" ++ replicate 15 0)
    ≡ some (codes "Heo" ++ (0 ∷ codes "o" ++ replicate 15 0))
unfolding del del_loop
hello = refl

del-without_example :
    (r : List ℕ) × (del b'l' (codes "Hello" ++ (0 ∷ replicate 14 0)) ≡ some r)
    × (c_string r ≡ some (without b'l' (codes "Hello")))
    × (length r ≡ length (codes "Hello" ++ (0 ∷ replicate 14 0)))
del-without_example = del-without b'l' (codes "Hello") (replicate 14 0) (omega arith)

-- There is one `a` in the file, and it is counted twice.
pattern-twice : pattern (codes "a") (0 ∷ []) (9 ∷ []) (codes "ab") ≡ some 2
unfolding pattern pattern_loop
pattern-twice = refl

-- There is no `aa` in the file, and one is counted.
pattern-tail : pattern (codes "aa") (0 ∷ []) (9 ∷ 9 ∷ []) (codes "ba") ≡ some 1
unfolding pattern pattern_loop
pattern-tail = refl

pattern-occurrences_example :
    pattern (codes "aa") (0 ∷ []) (9 ∷ 9 ∷ []) (codes "aaba")
    ≡ some (
        one_if (is_prefix (codes "aa") (codes "aaba"))
        + occurrences (codes "aa") (last_or 0 (codes "aaba")) (codes "aaba"))
pattern-occurrences_example =
    pattern-occurrences (codes "aa") (codes "aaba") [] (9 ∷ 9 ∷ []) (omega arith, (omega arith, tt))
      (omega arith) (omega arith) refl
