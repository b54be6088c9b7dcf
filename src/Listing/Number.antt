-- ===== src/Listing/Number.antt =====
-- "2_Files and Directories/mylsl.c": `ch_int`, which writes the digits of an `int` from the last one on and
-- then turns the array round.
pub mod Reverse
pub mod Laws
use linux_system_programming.Prelude.{
  ℕ, zero, suc, ◌+◌, ◌-◌, ◌/◌, ◌%◌, List, [], ◌∷◌, ◌++◌, length, get_or, set, ltb, if◌then◌else◌,
}
use linux_system_programming.Prelude.Int.{ℤ, pos, negsuc}

-- `while((n/=10)>0) s[i++] = (n%10) + '0';`; one unit of fuel for a digit.
unfoldable pub other_digits : ℕ → ℕ → List ℕ → List ℕ
other_digits zero n s = s
other_digits (suc fuel) n s =
    let rest = other_digits fuel (n / 10) (s ++ (((n / 10) % 10 + b'0') ∷ [])) in
    if ltb 0 (n / 10) then rest else s

-- `c = s[i]; s[i] = s[j]; s[j] = c;`
abbrev pub swap : List ℕ → ℕ → ℕ → List ℕ
swap s i j = set (set s i (get_or s j 0)) j (get_or s i 0)

-- `for(i = 0; i < j; i++, j--)`; the fuel is the length of the text.
unfoldable pub turn_round : ℕ → ℕ → ℕ → List ℕ → List ℕ
turn_round zero i j s = s
turn_round (suc fuel) i j s =
    let rest = turn_round fuel (i + 1) (j - 1) (swap s i j) in if ltb i j then rest else s

-- The digits, before the NUL. C rounds a division towards 0, so that for a number below 0 the remainder is
-- not above 0 and the loop ends at once.
unfoldable pub ch_digits : ℤ → List ℕ
ch_digits (pos n) = other_digits 9 n ((n % 10 + b'0') ∷ [])
ch_digits (negsuc n) = (b'0' - suc n % 10) ∷ []

-- `ch_int`: the text at the place that the result points to when the function returns.
unfoldable pub ch_int : ℤ → List ℕ
ch_int n = turn_round (length (ch_digits n)) 0 (length (ch_digits n) - 1) (ch_digits n)
