-- ===== src/Programs.antt =====
-- "8_Programs/del.c": the characters of an array that are equal to a given one are taken out in place.
pub mod Del
pub mod Search
mod Tests
use linux_system_programming.Prelude.{
  ℕ, zero, suc, ◌+◌, true, false, length, Option, none, some, List, get_elem?, set, ◌==◌, ltb,
  if◌then◌else◌,
}

-- A write into the array; `none` is one past its end.
abbrev pub write : List ℕ → ℕ → ℕ → Option (List ℕ)
write memory i x = if ltb i (length memory) then some (set memory i x) else none

-- `while(*str) { if(*str != c) *dst++ = *str; str++; } *dst = '\0';` with `str` and `dst` as indices. `none`
-- is a read or a write past the end of the array, or the end of the fuel.
unfoldable pub del_loop : ℕ → ℕ → List ℕ → ℕ → ℕ → Option (List ℕ)
del_loop zero c memory str dst = none
del_loop (suc fuel) c memory str dst = elim (get_elem? memory str) [
  | none ↦ none
  | some x ↦ if x == 0 then write memory dst 0 else elim (x == c) [
    | true ↦ del_loop fuel c memory (str + 1) dst
    | false ↦ elim (write memory dst x) [
      | none ↦ none
      | some written ↦ del_loop fuel c written (str + 1) (dst + 1)
    ]
  ]
]

-- `del`, with fuel for each element of the array.
unfoldable pub del : ℕ → List ℕ → Option (List ℕ)
del c memory = del_loop (suc (length memory)) c memory 0 0
