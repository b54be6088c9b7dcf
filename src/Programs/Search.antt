-- ===== src/Programs/Search.antt =====
-- "8_Programs/pattern.c": the count of the places where a file has a text. The file is the list of its bytes.
pub mod Laws
use linux_system_programming.Prelude.{
  ℕ, zero, suc, ◌+◌, Bool, true, false, length, Option, none, some, List, [], ◌∷◌, ◌++◌, take, drop,
  overwrite, ◌==◌, if◌then◌else◌,
}

abbrev pub is_prefix : List ℕ → List ℕ → Bool
is_prefix [] s = true
is_prefix (x ∷ p) [] = false
is_prefix (x ∷ p) (y ∷ s) = if x == y then is_prefix p s else false

-- `strstr`, which reads memory up to the byte 0
abbrev pub strstr : List ℕ → List ℕ → Bool
strstr [] fd = is_prefix fd []
strstr (x ∷ s) fd = if is_prefix fd (x ∷ s) then true else if x == 0 then false else strstr s fd

-- `while(fread(buf, 1, len, fp)) ...`, with the place `pos` of `fp` in the file and the memory `behind` the
-- array. `none` is the end of the fuel.
unfoldable pub pattern_loop : ℕ → List ℕ → List ℕ → List ℕ → ℕ → ℕ → List ℕ → ℕ → Option ℕ
pattern_loop zero fd behind file pos idx buf result = none
pattern_loop (suc fuel) fd behind file pos idx buf result =
    elim (take (length fd) (drop pos file)) [
      | [] ↦ some result
      | x ∷ got ↦
          let buf' = overwrite (x ∷ got) buf in
          pattern_loop fuel fd behind file idx (idx + 1) buf'
            (if strstr (buf' ++ behind) fd then result + 1 else result)
    ]

-- `main`, after `fopen`, with what is in `buf` before the first call of `fread`
unfoldable pub pattern : List ℕ → List ℕ → List ℕ → List ℕ → Option ℕ
pattern fd behind buf file = pattern_loop (length file + 2) fd behind file 0 0 buf 0
