-- ===== src/Prelude/Text.antt =====
-- File names, and the maps that they index.
use Prim.Native.String.{String}
use text.Mathlib.Text.{◌==◌ as str_eq}
use text.Mathlib.TextEquality.{eq_iff}
use Prim.Native.Nat.{ℕ}
use Prim.Native.Char.{code}
use mathlib.Core.List.{List, [], ◌∷◌}
use linux_system_programming.Prelude.Tests.{if◌then◌else◌}
use mathlib.Core.Path.{◌≡◌}
use mathlib.Core.Logic.{◌≢◌}
use mathlib.Core.Path.{fun_ext}
use native.Mathlib.Omega.{arith}
pub use Prim.Native.String.{String}
pub use text.Mathlib.Text.{◌==◌ as same_name}

-- The bytes of an ASCII text.
abbrev pub codes : String → List ℕ
codes String.[] = []
codes (String.◌∷◌ c s) = code c ∷ codes s

module _ {ℓ} {V : Type ℓ} where
  abbrev pub put_name : (String → V) → String → V → String → V
  put_name f p v q = if str_eq p q then v else f q

  pub put_name_self : (f : String → V) (p : String) (v : V) → put_name f p v p ≡ v
  put_name_self f p v = ground (arith, eq_iff p p)

  pub put_name_ne : (f : String → V) (p q : String) (v : V) → p ≢ q → put_name f p v q ≡ f q
  put_name_ne f p q v h = ground (arith, eq_iff p q)

  pub put_name_twice :
      (f : String → V) (p : String) (v w : V) → put_name (put_name f p v) p w ≡ put_name f p w
  put_name_twice f p v w = fun_ext λ q. ground arith
