-- ===== src/Servers/Laws/Text.antt =====
-- The texts with a process number: they can be read back, and they fit.
use linux_system_programming.Prelude.{
  ℕ, zero, suc, ◌+◌, ◌-◌, ◌*◌, ◌/◌, ◌%◌, ◌≤◌, ◌<◌, ◌≡◌, refl, ap, ◌∙◌, List, [], ◌∷◌, ◌++◌, length,
  overwrite, ltb, arith, length-append, append_assoc, drop, Bool-cases, inl, inr,
}
use linux_system_programming.Prelude.Text.{codes}
use linux_system_programming.Chat.Send.{IsText, IsText-append, c_string_text}
use linux_system_programming.Servers.Message.{
  done, MsgType, digits, decimal, reply_text, request_text, print_into, shown, prepare,
}

-- The number that digits stand for, read on from `a`.
abbrev pub value : ℕ → List ℕ → ℕ
value a [] = a
value a (d ∷ ds) = value (10 * a + (d - 48)) ds

abbrev pub power10 : ℕ → ℕ
power10 zero = 1
power10 (suc k) = 10 * power10 k

value-digits : (k n : ℕ) (acc : List ℕ) → n < power10 k → value 0 (digits k n acc) ≡ value n acc
unfolding digits
value-digits zero n acc h = ap (λ (m : ℕ). value m acc) (omega arith)
value-digits (suc k) n acc h = elim (Bool-cases (ltb n 10)) [
  | inl last ↦ rw last (ap (λ (m : ℕ). value m acc) (omega arith))
  | inr more ↦ rw more (
      value-digits k (n / 10) ((48 + n % 10) ∷ acc) (omega arith)
      ∙ ap (λ (m : ℕ). value m acc) (omega arith))
]

-- Reading the digits of `%d` gives the number back, for each number of at most 10 digits.
pub value-decimal : (n : ℕ) → n < 10000000000 → value 0 (decimal n) ≡ n
unfolding decimal
value-decimal n h = value-digits 10 n [] h

length-digits : (k n : ℕ) (acc : List ℕ) → length (digits k n acc) ≤ k + length acc
unfolding digits
length-digits zero n acc = omega arith
length-digits (suc k) n acc = ground (arith, length-digits k (n / 10) ((48 + n % 10) ∷ acc))

length-decimal : (n : ℕ) → length (decimal n) ≤ 10
unfolding decimal
length-decimal n = length-digits 10 n []

digits-IsText : (k n : ℕ) (acc : List ℕ) → IsText acc → IsText (digits k n acc)
unfolding digits
digits-IsText zero n acc h = h
digits-IsText (suc k) n acc h = elim (Bool-cases (ltb n 10)) [
  | inl last ↦ rw last (omega arith, h)
  | inr more ↦ rw more (digits-IsText k (n / 10) ((48 + n % 10) ∷ acc) (omega arith, h))
]

pub reply_text-IsText : (pid : ℕ) (stop : List ℕ) → IsText stop → IsText (reply_text pid stop)
unfolding reply_text decimal
reply_text-IsText pid stop h =
    IsText-append (codes "This is a reply from ") _ (omega arith)
      (IsText-append (decimal pid) stop (digits-IsText 10 pid [] tt) h)

pub request_text-IsText : (pid : ℕ) → IsText (request_text pid)
unfolding request_text decimal
request_text-IsText pid =
    IsText-append (codes "This is a request from ") _ (omega arith) (digits-IsText 10 pid [] tt)

pub length-reply_text :
    (pid : ℕ) (stop : List ℕ) → length stop ≤ 1 → length (reply_text pid stop) ≤ 32
unfolding reply_text
length-reply_text pid stop h = omega (
  arith,
  length-append (codes "This is a reply from ") (decimal pid ++ stop),
  length-append (decimal pid) stop,
  length-decimal pid,
)

pub length-request_text : (pid : ℕ) → length (request_text pid) ≤ 33
unfolding request_text
length-request_text pid =
    omega (arith, length-append (codes "This is a request from ") (decimal pid), length-decimal pid)

-- The message `m` with a text in it.
abbrev pub holding : List ℕ → MsgType → MsgType
holding t m = record m { text = overwrite (t ++ (0 ∷ [])) m.text }

pub print_into-fits :
    (t : List ℕ) (m : MsgType) → length t ≤ 33 → print_into t m ≡ done (holding t m)
unfolding print_into
print_into-fits t m h = ground arith

pub shown-holding : (t : List ℕ) (m : MsgType) → IsText t → shown (holding t m) ≡ done t
unfolding shown
shown-holding t m h =
    rw
      (
        append_assoc t (0 ∷ []) (drop (length (t ++ (0 ∷ []))) m.text),
        c_string_text t (drop (length (t ++ (0 ∷ []))) m.text) h,
      )
      refl

pub prepare-fits :
    (t u : List ℕ) (m m' : MsgType)
    → shown m ≡ done u
    → length t ≤ 33
    → prepare t m m' ≡ done (u, holding t m')
unfolding prepare
prepare-fits t u m m' e h = rw (e, print_into-fits t m' h)
