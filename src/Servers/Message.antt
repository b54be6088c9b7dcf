-- ===== src/Servers/Message.antt =====
-- tcp.h, udp.h, select.h: the message, the texts that are written into it, and how a call ends.
use linux_system_programming.Prelude.{
  ℕ, zero, suc, ◌+◌, ◌/◌, ◌%◌, Option, none, some, List, [], ◌∷◌, ◌++◌, length, overwrite, ltb,
  if◌then◌else◌,
}
use linux_system_programming.Prelude.Text.{codes}
use linux_system_programming.Chat.{c_string}

-- A call gives a result, ends the program, leaves what C defines, or waits for ever.
pub data Progress {ℓ} (A : Type ℓ) : Type ℓ where
  done : A → Progress A
  stopped : ℕ → Progress A
  undefined : Progress A
  blocked : Progress A

infixl 5 ◌>>=◌
abbrev pub ◌>>=◌ {ℓ κ} : {A : Type ℓ} {B : Type κ} → Progress A → (A → Progress B) → Progress B
done a >>= f = f a
stopped n >>= f = stopped n
undefined >>= f = undefined
blocked >>= f = blocked

abbrev pub or_undefined {ℓ} : {A : Type ℓ} → Option A → Progress A
or_undefined none = undefined
or_undefined (some a) = done a

abbrev pub msg_request : ℕ
msg_request = 1

abbrev pub msg_reply : ℕ
msg_reply = 2

-- The length of the array `data`.
abbrev pub data_size : ℕ
data_size = 128

pub record MsgType : Type 0 where
  pub kind : ℕ
  pub text : List ℕ

-- The digits that `%d` prints for a number from 0, before what `acc` holds; one unit of fuel a digit.
unfoldable pub digits : ℕ → ℕ → List ℕ → List ℕ
digits zero n acc = acc
digits (suc fuel) n acc =
    let rest = digits fuel (n / 10) ((48 + n % 10) ∷ acc) in
    if ltb n 10 then (48 + n) ∷ acc else rest

-- `%d` for an `int` from 0, which has at most 10 digits.
unfoldable pub decimal : ℕ → List ℕ
decimal n = digits 10 n []

-- `sprintf(msg.data, "This is a reply from %d.", getpid())`, with the text after the number as an
-- argument, since some of the programs print no full stop.
unfoldable pub reply_text : ℕ → List ℕ → List ℕ
reply_text pid stop = codes "This is a reply from " ++ (decimal pid ++ stop)

-- `sprintf(msg.data, "This is a request from %d", getpid())`
unfoldable pub request_text : ℕ → List ℕ
request_text pid = codes "This is a request from " ++ decimal pid

-- `sprintf` of a text into `msg.data`, with its NUL.
unfoldable pub print_into : List ℕ → MsgType → Progress MsgType
print_into t m =
    if ltb (length t) data_size
    then done (record m { text = overwrite (t ++ (0 ∷ [])) m.text })
    else undefined

-- `printf("%s", msg.data)`: what is printed.
unfoldable pub shown : MsgType → Progress (List ℕ)
shown m = or_undefined (c_string m.text)

-- The request is printed, and a text written into the message `m'`, which is `m` or `m` with its type set.
unfoldable pub prepare : List ℕ → MsgType → MsgType → Progress (List ℕ × MsgType)
prepare t m m' = shown m >>= (λ text. print_into t m' >>= (λ r. done (text, r)))
