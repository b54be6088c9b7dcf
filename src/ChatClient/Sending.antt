-- ===== src/ChatClient/Sending.antt =====
-- chatc.c, `SendID` and `SendMsg`: what is sent for what is typed.
use linux_system_programming.Prelude.{
  ℕ, zero, suc, ◌≤◌, ◌<◌, ◌≡◌, ◌≢◌, refl, ap, subst, ◌∙◌, Bool, true, none, some, List, [], ◌∷◌,
  ◌++◌, set, overwrite, length, arith, append_assoc, append-nil, drop, replicate, map,
}
use linux_system_programming.Chat.{c_string}
use linux_system_programming.Chat.Results.{Outcome, ok, fault, ◌>>=◌}
use linux_system_programming.Chat.Send.{IsText, c_string_text}
use linux_system_programming.ChatClient.{
  Client, take_line, fgets, newline_at, send_text, send_id, send_round, send_msg,
}

-- What can be typed on a line: no NUL and no newline.
abbrev pub IsLine : List ℕ → Type 0
IsLine [] = Unit
IsLine (x ∷ xs) = (x ≢ 0) × (x ≢ 10) × IsLine xs

pub IsLine-IsText : (t : List ℕ) → IsLine t → IsText t
IsLine-IsText [] h = tt
IsLine-IsText (x ∷ t) h = (h.0, IsLine-IsText t h.2)

-- A typed line ends in a newline, and is a text still.
pub typed-IsText : (t : List ℕ) → IsLine t → IsText (t ++ (10 ∷ []))
typed-IsText [] h = (omega arith, tt)
typed-IsText (x ∷ t) h = (h.0, typed-IsText t h.2)

take_line-typed :
    (n : ℕ) (t rest : List ℕ)
    → IsLine t
    → length t < n
    → take_line n (t ++ (10 ∷ rest)) ≡ (t ++ (10 ∷ []), rest)
unfolding take_line
take_line-typed zero t rest h short = absurd (omega arith)
take_line-typed (suc n) [] rest h short = refl
take_line-typed (suc n) (x ∷ t) rest h short = ground (arith, take_line-typed n t rest h.2)

-- What `fgets` leaves in the array for a typed line, its newline and its NUL included.
abbrev pub typed : List ℕ → List ℕ
typed t = t ++ (10 ∷ [])

pub fgets-typed :
    (buf t rest : List ℕ)
    → IsLine t
    → length t ≤ 254
    → fgets buf (t ++ (10 ∷ rest)) ≡ (overwrite (typed t ++ (0 ∷ [])) buf, rest)
unfolding fgets
fgets-typed buf [] rest h short = rw (take_line-typed 255 [] rest h (omega arith))
fgets-typed buf (x ∷ t) rest h short = rw (take_line-typed 255 (x ∷ t) rest h (omega arith))

newline_at-typed : (t rest : List ℕ) → IsLine t → newline_at (t ++ (10 ∷ rest)) ≡ some (length t)
unfolding newline_at
newline_at-typed [] rest h = refl
newline_at-typed (x ∷ t) rest h = ground (arith, newline_at-typed t rest h.2)

newline_at-none : (t rest : List ℕ) → IsLine t → newline_at (t ++ (0 ∷ rest)) ≡ none
unfolding newline_at
newline_at-none [] rest h = refl
newline_at-none (x ∷ t) rest h = ground (arith, newline_at-none t rest h.2)

set-length : (t rest : List ℕ) (x y : ℕ) → set (t ++ (x ∷ rest)) (length t) y ≡ t ++ (y ∷ rest)
set-length [] rest x y = refl
set-length (z ∷ t) rest x y = ap (◌∷◌ z) (set-length t rest x y)

append_one : (t rest : List ℕ) (x : ℕ) → (t ++ (x ∷ [])) ++ rest ≡ t ++ (x ∷ rest)
append_one [] rest x = refl
append_one (y ∷ t) rest x = ap (◌∷◌ y) (append_one t rest x)

-- The array that `fgets` leaves.
filled :
    (t buf : List ℕ)
    → overwrite (typed t ++ (0 ∷ [])) buf ≡ t ++ (10 ∷ 0 ∷ drop (length (typed t ++ (0 ∷ []))) buf)
filled t buf = append_assoc (typed t) (0 ∷ []) _ ∙ append_one t _ 10

pub send_text-ok :
    (t rest : List ℕ) (c : Client)
    → IsText t
    → send_text true (t ++ (0 ∷ rest)) c ≡ ok (record c { sent = c.sent ++ ((t ++ (0 ∷ [])) ∷ []) })
unfolding send_text
send_text-ok t rest c h = rw (c_string_text t rest h)

-- The name that is typed first, of at most 254 characters, is sent without its newline and with its NUL.
pub send_id-name :
    (buf t rest : List ℕ) (c : Client)
    → IsLine t
    → length t ≤ 254
    → c.stdin ≡ t ++ (10 ∷ rest)
    → send_id true buf c ≡ ok (record c { stdin = rest; sent = c.sent ++ ((t ++ (0 ∷ [])) ∷ []) })
unfolding send_id
send_id-name buf t rest c h short typing =
    simp (typing, fgets-typed buf t rest h short, filled t buf, newline_at-typed t _ h, set-length)
      (send_text-ok t _ (record c { stdin = rest }) (IsLine-IsText t h))

-- A round of `SendMsg` sends a line of at most 254 characters as it was typed, newline and NUL included.
pub send_round-line :
    (buf t rest : List ℕ) (c : Client)
    → IsLine t
    → length t ≤ 254
    → c.stdin ≡ t ++ (10 ∷ rest)
    → send_round true buf c
      ≡ ok (
        overwrite (typed t ++ (0 ∷ [])) buf,
        record c { stdin = rest; sent = c.sent ++ ((typed t ++ (0 ∷ [])) ∷ []) },
      )
unfolding send_round
send_round-line buf t rest c h short typing = simp (
  typing,
  fgets-typed buf t rest h short,
  append_assoc (typed t) (0 ∷ []) (drop (length (typed t ++ (0 ∷ []))) buf),
  send_text-ok (typed t) (drop (length (typed t ++ (0 ∷ []))) buf) (record c { stdin = rest })
      (typed-IsText t h),
)

-- The input of some lines, the packets that they make, and the array after them.
abbrev pub typed_lines : List (List ℕ) → List ℕ
typed_lines [] = []
typed_lines (t ∷ ts) = t ++ (10 ∷ typed_lines ts)

abbrev pub line_packets : List (List ℕ) → List (List ℕ)
line_packets ts = map (λ (t : List ℕ). typed t ++ (0 ∷ [])) ts

abbrev pub buf_after : List (List ℕ) → List ℕ → List ℕ
buf_after [] buf = buf
buf_after (t ∷ ts) buf = buf_after ts (overwrite (typed t ++ (0 ∷ [])) buf)

abbrev pub AreLines : List (List ℕ) → Type 0
AreLines [] = Unit
AreLines (t ∷ ts) = IsLine t × (length t ≤ 254) × AreLines ts

-- `SendMsg` sends each of the lines typed, if none is longer than 254 characters and every `send`
-- succeeds, as one packet, in order.
pub send_msg-lines :
    (ts : List (List ℕ)) (buf : List ℕ) (c : Client)
    → AreLines ts
    → c.stdin ≡ typed_lines ts
    → send_msg (replicate (length ts) true) buf c
      ≡ ok (buf_after ts buf, record c { stdin = []; sent = c.sent ++ line_packets ts })
unfolding send_msg
send_msg-lines [] buf c h typing = ground (arith, append-nil c.sent)
send_msg-lines (t ∷ ts) buf c h typing =
    ap
      (λ (r : Outcome (List ℕ × Client)).
        r >>= (λ q. send_msg (replicate (length ts) true) q.0 q.1))
      (send_round-line buf t (typed_lines ts) c h.0 h.1 typing)
    ∙ send_msg-lines ts (overwrite (typed t ++ (0 ∷ [])) buf)
        (record c { stdin = typed_lines ts; sent = c.sent ++ ((typed t ++ (0 ∷ [])) ∷ []) }) h.2
        refl
    ∙ ap
        (λ (sent : List (List ℕ)).
          ok (buf_after (t ∷ ts) buf, record c { stdin = []; sent = sent }))
        (append_assoc c.sent ((typed t ++ (0 ∷ [])) ∷ []) (line_packets ts))

-- At the end of the input `SendMsg` goes on: each round sends again what its array holds.
pub send_msg-eof :
    (n : ℕ) (buf t : List ℕ) (c : Client)
    → c.stdin ≡ []
    → c_string buf ≡ some t
    → send_msg (replicate n true) buf c
      ≡ ok (buf, record c { stdin = []; sent = c.sent ++ replicate n (t ++ (0 ∷ [])) })
unfolding send_msg send_round send_text fgets
send_msg-eof zero buf t c ended text = ground (arith, append-nil c.sent)
send_msg-eof (suc n) buf t c ended text = simp (
  ended,
  text,
  send_msg-eof n buf t (record c { stdin = []; sent = c.sent ++ ((t ++ (0 ∷ [])) ∷ []) }) refl text,
  append_assoc,
)

take_line-full : (t rest : List ℕ) → IsLine t → take_line (length t) (t ++ rest) ≡ (t, rest)
unfolding take_line
take_line-full [] rest h = refl
take_line-full (x ∷ t) rest h = ground (arith, take_line-full t rest h.2)

-- A name of 255 characters or more leaves no newline in the array: `SendID` writes through a null
-- pointer.
pub send_id-long :
    (send_ok : Bool) (buf t rest : List ℕ) (c : Client)
    → IsLine t
    → length t ≡ 255
    → c.stdin ≡ t ++ rest
    → send_id send_ok buf c ≡ fault
unfolding send_id fgets
send_id-long send_ok buf [] rest c h long typing = absurd (omega arith)
send_id-long send_ok buf (x ∷ t) rest c h long typing =
    let taken : take_line 255 ((x ∷ t) ++ rest) ≡ (x ∷ t, rest) =
      subst (λ (n : ℕ). take_line n ((x ∷ t) ++ rest) ≡ (x ∷ t, rest)) long
        (take_line-full (x ∷ t) rest h) in
    simp (
      typing,
      taken,
      append_assoc (x ∷ t) (0 ∷ []) (drop (length ((x ∷ t) ++ (0 ∷ []))) buf),
      newline_at-none (x ∷ t) (drop (length ((x ∷ t) ++ (0 ∷ []))) buf) h,
    )
