-- ===== src/ChatClient/Receiving.antt =====
-- chatc.c, `ReceiveMsg`: what is printed of what the server sends.
use linux_system_programming.Prelude.{
  ◌≤◌, ℕ, ◌<◌, ◌≡◌, refl, ap, ◌∙◌, Bool, true, false, Option, some, List, [], ◌∷◌, ◌++◌, overwrite,
  length, arith, append_assoc, append-nil, drop, drop-length, map, if◌then◌else◌,
}
use linux_system_programming.Chat.Results.{ok, exited, fault}
use linux_system_programming.Chat.Send.{IsText, c_string_text, c_string_unterminated}
use linux_system_programming.ChatClient.{Client, going, closed, receive_round, receive_msg}

-- A message with its NUL is printed, whatever came with it behind the NUL: if one `recv` brings two
-- messages, the second is lost.
pub receive_round-text :
    (stop_ok : Bool) (t behind buf : List ℕ) (c : Client)
    → IsText t
    → receive_round stop_ok (some (t ++ (0 ∷ behind))) buf c
      ≡ ok (going (overwrite (t ++ (0 ∷ behind)) buf) (record c { shown = c.shown ++ t }))
unfolding receive_round
receive_round-text stop_ok [] behind buf c h =
    rw
      (
        append_assoc [] (0 ∷ behind) (drop (length ([] ++ (0 ∷ behind))) buf),
        c_string_text [] (behind ++ drop (length ([] ++ (0 ∷ behind))) buf) h,
      )
      refl
receive_round-text stop_ok (x ∷ t) behind buf c h =
    rw
      (
        append_assoc (x ∷ t) (0 ∷ behind) (drop (length ((x ∷ t) ++ (0 ∷ behind))) buf),
        c_string_text (x ∷ t) (behind ++ drop (length ((x ∷ t) ++ (0 ∷ behind))) buf) h,
      )
      refl

-- If one `recv` fills the array with no NUL, as it may since the server sends up to 288 bytes, `printf`
-- reads past the end of the array.
pub receive_round-full :
    (stop_ok : Bool) (t buf : List ℕ) (c : Client)
    → IsText t
    → length t ≡ length buf
    → 0 < length buf
    → receive_round stop_ok (some t) buf c ≡ fault
unfolding receive_round
receive_round-full stop_ok [] buf c h full long = absurd (omega arith)
receive_round-full stop_ok (x ∷ t) buf c h full long =
    let none_left : drop (length (x ∷ t)) buf ≡ [] =
      ap (λ (n : ℕ). drop n buf) full ∙ drop-length buf in
    simp (none_left, append-nil, c_string_unterminated (x ∷ t) h)

-- The texts, one behind the other, and the array after them.
abbrev pub joined : List (List ℕ) → List ℕ
joined [] = []
joined (t ∷ ts) = t ++ joined ts

abbrev pub AreTexts : List (List ℕ) → Type 0
AreTexts [] = Unit
AreTexts (t ∷ ts) = IsText t × (length t ≤ 255) × AreTexts ts

abbrev pub received_after : List (List ℕ) → List ℕ → List ℕ
received_after [] buf = buf
received_after (t ∷ ts) buf = received_after ts (overwrite (t ++ (0 ∷ [])) buf)

receive_msg-round :
    (stop_ok : Bool) (bytes : List ℕ) (more : List (Option (List ℕ))) (buf : List ℕ) (c : Client)
    {buf' : List ℕ} {c' : Client}
    → receive_round stop_ok (some bytes) buf c ≡ ok (going buf' c')
    → receive_msg stop_ok (some bytes ∷ more) buf c ≡ receive_msg stop_ok more buf' c'
unfolding receive_msg
receive_msg-round stop_ok bytes more buf c e = rw e

-- `ReceiveMsg` prints the messages in the order in which they come, if each `recv` brings one of them and
-- none is longer than 255 characters.
pub receive_msg-texts :
    (stop_ok : Bool) (ts : List (List ℕ)) (buf : List ℕ) (c : Client)
    → AreTexts ts
    → receive_msg stop_ok (map (λ (t : List ℕ). some (t ++ (0 ∷ []))) ts) buf c
      ≡ ok (going (received_after ts buf) (record c { shown = c.shown ++ joined ts }))
unfolding receive_msg
receive_msg-texts stop_ok [] buf c h = ground (arith, append-nil c.shown)
receive_msg-texts stop_ok (t ∷ ts) buf c h =
    receive_msg-round stop_ok (t ++ (0 ∷ [])) (map (λ (u : List ℕ). some (u ++ (0 ∷ []))) ts) buf c
      (receive_round-text stop_ok t [] buf c h.0)
    ∙ receive_msg-texts stop_ok ts (overwrite (t ++ (0 ∷ [])) buf)
        (record c { shown = c.shown ++ t }) h.2
    ∙ ap (λ (shown : List ℕ). ok (going (received_after (t ∷ ts) buf) (record c { shown = shown })))
        (append_assoc c.shown t (joined ts))

-- When the server has closed the connection, the loop ends whatever might still come: the socket is
-- closed if `SendMsg` can be stopped, and the program exits with 1 if not.
pub receive_msg-closed :
    (stop_ok : Bool) (more : List (Option (List ℕ))) (buf : List ℕ) (c : Client)
    → receive_msg stop_ok (some [] ∷ more) buf c ≡ (if stop_ok then ok (closed c) else exited 1)
unfolding receive_msg receive_round
receive_msg-closed true more buf c = refl
receive_msg-closed false more buf c = refl
