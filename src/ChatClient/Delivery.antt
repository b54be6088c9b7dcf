-- ===== src/ChatClient/Delivery.antt =====
-- chatc.c and chats.c together: what one user types is what the others read, if each `recv` brings what
-- one `send` has sent.
use linux_system_programming.Prelude.{
  ℕ, ◌+◌, ◌≤◌, ◌≡◌, ap, ◌∙◌, true, false, some, List, [], ◌∷◌, ◌++◌, length, get_elem?, set,
  overwrite, arith, length-append, append_assoc, drop,
}
use linux_system_programming.Prelude.Text.{codes}
use linux_system_programming.Chat.{
  ClientType, Kernel, Server, c_string, max_buf, max_id, process_client,
}
use linux_system_programming.Chat.Results.{ok}
use linux_system_programming.Chat.Send.{
  IsText, IsText-append, c_string_text, line, others, packets, All,
}
use linux_system_programming.Chat.Messages.{process_client-log_in, process_client-message}
use linux_system_programming.ChatClient.{Client, going, send_id, send_round, receive_round}
use linux_system_programming.ChatClient.Sending.{
  IsLine, IsLine-IsText, typed, typed-IsText, send_id-name, send_round-line,
}
use linux_system_programming.ChatClient.Receiving.{receive_round-text}

line-IsText : (u t : List ℕ) → IsText u → IsText t → IsText (line u t)
line-IsText u t h g = IsText-append u _ h (IsText-append (codes "> ") t (omega arith) g)

-- The name that is typed at the client is the name that the server keeps: the packet of `SendID` is what
-- the server receives as the first message.
pub name_kept :
    (k : Kernel) (id : ℕ) (s : Server) (entry : ClientType) (a : Client) (u rest buf : List ℕ)
    → get_elem? s.client id ≡ some entry
    → entry.first ≡ false
    → IsLine u
    → length u ≤ 254
    → a.stdin ≡ u ++ (10 ∷ rest)
    → k.recv entry.sockfd max_id ≡ some (u ++ (0 ∷ []))
    → (send_id true buf a ≡ ok (record a { stdin = rest; sent = a.sent ++ ((u ++ (0 ∷ [])) ∷ []) }))
      × (process_client k id s
          ≡ ok (record s {
            client =
                set s.client id
                  (record entry { uid = overwrite (u ++ (0 ∷ [])) entry.uid; first = true });
          }))
      × (c_string (overwrite (u ++ (0 ∷ [])) entry.uid) ≡ some u)
name_kept k id s entry a u rest buf found new h short typing got = (
  send_id-name buf u rest a h short typing,
  process_client-log_in k id s entry found u [] new (IsLine-IsText u h) got,
  ap c_string (append_assoc u (0 ∷ []) (drop (length (u ++ (0 ∷ []))) entry.uid))
      ∙ c_string_text u (drop (length (u ++ (0 ∷ []))) entry.uid) (IsLine-IsText u h),
)

-- A line that user `u` types, of at most 252 characters with the name, so that it fits in the 256 bytes
-- of the other clients, is sent by the client, sent on by the server to each of the others behind "u> ",
-- and printed by their clients just so, with its newline.
pub line_delivered :
    (k : Kernel) (id : ℕ) (s : Server) (entry : ClientType) (a b : Client)
    (u t rest buf buf' : List ℕ)
    → get_elem? s.client id ≡ some entry
    → entry.first ≡ true
    → c_string entry.uid ≡ some u
    → IsText u
    → IsLine t
    → length u + length t ≤ 252
    → a.stdin ≡ t ++ (10 ∷ rest)
    → k.recv entry.sockfd max_buf ≡ some (typed t ++ (0 ∷ []))
    → All (λ fd. k.send_ok fd ≡ true) (others id 0 s.client)
    → (send_round true buf a
        ≡ ok (
          overwrite (typed t ++ (0 ∷ [])) buf,
          record a { stdin = rest; sent = a.sent ++ ((typed t ++ (0 ∷ [])) ∷ []) },
        ))
      × (process_client k id s
          ≡ ok (record s { sent = s.sent ++ packets (line u (typed t)) (others id 0 s.client) }))
      × (receive_round true (some (line u (typed t) ++ (0 ∷ []))) buf' b
          ≡ ok (
              going
                (overwrite (line u (typed t) ++ (0 ∷ [])) buf')
                (record b { shown = b.shown ++ line u (typed t) })))
line_delivered k id s entry a b u t rest buf buf' found old name text h fits typing got sends = (
  send_round-line buf t rest a h (omega arith) typing,
  process_client-message k id s entry found u (typed t) [] old name (typed-IsText t h) got
      (omega (arith, length-append t (10 ∷ []))) sends,
  receive_round-text true (line u (typed t)) [] buf' b
      (line-IsText u (typed t) text (typed-IsText t h)),
)
