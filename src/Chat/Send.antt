-- ===== src/Chat/Send.antt =====
-- chats.c, `SendToOtherClients`: the text of a message, who gets it, and when it fits.
use linux_system_programming.Prelude.{
  ℕ, zero, suc, ◌+◌, ◌≤◌, ◌≡◌, ◌≢◌, refl, map, true, false, inl, inr, none, some, List, [], ◌∷◌,
  ◌++◌, not, ◌&&◌, length, get_elem?, set, Bool-cases, arith, length-append, leb, ◌==◌,
  if◌then◌else◌,
}
use linux_system_programming.Prelude.Text.{codes}
use mathlib.Core.Option.{some-injective}
use linux_system_programming.Chat.{
  ClientType, Kernel, Server, c_string, format_msg, send_loop, send_to_other_clients,
}
use linux_system_programming.Chat.Results.{ok, exited}

-- A text with no NUL in it.
abbrev pub IsText : List ℕ → Type 0
IsText [] = Unit
IsText (c ∷ cs) = (c ≢ 0) × IsText cs

pub IsText-append : (t u : List ℕ) → IsText t → IsText u → IsText (t ++ u)
IsText-append [] u h g = g
IsText-append (x ∷ t) u h g = (h.0, IsText-append t u h.1 g)

-- A text that is followed by its NUL is read back, whatever stands behind it.
pub c_string_text : (t junk : List ℕ) → IsText t → c_string (t ++ (0 ∷ junk)) ≡ some t
unfolding c_string
c_string_text [] junk h = refl
c_string_text (c ∷ t) junk h = ground (arith, c_string_text t junk h.1)

-- With no NUL in the array the read goes past its end.
pub c_string_unterminated : (t : List ℕ) → IsText t → c_string t ≡ none
unfolding c_string
c_string_unterminated [] h = refl
c_string_unterminated (c ∷ t) h = ground (arith, c_string_unterminated t h.1)

-- `uid> text`
abbrev pub line : List ℕ → List ℕ → List ℕ
line u t = u ++ (codes "> " ++ t)

-- `sprintf` of `uid> text` stays within the array `msg` exactly if the name and the text together
-- have at most 285 characters; otherwise it writes past the end.
pub format_msg_lem :
    (uid buf u t : List ℕ)
    → c_string uid ≡ some u
    → c_string buf ≡ some t
    → format_msg uid buf ≡ (if leb (length u + length t) 285 then some (line u t) else none)
unfolding format_msg
format_msg_lem uid buf u t eu et = ground (arith, length-append u (codes "> " ++ t))

format_msg_fits :
    (uid buf u t : List ℕ)
    → c_string uid ≡ some u
    → c_string buf ≡ some t
    → length u + length t ≤ 285
    → format_msg uid buf ≡ some (line u t)
format_msg_fits uid buf u t eu et fits = ground (arith, format_msg_lem uid buf u t eu et)

-- The descriptors of the used entries but `id`, from entry `i` on.
abbrev pub others : ℕ → ℕ → List ClientType → List ℕ
others id i [] = []
others id i (c ∷ cs) =
    if c.in_use && not (i == id) then c.sockfd ∷ others id (i + 1) cs else others id (i + 1) cs

abbrev pub All {ℓ κ} : {A : Type ℓ} → (A → Type κ) → List A → Type κ
All P [] = Unit
All P (x ∷ xs) = P x × All P xs

-- The entry `id` itself does not matter.
pub others-set :
    (id i j : ℕ) (cs : List ClientType) (c : ClientType)
    → i + j ≡ id
    → others id i (set cs j c) ≡ others id i cs
others-set id i j [] c e = refl
others-set id i zero (d ∷ cs) c e = ground arith
others-set id i (suc j) (d ∷ cs) c e =
    let rest : others id (i + 1) (set cs j c) ≡ others id (i + 1) cs =
      others-set id (i + 1) j cs c (omega arith) in
    ground (arith, rest)

-- What each of the others is sent: the line with its NUL.
abbrev pub packets : List ℕ → List ℕ → List (ℕ × List ℕ)
packets msg fds = map (λ (fd : ℕ). (fd, msg ++ (0 ∷ []))) fds

-- If every `send` succeeds, each of the others gets the message once, in the order of the table.
pub send_loop-ok :
    (k : Kernel) (id : ℕ) (msg : List ℕ) (i : ℕ) (cs : List ClientType)
    → All (λ fd. k.send_ok fd ≡ true) (others id i cs)
    → send_loop k id msg i cs ≡ ok (packets msg (others id i cs))
unfolding send_loop
send_loop-ok k id msg i [] h = refl
send_loop-ok k id msg i (c ∷ cs) h = elim (Bool-cases (c.in_use && not (i == id))) [
  | inl other ↦
      let h' : (k.send_ok c.sockfd ≡ true)
          × All (λ fd. k.send_ok fd ≡ true) (others id (i + 1) cs) =
        rw other at h in
      simp (other, h'.0, send_loop-ok k id msg (i + 1) cs h'.1)
  | inr skipped ↦ simp (skipped, send_loop-ok k id msg (i + 1) cs (rw skipped at h))
]

-- If a `send` to one of the others fails, and no earlier step leaves C, the server exits.
pub send_loop-exited :
    (k : Kernel) (id : ℕ) (msg : List ℕ) (i j : ℕ) (cs : List ClientType) (c : ClientType)
    → get_elem? cs j ≡ some c
    → c.in_use ≡ true
    → i + j ≢ id
    → k.send_ok c.sockfd ≡ false
    → send_loop k id msg i cs ≡ exited 1
unfolding send_loop
send_loop-exited k id msg i j [] c e used ne refused = absurd (cc)
send_loop-exited k id msg i zero (d ∷ cs) c e used ne refused = ground arith
send_loop-exited k id msg i (suc j) (d ∷ cs) c e used ne refused =
    let rest : send_loop k id msg (i + 1) cs ≡ exited 1 =
      send_loop-exited k id msg (i + 1) j cs c e used (λ same. ne (omega arith)) refused in
    ground (arith, rest)

-- `others` is what its name says: the used entries at another place than `id`.
pub others_complete :
    (id i j : ℕ) (cs : List ClientType) (c : ClientType)
    → get_elem? cs j ≡ some c
    → c.in_use ≡ true
    → i + j ≢ id
    → (n : ℕ) × (get_elem? (others id i cs) n ≡ some c.sockfd)
others_complete id i j [] c e used ne = absurd (cc)
others_complete id i zero (d ∷ cs) c e used ne = (0, ground arith)
others_complete id i (suc j) (d ∷ cs) c e used ne =
    let (n, found) = others_complete id (i + 1) j cs c e used (λ same. ne (omega arith)) in
    elim (Bool-cases (d.in_use && not (i == id))) [
      | inl other ↦ (suc n, rw other found)
      | inr skipped ↦ (n, rw skipped found)
    ]

pub record Other (id i : ℕ) (cs : List ClientType) (fd : ℕ) : Type 0 where
  pub place : ℕ
  pub entry : ClientType
  pub found : get_elem? cs place ≡ some entry
  pub used : entry.in_use ≡ true
  pub ne : i + place ≢ id
  pub sockfd : entry.sockfd ≡ fd

Other-suc :
    (id i : ℕ) (d : ClientType) (cs : List ClientType) (fd : ℕ)
    → Other id (i + 1) cs fd
    → Other id i (d ∷ cs) fd
Other-suc id i d cs fd o = record {
  place = suc o.place;
  entry = o.entry;
  found = o.found;
  used = o.used;
  ne = λ e. o.ne (omega arith);
  sockfd = o.sockfd;
}

others_sound_here :
    (id i n : ℕ) (d : ClientType) (cs : List ClientType) (fd : ℕ)
    → (d.in_use && not (i == id)) ≡ true
    → get_elem? (d.sockfd ∷ others id (i + 1) cs) n ≡ some fd
    → ((m : ℕ) → get_elem? (others id (i + 1) cs) m ≡ some fd → Other id (i + 1) cs fd)
    → Other id i (d ∷ cs) fd
others_sound_here id i zero d cs fd other e later = record {
  place = 0;
  entry = d;
  found = refl;
  used = ground arith;
  ne = ground arith;
  sockfd = some-injective _ _ e;
}
others_sound_here id i (suc n) d cs fd other e later = Other-suc id i d cs fd (later n e)

pub others_sound :
    (id i n : ℕ) (cs : List ClientType) (fd : ℕ)
    → get_elem? (others id i cs) n ≡ some fd
    → Other id i cs fd
others_sound id i n [] fd e = absurd (cc)
others_sound id i n (d ∷ cs) fd e = elim (Bool-cases (d.in_use && not (i == id))) [
  | inl other ↦
      others_sound_here id i n d cs fd other (rw other at e) (λ m. others_sound id (i + 1) m cs fd)
  | inr skipped ↦ Other-suc id i d cs fd (others_sound id (i + 1) n cs fd (rw skipped at e))
]

-- `SendToOtherClients`, when it goes well.
pub send_to_other_clients-ok :
    (k : Kernel) (id : ℕ) (buf u t : List ℕ) (s : Server) (c : ClientType)
    → get_elem? s.client id ≡ some c
    → c_string c.uid ≡ some u
    → c_string buf ≡ some t
    → length u + length t ≤ 285
    → All (λ fd. k.send_ok fd ≡ true) (others id 0 s.client)
    → send_to_other_clients k id buf s
      ≡ ok (record s { sent = s.sent ++ packets (line u t) (others id 0 s.client) })
unfolding send_to_other_clients
send_to_other_clients-ok k id buf u t s c found eu et fits sends =
    rw (
      found,
      format_msg_fits c.uid buf u t eu et fits,
      send_loop-ok k id (line u t) 0 s.client sends,
    )
