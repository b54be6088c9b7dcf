-- ===== src/Chat/Rounds.antt =====
-- chats.c: the rounds of `main`'s loop keep the invariant, and a round's loop ends within its fuel.
use linux_system_programming.Prelude.{
  ℕ, zero, suc, ◌+◌, ◌≤◌, ◌<◌, ◌≡◌, ◌≢◌, refl, ap, subst, sym, ◌∙◌, Bool, true, false, none, some,
  List, [], ◌∷◌, ◌&&◌, get_elem?, set, arith, ltb, ◌==◌, if◌then◌else◌, overwrite, put_at,
  length-overwrite, Bool-cases, Option-cases, ltb→lt, get_elem?-set_self, get_elem?-lt, set-set,
  inl, inr,
}
use linux_system_programming.Chat.{
  ClientType, Kernel, IsKernel, Server, max_id, max_sock, max_buf, init, format_msg, log_in,
  log_out, log_out_text, client_msg, send_loop, send_to_other_clients, process_client,
  connect_client, serve, scan, scan_fuel, round, run, get_id,
}
use linux_system_programming.Chat.Results.{
  ok, exited, out_of_fuel, ◌>>=◌, Ensures, Ensures-bind, Ensures-intro,
}
use mathlib.Core.Logic.{◌⊎◌}
use mathlib.Core.Option.{some-injective}
use linux_system_programming.Chat.Inv.{
  IsValid, Owner, log_in-IsValid, log_out-IsValid, connect-IsValid, sent-IsValid, init-IsValid,
}
use linux_system_programming.Chat.Messages.{process_client-first, if_true, if_false}
use linux_system_programming.Chat.Clients.{Taken, get_id-Taken}

-- What serving the descriptor `fd` keeps: the invariant, the listener, and that others are watched.
pub record Kept (s : Server) (fd : ℕ) (s' : Server) : Type 0 where
  pub valid : IsValid s'
  pub listener : s'.listener ≡ s.listener
  pub others : (n : ℕ) → n ≢ fd → s.reads n ≡ true → s'.reads n ≡ true

send-same :
    (k : Kernel) (id : ℕ) (buf : List ℕ) (s s' : Server)
    → send_to_other_clients k id buf s ≡ ok s'
    → s' ≡ record s { sent = s'.sent }
unfolding send_to_other_clients
send-same k id buf s s' e = ground arith

client_msg-same :
    (k : Kernel) (id : ℕ) (c : ClientType) (s s' : Server)
    → client_msg k id c s ≡ ok s'
    → (s' ≡ record s { sent = s'.sent }) ⊎ (s' ≡ record (log_out id c s) { sent = s'.sent })
unfolding client_msg
client_msg-same k id c s s' e = elim (Option-cases (k.recv c.sockfd max_buf)) [
  | inl failed ↦ ground arith
  | inr (bytes, got) ↦ ground (
    arith,
    send-same k id (overwrite bytes (k.stack c.sockfd)) s s',
    send-same k id (overwrite log_out_text (overwrite bytes (k.stack c.sockfd))) (log_out id c s)
        s',
  )
]

log_in-same :
    (k : Kernel) (id : ℕ) (c : ClientType) (s s' : Server)
    → log_in k id c s ≡ ok s'
    → (name : List ℕ) × (k.recv c.sockfd max_id ≡ some name)
      × (s' ≡ record s {
        client = set s.client id (record c { uid = overwrite name c.uid; first = true });
      })
unfolding log_in
log_in-same k id c s s' e = elim (Option-cases (k.recv c.sockfd max_id)) [
  | inl failed ↦ absurd (ground arith)
  | inr (name, got) ↦ (name, got, ground arith)
]

-- A server that is equal to one that is kept is kept.
Kept-of_eq : {s s' t : Server} (fd : ℕ) → s' ≡ t → Kept s fd t → Kept s fd s'
Kept-of_eq {s} fd e h = subst (λ (u : Server). Kept s fd u) (sym e) h

sent-Kept :
    (s : Server) (fd : ℕ) (out : List (ℕ × List ℕ))
    → IsValid s
    → Kept s fd (record s { sent = out })
sent-Kept s fd out v = record {
  valid = sent-IsValid s out v;
  listener = refl;
  others = λ n ne on. on;
}

module _ (k : Kernel) (kernel : IsKernel k) (s : Server) (i : ℕ) (v : IsValid s)
    (o : Owner s.client i (s.sock_idx i)) where
  abbrev id : ℕ
  id = s.sock_idx i

  log_out-Kept : (out : List (ℕ × List ℕ)) → Kept s i (record (log_out id o.entry s) { sent = out })
  unfolding log_out
  log_out-Kept out = record {
    valid = sent-IsValid (log_out id o.entry s) out (log_out-IsValid s id o.entry v o.found o.used);
    listener = refl;
    others = λ n ne on. ground (arith, o.sockfd);
  }

  log_in-Kept : (s' : Server) → log_in k id o.entry s ≡ ok s' → Kept s i s'
  log_in-Kept s' e =
      let (name, got, same) = log_in-same k id o.entry s s' e in
      Kept-of_eq i same (record {
        valid = log_in-IsValid s id o.entry v o.found (overwrite name o.entry.uid) (
            length-overwrite name o.entry.uid (
              omega
                (arith, kernel.recv_le o.entry.sockfd max_id name got, v.names id o.entry o.found))
            ∙ v.names id o.entry o.found);
        listener = refl;
        others = λ n ne on. on;
      })

  client_msg-Kept : (s' : Server) → client_msg k id o.entry s ≡ ok s' → Kept s i s'
  client_msg-Kept s' e = elim (client_msg-same k id o.entry s s' e) [
    | inl sent ↦ Kept-of_eq i sent (sent-Kept s i s'.sent v)
    | inr left ↦ Kept-of_eq i left (log_out-Kept s'.sent)
  ]

  process_client-Kept : (s' : Server) → process_client k id s ≡ ok s' → Kept s i s'
  process_client-Kept s' e = elim (Bool-cases o.entry.first) [
    | inl old ↦
        client_msg-Kept s'
          (sym (if_true _ _ old) ∙ sym (process_client-first k id s o.entry o.found) ∙ e)
    | inr new ↦
        log_in-Kept s'
          (sym (if_false _ _ new) ∙ sym (process_client-first k id s o.entry o.found) ∙ e)
  ]

connect-same :
    (k : Kernel) (s s' : Server)
    → connect_client k s ≡ ok s'
    → (fd : ℕ) × (r : ℕ × List ClientType) × (c : ClientType) × (k.accept s.reads ≡ some fd)
      × (get_id s.client ≡ some r)
      × (get_elem? r.1 r.0 ≡ some c)
      × (fd < max_sock)
      × (s' ≡ record s {
        reads = put_at s.reads fd true;
        fd_max = if ltb s.fd_max fd then fd else s.fd_max;
        sock_idx = put_at s.sock_idx fd r.0;
        client = set r.1 r.0 (record c { sockfd = fd; first = false });
      })
unfolding connect_client
connect-same k s s' e = elim (Option-cases (k.accept s.reads)) [
  | inl failed ↦ absurd (ground arith)
  | inr (fd, accepted) ↦ elim (Option-cases (get_id s.client)) [
    | inl full ↦ absurd (ground arith)
    | inr (r, taken) ↦ elim (Option-cases (get_elem? r.1 r.0)) [
      | inl missing ↦ absurd (ground arith)
      | inr (c, entry) ↦ (fd, r, c, accepted, taken, entry, ground arith, ground arith)
    ]
  ]
]

-- The entry that `GetID` has marked and `main` fills, as one write.
connect_entry :
    (cs : List ClientType) (fd : ℕ) (r : ℕ × List ClientType) (c : ClientType)
    (t : Taken cs r.0 r.1)
    → get_elem? r.1 r.0 ≡ some c
    → set r.1 r.0 (record c { sockfd = fd; first = false })
      ≡ set cs r.0 (record t.old { sockfd = fd; in_use = true; first = false })
connect_entry cs fd r c t entry =
    ap (λ (d : ClientType). set r.1 r.0 (record d { sockfd = fd; first = false })) marked
    ∙ ap
        (λ (ds : List ClientType).
          set ds r.0 (record t.old { sockfd = fd; in_use = true; first = false }))
        t.now
    ∙ set-set cs r.0 _ _
  where
    marked : c ≡ record t.old { in_use = true }
    marked = some-injective _ _ (
        sym entry
        ∙ ap (λ (ds : List ClientType). get_elem? ds r.0) t.now
        ∙ get_elem?-set_self cs r.0 _ (get_elem?-lt cs r.0 t.was))

connect_client-Kept :
    (k : Kernel) (s : Server) (fd : ℕ)
    → IsKernel k
    → IsValid s
    → (s' : Server) → connect_client k s ≡ ok s'
    → Kept s fd s'
connect_client-Kept k s i kernel v s' e =
    let (fd, r, c, accepted, taken, entry, below, same) = connect-same k s s' e in
    let t = get_id-Taken s.client r taken in
    Kept-of_eq i
      (same
        ∙ ap
            (λ (cs : List ClientType). record s {
              reads = put_at s.reads fd true;
              fd_max = if ltb s.fd_max fd then fd else s.fd_max;
              sock_idx = put_at s.sock_idx fd r.0;
              client = cs;
            })
            (connect_entry s.client fd r c t entry))
      (record {
        valid =
            connect-IsValid s r.0 t.old v t.was t.unused fd
              (kernel.accept_fresh s.reads fd accepted) below;
        listener = refl;
        others = λ n ne on. ground arith;
      })

send_loop-ne-fuel :
    (k : Kernel) (id : ℕ) (msg : List ℕ) (i : ℕ) (cs : List ClientType)
    → send_loop k id msg i cs ≢ out_of_fuel
unfolding send_loop
send_loop-ne-fuel k id msg i [] e = cc
send_loop-ne-fuel k id msg i (c ∷ cs) e = ground (arith, send_loop-ne-fuel k id msg (i + 1) cs)

send-ne-fuel :
    (k : Kernel) (id : ℕ) (buf : List ℕ) (s : Server)
    → send_to_other_clients k id buf s ≢ out_of_fuel
unfolding send_to_other_clients
send-ne-fuel k id buf s e = elim (Option-cases (get_elem? s.client id)) [
  | inl missing ↦ ground arith
  | inr (c, found) ↦ elim (Option-cases (format_msg c.uid buf)) [
    | inl long ↦ ground arith
    | inr (msg, text) ↦ ground (arith, send_loop-ne-fuel k id msg 0 s.client)
  ]
]

process_client-ne-fuel : (k : Kernel) (id : ℕ) (s : Server) → process_client k id s ≢ out_of_fuel
unfolding process_client client_msg log_in
process_client-ne-fuel k id s e = elim (Option-cases (get_elem? s.client id)) [
  | inl missing ↦ ground arith
  | inr (c, found) ↦ elim (Option-cases (k.recv c.sockfd max_buf)) [
    | inl failed ↦ ground arith
    | inr (bytes, got) ↦ ground (
      arith,
      send-ne-fuel k id (overwrite bytes (k.stack c.sockfd)) s,
      send-ne-fuel k id (overwrite log_out_text (overwrite bytes (k.stack c.sockfd)))
          (log_out id c s),
    )
  ]
]

connect_client-ne-fuel : (k : Kernel) (s : Server) → connect_client k s ≢ out_of_fuel
unfolding connect_client
connect_client-ne-fuel k s e = ground arith

serve-Ensures :
    (k : Kernel) (s : Server) (i : ℕ)
    → IsKernel k
    → IsValid s
    → s.reads i ≡ true
    → Ensures (Kept s i) (serve k i s)
unfolding serve
serve-Ensures k s i kernel v on = elim (Bool-cases (i == s.listener)) [
  | inl here ↦ rw here (
      Ensures-intro (Kept s i) (connect_client k s) (connect_client-Kept k s i kernel v)
        (connect_client-ne-fuel k s))
  | inr other ↦ rw other (
      Ensures-intro (Kept s i) (process_client k (s.sock_idx i) s)
        (process_client-Kept k kernel s i v (v.watched i on (ground arith)))
        (process_client-ne-fuel k (s.sock_idx i) s))
]

scan-more :
    (k : Kernel) (cpy_reads : ℕ → Bool) (fuel i : ℕ) (s : Server)
    → ltb i (s.fd_max + 1) ≡ true
    → scan k cpy_reads (suc fuel) i s
      ≡ ((if cpy_reads i then serve k i s else ok s) >>= (λ s'. scan k cpy_reads fuel (i + 1) s'))
unfolding scan
scan-more k cpy_reads fuel i s more = ground arith

scan-over :
    (k : Kernel) (cpy_reads : ℕ → Bool) (fuel i : ℕ) (s : Server)
    → ltb i (s.fd_max + 1) ≡ false
    → scan k cpy_reads (suc fuel) i s ≡ ok s
unfolding scan
scan-over k cpy_reads fuel i s over = ground arith

round-scan :
    (k : Kernel) (s : Server) (n : ℕ)
    → k.select ≡ some (suc n)
    → round k s ≡ scan k (λ fd. s.reads fd && k.ready fd) scan_fuel 0 s
unfolding round
round-scan k s n e = ground arith

round-failed : (k : Kernel) (s : Server) → k.select ≡ none → round k s ≡ exited 1
unfolding round
round-failed k s e = ground arith

round-idle : (k : Kernel) (s : Server) → k.select ≡ some 0 → round k s ≡ ok s
unfolding round
round-idle k s e = ground arith

scan-Ensures :
    (k : Kernel) (cpy_reads : ℕ → Bool) (listener fuel i : ℕ) (s : Server)
    → IsKernel k
    → IsValid s
    → s.listener ≡ listener
    → ((n : ℕ) → i ≤ n → cpy_reads n ≡ true → s.reads n ≡ true)
    → i ≤ max_sock
    → max_sock < fuel + i
    → Ensures (λ s'. IsValid s' × (s'.listener ≡ listener)) (scan k cpy_reads fuel i s)
scan-Ensures k cpy_reads listener zero i s kernel v same on low enough = absurd (omega arith)
scan-Ensures k cpy_reads listener (suc fuel) i s kernel v same on low enough =
    elim (Bool-cases (ltb i (s.fd_max + 1))) [
      | inl more ↦ rw (scan-more k cpy_reads fuel i s more) (
          Ensures-bind (Kept s i) _ (if cpy_reads i then serve k i s else ok s) _ here (λ s' kept.
            scan-Ensures k cpy_reads listener fuel (i + 1) s' kernel kept.valid
              (kept.listener ∙ same)
              (λ n above ready. kept.others n (λ e. omega arith) (on n (omega arith) ready))
              (within more) (omega arith)))
      | inr over ↦ rw (scan-over k cpy_reads fuel i s over) (v, same)
    ]
  where
    within : ltb i (s.fd_max + 1) ≡ true → i + 1 ≤ max_sock
    within more = omega (arith, v.small, ltb→lt i (s.fd_max + 1) more)

    here : Ensures (Kept s i) (if cpy_reads i then serve k i s else ok s)
    here = elim (Bool-cases (cpy_reads i)) [
      | inl ready ↦ rw ready (serve-Ensures k s i kernel v (on i (omega arith) ready))
      | inr quiet ↦
          rw quiet (record { valid = v; listener = refl; others = λ n ne watched. watched })
    ]

-- A round of the server, from a state that meets the invariant and whatever the kernel answers, never
-- runs out of the model's fuel, and if it goes on, the invariant holds again.
pub round-Ensures :
    (k : Kernel) (s : Server)
    → IsKernel k
    → IsValid s
    → Ensures (λ s'. IsValid s' × (s'.listener ≡ s.listener)) (round k s)
round-Ensures k s kernel v = elim (Option-cases k.select) [
  | inl failed ↦ rw (round-failed k s failed) tt
  | inr (zero, none_ready) ↦ rw (round-idle k s none_ready) (v, refl)
  | inr (suc n, some_ready) ↦ rw (round-scan k s n some_ready) (
      scan-Ensures k (λ fd. s.reads fd && k.ready fd) s.listener scan_fuel 0 s kernel v refl
        (λ fd above ready. ground arith) (omega arith) (omega arith))
]

abbrev pub AllKernels : List Kernel → Type 0
AllKernels [] = Unit
AllKernels (k ∷ ks) = IsKernel k × AllKernels ks

run_from : (ks : List Kernel) (s : Server) → AllKernels ks → IsValid s → Ensures IsValid (run ks s)
unfolding run
run_from [] s kernels v = v
run_from (k ∷ ks) s kernels v =
    Ensures-bind (λ s'. IsValid s' × (s'.listener ≡ s.listener)) IsValid (round k s) _
      (round-Ensures k s kernels.0 v) (λ s' after. run_from ks s' kernels.1 after.0)

-- After any number of rounds from the start of `main`'s loop, with the listener's descriptor below the
-- length of `sockIdx` and whatever the kernel answers, the model has not run out of fuel, and if the
-- server still runs, the invariant holds.
pub run-Ensures :
    (ks : List Kernel) (listener : ℕ) (sock_idx : ℕ → ℕ)
    → AllKernels ks
    → listener < max_sock
    → Ensures IsValid (run ks (init listener sock_idx))
run-Ensures ks listener sock_idx kernels small =
    run_from ks (init listener sock_idx) kernels (init-IsValid listener sock_idx small)
