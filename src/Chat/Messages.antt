-- ===== src/Chat/Messages.antt =====
-- chats.c, `ProcessClient` and the branch for a connection: what a log-in, a message, a log-out and
-- a connection do.
use linux_system_programming.Prelude.{
  ℕ, ◌+◌, ◌≤◌, ◌<◌, ◌≡◌, refl, ap, ◌∙◌, Bool, true, false, some, List, [], ◌∷◌, ◌++◌, length,
  get_elem?, set, arith, ltb, ◌==◌, if◌then◌else◌, overwrite, drop, append_assoc, put_at,
  get_elem?-set_self, get_elem?-lt, set-set, lt→ltb,
}
use linux_system_programming.Prelude.Text.{codes}
use linux_system_programming.Chat.{
  ClientType, Kernel, Server, c_string, max_buf, max_id, process_client, client_msg, log_in,
  log_out, log_out_text, connect_client, max_sock,
}
use linux_system_programming.Chat.Results.{Outcome, ok, fault}
use linux_system_programming.Chat.Send.{
  IsText, c_string_text, line, others, others-set, packets, All, send_to_other_clients-ok,
}
use linux_system_programming.Chat.Clients.{Taken, get_id-Taken, get_id-some, get_id-none}

-- Which of its two parts `ProcessClient` runs.
pub process_client-first :
    (k : Kernel) (id : ℕ) (s : Server) (c : ClientType)
    → get_elem? s.client id ≡ some c
    → process_client k id s ≡ (if c.first then client_msg k id c s else log_in k id c s)
unfolding process_client
process_client-first k id s c found = rw found

pub if_true : {A : Type 0} {b : Bool} (x y : A) → b ≡ true → (if b then x else y) ≡ x
if_true x y e = rw e

pub if_false : {A : Type 0} {b : Bool} (x y : A) → b ≡ false → (if b then x else y) ≡ y
if_false x y e = rw e

not_empty : (t junk : List ℕ) → (length (t ++ (0 ∷ junk)) == 0) ≡ false
not_empty [] junk = ground arith
not_empty (x ∷ t) junk = ground arith

-- `"log-out.....\n"`, without its NUL
abbrev pub gone : List ℕ
gone = codes "log-out....." ++ (10 ∷ [])

module _ (k : Kernel) (id : ℕ) (s : Server) (c : ClientType)
    (found : get_elem? s.client id ≡ some c) where
  -- The first message of a client that is not logged in becomes its name, and nobody is told.
  pub process_client-log_in :
      (u junk : List ℕ)
      → c.first ≡ false
      → IsText u
      → k.recv c.sockfd max_id ≡ some (u ++ (0 ∷ junk))
      → process_client k id s
        ≡ ok (record s {
          client =
              set s.client id (record c { uid = overwrite (u ++ (0 ∷ junk)) c.uid; first = true });
        })
  unfolding log_in
  process_client-log_in u junk new text got =
      process_client-first k id s c found
      ∙ if_false _ _ new
      ∙ rw
          (
            log_in,
            got,
            append_assoc u (0 ∷ junk),
            c_string_text u (junk ++ drop (length (u ++ (0 ∷ junk))) c.uid) text,
          )
          refl

  -- A text of a client that is logged in goes to each of the others once, behind the client's name;
  -- nothing else is changed.
  pub process_client-message :
      (u t junk : List ℕ)
      → c.first ≡ true
      → c_string c.uid ≡ some u
      → IsText t
      → k.recv c.sockfd max_buf ≡ some (t ++ (0 ∷ junk))
      → length u + length t ≤ 285
      → All (λ fd. k.send_ok fd ≡ true) (others id 0 s.client)
      → process_client k id s
        ≡ ok (record s { sent = s.sent ++ packets (line u t) (others id 0 s.client) })
  unfolding client_msg
  process_client-message u t junk old name text got fits sends =
      process_client-first k id s c found
      ∙ if_true _ _ old
      ∙ rw (client_msg, got, not_empty t junk)
          (send_to_other_clients-ok k id _ u t s c found name buffer fits sends)
    where
      buffer : c_string (overwrite (t ++ (0 ∷ junk)) (k.stack c.sockfd)) ≡ some t
      buffer =
          ap c_string
            (append_assoc t (0 ∷ junk) (drop (length (t ++ (0 ∷ junk))) (k.stack c.sockfd)))
          ∙ c_string_text t (junk ++ drop (length (t ++ (0 ∷ junk))) (k.stack c.sockfd)) text

  -- When a client has gone, its entry is free again, its descriptor is closed and no longer
  -- watched, and each of the others is told so behind the client's name.
  pub process_client-log_out :
      (u : List ℕ)
      → c.first ≡ true
      → c_string c.uid ≡ some u
      → k.recv c.sockfd max_buf ≡ some []
      → length u ≤ 272
      → All (λ fd. k.send_ok fd ≡ true) (others id 0 s.client)
      → process_client k id s
        ≡ ok (record s {
          reads = put_at s.reads c.sockfd false;
          closed = s.closed ++ (c.sockfd ∷ []);
          client = set s.client id (record c { in_use = false });
          sent = s.sent ++ packets (line u gone) (others id 0 s.client);
        })
  unfolding client_msg log_out c_string
  process_client-log_out u old name got fits sends =
      process_client-first k id s c found
      ∙ if_true _ _ old
      ∙ rw (client_msg, got, name)
          (send_to_other_clients-ok k id (overwrite log_out_text (k.stack c.sockfd)) u gone
              (log_out id c s) (record c { in_use = false }) entry name refl (omega arith)
              (rw same sends)
            ∙ ap
                (λ (fds : List ℕ).
                  ok (record (log_out id c s) { sent = s.sent ++ packets (line u gone) fds }))
                same)
    where
      entry :
          get_elem? (set s.client id (record c { in_use = false })) id
          ≡ some (record c { in_use = false })
      entry = get_elem?-set_self s.client id _ (get_elem?-lt s.client id found)

      same : others id 0 (set s.client id (record c { in_use = false })) ≡ others id 0 s.client
      same = others-set id 0 id s.client _ (omega arith)

-- What a connection does: the first unused entry is the client's, with the name of its last user.
pub record Connected (s : Server) (fd : ℕ) (r : Outcome Server) : Type 0 where
  pub id : ℕ
  pub old : ClientType
  pub was : get_elem? s.client id ≡ some old
  pub unused : old.in_use ≡ false
  pub lowest : (j : ℕ) (c : ClientType) → j < id → get_elem? s.client j ≡ some c → c.in_use ≡ true
  pub result :
      r
      ≡ ok (record s {
        reads = put_at s.reads fd true;
        fd_max = if ltb s.fd_max fd then fd else s.fd_max;
        sock_idx = put_at s.sock_idx fd id;
        client = set s.client id (record old { sockfd = fd; in_use = true; first = false });
      })

-- A connection is taken if an entry is unused and the descriptor is below the length of `sockIdx`.
pub connect_client-Connected :
    (k : Kernel) (s : Server) (fd j : ℕ) (c : ClientType)
    → k.accept s.reads ≡ some fd
    → fd < max_sock
    → get_elem? s.client j ≡ some c
    → c.in_use ≡ false
    → Connected s fd (connect_client k s)
unfolding connect_client
connect_client-Connected k s fd j c accepted below entry unused =
    let (r, taken) = get_id-some s.client j c entry unused in
    let t = get_id-Taken s.client r taken in
    record {
      id = r.0;
      old = t.old;
      was = t.was;
      unused = t.unused;
      lowest = t.lowest;
      result =
          rw (connect_client, accepted, taken, now_entry r t, lt→ltb fd max_sock below)
            (ap
              (λ (cs : List ClientType). ok (record s {
                reads = put_at s.reads fd true;
                fd_max = if ltb s.fd_max fd then fd else s.fd_max;
                sock_idx = put_at s.sock_idx fd r.0;
                client = cs;
              }))
              (ap
                  (λ (cs : List ClientType).
                    set cs r.0 (record t.old { sockfd = fd; in_use = true; first = false }))
                  t.now
                ∙ set-set s.client r.0 _ _));
    }
  where
    now_entry :
        (r : ℕ × List ClientType) (t : Taken s.client r.0 r.1)
        → get_elem? r.1 r.0 ≡ some (record t.old { in_use = true })
    now_entry r t =
        ap (λ cs. get_elem? cs r.0) t.now
        ∙ get_elem?-set_self s.client r.0 _ (get_elem?-lt s.client r.0 t.was)

-- With every entry in use a connection that is accepted leaves what C defines: `GetID` ends without
-- a value, and `main` uses it as an index.
pub connect_client-full :
    (k : Kernel) (s : Server) (fd : ℕ)
    → k.accept s.reads ≡ some fd
    → ((j : ℕ) (c : ClientType) → get_elem? s.client j ≡ some c → c.in_use ≡ true)
    → connect_client k s ≡ fault
unfolding connect_client
connect_client-full k s fd accepted full = rw (connect_client, accepted, get_id-none s.client full)
