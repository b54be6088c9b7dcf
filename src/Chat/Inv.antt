-- ===== src/Chat/Inv.antt =====
-- The invariant of chats.c: the descriptors that `select` watches and the client table agree.
use linux_system_programming.Prelude.{
  ℕ, ◌≤◌, ◌<◌, ◌≡◌, ◌≢◌, refl, ap, sym, ◌∙◌, true, false, some, List, length, get_elem?, set, arith,
  ltb, ◌==◌, if◌then◌else◌, put_at, get_elem?-set, get_elem?-lt, length-set, Bool-cases, inl, inr,
  replicate,
}
use linux_system_programming.Chat.{
  ClientType, Server, max_client, max_id, max_sock, log_out, init, no_client,
}

-- An entry in use with the descriptor `fd`.
pub record Owner (cs : List ClientType) (fd i : ℕ) : Type 0 where
  pub entry : ClientType
  pub found : get_elem? cs i ≡ some entry
  pub used : entry.in_use ≡ true
  pub sockfd : entry.sockfd ≡ fd

pub record IsValid (s : Server) : Type 0 where
  pub slots : length s.client ≡ max_client
  pub listening : s.reads s.listener ≡ true
  pub below : (fd : ℕ) → s.reads fd ≡ true → fd ≤ s.fd_max
  pub small : s.fd_max < max_sock
  -- Each watched descriptor but the listener's is that of the entry that `sockIdx` names.
  pub watched : (fd : ℕ) → s.reads fd ≡ true → fd ≢ s.listener → Owner s.client fd (s.sock_idx fd)
  -- Each entry in use is watched, and `sockIdx` leads back to it.
  pub used :
      (i : ℕ) (c : ClientType)
      → get_elem? s.client i ≡ some c
      → c.in_use ≡ true
      → (s.reads c.sockfd ≡ true) × (s.sock_idx c.sockfd ≡ i) × (c.sockfd ≢ s.listener)
  pub names : (i : ℕ) (c : ClientType) → get_elem? s.client i ≡ some c → length c.uid ≡ max_id

-- Two entries in use have different descriptors.
pub IsValid-unique :
    (s : Server) (i j : ℕ) (c d : ClientType)
    → IsValid s
    → get_elem? s.client i ≡ some c
    → get_elem? s.client j ≡ some d
    → c.in_use ≡ true
    → d.in_use ≡ true
    → c.sockfd ≡ d.sockfd
    → i ≡ j
IsValid-unique s i j c d v ci dj ui uj e =
    sym (v.used i c ci ui).1 ∙ ap s.sock_idx e ∙ (v.used j d dj uj).1

-- An entry changed in its name and its flag `First` alone.
module _ (s : Server) (id : ℕ) (c : ClientType) (v : IsValid s)
    (found : get_elem? s.client id ≡ some c) (uid : List ℕ) (sized : length uid ≡ max_id) where
  abbrev renamed : ClientType
  renamed = record c { uid = uid; first = true }

  look :
      (j : ℕ)
      → get_elem? (set s.client id renamed) j
        ≡ (if id == j then some renamed else get_elem? s.client j)
  look j = get_elem?-set s.client id j renamed (get_elem?-lt s.client id found)

  pub log_in-IsValid : IsValid (record s { client = set s.client id renamed })
  log_in-IsValid = record {
    slots = length-set s.client id renamed ∙ v.slots;
    listening = v.listening;
    below = v.below;
    small = v.small;
    watched = λ fd on ne.
        let o = v.watched fd on ne in
        elim (Bool-cases (id == s.sock_idx fd)) [
          | inl here ↦ record {
            entry = renamed;
            found = look (s.sock_idx fd) ∙ rw here;
            used = ground (arith, o.found, found, o.used);
            sockfd = ground (arith, o.found, found, o.sockfd);
          }
          | inr other ↦ record {
            entry = o.entry;
            found = look (s.sock_idx fd) ∙ rw other o.found;
            used = o.used;
            sockfd = o.sockfd;
          }
        ];
    used = λ i d e u. ground (arith, look i, v.used i d, v.used i c, found);
    names = λ i d e. ground (arith, look i, v.names i d);
  }

-- An entry in use given back, with its descriptor no longer watched.
module _ (s : Server) (id : ℕ) (c : ClientType) (v : IsValid s)
    (found : get_elem? s.client id ≡ some c) (was : c.in_use ≡ true) where
  abbrev freed : ClientType
  freed = record c { in_use = false }

  look_freed :
      (j : ℕ)
      → get_elem? (set s.client id freed) j ≡ (if id == j then some freed else get_elem? s.client j)
  look_freed j = get_elem?-set s.client id j freed (get_elem?-lt s.client id found)

  pub log_out-IsValid : IsValid (log_out id c s)
  unfolding log_out
  log_out-IsValid = record {
    slots = length-set s.client id freed ∙ v.slots;
    listening = ground (arith, v.listening, v.used id c);
    below = λ fd on. v.below fd (ground arith);
    small = v.small;
    watched = λ fd on ne.
        let o = v.watched fd (ground arith) ne in
        record {
          entry = o.entry;
          found = ground (arith, look_freed (s.sock_idx fd), o.found, o.sockfd, found);
          used = o.used;
          sockfd = o.sockfd;
        };
    used = λ i d e u. ground (arith, look_freed i, v.used i d, v.used id c);
    names = λ i d e. ground (arith, look_freed i, v.names i d, v.names i c, found);
  }

-- A new connection in an unused entry.
module _ (s : Server) (id : ℕ) (c : ClientType) (v : IsValid s)
    (found : get_elem? s.client id ≡ some c) (free : c.in_use ≡ false) (fd : ℕ)
    (fresh : s.reads fd ≡ false) (small : fd < max_sock) where
  abbrev joined : ClientType
  joined = record c { sockfd = fd; in_use = true; first = false }

  look_joined :
      (j : ℕ)
      → get_elem? (set s.client id joined) j
        ≡ (if id == j then some joined else get_elem? s.client j)
  look_joined j = get_elem?-set s.client id j joined (get_elem?-lt s.client id found)

  abbrev joined_server : Server
  joined_server = record s {
    reads = put_at s.reads fd true;
    fd_max = if ltb s.fd_max fd then fd else s.fd_max;
    sock_idx = put_at s.sock_idx fd id;
    client = set s.client id joined;
  }

  pub connect-IsValid : IsValid joined_server
  connect-IsValid = record {
    slots = length-set s.client id joined ∙ v.slots;
    listening = ground (arith, v.listening);
    below = λ n on. ground (arith, v.below n);
    small = ground (arith, v.small);
    watched = λ n on ne. elim (Bool-cases (fd == n)) [
      | inl here ↦ record {
        entry = joined;
        found = ground (arith, look_joined id);
        used = refl;
        sockfd = ground arith;
      }
      | inr other ↦
          let o = v.watched n (ground arith) ne in
          record {
            entry = o.entry;
            found = ground (arith, look_joined (s.sock_idx n), o.found, o.used, found);
            used = o.used;
            sockfd = o.sockfd;
          }
    ];
    used = λ i d e u. ground (arith, look_joined i, v.used i d, v.listening);
    names = λ i d e. ground (arith, look_joined i, v.names i d, v.names i c, found);
  }

-- What is sent does not matter to the invariant.
pub sent-IsValid :
    (s : Server) (out : List (ℕ × List ℕ)) → IsValid s → IsValid (record s { sent = out })
sent-IsValid s out v = record {
  slots = v.slots;
  listening = v.listening;
  below = v.below;
  small = v.small;
  watched = v.watched;
  used = v.used;
  names = v.names;
}

-- The server as `main` starts it.
pub init-IsValid :
    (listener : ℕ) (sock_idx : ℕ → ℕ) → listener < max_sock → IsValid (init listener sock_idx)
unfolding init
init-IsValid listener sock_idx small = record {
  slots = refl;
  listening = ground arith;
  below = λ fd on. ground arith;
  small = small;
  watched = λ fd on ne. absurd (ground arith);
  used = λ i c e u. absurd (nobody i c e u);
  names = size;
}
  where
    nobody :
        (i : ℕ) (c : ClientType)
        → get_elem? (replicate max_client no_client) i ≡ some c
        → c.in_use ≡ true
        → ⊥
    nobody i c e u = ground arith

    size :
        (i : ℕ) (c : ClientType)
        → get_elem? (replicate max_client no_client) i ≡ some c
        → length c.uid ≡ max_id
    size i c e = ground arith
