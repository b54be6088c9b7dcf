-- ===== src/Servers/Pool/Answers.antt =====
-- hw3.c: what the threads have answered.
use linux_system_programming.Prelude.{
  ℕ, suc, ◌+◌, ◌≡◌, refl, ap, ap₂, sym, subst, ◌∙◌, true, Bool, false, Option, none, some, List, [],
  ◌∷◌, ◌++◌, ◌==◌, if◌then◌else◌, append-nil, arith, Bool-cases, inl, inr,
}
use mathlib.Core.Option.{some-injective}
use linux_system_programming.Servers.Message.{
  Progress, done, MsgType, reply_text, prepare, msg_reply,
}
use linux_system_programming.Servers.Stream.{Peer, Log}
use linux_system_programming.Servers.Select.{
  is_ready, Task, tcp_task, udp_task, spawn, tcp_thread, udp_thread,
}
use linux_system_programming.Servers.Pool.{
  Side, Pool, thread_takes, started_for, after_spawn, pool_round, finish, PoolStep, tcp_arrives,
  udp_arrives, round, tcp_taken, udp_taken, tcp_answered, udp_answered, PoolRun, begin, more,
}

-- A thread that is done with this request has answered it: it has read it, and its write succeeded.
abbrev pub is_answered : Peer → Bool
is_answered p = elim (p.got) [ none ↦ false | some m ↦ p.write_ok ]

-- The descriptors of the requests that have been answered.
abbrev pub answered : List Peer → List ℕ
answered [] = []
answered (p ∷ ps) = if is_answered p then p.fd ∷ answered ps else answered ps

-- How many of the replies are to `fd`.
abbrev pub replies_to : ℕ → List (ℕ × MsgType) → ℕ
replies_to fd [] = 0
replies_to fd (r ∷ rs) = if r.0 == fd then suc (replies_to fd rs) else replies_to fd rs

abbrev pub times : ℕ → List ℕ → ℕ
times fd [] = 0
times fd (x ∷ xs) = if x == fd then suc (times fd xs) else times fd xs

answered-append : (xs ys : List Peer) → answered (xs ++ ys) ≡ answered xs ++ answered ys
answered-append [] ys = refl
answered-append (x ∷ xs) ys = ground (arith, answered-append xs ys)

replies_to-append :
    (fd : ℕ) (xs ys : List (ℕ × MsgType))
    → replies_to fd (xs ++ ys) ≡ replies_to fd xs + replies_to fd ys
replies_to-append fd [] ys = omega arith
replies_to-append fd (x ∷ xs) ys = ground (arith, replies_to-append fd xs ys)

times-append : (fd : ℕ) (xs ys : List ℕ) → times fd (xs ++ ys) ≡ times fd xs + times fd ys
times-append fd [] ys = omega arith
times-append fd (x ∷ xs) ys = ground (arith, times-append fd xs ys)

-- What a thread adds to the log.
record Adds (p : Peer) (closes : List ℕ) (log log' : Log) : Type 0 where
  closed : log'.closed ≡ log.closed ++ closes
  replied :
      (fd : ℕ)
      → replies_to fd log'.replies ≡ replies_to fd log.replies + times fd (answered (p ∷ []))

Adds-none :
    (p : Peer) (closes : List ℕ) (log : Log) (requests : List (List ℕ))
    → is_answered p ≡ false
    → closes ≡ []
    → Adds p closes log (record log { requests = requests })
Adds-none p closes log requests unanswered nothing_closed = record {
  closed = sym (append-nil log.closed) ∙ ap (λ c. log.closed ++ c) (sym nothing_closed);
  replied = λ fd. ground (arith, unanswered);
}

tcp_text-Adds :
    (pid : ℕ) (p : Peer) (m : MsgType) (log log' : Log) (r : Progress (List ℕ × MsgType))
    → p.got ≡ some m
    → prepare (reply_text pid []) m m ≡ r
    → tcp_thread pid p log ≡ some log'
    → Adds p (answered (p ∷ [])) log log'
unfolding tcp_thread
tcp_text-Adds pid p m log log' (done (text, m')) g made e = elim (Bool-cases p.write_ok) [
  | inl written ↦ record {
    closed = ground (arith, written);
    replied = λ fd. ground (arith, written, replies_to-append fd log.replies ((p.fd, m') ∷ []));
  }
  | inr failed ↦
      let same : record log { requests = log.requests ++ (text ∷ []) } ≡ log' =
        ground (arith, failed) in
      subst (Adds p (answered (p ∷ [])) log) same (
        Adds-none p (answered (p ∷ [])) log (log.requests ++ (text ∷ [])) (ground arith)
          (ground arith))
]
tcp_text-Adds pid p m log log' _ g made e = absurd (ground arith)

tcp-Adds :
    (pid : ℕ) (p : Peer) (log log' : Log) (got : Option MsgType)
    → p.got ≡ got
    → tcp_thread pid p log ≡ some log'
    → Adds p (answered (p ∷ [])) log log'
unfolding tcp_thread
tcp-Adds pid p log log' none g e =
    let same : record log { requests = log.requests } ≡ log' = ground arith in
    subst (Adds p (answered (p ∷ [])) log) same
      (Adds-none p (answered (p ∷ [])) log log.requests (ground arith) (ground arith))
tcp-Adds pid p log log' (some m) g e =
    tcp_text-Adds pid p m log log' (prepare (reply_text pid []) m m) g refl e

udp_text-Adds :
    (pid : ℕ) (p : Peer) (m : MsgType) (log log' : Log) (r : Progress (List ℕ × MsgType))
    → p.got ≡ some m
    → prepare (reply_text pid []) m (record m { kind = msg_reply }) ≡ r
    → udp_thread pid p log ≡ some log'
    → Adds p [] log log'
unfolding udp_thread
udp_text-Adds pid p m log log' (done (text, m')) g made e = elim (Bool-cases p.write_ok) [
  | inl written ↦ record {
    closed = ground (arith, written, append-nil log.closed);
    replied = λ fd. ground (arith, written, replies_to-append fd log.replies ((p.fd, m') ∷ []));
  }
  | inr failed ↦
      let same : record log { requests = log.requests ++ (text ∷ []) } ≡ log' =
        ground (arith, failed) in
      subst (Adds p [] log) same
        (Adds-none p [] log (log.requests ++ (text ∷ [])) (ground arith) refl)
]
udp_text-Adds pid p m log log' _ g made e = absurd (ground arith)

udp-Adds :
    (pid : ℕ) (p : Peer) (log log' : Log) (got : Option MsgType)
    → p.got ≡ got
    → udp_thread pid p log ≡ some log'
    → Adds p [] log log'
unfolding udp_thread
udp-Adds pid p log log' none g e =
    let same : record log { requests = log.requests } ≡ log' = ground arith in
    subst (Adds p [] log) same (Adds-none p [] log log.requests (ground arith) refl)
udp-Adds pid p log log' (some m) g e =
    udp_text-Adds pid p m log log' (prepare (reply_text pid []) m (record m { kind = msg_reply })) g
      refl e

-- The log of all threads: the connections that are closed are those that have been answered, in this order,
-- and each request that has been answered has one reply.
pub record IsLogged (s : Pool) : Type 0 where
  pub closed : s.log.closed ≡ answered s.tcp.over
  pub replied :
      (fd : ℕ)
      → replies_to fd s.log.replies
        ≡ times fd (answered s.tcp.over) + times fd (answered s.udp.over)

tcp_answered-IsLogged :
    (p : Peer) (before behind : List Peer) (s : Pool) (log : Log)
    → Adds p (answered (p ∷ [])) s.log log
    → IsLogged s
    → IsLogged (record s { tcp = finish p before behind s.tcp; log = log })
tcp_answered-IsLogged p before behind s log a v = record {
  closed =
      a.closed
      ∙ ap (λ c. c ++ answered (p ∷ [])) v.closed
      ∙ sym (answered-append s.tcp.over (p ∷ []));
  replied = λ fd. omega (
    arith,
    a.replied fd,
    v.replied fd,
    times-append fd (answered s.tcp.over) (answered (p ∷ [])),
    ap (times fd) (answered-append s.tcp.over (p ∷ [])),
  );
}

udp_answered-IsLogged :
    (p : Peer) (before behind : List Peer) (s : Pool) (log : Log)
    → Adds p [] s.log log
    → IsLogged s
    → IsLogged (record s { udp = finish p before behind s.udp; log = log })
udp_answered-IsLogged p before behind s log a v = record {
  closed = a.closed ∙ append-nil s.log.closed ∙ v.closed;
  replied = λ fd. omega (
    arith,
    a.replied fd,
    v.replied fd,
    times-append fd (answered s.udp.over) (answered (p ∷ [])),
    ap (times fd) (answered-append s.udp.over (p ∷ [])),
  );
}

-- Nothing that has been answered or logged has changed.
record SameOver (s t : Pool) : Type 0 where
  tcp : t.tcp.over ≡ s.tcp.over
  udp : t.udp.over ≡ s.udp.over
  log : t.log ≡ s.log

SameOver-IsLogged : (s t : Pool) → SameOver s t → IsLogged s → IsLogged t
SameOver-IsLogged s t e v = record {
  closed = ap (λ (l : Log). l.closed) e.log ∙ v.closed ∙ ap answered (sym e.tcp);
  replied = λ fd.
      ap (λ (l : Log). replies_to fd l.replies) e.log
      ∙ v.replied fd
      ∙ ap₂ (λ xs ys. times fd (answered xs) + times fd (answered ys)) (sym e.tcp) (sym e.udp);
}

thread_takes-over : (s side : Side) → thread_takes s ≡ some side → side.over ≡ s.over
unfolding thread_takes
thread_takes-over s side e = ground arith

started_for-SameOver : (tasks : List Task) (s : Pool) → SameOver s (started_for tasks s)
started_for-SameOver [] s = record { tcp = refl; udp = refl; log = refl }
started_for-SameOver (tcp_task ∷ tasks) s =
    let v =
      started_for-SameOver tasks (record s { tcp = record (s.tcp) { idle = s.tcp.idle + 1 } }) in
    record { tcp = v.tcp; udp = v.udp; log = v.log }
started_for-SameOver (udp_task ∷ tasks) s =
    let v =
      started_for-SameOver tasks (record s { udp = record (s.udp) { idle = s.udp.idle + 1 } }) in
    record { tcp = v.tcp; udp = v.udp; log = v.log }

after_spawn-SameOver :
    (o : Progress (List Task)) (s t : Pool) → after_spawn s o ≡ some t → SameOver s t
after_spawn-SameOver (done tasks) s t e =
    subst (SameOver s) (some-injective _ _ e) (started_for-SameOver tasks s)
after_spawn-SameOver _ s t e = absurd (ground arith)

pool_round-SameOver :
    (tcp_bit udp_bit : Bool) (s t : Pool) → pool_round tcp_bit udp_bit s ≡ some t → SameOver s t
unfolding pool_round
pool_round-SameOver false false s t e = absurd (ground arith)
pool_round-SameOver true false s t e = after_spawn-SameOver (spawn true true false 1 []) s t e
pool_round-SameOver false true s t e = after_spawn-SameOver (spawn true false true 1 []) s t e
pool_round-SameOver true true s t e = after_spawn-SameOver (spawn true true true 2 []) s t e

step-IsLogged : (pid : ℕ) (s t : Pool) → PoolStep pid s t → IsLogged s → IsLogged t
step-IsLogged pid s t (tcp_arrives p) v = record { closed = v.closed; replied = v.replied }
step-IsLogged pid s t (udp_arrives p) v = record { closed = v.closed; replied = v.replied }
step-IsLogged pid s t (round e) v =
    SameOver-IsLogged s t
      (pool_round-SameOver (is_ready s.tcp.waiting) (is_ready s.udp.waiting) s t e) v
step-IsLogged pid s t (tcp_taken {side} e) v =
    SameOver-IsLogged s (record s { tcp = side })
      (record { tcp = thread_takes-over s.tcp side e; udp = refl; log = refl }) v
step-IsLogged pid s t (udp_taken {side} e) v =
    SameOver-IsLogged s (record s { udp = side })
      (record { tcp = refl; udp = thread_takes-over s.udp side e; log = refl }) v
step-IsLogged pid s t (tcp_answered p before behind {log} at e) v =
    tcp_answered-IsLogged p before behind s log (tcp-Adds pid p s.log log p.got refl e) v
step-IsLogged pid s t (udp_answered p before behind {log} at e) v =
    udp_answered-IsLogged p before behind s log (udp-Adds pid p s.log log p.got refl e) v

pub PoolRun-IsLogged : (pid : ℕ) {s : Pool} → PoolRun pid s → IsLogged s
PoolRun-IsLogged pid begin = record { closed = refl; replied = λ fd. refl }
PoolRun-IsLogged pid (more {s} {t} r st) = step-IsLogged pid s t st (PoolRun-IsLogged pid r)
