-- ===== src/Servers/Pool/Laws.antt =====
-- hw3.c: no request is lost or taken twice, and how many threads may be started.
use linux_system_programming.Prelude.{
  ℕ, zero, suc, ◌+◌, ◌≡◌, refl, ap, sym, subst, ◌∙◌, true, Bool, false, some, List, [], ◌∷◌, ◌++◌,
  append_assoc, append-nil, arith,
}
use mathlib.Core.List.{Permᴰ}
use mathlib.Core.Option.{some-injective}
use mathlib.Core.List.Permᴰ
use linux_system_programming.Servers.Message.{Progress, done}
use linux_system_programming.Servers.Stream.{Peer}
use linux_system_programming.Servers.Select.{is_ready, Task, tcp_task, udp_task, spawn}
use linux_system_programming.Servers.Pool.{
  Side, Pool, arrive, take_first, thread_takes, started_for, after_spawn, pool_round, finish,
  PoolStep, tcp_arrives, udp_arrives, round, tcp_taken, udp_taken, tcp_answered, udp_answered,
  new_side, PoolRun, begin, more,
}

-- The requests are taken in the order in which they arrive, and each one that has been taken is held by one
-- thread or over.
pub record Conserved (s : Side) : Type 0 where
  pub order : s.arrived ≡ s.taken ++ s.waiting
  pub shared : Permᴰ s.taken (s.held ++ s.over)

arrive-Conserved : (p : Peer) (s : Side) → Conserved s → Conserved (arrive p s)
arrive-Conserved p s v = record {
  order = ap (λ xs. xs ++ (p ∷ [])) v.order ∙ append_assoc s.taken s.waiting (p ∷ []);
  shared = v.shared;
}

perm_snoc : (p : Peer) (xs : List Peer) → Permᴰ (xs ++ (p ∷ [])) (p ∷ xs)
perm_snoc p xs = subst (λ l. Permᴰ (xs ++ (p ∷ [])) (p ∷ l)) (append-nil xs) (Permᴰ.middle p xs [])

-- A new element, put behind one of two parts.
perm_new :
    (p : Peer) (xs ys zs : List Peer)
    → Permᴰ xs (ys ++ zs)
    → Permᴰ (xs ++ (p ∷ [])) ((ys ++ (p ∷ [])) ++ zs)
perm_new p xs ys zs h = subst (Permᴰ (xs ++ (p ∷ []))) (sym (append_assoc ys (p ∷ []) zs)) (
    Permᴰ.trans (perm_snoc p xs)
      (Permᴰ.trans (Permᴰ.cons refl h) (Permᴰ.symm (Permᴰ.middle p ys zs))))

-- An element of the first part, moved behind the second one.
perm_moved :
    (p : Peer) (xs before behind zs : List Peer)
    → Permᴰ xs ((before ++ (p ∷ behind)) ++ zs)
    → Permᴰ xs ((before ++ behind) ++ (zs ++ (p ∷ [])))
perm_moved p xs before behind zs h =
    subst (Permᴰ xs) (append_assoc (before ++ behind) zs (p ∷ [])) (
      Permᴰ.trans h (
        Permᴰ.trans (Permᴰ.append_right zs (Permᴰ.middle p before behind))
          (Permᴰ.symm (perm_snoc p ((before ++ behind) ++ zs)))))

take_first-Conserved :
    (ps : List Peer) (s side : Side)
    → take_first ps s ≡ some side
    → s.waiting ≡ ps
    → Conserved s
    → Conserved side
take_first-Conserved [] s side e at v = absurd (ground arith)
take_first-Conserved (p ∷ rest) s side e at v = subst Conserved (some-injective _ _ e) (record {
  order = v.order ∙ ap (λ w. s.taken ++ w) at ∙ sym (append_assoc s.taken (p ∷ []) rest);
  shared = perm_new p s.taken s.held s.over v.shared;
})

thread_takes-Conserved : (s side : Side) → thread_takes s ≡ some side → Conserved s → Conserved side
unfolding thread_takes
thread_takes-Conserved s side e v = take_first-Conserved s.waiting s side (ground arith) refl v

finish-Conserved :
    (p : Peer) (before behind : List Peer) (s : Side)
    → s.held ≡ before ++ (p ∷ behind)
    → Conserved s
    → Conserved (finish p before behind s)
finish-Conserved p before behind s at v = record {
  order = v.order;
  shared =
      perm_moved p s.taken before behind s.over
        (subst (λ h. Permᴰ s.taken (h ++ s.over)) at v.shared);
}

-- Starting threads moves no request.
abbrev BothConserved : Pool → Type 0
BothConserved s = Conserved s.tcp × Conserved s.udp

idle-Conserved : (n : ℕ) (s : Side) → Conserved s → Conserved (record s { idle = n })
idle-Conserved n s v = record { order = v.order; shared = v.shared }

started_for-Conserved :
    (tasks : List Task) (s : Pool) → BothConserved s → BothConserved (started_for tasks s)
started_for-Conserved [] s v = v
started_for-Conserved (tcp_task ∷ tasks) s v =
    started_for-Conserved tasks (record s { tcp = record (s.tcp) { idle = s.tcp.idle + 1 } })
      (idle-Conserved (s.tcp.idle + 1) s.tcp v.0, v.1)
started_for-Conserved (udp_task ∷ tasks) s v =
    started_for-Conserved tasks (record s { udp = record (s.udp) { idle = s.udp.idle + 1 } })
      (v.0, idle-Conserved (s.udp.idle + 1) s.udp v.1)

after_spawn-Conserved :
    (o : Progress (List Task)) (s t : Pool)
    → after_spawn s o ≡ some t
    → BothConserved s
    → BothConserved t
after_spawn-Conserved (done tasks) s t e v =
    subst BothConserved (some-injective _ _ e) (started_for-Conserved tasks s v)
after_spawn-Conserved _ s t e v = absurd (ground arith)

pool_round-Conserved :
    (tcp_bit udp_bit : Bool) (s t : Pool)
    → pool_round tcp_bit udp_bit s ≡ some t
    → BothConserved s
    → BothConserved t
unfolding pool_round
pool_round-Conserved false false s t e v = absurd (ground arith)
pool_round-Conserved true false s t e v = after_spawn-Conserved (spawn true true false 1 []) s t e v
pool_round-Conserved false true s t e v = after_spawn-Conserved (spawn true false true 1 []) s t e v
pool_round-Conserved true true s t e v = after_spawn-Conserved (spawn true true true 2 []) s t e v

new_side-Conserved : Conserved new_side
new_side-Conserved = record { order = refl; shared = Permᴰ.nil }

step-Conserved : (pid : ℕ) (s t : Pool) → PoolStep pid s t → BothConserved s → BothConserved t
step-Conserved pid s t (tcp_arrives p) v = (arrive-Conserved p s.tcp v.0, v.1)
step-Conserved pid s t (udp_arrives p) v = (v.0, arrive-Conserved p s.udp v.1)
step-Conserved pid s t (round e) v =
    pool_round-Conserved (is_ready s.tcp.waiting) (is_ready s.udp.waiting) s t e v
step-Conserved pid s t (tcp_taken {side} e) v = (thread_takes-Conserved s.tcp side e v.0, v.1)
step-Conserved pid s t (udp_taken {side} e) v = (v.0, thread_takes-Conserved s.udp side e v.1)
step-Conserved pid s t (tcp_answered p before behind at e) v =
    (finish-Conserved p before behind s.tcp at v.0, v.1)
step-Conserved pid s t (udp_answered p before behind at e) v =
    (v.0, finish-Conserved p before behind s.udp at v.1)

-- However the threads, `main` and the clients interleave: the requests of each kind are taken in the order
-- in which they arrive, none is left out or taken twice, and each one that has been taken is held by one
-- thread or over.
pub requests-Conserved : (pid : ℕ) {s : Pool} → PoolRun pid s → Conserved s.tcp × Conserved s.udp
requests-Conserved pid begin = (new_side-Conserved, new_side-Conserved)
requests-Conserved pid (more {s} {t} r st) = step-Conserved pid s t st (requests-Conserved pid r)

-- Until a thread has taken it, a single connection makes `main` start thread after thread.
abbrev crowded : ℕ → Peer → Pool
crowded n p = record {
  tcp = record { arrived = p ∷ []; taken = []; waiting = p ∷ []; idle = n; held = []; over = [] };
  udp = new_side;
  log = record { requests = []; replies = []; closed = [] };
}

crowded-round : (n : ℕ) (p : Peer) → pool_round true false (crowded n p) ≡ some (crowded (suc n) p)
unfolding pool_round spawn
crowded-round n p = ap (λ k. some (crowded k p)) {x = n + 1} (omega arith)

crowded-PoolRun : (pid n : ℕ) (p : Peer) → PoolRun pid (crowded n p)
crowded-PoolRun pid zero p = more begin (tcp_arrives p)
crowded-PoolRun pid (suc n) p = more (crowded-PoolRun pid n p) (round (crowded-round n p))

-- For any number there is a run in which a single connection has made `main` start that many threads.
pub threads_unbounded :
    (pid n : ℕ) (p : Peer)
    → (s : Pool) × PoolRun pid s × (s.tcp.arrived ≡ p ∷ []) × (s.tcp.idle ≡ n)
threads_unbounded pid n p = (crowded n p, crowded-PoolRun pid n p, refl, refl)
