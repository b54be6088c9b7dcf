-- ===== src/SemLib/Laws.antt =====
-- semlib2.c: what the operations of a semaphore do, and that they give the mutex back.
use linux_system_programming.Prelude.{
  ℕ, zero, suc, ◌+◌, ◌-◌, ◌≡◌, Bool, true, false, Option, none, some, List, [], ◌∷◌, ◌==◌,
  if◌then◌else◌, arith, map, ◌⊎◌,
}
use linux_system_programming.SemLib.{
  SemT, Ret, success, failure, Calls, Wake, wait_failed, woken, Wait, returned, waiting, wait_loop,
  sem_wait, sem_trywait, sem_post, sem_init, sem_getvalue,
}

-- Calls that all succeed.
pub record AllSucceed (c : Calls) : Type 0 where
  pub mutex_init : c.mutex_init ≡ true
  pub cond_init : c.cond_init ≡ true
  pub lock : c.lock ≡ true
  pub unlock : c.unlock ≡ true
  pub signal : c.signal ≡ true

-- The value that the waiting thread takes from: the first that is not 0, of the present one and those
-- that it is woken with.
abbrev pub first_positive : ℕ → List ℕ → Option ℕ
first_positive (suc n) ns = some (suc n)
first_positive zero [] = none
first_positive zero (n ∷ ns) = first_positive n ns

abbrev pub taken_from : Option ℕ → Wait
taken_from none = waiting
taken_from (some n) = returned success (record { sval = n - 1; locked = false })

wait_loop-taken :
    (c : Calls) (n : ℕ) (b : Bool) (ns : List ℕ)
    → AllSucceed c
    → wait_loop c (record { sval = n; locked = b }) (map woken ns)
      ≡ taken_from (first_positive n ns)
unfolding wait_loop
wait_loop-taken c (suc n) b [] a = ground arith
wait_loop-taken c (suc n) b (m ∷ ns) a = ground arith
wait_loop-taken c zero b [] a = ground arith
wait_loop-taken c zero b (n ∷ ns) a = ground (arith, wait_loop-taken c n b ns a)

-- If its calls succeed, `sem_wait` waits exactly as long as the value is 0, however often it is woken;
-- then it takes one from the value that it finds, gives the mutex back and returns 0.
pub sem_wait-taken :
    (c : Calls) (s : SemT) (ns : List ℕ)
    → AllSucceed c
    → sem_wait c s (map woken ns) ≡ taken_from (first_positive s.sval ns)
unfolding sem_wait
sem_wait-taken c s ns a = ground (arith, wait_loop-taken c s.sval true ns a)

-- `sem_trywait` takes one if the value is not 0, and returns -1 with the value unchanged if it is;
-- `sem_post` adds one. Both give the mutex back.
pub trywait_post :
    (c : Calls) (s : SemT)
    → AllSucceed c
    → (sem_trywait c s ≡ (
        if s.sval == 0
        then (failure, record s { locked = false })
        else (success, record { sval = s.sval - 1; locked = false })))
      × (sem_post c s ≡ (success, record { sval = s.sval + 1; locked = false }))
unfolding sem_trywait sem_post
trywait_post c s a = (ground arith, ground arith)

-- A wait after a post is never blocked, and the two cancel.
pub sem_wait-post :
    (c : Calls) (s : SemT)
    → AllSucceed c
    → sem_wait c (sem_post c s).1 [] ≡ returned success (record s { locked = false })
unfolding sem_wait sem_post wait_loop
sem_wait-post c s a = ground arith

-- The mutex of a semaphore after a wait: held only if `pthread_mutex_unlock` has failed.
abbrev pub Released : Calls → Wait → Type 0
Released c waiting = Unit
Released c (returned r s) = (s.locked ≡ false) ⊎ (c.unlock ≡ false)

wait_loop-Released : (c : Calls) (s : SemT) (ws : List Wake) → Released c (wait_loop c s ws)
unfolding wait_loop
wait_loop-Released c s [] = ground arith
wait_loop-Released c s (wait_failed ∷ ws) = ground arith
wait_loop-Released c s (woken n ∷ ws) =
    ground (arith, wait_loop-Released c (record s { sval = n }) ws)

-- On every path, with any calls failing, `sem_wait`, `sem_trywait` and `sem_post` return with the
-- mutex given back, unless giving it back is what failed.
pub mutex-Released :
    (c : Calls) (s : SemT) (ws : List Wake)
    → s.locked ≡ false
    → Released c (sem_wait c s ws)
      × ((((sem_trywait c s).1.locked ≡ false) ⊎ (c.unlock ≡ false)))
      × ((((sem_post c s).1.locked ≡ false) ⊎ (c.unlock ≡ false)))
unfolding sem_wait sem_trywait sem_post
mutex-Released c s ws free = (
  ground (arith, wait_loop-Released c (record s { locked = true }) ws),
  ground arith,
  ground arith,
)

-- A semaphore that `sem_init` has set up has the value that it was given; one that is to be shared
-- between processes is refused.
pub sem_getvalue-sem_init :
    (c : Calls) (s : SemT) (pshared value : ℕ)
    → AllSucceed c
    → (sem_init c s (suc pshared) value ≡ (failure, s))
      × ((sem_init c s 0 value).0 ≡ success)
      × (sem_getvalue (sem_init c s 0 value).1 ≡ (success, value))
unfolding sem_init sem_getvalue
sem_getvalue-sem_init c s pshared value a = (ground arith, ground arith, ground arith)

-- A thread that takes and gives without waiting.
pub data Op : Type 0 where
  try post : Op

-- A row of operations.
unfoldable pub operate : Calls → List Op → SemT → SemT
operate c [] s = s
operate c (try ∷ os) s = operate c os (sem_trywait c s).1
operate c (post ∷ os) s = operate c os (sem_post c s).1

abbrev pub posts : List Op → ℕ
posts [] = 0
posts (try ∷ os) = posts os
posts (post ∷ os) = suc (posts os)

abbrev one_if : Ret → ℕ
one_if success = 1
one_if failure = 0

-- How many of the row's `sem_trywait` succeed.
unfoldable pub takes : Calls → List Op → SemT → ℕ
takes c [] s = 0
takes c (try ∷ os) s = one_if (sem_trywait c s).0 + takes c os (sem_trywait c s).1
takes c (post ∷ os) s = takes c os (sem_post c s).1

trywait_balance :
    (c : Calls) (s : SemT)
    → AllSucceed c
    → one_if (sem_trywait c s).0 + (sem_trywait c s).1.sval ≡ s.sval
unfolding sem_trywait
trywait_balance c s a = ground arith

post_balance : (c : Calls) (s : SemT) → AllSucceed c → (sem_post c s).1.sval ≡ suc s.sval
unfolding sem_post
post_balance c s a = ground arith

-- In any row of `sem_trywait` and `sem_post`, with calls that succeed, the units taken and the value
-- that is left are the value at the start and the posts.
pub operate-balance :
    (c : Calls) (os : List Op) (s : SemT)
    → AllSucceed c
    → takes c os s + (operate c os s).sval ≡ s.sval + posts os
unfolding operate takes
operate-balance c [] s a = ground arith
operate-balance c (try ∷ os) s a =
    omega (arith, operate-balance c os (sem_trywait c s).1 a, trywait_balance c s a)
operate-balance c (post ∷ os) s a =
    omega (arith, operate-balance c os (sem_post c s).1 a, post_balance c s a)
