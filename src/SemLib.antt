-- ===== src/SemLib.antt =====
-- "6_Synchronization/semlib2.c": a counting semaphore of a mutex and a condition variable. A function
-- takes what its pthread calls answer, and returns its result and the semaphore. The value is a number
-- from 0: a negative one, which `sem_init` would accept, and the overflow of an `int` are left out.
pub mod Laws
mod Tests
use linux_system_programming.Prelude.{
  ℕ, zero, suc, ◌+◌, ◌-◌, Bool, true, false, List, [], ◌∷◌, ◌==◌, if◌then◌else◌, not,
}

-- `sem_t`; `locked` says whether the calling thread holds the mutex.
pub record SemT : Type 0 where
  pub sval : ℕ
  pub locked : Bool

-- 0 and -1.
pub data Ret : Type 0 where
  success failure : Ret

-- Which of the calls succeed: `false` is a result below 0.
pub record Calls : Type 0 where
  pub mutex_init : Bool
  pub cond_init : Bool
  pub lock : Bool
  pub unlock : Bool
  pub signal : Bool
  pub mutex_destroy : Bool
  pub cond_destroy : Bool

-- What a call of `pthread_cond_wait` brings: it fails, or it returns with the mutex held again when
-- other threads have left the value `n`.
pub data Wake : Type 0 where
  wait_failed : Wake
  woken : ℕ → Wake

-- `sem_wait` returns, or it is still waiting when the wake-ups given are used up.
pub data Wait : Type 0 where
  returned : Ret → SemT → Wait
  waiting : Wait

abbrev pub held : SemT → SemT
held s = record s { locked = true }

-- `if (pthread_mutex_unlock(&sem->mutex) < 0) return -1; return r;`
abbrev pub unlock_and : Calls → Ret → SemT → Ret × SemT
unlock_and c r s = if c.unlock then (r, record s { locked = false }) else (failure, s)

unfoldable pub sem_init : Calls → SemT → ℕ → ℕ → Ret × SemT
sem_init c s pshared value =
    if not (pshared == 0)
    then (failure, s)
    else if not c.mutex_init
    then (failure, s)
    else if not c.cond_init
    then (failure, s)
    else (success, record s { sval = value })

-- What `sem_wait` does when its loop has ended.
abbrev pub take_one : Calls → SemT → Wait
take_one c s = let (r, s') = unlock_and c success (record s { sval = s.sval - 1 }) in returned r s'

-- What it does when `pthread_cond_wait` has failed.
abbrev pub give_up : Calls → SemT → Wait
give_up c s = let (r, s') = unlock_and c failure s in returned r s'

-- The loop of `sem_wait`, with the mutex held, and what follows it: a round for each wake-up.
unfoldable pub wait_loop : Calls → SemT → List Wake → Wait
wait_loop c s [] = if s.sval == 0 then waiting else take_one c s
wait_loop c s (wait_failed ∷ ws) = if s.sval == 0 then give_up c s else take_one c s
wait_loop c s (woken n ∷ ws) =
    let rest = wait_loop c (record s { sval = n }) ws in if s.sval == 0 then rest else take_one c s

unfoldable pub sem_wait : Calls → SemT → List Wake → Wait
sem_wait c s wakes = if c.lock then wait_loop c (held s) wakes else returned failure s

unfoldable pub sem_trywait : Calls → SemT → Ret × SemT
sem_trywait c s =
    if not c.lock
    then (failure, s)
    else if s.sval == 0
    then unlock_and c failure (held s)
    else unlock_and c success (record s { sval = s.sval - 1; locked = true })

unfoldable pub sem_post : Calls → SemT → Ret × SemT
sem_post c s =
    if not c.lock
    then (failure, s)
    else if not c.signal
    then unlock_and c failure (held s)
    else unlock_and c success (record s { sval = s.sval + 1; locked = true })

unfoldable pub sem_getvalue : SemT → Ret × ℕ
sem_getvalue s = (success, s.sval)

unfoldable pub sem_destroy : Calls → SemT → Ret × SemT
sem_destroy c s =
    if not c.mutex_destroy
    then (failure, s)
    else if not c.cond_destroy
    then (failure, s)
    else (success, s)
