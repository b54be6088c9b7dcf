-- ===== src/SystemV.antt =====
-- "6_Synchronization/semlib.c": semaphores over those of System V. What the kernel does is the record
-- `SysV`; `IsSysV` states what is documented of it, for sets of one semaphore.
pub mod Laws
mod Tests
use linux_system_programming.Prelude.{
  ℕ, suc, ◌+◌, ◌-◌, ◌≡◌, Bool, true, false, Option, none, some, if◌then◌else◌,
}

-- How `semop` ends: it may wait for ever.
pub data Answer (K : Type 0) : Type 0 where
  done : K → Answer K
  failed : K → Answer K
  waiting : Answer K

-- A `struct sembuf` with `sem_op` -1 or 1, and whether `sem_flg` has `IPC_NOWAIT` and `SEM_UNDO`: what is done
-- with `SEM_UNDO` is undone at the exit of the process.
pub data SemOp : Type 0 where
  take : (nowait undo : Bool) → SemOp
  give : (undo : Bool) → SemOp

-- `K` is the state of the kernel.
pub record SysV (K : Type 0) : Type 0 where
  pub semget : ℕ → K → Option ℕ × K
  pub setval : ℕ → ℕ → K → Bool × K
  pub getval : ℕ → K → Option ℕ
  pub rmid : ℕ → K → Bool × K
  pub semop : ℕ → SemOp → K → Answer K
  pub close : ℕ → K → K

-- The result of a function is `none` for -1.
module _ {K : Type 0} (k : SysV K) where
  unfoldable pub sem_init : ℕ → K → Option ℕ × K
  sem_init key s = k.semget key s

  unfoldable pub sem_init_value : ℕ → ℕ → K → Option ℕ × K
  sem_init_value semid value s =
      let (set, s') = k.setval semid value s in if set then (some semid, s') else (none, s')

  unfoldable pub sem_wait : ℕ → K → Answer K
  sem_wait semid s = k.semop semid (take false true) s

  unfoldable pub sem_try_wait : ℕ → K → Answer K
  sem_try_wait semid s = k.semop semid (take true true) s

  unfoldable pub sem_post : ℕ → K → Answer K
  sem_post semid s = k.semop semid (give true) s

  unfoldable pub sem_get_value : ℕ → K → Option ℕ
  sem_get_value semid s = k.getval semid s

  -- `close` is given the number of the semaphore set, which is no descriptor.
  unfoldable pub sem_destroy : ℕ → K → Option ℕ × K
  sem_destroy semid s =
      let (removed, s') = k.rmid semid s in
      if removed then (some 0, k.close semid s') else (none, s')

-- What semop(2) and semctl(2) say: the value that is set is read back, `semop` adds or takes one, and
-- where the value is 0 it waits or, with `IPC_NOWAIT`, fails and changes nothing.
pub record IsSysV {K : Type 0} (k : SysV K) : Type 0 where
  pub getval_setval :
      (id v : ℕ) (s : K) → (k.setval id v s).0 ≡ true → k.getval id (k.setval id v s).1 ≡ some v
  pub gives : (id v : ℕ) (s : K) → k.getval id s ≡ some v → K
  pub give_done :
      (id v : ℕ) (s : K) (e : k.getval id s ≡ some v)
      → k.semop id (give true) s ≡ done (gives id v s e)
  pub give_value :
      (id v : ℕ) (s : K) (e : k.getval id s ≡ some v) → k.getval id (gives id v s e) ≡ some (suc v)
  pub takes : (id v : ℕ) (s : K) → k.getval id s ≡ some (suc v) → K
  pub take_done :
      (id v : ℕ) (b : Bool) (s : K) (e : k.getval id s ≡ some (suc v))
      → k.semop id (take b true) s ≡ done (takes id v s e)
  pub take_value :
      (id v : ℕ) (s : K) (e : k.getval id s ≡ some (suc v)) → k.getval id (takes id v s e) ≡ some v
  pub take_zero :
      (id : ℕ) (b : Bool) (s : K)
      → k.getval id s ≡ some 0
      → k.semop id (take b true) s ≡ (if b then failed s else waiting)
