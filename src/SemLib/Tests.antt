-- ===== src/SemLib/Tests.antt =====
-- semlib2.c, on one semaphore.
use linux_system_programming.Prelude.{◌≡◌, refl, true, false, [], ◌∷◌, ◌⊎◌}
use linux_system_programming.SemLib.{SemT, Calls, wait_failed, sem_wait, sem_trywait, sem_post}
use linux_system_programming.SemLib.Laws.{AllSucceed, Released, mutex-Released}

abbrev calls : Calls
calls = record {
  mutex_init = true;
  cond_init = true;
  lock = true;
  unlock = true;
  signal = true;
  mutex_destroy = true;
  cond_destroy = true;
}

calls_succeed : AllSucceed calls
calls_succeed = record {
  mutex_init = refl;
  cond_init = refl;
  lock = refl;
  unlock = refl;
  signal = refl;
}

abbrev empty : SemT
empty = record { sval = 0; locked = false }

abbrev two : SemT
two = record { sval = 2; locked = false }

-- The condition variable cannot be signalled or waited for.
abbrev no_cond : Calls
no_cond = record calls { signal = false }

mutex-Released_example :
    Released no_cond (sem_wait no_cond empty (wait_failed ∷ []))
    × ((((sem_trywait no_cond empty).1.locked ≡ false) ⊎ (no_cond.unlock ≡ false)))
    × ((((sem_post no_cond empty).1.locked ≡ false) ⊎ (no_cond.unlock ≡ false)))
mutex-Released_example = mutex-Released no_cond empty (wait_failed ∷ []) refl
