-- ===== src/SystemV/Tests.antt =====
-- semlib.c over a kernel that keeps a value for each semaphore set.
use linux_system_programming.Prelude.{
  ℕ, zero, suc, ◌≡◌, refl, Bool, true, Option, none, some, if◌then◌else◌, put_at, arith, ◌==◌,
}
use linux_system_programming.SystemV.{
  Answer, done, failed, waiting, SemOp, take, give, SysV, IsSysV, sem_init, sem_destroy,
}

-- The value of each set; `none` is a set that does not exist.
abbrev Values : Type 0
Values = ℕ → Option ℕ

abbrev apply : ℕ → SemOp → Option ℕ → Values → Answer Values
apply id op none s = failed s
apply id (give u) (some v) s = done (put_at s id (some (suc v)))
apply id (take b u) (some zero) s = if b then failed s else waiting
apply id (take b u) (some (suc v)) s = done (put_at s id (some v))

abbrev counting : SysV Values
counting = record {
  semget = λ key s. (some key, put_at s key (some 0));
  setval = λ id v s. (true, put_at s id (some v));
  getval = λ id s. s id;
  rmid = λ id s. (true, put_at s id none);
  semop = λ id op s. apply id op (s id) s;
  close = λ fd s. s;
}

put_at_self : (s : Values) (id : ℕ) (v : Option ℕ) → put_at s id v id ≡ v
put_at_self s id v = ground arith

apply_give :
    (id v : ℕ) (s : Values)
    → s id ≡ some v
    → apply id (give true) (s id) s ≡ done (put_at s id (some (suc v)))
apply_give id v s e = rw e

apply-take :
    (id v : ℕ) (b : Bool) (s : Values)
    → s id ≡ some (suc v)
    → apply id (take b true) (s id) s ≡ done (put_at s id (some v))
apply-take id v b s e = rw e

apply_zero :
    (id : ℕ) (b : Bool) (s : Values)
    → s id ≡ some 0
    → apply id (take b true) (s id) s ≡ (if b then failed s else waiting)
apply_zero id b s e = rw e

counting-IsSysV : IsSysV counting
counting-IsSysV = record {
  getval_setval = λ id v s set. put_at_self s id (some v);
  gives = λ id v s e. put_at s id (some (suc v));
  give_done = apply_give;
  give_value = λ id v s e. put_at_self s id (some (suc v));
  takes = λ id v s e. put_at s id (some v);
  take_done = apply-take;
  take_value = λ id v s e. put_at_self s id (some v);
  take_zero = apply_zero;
}

abbrev fresh : Values
fresh = λ id. if id == 5 then some 0 else none

-- Created, and destroyed again.
created : (sem_init counting 6 fresh).0 ≡ some 6
unfolding sem_init
created = refl

destroyed : (sem_destroy counting 5 fresh).0 ≡ some 0
unfolding sem_destroy
destroyed = refl
