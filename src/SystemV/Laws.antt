-- ===== src/SystemV/Laws.antt =====
-- semlib.c: the functions count, over any kernel that is as documented.
use linux_system_programming.Prelude.{
  ℕ, zero, suc, ◌≡◌, refl, sym, ◌≢◌, ◌↔◌, ◌∙◌, true, false, some, arith,
}
use linux_system_programming.SystemV.{
  Answer, done, failed, waiting, take, SysV, IsSysV, sem_init_value, sem_wait, sem_try_wait,
  sem_post, sem_get_value,
}

-- What is left of waiting where a call does not wait.
abbrev pub or_fail : {K : Type 0} → K → Answer K → Answer K
or_fail s (done t) = done t
or_fail s (failed t) = failed t
or_fail s waiting = failed s

done-ne-waiting : {K : Type 0} {t : K} → done t ≢ waiting
done-ne-waiting e = cc

module _ {K : Type 0} (k : SysV K) (d : IsSysV k) where
  -- A semaphore that is set to a value has that value, and its number is returned.
  pub get_value-init_value :
      (id v : ℕ) (s : K)
      → (k.setval id v s).0 ≡ true
      → ((sem_init_value k id v s).0 ≡ some id)
        × (sem_get_value k id (sem_init_value k id v s).1 ≡ some v)
  unfolding sem_init_value sem_get_value
  get_value-init_value id v s set = (rw set, rw set (d.getval_setval id v s set))

  -- After a post the value is one more, and a wait is not held up and leaves the value as it was before
  -- the post.
  pub post_wait :
      (id v : ℕ) (s : K)
      → sem_get_value k id s ≡ some v
      → (p : K) × (w : K) × (sem_post k id s ≡ done p)
        × (sem_get_value k id p ≡ some (suc v))
        × (sem_wait k id p ≡ done w)
        × (sem_get_value k id w ≡ some v)
  unfolding sem_post sem_wait sem_get_value
  post_wait id v s e =
      let p = d.gives id v s e in
      let up : k.getval id p ≡ some (suc v) = d.give_value id v s e in
      (
        p,
        d.takes id v p up,
        d.give_done id v s e,
        up,
        d.take_done id v false p up,
        d.take_value id v p up,
      )

  -- `semTryWait` is `semWait`, but that it returns -1 and changes nothing where `semWait` waits; and that
  -- is exactly where the value is 0.
  pub try_wait_lem :
      (id v : ℕ) (s : K)
      → sem_get_value k id s ≡ some v
      → (sem_try_wait k id s ≡ or_fail s (sem_wait k id s))
        × ((sem_wait k id s ≡ waiting) ↔ (v ≡ 0))
  unfolding sem_wait sem_try_wait sem_get_value
  try_wait_lem id zero s e =
      let waits : k.semop id (take false true) s ≡ waiting = d.take_zero id false s e in
      (rw waits (d.take_zero id true s e), (λ w. refl, λ z. waits))
  try_wait_lem id (suc v) s e =
      let takes : k.semop id (take false true) s ≡ done (d.takes id v s e) =
        d.take_done id v false s e in
      (
        rw takes (d.take_done id v true s e),
        (λ w. absurd (done-ne-waiting (sym takes ∙ w)), λ z. absurd (omega arith)),
      )
