-- ===== src/Queue/Window.antt =====
-- A buffer whose slots hold the items of a window is the queue of these items.
use linux_system_programming.Prelude.{
  ℕ, zero, suc, ◌+◌, ◌-◌, ◌%◌, ◌≤◌, ◌<◌, ◌≡◌, refl, sym, ap, ap₂, subst, ◌∙◌, List, [], ◌∷◌, ◌++◌,
  length, get_or, arith, ◌⊎◌, inl, inr,
}
use linux_system_programming.ProdCons.{BoundedBuffer, max_buf}
use linux_system_programming.ProdCons.Inv.{first_items}
use linux_system_programming.ProdCons.Keep.{first_items-add}
use linux_system_programming.Queue.{Queue, QueueStep, put, get, slots, queue_of}

module _ (items : ℕ → ℕ) where
  -- The items from `lo` on.
  window : ℕ → ℕ → List ℕ
  window lo zero = []
  window lo (suc n) = items lo ∷ window (lo + 1) n

  window-snoc : (lo n : ℕ) → window lo (suc n) ≡ window lo n ++ (items (lo + n) ∷ [])
  unfolding window
  window-snoc lo zero = ap (λ (k : ℕ). items k ∷ []) (omega arith)
  window-snoc lo (suc n) =
      ap (◌∷◌ (items lo))
        (window-snoc (lo + 1) n ∙ ap (λ (k : ℕ). window (lo + 1) n ++ (items k ∷ [])) (omega arith))

  length-window : (lo n : ℕ) → length (window lo n) ≡ n
  unfolding window
  length-window lo zero = refl
  length-window lo (suc n) = ap suc (length-window (lo + 1) n)

  slots-window :
      (buf : List ℕ) (lo n : ℕ)
      → ((k : ℕ) → lo ≤ k → k < lo + n → get_or buf (k % max_buf) 0 ≡ items k)
      → slots buf lo n ≡ window lo n
  unfolding window
  slots-window buf lo zero h = refl
  slots-window buf lo (suc n) h =
      ap₂ (λ (x : ℕ) (xs : List ℕ). x ∷ xs) (h lo (omega arith) (omega arith))
        (slots-window buf (lo + 1) n (λ k low high. h k (omega arith) (omega arith)))

  -- The queue when `lo` items have been taken and `hi` have been put.
  pub queue_at : ℕ → ℕ → Queue
  queue_at lo hi = record { waiting = window lo (hi - lo); taken = first_items items lo }

  pub queue_of-queue_at :
      (b : BoundedBuffer) (lo hi : ℕ) (got : List ℕ)
      → lo ≤ hi
      → got ≡ first_items items lo
      → ((k : ℕ) → lo ≤ k → k < hi → get_or b.buf (k % max_buf) 0 ≡ items k)
      → queue_of b lo hi got ≡ queue_at lo hi
  unfolding queue_at
  queue_of-queue_at b lo hi got le fifo stored =
      ap₂ (λ (w g : List ℕ). record { waiting = w; taken = g })
        (slots-window b.buf lo (hi - lo) (λ k low high. stored k low (omega arith))) fifo

  -- How the two counts can change in a step.
  pub data Advance (lo hi lo' hi' : ℕ) : Type 0 where
    stays : lo' ≡ lo → hi' ≡ hi → Advance lo hi lo' hi'
    puts : lo' ≡ lo → hi' ≡ hi + 1 → suc (hi - lo) ≤ max_buf → lo ≤ hi → Advance lo hi lo' hi'
    gets : lo' ≡ lo + 1 → hi' ≡ hi → lo < hi → Advance lo hi lo' hi'

  window-put :
      (lo hi : ℕ) → lo ≤ hi → window lo (hi + 1 - lo) ≡ window lo (hi - lo) ++ (items hi ∷ [])
  window-put lo hi le =
      ap (window lo) {x = hi + 1 - lo} {y = suc (hi - lo)} (omega arith)
      ∙ window-snoc lo (hi - lo)
      ∙ ap (λ (k : ℕ). window lo (hi - lo) ++ (items k ∷ [])) {x = lo + (hi - lo)} {y = hi}
          (omega arith)

  window-get :
      (lo hi : ℕ) → lo < hi → window lo (hi - lo) ≡ items lo ∷ window (lo + 1) (hi - (lo + 1))
  unfolding window
  window-get lo hi lt = ap (window lo) {x = hi - lo} {y = suc (hi - (lo + 1))} (omega arith)

  put-QueueStep :
      (lo hi : ℕ)
      → suc (hi - lo) ≤ max_buf
      → lo ≤ hi
      → QueueStep (queue_at lo hi) (queue_at lo (hi + 1))
  unfolding queue_at
  put-QueueStep lo hi room le = put (items hi) (omega (arith, length-window lo (hi - lo), room)) (
      ap (λ (w : List ℕ). record { waiting = w; taken = first_items items lo })
        (window-put lo hi le))

  get-QueueStep : (lo hi : ℕ) → lo < hi → QueueStep (queue_at lo hi) (queue_at (lo + 1) hi)
  unfolding queue_at
  get-QueueStep lo hi lt = get (items lo) (window-get lo hi lt) (first_items-add items lo)

  pub Advance-QueueStep :
      (lo hi lo' hi' : ℕ)
      → Advance lo hi lo' hi'
      → (queue_at lo' hi' ≡ queue_at lo hi) ⊎ QueueStep (queue_at lo hi) (queue_at lo' hi')
  Advance-QueueStep lo hi lo' hi' (stays e f) = inl (ap₂ queue_at e f)
  Advance-QueueStep lo hi lo' hi' (puts e f room le) = inr (
      subst (λ (l : ℕ). QueueStep (queue_at lo hi) (queue_at l hi')) (sym e)
        (subst (λ (h : ℕ). QueueStep (queue_at lo hi) (queue_at lo h)) (sym f)
          (put-QueueStep lo hi room le)))
  Advance-QueueStep lo hi lo' hi' (gets e f lt) = inr (
      subst (λ (l : ℕ). QueueStep (queue_at lo hi) (queue_at l hi')) (sym e)
        (subst (λ (h : ℕ). QueueStep (queue_at lo hi) (queue_at (lo + 1) h)) (sym f)
          (get-QueueStep lo hi lt)))

  -- Where two states stand for such queues, the step between them is none of the queue's or one.
  pub Advance-refines :
      (q q' : Queue) (lo hi lo' hi' : ℕ)
      → q ≡ queue_at lo hi
      → q' ≡ queue_at lo' hi'
      → Advance lo hi lo' hi'
      → (q' ≡ q) ⊎ QueueStep q q'
  Advance-refines q q' lo hi lo' hi' e e' a =
      subst (λ (x : Queue). (q' ≡ x) ⊎ QueueStep x q') (sym e)
        (subst (λ (x : Queue). (x ≡ queue_at lo hi) ⊎ QueueStep (queue_at lo hi) x) (sym e')
          (Advance-QueueStep lo hi lo' hi' a))
