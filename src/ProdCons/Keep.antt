-- ===== src/ProdCons/Keep.antt =====
-- Each step of prodcons_s.c keeps the invariant.
use linux_system_programming.Prelude.{
  ℕ, zero, suc, ◌+◌, ◌%◌, ◌≤◌, ◌<◌, ◌≡◌, ◌≢◌, refl, ap, ap₂, sym, ◌∙◌, some, List, [], ◌∷◌, ◌++◌,
  length, get_or, set, ◌==◌, if◌then◌else◌, arith, length-set, Bool-cases, inl, inr,
}
use native.Mathlib.Numerals.{add-one}
use native.Mathlib.Nat.{add-zero}
use linux_system_programming.ProdCons.{
  System, ProducerPc, ConsumerPc, producer_at, consumer_at, Step, produce, consume, Reach, here,
  next, max_buf,
}
use linux_system_programming.ProdCons.Inv.{Inv, Inv-start, c_read, first_items}

-- A write to one slot of the buffer.
pub get_or-set :
    (xs : List ℕ) (i j v : ℕ)
    → i < length xs
    → get_or (set xs i v) j 0 ≡ (if i == j then v else get_or xs j 0)
get_or-set [] i j v h = absurd (omega arith)
get_or-set (x ∷ xs) zero zero v h = refl
get_or-set (x ∷ xs) zero (suc j) v h = ground arith
get_or-set (x ∷ xs) (suc i) zero v h = ground arith
get_or-set (x ∷ xs) (suc i) (suc j) v h = ground (arith, get_or-set xs i j v)

-- A slot holds no other item while the producer may write: the window is at most two items long.
pub slot_ne : (n m : ℕ) → n < m → m < n + 2 → m % 2 ≢ n % 2
slot_ne n m low high = omega arith

stored_write :
    (items : ℕ → ℕ) (s : System)
    → Inv items s
    → s.producer ≡ ProducerPc.write_item
    → (n : ℕ) → s.consumed + c_read s.consumer ≤ n
    → n < s.produced + 1
    → get_or (set s.shared.buf s.shared.in_idx (items s.produced)) (n % max_buf) 0 ≡ items n
stored_write items s v at n low high = elim (Bool-cases (n == s.produced)) [
  | inl last ↦ ground (
    arith,
    get_or-set s.shared.buf s.shared.in_idx (n % max_buf) (items s.produced),
    v.in_at,
    v.size,
  )
  | inr older ↦ ground (
    arith,
    get_or-set s.shared.buf s.shared.in_idx (n % max_buf) (items s.produced),
    v.in_at,
    v.size,
    v.stored n,
    slot_ne n s.produced,
    v.empty,
  )
]

keep_producer :
    (items : ℕ → ℕ) (pc : ProducerPc) (s t : System)
    → producer_at items pc s ≡ some t
    → s.producer ≡ pc
    → Inv items s
    → Inv items t
unfolding producer_at
keep_producer items ProducerPc.write_item s t e at v = record {
  few_produced = ground arith;
  few_consumed = ground arith;
  mutex = ground arith;
  empty = ground arith;
  full = ground arith;
  count = ground arith;
  loaded_p = ground arith;
  loaded_c = ground arith;
  size = ground (arith, length-set s.shared.buf s.shared.in_idx (items s.produced));
  in_at = ground arith;
  out_at = ground arith;
  fifo = ground arith;
  stored = λ n low high. ground (arith, stored_write items s v at n);
}
keep_producer items _ s t e at v = record {
  few_produced = ground arith;
  few_consumed = ground arith;
  mutex = ground arith;
  empty = ground arith;
  full = ground arith;
  count = ground arith;
  loaded_p = ground arith;
  loaded_c = ground arith;
  size = ground arith;
  in_at = ground arith;
  out_at = ground arith;
  fifo = ground arith;
  stored = λ n low high. ground (arith, v.stored n);
}

pub first_items-add :
    (items : ℕ → ℕ) (n : ℕ) → first_items items (n + 1) ≡ first_items items n ++ (items n ∷ [])
first_items-add items n = ap (first_items items) (add-one n)

pub first_items-zero : (items : ℕ → ℕ) (n : ℕ) → first_items items (n + 0) ≡ first_items items n
first_items-zero items n = ap (first_items items) (add-zero n)

-- What the consumer reads is the next item.
read_value :
    (items : ℕ → ℕ) (s : System)
    → Inv items s
    → s.consumer ≡ ConsumerPc.read_item
    → get_or s.shared.buf s.shared.out_idx 0 ≡ items s.consumed
read_value items s v at = ground (arith, v.stored s.consumed, v.out_at, v.full)

read_fifo :
    (items : ℕ → ℕ) (s : System)
    → Inv items s
    → s.consumer ≡ ConsumerPc.read_item
    → s.got ++ (get_or s.shared.buf s.shared.out_idx 0 ∷ []) ≡ first_items items (s.consumed + 1)
read_fifo items s v at =
    ap₂ (λ (xs : List ℕ) x. xs ++ (x ∷ []))
      (v.fifo
        ∙ ap (λ pc. first_items items (s.consumed + c_read pc)) at
        ∙ first_items-zero items s.consumed)
      (read_value items s v at)
    ∙ sym (first_items-add items s.consumed)

keep_consumer :
    (items : ℕ → ℕ) (pc : ConsumerPc) (s t : System)
    → consumer_at pc s ≡ some t
    → s.consumer ≡ pc
    → Inv items s
    → Inv items t
unfolding consumer_at
keep_consumer items ConsumerPc.read_item s t e at v = record {
  few_produced = ground arith;
  few_consumed = ground arith;
  mutex = ground arith;
  empty = ground arith;
  full = ground arith;
  count = ground arith;
  loaded_p = ground arith;
  loaded_c = ground arith;
  size = ground arith;
  in_at = ground arith;
  out_at = ground arith;
  fifo = ground (arith, read_fifo items s v);
  stored = λ n low high. ground (arith, v.stored n);
}
keep_consumer items _ s t e at v = record {
  few_produced = ground arith;
  few_consumed = ground arith;
  mutex = ground arith;
  empty = ground arith;
  full = ground arith;
  count = ground arith;
  loaded_p = ground arith;
  loaded_c = ground arith;
  size = ground arith;
  in_at = ground arith;
  out_at = ground arith;
  fifo = ground arith;
  stored = λ n low high. ground (arith, v.stored n);
}

-- The invariant holds in every state that the two threads reach, whatever order they run in.
pub Step-Inv : (items : ℕ → ℕ) {s t : System} → Step items s t → Inv items s → Inv items t
Step-Inv items {s} {t} (produce e) v = keep_producer items s.producer s t e refl v
Step-Inv items {s} {t} (consume e) v = keep_consumer items s.consumer s t e refl v

pub Reach-Inv : (items : ℕ → ℕ) {s : System} → Reach items s → Inv items s
Reach-Inv items here = Inv-start items
Reach-Inv items (next r st) = Step-Inv items st (Reach-Inv items r)
