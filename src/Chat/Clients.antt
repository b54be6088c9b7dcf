-- ===== src/Chat/Clients.antt =====
-- The client table of chats.c: what `GetID` takes, and entries after a write.
use linux_system_programming.Prelude.{
  ℕ, zero, suc, ◌<◌, ◌≡◌, refl, ap, subst, true, false, inl, inr, none, some, List, [], ◌∷◌,
  get_elem?, set, Bool-cases, Option-cases, arith,
}
use mathlib.Core.Option.{some-injective}
use linux_system_programming.Chat.{ClientType, get_id}

-- What `GetID` gives: the first unused entry, marked as used, every other entry as it was.
pub record Taken (cs : List ClientType) (id : ℕ) (cs' : List ClientType) : Type 0 where
  pub old : ClientType
  pub was : get_elem? cs id ≡ some old
  pub unused : old.in_use ≡ false
  pub now : cs' ≡ set cs id (record old { in_use = true })
  pub lowest : (j : ℕ) (c : ClientType) → j < id → get_elem? cs j ≡ some c → c.in_use ≡ true

Taken-suc :
    (c : ClientType) (cs cs' : List ClientType) (id : ℕ)
    → c.in_use ≡ true
    → Taken cs id cs'
    → Taken (c ∷ cs) (suc id) (c ∷ cs')
Taken-suc c cs cs' id used t = record {
  old = t.old;
  was = t.was;
  unused = t.unused;
  now = ap (◌∷◌ c) t.now;
  lowest = low;
}
  where
    low : (j : ℕ) (d : ClientType) → j < suc id → get_elem? (c ∷ cs) j ≡ some d → d.in_use ≡ true
    low zero d h e = ground arith
    low (suc j) d h e = t.lowest j d (omega arith) e

Taken-zero :
    (c : ClientType) (cs : List ClientType)
    → c.in_use ≡ false
    → Taken (c ∷ cs) 0 (record c { in_use = true } ∷ cs)
Taken-zero c cs free = record {
  old = c;
  was = refl;
  unused = free;
  now = refl;
  lowest = λ j d h e. absurd (omega arith);
}

pub get_id-Taken :
    (cs : List ClientType) (r : ℕ × List ClientType) → get_id cs ≡ some r → Taken cs r.0 r.1
unfolding get_id
get_id-Taken [] r e = absurd (cc)
get_id-Taken (c ∷ cs) r e = elim (Bool-cases c.in_use) [
  | inl used ↦ elim (Option-cases (get_id cs)) [
    | inl full ↦ absurd (ground (arith, full))
    | inr (q, found) ↦
        subst (λ (r : ℕ × List ClientType). Taken (c ∷ cs) r.0 r.1)
          (some-injective _ _ (rw (used, found) at e))
          (Taken-suc c cs q.1 q.0 used (get_id-Taken cs q found))
  ]
  | inr free ↦
      subst (λ (r : ℕ × List ClientType). Taken (c ∷ cs) r.0 r.1)
        (some-injective _ _ (rw free at e)) (Taken-zero c cs free)
]

-- Full: no entry is unused, and there is nothing to give.
pub get_id-none :
    (cs : List ClientType)
    → ((j : ℕ) (c : ClientType) → get_elem? cs j ≡ some c → c.in_use ≡ true)
    → get_id cs ≡ none
unfolding get_id
get_id-none [] all = refl
get_id-none (c ∷ cs) all = rw (all 0 c refl, get_id-none cs (λ j d e. all (suc j) d e))

-- With an unused entry `GetID` gives one.
pub get_id-some :
    (cs : List ClientType) (j : ℕ) (c : ClientType)
    → get_elem? cs j ≡ some c
    → c.in_use ≡ false
    → (r : ℕ × List ClientType) × (get_id cs ≡ some r)
unfolding get_id
get_id-some [] j c e h = absurd (cc)
get_id-some (d ∷ cs) zero c e h = ((0, record c { in_use = true } ∷ cs), ground arith)
get_id-some (d ∷ cs) (suc j) c e h =
    let (r, found) = get_id-some cs j c e h in
    elim (Bool-cases d.in_use) [
      | inl used ↦ ((suc r.0, d ∷ r.1), simp (used, found))
      | inr free ↦ ((0, record d { in_use = true } ∷ cs), simp free)
    ]
