-- ===== src/FileIo/Loops.antt =====
-- The copying loops of mycp.c, mycp2.c, merge.c and split.c, with the fuel that they need.
use linux_system_programming.Prelude.{
  ℕ, zero, suc, ◌+◌, ◌-◌, ◌≤◌, ◌<◌, ◌≡◌, ◌≢◌, refl, ap, subst, sym, some, List, [], ◌∷◌, ◌++◌,
  append-nil, append_assoc, length, take, drop, length-append, length-drop, length-take,
  take-drop-append, drop-drop, arith, inl, inr, take-append-take, Bool-cases, ltb, if◌then◌else◌,
  ltb→lt,
}
use linux_system_programming.Prelude.Text.{put_name_self}
use linux_system_programming.FileIo.{
  Fs, Handle, Copy, contents, put, write_buffer, read_bytes, fread_loop, read_loop, half_loop,
  chunk, done, copied, Run,
}
use linux_system_programming.FileIo.Files.{contents-put_ne, put-put, write_buffer_all, put_same}

-- What is left to read.
abbrev pub left : Fs → Handle → List ℕ
left fs h = drop h.pos (contents fs h.name)

-- The source and the output are two files, and the output is written at its end.
pub record Appends (fs : Fs) (c : Copy) (old : List ℕ) : Type 0 where
  pub apart : c.src.name ≢ c.dst.name
  pub found : fs.file c.dst.name ≡ some old
  pub at_end : c.dst.pos ≡ length old

-- What a loop has done: `new` is appended to the output, and nothing else is changed.
pub record Appended (c : Copy) (fs : Fs) (old new : List ℕ) (r : Run Copy) : Type 0 where
  pub last : Copy
  pub ends : r ≡ done last (put fs c.dst.name (old ++ new))
  pub same_src : last.src.name ≡ c.src.name
  pub same_dst : last.dst.name ≡ c.dst.name
  pub pos_src : last.src.pos ≡ c.src.pos + length new
  pub pos_dst : last.dst.pos ≡ length (old ++ new)

-- One round that reads `got` and writes all of it, before the rest of a loop.
module _ (c : Copy) (fs : Fs) (old got : List ℕ) (a : Appends fs c old) where
  open a use {apart, found, at_end}

  abbrev pub next_fs : Fs
  next_fs = put fs c.dst.name (old ++ got)

  abbrev pub next_copy : Copy
  next_copy = copied c got (length got)

  pub next-Appends : Appends next_fs next_copy (old ++ got)
  next-Appends = record {
    apart = apart;
    found = put_name_self fs.file c.dst.name (some (old ++ got));
    at_end = rw (at_end, length-append old got);
  }

  pub left-next :
      left next_fs next_copy.src ≡ drop (c.src.pos + length got) (contents fs c.src.name)
  left-next =
      ap (drop (c.src.pos + length got))
        (contents-put_ne fs c.dst.name c.src.name _ (λ e. apart (sym e)))

  pub next-Appended :
      (new whole : List ℕ) (r : Run Copy)
      → got ++ new ≡ whole
      → Appended next_copy next_fs (old ++ got) new r
      → Appended c fs old whole r
  next-Appended new whole r e done_rest = record {
    last = done_rest.last;
    ends = rw (← e, done_rest.ends, put-put fs c.dst.name (old ++ got), append_assoc);
    same_src = done_rest.same_src;
    same_dst = done_rest.same_dst;
    pos_src = omega (arith, done_rest.pos_src, ap length e, length-append got new);
    pos_dst = rw (← e, done_rest.pos_dst, append_assoc);
  }

-- What `fread` gives, followed by what it leaves.
pub read-left :
    (fs : Fs) (h : Handle) (max : ℕ)
    → read_bytes fs h max ++ drop (h.pos + length (read_bytes fs h max)) (contents fs h.name)
      ≡ left fs h
read-left fs h max = take-drop-append h.pos max (contents fs h.name)

nothing_read : {A : Type 0} (max : ℕ) (xs : List A) → 0 < max → length (take max xs) ≡ 0 → xs ≡ []
nothing_read zero xs pos h = absurd (omega arith)
nothing_read (suc max) [] pos h = refl
nothing_read (suc max) (x ∷ xs) pos h = absurd (omega arith)

pub Appended-nothing :
    (c : Copy) (fs : Fs) (old new : List ℕ)
    → Appends fs c old
    → new ≡ []
    → Appended c fs old new (done c fs)
Appended-nothing c fs old new a e = record {
  last = c;
  ends = rw (e, append-nil, put_same fs c.dst.name old a.found);
  same_src = refl;
  same_dst = refl;
  pos_src = rw e (omega arith);
  pos_dst = rw (e, append-nil, a.at_end);
}

-- From enough fuel the loop ends, with all that was left appended to the output.
pub fread_loop_lem :
    (k max : ℕ) (c : Copy) (fs : Fs) (old : List ℕ)
    → 0 < max
    → Appends fs c old
    → length (left fs c.src) < k
    → Appended c fs old (left fs c.src) (fread_loop k max c fs)
unfolding fread_loop
fread_loop_lem zero max c fs old pos a fuel = absurd (omega arith)
fread_loop_lem (suc k) max c fs old pos a fuel = elim (Bool-cases (ltb 0 (length got))) [
  | inl more ↦
      rw (more, write_buffer_all fs c got old a.found a.at_end)
        (next-Appended c fs old got a _ _ _ whole (
          fread_loop_lem k max _ _ (old ++ got) pos (next-Appends c fs old got a)
            (shorter (ltb→lt _ _ more))))
  | inr over ↦ rw over (Appended-nothing c fs old _ a (nothing_read max _ pos (ground arith)))
]
  where
    got : List ℕ
    got = read_bytes fs c.src max

    whole : got ++ left (next_fs c fs old got a) (next_copy c fs old got a).src ≡ left fs c.src
    whole = rw (left-next c fs old got a) (read-left fs c.src max)

    shorter :
        0 < length got → length (left (next_fs c fs old got a) (next_copy c fs old got a).src) < k
    shorter h = omega (
      arith,
      ap length whole,
      length-append got (left (next_fs c fs old got a) (next_copy c fs old got a).src),
    )

-- One byte at a time, the comparison's value is the number of bytes read.
count_of_one :
    {A : Type 0} (xs : List A) → (if ltb 0 (length (take 1 xs)) then 1 else 0) ≡ length (take 1 xs)
count_of_one [] = refl
count_of_one (x ∷ xs) = refl

pub read_loop-eq-fread_loop : (k : ℕ) (c : Copy) (fs : Fs) → read_loop k c fs ≡ fread_loop k 1 c fs
unfolding read_loop fread_loop
read_loop-eq-fread_loop zero c fs = refl
read_loop-eq-fread_loop (suc k) c fs =
    rw (count_of_one (left fs c.src), read_loop-eq-fread_loop k) refl

take_zero : (n : ℕ) (xs : List ℕ) → n ≡ 0 → take n xs ≡ []
take_zero n xs e = ap (λ m. take m xs) e

write_buffer_count :
    (fs : Fs) (c : Copy) (got old : List ℕ) (cnt : ℕ)
    → length got ≡ cnt
    → Appends fs c old
    → write_buffer fs c got cnt ≡ put fs c.dst.name (old ++ got)
write_buffer_count fs c got old cnt e a = rw (← e) (write_buffer_all fs c got old a.found a.at_end)

-- The loop of split.c appends the first `h_size` bytes of what was left, if there are so many.
pub half_loop_lem :
    (k h_size : ℕ) (c : Copy) (fs : Fs) (old : List ℕ)
    → Appends fs c old
    → h_size ≤ length (left fs c.src)
    → h_size < k
    → Appended c fs old (take h_size (left fs c.src)) (half_loop k h_size c fs)
unfolding half_loop
half_loop_lem zero h_size c fs old a enough fuel = absurd (omega arith)
half_loop_lem (suc k) h_size c fs old a enough fuel = elim (Bool-cases (ltb 0 h_size)) [
  | inl more ↦
      rw (more, ap (copied c got) (sym full), write_buffer_count fs c got old (chunk h_size) full a)
        (next-Appended c fs old got a _ _ _ whole (
          half_loop_lem k (h_size - chunk h_size) _ _ (old ++ got) (next-Appends c fs old got a)
            (omega (arith, ap length rest, length-drop (chunk h_size) (left fs c.src)))
            (shorter (ltb→lt _ _ more))))
  | inr over ↦ rw over (Appended-nothing c fs old _ a (take_zero h_size _ (ground arith)))
]
  where
    got : List ℕ
    got = read_bytes fs c.src (chunk h_size)

    within : chunk h_size ≤ h_size
    within = ground arith

    full : length got ≡ chunk h_size
    full = omega (arith, length-take (chunk h_size) (left fs c.src), within)

    rest :
        left (next_fs c fs old got a) (next_copy c fs old got a).src
        ≡ drop (chunk h_size) (left fs c.src)
    rest = rw (left-next c fs old got a, full, drop-drop (chunk h_size) c.src.pos)

    whole :
        got
          ++ take
              (h_size - chunk h_size)
              (left (next_fs c fs old got a) (next_copy c fs old got a).src)
        ≡ take h_size (left fs c.src)
    whole = rw rest (take-append-take (chunk h_size) h_size (left fs c.src) within)

    shorter : 0 < h_size → h_size - chunk h_size < k
    shorter h = ground arith

-- The same with what was left given by name.
pub fread-Appends :
    (k max : ℕ) (c : Copy) (fs : Fs) (old new : List ℕ)
    → 0 < max
    → Appends fs c old
    → left fs c.src ≡ new
    → length new < k
    → Appended c fs old new (fread_loop k max c fs)
fread-Appends k max c fs old new pos a e fuel =
    subst (λ (xs : List ℕ). Appended c fs old xs (fread_loop k max c fs)) e
      (fread_loop_lem k max c fs old pos a (rw e fuel))

pub half-Appends :
    (k h_size : ℕ) (c : Copy) (fs : Fs) (old new : List ℕ)
    → Appends fs c old
    → left fs c.src ≡ new
    → h_size ≤ length new
    → h_size < k
    → Appended c fs old (take h_size new) (half_loop k h_size c fs)
half-Appends k h_size c fs old new a e enough fuel =
    subst (λ (xs : List ℕ). Appended c fs old (take h_size xs) (half_loop k h_size c fs)) e
      (half_loop_lem k h_size c fs old a (rw e enough) fuel)
