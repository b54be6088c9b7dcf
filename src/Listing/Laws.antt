-- ===== src/Listing/Laws.antt =====
-- mylsl.c: what the listing shows, and how it ends.
use linux_system_programming.Prelude.{
  ℕ, ◌+◌, ◌<◌, ◌≡◌, refl, ◌↔◌, Bool, true, false, none, some, List, [], ◌∷◌, ◌++◌, map, ◌==◌,
  if◌then◌else◌, arith, inl, inr, Option-cases, Option,
}
use linux_system_programming.Prelude.Text.{String}
use linux_system_programming.Prelude.Int.{pos}
use linux_system_programming.Listing.{
  FileKind, regular, directory, character_device, block_device, fifo, link, socket, other, Mode,
  Stat, Machine, to_int, kind_letter, bit_letter, run_letter, permissions, Line, finished, failed,
  crashed, is_dot, total_blocks, line_of, file_line, print_lines, long_listing,
}

-- How a reader takes a mode from its ten letters.
pub letter_kind : ℕ → FileKind
letter_kind c =
    if c == b'-'
    then regular
    else if c == b'd'
    then directory
    else if c == b'c'
    then character_device
    else if c == b'b'
    then block_device
    else if c == b'p'
    then fifo
    else if c == b'l'
    then link
    else if c == b's'
    then socket
    else other

-- A place shows its own letter or `-`.
pub is_set : ℕ → ℕ → Option Bool
is_set letter c = if c == letter then some true else if c == b'-' then some false else none

-- Whether a file may be run, and whether it then takes the identity of its owner or group.
pub runs : ℕ → Option (Bool × Bool)
runs c =
    if c == b'x'
    then some (true, false)
    else if c == b's'
    then some (true, true)
    else if c == b'S'
    then some (false, true)
    else if c == b'-'
    then some (false, false)
    else none

infixl 5 ◌>>=◌
abbrev ◌>>=◌ : {A B : Type 0} → Option A → (A → Option B) → Option B
none >>= f = none
some a >>= f = f a

-- The mode that ten letters show; `none` if they show none.
abbrev pub read_mode : List ℕ → Option Mode
read_mode (k ∷ r1 ∷ w1 ∷ x1 ∷ r2 ∷ w2 ∷ x2 ∷ r3 ∷ w3 ∷ x3 ∷ []) = do
  rusr ← is_set b'r' r1
  wusr ← is_set b'w' w1
  user ← runs x1
  rgrp ← is_set b'r' r2
  wgrp ← is_set b'w' w2
  group ← runs x2
  roth ← is_set b'r' r3
  woth ← is_set b'w' w3
  xoth ← is_set b'x' x3
  some (record {
    kind = letter_kind k;
    rusr = rusr;
    wusr = wusr;
    xusr = user.0;
    rgrp = rgrp;
    wgrp = wgrp;
    xgrp = group.0;
    roth = roth;
    woth = woth;
    xoth = xoth;
    isuid = user.1;
    isgid = group.1;
  })
read_mode _ = none

letter_kind-kind_letter : (kind : FileKind) → letter_kind (kind_letter kind) ≡ kind
unfolding kind_letter letter_kind
letter_kind-kind_letter regular = refl
letter_kind-kind_letter directory = refl
letter_kind-kind_letter character_device = refl
letter_kind-kind_letter block_device = refl
letter_kind-kind_letter fifo = refl
letter_kind-kind_letter link = refl
letter_kind-kind_letter socket = refl
letter_kind-kind_letter other = refl

is_set-bit_letter :
    (b : Bool)
    → (is_set b'r' (bit_letter b b'r') ≡ some b)
      × (is_set b'w' (bit_letter b b'w') ≡ some b)
      × (is_set b'x' (bit_letter b b'x') ≡ some b)
unfolding bit_letter is_set
is_set-bit_letter true = (refl, refl, refl)
is_set-bit_letter false = (refl, refl, refl)

runs-run_letter : (b c : Bool) → runs (run_letter b c) ≡ some (b, c)
unfolding run_letter runs
runs-run_letter true true = refl
runs-run_letter true false = refl
runs-run_letter false true = refl
runs-run_letter false false = refl

-- The ten letters show the file's type and every permission bit that the program tests, each at its place
-- by its own letter: reading them gives the mode back.
pub read_mode-permissions : (m : Mode) → read_mode (permissions m) ≡ some m
unfolding permissions
read_mode-permissions m = rw (
  ◌>>=◌,
  letter_kind-kind_letter m.kind,
  (is_set-bit_letter m.rusr).0,
  (is_set-bit_letter m.wusr).1,
  runs-run_letter m.xusr m.isuid,
  (is_set-bit_letter m.rgrp).0,
  (is_set-bit_letter m.wgrp).1,
  runs-run_letter m.xgrp m.isgid,
  (is_set-bit_letter m.roth).0,
  (is_set-bit_letter m.woth).1,
  (is_set-bit_letter m.xoth).2,
)

-- A file's size and number of links are shown as they are exactly when they are below 2 ^ 31.
pub to_int-exact : (n : ℕ) → (to_int n ≡ pos n) ↔ (n < 2147483648)
unfolding to_int
to_int-exact n = (λ e. ground arith, λ h. ground arith)

-- A file with what `lstat`, `getpwuid` and `getgrgid` answer about it.
pub record File : Type 0 where
  pub name : String
  pub stat : Stat
  pub user : String
  pub group : String

-- The files among some names, in order, when all of those calls answer.
pub data Files (k : Machine) : List String → List File → Type 0 where
  no_names : Files k [] []
  dot_name :
      {name : String} {names : List String} {files : List File}
      → is_dot name ≡ true
      → Files k names files
      → Files k (name ∷ names) files
  file_name :
      {names : List String} {files : List File} (f : File)
      → is_dot f.name ≡ false
      → k.lstat f.name ≡ some f.stat
      → k.getpwuid f.stat.st_uid ≡ some f.user
      → k.getgrgid f.stat.st_gid ≡ some f.group
      → Files k names files
      → Files k (f.name ∷ names) (f ∷ files)

abbrev pub sum_blocks : List File → ℕ
sum_blocks [] = 0
sum_blocks (f ∷ fs) = f.stat.st_blocks + sum_blocks fs

abbrev pub shown : Machine → File → Line
shown k f = line_of k f.name f.stat f.user f.group

total_blocks-Files :
    (k : Machine) {names : List String} {files : List File} (t : ℕ)
    → Files k names files
    → total_blocks k names t ≡ some (t + sum_blocks files)
unfolding total_blocks
total_blocks-Files k t no_names = ground arith
total_blocks-Files k t (dot_name d fs) = ground (arith, total_blocks-Files k t fs)
total_blocks-Files k t (file_name f d st u g fs) =
    ground (arith, total_blocks-Files k (t + f.stat.st_blocks) fs)

print_lines-Files :
    (k : Machine) {names : List String} {files : List File}
    → Files k names files
    → print_lines k names ≡ (map (shown k) files, finished)
unfolding print_lines file_line
print_lines-Files k no_names = refl
print_lines-Files k (dot_name d fs) = ground (arith, print_lines-Files k fs)
print_lines-Files k (file_name f d st u g fs) = ground (arith, print_lines-Files k fs)

-- If `lstat` and the two look-ups of names answer for every file, the program prints the sum of the
-- files' blocks and then one line for each file, in the order of the directory and without "." and "..",
-- and returns 0.
pub long_listing-Files :
    (k : Machine) (names : List String) (files : List File)
    → k.opendir ≡ some names
    → Files k names files
    → long_listing k
      ≡ record { total = some (sum_blocks files); lines = map (shown k) files; ending = finished }
unfolding long_listing
long_listing-Files k names files o fs =
    ground (arith, total_blocks-Files k 0 fs, print_lines-Files k fs)

total_blocks-none :
    (k : Machine) (before : List String) (name : String) (after : List String) (t : ℕ)
    → is_dot name ≡ false
    → k.lstat name ≡ none
    → total_blocks k (before ++ (name ∷ after)) t ≡ none
unfolding total_blocks
total_blocks-none k [] name after t d e = ground arith
total_blocks-none k (b ∷ bs) name after t d e = elim (Option-cases (k.lstat b)) [
  | inl missing ↦ ground (arith, total_blocks-none k bs name after t d e)
  | inr (st, known) ↦ ground (
    arith,
    total_blocks-none k bs name after t d e,
    total_blocks-none k bs name after (t + st.st_blocks) d e,
  )
]

-- If `lstat` fails for any file of the directory, nothing is printed, not even the total, and the program
-- exits with 1.
pub unknown_file :
    (k : Machine) (before : List String) (name : String) (after : List String)
    → k.opendir ≡ some (before ++ (name ∷ after))
    → is_dot name ≡ false
    → k.lstat name ≡ none
    → long_listing k ≡ record { total = none; lines = []; ending = failed }
unfolding long_listing
unknown_file k before name after o d e = ground (arith, total_blocks-none k before name after 0 d e)

print_lines-crashed :
    (k : Machine) {names : List String} {files : List File} (name : String) (after : List String)
    (st : Stat)
    → Files k names files
    → is_dot name ≡ false
    → k.lstat name ≡ some st
    → k.getpwuid st.st_uid ≡ none
    → print_lines k (names ++ (name ∷ after)) ≡ (map (shown k) files, crashed)
unfolding print_lines file_line
print_lines-crashed k name after st no_names d e u = ground arith
print_lines-crashed k name after st (dot_name w fs) d e u =
    ground (arith, print_lines-crashed k name after st fs d e u)
print_lines-crashed k name after st (file_name f w a b c fs) d e u =
    ground (arith, print_lines-crashed k name after st fs d e u)

-- A file whose owner has no entry among the users makes the program read through the null pointer that
-- `getpwuid` returns, after the total and the lines of the files before it.
pub unknown_owner :
    (k : Machine) (before : List String) (files : List File) (name : String) (after : List String)
    (st : Stat) (t : ℕ)
    → k.opendir ≡ some (before ++ (name ∷ after))
    → Files k before files
    → is_dot name ≡ false
    → k.lstat name ≡ some st
    → k.getpwuid st.st_uid ≡ none
    → total_blocks k (before ++ (name ∷ after)) 0 ≡ some t
    → long_listing k ≡ record { total = some t; lines = map (shown k) files; ending = crashed }
unfolding long_listing
unknown_owner k before files name after st t o fs d e u total =
    ground (arith, print_lines-crashed k name after st fs d e u)
