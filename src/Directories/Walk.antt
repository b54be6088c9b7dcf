-- ===== src/Directories/Walk.antt =====
-- "2_Files and Directories/mylsr.c": `Doit`, over a directory as a tree. Names and paths are their bytes.
pub mod Laws
use linux_system_programming.Prelude.{
  ℕ, ◌+◌, Bool, true, false, ◌&&◌, ◌||◌, List, [], ◌∷◌, ◌++◌, length, ltb, ◌==◌, if◌then◌else◌,
}

abbrev pub max_path : ℕ
max_path = 256

-- What a name stands for: a file, a directory with whether it can be opened, or what `lstat` fails for.
mutual
  pub data Node : Type 0 where
    file : Node
    unknown : Node
    directory : Bool → Entries → Node

  -- What `readdir` brings, in its order.
  pub data Entries : Type 0 where
    end : Entries
    entry : List ℕ → Node → Entries → Entries

-- What has been printed when `Doit` returns, or when the program exits; or the program has left what C
-- defines.
pub data Walked : Type 0 where
  done : List (List ℕ) → Walked
  stopped : List (List ℕ) → Walked
  undefined : Walked

infixl 5 ◌>>=◌
abbrev pub ◌>>=◌ : Walked → (List (List ℕ) → Walked) → Walked
done out >>= f = f out
stopped out >>= f = stopped out
undefined >>= f = undefined

-- `strcmp(a, b) == 0`
abbrev pub same_bytes : List ℕ → List ℕ → Bool
same_bytes [] [] = true
same_bytes (x ∷ xs) (y ∷ ys) = (x == y) && same_bytes xs ys
same_bytes _ _ = false

-- The names "." and ".."
unfoldable pub is_dots : List ℕ → Bool
is_dots name = same_bytes (b'.' ∷ []) name || same_bytes (b'.' ∷ b'.' ∷ []) name

-- The first loop: the names that are printed.
abbrev pub names : Entries → List (List ℕ)
names end = []
names (entry name node more) = let rest = names more in if is_dots name then rest else name ∷ rest

-- `strcpy(fullpath, path); strcat(fullpath, "/"); strcat(fullpath, name);`
abbrev pub full_path : List ℕ → List ℕ → List ℕ
full_path path name = path ++ (b'/' ∷ name)

-- `visit` is the end of a round of the second loop, `lstat` and for a directory `Doit`, which opens it,
-- prints its path and the names in it, and goes through its entries again: `descend`. The array
-- `fullpath` holds a path and its NUL if the path is shorter.
unfoldable mutual
  pub visit : List ℕ → Node → List (List ℕ) → Walked
  visit path file out = done out
  visit path unknown out = stopped out
  visit path (directory false entries) out = stopped out
  visit path (directory true entries) out = descend path entries (out ++ (path ∷ names entries))

  pub descend : List ℕ → Entries → List (List ℕ) → Walked
  descend path end out = done out
  descend path (entry name node more) out =
      let skipped = descend path more out in
      let visited = visit (full_path path name) node out in
      if is_dots name
      then skipped
      else (if ltb (length (full_path path name)) max_path
          then visited >>= (λ out'. descend path more out')
          else undefined)

-- `Doit`; `opendir` fails for what is no directory.
abbrev pub doit : List ℕ → Node → List (List ℕ) → Walked
doit path (directory opens entries) out = visit path (directory opens entries) out
doit path _ out = stopped out

-- `main`, in a directory
abbrev pub lsr : Node → Walked
lsr root = doit (b'.' ∷ []) root []
