-- ===== src/Directories/Tests.antt =====
-- mylsr.c and myrm.c on small inputs.
use linux_system_programming.Prelude.{
  ℕ, ◌≡◌, ◌↔◌, refl, true, false, Option, none, some, List, [], ◌∷◌, ◌++◌, if◌then◌else◌, replicate,
}
use linux_system_programming.Prelude.Text.{String, codes, same_name}
use linux_system_programming.Directories.Walk.{
  file, directory, Entries, end, entry, done, stopped, undefined, doit, visit, is_dots,
}
use linux_system_programming.Directories.Walk.Laws.{IsWalkable, below, doit_below}
use linux_system_programming.Directories.Removal.{myrm, rm_loop}

abbrev inner : Entries
inner = entry (codes "..") file (entry (codes "b") file end)

abbrev outer : Entries
outer =
    entry (codes ".") file (entry (codes "a") (directory true inner) (entry (codes "c") file end))

doit-outer :
    doit (codes ".") (directory true outer) []
    ≡ done (codes "." ∷ codes "a" ∷ codes "c" ∷ codes "./a" ∷ codes "b" ∷ [])
unfolding visit is_dots
doit-outer = refl

doit_below_example :
    (doit (codes ".") (directory true outer) []
      ≡ done (codes "." ∷ codes "a" ∷ codes "c" ∷ codes "./a" ∷ codes "b" ∷ []))
    ↔ (IsWalkable (codes ".") (directory true outer)
        × ◌≡◌ {A = List (List ℕ)}
            (codes "." ∷ codes "a" ∷ codes "c" ∷ codes "./a" ∷ codes "b" ∷ [])
            ([] ++ below (codes ".") (directory true outer)))
doit_below_example =
    doit_below (codes ".") true outer []
      (codes "." ∷ codes "a" ∷ codes "c" ∷ codes "./a" ∷ codes "b" ∷ [])

-- A name of 255 characters does not fit behind "./".
doit_long : doit (codes ".") (directory true (entry (replicate 255 97) file end)) [] ≡ undefined
unfolding visit is_dots
doit_long = refl

-- A directory that cannot be opened ends the program.
doit_closed :
    doit (codes ".") (directory true (entry (codes "a") (directory false end) end)) []
    ≡ stopped (codes "." ∷ codes "a" ∷ [])
unfolding visit is_dots
doit_closed = refl

-- Everything can be removed but "b"; the names removed are kept.
abbrev remove_all : String → List String → Option (List String)
remove_all name gone = if same_name name "b" then none else some (name ∷ gone)

rm_stops : myrm remove_all ("rm" ∷ "a" ∷ "b" ∷ "c" ∷ []) [] ≡ some (1, "c" ∷ [])
unfolding myrm rm_loop
rm_stops = refl
