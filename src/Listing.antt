-- ===== src/Listing.antt =====
-- "2_Files and Directories/mylsl.c": a long listing of the working directory. The directory's names, what
-- `lstat`, `getpwuid`, `getgrgid` and `localtime` answer are the record `Machine`.
pub mod Laws
pub mod Number
mod Tests
use linux_system_programming.Prelude.{
  ℕ, ◌+◌, ◌-◌, ◌%◌, Bool, true, false, ◌||◌, Option, none, some, List, [], ◌∷◌, ltb, ◌⊎◌, inl, inr,
  if◌then◌else◌,
}
use linux_system_programming.Prelude.Int.{ℤ, pos, negsuc}
use linux_system_programming.Prelude.Text.{String, same_name}

-- The file types that the tests `S_ISREG` to `S_ISSOCK` tell apart.
pub data FileKind : Type 0 where
  regular directory character_device block_device fifo link socket other : FileKind

-- `st_mode`, as the macros of sys/stat.h read it: a bit for each of `S_IRUSR` to `S_IXOTH`, `S_ISUID` and
-- `S_ISGID`.
pub record Mode : Type 0 where
  pub kind : FileKind
  pub rusr : Bool
  pub wusr : Bool
  pub xusr : Bool
  pub rgrp : Bool
  pub wgrp : Bool
  pub xgrp : Bool
  pub roth : Bool
  pub woth : Bool
  pub xoth : Bool
  pub isuid : Bool
  pub isgid : Bool

pub record Stat : Type 0 where
  pub st_mode : Mode
  pub st_nlink : ℕ
  pub st_uid : ℕ
  pub st_gid : ℕ
  pub st_size : ℕ
  pub st_mtime : ℕ
  pub st_blocks : ℕ

-- The fields of `struct tm` that are printed.
pub record Tm : Type 0 where
  pub tm_mon : ℕ
  pub tm_mday : ℕ
  pub tm_hour : ℕ
  pub tm_min : ℕ

-- `none` is a call that fails or returns NULL.
pub record Machine : Type 0 where
  pub opendir : Option (List String)
  pub lstat : String → Option Stat
  pub getpwuid : ℕ → Option String
  pub getgrgid : ℕ → Option String
  pub localtime : ℕ → Tm

-- The conversion to a 32-bit `int`.
unfoldable pub to_int : ℕ → ℤ
to_int n = let w = n % 4294967296 in if ltb w 2147483648 then pos w else negsuc (4294967295 - w)

unfoldable pub kind_letter : FileKind → ℕ
kind_letter regular = b'-'
kind_letter directory = b'd'
kind_letter character_device = b'c'
kind_letter block_device = b'b'
kind_letter fifo = b'p'
kind_letter link = b'l'
kind_letter socket = b's'
kind_letter other = b'w'

-- `if(bit) strcat(permissions, letter); else strcat(permissions, "-");`
unfoldable pub bit_letter : Bool → ℕ → ℕ
bit_letter bit letter = if bit then letter else b'-'

-- The letter for execution, with the bit `S_ISUID` or `S_ISGID`.
unfoldable pub run_letter : Bool → Bool → ℕ
run_letter run set_id =
    if run then (if set_id then b's' else b'x') else (if set_id then b'S' else b'-')

unfoldable pub permissions : Mode → List ℕ
permissions m =
    kind_letter m.kind
    ∷ bit_letter m.rusr b'r'
    ∷ bit_letter m.wusr b'w'
    ∷ run_letter m.xusr m.isuid
    ∷ bit_letter m.rgrp b'r'
    ∷ bit_letter m.wgrp b'w'
    ∷ run_letter m.xgrp m.isgid
    ∷ bit_letter m.roth b'r'
    ∷ bit_letter m.woth b'w'
    ∷ bit_letter m.xoth b'x'
    ∷ []

-- What is printed for one file; `month` is the index into the array of names.
pub record Line : Type 0 where
  pub mode : List ℕ
  pub nlnk : ℤ
  pub user_name : String
  pub group_name : String
  pub fsize : ℤ
  pub month : ℕ
  pub mday : ℕ
  pub hour : ℕ
  pub minute : ℕ
  pub name : String

-- How the program ends: it returns 0, it calls `exit(1)`, or it reads through a null pointer.
pub data Ending : Type 0 where
  finished failed crashed : Ending

-- The total, once printed, the lines, and the end.
pub record Report : Type 0 where
  pub total : Option ℕ
  pub lines : List Line
  pub ending : Ending

-- `strcmp(".", name) == 0 || strcmp("..", name) == 0`
unfoldable pub is_dot : String → Bool
is_dot name = same_name "." name || same_name ".." name

-- The first loop: the blocks of all files, or `exit(1)`.
unfoldable pub total_blocks : Machine → List String → ℕ → Option ℕ
total_blocks k [] total = some total
total_blocks k (name ∷ names) total =
    if is_dot name then total_blocks k names total else (elim (k.lstat name) [
      | none ↦ none
      | some st ↦ total_blocks k names (total + st.st_blocks)
    ])

-- The second loop prints the line of a file after what has been printed.
unfoldable pub line_of : Machine → String → Stat → String → String → Line
line_of k name st user group = record {
  mode = permissions st.st_mode;
  nlnk = to_int st.st_nlink;
  user_name = user;
  group_name = group;
  fsize = to_int st.st_size;
  month = (k.localtime st.st_mtime).tm_mon;
  mday = (k.localtime st.st_mtime).tm_mday;
  hour = (k.localtime st.st_mtime).tm_hour;
  minute = (k.localtime st.st_mtime).tm_min;
  name = name;
}

-- One round of the second loop for a file: its line, or how the program ends. `GetUid` and `GetGid`
-- read the name from the pointer that they are given.
unfoldable pub file_line : Machine → String → Ending ⊎ Line
file_line k name = elim (k.lstat name) [
  | none ↦ inl failed
  | some st ↦ elim (k.getpwuid st.st_uid) [
    | none ↦ inl crashed
    | some user ↦ elim (k.getgrgid st.st_gid) [
      | none ↦ inl crashed
      | some group ↦ inr (line_of k name st user group)
    ]
  ]
]

unfoldable pub print_lines : Machine → List String → List Line × Ending
print_lines k [] = ([], finished)
print_lines k (name ∷ names) =
    let rest = print_lines k names in
    if is_dot name
    then rest
    else (elim (file_line k name) [ inl end ↦ ([], end) | inr line ↦ (line ∷ rest.0, rest.1) ])

unfoldable pub long_listing : Machine → Report
long_listing k = elim k.opendir [
  | none ↦ record { total = none; lines = []; ending = failed }
  | some names ↦ elim (total_blocks k names 0) [
    | none ↦ record { total = none; lines = []; ending = failed }
    | some total ↦ record {
      total = some total;
      lines = (print_lines k names).0;
      ending = (print_lines k names).1;
    }
  ]
]
