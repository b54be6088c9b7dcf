-- ===== src/FileIo/Programs.antt =====
-- What mycp.c, mycp2.c, merge.c and split.c do to the files, from `argv` to the exit status.
use linux_system_programming.Prelude.{
  ℕ, suc, ◌<◌, ◌≡◌, ◌≢◌, refl, ap, ◌⊎◌, ◌∙◌, sym, some, none, List, [], ◌∷◌, length, arith, true,
  false,
}
use linux_system_programming.Prelude.Text.{String, put_name_self}
use linux_system_programming.FileIo.{
  Fs, Copy, contents_of, put, done, exit, mycp, mycp2, merge, split, ◌>>=◌, fread_loop, read_loop,
  max_buf,
}
use linux_system_programming.FileIo.Files.{
  open_read-done, open_read-failed, open_write-failed, open_write-done, put-put, contents-put_ne,
  contents-put_self,
}
use linux_system_programming.FileIo.Loops.{
  left, Appends, Appended, fread-Appends, read_loop-eq-fread_loop,
}

-- A file that the user may read, with its bytes.
pub record IsFile (fs : Fs) (p : String) (bytes : List ℕ) : Type 0 where
  pub readable : fs.readable p ≡ true
  pub found : fs.file p ≡ some bytes

module _ (fs : Fs) (a b : String) (bytes : List ℕ) (apart : a ≢ b) (src : IsFile fs a bytes) where
  start : List ℕ → Copy
  start buf = record {
    buf = buf;
    src = record { name = a; pos = 0 };
    dst = record { name = b; pos = 0 };
  }

  start-Appends : (buf : List ℕ) → Appends (put fs b []) (start buf) []
  unfolding start
  start-Appends buf = record {
    apart = apart;
    found = put_name_self fs.file b (some []);
    at_end = refl;
  }

  left_src : left (put fs b []) (record { name = a; pos = 0 }) ≡ bytes
  left_src = contents-put_ne fs b a [] (λ e. apart (sym e)) ∙ ap contents_of src.found

  -- The whole loop, from the two files just opened.
  copy_all :
      (k max : ℕ) (buf : List ℕ)
      → 0 < max
      → length bytes < k
      → Appended (start buf) (put fs b []) [] bytes (fread_loop k max (start buf) (put fs b []))
  unfolding start
  copy_all k max buf pos enough =
      fread-Appends k max (start buf) (put fs b []) [] bytes pos (start-Appends buf) left_src enough

-- mycp.c: with two files, the first one readable and the second one writable, the program exits
-- with 0, the second file holds the bytes of the first, and no other file is changed.
pub mycp_copies :
    (fuel : ℕ) (buf : List ℕ) (prog a b : String) (fs : Fs) (bytes : List ℕ)
    → a ≢ b
    → IsFile fs a bytes
    → fs.writable b ≡ true
    → length bytes < fuel
    → mycp fuel buf (prog ∷ a ∷ b ∷ []) fs ≡ done 0 (put fs b bytes)
unfolding mycp start
mycp_copies fuel buf prog a b fs bytes apart src dst enough = rw (
  ◌>>=◌,
  open_read-done fs a src.readable src.found,
  open_write-done fs b dst,
  read_loop-eq-fread_loop,
  (copy_all fs a b bytes apart src fuel 1 buf (omega arith) enough).ends,
  put-put fs b [] bytes,
)

-- mycp2.c does the same with a buffer of 1024 bytes.
pub mycp2_copies :
    (fuel : ℕ) (buf : List ℕ) (prog a b : String) (fs : Fs) (bytes : List ℕ)
    → a ≢ b
    → IsFile fs a bytes
    → fs.writable b ≡ true
    → length bytes < fuel
    → mycp2 fuel buf (prog ∷ a ∷ b ∷ []) fs ≡ done 0 (put fs b bytes)
unfolding mycp2 start
mycp2_copies fuel buf prog a b fs bytes apart src dst enough = rw (
  ◌>>=◌,
  open_read-done fs a src.readable src.found,
  open_write-done fs b dst,
  (copy_all fs a b bytes apart src fuel max_buf buf (omega arith) enough).ends,
  put-put fs b [] bytes,
)

-- A file copied to itself is emptied, whatever it held: the output is truncated before the first read.
pub copy_to_itself :
    (fuel : ℕ) (buf : List ℕ) (prog a : String) (fs : Fs) (bytes : List ℕ)
    → IsFile fs a bytes
    → fs.writable a ≡ true
    → (mycp (suc fuel) buf (prog ∷ a ∷ a ∷ []) fs ≡ done 0 (put fs a []))
      × (mycp2 (suc fuel) buf (prog ∷ a ∷ a ∷ []) fs ≡ done 0 (put fs a []))
unfolding mycp mycp2 read_loop fread_loop
copy_to_itself fuel buf prog a fs bytes src dst = (
  rw (
    ◌>>=◌,
    open_read-done fs a src.readable src.found,
    open_write-done fs a dst,
    contents-put_self fs a [],
  ),
  rw (
    ◌>>=◌,
    open_read-done fs a src.readable src.found,
    open_write-done fs a dst,
    contents-put_self fs a [],
  ),
)

-- A source that is not there or may not be read: each program exits with 1 and changes no file, so
-- an output that exists keeps its bytes.
pub missing_source :
    (fuel : ℕ) (buf : List ℕ) (prog a b dst2 : String) (fs : Fs)
    → (fs.readable a ≡ false) ⊎ (fs.file a ≡ none)
    → (mycp fuel buf (prog ∷ a ∷ b ∷ []) fs ≡ exit 1 fs)
      × (mycp2 fuel buf (prog ∷ a ∷ b ∷ []) fs ≡ exit 1 fs)
      × (merge fuel buf (prog ∷ a ∷ b ∷ dst2 ∷ []) fs ≡ exit 1 fs)
      × (split fuel buf (prog ∷ a ∷ b ∷ dst2 ∷ []) fs ≡ exit 1 fs)
unfolding mycp mycp2 merge split
missing_source fuel buf prog a b dst2 fs why =
    let e = open_read-failed fs a why in
    (rw (◌>>=◌, e), rw (◌>>=◌, e), rw (◌>>=◌, e), rw (◌>>=◌, e))

-- split.c with a second output that may not be written exits with 1 when the first one is already
-- emptied.
pub split_half_done :
    (fuel : ℕ) (buf : List ℕ) (prog a dst1 dst2 : String) (fs : Fs) (bytes : List ℕ)
    → IsFile fs a bytes
    → fs.writable dst1 ≡ true
    → fs.writable dst2 ≡ false
    → split fuel buf (prog ∷ a ∷ dst1 ∷ dst2 ∷ []) fs ≡ exit 1 (put fs dst1 [])
unfolding split
split_half_done fuel buf prog a dst1 dst2 fs bytes src out1 out2 = rw (
  ◌>>=◌,
  open_read-done fs a src.readable src.found,
  open_write-done fs dst1 out1,
  open_write-failed (put fs dst1 []) dst2 out2,
)
