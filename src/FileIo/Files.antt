-- ===== src/FileIo/Files.antt =====
-- Files of "1_File IO" under the writes of a copying loop: what one round appends.
use linux_system_programming.Prelude.{
  ℕ, ◌≡◌, ◌≢◌, ap, some, List, [], ◌++◌, append-nil, length, take-overwrite, take-length,
  drop-length-add, arith, true, [], false, none, ◌⊎◌, fun_ext,
}
use native.Mathlib.Nat.{sub_self}
use text.Mathlib.TextEquality.{eq_iff}
use linux_system_programming.Prelude.Text.{String, put_name_self, put_name_ne, put_name_twice}
use linux_system_programming.FileIo.{
  Fs, Copy, contents, contents_of, put, write_at, write_buffer, open_read, open_write, done, exit,
}

-- A write at the end of a file appends.
pub write_at-length : (bytes old : List ℕ) → write_at (length old) bytes old ≡ old ++ bytes
write_at-length bytes old =
    rw (take-length old, sub_self, drop-length-add (length bytes) old, append-nil)

pub contents-put_self :
    (fs : Fs) (p : String) (bytes : List ℕ) → contents (put fs p bytes) p ≡ bytes
contents-put_self fs p bytes = ap contents_of (put_name_self fs.file p (some bytes))

pub contents-put_ne :
    (fs : Fs) (p q : String) (bytes : List ℕ) → p ≢ q → contents (put fs p bytes) q ≡ contents fs q
contents-put_ne fs p q bytes h = ap contents_of (put_name_ne fs.file p q (some bytes) h)

pub put-put : (fs : Fs) (p : String) (xs ys : List ℕ) → put (put fs p xs) p ys ≡ put fs p ys
put-put fs p xs ys = ap (λ f. record fs { file = f }) (put_name_twice fs.file p (some xs) (some ys))

-- A round that writes all that it read.
pub write_buffer_all :
    (fs : Fs) (c : Copy) (got old : List ℕ)
    → fs.file c.dst.name ≡ some old
    → c.dst.pos ≡ length old
    → write_buffer fs c got (length got) ≡ put fs c.dst.name (old ++ got)
write_buffer_all fs c got old found at_end =
    rw (take-overwrite got c.buf, found, at_end, write_at-length got old)

-- Writing what is there changes nothing.
pub put_same : (fs : Fs) (p : String) (old : List ℕ) → fs.file p ≡ some old → put fs p old ≡ fs
put_same fs p old found = ap (λ f. record fs { file = f }) (fun_ext λ q. ground (arith, eq_iff p q))

-- Writes to two files may change places.
pub put_comm :
    (fs : Fs) (p q : String) (xs ys : List ℕ)
    → p ≢ q
    → put (put fs p xs) q ys ≡ put (put fs q ys) p xs
put_comm fs p q xs ys h =
    ap (λ f. record fs { file = f })
      (fun_ext λ r. ground (arith, eq_iff p q, eq_iff p r, eq_iff q r))

pub open_read-done :
    (fs : Fs) (p : String) {bytes : List ℕ}
    → fs.readable p ≡ true
    → fs.file p ≡ some bytes
    → open_read p fs ≡ done (record { name = p; pos = 0 }) fs
unfolding open_read
open_read-done fs p allowed found = rw (allowed, found)

pub open_write-done :
    (fs : Fs) (p : String)
    → fs.writable p ≡ true
    → open_write p fs ≡ done (record { name = p; pos = 0 }) (put fs p [])
unfolding open_write
open_write-done fs p allowed = rw allowed

pub open_read-failed :
    (fs : Fs) (p : String)
    → (fs.readable p ≡ false) ⊎ (fs.file p ≡ none)
    → open_read p fs ≡ exit 1 fs
unfolding open_read
open_read-failed fs p why = ground arith

pub open_write-failed : (fs : Fs) (p : String) → fs.writable p ≡ false → open_write p fs ≡ exit 1 fs
unfolding open_write
open_write-failed fs p refused = rw refused
