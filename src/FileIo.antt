-- ===== src/FileIo.antt =====
-- The programs of the folder "1_File IO": files, stdio streams, and the loops that copy.
-- A file is a list of bytes. A program runs over the files in a monad whose results are those of a
-- process: it goes on, it has called `exit`, or the model's fuel has run out.
use linux_system_programming.Prelude.{
  ℕ, zero, suc, ◌+◌, ◌-◌, ◌/◌, ◌≤◌, ◌<◌, ◌≡◌, refl, Bool, true, false, Option, none, some, List, [],
  ◌∷◌, ◌++◌, length, take, drop, replicate, overwrite, ltb, ◌==◌, if◌then◌else◌,
}
use linux_system_programming.Prelude.Text.{String, put_name}
pub mod Files
pub mod Loops
pub mod Programs
pub mod Halves
pub mod Mapped
mod Tests

abbrev pub max_buf : ℕ
max_buf = 1024

-- The files by name, and whom the user may read or write (which no program changes).
pub record Fs : Type 0 where
  pub file : String → Option (List ℕ)
  pub readable : String → Bool
  pub writable : String → Bool

-- An open file: its name and the offset of the next byte.
pub record Handle : Type 0 where
  pub name : String
  pub pos : ℕ

abbrev pub contents_of : Option (List ℕ) → List ℕ
contents_of none = []
contents_of (some bytes) = bytes

abbrev pub contents : Fs → String → List ℕ
contents fs p = contents_of (fs.file p)

abbrev pub put : Fs → String → List ℕ → Fs
put fs p bytes = record fs { file = put_name fs.file p (some bytes) }

pub data Run {ℓ} (A : Type ℓ) : Type ℓ where
  done : A → Fs → Run A
  exit : ℕ → Fs → Run A
  out_of_fuel : Run A

abbrev pub Io {ℓ} : Type ℓ → Type ℓ
Io A = Fs → Run A

infixl 5 ◌>>=◌
abbrev pub ◌>>=◌ {ℓ κ} : {A : Type ℓ} {B : Type κ} → Io A → (A → Io B) → Io B
◌>>=◌ m f fs = elim (m fs) [
  | done a fs' ↦ f a fs'
  | exit status fs' ↦ exit status fs'
  | out_of_fuel ↦ out_of_fuel
]

-- `fopen(p, "rb")`, or `open(p, O_RDONLY)`; the caller exits with 1 where it fails.
abbrev pub open_existing : String → Bool → Option (List ℕ) → Io Handle
open_existing p true (some bytes) fs = done (record { name = p; pos = 0 }) fs
open_existing p allowed found fs = exit 1 fs

unfoldable pub open_read : String → Io Handle
open_read p fs = open_existing p (fs.readable p) (fs.file p) fs

-- `fopen(p, "wb")`, or `open` with `O_WRONLY | O_CREAT | O_TRUNC`: the file is emptied or made.
unfoldable pub open_write : String → Io Handle
open_write p fs =
    if fs.writable p then done (record { name = p; pos = 0 }) (put fs p []) else exit 1 fs

-- What a read of at most `n` bytes gives: fewer only at the end of the file.
abbrev pub read_bytes : Fs → Handle → ℕ → List ℕ
read_bytes fs h n = take n (drop h.pos (contents fs h.name))

abbrev pub advance : Handle → ℕ → Handle
advance h n = record h { pos = h.pos + n }

-- A write at the offset `pos`: a gap before it is filled with zeros, what it covers is lost.
abbrev pub write_at : ℕ → List ℕ → List ℕ → List ℕ
write_at pos bytes old =
    take pos old ++ (replicate (pos - length old) 0 ++ (bytes ++ drop (pos + length bytes) old))

abbrev pub write_bytes : Fs → Handle → List ℕ → Fs
write_bytes fs h bytes = put fs h.name (write_at h.pos bytes (contents fs h.name))

-- What a copying loop keeps: the buffer and the two open files.
pub record Copy : Type 0 where
  pub buf : List ℕ
  pub src : Handle
  pub dst : Handle

-- A full round: the bytes read go to the front of the buffer, and `cnt` bytes of it are written.
abbrev pub copied : Copy → List ℕ → ℕ → Copy
copied c got cnt = record c {
  buf = overwrite got c.buf;
  src = advance c.src (length got);
  dst = advance c.dst cnt;
}

abbrev pub write_buffer : Fs → Copy → List ℕ → ℕ → Fs
write_buffer fs c got cnt = write_bytes fs c.dst (take cnt (overwrite got c.buf))

-- `while ((cnt = fread(buf, 1, MAX_BUF, fp1)) > 0) fwrite(buf, 1, cnt, fp2);`
unfoldable pub fread_loop : ℕ → ℕ → Copy → Io Copy
fread_loop zero max c fs = out_of_fuel
fread_loop (suc k) max c fs =
    let got = read_bytes fs c.src max in
    let cnt = length got in
    let rest = fread_loop k max (copied c got cnt) (write_buffer fs c got cnt) in
    if ltb 0 cnt then rest else done c fs

-- `while ((cnt = read(fd1, &buf, 1) > 0)) write(fd2, &buf, cnt);`, with `cnt` the comparison's value.
unfoldable pub read_loop : ℕ → Copy → Io Copy
read_loop zero c fs = out_of_fuel
read_loop (suc k) c fs =
    let got = read_bytes fs c.src 1 in
    let cnt : ℕ = if ltb 0 (length got) then 1 else 0 in
    let rest = read_loop k (copied c got cnt) (write_buffer fs c got cnt) in
    if ltb 0 cnt then rest else done c fs

-- `main` of mycp.c: `argv` in full, the program's name first; `buf` is what the buffer held before.
unfoldable pub mycp : ℕ → List ℕ → List String → Io ℕ
mycp fuel buf (prog ∷ a ∷ b ∷ []) = do
  fd1 ← open_read a
  fd2 ← open_write b
  c ← read_loop fuel (record { buf = buf; src = fd1; dst = fd2 })
  done 0
mycp fuel buf argv = exit 1

-- `main` of mycp2.c
unfoldable pub mycp2 : ℕ → List ℕ → List String → Io ℕ
mycp2 fuel buf (prog ∷ a ∷ b ∷ []) = do
  fp1 ← open_read a
  fp2 ← open_write b
  c ← fread_loop fuel max_buf (record { buf = buf; src = fp1; dst = fp2 })
  done 0
mycp2 fuel buf argv = exit 1

-- `main` of merge.c: one buffer and one output for both loops.
unfoldable pub merge : ℕ → List ℕ → List String → Io ℕ
merge fuel buf (prog ∷ a ∷ b ∷ dest ∷ []) = do
  fp1 ← open_read a
  fp2 ← open_read b
  fp3 ← open_write dest
  c ← fread_loop fuel max_buf (record { buf = buf; src = fp1; dst = fp3 })
  d ← fread_loop fuel max_buf (record c { src = fp2 })
  done 0
merge fuel buf argv = exit 1

-- `filesize` of split.c: the offset goes to the end and back. The result is the size and the file.
unfoldable pub filesize : Handle → Fs → ℕ × Handle
filesize fp fs =
    let cur = fp.pos in
    let at_end : Handle = record fp { pos = length (contents fs fp.name) } in
    (at_end.pos, record at_end { pos = cur })

-- `(h_size > MAX_BUF) ? MAX_BUF : h_size`
abbrev pub chunk : ℕ → ℕ
chunk h_size = if ltb max_buf h_size then max_buf else h_size

-- The loop of split.c for the first half. `fread`'s result is not looked at: `count` bytes of the
-- buffer are written, whatever was read.
unfoldable pub half_loop : ℕ → ℕ → Copy → Io Copy
half_loop zero h_size c fs = out_of_fuel
half_loop (suc k) h_size c fs =
    let count = chunk h_size in
    let got = read_bytes fs c.src count in
    let rest = half_loop k (h_size - count) (copied c got count) (write_buffer fs c got count) in
    if ltb 0 h_size then rest else done c fs

-- `main` of split.c
unfoldable pub split : ℕ → List ℕ → List String → Io ℕ
split fuel buf (prog ∷ source ∷ dst1 ∷ dst2 ∷ []) = do
  fp1 ← open_read source
  fp2 ← open_write dst1
  fp3 ← open_write dst2
  halves ← λ fs. done (filesize fp1 fs) fs
  c ← half_loop fuel (halves.0 / 2) (record { buf = buf; src = halves.1; dst = fp2 })
  d ← fread_loop fuel max_buf (record c { dst = fp3 })
  done 0
split fuel buf argv = exit 1
