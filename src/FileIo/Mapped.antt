-- ===== src/FileIo/Mapped.antt =====
-- "5_Inter-Process Communication/mycp3.c": a copy by way of two files in memory.
use linux_system_programming.Prelude.{
  ℕ, zero, suc, ◌+◌, ◌-◌, ◌≡◌, ◌≢◌, refl, ap, sym, ◌∙◌, ◌&&◌, true, List, [], ◌∷◌, ◌++◌, length,
  length-append, length-replicate, take-length, take, drop, drop-length, replicate, append-nil,
  ◌==◌, if◌then◌else◌, arith,
}
use linux_system_programming.Prelude.Text.{String}
use linux_system_programming.FileIo.{
  Fs, Handle, Io, contents, contents_of, put, done, exit, open_read, write_at, write_bytes, ◌>>=◌,
}
use linux_system_programming.FileIo.Files.{
  open_read-done, put-put, contents-put_ne, contents-put_self,
}
use linux_system_programming.FileIo.Programs.{IsFile}

-- `open(p, O_RDWR | O_CREAT | O_TRUNC, 0644)`
unfoldable pub open_both : String → Io Handle
open_both p fs =
    if fs.readable p && fs.writable p
    then done (record { name = p; pos = 0 }) (put fs p [])
    else exit 1 fs

-- `lseek(fdout, size - 1, SEEK_SET)`, which fails for an offset below 0.
unfoldable pub seek_last : ℕ → Handle → Io Handle
seek_last zero h fs = exit 1 fs
seek_last (suc n) h fs = done (record h { pos = n }) fs

-- `fstat`
unfoldable pub file_size : Handle → Io ℕ
file_size h fs = done (length (contents fs h.name)) fs

-- `write(fdout, "", 1);`
unfoldable pub write_nul : Handle → Io Handle
write_nul h fs = done (record h { pos = h.pos + 1 }) (write_bytes fs h (0 ∷ []))

-- `memcpy(dst, src, size)`, where both files are mapped from their start.
unfoldable pub copy_mapped : ℕ → Handle → Handle → Io ℕ
copy_mapped size src dst fs =
    done 0 (write_bytes fs (record dst { pos = 0 }) (take size (contents fs src.name)))

-- `main` of mycp3.c
unfoldable pub mycp3 : List String → Io ℕ
mycp3 (prog ∷ a ∷ b ∷ []) = do
  fdin ← open_read a
  fdout ← open_both b
  size ← file_size fdin
  at_last ← seek_last size fdout
  written ← write_nul at_last
  copy_mapped size fdin written
mycp3 argv = exit 1

-- A write over a file of the same size leaves nothing of what it held.
write_at-cover : (bytes old : List ℕ) → length old ≡ length bytes → write_at 0 bytes old ≡ bytes
write_at-cover bytes old e =
    ap (λ k. replicate k 0 ++ (bytes ++ drop (0 + length bytes) old)) {x = 0 - length old} {y = 0}
      (omega arith)
    ∙ ap (λ n. bytes ++ drop n old) {x = 0 + length bytes} {y = length old} (omega (arith, e))
    ∙ ap (λ r. bytes ++ r) (drop-length old)
    ∙ append-nil bytes

drop-nil : (n : ℕ) → ◌≡◌ {A = List ℕ} (drop n []) []
drop-nil zero = refl
drop-nil (suc n) = refl

take-nil : (n : ℕ) → ◌≡◌ {A = List ℕ} (take n []) []
take-nil zero = refl
take-nil (suc n) = refl

-- A byte written at the offset `n` of an empty file makes it `n + 1` bytes long.
length-write_at : (n : ℕ) → length (write_at n (0 ∷ []) []) ≡ suc n
length-write_at n =
    rw (take-nil n, drop-nil (n + 1))
      (omega (
        arith,
        length-append {A = ℕ} (replicate (n - 0) 0) (0 ∷ []),
        length-replicate {A = ℕ} (n - 0) 0,
      ))

module _ (fs : Fs) (a b : String) (bytes : List ℕ) (apart : a ≢ b) (src : IsFile fs a bytes) where
  found : (written : List ℕ) → contents (put fs b written) a ≡ bytes
  found written = contents-put_ne fs b a written (λ e. apart (sym e)) ∙ ap contents_of src.found

  -- The file that is mapped for writing.
  written :
      (n : ℕ)
      → put (put fs b []) b (write_at n (0 ∷ []) (contents (put fs b []) b))
        ≡ put fs b (write_at n (0 ∷ []) [])
  written n =
      ap (λ old. put (put fs b []) b (write_at n (0 ∷ []) old)) (contents-put_self fs b [])
      ∙ put-put fs b [] (write_at n (0 ∷ []) [])

  covered :
      (old : List ℕ)
      → length old ≡ length bytes
      → put (put fs b old) b (write_at 0 bytes (contents (put fs b old) b)) ≡ put fs b bytes
  covered old same =
      ap (λ now. put (put fs b old) b (write_at 0 bytes now)) (contents-put_self fs b old)
      ∙ ap (put (put fs b old) b) (write_at-cover bytes old same)
      ∙ put-put fs b old bytes

  -- The end of the program, for a file that is not empty.
  copied_over :
      (n : ℕ)
      → length bytes ≡ suc n
      → copy_mapped
          (suc n)
          (record { name = a; pos = 0 })
          (record { name = b; pos = n + 1 })
          (put (put fs b []) b (write_at n (0 ∷ []) (contents (put fs b []) b)))
        ≡ done 0 (put fs b bytes)
  unfolding copy_mapped
  copied_over n size =
      let old = write_at n (0 ∷ []) [] in
      ap (copy_mapped (suc n) (record { name = a; pos = 0 }) (record { name = b; pos = n + 1 }))
        (written n)
      ∙ ap (λ got. done 0 (put (put fs b old) b (write_at 0 got (contents (put fs b old) b))))
          (ap (take (suc n)) (found old) ∙ ap (λ k. take k bytes) (sym size) ∙ take-length bytes)
      ∙ ap (done 0) (covered old (length-write_at n ∙ sym size))

not_empty {ℓ} : {A : Type ℓ} (n : ℕ) (p q : A) → (if suc n == 0 then p else q) ≡ q
not_empty n p q = ground arith

open_both-done :
    (fs : Fs) (p : String)
    → fs.readable p ≡ true
    → fs.writable p ≡ true
    → open_both p fs ≡ done (record { name = p; pos = 0 }) (put fs p [])
unfolding open_both
open_both-done fs p readable writable = rw (readable, writable)

-- mycp3.c, with two files, the first one readable, the second one readable and writable: a file that is
-- not empty is copied, as by mycp.c; for an empty file the program fails, with the second file emptied.
pub mycp3_copies :
    (prog a b : String) (fs : Fs) (bytes : List ℕ)
    → a ≢ b
    → IsFile fs a bytes
    → fs.readable b ≡ true
    → fs.writable b ≡ true
    → mycp3 (prog ∷ a ∷ b ∷ []) fs
      ≡ (if length bytes == 0 then exit 1 (put fs b []) else done 0 (put fs b bytes))
unfolding mycp3 file_size seek_last write_nul
mycp3_copies prog a b fs [] apart src readable writable = rw (
  ◌>>=◌,
  open_read-done fs a src.readable src.found,
  open_both-done fs b readable writable,
  found fs a b [] apart src [],
)
mycp3_copies prog a b fs (x ∷ bytes) apart src readable writable =
    rw
      (
        ◌>>=◌,
        open_read-done fs a src.readable src.found,
        open_both-done fs b readable writable,
        found fs a b (x ∷ bytes) apart src [],
      )
      (ap
          (λ size.
            copy_mapped size (record { name = a; pos = 0 })
              (record { name = b; pos = length bytes + 1 })
              (write_bytes (put fs b []) (record { name = b; pos = length bytes }) (0 ∷ [])))
          (ap length (found fs a b (x ∷ bytes) apart src []))
        ∙ copied_over fs a b (x ∷ bytes) apart src (length bytes) refl
        ∙ sym (not_empty (length bytes) (exit 1 (put fs b [])) (done 0 (put fs b (x ∷ bytes)))))
