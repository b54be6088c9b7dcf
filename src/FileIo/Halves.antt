-- ===== src/FileIo/Halves.antt =====
-- merge.c and split.c, and that merging undoes splitting.
use linux_system_programming.Prelude.{
  ℕ, ◌+◌, ◌/◌, ◌<◌, ◌≡◌, ◌≢◌, refl, ap, ap₂, length-take, length-drop, ◌∙◌, sym, some, List, [],
  ◌∷◌, ◌++◌, length, take, drop, arith, true, take-append-drop,
}
use linux_system_programming.Prelude.Text.{String, put_name_self, put_name_ne}
use linux_system_programming.FileIo.{
  Fs, Handle, Copy, contents, contents_of, put, done, merge, split, ◌>>=◌, fread_loop, half_loop,
  max_buf, filesize,
}
use linux_system_programming.FileIo.Files.{
  open_read-done, open_write-done, put-put, put_comm, contents-put_ne,
}
use linux_system_programming.FileIo.Loops.{left, Appended, fread-Appends, half-Appends}
use linux_system_programming.FileIo.Programs.{IsFile}

abbrev opened : String → Handle
opened p = record { name = p; pos = 0 }

-- The file at `p` as read through a handle just opened, while `dest` is written.
left-opened :
    (fs : Fs) (p dest : String) (old bytes : List ℕ)
    → p ≢ dest
    → IsFile fs p bytes
    → left (put fs dest old) (opened p) ≡ bytes
left-opened fs p dest old bytes ne file =
    contents-put_ne fs dest p old (λ e. ne (sym e)) ∙ ap contents_of file.found

put-IsFile :
    (fs : Fs) (p q : String) (bytes other : List ℕ)
    → p ≢ q
    → IsFile fs p bytes
    → IsFile (put fs q other) p bytes
put-IsFile fs p q bytes other ne file = record {
  readable = file.readable;
  found = put_name_ne fs.file q p (some other) (λ e. ne (sym e)) ∙ file.found;
}

module _ (fuel : ℕ) (buf : List ℕ) (a b dest : String) (fs : Fs) (xs ys : List ℕ)
    (a≢dest : a ≢ dest) (b≢dest : b ≢ dest) (first : IsFile fs a xs) (second : IsFile fs b ys) where
  abbrev both : Copy
  both = record { buf = buf; src = opened a; dst = opened dest }

  merge_first :
      length xs < fuel
      → Appended both (put fs dest []) [] xs (fread_loop fuel max_buf both (put fs dest []))
  merge_first enough =
      fread-Appends fuel max_buf both (put fs dest []) [] xs (omega arith)
        (record { apart = a≢dest; found = put_name_self fs.file dest (some []); at_end = refl })
        (left-opened fs a dest [] xs a≢dest first) enough

  merge_second :
      (last : Copy)
      → last.dst.name ≡ dest
      → last.dst.pos ≡ length xs
      → length ys < fuel
      → Appended
          (record last { src = opened b })
          (put fs dest xs)
          xs
          ys
          (fread_loop fuel max_buf (record last { src = opened b }) (put fs dest xs))
  merge_second last name pos enough =
      fread-Appends fuel max_buf (record last { src = opened b }) (put fs dest xs) xs ys
        (omega arith)
        (record {
          apart = λ e. b≢dest (e ∙ name);
          found = ap (put fs dest xs).file name ∙ put_name_self fs.file dest (some xs);
          at_end = pos;
        })
        (left-opened fs b dest xs ys b≢dest second) enough

-- merge.c: the output holds the bytes of the first file and then those of the second one.
pub merge_concatenates :
    (fuel : ℕ) (buf : List ℕ) (prog a b dest : String) (fs : Fs) (xs ys : List ℕ)
    → a ≢ dest
    → b ≢ dest
    → IsFile fs a xs
    → IsFile fs b ys
    → fs.writable dest ≡ true
    → length xs < fuel
    → length ys < fuel
    → merge fuel buf (prog ∷ a ∷ b ∷ dest ∷ []) fs ≡ done 0 (put fs dest (xs ++ ys))
unfolding merge
merge_concatenates fuel buf prog a b dest fs xs ys a≢dest b≢dest first second out enough_xs
      enough_ys =
    rw (
      ◌>>=◌,
      open_read-done fs a first.readable first.found,
      open_read-done fs b second.readable second.found,
      open_write-done fs dest out,
      one.ends,
      put-put fs dest [] xs,
      two.ends,
      one.same_dst,
      put-put fs dest xs,
    )
  where
    one :
        Appended
          (both fuel buf a b dest fs xs ys a≢dest b≢dest first second)
          (put fs dest [])
          []
          xs
          (fread_loop fuel max_buf
            (both fuel buf a b dest fs xs ys a≢dest b≢dest first second)
            (put fs dest []))
    one = merge_first fuel buf a b dest fs xs ys a≢dest b≢dest first second enough_xs

    two :
        Appended
          (record one.last { src = opened b })
          (put fs dest xs)
          xs
          ys
          (fread_loop fuel max_buf (record one.last { src = opened b }) (put fs dest xs))
    two =
        merge_second fuel buf a b dest fs xs ys a≢dest b≢dest first second one.last one.same_dst
          one.pos_dst enough_ys

module _ (fuel : ℕ) (buf : List ℕ) (source dst1 dst2 : String) (fs : Fs) (bytes : List ℕ)
    (source≢dst1 : source ≢ dst1) (source≢dst2 : source ≢ dst2) (dst1≢dst2 : dst1 ≢ dst2)
    (file : IsFile fs source bytes) where
  abbrev half : ℕ
  half = length bytes / 2

  abbrev emptied : Fs
  emptied = put (put fs dst1 []) dst2 []

  abbrev halved : Fs
  halved = put emptied dst1 (take half bytes)

  emptied-IsFile : IsFile emptied source bytes
  emptied-IsFile =
      put-IsFile (put fs dst1 []) source dst2 bytes [] source≢dst2
        (put-IsFile fs source dst1 bytes [] source≢dst1 file)

  split_sizes : filesize (opened source) emptied ≡ (length bytes, opened source)
  unfolding filesize
  split_sizes = ap (λ (n : ℕ). (n, opened source)) (ap length (ap contents_of emptied-IsFile.found))

  abbrev lower : Copy
  lower = record { buf = buf; src = opened source; dst = opened dst1 }

  split_first :
      length bytes < fuel
      → Appended lower emptied [] (take half bytes) (half_loop fuel half lower emptied)
  split_first enough =
      half-Appends fuel half lower emptied [] bytes
        (record {
          apart = source≢dst1;
          found =
              put_name_ne (put fs dst1 []).file dst2 dst1 (some []) (λ e. dst1≢dst2 (sym e))
              ∙ put_name_self fs.file dst1 (some []);
          at_end = refl;
        })
        (ap contents_of emptied-IsFile.found) (omega arith) (omega arith)

  split_second :
      (last : Copy)
      → last.src.name ≡ source
      → last.src.pos ≡ 0 + length (take half bytes)
      → length bytes < fuel
      → Appended
          (record last { dst = opened dst2 })
          halved
          []
          (drop half bytes)
          (fread_loop fuel max_buf (record last { dst = opened dst2 }) halved)
  split_second last name pos enough =
      fread-Appends fuel max_buf (record last { dst = opened dst2 }) halved [] (drop half bytes)
        (omega arith)
        (record {
          apart = λ e. source≢dst2 (sym name ∙ e);
          found =
              put_name_ne emptied.file dst1 dst2 (some (take half bytes)) dst1≢dst2
              ∙ put_name_self (put fs dst1 []).file dst2 (some []);
          at_end = refl;
        })
        (ap₂ (λ n p. drop n (contents halved p)) place name
          ∙ ap (λ f. drop half (contents_of f)) halved-IsFile.found)
        (omega (arith, length-drop half bytes))
    where
      place : last.src.pos ≡ half
      place = omega (arith, pos, length-take half bytes)

      halved-IsFile : IsFile halved source bytes
      halved-IsFile =
          put-IsFile emptied source dst1 bytes (take half bytes) source≢dst1 emptied-IsFile

  split_files :
      put halved dst2 (drop half bytes) ≡ put (put fs dst1 (take half bytes)) dst2 (drop half bytes)
  split_files =
      ap (λ (f : Fs). put f dst2 (drop half bytes))
        (put_comm (put fs dst1 []) dst2 dst1 [] (take half bytes) (λ e. dst1≢dst2 (sym e))
          ∙ ap (λ (f : Fs). put f dst2 []) (put-put fs dst1 [] (take half bytes)))
      ∙ put-put (put fs dst1 (take half bytes)) dst2 [] (drop half bytes)

  -- split.c: the first output holds the first half of the file, rounded down, and the second output
  -- the rest; no other file is changed.
  pub split_halves :
      (prog : String)
      → fs.writable dst1 ≡ true
      → fs.writable dst2 ≡ true
      → length bytes < fuel
      → split fuel buf (prog ∷ source ∷ dst1 ∷ dst2 ∷ []) fs
        ≡ done 0 (put (put fs dst1 (take half bytes)) dst2 (drop half bytes))
  unfolding split
  split_halves prog out1 out2 enough = rw (
    ◌>>=◌,
    open_read-done fs source file.readable file.found,
    open_write-done fs dst1 out1,
    open_write-done (put fs dst1 []) dst2 out2,
    split_sizes,
    one.ends,
    (split_second one.last one.same_src one.pos_src enough).ends,
    split_files,
  )
    where
      one : Appended lower emptied [] (take half bytes) (half_loop fuel half lower emptied)
      one = split_first enough

-- Merging the two halves that split.c made gives the file back, in `dest`, which may be the file
-- itself: split.c and then merge.c both exit with 0, and `dest` holds the bytes.
pub merge-split :
    (fuel : ℕ) (buf buf' : List ℕ) (prog prog' source dst1 dst2 dest : String) (fs : Fs)
    (bytes : List ℕ)
    → source ≢ dst1
    → source ≢ dst2
    → dst1 ≢ dst2
    → dst1 ≢ dest
    → dst2 ≢ dest
    → IsFile fs source bytes
    → (fs.writable dst1 ≡ true) × (fs.writable dst2 ≡ true) × (fs.writable dest ≡ true)
    → (fs.readable dst1 ≡ true) × (fs.readable dst2 ≡ true)
    → length bytes < fuel
    → let lower : List ℕ = take (length bytes / 2) bytes in
      let upper : List ℕ = drop (length bytes / 2) bytes in
      let halves : Fs = put (put fs dst1 lower) dst2 upper in
      (split fuel buf (prog ∷ source ∷ dst1 ∷ dst2 ∷ []) fs ≡ done 0 halves)
      × (merge fuel buf' (prog' ∷ dst1 ∷ dst2 ∷ dest ∷ []) halves ≡ done 0 (put halves dest bytes))
merge-split fuel buf buf' prog prog' source dst1 dst2 dest fs bytes s≢1 s≢2 1≢2 1≢d 2≢d file w r
      enough =
    (
      split_halves fuel buf source dst1 dst2 fs bytes s≢1 s≢2 1≢2 file prog w.0 w.1 enough,
      merge_concatenates fuel buf' prog' dst1 dst2 dest after lower_bytes upper_bytes 1≢d 2≢d first
            second w.2 (omega (arith, length-take (length bytes / 2) bytes))
            (omega (arith, length-drop (length bytes / 2) bytes))
          ∙ ap (λ (xs : List ℕ). done 0 (put after dest xs))
              (take-append-drop (length bytes / 2) bytes),
    )
  where
    lower_bytes : List ℕ
    lower_bytes = take (length bytes / 2) bytes

    upper_bytes : List ℕ
    upper_bytes = drop (length bytes / 2) bytes

    after : Fs
    after = put (put fs dst1 lower_bytes) dst2 upper_bytes

    first : IsFile after dst1 lower_bytes
    first =
        put-IsFile (put fs dst1 lower_bytes) dst1 dst2 lower_bytes upper_bytes 1≢2
          (record { readable = r.0; found = put_name_self fs.file dst1 (some lower_bytes) })

    second : IsFile after dst2 upper_bytes
    second = record {
      readable = r.1;
      found = put_name_self (put fs dst1 lower_bytes).file dst2 (some upper_bytes);
    }
