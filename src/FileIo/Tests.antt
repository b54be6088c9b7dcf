-- ===== src/FileIo/Tests.antt =====
-- The programs of "1_File IO" on a small disk.
use linux_system_programming.Prelude.{
  ℕ, length, ◌==◌, if◌then◌else◌, ◌≡◌, ◌≢◌, refl, true, false, none, some, [], ◌∷◌, arith,
}
use text.Mathlib.TextEquality.{eq_iff}
use linux_system_programming.Prelude.Text.{String, put_name}
use linux_system_programming.FileIo.{Fs, done, exit, put, mycp, merge, split}
use linux_system_programming.FileIo.Programs.{IsFile, mycp_copies}
use linux_system_programming.FileIo.Mapped.{mycp3, mycp3_copies}
use linux_system_programming.FileIo.Halves.{merge-split}

-- Two files, "a" and "b"; "locked" may not be written.
abbrev disk : Fs
disk = record {
  file = put_name (put_name (λ q. none) "a" (some (1 ∷ 2 ∷ 3 ∷ []))) "b" (some (9 ∷ []));
  readable = λ q. true;
  writable = λ q. put_name (λ p. true) "locked" false q;
}

a≢b : ◌≢◌ {A = String} "a" "b"
a≢b e = cc ((eq_iff "a" "b").1 e)

a≢c : ◌≢◌ {A = String} "a" "c"
a≢c e = cc ((eq_iff "a" "c").1 e)

b≢c : ◌≢◌ {A = String} "b" "c"
b≢c e = cc ((eq_iff "b" "c").1 e)

c≢a : ◌≢◌ {A = String} "c" "a"
c≢a e = cc ((eq_iff "c" "a").1 e)

b≢a : ◌≢◌ {A = String} "b" "a"
b≢a e = cc ((eq_iff "b" "a").1 e)

a-IsFile : IsFile disk "a" (1 ∷ 2 ∷ 3 ∷ [])
a-IsFile = record { readable = refl; found = refl }

b-IsFile : IsFile disk "b" (9 ∷ [])
b-IsFile = record { readable = refl; found = refl }

mycp_copies_example :
    mycp 4 (0 ∷ []) ("mycp" ∷ "a" ∷ "b" ∷ []) disk ≡ done 0 (put disk "b" (1 ∷ 2 ∷ 3 ∷ []))
mycp_copies_example =
    mycp_copies 4 (0 ∷ []) "mycp" "a" "b" disk (1 ∷ 2 ∷ 3 ∷ []) a≢b a-IsFile refl (omega arith)

merge-split_example :
    (split 4 [] ("split" ∷ "a" ∷ "b" ∷ "c" ∷ []) disk
      ≡ done 0 (put (put disk "b" (1 ∷ [])) "c" (2 ∷ 3 ∷ [])))
    × (merge 4 [] ("merge" ∷ "b" ∷ "c" ∷ "a" ∷ []) (put (put disk "b" (1 ∷ [])) "c" (2 ∷ 3 ∷ []))
        ≡ done 0 (put (put (put disk "b" (1 ∷ [])) "c" (2 ∷ 3 ∷ [])) "a" (1 ∷ 2 ∷ 3 ∷ [])))
merge-split_example =
    merge-split 4 [] [] "split" "merge" "a" "b" "c" "a" disk (1 ∷ 2 ∷ 3 ∷ []) a≢b a≢c b≢c b≢a c≢a
      a-IsFile (refl, refl, refl) (refl, refl) (omega arith)

mycp3_copies_example : mycp3 ("mycp3" ∷ "a" ∷ "b" ∷ []) disk ≡ (
    if length {A = ℕ} (1 ∷ 2 ∷ 3 ∷ []) == 0
    then exit 1 (put disk "b" [])
    else done 0 (put disk "b" (1 ∷ 2 ∷ 3 ∷ [])))
mycp3_copies_example = mycp3_copies "mycp3" "a" "b" disk (1 ∷ 2 ∷ 3 ∷ []) a≢b a-IsFile refl refl
