-- ===== src/Directories/Walk/Laws.antt =====
-- mylsr.c: what `Doit` prints, and exactly when it returns.
use linux_system_programming.Prelude.{
  ℕ, ◌≡◌, ◌↔◌, ◌<◌, refl, ap, Bool, true, false, List, [], ◌∷◌, ◌++◌, length, append_assoc,
  append-nil, Bool-cases, inl, inr, sym, subst, lt→ltb, ltb→lt, ◌∙◌, arith, ltb, if◌then◌else◌,
}
use linux_system_programming.Directories.Walk.{
  Node, file, unknown, directory, Entries, end, entry, Walked, done, stopped, undefined, ◌>>=◌,
  is_dots, names, full_path, max_path, visit, descend, doit,
}

abbrev pub all_names : Entries → List (List ℕ)
all_names end = []
all_names (entry name node more) = name ∷ all_names more

abbrev pub without_dots : List (List ℕ) → List (List ℕ)
without_dots [] = []
without_dots (name ∷ more) =
    let rest = without_dots more in if is_dots name then rest else name ∷ rest

names-without_dots : (entries : Entries) → names entries ≡ without_dots (all_names entries)
names-without_dots end = refl
names-without_dots (entry name node more) =
    ap (λ rest. if is_dots name then rest else name ∷ rest) (names-without_dots more)

-- An independent description: the path of each directory with the names in it, a directory before those
-- below it, and neither "." nor ".." among them.
mutual
  pub below : List ℕ → Node → List (List ℕ)
  below path file = []
  below path unknown = []
  below path (directory opens entries) =
      path ∷ (without_dots (all_names entries) ++ below_all path entries)

  pub below_all : List ℕ → Entries → List (List ℕ)
  below_all path end = []
  below_all path (entry name node more) =
      let rest = below_all path more in
      let here = below (full_path path name) node in if is_dots name then rest else here ++ rest

-- Every directory can be opened, `lstat` knows every name, and every path is shorter than the array.
mutual
  pub IsWalkable : List ℕ → Node → Type 0
  IsWalkable path file = Unit
  IsWalkable path unknown = ⊥
  IsWalkable path (directory opens entries) = (opens ≡ true) × AreWalkable path entries

  pub AreWalkable : List ℕ → Entries → Type 0
  AreWalkable path end = Unit
  AreWalkable path (entry name node more) =
      (if is_dots name
        then Unit
        else ((length (full_path path name) < max_path) × IsWalkable (full_path path name) node))
      × AreWalkable path more

-- What the description asks of a round.
abbrev RoundOk : List ℕ → List ℕ → Node → Bool → Type 0
RoundOk path name node dots =
    if dots
    then Unit
    else ((length (full_path path name) < max_path) × IsWalkable (full_path path name) node)

plain_entry :
    (path name : List ℕ) (node : Node)
    → is_dots name ≡ false
    → RoundOk path name node (is_dots name)
    → (length (full_path path name) < max_path) × IsWalkable (full_path path name) node
plain_entry path name node plain ok = subst (RoundOk path name node) plain ok

mutual
  unfolding visit below IsWalkable

  visit-below :
      (node : Node) (path : List ℕ) (out : List (List ℕ))
      → IsWalkable path node
      → visit path node out ≡ done (out ++ below path node)
  visit-below file path out w = ap done (sym (append-nil out))
  visit-below unknown path out w = absurd w
  visit-below (directory false entries) path out w = absurd (ground (arith, w))
  visit-below (directory true entries) path out w =
      descend-below entries path (out ++ (path ∷ names entries)) w.1
      ∙ ap done (
          append_assoc out (path ∷ names entries) (below_all path entries)
          ∙ ap (λ ns. out ++ (path ∷ (ns ++ below_all path entries))) (names-without_dots entries))

  descend-below :
      (entries : Entries) (path : List ℕ) (out : List (List ℕ))
      → AreWalkable path entries
      → descend path entries out ≡ done (out ++ below_all path entries)
  descend-below end path out w = ap done (sym (append-nil out))
  descend-below (entry name node more) path out w = elim (Bool-cases (is_dots name)) [
    | inl dots ↦ rw (dots) (descend-below more path out w.1)
    | inr plain ↦
        let ok = plain_entry path name node plain w.0 in
        rw
          (
            plain,
            lt→ltb (length (full_path path name)) max_path ok.0,
            visit-below node (full_path path name) out ok.1,
          )
          (descend-below more path (out ++ below (full_path path name) node) w.1
            ∙ ap done (append_assoc out (below (full_path path name) node) (below_all path more)))
  ]

got :
    (r : Walked) (f : List (List ℕ) → Walked) (o : List (List ℕ))
    → (r >>= f) ≡ done o
    → (out : List (List ℕ)) × (r ≡ done out) × (f out ≡ done o)
got (done out) f o e = (out, refl, e)
got (stopped out) f o e = absurd (ground arith)
got undefined f o e = absurd (ground arith)

done-injective : {o p : List (List ℕ)} → done o ≡ done p → o ≡ p
done-injective e = ground (arith, e)

-- What a round comes to, by the two tests in it.
module _ (path name : List ℕ) (node : Node) (more : Entries) (out o : List (List ℕ)) where
  abbrev after : Bool → Bool → Walked
  after dots fits =
      if dots
      then descend path more out
      else (if fits
          then visit (full_path path name) node out >>= (λ out'. descend path more out')
          else undefined)

  abbrev Returns : Type 0
  Returns = descend path (entry name node more) out ≡ done o

  round_of : is_dots name ≡ true → Returns → descend path more out ≡ done o
  unfolding visit
  round_of dots e =
      subst (λ b. after b (ltb (length (full_path path name)) max_path) ≡ done o) dots e

  fitting :
      is_dots name ≡ false
      → ltb (length (full_path path name)) max_path ≡ true
      → Returns
      → (visit (full_path path name) node out >>= (λ out'. descend path more out')) ≡ done o
  unfolding visit
  fitting plain fits e =
      subst (λ b. after false b ≡ done o) fits
        (subst (λ b. after b (ltb (length (full_path path name)) max_path) ≡ done o) plain e)

  too_long :
      is_dots name ≡ false → ltb (length (full_path path name)) max_path ≡ false → Returns → ⊥
  unfolding visit
  too_long plain long e = ground (arith, e, plain, long)

mutual
  unfolding visit IsWalkable

  visit-IsWalkable :
      (node : Node) (path : List ℕ) (out o : List (List ℕ))
      → visit path node out ≡ done o
      → IsWalkable path node
  visit-IsWalkable file path out o e = tt
  visit-IsWalkable unknown path out o e = absurd (ground arith)
  visit-IsWalkable (directory false entries) path out o e = absurd (ground arith)
  visit-IsWalkable (directory true entries) path out o e =
      (refl, descend-AreWalkable entries path (out ++ (path ∷ names entries)) o e)

  descend-AreWalkable :
      (entries : Entries) (path : List ℕ) (out o : List (List ℕ))
      → descend path entries out ≡ done o
      → AreWalkable path entries
  descend-AreWalkable end path out o e = tt
  descend-AreWalkable (entry name node more) path out o e = elim (Bool-cases (is_dots name)) [
    | inl dots ↦ (
      subst (RoundOk path name node) (sym dots) tt,
      descend-AreWalkable more path out o (round_of path name node more out o dots e),
    )
    | inr plain ↦ elim (Bool-cases (ltb (length (full_path path name)) max_path)) [
      | inl fits ↦
          let (out', visited, rest) =
            got (visit (full_path path name) node out) (λ out'. descend path more out') o
              (fitting path name node more out o plain fits e) in
          (
            subst (RoundOk path name node) (sym plain) (
              ltb→lt (length (full_path path name)) max_path fits,
              visit-IsWalkable node (full_path path name) out out' visited,
            ),
            descend-AreWalkable more path out' o rest,
          )
      | inr long ↦ absurd (too_long path name node more out o plain long e)
    ]
  ]

-- `Doit` of a directory returns exactly when everything below it can be opened, is known to `lstat` and has
-- a path that fits into the array; and then it has printed what is described.
pub doit_below :
    (path : List ℕ) (opens : Bool) (entries : Entries) (out o : List (List ℕ))
    → (doit path (directory opens entries) out ≡ done o) ↔ (
        IsWalkable path (directory opens entries)
        × (o ≡ out ++ below path (directory opens entries)))
doit_below path opens entries out o = (
  (λ e.
      let w = visit-IsWalkable (directory opens entries) path out o e in
      (w, done-injective (sym e ∙ visit-below (directory opens entries) path out w))),
  (λ both. visit-below (directory opens entries) path out both.0 ∙ ap done (sym both.1)),
)
