-- ===== src/Files/Archive.antt =====
-- Archives and files of dbt_common/clients/system.py. The state of the file system, and what the
-- libraries do to it, are parameters.
use dbt_common.Common.{
  sym, ap, ap₂, ◌∙◌, drop, arith, Bool, true, false, ◌&&◌, not, Option, none, some, List, [], ◌∷◌,
  ◌≡◌, refl, Text, if◌then◌else◌, ◌==◌, All, ◌⊎◌, Bool-cases, Option-cases, inl, inr,
}

-- An archive by the names of its members; whether Python has the filters of tarfile.
pub record Tarball : Type 0 where
  pub getmembers : List Text
  pub has_data_filter : Bool

abbrev pub text_eq : Text → Text → Bool
text_eq [] [] = true
text_eq (a ∷ as') (b ∷ bs) = a == b && text_eq as' bs
text_eq _ _ = false

pub data ArchiveFault (F : Type 0) : Type 0 where
  outside_destination : (member path : Text) → ArchiveFault F
  -- what the library raised
  library_fault : F → ArchiveFault F

-- `os.path` and `extractall`: with the filter for data, or of the members as they are.
pub record ArchiveLibrary (S F : Type 0) : Type 0 where
  pub abspath : Text → Text
  pub join : Text → Text → Text
  -- none where `commonpath` raises a ValueError
  pub commonpath : Text → Text → Option Text
  pub extractall_filtered : Text → Tarball → S → Option F × S
  pub extractall : Text → List Text → S → Option F × S

module _ {S F : Type 0} (os : ArchiveLibrary S F) where
  abbrev is_prefix : Text → Option Text → Bool
  is_prefix abs_directory none = false
  is_prefix abs_directory (some prefix) = text_eq prefix abs_directory

  -- `_is_within_directory`
  is_within_directory : Text → Text → Bool
  is_within_directory directory target =
      is_prefix (os.abspath directory) (os.commonpath (os.abspath directory) (os.abspath target))

  -- The loop over the members: the first of them that would come to lie outside.
  unfoldable first_outside : Text → List Text → Option Text
  unfolding is_within_directory
  first_outside path [] = none
  first_outside path (member ∷ members) =
      if not (is_within_directory path (os.join path member))
      then some member
      else first_outside path members

  abbrev library_result : Option F × S → Option (ArchiveFault F) × S
  library_result (none, s) = (none, s)
  library_result (some f, s) = (some (library_fault f), s)

  -- `safe_extract`: what it raises, if anything, and the file system behind it.
  pub safe_extract : Tarball → Text → S → Option (ArchiveFault F) × S
  unfolding first_outside
  safe_extract tarball path s =
      if tarball.has_data_filter
      then library_result (os.extractall_filtered path tarball s)
      else elim (first_outside path tarball.getmembers) [
        | some member ↦ (some (outside_destination member path), s)
        | none ↦ library_result (os.extractall path tarball.getmembers s)
      ]

-- Whether a path lies in a directory, by the names that they have: those of the directory come first.
abbrev names_within : List Text → List Text → Bool
names_within [] bs = true
names_within (a ∷ as') [] = false
names_within (a ∷ as') (b ∷ bs) = text_eq a b && names_within as' bs

-- The names that two paths have in common at the start.
abbrev pub common_names : List Text → List Text → List Text
common_names [] bs = []
common_names (a ∷ as') [] = []
common_names (a ∷ as') (b ∷ bs) = if text_eq a b then a ∷ common_names as' bs else []

both_true : (a b : Bool) → (a && b) ≡ true → (a ≡ true) × (b ≡ true)
both_true true true e = (refl, refl)
both_true true false e = cc
both_true false b e = cc

text_eq-same : (a b : Text) → text_eq a b ≡ true → a ≡ b
text_eq-same [] [] e = refl
text_eq-same [] (b ∷ bs) e = cc e
text_eq-same (a ∷ as') [] e = cc e
text_eq-same (a ∷ as') (b ∷ bs) e =
    let (h, t) = both_true (a == b) (text_eq as' bs) e in
    let h' : a ≡ b = ground (arith, h) in ap₂ (λ c cs. c ∷ cs) h' (text_eq-same as' bs t)

text_eq-itself : (a : Text) → text_eq a a ≡ true
text_eq-itself [] = refl
text_eq-itself (a ∷ as') =
    let same : (a == a) ≡ true = ground arith in rw (same, text_eq-itself as') refl

common_names-within : (xs ys : List Text) → names_within xs ys ≡ true → common_names xs ys ≡ xs
common_names-within [] ys e = refl
common_names-within (x ∷ xs) [] e = cc e
common_names-within (x ∷ xs) (y ∷ ys) e =
    let (h, t) = both_true (text_eq x y) (names_within xs ys) e in
    rw h (ap (λ l. x ∷ l) (common_names-within xs ys t))

within-common_names : (xs ys : List Text) → common_names xs ys ≡ xs → names_within xs ys ≡ true
within-common_names [] ys e = refl
within-common_names (x ∷ xs) [] e = cc e
within-common_names (x ∷ xs) (y ∷ ys) e = elim (Bool-cases (text_eq x y)) [
  | inl same ↦ rw same (within-common_names xs ys (ap (drop 1) (rw same at e)))
  | inr other ↦ cc (rw other at e)
]

module _ {S F : Type 0} (os : ArchiveLibrary S F) (names : Text → List Text) where
  -- What Python documents of `os.path` for the names of a path, that is its parts: `commonpath` gives
  -- the path of the names in common, and raises where there are none, and the names of an absolute
  -- path tell which path it is.
  pub record IsDocumented : Type 0 where
    pub common :
        (d t p : Text)
        → os.commonpath (os.abspath d) (os.abspath t) ≡ some p
        → names p ≡ common_names (names (os.abspath d)) (names (os.abspath t))
    pub nothing_common :
        (d t : Text)
        → os.commonpath (os.abspath d) (os.abspath t) ≡ none
        → names_within (names (os.abspath d)) (names (os.abspath t)) ≡ false
    pub by_names :
        (d t p : Text)
        → os.commonpath (os.abspath d) (os.abspath t) ≡ some p
        → names p ≡ names (os.abspath d)
        → p ≡ os.abspath d

  -- A member of an archive comes to lie in a directory.
  abbrev lies_in : Text → Text → Bool
  lies_in path member =
      names_within (names (os.abspath path)) (names (os.abspath (os.join path member)))

  is_within_directory-names :
      IsDocumented
      → (d t : Text)
      → is_within_directory os d t ≡ names_within (names (os.abspath d)) (names (os.abspath t))
  unfolding is_within_directory
  is_within_directory-names l d t =
      elim (Option-cases (os.commonpath (os.abspath d) (os.abspath t))) [
        | inl raised ↦ rw (is_within_directory, raised) (sym (l.nothing_common d t raised))
        | inr (p, e) ↦ rw (is_within_directory, e) (same_test d t p e)
      ]
    where
      same_test :
          (d t p : Text)
          → os.commonpath (os.abspath d) (os.abspath t) ≡ some p
          → text_eq p (os.abspath d) ≡ names_within (names (os.abspath d)) (names (os.abspath t))
      same_test d t p e =
          let xs : List Text = names (os.abspath d) in
          let ys : List Text = names (os.abspath t) in
          elim (Bool-cases (names_within xs ys)) [
            | inl is ↦
                let whole : p ≡ os.abspath d =
                  l.by_names d t p e (l.common d t p e ∙ common_names-within xs ys is) in
                rw (is, whole) (text_eq-itself (os.abspath d))
            | inr is_not ↦ elim (Bool-cases (text_eq p (os.abspath d))) [
              | inl same ↦
                  let whole : p ≡ os.abspath d = text_eq-same p (os.abspath d) same in
                  let is : names_within xs ys ≡ true =
                    within-common_names xs ys (sym (l.common d t p e) ∙ ap names whole) in
                  same ∙ sym is
              | inr other ↦ other ∙ sym is_not
            ]
          ]

  -- Every member comes to lie in the directory.
  abbrev AreWithin : Text → List Text → Type 0
  AreWithin path members = All (λ member. lies_in path member ≡ true) members

  first_outside-none :
      IsDocumented
      → (path : Text) (members : List Text) → first_outside os path members ≡ none
      → AreWithin path members
  unfolding first_outside
  first_outside-none l path [] e = tt
  first_outside-none l path (member ∷ members) e =
      let q = is_within_directory-names l path (os.join path member) in
      elim (Bool-cases (is_within_directory os path (os.join path member))) [
        | inl within ↦
            (sym q ∙ within, first_outside-none l path members (rw (within, first_outside) at e))
        | inr outside ↦ cc (rw (outside, first_outside) at e)
      ]

  -- Members that come to lie in the directory, up to the first one that does not.
  abbrev FirstOutside : Text → Text → List Text → Type 0
  FirstOutside path member [] = ⊥
  FirstOutside path member (m ∷ ms) =
      ((m ≡ member) × (lies_in path m ≡ false))
      ⊎ ((lies_in path m ≡ true) × FirstOutside path member ms)

  first_outside-some :
      IsDocumented
      → (path member : Text) (members : List Text) → first_outside os path members ≡ some member
      → FirstOutside path member members
  unfolding first_outside
  first_outside-some l path member [] e = cc
  first_outside-some l path member (m ∷ ms) e =
      let q = is_within_directory-names l path (os.join path m) in
      elim (Bool-cases (is_within_directory os path (os.join path m))) [
        | inl within ↦
            inr (
              sym q ∙ within,
              first_outside-some l path member ms (rw (within, first_outside) at e),
            )
        | inr outside ↦ inl (cc (rw (outside, first_outside) at e), sym q ∙ outside)
      ]

  -- What an extraction without the library's filter does: it extracts, if all members come to lie in the directory, or it changes nothing.
  abbrev pub Extracts : Tarball → Text → S → Option (ArchiveFault F) × S → Type 0
  Extracts tarball path s result =
      (AreWithin path tarball.getmembers
        × (result ≡ library_result os (os.extractall path tarball.getmembers s)))
      ⊎ ((member : Text) × FirstOutside path member tarball.getmembers
          × (result ≡ (some (outside_destination member path), s)))

  -- Where tarfile has no filters, and `os.path` does what is documented, safe_extract extracts the members only if the absolute path of each starts with the names of the directory's absolute path; else it raises an error for the first member that does not, and leaves the file system as it is.
  pub safe_extract-Extracts :
      IsDocumented
      → (tarball : Tarball) (path : Text) (s : S) → tarball.has_data_filter ≡ false
      → Extracts tarball path s (safe_extract os tarball path s)
  unfolding safe_extract
  safe_extract-Extracts l tarball path s old =
      elim (Option-cases (first_outside os path tarball.getmembers)) [
        | inl none_outside ↦ inl (
          first_outside-none l path tarball.getmembers none_outside,
          rw (old, none_outside, safe_extract) refl,
        )
        | inr (member, e) ↦ inr (
          member,
          first_outside-some l path member tarball.getmembers e,
          rw (old, e, safe_extract) refl,
        )
      ]
