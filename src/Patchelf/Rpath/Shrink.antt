-- ===== src/Patchelf/Rpath/Shrink.antt =====
-- What the shrinking loop of `modifyRPath` makes of a path of directories.
use electrum_lightning_test.Base.{
  ◌≤◌, ◌≡◌, refl, ap, ◌∙◌, arith, Bool, true, false, not, ◌||◌, ◌==◌, List, [], ◌∷◌, ◌++◌, length,
  get_or, All, Bool-cases, inl, inr, if◌then◌else◌, Option, none, some,
}
use electrum_lightning_test.Patchelf.Section.{string_eq}
use electrum_lightning_test.Patchelf.Section.Find.{string_eq→≡}
use electrum_lightning_test.Patchelf.Dynamic.{Name, contains}

-- A component of a path: it is not empty and has no colon.
abbrev pub NoColon : Name → Type 0
NoColon = All (λ c. (c == b':') ≡ false)

abbrev pub IsDirectory : Name → Type 0
IsDirectory d = (1 ≤ length d) × NoColon d

-- Directories with colons between them; `colon_joined` with a colon before each.
abbrev pub colon_joined : List Name → Name
colon_joined [] = []
colon_joined (d ∷ ds) = b':' ∷ (d ++ colon_joined ds)

abbrev pub join : List Name → Name
join [] = []
join (d ∷ ds) = d ++ colon_joined ds

abbrev pub is_absolute : Name → Bool
is_absolute d = get_or d 0 0 == b'/'

abbrev pub file_in : Name → Name → Name
file_in dir lib = dir ++ b'/' ∷ lib

module _ (exists : Name → Bool) where
  -- Whether a directory has one of the libraries, and the libraries that it has not.
  abbrev pub has_any : Name → List Name → Bool
  has_any dir [] = false
  has_any dir (lib ∷ libs) = exists (file_in dir lib) || has_any dir libs

  abbrev pub missing_in : Name → List Name → List Name
  missing_in dir [] = []
  missing_in dir (lib ∷ libs) =
      let rest = missing_in dir libs in if exists (file_in dir lib) then rest else lib ∷ rest

  -- The directories to keep: those that are not absolute, and those that have a library which no
  -- absolute directory before them has.
  unfoldable pub keep_dirs : List Name → List Name → List Name
  keep_dirs libs [] = []
  keep_dirs libs (d ∷ ds) =
      let rest = keep_dirs (if is_absolute d then missing_in d libs else libs) ds in
      if not (is_absolute d) || has_any d libs then d ∷ rest else rest

  -- The first directory in which a library is found.
  unfoldable pub resolve : Name → List Name → Option Name
  resolve lib [] = none
  resolve lib (d ∷ ds) = if exists (file_in d lib) then some d else resolve lib ds

  has_any-contains :
      (dir : Name) (libs : List Name) (lib : Name)
      → contains libs lib ≡ true
      → exists (file_in dir lib) ≡ true
      → has_any dir libs ≡ true
  unfolding contains
  has_any-contains dir [] lib h k = cc
  has_any-contains dir (x ∷ libs) lib h k = elim (Bool-cases (string_eq x lib)) [
    | inl same ↦ rw (ap (λ y. exists (file_in dir y)) (string_eq→≡ x lib same) ∙ k) refl
    | inr other ↦ ground (
      arith,
      has_any-contains dir libs lib (let t : contains libs lib ≡ true = ground arith in t) k,
    )
  ]

  contains-missing_in :
      (dir : Name) (libs : List Name) (lib : Name)
      → contains libs lib ≡ true
      → exists (file_in dir lib) ≡ false
      → contains (missing_in dir libs) lib ≡ true
  unfolding contains
  contains-missing_in dir [] lib h k = cc
  contains-missing_in dir (x ∷ libs) lib h k = elim (Bool-cases (string_eq x lib)) [
    | inl same ↦ rw (ap (λ y. exists (file_in dir y)) (string_eq→≡ x lib same) ∙ k) (rw same refl)
    | inr other ↦ ground (
      arith,
      contains-missing_in dir libs lib (let t : contains libs lib ≡ true = ground arith in t) k,
    )
  ]

  -- A needed library is found in the same directory as before.
  pub resolve-keep_dirs :
      (ds libs : List Name) (lib : Name)
      → contains libs lib ≡ true
      → resolve lib (keep_dirs libs ds) ≡ resolve lib ds
  unfolding resolve keep_dirs
  resolve-keep_dirs [] libs lib h = refl
  resolve-keep_dirs (d ∷ ds) libs lib h = elim (Bool-cases (exists (file_in d lib))) [
    | inl here ↦ elim (Bool-cases (is_absolute d)) [
      | inl absolute ↦ rw (absolute, has_any-contains d libs lib h here, here) refl
      | inr relative ↦ rw (relative, here) refl
    ]
    | inr elsewhere ↦ elim (Bool-cases (is_absolute d)) [
      | inr relative ↦ rw (relative, elsewhere) (resolve-keep_dirs ds libs lib h)
      | inl absolute ↦ elim (Bool-cases (has_any d libs)) [
        | inl found ↦
            rw (absolute, found, elsewhere)
              (resolve-keep_dirs ds (missing_in d libs) lib
                (contains-missing_in d libs lib h elsewhere))
        | inr none_found ↦
            rw (absolute, none_found, elsewhere)
              (resolve-keep_dirs ds (missing_in d libs) lib
                (contains-missing_in d libs lib h elsewhere))
      ]
    ]
  ]
