-- ===== src/Patchelf/Rpath/Loop.antt =====
-- The shrinking loop of `modifyRPath` keeps the directories that `keep_dirs` keeps.
use electrum_lightning_test.Base.{
  ℕ, suc, zero, ◌≤◌, ◌≡◌, refl, sym, ap, ap₂, ◌∙◌, arith, Bool, true, false, not, ◌||◌, List, [],
  ◌∷◌, ◌++◌, length, length-append, All, Bool-cases, inl, inr, if◌then◌else◌, if_lem,
}
use mathlib.Core.List.{append_assoc, append-nil}
use electrum_lightning_test.Patchelf.Dynamic.{Name, contains}
use electrum_lightning_test.Patchelf.Rpath.{
  concat_to_rpath, until_colon, skip_colon, look_for, shrink_loop, not_found, shrink,
}
use electrum_lightning_test.Patchelf.Rpath.Shrink.{
  NoColon, IsDirectory, colon_joined, join, is_absolute, file_in, has_any, missing_in, keep_dirs,
  resolve, resolve-keep_dirs,
}

-- The libraries that are not found yet.
abbrev remaining : List (Name × Bool) → List Name
remaining [] = []
remaining (lib ∷ libs) = let rest = remaining libs in if lib.1 then rest else lib.0 ∷ rest

abbrev add : Name → List Name → Name
add acc [] = acc
add acc (k ∷ ks) = add (concat_to_rpath acc k) ks

remaining-not_found : (libs : List Name) → remaining (not_found libs) ≡ libs
remaining-not_found [] = refl
remaining-not_found (lib ∷ libs) = ap (λ t. lib ∷ t) (remaining-not_found libs)

remaining-look_for :
    (exists : Name → Bool) (dir : Name) (libs : List (Name × Bool))
    → remaining (look_for exists dir libs).0 ≡ missing_in exists dir (remaining libs)
unfolding look_for
remaining-look_for exists dir [] = refl
remaining-look_for exists dir ((lib, true) ∷ libs) = remaining-look_for exists dir libs
remaining-look_for exists dir ((lib, false) ∷ libs) = elim (Bool-cases (exists (file_in dir lib))) [
  | inl here ↦ rw here (remaining-look_for exists dir libs)
  | inr elsewhere ↦ rw elsewhere (ap (λ t. lib ∷ t) (remaining-look_for exists dir libs))
]

look_for-has_any :
    (exists : Name → Bool) (dir : Name) (libs : List (Name × Bool))
    → (look_for exists dir libs).1 ≡ has_any exists dir (remaining libs)
unfolding look_for
look_for-has_any exists dir [] = refl
look_for-has_any exists dir ((lib, true) ∷ libs) = look_for-has_any exists dir libs
look_for-has_any exists dir ((lib, false) ∷ libs) =
    ap (λ t. exists (file_in dir lib) || t) (look_for-has_any exists dir libs)

until_colon-colon_joined :
    (d : Name) (ds : List Name)
    → NoColon d
    → until_colon (d ++ colon_joined ds) ≡ (d, colon_joined ds)
unfolding until_colon
until_colon-colon_joined [] [] h = refl
until_colon-colon_joined [] (d ∷ ds) h = refl
until_colon-colon_joined (c ∷ d) ds h =
    rw h.0 (ap (λ p. (c ∷ p.0, p.1)) (until_colon-colon_joined d ds h.1))

skip_colon-colon_joined : (ds : List Name) → skip_colon (colon_joined ds) ≡ join ds
skip_colon-colon_joined [] = refl
skip_colon-colon_joined (d ∷ ds) = refl

length-join : (ds : List Name) → length (join ds) ≤ length (colon_joined ds)
length-join [] = omega arith
length-join (d ∷ ds) = omega arith

module _ (exists : Name → Bool) where
  abbrev step : ℕ → Name × Name → List (Name × Bool) → Name → Bool → Name
  step fuel p libs acc absolute = elim absolute [
    | false ↦ shrink_loop exists fuel (skip_colon p.1) libs (concat_to_rpath acc p.0)
    | true ↦
        let looked = look_for exists p.0 libs in
        shrink_loop exists fuel (skip_colon p.1) looked.0
          (if looked.1 then concat_to_rpath acc p.0 else acc)
  ]

  shrink_loop-step :
      (fuel c : ℕ) (pos : Name) (p : Name × Name) (libs : List (Name × Bool)) (acc : Name)
      (b : Bool)
      → until_colon (c ∷ pos) ≡ p
      → is_absolute p.0 ≡ b
      → shrink_loop exists (suc fuel) (c ∷ pos) libs acc ≡ step fuel p libs acc b
  unfolding shrink_loop
  shrink_loop-step fuel c pos p libs acc b e h =
      ap (λ q. step fuel q libs acc (is_absolute q.0)) e ∙ ap (step fuel p libs acc) h

  add-if :
      (t : Bool) (acc d : Name) (ks : List Name)
      → add (if t then concat_to_rpath acc d else acc) ks ≡ add acc (if t then d ∷ ks else ks)
  add-if true acc d ks = refl
  add-if false acc d ks = refl

  shrink_loop-keep_dirs :
      (ds : List Name) (fuel : ℕ) (libs : List (Name × Bool)) (acc : Name)
      → All IsDirectory ds
      → length (join ds) ≤ fuel
      → shrink_loop exists fuel (join ds) libs acc ≡ add acc (keep_dirs exists (remaining libs) ds)
  unfolding shrink_loop keep_dirs
  shrink_loop-keep_dirs [] zero libs acc h enough = refl
  shrink_loop-keep_dirs [] (suc fuel) libs acc h enough = refl
  shrink_loop-keep_dirs ([] ∷ ds) fuel libs acc h enough = absurd (omega (arith, h.0.0))
  shrink_loop-keep_dirs ((c ∷ d) ∷ ds) zero libs acc h enough = absurd (omega (arith, enough))
  shrink_loop-keep_dirs ((c ∷ d) ∷ ds) (suc fuel) libs acc h enough =
      let dir = c ∷ d in
      let split = until_colon-colon_joined dir ds h.0.1 in
      let fits : length (join ds) ≤ fuel =
        omega (arith, enough, length-join ds, length-append d (colon_joined ds)) in
      elim (Bool-cases (is_absolute dir)) [
        | inr relative ↦
            shrink_loop-step fuel c (d ++ colon_joined ds) (dir, colon_joined ds) libs acc false
              split relative
            ∙ ap (λ t. shrink_loop exists fuel t libs (concat_to_rpath acc dir))
                (skip_colon-colon_joined ds)
            ∙ shrink_loop-keep_dirs ds fuel libs (concat_to_rpath acc dir) h.1 fits
            ∙ rw relative refl
        | inl absolute ↦
            shrink_loop-step fuel c (d ++ colon_joined ds) (dir, colon_joined ds) libs acc true
              split absolute
            ∙ ap
                (λ t.
                  shrink_loop exists fuel t (look_for exists dir libs).0
                    (if (look_for exists dir libs).1 then concat_to_rpath acc dir else acc))
                (skip_colon-colon_joined ds)
            ∙ shrink_loop-keep_dirs ds fuel (look_for exists dir libs).0
                (if (look_for exists dir libs).1 then concat_to_rpath acc dir else acc) h.1 fits
            ∙ add-if (look_for exists dir libs).1 acc dir
                (keep_dirs exists (remaining (look_for exists dir libs).0) ds)
            ∙ ap₂
                (λ t l. add acc (if t then dir ∷ keep_dirs exists l ds else keep_dirs exists l ds))
                (look_for-has_any exists dir libs) (remaining-look_for exists dir libs)
            ∙ rw absolute refl
      ]

add-colon_joined :
    (c : ℕ) (acc : Name) (ks : List Name) → add (c ∷ acc) ks ≡ (c ∷ acc) ++ colon_joined ks
unfolding concat_to_rpath
add-colon_joined c acc [] = sym (append-nil (c ∷ acc))
add-colon_joined c acc (k ∷ ks) =
    add-colon_joined c (acc ++ b':' ∷ k) ks ∙ append_assoc (c ∷ acc) (b':' ∷ k) (colon_joined ks)

add-join : (ks : List Name) → All IsDirectory ks → add [] ks ≡ join ks
unfolding concat_to_rpath
add-join [] h = refl
add-join ([] ∷ ks) h = absurd (omega (arith, h.0.0))
add-join ((c ∷ k) ∷ ks) h = add-colon_joined c k ks

All-keep_dirs :
    (exists : Name → Bool) (libs ds : List Name)
    → All IsDirectory ds
    → All IsDirectory (keep_dirs exists libs ds)
unfolding keep_dirs
All-keep_dirs exists libs [] h = tt
All-keep_dirs exists libs (d ∷ ds) h =
    if_lem (All IsDirectory) (not (is_absolute d) || has_any exists d libs)
      (h.0, All-keep_dirs exists (if is_absolute d then missing_in exists d libs else libs) ds h.1)
      (All-keep_dirs exists (if is_absolute d then missing_in exists d libs else libs) ds h.1)

-- On a path of directories that are not empty, the loop keeps in their order the directories that are
-- not absolute and those that have a library which no absolute directory before them has, with
-- colons between them; and every needed library is then found in the same directory as before.
pub shrink-keep_dirs :
    (exists : Name → Bool) (libs ds : List Name)
    → All IsDirectory ds
    → (shrink exists libs (join ds) ≡ join (keep_dirs exists libs ds))
      × ((lib : Name)
          → contains libs lib ≡ true
          → resolve exists lib (keep_dirs exists libs ds) ≡ resolve exists lib ds)
unfolding shrink
shrink-keep_dirs exists libs ds h = (
  shrink_loop-keep_dirs exists ds (length (join ds)) (not_found libs) [] h (omega arith)
      ∙ ap (λ l. add [] (keep_dirs exists l ds)) (remaining-not_found libs)
      ∙ add-join (keep_dirs exists libs ds) (All-keep_dirs exists libs ds h),
  λ lib known. resolve-keep_dirs exists ds libs lib known,
)
