-- ===== src/Patchelf/Section/Find.antt =====
-- What `findSection3` and the calls on top of it find.
use electrum_lightning_test.Base.{
  ℕ, suc, zero, ◌+◌, ◌-◌, ◌≤◌, ◌<◌, ◌≡◌, ◌≢◌, refl, sym, ap, ◌∙◌, ◌⊎◌, inl, inr, arith, true, false,
  List, [], ◌∷◌, Option, none, some, get_elem?, ◌==◌, Bool-cases, if◌then◌else◌,
}
use native.Mathlib.Decide.{dec_lt}
use electrum_lightning_test.Patchelf.Elf.{e_shnum}
use electrum_lightning_test.Patchelf.Result.{ok, ok-inj, fault, failed, cannot_find_section}
use electrum_lightning_test.Patchelf.File.{Elf, hdr_get}
use electrum_lightning_test.Patchelf.Section.{
  string_eq, shdr_at, name_at, find_loop, find_section3, find_section2, find_section,
}

pub string_eq_refl : (s : List ℕ) → string_eq s s ≡ true
unfolding string_eq
string_eq_refl [] = refl
string_eq_refl (c ∷ s) = ground (arith, string_eq_refl s)

pub string_eq→≡ : (s t : List ℕ) → string_eq s t ≡ true → s ≡ t
unfolding string_eq
string_eq→≡ [] [] h = refl
string_eq→≡ [] (d ∷ t) h = cc
string_eq→≡ (c ∷ s) [] h = cc
string_eq→≡ (c ∷ s) (d ∷ t) h = ground (arith, string_eq→≡ s t)

pub not_same : (s t : List ℕ) → string_eq s t ≡ false → s ≢ t
not_same s t h e = cc (h, sym (string_eq_refl s), ap (string_eq s) e)

pub shdr_at-some :
    (e : Elf) (i : ℕ) (h : List ℕ) → shdr_at e i ≡ ok h → get_elem? e.shdrs i ≡ some h
unfolding shdr_at
shdr_at-some e i h here = by_entry (get_elem? e.shdrs i) refl
  where
    by_entry : (o : Option (List ℕ)) → get_elem? e.shdrs i ≡ o → o ≡ some h
    by_entry none q = (let bad : fault ≡ ok h = sym (rw (shdr_at, q) refl) ∙ here in cc)
    by_entry (some x) q = (let same : ok x ≡ ok h = sym (rw (shdr_at, q) refl) ∙ here in cc)

-- Every section but the first has its name within the string table.
abbrev pub Named : Elf → Type 0
Named e = (i : ℕ) → 1 ≤ i → i < hdr_get e e_shnum → (n : List ℕ) × (name_at e i ≡ ok n)

-- `r` is the first of the `k` sections from `i` on that has the name, or there is none and `r` is 0.
abbrev pub First : Elf → List ℕ → (k i r : ℕ) → Type 0
First e name k i r =
    ((i ≤ r)
      × (r < i + k)
      × (name_at e r ≡ ok name)
      × ((j : ℕ) → i ≤ j → j < r → name_at e j ≢ ok name))
    ⊎ ((r ≡ 0) × ((j : ℕ) → i ≤ j → j < i + k → name_at e j ≢ ok name))

First-here : (e : Elf) (name : List ℕ) (k i : ℕ) → name_at e i ≡ ok name → First e name (suc k) i i
First-here e name k i h = inl (omega arith, omega arith, h, λ j le lt. absurd (omega arith))

First-later :
    (e : Elf) (name : List ℕ) (k i r : ℕ)
    → name_at e i ≢ ok name
    → First e name k (i + 1) r
    → First e name (suc k) i r
First-later e name k i r h (inl (le, lt, found, before)) = inl (
  omega arith,
  omega arith,
  found,
  λ j a b. elim (dec_lt i j) [
    | yes later ↦ before j (omega arith) b
    | no this ↦ λ n. h (ap (name_at e) (let same : i ≡ j = omega (arith, this) in same) ∙ n)
  ],
)
First-later e name k i r h (inr (zero_r, none_at)) = inr (
  zero_r,
  λ j a b. elim (dec_lt i j) [
    | yes later ↦ none_at j (omega arith) (omega arith)
    | no this ↦ λ n. h (ap (name_at e) (let same : i ≡ j = omega (arith, this) in same) ∙ n)
  ],
)

find_loop_found :
    (e : Elf) (name : List ℕ) (k i : ℕ) (n : List ℕ)
    → name_at e i ≡ ok n
    → string_eq n name ≡ true
    → find_loop e name (suc k) i ≡ ok i
unfolding find_loop
find_loop_found e name k i n h same =
    rw h (ap (λ b. elim b [ true ↦ ok i | false ↦ find_loop e name k (i + 1) ]) same)

find_loop_on :
    (e : Elf) (name : List ℕ) (k i : ℕ) (n : List ℕ)
    → name_at e i ≡ ok n
    → string_eq n name ≡ false
    → find_loop e name (suc k) i ≡ find_loop e name k (i + 1)
unfolding find_loop
find_loop_on e name k i n h differs =
    rw h (ap (λ b. elim b [ true ↦ ok i | false ↦ find_loop e name k (i + 1) ]) differs)

find_loop-First :
    (e : Elf) (name : List ℕ) (k i : ℕ)
    → ((j : ℕ) → i ≤ j → j < i + k → (n : List ℕ) × (name_at e j ≡ ok n))
    → (r : ℕ) × (find_loop e name k i ≡ ok r) × First e name k i r
unfolding find_loop
find_loop-First e name zero i all = (0, refl, inr (refl, λ j h h'. absurd (omega arith)))
find_loop-First e name (suc k) i all =
    let (n, here) = all i (omega arith) (omega arith) in
    let (r, found, first) =
      find_loop-First e name k (i + 1) (λ j a b. all j (omega arith) (omega arith)) in
    elim (Bool-cases (string_eq n name)) [
      | inl same ↦ (
        i,
        find_loop_found e name k i n here same,
        First-here e name k i (here ∙ ap ok (string_eq→≡ n name same)),
      )
      | inr differs ↦ (
        r,
        find_loop_on e name k i n here differs ∙ found,
        First-later e name k i r (λ h. not_same n name differs (ok-inj (sym here ∙ h))) first,
      )
    ]

-- When every section has its name in the string table, findSection3 returns the first section from 1
-- on with the name, and 0 when there is none.
pub find_section3-First :
    (e : Elf) (name : List ℕ)
    → Named e
    → (r : ℕ) × (find_section3 e name ≡ ok r) × First e name (hdr_get e e_shnum - 1) 1 r
unfolding find_section3
find_section3-First e name named =
    find_loop-First e name (hdr_get e e_shnum - 1) 1 (λ j a b. named j a (omega arith))

-- `findSection` fails exactly when there is no such section, and returns its index otherwise.
pub find_section_cases :
    (e : Elf) (name : List ℕ) (r : ℕ)
    → find_section3 e name ≡ ok r
    → find_section e name ≡ (if r == 0 then failed (cannot_find_section name) else ok r)
unfolding find_section find_section2
find_section_cases e name zero h = rw h refl
find_section_cases e name (suc r) h = ground arith
