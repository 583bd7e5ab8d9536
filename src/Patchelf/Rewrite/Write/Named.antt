-- ===== src/Patchelf/Rewrite/Write/Named.antt =====
-- A change of section headers and contents that keeps the names keeps where sections are found.
use electrum_lightning_test.Base.{
  ℕ, suc, zero, ◌+◌, ◌-◌, ◌≡◌, ◌≢◌, refl, sym, ap, ◌∙◌, ◌⊎◌, inl, inr, arith, ◌==◌, leb, true,
  false, Bool-cases, List, length, set, get_elem?, Option, none, some, drop, if◌then◌else◌,
}
use mathlib.Core.Path.{subst}
use native.Mathlib.Decide.{ℕ_discrete}
use electrum_lightning_test.Base.Table.{get_elem?-set, get_elem?-set_ne, get_elem?-lt}
use electrum_lightning_test.Patchelf.Elf.{e_shnum}
use electrum_lightning_test.Patchelf.Result.{
  Result, ok, fault, failed, cannot_find_section, ◌>>=◌, >>=-eq-ok, elim_true, elim_false,
}
use electrum_lightning_test.Patchelf.File.{Elf, hdr_get}
use electrum_lightning_test.Patchelf.Section.{
  string_eq, until_nul, shdr_at, get_section_name, name_at, find_loop, find_section3, find_section2,
  find_section,
}
use electrum_lightning_test.Patchelf.Section.Find.{string_eq→≡, shdr_at-some}
use electrum_lightning_test.Patchelf.Dynamic.{Name}
use electrum_lightning_test.Patchelf.Rewrite.Sort.Names.{with_table, name_place}

pub some-shdr_at :
    (e : Elf) (i : ℕ) (h : List ℕ) → get_elem? e.shdrs i ≡ some h → shdr_at e i ≡ ok h
unfolding shdr_at
some-shdr_at e i h here = rw (shdr_at, here) refl

pub shdr_at-set :
    (e : Elf) (i : ℕ) (h h' : List ℕ)
    → shdr_at e i ≡ ok h
    → shdr_at (with_table e (set e.shdrs i h')) i ≡ ok h'
shdr_at-set e i h h' here =
    some-shdr_at (with_table e (set e.shdrs i h')) i h'
      (get_elem?-set e.shdrs i h' (get_elem?-lt e.shdrs i h (shdr_at-some e i h here)))

pub shdr_at-set_ne :
    (e : Elf) (i j : ℕ) (h' : List ℕ)
    → i ≢ j
    → shdr_at (with_table e (set e.shdrs i h')) j ≡ shdr_at e j
unfolding shdr_at
shdr_at-set_ne e i j h' apart = rw (shdr_at, get_elem?-set_ne e.shdrs i j h' apart) refl

-- A header in place of one with the same name.
pub name_at-set :
    (e : Elf) (i : ℕ) (h h' : List ℕ) (j : ℕ)
    → shdr_at e i ≡ ok h
    → name_place e h' ≡ name_place e h
    → name_at (with_table e (set e.shdrs i h')) j ≡ name_at e j
unfolding name_at get_section_name
name_at-set e i h h' j here same = elim (ℕ_discrete i j) [
  | yes this ↦
      subst (λ n. name_at (with_table e (set e.shdrs i h')) n ≡ name_at e n) this
        (rw (shdr_at-set e i h h' here, here)
          (ap
            (λ p.
              if leb p (length e.section_names)
              then ok (until_nul (drop p e.section_names))
              else fault)
            same))
  | no other ↦ rw (shdr_at-set_ne e i j h' other) refl
]

find_loop-same :
    (e e' : Elf) (name : Name) (k i : ℕ)
    → ((j : ℕ) → name_at e' j ≡ name_at e j)
    → find_loop e' name k i ≡ find_loop e name k i
unfolding find_loop
find_loop-same e e' name zero i same = refl
find_loop-same e e' name (suc k) i same =
    ap
      (λ x. x >>= λ n. elim (string_eq n name) as (λ b. Result ℕ) [
        | true ↦ ok i
        | false ↦ find_loop e' name k (i + 1)
      ])
      (same i)
    ∙ ap
        (λ r. name_at e i >>= λ n. elim (string_eq n name) as (λ b. Result ℕ) [
          | true ↦ ok i
          | false ↦ r
        ])
        (find_loop-same e e' name k (i + 1) same)

pub find_section-same :
    (e e' : Elf) (name : Name)
    → hdr_get e' e_shnum ≡ hdr_get e e_shnum
    → ((j : ℕ) → name_at e' j ≡ name_at e j)
    → find_section e' name ≡ find_section e name
unfolding find_section find_section2 find_section3
find_section-same e e' name count same =
    rw (count, find_loop-same e e' name (hdr_get e e_shnum - 1) 1 same) refl

find_loop_name :
    (e : Elf) (name : Name) (k i r : ℕ)
    → find_loop e name k i ≡ ok r
    → (r ≡ 0) ⊎ (name_at e r ≡ ok name)
unfolding find_loop
find_loop_name e name zero i r h = inl (let same : ok 0 ≡ ok r = h in cc)
find_loop_name e name (suc k) i r h =
    let (n, got, rest) = >>=-eq-ok (name_at e i) _ h in
    elim (Bool-cases (string_eq n name)) [
      | inl same ↦
          let it : ok i ≡ ok r =
            sym (elim_true (string_eq n name) (ok i) (find_loop e name k (i + 1)) same) ∙ rest in
          let this : i ≡ r = (cc) in
          inr (ap (name_at e) (sym this) ∙ got ∙ ap ok (string_eq→≡ n name same))
      | inr differs ↦
          find_loop_name e name k (i + 1) r
            (sym (elim_false (string_eq n name) (ok i) (find_loop e name k (i + 1)) differs) ∙ rest)
    ]

-- A section that is found has the name.
pub find_section_name :
    (e : Elf) (name : Name) (i : ℕ) → find_section e name ≡ ok i → name_at e i ≡ ok name
unfolding find_section find_section2 find_section3
find_section_name e name i h =
    let (found, second, rest) = >>=-eq-ok (find_section2 e name) _ h in
    let (r, third, chosen) = >>=-eq-ok (find_section3 e name) _ second in
    by_found r found third chosen rest
  where
    by_found :
        (r : ℕ) (found : Option ℕ)
        → find_section3 e name ≡ ok r
        → ok (if r == 0 then none else some r) ≡ ok found
        → (elim found as (λ x. Result ℕ) [
          | none ↦ failed (cannot_find_section name)
          | some x ↦ ok x
        ])
          ≡ ok i
        → name_at e i ≡ ok name
    by_found r none third chosen rest = cc
    by_found r (some x) third chosen rest = elim (Bool-cases (r == 0)) [
      | inl zero_r ↦ (let bad : ok none ≡ ok (some x) = rw zero_r at chosen in cc)
      | inr some_r ↦ elim (find_loop_name e name (hdr_get e e_shnum - 1) 1 r third) [
        | inl zero_r ↦ absurd (ground (arith, some_r, zero_r))
        | inr named ↦
            let it : ok (some r) ≡ ok (some x) = rw some_r at chosen in
            let same : r ≡ i = (cc (it, rest)) in ap (name_at e) (sym same) ∙ named
      ]
    ]
