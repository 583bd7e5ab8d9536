-- ===== src/Patchelf/Rewrite/Sort/Note.antt =====
-- The loops of `sortShdrs` that note by name which section a section refers to.
use electrum_lightning_test.Base.{
  ℕ, suc, zero, ◌+◌, ◌≤◌, ◌<◌, ◌≡◌, ◌≢◌, refl, sym, ap, ◌∙◌, arith, Bool, true, List, [], length,
  get_or, some, Bool-cases, inl, inr, if◌then◌else◌,
}
use mathlib.Core.Path.{subst}
use native.Mathlib.Decide.{dec_lt}
use electrum_lightning_test.Patchelf.Elf.{Class, Field}
use electrum_lightning_test.Patchelf.Result.{Result, ok, elim_true, elim_false}
use electrum_lightning_test.Patchelf.File.{Elf, get}
use electrum_lightning_test.Patchelf.Section.{lookup, insert}
use electrum_lightning_test.Patchelf.Section.Replace.{lookup-insert, lookup-insert_ne}
use electrum_lightning_test.Patchelf.Dynamic.{Name}
use electrum_lightning_test.Patchelf.Headers.{for_range, shdr_get}
use electrum_lightning_test.Patchelf.Rewrite.Sort.{NameMap, note_target}
use electrum_lightning_test.Patchelf.Rewrite.Sort.Names.{
  Every, header_name, IsNamed, shdr_at-entry, name_at-entry,
}

-- The section that a header's field refers to.
abbrev pub target : Elf → (Class → Field) → List ℕ → ℕ
target e f h = get e.little_endian (f e.class_of) h

abbrev pub target_name : Elf → (Class → Field) → List ℕ → Name
target_name e f h = header_name e (get_or e.shdrs (target e f h) [])

-- The sections but the first have different names.
abbrev pub IsDistinct : Elf → Type 0
IsDistinct e =
    (i j : ℕ)
    → 1 ≤ i
    → 1 ≤ j
    → i < length e.shdrs
    → j < length e.shdrs
    → header_name e (get_or e.shdrs i []) ≡ header_name e (get_or e.shdrs j [])
    → i ≡ j

module _ (e : Elf) (f : Class → Field) (test : Elf → ℕ → Result Bool)
    (decides : List ℕ → Bool) where
  -- The test of the code depends on the header only, and the field of a header that passes it is the index
  -- of a section.
  pub record Targets : Type 0 where
    pub tested : (j : ℕ) → j < length e.shdrs → test e j ≡ ok (decides (get_or e.shdrs j []))
    pub inside :
        (j : ℕ)
        → j < length e.shdrs
        → decides (get_or e.shdrs j []) ≡ true
        → target e f (get_or e.shdrs j []) < length e.shdrs

  abbrev noted : ℕ → NameMap → NameMap
  noted j m =
      let h = get_or e.shdrs j [] in
      if decides h then insert m (header_name e h) (target_name e f h) else m

  note_target-noted :
      (j : ℕ) (m : NameMap)
      → Targets
      → Every (IsNamed e) e.shdrs
      → j < length e.shdrs
      → note_target f test e j m ≡ ok (noted j m)
  unfolding note_target shdr_get
  note_target-noted j m r named lt =
      let h = get_or e.shdrs j [] in
      elim (Bool-cases (decides h)) [
        | inl yes_it ↦ rw (r.tested j lt) (
            elim_true (decides h) _ _ yes_it
            ∙ rw (name_at-entry e e.shdrs j lt (named j lt), shdr_at-entry e e.shdrs j lt)
                (rw
                  (name_at-entry e e.shdrs (target e f h) (r.inside j lt yes_it)
                    (named (target e f h) (r.inside j lt yes_it)))
                  (ap (λ b. ok (if b then insert m (header_name e h) (target_name e f h) else m))
                    (sym yes_it))))
        | inr no_it ↦ rw (r.tested j lt) (
            elim_false (decides h) _ _ no_it
            ∙ ap (λ b. ok (if b then insert m (header_name e h) (target_name e f h) else m))
                (sym no_it))
      ]

  -- The map tells, for the sections from `i` on, where they refer to, and tells what it did for others.
  pub record Notes (k i : ℕ) (m m' : NameMap) : Type 0 where
    pub told :
        (j : ℕ)
        → i ≤ j
        → j < i + k
        → decides (get_or e.shdrs j []) ≡ true
        → lookup m' (header_name e (get_or e.shdrs j []))
          ≡ some (target_name e f (get_or e.shdrs j []))
    pub others :
        (s : Name)
        → ((j : ℕ) → i ≤ j → j < i + k → header_name e (get_or e.shdrs j []) ≢ s)
        → lookup m' s ≡ lookup m s

  noted_others :
      (j : ℕ) (m : NameMap) (s : Name)
      → header_name e (get_or e.shdrs j []) ≢ s
      → lookup (noted j m) s ≡ lookup m s
  noted_others j m s differs =
      let h = get_or e.shdrs j [] in
      elim (Bool-cases (decides h)) [
        | inl yes_it ↦
            rw yes_it (lookup-insert_ne m (header_name e h) s (target_name e f h) differs)
        | inr no_it ↦ rw no_it refl
      ]

  noted_self :
      (j : ℕ) (m : NameMap)
      → decides (get_or e.shdrs j []) ≡ true
      → lookup (noted j m) (header_name e (get_or e.shdrs j []))
        ≡ some (target_name e f (get_or e.shdrs j []))
  noted_self j m yes_it =
      let h = get_or e.shdrs j [] in
      rw yes_it (lookup-insert m (header_name e h) (target_name e f h))

  pub note_loop :
      (k i : ℕ) (m : NameMap)
      → Targets
      → Every (IsNamed e) e.shdrs
      → IsDistinct e
      → 1 ≤ i
      → i + k ≤ length e.shdrs
      → (m' : NameMap) × (for_range (note_target f test e) k i m ≡ ok m') × Notes k i m m'
  unfolding for_range
  note_loop zero i m r named distinct first fits =
      (m, refl, record { told = λ j a b d. absurd (omega arith); others = λ s none_at. refl })
  note_loop (suc k) i m r named distinct first fits =
      let (m', runs, rest) =
        note_loop k (i + 1) (noted i m) r named distinct (omega arith) (omega arith) in
      (
        m',
        rw (note_target-noted i m r named (omega arith)) runs,
        record {
          told = λ j a b d. elim (dec_lt i j) [
            | yes later ↦ rest.told j (omega arith) (omega arith) d
            | no this ↦
                let same : i ≡ j = omega (arith, a, this) in
                subst
                  (λ n.
                    decides (get_or e.shdrs n []) ≡ true
                    → lookup m' (header_name e (get_or e.shdrs n []))
                      ≡ some (target_name e f (get_or e.shdrs n [])))
                  same
                  (λ d'.
                    rest.others _ (λ n c c' q.
                      (let bad : n ≡ i =
                          distinct n i (omega (arith, c)) first (omega (arith, c', fits))
                            (omega (arith, fits)) q in
                        absurd (omega (arith, bad, c))))
                    ∙ noted_self i m d')
                  d
          ];
          others = λ s none_at.
              rest.others s (λ j a b. none_at j (omega (arith, a)) (omega (arith, b)))
              ∙ noted_others i m s (none_at i (omega arith) (omega arith));
        },
      )
