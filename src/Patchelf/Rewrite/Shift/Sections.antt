-- ===== src/Patchelf/Rewrite/Shift/Sections.antt =====
-- The loop of `shiftFile` over the section headers.
use electrum_lightning_test.Base.{
  ℕ, suc, zero, ◌+◌, ◌≤◌, ◌<◌, ◌≡◌, refl, sym, ap, ◌∙◌, arith, List, [], length, set, get_or, ◌⊎◌,
  inl, inr, length-set,
}
use electrum_lightning_test.Base.Table.{get_elem?-get_or, get_or-set, get_or-set_ne}
use electrum_lightning_test.Patchelf.Elf.{sh_offset}
use electrum_lightning_test.Patchelf.Result.{ok}
use electrum_lightning_test.Patchelf.File.{Elf, get, put}
use electrum_lightning_test.Patchelf.Section.{shdr_at}
use electrum_lightning_test.Patchelf.Headers.{for_range, shdr_get, shdr_put}
use electrum_lightning_test.Patchelf.Rewrite.Shift.{shift_shdr}

abbrev pub with_shdrs : Elf → List (List ℕ) → Elf
with_shdrs e table = record e { shdrs = table }

-- The section header whose offset is `shift` further.
abbrev pub moved_shdr : (shift : ℕ) → Elf → List ℕ → List ℕ
moved_shdr shift e h =
    put e.little_endian (sh_offset e.class_of)
      (get e.little_endian (sh_offset e.class_of) h + shift) h

module _ (shift : ℕ) (e : Elf) where
  shift_shdr-moves :
      (i : ℕ) (table : List (List ℕ))
      → i < length table
      → shift_shdr shift i (with_shdrs e table)
        ≡ ok (with_shdrs e (set table i (moved_shdr shift e (get_or table i []))))
  unfolding shift_shdr shdr_get shdr_put shdr_at
  shift_shdr-moves i table fits = rw (get_elem?-get_or table i [] fits) refl

  pub shift_shdrs :
      (k i : ℕ) (table : List (List ℕ))
      → i + k ≤ length table
      → (table' : List (List ℕ)) × (for_range (shift_shdr shift) k i (with_shdrs e table)
          ≡ ok (with_shdrs e table'))
        × ((j : ℕ)
            → i ≤ j
            → j < i + k
            → get_or table' j [] ≡ moved_shdr shift e (get_or table j []))
        × ((j : ℕ) → j < i → get_or table' j [] ≡ get_or table j [])
        × (length table' ≡ length table)
  unfolding for_range
  shift_shdrs zero i table fits =
      (table, refl, λ j low high. absurd (omega arith), λ j low. refl, refl)
  shift_shdrs (suc k) i table fits =
      let h = moved_shdr shift e (get_or table i []) in
      let (table', runs, inside, before, long) =
        shift_shdrs k (i + 1) (set table i h) (omega (arith, fits, length-set table i h)) in
      (
        table',
        rw (shift_shdr-moves i table (omega (arith, fits))) runs,
        λ j low high. elim (at_or_behind i j low) [
          | inl same ↦
              ap (λ n. get_or table' n []) (sym same)
              ∙ before i (omega arith)
              ∙ get_or-set table i h [] (omega (arith, fits))
              ∙ ap (λ n. moved_shdr shift e (get_or table n [])) same
          | inr later ↦
              inside j (omega (arith, later)) (omega (arith, high))
              ∙ ap (moved_shdr shift e)
                  (get_or-set_ne table i j h [] (λ p. absurd (omega (arith, p, later))))
        ],
        λ j low.
            before j (omega (arith, low))
            ∙ get_or-set_ne table i j h [] (λ p. absurd (omega (arith, p, low))),
        long ∙ length-set table i h,
      )
    where
      at_or_behind : (i j : ℕ) → i ≤ j → (i ≡ j) ⊎ (i + 1 ≤ j)
      at_or_behind i j low = ground arith
