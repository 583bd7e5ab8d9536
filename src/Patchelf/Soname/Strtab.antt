-- ===== src/Patchelf/Soname/Strtab.antt =====
-- The search for DT_STRTAB and its test, which `modifySoname` and `modifyRPath` begin with.
use electrum_lightning_test.Base.{
  ℕ, ◌+◌, ◌≡◌, refl, sym, ap, ◌∙◌, arith, Bool, true, false, ◌==◌, ==_iff, List, [], ◌∷◌, ◌++◌,
  length, All, Bool-cases, inl, inr, if◌then◌else◌,
}
use electrum_lightning_test.Patchelf.Elf.{d_un, sh_addr}
use electrum_lightning_test.Patchelf.Elf.Tag.{dt_strtab}
use electrum_lightning_test.Patchelf.Result.{Result, ok, ◌>>=◌}
use electrum_lightning_test.Patchelf.File.{Elf, get}
use electrum_lightning_test.Patchelf.Dynamic.{dyn_size, read_field}
use electrum_lightning_test.Patchelf.Dynamic.Table.{
  concat, tag_of, IsEntry, IsEnd, un_fits, read_field_mid,
}
use electrum_lightning_test.Patchelf.Dynamic.Scan.{Steps, folded, scan}
use electrum_lightning_test.Patchelf.Needed.{offset_of}
use electrum_lightning_test.Patchelf.Needed.Remove.{value_of}
use electrum_lightning_test.Patchelf.Soname.{strtab_body, check_strtab}

abbrev found_address : Elf → (at : ℕ) → List ℕ → ℕ → ℕ
found_address e at d address = if tag_of e d == dt_strtab then value_of e d else address

-- The value of the last DT_STRTAB entry, or the address given.
abbrev pub table_address : Elf → List (List ℕ) → ℕ → ℕ
table_address e [] address = address
table_address e (d ∷ ds) address =
    table_address e ds (if tag_of e d == dt_strtab then value_of e d else address)

strtab_body-Steps : (e : Elf) → Steps e strtab_body (found_address e) (λ d. Unit {0})
unfolding strtab_body
strtab_body-Steps e before d after at address known long same place =
    elim (Bool-cases (tag_of e d == dt_strtab)) [
      | inl here ↦
          ap branch here
          ∙ rw
              (read_field_mid e before d after at (d_un e.class_of) same place
                (omega (arith, long, un_fits e.class_of)))
              (ap (λ b. ok (e, if b then value_of e d else address)) (sym here))
      | inr other ↦
          ap branch other ∙ ap (λ b. ok (e, if b then value_of e d else address)) (sym other)
    ]
  where
    branch : Bool → Result (Elf × ℕ)
    branch b = elim b [
      | true ↦ read_field e at (d_un e.class_of) >>= λ p. ok (e, p)
      | false ↦ ok (e, address)
    ]

folded-found_address :
    (e : Elf) (at : ℕ) (ds : List (List ℕ)) (address : ℕ)
    → folded e strtab_body (found_address e) (λ d. Unit {0}) at ds address
      ≡ table_address e ds address
folded-found_address e at [] address = refl
folded-found_address e at (d ∷ ds) address =
    folded-found_address e (at + dyn_size e.class_of) ds (found_address e at d address)

pub all_unit : (ds : List (List ℕ)) → All (λ d. Unit {0}) ds
all_unit [] = tt
all_unit (d ∷ ds) = (tt, all_unit ds)

-- The test passes when the last DT_STRTAB entry has the address of the string table, and it is not 0.
pub check_strtab_ok :
    (e : Elf) (dynamic dynstr front after : List ℕ) (ds : List (List ℕ))
    → offset_of e dynamic ≡ length front
    → e.contents ≡ front ++ (concat ds ++ after)
    → IsEnd e after
    → All (IsEntry e) ds
    → table_address e ds 0 ≡ get e.little_endian (sh_addr e.class_of) dynstr
    → (table_address e ds 0 == 0) ≡ false
    → check_strtab e dynamic dynstr ≡ ok tt
unfolding check_strtab
check_strtab_ok e dynamic dynstr front after ds place same null all agrees nonzero =
    rw
      (
        place,
        scan e strtab_body (found_address e) (λ d. Unit {0}) ds front after 0 (strtab_body-Steps e)
            null all (all_unit ds) same,
        folded-found_address e (length front) ds 0,
        nonzero,
        (==_iff _ _).1 agrees,
      )
      refl
