-- ===== src/Patchelf/Soname/Added.antt =====
-- The whole of `modifySoname` on a library that has no DT_SONAME entry.
use electrum_lightning_test.Base.{
  ℕ, ◌+◌, ◌≡◌, refl, ap, ◌∙◌, true, false, ◌==◌, List, [], ◌∷◌, ◌++◌, length, All, none, Option,
}
use electrum_lightning_test.Patchelf.Elf.{e_type, sh_addr}
use electrum_lightning_test.Patchelf.Elf.Tag.{et_dyn, dt_soname, dt_init}
use electrum_lightning_test.Patchelf.Result.{Result, ok, elim_true, elim_false}
use electrum_lightning_test.Patchelf.File.{Elf, get, hdr_get}
use electrum_lightning_test.Patchelf.Section.{string_eq}
use electrum_lightning_test.Patchelf.Dynamic.{
  dot_dynamic, dot_dynstr, dyn_size, section_header, for_dyn, dyn_rounds,
}
use electrum_lightning_test.Patchelf.Dynamic.Table.{concat, tag_of, IsEnd}
use electrum_lightning_test.Patchelf.Dynamic.Scan.{folded, scan}
use electrum_lightning_test.Patchelf.Needed.{offset_of, mark_changed}
use electrum_lightning_test.Patchelf.Refer.{HasTables, Refers}
use electrum_lightning_test.Patchelf.Stored.{store_soname_new}
use electrum_lightning_test.Patchelf.Soname.{
  modify_soname, soname_op, replace_soname, soname_body, string_at, cross_out, store_soname,
}
use electrum_lightning_test.Patchelf.Soname.Strtab.{table_address, check_strtab_ok}

-- An entry that the loop of modifySoname passes by.
abbrev pub IsOther : Elf → List ℕ → Type 0
IsOther e d = ((tag_of e d == dt_soname) ≡ false) × ((tag_of e d == dt_init) ≡ false)

folded-kept :
    {T : Type 0} (e : Elf) (body : (at tag : ℕ) → Elf → T → Result (Elf × T)) (P : List ℕ → Type 0)
    (at : ℕ) (ds : List (List ℕ)) (t : T)
    → folded e body (λ place d u. u) P at ds t ≡ t
folded-kept e body P at [] t = refl
folded-kept e body P at (d ∷ ds) t = folded-kept e body P (at + dyn_size e.class_of) ds t

soname_body_other :
    (e : Elf) (strtab at tag : ℕ) (found : Option (ℕ × ℕ))
    → (tag == dt_soname) ≡ false
    → (tag == dt_init) ≡ false
    → soname_body strtab at tag e found ≡ ok (e, found)
unfolding soname_body
soname_body_other e strtab at tag found h k =
    elim_false (tag == dt_soname) _ _ h ∙ elim_false (tag == dt_init) _ _ k

replaced_as :
    (e e' : Elf) (name dynamic dynstr : List ℕ)
    → string_eq [] name ≡ false
    → store_soname e dynamic dynstr none name ≡ ok e'
    → soname_op replace_soname e dynamic dynstr none name ≡ ok (e', [])
unfolding soname_op string_at cross_out
replaced_as e e' name dynamic dynstr nonempty stored =
    elim_false (string_eq [] name) _ _ nonempty ∙ rw stored refl

-- In a shared library whose dynamic section has the address of the string table, and neither DT_SONAME
-- nor DT_INIT entries, modifySoname with replaceSoname and a name that is not empty succeeds and prints
-- nothing: the name and its NUL stand behind the string table, an entry at the top of the others refers
-- to it, and the file counts as changed; its contents stay.
pub modify_soname_new :
    (e : Elf) (name dynamic dynstr strings front behind after : List ℕ) (ds : List (List ℕ))
    → (hdr_get e e_type == et_dyn) ≡ true
    → section_header e dot_dynamic ≡ ok dynamic
    → section_header e dot_dynstr ≡ ok dynstr
    → offset_of e dynamic ≡ length front
    → e.contents ≡ front ++ (concat ds ++ after)
    → IsEnd e after
    → table_address e ds 0 ≡ get e.little_endian (sh_addr e.class_of) dynstr
    → (table_address e ds 0 == 0) ≡ false
    → All (IsOther e) ds
    → string_eq [] name ≡ false
    → HasTables e dynamic dynstr strings ds behind (length name + 1)
    → (e' : Elf) × (modify_soname replace_soname name e ≡ ok (mark_changed e', []))
      × Refers e dt_soname name strings ds e'
unfolding modify_soname
modify_soname_new e name dynamic dynstr strings front behind after ds library dyn_ok str_ok place
      same null agrees nonzero others nonempty tables =
    let (e', stored, refers) = store_soname_new e name dynamic dynstr strings ds behind tables in
    (
      e',
      elim_true (hdr_get e e_type == et_dyn) _ _ library
          ∙ rw
              (
                dyn_ok,
                str_ok,
                check_strtab_ok e dynamic dynstr front after ds place same null tables.entries
                    agrees nonzero,
                looked,
              )
              (rw (replaced_as e (mark_changed e') name dynamic dynstr nonempty stored) refl),
      refers,
    )
  where
    looked :
        for_dyn (soname_body (offset_of e dynstr)) (dyn_rounds e) (offset_of e dynamic) e none
        ≡ ok (e, none, length front + length (concat ds))
    looked =
        let body = soname_body (offset_of e dynstr) in
        ap (λ n. for_dyn body (dyn_rounds e) n e none) place
        ∙ scan e body (λ at d found. found) (IsOther e) ds front after none
            (λ before d rest at found known long whole here.
              soname_body_other e (offset_of e dynstr) at (tag_of e d) found known.0 known.1)
            null tables.entries others same
        ∙ ap (λ t. ok (e, t, length front + length (concat ds)))
            (folded-kept e body (IsOther e) (length front) ds none)
