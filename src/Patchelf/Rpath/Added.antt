-- ===== src/Patchelf/Rpath/Added.antt =====
-- The whole of `modifyRPath` with rpSet on a file that has no entry for a path.
use electrum_lightning_test.Base.{
  ℕ, suc, leb, arith, ◌+◌, ◌≡◌, refl, sym, ap, ◌∙◌, Bool, true, false, ◌==◌, List, [], ◌∷◌, ◌++◌,
  length, All, none, some, Bool-cases, inl, inr, if◌then◌else◌,
}
use mathlib.Core.List.{append_assoc, append-nil}
use electrum_lightning_test.Patchelf.Elf.{sh_addr, sh_offset, sh_size}
use electrum_lightning_test.Patchelf.Elf.Tag.{dt_needed, dt_rpath, dt_runpath}
use electrum_lightning_test.Patchelf.Result.{Result, ok, elim_false, ◌>>=◌}
use electrum_lightning_test.Patchelf.File.{Elf, get, hdr_get, read_bytes}
use electrum_lightning_test.Patchelf.Section.{
  string_eq, section_bytes, lookup, shdr_at, name_at, get_section_name,
}
use electrum_lightning_test.Patchelf.Dynamic.{
  Name, dot_dynamic, dot_dynstr, dyn_size, section_header, for_dyn, dyn_rounds,
}
use electrum_lightning_test.Patchelf.Dynamic.Table.{concat, tag_of, IsEnd}
use electrum_lightning_test.Patchelf.Dynamic.Scan.{Steps, folded, scan}
use electrum_lightning_test.Patchelf.Needed.{offset_of, mark_changed, needed_name}
use electrum_lightning_test.Patchelf.Needed.Remove.{needed_entry_name}
use electrum_lightning_test.Patchelf.Needed.Print.{needed_names, HasEnd, needed_name_at}
use electrum_lightning_test.Patchelf.Refer.{HasTables, Refers}
use electrum_lightning_test.Patchelf.Stored.{store_rpath_new}
use electrum_lightning_test.Patchelf.Soname.{string_at, cross_out}
use electrum_lightning_test.Patchelf.Soname.Strtab.{table_address, check_strtab_ok}
use electrum_lightning_test.Patchelf.Rewrite.Write.Named.{find_section-same}
use electrum_lightning_test.Patchelf.Rpath.{
  Found, rpath_body, set_rpath, convert, store_rpath, modify_rpath, rpath_op, rp_set,
}

-- An entry that is no path; the name of a needed library ends within the file.
abbrev pub IsPathless : Elf → (strtab : ℕ) → List ℕ → Type 0
IsPathless e strtab d =
    ((tag_of e d == dt_rpath) ≡ false) × ((tag_of e d == dt_runpath) ≡ false) × HasEnd e strtab d

abbrev noted : Elf → (strtab at : ℕ) → List ℕ → Found → Found
noted e strtab at d found =
    if tag_of e d == dt_needed
    then record found { needed_libs = found.needed_libs ++ needed_entry_name e strtab d ∷ [] }
    else found

rpath_body-Steps :
    (e : Elf) (strtab : ℕ) → Steps e (rpath_body strtab) (noted e strtab) (IsPathless e strtab)
unfolding rpath_body
rpath_body-Steps e strtab before d after at found known long same place =
    elim_false (tag_of e d == dt_rpath) _ _ known.0
    ∙ elim_false (tag_of e d == dt_runpath) _ _ known.1
    ∙ elim (Bool-cases (tag_of e d == dt_needed)) [
      | inl needed ↦
          ap branch needed
          ∙ rw (needed_name_at e strtab before d after at (known.2 needed) long same place)
              (ap (λ b. ok (e, if b then one else found)) (sym needed))
      | inr other ↦ ap branch other ∙ ap (λ b. ok (e, if b then one else found)) (sym other)
    ]
  where
    one : Found
    one = record found { needed_libs = found.needed_libs ++ needed_entry_name e strtab d ∷ [] }

    branch : Bool → Result (Elf × Found)
    branch b = elim b [
      | true ↦ needed_name strtab at e >>= λ name.
          ok (e, record found { needed_libs = found.needed_libs ++ name ∷ [] })
      | false ↦ ok (e, found)
    ]

abbrev pathless : List Name → Found
pathless libs = record { dyn_rpath = none; dyn_run_path = none; rpath = none; needed_libs = libs }

folded-noted :
    (e : Elf) (strtab at : ℕ) (ds : List (List ℕ)) (libs : List Name)
    → folded e (rpath_body strtab) (noted e strtab) (IsPathless e strtab) at ds (pathless libs)
      ≡ pathless (libs ++ needed_names e strtab ds)
folded-noted e strtab at [] libs = ap pathless (sym (append-nil libs))
folded-noted e strtab at (d ∷ ds) libs = elim (Bool-cases (tag_of e d == dt_needed)) [
  | inl needed ↦ rw needed (
      folded-noted e strtab (at + dyn_size e.class_of) ds
        (libs ++ needed_entry_name e strtab d ∷ [])
      ∙ ap pathless
          (append_assoc libs (needed_entry_name e strtab d ∷ []) (needed_names e strtab ds)))
  | inr other ↦ rw other (folded-noted e strtab (at + dyn_size e.class_of) ds libs)
]

section_bytes-mark_changed :
    (e : Elf) (name : Name) → section_bytes (mark_changed e) name ≡ section_bytes e name
unfolding section_bytes name_at shdr_at hdr_get get_section_name
section_bytes-mark_changed e name =
    ap
      (λ found. elim (lookup e.replaced_sections name) as (λ r. Result (List ℕ)) [
        | some s ↦ ok s
        | none ↦ found >>= λ i. shdr_at e i >>= λ s.
            read_bytes e.contents (get e.little_endian (sh_offset e.class_of) s)
              (get e.little_endian (sh_size e.class_of) s)
      ])
      (find_section-same e (mark_changed e) name refl (λ j. refl))

mark_changed-HasTables :
    (e : Elf) (dynamic dynstr strings : List ℕ) (ds : List (List ℕ)) (behind : List ℕ) (added : ℕ)
    → HasTables e dynamic dynstr strings ds behind added
    → HasTables (mark_changed e) dynamic dynstr strings ds behind added
mark_changed-HasTables e dynamic dynstr strings ds behind added h = record {
  strings_held = section_bytes-mark_changed e dot_dynstr ∙ h.strings_held;
  strings_size = h.strings_size;
  strings_fit = h.strings_fit;
  entries_held = section_bytes-mark_changed e dot_dynamic ∙ h.entries_held;
  entries_size = h.entries_size;
  entries_fit = h.entries_fit;
  entries = h.entries;
  ended = h.ended;
  header = h.header;
}

leb-suc_zero : (n : ℕ) → leb (suc n) 0 ≡ false
leb-suc_zero n = ground arith

set_rpath-pathless :
    (force : Bool) (e e' : Elf) (dynamic dynstr : List ℕ) (libs : List Name) (c : ℕ) (path : Name)
    → store_rpath force (mark_changed e) dynamic dynstr (pathless libs) (c ∷ path) ≡ ok e'
    → set_rpath force e dynamic dynstr (pathless libs) (c ∷ path) ≡ ok e'
unfolding set_rpath string_at string_eq cross_out convert
set_rpath-pathless true e e' dynamic dynstr libs c path stored =
    elim_false (leb (suc (length path)) 0) _ _ (leb-suc_zero (length path)) ∙ stored
set_rpath-pathless false e e' dynamic dynstr libs c path stored =
    elim_false (leb (suc (length path)) 0) _ _ (leb-suc_zero (length path)) ∙ stored

-- In a file whose dynamic section has the address of the string table and neither DT_RPATH nor
-- DT_RUNPATH entries, with the names of the needed libraries ending within the file, and with .dynstr
-- and .dynamic as long as their headers say (not changed earlier in the run), modifyRPath with rpSet and a
-- path that is not empty succeeds and prints nothing: the path and its NUL stand behind the string table,
-- an entry at the top of the others refers to it, with DT_RPATH if that is forced and DT_RUNPATH
-- otherwise, the file counts as changed, its contents stay, and the static vector has the names of the
-- needed libraries behind those that it had.
pub modify_rpath_new :
    (exists : Name → Bool) (force : Bool) (known : List Name) (e : Elf) (c : ℕ) (path : Name)
    (dynamic dynstr strings front behind after : List ℕ) (ds : List (List ℕ))
    → section_header e dot_dynamic ≡ ok dynamic
    → section_header e dot_dynstr ≡ ok dynstr
    → offset_of e dynamic ≡ length front
    → e.contents ≡ front ++ (concat ds ++ after)
    → IsEnd e after
    → table_address e ds 0 ≡ get e.little_endian (sh_addr e.class_of) dynstr
    → (table_address e ds 0 == 0) ≡ false
    → All (IsPathless e (offset_of e dynstr)) ds
    → HasTables e dynamic dynstr strings ds behind (length (c ∷ path) + 1)
    → (e' : Elf) × (modify_rpath exists force known rp_set (c ∷ path) e
        ≡ ok (e', [], known ++ needed_names e (offset_of e dynstr) ds))
      × Refers (mark_changed e) (if force then dt_rpath else dt_runpath) (c ∷ path) strings ds e'
unfolding modify_rpath rpath_op
modify_rpath_new exists force known e c path dynamic dynstr strings front behind after ds dyn_ok
      str_ok place same null agrees nonzero others tables =
    let libs = known ++ needed_names e (offset_of e dynstr) ds in
    let (e', stored, refers) =
      store_rpath_new force (mark_changed e) (pathless libs) (c ∷ path) dynamic dynstr strings ds
        behind refl refl
        (mark_changed-HasTables e dynamic dynstr strings ds behind (length (c ∷ path) + 1)
          tables) in
    (
      e',
      rw
          (
            dyn_ok,
            str_ok,
            check_strtab_ok e dynamic dynstr front after ds place same null tables.entries agrees
                nonzero,
            looked,
            set_rpath-pathless force e e' dynamic dynstr libs c path stored,
          )
          refl,
      refers,
    )
  where
    looked :
        for_dyn
          (rpath_body (offset_of e dynstr))
          (dyn_rounds e)
          (offset_of e dynamic)
          e
          (pathless known)
        ≡ ok (
          e,
          pathless (known ++ needed_names e (offset_of e dynstr) ds),
          length front + length (concat ds),
        )
    looked =
        let strtab = offset_of e dynstr in
        ap (λ n. for_dyn (rpath_body strtab) (dyn_rounds e) n e (pathless known)) place
        ∙ scan e (rpath_body strtab) (noted e strtab) (IsPathless e strtab) ds front after
            (pathless known) (rpath_body-Steps e strtab) null tables.entries others same
        ∙ ap (λ t. ok (e, t, length front + length (concat ds)))
            (folded-noted e strtab (length front) ds known)
