-- ===== src/Patchelf/Needed/Print.antt =====
-- What `printNeededLibs` prints.
use electrum_lightning_test.Base.{
  ℕ, ◌+◌, ◌<◌, ◌≡◌, refl, sym, ap, ◌∙◌, arith, Bool, true, false, ◌==◌, List, [], ◌∷◌, ◌++◌, length,
  All, Bool-cases, inl, inr, if◌then◌else◌,
}
use mathlib.Core.List.{append_assoc, append-nil}
use electrum_lightning_test.Patchelf.Elf.{d_un}
use electrum_lightning_test.Patchelf.Elf.Tag.{dt_needed}
use electrum_lightning_test.Patchelf.Result.{Result, ok, ◌>>=◌}
use electrum_lightning_test.Patchelf.File.{Elf}
use electrum_lightning_test.Patchelf.Dynamic.{
  Name, dot_dynamic, dot_dynstr, dyn_size, section_header,
}
use electrum_lightning_test.Patchelf.Dynamic.Table.{
  concat, tag_of, IsEntry, IsEnd, un_fits, read_field_mid,
}
use electrum_lightning_test.Patchelf.Dynamic.Strings.{c_string_ok}
use electrum_lightning_test.Patchelf.Dynamic.Scan.{Steps, folded, scan}
use electrum_lightning_test.Patchelf.Needed.{needed_name, print_body, print_needed_libs, offset_of}
use electrum_lightning_test.Patchelf.Needed.Remove.{value_of, needed_entry_name}

-- The names of the needed libraries, in the order of the entries.
abbrev pub needed_names : Elf → (strtab : ℕ) → List (List ℕ) → List Name
needed_names e strtab [] = []
needed_names e strtab (d ∷ ds) =
    let rest = needed_names e strtab ds in
    if tag_of e d == dt_needed then needed_entry_name e strtab d ∷ rest else rest

-- The name of a needed library ends within the file.
abbrev pub HasEnd : Elf → (strtab : ℕ) → List ℕ → Type 0
HasEnd e strtab d =
    (tag_of e d == dt_needed) ≡ true
    → strtab + value_of e d + length (needed_entry_name e strtab d) < length e.contents

abbrev printed : Elf → (strtab at : ℕ) → List ℕ → List Name → List Name
printed e strtab at d lines =
    if tag_of e d == dt_needed then lines ++ needed_entry_name e strtab d ∷ [] else lines

pub needed_name_at :
    (e : Elf) (strtab : ℕ) (before d after : List ℕ) (at : ℕ)
    → strtab + value_of e d + length (needed_entry_name e strtab d) < length e.contents
    → length d ≡ dyn_size e.class_of
    → e.contents ≡ before ++ (d ++ after)
    → at ≡ length before
    → needed_name strtab at e ≡ ok (needed_entry_name e strtab d)
unfolding needed_name
needed_name_at e strtab before d after at ends long same place =
    rw
      (read_field_mid e before d after at (d_un e.class_of) same place
        (omega (arith, long, un_fits e.class_of)))
      (c_string_ok e (strtab + value_of e d) (needed_entry_name e strtab d) refl ends)

print_body-Steps :
    (e : Elf) (strtab : ℕ) → Steps e (print_body strtab) (printed e strtab) (HasEnd e strtab)
unfolding print_body
print_body-Steps e strtab before d after at lines ends long same place =
    elim (Bool-cases (tag_of e d == dt_needed)) [
      | inl needed ↦
          ap branch needed
          ∙ rw (needed_name_at e strtab before d after at (ends needed) long same place) (
              ap (λ b. ok (e, if b then lines ++ needed_entry_name e strtab d ∷ [] else lines))
                (sym needed))
      | inr other ↦
          ap branch other
          ∙ ap (λ b. ok (e, if b then lines ++ needed_entry_name e strtab d ∷ [] else lines))
              (sym other)
    ]
  where
    branch : Bool → Result (Elf × List Name)
    branch b = elim b [
      | true ↦ needed_name strtab at e >>= λ name. ok (e, lines ++ name ∷ [])
      | false ↦ ok (e, lines)
    ]

folded-printed :
    (e : Elf) (strtab at : ℕ) (ds : List (List ℕ)) (lines : List Name)
    → folded e (print_body strtab) (printed e strtab) (HasEnd e strtab) at ds lines
      ≡ lines ++ needed_names e strtab ds
folded-printed e strtab at [] lines = sym (append-nil lines)
folded-printed e strtab at (d ∷ ds) lines = elim (Bool-cases (tag_of e d == dt_needed)) [
  | inl needed ↦ rw needed (
      folded-printed e strtab (at + dyn_size e.class_of) ds
        (lines ++ needed_entry_name e strtab d ∷ [])
      ∙ append_assoc lines (needed_entry_name e strtab d ∷ []) (needed_names e strtab ds))
  | inr other ↦ rw other (folded-printed e strtab (at + dyn_size e.class_of) ds lines)
]

-- When the dynamic section holds the entries `ds` and an end, and the names of the needed libraries end
-- within the file, printNeededLibs prints exactly these names, in the order of the entries.
pub print-needed_names :
    (e : Elf) (dynamic dynstr front behind : List ℕ) (ds : List (List ℕ))
    → section_header e dot_dynamic ≡ ok dynamic
    → section_header e dot_dynstr ≡ ok dynstr
    → offset_of e dynamic ≡ length front
    → e.contents ≡ front ++ (concat ds ++ behind)
    → IsEnd e behind
    → All (IsEntry e) ds
    → All (HasEnd e (offset_of e dynstr)) ds
    → print_needed_libs e ≡ ok (needed_names e (offset_of e dynstr) ds)
unfolding print_needed_libs
print-needed_names e dynamic dynstr front behind ds dyn_ok str_ok place same null all ends =
    let strtab = offset_of e dynstr in
    rw
      (
        dyn_ok,
        str_ok,
        place,
        scan e (print_body strtab) (printed e strtab) (HasEnd e strtab) ds front behind []
            (print_body-Steps e strtab) null all ends same,
      )
      (ap ok (folded-printed e strtab (length front) ds []))
