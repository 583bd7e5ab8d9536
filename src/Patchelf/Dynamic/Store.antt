-- ===== src/Patchelf/Dynamic/Store.antt =====
-- A name that is stored behind the string table, with a new entry that refers to it.
use electrum_lightning_test.Base.{
  ℕ, suc, zero, ◌+◌, ◌^◌, ◌≤◌, ◌<◌, ◌≡◌, ◌≢◌, refl, sym, ap, ap₂, ◌∙◌, ◌-◌, arith, true, false,
  List, [], ◌++◌, length, slice, length-slice, replicate, length-replicate, none, some,
}
use mathlib.Core.List.{append-nil}
use native.Mathlib.Nat.{mod-eq_of_lt}
use electrum_lightning_test.Base.Parts.{slice_mid, slice_whole}
use electrum_lightning_test.Patchelf.Elf.{
  Class, elf32, elf64, d_tag, d_un, sh_size, sh_offset, e_shnum, shdr, sum,
}
use electrum_lightning_test.Patchelf.Word.{rdi, wri}
use electrum_lightning_test.Patchelf.Result.{Result, ok, ◌>>=◌}
use electrum_lightning_test.Patchelf.File.{Elf, get, hdr_get, read_bytes}
use electrum_lightning_test.Patchelf.File.Fields.{length-wri}
use electrum_lightning_test.Patchelf.Section.{
  section_bytes, set_substr, string_eq, name_at, shdr_at, get_section_name, find_loop,
  find_section3, find_section2, find_section,
}
use electrum_lightning_test.Patchelf.Section.Find.{not_same}
use electrum_lightning_test.Patchelf.Section.Replace.{lookup-insert_ne}
use electrum_lightning_test.Patchelf.Dynamic.{
  dot_dynamic, dot_dynstr, new_dyn, edit_section, raw_size,
}
use electrum_lightning_test.Patchelf.Dynamic.Push.{replaced, replace_section_grows, set_substr_mid}
use electrum_lightning_test.Patchelf.Dynamic.Top.{entry_layout}

-- A replacement does not change which section a name finds.
find_loop-replaced :
    (e : Elf) (name s other : List ℕ) (k i : ℕ)
    → find_loop (replaced e name s) other k i ≡ find_loop e other k i
unfolding find_loop name_at shdr_at get_section_name
find_loop-replaced e name s other zero i = refl
find_loop-replaced e name s other (suc k) i =
    ap
      (λ r. name_at e i >>= λ n. elim (string_eq n other) as (λ x. Result ℕ) [
        | true ↦ ok i
        | false ↦ r
      ])
      (find_loop-replaced e name s other k (i + 1))

pub find_section-replaced :
    (e : Elf) (name s other : List ℕ)
    → find_section (replaced e name s) other ≡ find_section e other
unfolding find_section find_section2 find_section3 hdr_get
find_section-replaced e name s other =
    rw (find_loop-replaced e name s other (hdr_get e e_shnum - 1) 1) refl

-- Nor what another section holds.
pub section_bytes-replaced_ne :
    (e : Elf) (name s other : List ℕ)
    → name ≢ other
    → section_bytes (replaced e name s) other ≡ section_bytes e other
unfolding section_bytes shdr_at
section_bytes-replaced_ne e name s other ne =
    ap₂
      (λ o r. elim o as (λ x. Result (List ℕ)) [
        | some t ↦ ok t
        | none ↦ r >>= λ i. shdr_at e i >>= λ h.
            read_bytes e.contents (get e.little_endian (sh_offset e.class_of) h)
              (get e.little_endian (sh_size e.class_of) h)
      ])
      (lookup-insert_ne e.replaced_sections name other s ne) (find_section-replaced e name s other)

pub dynstr-ne-dynamic : dot_dynstr ≢ dot_dynamic
unfolding string_eq
dynstr-ne-dynamic = not_same dot_dynstr dot_dynamic refl

-- A string that is stored behind a section's bytes makes the section longer by the string.
pub edit_section_appends :
    (e : Elf) (name s t : List ℕ) (size : ℕ)
    → section_bytes e name ≡ ok s
    → size ≡ length s
    → size + length t < 2 ^ 32
    → edit_section e name (size + length t) size t
      ≡ ok (replaced (replaced e name (s ++ replicate (length t) 0)) name (s ++ t))
unfolding edit_section
edit_section_appends e name s t size h k small =
    rw (replace_section_grows e name s (size + length t) (length t) h (omega (arith, k)) small) (
      rw
        (ap (λ n. set_substr (s ++ replicate (length t) 0) n t)
            (mod-eq_of_lt (let lt : size < 2 ^ 32 = omega (arith, small) in lt))
          ∙ ap (λ r. set_substr (s ++ r) size t) (sym (append-nil (replicate (length t) 0)))
          ∙ set_substr_mid s (replicate (length t) 0) t [] size k
              (sym (length-replicate {A = ℕ} (length t) 0))
          ∙ ap (λ r. ok (s ++ r)) (append-nil t))
        refl)

un-width : (c : Class) → (d_un c).width ≡ (sh_size c).width
un-width elf32 = refl
un-width elf64 = refl

size_fits : (c : Class) → (sh_size c).at + (sh_size c).width ≤ sum (shdr c)
size_fits elf32 = omega arith
size_fits elf64 = omega arith

pub length-raw_size :
    (e : Elf) (header : List ℕ)
    → length header ≡ sum (shdr e.class_of)
    → length (raw_size e header) ≡ (d_un e.class_of).width
unfolding raw_size
length-raw_size e header h =
    length-slice header (sh_size e.class_of).at (sh_size e.class_of).width
      (omega (arith, h, size_fits e.class_of))
    ∙ sym (un-width e.class_of)

-- An entry whose value is the raw `sh_size` has the size as its value, in either byte order.
pub value-new_dyn :
    (e : Elf) (tag : ℕ) (header : List ℕ)
    → length header ≡ sum (shdr e.class_of)
    → get e.little_endian (d_un e.class_of) (new_dyn e tag (raw_size e header))
      ≡ get e.little_endian (sh_size e.class_of) header
unfolding new_dyn get raw_size
value-new_dyn e tag header h =
    let bytes = wri e.little_endian (d_tag e.class_of).width tag in
    let value = raw_size e header in
    let layout = entry_layout e.class_of in
    let w = (d_un e.class_of).width in
    let long = length-raw_size e header h in
    ap (rdi e.little_endian) (
      ap (λ v. slice (bytes ++ v) (d_un e.class_of).at w) (sym (append-nil value))
      ∙ slice_mid bytes value [] (d_un e.class_of).at 0 w
          (omega (arith, layout.1, length-wri e.little_endian (d_tag e.class_of).width tag))
          (omega (arith, long))
      ∙ slice_whole value w long)
