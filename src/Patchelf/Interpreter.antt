-- ===== src/Patchelf/Interpreter.antt =====
-- `setInterpreter` and `getInterpreter` of bitcoin-core/patchelf-0.9/src/patchelf.cc.
use electrum_lightning_test.Base.{
  ℕ, ◌+◌, ◌%◌, ◌^◌, ◌<◌, ◌≤◌, ◌≡◌, ◌≢◌, refl, ap, ◌∙◌, arith, true, List, [], ◌∷◌, ◌++◌, length,
  overwrite, overwrite-zero, le→leb, length-append, drop_all,
}
use mathlib.Core.List.{append-nil}
use electrum_lightning_test.Patchelf.Elf.{sh_offset, sh_size}
use electrum_lightning_test.Patchelf.Result.{Result, ok, ◌>>=◌}
use electrum_lightning_test.Patchelf.File.{Elf, get, read_bytes}
use electrum_lightning_test.Patchelf.Section.{
  find_section, shdr_at, replace_section, section_bytes, set_substr, lookup, insert, resize,
}
use electrum_lightning_test.Patchelf.Section.Replace.{
  section_bytes_recorded, lookup-insert, lookup-insert_ne, length-resize,
}

abbrev pub dot_interp : List ℕ
dot_interp = b'.' ∷ b'i' ∷ b'n' ∷ b't' ∷ b'e' ∷ b'r' ∷ b'p' ∷ []

unfoldable pub get_interpreter : Elf → Result (List ℕ)
get_interpreter e = do
  i ← find_section e dot_interp
  s ← shdr_at e i
  read_bytes e.contents (get e.little_endian (sh_offset e.class_of) s)
      (get e.little_endian (sh_size e.class_of) s)

-- `setInterpreter`: the size is converted to `unsigned int`, and the string is changed in the map.
unfoldable pub set_interpreter : Elf → List ℕ → Result Elf
set_interpreter e new_interpreter = do
  replaced ← replace_section e dot_interp ((length new_interpreter + 1) % 2 ^ 32)
  section ← set_substr replaced.0 0 (new_interpreter ++ (0 ∷ []))
  ok (record replaced.1 {
    replaced_sections = insert replaced.1.replaced_sections dot_interp section;
    changed = true;
  })

set_substr_within :
    (s : List ℕ) (pos : ℕ) (t : List ℕ)
    → pos + length t ≤ length s
    → set_substr s pos t ≡ ok (overwrite s pos t)
unfolding set_substr
set_substr_within s pos t h = rw (le→leb (pos + length t) (length s) h) refl

-- A string that takes the place of one of its length.
set_substr_whole : (s t : List ℕ) → length s ≡ length t → set_substr s 0 t ≡ ok t
set_substr_whole s t e =
    set_substr_within s 0 t (omega (arith, e))
    ∙ ap ok (
        overwrite-zero s t (omega (arith, e))
        ∙ ap (λ r. t ++ r) (drop_all (length t) s (omega (arith, e)))
        ∙ append-nil t)

-- When the file has a section .interp, or a replacement of it, and the name is below 4 GiB,
-- setInterpreter succeeds, whatever the section held: the replacement is the name with its NUL, the
-- other sections' replacements and the contents stay, and the file is to be written.
pub set_interpreter_records :
    (e : Elf) (new_interpreter s : List ℕ)
    → section_bytes e dot_interp ≡ ok s
    → length new_interpreter + 1 < 2 ^ 32
    → (e' : Elf) × (set_interpreter e new_interpreter ≡ ok e')
      × (section_bytes e' dot_interp ≡ ok (new_interpreter ++ (0 ∷ [])))
      × ((other : List ℕ)
          → dot_interp ≢ other
          → lookup e'.replaced_sections other ≡ lookup e.replaced_sections other)
      × (e'.contents ≡ e.contents)
      × (e'.changed ≡ true)
unfolding set_interpreter replace_section
set_interpreter_records e new_interpreter s h small =
    let size = (length new_interpreter + 1) % 2 ^ 32 in
    let t = new_interpreter ++ (0 ∷ []) in
    let m = insert e.replaced_sections dot_interp (resize s size) in
    let e' = record e { replaced_sections = insert m dot_interp t; changed = true } in
    let same : length (resize s size) ≡ length t =
      omega (arith, length-resize s size, small, length-append new_interpreter (0 ∷ [])) in
    (
      e',
      rw h (rw (set_substr_whole (resize s size) t same) refl),
      section_bytes_recorded e' dot_interp t (lookup-insert m dot_interp t),
      λ other ne.
          lookup-insert_ne m dot_interp other t ne
          ∙ lookup-insert_ne e.replaced_sections dot_interp other (resize s size) ne,
      refl,
      refl,
    )
