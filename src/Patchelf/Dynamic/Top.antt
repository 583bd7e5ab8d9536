-- ===== src/Patchelf/Dynamic/Top.antt =====
-- A single new entry at the top of the dynamic section.
use electrum_lightning_test.Base.{
  ℕ, ◌+◌, ◌*◌, ◌%◌, ◌^◌, ◌<◌, ◌≡◌, ◌≢◌, refl, sym, ap, ◌∙◌, arith, List, [], ◌∷◌, ◌++◌, length,
  length-append, take, All,
}
use mathlib.Core.List.{append_assoc}
use electrum_lightning_test.Base.Parts.{slice_mid, slice_whole}
use electrum_lightning_test.Patchelf.Elf.{Class, elf32, elf64, d_tag, d_un, sh_size}
use electrum_lightning_test.Patchelf.Word.{rdi, wri}
use electrum_lightning_test.Patchelf.Word.Endian.{rdi-wri}
use electrum_lightning_test.Patchelf.Result.{ok}
use electrum_lightning_test.Patchelf.File.{Elf, get}
use electrum_lightning_test.Patchelf.File.Fields.{length-wri}
use electrum_lightning_test.Patchelf.Section.{section_bytes, lookup}
use electrum_lightning_test.Patchelf.Section.Replace.{
  section_bytes_recorded, lookup-insert, lookup-insert_ne,
}
use electrum_lightning_test.Patchelf.Dynamic.{Name, dot_dynamic, dyn_size, new_dyn, push_dyn}
use electrum_lightning_test.Patchelf.Dynamic.Table.{concat, tag_of, IsEntry, IsEnd}
use electrum_lightning_test.Patchelf.Dynamic.Push.{
  replaced, grown, ended, shift_dynamic_lem, set_substr_mid,
}

-- Where the members of an entry stand.
pub entry_layout :
    (c : Class)
    → ((d_tag c).at ≡ 0)
      × ((d_un c).at ≡ (d_tag c).width)
      × (dyn_size c ≡ (d_tag c).width + (d_un c).width)
entry_layout elf32 = (refl, refl, refl)
entry_layout elf64 = (refl, refl, refl)

pub length-new_dyn :
    (e : Elf) (tag : ℕ) (value : List ℕ)
    → length value ≡ (d_un e.class_of).width
    → length (new_dyn e tag value) ≡ dyn_size e.class_of
unfolding new_dyn
length-new_dyn e tag value h = omega (
  arith,
  h,
  length-append (wri e.little_endian (d_tag e.class_of).width tag) value,
  length-wri e.little_endian (d_tag e.class_of).width tag,
  (entry_layout e.class_of).2,
)

-- The entry's tag is read back, in either byte order.
pub tag_of-new_dyn :
    (e : Elf) (tag : ℕ) (value : List ℕ)
    → tag_of e (new_dyn e tag value) ≡ tag % 256 ^ (d_tag e.class_of).width
unfolding new_dyn get
tag_of-new_dyn e tag value =
    let w = (d_tag e.class_of).width in
    let bytes = wri e.little_endian w tag in
    let layout = entry_layout e.class_of in
    ap (rdi e.little_endian) (
      slice_mid [] bytes value (d_tag e.class_of).at 0 w (omega (arith, layout.0))
        (omega (arith, length-wri e.little_endian w tag))
      ∙ slice_whole bytes w (length-wri e.little_endian w tag))
    ∙ rdi-wri e.little_endian w tag

-- When the dynamic section is as long as its header says, so has not been grown before, holds the
-- entries `ds` with an end, and stays below 4 GiB, it then holds the new entry, the entries `ds` and
-- their end; the tag of the new entry is the one given in either byte order; the other sections, the
-- contents, and whether the file counts as changed stay.
pub push_dyn_entries :
    (e : Elf) (header : List ℕ) (tag : ℕ) (value : List ℕ) (ds : List (List ℕ)) (behind : List ℕ)
    → section_bytes e dot_dynamic ≡ ok (concat ds ++ behind)
    → get e.little_endian (sh_size e.class_of) header ≡ length (concat ds ++ behind)
    → length (concat ds ++ behind) + dyn_size e.class_of * 1 < 2 ^ 32
    → IsEnd e behind
    → All (IsEntry e) ds
    → length value ≡ (d_un e.class_of).width
    → (e' : Elf) × (rest : List ℕ) × (push_dyn e header tag value ≡ ok e')
      × (section_bytes e' dot_dynamic
          ≡ ok (concat (new_dyn e tag value ∷ ds) ++ (take (dyn_size e.class_of) behind ++ rest)))
      × (tag_of e (new_dyn e tag value) ≡ tag % 256 ^ (d_tag e.class_of).width)
      × ((other : Name)
          → dot_dynamic ≢ other
          → lookup e'.replaced_sections other ≡ lookup e.replaced_sections other)
      × (e'.contents ≡ e.contents)
      × (e'.changed ≡ e.changed)
unfolding push_dyn
push_dyn_entries e header tag value ds behind h k small null all fits =
    let (gap, rest, size, whole, shifted) =
      shift_dynamic_lem e 1 ds behind header h k small null all in
    let new = new_dyn e tag value in
    let e1 = replaced e dot_dynamic (grown e 1 ds behind) in
    let t = new ++ (ended e 1 ds behind ++ rest) in
    (
      replaced e1 dot_dynamic t,
      rest,
      rw shifted (
          rw
            (set_substr_mid [] gap new (ended e 1 ds behind ++ rest) 0 (omega arith)
              (omega (arith, size, length-new_dyn e tag value fits)))
            refl),
      section_bytes_recorded (replaced e1 dot_dynamic t) dot_dynamic t
            (lookup-insert e1.replaced_sections dot_dynamic t)
          ∙ ap ok (
              ap (λ r. new ++ r) (append_assoc (concat ds) (take (dyn_size e.class_of) behind) rest)
              ∙ sym (append_assoc new (concat ds) (take (dyn_size e.class_of) behind ++ rest))),
      tag_of-new_dyn e tag value,
      λ other ne.
          lookup-insert_ne e1.replaced_sections dot_dynamic other t ne
          ∙ lookup-insert_ne e.replaced_sections dot_dynamic other (grown e 1 ds behind) ne,
      refl,
      refl,
    )
