-- ===== src/Patchelf/Rewrite/Write/Put.antt =====
-- A round of `writeReplacedSections`: the header that it leaves, and the bytes.
use electrum_lightning_test.Base.{
  ℕ, ◌+◌, ◌%◌, ◌^◌, ◌≤◌, ◌<◌, ◌≡◌, refl, ap, ◌∙◌, inl, inr, arith, le→leb, List, length, set,
  overwrite,
}
use electrum_lightning_test.Base.Table.{set-set}
use electrum_lightning_test.Patchelf.Elf.{
  Class, Field, elf32, elf64, sum, shdr, sh_name, sh_offset, sh_addr, sh_size, sh_addralign,
}
use electrum_lightning_test.Patchelf.Elf.Tag.{pt_interp, pt_dynamic}
use electrum_lightning_test.Patchelf.Result.{ok}
use electrum_lightning_test.Patchelf.File.{Elf, get, put, section_alignment}
use electrum_lightning_test.Patchelf.File.Fields.{get-put, get-put_ne, length-put}
use electrum_lightning_test.Patchelf.Section.{find_section, shdr_at}
use electrum_lightning_test.Patchelf.Interpreter.{dot_interp}
use electrum_lightning_test.Patchelf.Dynamic.{Name, dot_dynamic, write_bytes}
use electrum_lightning_test.Patchelf.Headers.{shdr_put, sub_word, word}
use electrum_lightning_test.Patchelf.Rewrite.Sort.Names.{with_table, name_place}
use electrum_lightning_test.Patchelf.Rewrite.Write.{write_section}
use electrum_lightning_test.Patchelf.Rewrite.Write.Named.{shdr_at-set}
use electrum_lightning_test.Patchelf.Rewrite.Write.Sync.{with_phdrs, sync_segments-Syncs}

pub write_bytes-within :
    (e : Elf) (at : ℕ) (b : List ℕ)
    → at + length b ≤ length e.contents
    → write_bytes e at b ≡ ok (record e { contents = overwrite e.contents at b })
unfolding write_bytes
write_bytes-within e at b fits = rw (le→leb (at + length b) (length e.contents) fits) refl

shdr_put-at :
    (f : Class → Field) (v i : ℕ) (e : Elf) (h : List ℕ)
    → shdr_at e i ≡ ok h
    → shdr_put f v i e ≡ ok (with_table e (set e.shdrs i (put e.little_endian (f e.class_of) v h)))
unfolding shdr_put
shdr_put-at f v i e h here = rw here refl

shdr_put-again :
    (f : Class → Field) (v i : ℕ) (e : Elf) (h h' : List ℕ)
    → shdr_at e i ≡ ok h
    → shdr_put f v i (with_table e (set e.shdrs i h'))
      ≡ ok (with_table e (set e.shdrs i (put e.little_endian (f e.class_of) v h')))
shdr_put-again f v i e h h' here =
    shdr_put-at f v i (with_table e (set e.shdrs i h')) h' (shdr_at-set e i h h' here)
    ∙ ap (λ t. ok (with_table e t)) (set-set e.shdrs i h' (put e.little_endian (f e.class_of) v h'))

-- The header once its four fields are set.
abbrev pub header_after : Elf → (offset address size : ℕ) → List ℕ → List ℕ
header_after e offset address size h =
    let c = e.class_of in
    let little = e.little_endian in
    put little (sh_addralign c) (section_alignment c) (
      put little (sh_size c) size
        (put little (sh_addr c) address (put little (sh_offset c) offset h)))

-- The four fields stand side by side behind the name.
fields_apart :
    (c : Class)
    → ((sh_name c).at + (sh_name c).width ≤ (sh_addr c).at)
      × ((sh_addr c).at + (sh_addr c).width ≤ (sh_offset c).at)
      × ((sh_offset c).at + (sh_offset c).width ≤ (sh_size c).at)
      × ((sh_size c).at + (sh_size c).width ≤ (sh_addralign c).at)
      × ((sh_size c).at + (sh_size c).width ≤ sum (shdr c))
fields_apart elf32 = (omega arith, omega arith, omega arith, omega arith, omega arith)
fields_apart elf64 = (omega arith, omega arith, omega arith, omega arith, omega arith)

fits_word :
    (c : Class) (n : ℕ)
    → n < word c
    → (n % 256 ^ (sh_offset c).width ≡ n) × (n % 256 ^ (sh_size c).width ≡ n)
fits_word elf32 n h = (omega (arith, h), omega (arith, h))
fits_word elf64 n h = (omega (arith, h), omega (arith, h))

module _ (e : Elf) (offset address size : ℕ) (h : List ℕ) where
  pub header_name_place : name_place e (header_after e offset address size h) ≡ name_place e h
  header_name_place =
      let c = e.class_of in
      let little = e.little_endian in
      let a = fields_apart c in
      get-put_ne little (sh_addralign c) (sh_name c) _ _ (inl (omega (arith, a)))
      ∙ get-put_ne little (sh_size c) (sh_name c) _ _ (inl (omega (arith, a)))
      ∙ get-put_ne little (sh_addr c) (sh_name c) _ _ (inl a.0)
      ∙ get-put_ne little (sh_offset c) (sh_name c) _ _ (inl (omega (arith, a)))

  pub header_offset :
      length h ≡ sum (shdr e.class_of)
      → offset < word e.class_of
      → get e.little_endian (sh_offset e.class_of) (header_after e offset address size h) ≡ offset
  header_offset long small =
      let c = e.class_of in
      let little = e.little_endian in
      let a = fields_apart c in
      get-put_ne little (sh_addralign c) (sh_offset c) _ _ (inl (omega (arith, a)))
      ∙ get-put_ne little (sh_size c) (sh_offset c) _ _ (inl a.2)
      ∙ get-put_ne little (sh_addr c) (sh_offset c) _ _ (inr a.1)
      ∙ get-put little (sh_offset c) offset h (omega (arith, a, long))
      ∙ (fits_word c offset small).0

  pub header_size :
      length h ≡ sum (shdr e.class_of)
      → size < word e.class_of
      → get e.little_endian (sh_size e.class_of) (header_after e offset address size h) ≡ size
  header_size long small =
      let c = e.class_of in
      let little = e.little_endian in
      let a = fields_apart c in
      let h1 = put little (sh_offset c) offset h in
      let h2 = put little (sh_addr c) address h1 in
      get-put_ne little (sh_addralign c) (sh_size c) _ _ (inl a.3)
      ∙ get-put little (sh_size c) size h2 (
          omega (
            arith,
            a,
            long,
            length-put little (sh_offset c) offset h,
            length-put little (sh_addr c) address h1,
          ))
      ∙ (fits_word c size small).1

-- The object behind a round.
abbrev pub written : Elf → (contents : List ℕ) → (table phdrs : List (List ℕ)) → Elf
written e contents table ps = record e { contents = contents; shdrs = table; phdrs = ps }

pub write_section-written :
    (cur_off start_addr start_offset : ℕ) (name : Name) (bytes : List ℕ) (e : Elf) (i : ℕ)
    (h : List ℕ)
    → find_section e name ≡ ok i
    → shdr_at e i ≡ ok h
    → cur_off + length bytes ≤ length e.contents
    → (ps : List (List ℕ)) × (address : ℕ) × (write_section cur_off start_addr start_offset name
          bytes e
        ≡ ok (
            written e
              (overwrite e.contents cur_off bytes)
              (set e.shdrs i (header_after e cur_off address (length bytes) h))
              ps))
unfolding write_section shdr_at
write_section-written cur_off start_addr start_offset name bytes e i h found here fits =
    let address = start_addr + sub_word e.class_of cur_off start_offset in
    let little = e.little_endian in
    let c = e.class_of in
    let e1 = record e { contents = overwrite e.contents cur_off bytes } in
    let h1 = put little (sh_offset c) cur_off h in
    let h2 = put little (sh_addr c) address h1 in
    let h3 = put little (sh_size c) (length bytes) h2 in
    let h4 = header_after e cur_off address (length bytes) h in
    let e5 = with_table e1 (set e.shdrs i h4) in
    let there = shdr_at-set e1 i h h4 here in
    let (p1, l1, r1) = sync_segments-Syncs name dot_interp pt_interp i e5 h4 there in
    let (p2, l2, r2) =
      sync_segments-Syncs name dot_dynamic pt_dynamic i (with_phdrs e5 p1) h4 there in
    (
      p2,
      address,
      rw
          (
            found,
            write_bytes-within e cur_off bytes fits,
            shdr_put-at sh_offset cur_off i e1 h here,
            shdr_put-again sh_addr address i e1 h h1 here,
            shdr_put-again sh_size (length bytes) i e1 h h2 here,
            shdr_put-again sh_addralign (section_alignment c) i e1 h h3 here,
            r1,
          )
          r2,
    )
