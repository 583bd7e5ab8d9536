-- ===== src/Patchelf/Rewrite/Write/Back.antt =====
-- `writeReplacedSections` as a whole: the replacements are what the file then holds.
use electrum_lightning_test.Base.{
  ℕ, ◌+◌, ◌≤◌, ◌<◌, ◌≡◌, refl, sym, ap, ◌∙◌, inl, inr, arith, le→leb, Bool-cases, List, [], ◌∷◌,
  length, length-overwrite, length-replicate, overwrite, replicate, some, All,
}
use electrum_lightning_test.Patchelf.Elf.{sum, ehdr, e_shnum, sh_offset, sh_size}
use electrum_lightning_test.Patchelf.Result.{ok}
use electrum_lightning_test.Patchelf.File.{Elf, get, hdr_get, read_bytes}
use electrum_lightning_test.Patchelf.Section.{
  string_eq, find_section, shdr_at, name_at, get_section_name, section_bytes, lookup,
}
use electrum_lightning_test.Patchelf.Section.Find.{string_eq→≡}
use electrum_lightning_test.Patchelf.Dynamic.{Name}
use electrum_lightning_test.Patchelf.Headers.{shdr_get, word}
use electrum_lightning_test.Patchelf.Rewrite.{needed_space}
use electrum_lightning_test.Patchelf.Rewrite.Write.{cross_sections, write_replaced_sections}
use electrum_lightning_test.Patchelf.Rewrite.Write.Named.{find_section-same}
use electrum_lightning_test.Patchelf.Rewrite.Write.Put.{write_bytes-within, written}
use electrum_lightning_test.Patchelf.Rewrite.Write.Wrote.{IsKnown, Distinct, IsStored, shnum_kept}
use electrum_lightning_test.Patchelf.Rewrite.Write.Loop.{write_sections-Wrote}

-- A section that is known, with its old place behind the ELF header and within the file.
pub record IsOld (e : Elf) (entry : Name × List ℕ) : Type 0 where
  pub known : IsKnown e entry
  pub behind : sum (ehdr e.class_of) ≤ get e.little_endian (sh_offset e.class_of) known.header
  pub inside :
      get e.little_endian (sh_offset e.class_of) known.header
        + get e.little_endian (sh_size e.class_of) known.header
      ≤ length e.contents

abbrev with_contents : Elf → List ℕ → Elf
with_contents e contents = record e { contents = contents }

-- Contents of the same length with the same number of sections.
record Alike (e : Elf) (contents : List ℕ) : Type 0 where
  pub same_length : length contents ≡ length e.contents
  pub same_count : hdr_get (with_contents e contents) e_shnum ≡ hdr_get e e_shnum

found-Alike :
    (e : Elf) (contents : List ℕ) (name : Name)
    → Alike e contents
    → find_section (with_contents e contents) name ≡ find_section e name
unfolding name_at shdr_at get_section_name
found-Alike e contents name x =
    find_section-same e (with_contents e contents) name x.same_count (λ j. refl)

IsOld-Alike :
    (e : Elf) (contents : List ℕ) (sections : List (Name × List ℕ))
    → Alike e contents
    → All (IsOld e) sections
    → All (IsOld (with_contents e contents)) sections
unfolding shdr_at
IsOld-Alike e contents [] x old = tt
IsOld-Alike e contents (entry ∷ rest) x old =
    let k = old.0.known in
    (
      record {
        known = record {
          index = k.index;
          header = k.header;
          found = found-Alike e contents entry.0 x ∙ k.found;
          here = k.here;
          long = k.long;
          short = k.short;
        };
        behind = old.0.behind;
        inside = omega (arith, old.0.inside, x.same_length);
      },
      IsOld-Alike e contents rest x old.1,
    )

known_of :
    (e : Elf) (sections : List (Name × List ℕ)) → All (IsOld e) sections → All (IsKnown e) sections
known_of e [] old = tt
known_of e (entry ∷ rest) old = (old.0.known, known_of e rest old.1)

-- Crossing out the old places ends well.
crossed :
    (sections : List (Name × List ℕ)) (e : Elf)
    → All (IsOld e) sections
    → (contents : List ℕ) × Alike e contents
      × (cross_sections sections e ≡ ok (with_contents e contents))
unfolding cross_sections shdr_get
crossed [] e old = (e.contents, record { same_length = refl; same_count = refl }, refl)
crossed (entry ∷ rest) e old =
    let k = old.0.known in
    let offset = get e.little_endian (sh_offset e.class_of) k.header in
    let size = get e.little_endian (sh_size e.class_of) k.header in
    let cross = replicate size b'X' in
    let long : length cross ≡ size = length-replicate size b'X' in
    let c1 = overwrite e.contents offset cross in
    let x : Alike e c1 = record {
      same_length = length-overwrite e.contents offset cross;
      same_count = shnum_kept e offset cross e.shdrs e.phdrs old.0.behind;
    } in
    let (contents, y, runs) = crossed rest (with_contents e c1) (IsOld-Alike e c1 rest x old.1) in
    (
      contents,
      record {
        same_length = y.same_length ∙ x.same_length;
        same_count = y.same_count ∙ x.same_count;
      },
      rw (k.found, k.here, write_bytes-within e offset cross (omega (arith, long, old.0.inside)))
          runs,
    )

-- An entry of a map, by its key.
All-lookup :
    (P : Name × List ℕ → Type 0) (sections : List (Name × List ℕ)) (name : Name) (bytes : List ℕ)
    → All P sections
    → lookup sections name ≡ some bytes
    → P (name, bytes)
unfolding lookup
All-lookup P [] name bytes all h = cc
All-lookup P (entry ∷ rest) name bytes all h = elim (Bool-cases (string_eq entry.0 name)) [
  | inl same ↦
      let it : some entry.1 ≡ some bytes = rw same at h in
      let second : entry.1 ≡ bytes = (cc) in
      rw (sym (string_eq→≡ entry.0 name same), sym second) all.0
  | inr differs ↦
      let later : lookup rest name ≡ some bytes = rw differs at h in
      All-lookup P rest name bytes all.1 later
]

stored_bytes :
    (e : Elf) (name : Name) (bytes : List ℕ)
    → IsStored e (name, bytes)
    → section_bytes (record e { replaced_sections = [] }) name ≡ ok bytes
unfolding section_bytes lookup name_at shdr_at get_section_name read_bytes hdr_get
stored_bytes e name bytes x =
    let e' = record e { replaced_sections = [] } in
    let found : find_section e' name ≡ ok x.index =
      find_section-same e e' name refl (λ j. refl) ∙ x.found in
    let here : shdr_at e' x.index ≡ ok x.header = x.here in
    let offset = get e.little_endian (sh_offset e.class_of) x.header in
    rw (found, here, x.size, le→leb (offset + length bytes) (length e.contents) x.inside)
      (ap ok x.bytes)

-- When the file has the room, behind the ELF header and below what an offset can tell, and each of the
-- replaced sections is found, with its old place in the file behind the ELF header and a replacement that
-- `roundUp` can round up, `writeReplacedSections` succeeds. No replacement is left, and the bytes of each
-- section that was replaced, found by its name, its header's offset and size, are those of the
-- replacement.
pub write_replaced_sections-section_bytes :
    (cur start_addr start_offset : ℕ) (e : Elf)
    → All (IsOld e) e.replaced_sections
    → Distinct e.replaced_sections
    → sum (ehdr e.class_of) ≤ cur
    → cur + needed_space e.class_of e.replaced_sections ≤ length e.contents
    → length e.contents < word e.class_of
    → (e' : Elf) × (write_replaced_sections cur start_addr start_offset e
        ≡ ok (cur + needed_space e.class_of e.replaced_sections, e'))
      × (e'.replaced_sections ≡ [])
      × ((name : Name) (bytes : List ℕ)
          → lookup e.replaced_sections name ≡ some bytes
          → section_bytes e' name ≡ section_bytes e name)
unfolding write_replaced_sections section_bytes
write_replaced_sections-section_bytes cur start_addr start_offset e old distinct behind fits small =
    let sections = e.replaced_sections in
    let (c1, x, crosses) = crossed sections e old in
    let e1 = with_contents e c1 in
    let (contents, table, ps, runs, y) =
      write_sections-Wrote start_addr start_offset sections cur e1
        (known_of e1 sections (IsOld-Alike e c1 sections x old)) distinct behind
        (omega (arith, fits, x.same_length)) (omega (arith, small, x.same_length)) in
    let e2 = written e1 contents table ps in
    (
      record e2 { replaced_sections = [] },
      rw (crosses, runs) refl,
      refl,
      λ name bytes h.
          stored_bytes e2 name bytes (All-lookup (IsStored e2) sections name bytes y.stored h)
          ∙ sym (rw (section_bytes, h) refl),
    )
