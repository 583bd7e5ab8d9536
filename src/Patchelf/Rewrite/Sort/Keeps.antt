-- ===== src/Patchelf/Rewrite/Sort/Keeps.antt =====
-- `sortShdrs` as a whole: the sections are in another order, and refer to the same ones.
use electrum_lightning_test.Base.{
  ℕ, ◌+◌, ◌≤◌, ◌<◌, ◌≡◌, refl, ap, ◌∙◌, ◌⊎◌, arith, true, false, List, [], length, get_or,
}
use electrum_lightning_test.Patchelf.Elf.{Field, e_shstrndx, sh_link, sh_info}
use electrum_lightning_test.Patchelf.Result.{ok}
use electrum_lightning_test.Patchelf.File.{Elf, get, hdr_get, hdr_put}
use electrum_lightning_test.Patchelf.File.Fields.{get-put}
use electrum_lightning_test.Patchelf.Compare.{comp_shdr, comp_shdr-IsStrictWeakOrder}
use electrum_lightning_test.Patchelf.Rewrite.Sort.{NameMap, StdSort, links, informs, sort_shdrs}
use electrum_lightning_test.Patchelf.Rewrite.Sort.Sorted.{Sorts, IsSort}
use electrum_lightning_test.Patchelf.Rewrite.Sort.Names.{with_table, header_name, name_at-entry}
use electrum_lightning_test.Patchelf.Rewrite.Sort.Note.{target, target_name, Notes}
use electrum_lightning_test.Patchelf.Rewrite.Sort.Restore.{Restored}
use electrum_lightning_test.Patchelf.Rewrite.Sort.Links.{
  is_linked, is_informed, IsTable, index_fits, strings_fit, others, note_links, note_infos,
}
use electrum_lightning_test.Patchelf.Rewrite.Sort.Kept.{links-Ready, infos-Ready}
use electrum_lightning_test.Patchelf.Rewrite.Sort.Restoring.{restore_loop}
use electrum_lightning_test.Patchelf.Rewrite.Sort.Whole.{
  final_name, final_link, final_info, final_field, final_unlinked, final_uninformed, final_strings,
}

-- The table after `sortShdrs`, header by header, beside the sorted one.
pub record SameLinks (e : Elf) (sorted : List (List ℕ)) (e' : Elf) : Type 0 where
  pub same_length : length e'.shdrs ≡ length sorted
  pub same_names :
      (j : ℕ) → header_name e' (get_or e'.shdrs j []) ≡ header_name e (get_or sorted j [])
  pub same_links :
      (j : ℕ)
      → 1 ≤ j
      → j < length sorted
      → is_linked e (get_or sorted j []) ≡ true
      → target_name e' sh_link (get_or e'.shdrs j []) ≡ target_name e sh_link (get_or sorted j [])
  pub same_infos :
      (j : ℕ)
      → 1 ≤ j
      → j < length sorted
      → is_informed e (get_or sorted j []) ≡ true
      → target_name e' sh_info (get_or e'.shdrs j []) ≡ target_name e sh_info (get_or sorted j [])
  pub same_unlinked :
      (j : ℕ)
      → is_linked e (get_or sorted j []) ≡ false
      → target e' sh_link (get_or e'.shdrs j []) ≡ target e sh_link (get_or sorted j [])
  pub same_uninformed :
      (j : ℕ)
      → is_informed e (get_or sorted j []) ≡ false
      → target e' sh_info (get_or e'.shdrs j []) ≡ target e sh_info (get_or sorted j [])
  pub same_fields :
      (j : ℕ) (g : Field)
      → (g.at + g.width ≤ (sh_link e.class_of).at)
        ⊎ ((sh_info e.class_of).at + (sh_info e.class_of).width ≤ g.at)
      → get e.little_endian g (get_or e'.shdrs j []) ≡ get e.little_endian g (get_or sorted j [])
  pub same_strings :
      header_name e' (get_or e'.shdrs (hdr_get e' e_shstrndx) [])
      ≡ header_name e (get_or e.shdrs (hdr_get e e_shstrndx) [])

-- Once the field has got the index of a section, it is read back.
strings_put :
    (e : Elf) (t : IsTable e) (table : List (List ℕ)) (n : ℕ)
    → n < length e.shdrs
    → hdr_get (hdr_put (with_table e table) e_shstrndx n) e_shstrndx ≡ n
unfolding hdr_get hdr_put
strings_put e t table n lt =
    get-put e.little_endian (e_shstrndx e.class_of) n e.contents
      (omega (arith, strings_fit e.class_of, t.header))
    ∙ (index_fits e.class_of n (omega (arith, lt, t.short))).2

table-SameLinks :
    (e : Elf) (sorted : List (List ℕ)) (s : Sorts (comp_shdr e) e.shdrs sorted) (t : IsTable e)
    (m m' : NameMap) (table table' : List (List ℕ)) (n : ℕ)
    → Notes e sh_link links (is_linked e) (others e t) 1 [] m
    → Notes e sh_info informs (is_informed e) (others e t) 1 [] m'
    → Restored e sh_link links (is_linked e) m (others e t) 1 sorted table
    → Restored e sh_info informs (is_informed e) m' (others e t) 1 table table'
    → n < length table'
    → header_name e (get_or table' n []) ≡ header_name e (get_or e.shdrs (hdr_get e e_shstrndx) [])
    → SameLinks e sorted (hdr_put (with_table e table') e_shstrndx n)
unfolding hdr_put
table-SameLinks e sorted s t m m' table table' n notes notes' x x' high name =
    let put_back : hdr_get (hdr_put (with_table e table') e_shstrndx n) e_shstrndx ≡ n =
      strings_put e t table' n (omega (arith, high, x'.same_length, x.same_length, s.count)) in
    record {
      same_length = x'.same_length ∙ x.same_length;
      same_names = final_name e sorted s t m m' table table' notes notes' x x';
      same_links = final_link e sorted s t m m' table table' notes notes' x x';
      same_infos = final_info e sorted s t m m' table table' notes notes' x x';
      same_unlinked = final_unlinked e sorted s t m m' table table' notes notes' x x';
      same_uninformed = final_uninformed e sorted s t m m' table table' notes notes' x x';
      same_fields = final_field e sorted s t m m' table table' notes notes' x x';
      same_strings = ap (λ i. header_name e (get_or table' i [])) put_back ∙ name;
    }

-- On a section header table whose sections but the first have different names, all within the string
-- table, a place behind the first header's, and references within the table, with at most 2^16 - 1
-- headers, `sortShdrs` succeeds if `sort` sorts by every strict weak order. A section that referred to
-- another one by `sh_link`, or by `sh_info` with relocations, refers to the section of the same name by
-- its new index, and so does the file header to the string table's section. An `sh_link` that is 0, an
-- `sh_info` that is no such reference, and all fields before `sh_link` and behind `sh_info` are those of
-- the sorted table.
pub sort_shdrs-SameLinks :
    (sort : StdSort) (e : Elf)
    → IsSort sort
    → IsTable e
    → (e' : Elf) × (sort_shdrs sort e ≡ ok e') × SameLinks e (sort (comp_shdr e) e.shdrs) e'
unfolding sort_shdrs
sort_shdrs-SameLinks sort e law t =
    let sorted = sort (comp_shdr e) e.shdrs in
    let s = law (comp_shdr e) e.shdrs (comp_shdr-IsStrictWeakOrder e) in
    let (m, runs_links, notes) = note_links e t in
    let (m', runs_infos, notes') = note_infos e t in
    let (table, runs, x) =
      restore_loop e sh_link links (is_linked e) m (others e t) 1 sorted
        (links-Ready e sorted s t m notes) (omega (arith, s.count, t.count, t.some_section)) in
    let r' =
      infos-Ready e sorted s t m (others e t) table x (links-Ready e sorted s t m notes) m'
        notes' in
    let (table', runs', x') =
      restore_loop e sh_info informs (is_informed e) m' (others e t) 1 table r'
        (omega (arith, s.count, t.count, t.some_section, x.same_length)) in
    let (n, found, high, name) = final_strings e sorted s t m m' table table' notes notes' x x' in
    (
      hdr_put (with_table e table') e_shstrndx n,
      rw
          (
            runs_links,
            runs_infos,
            name_at-entry e e.shdrs (hdr_get e e_shstrndx) t.strings_inside
                (t.named (hdr_get e e_shstrndx) t.strings_inside),
            runs,
            runs',
            found,
          )
          refl,
      table-SameLinks e sorted s t m m' table table' n notes notes' x x' high name,
    )
