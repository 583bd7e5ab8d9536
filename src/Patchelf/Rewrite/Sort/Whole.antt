-- ===== src/Patchelf/Rewrite/Sort/Whole.antt =====
-- What `sortShdrs` leaves, once both of its loops that put indices back have run.
use electrum_lightning_test.Base.{
  ℕ, ◌+◌, ◌%◌, ◌^◌, ◌≤◌, ◌<◌, ◌≡◌, sym, ap, ◌∙◌, ◌⊎◌, inl, inr, arith, true, false, List, [],
  length, get_or,
}
use electrum_lightning_test.Patchelf.Elf.{Class, Field, sum, shdr, e_shstrndx, sh_link, sh_info}
use electrum_lightning_test.Patchelf.Result.{ok}
use electrum_lightning_test.Patchelf.File.{Elf, get, put, hdr_get}
use electrum_lightning_test.Patchelf.File.Fields.{get-put}
use electrum_lightning_test.Patchelf.Section.{find_section3}
use electrum_lightning_test.Patchelf.Compare.{comp_shdr}
use electrum_lightning_test.Patchelf.Rewrite.Sort.{NameMap, map_at, links, informs}
use electrum_lightning_test.Patchelf.Rewrite.Sort.Sorted.{Sorts}
use electrum_lightning_test.Patchelf.Rewrite.Sort.Names.{
  with_table, Every, header_name, find_by_name,
}
use electrum_lightning_test.Patchelf.Rewrite.Sort.Note.{target, target_name, Notes}
use electrum_lightning_test.Patchelf.Rewrite.Sort.Restore.{
  Ready, Restored, Restored-field, Restored-length, Restored-skipped, Restored-name, Restored-Named,
}
use electrum_lightning_test.Patchelf.Rewrite.Sort.Moved.{find_moved, sorted-Every}
use electrum_lightning_test.Patchelf.Rewrite.Sort.Links.{
  is_linked, is_informed, IsTable, layout, index_fits, others,
}
use electrum_lightning_test.Patchelf.Rewrite.Sort.Kept.{
  link_noted, links-Ready, info_noted, informed_kept, name_kept, infos-Ready,
}

-- What a header refers to once its field has got an index.
put_target :
    (e : Elf) (f : Class → Field) (table : List (List ℕ)) (h : List ℕ) (n : ℕ)
    → (f e.class_of).at + (f e.class_of).width ≤ length h
    → n % 256 ^ (f e.class_of).width ≡ n
    → get e.little_endian (f e.class_of) (put e.little_endian (f e.class_of) n h) ≡ n
put_target e f table h n fits small = get-put e.little_endian (f e.class_of) n h fits ∙ small

module _ (e : Elf) (sorted : List (List ℕ)) (s : Sorts (comp_shdr e) e.shdrs sorted) (t : IsTable e)
    (m m' : NameMap) (table table' : List (List ℕ))
    (notes : Notes e sh_link links (is_linked e) (others e t) 1 [] m)
    (notes' : Notes e sh_info informs (is_informed e) (others e t) 1 [] m')
    (x : Restored e sh_link links (is_linked e) m (others e t) 1 sorted table)
    (x' : Restored e sh_info informs (is_informed e) m' (others e t) 1 table table') where
  pub ready : Ready e sh_link links (is_linked e) m 1 sorted
  ready = links-Ready e sorted s t m notes

  pub ready' : Ready e sh_info informs (is_informed e) m' 1 table
  ready' = infos-Ready e sorted s t m (others e t) table x ready m' notes'

  pub final_name : (j : ℕ) → header_name e (get_or table' j []) ≡ header_name e (get_or sorted j [])
  final_name j =
      Restored-name e sh_info informs (is_informed e) m' 1 (others e t) 1 table table' j ready' x'
      ∙ name_kept e sorted s t m (others e t) table x ready j

  whole : length sorted ≡ 1 + others e t
  whole = omega (arith, s.count, t.count, t.some_section)

  sized : Every (λ h. length h ≡ sum (shdr e.class_of)) sorted
  sized = sorted-Every e sorted (λ h. length h ≡ sum (shdr e.class_of)) s t.sized

  pub final_link :
      (j : ℕ)
      → 1 ≤ j
      → j < length sorted
      → is_linked e (get_or sorted j []) ≡ true
      → header_name e (get_or table' (target e sh_link (get_or table' j [])) [])
        ≡ target_name e sh_link (get_or sorted j [])
  final_link j first lt d =
      let (n, low, high, same, put_here) = x.done j first (omega (arith, lt, whole)) d in
      let l = layout e.class_of in
      let points : target e sh_link (get_or table' j []) ≡ n =
        Restored-field e sh_info informs (is_informed e) m' (others e t) 1 table table' j
          (sh_link e.class_of) (inl l.2) x'
        ∙ ap (target e sh_link) put_here
        ∙ put_target e sh_link table (get_or sorted j []) n (omega (arith, sized j lt, l.2, l.3))
            (index_fits e.class_of n (omega (arith, high, s.count, t.short))).0 in
      ap (λ i. header_name e (get_or table' i [])) points
      ∙ final_name n
      ∙ same
      ∙ (link_noted e sorted s t m notes j lt d).0

  pub final_info :
      (j : ℕ)
      → 1 ≤ j
      → j < length sorted
      → is_informed e (get_or sorted j []) ≡ true
      → header_name e (get_or table' (target e sh_info (get_or table' j [])) [])
        ≡ target_name e sh_info (get_or sorted j [])
  final_info j first lt d =
      let kept = informed_kept e sorted s t m (others e t) table x ready j in
      let (n, low, high, same, put_here) = x'.done j first (omega (arith, lt, whole)) (kept ∙ d) in
      let l = layout e.class_of in
      let long : length (get_or table j []) ≡ sum (shdr e.class_of) =
        Restored-length e sh_link links (is_linked e) m (others e t) 1 sorted table j x
        ∙ sized j lt in
      let points : target e sh_info (get_or table' j []) ≡ n =
        ap (target e sh_info) put_here
        ∙ put_target e sh_info table (get_or table j []) n (omega (arith, long, l.3))
            (index_fits e.class_of n (omega (arith, high, x.same_length, s.count, t.short))).1 in
      ap (λ i. header_name e (get_or table' i [])) points
      ∙ final_name n
      ∙ sym (name_kept e sorted s t m (others e t) table x ready n)
      ∙ same
      ∙ ap (map_at m') (name_kept e sorted s t m (others e t) table x ready j)
      ∙ (info_noted e sorted s t m' notes' j lt d).0

  pub final_unlinked :
      (j : ℕ)
      → is_linked e (get_or sorted j []) ≡ false
      → target e sh_link (get_or table' j []) ≡ target e sh_link (get_or sorted j [])
  final_unlinked j h =
      Restored-field e sh_info informs (is_informed e) m' (others e t) 1 table table' j
        (sh_link e.class_of) (inl (layout e.class_of).2) x'
      ∙ ap (target e sh_link)
          (Restored-skipped e sh_link links (is_linked e) m (others e t) 1 sorted table j h x)

  pub final_uninformed :
      (j : ℕ)
      → is_informed e (get_or sorted j []) ≡ false
      → target e sh_info (get_or table' j []) ≡ target e sh_info (get_or sorted j [])
  final_uninformed j h =
      let kept = informed_kept e sorted s t m (others e t) table x ready j in
      ap (target e sh_info) (
        Restored-skipped e sh_info informs (is_informed e) m' (others e t) 1 table table' j
          (kept ∙ h) x')
      ∙ Restored-field e sh_link links (is_linked e) m (others e t) 1 sorted table j
          (sh_info e.class_of) (inr (layout e.class_of).2) x

  pub final_field :
      (j : ℕ) (g : Field)
      → (g.at + g.width ≤ (sh_link e.class_of).at)
        ⊎ ((sh_info e.class_of).at + (sh_info e.class_of).width ≤ g.at)
      → get e.little_endian g (get_or table' j []) ≡ get e.little_endian g (get_or sorted j [])
  final_field j g apart =
      let l = layout e.class_of in
      let (from_info, from_link) = around apart in
      Restored-field e sh_info informs (is_informed e) m' (others e t) 1 table table' j g from_info
        x'
      ∙ Restored-field e sh_link links (is_linked e) m (others e t) 1 sorted table j g from_link x
    where
      around :
          (g.at + g.width ≤ (sh_link e.class_of).at)
            ⊎ ((sh_info e.class_of).at + (sh_info e.class_of).width ≤ g.at)
          → ((g.at + g.width ≤ (sh_info e.class_of).at)
              ⊎ ((sh_info e.class_of).at + (sh_info e.class_of).width ≤ g.at))
            × ((g.at + g.width ≤ (sh_link e.class_of).at)
                ⊎ ((sh_link e.class_of).at + (sh_link e.class_of).width ≤ g.at))
      around (inl before) = (inl (omega (arith, before, (layout e.class_of).2)), inl before)
      around (inr behind) = (inr behind, inr (omega (arith, behind, (layout e.class_of).2)))

  -- The string table's section is found by its name.
  pub final_strings :
      (n : ℕ) × (find_section3
          (with_table e table')
          (header_name e (get_or e.shdrs (hdr_get e e_shstrndx) []))
        ≡ ok n)
      × (n < length table')
      × (header_name e (get_or table' n [])
          ≡ header_name e (get_or e.shdrs (hdr_get e e_shstrndx) []))
  final_strings =
      let (k, first, k_lt, same) =
        find_moved e sorted (hdr_get e e_shstrndx) s t.placed t.strings t.strings_inside in
      let (n, found, low, high, name) =
        find_by_name e table' (header_name e (get_or e.shdrs (hdr_get e e_shstrndx) [])) k
          (omega (arith, ready'.count, x'.same_length))
          (Restored-Named e sh_info informs (is_informed e) m' 1 (others e t) 1 table table' ready'
            x')
          first (omega (arith, k_lt, x.same_length, x'.same_length))
          (final_name k ∙ ap (header_name e) same) in
      (n, found, high, name)
