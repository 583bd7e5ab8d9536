-- ===== src/Patchelf/Rewrite/Sort/Kept.antt =====
-- `sortShdrs` as a whole: the sections are in another order, and refer to the same ones.
use electrum_lightning_test.Base.{
  ℕ, ◌+◌, ◌≤◌, ◌<◌, ◌≡◌, refl, sym, ap, ◌∙◌, inl, inr, arith, true, List, [], length, get_or,
}
use electrum_lightning_test.Patchelf.Elf.{sh_name, sh_type, sh_link, sh_info}
use electrum_lightning_test.Patchelf.File.{Elf}
use electrum_lightning_test.Patchelf.Compare.{comp_shdr}
use electrum_lightning_test.Patchelf.Rewrite.Sort.{NameMap, map_at, links, informs}
use electrum_lightning_test.Patchelf.Rewrite.Sort.Sorted.{Sorts}
use electrum_lightning_test.Patchelf.Rewrite.Sort.Names.{Every, header_name, IsNamed}
use electrum_lightning_test.Patchelf.Rewrite.Sort.Note.{target, target_name, Notes}
use electrum_lightning_test.Patchelf.Rewrite.Sort.Restore.{
  Ready, Restored, Restored-field, Restored-name, Restored-Named,
}
use electrum_lightning_test.Patchelf.Rewrite.Sort.Moved.{sorted-Every, noted_present}
use electrum_lightning_test.Patchelf.Rewrite.Sort.Links.{
  is_linked, is_informed, IsTable, tested-links, tested-informs, is_linked-pos, is_informed-pos,
  layout, others,
}

module _ (e : Elf) (sorted : List (List ℕ)) (s : Sorts (comp_shdr e) e.shdrs sorted)
    (t : IsTable e) where
  linked_inside : Every (λ h. target e sh_link h < length e.shdrs) sorted
  linked_inside = sorted-Every e sorted (λ h. target e sh_link h < length e.shdrs) s t.linked

  informed_inside : Every (λ h. is_informed e h ≡ true → target e sh_info h < length e.shdrs) sorted
  informed_inside =
      sorted-Every e sorted (λ h. is_informed e h ≡ true → target e sh_info h < length e.shdrs) s
        t.informed

  module _ (m : NameMap) (notes : Notes e sh_link links (is_linked e) (others e t) 1 [] m) where
    pub link_noted :
        (j : ℕ)
        → j < length sorted
        → is_linked e (get_or sorted j []) ≡ true
        → (map_at m (header_name e (get_or sorted j []))
            ≡ target_name e sh_link (get_or sorted j []))
          × ((k : ℕ) × (1 ≤ k)
              × (k < length sorted)
              × (header_name e (get_or sorted k [])
                  ≡ map_at m (header_name e (get_or sorted j []))))
    link_noted j lt d =
        noted_present e sorted sh_link links (is_linked e) [] m (others e t) j s t.placed notes
          (omega (arith, t.count, t.some_section)) t.null_linked
          (is_linked-pos e (get_or sorted j []) d) (linked_inside j lt) lt d

    pub links-Ready : Ready e sh_link links (is_linked e) m 1 sorted
    links-Ready = record {
      behind = (layout e.class_of).0;
      tested = tested-links e;
      count = t.count ∙ sym s.count;
      named = sorted-Every e sorted (IsNamed e) s t.named;
      present = λ j first lt d. (link_noted j lt d).1;
    }

  module _ (m : NameMap) (notes : Notes e sh_info informs (is_informed e) (others e t) 1 [] m) where
    pub info_noted :
        (j : ℕ)
        → j < length sorted
        → is_informed e (get_or sorted j []) ≡ true
        → (map_at m (header_name e (get_or sorted j []))
            ≡ target_name e sh_info (get_or sorted j []))
          × ((k : ℕ) × (1 ≤ k)
              × (k < length sorted)
              × (header_name e (get_or sorted k [])
                  ≡ map_at m (header_name e (get_or sorted j []))))
    info_noted j lt d =
        noted_present e sorted sh_info informs (is_informed e) [] m (others e t) j s t.placed notes
          (omega (arith, t.count, t.some_section)) t.null_informed
          (is_informed-pos e (get_or sorted j []) d) (informed_inside j lt d) lt d

  -- Between the two loops: the table with its links restored.
  module _ (m : NameMap) (k : ℕ) (table : List (List ℕ))
      (x : Restored e sh_link links (is_linked e) m k 1 sorted table)
      (r : Ready e sh_link links (is_linked e) m 1 sorted) where
    pub informed_kept :
        (j : ℕ) → is_informed e (get_or table j []) ≡ is_informed e (get_or sorted j [])
    informed_kept j =
        let l = layout e.class_of in
        let field = Restored-field e sh_link links (is_linked e) m k 1 sorted table j in
        rw (field (sh_info e.class_of) (inr l.2) x, field (sh_type e.class_of) (inl l.1) x) refl

    pub name_kept : (j : ℕ) → header_name e (get_or table j []) ≡ header_name e (get_or sorted j [])
    name_kept j = Restored-name e sh_link links (is_linked e) m 1 k 1 sorted table j r x

    pub infos-Ready :
        (m' : NameMap)
        → Notes e sh_info informs (is_informed e) (others e t) 1 [] m'
        → Ready e sh_info informs (is_informed e) m' 1 table
    infos-Ready m' notes = record {
      behind =
          (let l = layout e.class_of in
            let le : (sh_name e.class_of).at + (sh_name e.class_of).width
                ≤ (sh_info e.class_of).at =
              omega (arith, l.0, l.2) in
            le);
      tested = tested-informs e;
      count = t.count ∙ sym s.count ∙ sym x.same_length;
      named = Restored-Named e sh_link links (is_linked e) m 1 k 1 sorted table r x;
      present = λ j first lt d.
          let lt' : j < length sorted = omega (arith, lt, x.same_length) in
          let (i, low, high, same) = (info_noted m' notes j lt' (sym (informed_kept j) ∙ d)).1 in
          (
            i,
            low,
            omega (arith, high, x.same_length),
            name_kept i ∙ same ∙ ap (map_at m') (sym (name_kept j)),
          );
    }
