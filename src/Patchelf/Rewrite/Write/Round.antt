-- ===== src/Patchelf/Rewrite/Write/Round.antt =====
-- A round of the second loop of `writeReplacedSections`, and what the rest keeps of it.
use electrum_lightning_test.Base.{
  ℕ, ◌+◌, ◌≤◌, ◌<◌, ◌≡◌, ◌≢◌, sym, ap, ◌∙◌, inr, arith, List, [], ◌∷◌, length, length-overwrite,
  set, overwrite, All,
}
use mathlib.Core.Path.{subst}
use electrum_lightning_test.Base.Region.{Holds, Holds-self, Holds-keep}
use electrum_lightning_test.Patchelf.Elf.{sum, ehdr}
use electrum_lightning_test.Patchelf.Result.{ok, ok-inj}
use electrum_lightning_test.Patchelf.File.{Elf}
use electrum_lightning_test.Patchelf.Section.{find_section, shdr_at, name_at, get_section_name}
use electrum_lightning_test.Patchelf.Dynamic.{Name}
use electrum_lightning_test.Patchelf.Headers.{word}
use electrum_lightning_test.Patchelf.Rewrite.Write.Named.{
  shdr_at-set, shdr_at-set_ne, name_at-set, find_section-same, find_section_name,
}
use electrum_lightning_test.Patchelf.Rewrite.Write.Put.{
  header_after, header_name_place, header_offset, header_size, written,
}
use electrum_lightning_test.Patchelf.Rewrite.Write.Wrote.{IsKnown, Wrote, shnum_kept}

-- The object after a round, before the rest.
module _ (e : Elf) (cur address : ℕ) (entry : Name × List ℕ) (k : IsKnown e entry)
    (ps : List (List ℕ)) (behind : sum (ehdr e.class_of) ≤ cur) where
  abbrev header' : List ℕ
  header' = header_after e cur address (length entry.1) k.header

  abbrev pub after : Elf
  after = written e (overwrite e.contents cur entry.1) (set e.shdrs k.index header') ps

  after_names : (j : ℕ) → name_at after j ≡ name_at e j
  unfolding name_at shdr_at get_section_name
  after_names j =
      name_at-set e k.index k.header header' j k.here
        (header_name_place e cur address (length entry.1) k.header)

  after_found : (name : Name) → find_section after name ≡ find_section e name
  after_found name =
      find_section-same e after name
        (shnum_kept e cur entry.1 (set e.shdrs k.index header') ps behind) after_names

  after_here : shdr_at after k.index ≡ ok header'
  unfolding shdr_at
  after_here = shdr_at-set e k.index k.header header' k.here

  after_others : (j : ℕ) → k.index ≢ j → shdr_at after j ≡ shdr_at e j
  unfolding shdr_at
  after_others j apart = shdr_at-set_ne e k.index j header' apart

  -- Sections with different names are different ones.
  other_index :
      (other : Name × List ℕ) (x : IsKnown e other) → entry.0 ≢ other.0 → k.index ≢ x.index
  other_index other x apart same = apart (
      ok-inj (
        sym (find_section_name e entry.0 k.index k.found)
        ∙ ap (name_at e) same
        ∙ find_section_name e other.0 x.index x.found))

  pub after_known :
      (rest : List (Name × List ℕ))
      → All (λ other. entry.0 ≢ other.0) rest
      → All (IsKnown e) rest
      → All (IsKnown after) rest
  after_known [] apart known = tt
  after_known (other ∷ rest) apart known =
      let x = known.0 in
      (
        record {
          index = x.index;
          header = x.header;
          found = after_found other.0 ∙ x.found;
          here = after_others x.index (other_index other x apart.0) ∙ x.here;
          long = x.long;
          short = x.short;
        },
        after_known rest apart.1 known.1,
      )

  after_not_found :
      (j : ℕ) (rest : List (Name × List ℕ))
      → All (λ other. find_section e other.0 ≢ ok j) rest
      → All (λ other. find_section after other.0 ≢ ok j) rest
  after_not_found j [] h = tt
  after_not_found j (other ∷ rest) h =
      (λ q. h.0 (sym (after_found other.0) ∙ q), after_not_found j rest h.1)

  not_this :
      (rest : List (Name × List ℕ))
      → All (λ other. entry.0 ≢ other.0) rest
      → All (IsKnown e) rest
      → All (λ other. find_section e other.0 ≢ ok k.index) rest
  not_this [] apart known = tt
  not_this (other ∷ rest) apart known =
      let x = known.0 in
      (
        λ q. other_index other x apart.0 (sym (ok-inj (sym x.found ∙ q))),
        not_this rest apart.1 known.1,
      )

  -- A round, and then the rest.
  pub Wrote-then :
      (rest : List (Name × List ℕ)) (next : ℕ) (contents : List ℕ) (table ps' : List (List ℕ))
      → All (λ other. entry.0 ≢ other.0) rest
      → All (IsKnown e) rest
      → cur + length entry.1 ≤ next
      → cur + length entry.1 ≤ length e.contents
      → length e.contents < word e.class_of
      → Wrote after next rest (written e contents table ps')
      → Wrote e cur (entry ∷ rest) (written e contents table ps')
  Wrote-then rest next contents table ps' apart known further inside small y =
      let e' = written e contents table ps' in
      let at_cur =
        header_offset e cur address (length entry.1) k.header k.long
          (omega (arith, inside, small)) in
      let same_count =
        y.same_count ∙ shnum_kept e cur entry.1 (set e.shdrs k.index header') ps behind in
      let same_names : (j : ℕ) → name_at e' j ≡ name_at e j = λ j. y.same_names j ∙ after_names j in
      let same_length = y.same_length ∙ length-overwrite e.contents cur entry.1 in
      record {
        same_length = same_length;
        same_count = same_count;
        same_names = same_names;
        same_headers = λ j none_at.
            y.same_headers j (after_not_found j rest none_at.1)
            ∙ after_others j (λ q. none_at.0 (k.found ∙ ap ok q));
        same_bytes = λ i b before h.
            y.same_bytes i b (omega (arith, before, further))
              (Holds-keep e.contents i b cur entry.1 (inr before) h);
        stored = (
          record {
            index = k.index;
            header = header';
            found = find_section-same e e' entry.0 same_count same_names ∙ k.found;
            here =
                y.same_headers k.index (after_not_found k.index rest (not_this rest apart known))
                ∙ after_here;
            inside = omega (arith, at_cur, inside, same_length);
            size =
                header_size e cur address (length entry.1) k.header k.long
                  (omega (arith, inside, small));
            bytes =
                subst (λ n. Holds contents n entry.1) (sym at_cur)
                  (y.same_bytes cur entry.1 further (Holds-self e.contents cur entry.1 inside));
          },
          y.stored,
        );
      }
