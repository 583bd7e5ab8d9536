-- ===== src/Patchelf/Rewrite/Write/Loop.antt =====
-- The second loop of `writeReplacedSections`.
use electrum_lightning_test.Base.{
  ℕ, ◌+◌, ◌%◌, ◌^◌, ◌≤◌, ◌<◌, ◌≡◌, refl, ap, ◌∙◌, arith, List, [], ◌∷◌, length, length-overwrite,
  All,
}
use native.Mathlib.Nat.{mod-eq_of_lt}
use native.Mathlib.Decide.{dec_lt}
use electrum_lightning_test.Patchelf.Elf.{Class, elf32, elf64, sum, ehdr}
use electrum_lightning_test.Patchelf.Word.{round_up}
use electrum_lightning_test.Patchelf.Word.Round.{round_up_least}
use electrum_lightning_test.Patchelf.Result.{ok}
use electrum_lightning_test.Patchelf.File.{Elf, section_alignment}
use electrum_lightning_test.Patchelf.Dynamic.{Name}
use electrum_lightning_test.Patchelf.Headers.{word}
use electrum_lightning_test.Patchelf.Rewrite.{needed_space}
use electrum_lightning_test.Patchelf.Rewrite.Write.{write_sections}
use electrum_lightning_test.Patchelf.Rewrite.Write.Put.{written, write_section-written}
use electrum_lightning_test.Patchelf.Rewrite.Write.Wrote.{IsKnown, Distinct, Wrote}
use electrum_lightning_test.Patchelf.Rewrite.Write.Round.{after, after_known, Wrote-then}

alignment_small : (c : Class) → (1 ≤ section_alignment c) × (section_alignment c ≤ 8)
alignment_small elf32 = (omega arith, omega arith)
alignment_small elf64 = (omega arith, omega arith)

le-round_up : (c : Class) (n : ℕ) → n + 8 ≤ 2 ^ 32 → n ≤ round_up n (section_alignment c)
le-round_up c n h = elim (dec_lt 0 n) [
  | yes some_n ↦
      let a = alignment_small c in
      (round_up_least n (section_alignment c) (omega (arith, some_n)) a.0 (omega (arith, h, a.1))).0
  | no none_n ↦ (let le : n ≤ round_up n (section_alignment c) = omega (arith, none_n) in le)
]

-- The loop ends well, with every replacement stored.
pub write_sections-Wrote :
    (start_addr start_offset : ℕ) (sections : List (Name × List ℕ)) (cur : ℕ) (e : Elf)
    → All (IsKnown e) sections
    → Distinct sections
    → sum (ehdr e.class_of) ≤ cur
    → cur + needed_space e.class_of sections ≤ length e.contents
    → length e.contents < word e.class_of
    → (contents : List ℕ) × (table : List (List ℕ)) × (ps : List (List ℕ)) × (write_sections
          start_addr start_offset sections cur e
        ≡ ok (cur + needed_space e.class_of sections, written e contents table ps))
      × Wrote e cur sections (written e contents table ps)
unfolding write_sections needed_space
write_sections-Wrote start_addr start_offset [] cur e known distinct behind fits small = (
  e.contents,
  e.shdrs,
  e.phdrs,
  ap (λ n. ok (n, e)) (omega arith),
  record {
    same_length = refl;
    same_count = refl;
    same_names = λ j. refl;
    same_headers = λ j none_at. refl;
    same_bytes = λ i b before h. h;
    stored = tt;
  },
)
write_sections-Wrote start_addr start_offset (entry ∷ rest) cur e known distinct behind fits small =
    let k = known.0 in
    let c = e.class_of in
    let size = round_up (length entry.1) (section_alignment c) in
    let enough : length entry.1 ≤ size = le-round_up c (length entry.1) k.short in
    let (ps, address, round) =
      write_section-written cur start_addr start_offset entry.0 entry.1 e k.index k.header k.found
        k.here (omega (arith, fits, enough)) in
    let e1 = after e cur address entry k ps behind in
    let same_length = length-overwrite e.contents cur entry.1 in
    let (contents, table, ps', runs, y) =
      write_sections-Wrote start_addr start_offset rest (cur + size) e1
        (after_known e cur address entry k ps behind rest distinct.0 known.1) distinct.1
        (omega (arith, behind)) (omega (arith, fits, same_length))
        (omega (arith, small, same_length)) in
    let no_wrap : (cur + size) % word c ≡ cur + size = mod-eq_of_lt (omega (arith, fits, small)) in
    (
      contents,
      table,
      ps',
      rw (round, no_wrap) (runs ∙ ap (λ n. ok (n, written e contents table ps')) (omega arith)),
      Wrote-then e cur address entry k ps behind rest (cur + size) contents table ps' distinct.0
          known.1 (omega (arith, enough)) (omega (arith, fits, enough)) small y,
    )
