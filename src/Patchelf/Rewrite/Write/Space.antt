-- ===== src/Patchelf/Rewrite/Write/Space.antt =====
-- The space that `writeReplacedSections` takes.
use electrum_lightning_test.Base.{
  ℕ, suc, zero, ◌+◌, ◌%◌, ◌<◌, ◌≡◌, refl, ap, ◌∙◌, arith, ◌==◌, leb, List, [], ◌∷◌, length,
  Bool-cases, inl, inr,
}
use mathlib.Core.Path.{subst}
use native.Mathlib.Nat.{mod-add-mod, mod-lt}
use electrum_lightning_test.Patchelf.Elf.{
  Class, Field, elf32, elf64, p_type, p_offset, p_vaddr, p_paddr, p_filesz, p_memsz, sh_offset,
  sh_addr, sh_size, sh_addralign,
}
use electrum_lightning_test.Patchelf.Word.{round_up}
use electrum_lightning_test.Patchelf.Result.{
  Result, ok, fault, ◌>>=◌, Gives, ok-Gives, after-Gives, then-Gives, elim-Gives,
}
use electrum_lightning_test.Patchelf.File.{Elf, section_alignment}
use electrum_lightning_test.Patchelf.Section.{find_section, shdr_at, string_eq}
use electrum_lightning_test.Patchelf.Interpreter.{dot_interp}
use electrum_lightning_test.Patchelf.Dynamic.{Name, dot_dynamic, write_bytes}
use electrum_lightning_test.Patchelf.Headers.{
  for_range, shdr_get, shdr_put, phdr_get, phdr_at, phdr_put_raw, word,
}
use electrum_lightning_test.Patchelf.Rewrite.{needed_space}
use electrum_lightning_test.Patchelf.Rewrite.Write.{
  sync_segment, sync_segments, write_section, write_sections, cross_sections,
  write_replaced_sections,
}

-- A step that keeps the class of the file.
abbrev In : Class → Elf → Type 0
In c e = e.class_of ≡ c

abbrev Keeps : (Elf → Result Elf) → Type 0
Keeps step = (c : Class) (e : Elf) → In c e → Gives (In c) (step e)

next :
    (c : Class) {r : Result Elf} {k : Elf → Result Elf}
    → Gives (In c) r
    → ((e : Elf) → In c e → Gives (In c) (k e))
    → Gives (In c) (r >>= k)
next c {r} g f = then-Gives (In c) (In c) r g f

write_bytes-Keeps : (at : ℕ) (b : List ℕ) → Keeps (λ e. write_bytes e at b)
unfolding write_bytes
write_bytes-Keeps at b c e p e' h = elim (Bool-cases (leb (at + length b) (length e.contents))) [
  | inl fits ↦ ok-Gives (In c) _ p e' (rw fits at h)
  | inr out ↦ (let bad : fault ≡ ok e' = rw out at h in cc)
]

shdr_put-Keeps : (f : Class → Field) (v i : ℕ) → Keeps (shdr_put f v i)
unfolding shdr_put
shdr_put-Keeps f v i c e p = after-Gives (In c) (shdr_at e i) (λ s. ok-Gives (In c) _ p)

phdr_put_raw-Keeps : (f : Class → Field) (b : List ℕ) (i : ℕ) → Keeps (phdr_put_raw f b i)
unfolding phdr_put_raw
phdr_put_raw-Keeps f b i c e p = after-Gives (In c) (phdr_at e i) (λ s. ok-Gives (In c) _ p)

for_range-Keeps :
    (body : ℕ → Elf → Result Elf) (k i : ℕ)
    → ((j : ℕ) → Keeps (body j))
    → Keeps (for_range body k i)
unfolding for_range
for_range-Keeps body zero i h c e p = ok-Gives (In c) e p
for_range-Keeps body (suc k) i h c e p =
    next c (h i c e p) (λ e' p'. for_range-Keeps body k (i + 1) h c e' p')

sync_segment-Keeps : (type i j : ℕ) → Keeps (sync_segment type i j)
unfolding sync_segment
sync_segment-Keeps type i j c e p = after-Gives (In c) (phdr_get e j p_type) (λ t.
    elim-Gives (In c) (t == type)
      (after-Gives (In c) (shdr_at e i) (λ s.
        next c (phdr_put_raw-Keeps p_offset _ j c e p) (λ e1 p1.
          next c (phdr_put_raw-Keeps p_paddr _ j c e1 p1) (λ e2 p2.
            next c (phdr_put_raw-Keeps p_vaddr _ j c e2 p2) (λ e3 p3.
              next c (phdr_put_raw-Keeps p_memsz _ j c e3 p3)
                (λ e4 p4. phdr_put_raw-Keeps p_filesz _ j c e4 p4))))))
      (ok-Gives (In c) e p))

sync_segments-Keeps : (name key : Name) (type i : ℕ) → Keeps (sync_segments name key type i)
unfolding sync_segments
sync_segments-Keeps name key type i c e p =
    elim-Gives (In c) (string_eq name key)
      (for_range-Keeps (sync_segment type i) (length e.phdrs) 0 (sync_segment-Keeps type i) c e p)
      (ok-Gives (In c) e p)

write_section-Keeps :
    (cur_off start_addr start_offset : ℕ) (name : Name) (bytes : List ℕ)
    → Keeps (write_section cur_off start_addr start_offset name bytes)
unfolding write_section
write_section-Keeps cur_off start_addr start_offset name bytes c e p =
    after-Gives (In c) (find_section e name) (λ i.
      next c (write_bytes-Keeps cur_off bytes c e p) (λ e1 p1.
        next c (shdr_put-Keeps sh_offset _ i c e1 p1) (λ e2 p2.
          next c (shdr_put-Keeps sh_addr _ i c e2 p2) (λ e3 p3.
            next c (shdr_put-Keeps sh_size _ i c e3 p3) (λ e4 p4.
              next c (shdr_put-Keeps sh_addralign _ i c e4 p4) (λ e5 p5.
                next c (sync_segments-Keeps name dot_interp _ i c e5 p5)
                  (λ e6 p6. sync_segments-Keeps name dot_dynamic _ i c e6 p6)))))))

cross_sections-Keeps : (sections : List (Name × List ℕ)) → Keeps (cross_sections sections)
unfolding cross_sections
cross_sections-Keeps [] c e p = ok-Gives (In c) e p
cross_sections-Keeps (entry ∷ rest) c e p = after-Gives (In c) (find_section e entry.0) (λ i.
    after-Gives (In c) (shdr_get e i sh_offset) (λ offset.
      after-Gives (In c) (shdr_get e i sh_size) (λ size.
        next c (write_bytes-Keeps offset _ c e p) (λ e' p'. cross_sections-Keeps rest c e' p'))))

small : (c : Class) (n : ℕ) → n < word c → n ≡ (n + 0) % word c
small elf32 n h = omega (arith, h)
small elf64 n h = omega (arith, h)

word-lt : (c : Class) → 0 < word c
word-lt elf32 = omega arith
word-lt elf64 = omega arith

-- Where `curOff` is behind the sections.
abbrev Ends : Class → (start : ℕ) → List (Name × List ℕ) → ℕ × Elf → Type 0
Ends c start sections r = r.0 ≡ (start + needed_space c sections) % word c

write_sections-Ends :
    (start_addr start_offset : ℕ) (sections : List (Name × List ℕ)) (start : ℕ) (c : Class)
    (e : Elf)
    → In c e
    → start < word c
    → Gives (Ends c start sections) (write_sections start_addr start_offset sections start e)
unfolding write_sections needed_space
write_sections-Ends start_addr start_offset [] start c e p fits =
    ok-Gives (Ends c start []) (start, e) (small c start fits)
write_sections-Ends start_addr start_offset (entry ∷ rest) start c e p fits =
    then-Gives (In c) (Ends c start (entry ∷ rest))
      (write_section start start_addr start_offset entry.0 entry.1 e)
      (write_section-Keeps start start_addr start_offset entry.0 entry.1 c e p)
      (λ e' p' r h.
        let size = round_up (length entry.1) (section_alignment c) in
        let found =
          subst
            (λ d.
              write_sections start_addr start_offset rest
                ((start + round_up (length entry.1) (section_alignment d)) % word d) e'
              ≡ ok r)
            p h in
        write_sections-Ends start_addr start_offset rest ((start + size) % word c) c e' p'
          (mod-lt (start + size) (word-lt c)) r found
        ∙ mod-add-mod (start + size) (word c) (needed_space c rest)
        ∙ ap (λ n. n % word c)
            (let n : start + size + needed_space c rest ≡ start + (size + needed_space c rest) =
                omega arith in
              n))

-- When writeReplacedSections returns, `curOff` has advanced, within its type, by the sum of the rounded
-- sizes that both callers count as the space needed, and no replacement is left.
pub write_replaced_sections-Ends :
    (start start_addr start_offset : ℕ) (e : Elf) (r : ℕ × Elf)
    → start < word e.class_of
    → write_replaced_sections start start_addr start_offset e ≡ ok r
    → (r.0 ≡ (start + needed_space e.class_of e.replaced_sections) % word e.class_of)
      × (r.1.replaced_sections ≡ [])
unfolding write_replaced_sections
write_replaced_sections-Ends start start_addr start_offset e r fits done =
    let c = e.class_of in
    let P : ℕ × Elf → Type 0 = λ x.
      (x.0 ≡ (start + needed_space c e.replaced_sections) % word c)
      × (x.1.replaced_sections ≡ []) in
    then-Gives (In c) P (cross_sections e.replaced_sections e)
      (cross_sections-Keeps e.replaced_sections c e refl)
      (λ e1 p1.
        then-Gives (Ends c start e.replaced_sections) P
          (write_sections start_addr start_offset e.replaced_sections start e1)
          (write_sections-Ends start_addr start_offset e.replaced_sections start c e1 p1 fits)
          (λ w end. ok-Gives P _ (end, refl)))
      r done
