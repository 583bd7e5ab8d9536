-- ===== src/Patchelf/Rewrite/Write/Sync.antt =====
-- The loop of `writeReplacedSections` over the segments changes the program headers only.
use electrum_lightning_test.Base.{
  ℕ, suc, zero, ◌+◌, ◌≤◌, ◌<◌, ◌≡◌, refl, ◌∙◌, arith, ◌==◌, Bool-cases, inl, inr, List, [], length,
  length-set, get_or, set, overwrite,
}
use electrum_lightning_test.Base.Table.{get_elem?-get_or}
use electrum_lightning_test.Patchelf.Elf.{
  Class, Field, p_type, p_offset, p_vaddr, p_paddr, p_filesz, p_memsz, sh_offset, sh_addr, sh_size,
}
use electrum_lightning_test.Patchelf.Result.{Result, ok, ◌>>=◌, elim_true, elim_false}
use electrum_lightning_test.Patchelf.File.{Elf, get}
use electrum_lightning_test.Patchelf.Section.{shdr_at, string_eq}
use electrum_lightning_test.Patchelf.Dynamic.{Name}
use electrum_lightning_test.Patchelf.Headers.{for_range, phdr_at, phdr_get, phdr_put_raw, raw_field}
use electrum_lightning_test.Patchelf.Rewrite.Write.{sync_segment, sync_segments}

abbrev pub with_phdrs : Elf → List (List ℕ) → Elf
with_phdrs e ps = record e { phdrs = ps }

-- A step that ends well with other program headers, as many as before.
abbrev pub Syncs : Elf → Result Elf → Type 0
Syncs e r = (ps : List (List ℕ)) × (length ps ≡ length e.phdrs) × (r ≡ ok (with_phdrs e ps))

phdr_at-entry : (e : Elf) (j : ℕ) → j < length e.phdrs → phdr_at e j ≡ ok (get_or e.phdrs j [])
unfolding phdr_at
phdr_at-entry e j lt = rw (phdr_at, get_elem?-get_or e.phdrs j [] lt) refl

phdr_put_raw-Syncs :
    (f : Class → Field) (b : List ℕ) (j : ℕ) (e : Elf)
    → j < length e.phdrs
    → Syncs e (phdr_put_raw f b j e)
unfolding phdr_put_raw
phdr_put_raw-Syncs f b j e lt =
    let h = get_or e.phdrs j [] in
    let h' = overwrite h (f e.class_of).at b in
    (set e.phdrs j h', length-set e.phdrs j h', rw (phdr_at-entry e j lt) refl)

fields-Syncs :
    (j : ℕ) (e : Elf) (a b c d f : List ℕ)
    → j < length e.phdrs
    → Syncs e (
        phdr_put_raw p_offset a j e >>= λ e1. phdr_put_raw p_paddr b j e1 >>= λ e2.
        phdr_put_raw p_vaddr c j e2 >>= λ e3.
        phdr_put_raw p_memsz d j e3 >>= λ e4. phdr_put_raw p_filesz f j e4)
fields-Syncs j e a b c d f lt =
    let (p1, l1, r1) = phdr_put_raw-Syncs p_offset a j e lt in
    let (p2, l2, r2) = phdr_put_raw-Syncs p_paddr b j (with_phdrs e p1) (omega (arith, lt, l1)) in
    let (p3, l3, r3) =
      phdr_put_raw-Syncs p_vaddr c j (with_phdrs e p2) (omega (arith, lt, l1, l2)) in
    let (p4, l4, r4) =
      phdr_put_raw-Syncs p_memsz d j (with_phdrs e p3) (omega (arith, lt, l1, l2, l3)) in
    let (p5, l5, r5) =
      phdr_put_raw-Syncs p_filesz f j (with_phdrs e p4) (omega (arith, lt, l1, l2, l3, l4)) in
    (p5, l5 ∙ l4 ∙ l3 ∙ l2 ∙ l1, rw (r1, r2, r3, r4) r5)

sync_segment-Syncs :
    (type i j : ℕ) (e : Elf) (h : List ℕ)
    → shdr_at e i ≡ ok h
    → j < length e.phdrs
    → Syncs e (sync_segment type i j e)
unfolding sync_segment phdr_get
sync_segment-Syncs type i j e h here lt =
    let t = get e.little_endian (p_type e.class_of) (get_or e.phdrs j []) in
    let all =
      fields-Syncs j e (raw_field e sh_offset h) (raw_field e sh_addr h) (raw_field e sh_addr h)
        (raw_field e sh_size h) (raw_field e sh_size h) lt in
    elim (Bool-cases (t == type)) [
      | inl same ↦
          (all.0, all.1, rw (phdr_at-entry e j lt) (elim_true (t == type) _ _ same ∙ rw here all.2))
      | inr differs ↦
          (e.phdrs, refl, rw (phdr_at-entry e j lt) (elim_false (t == type) _ _ differs))
    ]

segments-Syncs :
    (type i k j : ℕ) (e : Elf) (h : List ℕ)
    → shdr_at e i ≡ ok h
    → j + k ≤ length e.phdrs
    → Syncs e (for_range (sync_segment type i) k j e)
unfolding for_range shdr_at
segments-Syncs type i zero j e h here fits = (e.phdrs, refl, refl)
segments-Syncs type i (suc k) j e h here fits =
    let (p1, l1, r1) = sync_segment-Syncs type i j e h here (omega arith) in
    let (p2, l2, r2) =
      segments-Syncs type i k (j + 1) (with_phdrs e p1) h here (omega (arith, fits, l1)) in
    (p2, l2 ∙ l1, rw r1 r2)

pub sync_segments-Syncs :
    (name key : Name) (type i : ℕ) (e : Elf) (h : List ℕ)
    → shdr_at e i ≡ ok h
    → Syncs e (sync_segments name key type i e)
unfolding sync_segments
sync_segments-Syncs name key type i e h here = elim (Bool-cases (string_eq name key)) [
  | inl same ↦
      let (ps, l, r) = segments-Syncs type i (length e.phdrs) 0 e h here (omega arith) in
      (ps, l, elim_true (string_eq name key) _ _ same ∙ r)
  | inr differs ↦ (e.phdrs, refl, elim_false (string_eq name key) _ _ differs)
]
