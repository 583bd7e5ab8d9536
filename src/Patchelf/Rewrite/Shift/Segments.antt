-- ===== src/Patchelf/Rewrite/Shift/Segments.antt =====
-- The loop of `shiftFile` over the program headers, and the new segment: both succeed, and change
-- program headers and their number only.
use electrum_lightning_test.Base.{
  ℕ, suc, zero, ◌+◌, ◌-◌, ◌≤◌, ◌<◌, ◌≡◌, refl, ◌∙◌, arith, true, false, ◌==◌, ◌%◌, List, [], length,
  set, get_or, length-set, length-append, length-take, length-replicate, take, replicate,
  Bool-cases, inl, inr, lt→ltb,
}
use electrum_lightning_test.Base.Table.{get_elem?-get_or}
use electrum_lightning_test.Patchelf.Elf.{
  Class, Field, sum, phdr, e_phnum, p_type, p_offset, p_vaddr, p_paddr, p_filesz, p_memsz, p_flags,
  p_align,
}
use electrum_lightning_test.Patchelf.Elf.Tag.{pt_load, pf_r, pf_w}
use electrum_lightning_test.Patchelf.Result.{Result, ok, elim_true, elim_false, ◌>>=◌}
use electrum_lightning_test.Patchelf.File.{Elf, get, put, hdr_get, hdr_put}
use electrum_lightning_test.Patchelf.Headers.{
  for_range, phdr_at, phdr_get, phdr_put, add_segment, resize_headers, sub_word,
}
use electrum_lightning_test.Patchelf.Rewrite.Shift.{shift_phdr}

abbrev pub with_phdrs : Elf → List (List ℕ) → Elf
with_phdrs e table = record e { phdrs = table }

-- A step that changes program headers, and not how many there are.
abbrev Edits : Elf → List (List ℕ) → Result Elf → Type 0
Edits e table r =
    (table' : List (List ℕ)) × (r ≡ ok (with_phdrs e table')) × (length table' ≡ length table)

-- The fields that `add_segment` sets, one after the other.
abbrev fill_segment : (page offset address size i : ℕ) → Elf → Result Elf
fill_segment page offset address size i e2 = do
  e3 ← phdr_put p_type pt_load i e2
  e4 ← phdr_put p_offset offset i e3
  e5 ← phdr_put p_paddr address i e4
  e6 ← phdr_put p_vaddr address i e5
  e7 ← phdr_put p_memsz size i e6
  e8 ← phdr_put p_filesz size i e7
  e9 ← phdr_put p_flags (pf_r + pf_w) i e8
  phdr_put p_align page i e9

module _ (e : Elf) where
  phdr_get-ok :
      (i : ℕ) (table : List (List ℕ)) (f : Class → Field)
      → i < length table
      → phdr_get (with_phdrs e table) i f
        ≡ ok (get e.little_endian (f e.class_of) (get_or table i []))
  unfolding phdr_get phdr_at
  phdr_get-ok i table f fits = rw (get_elem?-get_or table i [] fits) refl

  phdr_put-Edits :
      (f : Class → Field) (v i : ℕ) (table : List (List ℕ))
      → i < length table
      → Edits e table (phdr_put f v i (with_phdrs e table))
  unfolding phdr_put phdr_at
  phdr_put-Edits f v i table fits =
      let h = put e.little_endian (f e.class_of) v (get_or table i []) in
      (set table i h, rw (get_elem?-get_or table i [] fits) refl, length-set table i h)

  shift_phdr-Edits :
      (page shift i : ℕ) (table : List (List ℕ))
      → i < length table
      → Edits e table (shift_phdr page shift i (with_phdrs e table))
  unfolding shift_phdr
  shift_phdr-Edits page shift i table fits =
      let old = get e.little_endian (p_offset e.class_of) (get_or table i []) in
      let (t1, put1, long) = phdr_put-Edits p_offset (old + shift) i table fits in
      let (t2, put2, long2) = phdr_put-Edits p_align page i t1 (omega (arith, long, fits)) in
      let fits1 : i < length t1 = omega (arith, long, fits) in
      let align = get e.little_endian (p_align e.class_of) (get_or t1 i []) in
      let address = get e.little_endian (p_vaddr e.class_of) (get_or t1 i []) in
      let moved = get e.little_endian (p_offset e.class_of) (get_or t1 i []) in
      let begun : shift_phdr page shift i (with_phdrs e table)
          ≡ elim (align == 0) as (λ b. Result Elf) [
            | true ↦ ok (with_phdrs e t1)
            | false ↦ elim (sub_word e.class_of address moved % align == 0) as (λ b. Result Elf) [
              | true ↦ ok (with_phdrs e t1)
              | false ↦ phdr_put p_align page i (with_phdrs e t1)
            ]
          ] =
        rw
          (
            phdr_get-ok i table p_offset fits,
            put1,
            phdr_get-ok i t1 p_align fits1,
            phdr_get-ok i t1 p_vaddr fits1,
            phdr_get-ok i t1 p_offset fits1,
          )
          refl in
      elim (Bool-cases (align == 0)) [
        | inl none_asked ↦ (t1, begun ∙ elim_true (align == 0) _ _ none_asked, long)
        | inr asked ↦ elim (Bool-cases (sub_word e.class_of address moved % align == 0)) [
          | inl agrees ↦
              (t1, begun ∙ elim_false (align == 0) _ _ asked ∙ elim_true _ _ _ agrees, long)
          | inr differs ↦ (
            t2,
            begun ∙ elim_false (align == 0) _ _ asked ∙ elim_false _ _ _ differs ∙ put2,
            long2 ∙ long,
          )
        ]
      ]

  Edits-then :
      (table : List (List ℕ)) (r : Result Elf) (k : Elf → Result Elf)
      → Edits e table r
      → ((t : List (List ℕ)) → length t ≡ length table → Edits e t (k (with_phdrs e t)))
      → Edits e table (r >>= k)
  Edits-then table r k (t1, step, long) h =
      let (t2, rest, long2) = h t1 long in (t2, rw step rest, long2 ∙ long)

  puts-Edits :
      (page offset address size i : ℕ) (table : List (List ℕ))
      → i < length table
      → Edits e table (fill_segment page offset address size i (with_phdrs e table))
  puts-Edits page offset address size i table fits =
      Edits-then table _ _ (phdr_put-Edits p_type pt_load i table fits) (λ t1 l1.
        Edits-then t1 _ _ (phdr_put-Edits p_offset offset i t1 (omega (arith, fits, l1))) (λ t2 l2.
          let f2 : i < length t2 = omega (arith, fits, l1, l2) in
          Edits-then t2 _ _ (phdr_put-Edits p_paddr address i t2 f2) (λ t3 l3.
            let f3 : i < length t3 = omega (arith, f2, l3) in
            Edits-then t3 _ _ (phdr_put-Edits p_vaddr address i t3 f3) (λ t4 l4.
              let f4 : i < length t4 = omega (arith, f3, l4) in
              Edits-then t4 _ _ (phdr_put-Edits p_memsz size i t4 f4) (λ t5 l5.
                let f5 : i < length t5 = omega (arith, f4, l5) in
                Edits-then t5 _ _ (phdr_put-Edits p_filesz size i t5 f5) (λ t6 l6.
                  let f6 : i < length t6 = omega (arith, f5, l6) in
                  Edits-then t6 _ _ (phdr_put-Edits p_flags (pf_r + pf_w) i t6 f6)
                    (λ t7 l7. phdr_put-Edits p_align page i t7 (omega (arith, f6, l7)))))))))

  pub shift_phdrs :
      (page shift k i : ℕ) (table : List (List ℕ))
      → i + k ≤ length table
      → Edits e table (for_range (shift_phdr page shift) k i (with_phdrs e table))
  unfolding for_range
  shift_phdrs page shift zero i table fits = (table, refl, refl)
  shift_phdrs page shift (suc k) i table fits =
      let (t1, step, long) = shift_phdr-Edits page shift i table (omega (arith, fits)) in
      let (t2, runs, same) = shift_phdrs page shift k (i + 1) t1 (omega (arith, long, fits)) in
      (t2, rw step runs, same ∙ long)

length-resize_headers :
    (size : ℕ) (hs : List (List ℕ)) (n : ℕ) → length (resize_headers size hs n) ≡ n
unfolding resize_headers
length-resize_headers size hs n =
    let zeros : List ℕ = replicate size 0 in
    omega (
      arith,
      length-append (take n hs) (replicate (n - length hs) zeros),
      length-take n hs,
      length-replicate (n - length hs) zeros,
    )

add_segment-fill :
    (page offset address size n : ℕ) (e : Elf)
    → hdr_get e e_phnum ≡ n
    → hdr_get (hdr_put e e_phnum (n + 1)) e_phnum ≡ n + 1
    → add_segment page offset address size e
      ≡ fill_segment page offset address size (n + 1 - 1) (
          with_phdrs
            (hdr_put e e_phnum (n + 1))
            (resize_headers (sum (phdr e.class_of)) e.phdrs (n + 1)))
unfolding add_segment hdr_put hdr_get
add_segment-fill page offset address size n e count more =
    rw (count, more, lt→ltb 0 (n + 1) (omega arith)) refl

-- With room in the count for one more segment.
pub add_segment-one_more :
    (page offset address size n : ℕ) (e : Elf)
    → hdr_get e e_phnum ≡ n
    → hdr_get (hdr_put e e_phnum (n + 1)) e_phnum ≡ n + 1
    → (table : List (List ℕ)) × (add_segment page offset address size e
        ≡ ok (with_phdrs (hdr_put e e_phnum (n + 1)) table))
      × (length table ≡ n + 1)
add_segment-one_more page offset address size n e count more =
    let e2 = hdr_put e e_phnum (n + 1) in
    let i = n + 1 - 1 in
    let t = resize_headers (sum (phdr e.class_of)) e.phdrs (n + 1) in
    let long = length-resize_headers (sum (phdr e.class_of)) e.phdrs (n + 1) in
    let (t', filled, same) = puts-Edits e2 page offset address size i t (omega (arith, long)) in
    (t', add_segment-fill page offset address size n e count more ∙ filled, same ∙ long)
