-- ===== src/Patchelf/Rewrite/Shift/Moved.antt =====
-- The contents of the file behind the first step of `shiftFile`.
use electrum_lightning_test.Base.{
  ℕ, ◌+◌, ◌-◌, ◌%◌, ◌^◌, ◌≤◌, ◌<◌, ◌≡◌, refl, sym, ap, ◌∙◌, arith, leb, le→leb, leb→le, List, [],
  ◌++◌, length, length-append, length-take, length-drop, length-replicate, take, drop, slice,
  replicate, take-append-drop, Bool-cases, inl, inr,
}
use mathlib.Core.List.{append_assoc, append-nil}
use electrum_lightning_test.Base.Parts.{slice_mid, slice_whole, take_within}
use electrum_lightning_test.Patchelf.Elf.{Class, elf32, elf64, ehdr, sum}
use electrum_lightning_test.Patchelf.Result.{ok}
use electrum_lightning_test.Patchelf.File.{Elf, grow_file}
use electrum_lightning_test.Patchelf.Dynamic.{write_bytes}
use electrum_lightning_test.Patchelf.Needed.Compact.{write_bytes_mid}
use electrum_lightning_test.Patchelf.Rewrite.Shift.{move_contents}

-- `growFile` by some bytes: they are zeros.
grow_file_by :
    (e : Elf) (n new_size : ℕ)
    → new_size ≡ length e.contents + n
    → 0 < n
    → new_size ≤ e.max_size
    → grow_file e new_size ≡ ok (record e { contents = e.contents ++ replicate n 0 })
unfolding grow_file
grow_file_by e n new_size h positive room = elim (Bool-cases (leb new_size (length e.contents))) [
  | inl small ↦ absurd (omega (arith, leb→le _ _ small, h))
  | inr larger ↦
      rw (le→leb _ _ room, larger)
        (ap (λ k. ok (record e { contents = e.contents ++ replicate k 0 }))
          (let k : new_size - length e.contents ≡ n = omega (arith, h) in k))
]

ehdr-lt : (c : Class) → 0 < sum (ehdr c)
ehdr-lt elf32 = omega arith
ehdr-lt elf64 = omega arith

take-take : (n m : ℕ) (xs : List ℕ) → n ≤ m → m ≤ length xs → take n (take m xs) ≡ take n xs
take-take n m xs le fits =
    sym (take_within n (take m xs) (drop m xs) (omega (arith, length-take m xs)))
    ∙ ap (take n) (take-append-drop m xs)

-- The first step of shiftFile, before it adjusts the headers: when the ELF header fits in the file
-- and in the shift, the file has less than 4 GiB, and the room for it is there, the ELF header stays
-- in front, zeros fill the rest of the gap, and behind it stands the whole file as it was.
pub move_contents_lem :
    (shift : ℕ) (e : Elf)
    → sum (ehdr e.class_of) ≤ shift
    → sum (ehdr e.class_of) ≤ length e.contents
    → length e.contents < 2 ^ 32
    → length e.contents + shift ≤ e.max_size
    → move_contents shift e
      ≡ ok (record e {
        contents =
            take (sum (ehdr e.class_of)) e.contents
            ++ (replicate (shift - sum (ehdr e.class_of)) 0 ++ e.contents);
      })
unfolding move_contents
move_contents_lem shift e gap header small room =
    rw
      (
        grow_file_by e shift (length c + shift) refl (omega (arith, ehdr-lt e.class_of, gap)) room,
        whole,
        moved,
        le→leb size shift gap,
      )
      (write_bytes_mid (record e { contents = first ++ c }) (take size c) (drop size first)
        (replicate (shift - size) 0) c size split (omega (arith, header, length-take size c))
        (omega (arith, long, length-drop size first, length-replicate {A = ℕ} (shift - size) 0)))
  where
    c : List ℕ
    c = e.contents

    size : ℕ
    size = sum (ehdr e.class_of)

    grown : List ℕ
    grown = c ++ replicate shift 0

    first : List ℕ
    first = take shift grown

    full : length grown ≡ length c + shift
    full = omega (arith, length-append c (replicate shift 0), length-replicate {A = ℕ} shift 0)

    long : length first ≡ shift
    long = omega (arith, full, length-take shift grown)

    whole : slice grown 0 (length c % 2 ^ 32) ≡ c
    whole =
        ap (slice grown 0) (let n : length c % 2 ^ 32 ≡ length c = omega (arith, small) in n)
        ∙ slice_mid [] c (replicate shift 0) 0 0 (length c) (omega arith) (omega arith)
        ∙ slice_whole c (length c) refl

    moved :
        write_bytes (record e { contents = grown }) shift c
        ≡ ok (record e { contents = first ++ c })
    moved =
        write_bytes_mid (record e { contents = grown }) first (drop shift grown) c [] shift
          (sym
            (ap (λ t. first ++ t) (append-nil (drop shift grown)) ∙ take-append-drop shift grown))
          (omega (arith, long)) (omega (arith, full, length-drop shift grown))
        ∙ ap (λ t. ok (record e { contents = first ++ t })) (append-nil c)

    split : first ++ c ≡ take size c ++ (drop size first ++ c)
    split =
        ap (λ t. t ++ c) (sym (take-append-drop size first))
        ∙ append_assoc (take size first) (drop size first) c
        ∙ ap (λ t. t ++ (drop size first ++ c))
            (take-take size shift grown gap (omega (arith, full))
              ∙ take_within size c (replicate shift 0) header)
