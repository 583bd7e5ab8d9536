-- ===== src/Patchelf/Needed/Moved.antt =====
-- The dynamic section once entries are gone: where it is found, and how it ends.
use electrum_lightning_test.Base.{
  ℕ, suc, zero, ◌+◌, ◌-◌, ◌*◌, ◌≤◌, ◌≡◌, refl, sym, ap, ap₂, ◌∙◌, arith, Bool, true, false, List,
  [], ◌∷◌, ◌++◌, length, length-append, length-replicate, take, slice, All, replicate, if_lem,
}
use native.Mathlib.Nat.{mul-sub}
use electrum_lightning_test.Base.Parts.{slice_mid}
use electrum_lightning_test.Patchelf.Elf.{Class, elf32, elf64, ehdr, sum, e_shnum, d_tag}
use electrum_lightning_test.Patchelf.Word.{rdi, rdi_loop}
use electrum_lightning_test.Patchelf.Result.{Result, ok, ◌>>=◌}
use electrum_lightning_test.Patchelf.File.Fields.{shnum_fits}
use electrum_lightning_test.Patchelf.File.{Elf, get, hdr_get}
use electrum_lightning_test.Patchelf.Section.{
  find_section, find_section2, find_section3, find_loop, name_at, shdr_at, get_section_name,
  string_eq,
}
use electrum_lightning_test.Patchelf.Dynamic.{Name, dyn_size, section_header}
use electrum_lightning_test.Patchelf.Dynamic.Table.{concat, IsEntry, IsEnd, tag_fits, length-concat}
use electrum_lightning_test.Patchelf.Needed.Compact.{kept, state}

find_loop-state :
    (e : Elf) (c : List ℕ) (b : Bool) (name : Name) (k i : ℕ)
    → find_loop (state e c b) name k i ≡ find_loop e name k i
unfolding find_loop name_at shdr_at get_section_name
find_loop-state e c b name zero i = refl
find_loop-state e c b name (suc k) i =
    ap
      (λ r.
        name_at e i >>= λ n. elim (string_eq n name) as (λ x. Result ℕ) [ true ↦ ok i | false ↦ r ])
      (find_loop-state e c b name k (i + 1))

-- A section is found where it was when the ELF header is as before.
pub section_header-state :
    (e : Elf) (c : List ℕ) (b : Bool) (name : Name)
    → hdr_get (state e c b) e_shnum ≡ hdr_get e e_shnum
    → section_header (state e c b) name ≡ section_header e name
unfolding section_header find_section find_section2 find_section3 shdr_at
section_header-state e c b name h =
    rw (h, find_loop-state e c b name (hdr_get e e_shnum - 1) 1) refl

-- The number of sections is the same behind the same ELF header.
pub shnum-front :
    (e : Elf) (front mid mid' : List ℕ) (b : Bool)
    → e.contents ≡ front ++ mid
    → sum (ehdr e.class_of) ≤ length front
    → hdr_get (state e (front ++ mid') b) e_shnum ≡ hdr_get e e_shnum
unfolding hdr_get get
shnum-front e front mid mid' b same behind =
    let f = e_shnum e.class_of in
    let fits : f.at + f.width ≤ length front = omega (arith, shnum_fits e.class_of, behind) in
    ap (rdi e.little_endian) (
      slice_mid [] front mid' f.at f.at f.width (omega arith) fits
      ∙ sym (slice_mid [] front mid f.at f.at f.width (omega arith) fits)
      ∙ ap (λ t. slice t f.at f.width) (sym same))

take-replicate : (w n : ℕ) → w ≤ n → take {A = ℕ} w (replicate n 0) ≡ replicate w 0
take-replicate zero n h = refl
take-replicate (suc w) zero h = absurd (omega arith)
take-replicate (suc w) (suc n) h = ap (λ t. 0 ∷ t) (take-replicate w n (omega arith))

zero_tag : (c : Class) (little : Bool) → rdi little (replicate (d_tag c).width 0) ≡ 0
unfolding rdi rdi_loop
zero_tag elf32 true = refl
zero_tag elf32 false = refl
zero_tag elf64 true = refl
zero_tag elf64 false = refl

tag_first : (c : Class) → (d_tag c).at ≡ 0
tag_first elf32 = refl
tag_first elf64 = refl

-- Zeros for a number of entries in front of the end are an end.
pub zeros-IsEnd :
    (e : Elf) (n j : ℕ) (behind : List ℕ)
    → n ≡ dyn_size e.class_of * j
    → IsEnd e behind
    → IsEnd e (replicate n 0 ++ behind)
unfolding get slice
zeros-IsEnd e zero j behind h end = end
zeros-IsEnd e (suc n) zero behind h end = absurd (omega (arith, h))
zeros-IsEnd e (suc n) (suc j) behind h end =
    let w = (d_tag e.class_of).width in
    let fits : w ≤ suc n = omega (arith, h, tag_fits e.class_of) in
    (
      omega (
        arith,
        h,
        length-append (replicate (suc n) 0) behind,
        length-replicate {A = ℕ} (suc n) 0,
      ),
      ap (rdi e.little_endian) (
            slice_mid [] (replicate (suc n) 0) behind (d_tag e.class_of).at 0 w
              (omega (arith, tag_first e.class_of))
              (omega (arith, fits, length-replicate {A = ℕ} (suc n) 0))
            ∙ take-replicate w (suc n) fits)
          ∙ zero_tag e.class_of e.little_endian,
    )

pub All-kept :
    (P : List ℕ → Type 0) (dec : List ℕ → Bool) (ds : List (List ℕ))
    → All P ds
    → All P (kept dec ds)
All-kept P dec [] h = tt
All-kept P dec (d ∷ ds) h =
    if_lem (All P) (dec d) (All-kept P dec ds h.1) (h.0, All-kept P dec ds h.1)

-- The entries that are gone leave room for a number of entries.
pub gap_size :
    (e : Elf) (dec : List ℕ → Bool) (ds : List (List ℕ))
    → All (IsEntry e) ds
    → length (concat ds) - length (concat (kept dec ds))
      ≡ dyn_size e.class_of * (length ds - length (kept dec ds))
gap_size e dec ds all =
    ap₂ (λ a b. a - b) (length-concat e ds all)
      (length-concat e (kept dec ds) (All-kept (IsEntry e) dec ds all))
    ∙ sym (mul-sub (dyn_size e.class_of) (length ds) (length (kept dec ds)))

pub length-concat-kept :
    (e : Elf) (dec : List ℕ → Bool) (ds : List (List ℕ))
    → length (concat (kept dec ds)) ≤ length (concat ds)
length-concat-kept e dec [] = omega arith
length-concat-kept e dec (d ∷ ds) =
    let rest = length-concat-kept e dec ds in
    if_lem (λ ks. length (concat ks) ≤ length (d ++ concat ds)) (dec d)
      (omega (arith, rest, length-append d (concat ds)))
      (omega (arith, rest, length-append d (concat ds), length-append d (concat (kept dec ds))))
