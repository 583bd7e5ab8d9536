-- ===== src/Sltar/Create/Blocks.antt =====
-- The data blocks of a file: its bytes, filled up with zeros to whole blocks.
use electrum_lightning_test.Base.{
  ℕ, zero, suc, ◌-◌, ◌%◌, ◌≤◌, ◌<◌, ◌≡◌, refl, sym, ap, ◌∙◌, arith, inl, inr, List, [], ◌∷◌, ◌++◌,
  ltb, if◌then◌else◌, length, take, drop, replicate, overwrite, length-take, length-drop,
  length-append, length-replicate, overwrite-zero, take_all, drop_all, take-append-drop, Bool-cases,
  ltb→lt,
}
use electrum_lightning_test.Base.Region.{overwrite_fills}
use electrum_lightning_test.Sltar.Header
use electrum_lightning_test.Sltar.Create.{copy_file}
use mathlib.Core.List.{append_assoc, append-nil}

-- How many zeros follow `n` bytes.
abbrev pub padding : ℕ → ℕ
padding n = (Header.end - n % Header.end) % Header.end

copy_file-nil : (fuel : ℕ) (b : List ℕ) → copy_file fuel b [] ≡ []
unfolding copy_file
copy_file-nil zero b = refl
copy_file-nil (suc fuel) b = refl

-- The buffer of one round, cleared behind a short read.
full_block :
    (b chunk : List ℕ)
    → length b ≡ Header.end
    → length chunk ≤ Header.end
    → (if ltb (length chunk) Header.end
        then overwrite
            (overwrite b 0 chunk)
            (length chunk)
            (replicate (Header.end - length chunk) 0)
        else overwrite b 0 chunk)
      ≡ chunk ++ replicate (Header.end - length chunk) 0
full_block b chunk n h = elim (Bool-cases (ltb (length chunk) Header.end)) [
  | inl short ↦ rw short (
      overwrite_fills b chunk (replicate (Header.end - length chunk) 0)
        (omega (arith, length-replicate (Header.end - length chunk) (let z : ℕ = 0 in z))))
  | inr long ↦ rw long (full (ground arith))
]
  where
    full :
        length chunk ≡ Header.end
        → overwrite b 0 chunk ≡ chunk ++ replicate (Header.end - length chunk) 0
    full e =
        overwrite-zero b chunk (omega arith)
        ∙ ap (λ r. chunk ++ r) (drop_all (length chunk) b (omega arith))
        ∙ ap (λ k. chunk ++ replicate k 0)
            (let e' : 0 ≡ Header.end - length chunk = omega arith in e')

-- The block of one round.
abbrev pub first_block : List ℕ → List ℕ
first_block bytes =
    take Header.end bytes ++ replicate (Header.end - length (take Header.end bytes)) 0

copy_file-cons :
    (fuel : ℕ) (b : List ℕ) (x : ℕ) (xs : List ℕ)
    → length b ≡ Header.end
    → copy_file (suc fuel) b (x ∷ xs)
      ≡ first_block (x ∷ xs) ++ copy_file fuel (first_block (x ∷ xs)) (drop Header.end (x ∷ xs))
unfolding copy_file
copy_file-cons fuel b x xs n =
    ap (λ block. block ++ copy_file fuel block (drop Header.end (x ∷ xs)))
      (full_block b (take Header.end (x ∷ xs)) n (omega (arith, length-take Header.end (x ∷ xs))))

pub length-first_block : (bytes : List ℕ) → length (first_block bytes) ≡ Header.end
length-first_block bytes = omega (
  arith,
  length-append (take Header.end bytes) (replicate (Header.end - length (take Header.end bytes)) 0),
  length-replicate (Header.end - length (take Header.end bytes)) (let z : ℕ = 0 in z),
  length-take Header.end bytes,
)

-- The first block and the padded rest are the whole, padded.
pub first_block-append :
    (bytes : List ℕ)
    → 1 ≤ length bytes
    → first_block bytes
        ++ (drop Header.end bytes ++ replicate (padding (length (drop Header.end bytes))) 0)
      ≡ bytes ++ replicate (padding (length bytes)) 0
first_block-append bytes h = elim (Bool-cases (ltb (length bytes) Header.end)) [
  | inl short ↦ last (ltb→lt _ _ short)
  | inr long ↦ inner (ground arith)
]
  where
    zeros : ℕ → List ℕ
    zeros k = replicate k 0

    last :
        length bytes < Header.end
        → first_block bytes
            ++ (drop Header.end bytes ++ zeros (padding (length (drop Header.end bytes))))
          ≡ bytes ++ zeros (padding (length bytes))
    last lt =
        rw (take_all Header.end bytes (omega arith), drop_all Header.end bytes (omega arith))
          (append-nil (bytes ++ zeros (Header.end - length bytes))
            ∙ ap (λ k. bytes ++ zeros k)
                (let e : Header.end - length bytes ≡ padding (length bytes) = omega arith in e))

    inner :
        Header.end ≤ length bytes
        → first_block bytes
            ++ (drop Header.end bytes ++ zeros (padding (length (drop Header.end bytes))))
          ≡ bytes ++ zeros (padding (length bytes))
    inner le =
        let whole : Header.end - length (take Header.end bytes) ≡ 0 =
          omega (arith, length-take Header.end bytes) in
        let same : padding (length (drop Header.end bytes)) ≡ padding (length bytes) =
          omega (arith, length-drop Header.end bytes) in
        rw (whole, same, append-nil)
          (sym (append_assoc (take Header.end bytes) (drop Header.end bytes) _)
            ∙ ap (λ t. t ++ zeros (padding (length bytes))) (take-append-drop Header.end bytes))

-- What `c_file` writes behind the header: the file, then zeros up to the next block.
pub copy_file_padded :
    (fuel : ℕ) (b bytes : List ℕ)
    → length b ≡ Header.end
    → length bytes < fuel
    → copy_file fuel b bytes ≡ bytes ++ replicate (padding (length bytes)) 0
copy_file_padded zero b bytes n h = absurd (omega arith)
copy_file_padded (suc fuel) b [] n h = copy_file-nil (suc fuel) b
copy_file_padded (suc fuel) b (x ∷ xs) n h =
    copy_file-cons fuel b x xs n
    ∙ ap (λ t. first_block (x ∷ xs) ++ t)
        (copy_file_padded fuel (first_block (x ∷ xs)) (drop Header.end (x ∷ xs))
          (length-first_block (x ∷ xs)) (omega (arith, length-drop Header.end (x ∷ xs))))
    ∙ first_block-append (x ∷ xs) (omega arith)
