-- ===== src/Patchelf/Section/Replace.antt =====
-- What `replaceSection` returns and records.
use electrum_lightning_test.Base.{
  ℕ, suc, zero, ◌-◌, ◌≤◌, ◌<◌, get_or, ◌≡◌, ◌≢◌, refl, ap, arith, List, [], ◌∷◌, ◌++◌, some, length,
  take, length-append, length-take, length-replicate, replicate, take_all,
}
use electrum_lightning_test.Patchelf.Result.{ok}
use electrum_lightning_test.Patchelf.File.{Elf}
use electrum_lightning_test.Patchelf.Section.{
  lookup, insert, resize, section_bytes, replace_section,
}
use electrum_lightning_test.Patchelf.Section.Find.{string_eq_refl, string_eq→≡}

pub lookup-insert :
    (m : List (List ℕ × List ℕ)) (name s : List ℕ) → lookup (insert m name s) name ≡ some s
unfolding lookup insert
lookup-insert [] name s = rw string_eq_refl refl
lookup-insert (entry ∷ rest) name s = ground (arith, lookup-insert rest name s, string_eq_refl name)

pub lookup-insert_ne :
    (m : List (List ℕ × List ℕ)) (name other s : List ℕ)
    → name ≢ other
    → lookup (insert m name s) other ≡ lookup m other
unfolding lookup insert
lookup-insert_ne [] name other s h = ground (arith, string_eq→≡ name other)
lookup-insert_ne (entry ∷ rest) name other s h = ground (
  arith,
  lookup-insert_ne rest name other s h,
  string_eq→≡ name other,
  string_eq→≡ entry.0 name,
  string_eq→≡ entry.0 other,
)

pub length-resize : (s : List ℕ) (size : ℕ) → length (resize s size) ≡ size
unfolding resize
length-resize s size = omega (
  arith,
  length-append (take size s) (replicate (size - length s) 0),
  length-take size s,
  length-replicate {A = ℕ} (size - length s) 0,
)

-- Growing a string keeps it in front of the NULs.
pub resize_grows :
    (s : List ℕ) (size : ℕ) → length s ≤ size → resize s size ≡ s ++ replicate (size - length s) 0
unfolding resize
resize_grows s size h = ap (λ t. t ++ replicate (size - length s) 0) (take_all size s h)

pub section_bytes_recorded :
    (e : Elf) (name s : List ℕ)
    → lookup e.replaced_sections name ≡ some s
    → section_bytes e name ≡ ok s
unfolding section_bytes
section_bytes_recorded e name s h = rw (h, section_bytes) refl

get_or-replicate : (k i : ℕ) → get_or {A = ℕ} (replicate k 0) i 0 ≡ 0
get_or-replicate zero i = refl
get_or-replicate (suc k) zero = refl
get_or-replicate (suc k) (suc i) = get_or-replicate k i

get_or-padded :
    (s : List ℕ) (n k i : ℕ) → i < n → get_or (take n s ++ replicate k 0) i 0 ≡ get_or s i 0
get_or-padded s zero k i h = absurd (omega arith)
get_or-padded [] (suc n) k i h = get_or-replicate k i
get_or-padded (x ∷ s) (suc n) k zero h = refl
get_or-padded (x ∷ s) (suc n) k (suc i) h = get_or-padded s n k i (omega arith)

-- The first `size` bytes of a string, with NULs where it has none.
abbrev pub IsResized : List ℕ → ℕ → List ℕ → Type 0
IsResized s size t = (length t ≡ size) × ((i : ℕ) → i < size → get_or t i 0 ≡ get_or s i 0)

resize-IsResized : (s : List ℕ) (size : ℕ) → IsResized s size (resize s size)
unfolding resize
resize-IsResized s size = (length-resize s size, λ i h. get_or-padded s size (size - length s) i h)

-- When the section's bytes so far are there, `replaceSection` returns as many bytes as it is asked for:
-- those so far, and NULs behind their end. They are what it records and what the next call for the
-- section starts from; the replacements of other sections stay.
pub replace_section_records :
    (e : Elf) (name : List ℕ) (size : ℕ) (s : List ℕ)
    → section_bytes e name ≡ ok s
    → (t : List ℕ) × (e' : Elf) × (replace_section e name size ≡ ok (t, e'))
      × IsResized s size t
      × (section_bytes e' name ≡ ok t)
      × ((other : List ℕ)
          → name ≢ other
          → lookup e'.replaced_sections other ≡ lookup e.replaced_sections other)
unfolding replace_section section_bytes
replace_section_records e name size s h = (
  resize s size,
  record e { replaced_sections = insert e.replaced_sections name (resize s size) },
  rw h refl,
  resize-IsResized s size,
  section_bytes_recorded _ name (resize s size)
      (lookup-insert e.replaced_sections name (resize s size)),
  λ other differ. lookup-insert_ne e.replaced_sections name other (resize s size) differ,
)
