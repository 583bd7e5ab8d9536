-- ===== src/Patchelf/Dynamic/Table.antt =====
-- The dynamic section as a list of entries, and the steps of `for_dyn` on it. No code of its own.
use electrum_lightning_test.Base.{
  ℕ, suc, ◌+◌, ◌*◌, ◌≤◌, ◌<◌, ◌≡◌, refl, ap, ◌∙◌, arith, true, false, ◌==◌, List, [], ◌∷◌, ◌++◌,
  length, length-append, slice, le→leb, All,
}
use electrum_lightning_test.Base.Parts.{slice_mid}
use electrum_lightning_test.Patchelf.Elf.{Class, elf32, elf64, Field, d_tag, d_un}
use electrum_lightning_test.Patchelf.Elf.Tag.{dt_null}
use electrum_lightning_test.Patchelf.Result.{Result, ok, ◌>>=◌}
use electrum_lightning_test.Patchelf.File.{Elf, get, read_bytes}
use electrum_lightning_test.Patchelf.Dynamic.{dyn_size, read_field, for_dyn}

abbrev pub concat : List (List ℕ) → List ℕ
concat [] = []
concat (d ∷ ds) = d ++ concat ds

-- The tag of an entry's bytes.
abbrev pub tag_of : Elf → List ℕ → ℕ
tag_of e d = get e.little_endian (d_tag e.class_of) d

-- An entry, and the entry that ends the table.
abbrev pub IsEntry : Elf → List ℕ → Type 0
IsEntry e d = (length d ≡ dyn_size e.class_of) × ((tag_of e d == dt_null) ≡ false)

-- What stands behind the entries begins with the entry that ends the table.
abbrev pub IsEnd : Elf → List ℕ → Type 0
IsEnd e d = (dyn_size e.class_of ≤ length d) × (tag_of e d ≡ dt_null)

pub tag_fits : (c : Class) → (d_tag c).at + (d_tag c).width ≤ dyn_size c
tag_fits elf32 = omega arith
tag_fits elf64 = omega arith

pub un_fits : (c : Class) → (d_un c).at + (d_un c).width ≤ dyn_size c
un_fits elf32 = omega arith
un_fits elf64 = omega arith

pub dyn_size-lt : (c : Class) → 0 < dyn_size c
dyn_size-lt elf32 = omega arith
dyn_size-lt elf64 = omega arith

pub length-concat :
    (e : Elf) (ds : List (List ℕ))
    → All (IsEntry e) ds
    → length (concat ds) ≡ dyn_size e.class_of * length ds
length-concat e [] h = omega arith
length-concat e (d ∷ ds) h =
    omega (arith, h.0.0, length-append d (concat ds), length-concat e ds h.1)

pub read_bytes_mid :
    (pre d post : List ℕ) (at off n : ℕ)
    → at ≡ length pre + off
    → off + n ≤ length d
    → read_bytes (pre ++ (d ++ post)) at n ≡ ok (slice d off n)
unfolding read_bytes
read_bytes_mid pre d post at off n h fits =
    rw
      (le→leb (at + n) (length (pre ++ (d ++ post)))
        (omega (arith, h, fits, length-append pre (d ++ post), length-append d post)))
      (ap ok (slice_mid pre d post at off n h fits))

-- A field of the structure `d` in the contents.
pub read_field_mid :
    (e : Elf) (pre d post : List ℕ) (at : ℕ) (f : Field)
    → e.contents ≡ pre ++ (d ++ post)
    → at ≡ length pre
    → f.at + f.width ≤ length d
    → read_field e at f ≡ ok (get e.little_endian f d)
unfolding read_field get
read_field_mid e pre d post at f h k fits =
    rw (h, read_bytes_mid pre d post (at + f.at) f.at f.width (omega (arith, k)) fits) refl

module _ {T : Type 0} (body : (at tag : ℕ) → Elf → T → Result (Elf × T)) where
  pub for_dyn_end :
      (fuel at : ℕ) (e : Elf) (t : T)
      → read_field e at (d_tag e.class_of) ≡ ok dt_null
      → for_dyn body (suc fuel) at e t ≡ ok (e, t, at)
  unfolding for_dyn
  for_dyn_end fuel at e t h = rw h refl

  pub for_dyn_next :
      (fuel at tag : ℕ) (e : Elf) (t : T) (next : Elf × T)
      → read_field e at (d_tag e.class_of) ≡ ok tag
      → (tag == dt_null) ≡ false
      → body at tag e t ≡ ok next
      → for_dyn body (suc fuel) at e t ≡ for_dyn body fuel (at + dyn_size e.class_of) next.0 next.1
  unfolding for_dyn
  for_dyn_next fuel at tag e t next h differs step = rw h (
      ap
        (λ b. elim b [
          | true ↦ ok (e, t, at)
          | false ↦ body at tag e t >>= λ n. for_dyn body fuel (at + dyn_size e.class_of) n.0 n.1
        ])
        differs
      ∙ ap (λ r. r >>= λ n. for_dyn body fuel (at + dyn_size e.class_of) n.0 n.1) step)
