-- ===== src/Patchelf/Dynamic/Strings.antt =====
-- Names that stand before or behind a part of the file do not change with the part.
use electrum_lightning_test.Base.{
  ℕ, ◌+◌, ◌-◌, ◌≤◌, ◌<◌, ◌≡◌, refl, sym, ap, ◌∙◌, ◌⊎◌, inl, inr, arith, ◌==◌, List, [], ◌∷◌, ◌++◌,
  length, length-append, drop, length-drop, lt→ltb, Bool-cases,
}
use electrum_lightning_test.Base.Parts.{drop_within, drop_behind}
use electrum_lightning_test.Patchelf.Result.{ok}
use electrum_lightning_test.Patchelf.File.{Elf}
use electrum_lightning_test.Patchelf.Section.{until_nul}
use electrum_lightning_test.Patchelf.Dynamic.{c_string}

pub until_nul_front :
    (s x y : List ℕ)
    → length (until_nul (s ++ x)) < length s
    → until_nul (s ++ y) ≡ until_nul (s ++ x)
unfolding until_nul
until_nul_front [] x y h = absurd (omega arith)
until_nul_front (c ∷ s) x y h = elim (Bool-cases (c == 0)) [
  | inl nul ↦ rw nul refl
  | inr more ↦ rw more (ap (λ t. c ∷ t) (until_nul_front s x y (ground arith)))
]

pub c_string_ok :
    (e : Elf) (p : ℕ) (s : List ℕ)
    → until_nul (drop p e.contents) ≡ s
    → p + length s < length e.contents
    → c_string e p ≡ ok s
unfolding c_string
c_string_ok e p s h lt = rw h (rw (lt→ltb (p + length s) (length e.contents) lt) refl)

-- The string at `p` ends before `front` bytes, or begins behind them and `size` more.
abbrev pub IsApart : List ℕ → (front size p : ℕ) → Type 0
IsApart contents front size p =
    (p + length (until_nul (drop p contents)) < front)
    ⊎ ((front + size ≤ p) × (p + length (until_nul (drop p contents)) < length contents))

pub until_nul_apart :
    (front mid mid' behind : List ℕ) (p : ℕ)
    → length mid' ≡ length mid
    → IsApart (front ++ (mid ++ behind)) (length front) (length mid) p
    → until_nul (drop p (front ++ (mid' ++ behind))) ≡ until_nul (drop p (front ++ (mid ++ behind)))
until_nul_apart front mid mid' behind p e (inl h) =
    ap until_nul (drop_within p front (mid' ++ behind) (omega arith))
    ∙ until_nul_front (drop p front) (mid ++ behind) (mid' ++ behind) (
        omega (
          arith,
          h,
          ap (λ t. length (until_nul t)) (drop_within p front (mid ++ behind) (omega arith)),
          length-drop p front,
        ))
    ∙ ap until_nul (sym (drop_within p front (mid ++ behind) (omega arith)))
until_nul_apart front mid mid' behind p e (inr (h, k)) =
    let n = p - length front in
    let m = p - length front - length mid in
    ap until_nul (
      drop_behind p front (mid' ++ behind) n (omega arith)
      ∙ drop_behind n mid' behind m (omega (arith, e))
      ∙ sym (drop_behind n mid behind m (omega arith))
      ∙ sym (drop_behind p front (mid ++ behind) n (omega arith)))

pub c_string_apart :
    (e e' : Elf) (front mid mid' behind : List ℕ) (p : ℕ)
    → e.contents ≡ front ++ (mid ++ behind)
    → e'.contents ≡ front ++ (mid' ++ behind)
    → length mid' ≡ length mid
    → IsApart e.contents (length front) (length mid) p
    → c_string e' p ≡ ok (until_nul (drop p e.contents))
c_string_apart e e' front mid mid' behind p same same' len apart =
    let n = length (until_nul (drop p e.contents)) in
    c_string_ok e' p (until_nul (drop p e.contents))
      (ap (λ c. until_nul (drop p c)) same'
        ∙ until_nul_apart front mid mid' behind p len (rw same at apart)
        ∙ ap (λ c. until_nul (drop p c)) (sym same))
      (let lt : p + n < length e'.contents = below apart in lt)
  where
    whole : length e'.contents ≡ length e.contents
    whole = omega (
      arith,
      ap length same,
      ap length same',
      len,
      length-append front (mid ++ behind),
      length-append front (mid' ++ behind),
      length-append mid behind,
      length-append mid' behind,
    )

    below :
        IsApart e.contents (length front) (length mid) p
        → p + length (until_nul (drop p e.contents)) < length e'.contents
    below (inl h) = omega (arith, h, whole, ap length same, length-append front (mid ++ behind))
    below (inr h) = omega (arith, h.1, whole)
