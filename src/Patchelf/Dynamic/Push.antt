-- ===== src/Patchelf/Dynamic/Push.antt =====
-- New entries at the top of the dynamic section: `shift_dynamic` and `push_dyn`.
use electrum_lightning_test.Base.{
  ℕ, suc, zero, ◌+◌, ◌-◌, ◌*◌, ◌%◌, ◌^◌, ◌≤◌, ◌<◌, ◌≡◌, refl, sym, ap, ap₂, ◌∙◌, arith, Bool, true,
  false, ◌==◌, ==_iff, List, [], ◌∷◌, ◌++◌, length, length-append, length-take, length-drop,
  length-replicate, replicate, take, drop, take-append-drop, take-append, slice, le→leb, All,
}
use mathlib.Core.List.{append_assoc, append-nil}
use native.Mathlib.Nat.{mod-eq_of_lt, mul-le-mul_right}
use electrum_lightning_test.Base.Parts.{slice_mid, overwrite_mid}
use electrum_lightning_test.Patchelf.Elf.{d_tag, sh_size}
use electrum_lightning_test.Patchelf.Elf.Tag.{dt_null}
use electrum_lightning_test.Patchelf.Word.{rdi}
use electrum_lightning_test.Patchelf.Result.{Result, ok, ◌>>=◌}
use electrum_lightning_test.Patchelf.File.{Elf, get, read_bytes}
use electrum_lightning_test.Patchelf.Section.{section_bytes, replace_section, set_substr, insert}
use electrum_lightning_test.Patchelf.Section.Replace.{resize_grows}
use electrum_lightning_test.Patchelf.Dynamic.{
  Name, dot_dynamic, dyn_size, null_index, shift_dynamic,
}
use electrum_lightning_test.Patchelf.Dynamic.Table.{
  concat, IsEntry, IsEnd, tag_fits, dyn_size-lt, length-concat, read_bytes_mid,
}

pub set_substr_mid :
    (pre old new post : List ℕ) (at : ℕ)
    → at ≡ length pre
    → length new ≡ length old
    → set_substr (pre ++ (old ++ post)) at new ≡ ok (pre ++ (new ++ post))
unfolding set_substr
set_substr_mid pre old new post at h e =
    rw
      (le→leb (at + length new) (length (pre ++ (old ++ post)))
        (omega (arith, h, e, length-append pre (old ++ post), length-append old post)))
      (ap ok (overwrite_mid pre old new post at h e))

null_index_step :
    (e : Elf) (fuel : ℕ) (s b : List ℕ) (idx : ℕ) (t : Bool)
    → read_bytes
        (s ++ 0 ∷ [])
        (idx * dyn_size e.class_of + (d_tag e.class_of).at)
        (d_tag e.class_of).width
      ≡ ok b
    → (rdi e.little_endian b == dt_null) ≡ t
    → null_index e (suc fuel) s idx
      ≡ (elim t as (λ x. Result ℕ) [ true ↦ ok idx | false ↦ null_index e fuel s (idx + 1) ])
unfolding null_index
null_index_step e fuel s b idx t h k = rw h (
    ap (λ c. elim c as (λ x. Result ℕ) [ true ↦ ok idx | false ↦ null_index e fuel s (idx + 1) ]) k)

null_index_lem :
    (e : Elf) (ds : List (List ℕ)) (behind s pre : List ℕ) (fuel idx : ℕ)
    → s ++ 0 ∷ [] ≡ pre ++ (concat ds ++ behind)
    → length pre ≡ idx * dyn_size e.class_of
    → IsEnd e behind
    → All (IsEntry e) ds
    → length ds < fuel
    → null_index e fuel s idx ≡ ok (idx + length ds)
unfolding get
null_index_lem e ds behind s pre zero idx same place null all enough = absurd (omega arith)
null_index_lem e [] behind s pre (suc fuel) idx same place null all enough =
    null_index_step e fuel s (slice behind (d_tag e.class_of).at (d_tag e.class_of).width) idx true
      (ap
          (λ t.
            read_bytes t (idx * dyn_size e.class_of + (d_tag e.class_of).at)
              (d_tag e.class_of).width)
          (same ∙ ap (λ t. pre ++ t) (sym (append-nil behind)))
        ∙ read_bytes_mid pre behind [] _ (d_tag e.class_of).at (d_tag e.class_of).width
            (omega (arith, place)) (omega (arith, tag_fits e.class_of, null.0)))
      ((==_iff _ _).1 null.1)
    ∙ ap ok (let n : idx ≡ idx + 0 = omega arith in n)
null_index_lem e (d ∷ ds) behind s pre (suc fuel) idx same place null all enough =
    null_index_step e fuel s (slice d (d_tag e.class_of).at (d_tag e.class_of).width) idx false
      (ap
          (λ t.
            read_bytes t (idx * dyn_size e.class_of + (d_tag e.class_of).at)
              (d_tag e.class_of).width)
          moved
        ∙ read_bytes_mid pre d (concat ds ++ behind) _ (d_tag e.class_of).at
            (d_tag e.class_of).width (omega (arith, place))
            (omega (arith, tag_fits e.class_of, all.0.0)))
      all.0.1
    ∙ null_index_lem e ds behind s (pre ++ d) fuel (idx + 1)
        (moved ∙ sym (append_assoc pre d (concat ds ++ behind)))
        (omega (arith, place, all.0.0, length-append pre d)) null all.1 (omega arith)
    ∙ ap ok (let n : idx + 1 + length ds ≡ idx + suc (length ds) = omega arith in n)
  where
    moved : s ++ 0 ∷ [] ≡ pre ++ (d ++ (concat ds ++ behind))
    moved = same ∙ ap (λ t. pre ++ t) (append_assoc d (concat ds) behind)

IsEnd-append : (e : Elf) (behind more : List ℕ) → IsEnd e behind → IsEnd e (behind ++ more)
unfolding get slice
IsEnd-append e behind more (long, null) = (
  omega (arith, long, length-append behind more),
  ap (rdi e.little_endian) (
        slice_mid [] behind more (d_tag e.class_of).at (d_tag e.class_of).at
          (d_tag e.class_of).width (omega arith) (omega (arith, tag_fits e.class_of, long)))
      ∙ null,
)

-- The object in which a section is replaced.
abbrev pub replaced : Elf → Name → List ℕ → Elf
replaced e name s = record e { replaced_sections = insert e.replaced_sections name s }

pub replace_section_grows :
    (e : Elf) (name s : List ℕ) (size more : ℕ)
    → section_bytes e name ≡ ok s
    → size ≡ length s + more
    → size < 2 ^ 32
    → replace_section e name (size % 2 ^ 32)
      ≡ ok (s ++ replicate more 0, replaced e name (s ++ replicate more 0))
unfolding replace_section
replace_section_grows e name s size more h k small =
    ap (replace_section e name) (mod-eq_of_lt small)
    ∙ rw h (
        ap (λ t. ok (t, replaced e name t))
          (resize_grows s size (omega (arith, k))
            ∙ ap (λ m. s ++ replicate m 0)
                (let m : size - length s ≡ more = omega (arith, k) in m)))

module _ (e : Elf) (n : ℕ) (ds : List (List ℕ)) (behind : List ℕ) where
  abbrev pub grown : List ℕ
  grown = (concat ds ++ behind) ++ replicate (dyn_size e.class_of * n) 0

  -- The entries with the one that ends them.
  abbrev pub ended : List ℕ
  ended = concat ds ++ take (dyn_size e.class_of) behind

  abbrev tail : List ℕ
  tail = drop (dyn_size e.class_of) behind ++ replicate (dyn_size e.class_of * n) 0

  grown-ended : grown ≡ ended ++ tail
  grown-ended =
      append_assoc (concat ds) behind _
      ∙ ap (λ t. concat ds ++ t)
          (ap (λ t. t ++ replicate (dyn_size e.class_of * n) 0)
              (sym (take-append-drop (dyn_size e.class_of) behind))
            ∙ append_assoc (take (dyn_size e.class_of) behind) (drop (dyn_size e.class_of) behind)
                _)
      ∙ sym (append_assoc (concat ds) (take (dyn_size e.class_of) behind) tail)

  length-ended :
      IsEnd e behind → All (IsEntry e) ds → length ended ≡ dyn_size e.class_of * (length ds + 1)
  length-ended null all = omega (
    arith,
    length-append (concat ds) (take (dyn_size e.class_of) behind),
    length-take (dyn_size e.class_of) behind,
    length-concat e ds all,
    null.0,
  )

  found_null :
      IsEnd e behind
      → All (IsEntry e) ds
      → null_index e (suc (suc (length grown))) grown 0 ≡ ok (length ds)
  found_null null all =
      null_index_lem e ds (behind ++ (replicate (dyn_size e.class_of * n) 0 ++ 0 ∷ [])) grown []
        (suc (suc (length grown))) 0
        (ap (λ t. t ++ 0 ∷ []) (append_assoc (concat ds) behind _)
          ∙ append_assoc (concat ds) (behind ++ _) (0 ∷ [])
          ∙ ap (λ t. concat ds ++ t) (append_assoc behind _ (0 ∷ [])))
        (omega arith) (IsEnd-append e behind _ null) all
        (omega (
          arith,
          length-append (concat ds ++ behind) (replicate (dyn_size e.class_of * n) 0),
          length-append (concat ds) behind,
          length-concat e ds all,
          mul-le-mul_right (length ds)
              (let le : 1 ≤ dyn_size e.class_of = dyn_size-lt e.class_of in le),
        ))
      ∙ ap ok (let same : 0 + length ds ≡ length ds = omega arith in same)

  taken :
      IsEnd e behind
      → All (IsEntry e) ds
      → take (dyn_size e.class_of * (length ds + 1)) grown ≡ ended
  taken null all = ap₂ take (sym (length-ended null all)) grown-ended ∙ take-append ended tail

  -- What `shift_dynamic` returns: a gap for `n` entries, the entries with their end, and a rest.
  pub shift_dynamic_lem :
      (header : List ℕ)
      → section_bytes e dot_dynamic ≡ ok (concat ds ++ behind)
      → get e.little_endian (sh_size e.class_of) header ≡ length (concat ds ++ behind)
      → length (concat ds ++ behind) + dyn_size e.class_of * n < 2 ^ 32
      → IsEnd e behind
      → All (IsEntry e) ds
      → (gap : List ℕ) × (rest : List ℕ) × (length gap ≡ dyn_size e.class_of * n)
        × (length gap + length ended + length rest ≡ length grown)
        × (shift_dynamic e header n ≡ ok (gap ++ (ended ++ rest), replaced e dot_dynamic grown))
  unfolding shift_dynamic
  shift_dynamic_lem header h k small null all = (
    gap,
    rest,
    omega (arith, sizes, length-take m grown),
    omega (
      arith,
      sizes,
      length-take m grown,
      length-drop m grown,
      length-drop (length ended) (drop m grown),
    ),
    rw
        (replace_section_grows e dot_dynamic (concat ds ++ behind)
          (get e.little_endian (sh_size e.class_of) header + m) m h (omega (arith, k))
          (omega (arith, k, small)))
        (rw (found_null null all) (
          rw (taken null all) (
            ap (λ t. set_substr t m ended >>= λ s. ok (s, replaced e dot_dynamic grown)) split
            ∙ rw
                (set_substr_mid gap old ended rest m (omega (arith, sizes, length-take m grown)) (
                  omega
                    (arith, sizes, length-drop m grown, length-take (length ended) (drop m grown))))
                refl))),
  )
    where
      m : ℕ
      m = dyn_size e.class_of * n

      gap : List ℕ
      gap = take m grown

      old : List ℕ
      old = take (length ended) (drop m grown)

      rest : List ℕ
      rest = drop (length ended) (drop m grown)

      sizes : (m + length ended ≤ length grown)
      sizes = omega (
        arith,
        length-ended null all,
        length-append (concat ds ++ behind) (replicate m 0),
        length-append (concat ds) behind,
        length-replicate {A = ℕ} m 0,
        length-concat e ds all,
        null.0,
      )

      split : grown ≡ gap ++ (old ++ rest)
      split =
          sym (take-append-drop m grown)
          ∙ ap (λ t. gap ++ t) (sym (take-append-drop (length ended) (drop m grown)))
