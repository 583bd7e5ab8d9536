-- ===== src/Patchelf/Dynamic/Scan.antt =====
-- A loop over the dynamic section that does not change the object: it folds over the entries.
use electrum_lightning_test.Base.{
  ℕ, suc, zero, ◌+◌, ◌≤◌, ◌<◌, ◌≡◌, refl, sym, ap, ◌∙◌, arith, List, [], ◌∷◌, ◌++◌, length,
  length-append, All,
}
use mathlib.Core.List.{append_assoc, append-nil}
use native.Mathlib.Nat.{mul-le-mul_right}
use electrum_lightning_test.Patchelf.Elf.{d_tag}
use electrum_lightning_test.Patchelf.Result.{Result, ok}
use electrum_lightning_test.Patchelf.File.{Elf}
use electrum_lightning_test.Patchelf.Dynamic.{dyn_size, for_dyn, dyn_rounds}
use electrum_lightning_test.Patchelf.Dynamic.Table.{
  concat, tag_of, IsEntry, IsEnd, tag_fits, dyn_size-lt, length-concat, read_field_mid, for_dyn_end,
  for_dyn_next,
}

module _ {T : Type 0} (e : Elf) (body : (at tag : ℕ) → Elf → T → Result (Elf × T))
    (step : (at : ℕ) → List ℕ → T → T) (Known : List ℕ → Type 0) where
  -- A round of the loop is a step, wherever in the file the entry stands.
  abbrev pub Steps : Type 0
  Steps =
      (before d after : List ℕ) (at : ℕ) (t : T)
      → Known d
      → length d ≡ dyn_size e.class_of
      → e.contents ≡ before ++ (d ++ after)
      → at ≡ length before
      → body at (tag_of e d) e t ≡ ok (e, step at d t)

  abbrev pub folded : (at : ℕ) → List (List ℕ) → T → T
  folded at [] t = t
  folded at (d ∷ ds) t = folded (at + dyn_size e.class_of) ds (step at d t)

  scan_loop :
      (ds : List (List ℕ)) (before behind : List ℕ) (fuel at : ℕ) (t : T)
      → Steps
      → IsEnd e behind
      → All (IsEntry e) ds
      → All Known ds
      → e.contents ≡ before ++ (concat ds ++ behind)
      → at ≡ length before
      → length ds < fuel
      → for_dyn body fuel at e t ≡ ok (e, folded at ds t, at + length (concat ds))
  scan_loop ds before behind zero at t h null all know same place enough = absurd (omega arith)
  scan_loop [] before behind (suc fuel) at t h null all know same place enough =
      for_dyn_end body fuel at e t (
        read_field_mid e before behind [] at (d_tag e.class_of)
          (same ∙ ap (λ b. before ++ b) (sym (append-nil behind))) place
          (omega (arith, null.0, tag_fits e.class_of))
        ∙ ap ok null.1)
      ∙ ap (λ n. ok (e, t, n)) (let n : at ≡ at + 0 = omega arith in n)
  scan_loop (d ∷ ds) before behind (suc fuel) at t h null all know same place enough =
      let here : e.contents ≡ before ++ (d ++ (concat ds ++ behind)) =
        same ∙ ap (λ b. before ++ b) (append_assoc d (concat ds) behind) in
      let next = at + dyn_size e.class_of in
      for_dyn_next body fuel at (tag_of e d) e t (e, step at d t)
        (read_field_mid e before d (concat ds ++ behind) at (d_tag e.class_of) here place
          (omega (arith, all.0.0, tag_fits e.class_of)))
        all.0.1 (h before d (concat ds ++ behind) at t know.0 all.0.0 here place)
      ∙ scan_loop ds (before ++ d) behind fuel next (step at d t) h null all.1 know.1
          (here ∙ sym (append_assoc before d (concat ds ++ behind)))
          (omega (arith, place, all.0.0, length-append before d)) (omega arith)
      ∙ ap (λ n. ok (e, folded next ds (step at d t), n))
          (let n : next + length (concat ds) ≡ at + length (d ++ concat ds) =
              omega (arith, all.0.0, length-append d (concat ds)) in
            n)

  pub scan :
      (ds : List (List ℕ)) (front behind : List ℕ) (t : T)
      → Steps
      → IsEnd e behind
      → All (IsEntry e) ds
      → All Known ds
      → e.contents ≡ front ++ (concat ds ++ behind)
      → for_dyn body (dyn_rounds e) (length front) e t
        ≡ ok (e, folded (length front) ds t, length front + length (concat ds))
  scan ds front behind t h null all know same =
      scan_loop ds front behind (dyn_rounds e) (length front) t h null all know same refl (
        omega (
          arith,
          ap length same,
          length-append front (concat ds ++ behind),
          length-append (concat ds) behind,
          length-concat e ds all,
          mul-le-mul_right (length ds)
              (let le : 1 ≤ dyn_size e.class_of = dyn_size-lt e.class_of in le),
        ))
