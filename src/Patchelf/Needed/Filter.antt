-- ===== src/Patchelf/Needed/Filter.antt =====
-- The whole of the loop that drops entries of the dynamic section: it is a filter.
use electrum_lightning_test.Base.{
  ℕ, suc, zero, ◌+◌, ◌-◌, ◌≤◌, ◌<◌, ◌≡◌, sym, ap, ap₂, ◌∙◌, arith, Bool, true, ◌||◌, List, [], ◌∷◌,
  ◌++◌, length, length-append, length-drop, length-replicate, drop, All, Bool-cases, inl, inr,
  replicate,
}
use mathlib.Core.List.{append_assoc}
use mathlib.Core.Path.{subst}
use native.Mathlib.Nat.{mul-le-mul_right}
use electrum_lightning_test.Patchelf.Result.{Result, ok}
use electrum_lightning_test.Patchelf.File.{Elf}
use electrum_lightning_test.Patchelf.Dynamic.{dyn_size, write_bytes, for_dyn, dyn_rounds}
use electrum_lightning_test.Patchelf.Dynamic.Table.{
  concat, tag_of, IsEntry, IsEnd, dyn_size-lt, length-concat,
}
use electrum_lightning_test.Patchelf.Needed.{compact_body, compact}
use electrum_lightning_test.Patchelf.Needed.Compact.{
  kept, any, state, or_true, write_bytes_mid, Compacts, Compacts-nil, Compacts-drop, Compacts-keep,
}

module _ (e : Elf) (drops : (at tag : ℕ) → Elf → Result Bool) (front behind : List ℕ)
    (dec : List ℕ → Bool) (Known : List ℕ → Type 0) (size : ℕ) where
  -- The test of the code decides as `dec`, wherever the entry has moved in the `size` bytes between
  -- `front` and `behind`, whatever else stands there.
  abbrev pub Decides : Type 0
  Decides =
      (before d after : List ℕ) (b : Bool)
      → Known d
      → length d ≡ dyn_size e.class_of
      → length before + length d + length after ≡ size
      → drops (length front + length before) (tag_of e d)
          (state e (front ++ (before ++ (d ++ (after ++ behind)))) b)
        ≡ ok (dec d)

  decides_at :
      (k0 gap d after : List ℕ) (at : ℕ) (b : Bool)
      → Decides
      → Known d
      → length d ≡ dyn_size e.class_of
      → at ≡ length front + length k0 + length gap
      → length k0 + length gap + length d + length after ≡ size
      → drops at (tag_of e d) (state e (front ++ (k0 ++ (gap ++ (d ++ (after ++ behind))))) b)
        ≡ ok (dec d)
  decides_at k0 gap d after at b h knows long place whole =
      ap₂ (λ a t. drops a (tag_of e d) (state e (front ++ t) b))
        (let same : at ≡ length front + length (k0 ++ gap) =
            omega (arith, place, length-append k0 gap) in
          same)
        (sym (append_assoc k0 gap (d ++ (after ++ behind))))
      ∙ h (k0 ++ gap) d after b knows long (omega (arith, whole, length-append k0 gap))

  loop-Compacts :
      (ds : List (List ℕ)) (k0 gap : List ℕ) (fuel at last : ℕ) (b : Bool)
      → Decides
      → IsEnd e behind
      → All (IsEntry e) ds
      → All Known ds
      → last ≡ length front + length k0
      → at ≡ length front + length k0 + length gap
      → length k0 + length gap + length (concat ds) ≡ size
      → length ds < fuel
      → Compacts e drops front behind ds (kept dec ds) (any dec ds || b) k0 gap fuel at last b
  loop-Compacts ds k0 gap zero at last b h null all know under place whole enough =
      absurd (omega arith)
  loop-Compacts [] k0 gap (suc fuel) at last b h null all know under place whole enough =
      Compacts-nil e drops front behind k0 gap fuel at last b null place
  loop-Compacts (d ∷ ds) k0 gap (suc fuel) at last b h null all know under place whole enough =
      let here =
        decides_at k0 gap d (concat ds) at b h know.0 all.0.0 place
          (omega (arith, whole, length-append d (concat ds))) in
      elim (Bool-cases (dec d)) [
        | inl dropped ↦ rw dropped (
            Compacts-drop e drops front behind d ds (kept dec ds) true k0 gap fuel at last b all.0
              place (here ∙ ap ok dropped)
              (subst
                (λ a.
                  Compacts e drops front behind ds (kept dec ds) a k0 (gap ++ d) fuel
                    (at + dyn_size e.class_of) last true)
                (or_true (any dec ds))
                (loop-Compacts ds k0 (gap ++ d) fuel (at + dyn_size e.class_of) last true h null
                  all.1 know.1 under (omega (arith, place, all.0.0, length-append gap d))
                  (omega (arith, whole, length-append gap d, length-append d (concat ds)))
                  (omega arith))))
        | inr stays ↦ rw stays (
            Compacts-keep e drops front behind d ds (kept dec ds) (any dec ds || b) k0 gap fuel at
              last b all.0 place under (here ∙ ap ok stays)
              (loop-Compacts ds (k0 ++ d) (drop (length d) (gap ++ d)) fuel
                (at + dyn_size e.class_of) (last + dyn_size e.class_of) b h null all.1 know.1
                (omega (arith, under, all.0.0, length-append k0 d))
                (omega (
                  arith,
                  place,
                  all.0.0,
                  length-append k0 d,
                  length-append gap d,
                  length-drop (length d) (gap ++ d),
                ))
                (omega (
                  arith,
                  whole,
                  length-append k0 d,
                  length-append gap d,
                  length-append d (concat ds),
                  length-drop (length d) (gap ++ d),
                ))
                (omega arith)))
      ]

  -- The loop and the `memset` behind it: the entries kept stand first, and zeros fill the rest.
  pub compact_filter :
      (ds : List (List ℕ))
      → e.contents ≡ front ++ (concat ds ++ behind)
      → length (concat ds) ≡ size
      → Decides
      → IsEnd e behind
      → All (IsEntry e) ds
      → All Known ds
      → compact drops (length front) e
        ≡ ok (
            state e
              (front
                ++ (concat (kept dec ds)
                    ++ (replicate (size - length (concat (kept dec ds))) 0 ++ behind)))
              (any dec ds || e.changed))
  unfolding compact
  compact_filter ds same whole h null all know = step (
      loop-Compacts ds [] [] (dyn_rounds e) (length front) (length front) e.changed h null all know
        (omega arith) (omega arith) (omega (arith, whole)) enough)
    where
      enough : length ds < dyn_rounds e
      enough = omega (
        arith,
        ap length same,
        length-append front (concat ds ++ behind),
        length-append (concat ds) behind,
        length-concat e ds all,
        mul-le-mul_right (length ds)
            (let le : 1 ≤ dyn_size e.class_of = dyn_size-lt e.class_of in le),
      )

      step :
          Compacts e drops front behind ds
            (kept dec ds)
            (any dec ds || e.changed)
            []
            []
            (dyn_rounds e)
            (length front)
            (length front)
            e.changed
          → compact drops (length front) e
            ≡ ok (
                state e
                  (front
                    ++ (concat (kept dec ds)
                        ++ (replicate (size - length (concat (kept dec ds))) 0 ++ behind)))
                  (any dec ds || e.changed))
      step (gap, at, sizes, end, runs) =
          let ks = concat (kept dec ds) in
          let count = size - length ks in
          let last = length front + length ks in
          rw
            (ap
                (λ c.
                  for_dyn (compact_body drops) (dyn_rounds e) (length front) (state e c e.changed)
                    (length front))
                same
              ∙ runs)
            (ap
                (λ n.
                  write_bytes (state e (front ++ (ks ++ (gap ++ behind))) (any dec ds || e.changed))
                    last (replicate n 0))
                (let n : at - last ≡ count = omega (arith, end, sizes, whole) in n)
              ∙ write_bytes_mid
                  (state e (front ++ (ks ++ (gap ++ behind))) (any dec ds || e.changed))
                  (front ++ ks) gap (replicate count 0) behind last
                  (sym (append_assoc front ks (gap ++ behind)))
                  (omega (arith, length-append front ks))
                  (omega (arith, length-replicate {A = ℕ} count 0, sizes, whole))
              ∙ ap (λ c. ok (state e c (any dec ds || e.changed)))
                  (append_assoc front ks (replicate count 0 ++ behind)))
