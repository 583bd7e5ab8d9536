-- ===== src/Patchelf/Needed/Compact.antt =====
-- The loop that drops entries of the dynamic section, as a filter of a list of entries.
use electrum_lightning_test.Base.{
  ℕ, suc, ◌+◌, ◌≤◌, ◌≡◌, refl, sym, ap, ap₂, ◌∙◌, arith, Bool, true, false, ◌||◌, List, [], ◌∷◌,
  ◌++◌, length, length-append, length-take, length-drop, take, drop, take-append-drop, le→leb,
  if◌then◌else◌,
}
use mathlib.Core.List.{append_assoc, append-nil}
use electrum_lightning_test.Base.Parts.{slice_whole, overwrite_mid}
use electrum_lightning_test.Patchelf.Elf.{d_tag}
use electrum_lightning_test.Patchelf.Result.{Result, ok}
use electrum_lightning_test.Patchelf.File.{Elf, read_bytes}
use electrum_lightning_test.Patchelf.Dynamic.{dyn_size, read_field, write_bytes, for_dyn}
use electrum_lightning_test.Patchelf.Dynamic.Table.{
  concat, tag_of, IsEntry, IsEnd, tag_fits, read_bytes_mid, read_field_mid, for_dyn_end,
  for_dyn_next,
}
use electrum_lightning_test.Patchelf.Needed.{compact_body, mark_changed}

-- The entries that a decision keeps, and whether it drops one.
abbrev pub kept : (List ℕ → Bool) → List (List ℕ) → List (List ℕ)
kept dec [] = []
kept dec (d ∷ ds) = let rest = kept dec ds in if dec d then rest else d ∷ rest

abbrev pub any : (List ℕ → Bool) → List (List ℕ) → Bool
any dec [] = false
any dec (d ∷ ds) = dec d || any dec ds

-- The object with other contents.
abbrev pub state : Elf → List ℕ → Bool → Elf
state e c b = record e { contents = c; changed = b }

pub write_bytes_mid :
    (e : Elf) (pre old new post : List ℕ) (at : ℕ)
    → e.contents ≡ pre ++ (old ++ post)
    → at ≡ length pre
    → length new ≡ length old
    → write_bytes e at new ≡ ok (record e { contents = pre ++ (new ++ post) })
unfolding write_bytes
write_bytes_mid e pre old new post at h k same =
    rw
      (
        h,
        le→leb (at + length new) (length (pre ++ (old ++ post)))
            (omega (arith, k, same, length-append pre (old ++ post), length-append old post)),
      )
      (ap (λ c. ok (record e { contents = c })) (overwrite_mid pre old new post at k same))

module _ (drops : (at tag : ℕ) → Elf → Result Bool) where
  body_drop :
      (at tag last : ℕ) (e : Elf)
      → drops at tag e ≡ ok true
      → compact_body drops at tag e last ≡ ok (mark_changed e, last)
  unfolding compact_body
  body_drop at tag last e h = rw h refl

  -- An entry that is kept moves down over a gap of any length, which moves up behind it.
  body_keep :
      (at tag last : ℕ) (e : Elf) (pre gap d post : List ℕ)
      → drops at tag e ≡ ok false
      → e.contents ≡ pre ++ (gap ++ (d ++ post))
      → last ≡ length pre
      → at ≡ length pre + length gap
      → length d ≡ dyn_size e.class_of
      → compact_body drops at tag e last
        ≡ ok (
          record e { contents = pre ++ (d ++ (drop (length d) (gap ++ d) ++ post)) },
          last + dyn_size e.class_of,
        )
  unfolding compact_body
  body_keep at tag last e pre gap d post h same l a size = rw h (rw read (rw store refl))
    where
      split :
          e.contents ≡ pre ++ (take (length d) (gap ++ d) ++ (drop (length d) (gap ++ d) ++ post))
      split =
          same
          ∙ ap (λ t. pre ++ t)
              (sym (append_assoc gap d post)
                ∙ ap (λ t. t ++ post) (sym (take-append-drop (length d) (gap ++ d)))
                ∙ append_assoc (take (length d) (gap ++ d)) (drop (length d) (gap ++ d)) post)

      joined : e.contents ≡ (pre ++ gap) ++ (d ++ post)
      joined = same ∙ sym (append_assoc pre gap (d ++ post))

      read : read_bytes e.contents at (dyn_size e.class_of) ≡ ok d
      read =
          ap (λ c. read_bytes c at (dyn_size e.class_of)) joined
          ∙ read_bytes_mid (pre ++ gap) d post at 0 (dyn_size e.class_of)
              (omega (arith, a, length-append pre gap)) (omega (arith, size))
          ∙ ap ok (slice_whole d (dyn_size e.class_of) size)

      store :
          write_bytes e last d
          ≡ ok (record e { contents = pre ++ (d ++ (drop (length d) (gap ++ d) ++ post)) })
      store =
          write_bytes_mid e pre (take (length d) (gap ++ d)) d (drop (length d) (gap ++ d) ++ post)
            last split l (omega (arith, length-take (length d) (gap ++ d), length-append gap d))

pub or_true : (b : Bool) → (b || true) ≡ true
or_true true = refl
or_true false = refl

module _ (e : Elf) (drops : (at tag : ℕ) → Elf → Result Bool) (front behind : List ℕ) where
  -- What the loop makes of the entries `ds`, of which `ks` stay, behind a gap.
  abbrev pub Compacts :
      (ds ks : List (List ℕ)) → (a : Bool) → (k0 gap : List ℕ) → (fuel at last : ℕ) → Bool → Type 0
  Compacts ds ks a k0 gap fuel at last b =
      (gap' : List ℕ) × (at' : ℕ) × (length gap' + length (concat ks)
        ≡ length gap + length (concat ds))
      × (at' ≡ at + length (concat ds))
      × (for_dyn (compact_body drops) fuel at
            (state e (front ++ (k0 ++ (gap ++ (concat ds ++ behind)))) b) last
          ≡ ok (
            state e (front ++ (k0 ++ (concat ks ++ (gap' ++ behind)))) a,
            last + length (concat ks),
            at',
          ))

  tag_mid :
      (k0 gap d post c : List ℕ) (at : ℕ) (b : Bool)
      → c ≡ front ++ (k0 ++ (gap ++ (d ++ post)))
      → at ≡ length front + length k0 + length gap
      → dyn_size e.class_of ≤ length d
      → read_field (state e c b) at (d_tag e.class_of) ≡ ok (tag_of e d)
  tag_mid k0 gap d post c at b h a long =
      read_field_mid (state e c b) (front ++ (k0 ++ gap)) d post at (d_tag e.class_of)
        (h
          ∙ ap (λ t. front ++ t) (sym (append_assoc k0 gap (d ++ post)))
          ∙ sym (append_assoc front (k0 ++ gap) (d ++ post)))
        (omega (arith, a, length-append front (k0 ++ gap), length-append k0 gap))
        (omega (arith, tag_fits e.class_of, long))

  pub Compacts-nil :
      (k0 gap : List ℕ) (fuel at last : ℕ) (b : Bool)
      → IsEnd e behind
      → at ≡ length front + length k0 + length gap
      → Compacts [] [] b k0 gap (suc fuel) at last b
  Compacts-nil k0 gap fuel at last b (long, null) a = (
    gap,
    at,
    omega arith,
    omega arith,
    for_dyn_end (compact_body drops) fuel at (state e (front ++ (k0 ++ (gap ++ behind))) b) last (
          tag_mid k0 gap behind [] (front ++ (k0 ++ (gap ++ behind))) at b
            (ap (λ t. front ++ (k0 ++ (gap ++ t))) (sym (append-nil behind))) a long
          ∙ ap ok null)
        ∙ ap (λ n. ok (state e (front ++ (k0 ++ (gap ++ behind))) b, n, at))
            (let same : last ≡ last + 0 = omega arith in same),
  )

  pub Compacts-drop :
      (d : List ℕ) (ds ks : List (List ℕ)) (a : Bool) (k0 gap : List ℕ) (fuel at last : ℕ)
      (b : Bool)
      → IsEntry e d
      → at ≡ length front + length k0 + length gap
      → drops at (tag_of e d) (state e (front ++ (k0 ++ (gap ++ (d ++ (concat ds ++ behind))))) b)
        ≡ ok true
      → Compacts ds ks a k0 (gap ++ d) fuel (at + dyn_size e.class_of) last true
      → Compacts (d ∷ ds) ks a k0 gap (suc fuel) at last b
  Compacts-drop d ds ks a k0 gap fuel at last b (size, tagged) place dropped
        (gap', at', sizes, end, runs) =
      (
        gap',
        at',
        omega (arith, sizes, length-append gap d, length-append d (concat ds)),
        omega (arith, end, size, length-append d (concat ds)),
        ap
              (λ t.
                for_dyn (compact_body drops) (suc fuel) at (state e (front ++ (k0 ++ (gap ++ t))) b)
                  last)
              (append_assoc d (concat ds) behind)
            ∙ for_dyn_next (compact_body drops) fuel at (tag_of e d) here last
                (mark_changed here, last)
                (tag_mid k0 gap d (concat ds ++ behind) c at b refl place (omega (arith, size)))
                tagged (body_drop drops at (tag_of e d) last here dropped)
            ∙ ap
                (λ t.
                  for_dyn (compact_body drops) fuel (at + dyn_size e.class_of)
                    (state e (front ++ (k0 ++ t)) true) last)
                (sym (append_assoc gap d (concat ds ++ behind)))
            ∙ runs,
      )
    where
      c : List ℕ
      c = front ++ (k0 ++ (gap ++ (d ++ (concat ds ++ behind))))

      here : Elf
      here = state e c b

  pub Compacts-keep :
      (d : List ℕ) (ds ks : List (List ℕ)) (a : Bool) (k0 gap : List ℕ) (fuel at last : ℕ)
      (b : Bool)
      → IsEntry e d
      → at ≡ length front + length k0 + length gap
      → last ≡ length front + length k0
      → drops at (tag_of e d) (state e (front ++ (k0 ++ (gap ++ (d ++ (concat ds ++ behind))))) b)
        ≡ ok false
      → Compacts ds ks a
          (k0 ++ d)
          (drop (length d) (gap ++ d))
          fuel
          (at + dyn_size e.class_of)
          (last + dyn_size e.class_of)
          b
      → Compacts (d ∷ ds) (d ∷ ks) a k0 gap (suc fuel) at last b
  Compacts-keep d ds ks a k0 gap fuel at last b (size, tagged) place under kept_here
        (gap', at', sizes, end, runs) =
      (
        gap',
        at',
        omega (
          arith,
          sizes,
          length-drop (length d) (gap ++ d),
          length-append gap d,
          length-append d (concat ds),
          length-append d (concat ks),
        ),
        omega (arith, end, size, length-append d (concat ds)),
        ap
              (λ t.
                for_dyn (compact_body drops) (suc fuel) at (state e (front ++ (k0 ++ (gap ++ t))) b)
                  last)
              (append_assoc d (concat ds) behind)
            ∙ for_dyn_next (compact_body drops) fuel at (tag_of e d) here last
                (state e ((front ++ k0) ++ (d ++ (gap1 ++ post))) b, last + dyn_size e.class_of)
                (tag_mid k0 gap d post c at b refl place (omega (arith, size))) tagged
                (body_keep drops at (tag_of e d) last here (front ++ k0) gap d post kept_here
                  (sym (append_assoc front k0 (gap ++ (d ++ post))))
                  (omega (arith, under, length-append front k0))
                  (omega (arith, place, length-append front k0)) size)
            ∙ ap
                (λ t.
                  for_dyn (compact_body drops) fuel (at + dyn_size e.class_of) (state e t b)
                    (last + dyn_size e.class_of))
                (append_assoc front k0 (d ++ (gap1 ++ post))
                  ∙ ap (λ t. front ++ t) (sym (append_assoc k0 d (gap1 ++ post))))
            ∙ runs
            ∙ ap₂ (λ t n. ok (state e (front ++ t) a, n, at'))
                (append_assoc k0 d (concat ks ++ (gap' ++ behind))
                  ∙ ap (λ t. k0 ++ t) (sym (append_assoc d (concat ks) (gap' ++ behind))))
                (let n : last + dyn_size e.class_of + length (concat ks)
                      ≡ last + length (d ++ concat ks) =
                    omega (arith, size, length-append d (concat ks)) in
                  n),
      )
    where
      post : List ℕ
      post = concat ds ++ behind

      gap1 : List ℕ
      gap1 = drop (length d) (gap ++ d)

      c : List ℕ
      c = front ++ (k0 ++ (gap ++ (d ++ post)))

      here : Elf
      here = state e c b
