-- ===== src/Patchelf/Rewrite/Shift/Fields.antt =====
-- The fields of the ELF header that `shiftFile` sets.
use electrum_lightning_test.Base.{
  ℕ, ◌+◌, ◌%◌, ◌^◌, ◌≤◌, ◌<◌, ◌≡◌, refl, sym, ap, ◌∙◌, arith, Bool, List, [], ◌++◌, length,
  length-append, length-take, take, drop, slice, take-append-drop, inl, inr, drop-overwrite_behind,
}
use native.Mathlib.Nat.{mod-eq_of_lt}
use electrum_lightning_test.Base.Parts.{slice_mid, drop_behind}
use electrum_lightning_test.Patchelf.Elf.{
  Class, Field, elf32, elf64, ehdr, sum, e_phoff, e_shoff, e_phnum, e_shnum,
}
use electrum_lightning_test.Patchelf.Word.{rdi}
use electrum_lightning_test.Patchelf.File.{Elf, get, put, hdr_get, hdr_put}
use electrum_lightning_test.Patchelf.File.Fields.{
  length-wri, length-put, get-put, get-put_ne, shnum_fits,
}

-- A field of the ELF header, of which `size` bytes stand in front of others.
get_front :
    (little : Bool) (f : Field) (size : ℕ) (c r : List ℕ)
    → f.at + f.width ≤ size
    → size ≤ length c
    → get little f (take size c ++ r) ≡ get little f c
unfolding get
get_front little f size c r inside long =
    let fits : f.at + f.width ≤ length (take size c) =
      omega (arith, inside, long, length-take size c) in
    ap (rdi little) (
      slice_mid [] (take size c) r f.at f.at f.width (omega arith) fits
      ∙ sym (slice_mid [] (take size c) (drop size c) f.at f.at f.width (omega arith) fits)
      ∙ ap (λ t. slice t f.at f.width) (take-append-drop size c))

drop-put :
    (little : Bool) (f : Field) (v size : ℕ) (xs : List ℕ)
    → f.at + f.width ≤ size
    → drop size (put little f v xs) ≡ drop size xs
unfolding put
drop-put little f v size xs inside =
    drop-overwrite_behind xs f.at _ size (omega (arith, inside, length-wri little f.width v))

-- The fields that shiftFile sets stand in this order in the ELF header.
abbrev IsOrdered : Class → Type 0
IsOrdered c =
    ((e_phoff c).at + (e_phoff c).width ≤ (e_shoff c).at)
    × ((e_shoff c).at + (e_shoff c).width ≤ (e_phnum c).at)
    × ((e_phnum c).at + (e_phnum c).width ≤ (e_shnum c).at)
    × ((e_phnum c).at + (e_phnum c).width ≤ sum (ehdr c))
    × ((e_phnum c).width ≡ 2)
    × (sum (ehdr c) < 256 ^ (e_phoff c).width)

ehdr-IsOrdered : (c : Class) → IsOrdered c
ehdr-IsOrdered elf32 = (omega arith, omega arith, omega arith, omega arith, refl, omega arith)
ehdr-IsOrdered elf64 = (omega arith, omega arith, omega arith, omega arith, refl, omega arith)

-- The object with other bytes behind its ELF header, and with the places of the tables.
abbrev pub with_rest : Elf → List ℕ → Elf
with_rest e r = record e { contents = take (sum (ehdr e.class_of)) e.contents ++ r }

abbrev pub with_phoff : Elf → List ℕ → Elf
with_phoff e r = hdr_put (with_rest e r) e_phoff (sum (ehdr e.class_of))

abbrev pub with_shoff : ℕ → Elf → List ℕ → Elf
with_shoff shift e r = hdr_put (with_phoff e r) e_shoff (hdr_get (with_phoff e r) e_shoff + shift)

module _ (shift : ℕ) (e : Elf) (r : List ℕ) (long : sum (ehdr e.class_of) ≤ length e.contents) where
  kept_shoff : hdr_get (with_phoff e r) e_shoff ≡ hdr_get e e_shoff
  unfolding hdr_get hdr_put
  kept_shoff =
      let o = ehdr-IsOrdered e.class_of in
      get-put_ne e.little_endian (e_phoff e.class_of) (e_shoff e.class_of) _ _ (inr o.0)
      ∙ get_front e.little_endian (e_shoff e.class_of) _ e.contents r (omega (arith, o.1, o.3)) long

  kept_behind :
      (f : Class → Field)
      → (e_shoff e.class_of).at + (e_shoff e.class_of).width ≤ (f e.class_of).at
      → (f e.class_of).at + (f e.class_of).width ≤ sum (ehdr e.class_of)
      → hdr_get (with_shoff shift e r) f ≡ hdr_get e f
  unfolding hdr_get hdr_put
  kept_behind f behind inside =
      let o = ehdr-IsOrdered e.class_of in
      get-put_ne e.little_endian (e_shoff e.class_of) (f e.class_of) _ _ (inr behind)
      ∙ get-put_ne e.little_endian (e_phoff e.class_of) (f e.class_of) _ _
          (inr (omega (arith, o.0, behind)))
      ∙ get_front e.little_endian (f e.class_of) _ e.contents r inside long

  pub kept_shnum : hdr_get (with_shoff shift e r) e_shnum ≡ hdr_get e e_shnum
  kept_shnum =
      let o = ehdr-IsOrdered e.class_of in
      kept_behind e_shnum (omega (arith, o.1, o.2)) (shnum_fits e.class_of)

  pub kept_phnum : hdr_get (with_shoff shift e r) e_phnum ≡ hdr_get e e_phnum
  kept_phnum = let o = ehdr-IsOrdered e.class_of in kept_behind e_phnum o.1 o.3

  length-with_shoff : sum (ehdr e.class_of) ≤ length (with_shoff shift e r).contents
  unfolding hdr_put
  length-with_shoff =
      let size = sum (ehdr e.class_of) in
      let c1 = (with_rest e r).contents in
      omega (
        arith,
        long,
        length-put e.little_endian (e_shoff e.class_of) (hdr_get (with_phoff e r) e_shoff + shift)
            (with_phoff e r).contents,
        length-put e.little_endian (e_phoff e.class_of) size c1,
        length-append (take size e.contents) r,
        length-take size e.contents,
      )

  module _ (n : ℕ) (room : n < 256 ^ 2) where
    abbrev counted : Elf
    counted = hdr_put (with_shoff shift e r) e_phnum n

    pub counted-phnum : hdr_get counted e_phnum ≡ n
    unfolding hdr_get hdr_put
    counted-phnum =
        let o = ehdr-IsOrdered e.class_of in
        get-put e.little_endian (e_phnum e.class_of) n (with_shoff shift e r).contents
          (omega (arith, o.3, length-with_shoff))
        ∙ ap (λ w. n % 256 ^ w) o.4
        ∙ (let fits : n % 256 ^ 2 ≡ n = omega (arith, room) in fits)

    pub counted-shoff :
        hdr_get counted e_shoff ≡ (hdr_get e e_shoff + shift) % 256 ^ (e_shoff e.class_of).width
    unfolding hdr_get hdr_put
    counted-shoff =
        let o = ehdr-IsOrdered e.class_of in
        let size = sum (ehdr e.class_of) in
        get-put_ne e.little_endian (e_phnum e.class_of) (e_shoff e.class_of) n _ (inl o.1)
        ∙ get-put e.little_endian (e_shoff e.class_of) (hdr_get (with_phoff e r) e_shoff + shift)
            (with_phoff e r).contents
            (omega (
              arith,
              o.1,
              o.3,
              long,
              length-put e.little_endian (e_phoff e.class_of) size (with_rest e r).contents,
              length-append (take size e.contents) r,
              length-take size e.contents,
            ))
        ∙ ap (λ v. (v + shift) % 256 ^ (e_shoff e.class_of).width) kept_shoff

    pub counted-phoff : hdr_get counted e_phoff ≡ sum (ehdr e.class_of)
    unfolding hdr_get hdr_put
    counted-phoff =
        let o = ehdr-IsOrdered e.class_of in
        let size = sum (ehdr e.class_of) in
        get-put_ne e.little_endian (e_phnum e.class_of) (e_phoff e.class_of) n _
          (inl (omega (arith, o.0, o.1)))
        ∙ get-put_ne e.little_endian (e_shoff e.class_of) (e_phoff e.class_of) _ _ (inl o.0)
        ∙ get-put e.little_endian (e_phoff e.class_of) size (with_rest e r).contents (
            omega (
              arith,
              o.0,
              o.1,
              o.3,
              long,
              length-append (take size e.contents) r,
              length-take size e.contents,
            ))
        ∙ mod-eq_of_lt o.5

    pub counted-behind : drop (sum (ehdr e.class_of)) counted.contents ≡ r
    unfolding hdr_put
    counted-behind =
        let o = ehdr-IsOrdered e.class_of in
        let size = sum (ehdr e.class_of) in
        drop-put e.little_endian (e_phnum e.class_of) n size _ o.3
        ∙ drop-put e.little_endian (e_shoff e.class_of) _ size _ (omega (arith, o.1, o.3))
        ∙ drop-put e.little_endian (e_phoff e.class_of) _ size _ (omega (arith, o.0, o.1, o.3))
        ∙ drop_behind size (take size e.contents) r 0
            (omega (arith, long, length-take size e.contents))
