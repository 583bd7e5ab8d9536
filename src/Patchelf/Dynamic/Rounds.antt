-- ===== src/Patchelf/Dynamic/Rounds.antt =====
-- The number of rounds of a loop over the dynamic section.
use electrum_lightning_test.Base.{
  ℕ, suc, zero, ◌+◌, ◌≤◌, ◌<◌, ◌≡◌, refl, arith, ◌==◌, leb, leb→le, length, Bool-cases, inl, inr,
}
use electrum_lightning_test.Patchelf.Elf.{Class, elf32, elf64, d_tag}
use electrum_lightning_test.Patchelf.Elf.Tag.{dt_null}
use electrum_lightning_test.Patchelf.Result.{Result, ok, failed, aborted, fault, ◌>>=◌}
use electrum_lightning_test.Patchelf.File.{Elf, read_bytes}
use electrum_lightning_test.Patchelf.Dynamic.{dyn_size, read_field, for_dyn, dyn_rounds}
use electrum_lightning_test.Patchelf.Dynamic.Table.{dyn_size-lt}

-- Two chains that go on alike after every value go on alike.
pub >>=-ext {ℓ κ} :
    {A : Type ℓ} {B : Type κ} (r : Result A) {k l : A → Result B}
    → ((x : A) → r ≡ ok x → k x ≡ l x)
    → (r >>= k) ≡ (r >>= l)
>>=-ext (ok x) h = h x refl
>>=-ext (failed m) h = refl
>>=-ext aborted h = refl
>>=-ext fault h = refl

tag_width : (c : Class) → 0 < (d_tag c).width
tag_width elf32 = omega arith
tag_width elf64 = omega arith

read_field_beyond :
    (e : Elf) (at : ℕ) → length e.contents < at → read_field e at (d_tag e.class_of) ≡ fault
unfolding read_field read_bytes
read_field_beyond e at h =
    let f = d_tag e.class_of in
    elim (Bool-cases (leb (at + f.at + f.width) (length e.contents))) [
      | inl fits ↦ absurd (omega (arith, leb→le _ _ fits, h))
      | inr out ↦ rw out refl
    ]

module _ {T : Type 0} (body : (at tag : ℕ) → Elf → T → Result (Elf × T)) where
  -- A body that keeps the length of the file.
  abbrev pub Keeps : Type 0
  Keeps =
      (at tag : ℕ) (e : Elf) (t : T) (next : Elf × T)
      → body at tag e t ≡ ok next
      → length next.0.contents ≡ length e.contents

  for_dyn_beyond :
      (k at : ℕ) (e : Elf) (t : T) → length e.contents < at → for_dyn body k at e t ≡ fault
  unfolding for_dyn
  for_dyn_beyond zero at e t h = refl
  for_dyn_beyond (suc k) at e t h = rw (read_field_beyond e at h) refl

  for_dyn_longer :
      (more fuel at : ℕ) (e : Elf) (t : T)
      → Keeps
      → fuel ≤ more
      → length e.contents < at + fuel
      → for_dyn body more at e t ≡ for_dyn body fuel at e t
  unfolding for_dyn
  for_dyn_longer more zero at e t keeps le h = for_dyn_beyond more at e t (omega (arith, h))
  for_dyn_longer zero (suc fuel) at e t keeps le h = absurd (omega arith)
  for_dyn_longer (suc more) (suc fuel) at e t keeps le h =
      >>=-ext (read_field e at (d_tag e.class_of)) (λ tag read. elim (Bool-cases (tag == dt_null)) [
        | inl end ↦ rw end refl
        | inr entry ↦ rw entry (
            >>=-ext (body at tag e t) (λ next done.
              for_dyn_longer more fuel (at + dyn_size e.class_of) next.0 next.1 keeps (omega arith)
                (omega (arith, keeps at tag e t next done, dyn_size-lt e.class_of, h))))
      ])

  -- More rounds than one for each byte of the file, and one more, change nothing, wherever the loop
  -- begins, for every body that keeps the length of the file: the loop over the dynamic section
  -- reaches its end, or an access outside of the file, in as many rounds.
  pub for_dyn_enough :
      (more at : ℕ) (e : Elf) (t : T)
      → Keeps
      → dyn_rounds e ≤ more
      → for_dyn body more at e t ≡ for_dyn body (dyn_rounds e) at e t
  for_dyn_enough more at e t keeps le =
      for_dyn_longer more (dyn_rounds e) at e t keeps le (omega arith)
