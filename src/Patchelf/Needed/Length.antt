-- ===== src/Patchelf/Needed/Length.antt =====
-- The loops that drop entries keep the length of the file.
use electrum_lightning_test.Base.{
  ℕ, ◌+◌, ◌≡◌, refl, Bool, List, length, length-overwrite, leb, Bool-cases, inl, inr,
}
use electrum_lightning_test.Patchelf.Result.{
  Result, ok, fault, Gives, ok-Gives, after-Gives, then-Gives, elim-Gives,
}
use electrum_lightning_test.Patchelf.File.{Elf, read_bytes}
use electrum_lightning_test.Patchelf.Dynamic.{dyn_size, write_bytes}
use electrum_lightning_test.Patchelf.Dynamic.Rounds.{Keeps}
use electrum_lightning_test.Patchelf.Needed.{compact_body}

-- An object whose file has as many bytes.
abbrev pub IsLong : Elf → Elf → Type 0
IsLong e e' = length e'.contents ≡ length e.contents

pub write_bytes-IsLong : (e : Elf) (at : ℕ) (b : List ℕ) → Gives (IsLong e) (write_bytes e at b)
unfolding write_bytes
write_bytes-IsLong e at b e' h = elim (Bool-cases (leb (at + length b) (length e.contents))) [
  | inl fits ↦ ok-Gives (IsLong e) _ (length-overwrite e.contents at b) e' (rw fits at h)
  | inr out ↦ (let bad : fault ≡ ok e' = rw out at h in cc)
]

pub compact_body-Keeps : (drops : (at tag : ℕ) → Elf → Result Bool) → Keeps (compact_body drops)
unfolding compact_body
compact_body-Keeps drops at tag e last =
    let P : Elf × ℕ → Type 0 = λ next. length next.0.contents ≡ length e.contents in
    after-Gives P (drops at tag e) (λ dropped. elim-Gives P dropped (ok-Gives P _ refl) (
      after-Gives P (read_bytes e.contents at (dyn_size e.class_of)) (λ d.
        then-Gives (IsLong e) P (write_bytes e last d) (write_bytes-IsLong e last d)
          (λ e' same. ok-Gives P _ same))))
