-- ===== src/Patchelf/Program/Read.antt =====
-- What `readFile` reads.
use electrum_lightning_test.Base.{
  ℕ, ◌+◌, ◌*◌, ◌≡◌, refl, sym, ap, ◌∙◌, ◌==◌, Bool, true, false, Bool-cases, List, length, Option,
  none, some, ◌⊎◌, inl, inr, ==_iff,
}
use mathlib.Core.Path.{subst}
use electrum_lightning_test.Patchelf.Result.{elim_true, elim_false}
use electrum_lightning_test.Patchelf.Dynamic.{Name}
use electrum_lightning_test.Patchelf.Program.{
  Files, Exit, call_failed, on_stat, on_open, on_read, abort, whole_read, read_file,
}
use electrum_lightning_test.Patchelf.Program.Laws.{IsFiles}

whole_read_all :
    (size : ℕ) (r : Option (List ℕ)) (bytes : List ℕ)
    → whole_read size r ≡ inr bytes
    → (r ≡ some bytes) × (length bytes ≡ size)
unfolding whole_read
whole_read_all size none bytes h = cc
whole_read_all size (some x) bytes h = elim (Bool-cases (length x == size)) [
  | inl same ↦
      let it : x ≡ bytes =
        inr-inj (sym (elim_true (length x == size) (inr x) (inl (call_failed on_read)) same) ∙ h) in
      (ap some it, ap length (sym it) ∙ (==_iff (length x) size).0 same)
  | inr differs ↦ cc (h, elim_false (length x == size) (inr x) (inl (call_failed on_read)) differs)
]
  where
    inr-inj : {a b : List ℕ} → ◌≡◌ {A = Exit ⊎ List ℕ} (inr a) (inr b) → a ≡ b
    inr-inj e = cc

-- A file that is read is read as a whole.
pub read_file_whole {ℓ} :
    {S : Type ℓ} (fs : Files S) (holds : S → Name → Option (List ℕ)) (name : Name) (s : S)
    (bytes : List ℕ)
    → IsFiles fs holds
    → read_file fs name s ≡ inr bytes
    → holds s name ≡ some bytes
unfolding read_file
read_file_whole fs holds name s bytes law h = by_stat (fs.stat s name) refl
  where
    by_calls :
        (size : ℕ) (memory opened : Bool)
        → fs.stat s name ≡ some size
        → fs.malloc (size + (size + 32 * 1024 * 1024)) ≡ memory
        → fs.open_read s name ≡ opened
        → holds s name ≡ some bytes
    by_calls size false opened q m o =
        let ended : read_file fs name s ≡ inl abort = rw (read_file, q, m) refl in cc (h, ended)
    by_calls size true false q m o =
        let ended : read_file fs name s ≡ inl (call_failed on_open) =
          rw (read_file, q, m, o) refl in
        cc (h, ended)
    by_calls size true true q m o =
        let went_on : read_file fs name s ≡ whole_read size (fs.read s name size) =
          rw (read_file, q, m, o) refl in
        let all = whole_read_all size (fs.read s name size) bytes (sym went_on ∙ h) in
        law.whole s name bytes (q ∙ ap some (sym all.1))
          (subst (λ n. fs.read s name n ≡ some bytes) (sym all.1) all.0)

    by_stat : (t : Option ℕ) → fs.stat s name ≡ t → holds s name ≡ some bytes
    by_stat none q =
        let ended : read_file fs name s ≡ inl (call_failed on_stat) = rw (read_file, q) refl in
        cc (h, ended)
    by_stat (some size) q =
        by_calls size (fs.malloc (size + (size + 32 * 1024 * 1024))) (fs.open_read s name) q refl
          refl
