-- ===== src/Patchelf/Program/Changes.antt =====
-- What a run of patchelf changes.
use electrum_lightning_test.Base.{
  ℕ, ◌≤◌, ◌≡◌, ◌≢◌, refl, sym, ap, ◌∙◌, Bool-cases, List, length, take, Option, none, some, ◌⊎◌,
  inl, inr,
}
use mathlib.Core.Path.{subst}
use electrum_lightning_test.Base.Int.{ℤ}
use electrum_lightning_test.Patchelf.Result.{Result, ok, failed, aborted, fault}
use electrum_lightning_test.Patchelf.Section.{string_eq}
use electrum_lightning_test.Patchelf.Section.Find.{string_eq→≡, not_same}
use electrum_lightning_test.Patchelf.Dynamic.{Name}
use electrum_lightning_test.Patchelf.Options.{
  Arg, Options, Outcome, patch, show_help, show_version, refused, main_options,
}
use electrum_lightning_test.Patchelf.Patch.{System, Patched, patch_elf}
use electrum_lightning_test.Patchelf.Program.{
  Files, Call, Exit, Run, ended, unknown, returned, call_failed, on_write, on_close, read_file,
  write_file, finish, exit_of, patch_file, main,
}
use electrum_lightning_test.Patchelf.Program.Laws.{IsFiles}
use electrum_lightning_test.Patchelf.Program.Read.{read_file_whole}
use electrum_lightning_test.Patchelf.Program.Store.{write_file_cases, write_file_others}

-- The file held `old`, which `patchElf` turns into `new`, and holds the first `kept` bytes of that; all of
-- them if the process returns from `main`, which prints the lines of the run.
pub record Rewritten {ℓ} {S : Type ℓ} (holds : S → Name → Option (List ℕ)) (sys : System)
    (o : Options) (name : Name) (s : S) (exit : Exit) (s' : S) : Type ℓ where
  pub old : List ℕ
  pub result : Patched
  pub new : List ℕ
  pub held : holds s name ≡ some old
  pub patched : patch_elf sys o old ≡ ok result
  pub changed : result.stored ≡ some new
  pub kept : ℕ
  pub within_new : kept ≤ length new
  pub holds_kept : holds s' name ≡ some (take kept new)
  pub ending :
      (exit ≡ returned 0 result.printed)
      ⊎ ((exit ≡ call_failed on_write) ⊎ (exit ≡ call_failed on_close))
  pub all_kept : (code : ℕ) (printed : List Name) → exit ≡ returned code printed → kept ≡ length new

-- What holds of a run that ends.
abbrev Ends {ℓ κ} : {S : Type ℓ} → (Exit → S → Type κ) → Run S → Type κ
Ends P (ended exit s) = P exit s
Ends P unknown = Unit

exit_of-returned :
    (printed : List Name) (call : Option Call) (code : ℕ) (lines : List Name)
    → exit_of printed call ≡ returned code lines
    → call ≡ none
unfolding exit_of
exit_of-returned printed none code lines h = refl
exit_of-returned printed (some c) code lines h = cc

module _ {ℓ} {S : Type ℓ} (fs : Files S) (holds : S → Name → Option (List ℕ))
    (law : IsFiles fs holds) (sys : System) where
  -- What `finish` leaves, by the result of `patchElf`.
  finish_changes :
      (o : Options) (name : Name) (old : List ℕ) (s : S) (r : Result Patched)
      → holds s name ≡ some old
      → patch_elf sys o old ≡ r
      → Ends
          (λ exit s'. (holds s' name ≡ holds s name) ⊎ Rewritten holds sys o name s exit s')
          (finish fs name r s)
  unfolding finish exit_of
  finish_changes o name old s (failed m) held h = inl refl
  finish_changes o name old s aborted held h = inl refl
  finish_changes o name old s fault held h = tt
  finish_changes o name old s (ok p) held h = by_stored p.stored refl
    where
      Claim : Run S → Type ℓ
      Claim =
          Ends (λ exit s'. (holds s' name ≡ holds s name) ⊎ Rewritten holds sys o name s exit s')

      by_stored : (t : Option (List ℕ)) → p.stored ≡ t → Claim (finish fs name (ok p) s)
      by_stored none q =
          let ran : finish fs name (ok p) s ≡ ended (returned 0 p.printed) s =
            rw (finish, q) refl in
          subst Claim (sym ran) (inl refl)
      by_stored (some new) q =
          let w = write_file fs name new s in
          let ran : finish fs name (ok p) s ≡ ended (exit_of p.printed w.0) w.1 =
            rw (finish, q) refl in
          subst Claim (sym ran) (elim (write_file_cases fs holds law name new s) [
            | inl same ↦ inl (ap (λ x. holds x name) same.0)
            | inr x ↦ inr (record {
              old = old;
              result = p;
              new = new;
              held = held;
              patched = h;
              changed = q;
              kept = x.kept;
              within_new = x.within_new;
              holds_kept = x.holds_kept;
              ending = elim x.ending [
                | inl none_failed ↦ inl (ap (exit_of p.printed) none_failed)
                | inr (inl on_w) ↦ inr (inl (ap (exit_of p.printed) on_w))
                | inr (inr on_c) ↦ inr (inr (ap (exit_of p.printed) on_c))
              ];
              all_kept = λ code printed e. x.all_kept (exit_of-returned p.printed _ code printed e);
            })
          ])

  finish_others :
      (name path : Name) (s : S) (r : Result Patched)
      → name ≢ path
      → Ends (λ exit s'. holds s' path ≡ holds s path) (finish fs name r s)
  unfolding finish
  finish_others name path s (failed m) apart = refl
  finish_others name path s aborted apart = refl
  finish_others name path s fault apart = tt
  finish_others name path s (ok p) apart = by_stored p.stored refl
    where
      Claim : Run S → Type 0
      Claim = Ends (λ exit s'. holds s' path ≡ holds s path)

      by_stored : (t : Option (List ℕ)) → p.stored ≡ t → Claim (finish fs name (ok p) s)
      by_stored none q =
          let ran : finish fs name (ok p) s ≡ ended (returned 0 p.printed) s =
            rw (finish, q) refl in
          subst Claim (sym ran) refl
      by_stored (some new) q =
          let w = write_file fs name new s in
          let ran : finish fs name (ok p) s ≡ ended (exit_of p.printed w.0) w.1 =
            rw (finish, q) refl in
          subst Claim (sym ran) (write_file_others fs holds law name path new s apart)

  patch_file_changes :
      (o : Options) (name path : Name) (s : S)
      → Ends
          (λ exit s'.
            (holds s' path ≡ holds s path) ⊎ ((name ≡ path) × Rewritten holds sys o path s exit s'))
          (patch_file fs sys o name s)
  unfolding patch_file
  patch_file_changes o name path s = by_read (read_file fs name s) refl
    where
      Claim : Run S → Type ℓ
      Claim = Ends (λ exit s'.
          (holds s' path ≡ holds s path) ⊎ ((name ≡ path) × Rewritten holds sys o path s exit s'))

      same_file :
          (r : Run S)
          → name ≡ path
          → Ends
              (λ exit s'. (holds s' name ≡ holds s name) ⊎ Rewritten holds sys o name s exit s')
              r
          → Claim r
      same_file unknown same h = tt
      same_file (ended exit s') same h =
          subst (λ x. (holds s' x ≡ holds s x) ⊎ ((name ≡ x) × Rewritten holds sys o x s exit s'))
            same (elim h [ inl kept ↦ inl kept | inr x ↦ inr (refl, x) ])

      other_file : (r : Run S) → Ends (λ exit s'. holds s' path ≡ holds s path) r → Claim r
      other_file unknown h = tt
      other_file (ended exit s') h = inl h

      by_read : (r : Exit ⊎ List ℕ) → read_file fs name s ≡ r → Claim (patch_file fs sys o name s)
      by_read (inl exit) q = rw (patch_file, q) (inl refl)
      by_read (inr old) q =
          let r = patch_elf sys o old in
          rw (patch_file, q)
            (elim (Bool-cases (string_eq name path)) [
              | inl same_text ↦
                  same_file (finish fs name r s) (string_eq→≡ name path same_text)
                    (finish_changes o name old s r (read_file_whole fs holds name s old law q) refl)
              | inr differs ↦
                  other_file (finish fs name r s)
                    (finish_others name path s r (not_same name path differs))
            ])

  main_changes :
      (atoi : Arg → ℤ) (page : ℕ) (version : Name) (args : List Arg) (s : S) (path : Name)
      → Ends
          (λ exit s'.
            (holds s' path ≡ holds s path)
            ⊎ ((o : Options) × (main_options atoi page args ≡ patch o path)
                × Rewritten holds sys o path s exit s'))
          (main fs sys atoi page version args s)
  unfolding main
  main_changes atoi page version args s path = by_options (main_options atoi page args) refl
    where
      Claim : Run S → Type ℓ
      Claim = Ends (λ exit s'.
          (holds s' path ≡ holds s path)
          ⊎ ((o : Options) × (main_options atoi page args ≡ patch o path)
              × Rewritten holds sys o path s exit s'))

      named :
          (o : Options) (name : Name) (r : Run S)
          → main_options atoi page args ≡ patch o name
          → Ends
              (λ exit s'.
                (holds s' path ≡ holds s path)
                ⊎ ((name ≡ path) × Rewritten holds sys o path s exit s'))
              r
          → Claim r
      named o name unknown q h = tt
      named o name (ended exit s') q h = elim h [
        | inl kept ↦ inl kept
        | inr (same, x) ↦ inr (o, q ∙ ap (patch o) same, x)
      ]

      by_options :
          (r : Outcome)
          → main_options atoi page args ≡ r
          → Claim (main fs sys atoi page version args s)
      by_options show_help q = rw (main, q) (inl refl)
      by_options show_version q = rw (main, q) (inl refl)
      by_options (refused m) q = rw (main, q) (inl refl)
      by_options (patch o name) q =
          let ran : main fs sys atoi page version args s ≡ patch_file fs sys o name s =
            rw (main, q) refl in
          subst Claim (sym ran)
            (named o name (patch_file fs sys o name s) q (patch_file_changes o name path s))

  -- When a run of patchelf with any arguments ends, that is, makes no access that is a fault, a file holds
  -- what it held, or the file is the one that the options name: it held the bytes of an ELF file that the
  -- run turns into new ones, and holds the new bytes or a first part of them. Then `main` returns 0 or
  -- the message is that of `write` or `close`, and when `main` returns the file holds all of the new
  -- bytes.
  pub main-Rewritten :
      (atoi : Arg → ℤ) (page : ℕ) (version : Name) (args : List Arg) (s : S) (path : Name)
      (exit : Exit) (s' : S)
      → main fs sys atoi page version args s ≡ ended exit s'
      → (holds s' path ≡ holds s path)
        ⊎ ((o : Options) × (main_options atoi page args ≡ patch o path)
            × Rewritten holds sys o path s exit s')
  main-Rewritten atoi page version args s path exit s' ran =
      subst
        (Ends (λ x y.
          (holds y path ≡ holds s path)
          ⊎ ((o : Options) × (main_options atoi page args ≡ patch o path)
              × Rewritten holds sys o path s x y)))
        ran (main_changes atoi page version args s path)
