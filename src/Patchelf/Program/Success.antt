-- ===== src/Patchelf/Program/Success.antt =====
-- A run of patchelf whose calls on files do all that they are asked for.
use electrum_lightning_test.Base.{
  ℕ, ◌+◌, ◌*◌, ◌≡◌, ◌≢◌, refl, ap, ◌∙◌, ◌==◌, ==_iff, true, false, List, length, take, take-length,
  Option, none, some, inl, inr,
}
use electrum_lightning_test.Base.Int.{ℤ}
use electrum_lightning_test.Patchelf.Result.{ok, elim_true}
use electrum_lightning_test.Patchelf.Dynamic.{Name}
use electrum_lightning_test.Patchelf.Options.{Arg, Options, patch, main_options}
use electrum_lightning_test.Patchelf.Patch.{System, Patched, patch_elf}
use electrum_lightning_test.Patchelf.Program.{
  Files, ended, returned, call_failed, on_read, whole_read, read_file, is_short, closing,
  close_written, write_opened, write_file, finish, exit_of, patch_file, main,
}
use electrum_lightning_test.Patchelf.Program.Laws.{IsFiles, Serves}
use electrum_lightning_test.Patchelf.Program.Store.{write_file_others, write_opened-Stored}

-- The new contents, or the old ones if nothing is stored.
abbrev pub contents_after : Patched → List ℕ → List ℕ
contents_after p old = elim p.stored [ none ↦ old | some new ↦ new ]

whole_read_enough : (bytes : List ℕ) → whole_read (length bytes) (some bytes) ≡ inr bytes
unfolding whole_read
whole_read_enough bytes =
    elim_true (length bytes == length bytes) (inr bytes) (inl (call_failed on_read))
      ((==_iff (length bytes) (length bytes)).1 refl)

is_short_enough : (size : ℕ) → is_short size (some size) ≡ false
unfolding is_short
is_short_enough size = elim_true (size == size) false true ((==_iff size size).1 refl)

module _ {ℓ} {S : Type ℓ} (fs : Files S) (holds : S → Name → Option (List ℕ))
    (law : IsFiles fs holds) (able : Serves fs holds) where
  pub read_file_enough :
      (name : Name) (bytes : List ℕ) (s : S)
      → holds s name ≡ some bytes
      → read_file fs name s ≡ inr bytes
  unfolding read_file
  read_file_enough name bytes s here =
      rw
        (
          read_file,
          able.has_size s name bytes here,
          able.has_memory (length bytes + (length bytes + 32 * 1024 * 1024)),
          able.opens s name bytes here,
          able.reads s name bytes here,
        )
        (whole_read_enough bytes)

  write_opened_enough : (name : Name) (new : List ℕ) (s : S) → (write_opened fs name new s).0 ≡ none
  unfolding write_opened close_written closing
  write_opened_enough name new s =
      rw
        (
          able.writes_all s name new,
          is_short_enough (length new),
          able.closes (fs.write s name new).1 name,
        )
        refl

  write_file_enough :
      (name : Name) (old new : List ℕ) (s : S)
      → holds s name ≡ some old
      → ((write_file fs name new s).0 ≡ none) × (holds (write_file fs name new s).1 name ≡ some new)
  unfolding write_file
  write_file_enough name old new s here =
      let (s1, opened) = able.opens_write s name old here in
      let x = write_opened-Stored fs holds law name new s1 (law.emptied s s1 name opened) in
      let done = write_opened_enough name new s1 in
      (
        rw (write_file, opened) done,
        rw (write_file, opened)
            (x.holds_kept ∙ ap some (ap (λ k. take k new) (x.all_kept done) ∙ take-length new)),
      )

  -- When the options ask to patch a file, the file holds an ELF file that patchelf can patch so, and all
  -- calls on files do what they are asked for, `main` returns 0 with the lines printed, the file holds the
  -- new contents, or the old ones if there are no new ones, and all other files are as before.
  pub main-Serves :
      (sys : System) (atoi : Arg → ℤ) (page : ℕ) (version : Name) (args : List Arg) (s : S)
      (o : Options) (name : Name) (old : List ℕ) (p : Patched)
      → main_options atoi page args ≡ patch o name
      → holds s name ≡ some old
      → patch_elf sys o old ≡ ok p
      → (s' : S) × (main fs sys atoi page version args s ≡ ended (returned 0 p.printed) s')
        × (holds s' name ≡ some (contents_after p old))
        × ((q : Name) → name ≢ q → holds s' q ≡ holds s q)
  unfolding main patch_file finish exit_of
  main-Serves sys atoi page version args s o name old p parsed here patched =
      let (s', ran, now, others) = by_stored p.stored refl in
      (
        s',
        rw (main, parsed) (rw (patch_file, read_file_enough name old s here) (rw patched ran)),
        now,
        others,
      )
    where
      by_stored :
          (t : Option (List ℕ))
          → p.stored ≡ t
          → (s' : S) × (finish fs name (ok p) s ≡ ended (returned 0 p.printed) s')
            × (holds s' name ≡ some (contents_after p old))
            × ((q : Name) → name ≢ q → holds s' q ≡ holds s q)
      by_stored none q = (s, rw (finish, q) refl, rw q here, λ path apart. refl)
      by_stored (some new) q =
          let (done, now) = write_file_enough name old new s here in
          (
            (write_file fs name new s).1,
            rw (finish, q) (rw done refl),
            rw q now,
            λ path apart. write_file_others fs holds law name path new s apart,
          )
