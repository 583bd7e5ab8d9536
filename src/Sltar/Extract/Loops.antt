-- ===== src/Sltar/Extract/Loops.antt =====
-- The loops of `x`, `t` and `tar` end on every input.
use electrum_lightning_test.Base.{
  ℕ, zero, suc, ◌+◌, ◌-◌, ◌*◌, ◌≤◌, ◌<◌, ◌≡◌, refl, ap, ◌∙◌, arith, inl, inr, Bool, true, false,
  not, ◌&&◌, ◌==◌, Option, none, some, List, length, length-drop, drop, Bool-cases, get_or, if_lem,
  leb, leb→le,
}
use electrum_lightning_test.Base.Int.{ℤ, pos, negsuc, pos_part}
use electrum_lightning_test.Sltar.Header
use electrum_lightning_test.Sltar.Kind
use electrum_lightning_test.Sltar.Checksum.{chksum}
use electrum_lightning_test.Sltar.Create.{FileName, ◌>>=◌}
use electrum_lightning_test.Sltar.Extract.{
  Env, Machine, Handler, extract, list, fread_block, write_block, copy_out, rounds, less_block, x,
  t, handle, entry_name, entry_size, tar_loop, tar, emit, make_entry, make_regular, set_owner,
  verify, Made, unlink, fopen, fclose, puts, strncmp_eq,
}

-- A run that ends, with what is left of the input no longer than before.
abbrev pub Ends : Machine → Option Machine → Type 0
Ends m r = (m' : Machine) × (r ≡ some m') × (length m'.input ≤ length m.input)

pos_part-less_block : (l : ℤ) → pos_part (less_block l) ≡ pos_part l - Header.end
pos_part-less_block l = ground arith

pub input-write_block :
    (f : Option FileName) (l : ℤ) (m : Machine) → (write_block f l m).input ≡ m.input
unfolding write_block
input-write_block none l m = refl
input-write_block (some fname) l m = refl

copy_out-Ends :
    (fuel : ℕ) (f : Option FileName) (l : ℤ) (m : Machine)
    → pos_part l + Header.end ≤ Header.end * fuel
    → Ends m (copy_out fuel f l m)
unfolding copy_out fread_block
copy_out-Ends zero f l m h = absurd (omega arith)
copy_out-Ends (suc fuel) f (negsuc n) m h = (m, refl, omega arith)
copy_out-Ends (suc fuel) f (pos zero) m h = (m, refl, omega arith)
copy_out-Ends (suc zero) f (pos (suc n)) m h = absurd (omega arith)
copy_out-Ends (suc (suc fuel)) f (pos (suc n)) m h =
    let l = pos (suc n) in
    let m1 = write_block f l (fread_block m).1 in
    let (m', e, le) =
      copy_out-Ends (suc fuel) f (less_block l) m1 (omega (arith, pos_part-less_block l)) in
    (m', e, shorter m' le)
  where
    shorter :
        (m' : Machine)
        → length m'.input ≤ length (write_block f (pos (suc n)) (fread_block m).1).input
        → length m'.input ≤ length m.input
    shorter m' le = omega (
      arith,
      le,
      ap length (input-write_block f (pos (suc n)) (fread_block m).1),
      length-drop Header.end m.input,
    )

-- The fuel of the handlers is enough.
pub rounds-Ends : (f : Option FileName) (l : ℤ) (m : Machine) → Ends m (copy_out (rounds l) f l m)
rounds-Ends f l m = copy_out-Ends (rounds l) f l m (omega arith)

input-make_regular :
    (env : Env) (fname : FileName) (b : List ℕ) (m : Machine)
    → (make_regular env fname b m).after.input ≡ m.input
unfolding make_regular
input-make_regular env fname b m =
    if_lem (λ (made : Made). made.after.input ≡ m.input) (env.answer m.calls (fopen fname)) refl
      refl

input-make_entry :
    (env : Env) (fname : FileName) (b : List ℕ) (m : Machine)
    → (make_entry env fname b m).after.input ≡ m.input
unfolding make_entry
input-make_entry env fname b m =
    let P : Made → Type 0 = λ made. made.after.input ≡ m.input in
    let type = get_or b Header.type 0 in
    if_lem P (type == Kind.hardlink) refl (
      if_lem P (type == Kind.symlink) refl (
        if_lem P (type == Kind.directory) refl (
          if_lem P (type == Kind.chardev) refl (
            if_lem P (type == Kind.blockdev) refl
              (if_lem P (type == Kind.fifo) refl (input-make_regular env fname b m))))))

input-set_owner :
    (env : Env) (fname : FileName) (b : List ℕ) (made : Made)
    → (set_owner env fname b made).input ≡ made.after.input
unfolding set_owner
input-set_owner env fname b made =
    let P : Machine → Type 0 = λ m. m.input ≡ made.after.input in
    if_lem P made.failed refl
      (if_lem P env.is_root (if_lem P (env.answer made.after.calls _) refl refl) refl)

input-verify : (fname : FileName) (b : List ℕ) (m : Machine) → (verify fname b m).input ≡ m.input
unfolding verify
input-verify fname b m =
    if_lem (λ (m' : Machine). m'.input ≡ m.input) (strncmp_eq 8 (drop Header.chk b) (chksum b)) refl
      refl

-- The machine when the header of an entry has been dealt with.
abbrev pub prepared : Env → FileName → Machine → Machine
prepared env fname m =
    verify fname m.block
      (set_owner env fname m.block (make_entry env fname m.block (emit (unlink fname) m)))

pub input-prepared :
    (env : Env) (fname : FileName) (m : Machine) → (prepared env fname m).input ≡ m.input
input-prepared env fname m =
    let made = make_entry env fname m.block (emit (unlink fname) m) in
    input-verify fname m.block (set_owner env fname m.block made)
    ∙ input-set_owner env fname m.block made
    ∙ input-make_entry env fname m.block (emit (unlink fname) m)

-- `x` returns on every header and every input.
pub x-Ends : (env : Env) (fname : FileName) (l : ℤ) (m : Machine) → Ends m (x env fname l m)
unfolding x
x-Ends env fname l m =
    if_lem (Ends m) (make_entry env fname m.block (emit (unlink fname) m)).opened opened_ends
      closed_ends
  where
    m1 : Machine
    m1 = prepared env fname m

    closed_ends : Ends m (copy_out (rounds l) none l m1)
    closed_ends =
        let (m', e, le) = rounds-Ends none l m1 in
        (m', e, omega (arith, le, ap length (input-prepared env fname m)))

    opened_ends :
        Ends m (copy_out (rounds l) (some fname) l m1 >>= λ m2. some (emit (fclose fname) m2))
    opened_ends =
        let (m', e, le) = rounds-Ends (some fname) l m1 in
        (emit (fclose fname) m', rw e, omega (arith, le, ap length (input-prepared env fname m)))

-- `t` returns on every header and every input.
pub t-Ends : (fname : FileName) (l : ℤ) (m : Machine) → Ends m (t fname l m)
unfolding t
t-Ends fname l m = rounds-Ends none l (emit (puts fname) m)

pub handle-Ends :
    (env : Env) (fn : Handler) (fname : FileName) (l : ℤ) (m : Machine)
    → Ends m (handle env fn fname l m)
unfolding handle
handle-Ends env extract fname l m = x-Ends env fname l m
handle-Ends env list fname l m = t-Ends fname l m

length-fread_block : (m : Machine) → length (fread_block m).1.input ≡ length m.input - Header.end
unfolding fread_block
length-fread_block m = length-drop Header.end m.input

-- What `tar` tests before it takes a block for a header.
abbrev pub goes_on : Machine → Bool
goes_on m = (fread_block m).0 && not (get_or (fread_block m).1.block 0 0 == 0)

goes_on-le : (m : Machine) → goes_on m ≡ true → Header.end ≤ length m.input
unfolding fread_block
goes_on-le m e = elim (Bool-cases (leb Header.end (length m.input))) [
  | inl le ↦ leb→le _ _ le
  | inr gt ↦ cc (gt, e)
]

tar_loop-Ends :
    (fuel : ℕ) (env : Env) (fn : Handler) (m : Machine)
    → length m.input < fuel
    → Ends m (tar_loop fuel env fn m)
unfolding tar_loop
tar_loop-Ends zero env fn m h = absurd (omega arith)
tar_loop-Ends (suc fuel) env fn m h = go (goes_on m) refl (tar_loop-Ends fuel env fn)
  where
    m1 : Machine
    m1 = (fread_block m).1

    go :
        (more : Bool)
        → goes_on m ≡ more
        → ((m' : Machine) → length m'.input < fuel → Ends m' (tar_loop fuel env fn m'))
        → Ends m (elim more [
          | false ↦ some m1
          | true ↦ handle env fn (entry_name m1.block) (entry_size m1.block) m1 >>= λ m2.
              tar_loop fuel env fn m2
        ])
    go false e ih = (m1, refl, omega (arith, length-fread_block m))
    go true e ih =
        let (m2, e2, le2) = handle-Ends env fn (entry_name m1.block) (entry_size m1.block) m1 in
        let (m3, e3, le3) = ih m2 (omega (arith, h, le2, length-fread_block m, goes_on-le m e)) in
        (m3, rw e2 e3, omega (arith, le2, le3, length-fread_block m))

-- `tar` returns on every input, well formed or not, whatever the calls answer.
pub tar_ends :
    (env : Env) (fn : Handler) (m : Machine)
    → (m' : Machine) × (tar env fn m ≡ some m') × (length m'.input ≤ length m.input)
unfolding tar
tar_ends env fn m = tar_loop-Ends (suc (length m.input)) env fn m (omega arith)
