-- ===== src/Sltar/Extract.antt =====
-- Reading an archive: `x`, `t` and `tar` of bitcoin-core/sltar.c. A `Machine` is the 512-byte buffer,
-- what is left of `stdin`, and the calls made so far, the last one first. An `Env` answers whether a
-- call succeeds, which may depend on the calls before it.
pub mod Loops
pub mod Entry
use electrum_lightning_test.Base.{
  ℕ, zero, suc, ◌+◌, ◌-◌, ◌/◌, ◌%◌, ◌^◌, min, Bool, true, false, not, ◌&&◌, ◌||◌, Option, none,
  some, List, [], ◌∷◌, leb, ◌==◌, if◌then◌else◌, length, take, drop, get_or, overwrite, slice,
  bit_or,
}
use electrum_lightning_test.Base.Int.{ℤ, pos, negsuc, pos_part, sub_ℕ}
use electrum_lightning_test.Sltar.Header
use electrum_lightning_test.Sltar.Kind
use electrum_lightning_test.Sltar.Text.{c_str, strtoul, strtol}
use electrum_lightning_test.Sltar.Checksum.{chksum}
use electrum_lightning_test.Sltar.Create.{FileName, ◌>>=◌}
use electrum_lightning_test.Sltar.Device.{gnu_dev_makedev}

pub data Call : Type 0 where
  unlink fopen perror chksum_failed fclose puts : FileName → Call
  chmod mkdir : FileName → ℕ → Call
  link symlink : FileName → FileName → Call
  mknod chown : FileName → ℕ → ℕ → Call
  fwrite : FileName → List ℕ → Call

pub record Env : Type 0 where
  pub is_root : Bool
  pub answer : List Call → Call → Bool

pub record Machine : Type 0 where
  pub block : List ℕ
  pub input : List ℕ
  pub calls : List Call

abbrev pub emit : Call → Machine → Machine
emit call m = record m { calls = call ∷ m.calls }

abbrev pub attempt : Env → Call → Machine → Bool × Machine
attempt env call m = (env.answer m.calls call, emit call m)

-- `fread(b, END, 1, stdin)`: a short read fills the front of the buffer and answers 0.
unfoldable pub fread_block : Machine → Bool × Machine
unfolding overwrite
fread_block m = (
  leb Header.end (length m.input),
  record m {
    block = overwrite m.block 0 (take Header.end m.input);
    input = drop Header.end m.input;
  },
)

-- Whether the first `n` bytes agree, up to a NUL.
unfoldable pub strncmp_eq : ℕ → List ℕ → List ℕ → Bool
strncmp_eq zero s t = true
strncmp_eq (suc n) (c ∷ s) (d ∷ t) = c == d && (c == 0 || strncmp_eq n s t)
strncmp_eq (suc n) s t = false

-- Whether the call that makes the entry failed (`r`), and whether `f` is open.
pub record Made : Type 0 where
  pub failed : Bool
  pub opened : Bool
  pub after : Machine

abbrev pub octal_at : ℕ → List ℕ → ℕ
octal_at field b = strtoul 32 (drop field b)

unfoldable pub make_regular : Env → FileName → List ℕ → Machine → Made
make_regular env fname b m =
    let (ok, m1) = attempt env (fopen fname) m in
    let (set, m2) = attempt env (chmod fname (octal_at Header.mode b)) m1 in
    if ok
    then record { failed = not set; opened = true; after = m2 }
    else record { failed = true; opened = false; after = m1 }

abbrev pub make_by : Env → Call → Machine → Made
make_by env call m =
    let (ok, m1) = attempt env call m in record { failed = not ok; opened = false; after = m1 }

-- `switch (b[TYPE])`.
unfoldable pub make_entry : Env → FileName → List ℕ → Machine → Made
make_entry env fname b m =
    let type = get_or b Header.type 0 in
    let lname = c_str (slice b Header.link 100) in
    let mode = octal_at Header.mode b in
    let dev = gnu_dev_makedev (octal_at Header.maj b) (octal_at Header.min b) in
    if type == Kind.hardlink
    then make_by env (link lname fname) m
    else if type == Kind.symlink
    then make_by env (symlink lname fname) m
    else if type == Kind.directory
    then make_by env (mkdir fname (strtoul 64 (drop Header.mode b) % 2 ^ 32)) m
    else if type == Kind.chardev
    then make_by env (mknod fname (bit_or Kind.s_ifchr mode) dev) m
    else if type == Kind.blockdev
    then make_by env (mknod fname (bit_or Kind.s_ifblk mode) dev) m
    else if type == Kind.fifo
    then make_by env (mknod fname (bit_or Kind.s_ififo mode) 0) m
    else make_regular env fname b m

-- `if (r || (getuid() == 0 && chown(…))) perror(fname);`
unfoldable pub set_owner : Env → FileName → List ℕ → Made → Machine
set_owner env fname b made =
    let call = chown fname (octal_at Header.uid b) (octal_at Header.gid b) in
    let (ok, m1) = attempt env call made.after in
    if made.failed
    then emit (perror fname) made.after
    else if env.is_root
    then (if ok then m1 else emit (perror fname) m1)
    else made.after

unfoldable pub verify : FileName → List ℕ → Machine → Machine
verify fname b m =
    if strncmp_eq 8 (drop Header.chk b) (chksum b) then m else emit (chksum_failed fname) m

abbrev pub positive : ℤ → Bool
positive (pos zero) = false
positive (pos (suc n)) = true
positive (negsuc n) = false

-- `l -= END`, for a positive `l`.
abbrev pub less_block : ℤ → ℤ
less_block l = sub_ℕ (pos_part l) Header.end

-- `if(f) fwrite(b, MIN(l, 512), 1, f);`
unfoldable pub write_block : Option FileName → ℤ → Machine → Machine
write_block none l m = m
write_block (some fname) l m = emit (fwrite fname (take (min (pos_part l) Header.end) m.block)) m

-- `for (; l > 0; l -= END)`: reads a block and writes what belongs to the file, if one is open.
-- `none`: the fuel ran out.
unfoldable pub copy_out : ℕ → Option FileName → ℤ → Machine → Option Machine
copy_out zero f l m = none
copy_out (suc fuel) f l m = elim (positive l) [
  | false ↦ some m
  | true ↦ let m1 = (fread_block m).1 in copy_out fuel f (less_block l) (write_block f l m1)
]

-- Rounds that are always enough.
abbrev pub rounds : ℤ → ℕ
rounds l = suc ((pos_part l + (Header.end - 1)) / Header.end)

unfoldable pub x : Env → FileName → ℤ → Machine → Option Machine
x env fname l m =
    let b = m.block in
    let made = make_entry env fname b (emit (unlink fname) m) in
    let m1 = verify fname b (set_owner env fname b made) in
    if made.opened
    then (copy_out (rounds l) (some fname) l m1 >>= λ m2. some (emit (fclose fname) m2))
    else copy_out (rounds l) none l m1

unfoldable pub t : FileName → ℤ → Machine → Option Machine
t fname l m = copy_out (rounds l) none l (emit (puts fname) m)

-- The function that `tar` is given.
pub data Handler : Type 0 where
  extract list : Handler

unfoldable pub handle : Env → Handler → FileName → ℤ → Machine → Option Machine
handle env extract fname l m = x env fname l m
handle env list fname l m = t fname l m

unfoldable pub entry_name : List ℕ → FileName
entry_name b = c_str (take 100 b)

unfoldable pub entry_size : List ℕ → ℤ
entry_size b = strtol (drop Header.size b)

-- `while (fread(b, END, 1, stdin))` of `tar`.
unfoldable pub tar_loop : ℕ → Env → Handler → Machine → Option Machine
tar_loop zero env fn m = none
tar_loop (suc fuel) env fn m =
    let (got, m1) = fread_block m in
    elim (got && not (get_or m1.block 0 0 == 0)) [
      | false ↦ some m1
      | true ↦ handle env fn (entry_name m1.block) (entry_size m1.block) m1 >>= λ m2.
          tar_loop fuel env fn m2
    ]

-- Every round takes a block from `stdin`, so its length bounds the rounds.
unfoldable pub tar : Env → Handler → Machine → Option Machine
tar env fn m = tar_loop (suc (length m.input)) env fn m
