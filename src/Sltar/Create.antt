-- ===== src/Sltar/Create.antt =====
-- Writing an archive: `c_file` and `c` of bitcoin-core/sltar.c. What the files, the user database
-- and the directory walk answer is a `Host`; the result is what goes to `stdout`. `c_file`
-- dereferences `getpwuid` and `getgrgid` without a test: `none` is that crash.
pub mod Common
pub mod Unreadable
pub mod Fields
pub mod Blocks
use electrum_lightning_test.Base.{
  ℕ, zero, suc, ◌-◌, ◌%◌, ◌^◌, Bool, true, false, Option, none, some, List, [], ◌∷◌, ◌++◌, ltb,
  ◌==◌, if◌then◌else◌, length, take, drop, replicate, overwrite, bit_and,
}
use electrum_lightning_test.Sltar.Header
use electrum_lightning_test.Sltar.Kind
use electrum_lightning_test.Sltar.Kind.{has_type}
use electrum_lightning_test.Sltar.Text.{print_octal, snprintf}
use electrum_lightning_test.Sltar.Checksum.{chksum}
use electrum_lightning_test.Sltar.Device.{gnu_dev_major, gnu_dev_minor}

abbrev pub FileName : Type 0
FileName = List ℕ

-- The fields of `struct stat` that are read.
pub record Stat : Type 0 where
  pub st_mode : ℕ
  pub st_uid : ℕ
  pub st_gid : ℕ
  pub st_size : ℕ
  pub st_mtime : ℕ
  pub st_dev : ℕ

-- `open_read` is `fopen(path, "r")` with all that `fread` will return; `walk` lists the calls that
-- `ftw` makes, and whether it ends well.
pub record Host : Type 0 where
  pub user_name : ℕ → Option (List ℕ)
  pub group_name : ℕ → Option (List ℕ)
  pub open_read : FileName → Option (List ℕ)
  pub read_link : FileName → Option (List ℕ)
  pub lstat : FileName → Option Stat
  pub walk : FileName → List (FileName × Stat) × Bool

infixl 5 ◌>>=◌
abbrev pub ◌>>=◌ : {A B : Type 0} → Option A → (A → Option B) → Option B
none >>= f = none
some a >>= f = f a

abbrev pub u32 : ℕ → ℕ
u32 n = n % 2 ^ 32

-- "ustar" and "00" with the NUL that `strcpy` stores.
abbrev pub ustar : List ℕ
ustar = b'u' ∷ b's' ∷ b't' ∷ b'a' ∷ b'r' ∷ 0 ∷ []

abbrev pub version : List ℕ
version = b'0' ∷ b'0' ∷ 0 ∷ []

abbrev pub octal7 : ℕ → List ℕ
octal7 n = snprintf 8 (print_octal 7 (u32 n))

abbrev pub octal11 : ℕ → List ℕ
octal11 n = snprintf 12 (print_octal 11 (u32 n))

-- The stores that every entry gets, in the order of the code.
unfoldable pub common_fields : FileName → Stat → (user group : List ℕ) → List ℕ
unfolding print_octal snprintf overwrite
common_fields path st user group =
    let b0 = overwrite (replicate Header.end 0) Header.size (replicate 12 b'0') in
    let b1 = overwrite b0 Header.magic ustar in
    let b2 = overwrite b1 Header.vers version in
    let b3 = overwrite b2 Header.name (snprintf 100 path) in
    let b4 = overwrite b3 Header.mode (octal7 (bit_and st.st_mode 0o777)) in
    let b5 = overwrite b4 Header.uid (octal7 st.st_uid) in
    let b6 = overwrite b5 Header.gid (octal7 st.st_gid) in
    let b7 = overwrite b6 Header.mtime (octal11 st.st_mtime) in
    let b8 = overwrite b7 Header.uname (snprintf 32 user) in
    overwrite b8 Header.gname (snprintf 32 group)

-- The branches on the file's type.
unfoldable pub regular_fields : Stat → List ℕ → List ℕ
unfolding print_octal snprintf overwrite
regular_fields st b =
    overwrite (overwrite b Header.type (Kind.reg ∷ [])) Header.size (octal11 st.st_size)

unfoldable pub link_fields : Host → FileName → List ℕ → List ℕ
unfolding overwrite
link_fields host path b =
    let b' = overwrite b Header.type (Kind.symlink ∷ []) in
    elim (host.read_link path) [
      | none ↦ b'
      | some target ↦ overwrite b' Header.link (take 99 target)
    ]

unfoldable pub device_fields : ℕ → Stat → List ℕ → List ℕ
unfolding print_octal snprintf overwrite gnu_dev_major gnu_dev_minor
device_fields kind st b =
    overwrite
      (overwrite (overwrite b Header.type (kind ∷ [])) Header.maj
        (octal7 (gnu_dev_major st.st_dev)))
      Header.min (octal7 (gnu_dev_minor st.st_dev))

unfoldable pub type_fields : Host → FileName → Stat → List ℕ → List ℕ
type_fields host path st b =
    if has_type st.st_mode Kind.s_ifreg
    then regular_fields st b
    else if has_type st.st_mode Kind.s_ifdir
    then overwrite b Header.type (Kind.directory ∷ [])
    else if has_type st.st_mode Kind.s_iflnk
    then link_fields host path b
    else if has_type st.st_mode Kind.s_ifchr
    then device_fields Kind.chardev st b
    else if has_type st.st_mode Kind.s_ifblk
    then device_fields Kind.blockdev st b
    else if has_type st.st_mode Kind.s_ififo
    then overwrite b Header.type (Kind.fifo ∷ [])
    else b

-- The header block as it is written, its checksum stored last.
unfoldable pub header_block : Host → FileName → Stat → (user group : List ℕ) → List ℕ
header_block host path st user group =
    let b = type_fields host path st (common_fields path st user group) in
    overwrite b Header.chk (chksum b)

-- `while ((l = fread(b, 1, END, f)) > 0)`: every round reads a block's worth and writes the whole
-- block; a file of `n` bytes takes fewer than `n + 1` rounds.
unfoldable pub copy_file : ℕ → (b bytes : List ℕ) → List ℕ
unfolding overwrite
copy_file zero b bytes = []
copy_file (suc fuel) b [] = []
copy_file (suc fuel) b (x ∷ xs) =
    let chunk = take Header.end (x ∷ xs) in
    let l = length chunk in
    let b1 = overwrite b 0 chunk in
    let b2 = if ltb l Header.end then overwrite b1 l (replicate (Header.end - l) 0) else b1 in
    b2 ++ copy_file fuel b2 (drop Header.end (x ∷ xs))

-- `f` is opened for a regular file only.
unfoldable pub opened : Host → FileName → Stat → Option (List ℕ)
opened host path st = if has_type st.st_mode Kind.s_ifreg then host.open_read path else none

unfoldable pub c_file : Host → FileName → Stat → Option (List ℕ)
c_file host path st = do
  user ← host.user_name st.st_uid
  group ← host.group_name st.st_gid
  let b = header_block host path st user group
  elim (opened host path st) [
    | none ↦ some b
    | some bytes ↦ some (b ++ copy_file (suc (length bytes)) b bytes)
  ]

-- What `ftw` writes: `c_file` always answers 0, so the walk goes on to its end.
unfoldable pub walk_files : Host → List (FileName × Stat) → Option (List ℕ)
walk_files host [] = some []
walk_files host ((path, st) ∷ rest) = do
  block ← c_file host path st
  blocks ← walk_files host rest
  some (block ++ blocks)

-- `c`: whether it returned 0, and the output.
unfoldable pub c : Host → FileName → Option (Bool × List ℕ)
c host p = elim (host.lstat p) [
  | none ↦ some (false, [])
  | some st ↦
      if has_type st.st_mode Kind.s_ifdir
      then (walk_files host (host.walk p).0 >>= λ out. some ((host.walk p).1, out))
      else (c_file host p st >>= λ out. some (true, out))
]
