-- ===== src/Sltar/Tests.antt =====
-- Concrete runs of the model of sltar, and its theorems at concrete inputs.
use electrum_lightning_test.Base.{
  ℕ, zero, suc, ◌+◌, ◌-◌, ◌%◌, ◌^◌, ◌≤◌, ◌<◌, ◌≡◌, refl, ◌≢◌, ◌↔◌, arith, Bool, true, false, Option,
  none, some, List, [], ◌∷◌, ◌++◌, min, length, replicate, All, drop, overwrite, slice,
}
use electrum_lightning_test.Base.Int.{pos}
use electrum_lightning_test.Sltar.Header
use electrum_lightning_test.Sltar.Kind.{has_type}
use electrum_lightning_test.Sltar.Text.{print_octal, strtol}
use electrum_lightning_test.Sltar.Text.Octal.{octal_field}
use electrum_lightning_test.Sltar.Device.{gnu_dev_major, gnu_dev_minor, gnu_dev_makedev}
use electrum_lightning_test.Sltar.Device.Fields.{major-makedev, makedev-major}
use electrum_lightning_test.Sltar.Checksum.{chksum}
use electrum_lightning_test.Sltar.Checksum.Laws.{unsigned_sum, chksum-unsigned_sum}
use electrum_lightning_test.Sltar.Create.{Stat, Host, FileName, header_block, c_file, copy_file}
use electrum_lightning_test.Sltar.Create.Blocks.{padding, copy_file_padded}
use electrum_lightning_test.Sltar.Create.Unreadable.{c_file_unreadable}
use electrum_lightning_test.Sltar.Extract.{Env, Machine, extract, entry_size, tar, strncmp_eq}
use electrum_lightning_test.Sltar.Extract.Loops.{tar_ends}
use electrum_lightning_test.Sltar.Extract.Entry.{size_special, verified}
use electrum_lightning_test.Sltar.RoundTrip.Archive.{IsFile}
use electrum_lightning_test.Sltar.RoundTrip.Whole.{
  Item, blocks_of, ArchiveCalls, archived, tar-walk_files,
}

abbrev hello : List ℕ
hello = b'h' ∷ b'i' ∷ []

abbrev root : List ℕ
root = b'r' ∷ b'o' ∷ b'o' ∷ b't' ∷ []

abbrev file_name : FileName
file_name = b'f' ∷ []

abbrev file_stat : Stat
file_stat = record {
  st_mode = 0o100644;
  st_uid = 0;
  st_gid = 0;
  st_size = 2;
  st_mtime = 1_500_000_000;
  st_dev = 0;
}

abbrev dir_stat : Stat
dir_stat = record file_stat { st_mode = 0o040755 }

abbrev host : Host
host = record {
  user_name = λ uid. some root;
  group_name = λ gid. some root;
  open_read = λ path. some hello;
  read_link = λ path. none;
  lstat = λ path. some file_stat;
  walk = λ path. ([], true);
}

abbrev locked : Host
locked = record host { open_read = λ path. none }

abbrev env : Env
env = record { is_root = true; answer = λ calls call. true }

abbrev machine : List ℕ → Machine
machine input = record { block = replicate 512 0; input = input; calls = [] }

abbrev sevens : List ℕ
sevens = replicate 600 b'7'

abbrev item : Item
item = record { path = file_name; stat = file_stat; user = root; group = root; bytes = hello }

is_file : IsFile host file_name file_stat root root hello
unfolding has_type
is_file = record {
  regular = refl;
  name = (omega arith, omega arith, omega arith);
  known_user = refl;
  known_group = refl;
  readable = refl;
  size = refl;
  small = omega arith;
  uid = omega arith;
  gid = omega arith;
}

octal_mode : print_octal 7 0o644 ≡ b'0' ∷ b'0' ∷ b'0' ∷ b'0' ∷ b'6' ∷ b'4' ∷ b'4' ∷ []
unfolding print_octal
octal_mode = refl

strtol_reads :
    strtol (b' ' ∷ b'-' ∷ b'1' ∷ b'7' ∷ b'8' ∷ []) ≡ electrum_lightning_test.Base.Int.negsuc 14
unfolding strtol
strtol_reads = refl

tar-walk_files_example :
    (end : Machine) × (tar env extract
        (record { block = replicate 512 0; input = blocks_of host (item ∷ item ∷ []); calls = [] })
      ≡ some end)
    × (end.input ≡ [])
    × ArchiveCalls env extract (item ∷ item ∷ []) end.calls
tar-walk_files_example =
    tar-walk_files env (λ calls call. refl) extract host (item ∷ item ∷ [])
      (blocks_of host (item ∷ item ∷ [])) (replicate 512 0) (is_file, (is_file, tt))
      (archived host (item ∷ item ∷ []) (is_file, (is_file, tt))) refl

size_special_example :
    entry_size (header_block host file_name dir_stat root root)
    ≡ pos (min (1_500_000_000 % 2 ^ 32) (2 ^ 31 - 1))
size_special_example = size_special host file_name dir_stat root root (unfold has_type in refl)

tar_ends_example :
    (m' : Machine) × (tar env extract (machine sevens) ≡ some m')
    × (length m'.input ≤ length sevens)
tar_ends_example = tar_ends env extract (machine sevens)

copy_file_padded_example : copy_file 3 (replicate 512 1) hello ≡ hello ++ replicate (padding 2) 0
copy_file_padded_example = copy_file_padded 3 (replicate 512 1) hello refl (omega arith)

chksum-unsigned_sum_example :
    chksum (replicate 512 b'a') ≡ octal_field 7 (unsigned_sum 0 (replicate 512 b'a')) ++ (0 ∷ [])
chksum-unsigned_sum_example = chksum-unsigned_sum (replicate 512 b'a') refl letters
  where
    letters : All (λ c. c < 128) (replicate 512 b'a')
    letters = electrum_lightning_test.Base.All-replicate (λ c. c < 128) 512 b'a' (omega arith)

verified_example :
    strncmp_eq 8
      (drop Header.chk (header_block host file_name dir_stat root root))
      (chksum (header_block host file_name dir_stat root root))
    ≡ true
verified_example = verified host file_name dir_stat root root

major-makedev_example :
    (gnu_dev_major (gnu_dev_makedev 70_000 300) ≡ 70_000)
    × (gnu_dev_minor (gnu_dev_makedev 70_000 300) ≡ 300)
major-makedev_example = major-makedev 70_000 300 (omega arith) (omega arith)

makedev-major_example :
    gnu_dev_makedev (gnu_dev_major 0x123456789abc) (gnu_dev_minor 0x123456789abc) ≡ 0x123456789abc
makedev-major_example = makedev-major 0x123456789abc (omega arith)

c_file_unreadable_example :
    (c_file locked file_name file_stat ≡ some (header_block locked file_name file_stat root root))
    × (entry_size (header_block locked file_name file_stat root root)
        ≡ pos (min (2 % 2 ^ 32) (2 ^ 31 - 1)))
c_file_unreadable_example =
    c_file_unreadable locked file_name file_stat root root (unfold has_type in refl) refl refl refl
