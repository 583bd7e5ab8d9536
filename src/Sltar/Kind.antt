-- ===== src/Sltar/Kind.antt =====
-- `enum Type` of bitcoin-core/sltar.c: the bytes that tell the entries of an archive apart, and the
-- file types of `st_mode` (POSIX `S_IFMT` and its values).
use electrum_lightning_test.Base.{ℕ, Bool, ◌==◌, bit_and}

abbrev pub reg : ℕ
reg = b'0'

abbrev pub hardlink : ℕ
hardlink = b'1'

abbrev pub symlink : ℕ
symlink = b'2'

abbrev pub chardev : ℕ
chardev = b'3'

abbrev pub blockdev : ℕ
blockdev = b'4'

abbrev pub directory : ℕ
directory = b'5'

abbrev pub fifo : ℕ
fifo = b'6'

abbrev pub s_ififo : ℕ
s_ififo = 0o010000

abbrev pub s_ifchr : ℕ
s_ifchr = 0o020000

abbrev pub s_ifdir : ℕ
s_ifdir = 0o040000

abbrev pub s_ifblk : ℕ
s_ifblk = 0o060000

abbrev pub s_ifreg : ℕ
s_ifreg = 0o100000

abbrev pub s_iflnk : ℕ
s_iflnk = 0o120000

-- `S_ISREG(mode)` and its siblings.
unfoldable pub has_type : ℕ → ℕ → Bool
has_type mode file_type = bit_and mode 0o170000 == file_type
