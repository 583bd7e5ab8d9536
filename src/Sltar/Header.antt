-- ===== src/Sltar/Header.antt =====
-- `enum Header` of bitcoin-core/sltar.c: where the fields of a ustar header block start.
use electrum_lightning_test.Base.{ℕ}

abbrev pub name : ℕ
name = 0

abbrev pub mode : ℕ
mode = 100

abbrev pub uid : ℕ
uid = 108

abbrev pub gid : ℕ
gid = 116

abbrev pub size : ℕ
size = 124

abbrev pub mtime : ℕ
mtime = 136

abbrev pub chk : ℕ
chk = 148

abbrev pub type : ℕ
type = 156

abbrev pub link : ℕ
link = 157

abbrev pub magic : ℕ
magic = 257

abbrev pub vers : ℕ
vers = 263

abbrev pub uname : ℕ
uname = 265

abbrev pub gname : ℕ
gname = 297

abbrev pub maj : ℕ
maj = 329

abbrev pub min : ℕ
min = 337

abbrev pub end : ℕ
end = 512
