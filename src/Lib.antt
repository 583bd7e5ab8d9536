-- ===== src/Lib.antt =====
-- A model of the C and C++ programs of this repository, with their correctness theorems: sltar
-- (bitcoin-core/sltar.c), a small tar with which bitcoin-core/Dockerfile unpacks its sources, and
-- patchelf (bitcoin-core/patchelf-0.9/src/patchelf.cc and its elf.h), which the same image builds to
-- change ELF files. The programs share no code and no state.
--
-- Base holds the shared names: tests and lists over native numbers, memory as a list of bytes
-- (`overwrite` is a block store), `Holds` for the bytes that stand at an offset, and the laws of
-- `&` and `|`.
--
-- Sltar is bitcoin-core/sltar.c, a module per part, each with its proofs in its children:
--   Header, Kind      `enum Header`, `enum Type` and the file types of `st_mode`
--   Text              `snprintf` with %s and %o, `strtol`, `strtoul`, `strtoull` in base 8
--   Device            gnu_dev_major, gnu_dev_minor, gnu_dev_makedev
--   Checksum          chksum
--   Create            c_file and c
--   Extract           x, t and tar
--   Main              main
--   RoundTrip         no code: what tar makes of the archives that c_file writes
-- The host of the build is the i486 target of bitcoin-core/Dockerfile: `char` is signed, `int`,
-- `unsigned` and `long` have 32 bits. Machine integers are natural numbers with their wrap-around
-- written out. What the system answers is a parameter: `Host` (user database, file contents, lstat,
-- the walk of ftw) for creating, `Env` (whether a call succeeds, given the calls before) for
-- extracting. Calls that change the file system are recorded in order. Messages on stderr other
-- than those that `perror` and the checksum test record are not modelled, nor are two processes that
-- change one file at a time: a file keeps the contents that `Host` gives.
-- Loops: the copy loops and `tar` run on fuel. A round of `tar` takes 512 bytes of the input, so its
-- length bounds the rounds; a file of n bytes takes at most n / 512 + 1 rounds.
--
-- Patchelf is bitcoin-core/patchelf-0.9/src/patchelf.cc, with the proofs in the children as well:
--   Elf               the structures and constants of elf.h that it reads, for both classes
--   Word              rdi, wri and roundUp
--   Result            how a call ends: a value, `error`, a failed `assert`, or an access outside of
--                     what was stored, which is `fault`
--   File              contents, fileSize and maxSize with the members of ElfFile (the record Elf),
--                     growFile, checkPointer, and fields of headers as `get` and `put`
--   Section           getSectionName, findSection, findSection2, findSection3, replaceSection,
--                     setSubstr
--   Parse             ElfFile::parse
--   Compare           CompPhdr and CompShdr
--   Interpreter       getInterpreter and setInterpreter
--   Dynamic           loops over the dynamic section, edits of a section that has been replaced, and a
--                     new entry at the top
--   Needed            removeNeeded, replaceNeeded, addNeeded, printNeededLibs, noDefaultLib
--   Soname, Rpath     modifySoname; modifyRPath and concatToRPath
--   Refer, Stored     no code: a new name and an entry that refers to it
--   Headers           phdrs and shdrs by index, loops over them, the new segment
--   Rewrite           rewriteSections and its two cases; Rewrite.Sort has sortPhdrs and sortShdrs,
--                     Rewrite.Shift shiftFile, Rewrite.Write writeReplacedSections, Rewrite.Headers
--                     rewriteHeaders
--   Options           the loop over the options in main
--   Patch             patchElf and patchElf2, from the bytes read to the bytes written
--   Program           main, readFile and writeFile
-- Its host is x86-64: little-endian, `int` of 32 bits, `off_t` of 64. A header is its bytes, so that
-- fields read with and without rdi differ as they do in memory; the class template is a parameter of
-- type Class. A reference to a section header is its index, and a pointer into the file its offset. A
-- `set` is the list of its members in order, a `map` a list of pairs. Parameters are `exists`, which
-- answers `stat(path) == 0`, and `sort`, which is `std::sort` with the comparison; `IsSort` states
-- what is relied on of it. The static vector of modifyRPath is passed on from call to call. What
-- printf prints is a list of lines. The calls on files are the parameter `Files`, with the state
-- that they change: `IsFiles` states what is relied on of them, and `Serves` that none of them
-- fails; a name stands for one file, and there are no links. Lines printed before a run ends with an
-- error, debug and the texts of showHelp are output and not modelled. A store or a read outside of
-- an object is a fault, and so is a read behind the last byte of the file: readFile allocates more
-- than fileSize, so the program may go on, but with bytes that it never stored. How such a run goes on
-- is unknown (`unknown` of Program.Run), and no theorem about main speaks of it.
-- Loops over headers are structural on the number of headers left; the loop over the options has fuel
-- for a round per argument, and every round takes one. A loop over the dynamic section has one round
-- more than the file has bytes: a round reads a tag within the file and goes on behind it, so that a
-- section without an end is a fault and no other one runs out. The shrinking loop has a round for
-- each character of the path, and takes one at least.
-- The rest of elf.h is used by no code here. The Go and Python programs (electrum-lnd,
-- electrum-lightning-hub, signer) and the configuration of containers are not modelled: they pass data
-- between services that are not in the repository.
mod Base
pub mod Sltar
pub mod Patchelf
