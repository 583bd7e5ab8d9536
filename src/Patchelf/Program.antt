-- ===== src/Patchelf/Program.antt =====
-- `main` of bitcoin-core/patchelf-0.9/src/patchelf.cc, with `readFile` and `writeFile`. The calls on files
-- are a parameter, and what files hold is the state that they change.
pub mod Laws
pub mod Read
pub mod Store
pub mod Changes
pub mod Success
use electrum_lightning_test.Base.{
  ℕ, ◌+◌, ◌*◌, ◌==◌, Bool, true, false, List, [], ◌∷◌, length, Option, none, some, ◌⊎◌, inl, inr,
}
use electrum_lightning_test.Base.Int.{ℤ}
use electrum_lightning_test.Patchelf.Result.{Result, Error, ok, failed, aborted, fault}
use electrum_lightning_test.Patchelf.Dynamic.{Name}
use electrum_lightning_test.Patchelf.Options.{
  Arg, Options, Message, Outcome, patch, show_help, show_version, refused, main_options,
}
use electrum_lightning_test.Patchelf.Patch.{System, Patched, patch_elf}

-- The calls on files. `none` is -1. Opening a file to write empties it, and opening it to read, reading
-- and closing it then change nothing that a file holds.
pub record Files {ℓ} (S : Type ℓ) : Type ℓ where
  pub stat : S → Name → Option ℕ
  pub malloc : ℕ → Bool
  pub open_read : S → Name → Bool
  pub read : S → Name → (count : ℕ) → Option (List ℕ)
  pub open_write : S → Name → Option S
  pub write : S → Name → List ℕ → Option ℕ × S
  pub close : S → Name → Bool × S

-- The names of calls that `error` prints.
pub data Call : Type 0 where
  on_stat on_open on_read on_write on_close : Call

-- How the process ends: `return` with the lines printed, `exit(1)` with a message, or `abort`.
pub data Exit : Type 0 where
  returned : (code : ℕ) → (printed : List Name) → Exit
  call_failed : Call → Exit
  wrong_options : Message → Exit
  wrong_file : Error → Exit
  abort : Exit

-- A run ends with the state that it leaves. Nothing is known of a run with an access that is a `fault`.
pub data Run {ℓ} (S : Type ℓ) : Type ℓ where
  ended : Exit → S → Run S
  unknown : Run S

-- `if (read(fd, contents, fileSize) != fileSize) error("read");`
unfoldable pub whole_read : (size : ℕ) → Option (List ℕ) → Exit ⊎ List ℕ
whole_read size none = inl (call_failed on_read)
whole_read size (some bytes) = elim (length bytes == size) [
  | true ↦ inr bytes
  | false ↦ inl (call_failed on_read)
]

unfoldable pub read_file {ℓ} : {S : Type ℓ} → Files S → Name → S → Exit ⊎ List ℕ
read_file fs name s = elim (fs.stat s name) [
  | none ↦ inl (call_failed on_stat)
  | some size ↦ elim (fs.malloc (size + (size + 32 * 1024 * 1024))) [
    | false ↦ inl abort
    | true ↦ elim (fs.open_read s name) [
      | false ↦ inl (call_failed on_open)
      | true ↦ whole_read size (fs.read s name size)
    ]
  ]
]

-- `write(fd, contents, fileSize) != fileSize`
unfoldable pub is_short : (size : ℕ) → Option ℕ → Bool
is_short size none = true
is_short size (some n) = elim (n == size) [ true ↦ false | false ↦ true ]

-- `if (close(fd) != 0) error("close");`. A call that is `none` is a return.
unfoldable pub closing {ℓ} : {S : Type ℓ} → (closed : Bool) → S → Option Call × S
closing true s = (none, s)
closing false s = (some on_close, s)

unfoldable pub close_written {ℓ} :
    {S : Type ℓ} → Files S → Name → (short : Bool) → S → Option Call × S
close_written fs name true s = (some on_write, s)
close_written fs name false s = (let c = fs.close s name in closing c.0 c.1)

unfoldable pub write_opened {ℓ} : {S : Type ℓ} → Files S → Name → List ℕ → S → Option Call × S
write_opened fs name contents s =
    let w = fs.write s name contents in close_written fs name (is_short (length contents) w.0) w.1

unfoldable pub write_file {ℓ} : {S : Type ℓ} → Files S → Name → List ℕ → S → Option Call × S
write_file fs name contents s = elim (fs.open_write s name) [
  | none ↦ (some on_open, s)
  | some s1 ↦ write_opened fs name contents s1
]

unfoldable pub exit_of : List Name → Option Call → Exit
exit_of printed none = returned 0 printed
exit_of printed (some call) = call_failed call

-- What a run of `patchElf` on the file's contents ends with.
unfoldable pub finish {ℓ} : {S : Type ℓ} → Files S → Name → Result Patched → S → Run S
finish fs name (failed m) s = ended (wrong_file m) s
finish fs name aborted s = ended abort s
finish fs name fault s = unknown
finish fs name (ok p) s = elim p.stored [
  | none ↦ ended (returned 0 p.printed) s
  | some contents ↦ let w = write_file fs name contents s in ended (exit_of p.printed w.0) w.1
]

-- `patchElf` with its `readFile`, and the `writeFile` at the end of `patchElf2`
unfoldable pub patch_file {ℓ} : {S : Type ℓ} → Files S → System → Options → Name → S → Run S
patch_file fs sys o name s = elim (read_file fs name s) [
  | inl exit ↦ ended exit s
  | inr contents ↦ finish fs name (patch_elf sys o contents) s
]

-- The end of `main`: without arguments the help is an error.
unfoldable pub help_code : List Arg → ℕ
help_code [] = 1
help_code (arg ∷ rest) = 0

-- `page` and `version` are what the build defines as PAGESIZE and PACKAGE_STRING.
unfoldable pub main {ℓ} :
    {S : Type ℓ}
    → Files S
    → System
    → (Arg → ℤ)
    → (page : ℕ) → (version : Name) → List Arg
    → S
    → Run S
main fs sys atoi page version args s = elim (main_options atoi page args) [
  | show_help ↦ ended (returned (help_code args) []) s
  | show_version ↦ ended (returned 0 (version ∷ [])) s
  | refused m ↦ ended (wrong_options m) s
  | patch o name ↦ patch_file fs sys o name s
]
