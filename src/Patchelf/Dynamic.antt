-- ===== src/Patchelf/Dynamic.antt =====
-- What the methods that walk the dynamic section share in bitcoin-core/patchelf-0.9/src/patchelf.cc.
-- A pointer into the file is an offset in its contents.
pub mod Table
pub mod Strings
pub mod Push
pub mod Top
pub mod Store
pub mod Rounds
pub mod Scan
use electrum_lightning_test.Base.{
  ℕ, suc, zero, ◌+◌, ◌*◌, ◌%◌, ◌^◌, ◌==◌, leb, ltb, Bool, true, false, List, [], ◌∷◌, ◌++◌, length,
  overwrite, slice, take, drop, Option, none, some, if◌then◌else◌,
}
use electrum_lightning_test.Patchelf.Elf.{Class, Field, dyn, d_tag, d_un, sh_size, sum}
use electrum_lightning_test.Patchelf.Elf.Tag.{dt_null}
use electrum_lightning_test.Patchelf.Word.{rdi, wri, host_bytes}
use electrum_lightning_test.Patchelf.Result.{Result, ok, fault, ◌>>=◌}
use electrum_lightning_test.Patchelf.File.{Elf, get, read_bytes}
use electrum_lightning_test.Patchelf.Section.{
  until_nul, string_eq, find_section, shdr_at, replace_section, set_substr, insert,
}

abbrev pub Name : Type 0
Name = List ℕ

abbrev pub dot_dynamic : Name
dot_dynamic = b'.' ∷ b'd' ∷ b'y' ∷ b'n' ∷ b'a' ∷ b'm' ∷ b'i' ∷ b'c' ∷ []

abbrev pub dot_dynstr : Name
dot_dynstr = b'.' ∷ b'd' ∷ b'y' ∷ b'n' ∷ b's' ∷ b't' ∷ b'r' ∷ []

-- `sizeof(Elf_Dyn)`
abbrev pub dyn_size : Class → ℕ
dyn_size c = sum (dyn c)

-- `Elf_Shdr & shdr = findSection(name)`
unfoldable pub section_header : Elf → Name → Result (List ℕ)
section_header e name = do i ← find_section e name; shdr_at e i

-- `rdi(p->f)` for a structure at offset `at` of the contents
unfoldable pub read_field : Elf → (at : ℕ) → Field → Result ℕ
read_field e at f = do b ← read_bytes e.contents (at + f.at) f.width; ok (rdi e.little_endian b)

-- A store of bytes at an offset, by an assignment, `memset`, `memcpy` or `strcpy`
unfoldable pub write_bytes : Elf → (at : ℕ) → List ℕ → Result Elf
write_bytes e at b =
    if leb (at + length b) (length e.contents)
    then ok (record e { contents = overwrite e.contents at b })
    else fault

-- `p->f = v`, without `wri`
unfoldable pub write_raw : Elf → (at : ℕ) → Field → ℕ → Result Elf
write_raw e at f v = write_bytes e (at + f.at) (host_bytes f.width v)

-- The string at an offset; its NUL is to stand in the file.
unfoldable pub c_string : Elf → ℕ → Result Name
c_string e p =
    let s = until_nul (drop p e.contents) in
    if ltb (p + length s) (length e.contents) then ok s else fault

-- `for ( ; rdi(dyn->d_tag) != DT_NULL; dyn++)`, with the offset of `dyn` and its tag for the body. It
-- returns the state and where `dyn` stands at the end. A round reads a tag within the file and goes on
-- behind it, so that one round for each byte, and one more, are enough.
unfoldable pub for_dyn :
    {T : Type 0}
    → ((at tag : ℕ) → Elf → T → Result (Elf × T))
    → (fuel at : ℕ) → Elf
    → T
    → Result (Elf × T × ℕ)
for_dyn body zero at e t = fault
for_dyn body (suc fuel) at e t = do
  tag ← read_field e at (d_tag e.class_of)
  elim (tag == dt_null) [
    | true ↦ ok (e, t, at)
    | false ↦ body at tag e t >>= λ next. for_dyn body fuel (at + dyn_size e.class_of) next.0 next.1
  ]

abbrev pub dyn_rounds : Elf → ℕ
dyn_rounds e = suc (length e.contents)

-- Whether a `set` of strings has one.
unfoldable pub contains : List Name → Name → Bool
contains [] name = false
contains (x ∷ xs) name = if string_eq x name then true else contains xs name

-- `string & s = replaceSection(name, size); setSubstr(s, pos, t);` with `unsigned int` arguments
unfoldable pub edit_section : Elf → Name → (size pos : ℕ) → List ℕ → Result Elf
edit_section e name size pos t = do
  r ← replace_section e name (size % 2 ^ 32)
  s ← set_substr r.0 (pos % 2 ^ 32) t
  ok (record r.1 { replaced_sections = insert r.1.replaced_sections name s })

-- `rdi(((Elf_Dyn *) s.c_str())[idx].d_tag) != DT_NULL; idx++`, from entry `idx` on. A NUL follows the
-- string. `fuel` is as for `for_dyn`.
unfoldable pub null_index : Elf → (fuel : ℕ) → (s : List ℕ) → (idx : ℕ) → Result ℕ
null_index e zero s idx = fault
null_index e (suc fuel) s idx = do
  let f = d_tag e.class_of
  b ← read_bytes (s ++ 0 ∷ []) (idx * dyn_size e.class_of + f.at) f.width
  elim (rdi e.little_endian b == dt_null) [ true ↦ ok idx | false ↦ null_index e fuel s (idx + 1) ]

-- The section `.dynamic` made larger by `n` entries, with its entries up to DT_NULL moved down by `n`:
-- the string `newDynamic` and the object.
unfoldable pub shift_dynamic : Elf → (header : List ℕ) → (n : ℕ) → Result (List ℕ × Elf)
shift_dynamic e header n = do
  let size = dyn_size e.class_of
  r ←
      replace_section e dot_dynamic
        ((get e.little_endian (sh_size e.class_of) header + size * n) % 2 ^ 32)
  idx ← null_index e (suc (suc (length r.0))) r.0 0
  s ← set_substr r.0 (size * n) (take (size * (idx + 1)) r.0)
  ok (s, r.1)

-- The entry `newDyn`, with `wri(newDyn.d_tag, tag)` and the bytes of `newDyn.d_un`
unfoldable pub new_dyn : Elf → (tag : ℕ) → (value : List ℕ) → List ℕ
new_dyn e tag value = wri e.little_endian (d_tag e.class_of).width tag ++ value

-- A single new entry at the top of `.dynamic`.
unfoldable pub push_dyn : Elf → (header : List ℕ) → (tag : ℕ) → (value : List ℕ) → Result Elf
push_dyn e header tag value = do
  r ← shift_dynamic e header 1
  s ← set_substr r.0 0 (new_dyn e tag value)
  ok (record r.1 { replaced_sections = insert r.1.replaced_sections dot_dynamic s })

-- The bytes of `shdr.sh_size`, as an assignment without `rdi` copies them.
unfoldable pub raw_size : Elf → List ℕ → List ℕ
raw_size e header = let f = sh_size e.class_of in slice header f.at f.width
