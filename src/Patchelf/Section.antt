-- ===== src/Patchelf/Section.antt =====
-- `getSectionName`, `findSection`, `findSection2`, `findSection3`, `replaceSection` and `setSubstr`
-- of bitcoin-core/patchelf-0.9/src/patchelf.cc. A reference to a section header is its index.
pub mod Find
pub mod Replace
use electrum_lightning_test.Base.{
  ℕ, suc, zero, ◌+◌, ◌-◌, ◌<◌, ◌==◌, leb, ltb, Bool, true, false, List, [], ◌∷◌, ◌++◌, length,
  replicate, overwrite, take, drop, get_elem?, Option, none, some, if◌then◌else◌,
}
use electrum_lightning_test.Patchelf.Elf.{sh_name, sh_offset, sh_size, e_shnum}
use electrum_lightning_test.Patchelf.Result.{
  Result, ok, failed, fault, assert, cannot_find_section, ◌>>◌, ◌>>=◌,
}
use electrum_lightning_test.Patchelf.File.{Elf, get, hdr_get, read_bytes}

-- `string(p)`: the characters up to the NUL, which stands at the end of every `c_str()`.
unfoldable pub until_nul : List ℕ → List ℕ
until_nul [] = []
until_nul (c ∷ s) = if c == 0 then [] else c ∷ until_nul s

-- `==` of strings, and their order as keys of a map
unfoldable pub string_eq : List ℕ → List ℕ → Bool
string_eq [] [] = true
string_eq [] (d ∷ t) = false
string_eq (c ∷ s) [] = false
string_eq (c ∷ s) (d ∷ t) = if c == d then string_eq s t else false

unfoldable pub string_less : List ℕ → List ℕ → Bool
string_less s [] = false
string_less [] (d ∷ t) = true
string_less (c ∷ s) (d ∷ t) = if c == d then string_less s t else ltb c d

-- `shdrs[i]`
unfoldable pub shdr_at : Elf → ℕ → Result (List ℕ)
shdr_at e i = elim (get_elem? e.shdrs i) [ none ↦ fault | some s ↦ ok s ]

-- The name stands within `sectionNames`, or at its final NUL.
unfoldable pub get_section_name : Elf → List ℕ → Result (List ℕ)
get_section_name e s =
    let at = get e.little_endian (sh_name e.class_of) s in
    if leb at (length e.section_names) then ok (until_nul (drop at e.section_names)) else fault

-- `getSectionName(shdrs[i])`
unfoldable pub name_at : Elf → ℕ → Result (List ℕ)
name_at e i = do s ← shdr_at e i; get_section_name e s

-- The loop of `findSection3`, with `k` headers left from `i` on.
unfoldable pub find_loop : Elf → List ℕ → (k i : ℕ) → Result ℕ
find_loop e name zero i = ok 0
find_loop e name (suc k) i = do
  n ← name_at e i
  elim (string_eq n name) [ true ↦ ok i | false ↦ find_loop e name k (i + 1) ]

unfoldable pub find_section3 : Elf → List ℕ → Result ℕ
find_section3 e name = find_loop e name (hdr_get e e_shnum - 1) 1

unfoldable pub find_section2 : Elf → List ℕ → Result (Option ℕ)
find_section2 e name = do i ← find_section3 e name; ok (if i == 0 then none else some i)

unfoldable pub find_section : Elf → List ℕ → Result ℕ
find_section e name = do
  found ← find_section2 e name
  elim found [ none ↦ failed (cannot_find_section name) | some i ↦ ok i ]

-- `map::find` and `map[name] = s`, on the map's entries in the order of their keys
unfoldable pub lookup : List (List ℕ × List ℕ) → List ℕ → Option (List ℕ)
lookup [] name = none
lookup (entry ∷ rest) name = if string_eq entry.0 name then some entry.1 else lookup rest name

unfoldable pub insert : List (List ℕ × List ℕ) → List ℕ → List ℕ → List (List ℕ × List ℕ)
insert [] name s = (name, s) ∷ []
insert (entry ∷ rest) name s =
    if string_eq entry.0 name
    then (entry.0, s) ∷ rest
    else if string_less name entry.0
    then (name, s) ∷ entry ∷ rest
    else entry ∷ insert rest name s

-- `s.resize(size)`
unfoldable pub resize : List ℕ → ℕ → List ℕ
resize s size = take size s ++ replicate (size - length s) 0

-- The bytes that `replaceSection` starts from: the replacement so far, or the file's section.
unfoldable pub section_bytes : Elf → List ℕ → Result (List ℕ)
section_bytes e name = elim (lookup e.replaced_sections name) [
  | some s ↦ ok s
  | none ↦ do
    i ← find_section e name
    s ← shdr_at e i
    read_bytes e.contents (get e.little_endian (sh_offset e.class_of) s)
        (get e.little_endian (sh_size e.class_of) s)
]

-- `replaceSection`: the string that its reference stands for, and the object after it.
unfoldable pub replace_section : Elf → (name : List ℕ) (size : ℕ) → Result (List ℕ × Elf)
replace_section e name size = do
  s ← section_bytes e name
  let t = resize s size
  ok (t, record e { replaced_sections = insert e.replaced_sections name t })

-- `setSubstr(s, pos, t)`; `pos + t.size()` has 64 bits.
unfoldable pub set_substr : List ℕ → ℕ → List ℕ → Result (List ℕ)
set_substr s pos t = do assert (leb (pos + length t) (length s)); ok (overwrite s pos t)
