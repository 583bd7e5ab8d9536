-- ===== src/Patchelf/Patch.antt =====
-- `patchElf` and `patchElf2` of bitcoin-core/patchelf-0.9/src/patchelf.cc, from the file read to the file
-- written.
pub mod PrintOnly
use electrum_lightning_test.Base.{
  ℕ, ◌+◌, ◌*◌, ◌==◌, leb, Bool, true, false, ◌&&◌, List, [], ◌∷◌, ◌++◌, length, slice, get_or,
  Option, none, some, if◌then◌else◌,
}
use electrum_lightning_test.Patchelf.Elf.{Class, elf32, elf64, ehdr, sum}
use electrum_lightning_test.Patchelf.Elf.Tag.{
  elfmag, ei_class, ei_version, elfclass32, elfclass64, ev_current,
}
use electrum_lightning_test.Patchelf.Result.{
  Result, ok, failed, require, missing_elf_header, not_an_elf_executable, wrong_elf_class, ◌>>=◌,
  ◌>>◌,
}
use electrum_lightning_test.Patchelf.File.{Elf}
use electrum_lightning_test.Patchelf.Section.{string_eq, string_less, until_nul}
use electrum_lightning_test.Patchelf.Parse.{new_elf, parse}
use electrum_lightning_test.Patchelf.Interpreter.{get_interpreter, set_interpreter}
use electrum_lightning_test.Patchelf.Dynamic.{Name}
use electrum_lightning_test.Patchelf.Needed.{
  remove_needed, replace_needed, add_needed, print_needed_libs, no_default_lib,
}
use electrum_lightning_test.Patchelf.Soname.{modify_soname, print_soname, replace_soname}
use electrum_lightning_test.Patchelf.Rpath.{
  modify_rpath, RPathOp, rp_print, rp_shrink, rp_remove, rp_set,
}
use electrum_lightning_test.Patchelf.Rewrite.{rewrite_sections}
use electrum_lightning_test.Patchelf.Rewrite.Sort.{StdSort}
use electrum_lightning_test.Patchelf.Options
use electrum_lightning_test.Patchelf.Options.{Options, Flag, flag_text}

-- A `set` of strings: its members in order, each once.
unfoldable pub insert_name : Name → List Name → List Name
insert_name name [] = name ∷ []
insert_name name (x ∷ xs) =
    if string_eq x name
    then x ∷ xs
    else if string_less name x
    then name ∷ x ∷ xs
    else x ∷ insert_name name xs

unfoldable pub set_of : List Name → List Name
set_of [] = []
set_of (name ∷ names) = insert_name name (set_of names)

-- Whether a flag was among the options.
unfoldable pub given : Flag → List Flag → Bool
given f [] = false
given f (g ∷ gs) = if string_eq (flag_text g) (flag_text f) then true else given f gs

-- The object with the lines printed so far and the static `neededLibs` of `modifyRPath`.
pub record Session : Type 0 where
  pub object : Elf
  pub printed : List Name
  pub known_libs : List Name

-- What the calls need from outside: `stat`, `std::sort`.
pub record System : Type 0 where
  pub exists : Name → Bool
  pub sort : StdSort

-- `if (flag) …`
unfoldable pub when : Bool → (Session → Result Session) → Session → Result Session
when true step s = step s
when false step s = ok s

unfoldable pub run : (Elf → Result Elf) → Session → Result Session
run op s = do e ← op s.object; ok (record s { object = e })

unfoldable pub run_soname : (Elf → Result (Elf × List Name)) → Session → Result Session
run_soname op s = do r ← op s.object; ok (record s { object = r.0; printed = s.printed ++ r.1 })

unfoldable pub run_rpath : System → (force : Bool) → RPathOp → Name → Session → Result Session
run_rpath sys force op path s = do
  r ← modify_rpath sys.exists force s.known_libs op path s.object
  ok (record { object = r.0; printed = s.printed ++ r.1; known_libs = r.2 })

-- `printf("%s\n", …)` ends a line at the first NUL.
unfoldable pub run_print_interpreter : Session → Result Session
run_print_interpreter s = do
  name ← get_interpreter s.object
  ok (record s { printed = s.printed ++ until_nul name ∷ [] })

unfoldable pub run_print_needed : Session → Result Session
run_print_needed s = do
  names ← print_needed_libs s.object
  ok (record s { printed = s.printed ++ names })

-- The first of `shrinkRPath`, `removeRPath` and `setRPath` that is given.
unfoldable pub run_rpath_change : System → Options → Session → Result Session
run_rpath_change sys o s =
    let force = given Options.force_rpath o.given in
    if given Options.shrink_rpath o.given
    then run_rpath sys force rp_shrink [] s
    else if given Options.remove_rpath o.given
    then run_rpath sys force rp_remove [] s
    else elim o.new_rpath [ none ↦ ok s | some path ↦ run_rpath sys force rp_set path s ]

unfoldable pub run_set_soname : Options → Session → Result Session
run_set_soname o s = elim o.new_soname [
  | none ↦ ok s
  | some name ↦ run_soname (modify_soname replace_soname name) s
]

unfoldable pub run_set_interpreter : Options → Session → Result Session
run_set_interpreter o s = elim o.new_interpreter [
  | [] ↦ ok s
  | c ∷ cs ↦ run (λ e. set_interpreter e (c ∷ cs)) s
]

-- The calls of `patchElf2` between `parse` and `isChanged`, in their order.
unfoldable pub edit : System → Options → Session → Result Session
edit sys o s0 = do
  s1 ← when (given Options.print_interpreter o.given) run_print_interpreter s0
  s2 ← when (given Options.print_soname o.given) (run_soname (modify_soname print_soname [])) s1
  s3 ← run_set_soname o s2
  s4 ← run_set_interpreter o s3
  s5 ←
      when (given Options.print_rpath o.given)
        (run_rpath sys (given Options.force_rpath o.given) rp_print []) s4
  s6 ← run_rpath_change sys o s5
  s7 ← when (given Options.print_needed o.given) run_print_needed s6
  s8 ← run (remove_needed (set_of o.needed_to_remove)) s7
  s9 ← run (replace_needed o.needed_to_replace) s8
  s10 ← run (add_needed (set_of o.needed_to_add)) s9
  when (given Options.no_default_lib o.given) (run no_default_lib) s10

-- What a run prints, and the contents that `writeFile` stores if it is called.
pub record Patched : Type 0 where
  pub printed : List Name
  pub stored : Option (List ℕ)

unfoldable pub patch_elf2 : System → Options → Elf → Result Patched
patch_elf2 sys o e0 = do
  e ← parse e0
  s ← edit sys o (record { object = e; printed = []; known_libs = [] })
  elim s.object.changed [
    | false ↦ ok (record { printed = s.printed; stored = none })
    | true ↦ do
      e' ← rewrite_sections sys.sort o.page s.object
      ok (record { printed = s.printed; stored = some e'.contents })
  ]

-- The class that `contents[EI_CLASS]` and `contents[EI_VERSION]` choose.
unfoldable pub class_of_file : List ℕ → Result Class
class_of_file contents = do
  require (leb (sum (ehdr elf32)) (length contents)) missing_elf_header
  require (string_eq (slice contents 0 4) elfmag) not_an_elf_executable
  let current = get_or contents ei_version 0 == ev_current
  let class = get_or contents ei_class 0
  elim ((class == elfclass32) && current) [
    | true ↦ ok elf32
    | false ↦ elim ((class == elfclass64) && current) [
      | true ↦ ok elf64
      | false ↦ failed wrong_elf_class
    ]
  ]

-- `patchElf` on the bytes that `readFile` reads; it leaves room for 32 MiB more.
unfoldable pub patch_elf : System → Options → List ℕ → Result Patched
patch_elf sys o contents = do
  c ← class_of_file contents
  patch_elf2 sys o (new_elf c contents (length contents + 32 * 1024 * 1024))
