-- ===== src/Patchelf/Tests.antt =====
-- A small executable for i386 with an interpreter segment and the section `.s`, and the results of
-- the theorems on it. Its tables follow the ELF header, and the string table follows them.
mod Library
mod Rewriting
mod Sorting
mod Running
mod Writing
use electrum_lightning_test.Base.{
  ℕ, ◌+◌, ◌-◌, ◌*◌, ◌%◌, ◌^◌, ◌≤◌, ◌<◌, ◌≡◌, ◌≢◌, ◌↔◌, refl, arith, Bool, true, false, List, [],
  ◌∷◌, ◌++◌, length, replicate, Option, some,
}
use electrum_lightning_test.Patchelf.Elf.{elf32, e_shnum, sh_size}
use electrum_lightning_test.Patchelf.Elf.Tag.{elfmag}
use electrum_lightning_test.Patchelf.Word.{host_bytes, rdi, wri, round_up, rdi_loop, host_value}
use electrum_lightning_test.Patchelf.Word.Endian.{rdi-wri}
use electrum_lightning_test.Patchelf.Word.Round.{round_up_least}
use electrum_lightning_test.Patchelf.Result.{ok}
use electrum_lightning_test.Patchelf.File.{Elf, get, put, hdr_get, check_pointer, read_bytes}
use electrum_lightning_test.Patchelf.File.Fields.{get-put}
use electrum_lightning_test.Patchelf.Section.{
  find_section3, section_bytes, insert, replace_section, resize, lookup, string_eq, until_nul,
  shdr_at, name_at, get_section_name, find_loop, find_section2, find_section,
}
use electrum_lightning_test.Patchelf.Section.Find.{First}
use electrum_lightning_test.Patchelf.Section.Replace.{IsResized, replace_section_records}
use electrum_lightning_test.Patchelf.Compare.{
  is_phdr, comp_phdr, comp_shdr, IsStrictWeakOrder, comp_shdr-IsStrictWeakOrder, comp_phdr_laws,
}
use electrum_lightning_test.Base.{none}
use electrum_lightning_test.Base.Int.{pos}
use electrum_lightning_test.Patchelf.Options.{
  Options, patch, keyword, options_loop, print_rpath, print_soname, page_size,
}
use electrum_lightning_test.Patchelf.Options.Laws.{
  Use, plain, with_value, replace, all_written, options_loop-all_written,
}
use electrum_lightning_test.Patchelf.Interpreter.{
  dot_interp, set_interpreter, set_interpreter_records,
}
use electrum_lightning_test.Patchelf.Parse.{
  new_elf, parse, with_order, with_names, check_header, copy_tables, copy_headers, read_names,
  index_sections, name_sections, has_interp, table_end, beyond, old_index_size,
}
use electrum_lightning_test.Patchelf.Needed.{remove_needed, replace_needed, add_needed}
use electrum_lightning_test.Patchelf.Soname.{modify_soname}
use electrum_lightning_test.Patchelf.Patch.{
  System, Patched, patch_elf, patch_elf2, class_of_file, edit, when, given, run_soname,
  run_set_soname, run_set_interpreter, run_rpath_change, run, set_of,
}
use electrum_lightning_test.Patchelf.Patch.PrintOnly.{patch_elf-OnlyPrints}
use electrum_lightning_test.Patchelf.Parse.Whole.{IsParsed, parse-IsParsed, parse-find_section3}
use electrum_lightning_test.Patchelf.Parse.Total.{copy_tables_within}

abbrev words : List ℕ → List ℕ
unfolding host_bytes
words [] = []
words (w ∷ ws) = host_bytes 4 w ++ words ws

abbrev halves : List ℕ → List ℕ
unfolding host_bytes
halves [] = []
halves (w ∷ ws) = host_bytes 2 w ++ halves ws

abbrev interp_header : List ℕ
interp_header = words (3 ∷ 0 ∷ 0 ∷ 0 ∷ 0 ∷ 0 ∷ 4 ∷ 1 ∷ [])

abbrev section_header_bytes : List ℕ
section_header_bytes = words (0 ∷ 3 ∷ 0 ∷ 0 ∷ 164 ∷ 3 ∷ 0 ∷ 0 ∷ 1 ∷ 0 ∷ [])

abbrev strings : List ℕ
strings = b'.' ∷ b's' ∷ 0 ∷ []

abbrev file : List ℕ
file =
    elfmag
    ++ (1 ∷ 1 ∷ 1 ∷ replicate 9 0)
    ++ halves (2 ∷ 3 ∷ [])
    ++ words (1 ∷ 0 ∷ 52 ∷ 84 ∷ 0 ∷ [])
    ++ halves (52 ∷ 32 ∷ 1 ∷ 40 ∷ 2 ∷ 1 ∷ [])
    ++ interp_header
    ++ replicate 40 0
    ++ section_header_bytes
    ++ strings

abbrev start : Elf
unfolding new_elf
start = new_elf elf32 file 1000

abbrev parsed : Elf
parsed = record start {
  phdrs = interp_header ∷ [];
  shdrs = replicate 40 0 ∷ section_header_bytes ∷ [];
  little_endian = true;
  is_executable = true;
  section_names = strings;
  sections_by_old_index = [] ∷ (b'.' ∷ b's' ∷ []) ∷ [];
}

start_parses : parse start ≡ ok parsed
unfolding parse with_order with_names check_header copy_tables copy_headers read_names
    index_sections name_sections has_interp table_end beyond old_index_size hdr_get get
    check_pointer read_bytes string_eq until_nul shdr_at name_at get_section_name rdi rdi_loop
    host_value start halves words electrum_lightning_test.Base.slice
start_parses = refl

parse-IsParsed_example : IsParsed file parsed
unfolding start new_elf
parse-IsParsed_example = parse-IsParsed start parsed start_parses

parse-find_section3_example :
    (r : ℕ) × (find_section3 parsed (b'.' ∷ b's' ∷ []) ≡ ok r)
    × First parsed (b'.' ∷ b's' ∷ []) (hdr_get parsed e_shnum - 1) 1 r
parse-find_section3_example = parse-find_section3 start parsed (b'.' ∷ b's' ∷ []) start_parses

header_accepted : check_header (with_order start) ≡ ok tt
unfolding with_order check_header table_end beyond hdr_get get rdi rdi_loop start halves words
    new_elf electrum_lightning_test.Base.slice
header_accepted = refl

copy_tables_within_example : (p : Elf) × (copy_tables (with_order start) ≡ ok p)
unfolding with_order hdr_get get rdi rdi_loop start halves words new_elf
    electrum_lightning_test.Base.slice
copy_tables_within_example =
    copy_tables_within (with_order start) header_accepted (omega arith) (omega arith) refl

section_found : section_bytes parsed (b'.' ∷ b's' ∷ []) ≡ ok strings
unfolding section_bytes find_section find_section2 find_section3 find_loop name_at shdr_at
    get_section_name lookup string_eq until_nul read_bytes hdr_get get rdi rdi_loop start halves
    words new_elf electrum_lightning_test.Base.slice
section_found = refl

replace_section_records_example :
    (t : List ℕ) × (e' : Elf) × (replace_section parsed (b'.' ∷ b's' ∷ []) 5 ≡ ok (t, e'))
    × IsResized strings 5 t
    × (section_bytes e' (b'.' ∷ b's' ∷ []) ≡ ok t)
    × ((other : List ℕ)
        → (b'.' ∷ b's' ∷ []) ≢ other
        → lookup e'.replaced_sections other ≡ lookup parsed.replaced_sections other)
replace_section_records_example =
    replace_section_records parsed (b'.' ∷ b's' ∷ []) 5 strings section_found

get-put_example :
    get false (sh_size elf32) (put false (sh_size elf32) 0x12345 section_header_bytes)
    ≡ 0x12345 % 256 ^ 4
unfolding words host_bytes
get-put_example = get-put false (sh_size elf32) 0x12345 section_header_bytes (omega arith)

rdi-wri_example : rdi false (wri false 2 0x1ff) ≡ 0x1ff % 256 ^ 2
rdi-wri_example = rdi-wri false 2 0x1ff

round_up_least_example :
    (5 ≤ round_up 5 4) × (round_up 5 4 < 5 + 4) × ((k : ℕ) × (round_up 5 4 ≡ k * 4))
round_up_least_example = round_up_least 5 4 (omega arith) (omega arith) (omega arith)

abbrev interpreted : Elf
interpreted = record parsed { replaced_sections = (dot_interp, strings) ∷ [] }

interpreter_found : section_bytes interpreted dot_interp ≡ ok strings
unfolding section_bytes lookup string_eq
interpreter_found = refl

set_interpreter_records_example :
    (e' : Elf) × (set_interpreter interpreted (b'/' ∷ b'l' ∷ []) ≡ ok e')
    × (section_bytes e' dot_interp ≡ ok ((b'/' ∷ b'l' ∷ []) ++ (0 ∷ [])))
    × ((other : List ℕ)
        → dot_interp ≢ other
        → lookup e'.replaced_sections other ≡ lookup interpreted.replaced_sections other)
    × (e'.contents ≡ interpreted.contents)
    × (e'.changed ≡ true)
set_interpreter_records_example =
    set_interpreter_records interpreted (b'/' ∷ b'l' ∷ []) strings interpreter_found (omega arith)

abbrev phdr_header : List ℕ
phdr_header = words (6 ∷ 52 ∷ 0 ∷ 0 ∷ 32 ∷ 32 ∷ 4 ∷ 4 ∷ [])

comp_phdr_laws_example :
    ((comp_phdr parsed phdr_header phdr_header ≡ true) ↔ (is_phdr parsed phdr_header ≡ true))
    × (((comp_phdr parsed phdr_header interp_header ≡ true)
          × (comp_phdr parsed interp_header phdr_header ≡ true))
        ↔ ((is_phdr parsed phdr_header ≡ true) × (is_phdr parsed interp_header ≡ true)))
    × (comp_phdr parsed phdr_header interp_header ≡ true
        → comp_phdr parsed interp_header interp_header ≡ true
        → comp_phdr parsed phdr_header interp_header ≡ true)
comp_phdr_laws_example = comp_phdr_laws parsed phdr_header interp_header interp_header

abbrev defaults : Options
defaults = record {
  given = [];
  new_interpreter = [];
  page = 4096;
  new_soname = none;
  new_rpath = none;
  needed_to_add = [];
  needed_to_remove = [];
  needed_to_replace = [];
}

abbrev uses : List Use
uses = plain print_rpath ∷ with_value page_size (b'8' ∷ []) ∷ replace (b'x' ∷ []) (b'y' ∷ []) ∷ []

abbrev changed_options : Options
changed_options = record defaults {
  given = print_rpath ∷ [];
  page = 8;
  needed_to_replace = (b'x' ∷ [], b'y' ∷ []) ∷ [];
}

name_is_no_option : keyword (b'a' ∷ []) ≡ none
unfolding keyword string_eq
name_is_no_option = refl

options_loop-all_written_example :
    options_loop (λ s. pos 8) 10 defaults (all_written uses ++ (b'a' ∷ []) ∷ [])
    ≡ patch changed_options (b'a' ∷ [])
unfolding insert
options_loop-all_written_example =
    options_loop-all_written (λ s. pos 8) uses 10 defaults changed_options (b'a' ∷ []) [] refl
      name_is_no_option (omega arith)

abbrev nothing : System
nothing = record { exists = λ path. false; sort = λ less hs. hs }

abbrev silent : Options
silent = record defaults { given = print_soname ∷ [] }

abbrev no_line : Patched
no_line = record { printed = []; stored = none }

silent_run : patch_elf nothing silent file ≡ ok no_line
unfolding patch_elf patch_elf2 class_of_file edit when given run_soname run_set_soname
    run_set_interpreter run_rpath_change run remove_needed replace_needed add_needed set_of
    modify_soname new_elf parse with_order with_names check_header copy_tables copy_headers
    read_names index_sections name_sections has_interp table_end beyond old_index_size hdr_get get
    check_pointer read_bytes string_eq until_nul shdr_at name_at get_section_name rdi rdi_loop
    host_value halves words electrum_lightning_test.Base.slice
silent_run = refl

patch_elf-OnlyPrints_example : no_line.stored ≡ none
unfolding given string_eq
patch_elf-OnlyPrints_example =
    patch_elf-OnlyPrints nothing silent file no_line
      (record {
        no_interpreter = refl;
        no_soname = refl;
        no_rpath = refl;
        no_shrink = refl;
        no_removal = refl;
        none_removed = refl;
        none_replaced = refl;
        none_added = refl;
        no_flag = refl;
      })
      silent_run
