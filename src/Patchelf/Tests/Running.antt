-- ===== src/Patchelf/Tests/Running.antt =====
-- A file system, the arguments `--remove-needed a f`, and a small library `f` for i386 that needs `a` and
-- `b`: what a run of patchelf does with them, and the results of the theorems on it.
use electrum_lightning_test.Base.{
  ℕ, ◌+◌, ◌*◌, ◌≤◌, ◌≡◌, ◌≢◌, refl, sym, ap, ◌∙◌, arith, Bool, true, false, List, [], ◌∷◌, ◌++◌,
  length, replicate, take, take-length, Option, none, some, ◌⊎◌,
}
use electrum_lightning_test.Base.Int.{ℤ, pos}
use electrum_lightning_test.Patchelf.Elf.Tag.{elfmag}
use electrum_lightning_test.Patchelf.Word.{rdi, rdi_loop, host_value}
use electrum_lightning_test.Patchelf.Result.{ok}
use electrum_lightning_test.Patchelf.File.{get, hdr_get, check_pointer, read_bytes}
use electrum_lightning_test.Patchelf.Section.{
  find_section, find_section2, find_section3, find_loop, name_at, shdr_at, get_section_name,
  string_eq, string_less, until_nul, lookup, insert,
}
use electrum_lightning_test.Patchelf.Section.Replace.{lookup-insert, lookup-insert_ne}
use electrum_lightning_test.Patchelf.Parse.{
  new_elf, parse, with_order, with_names, check_header, copy_tables, copy_headers, read_names,
  index_sections, name_sections, has_interp, table_end, beyond, old_index_size,
}
use electrum_lightning_test.Patchelf.Dynamic.{
  Name, dot_dynamic, dot_dynstr, section_header, for_dyn, contains, read_field, c_string,
  write_bytes,
}
use electrum_lightning_test.Patchelf.Needed.{
  remove_needed, replace_needed, add_needed, compact, compact_body, drops_needed, needed_name,
}
use electrum_lightning_test.Patchelf.Rewrite.{rewrite_sections}
use electrum_lightning_test.Patchelf.Options.{
  Arg, Options, keyword, option_step, options_loop, main_options, patch,
}
use electrum_lightning_test.Patchelf.Patch.{
  System, Patched, patch_elf, patch_elf2, class_of_file, edit, when, given, run_soname,
  run_set_soname, run_set_interpreter, run_rpath_change, run, set_of, insert_name,
}
use electrum_lightning_test.Patchelf.Program.{
  Files, ended, returned, main, patch_file, read_file, whole_read, finish, exit_of, write_file,
  write_opened, close_written, closing, is_short,
}
use electrum_lightning_test.Patchelf.Program.Laws.{IsFiles, Serves}
use electrum_lightning_test.Patchelf.Program.Changes.{Rewritten, main-Rewritten}
use electrum_lightning_test.Patchelf.Program.Success.{main-Serves}
use electrum_lightning_test.Patchelf.Tests.Library.{
  words, halves, names, needs_a, needs_b, strtab_entry, end_entry, dynamic_header, dynstr_header,
}

abbrev file_with : List ℕ → List ℕ
file_with entries =
    elfmag
    ++ (1 ∷ 1 ∷ 1 ∷ replicate 9 0)
    ++ halves (3 ∷ 3 ∷ [])
    ++ words (1 ∷ 0 ∷ 52 ∷ 105 ∷ 0 ∷ [])
    ++ halves (52 ∷ 32 ∷ 0 ∷ 40 ∷ 4 ∷ 3 ∷ [])
    ++ names
    ++ entries
    ++ dot_dynamic
    ++ 0 ∷ (dot_dynstr ++ 0 ∷ [])
    ++ replicate 40 0
    ++ dynamic_header
    ++ dynstr_header
    ++ words (16 ∷ 3 ∷ 0 ∷ 0 ∷ 88 ∷ 17 ∷ 0 ∷ 0 ∷ 1 ∷ 0 ∷ [])

abbrev before : List ℕ
before = file_with (needs_a ++ needs_b ++ strtab_entry ++ end_entry)

abbrev after : List ℕ
after = file_with (needs_b ++ strtab_entry ++ replicate 8 0 ++ end_entry)

abbrev outside : System
outside = record { exists = λ path. false; sort = λ less hs. hs }

abbrev removal : Options
removal = record {
  given = [];
  new_interpreter = [];
  page = 4096;
  new_soname = none;
  new_rpath = none;
  needed_to_add = [];
  needed_to_remove = (b'a' ∷ []) ∷ [];
  needed_to_replace = [];
}

abbrev stored_after : Patched
stored_after = record { printed = []; stored = some after }

removal_run : patch_elf outside removal before ≡ ok stored_after
unfolding patch_elf patch_elf2 class_of_file edit when given run_soname run_set_soname
    run_set_interpreter run_rpath_change run remove_needed replace_needed add_needed set_of
    insert_name new_elf parse with_order with_names check_header copy_tables copy_headers read_names
    index_sections name_sections has_interp table_end beyond old_index_size hdr_get get
    check_pointer read_bytes string_eq until_nul shdr_at name_at get_section_name rdi rdi_loop
    host_value halves words electrum_lightning_test.Base.slice find_section find_section2
    find_section3 find_loop section_header for_dyn contains compact compact_body drops_needed
    needed_name rewrite_sections string_less read_field c_string write_bytes
    electrum_lightning_test.Base.overwrite
removal_run = refl

-- A file system: files by their names.
abbrev Disk : Type 0
Disk = List (Name × List ℕ)

abbrev stat_size : Option (List ℕ) → Option ℕ
stat_size none = none
stat_size (some bytes) = some (length bytes)

abbrev is_there : Option (List ℕ) → Bool
is_there none = false
is_there (some bytes) = true

abbrev first_bytes : ℕ → Option (List ℕ) → Option (List ℕ)
first_bytes n none = none
first_bytes n (some bytes) = some (take n bytes)

abbrev emptied_file : Disk → Name → Option (List ℕ) → Option Disk
emptied_file d name none = none
emptied_file d name (some bytes) = some (insert d name [])

abbrev disk_files : Files Disk
disk_files = record {
  stat = λ d name. stat_size (lookup d name);
  malloc = λ n. true;
  open_read = λ d name. is_there (lookup d name);
  read = λ d name n. first_bytes n (lookup d name);
  open_write = λ d name. emptied_file d name (lookup d name);
  write = λ d name bytes. (some (length bytes), insert d name bytes);
  close = λ d name. (true, d);
}

some-inj {ℓ} : {A : Type ℓ} {a b : A} → some a ≡ some b → a ≡ b
some-inj e = cc

take_more : (xs ys : List ℕ) → length xs ≡ length ys → take (length ys) xs ≡ ys → xs ≡ ys
take_more xs ys same h = sym (take-length xs) ∙ ap (λ n. take n xs) same ∙ h

disk_whole :
    (held : Option (List ℕ)) (bytes : List ℕ)
    → stat_size held ≡ some (length bytes)
    → first_bytes (length bytes) held ≡ some bytes
    → held ≡ some bytes
disk_whole none bytes h k = cc
disk_whole (some xs) bytes h k = ap some (take_more xs bytes (some-inj h) (some-inj k))

disk_opened :
    (d d' : Disk) (name : Name) (held : Option (List ℕ))
    → emptied_file d name held ≡ some d'
    → insert d name [] ≡ d'
disk_opened d d' name none h = cc
disk_opened d d' name (some bytes) h = some-inj h

disk_files-IsFiles : IsFiles disk_files lookup
disk_files-IsFiles = record {
  whole = λ d name bytes h k. disk_whole (lookup d name) bytes h k;
  emptied = λ d d' name h.
      ap (λ x. lookup x name) (sym (disk_opened d d' name (lookup d name) h))
      ∙ lookup-insert d name [];
  open_others = λ d d' name q h apart.
      ap (λ x. lookup x q) (sym (disk_opened d d' name (lookup d name) h))
      ∙ lookup-insert_ne d name q [] apart;
  written = λ d name bytes h. (
    length bytes,
    omega arith,
    lookup-insert d name bytes ∙ ap some (sym (take-length bytes)),
    λ n e. sym (some-inj e),
  );
  write_others = λ d name q bytes apart. lookup-insert_ne d name q bytes apart;
  closed = λ d name q. refl;
}

disk_files-Serves : Serves disk_files lookup
disk_files-Serves = record {
  has_size = λ d name bytes h. rw h refl;
  has_memory = λ n. refl;
  opens = λ d name bytes h. rw h refl;
  reads = λ d name bytes h. rw h (ap some (take-length bytes));
  opens_write = λ d name bytes h. (insert d name [], rw h refl);
  writes_all = λ d name bytes. refl;
  closes = λ d name. refl;
}

abbrev disk : Disk
disk = (b'f' ∷ [], before) ∷ (b'g' ∷ [], []) ∷ []

abbrev four_k : Arg → ℤ
four_k s = pos 4096

abbrev arguments : List Arg
arguments =
    (b'-' ∷ b'-' ∷ b'r' ∷ b'e' ∷ b'm' ∷ b'o' ∷ b'v' ∷ b'e' ∷ b'-' ∷ b'n' ∷ b'e' ∷ b'e' ∷ b'd' ∷ b'e'
      ∷ b'd' ∷ [])
    ∷ (b'a' ∷ [])
    ∷ (b'f' ∷ [])
    ∷ []

arguments_parsed : main_options four_k 4096 arguments ≡ patch removal (b'f' ∷ [])
unfolding main_options options_loop option_step keyword string_eq
arguments_parsed = refl

before_held : lookup disk (b'f' ∷ []) ≡ some before
unfolding lookup string_eq
before_held = refl

main-Serves_example :
    (s' : Disk) × (main disk_files outside four_k 4096 [] arguments disk ≡ ended (returned 0 []) s')
    × (lookup s' (b'f' ∷ []) ≡ some after)
    × ((q : Name) → (b'f' ∷ []) ≢ q → lookup s' q ≡ lookup disk q)
main-Serves_example =
    main-Serves disk_files lookup disk_files-IsFiles disk_files-Serves outside four_k 4096 []
      arguments disk removal (b'f' ∷ []) before stored_after arguments_parsed before_held
      removal_run

abbrev disk_after : Disk
disk_after = (b'f' ∷ [], after) ∷ (b'g' ∷ [], []) ∷ []

disk_run : main disk_files outside four_k 4096 [] arguments disk ≡ ended (returned 0 []) disk_after
unfolding main patch_file read_file whole_read finish exit_of write_file write_opened close_written
    closing is_short lookup insert string_eq string_less words halves
disk_run = rw (main, arguments_parsed) (rw removal_run refl)

main-Rewritten_example :
    (lookup disk_after (b'f' ∷ []) ≡ lookup disk (b'f' ∷ []))
    ⊎ ((o : Options) × (main_options four_k 4096 arguments ≡ patch o (b'f' ∷ []))
        × Rewritten lookup outside o (b'f' ∷ []) disk (returned 0 []) disk_after)
main-Rewritten_example =
    main-Rewritten disk_files lookup disk_files-IsFiles outside four_k 4096 [] arguments disk
      (b'f' ∷ []) (returned 0 []) disk_after disk_run
