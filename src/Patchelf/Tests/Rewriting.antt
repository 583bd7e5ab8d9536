-- ===== src/Patchelf/Tests/Rewriting.antt =====
-- The results of the theorems on rewriting sections, on the small library.
use electrum_lightning_test.Base.{
  ℕ, ◌+◌, ◌*◌, ◌%◌, ◌^◌, ◌≤◌, ◌<◌, ◌≡◌, ◌≢◌, refl, arith, Bool, true, false, List, [], ◌∷◌, ◌++◌,
  length, replicate, take, Option, none, some, inl, inr, All,
}
use electrum_lightning_test.Patchelf.Word.{wri, round_up, host_bytes, rdi, rdi_loop, host_value}
use electrum_lightning_test.Patchelf.Result.{ok}
use electrum_lightning_test.Patchelf.File.{put, Elf, get, hdr_get, read_bytes}
use electrum_lightning_test.Patchelf.Section.{
  find_section, find_section2, find_section3, find_loop, name_at, shdr_at, get_section_name,
  string_eq, until_nul,
}
use electrum_lightning_test.Patchelf.Dynamic.{dot_dynstr, write_bytes}
use electrum_lightning_test.Patchelf.Parse.{copy_headers}
use electrum_lightning_test.Patchelf.Headers.{store_headers, shdr_get, shdr_put, sub_word}
use electrum_lightning_test.Patchelf.Rewrite.{needed_space}
use electrum_lightning_test.Patchelf.Rewrite.Write.{
  write_replaced_sections, cross_sections, write_sections, write_section, sync_segments,
}
use electrum_lightning_test.Patchelf.Rewrite.Write.Space.{write_replaced_sections-Ends}
use electrum_lightning_test.Patchelf.Headers.Table.{copy-store_headers}
use electrum_lightning_test.Patchelf.Rewrite.Shift.{shift_file}
use electrum_lightning_test.Patchelf.Rewrite.Shift.Whole.{IsShifted, shift_file-IsShifted}
use electrum_lightning_test.Patchelf.Tests.Library.{
  words, halves, library, elf_header, needs_a, needs_b, strtab_entry, end_entry, dynamic_header,
}

abbrev header_room : Elf
header_room = record library { contents = replicate 10 1 ++ (replicate 8 2 ++ replicate 4 3) }

abbrev two_headers : List (List ℕ)
two_headers = (5 ∷ 6 ∷ 7 ∷ 8 ∷ []) ∷ (9 ∷ 10 ∷ 11 ∷ 12 ∷ []) ∷ []

copy-store_headers_example :
    (table : List ℕ) × (store_headers 6 4 1 two_headers header_room
      ≡ ok (record library { contents = replicate 10 1 ++ (table ++ replicate 4 3) }))
    × (length table ≡ 8)
    × (copy_headers (replicate 10 1 ++ (table ++ replicate 4 3)) 6 4 2 1 ≡ ok two_headers)
copy-store_headers_example =
    copy-store_headers 6 4 1 two_headers header_room (replicate 10 1) (replicate 8 2)
      (replicate 4 3) refl (omega arith) refl (refl, (refl, tt))

shift_file-IsShifted_example :
    (e' : Elf) × (shift_file 64 1 4096 library ≡ ok e') × IsShifted 64 library e'
unfolding halves words get rdi rdi_loop host_value electrum_lightning_test.Base.slice hdr_get
shift_file-IsShifted_example =
    shift_file-IsShifted 64 1 4096 64 library refl (omega arith) (omega arith) (omega arith)
      (omega arith) (omega arith) (omega arith) (omega arith) (omega arith)

abbrev replacing : Elf
replacing = record library {
  contents = library.contents ++ replicate 20 0;
  replaced_sections = (dot_dynstr, 1 ∷ 2 ∷ 3 ∷ 4 ∷ 5 ∷ []) ∷ [];
}

abbrev moved_header : List ℕ
moved_header = words (9 ∷ 3 ∷ 2 ∷ 4184 ∷ 88 ∷ 5 ∷ 0 ∷ 0 ∷ 4 ∷ 0 ∷ [])

abbrev rewritten : Elf
rewritten = record library {
  contents =
      elf_header
      ++ (replicate 4 b'X'
          ++ (needs_a
              ++ (needs_b
                  ++ (strtab_entry ++ (end_entry ++ (1 ∷ 2 ∷ 3 ∷ 4 ∷ 5 ∷ replicate 15 0))))));
  shdrs = replicate 40 0 ∷ dynamic_header ∷ moved_header ∷ [];
}

sections_written : write_replaced_sections 88 4184 88 replacing ≡ ok (96, rewritten)
unfolding write_replaced_sections cross_sections write_sections write_section sync_segments shdr_get
    shdr_put sub_word write_bytes put wri find_section find_section2 find_section3 find_loop name_at
    shdr_at get_section_name string_eq until_nul read_bytes hdr_get get rdi rdi_loop host_value
    host_bytes round_up words halves electrum_lightning_test.Base.slice
    electrum_lightning_test.Base.overwrite
sections_written = refl

write_replaced_sections-Ends_example : (96 ≡ (88 + 8) % 2 ^ 32) × (rewritten.replaced_sections ≡ [])
unfolding needed_space round_up
write_replaced_sections-Ends_example =
    write_replaced_sections-Ends 88 4184 88 replacing (96, rewritten) (omega arith) sections_written
