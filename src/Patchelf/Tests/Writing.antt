-- ===== src/Patchelf/Tests/Writing.antt =====
-- The library with a longer string table in `replaced_sections` and room at its end, and the result of the
-- theorem on `writeReplacedSections`.
use electrum_lightning_test.Base.{
  ℕ, ◌+◌, ◌≡◌, refl, arith, List, [], ◌∷◌, ◌++◌, length, replicate, some,
}
use electrum_lightning_test.Patchelf.Word.{rdi, rdi_loop, host_value, round_up}
use electrum_lightning_test.Patchelf.Result.{ok}
use electrum_lightning_test.Patchelf.File.{Elf, get, hdr_get}
use electrum_lightning_test.Patchelf.Section.{
  find_section, find_section2, find_section3, find_loop, name_at, shdr_at, get_section_name,
  string_eq, until_nul, section_bytes, lookup,
}
use electrum_lightning_test.Patchelf.Dynamic.{Name, dot_dynstr}
use electrum_lightning_test.Patchelf.Rewrite.{needed_space}
use electrum_lightning_test.Patchelf.Rewrite.Write.{write_replaced_sections}
use electrum_lightning_test.Patchelf.Rewrite.Write.Wrote.{IsKnown}
use electrum_lightning_test.Patchelf.Rewrite.Write.Back.{
  IsOld, write_replaced_sections-section_bytes,
}
use electrum_lightning_test.Patchelf.Tests.Library.{words, halves, names, library, dynstr_header}

abbrev longer : List ℕ
longer = names ++ (b'c' ∷ 0 ∷ [])

abbrev roomy : Elf
roomy = record library {
  contents = library.contents ++ replicate 16 0;
  replaced_sections = (dot_dynstr, longer) ∷ [];
}

dynstr-IsKnown : IsKnown roomy (dot_dynstr, longer)
unfolding find_section find_section2 find_section3 find_loop name_at shdr_at get_section_name
    string_eq until_nul hdr_get get rdi rdi_loop host_value words halves
    electrum_lightning_test.Base.slice
dynstr-IsKnown = record {
  index = 2;
  header = dynstr_header;
  found = refl;
  here = refl;
  long = refl;
  short = omega arith;
}

dynstr-IsOld : IsOld roomy (dot_dynstr, longer)
unfolding get rdi rdi_loop host_value words halves dynstr-IsKnown electrum_lightning_test.Base.slice
dynstr-IsOld = record { known = dynstr-IsKnown; behind = omega arith; inside = omega arith }

write_replaced_sections-section_bytes_example :
    (e' : Elf) × (write_replaced_sections 88 4096 88 roomy ≡ ok (96, e'))
    × (e'.replaced_sections ≡ [])
    × ((name : Name) (bytes : List ℕ)
        → lookup roomy.replaced_sections name ≡ some bytes
        → section_bytes e' name ≡ section_bytes roomy name)
unfolding needed_space round_up words halves
write_replaced_sections-section_bytes_example =
    write_replaced_sections-section_bytes 88 4096 88 roomy (dynstr-IsOld, tt) (tt, tt) (omega arith)
      (omega arith) (omega arith)
