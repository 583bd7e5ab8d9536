-- ===== src/Patchelf/Patch/PrintOnly.antt =====
-- A run of patchelf that only prints.
use electrum_lightning_test.Base.{
  ℕ, ◌≡◌, refl, ap, ◌∙◌, Bool, true, false, ◌==◌, List, [], length, slice, leb, ◌-◌, replicate, ◌+◌,
  ◌*◌, none,
}
use electrum_lightning_test.Patchelf.Elf.{
  e_type, e_phoff, e_phnum, e_shoff, e_shnum, ehdr, phdr, shdr, sum,
}
use electrum_lightning_test.Patchelf.Elf.Tag.{et_dyn, elfmag}
use electrum_lightning_test.Patchelf.Result.{
  Result, ok, require, missing_elf_header, not_an_elf_executable, ◌>>=◌, Gives, ok-Gives,
  after-Gives, then-Gives, elim-Gives,
}
use electrum_lightning_test.Patchelf.File.{Elf, hdr_get}
use electrum_lightning_test.Patchelf.Section.{string_eq}
use electrum_lightning_test.Patchelf.Parse.{
  new_elf, parse, with_order, with_names, copy_tables, index_sections, check_header, read_names,
  copy_headers, name_sections, old_index_size,
}
use electrum_lightning_test.Patchelf.Dynamic.{
  Name, dot_dynamic, dot_dynstr, section_header, for_dyn, dyn_rounds,
}
use electrum_lightning_test.Patchelf.Needed.{
  remove_needed, replace_needed, add_needed, print_needed_libs, offset_of,
}
use electrum_lightning_test.Patchelf.Interpreter.{get_interpreter}
use electrum_lightning_test.Patchelf.Soname.{
  modify_soname, soname_op, soname_body, print_soname, check_strtab, string_at, name_of,
}
use electrum_lightning_test.Patchelf.Rpath.{modify_rpath, rpath_op, rpath_body, rp_print}
use electrum_lightning_test.Patchelf.Options
use electrum_lightning_test.Patchelf.Options.{Options}
use electrum_lightning_test.Patchelf.Patch.{
  Session, System, Patched, given, set_of, when, run, run_soname, run_rpath, run_print_interpreter,
  run_print_needed, run_rpath_change, run_set_soname, run_set_interpreter, edit, patch_elf2,
  patch_elf, class_of_file,
}

-- The options ask for no change: what they ask to print, and --force-rpath, are free.
pub record OnlyPrints (o : Options) : Type 0 where
  pub no_interpreter : o.new_interpreter ≡ []
  pub no_soname : o.new_soname ≡ none
  pub no_rpath : o.new_rpath ≡ none
  pub no_shrink : given Options.shrink_rpath o.given ≡ false
  pub no_removal : given Options.remove_rpath o.given ≡ false
  pub none_removed : o.needed_to_remove ≡ []
  pub none_replaced : o.needed_to_replace ≡ []
  pub none_added : o.needed_to_add ≡ []
  pub no_flag : given Options.no_default_lib o.given ≡ false

-- A session with the object `e`, and a step that keeps the object.
abbrev Has : Elf → Session → Type 0
Has e s = s.object ≡ e

abbrev Keeps : (Session → Result Session) → Type 0
Keeps step = (e : Elf) (s : Session) → Has e s → Gives (Has e) (step s)

when-Keeps : (b : Bool) (step : Session → Result Session) → Keeps step → Keeps (when b step)
unfolding when
when-Keeps true step h e s p = h e s p
when-Keeps false step h e s p = ok-Gives (Has e) s p

skipped-Keeps : (b : Bool) (step : Session → Result Session) → b ≡ false → Keeps (when b step)
unfolding when
skipped-Keeps b step h e s p = rw h (ok-Gives (Has e) s p)

run_print_interpreter-Keeps : Keeps run_print_interpreter
unfolding run_print_interpreter
run_print_interpreter-Keeps e s p =
    after-Gives (Has e) (get_interpreter s.object) (λ name. ok-Gives (Has e) _ p)

run_print_needed-Keeps : Keeps run_print_needed
unfolding run_print_needed
run_print_needed-Keeps e s p =
    after-Gives (Has e) (print_needed_libs s.object) (λ names. ok-Gives (Has e) _ p)

-- The object of a result with lines.
abbrev Leaves : Elf → Elf × List Name → Type 0
Leaves e r = r.0 ≡ e

modify_soname-print : (e : Elf) → Gives (Leaves e) (modify_soname print_soname [] e)
unfolding modify_soname soname_op
modify_soname-print e =
    elim-Gives (Leaves e) (hdr_get e e_type == et_dyn)
      (after-Gives (Leaves e) (section_header e dot_dynamic) (λ dynamic.
        after-Gives (Leaves e) (section_header e dot_dynstr) (λ dynstr.
          after-Gives (Leaves e) (check_strtab e dynamic dynstr) (λ checked.
            after-Gives (Leaves e)
              (for_dyn (soname_body (offset_of e dynstr)) (dyn_rounds e) (offset_of e dynamic) e
                none)
              (λ r.
                after-Gives (Leaves e) (string_at e (name_of r.1))
                  (λ name. ok-Gives (Leaves e) _ refl))))))
      (ok-Gives (Leaves e) (e, []) refl)

run_soname-Keeps : Keeps (run_soname (modify_soname print_soname []))
unfolding run_soname
run_soname-Keeps e s p =
    then-Gives (Leaves s.object) (Has e) (modify_soname print_soname [] s.object)
      (modify_soname-print s.object) (λ r same. ok-Gives (Has e) _ (same ∙ p))

run_rpath-Keeps : (sys : System) (force : Bool) → Keeps (run_rpath sys force rp_print [])
unfolding run_rpath modify_rpath rpath_op
run_rpath-Keeps sys force e s p =
    then-Gives (λ r. r.0 ≡ s.object) (Has e)
      (modify_rpath sys.exists force s.known_libs rp_print [] s.object)
      (let Q : Elf × List Name × List Name → Type 0 = λ r. r.0 ≡ s.object in
        let o = s.object in
        after-Gives Q (section_header o dot_dynamic) (λ dynamic.
          after-Gives Q (section_header o dot_dynstr) (λ dynstr.
            after-Gives Q (check_strtab o dynamic dynstr) (λ checked.
              after-Gives Q
                (for_dyn (rpath_body (offset_of o dynstr)) (dyn_rounds o) (offset_of o dynamic) o
                  (record {
                    dyn_rpath = none;
                    dyn_run_path = none;
                    rpath = none;
                    needed_libs = s.known_libs;
                  }))
                (λ found.
                  then-Gives (Leaves o) Q
                    (rpath_op sys.exists force rp_print o dynamic dynstr found.1 [])
                    (after-Gives (Leaves o) (string_at o found.1.rpath)
                      (λ line. ok-Gives (Leaves o) _ refl))
                    (λ out same. ok-Gives Q _ same))))))
      (λ r same. ok-Gives (Has e) _ (same ∙ p))

run_set_soname-Keeps : (o : Options) → o.new_soname ≡ none → Keeps (run_set_soname o)
unfolding run_set_soname
run_set_soname-Keeps o h e s p = rw h (ok-Gives (Has e) s p)

run_set_interpreter-Keeps : (o : Options) → o.new_interpreter ≡ [] → Keeps (run_set_interpreter o)
unfolding run_set_interpreter
run_set_interpreter-Keeps o h e s p = rw h (ok-Gives (Has e) s p)

run_rpath_change-Keeps :
    (sys : System) (o : Options) → OnlyPrints o → Keeps (run_rpath_change sys o)
unfolding run_rpath_change
run_rpath_change-Keeps sys o h e s p =
    rw (h.no_shrink, h.no_removal, h.no_rpath) (ok-Gives (Has e) s p)

run-Keeps : (op : Elf → Result Elf) → ((e : Elf) → op e ≡ ok e) → Keeps (run op)
unfolding run
run-Keeps op h e s p = rw (h s.object) (ok-Gives (Has e) _ p)

edit-Keeps : (sys : System) (o : Options) → OnlyPrints o → Keeps (edit sys o)
unfolding edit remove_needed replace_needed add_needed set_of
edit-Keeps sys o h e s0 p0 =
    next (when-Keeps _ run_print_interpreter run_print_interpreter-Keeps e s0 p0) (λ s1 p1.
      next (when-Keeps _ _ run_soname-Keeps e s1 p1) (λ s2 p2.
        next (run_set_soname-Keeps o h.no_soname e s2 p2) (λ s3 p3.
          next (run_set_interpreter-Keeps o h.no_interpreter e s3 p3) (λ s4 p4.
            next (when-Keeps _ _ (run_rpath-Keeps sys _) e s4 p4) (λ s5 p5.
              next (run_rpath_change-Keeps sys o h e s5 p5) (λ s6 p6.
                next (when-Keeps _ run_print_needed run_print_needed-Keeps e s6 p6) (λ s7 p7.
                  next (run-Keeps _ (λ x. rw h.none_removed refl) e s7 p7) (λ s8 p8.
                    next (run-Keeps _ (λ x. rw h.none_replaced refl) e s8 p8) (λ s9 p9.
                      next (run-Keeps _ (λ x. rw h.none_added refl) e s9 p9)
                        (λ s10 p10. skipped-Keeps _ _ h.no_flag e s10 p10))))))))))
  where
    next :
        {r : Result Session} {k : Session → Result Session}
        → Gives (Has e) r
        → ((s : Session) → Has e s → Gives (Has e) (k s))
        → Gives (Has e) (r >>= k)
    next {r} g f = then-Gives (Has e) (Has e) r g f

parse_unchanged : (e : Elf) → Gives (λ p. p.changed ≡ e.changed) (parse e)
unfolding parse with_order with_names copy_tables index_sections
parse_unchanged e =
    let P : Elf → Type 0 = λ p. p.changed ≡ e.changed in
    let e1 = with_order e in
    after-Gives P (require (leb (sum (ehdr e.class_of)) (length e.contents)) missing_elf_header)
      (λ u.
        after-Gives P (require (string_eq (slice e.contents 0 4) elfmag) not_an_elf_executable)
          (λ v. after-Gives P (check_header e1) (λ w.
            then-Gives P P (copy_tables e1)
              (after-Gives P
                (copy_headers e.contents (hdr_get e1 e_phoff) (sum (phdr e.class_of))
                  (hdr_get e1 e_phnum) 0)
                (λ ps.
                  after-Gives P
                    (copy_headers e.contents (hdr_get e1 e_shoff) (sum (shdr e.class_of))
                      (hdr_get e1 e_shnum) 0)
                    (λ ss. ok-Gives P _ refl)))
              (λ e2 kept. after-Gives P (read_names e2) (λ names.
                let e3 = with_names e2 names in
                after-Gives P
                  (name_sections e3 (hdr_get e3 e_shnum - 1) 1 (replicate (old_index_size e3) []))
                  (λ old. ok-Gives P _ kept))))))

-- When the options ask for no change, a run that ends well does not write the file, whatever they ask to
-- print and whatever the file holds.
pub patch_elf-OnlyPrints :
    (sys : System) (o : Options) (contents : List ℕ) (p : Patched)
    → OnlyPrints o
    → patch_elf sys o contents ≡ ok p
    → p.stored ≡ none
unfolding patch_elf patch_elf2 new_elf
patch_elf-OnlyPrints sys o contents p h done =
    let P : Patched → Type 0 = λ q. q.stored ≡ none in
    after-Gives P (class_of_file contents)
      (λ c.
        let e0 = new_elf c contents (length contents + 32 * 1024 * 1024) in
        then-Gives (λ e. e.changed ≡ false) P (parse e0) (parse_unchanged e0)
          (λ e same.
            let s0 : Session = record { object = e; printed = []; known_libs = [] } in
            then-Gives (Has e) P (edit sys o s0) (edit-Keeps sys o h e s0 refl)
              (λ s kept. rw (ap (λ x. x.changed) kept ∙ same) (ok-Gives P _ refl))))
      p done
