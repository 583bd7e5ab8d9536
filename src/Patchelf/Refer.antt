-- ===== src/Patchelf/Refer.antt =====
-- The two steps together that `modifySoname` and `modifyRPath` take for a new name: the name behind
-- `.dynstr`, then an entry that refers to it.
use electrum_lightning_test.Base.{
  ℕ, ◌+◌, ◌*◌, ◌%◌, ◌^◌, ◌<◌, ◌≡◌, sym, ap, ◌∙◌, arith, List, [], ◌∷◌, ◌++◌, length, length-append,
  All, replicate,
}
use electrum_lightning_test.Patchelf.Elf.{d_tag, d_un, shdr, sum}
use electrum_lightning_test.Patchelf.Result.{ok}
use electrum_lightning_test.Patchelf.File.{Elf, get}
use electrum_lightning_test.Patchelf.Section.{section_bytes}
use electrum_lightning_test.Patchelf.Section.Replace.{section_bytes_recorded, lookup-insert}
use electrum_lightning_test.Patchelf.Dynamic.{
  Name, dot_dynamic, dot_dynstr, dyn_size, new_dyn, push_dyn, edit_section, raw_size,
}
use electrum_lightning_test.Patchelf.Dynamic.Table.{concat, tag_of, IsEntry, IsEnd}
use electrum_lightning_test.Patchelf.Dynamic.Push.{replaced}
use electrum_lightning_test.Patchelf.Dynamic.Top.{push_dyn_entries}
use electrum_lightning_test.Patchelf.Dynamic.Store.{
  section_bytes-replaced_ne, dynstr-ne-dynamic, edit_section_appends, length-raw_size,
  value-new_dyn,
}
use electrum_lightning_test.Patchelf.Needed.{size_of}

-- The sections that both operations need, as they are before: the string table and the entries, both
-- as long as their headers say and short enough for `unsigned int` with what is added.
pub record HasTables (e : Elf) (dynamic dynstr strings : List ℕ) (ds : List (List ℕ))
    (behind : List ℕ) (added : ℕ) : Type 0 where
  pub strings_held : section_bytes e dot_dynstr ≡ ok strings
  pub strings_size : size_of e dynstr ≡ length strings
  pub strings_fit : size_of e dynstr + added < 2 ^ 32
  pub entries_held : section_bytes e dot_dynamic ≡ ok (concat ds ++ behind)
  pub entries_size : size_of e dynamic ≡ length (concat ds ++ behind)
  pub entries_fit : length (concat ds ++ behind) + dyn_size e.class_of * 1 < 2 ^ 32
  pub entries : All (IsEntry e) ds
  pub ended : IsEnd e behind
  pub header : length dynstr ≡ sum (shdr e.class_of)

-- The object after: the string table with the name and its NUL behind it, the entries with a new one at
-- the top, whose value is where the name stands.
pub record Refers (e : Elf) (tag : ℕ) (name strings : List ℕ) (ds : List (List ℕ)) (e' : Elf)
    : Type 0 where
  pub strings_after : section_bytes e' dot_dynstr ≡ ok (strings ++ (name ++ 0 ∷ []))
  pub entry : List ℕ
  pub after : List ℕ
  pub entries_after : section_bytes e' dot_dynamic ≡ ok (concat (entry ∷ ds) ++ after)
  pub entry_tag : tag_of e entry ≡ tag % 256 ^ (d_tag e.class_of).width
  pub entry_value : get e.little_endian (d_un e.class_of) entry ≡ length strings
  pub contents_kept : e'.contents ≡ e.contents
  pub changed_kept : e'.changed ≡ e.changed

unfoldable pub name_behind : Elf → Name → (strings : List ℕ) → Elf
name_behind e name strings =
    replaced (replaced e dot_dynstr (strings ++ replicate (length (name ++ 0 ∷ [])) 0)) dot_dynstr
      (strings ++ (name ++ 0 ∷ []))

pub refer_lem :
    (e : Elf) (tag : ℕ) (name dynamic dynstr strings : List ℕ) (ds : List (List ℕ))
    (behind : List ℕ)
    → HasTables e dynamic dynstr strings ds behind (length name + 1)
    → (edit_section e dot_dynstr
          (size_of e dynstr + length name + 1)
          (size_of e dynstr)
          (name ++ 0 ∷ [])
        ≡ ok (name_behind e name strings))
      × ((e' : Elf) × (push_dyn (name_behind e name strings) dynamic tag (raw_size e dynstr)
            ≡ ok e')
          × Refers e tag name strings ds e')
unfolding name_behind new_dyn
refer_lem e tag name dynamic dynstr strings ds behind h =
    let t = name ++ 0 ∷ [] in
    let long : length t ≡ length name + 1 = omega (arith, length-append name (0 ∷ [])) in
    let e1 = name_behind e name strings in
    let kept_dynamic =
      section_bytes-replaced_ne (replaced e dot_dynstr (strings ++ replicate (length t) 0))
        dot_dynstr (strings ++ t) dot_dynamic dynstr-ne-dynamic
      ∙ section_bytes-replaced_ne e dot_dynstr (strings ++ replicate (length t) 0) dot_dynamic
          dynstr-ne-dynamic
      ∙ h.entries_held in
    let (e', rest, pushed, entries_after, tagged, others, contents, changed) =
      push_dyn_entries e1 dynamic tag (raw_size e dynstr) ds behind kept_dynamic h.entries_size
        h.entries_fit h.ended h.entries (length-raw_size e dynstr h.header) in
    (
      ap (λ n. edit_section e dot_dynstr n (size_of e dynstr) t)
            (let n : size_of e dynstr + length name + 1 ≡ size_of e dynstr + length t =
                omega (arith, long) in
              n)
          ∙ edit_section_appends e dot_dynstr strings t (size_of e dynstr) h.strings_held
              h.strings_size (omega (arith, long, h.strings_fit)),
      (
        e',
        pushed,
        record {
          strings_after = section_bytes_recorded e' dot_dynstr (strings ++ t) (
              others dot_dynstr (λ p. dynstr-ne-dynamic (sym p))
              ∙ lookup-insert
                  (replaced e dot_dynstr (strings ++ replicate (length t) 0)).replaced_sections
                  dot_dynstr (strings ++ t));
          entry = new_dyn e tag (raw_size e dynstr);
          after = _;
          entries_after = entries_after;
          entry_tag = tagged;
          entry_value = value-new_dyn e tag dynstr h.header ∙ h.strings_size;
          contents_kept = contents;
          changed_kept = changed;
        },
      ),
    )
