-- ===== src/Patchelf/Needed/Remove.antt =====
-- What `removeNeeded` leaves of the dynamic section.
use electrum_lightning_test.Base.{
  ℕ, ◌+◌, ◌-◌, ◌≡◌, refl, sym, ap, ◌∙◌, arith, Bool, true, false, ◌||◌, ◌&&◌, ◌==◌, List, ◌∷◌, ◌++◌,
  length, length-append, drop, All, Bool-cases, inl, inr, replicate,
}
use mathlib.Core.List.{append_assoc}
use electrum_lightning_test.Patchelf.Elf.{d_un}
use electrum_lightning_test.Patchelf.Elf.Tag.{dt_needed}
use electrum_lightning_test.Patchelf.Result.{Result, ok, ◌>>=◌}
use electrum_lightning_test.Patchelf.File.{Elf, get}
use electrum_lightning_test.Patchelf.Section.{until_nul}
use electrum_lightning_test.Patchelf.Dynamic.{
  Name, dot_dynamic, dot_dynstr, dyn_size, section_header, read_field, c_string, contains,
}
use electrum_lightning_test.Patchelf.Dynamic.Table.{
  concat, tag_of, IsEntry, IsEnd, un_fits, read_field_mid,
}
use electrum_lightning_test.Patchelf.Dynamic.Strings.{IsApart, c_string_apart}
use electrum_lightning_test.Patchelf.Needed.{
  needed_name, drops_needed, remove_needed, compact, offset_of,
}
use electrum_lightning_test.Patchelf.Needed.Compact.{kept, any, state}
use electrum_lightning_test.Patchelf.Needed.Filter.{compact_filter}

-- `d_un` of an entry's bytes, and the name at that place of the string table.
abbrev pub value_of : Elf → List ℕ → ℕ
value_of e d = get e.little_endian (d_un e.class_of) d

abbrev pub needed_entry_name : Elf → (strtab : ℕ) → List ℕ → Name
needed_entry_name e strtab d = until_nul (drop (strtab + value_of e d) e.contents)

-- Whether an entry needs one of the libraries.
abbrev pub needs : Elf → (strtab : ℕ) → List Name → List ℕ → Bool
needs e strtab libs d = (tag_of e d == dt_needed) && contains libs (needed_entry_name e strtab d)

-- The section with the entries that stay, and zeros for the others, between `front` and `behind`.
abbrev pub shrunk : (front : List ℕ) → (ks ds : List (List ℕ)) → (behind : List ℕ) → List ℕ
shrunk front ks ds behind =
    front ++ (concat ks ++ (replicate (length (concat ds) - length (concat ks)) 0 ++ behind))

-- The name of a needed library is apart from the entries.
abbrev pub HasName : Elf → (front ds strtab : ℕ) → List ℕ → Type 0
HasName e front size strtab d =
    (tag_of e d == dt_needed) ≡ true → IsApart e.contents front size (strtab + value_of e d)

drops_needed_name :
    (e : Elf) (libs : List Name) (strtab at tag value : ℕ) (name : Name)
    → (tag == dt_needed) ≡ true
    → read_field e at (d_un e.class_of) ≡ ok value
    → c_string e (strtab + value) ≡ ok name
    → drops_needed strtab libs at tag e ≡ ok (contains libs name)
unfolding drops_needed needed_name
drops_needed_name e libs strtab at tag value name needed read found =
    ap
      (λ b. elim b as (λ x. Result Bool) [
        | true ↦ needed_name strtab at e >>= λ n. ok (contains libs n)
        | false ↦ ok false
      ])
      needed
    ∙ rw read (rw found refl)

drops_needed_other :
    (e : Elf) (libs : List Name) (strtab at tag : ℕ)
    → (tag == dt_needed) ≡ false
    → drops_needed strtab libs at tag e ≡ ok false
unfolding drops_needed
drops_needed_other e libs strtab at tag other =
    ap
      (λ b. elim b as (λ x. Result Bool) [
        | true ↦ needed_name strtab at e >>= λ n. ok (contains libs n)
        | false ↦ ok false
      ])
      other

drops_needed_decides :
    (e : Elf) (libs : List Name) (strtab : ℕ) (front mid behind before d after : List ℕ) (b : Bool)
    → e.contents ≡ front ++ (mid ++ behind)
    → HasName e (length front) (length mid) strtab d
    → length d ≡ dyn_size e.class_of
    → length before + length d + length after ≡ length mid
    → drops_needed strtab libs
        (length front + length before)
        (tag_of e d)
        (state e (front ++ (before ++ (d ++ (after ++ behind)))) b)
      ≡ ok (needs e strtab libs d)
drops_needed_decides e libs strtab front mid behind before d after b same named size whole =
    elim (Bool-cases (tag_of e d == dt_needed)) [
      | inr other ↦ drops_needed_other e' libs strtab _ (tag_of e d) other ∙ ap ok (rw other refl)
      | inl needed ↦
          drops_needed_name e' libs strtab (length front + length before) (tag_of e d)
            (value_of e d) (needed_entry_name e strtab d) needed value (name (named needed))
          ∙ ap ok (rw needed refl)
    ]
  where
    e' : Elf
    e' = state e (front ++ (before ++ (d ++ (after ++ behind)))) b

    value : read_field e' (length front + length before) (d_un e.class_of) ≡ ok (value_of e d)
    value =
        read_field_mid e' (front ++ before) d (after ++ behind) (length front + length before)
          (d_un e.class_of) (sym (append_assoc front before (d ++ (after ++ behind))))
          (omega (arith, length-append front before)) (omega (arith, size, un_fits e.class_of))

    name :
        IsApart e.contents (length front) (length mid) (strtab + value_of e d)
        → c_string e' (strtab + value_of e d) ≡ ok (needed_entry_name e strtab d)
    name apart =
        c_string_apart e e' front mid (before ++ (d ++ after)) behind (strtab + value_of e d) same
          (ap (λ t. front ++ t)
            (ap (λ t. before ++ t) (sym (append_assoc d after behind))
              ∙ sym (append_assoc before (d ++ after) behind)))
          (omega (arith, whole, length-append before (d ++ after), length-append d after)) apart

-- When the dynamic section holds the entries `ds` and an end, and the names of the needed libraries
-- stand apart from the entries, removeNeeded succeeds: the entries that need one of the libraries are
-- gone, all others stay in their order, zeros follow them up to the old end, the rest of the file is
-- as before, and the file counts as changed exactly when it did or an entry is gone.
pub remove_needed_filter :
    (e : Elf) (lib : Name) (libs : List Name) (dynamic dynstr front behind : List ℕ)
    (ds : List (List ℕ))
    → section_header e dot_dynamic ≡ ok dynamic
    → section_header e dot_dynstr ≡ ok dynstr
    → offset_of e dynamic ≡ length front
    → e.contents ≡ front ++ (concat ds ++ behind)
    → IsEnd e behind
    → All (IsEntry e) ds
    → All (HasName e (length front) (length (concat ds)) (offset_of e dynstr)) ds
    → remove_needed (lib ∷ libs) e
      ≡ ok (
          state e
            (shrunk front (kept (needs e (offset_of e dynstr) (lib ∷ libs)) ds) ds behind)
            (any (needs e (offset_of e dynstr) (lib ∷ libs)) ds || e.changed))
unfolding remove_needed
remove_needed_filter e lib libs dynamic dynstr front behind ds dyn_ok str_ok place same null all
      named =
    let strtab = offset_of e dynstr in
    rw dyn_ok (
      rw str_ok (
        ap (λ n. compact (drops_needed strtab (lib ∷ libs)) n e) place
        ∙ compact_filter e (drops_needed strtab (lib ∷ libs)) front behind
            (needs e strtab (lib ∷ libs)) (HasName e (length front) (length (concat ds)) strtab)
            (length (concat ds)) ds same refl
            (λ before d after b known size whole.
              drops_needed_decides e (lib ∷ libs) strtab front (concat ds) behind before d after b
                same known size whole)
            null all named))
