-- ===== src/Patchelf/Needed/Rest.antt =====
-- What `printNeededLibs` prints once `removeNeeded` has run.
use electrum_lightning_test.Base.{
  ℕ, ◌+◌, ◌-◌, ◌≤◌, ◌<◌, ◌≡◌, refl, sym, ap, ◌∙◌, arith, Bool, ◌==◌, ◌||◌, List, [], ◌∷◌, ◌++◌,
  length, length-append, length-replicate, drop, All, Bool-cases, inl, inr, replicate,
  if◌then◌else◌,
}
use mathlib.Core.List.{append_assoc}
use mathlib.Core.Path.{subst}
use electrum_lightning_test.Patchelf.Elf.{ehdr, sum}
use electrum_lightning_test.Patchelf.Elf.Tag.{dt_needed}
use electrum_lightning_test.Patchelf.Result.{ok}
use electrum_lightning_test.Patchelf.File.{Elf}
use electrum_lightning_test.Patchelf.Section.{until_nul}
use electrum_lightning_test.Patchelf.Dynamic.{
  Name, dot_dynamic, dot_dynstr, section_header, contains,
}
use electrum_lightning_test.Patchelf.Dynamic.Table.{concat, tag_of, IsEntry, IsEnd}
use electrum_lightning_test.Patchelf.Dynamic.Strings.{IsApart, until_nul_apart}
use electrum_lightning_test.Patchelf.Needed.{remove_needed, print_needed_libs, offset_of}
use electrum_lightning_test.Patchelf.Needed.Compact.{kept, any, state}
use electrum_lightning_test.Patchelf.Needed.Remove.{
  value_of, needed_entry_name, needs, shrunk, HasName, remove_needed_filter,
}
use electrum_lightning_test.Patchelf.Needed.Print.{needed_names, HasEnd, print-needed_names}
use electrum_lightning_test.Patchelf.Needed.Moved.{
  section_header-state, shnum-front, zeros-IsEnd, All-kept, gap_size, length-concat-kept,
}

-- The names that are not among the libraries.
unfoldable pub outside : List Name → List Name → List Name
outside libs [] = []
outside libs (n ∷ ns) = let rest = outside libs ns in if contains libs n then rest else n ∷ rest

needed_names-kept :
    (e : Elf) (strtab : ℕ) (libs : List Name) (ds : List (List ℕ))
    → needed_names e strtab (kept (needs e strtab libs) ds)
      ≡ outside libs (needed_names e strtab ds)
unfolding outside
needed_names-kept e strtab libs [] = refl
needed_names-kept e strtab libs (d ∷ ds) = elim (Bool-cases (tag_of e d == dt_needed)) [
  | inr other ↦ rw (other, other) (needed_names-kept e strtab libs ds)
  | inl needed ↦ elim (Bool-cases (contains libs (needed_entry_name e strtab d))) [
    | inl gone ↦ rw (needed, gone) (needed_names-kept e strtab libs ds)
    | inr stays ↦
        rw (needed, stays, needed)
          (ap (λ ns. needed_entry_name e strtab d ∷ ns) (needed_names-kept e strtab libs ds))
  ]
]

module _ (e : Elf) (front mid mid' behind : List ℕ) (strtab : ℕ) (b : Bool) where
  -- The object with as many other bytes in place of the entries.
  abbrev after : Elf
  after = state e (front ++ (mid' ++ behind)) b

  same_name :
      (d : List ℕ)
      → e.contents ≡ front ++ (mid ++ behind)
      → length mid' ≡ length mid
      → IsApart e.contents (length front) (length mid) (strtab + value_of e d)
      → needed_entry_name after strtab d ≡ needed_entry_name e strtab d
  same_name d same long apart =
      until_nul_apart front mid mid' behind (strtab + value_of e d) long (rw same at apart)
      ∙ ap (λ c. until_nul (drop (strtab + value_of e d) c)) (sym same)

  same_end :
      (d : List ℕ)
      → e.contents ≡ front ++ (mid ++ behind)
      → length mid' ≡ length mid
      → HasName e (length front) (length mid) strtab d
      → HasEnd after strtab d
  same_end d same long named needed =
      let place = strtab + value_of e d in
      let whole : length (front ++ (mid' ++ behind)) ≡ length e.contents = omega (
        arith,
        ap length same,
        long,
        length-append front (mid ++ behind),
        length-append front (mid' ++ behind),
        length-append mid behind,
        length-append mid' behind,
      ) in
      let below : length front ≤ length e.contents =
        omega (arith, ap length same, length-append front (mid ++ behind)) in
      rw (same_name d same long (named needed), whole)
        (elim (named needed) [
          | inl before ↦
              (let lt : place + length (until_nul (drop place e.contents)) < length e.contents =
                  omega (arith, before, below) in
                lt)
          | inr beyond ↦ beyond.1
        ])

  same_ends :
      (ds : List (List ℕ))
      → e.contents ≡ front ++ (mid ++ behind)
      → length mid' ≡ length mid
      → All (HasName e (length front) (length mid) strtab) ds
      → All (HasEnd after strtab) ds
  same_ends [] same long named = tt
  same_ends (d ∷ ds) same long named =
      (same_end d same long named.0, same_ends ds same long named.1)

  same_names :
      (ds : List (List ℕ))
      → e.contents ≡ front ++ (mid ++ behind)
      → length mid' ≡ length mid
      → All (HasName e (length front) (length mid) strtab) ds
      → needed_names after strtab ds ≡ needed_names e strtab ds
  same_names [] same long named = refl
  same_names (d ∷ ds) same long named = elim (Bool-cases (tag_of e d == dt_needed)) [
    | inl needed ↦
        rw (needed, same_name d same long (named.0 needed))
          (ap (λ ns. needed_entry_name e strtab d ∷ ns) (same_names ds same long named.1))
    | inr other ↦ rw other (same_names ds same long named.1)
  ]

-- Under the conditions of the filter, with the dynamic section behind the ELF header, removeNeeded
-- succeeds, and printNeededLibs then prints the names that it printed before without those that are
-- among the libraries, in the same order.
pub print-remove_needed :
    (e : Elf) (lib : Name) (libs : List Name) (dynamic dynstr front behind : List ℕ)
    (ds : List (List ℕ))
    → section_header e dot_dynamic ≡ ok dynamic
    → section_header e dot_dynstr ≡ ok dynstr
    → offset_of e dynamic ≡ length front
    → sum (ehdr e.class_of) ≤ length front
    → e.contents ≡ front ++ (concat ds ++ behind)
    → IsEnd e behind
    → All (IsEntry e) ds
    → All (HasName e (length front) (length (concat ds)) (offset_of e dynstr)) ds
    → (names : List Name) × (e' : Elf) × (print_needed_libs e ≡ ok names)
      × (remove_needed (lib ∷ libs) e ≡ ok e')
      × (print_needed_libs e' ≡ ok (outside (lib ∷ libs) names))
print-remove_needed e lib libs dynamic dynstr front behind ds dyn_ok str_ok place far same null all
      named =
    (
      needed_names e strtab ds,
      e',
      print-needed_names e dynamic dynstr front behind ds dyn_ok str_ok place same null all (
          subst (λ c. All (HasEnd (record e { contents = c }) strtab) ds) (sym same)
            (same_ends e front mid mid behind strtab e.changed ds same refl named)),
      remove_needed_filter e lib libs dynamic dynstr front behind ds dyn_ok str_ok place same null
          all named,
      print-needed_names e' dynamic dynstr front (zeros ++ behind) ks (found dot_dynamic ∙ dyn_ok)
            (found dot_dynstr ∙ str_ok) place refl
            (zeros-IsEnd e gap (length ds - length ks) behind (gap_size e dec ds all) null)
            (All-kept (IsEntry e) dec ds all)
            (subst (λ c. All (HasEnd (state e c changed) strtab) ks) moved
              (same_ends e front mid (concat ks ++ zeros) behind strtab changed ks same long
                (All-kept (HasName e (length front) (length mid) strtab) dec ds named)))
          ∙ ap ok (
              ap (λ c. needed_names (state e c changed) strtab ks) (sym moved)
              ∙ same_names e front mid (concat ks ++ zeros) behind strtab changed ks same long
                  (All-kept (HasName e (length front) (length mid) strtab) dec ds named)
              ∙ needed_names-kept e strtab (lib ∷ libs) ds),
    )
  where
    strtab : ℕ
    strtab = offset_of e dynstr

    dec : List ℕ → Bool
    dec = needs e strtab (lib ∷ libs)

    ks : List (List ℕ)
    ks = kept dec ds

    mid : List ℕ
    mid = concat ds

    gap : ℕ
    gap = length mid - length (concat ks)

    zeros : List ℕ
    zeros = replicate gap 0

    changed : Bool
    changed = any dec ds || e.changed

    e' : Elf
    e' = state e (shrunk front ks ds behind) changed

    found : (name : Name) → section_header e' name ≡ section_header e name
    found name = section_header-state e (shrunk front ks ds behind) changed name (
        shnum-front e front (concat ds ++ behind) (concat ks ++ (zeros ++ behind)) changed same far)

    fewer : length (concat ks) ≤ length mid
    fewer = length-concat-kept e dec ds

    long : length (concat ks ++ zeros) ≡ length mid
    long = omega (arith, fewer, length-append (concat ks) zeros, length-replicate {A = ℕ} gap 0)

    moved : front ++ ((concat ks ++ zeros) ++ behind) ≡ shrunk front ks ds behind
    moved = ap (λ t. front ++ t) (append_assoc (concat ks) zeros behind)
