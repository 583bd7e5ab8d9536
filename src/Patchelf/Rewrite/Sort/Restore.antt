-- ===== src/Patchelf/Rewrite/Sort/Restore.antt =====
-- What the loops of `sortShdrs` that put the indices back need and leave.
use electrum_lightning_test.Base.{
  ℕ, ◌+◌, ◌≤◌, ◌<◌, ◌≡◌, ap, ◌∙◌, ◌⊎◌, arith, Bool, true, false, List, [], length, get_or, drop,
  leb, Bool-cases, inl, inr,
}
use native.Mathlib.Decide.{dec_lt}
use electrum_lightning_test.Patchelf.Elf.{Class, Field, sh_name, e_shnum}
use electrum_lightning_test.Patchelf.Result.{Result, ok}
use electrum_lightning_test.Patchelf.File.{Elf, get, put, hdr_get}
use electrum_lightning_test.Patchelf.File.Fields.{get-put_ne, length-put}
use electrum_lightning_test.Patchelf.Section.{until_nul}
use electrum_lightning_test.Patchelf.Dynamic.{Name}
use electrum_lightning_test.Patchelf.Rewrite.Sort.{NameMap, map_at}
use electrum_lightning_test.Patchelf.Rewrite.Sort.Names.{
  with_table, Every, name_place, header_name, IsNamed,
}

module _ (e : Elf) (f : Class → Field) (test : Elf → ℕ → Result Bool) (decides : List ℕ → Bool)
    (m : NameMap) where
  -- What the map has for a header.
  abbrev pub wanted : List ℕ → Name
  wanted h = map_at m (header_name e h)

  abbrev pub stored : List ℕ → ℕ → List ℕ
  stored h n = put e.little_endian (f e.class_of) n h

  -- The field stands behind the name, the test depends on the header only, and there is a section with
  -- each name wanted from a header on.
  pub record Ready (start : ℕ) (table : List (List ℕ)) : Type 0 where
    pub behind : (sh_name e.class_of).at + (sh_name e.class_of).width ≤ (f e.class_of).at
    pub tested :
        (others : List (List ℕ)) (j : ℕ)
        → j < length others
        → test (with_table e others) j ≡ ok (decides (get_or others j []))
    pub count : hdr_get e e_shnum ≡ length table
    pub named : Every (IsNamed e) table
    pub present :
        (j : ℕ)
        → start ≤ j
        → j < length table
        → decides (get_or table j []) ≡ true
        → (k : ℕ) × (1 ≤ k)
          × (k < length table)
          × (header_name e (get_or table k []) ≡ wanted (get_or table j []))

  -- A header has got the index of a section with the name wanted.
  abbrev pub IsPut : (table : List (List ℕ)) → (h h' : List ℕ) → Type 0
  IsPut table h h' =
      (n : ℕ) × (1 ≤ n)
      × (n < length table)
      × (header_name e (get_or table n []) ≡ wanted h)
      × (h' ≡ stored h n)

  -- The `k` headers from `i` on that pass the test have got their indices, and all others are as before.
  pub record Restored (k i : ℕ) (table table' : List (List ℕ)) : Type 0 where
    pub same_length : length table' ≡ length table
    pub outside : (j : ℕ) → (j < i) ⊎ (i + k ≤ j) → get_or table' j [] ≡ get_or table j []
    pub skipped :
        (j : ℕ)
        → i ≤ j
        → j < i + k
        → decides (get_or table j []) ≡ false
        → get_or table' j [] ≡ get_or table j []
    pub done :
        (j : ℕ)
        → i ≤ j
        → j < i + k
        → decides (get_or table j []) ≡ true
        → IsPut table (get_or table j []) (get_or table' j [])

  -- A field that does not overlap the one that is put.
  pub Restored-field :
      (k i : ℕ) (table table' : List (List ℕ)) (j : ℕ) (g : Field)
      → (g.at + g.width ≤ (f e.class_of).at) ⊎ ((f e.class_of).at + (f e.class_of).width ≤ g.at)
      → Restored k i table table'
      → get e.little_endian g (get_or table' j []) ≡ get e.little_endian g (get_or table j [])
  Restored-field k i table table' j g apart x = elim (dec_lt j i) [
    | yes before ↦ ap (get e.little_endian g) (x.outside j (inl before))
    | no later ↦ elim (dec_lt j (i + k)) [
      | no behind ↦ ap (get e.little_endian g) (x.outside j (inr (omega (arith, behind))))
      | yes within ↦ elim (Bool-cases (decides (get_or table j []))) [
        | inr skip ↦ ap (get e.little_endian g) (x.skipped j (omega (arith, later)) within skip)
        | inl take_it ↦
            let (n, a, b, c, same) = x.done j (omega (arith, later)) within take_it in
            ap (get e.little_endian g) same
            ∙ get-put_ne e.little_endian (f e.class_of) g n (get_or table j []) apart
      ]
    ]
  ]

  -- A header that does not pass the test is as before.
  pub Restored-skipped :
      (k i : ℕ) (table table' : List (List ℕ)) (j : ℕ)
      → decides (get_or table j []) ≡ false
      → Restored k i table table'
      → get_or table' j [] ≡ get_or table j []
  Restored-skipped k i table table' j skip x = elim (dec_lt j i) [
    | yes before ↦ x.outside j (inl before)
    | no later ↦ elim (dec_lt j (i + k)) [
      | no behind ↦ x.outside j (inr (omega (arith, behind)))
      | yes within ↦ x.skipped j (omega (arith, later)) within skip
    ]
  ]

  pub Restored-length :
      (k i : ℕ) (table table' : List (List ℕ)) (j : ℕ)
      → Restored k i table table'
      → length (get_or table' j []) ≡ length (get_or table j [])
  Restored-length k i table table' j x = elim (dec_lt j i) [
    | yes before ↦ ap length (x.outside j (inl before))
    | no later ↦ elim (dec_lt j (i + k)) [
      | no behind ↦ ap length (x.outside j (inr (omega (arith, behind))))
      | yes within ↦ elim (Bool-cases (decides (get_or table j []))) [
        | inr skip ↦ ap length (x.skipped j (omega (arith, later)) within skip)
        | inl take_it ↦
            let (n, a, b, c, same) = x.done j (omega (arith, later)) within take_it in
            ap length same ∙ length-put e.little_endian (f e.class_of) n (get_or table j [])
      ]
    ]
  ]

  pub Restored-place :
      (start k i : ℕ) (table table' : List (List ℕ)) (j : ℕ)
      → Ready start table
      → Restored k i table table'
      → name_place e (get_or table' j []) ≡ name_place e (get_or table j [])
  Restored-place start k i table table' j r x =
      Restored-field k i table table' j (sh_name e.class_of) (inl r.behind) x

  pub Restored-name :
      (start k i : ℕ) (table table' : List (List ℕ)) (j : ℕ)
      → Ready start table
      → Restored k i table table'
      → header_name e (get_or table' j []) ≡ header_name e (get_or table j [])
  Restored-name start k i table table' j r x =
      ap (λ p. until_nul (drop p e.section_names)) (Restored-place start k i table table' j r x)

  pub Restored-Named :
      (start k i : ℕ) (table table' : List (List ℕ))
      → Ready start table
      → Restored k i table table'
      → Every (IsNamed e) table'
  Restored-Named start k i table table' r x j lt =
      ap (λ p. leb p (length e.section_names)) (Restored-place start k i table table' j r x)
      ∙ r.named j (omega (arith, lt, x.same_length))
