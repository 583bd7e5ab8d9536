-- ===== src/Patchelf/Rewrite/Sort/Restoring.antt =====
-- The rounds of the loops of `sortShdrs` that put the indices back, and the loops.
use electrum_lightning_test.Base.{
  ℕ, suc, zero, ◌+◌, ◌≤◌, ◌<◌, ◌≡◌, refl, sym, ap, ◌∙◌, arith, Bool, true, false, List, [], length,
  get_or, set, length-set, Bool-cases, inl, inr,
}
use mathlib.Core.Path.{subst}
use native.Mathlib.Decide.{dec_lt}
use electrum_lightning_test.Base.Table.{get_or-set, get_or-set_ne}
use electrum_lightning_test.Patchelf.Elf.{Class, Field}
use electrum_lightning_test.Patchelf.Result.{Result, ok, elim_true, elim_false}
use electrum_lightning_test.Patchelf.File.{Elf}
use electrum_lightning_test.Patchelf.Section.{find_section3}
use electrum_lightning_test.Patchelf.Headers.{for_range, shdr_put}
use electrum_lightning_test.Patchelf.Rewrite.Sort.{NameMap, restore_target}
use electrum_lightning_test.Patchelf.Rewrite.Sort.Names.{
  with_table, shdr_at-entry, name_at-entry, find_by_name,
}
use electrum_lightning_test.Patchelf.Rewrite.Sort.Restore.{
  Ready, Restored, IsPut, stored, wanted, Restored-name, Restored-Named,
}

module _ (e : Elf) (f : Class → Field) (test : Elf → ℕ → Result Bool) (decides : List ℕ → Bool)
    (m : NameMap) where
  restore_skip :
      (start i : ℕ) (table : List (List ℕ))
      → Ready e f test decides m start table
      → i < length table
      → decides (get_or table i []) ≡ false
      → restore_target f test m i (with_table e table) ≡ ok (with_table e table)
  unfolding restore_target
  restore_skip start i table r lt skip =
      rw (r.tested table i lt) (elim_false (decides (get_or table i [])) _ _ skip)

  restore_put :
      (start i n : ℕ) (table : List (List ℕ))
      → Ready e f test decides m start table
      → i < length table
      → decides (get_or table i []) ≡ true
      → find_section3 (with_table e table) (wanted e f test decides m (get_or table i [])) ≡ ok n
      → restore_target f test m i (with_table e table)
        ≡ ok (with_table e (set table i (stored e f test decides m (get_or table i []) n)))
  unfolding restore_target shdr_put
  restore_put start i n table r lt take_it found = rw (r.tested table i lt) (
      elim_true (decides (get_or table i [])) _ _ take_it
      ∙ rw (name_at-entry e table i lt (r.named i lt), found, shdr_at-entry e table i lt) refl)

  restore_step :
      (i : ℕ) (table : List (List ℕ))
      → Ready e f test decides m i table
      → i < length table
      → (table' : List (List ℕ)) × (restore_target f test m i (with_table e table)
          ≡ ok (with_table e table'))
        × Restored e f test decides m 1 i table table'
  restore_step i table r lt = elim (Bool-cases (decides (get_or table i []))) [
    | inr skip ↦ (
      table,
      restore_skip i i table r lt skip,
      record {
        same_length = refl;
        outside = λ j o. refl;
        skipped = λ j a b d. refl;
        done = λ j a b d.
            (let same : i ≡ j = omega (arith, a, b) in
              cc (skip, d, ap (λ n. decides (get_or table n [])) same));
      },
    )
    | inl take_it ↦
        let (k, first, inside, name) = r.present i (omega arith) lt take_it in
        let (n, found, low, high, same) =
          find_by_name e table (wanted e f test decides m (get_or table i [])) k r.count r.named
            first inside name in
        let h' = stored e f test decides m (get_or table i []) n in
        (
          set table i h',
          restore_put i i n table r lt take_it found,
          record {
            same_length = length-set table i h';
            outside = λ j o. get_or-set_ne table i j h' [] (λ q. elim o [
              | inl before ↦ absurd (omega (arith, before, q))
              | inr behind ↦ absurd (omega (arith, behind, q))
            ]);
            skipped = λ j a b d.
                (let same_j : i ≡ j = omega (arith, a, b) in
                  cc (take_it, d, ap (λ x. decides (get_or table x [])) same_j));
            done = λ j a b d.
                subst
                  (λ x.
                    IsPut e f test decides m table (get_or table x [])
                      (get_or (set table i h') x []))
                  (let same_j : i ≡ j = omega (arith, a, b) in same_j)
                  (n, low, high, same, get_or-set table i h' [] lt);
          },
        )
  ]

  Ready-later :
      (i : ℕ) (table table' : List (List ℕ))
      → Ready e f test decides m i table
      → Restored e f test decides m 1 i table table'
      → Ready e f test decides m (i + 1) table'
  Ready-later i table table' r x = record {
    behind = r.behind;
    tested = r.tested;
    count = omega (arith, r.count, x.same_length);
    named = Restored-Named e f test decides m i 1 i table table' r x;
    present = λ j later inside d.
        let kept = x.outside j (inr (omega (arith, later))) in
        let (k, first, lt, name) =
          r.present j (omega (arith, later)) (omega (arith, inside, x.same_length))
            (sym (ap decides kept) ∙ d) in
        (
          k,
          first,
          omega (arith, lt, x.same_length),
          Restored-name e f test decides m i 1 i table table' k r x
              ∙ name
              ∙ ap (wanted e f test decides m) (sym kept),
        );
  }

  Restored-then :
      (k i : ℕ) (table table1 table' : List (List ℕ))
      → Ready e f test decides m i table
      → Restored e f test decides m 1 i table table1
      → Restored e f test decides m k (i + 1) table1 table'
      → Restored e f test decides m (suc k) i table table'
  Restored-then k i table table1 table' r x y = record {
    same_length = y.same_length ∙ x.same_length;
    outside = λ j o. elim o [
      | inl before ↦ y.outside j (inl (omega (arith, before))) ∙ x.outside j (inl before)
      | inr behind ↦
          y.outside j (inr (omega (arith, behind))) ∙ x.outside j (inr (omega (arith, behind)))
    ];
    skipped = λ j a b d. elim (dec_lt i j) [
      | yes later ↦
          let kept = x.outside j (inr (omega (arith, later))) in
          y.skipped j (omega (arith, later)) (omega (arith, b)) (ap decides kept ∙ d) ∙ kept
      | no this ↦ y.outside j (inl (omega (arith, this))) ∙ x.skipped j a (omega (arith, this)) d
    ];
    done = λ j a b d. elim (dec_lt i j) [
      | yes later ↦
          let kept = x.outside j (inr (omega (arith, later))) in
          let (n, low, high, name, same) =
            y.done j (omega (arith, later)) (omega (arith, b)) (ap decides kept ∙ d) in
          (
            n,
            low,
            omega (arith, high, x.same_length),
            sym (Restored-name e f test decides m i 1 i table table1 n r x)
                ∙ name
                ∙ ap (wanted e f test decides m) kept,
            same ∙ ap (λ h. stored e f test decides m h n) kept,
          )
      | no this ↦
          let (n, low, high, name, same) = x.done j a (omega (arith, this)) d in
          (n, low, high, name, y.outside j (inl (omega (arith, this))) ∙ same)
    ];
  }

  pub restore_loop :
      (k i : ℕ) (table : List (List ℕ))
      → Ready e f test decides m i table
      → i + k ≤ length table
      → (table' : List (List ℕ)) × (for_range (restore_target f test m) k i (with_table e table)
          ≡ ok (with_table e table'))
        × Restored e f test decides m k i table table'
  unfolding for_range
  restore_loop zero i table r fits = (
    table,
    refl,
    record {
      same_length = refl;
      outside = λ j o. refl;
      skipped = λ j a b d. refl;
      done = λ j a b d. absurd (omega arith);
    },
  )
  restore_loop (suc k) i table r fits =
      let (table1, step, x) = restore_step i table r (omega arith) in
      let (table', runs, y) =
        restore_loop k (i + 1) table1 (Ready-later i table table1 r x)
          (omega (arith, fits, x.same_length)) in
      (table', rw step runs, Restored-then k i table table1 table' r x y)
