-- ===== src/Patchelf/Options/Laws.antt =====
-- What the option loop makes of a list of options.
use electrum_lightning_test.Base.{
  ℕ, suc, zero, ◌<◌, ◌≡◌, refl, ap, ◌∙◌, arith, List, [], ◌∷◌, ◌++◌, length, Option, none, some,
}
use electrum_lightning_test.Base.Int.{ℤ}
use electrum_lightning_test.Patchelf.Section.{string_eq}
use electrum_lightning_test.Patchelf.Options.{
  Arg, Flag, Valued, Keyword, flag, valued, replace_needed, Options, patch, flag_text, valued_text,
  replace_text, keyword, print_interpreter, print_soname, remove_rpath, shrink_rpath, print_rpath,
  force_rpath, print_needed, debug, no_default_lib, interpreter, page_size, soname, rpath,
  add_needed, remove_needed, set_flag, set_value, set_replacement, options_loop, option_step, done,
  more, with_value_step,
}

-- A use of an option, with its arguments.
pub data Use : Type 0 where
  plain : Flag → Use
  with_value : Valued → Arg → Use
  replace : (from to : Arg) → Use

-- The arguments that a use is written with, and what it sets.
abbrev pub written : Use → List Arg
written (plain f) = flag_text f ∷ []
written (with_value v s) = valued_text v ∷ s ∷ []
written (replace from to) = replace_text ∷ from ∷ to ∷ []

abbrev pub effect : (Arg → ℤ) → Use → Options → Option Options
effect atoi (plain f) o = some (set_flag f o)
effect atoi (with_value v s) o = set_value atoi v s o
effect atoi (replace from to) o = some (set_replacement from to o)

abbrev pub all_written : List Use → List Arg
all_written [] = []
all_written (u ∷ us) = written u ++ all_written us

abbrev pub all_effects : (Arg → ℤ) → List Use → Options → Option Options
all_effects atoi [] o = some o
all_effects atoi (u ∷ us) o = elim (effect atoi u o) [
  | none ↦ none
  | some o' ↦ all_effects atoi us o'
]

keyword-flag_text : (f : Flag) → keyword (flag_text f) ≡ some (flag f)
unfolding keyword string_eq
keyword-flag_text print_interpreter = refl
keyword-flag_text print_soname = refl
keyword-flag_text remove_rpath = refl
keyword-flag_text shrink_rpath = refl
keyword-flag_text print_rpath = refl
keyword-flag_text force_rpath = refl
keyword-flag_text print_needed = refl
keyword-flag_text debug = refl
keyword-flag_text no_default_lib = refl

keyword-valued_text : (v : Valued) → keyword (valued_text v) ≡ some (valued v)
unfolding keyword string_eq
keyword-valued_text interpreter = refl
keyword-valued_text page_size = refl
keyword-valued_text soname = refl
keyword-valued_text rpath = refl
keyword-valued_text add_needed = refl
keyword-valued_text remove_needed = refl

keyword-replace_text : keyword replace_text ≡ some replace_needed
unfolding keyword string_eq
keyword-replace_text = refl

some-inj : {a b : Options} → some a ≡ some b → a ≡ b
some-inj h = cc

round :
    (atoi : Arg → ℤ) (fuel : ℕ) (o : Options) (arg : Arg) (rest : List Arg) (r : Option Keyword)
    → keyword arg ≡ r
    → options_loop atoi (suc fuel) o (arg ∷ rest) ≡ (elim (option_step atoi o arg rest r) [
      | done outcome ↦ outcome
      | more o' left ↦ options_loop atoi fuel o' left
    ])
unfolding options_loop
round atoi fuel o arg rest r e =
    ap
      (λ k. elim (option_step atoi o arg rest k) [
        | done outcome ↦ outcome
        | more o' left ↦ options_loop atoi fuel o' left
      ])
      e

none_effect :
    (atoi : Arg → ℤ) (us : List Use) {o' : Options} (r : Option Options)
    → (elim r [ none ↦ none | some o ↦ all_effects atoi us o ]) ≡ some o'
    → (o : Options) × (r ≡ some o) × (all_effects atoi us o ≡ some o')
none_effect atoi us none h = cc
none_effect atoi us (some o) h = (o, refl, h)

-- Options that are written one after the other, whatever their order and number, take effect one after
-- the other, and the first argument behind them that is no option is the file to patch. The page
-- sizes among them are to be valid.
pub options_loop-all_written :
    (atoi : Arg → ℤ) (us : List Use) (fuel : ℕ) (o o' : Options) (file : Arg) (rest : List Arg)
    → all_effects atoi us o ≡ some o'
    → keyword file ≡ none
    → length (all_written us) < fuel
    → options_loop atoi fuel o (all_written us ++ file ∷ rest) ≡ patch o' file
unfolding option_step
options_loop-all_written atoi us zero o o' file rest h k lt = absurd (omega arith)
options_loop-all_written atoi [] (suc fuel) o o' file rest h k lt =
    round atoi fuel o file rest none k ∙ ap (λ p. patch p file) (some-inj h)
options_loop-all_written atoi (plain f ∷ us) (suc fuel) o o' file rest h k lt =
    round atoi fuel o (flag_text f) (all_written us ++ file ∷ rest) (some (flag f))
      (keyword-flag_text f)
    ∙ options_loop-all_written atoi us fuel (set_flag f o) o' file rest h k (omega arith)
options_loop-all_written atoi (replace from to ∷ us) (suc fuel) o o' file rest h k lt =
    round atoi fuel o replace_text (from ∷ to ∷ all_written us ++ file ∷ rest) (some replace_needed)
      keyword-replace_text
    ∙ options_loop-all_written atoi us fuel (set_replacement from to o) o' file rest h k
        (omega arith)
options_loop-all_written atoi (with_value v s ∷ us) (suc fuel) o o' file rest h k lt =
    let (o1, set_ok, later) = none_effect atoi us (set_value atoi v s o) h in
    round atoi fuel o (valued_text v) (s ∷ all_written us ++ file ∷ rest) (some (valued v))
      (keyword-valued_text v)
    ∙ ap
        (λ r. elim (with_value_step r (all_written us ++ file ∷ rest)) [
          | done outcome ↦ outcome
          | more o' left ↦ options_loop atoi fuel o' left
        ])
        set_ok
    ∙ options_loop-all_written atoi us fuel o1 o' file rest later k (omega arith)
