-- ===== src/Patchelf/Options.antt =====
-- The loop over the options in `main` of bitcoin-core/patchelf-0.9/src/patchelf.cc. `atoi` is the C
-- library's. Help and version texts are output.
pub mod Laws
use electrum_lightning_test.Base.{
  ℕ, suc, zero, Bool, true, false, List, [], ◌∷◌, ◌||◌, Option, none, some, length, if◌then◌else◌,
}
use electrum_lightning_test.Base.Int.{ℤ, pos, negsuc}
use electrum_lightning_test.Patchelf.Section.{string_eq, insert}

abbrev pub Arg : Type 0
Arg = List ℕ

-- The options without an argument, and those with one.
pub data Flag : Type 0 where
  print_interpreter print_soname remove_rpath shrink_rpath print_rpath force_rpath print_needed
        debug no_default_lib :
      Flag

pub data Valued : Type 0 where
  interpreter page_size soname rpath add_needed remove_needed : Valued

-- What an argument is, by its text.
pub data Keyword : Type 0 where
  flag : Flag → Keyword
  valued : Valued → Keyword
  replace_needed help version : Keyword

pub data Message : Type 0 where
  missing_argument missing_arguments invalid_page_size missing_filename : Message

-- The variables that the options set. `given` holds the flags, the last one first; an interpreter
-- that is `[]` is not set; a set holds the libraries, the last one first.
pub record Options : Type 0 where
  pub given : List Flag
  pub new_interpreter : Arg
  pub page : ℕ
  pub new_soname : Option Arg
  pub new_rpath : Option Arg
  pub needed_to_add : List Arg
  pub needed_to_remove : List Arg
  pub needed_to_replace : List (Arg × Arg)

pub data Outcome : Type 0 where
  patch : Options → Arg → Outcome
  show_help show_version : Outcome
  refused : Message → Outcome

abbrev pub flag_text : Flag → Arg
flag_text print_interpreter =
    b'-' ∷ b'-' ∷ b'p' ∷ b'r' ∷ b'i' ∷ b'n' ∷ b't' ∷ b'-' ∷ b'i' ∷ b'n' ∷ b't' ∷ b'e' ∷ b'r' ∷ b'p'
    ∷ b'r' ∷ b'e' ∷ b't' ∷ b'e' ∷ b'r' ∷ []
flag_text print_soname =
    b'-' ∷ b'-' ∷ b'p' ∷ b'r' ∷ b'i' ∷ b'n' ∷ b't' ∷ b'-' ∷ b's' ∷ b'o' ∷ b'n' ∷ b'a' ∷ b'm' ∷ b'e'
    ∷ []
flag_text remove_rpath =
    b'-' ∷ b'-' ∷ b'r' ∷ b'e' ∷ b'm' ∷ b'o' ∷ b'v' ∷ b'e' ∷ b'-' ∷ b'r' ∷ b'p' ∷ b'a' ∷ b't' ∷ b'h'
    ∷ []
flag_text shrink_rpath =
    b'-' ∷ b'-' ∷ b's' ∷ b'h' ∷ b'r' ∷ b'i' ∷ b'n' ∷ b'k' ∷ b'-' ∷ b'r' ∷ b'p' ∷ b'a' ∷ b't' ∷ b'h'
    ∷ []
flag_text print_rpath =
    b'-' ∷ b'-' ∷ b'p' ∷ b'r' ∷ b'i' ∷ b'n' ∷ b't' ∷ b'-' ∷ b'r' ∷ b'p' ∷ b'a' ∷ b't' ∷ b'h' ∷ []
flag_text force_rpath =
    b'-' ∷ b'-' ∷ b'f' ∷ b'o' ∷ b'r' ∷ b'c' ∷ b'e' ∷ b'-' ∷ b'r' ∷ b'p' ∷ b'a' ∷ b't' ∷ b'h' ∷ []
flag_text print_needed =
    b'-' ∷ b'-' ∷ b'p' ∷ b'r' ∷ b'i' ∷ b'n' ∷ b't' ∷ b'-' ∷ b'n' ∷ b'e' ∷ b'e' ∷ b'd' ∷ b'e' ∷ b'd'
    ∷ []
flag_text debug = b'-' ∷ b'-' ∷ b'd' ∷ b'e' ∷ b'b' ∷ b'u' ∷ b'g' ∷ []
flag_text no_default_lib =
    b'-' ∷ b'-' ∷ b'n' ∷ b'o' ∷ b'-' ∷ b'd' ∷ b'e' ∷ b'f' ∷ b'a' ∷ b'u' ∷ b'l' ∷ b't' ∷ b'-' ∷ b'l'
    ∷ b'i' ∷ b'b' ∷ []

abbrev pub valued_text : Valued → Arg
valued_text interpreter =
    b'-' ∷ b'-' ∷ b's' ∷ b'e' ∷ b't' ∷ b'-' ∷ b'i' ∷ b'n' ∷ b't' ∷ b'e' ∷ b'r' ∷ b'p' ∷ b'r' ∷ b'e'
    ∷ b't' ∷ b'e' ∷ b'r' ∷ []
valued_text page_size =
    b'-' ∷ b'-' ∷ b'p' ∷ b'a' ∷ b'g' ∷ b'e' ∷ b'-' ∷ b's' ∷ b'i' ∷ b'z' ∷ b'e' ∷ []
valued_text soname =
    b'-' ∷ b'-' ∷ b's' ∷ b'e' ∷ b't' ∷ b'-' ∷ b's' ∷ b'o' ∷ b'n' ∷ b'a' ∷ b'm' ∷ b'e' ∷ []
valued_text rpath = b'-' ∷ b'-' ∷ b's' ∷ b'e' ∷ b't' ∷ b'-' ∷ b'r' ∷ b'p' ∷ b'a' ∷ b't' ∷ b'h' ∷ []
valued_text add_needed =
    b'-' ∷ b'-' ∷ b'a' ∷ b'd' ∷ b'd' ∷ b'-' ∷ b'n' ∷ b'e' ∷ b'e' ∷ b'd' ∷ b'e' ∷ b'd' ∷ []
valued_text remove_needed =
    b'-' ∷ b'-' ∷ b'r' ∷ b'e' ∷ b'm' ∷ b'o' ∷ b'v' ∷ b'e' ∷ b'-' ∷ b'n' ∷ b'e' ∷ b'e' ∷ b'd' ∷ b'e'
    ∷ b'd' ∷ []

abbrev pub replace_text : Arg
replace_text =
    b'-' ∷ b'-' ∷ b'r' ∷ b'e' ∷ b'p' ∷ b'l' ∷ b'a' ∷ b'c' ∷ b'e' ∷ b'-' ∷ b'n' ∷ b'e' ∷ b'e' ∷ b'd'
    ∷ b'e' ∷ b'd' ∷ []

-- The chain of comparisons, in the order of the code.
unfoldable pub keyword : Arg → Option Keyword
keyword arg =
    if string_eq arg (valued_text interpreter)
      || string_eq arg (
          b'-' ∷ b'-' ∷ b'i' ∷ b'n' ∷ b't' ∷ b'e' ∷ b'r' ∷ b'p' ∷ b'r' ∷ b'e' ∷ b't' ∷ b'e' ∷ b'r'
          ∷ [])
    then some (valued interpreter)
    else if string_eq arg (valued_text page_size)
    then some (valued page_size)
    else if string_eq arg (flag_text print_interpreter)
    then some (flag print_interpreter)
    else if string_eq arg (flag_text print_soname)
    then some (flag print_soname)
    else if string_eq arg (valued_text soname)
    then some (valued soname)
    else if string_eq arg (flag_text remove_rpath)
    then some (flag remove_rpath)
    else if string_eq arg (flag_text shrink_rpath)
    then some (flag shrink_rpath)
    else if string_eq arg (valued_text rpath)
    then some (valued rpath)
    else if string_eq arg (flag_text print_rpath)
    then some (flag print_rpath)
    else if string_eq arg (flag_text force_rpath)
    then some (flag force_rpath)
    else if string_eq arg (flag_text print_needed)
    then some (flag print_needed)
    else if string_eq arg (valued_text add_needed)
    then some (valued add_needed)
    else if string_eq arg (valued_text remove_needed)
    then some (valued remove_needed)
    else if string_eq arg replace_text
    then some replace_needed
    else if string_eq arg (flag_text debug)
    then some (flag debug)
    else if string_eq arg (flag_text no_default_lib)
    then some (flag no_default_lib)
    else if string_eq arg (b'-' ∷ b'-' ∷ b'h' ∷ b'e' ∷ b'l' ∷ b'p' ∷ [])
        || string_eq arg (b'-' ∷ b'h' ∷ [])
    then some help
    else if string_eq arg (b'-' ∷ b'-' ∷ b'v' ∷ b'e' ∷ b'r' ∷ b's' ∷ b'i' ∷ b'o' ∷ b'n' ∷ [])
    then some version
    else none

abbrev pub set_flag : Flag → Options → Options
set_flag f o = record o { given = f ∷ o.given }

-- `pageSize = atoi(argv[i]); if (pageSize <= 0) error(…);`
abbrev pub set_page : ℤ → Options → Option Options
set_page (pos zero) o = none
set_page (pos (suc n)) o = some (record o { page = suc n })
set_page (negsuc n) o = none

-- The option with its argument; `none` is an invalid page size.
abbrev pub set_value : (Arg → ℤ) → Valued → Arg → Options → Option Options
set_value atoi interpreter v o = some (record o { new_interpreter = v })
set_value atoi page_size v o = set_page (atoi v) o
set_value atoi soname v o = some (record o { new_soname = some v })
set_value atoi rpath v o = some (record o { new_rpath = some v })
set_value atoi add_needed v o = some (record o { needed_to_add = v ∷ o.needed_to_add })
set_value atoi remove_needed v o = some (record o { needed_to_remove = v ∷ o.needed_to_remove })

abbrev pub set_replacement : Arg → Arg → Options → Options
set_replacement from to o = record o { needed_to_replace = insert o.needed_to_replace from to }

-- A round of the loop ends it, or goes on with the arguments left.
pub data Step : Type 0 where
  done : Outcome → Step
  more : Options → List Arg → Step

abbrev pub with_value_step : Option Options → List Arg → Step
with_value_step none rest = done (refused invalid_page_size)
with_value_step (some o) rest = more o rest

unfoldable pub option_step : (Arg → ℤ) → Options → Arg → List Arg → Option Keyword → Step
option_step atoi o arg rest none = done (patch o arg)
option_step atoi o arg rest (some help) = done show_help
option_step atoi o arg rest (some version) = done show_version
option_step atoi o arg rest (some (flag f)) = more (set_flag f o) rest
option_step atoi o arg [] (some (valued v)) = done (refused missing_argument)
option_step atoi o arg (s ∷ rest) (some (valued v)) = with_value_step (set_value atoi v s o) rest
option_step atoi o arg (s ∷ t ∷ rest) (some replace_needed) = more (set_replacement s t o) rest
option_step atoi o arg [] (some replace_needed) = done (refused missing_arguments)
option_step atoi o arg (s ∷ []) (some replace_needed) = done (refused missing_arguments)

-- The loop, with the arguments left. Every round takes one, so their number bounds the rounds.
unfoldable pub options_loop : (Arg → ℤ) → ℕ → Options → List Arg → Outcome
options_loop atoi zero o args = refused missing_filename
options_loop atoi (suc fuel) o [] = refused missing_filename
options_loop atoi (suc fuel) o (arg ∷ rest) = elim (option_step atoi o arg rest (keyword arg)) [
  | done outcome ↦ outcome
  | more o' left ↦ options_loop atoi fuel o' left
]

-- `main` up to the call of `patchElf`, with the page size of the build; `args` leaves out `argv[0]`.
unfoldable pub main_options : (Arg → ℤ) → (page : ℕ) → List Arg → Outcome
main_options atoi page [] = show_help
main_options atoi page (arg ∷ rest) =
    options_loop atoi (suc (length (arg ∷ rest)))
      (record {
        given = [];
        new_interpreter = [];
        page = page;
        new_soname = none;
        new_rpath = none;
        needed_to_add = [];
        needed_to_remove = [];
        needed_to_replace = [];
      })
      (arg ∷ rest)
