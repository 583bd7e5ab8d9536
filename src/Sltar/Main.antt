-- ===== src/Sltar/Main.antt =====
-- `main` of bitcoin-core/sltar.c. The arguments are `argv` with the program's name first.
use electrum_lightning_test.Base.{
  ℕ, Bool, true, false, Option, none, some, List, [], ◌∷◌, ◌++◌, ◌==◌, if◌then◌else◌,
}
use electrum_lightning_test.Sltar.Create.{FileName, Host, c, ◌>>=◌}
use electrum_lightning_test.Sltar.Extract.{Env, Machine, Handler, extract, list, tar}
use mathlib.Core.List.{reverse_aux}

-- `created` has the exit status (true for `EXIT_SUCCESS`) and the output. `usage` exits with
-- `EXIT_FAILURE`; `crashed` is the null pointer of `c_file`; `stuck` would be fuel that ran out.
pub data Outcome : Type 0 where
  usage crashed stuck : Outcome
  created : Bool → List ℕ → Outcome
  read_out : Machine → Outcome

abbrev pub joined : List ℕ → Option (Bool × List ℕ) → Option (Bool × List ℕ)
joined first none = none
joined first (some (ok, later)) = some (ok, first ++ later)

-- `while(argc-- >= 3) if(c(argv[argc])) return EXIT_FAILURE;` on the paths, the last one first.
unfoldable pub create_all : Host → List FileName → Option (Bool × List ℕ)
create_all host [] = some (true, [])
create_all host (p ∷ paths) = do
  (ok, out) ← c host p
  elim ok [ false ↦ some (false, out) | true ↦ joined out (create_all host paths) ]

unfoldable pub create : Host → List FileName → Outcome
create host paths = elim (create_all host (reverse_aux paths [])) [
  | none ↦ crashed
  | some (ok, out) ↦ created ok out
]

unfoldable pub run_tar : Env → Handler → Machine → Outcome
run_tar env fn m = elim (tar env fn m) [ none ↦ stuck | some m' ↦ read_out m' ]

-- `switch(argv[1][0])`; the cases fall through to `usage()` when there are further arguments.
unfoldable pub dispatch : Host → Env → Machine → ℕ → List FileName → Outcome
dispatch host env m cmd [] =
    if cmd == b'x' then run_tar env extract m else if cmd == b't' then run_tar env list m else usage
dispatch host env m cmd (p ∷ paths) = if cmd == b'c' then create host (p ∷ paths) else usage

unfoldable pub main : Host → Env → Machine → List (List ℕ) → Outcome
main host env m [] = usage
main host env m (program ∷ []) = usage
main host env m (program ∷ [] ∷ args) = usage
main host env m (program ∷ (cmd ∷ []) ∷ args) = dispatch host env m cmd args
main host env m (program ∷ (cmd ∷ c' ∷ cs) ∷ args) = usage
