-- ===== src/Patchelf/Result.antt =====
-- How a call of bitcoin-core/patchelf-0.9/src/patchelf.cc ends: with a value, by `error(msg)`, by a
-- failed `assert`, or with a `fault`: an access outside of an object, of which C++ says nothing, or a
-- read of bytes that the program never stored, whose values nothing determines.
use mathlib.Core.Path.{subst}
use electrum_lightning_test.Base.{◌≡◌, refl, Bool, true, false, List, ℕ}

-- The messages of `error`. With `errno` set, `perror` prints its text behind them.
pub data Error : Type 0 where
  maximum_file_size_exceeded missing_elf_header not_an_elf_executable wrong_elf_type : Error
  missing_program_headers missing_section_headers program_headers_have_wrong_size : Error
  wrong_elf_class no_string_table no_jmprel_section unknown_elf_type address_space_underrun : Error
  cannot_find_section : List ℕ → Error

pub data Result {ℓ} (A : Type ℓ) : Type ℓ where
  ok : A → Result A
  failed : Error → Result A
  aborted : Result A
  fault : Result A

infixl 5 ◌>>=◌ ◌>>◌
abbrev pub ◌>>=◌ {ℓ κ} : {A : Type ℓ} {B : Type κ} → Result A → (A → Result B) → Result B
fault >>= k = fault
aborted >>= k = aborted
failed m >>= k = failed m
ok x >>= k = k x

abbrev pub ◌>>◌ {ℓ} : {B : Type ℓ} → Result (Unit {0}) → Result B → Result B
check >> rest = check >>= λ _. rest

-- `if (!b) error(m);`
abbrev pub require : Bool → Error → Result (Unit {0})
require true m = ok tt
require false m = failed m

-- `assert(b)`
abbrev pub assert : Bool → Result (Unit {0})
assert true = ok tt
assert false = aborted

-- An access that stays in its object exactly when `b`.
abbrev pub within : Bool → Result (Unit {0})
within true = ok tt
within false = fault

-- A chain that ends well had a first step that ended well.
pub >>=-eq-ok {ℓ κ} :
    {A : Type ℓ} {B : Type κ} {v : B} (r : Result A) (k : A → Result B)
    → (r >>= k) ≡ ok v
    → (x : A) × (r ≡ ok x) × (k x ≡ ok v)
>>=-eq-ok (ok x) k e = (x, refl, e)
>>=-eq-ok (failed m) k e = cc
>>=-eq-ok aborted k e = cc
>>=-eq-ok fault k e = cc

pub ok-inj {ℓ} : {A : Type ℓ} {a b : A} → ok a ≡ ok b → a ≡ b
ok-inj h = cc

pub require-eq-ok {ℓ} :
    {B : Type ℓ} (t : Bool) (m : Error) (k : Result B) {b : B}
    → (require t m >> k) ≡ ok b
    → (t ≡ true) × (k ≡ ok b)
require-eq-ok true m k h = (refl, h)
require-eq-ok false m k h = cc

pub assert-eq-ok {ℓ} :
    {B : Type ℓ} (t : Bool) (k : Result B) {b : B}
    → (assert t >> k) ≡ ok b
    → (t ≡ true) × (k ≡ ok b)
assert-eq-ok true k h = (refl, h)
assert-eq-ok false k h = cc

pub within-eq-ok {ℓ} :
    {B : Type ℓ} (t : Bool) (k : Result B) {b : B}
    → (within t >> k) ≡ ok b
    → (t ≡ true) × (k ≡ ok b)
within-eq-ok true k h = (refl, h)
within-eq-ok false k h = cc

-- What a result's value satisfies, if there is one.
abbrev pub Gives : {A : Type 0} → (A → Type 0) → Result A → Type 0
Gives {A} P r = (x : A) → r ≡ ok x → P x

pub ok-Gives : {A : Type 0} (P : A → Type 0) (x : A) → P x → Gives P (ok x)
ok-Gives P x p y h = subst P (ok-inj h) p

pub after-Gives :
    {A : Type 0} {B : Type 0} (P : B → Type 0) (r : Result A) {k : A → Result B}
    → ((x : A) → Gives P (k x))
    → Gives P (r >>= k)
after-Gives P r h y e = let (x, got, rest) = >>=-eq-ok r _ e in h x y rest

pub then-Gives :
    {A : Type 0} {B : Type 0} (Q : A → Type 0) (P : B → Type 0) (r : Result A) {k : A → Result B}
    → Gives Q r
    → ((x : A) → Q x → Gives P (k x))
    → Gives P (r >>= k)
then-Gives Q P r q h y e = let (x, got, rest) = >>=-eq-ok r _ e in h x (q x got) y rest

pub elim-Gives :
    {A : Type 0} (P : A → Type 0) (b : Bool) {x y : Result A}
    → Gives P x
    → Gives P y
    → Gives P (elim b as (λ c. Result A) [ true ↦ x | false ↦ y ])
elim-Gives P true p q = p
elim-Gives P false p q = q

-- A test that has been decided.
pub elim_true :
    {A : Type 0} (b : Bool) (x y : A) → b ≡ true → (elim b as (λ c. A) [ true ↦ x | false ↦ y ]) ≡ x
elim_true true x y h = refl
elim_true false x y h = cc

pub elim_false :
    {A : Type 0} (b : Bool) (x y : A)
    → b ≡ false
    → (elim b as (λ c. A) [ true ↦ x | false ↦ y ]) ≡ y
elim_false true x y h = cc
elim_false false x y h = refl
