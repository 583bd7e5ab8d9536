-- ===== src/Patchelf/Parse/Laws.antt =====
-- What a successful `parse` leaves in the object.
use electrum_lightning_test.Base.{
  ℕ, suc, zero, ◌+◌, ◌*◌, ◌≤◌, ◌<◌, ◌≡◌, refl, sym, ap, ◌∙◌, arith, ltb, ltb→lt, leb, leb→le, List,
  [], ◌∷◌, length, slice, set, get_elem?, some, Bool-cases, inl, inr,
}
use mathlib.Core.Path.{subst}
use native.Mathlib.Decide.{dec_lt}
use electrum_lightning_test.Patchelf.Result.{ok, >>=-eq-ok, within-eq-ok}
use electrum_lightning_test.Patchelf.File.{Elf, read_bytes}
use electrum_lightning_test.Patchelf.Section.{name_at}
use electrum_lightning_test.Patchelf.Parse.{copy_headers, name_sections}

get_elem?-set :
    (xs : List (List ℕ)) (i : ℕ) (v : List ℕ) → i < length xs → get_elem? (set xs i v) i ≡ some v
get_elem?-set [] i v h = absurd (omega arith)
get_elem?-set (x ∷ xs) zero v h = refl
get_elem?-set (x ∷ xs) (suc i) v h = get_elem?-set xs i v (omega arith)

get_elem?-set_ne :
    (xs : List (List ℕ)) (i j : ℕ) (v : List ℕ) → j < i → get_elem? (set xs i v) j ≡ get_elem? xs j
get_elem?-set_ne [] i j v h = refl
get_elem?-set_ne (x ∷ xs) zero j v h = absurd (omega arith)
get_elem?-set_ne (x ∷ xs) (suc i) zero v h = refl
get_elem?-set_ne (x ∷ xs) (suc i) (suc j) v h = get_elem?-set_ne xs i j v (omega arith)

pub ok-inj {ℓ} : {A : Type ℓ} {a b : A} → ok a ≡ ok b → a ≡ b
ok-inj h = cc

read_bytes-eq-ok :
    (contents : List ℕ) (at size : ℕ) {s : List ℕ}
    → read_bytes contents at size ≡ ok s
    → (at + size ≤ length contents) × (s ≡ slice contents at size)
unfolding read_bytes
read_bytes-eq-ok contents at size h = elim (Bool-cases (leb (at + size) (length contents))) [
  | inl fits ↦ (leb→le _ _ fits, ground (arith, fits))
  | inr out ↦ absurd (ground arith)
]

-- The headers numbered `i` to `i + k - 1` of a table that stands in the file at `off`.
abbrev pub Rows : List ℕ → (off size k i : ℕ) → List (List ℕ) → Type 0
Rows contents off size k i hs =
    (length hs ≡ k)
    × ((j n : ℕ)
        → j < k
        → i + j ≡ n
        → (off + size * n + size ≤ length contents)
          × (get_elem? hs j ≡ some (slice contents (off + size * n) size)))

Rows-cons :
    (contents : List ℕ) (off size k i : ℕ) (hs : List (List ℕ))
    → off + size * i + size ≤ length contents
    → Rows contents off size k (i + 1) hs
    → Rows contents off size (suc k) i (slice contents (off + size * i) size ∷ hs)
Rows-cons contents off size k i hs fits (count, elems) = (ap suc count, row)
  where
    row :
        (j n : ℕ)
        → j < suc k
        → i + j ≡ n
        → (off + size * n + size ≤ length contents)
          × (get_elem? (slice contents (off + size * i) size ∷ hs) j
              ≡ some (slice contents (off + size * n) size))
    row zero n lt e =
        let same : i ≡ n = omega (arith, e) in
        subst
          (λ m.
            (off + size * m + size ≤ length contents)
            × (some (slice contents (off + size * i) size)
                ≡ some (slice contents (off + size * m) size)))
          same (fits, refl)
    row (suc j) n lt e = elems j n (omega arith) (omega arith)

pub copy_headers-Rows :
    (contents : List ℕ) (off size k i : ℕ) {hs : List (List ℕ)}
    → copy_headers contents off size k i ≡ ok hs
    → Rows contents off size k i hs
unfolding copy_headers
copy_headers-Rows contents off size zero i h =
    (ap length (sym (ok-inj h)), λ j n lt e. absurd (omega arith))
copy_headers-Rows contents off size (suc k) i h =
    let (s, read, tail_ok) = >>=-eq-ok (read_bytes contents (off + size * i) size) _ h in
    let (rest, copied, done) = >>=-eq-ok (copy_headers contents off size k (i + 1)) _ tail_ok in
    let (fits, same) = read_bytes-eq-ok contents (off + size * i) size read in
    subst (Rows contents off size (suc k) i) (ap (λ t. t ∷ rest) (sym same) ∙ ok-inj done) (
      Rows-cons contents off size k i rest fits
        (copy_headers-Rows contents off size k (i + 1) copied))

-- The vector of old names, of which those from `i` on are written in this and later rounds.
abbrev pub OldNames : Elf → (k i : ℕ) → List (List ℕ) → List (List ℕ) → Type 0
OldNames e k i before after =
    ((j : ℕ) → j < i → get_elem? after j ≡ get_elem? before j)
    × ((j : ℕ)
        → i ≤ j
        → j < i + k
        → (n : List ℕ) × (name_at e j ≡ ok n) × (get_elem? after j ≡ some n))

OldNames-step :
    (e : Elf) (k i : ℕ) (n : List ℕ) (names after : List (List ℕ))
    → name_at e i ≡ ok n
    → i < length names
    → OldNames e k (i + 1) (set names i n) after
    → OldNames e (suc k) i names after
OldNames-step e k i n names after here lt (kept, written) = (
  λ j less. kept j (omega arith) ∙ get_elem?-set_ne names i j n (omega arith),
  λ j le less. elim (dec_lt i j) [
    | yes later ↦ written j (omega arith) (omega arith)
    | no this ↦
        subst (λ m. (a : List ℕ) × (name_at e m ≡ ok a) × (get_elem? after m ≡ some a))
          (let same : i ≡ j = omega (arith, this) in same)
          (n, here, kept i (omega arith) ∙ get_elem?-set names i n lt)
  ],
)

pub name_sections-OldNames :
    (e : Elf) (k i : ℕ) (names : List (List ℕ)) {after : List (List ℕ)}
    → name_sections e k i names ≡ ok after
    → OldNames e k i names after
unfolding name_sections
name_sections-OldNames e zero i names h =
    (λ j lt. ap (λ l. get_elem? l j) (sym (ok-inj h)), λ j a b. absurd (omega arith))
name_sections-OldNames e (suc k) i names h =
    let (n, here, later) = >>=-eq-ok (name_at e i) _ h in
    let (lt, rest) = within-eq-ok (ltb i (length names)) _ later in
    OldNames-step e k i n names _ here (ltb→lt _ _ lt)
      (name_sections-OldNames e k (i + 1) (set names i n) rest)
