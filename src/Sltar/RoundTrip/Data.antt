-- ===== src/Sltar/RoundTrip/Data.antt =====
-- The loop over the data blocks, on the blocks of one file.
use electrum_lightning_test.Base.{
  ℕ, zero, suc, ◌+◌, ◌-◌, ◌*◌, ◌≤◌, ◌≡◌, refl, sym, ap, ◌∙◌, arith, true, false, Option, none, some,
  List, [], ◌∷◌, ◌++◌, min, length, All, All-append, take, drop, replicate, overwrite,
  overwrite-zero, length-take, length-drop, length-append, take-append, drop-append,
  take-append-drop, drop_all, leb, le→leb,
}
use electrum_lightning_test.Base.Int.{ℤ, pos, negsuc, pos_part}
use electrum_lightning_test.Sltar.Header
use electrum_lightning_test.Sltar.Create.{FileName}
use electrum_lightning_test.Sltar.Create.Blocks.{
  padding, first_block, length-first_block, first_block-append,
}
use electrum_lightning_test.Sltar.Extract.{
  Call, fwrite, Machine, fread_block, write_block, copy_out, less_block, positive,
}
use mathlib.Core.Path.{subst}
use mathlib.Core.List.{append_assoc, append-nil}

-- A file's bytes with the zeros behind them.
abbrev pub padded : List ℕ → List ℕ
padded bytes = bytes ++ replicate (padding (length bytes)) 0

abbrev pub payload : Call → List ℕ
payload (fwrite f p) = p
payload call = []

-- All that a run wrote, given its calls with the last one first.
abbrev pub written : List Call → List ℕ
written [] = []
written (call ∷ calls) = written calls ++ payload call

abbrev pub IsWrite : FileName → Call → Type 0
IsWrite f call = (p : List ℕ) × (call ≡ fwrite f p)

abbrev pub Writes : Option FileName → List Call → List ℕ → Type 0
Writes none calls bytes = calls ≡ []
Writes (some f) calls bytes = All (IsWrite f) calls × (written calls ≡ bytes)

abbrev pub first_calls : Option FileName → List ℕ → List Call
first_calls none p = []
first_calls (some f) p = fwrite f p ∷ []

Writes-nil : (f : Option FileName) → Writes f [] []
Writes-nil none = refl
Writes-nil (some f) = (tt, refl)

-- The run ends behind the data, and its calls write just the bytes.
pub record Copied (f : Option FileName) (bytes rest : List ℕ) (m : Machine) (r : Option Machine)
    : Type 0 where
  pub end : Machine
  pub returns : r ≡ some end
  pub behind : end.input ≡ rest
  pub whole_block : length end.block ≡ Header.end
  pub calls : List Call
  pub called : end.calls ≡ calls ++ m.calls
  pub writes : Writes f calls bytes

written-append :
    (calls : List Call) (f : FileName) (p : List ℕ)
    → written (calls ++ (fwrite f p ∷ [])) ≡ p ++ written calls
written-append [] f p = sym (append-nil p)
written-append (call ∷ calls) f p =
    ap (λ w. w ++ payload call) (written-append calls f p)
    ∙ append_assoc p (written calls) (payload call)

-- The machine after `fread` of a block that is there.
pub fread_block-append :
    (m : Machine) (block rest : List ℕ)
    → length m.block ≡ Header.end
    → length block ≡ Header.end
    → m.input ≡ block ++ rest
    → fread_block m ≡ (true, record m { block = block; input = rest })
unfolding fread_block
fread_block-append m block rest n k e =
    λ i. (got i, record { block = stored i; input = left i; calls = m.calls })
  where
    got : leb Header.end (length m.input) ≡ true
    got = le→leb _ _ (omega (arith, ap length e, length-append block rest, k))

    front : take Header.end m.input ≡ block
    front =
        ap (take Header.end) e ∙ ap (λ j. take j (block ++ rest)) (sym k) ∙ take-append block rest

    stored : overwrite m.block 0 (take Header.end m.input) ≡ block
    stored =
        ap (overwrite m.block 0) front
        ∙ overwrite-zero m.block block (omega (arith, n, k))
        ∙ ap (λ t. block ++ t) (drop_all (length block) m.block (omega (arith, n, k)))
        ∙ append-nil block

    left : drop Header.end m.input ≡ rest
    left =
        ap (drop Header.end) e ∙ ap (λ j. drop j (block ++ rest)) (sym k) ∙ drop-append block rest

module _ (bytes rest : List ℕ) (more : 1 ≤ length bytes) where
  pub padded-first_block :
      padded bytes ++ rest ≡ first_block bytes ++ (padded (drop Header.end bytes) ++ rest)
  padded-first_block =
      ap (λ t. t ++ rest) (sym (first_block-append bytes more))
      ∙ append_assoc (first_block bytes) (padded (drop Header.end bytes)) rest

  payload-first_block :
      take (min (length bytes) Header.end) (first_block bytes) ≡ take Header.end bytes
  payload-first_block =
      ap (λ k. take k (first_block bytes))
        (let e : min (length bytes) Header.end ≡ length (take Header.end bytes) =
            omega (arith, length-take Header.end bytes) in
          e)
      ∙ take-append (take Header.end bytes) _

-- The calls of one block, then those of the rest.
Writes-first :
    (f : Option FileName) (calls : List Call) (p bytes : List ℕ)
    → Writes f calls bytes
    → Writes f (calls ++ first_calls f p) (p ++ bytes)
Writes-first none calls p bytes e = ap (λ c. c ++ []) e
Writes-first (some f) calls p bytes (only, e) = (
  All-append (IsWrite f) calls (fwrite f p ∷ []) only ((p, refl), tt),
  written-append calls f p ∙ ap (λ w. p ++ w) e,
)

write_block_calls :
    (f : Option FileName) (l : ℤ) (m : Machine)
    → (write_block f l m)
      ≡ record m { calls = first_calls f (take (min (pos_part l) Header.end) m.block) ++ m.calls }
unfolding write_block
write_block_calls none l m = refl
write_block_calls (some f) l m = refl

pos_part-less_block : (l : ℤ) → pos_part (less_block l) ≡ pos_part l - Header.end
pos_part-less_block l = ground arith

positive-pos_part : (l : ℤ) → 1 ≤ pos_part l → positive l ≡ true
positive-pos_part (pos zero) h = absurd (omega arith)
positive-pos_part (pos (suc n)) h = refl
positive-pos_part (negsuc n) h = absurd (omega arith)

not_positive : (l : ℤ) → pos_part l ≡ 0 → positive l ≡ false
not_positive (pos zero) h = refl
not_positive (pos (suc n)) h = absurd (omega arith)
not_positive (negsuc n) h = refl

copy_out_stop :
    (fuel : ℕ) (f : Option FileName) (l : ℤ) (m : Machine)
    → positive l ≡ false
    → copy_out (suc fuel) f l m ≡ some m
unfolding copy_out
copy_out_stop fuel f l m e = rw (e, copy_out)

copy_out_step :
    (fuel : ℕ) (f : Option FileName) (l : ℤ) (m : Machine)
    → positive l ≡ true
    → copy_out (suc fuel) f l m ≡ copy_out fuel f (less_block l) (write_block f l (fread_block m).1)
unfolding copy_out
copy_out_step fuel f l m e = rw (e, copy_out)

-- The machine after one round on a block of a file.
abbrev after_block : Option FileName → List ℕ → List ℕ → Machine → Machine
after_block f bytes left m = record m {
  block = first_block bytes;
  input = left;
  calls = first_calls f (take Header.end bytes) ++ m.calls;
}

block_round :
    (f : Option FileName) (l : ℤ) (bytes rest : List ℕ) (m : Machine)
    → pos_part l ≡ length bytes
    → 1 ≤ length bytes
    → length m.block ≡ Header.end
    → m.input ≡ padded bytes ++ rest
    → write_block f l (fread_block m).1
      ≡ after_block f bytes (padded (drop Header.end bytes) ++ rest) m
block_round f l bytes rest m size more n e =
    let block = first_block bytes in
    let left = padded (drop Header.end bytes) ++ rest in
    let m1 : Machine = record m { block = block; input = left } in
    let read =
      fread_block-append m block left n (length-first_block bytes)
        (e ∙ padded-first_block bytes rest more) in
    ap (λ p. write_block f l p.1) read
    ∙ write_block_calls f l m1
    ∙ ap (λ p. let r : Machine = record m1 { calls = first_calls f p ++ m.calls } in r)
        (ap (λ k. take (min k Header.end) block) size ∙ payload-first_block bytes rest more)

-- With the file's padded bytes next, the loop takes exactly these and writes exactly the bytes.
pub copy_out-padded :
    (fuel : ℕ) (f : Option FileName) (l : ℤ) (bytes rest : List ℕ) (m : Machine)
    → pos_part l ≡ length bytes
    → length bytes + Header.end ≤ Header.end * fuel
    → length m.block ≡ Header.end
    → m.input ≡ padded bytes ++ rest
    → Copied f bytes rest m (copy_out fuel f l m)
copy_out-padded zero f l bytes rest m size h n e = absurd (omega arith)
copy_out-padded (suc fuel) f l [] rest m size h n e = record {
  end = m;
  returns = copy_out_stop fuel f l m (not_positive l size);
  behind = e;
  whole_block = n;
  calls = [];
  called = refl;
  writes = Writes-nil f;
}
copy_out-padded (suc fuel) f l (x ∷ xs) rest m size h n e =
    let bytes : List ℕ = x ∷ xs in
    let left = padded (drop Header.end bytes) ++ rest in
    let m2 = after_block f bytes left m in
    let chunk = take Header.end bytes in
    let ih =
      copy_out-padded fuel f (less_block l) (drop Header.end bytes) rest m2
        (omega (arith, pos_part-less_block l, length-drop Header.end bytes))
        (omega (arith, length-drop Header.end bytes)) (length-first_block bytes) refl in
    record {
      end = ih.end;
      returns =
          copy_out_step fuel f l m (positive-pos_part l (omega arith))
          ∙ ap (copy_out fuel f (less_block l))
              (block_round f l bytes rest m size (omega arith) n e)
          ∙ ih.returns;
      behind = ih.behind;
      whole_block = ih.whole_block;
      calls = ih.calls ++ first_calls f chunk;
      called = ih.called ∙ sym (append_assoc ih.calls (first_calls f chunk) m.calls);
      writes =
          subst (λ w. Writes f (ih.calls ++ first_calls f chunk) w)
            (take-append-drop Header.end bytes)
            (Writes-first f ih.calls chunk (drop Header.end bytes) ih.writes);
    }
