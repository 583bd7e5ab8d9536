-- ===== src/Patchelf/Program/Laws.antt =====
-- What is relied on of the calls on files, in terms of what each file holds.
use electrum_lightning_test.Base.{ℕ, ◌≤◌, ◌≡◌, ◌≢◌, true, List, [], length, take, Option, some}
use electrum_lightning_test.Patchelf.Dynamic.{Name}
use electrum_lightning_test.Patchelf.Program.{Files}

-- A read of as many bytes as `stat` tells, when it gives them all, gives what the file holds. A file
-- opened to write is empty, a write leaves the bytes that it counts, and other files keep theirs. Two
-- names are names of two files.
pub record IsFiles {ℓ} {S : Type ℓ} (fs : Files S) (holds : S → Name → Option (List ℕ))
    : Type ℓ where
  pub whole :
      (s : S) (name : Name) (bytes : List ℕ)
      → fs.stat s name ≡ some (length bytes)
      → fs.read s name (length bytes) ≡ some bytes
      → holds s name ≡ some bytes
  pub emptied : (s s' : S) (name : Name) → fs.open_write s name ≡ some s' → holds s' name ≡ some []
  pub open_others :
      (s s' : S) (name q : Name)
      → fs.open_write s name ≡ some s'
      → name ≢ q
      → holds s' q ≡ holds s q
  pub written :
      (s : S) (name : Name) (bytes : List ℕ)
      → holds s name ≡ some []
      → (k : ℕ) × (k ≤ length bytes)
        × (holds (fs.write s name bytes).1 name ≡ some (take k bytes))
        × ((n : ℕ) → (fs.write s name bytes).0 ≡ some n → n ≡ k)
  pub write_others :
      (s : S) (name q : Name) (bytes : List ℕ)
      → name ≢ q
      → holds (fs.write s name bytes).1 q ≡ holds s q
  pub closed : (s : S) (name q : Name) → holds (fs.close s name).1 q ≡ holds s q

-- The calls do all that they are asked for: there is memory, a file that holds something can be read and
-- written, and a write is not short.
pub record Serves {ℓ} {S : Type ℓ} (fs : Files S) (holds : S → Name → Option (List ℕ))
    : Type ℓ where
  pub has_size :
      (s : S) (name : Name) (bytes : List ℕ)
      → holds s name ≡ some bytes
      → fs.stat s name ≡ some (length bytes)
  pub has_memory : (n : ℕ) → fs.malloc n ≡ true
  pub opens :
      (s : S) (name : Name) (bytes : List ℕ)
      → holds s name ≡ some bytes
      → fs.open_read s name ≡ true
  pub reads :
      (s : S) (name : Name) (bytes : List ℕ)
      → holds s name ≡ some bytes
      → fs.read s name (length bytes) ≡ some bytes
  pub opens_write :
      (s : S) (name : Name) (bytes : List ℕ)
      → holds s name ≡ some bytes
      → (s' : S) × (fs.open_write s name ≡ some s')
  pub writes_all :
      (s : S) (name : Name) (bytes : List ℕ) → (fs.write s name bytes).0 ≡ some (length bytes)
  pub closes : (s : S) (name : Name) → (fs.close s name).0 ≡ true
