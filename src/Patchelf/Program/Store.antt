-- ===== src/Patchelf/Program/Store.antt =====
-- What `writeFile` leaves.
use electrum_lightning_test.Base.{
  ℕ, ◌≤◌, ◌≡◌, ◌≢◌, refl, sym, ap, ◌∙◌, arith, Bool, true, false, List, [], length, take, Option,
  none, some, ◌⊎◌, inl, inr,
}
use electrum_lightning_test.Patchelf.Dynamic.{Name}
use electrum_lightning_test.Patchelf.Program.{
  Files, Call, on_open, on_write, on_close, is_short, write_file, closing, close_written,
  write_opened,
}
use electrum_lightning_test.Patchelf.Program.Laws.{IsFiles}

-- A file whose contents `old` are replaced by the first `kept` bytes of `new`, all of them if the call of
-- `writeFile` returns.
pub record Stored {ℓ} {S : Type ℓ} (holds : S → Name → Option (List ℕ)) (name : Name) (new : List ℕ)
    (s' : S) (call : Option Call) : Type ℓ where
  pub kept : ℕ
  pub within_new : kept ≤ length new
  pub holds_kept : holds s' name ≡ some (take kept new)
  pub ending : (call ≡ none) ⊎ ((call ≡ some on_write) ⊎ (call ≡ some on_close))
  pub all_kept : call ≡ none → kept ≡ length new

module _ {ℓ} {S : Type ℓ} (fs : Files S) (holds : S → Name → Option (List ℕ))
    (law : IsFiles fs holds) where
  closing_state : (b : Bool) (s : S) → (closing b s).1 ≡ s
  unfolding closing
  closing_state true s = refl
  closing_state false s = refl

  -- Whatever the end of `writeFile` is, the file holds what the write left.
  close_written_state :
      (name q : Name) (short : Bool) (s : S) → holds (close_written fs name short s).1 q ≡ holds s q
  unfolding close_written
  close_written_state name q true s = refl
  close_written_state name q false s =
      let c = fs.close s name in ap (λ x. holds x q) (closing_state c.0 c.1) ∙ law.closed s name q

  close_written_ending :
      (name : Name) (short : Bool) (s : S)
      → (let call = (close_written fs name short s).0 in
          (call ≡ none) ⊎ ((call ≡ some on_write) ⊎ (call ≡ some on_close)))
  unfolding close_written closing
  close_written_ending name true s = inr (inl refl)
  close_written_ending name false s = (let c = fs.close s name in closing_ending c.0 c.1)
    where
      closing_ending :
          (b : Bool) (x : S)
          → ((closing b x).0 ≡ none)
            ⊎ (((closing b x).0 ≡ some on_write) ⊎ ((closing b x).0 ≡ some on_close))
      closing_ending true x = inl refl
      closing_ending false x = inr (inr refl)

  close_written-none :
      (name : Name) (short : Bool) (s : S)
      → (close_written fs name short s).0 ≡ none
      → short ≡ false
  unfolding close_written
  close_written-none name true s h = cc
  close_written-none name false s h = refl

  is_short-false : (size : ℕ) (n : Option ℕ) → is_short size n ≡ false → n ≡ some size
  unfolding is_short
  is_short-false size none h = cc
  is_short-false size (some n) h = ap some (ground (arith, h))

  pub write_opened-Stored :
      (name : Name) (new : List ℕ) (s : S)
      → holds s name ≡ some []
      → (let w = write_opened fs name new s in Stored holds name new w.1 w.0)
  unfolding write_opened
  write_opened-Stored name new s empty =
      let w = fs.write s name new in
      let (k, inside, here, counted) = law.written s name new empty in
      record {
        kept = k;
        within_new = inside;
        holds_kept = close_written_state name name (is_short (length new) w.0) w.1 ∙ here;
        ending = close_written_ending name (is_short (length new) w.0) w.1;
        all_kept = λ h. sym (
            counted (length new) (
              is_short-false (length new) w.0
                (close_written-none name (is_short (length new) w.0) w.1 h)));
      }

  write_opened_others :
      (name q : Name) (new : List ℕ) (s : S)
      → name ≢ q
      → holds (write_opened fs name new s).1 q ≡ holds s q
  unfolding write_opened
  write_opened_others name q new s apart =
      let w = fs.write s name new in
      close_written_state name q (is_short (length new) w.0) w.1
      ∙ law.write_others s name q new apart

  -- `writeFile` does not open the file, or stores in it.
  pub write_file_cases :
      (name : Name) (new : List ℕ) (s : S)
      → (let w = write_file fs name new s in
          ((w.1 ≡ s) × (w.0 ≡ some on_open)) ⊎ Stored holds name new w.1 w.0)
  unfolding write_file
  write_file_cases name new s = by_open (fs.open_write s name) refl
    where
      by_open :
          (o : Option S)
          → fs.open_write s name ≡ o
          → (let w = write_file fs name new s in
              ((w.1 ≡ s) × (w.0 ≡ some on_open)) ⊎ Stored holds name new w.1 w.0)
      by_open none h = inl (rw (write_file, h) refl, rw (write_file, h) refl)
      by_open (some s1) h =
          inr (rw (write_file, h) (write_opened-Stored name new s1 (law.emptied s s1 name h)))

  pub write_file_others :
      (name q : Name) (new : List ℕ) (s : S)
      → name ≢ q
      → holds (write_file fs name new s).1 q ≡ holds s q
  unfolding write_file
  write_file_others name q new s apart = by_open (fs.open_write s name) refl
    where
      by_open :
          (o : Option S)
          → fs.open_write s name ≡ o
          → holds (write_file fs name new s).1 q ≡ holds s q
      by_open none h = rw (write_file, h) refl
      by_open (some s1) h =
          rw (write_file, h)
            (write_opened_others name q new s1 apart ∙ law.open_others s s1 name q h apart)
