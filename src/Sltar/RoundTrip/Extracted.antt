-- ===== src/Sltar/RoundTrip/Extracted.antt =====
-- `x` on the entry that `c_file` writes for a regular file.
use electrum_lightning_test.Base.{
  ℕ, ◌%◌, ◌≡◌, refl, sym, ap, ◌∙◌, arith, true, false, Bool, some, List, [], ◌∷◌, ◌++◌, length, All,
  if◌then◌else◌,
}
use electrum_lightning_test.Base.Int.{ℤ, pos}
use electrum_lightning_test.Sltar.Header
use electrum_lightning_test.Sltar.Create.{FileName, Stat, Host, header_block, ◌>>=◌}
use electrum_lightning_test.Sltar.Create.Fields.{length-header_block}
use electrum_lightning_test.Sltar.Extract.{
  Call, unlink, fopen, chmod, chown, fclose, Env, Machine, extract, tar_loop, x, handle, copy_out,
  rounds, make_entry, make_regular, set_owner, verify, emit,
}
use electrum_lightning_test.Sltar.Extract.Entry.{
  mode-header_block, uid-header_block, gid-header_block, verified, type-regular,
}
use electrum_lightning_test.Sltar.RoundTrip.Data.{padded, copy_out-padded, IsWrite, written}
use mathlib.Core.List.{append_assoc}
use electrum_lightning_test.Sltar.RoundTrip.Archive.{IsFile, tar_round, Passed, start}

-- The calls that extract one file, the last one first.
pub record ExtractCalls (env : Env) (path : FileName) (st : Stat) (bytes : List ℕ)
    (calls : List Call) : Type 0 where
  pub writes : List Call
  pub only_writes : All (IsWrite path) writes
  pub whole_file : written writes ≡ bytes
  pub owner : List Call
  pub owned : owner ≡ (if env.is_root then chown path st.st_uid st.st_gid ∷ [] else [])
  pub made :
      calls
      ≡ fclose path
        ∷ (writes ++ (owner ++ (chmod path (st.st_mode % 512) ∷ fopen path ∷ unlink path ∷ [])))

module _ {host : Host} {path : FileName} {st : Stat} {user group bytes : List ℕ}
    (file : IsFile host path st user group bytes) (env : Env)
    (succeeds : (calls : List Call) (call : Call) → env.answer calls call ≡ true) where
  abbrev b : List ℕ
  b = header_block host path st user group

  -- The file is made with the permission bits that were stored.
  made_regular :
      (m0 : Machine)
      → make_entry env path b m0 ≡ record {
        failed = false;
        opened = true;
        after = record m0 { calls = chmod path (st.st_mode % 512) ∷ fopen path ∷ m0.calls };
      }
  unfolding make_entry make_regular
  made_regular m0 = simp (
    type-regular host path st user group file.regular,
    mode-header_block host path st user group,
    succeeds,
  )

  abbrev owner_calls : List Call
  owner_calls = if env.is_root then chown path st.st_uid st.st_gid ∷ [] else []

  owned_regular :
      (m0 : Machine)
      → set_owner env path b (record { failed = false; opened = true; after = m0 })
        ≡ record m0 { calls = owner_calls ++ m0.calls }
  unfolding set_owner
  owned_regular m0 =
      simp
        (
          uid-header_block host path st user group file.uid,
          gid-header_block host path st user group file.gid,
          succeeds,
        )
        (split env.is_root)
    where
      split :
          (root : Bool)
          → (if root then emit (chown path st.st_uid st.st_gid) m0 else m0) ≡ record m0 {
            calls = (if root then chown path st.st_uid st.st_gid ∷ [] else []) ++ m0.calls;
          }
      split true = refl
      split false = refl

  verified_regular : (m0 : Machine) → verify path b m0 ≡ m0
  unfolding verify
  verified_regular m0 = rw (verified host path st user group)

  -- The machine in front of the data.
  abbrev ready : (input : List ℕ) (calls : List Call) → Machine
  ready input calls = record {
    block = b;
    input = input;
    calls = owner_calls ++ (chmod path (st.st_mode % 512) ∷ fopen path ∷ unlink path ∷ calls);
  }

  x_regular :
      (l : ℤ) (input : List ℕ) (calls : List Call)
      → x env path l (record { block = b; input = input; calls = calls }) ≡ (
          copy_out (rounds l) (some path) l (ready input calls) >>= λ m2.
          some (emit (fclose path) m2))
  unfolding x
  x_regular l input calls =
      let m0 : Machine = record { block = b; input = input; calls = unlink path ∷ calls } in
      let m1 : Machine = record m0 {
        calls = chmod path (st.st_mode % 512) ∷ fopen path ∷ unlink path ∷ calls;
      } in
      rw (made_regular m0, owned_regular m1, verified_regular)

  module _ (fuel : ℕ) (m : Machine) (rest : List ℕ) (buffer : length m.block ≡ Header.end)
      (next : m.input ≡ (b ++ padded bytes) ++ rest) where
    -- `x` makes the file, gives it the stored mode and writes the bytes that were archived.
    pub extract_entry : Passed fuel env extract (ExtractCalls env path st bytes) rest m
    extract_entry =
        let l = pos (length bytes) in
        let data_input = padded bytes ++ rest in
        let copied =
          copy_out-padded (rounds l) (some path) l bytes rest (ready data_input m.calls) refl
            (omega arith) (length-header_block host path st user group) refl in
        let before = chmod path (st.st_mode % 512) ∷ fopen path ∷ unlink path ∷ [] in
        record {
          end = emit (fclose path) copied.end;
          goes_on =
              tar_round file env extract m rest buffer next fuel
              ∙ ap (λ r. r >>= λ m2. tar_loop fuel env extract m2)
                  (extracted
                    ∙ x_regular l data_input m.calls
                    ∙ ap (λ r. r >>= λ m2. some (emit (fclose path) m2)) copied.returns);
          behind = copied.behind;
          whole_block = copied.whole_block;
          calls = fclose path ∷ (copied.calls ++ (owner_calls ++ before));
          called =
              ap (λ cs. fclose path ∷ cs)
                (copied.called
                  ∙ ap (λ cs. copied.calls ++ cs) (sym (append_assoc owner_calls before m.calls))
                  ∙ sym (append_assoc copied.calls (owner_calls ++ before) m.calls));
          as_made = record {
            writes = copied.calls;
            only_writes = copied.writes.0;
            whole_file = copied.writes.1;
            owner = owner_calls;
            owned = refl;
            made = refl;
          };
        }
      where
        extracted :
            handle env extract path (pos (length bytes)) (start file env fuel m rest buffer next)
            ≡ x env path (pos (length bytes)) (start file env fuel m rest buffer next)
        extracted = unfold handle in refl
