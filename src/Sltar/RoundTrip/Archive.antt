-- ===== src/Sltar/RoundTrip/Archive.antt =====
-- `tar x` and `tar t` on the entry that `c_file` writes for a regular file.
use electrum_lightning_test.Base.{
  ℕ, suc, ◌^◌, ◌≤◌, ◌<◌, ◌≡◌, refl, ap, ◌∙◌, arith, ◌≢◌, true, false, Bool, Option, none, some,
  List, [], ◌∷◌, ◌++◌, length, All, get_or, take_all, not, ◌&&◌, ◌==◌,
}
use electrum_lightning_test.Base.Int.{pos}
use electrum_lightning_test.Sltar.Header
use electrum_lightning_test.Sltar.Kind
use electrum_lightning_test.Sltar.Kind.{has_type}
use electrum_lightning_test.Sltar.Create.{FileName, Stat, Host, header_block, c_file, opened, ◌>>=◌}
use electrum_lightning_test.Sltar.Create.Blocks.{copy_file_padded}
use electrum_lightning_test.Sltar.Create.Fields.{length-header_block}
use electrum_lightning_test.Sltar.Extract.{
  Call, puts, Env, Machine, Handler, list, tar_loop, t, handle, copy_out, rounds, entry_name,
  entry_size, emit, fread_block,
}
use electrum_lightning_test.Sltar.Extract.Entry.{entry_name-header_block, size-regular, first_byte}
use electrum_lightning_test.Sltar.RoundTrip.Data.{padded, copy_out-padded, fread_block-append}
use mathlib.Core.List.{append_assoc}

-- One round of `tar` on a block that is there and does not start with a NUL.
tar_loop_header :
    (fuel : ℕ) (env : Env) (fn : Handler) (m m1 : Machine)
    → fread_block m ≡ (true, m1)
    → (get_or m1.block 0 0 == 0) ≡ false
    → tar_loop (suc fuel) env fn m ≡ (
        handle env fn (entry_name m1.block) (entry_size m1.block) m1 >>= λ m2.
        tar_loop fuel env fn m2)
unfolding tar_loop
tar_loop_header fuel env fn m m1 read more = ap round read ∙ ap goes more
  where
    handled : Machine → Option Machine
    handled n =
        handle env fn (entry_name n.block) (entry_size n.block) n >>= λ m2. tar_loop fuel env fn m2

    round : Bool × Machine → Option Machine
    round p = elim (p.0 && not (get_or p.1.block 0 0 == 0)) [
      | false ↦ some p.1
      | true ↦ handled p.1
    ]

    goes : Bool → Option Machine
    goes z = elim (not z) [ false ↦ some m1 | true ↦ handled m1 ]

-- A name that the header can hold, and that does not look like the end of the archive.
abbrev pub IsName : FileName → Type 0
IsName path = All (λ c. c ≢ 0) path × (1 ≤ length path) × (length path ≤ 99)

-- The file is there, its owners are known, and nothing about it exceeds the header's fields.
pub record IsFile (host : Host) (path : FileName) (st : Stat) (user group bytes : List ℕ)
    : Type 0 where
  pub regular : has_type st.st_mode Kind.s_ifreg ≡ true
  pub name : IsName path
  pub known_user : host.user_name st.st_uid ≡ some user
  pub known_group : host.group_name st.st_gid ≡ some group
  pub readable : host.open_read path ≡ some bytes
  pub size : length bytes ≡ st.st_size
  pub small : st.st_size < 2 ^ 31
  pub uid : st.st_uid < 8 ^ 7
  pub gid : st.st_gid < 8 ^ 7

module _ {host : Host} {path : FileName} {st : Stat} {user group bytes : List ℕ}
    (file : IsFile host path st user group bytes) where
  abbrev pub header : List ℕ
  header = header_block host path st user group

  pub c_file-regular : c_file host path st ≡ some (header ++ padded bytes)
  unfolding c_file opened
  c_file-regular =
      rw (file.known_user, file.known_group, file.regular, file.readable)
        (ap (λ data'. some (header ++ data'))
          (copy_file_padded (suc (length bytes)) header bytes
            (length-header_block host path st user group) (omega arith)))

  size_read : entry_size header ≡ pos (length bytes)
  size_read =
      size-regular host path st user group file.regular
      ∙ ap pos (omega (arith, file.size, file.small))

  name_read : entry_name header ≡ path
  name_read =
      entry_name-header_block host path st user group file.name.0 ∙ take_all 99 path file.name.2

  not_end : (get_or header 0 0 == 0) ≡ false
  not_end = first path refl file.name
    where
      nonzero : (c : ℕ) → c ≢ 0 → (c == 0) ≡ false
      nonzero c h = ground arith

      first : (p : FileName) → path ≡ p → IsName p → (get_or header 0 0 == 0) ≡ false
      first [] e n = absurd (omega (arith, n.1))
      first (c ∷ rest) e n =
          ap (λ v. v == 0) (first_byte host path st user group c rest e) ∙ nonzero c n.0.0

  module _ (env : Env) (fn : Handler) (m : Machine) (rest : List ℕ)
      (buffer : length m.block ≡ Header.end)
      (next : m.input ≡ (header ++ padded bytes) ++ rest) where
    -- The machine with the header in its buffer.
    abbrev pub with_header : Machine
    with_header = record m { block = header; input = padded bytes ++ rest }

    -- One round of `tar`: it hands the entry's own name and size to the handler.
    pub tar_round :
        (fuel : ℕ)
        → tar_loop (suc fuel) env fn m
          ≡ (handle env fn path (pos (length bytes)) with_header >>= λ m2. tar_loop fuel env fn m2)
    tar_round fuel =
        tar_loop_header fuel env fn m with_header read not_end ∙ rw (name_read, size_read)
      where
        read : fread_block m ≡ (true, with_header)
        read =
            fread_block-append m header (padded bytes ++ rest) buffer
              (length-header_block host path st user group)
              (next ∙ append_assoc header (padded bytes) rest)

-- What listing or extracting one entry leaves behind.
pub record Passed (fuel : ℕ) (env : Env) (fn : Handler) (made : List Call → Type 0) (rest : List ℕ)
    (m : Machine) : Type 0 where
  pub end : Machine
  pub goes_on : tar_loop (suc fuel) env fn m ≡ tar_loop fuel env fn end
  pub behind : end.input ≡ rest
  pub whole_block : length end.block ≡ Header.end
  pub calls : List Call
  pub called : end.calls ≡ calls ++ m.calls
  pub as_made : made calls

module _ {host : Host} {path : FileName} {st : Stat} {user group bytes : List ℕ}
    (file : IsFile host path st user group bytes) (env : Env) (fuel : ℕ) (m : Machine)
    (rest : List ℕ) (buffer : length m.block ≡ Header.end)
    (next : m.input ≡ (header_block host path st user group ++ padded bytes) ++ rest) where
  abbrev pub start : Machine
  start = record m { block = header_block host path st user group; input = padded bytes ++ rest }

  -- `t` prints the name and skips the data.
  pub list_entry : Passed fuel env list (λ calls. calls ≡ puts path ∷ []) rest m
  list_entry =
      let l = pos (length bytes) in
      let copied =
        copy_out-padded (rounds l) none l bytes rest (emit (puts path) start) refl (omega arith)
          (length-header_block host path st user group) refl in
      record {
        end = copied.end;
        goes_on =
            tar_round file env list m rest buffer next fuel
            ∙ ap (λ r. r >>= λ m2. tar_loop fuel env list m2) (listed ∙ copied.returns);
        behind = copied.behind;
        whole_block = copied.whole_block;
        calls = puts path ∷ [];
        called = copied.called ∙ ap (λ cs. cs ++ (puts path ∷ m.calls)) copied.writes;
        as_made = refl;
      }
    where
      listed :
          handle env list path (pos (length bytes)) start
          ≡ copy_out
              (rounds (pos (length bytes)))
              none
              (pos (length bytes))
              (emit (puts path) start)
      listed = unfold handle t in refl
