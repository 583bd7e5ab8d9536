-- ===== src/Sltar/RoundTrip/Whole.antt =====
-- Whole archives of regular files: what `walk_files` writes, `tar` lists and extracts.
use electrum_lightning_test.Base.{
  ℕ, zero, suc, ◌≤◌, ◌<◌, ◌≡◌, refl, sym, ap, ◌∙◌, arith, true, Option, some, List, [], ◌∷◌, ◌++◌,
  length, length-append, All, overwrite,
}
use electrum_lightning_test.Sltar.Header
use electrum_lightning_test.Sltar.Create.{FileName, Stat, Host, header_block, walk_files}
use electrum_lightning_test.Sltar.Create.Fields.{length-header_block}
use electrum_lightning_test.Sltar.Extract.{
  Call, puts, Env, Machine, Handler, extract, list, tar_loop, tar, fread_block,
}
use electrum_lightning_test.Sltar.RoundTrip.Data.{padded}
use electrum_lightning_test.Sltar.RoundTrip.Archive.{IsFile, c_file-regular, Passed, list_entry}
use electrum_lightning_test.Sltar.RoundTrip.Extracted.{ExtractCalls, extract_entry}
use mathlib.Core.List.{append_assoc, append-nil}
use mathlib.Core.Path.{subst}

-- A file with all that is known about it.
pub record Item : Type 0 where
  pub path : FileName
  pub stat : Stat
  pub user : List ℕ
  pub group : List ℕ
  pub bytes : List ℕ

abbrev pub AreFiles : Host → List Item → Type 0
AreFiles host items = All (λ i. IsFile host i.path i.stat i.user i.group i.bytes) items

abbrev pub listed_files : List Item → List (FileName × Stat)
listed_files [] = []
listed_files (i ∷ items) = (i.path, i.stat) ∷ listed_files items

abbrev pub blocks_of : Host → List Item → List ℕ
blocks_of host [] = []
blocks_of host (i ∷ items) =
    (header_block host i.path i.stat i.user i.group ++ padded i.bytes) ++ blocks_of host items

-- The calls that one entry causes, the last one first.
abbrev pub EntryCalls : Env → Handler → Item → List Call → Type 0
EntryCalls env list i calls = calls ≡ puts i.path ∷ []
EntryCalls env extract i calls = ExtractCalls env i.path i.stat i.bytes calls

-- Those of all entries, in the order of the archive.
abbrev pub ArchiveCalls : Env → Handler → List Item → List Call → Type 0
ArchiveCalls env fn [] calls = calls ≡ []
ArchiveCalls env fn (i ∷ items) calls =
    (first : List Call) × (later : List Call) × (calls ≡ later ++ first)
    × EntryCalls env fn i first
    × ArchiveCalls env fn items later

pub archived :
    (host : Host) (items : List Item)
    → AreFiles host items
    → walk_files host (listed_files items) ≡ some (blocks_of host items)
unfolding walk_files
archived host [] h = refl
archived host (i ∷ items) h = rw (c_file-regular h.0, archived host items h.1)

module _ (env : Env)
    (succeeds : (calls : List Call) (call : Call) → env.answer calls call ≡ true) where
  entry :
      (fn : Handler) (fuel : ℕ) (host : Host) (i : Item) (m : Machine) (rest : List ℕ)
      → IsFile host i.path i.stat i.user i.group i.bytes
      → length m.block ≡ Header.end
      → m.input ≡ (header_block host i.path i.stat i.user i.group ++ padded i.bytes) ++ rest
      → Passed fuel env fn (EntryCalls env fn i) rest m
  entry list fuel host i m rest file buffer next = list_entry file env fuel m rest buffer next
  entry extract fuel host i m rest file buffer next =
      extract_entry file env succeeds fuel m rest buffer next

  -- The run ends with nothing left, and its calls are those of the entries.
  abbrev Done : Handler → List Item → Machine → Option Machine → Type 0
  Done fn items m r =
      (end : Machine) × (r ≡ some end)
      × (end.input ≡ [])
      × (calls : List Call) × (end.calls ≡ calls ++ m.calls)
      × ArchiveCalls env fn items calls

  at_end :
      (fuel : ℕ) (fn : Handler) (m : Machine)
      → m.input ≡ []
      → Done fn [] m (tar_loop (suc fuel) env fn m)
  at_end fuel fn m e = (
    record m { block = overwrite m.block 0 []; input = [] },
    ap (tar_loop (suc fuel) env fn)
          (let same : m ≡ record m { input = [] } = λ i. record m { input = e i } in same)
        ∙ stop,
    refl,
    [],
    refl,
    refl,
  )
    where
      stop :
          tar_loop (suc fuel) env fn (record m { input = [] })
          ≡ some (record m { block = overwrite m.block 0 []; input = [] })
      stop = unfold tar_loop fread_block in refl

  entries :
      (fn : Handler) (fuel : ℕ) (host : Host) (items : List Item) (m : Machine)
      → AreFiles host items
      → length items < fuel
      → length m.block ≡ Header.end
      → m.input ≡ blocks_of host items
      → Done fn items m (tar_loop fuel env fn m)
  entries fn zero host items m h lt buffer next = absurd (omega arith)
  entries fn (suc fuel) host [] m h lt buffer next = at_end fuel fn m next
  entries fn (suc fuel) host (i ∷ items) m h lt buffer next =
      let one = entry fn fuel host i m (blocks_of host items) h.0 buffer next in
      let (end, e, empty, calls, called, made) =
        entries fn fuel host items one.end h.1 (omega arith) one.whole_block one.behind in
      (
        end,
        one.goes_on ∙ e,
        empty,
        calls ++ one.calls,
        called ∙ ap (λ cs. calls ++ cs) one.called ∙ sym (append_assoc calls one.calls m.calls),
        (one.calls, calls, refl, one.as_made, made),
      )

  length-blocks_of :
      (host : Host) (items : List Item) → length items ≤ length (blocks_of host items)
  length-blocks_of host [] = omega arith
  length-blocks_of host (i ∷ items) =
      let header = header_block host i.path i.stat i.user i.group in
      omega (
        arith,
        length-append (header ++ padded i.bytes) (blocks_of host items),
        length-append header (padded i.bytes),
        length-header_block host i.path i.stat i.user i.group,
        length-blocks_of host items,
      )

  -- When every call succeeds (a parameter above), and the files are regular and readable, as long as
  -- their `st_size` says and shorter than 2 GiB, with known owners, numbers of owners below 8^7 and
  -- names of 1 to 99 characters, as `AreFiles` says: on the archive that `walk_files` writes for them
  -- `tar` ends with no input left, and its calls are, entry by entry, those of the archived files.
  pub tar-walk_files :
      (fn : Handler) (host : Host) (items : List Item) (archive block : List ℕ)
      → AreFiles host items
      → walk_files host (listed_files items) ≡ some archive
      → length block ≡ Header.end
      → (end : Machine) × (tar env fn (record { block = block; input = archive; calls = [] })
          ≡ some end)
        × (end.input ≡ [])
        × ArchiveCalls env fn items end.calls
  unfolding tar
  tar-walk_files fn host items archive block h wrote buffer =
      let m : Machine = record { block = block; input = archive; calls = [] } in
      let same : archive ≡ blocks_of host items = cc (wrote, archived host items h) in
      let (end, e, empty, calls, called, made) =
        entries fn (suc (length archive)) host items m h
          (omega (arith, ap length same, length-blocks_of host items)) buffer same in
      (end, e, empty, subst (ArchiveCalls env fn items) (sym (called ∙ append-nil calls)) made)
