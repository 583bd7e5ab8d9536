-- ===== src/Patchelf/Rpath.antt =====
-- `modifyRPath` and `concatToRPath` of bitcoin-core/patchelf-0.9/src/patchelf.cc. `exists` answers
-- `stat(path) == 0`, and `force` is `forceRPath`.
pub mod Shrink
pub mod Loop
pub mod Added
use electrum_lightning_test.Base.{
  ℕ, suc, zero, ◌+◌, ◌-◌, ◌==◌, leb, not, Bool, true, false, List, [], ◌∷◌, ◌++◌, length, replicate,
  Option, none, some, ◌&&◌, ◌||◌, get_or, if◌then◌else◌,
}
use electrum_lightning_test.Patchelf.Elf.{d_un, d_tag}
use electrum_lightning_test.Patchelf.Elf.Tag.{dt_needed, dt_rpath, dt_runpath, dt_ignore}
use electrum_lightning_test.Patchelf.Result.{Result, ok, fault, ◌>>=◌, ◌>>◌}
use electrum_lightning_test.Patchelf.File.{Elf}
use electrum_lightning_test.Patchelf.Section.{string_eq}
use electrum_lightning_test.Patchelf.Dynamic.{
  Name, dot_dynamic, dot_dynstr, section_header, read_field, write_bytes, write_raw, c_string,
  for_dyn, dyn_rounds, edit_section, push_dyn, raw_size,
}
use electrum_lightning_test.Patchelf.Needed.{offset_of, size_of, mark_changed, compact, needed_name}
use electrum_lightning_test.Patchelf.Soname.{check_strtab, string_at, cross_out}

unfoldable pub concat_to_rpath : Name → Name → Name
concat_to_rpath [] path = path
concat_to_rpath (c ∷ rpath) path = (c ∷ rpath) ++ b':' ∷ path

-- `strchr(pos, ':')`, or the end: the characters before it, and those from it on.
unfoldable pub until_colon : Name → Name × Name
until_colon [] = ([], [])
until_colon (c ∷ s) = if c == b':' then ([], c ∷ s) else (c ∷ (until_colon s).0, (until_colon s).1)

-- `if (*end == ':') ++end;`
abbrev pub skip_colon : Name → Name
skip_colon [] = []
skip_colon (c ∷ s) = if c == b':' then s else c ∷ s

-- The libraries, each with whether it has been found; a round marks those that the directory has,
-- and tells whether there is one.
unfoldable pub look_for :
    (exists : Name → Bool) → (dir : Name) → List (Name × Bool) → List (Name × Bool) × Bool
look_for exists dir [] = ([], false)
look_for exists dir (lib ∷ libs) =
    let (rest, any) = look_for exists dir libs in
    let new = not lib.1 && exists (dir ++ b'/' ∷ lib.0) in
    ((lib.0, lib.1 || new) ∷ rest, new || any)

-- The `while (*pos)` loop, with the path from `pos` on. A round takes a character at least.
unfoldable pub shrink_loop :
    (exists : Name → Bool)
    → (fuel : ℕ) → (pos : Name) → List (Name × Bool)
    → (new_rpath : Name) → Name
shrink_loop exists zero pos libs new_rpath = new_rpath
shrink_loop exists (suc fuel) [] libs new_rpath = new_rpath
shrink_loop exists (suc fuel) (c ∷ pos) libs new_rpath =
    let dir = (until_colon (c ∷ pos)).0 in
    let rest = skip_colon (until_colon (c ∷ pos)).1 in
    elim (get_or dir 0 0 == b'/') [
      | false ↦ shrink_loop exists fuel rest libs (concat_to_rpath new_rpath dir)
      | true ↦
          let looked = look_for exists dir libs in
          shrink_loop exists fuel rest looked.0
            (if looked.1 then concat_to_rpath new_rpath dir else new_rpath)
    ]

abbrev pub not_found : List Name → List (Name × Bool)
not_found [] = []
not_found (lib ∷ libs) = (lib, false) ∷ not_found libs

unfoldable pub shrink : (exists : Name → Bool) → List Name → Name → Name
shrink exists libs rpath = shrink_loop exists (length rpath) rpath (not_found libs) []

-- `dynRPath`, `dynRunPath` and `rpath` as offsets, and `neededLibs`, which is static: it keeps the
-- libraries of an earlier call.
pub record Found : Type 0 where
  pub dyn_rpath : Option ℕ
  pub dyn_run_path : Option ℕ
  pub rpath : Option ℕ
  pub needed_libs : List Name

unfoldable pub rpath_body : (strtab at tag : ℕ) → Elf → Found → Result (Elf × Found)
rpath_body strtab at tag e found = elim (tag == dt_rpath) [
  | true ↦ elim found.dyn_run_path [
    | some p ↦ ok (e, record found { dyn_rpath = some at })
    | none ↦ do
      value ← read_field e at (d_un e.class_of)
      ok (e, record found { dyn_rpath = some at; rpath = some (strtab + value) })
  ]
  | false ↦ elim (tag == dt_runpath) [
    | true ↦ do
      value ← read_field e at (d_un e.class_of)
      ok (e, record found { dyn_run_path = some at; rpath = some (strtab + value) })
    | false ↦ elim (tag == dt_needed) [
      | true ↦ do
        name ← needed_name strtab at e
        ok (e, record found { needed_libs = found.needed_libs ++ name ∷ [] })
      | false ↦ ok (e, found)
    ]
  ]
]

-- The loop of `rpRemove` drops both kinds of entries.
unfoldable pub drops_rpath : (at tag : ℕ) → Elf → Result Bool
drops_rpath at tag e = ok ((tag == dt_rpath) || (tag == dt_runpath))

-- `p->f = v` or `p->f = bytes` if there is an entry
unfoldable pub set_tag : Option ℕ → (tag : ℕ) → Elf → Result Elf
set_tag none tag e = ok e
set_tag (some at) tag e = write_raw e at (d_tag e.class_of) tag

unfoldable pub set_value_bytes : Option ℕ → List ℕ → Elf → Result Elf
set_value_bytes none b e = ok e
set_value_bytes (some at) b e = write_bytes e (at + (d_un e.class_of).at) b

abbrev pub is_some : Option ℕ → Bool
is_some none = false
is_some (some p) = true

-- The conversions between DT_RPATH and DT_RUNPATH: the object and the entries as they stand then.
unfoldable pub convert : (force : Bool) → Elf → Found → Result (Elf × Found)
convert force e found =
    let only_rpath = is_some found.dyn_rpath && not (is_some found.dyn_run_path) in
    let both = is_some found.dyn_rpath && is_some found.dyn_run_path in
    elim (not force && only_rpath) [
      | true ↦ do
        e' ← set_tag found.dyn_rpath dt_runpath e
        ok (e', record found { dyn_run_path = found.dyn_rpath; dyn_rpath = none })
      | false ↦ elim (force && both) [
        | true ↦ do e' ← set_tag found.dyn_run_path dt_ignore e; ok (e', found)
        | false ↦ ok (e, found)
      ]
    ]

-- The path gets a place behind `.dynstr`, and the entries, or a new one, refer to it.
unfoldable pub store_rpath :
    (force : Bool) → Elf → (dynamic dynstr : List ℕ) → Found → Name → Result Elf
store_rpath force e dynamic dynstr found new_rpath = do
  let size = size_of e dynstr
  e1 ← edit_section e dot_dynstr (size + length new_rpath + 1) size (new_rpath ++ 0 ∷ [])
  elim (is_some found.dyn_run_path || is_some found.dyn_rpath) [
    | true ↦ do
      e2 ← set_value_bytes found.dyn_run_path (raw_size e dynstr) e1
      set_value_bytes found.dyn_rpath (raw_size e dynstr) e2
    | false ↦ push_dyn e1 dynamic (if force then dt_rpath else dt_runpath) (raw_size e dynstr)
  ]

-- `strcpy(rpath, new)`
unfoldable pub copy_string : Option ℕ → Name → Elf → Result Elf
copy_string none s e = fault
copy_string (some p) s e = write_bytes e p (s ++ 0 ∷ [])

-- From the comparison with the path so far to the end.
unfoldable pub set_rpath :
    (force : Bool) → Elf → (dynamic dynstr : List ℕ) → Found → Name → Result Elf
set_rpath force e dynamic dynstr found new_rpath = do
  old ← string_at e found.rpath
  elim (string_eq old new_rpath) [
    | true ↦ ok e
    | false ↦ do
      crossed ← cross_out (mark_changed e) found.rpath
      converted ← convert force crossed.0 found
      elim (leb (length new_rpath) crossed.1) [
        | true ↦ copy_string found.rpath new_rpath converted.0
        | false ↦ store_rpath force converted.0 dynamic dynstr converted.1 new_rpath
      ]
  ]

pub data RPathOp : Type 0 where
  rp_print rp_shrink rp_remove rp_set : RPathOp

-- The branches on `op`; a line printed comes with the object.
unfoldable pub rpath_op :
    (exists : Name → Bool)
    → (force : Bool) → RPathOp
    → Elf
    → (dynamic dynstr : List ℕ) → Found
    → Name
    → Result (Elf × List Name)
rpath_op exists force rp_print e dynamic dynstr found new_rpath = do
  s ← string_at e found.rpath
  ok (e, s ∷ [])
rpath_op exists force rp_shrink e dynamic dynstr found new_rpath = elim found.rpath [
  | none ↦ ok (e, [])
  | some p ↦ do
    s ← c_string e p
    e' ← set_rpath force e dynamic dynstr found (shrink exists found.needed_libs s)
    ok (e', [])
]
rpath_op exists force rp_remove e dynamic dynstr found new_rpath = elim found.rpath [
  | none ↦ ok (e, [])
  | some p ↦ do e' ← compact drops_rpath (offset_of e dynamic) e; ok (e', [])
]
rpath_op exists force rp_set e dynamic dynstr found new_rpath = do
  e' ← set_rpath force e dynamic dynstr found new_rpath
  ok (e', [])

-- `known` is `neededLibs` before the call; the result has it as it is after.
unfoldable pub modify_rpath :
    (exists : Name → Bool)
    → (force : Bool) → (known : List Name) → RPathOp
    → Name
    → Elf
    → Result (Elf × List Name × List Name)
modify_rpath exists force known op new_rpath e = do
  dynamic ← section_header e dot_dynamic
  dynstr ← section_header e dot_dynstr
  check_strtab e dynamic dynstr
  r ←
      for_dyn (rpath_body (offset_of e dynstr)) (dyn_rounds e) (offset_of e dynamic) e
        (record { dyn_rpath = none; dyn_run_path = none; rpath = none; needed_libs = known })
  out ← rpath_op exists force op e dynamic dynstr r.1 new_rpath
  ok (out.0, out.1, r.1.needed_libs)
