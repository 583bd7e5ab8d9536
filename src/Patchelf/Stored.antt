-- ===== src/Patchelf/Stored.antt =====
-- A new soname and a new run path, where the file has no entry for them: `modifySoname` and
-- `modifyRPath` from `replaceSection` on.
use electrum_lightning_test.Base.{ℕ, ◌+◌, ◌≡◌, refl, Bool, List, length, none, if◌then◌else◌}
use electrum_lightning_test.Patchelf.Elf.Tag.{dt_soname, dt_rpath, dt_runpath}
use electrum_lightning_test.Patchelf.Result.{ok}
use electrum_lightning_test.Patchelf.File.{Elf}
use electrum_lightning_test.Patchelf.Needed.{mark_changed}
use electrum_lightning_test.Patchelf.Refer.{HasTables, Refers, refer_lem}
use electrum_lightning_test.Patchelf.Soname.{store_soname}
use electrum_lightning_test.Patchelf.Rpath.{Found, store_rpath}

-- When the file has no DT_SONAME, modifySoname puts the name with its NUL behind the string table and a
-- DT_SONAME entry at the top of the others, whose value is where the name stands, in either byte order,
-- and the file counts as changed; its contents stay.
pub store_soname_new :
    (e : Elf) (name dynamic dynstr strings : List ℕ) (ds : List (List ℕ)) (behind : List ℕ)
    → HasTables e dynamic dynstr strings ds behind (length name + 1)
    → (e' : Elf) × (store_soname e dynamic dynstr none name ≡ ok (mark_changed e'))
      × Refers e dt_soname name strings ds e'
unfolding store_soname
store_soname_new e name dynamic dynstr strings ds behind h =
    let r = refer_lem e dt_soname name dynamic dynstr strings ds behind h in
    (r.1.0, rw r.0 (rw r.1.1 refl), r.1.2)

-- The end of modifyRPath, when neither a DT_RPATH nor a DT_RUNPATH entry was found.
pub store_rpath_new :
    (force : Bool) (e : Elf) (found : Found) (path dynamic dynstr strings : List ℕ)
    (ds : List (List ℕ)) (behind : List ℕ)
    → found.dyn_rpath ≡ none
    → found.dyn_run_path ≡ none
    → HasTables e dynamic dynstr strings ds behind (length path + 1)
    → (e' : Elf) × (store_rpath force e dynamic dynstr found path ≡ ok e')
      × Refers e (if force then dt_rpath else dt_runpath) path strings ds e'
unfolding store_rpath
store_rpath_new force e found path dynamic dynstr strings ds behind no_rpath no_run_path h =
    let r =
      refer_lem e (if force then dt_rpath else dt_runpath) path dynamic dynstr strings ds behind
        h in
    (r.1.0, rw r.0 (rw (no_rpath, no_run_path) r.1.1), r.1.2)
