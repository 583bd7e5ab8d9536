-- ===== src/Sltar/Create/Unreadable.antt =====
-- A regular file that `lstat` sees and `fopen` refuses.
use electrum_lightning_test.Base.{◌^◌, ◌-◌, ◌≡◌, true, none, some, List, ℕ, min}
use electrum_lightning_test.Base.Int.{pos}
use electrum_lightning_test.Sltar.Kind
use electrum_lightning_test.Sltar.Kind.{has_type}
use electrum_lightning_test.Sltar.Create.{FileName, Stat, Host, u32, opened, c_file, header_block}
use electrum_lightning_test.Sltar.Extract.{entry_size}
use electrum_lightning_test.Sltar.Extract.Entry.{size-regular}

-- When a regular file cannot be opened, `c_file` still succeeds: it writes a header that announces
-- the file's size, and no data block.
pub c_file_unreadable :
    (host : Host) (path : FileName) (st : Stat) (user group : List ℕ)
    → has_type st.st_mode Kind.s_ifreg ≡ true
    → host.user_name st.st_uid ≡ some user
    → host.group_name st.st_gid ≡ some group
    → host.open_read path ≡ none
    → (c_file host path st ≡ some (header_block host path st user group))
      × (entry_size (header_block host path st user group)
          ≡ pos (min (u32 st.st_size) (2 ^ 31 - 1)))
unfolding c_file opened
c_file_unreadable host path st user group regular known_user known_group refused =
    (rw (known_user, known_group, regular, refused), size-regular host path st user group regular)
