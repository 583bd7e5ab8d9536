-- ===== src/Sltar/Create/Common.antt =====
-- The fields that `c_file` stores for every entry.
use electrum_lightning_test.Base.{
  ℕ, ◌+◌, ◌≤◌, arith, inl, inr, List, length, length-overwrite, length-replicate, replicate,
  overwrite, bit_and,
}
use electrum_lightning_test.Base.Region.{Holds, Holds-self, Holds-keep}
use electrum_lightning_test.Sltar.Header
use electrum_lightning_test.Sltar.Text.{snprintf}
use electrum_lightning_test.Sltar.Create.{
  FileName, Stat, ustar, version, octal7, octal11, common_fields,
}
use electrum_lightning_test.Sltar.Create.Fields.{length-snprintf}

ruleset sizes = (arith, length-snprintf)

-- A store that starts behind the field keeps it; a store that ends in front of it keeps it.
behind :
    (b : List ℕ) (k : ℕ) (s : List ℕ) (off : ℕ) (t : List ℕ)
    → k + length s ≤ off
    → Holds b k s
    → Holds (overwrite b off t) k s
behind b k s off t h e = Holds-keep b k s off t (inr h) e

in_front :
    (b : List ℕ) (k : ℕ) (s : List ℕ) (off : ℕ) (t : List ℕ)
    → off + length t ≤ k
    → Holds b k s
    → Holds (overwrite b off t) k s
in_front b k s off t h e = Holds-keep b k s off t (inl h) e

abbrev blank : List ℕ
blank = replicate Header.end 0

abbrev with_size : List ℕ
with_size = overwrite blank Header.size (replicate 12 b'0')

abbrev with_version : List ℕ
with_version = overwrite (overwrite with_size Header.magic ustar) Header.vers version

module _ (path : FileName) (st : Stat) (user group : List ℕ) where
  pub common-mode :
      Holds (common_fields path st user group) Header.mode (octal7 (bit_and st.st_mode 0o777))
  unfolding common_fields
  common-mode =
      let s = octal7 (bit_and st.st_mode 0o777) in
      let k = Header.mode in
      behind _ k s Header.gname _ (omega sizes) (
        behind _ k s Header.uname _ (omega sizes) (
          behind _ k s Header.mtime _ (omega sizes) (
            behind _ k s Header.gid _ (omega sizes) (
              behind _ k s Header.uid _ (omega sizes)
                (Holds-self _ k s (omega (sizes, length-overwrite {0}, length-replicate {0})))))))

  pub common-name : Holds (common_fields path st user group) Header.name (snprintf 100 path)
  unfolding common_fields
  common-name =
      let s : List ℕ = snprintf 100 path in
      let k = Header.name in
      behind _ k s Header.gname (snprintf 32 group) (omega sizes) (
        behind _ k s Header.uname (snprintf 32 user) (omega sizes) (
          behind _ k s Header.mtime (octal11 st.st_mtime) (omega sizes) (
            behind _ k s Header.gid (octal7 st.st_gid) (omega sizes) (
              behind _ k s Header.uid (octal7 st.st_uid) (omega sizes) (
                behind _ k s Header.mode (octal7 (bit_and st.st_mode 0o777)) (omega sizes) (
                  Holds-self with_version k s
                    (omega (sizes, length-overwrite {0}, length-replicate {0}))))))))

  pub common-uid : Holds (common_fields path st user group) Header.uid (octal7 st.st_uid)
  unfolding common_fields
  common-uid =
      let s : List ℕ = octal7 st.st_uid in
      let k = Header.uid in
      behind _ k s Header.gname (snprintf 32 group) (omega sizes) (
        behind _ k s Header.uname (snprintf 32 user) (omega sizes) (
          behind _ k s Header.mtime (octal11 st.st_mtime) (omega sizes) (
            behind _ k s Header.gid (octal7 st.st_gid) (omega sizes)
              (Holds-self _ k s (omega (sizes, length-overwrite {0}, length-replicate {0}))))))

  pub common-gid : Holds (common_fields path st user group) Header.gid (octal7 st.st_gid)
  unfolding common_fields
  common-gid =
      let s : List ℕ = octal7 st.st_gid in
      let k = Header.gid in
      behind _ k s Header.gname (snprintf 32 group) (omega sizes) (
        behind _ k s Header.uname (snprintf 32 user) (omega sizes) (
          behind _ k s Header.mtime (octal11 st.st_mtime) (omega sizes)
            (Holds-self _ k s (omega (sizes, length-overwrite {0}, length-replicate {0})))))

  pub common-mtime : Holds (common_fields path st user group) Header.mtime (octal11 st.st_mtime)
  unfolding common_fields
  common-mtime =
      let s : List ℕ = octal11 st.st_mtime in
      let k = Header.mtime in
      behind _ k s Header.gname (snprintf 32 group) (omega sizes) (
        behind _ k s Header.uname (snprintf 32 user) (omega sizes)
          (Holds-self _ k s (omega (sizes, length-overwrite {0}, length-replicate {0}))))

  pub common-size : Holds (common_fields path st user group) Header.size (replicate 12 b'0')
  unfolding common_fields
  common-size =
      let s : List ℕ = replicate 12 b'0' in
      let k = Header.size in
      behind _ k s Header.gname (snprintf 32 group) (omega sizes) (
        behind _ k s Header.uname (snprintf 32 user) (omega sizes) (
          behind _ k s Header.mtime (octal11 st.st_mtime) (omega sizes) (
            in_front _ k s Header.gid (octal7 st.st_gid) (omega sizes) (
              in_front _ k s Header.uid (octal7 st.st_uid) (omega sizes) (
                in_front _ k s Header.mode (octal7 (bit_and st.st_mode 0o777)) (omega sizes) (
                  in_front _ k s Header.name (snprintf 100 path) (omega sizes) (
                    behind _ k s Header.vers version (omega sizes) (
                      behind _ k s Header.magic ustar (omega sizes) (
                        Holds-self blank k s
                          (omega (sizes, length-overwrite {0}, length-replicate {0})))))))))))

  pub common-magic : Holds (common_fields path st user group) Header.magic ustar
  unfolding common_fields
  common-magic =
      let s : List ℕ = ustar in
      let k = Header.magic in
      behind _ k s Header.gname (snprintf 32 group) (omega sizes) (
        behind _ k s Header.uname (snprintf 32 user) (omega sizes) (
          in_front _ k s Header.mtime (octal11 st.st_mtime) (omega sizes) (
            in_front _ k s Header.gid (octal7 st.st_gid) (omega sizes) (
              in_front _ k s Header.uid (octal7 st.st_uid) (omega sizes) (
                in_front _ k s Header.mode (octal7 (bit_and st.st_mode 0o777)) (omega sizes) (
                  in_front _ k s Header.name (snprintf 100 path) (omega sizes) (
                    behind _ k s Header.vers version (omega sizes) (
                      Holds-self with_size k s
                        (omega (sizes, length-overwrite {0}, length-replicate {0}))))))))))
