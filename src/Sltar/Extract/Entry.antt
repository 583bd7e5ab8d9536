-- ===== src/Sltar/Extract/Entry.antt =====
-- What `tar` and `x` read from a header block that `c_file` wrote.
use electrum_lightning_test.Base.{
  ℕ, zero, suc, ◌+◌, ◌-◌, ◌%◌, ◌^◌, ◌≤◌, ◌<◌, ◌≡◌, refl, ap, ap₂, ◌∙◌, arith, inl, inr, ◌≢◌, true,
  false, List, [], ◌∷◌, ◌++◌, min, length, All, take, drop, get_or, replicate, overwrite,
  length-overwrite, length-take, bit_and, All-take,
}
use electrum_lightning_test.Base.Bits.{bit_and_low}
use electrum_lightning_test.Base.Int.{pos}
use electrum_lightning_test.Base.Region.{Holds, Holds-self, Holds-keep, drop-Holds, get_or-Holds}
use electrum_lightning_test.Sltar.Header
use electrum_lightning_test.Sltar.Kind
use electrum_lightning_test.Sltar.Kind.{has_type}
use electrum_lightning_test.Sltar.Text.{c_str, print_octal, snprintf, strtoul, strtol}
use electrum_lightning_test.Sltar.Text.Octal.{
  octal_field, print_octal-octal_field, snprintf_fits, length-octal_field, strtoul-octal_field,
  strtol-octal_field, strtol_runs_on,
}
use electrum_lightning_test.Sltar.Checksum.{chksum, chksum_loop}
use electrum_lightning_test.Sltar.Checksum.Laws.{chksum-overwrite}
use electrum_lightning_test.Sltar.Create.{
  FileName, Stat, Host, u32, octal7, octal11, common_fields, regular_fields, type_fields,
  header_block,
}
use electrum_lightning_test.Sltar.Create.Common.{
  common-name, common-mode, common-uid, common-gid, common-size, common-mtime,
}
use electrum_lightning_test.Sltar.Create.Fields.{
  length-snprintf, length-common_fields, header_block_keeps, length-type_fields, checksum_keeps,
  special_fields_keeps,
}
use electrum_lightning_test.Sltar.Extract.{entry_name, entry_size, octal_at, strncmp_eq}
use mathlib.Core.List.{append_assoc}

-- A stored octal number that fits its field: the digits and a NUL.
octal7_fits : (n : ℕ) → n < 8 ^ 7 → octal7 n ≡ octal_field 7 n ++ (0 ∷ [])
octal7_fits n h =
    let e : u32 n ≡ n = omega arith in
    rw (e, print_octal-octal_field 7 n (omega arith) h)
      (snprintf_fits (octal_field 7 n) 8 (omega (arith, length-octal_field 7 n)))

octal11_fits : (n : ℕ) → octal11 n ≡ octal_field 11 (u32 n) ++ (0 ∷ [])
octal11_fits n =
    rw (print_octal-octal_field 11 (u32 n) (omega arith) (omega arith))
      (snprintf_fits (octal_field 11 (u32 n)) 12 (omega (arith, length-octal_field 11 (u32 n))))

-- What a reader sees from the field on.
seen :
    (b : List ℕ) (k width n : ℕ) {s : List ℕ}
    → s ≡ octal_field width n ++ (0 ∷ [])
    → Holds b k s
    → drop k b ≡ octal_field width n ++ (0 ∷ drop (k + length s) b)
seen b k width n {s} e h =
    drop-Holds b k (k + length s) s h refl
    ∙ ap (λ t. t ++ drop (k + length s) b) e
    ∙ append_assoc (octal_field width n) (0 ∷ []) (drop (k + length s) b)

octal_at_field : (b : List ℕ) (k n : ℕ) → n < 8 ^ 7 → Holds b k (octal7 n) → octal_at k b ≡ n
octal_at_field b k n small h =
    ap (strtoul 32) (seen b k 7 n (octal7_fits n small) h)
    ∙ strtoul-octal_field 32 7 n (drop (k + length (octal7 n)) b) small (omega arith)

c_str_prefix :
    (n : ℕ) (s rest : List ℕ)
    → All (λ c. c ≢ 0) s
    → length s < n
    → c_str (take n (s ++ (0 ∷ rest))) ≡ s
unfolding c_str
c_str_prefix zero s rest h k = absurd (omega arith)
c_str_prefix (suc n) [] rest h k = refl
c_str_prefix (suc n) (c ∷ s) rest h k = ground (arith, c_str_prefix n s rest h.1 (omega arith))

strncmp_eq-append :
    (n : ℕ) (s rest : List ℕ) → strncmp_eq n (s ++ (0 ∷ rest)) (s ++ (0 ∷ [])) ≡ true
unfolding strncmp_eq
strncmp_eq-append zero s rest = refl
strncmp_eq-append (suc n) [] rest = refl
strncmp_eq-append (suc n) (c ∷ s) rest = ground (arith, strncmp_eq-append n s rest)

module _ (host : Host) (path : FileName) (st : Stat) (user group : List ℕ) where
  abbrev b : List ℕ
  b = header_block host path st user group

  -- `tar` finds the file's name again, cut to 99 bytes.
  pub entry_name-header_block :
      All (λ c. c ≢ 0) path → entry_name (header_block host path st user group) ≡ take 99 path
  unfolding entry_name snprintf
  entry_name-header_block clean =
      let s = snprintf 100 path in
      let whole =
        drop-Holds b 0 (length s) s
          (header_block_keeps 0 s (inl (omega (arith, length-snprintf))) host path st user group
            (inr (omega (arith, length-snprintf))) (common-name path st user group))
          (omega arith) in
      ap (λ t. c_str (take 100 t))
        (whole ∙ append_assoc (take 99 path) (0 ∷ []) (drop (length s) b))
      ∙ c_str_prefix 100 (take 99 path) (drop (length s) b) (All-take _ 99 path clean)
          (omega (arith, length-take 99 path))

  -- `x` finds the permission bits again.
  pub mode-header_block :
      octal_at Header.mode (header_block host path st user group) ≡ st.st_mode % 512
  mode-header_block =
      octal_at_field b Header.mode (bit_and st.st_mode 0o777)
        (omega (arith, bit_and_low 9 st.st_mode))
        (header_block_keeps Header.mode _ (inl (omega (arith, length-snprintf))) host path st user
          group (inr (omega (arith, length-snprintf))) (common-mode path st user group))
      ∙ bit_and_low 9 st.st_mode

  pub uid-header_block :
      st.st_uid < 8 ^ 7 → octal_at Header.uid (header_block host path st user group) ≡ st.st_uid
  uid-header_block small = octal_at_field b Header.uid st.st_uid small (
      header_block_keeps Header.uid _ (inl (omega (arith, length-snprintf))) host path st user group
        (inr (omega (arith, length-snprintf))) (common-uid path st user group))

  pub gid-header_block :
      st.st_gid < 8 ^ 7 → octal_at Header.gid (header_block host path st user group) ≡ st.st_gid
  gid-header_block small = octal_at_field b Header.gid st.st_gid small (
      header_block_keeps Header.gid _ (inl (omega (arith, length-snprintf))) host path st user group
        (inr (omega (arith, length-snprintf))) (common-gid path st user group))

  -- The header starts with the name's first byte.
  pub first_byte :
      (c : ℕ) (rest : List ℕ)
      → path ≡ c ∷ rest
      → get_or (header_block host path st user group) 0 0 ≡ c
  unfolding snprintf
  first_byte c rest e =
      let s = snprintf 100 path in
      ap (λ t. get_or t 0 0)
        (drop-Holds b 0 (length s) s
            (header_block_keeps 0 s (inl (omega (arith, length-snprintf))) host path st user group
              (inr (omega (arith, length-snprintf))) (common-name path st user group))
            (omega arith)
          ∙ ap (λ p. (take 99 p ++ (0 ∷ [])) ++ drop (length s) b) e)

  -- The checksum test of `x` passes on every header that `c_file` writes.
  pub verified :
      strncmp_eq 8
        (drop Header.chk (header_block host path st user group))
        (chksum (header_block host path st user group))
      ≡ true
  unfolding header_block chksum
  verified =
      let typed = type_fields host path st (common_fields path st user group) in
      let s = chksum typed in
      let fits : length s ≤ 8 = omega (arith, length-snprintf) in
      let text = take 7 (print_octal 7 (chksum_loop 0 0 typed)) in
      let stored =
        drop-Holds (overwrite typed Header.chk s) Header.chk (Header.chk + length s) s
          (Holds-self typed Header.chk s (
            omega (
              arith,
              fits,
              length-type_fields host path st (common_fields path st user group),
              length-common_fields path st user group,
            )))
          refl in
      ap₂ (strncmp_eq 8) (stored ∙ append_assoc text (0 ∷ []) _) (chksum-overwrite typed s fits)
      ∙ strncmp_eq-append 8 text (drop (Header.chk + length s) (overwrite typed Header.chk s))

  module _ (regular : has_type st.st_mode Kind.s_ifreg ≡ true) where
    as_regular :
        type_fields host path st (common_fields path st user group)
        ≡ regular_fields st (common_fields path st user group)
    as_regular = unfold type_fields in rw regular

    -- The size of a regular file is found again, up to the 32 bits that `%.11o` prints and the
    -- 31 bits of `int`.
    pub size-regular :
        entry_size (header_block host path st user group) ≡ pos (min (u32 st.st_size) (2 ^ 31 - 1))
    unfolding entry_size header_block
    size-regular =
        ap strtol (
          seen (header_block host path st user group) Header.size 11 (u32 st.st_size)
            (octal11_fits st.st_size) kept)
        ∙ strtol-octal_field 11 (u32 st.st_size) _ (omega arith)
      where
        stored :
            Holds
              (regular_fields st (common_fields path st user group))
              Header.size
              (octal11 st.st_size)
        stored =
            unfold regular_fields in
            Holds-self _ Header.size (octal11 st.st_size) (
              omega (
                arith,
                length-snprintf,
                length-overwrite {0},
                length-common_fields path st user group,
              ))

        kept : Holds (header_block host path st user group) Header.size (octal11 st.st_size)
        kept =
            checksum_keeps (type_fields host path st (common_fields path st user group)) Header.size
              (octal11 st.st_size) (inr (omega (arith, length-snprintf))) (rw as_regular stored)

    pub type-regular : get_or (header_block host path st user group) Header.type 0 ≡ Kind.reg
    unfolding header_block
    type-regular = get_or-Holds (header_block host path st user group) Header.type Kind.reg 0 (
        checksum_keeps (type_fields host path st (common_fields path st user group)) Header.type
          (Kind.reg ∷ []) (inl (omega arith)) (rw as_regular stored))
      where
        stored :
            Holds (regular_fields st (common_fields path st user group)) Header.type (Kind.reg ∷ [])
        stored =
            unfold regular_fields in
            Holds-keep _ Header.type (Kind.reg ∷ []) Header.size (octal11 st.st_size)
              (inl (omega (arith, length-snprintf)))
              (Holds-self (common_fields path st user group) Header.type (Kind.reg ∷ [])
                (omega (arith, length-common_fields path st user group)))

  -- For any other entry `tar` reads the modification time for the size: the size field is twelve
  -- zeros with no NUL, and the digits of the time follow.
  pub size_special :
      has_type st.st_mode Kind.s_ifreg ≡ false
      → entry_size (header_block host path st user group) ≡ pos (min (u32 st.st_mtime) (2 ^ 31 - 1))
  unfolding entry_size header_block
  size_special special =
      ap strtol (
        drop-Holds (header_block host path st user group) Header.size Header.mtime
          (replicate 12 b'0')
          (kept Header.size (replicate 12 b'0') (omega arith) (common-size path st user group)) refl
        ∙ ap (λ t. replicate 12 b'0' ++ t)
            (seen (header_block host path st user group) Header.mtime 11 (u32 st.st_mtime)
              (octal11_fits st.st_mtime)
              (kept Header.mtime (octal11 st.st_mtime) (omega (arith, length-snprintf))
                (common-mtime path st user group))))
      ∙ strtol_runs_on 11 (u32 st.st_mtime)
          (drop (Header.mtime + length (octal11 st.st_mtime))
            (header_block host path st user group))
          (omega arith)
    where
      kept :
          (k : ℕ) (s : List ℕ)
          → k + length s ≤ Header.chk
          → Holds (common_fields path st user group) k s
          → Holds (header_block host path st user group) k s
      kept k s low h =
          checksum_keeps (type_fields host path st (common_fields path st user group)) k s (inr low)
            (special_fields_keeps k s (omega arith) host path st (common_fields path st user group)
              special h)
