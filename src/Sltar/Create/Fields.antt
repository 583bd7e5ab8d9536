-- ===== src/Sltar/Create/Fields.antt =====
-- Where the stores of `c_file` end up: the fields of the header block as they are written.
use electrum_lightning_test.Base.{
  ℕ, ◌+◌, ◌-◌, ◌≤◌, ◌≡◌, refl, ◌∙◌, arith, ◌⊎◌, inl, inr, false, List, [], ◌∷◌, length, take,
  length-take, length-append, length-overwrite, length-replicate, overwrite, Option-cases, if_lem,
}
use electrum_lightning_test.Base.Region.{Holds, Holds-keep}
use electrum_lightning_test.Sltar.Header
use electrum_lightning_test.Sltar.Kind
use electrum_lightning_test.Sltar.Kind.{has_type}
use electrum_lightning_test.Sltar.Text.{snprintf}
use electrum_lightning_test.Sltar.Checksum.{chksum}
use electrum_lightning_test.Sltar.Create.{
  FileName, Stat, Host, common_fields, regular_fields, link_fields, device_fields, type_fields,
  header_block,
}

-- The stored bytes always fit the buffer that `snprintf` is given.
pub length-snprintf : (size : ℕ) (text : List ℕ) → 1 ≤ size → length (snprintf size text) ≤ size
unfolding snprintf
length-snprintf size text h =
    omega (arith, length-append (take (size - 1) text) (0 ∷ []), length-take (size - 1) text)

pub length-common_fields :
    (path : FileName) (st : Stat) (user group : List ℕ)
    → length (common_fields path st user group) ≡ Header.end
unfolding common_fields
length-common_fields path st user group = simp (length-overwrite, length-replicate)

-- Every branch on the type stores inside the size, type, link and device fields.
abbrev InType : ℕ → ℕ → Type 0
InType off m =
    ((Header.size ≤ off) × (off + m ≤ Header.mtime))
    ⊎ ((Header.type ≤ off) × (off + m ≤ Header.magic))
    ⊎ (Header.maj ≤ off)

abbrev pub OffType : ℕ → ℕ → Type 0
OffType k n =
    (k + n ≤ Header.size)
    ⊎ ((Header.mtime ≤ k) × (k + n ≤ Header.type))
    ⊎ ((Header.magic ≤ k) × (k + n ≤ Header.maj))

beside : (k n off m : ℕ) → OffType k n → InType off m → (off + m ≤ k) ⊎ (k + n ≤ off)
beside k n off m (inl p) (inl q) = inr (omega arith)
beside k n off m (inl p) (inr (inl q)) = inr (omega arith)
beside k n off m (inl p) (inr (inr q)) = inr (omega arith)
beside k n off m (inr (inl p)) (inl q) = inl (omega arith)
beside k n off m (inr (inl p)) (inr (inl q)) = inr (omega arith)
beside k n off m (inr (inl p)) (inr (inr q)) = inr (omega arith)
beside k n off m (inr (inr p)) (inl q) = inl (omega arith)
beside k n off m (inr (inr p)) (inr (inl q)) = inl (omega arith)
beside k n off m (inr (inr p)) (inr (inr q)) = inr (omega arith)

module _ (k : ℕ) (s : List ℕ) (away : OffType k (length s)) where
  store_keeps :
      (b : List ℕ) (off : ℕ) (t : List ℕ)
      → InType off (length t)
      → Holds b k s
      → Holds (overwrite b off t) k s
  store_keeps b off t inside h =
      Holds-keep b k s off t (beside k (length s) off (length t) away inside) h

  regular_fields_keeps : (st : Stat) (b : List ℕ) → Holds b k s → Holds (regular_fields st b) k s
  unfolding regular_fields
  regular_fields_keeps st b h =
      store_keeps _ Header.size _ (inl (omega (arith, length-snprintf)))
        (store_keeps b Header.type _ (inr (inl (omega arith))) h)

  link_fields_keeps :
      (host : Host) (path : FileName) (b : List ℕ)
      → Holds b k s
      → Holds (link_fields host path b) k s
  unfolding link_fields
  link_fields_keeps host path b h = elim (Option-cases (host.read_link path)) [
    | inl e ↦ rw (e, link_fields) typed
    | inr (target, e) ↦
        rw (e, link_fields)
          (store_keeps _ Header.link _ (inr (inl (omega (arith, length-take 99 target)))) typed)
  ]
    where
      typed : Holds (overwrite b Header.type (Kind.symlink ∷ [])) k s
      typed = store_keeps b Header.type _ (inr (inl (omega arith))) h

  device_fields_keeps :
      (kind : ℕ) (st : Stat) (b : List ℕ) → Holds b k s → Holds (device_fields kind st b) k s
  unfolding device_fields
  device_fields_keeps kind st b h = store_keeps _ Header.min _ (inr (inr (omega arith))) (
      store_keeps _ Header.maj _ (inr (inr (omega arith)))
        (store_keeps b Header.type _ (inr (inl (omega arith))) h))

  pub type_fields_keeps :
      (host : Host) (path : FileName) (st : Stat) (b : List ℕ)
      → Holds b k s
      → Holds (type_fields host path st b) k s
  unfolding type_fields
  type_fields_keeps host path st b h =
      let P : List ℕ → Type 0 = λ x. Holds x k s in
      let typed = λ (kind : ℕ). store_keeps b Header.type (kind ∷ []) (inr (inl (omega arith))) h in
      if_lem P (has_type st.st_mode Kind.s_ifreg) (regular_fields_keeps st b h) (
        if_lem P (has_type st.st_mode Kind.s_ifdir) (typed Kind.directory) (
          if_lem P (has_type st.st_mode Kind.s_iflnk) (link_fields_keeps host path b h) (
            if_lem P (has_type st.st_mode Kind.s_ifchr) (device_fields_keeps Kind.chardev st b h) (
              if_lem P (has_type st.st_mode Kind.s_ifblk) (device_fields_keeps Kind.blockdev st b h)
                (if_lem P (has_type st.st_mode Kind.s_ififo) (typed Kind.fifo) h)))))

  -- What the first stores of `c_file` leave at `k` is still there in the block that is written.
  pub header_block_keeps :
      (host : Host) (path : FileName) (st : Stat) (user group : List ℕ)
      → (Header.chk + 8 ≤ k) ⊎ (k + length s ≤ Header.chk)
      → Holds (common_fields path st user group) k s
      → Holds (header_block host path st user group) k s
  unfolding header_block chksum
  header_block_keeps host path st user group off h =
      Holds-keep _ k s Header.chk _ (off_chk off)
        (type_fields_keeps host path st (common_fields path st user group) h)
    where
      off_chk :
          (Header.chk + 8 ≤ k) ⊎ (k + length s ≤ Header.chk)
          → (Header.chk
                + length (chksum (type_fields host path st (common_fields path st user group)))
              ≤ k)
            ⊎ (k + length s ≤ Header.chk)
      off_chk (inl p) = inl (omega (arith, length-snprintf))
      off_chk (inr p) = inr p

pub length-type_fields :
    (host : Host) (path : FileName) (st : Stat) (b : List ℕ)
    → length (type_fields host path st b) ≡ length b
unfolding type_fields
length-type_fields host path st b =
    let P : List ℕ → Type 0 = λ x. length x ≡ length b in
    if_lem P (has_type st.st_mode Kind.s_ifreg) (unfold regular_fields in simp length-overwrite) (
      if_lem P (has_type st.st_mode Kind.s_ifdir) (length-overwrite b _ _) (
        if_lem P (has_type st.st_mode Kind.s_iflnk) linked (
          if_lem P (has_type st.st_mode Kind.s_ifchr) (devices Kind.chardev) (
            if_lem P (has_type st.st_mode Kind.s_ifblk) (devices Kind.blockdev)
              (if_lem P (has_type st.st_mode Kind.s_ififo) (length-overwrite b _ _) refl)))))
  where
    linked : length (link_fields host path b) ≡ length b
    linked =
        unfold link_fields in
        elim (Option-cases (host.read_link path)) [
          | inl e ↦ rw (e, link_fields) (length-overwrite b _ _)
          | inr (target, e) ↦ rw (e, link_fields) (simp length-overwrite)
        ]

    devices : (kind : ℕ) → length (device_fields kind st b) ≡ length b
    devices kind = unfold device_fields in simp length-overwrite

-- The header is one block.
pub length-header_block :
    (host : Host) (path : FileName) (st : Stat) (user group : List ℕ)
    → length (header_block host path st user group) ≡ Header.end
unfolding header_block
length-header_block host path st user group =
    length-overwrite (type_fields host path st (common_fields path st user group)) Header.chk _
    ∙ length-type_fields host path st (common_fields path st user group)
    ∙ length-common_fields path st user group

-- Without a regular file nothing in front of the type byte is stored once more.
module _ (k : ℕ) (s : List ℕ) (low : k + length s ≤ Header.type) where
  above_keeps :
      (b : List ℕ) (off : ℕ) (t : List ℕ)
      → Header.type ≤ off
      → Holds b k s
      → Holds (overwrite b off t) k s
  above_keeps b off t h e = Holds-keep b k s off t (inr (omega arith)) e

  pub special_fields_keeps :
      (host : Host) (path : FileName) (st : Stat) (b : List ℕ)
      → has_type st.st_mode Kind.s_ifreg ≡ false
      → Holds b k s
      → Holds (type_fields host path st b) k s
  unfolding type_fields
  special_fields_keeps host path st b special h =
      let P : List ℕ → Type 0 = λ x. Holds x k s in
      rw special (
        if_lem P (has_type st.st_mode Kind.s_ifdir) (typed Kind.directory) (
          if_lem P (has_type st.st_mode Kind.s_iflnk) linked (
            if_lem P (has_type st.st_mode Kind.s_ifchr) (devices Kind.chardev) (
              if_lem P (has_type st.st_mode Kind.s_ifblk) (devices Kind.blockdev)
                (if_lem P (has_type st.st_mode Kind.s_ififo) (typed Kind.fifo) h)))))
    where
      typed : (kind : ℕ) → Holds (overwrite b Header.type (kind ∷ [])) k s
      typed kind = above_keeps b Header.type (kind ∷ []) (omega arith) h

      devices : (kind : ℕ) → Holds (device_fields kind st b) k s
      devices kind =
          unfold device_fields in
          above_keeps _ Header.min _ (omega arith)
            (above_keeps _ Header.maj _ (omega arith) (typed kind))

      linked : Holds (link_fields host path b) k s
      linked =
          unfold link_fields in
          elim (Option-cases (host.read_link path)) [
            | inl e ↦ rw (e, link_fields) (typed Kind.symlink)
            | inr (target, e) ↦
                rw (e, link_fields) (above_keeps _ Header.link _ (omega arith) (typed Kind.symlink))
          ]

-- The checksum is stored between the time and the type.
pub checksum_keeps :
    (typed : List ℕ) (k : ℕ) (s : List ℕ)
    → (Header.chk + 8 ≤ k) ⊎ (k + length s ≤ Header.chk)
    → Holds typed k s
    → Holds (overwrite typed Header.chk (chksum typed)) k s
unfolding chksum
checksum_keeps typed k s (inl p) h =
    Holds-keep typed k s Header.chk _ (inl (omega (arith, length-snprintf))) h
checksum_keeps typed k s (inr p) h = Holds-keep typed k s Header.chk _ (inr p) h
