-- ===== src/Patchelf/Headers/Table.antt =====
-- A table of headers in the file: what `rewriteHeaders` stores, and what `parse` copies.
use electrum_lightning_test.Base.{
  ℕ, ◌+◌, ◌*◌, ◌≡◌, refl, sym, ap, ◌∙◌, arith, List, [], ◌∷◌, ◌++◌, length, length-append,
  length-take, length-drop, take, drop, take-append-drop, All,
}
use mathlib.Core.List.{append_assoc}
use electrum_lightning_test.Base.Parts.{slice_whole}
use electrum_lightning_test.Patchelf.Result.{ok}
use electrum_lightning_test.Patchelf.File.{Elf, read_bytes}
use electrum_lightning_test.Patchelf.Parse.{copy_headers}
use electrum_lightning_test.Patchelf.Dynamic.Table.{concat, read_bytes_mid}
use electrum_lightning_test.Patchelf.Needed.Compact.{write_bytes_mid}
use electrum_lightning_test.Patchelf.Headers.{store_headers}

-- A header's bytes.
abbrev pub IsHeader : ℕ → List ℕ → Type 0
IsHeader size h = length h ≡ size

length-table :
    (size : ℕ) (hs : List (List ℕ)) → All (IsHeader size) hs → length (concat hs) ≡ size * length hs
length-table size [] all = omega arith
length-table size (h ∷ hs) all =
    omega (arith, all.0, length-append h (concat hs), length-table size hs all.1)

store_headers_mid :
    (off size i : ℕ) (hs : List (List ℕ)) (e : Elf) (pre old post : List ℕ)
    → e.contents ≡ pre ++ (old ++ post)
    → off + size * i ≡ length pre
    → length old ≡ size * length hs
    → All (IsHeader size) hs
    → store_headers off size i hs e ≡ ok (record e { contents = pre ++ (concat hs ++ post) })
unfolding store_headers
store_headers_mid off size i [] e pre [] post same place long all =
    ap (λ c. ok (record e { contents = c })) same
store_headers_mid off size i [] e pre (x ∷ old) post same place long all =
    absurd (omega (arith, long))
store_headers_mid off size i (h ∷ hs) e pre old post same place long all =
    let rest = drop size old in
    rw
      (write_bytes_mid e pre (take size old) h (rest ++ post) (off + size * i)
        (same
          ∙ ap (λ t. pre ++ t)
              (ap (λ t. t ++ post) (sym (take-append-drop size old))
                ∙ append_assoc (take size old) rest post))
        place (omega (arith, all.0, long, length-take size old)))
      (store_headers_mid off size (i + 1) hs (record e { contents = pre ++ (h ++ (rest ++ post)) })
          (pre ++ h) rest post (sym (append_assoc pre h (rest ++ post)))
          (omega (arith, place, all.0, length-append pre h))
          (omega (arith, long, length-drop size old)) all.1
        ∙ ap (λ c. ok (record e { contents = c }))
            (append_assoc pre h (concat hs ++ post)
              ∙ ap (λ t. pre ++ t) (sym (append_assoc h (concat hs) post))))

copy_headers_mid :
    (contents : List ℕ) (off size i : ℕ) (hs : List (List ℕ)) (pre post : List ℕ)
    → contents ≡ pre ++ (concat hs ++ post)
    → off + size * i ≡ length pre
    → All (IsHeader size) hs
    → copy_headers contents off size (length hs) i ≡ ok hs
unfolding copy_headers
copy_headers_mid contents off size i [] pre post same place all = refl
copy_headers_mid contents off size i (h ∷ hs) pre post same place all =
    let here : contents ≡ pre ++ (h ++ (concat hs ++ post)) =
      same ∙ ap (λ t. pre ++ t) (append_assoc h (concat hs) post) in
    rw
      (ap (λ c. read_bytes c (off + size * i) size) here
        ∙ read_bytes_mid pre h (concat hs ++ post) (off + size * i) 0 size (omega (arith, place))
            (omega (arith, all.0))
        ∙ ap ok (slice_whole h size all.0))
      (rw
        (copy_headers_mid contents off size (i + 1) hs (pre ++ h) post
          (here ∙ sym (append_assoc pre h (concat hs ++ post)))
          (omega (arith, place, all.0, length-append pre h)) all.1)
        refl)

-- Headers of one size, stored as a table or the end of one where the file has the room, are read back by
-- the loop with which parse copies a table, in their order, and the rest of the file is as before.
pub copy-store_headers :
    (off size i : ℕ) (hs : List (List ℕ)) (e : Elf) (pre old post : List ℕ)
    → e.contents ≡ pre ++ (old ++ post)
    → off + size * i ≡ length pre
    → length old ≡ size * length hs
    → All (IsHeader size) hs
    → (table : List ℕ) × (store_headers off size i hs e
        ≡ ok (record e { contents = pre ++ (table ++ post) }))
      × (length table ≡ length old)
      × (copy_headers (pre ++ (table ++ post)) off size (length hs) i ≡ ok hs)
copy-store_headers off size i hs e pre old post same place long all = (
  concat hs,
  store_headers_mid off size i hs e pre old post same place long all,
  omega (arith, long, length-table size hs all),
  copy_headers_mid (pre ++ (concat hs ++ post)) off size i hs pre post refl place all,
)
