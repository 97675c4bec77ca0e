-- ===== src/TransactionManagement/ErrorBody.antt =====
-- The blocks that an error page is handed over in.
use atscppapi.Common.{
  ℕ, zero, suc, ◌+◌, Bytes, codes, ◌≡◌, refl, sym, ap, ◌∙◌, ◌++◌, none, some, [], ◌∷◌, length,
  arith,
}
use atscppapi.CString.{
  store, c_str, strncpy, cut, cut-eq, HasNoNul, store-length, strncpy-cut, length-cut,
}
use atscppapi.TransactionManagement.{Transaction}
use atscppapi.TransactionManagement.Forwarding.{
  TxnApi, copied_block, set_error_body, error_page, error, http_error,
}

-- A block as long as the text and one more is the first part, and a last byte.
last_byte :
    (n : ℕ) (block : Bytes)
    → length block ≡ n + 1
    → (rest : Bytes) × ((x : ℕ) × ((length rest ≡ n) × (block ≡ rest ++ x ∷ [])))
last_byte zero [] e = absurd (omega arith)
last_byte zero (x ∷ []) e = ([], (x, (refl, refl)))
last_byte zero (x ∷ y ∷ block) e = absurd (omega arith)
last_byte (suc n) [] e = absurd (omega arith)
last_byte (suc n) (y ∷ block) e =
    let (rest, (x, (same, split))) = last_byte n block (omega arith) in
    (y ∷ rest, (x, (omega arith, ap (◌∷◌ y) split)))

copied_block-cut :
    (malloc : ℕ → Bytes) (s : Bytes)
    → ((n : ℕ) → length (malloc n) ≡ n)
    → copied_block malloc s ≡ some (cut s ++ 0 ∷ [])
unfolding copied_block
copied_block-cut malloc s sized =
    let (rest, (x, (same, split))) =
      last_byte (length s) (malloc (length s + 1)) (sized (length s + 1)) in
    ap
      (λ block. elim (strncpy 0 (c_str s) (length s) block) [
        | none ↦ none
        | some b ↦ store (length s) 0 b
      ])
      split
    ∙ ap (λ o. elim o [ none ↦ none | some b ↦ store (length s) 0 b ])
        (strncpy-cut s [] rest (x ∷ []) same)
    ∙ ap (λ n. store n 0 (cut s ++ x ∷ [])) (sym (length-cut s))
    ∙ store-length (cut s) [] 0 x

module _ (ts : TxnApi) (sized : (n : ℕ) → length (ts.malloc n) ≡ n) where
  -- When TSmalloc gives blocks of the length that is asked for, setErrorBody never reads or writes
  -- out of bounds, whatever the page. What Traffic Server gets is the page with all from its first
  -- zero byte on turned to zeros, and a zero after it, with the length of the whole page.
  pub set_error_body-cut :
      (page : Bytes) (t : Transaction) (w : ts.World)
      → set_error_body ts page t w
        ≡ some (
            ts.error_body_set w t.txn
              (cut page ++ 0 ∷ [])
              (length page)
              (codes "text/html" ++ 0 ∷ []))
  unfolding set_error_body cut
  set_error_body-cut page t w =
      ap
        (λ o. elim o [
          | none ↦ none
          | some body ↦ elim (copied_block ts.malloc (codes "text/html")) [
            | none ↦ none
            | some type ↦ some (ts.error_body_set w t.txn body (length page) type)
          ]
        ])
        (copied_block-cut ts.malloc page sized)
      ∙ ap
          (λ o. elim o [
            | none ↦ none
            | some type ↦ some (ts.error_body_set w t.txn (cut page ++ 0 ∷ []) (length page) type)
          ])
          (copied_block-cut ts.malloc (codes "text/html") sized)

  -- An error page without zero bytes is handed over as it is, with its length, and then the
  -- transaction goes on to the error state.
  pub error_page-HasNoNul :
      (page : Bytes) (t : Transaction) (w : ts.World)
      → HasNoNul page
      → error_page ts page t w
        ≡ some (
            ts.reenable
              (ts.error_body_set w t.txn
                (page ++ 0 ∷ [])
                (length page)
                (codes "text/html" ++ 0 ∷ []))
              t.txn
              http_error)
  unfolding error_page error
  error_page-HasNoNul page t w h =
      ap (λ o. elim o [ none ↦ none | some w' ↦ some (ts.reenable w' t.txn http_error) ])
        (set_error_body-cut page t w
          ∙ ap
              (λ s. some (
                ts.error_body_set w t.txn (s ++ 0 ∷ []) (length page)
                  (codes "text/html" ++ 0 ∷ [])))
              (cut-eq page h))
