-- ===== src/CString.antt =====
-- Character buffers of C: writes that stay within them, and strncpy of <cstring>. An access out of
-- bounds is `none`.
use atscppapi.Common.{
  suc_not_zero, length-append, ℕ, zero, suc, Bytes, ◌≡◌, ◌≢◌, refl, sym, ap, ◌∙◌, ◌++◌, ◌==◌,
  Option, none, some, [], ◌∷◌, length, if◌then◌else◌, arith, append_assoc,
}

-- `buf[i] = c`
unfoldable pub store : ℕ → ℕ → Bytes → Option Bytes
store i c [] = none
store zero c (x ∷ buf) = some (c ∷ buf)
store (suc i) c (x ∷ buf) = elim (store i c buf) [ none ↦ none | some buf' ↦ some (x ∷ buf') ]

-- The bytes that `c_str` points to.
unfoldable pub c_str : Bytes → Bytes
c_str s = s ++ 0 ∷ []

-- `n` zeros from `i` on.
pad : ℕ → ℕ → Bytes → Option Bytes
unfolding store
pad i zero buf = some buf
pad i (suc n) buf = elim (store i 0 buf) [ none ↦ none | some buf' ↦ pad (suc i) n buf' ]

-- strncpy to the buffer from `i` on: at most `n` bytes of the source, and zeros after its first zero.
unfoldable pub strncpy : ℕ → Bytes → ℕ → Bytes → Option Bytes
unfolding pad
strncpy i src zero buf = some buf
strncpy i [] (suc n) buf = none
strncpy i (c ∷ src) (suc n) buf = elim (store i c buf) [
  | none ↦ none
  | some buf' ↦
      let padded = pad (suc i) n buf' in
      let copied = strncpy (suc i) src n buf' in if c == 0 then padded else copied
]

abbrev pub zeros : ℕ → Bytes
zeros zero = []
zeros (suc n) = 0 ∷ zeros n

-- The text with all from its first zero on set to zero.
unfoldable pub cut : Bytes → Bytes
cut [] = []
cut (c ∷ s) = if c == 0 then zeros (suc (length s)) else c ∷ cut s

-- No byte is zero.
abbrev pub HasNoNul : Bytes → Type 0
HasNoNul [] = Unit
HasNoNul (c ∷ s) = (c ≢ 0) × HasNoNul s

pub cut-eq : (s : Bytes) → HasNoNul s → cut s ≡ s
unfolding cut
cut-eq [] h = refl
cut-eq (c ∷ s) (n, h) = grind (arith, cut-eq s h)

pub store-length :
    (done rest : Bytes) (c x : ℕ)
    → store (length done) c (done ++ x ∷ rest) ≡ some (done ++ c ∷ rest)
unfolding store
store-length [] rest c x = refl
store-length (d ∷ done) rest c x = rw (store-length done rest c x) refl

-- Appending one by one.
abbrev snoc_assoc : (done rest : Bytes) (c : ℕ) → (done ++ c ∷ []) ++ rest ≡ done ++ c ∷ rest
snoc_assoc done rest c = append_assoc done (c ∷ []) rest

-- A function of a place and a buffer, at the next place.
at_next :
    (f : ℕ → Bytes → Option Bytes) (done rest : Bytes) (c : ℕ)
    → f (suc (length done)) (done ++ c ∷ rest)
      ≡ f (length (done ++ c ∷ [])) ((done ++ c ∷ []) ++ rest)
at_next f done rest c =
    ap (f (suc (length done))) (sym (snoc_assoc done rest c))
    ∙ ap (λ i. f i ((done ++ c ∷ []) ++ rest)) (omega (arith, length-append {0} done (c ∷ [])))

pad-zeros :
    (n : ℕ) (done rest tail : Bytes)
    → length rest ≡ n
    → pad (length done) n (done ++ (rest ++ tail)) ≡ some (done ++ (zeros n ++ tail))
unfolding pad
pad-zeros zero done [] tail e = refl
pad-zeros zero done (x ∷ rest) tail e = absurd (omega arith)
pad-zeros (suc n) done [] tail e = absurd (omega arith)
pad-zeros (suc n) done (x ∷ rest) tail e =
    ap (λ o. elim o [ none ↦ none | some buf ↦ pad (suc (length done)) n buf ])
      (store-length done (rest ++ tail) 0 x)
    ∙ at_next (λ i b. pad i n b) done (rest ++ tail) 0
    ∙ pad-zeros n (done ++ 0 ∷ []) rest tail (omega (arith, e))
    ∙ ap some (snoc_assoc done (zeros n ++ tail) 0)

strncpy-step :
    (c x n : ℕ) (src done rest : Bytes)
    → strncpy (length done) (c ∷ src) (suc n) (done ++ x ∷ rest) ≡ (
        if c == 0
        then pad (suc (length done)) n (done ++ c ∷ rest)
        else strncpy (suc (length done)) src n (done ++ c ∷ rest))
unfolding strncpy
strncpy-step c x n src done rest =
    ap
      (λ o. elim o [
        | none ↦ none
        | some buf ↦
            if c == 0 then pad (suc (length done)) n buf else strncpy (suc (length done)) src n buf
      ])
      (store-length done rest c x)

-- What is left after the first zero, or after another byte.
after_byte :
    (c : ℕ) (s done rest tail : Bytes)
    → length rest ≡ length s
    → ((d : Bytes)
        → strncpy (length d) (c_str s) (length s) (d ++ (rest ++ tail))
          ≡ some (d ++ (cut s ++ tail)))
    → (if c == 0
        then pad (suc (length done)) (length s) (done ++ c ∷ (rest ++ tail))
        else strncpy (suc (length done)) (c_str s) (length s) (done ++ c ∷ (rest ++ tail)))
      ≡ some (done ++ (cut (c ∷ s) ++ tail))
unfolding cut
after_byte zero s done rest tail e copied =
    at_next (λ i b. pad i (length s) b) done (rest ++ tail) 0
    ∙ pad-zeros (length s) (done ++ 0 ∷ []) rest tail e
    ∙ ap some (snoc_assoc done (zeros (length s) ++ tail) 0)
after_byte (suc c) s done rest tail e copied = rw (suc_not_zero c) (
    at_next (λ i b. strncpy i (c_str s) (length s) b) done (rest ++ tail) (suc c)
    ∙ copied (done ++ suc c ∷ [])
    ∙ ap some (snoc_assoc done (cut s ++ tail) (suc c)))

-- A copy of a whole text into the first part of a buffer that has its length stays within it, and
-- makes that part the text up to its first zero, and zeros.
pub strncpy-cut :
    (s done rest tail : Bytes)
    → length rest ≡ length s
    → strncpy (length done) (c_str s) (length s) (done ++ (rest ++ tail))
      ≡ some (done ++ (cut s ++ tail))
unfolding strncpy c_str cut
strncpy-cut [] done [] tail e = refl
strncpy-cut [] done (x ∷ rest) tail e = absurd (omega arith)
strncpy-cut (c ∷ s) done [] tail e = absurd (omega arith)
strncpy-cut (c ∷ s) done (x ∷ rest) tail e =
    strncpy-step c x (length s) (c_str s) done (rest ++ tail)
    ∙ after_byte c s done rest tail (omega (arith, e))
        (λ d. strncpy-cut s d rest tail (omega (arith, e)))

length-zeros : (n : ℕ) → length (zeros n) ≡ n
length-zeros zero = refl
length-zeros (suc n) = omega (arith, length-zeros n)

pub length-cut : (s : Bytes) → length (cut s) ≡ length s
unfolding cut
length-cut [] = refl
length-cut (zero ∷ s) = omega (arith, length-zeros (length s))
length-cut (suc c ∷ s) = rw (suc_not_zero c) (omega (arith, length-cut s))
