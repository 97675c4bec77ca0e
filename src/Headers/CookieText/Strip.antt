-- ===== src/Headers/CookieText/Strip.antt =====
-- Stripping takes away exactly the white space at the two ends.
use atscppapi.Common.{
  append_assoc, sym, ◌∙◌, ℕ, Bytes, ◌≡◌, refl, ap, true, false, ◌++◌, [], ◌∷◌, All, Bool-cases, inl,
  inr,
}
use atscppapi.Headers.CookieText.{strip_enclosing_whitespace, strip_back, isspace, strip_front}

abbrev pub AreSpaces : Bytes → Type 0
AreSpaces = All (λ c. isspace c ≡ true)

-- The first, and the last, character is no white space.
abbrev pub StartsPlain : Bytes → Type 0
StartsPlain [] = Unit
StartsPlain (c ∷ s) = isspace c ≡ false

abbrev pub EndsPlain : Bytes → Type 0
EndsPlain [] = Unit
EndsPlain (c ∷ []) = isspace c ≡ false
EndsPlain (c ∷ d ∷ s) = EndsPlain (d ∷ s)

record Front (s : Bytes) : Type 0 where
  front : Bytes
  spaces : AreSpaces front
  same : s ≡ front ++ strip_front s
  plain : StartsPlain (strip_front s)

strip_front_lem : (s : Bytes) → Front s
unfolding strip_front
strip_front_lem [] = record { front = []; spaces = tt; same = refl; plain = tt }
strip_front_lem (c ∷ s) =
    let f = strip_front_lem s in
    elim (Bool-cases (isspace c)) [
      | inl e ↦ record {
        front = c ∷ f.front;
        spaces = (e, f.spaces);
        same = rw e (ap (◌∷◌ c) f.same);
        plain = rw e f.plain;
      }
      | inr e ↦ record { front = []; spaces = tt; same = rw e; plain = rw e e }
    ]

record Back (s : Bytes) : Type 0 where
  back : Bytes
  spaces : AreSpaces back
  same : s ≡ strip_back s ++ back
  plain : EndsPlain (strip_back s)
  starts : StartsPlain s → StartsPlain (strip_back s)

strip_back_step : (c : ℕ) (s t : Bytes) → strip_back s ≡ t → Back s → Back (c ∷ s)
unfolding strip_back
strip_back_step c s [] e b = elim (Bool-cases (isspace c)) [
  | inl w ↦ record {
    back = c ∷ b.back;
    spaces = (w, b.spaces);
    same = rw (e, strip_back, w) (ap (◌∷◌ c) (rw e at b.same));
    plain = rw (e, strip_back, w) tt;
    starts = λ h. rw (e, strip_back, w) tt;
  }
  | inr w ↦ record {
    back = b.back;
    spaces = b.spaces;
    same = rw (e, strip_back, w) (ap (◌∷◌ c) (rw e at b.same));
    plain = rw (e, strip_back, w) w;
    starts = λ h. rw (e, strip_back, w) h;
  }
]
strip_back_step c s (d ∷ t) e b = record {
  back = b.back;
  spaces = b.spaces;
  same = rw (e, strip_back) (ap (◌∷◌ c) (rw e at b.same));
  plain = rw (e, strip_back) (rw e at b.plain);
  starts = λ h. rw (e, strip_back) h;
}

strip_back_lem : (s : Bytes) → Back s
strip_back_lem [] =
    unfold strip_back in record { back = []; spaces = tt; same = refl; plain = tt; starts = λ h. h }
strip_back_lem (c ∷ s) = strip_back_step c s (strip_back s) refl (strip_back_lem s)

-- The stripped string is what is left of the string without some white space at its front and at
-- its back, and neither begins nor ends with white space.
strip_enclosing_whitespace_lem :
    (s : Bytes)
    → (front : Bytes) × (back : Bytes) × (s ≡ front ++ strip_enclosing_whitespace s ++ back)
      × AreSpaces front
      × AreSpaces back
      × StartsPlain (strip_enclosing_whitespace s)
      × EndsPlain (strip_enclosing_whitespace s)
unfolding strip_enclosing_whitespace
strip_enclosing_whitespace_lem s =
    let f = strip_front_lem s in
    let b = strip_back_lem (strip_front s) in
    (
      f.front,
      b.back,
      f.same ∙ ap (◌++◌ f.front) b.same ∙ sym (append_assoc f.front _ b.back),
      f.spaces,
      b.spaces,
      b.starts f.plain,
      b.plain,
    )
