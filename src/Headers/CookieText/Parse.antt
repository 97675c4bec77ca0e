-- ===== src/Headers/CookieText/Parse.antt =====
-- What the parser does on well-formed text, one cookie at a time.
use atscppapi.Common.{
  ℕ, Bytes, ◌≡◌, ◌≢◌, refl, Bool, false, not, ◌&&◌, ◌||◌, ◌++◌, some, [], ◌∷◌, arith, ◌==◌,
  if◌then◌else◌, All, append-nil,
}
use atscppapi.Headers.CookieText.{
  strip_enclosing_whitespace, scan_name, scan_value, after_one, is_empty, read_cookie, read_value,
}

-- No character of a name ends the scan.
abbrev pub IsNameChar : ℕ → Type 0
IsNameChar c = (c == b'=' || c == b';') ≡ false

-- Every `;` stands between quotes, and the quotes are closed at the end.
abbrev pub IsClosed : Bool → Bytes → Type 0
IsClosed q [] = q ≡ false
IsClosed q (c ∷ s) = ((c == b';' && not q) ≡ false) × IsClosed (if c == b'"' then not q else q) s

-- A cookie that the printed form can carry.
pub record IsCookie (name value : Bytes) : Type 0 where
  pub named : name ≢ []
  pub name_chars : All IsNameChar name
  pub name_stripped : strip_enclosing_whitespace name ≡ name
  pub valued : value ≢ []
  pub value_closed : IsClosed false value
  pub value_stripped : strip_enclosing_whitespace value ≡ value

scan_name-append :
    (name rest : Bytes)
    → All IsNameChar name
    → scan_name (name ++ b'=' ∷ rest) ≡ (name, b'=' ∷ rest)
unfolding scan_name
scan_name-append [] rest h = refl
scan_name-append (c ∷ name) rest h = ground (arith, scan_name-append name rest h.1)

scan_value-append :
    (value rest : Bytes) (q : Bool)
    → IsClosed q value
    → scan_value q (value ++ rest) ≡ (value ++ (scan_value false rest).0, (scan_value false rest).1)
unfolding scan_value
scan_value-append [] rest q h = rw h
scan_value-append (c ∷ value) rest q h =
    rw (h.0, scan_value-append value rest (if c == b'"' then not q else q) h.1)

-- What may follow a value: nothing, or a `;`.
pub data IsRest : Bytes → Type 0 where
  at_end : IsRest []
  at_next : (s : Bytes) → IsRest (b';' ∷ s)

scan_value-rest : {rest : Bytes} → IsRest rest → scan_value false rest ≡ ([], rest)
unfolding scan_value
scan_value-rest at_end = refl
scan_value-rest (at_next s) = refl

-- A blank before a name, as behind every "; ".
pub data IsBlank : Bytes → Type 0 where
  no_blank : IsBlank []
  one_blank : IsBlank (b' ' ∷ [])

scan_name-blank :
    {b : Bytes} (name rest : Bytes)
    → IsBlank b
    → All IsNameChar name
    → scan_name (b ++ name ++ b'=' ∷ rest) ≡ (b ++ name, b'=' ∷ rest)
unfolding scan_name
scan_name-blank name rest no_blank h = scan_name-append name rest h
scan_name-blank name rest one_blank h = ground (arith, scan_name-append name rest h)

strip-blank :
    {b : Bytes} (name : Bytes)
    → IsBlank b
    → strip_enclosing_whitespace (b ++ name) ≡ strip_enclosing_whitespace name
unfolding strip_enclosing_whitespace
strip-blank name no_blank = refl
strip-blank name one_blank = refl

is_empty-append : (value rest : Bytes) → value ≢ [] → is_empty (value ++ rest) ≡ false
is_empty-append [] rest h = absurd (h refl)
is_empty-append (c ∷ value) rest h = refl

is_empty-ne_nil : (name : Bytes) → name ≢ [] → is_empty name ≡ false
is_empty-ne_nil [] h = absurd (h refl)
is_empty-ne_nil (c ∷ name) h = refl

-- A round reads one cookie.
pub read_cookie_lem :
    {b rest : Bytes} (name value : Bytes)
    → IsBlank b
    → IsCookie name value
    → IsRest rest
    → read_cookie (b ++ name ++ b'=' ∷ (value ++ rest)) ≡ some (name, value, after_one rest)
unfolding read_cookie read_value
read_cookie_lem {b} {rest} name value hb hc hr = rw (
  scan_name-blank name (value ++ rest) hb hc.name_chars,
  strip-blank name hb,
  hc.name_stripped,
  scan_value-append value rest false hc.value_closed,
  scan_value-rest hr,
  append-nil,
  hc.value_stripped,
  is_empty-ne_nil name hc.named,
  is_empty-append value rest hc.valued,
)
