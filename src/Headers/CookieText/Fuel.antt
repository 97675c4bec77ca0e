-- ===== src/Headers/CookieText/Fuel.antt =====
-- The parser's loop ends by itself: each round takes at least one character.
use atscppapi.Common.{
  ℕ, zero, suc, ◌≤◌, ◌<◌, Bytes, ◌≡◌, refl, Bool, some, [], ◌∷◌, arith, length, Option-cases, inl,
  inr,
}
use atscppapi.Headers.State.{RequestCookieMap}
use atscppapi.Headers.CookieText.{
  scan_name, scan_value, after_one, read_value, read_cookie, parse_loop, add_cookie_to_map,
}

length-scan_name : (s : Bytes) → length (scan_name s).1 ≤ length s
unfolding scan_name
length-scan_name [] = omega arith
length-scan_name (c ∷ s) = ground (arith, length-scan_name s)

length-scan_value : (s : Bytes) (q : Bool) → length (scan_value q s).1 ≤ length s
unfolding scan_value
length-scan_value [] q = omega arith
length-scan_value (c ∷ s) q =
    ground (arith, length-scan_value s Bool.true, length-scan_value s Bool.false)

length-after_one : (s : Bytes) → length (after_one s) ≤ length s
length-after_one [] = omega arith
length-after_one (c ∷ s) = omega arith

length-read_value :
    (name s n v rest : Bytes) → read_value name s ≡ some (n, v, rest) → length rest < length s
unfolding read_value
length-read_value name [] n v rest h = ground arith
length-read_value name (d ∷ s) n v rest h =
    ground (arith, length-scan_value s Bool.false, length-after_one (scan_value Bool.false s).1)

length-read_cookie :
    (s n v rest : Bytes) → read_cookie s ≡ some (n, v, rest) → length rest < length s
unfolding read_cookie
length-read_cookie s n v rest h =
    let shorter = length-read_value _ (scan_name s).1 n v rest h in
    omega (arith, length-scan_name s)

-- Fuel from the length of the text on makes no difference, so the loop's own test ends it.
pub parse_loop-fuel :
    (f g : ℕ) (s : Bytes) (m : RequestCookieMap)
    → length s ≤ f
    → length s ≤ g
    → parse_loop f s m ≡ parse_loop g s m
unfolding parse_loop
parse_loop-fuel zero zero s m h k = refl
parse_loop-fuel zero (suc g) [] m h k = refl
parse_loop-fuel (suc f) zero [] m h k = refl
parse_loop-fuel (suc f) (suc g) [] m h k = refl
parse_loop-fuel zero (suc g) (c ∷ s) m h k = absurd (omega arith)
parse_loop-fuel (suc f) zero (c ∷ s) m h k = absurd (omega arith)
parse_loop-fuel (suc f) (suc g) (c ∷ s) m h k = elim (Option-cases (read_cookie (c ∷ s))) [
  | inl e ↦ rw (e, parse_loop)
  | inr (r, e) ↦
      let shorter = length-read_cookie (c ∷ s) r.0 r.1 r.2 e in
      rw (e, parse_loop)
        (parse_loop-fuel f g r.2 (add_cookie_to_map m r.0 r.1) (omega arith) (omega arith))
]
