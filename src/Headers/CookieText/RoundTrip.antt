-- ===== src/Headers/CookieText/RoundTrip.antt =====
-- Parsing a printed header gives the cookies back.
use atscppapi.Headers.CookieText.Print.{pairs, print_cookies-text, text, more_text}
use atscppapi.Headers.CookieText.{
  parse_cookies, print_cookies, add_cookie_to_map, after_one, finished, parse_loop, parse_cookie_kv,
}
use atscppapi.Common.{
  ◌≢◌, ap, ◌≤◌, ℕ, zero, suc, Bytes, ◌≡◌, refl, ◌++◌, List, [], ◌∷◌, arith, length, length-append,
  All, map, append_assoc, append-nil, sym, ◌∙◌,
}
use atscppapi.StdMap.Last.{Below, Below-append, insert_last, insert_there, modify_last}
use atscppapi.StdMap.Laws.{Above, IsSorted}
use atscppapi.StdString.{string_less}
use atscppapi.Comparator.Order.{string_less-IsStrictWeakOrder}
use atscppapi.Headers.State.{RequestCookieMap}
use atscppapi.Headers.CookieText.Parse.{
  IsCookie, IsRest, at_end, at_next, no_blank, one_blank, read_cookie_lem,
}

unfoldable pub add_cookies : RequestCookieMap → List (Bytes × Bytes) → RequestCookieMap
add_cookies m [] = m
add_cookies m ((name, value) ∷ ps) = add_cookies (add_cookie_to_map m name value) ps

abbrev pub AreCookies : List (Bytes × Bytes) → Type 0
AreCookies = All (λ p. IsCookie p.0 p.1)

more_text-IsRest : (ps : List (Bytes × Bytes)) → IsRest (more_text ps)
more_text-IsRest [] = at_end
more_text-IsRest (p ∷ ps) = at_next _

parse_nothing : (fuel : ℕ) (m : RequestCookieMap) → parse_loop fuel [] m ≡ finished m
unfolding parse_loop
parse_nothing zero m = refl
parse_nothing (suc fuel) m = refl

parse_more :
    (ps : List (Bytes × Bytes)) (fuel : ℕ) (m : RequestCookieMap)
    → length (more_text ps) ≤ fuel
    → AreCookies ps
    → parse_loop fuel (after_one (more_text ps)) m ≡ finished (add_cookies m ps)
unfolding parse_loop add_cookies
parse_more [] fuel m h c = parse_nothing fuel m
parse_more ((name, value) ∷ ps) zero m h c = absurd (omega arith)
parse_more ((name, value) ∷ ps) (suc fuel) m h c =
    rw (read_cookie_lem name value one_blank c.0 (more_text-IsRest ps), parse_loop)
      (parse_more ps fuel _
        (omega (
          arith,
          length-append name (b'=' ∷ (value ++ more_text ps)),
          length-append value (more_text ps),
        ))
        c.1)

parse_first :
    (name value : Bytes) (ps : List (Bytes × Bytes)) (fuel : ℕ) (m : RequestCookieMap)
    → length (more_text ps) ≤ fuel
    → AreCookies ((name, value) ∷ ps)
    → parse_loop (suc fuel) (text ((name, value) ∷ ps)) m
      ≡ finished (add_cookies m ((name, value) ∷ ps))
unfolding parse_loop add_cookies
parse_first [] value ps fuel m h c = absurd (c.0.named refl)
parse_first (d ∷ name) value ps fuel m h c =
    rw (read_cookie_lem (d ∷ name) value no_blank c.0 (more_text-IsRest ps), parse_loop)
      (parse_more ps fuel _ h c.1)

-- Parsing the text of well-formed cookies adds them to the map, one after the other.
pub parse_cookie_kv-text :
    (ps : List (Bytes × Bytes)) (m : RequestCookieMap)
    → AreCookies ps
    → parse_cookie_kv (text ps) m ≡ finished (add_cookies m ps)
unfolding parse_cookie_kv
parse_cookie_kv-text [] m c = unfold parse_loop add_cookies in refl
parse_cookie_kv-text (([], value) ∷ ps) m c = absurd (c.0.named refl)
parse_cookie_kv-text ((d ∷ name, value) ∷ ps) m c =
    parse_first (d ∷ name) value ps (length (name ++ b'=' ∷ (value ++ more_text ps))) m
      (omega (
        arith,
        length-append name (b'=' ∷ (value ++ more_text ps)),
        length-append value (more_text ps),
      ))
      c

abbrev IsBehind : RequestCookieMap → RequestCookieMap → Type 0
IsBehind acc [] = Unit
IsBehind acc ((name, values) ∷ m) = Below string_less name acc × IsBehind acc m

IsBehind-append :
    (acc m : RequestCookieMap) (name : Bytes) (values : List Bytes)
    → Above string_less name m
    → IsBehind acc m
    → IsBehind (acc ++ (name, values) ∷ []) m
IsBehind-append acc [] name values a b = tt
IsBehind-append acc ((j, w) ∷ m) name values a b = (
  Below-append string_less string_less-IsStrictWeakOrder j name values acc a.0 b.0,
  IsBehind-append acc m name values a.1 b.1,
)

add_cookie_there :
    (name : Bytes) (acc : RequestCookieMap) (ws : List Bytes) (v : Bytes)
    → Below string_less name acc
    → add_cookie_to_map (acc ++ (name, ws) ∷ []) name v ≡ acc ++ (name, ws ++ v ∷ []) ∷ []
unfolding add_cookie_to_map
add_cookie_there name acc ws v b =
    rw (insert_there string_less string_less-IsStrictWeakOrder name [] ws acc b)
      (modify_last string_less string_less-IsStrictWeakOrder name (λ old. old ++ v ∷ []) ws acc b)

add_cookie_new :
    (name : Bytes) (acc : RequestCookieMap) (v : Bytes)
    → Below string_less name acc
    → add_cookie_to_map acc name v ≡ acc ++ (name, v ∷ []) ∷ []
unfolding add_cookie_to_map
add_cookie_new name acc v b =
    rw (insert_last string_less string_less-IsStrictWeakOrder name [] acc b)
      (modify_last string_less string_less-IsStrictWeakOrder name (λ old. old ++ v ∷ []) [] acc b)

add_cookie_first :
    (m m' : RequestCookieMap) (name v : Bytes) (ps : List (Bytes × Bytes))
    → add_cookie_to_map m name v ≡ m'
    → add_cookies m ((name, v) ∷ ps) ≡ add_cookies m' ps
unfolding add_cookies
add_cookie_first m m' name v ps e = ap (λ k. add_cookies k ps) e

add_values :
    (name : Bytes) (acc : RequestCookieMap) (ws vs : List Bytes) (ps : List (Bytes × Bytes))
    → Below string_less name acc
    → add_cookies (acc ++ (name, ws) ∷ []) (map (λ v. (name, v)) vs ++ ps)
      ≡ add_cookies (acc ++ (name, ws ++ vs) ∷ []) ps
add_values name acc ws [] ps b = rw append-nil
add_values name acc ws (v ∷ vs) ps b =
    add_cookie_first _ _ name v _ (add_cookie_there name acc ws v b)
    ∙ add_values name acc (ws ++ v ∷ []) vs ps b
    ∙ ap (λ us. add_cookies (acc ++ (name, us) ∷ []) ps) (append_assoc ws (v ∷ []) vs)

-- Every cookie of the map is well-formed, and has a value.
abbrev pub IsPrintable : RequestCookieMap → Type 0
IsPrintable [] = Unit
IsPrintable ((name, values) ∷ m) = (values ≢ []) × All (λ v. IsCookie name v) values × IsPrintable m

add_pairs :
    (acc m : RequestCookieMap)
    → IsSorted string_less m
    → IsBehind acc m
    → IsPrintable m
    → add_cookies acc (pairs m) ≡ acc ++ m
unfolding pairs
add_pairs acc [] s b p = unfold add_cookies in sym (append-nil acc)
add_pairs acc ((name, []) ∷ m) s b p = absurd (p.0 refl)
add_pairs acc ((name, v ∷ vs) ∷ m) s b p =
    add_cookie_first acc _ name v _ (add_cookie_new name acc v b.0)
    ∙ add_values name acc (v ∷ []) vs (pairs m) b.0
    ∙ add_pairs (acc ++ (name, v ∷ vs) ∷ []) m s.1 (IsBehind-append acc m name (v ∷ vs) s.0 b.1) p.2
    ∙ append_assoc acc ((name, v ∷ vs) ∷ []) m

All-values :
    (name : Bytes) (values : List Bytes) (ps : List (Bytes × Bytes))
    → All (λ v. IsCookie name v) values
    → AreCookies ps
    → AreCookies (map (λ v. (name, v)) values ++ ps)
All-values name [] ps h c = c
All-values name (v ∷ values) ps h c = (h.0, All-values name values ps h.1 c)

pairs-AreCookies : (m : RequestCookieMap) → IsPrintable m → AreCookies (pairs m)
unfolding pairs
pairs-AreCookies [] p = tt
pairs-AreCookies ((name, values) ∷ m) p =
    All-values name values (pairs m) p.1 (pairs-AreCookies m p.2)

-- Parsing the header that is printed for a map of well-formed cookies gives the map back, with all
-- values of each cookie in their order.
pub parse_cookies-print_cookies :
    (m : RequestCookieMap)
    → IsSorted string_less m
    → IsPrintable m
    → parse_cookies (print_cookies m ∷ []) [] ≡ m
unfolding parse_cookies
parse_cookies-print_cookies m s p =
    rw (print_cookies-text, parse_cookies, parse_cookie_kv-text (pairs m) [] (pairs-AreCookies m p))
      (add_pairs [] m s (nothing m) p)
  where
    nothing : (m' : RequestCookieMap) → IsBehind [] m'
    nothing [] = tt
    nothing (e ∷ m') = (tt, nothing m')
