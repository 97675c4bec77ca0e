-- ===== src/Headers/CookieText/Print.antt =====
-- The printed header: every value of every cookie, with "; " between two.
use atscppapi.Common.{
  ℕ, ◌-◌, Bytes, ◌≡◌, refl, ◌++◌, List, [], ◌∷◌, map, arith, length, length-append, append_assoc,
  take, take-length_append,
}
use atscppapi.Headers.State.{RequestCookieMap}
use atscppapi.Headers.CookieText.{print_values, print_entries, print_cookies}

-- The cookies of a map, one by one.
unfoldable pub pairs : RequestCookieMap → List (Bytes × Bytes)
pairs [] = []
pairs ((name, values) ∷ m) = map (λ v. (name, v)) values ++ pairs m

-- The text of cookies behind other ones, and that of a whole header.
abbrev pub more_text : List (Bytes × Bytes) → Bytes
more_text [] = []
more_text ((name, value) ∷ ps) = b';' ∷ b' ' ∷ (name ++ b'=' ∷ (value ++ more_text ps))

abbrev pub text : List (Bytes × Bytes) → Bytes
text [] = []
text ((name, value) ∷ ps) = name ++ b'=' ∷ (value ++ more_text ps)

terminated : List (Bytes × Bytes) → Bytes
terminated [] = []
terminated ((name, value) ∷ ps) = name ++ b'=' ∷ (value ++ b';' ∷ b' ' ∷ terminated ps)

print_values-append :
    (name : Bytes) (values : List Bytes) (ps : List (Bytes × Bytes))
    → print_values name values ++ terminated ps ≡ terminated (map (λ v. (name, v)) values ++ ps)
unfolding print_values terminated
print_values-append name [] ps = refl
print_values-append name (v ∷ values) ps = simp (append_assoc, print_values-append name values ps)

print_entries-terminated : (m : RequestCookieMap) → print_entries m ≡ terminated (pairs m)
unfolding print_entries pairs
print_entries-terminated [] = unfold terminated in refl
print_entries-terminated ((name, values) ∷ m) =
    rw (print_entries-terminated m) (print_values-append name values (pairs m))

more_text-terminated :
    (ps : List (Bytes × Bytes)) → more_text ps ++ b';' ∷ b' ' ∷ [] ≡ b';' ∷ b' ' ∷ terminated ps
unfolding terminated
more_text-terminated [] = refl
more_text-terminated ((name, value) ∷ ps) = simp (append_assoc, more_text-terminated ps)

text-terminated :
    (p : Bytes × Bytes) (ps : List (Bytes × Bytes))
    → terminated (p ∷ ps) ≡ text (p ∷ ps) ++ b';' ∷ b' ' ∷ []
unfolding terminated
text-terminated (name, value) ps = simp (append_assoc, more_text-terminated ps)

take_all_but_two : (s : Bytes) (c d : ℕ) → take (length (s ++ c ∷ d ∷ []) - 2) (s ++ c ∷ d ∷ []) ≡ s
take_all_but_two s c d =
    let e : length (s ++ c ∷ d ∷ []) - 2 ≡ length s = omega (arith, length-append s (c ∷ d ∷ [])) in
    rw e (take-length_append s _)

without_last :
    (ps : List (Bytes × Bytes)) → take (length (terminated ps) - 2) (terminated ps) ≡ text ps
without_last [] = unfold terminated in refl
without_last (p ∷ ps) = rw text-terminated (take_all_but_two (text (p ∷ ps)) b';' b' ')

-- The header that is printed for a map holds its cookies in order.
pub print_cookies-text : (m : RequestCookieMap) → print_cookies m ≡ text (pairs m)
unfolding print_cookies
print_cookies-text m = rw print_entries-terminated (without_last (pairs m))
