-- ===== src/Address/Printed.antt =====
-- The text of an address and a port can be read back.
use atscppapi.Common.{
  ℕ, zero, suc, ◌+◌, ◌*◌, ◌%◌, ◌<◌, ◌≤◌, Bytes, false, ◌++◌, Option, none, some, [], ◌∷◌, ltb,
  if◌then◌else◌, ◌==◌, ◌≡◌, refl, arith, ◌-◌, Bool-cases, ltb→lt, inl, inr,
}
use Prim.Native.Nat.{◌/◌}
use atscppapi.Address.{
  af_inet, af_inet6, af_other, SockAddr, InetApi, ntohs, digits, decimal, get_ip_string, get_port,
  get_ip_port_string,
}

-- The number that digits stand for, after those that were read.
unfoldable pub value : ℕ → Bytes → ℕ
value n [] = n
value n (c ∷ s) = value (n * 10 + (c - 48)) s

-- What stands before and after the last colon.
unfoldable pub split_last_colon : Bytes → Option (Bytes × Bytes)
split_last_colon [] = none
split_last_colon (c ∷ s) = elim (split_last_colon s) [
  | some (ip, port) ↦ some (c ∷ ip, port)
  | none ↦ if c == 58 then some ([], s) else none
]

value-append : (n d : ℕ) (s : Bytes) → value n (s ++ d ∷ []) ≡ value n s * 10 + (d - 48)
unfolding value
value-append n d [] = refl
value-append n d (c ∷ s) = value-append (n * 10 + (c - 48)) d s

abbrev power_of_ten : ℕ → ℕ
power_of_ten zero = 1
power_of_ten (suc k) = power_of_ten k * 10

value-last : (n : ℕ) (s : Bytes) → value 0 s ≡ n / 10 → value 0 (s ++ (48 + n % 10) ∷ []) ≡ n
value-last n s h = omega (arith, value-append 0 (48 + n % 10) s, h)

value-one : (n : ℕ) → n < 10 → value 0 ((48 + n % 10) ∷ []) ≡ n
unfolding value
value-one n h = omega arith

value-digits : (fuel n : ℕ) → n < power_of_ten fuel → value 0 (digits fuel n) ≡ n
unfolding digits value
value-digits zero n h = omega arith
value-digits (suc fuel) n h = elim (Bool-cases (ltb n 10)) [
  | inl small ↦ rw small (value-one n (ltb→lt n 10 small))
  | inr large ↦
      rw large (value-last n (digits fuel (n / 10)) (value-digits fuel (n / 10) (omega (arith, h))))
]

-- Every digit is one.
abbrev AllDigits : Bytes → Type 0
AllDigits [] = Unit
AllDigits (c ∷ s) = ((48 ≤ c) × (c ≤ 57)) × AllDigits s

AllDigits-append : (s t : Bytes) → AllDigits s → AllDigits t → AllDigits (s ++ t)
AllDigits-append [] t h k = k
AllDigits-append (c ∷ s) t h k = (h.0, AllDigits-append s t h.1 k)

digits-AllDigits : (fuel n : ℕ) → AllDigits (digits fuel n)
unfolding digits
digits-AllDigits zero n = tt
digits-AllDigits (suc fuel) n = elim (Bool-cases (ltb n 10)) [
  | inl small ↦ rw small ((omega arith, omega arith), tt)
  | inr large ↦ rw large (
      AllDigits-append (digits fuel (n / 10)) ((48 + n % 10) ∷ []) (digits-AllDigits fuel (n / 10))
        ((omega arith, omega arith), tt))
]

not_colon : (c : ℕ) → c ≤ 57 → (c == 58) ≡ false
not_colon c h = ground arith

split_last_colon-none : (s : Bytes) → AllDigits s → split_last_colon s ≡ none
unfolding split_last_colon
split_last_colon-none [] h = refl
split_last_colon-none (c ∷ s) h =
    rw (split_last_colon-none s h.1, split_last_colon, not_colon c h.0.1) refl

split_last_colon-append :
    (ip port : Bytes) → AllDigits port → split_last_colon (ip ++ (58 ∷ port)) ≡ some (ip, port)
unfolding split_last_colon
split_last_colon-append [] port h = rw (split_last_colon-none port h, split_last_colon) refl
split_last_colon-append (c ∷ ip) port h =
    rw (split_last_colon-append ip port h, split_last_colon) refl

module _ (ts : InetApi) where
  port_bound : (s : SockAddr) → s.port_high < 256 → s.port_low < 256 → get_port ts (some s) < 100000
  unfolding get_port ntohs
  port_bound s high low =
      elim s.sa_family
        as (λ f.
          (elim f [
            | af_inet ↦ s.port_high * 256 + s.port_low
            | af_inet6 ↦ s.port_high * 256 + s.port_low
            | af_other n ↦ 0
          ])
          < 100000) [ af_inet ↦ omega arith | af_inet6 ↦ omega arith | af_other n ↦ omega arith ]

  -- From the text of an address with a port of two bytes the two can be read back, whatever the
  -- family and the text of the IP address: what stands before the last colon is getIpString's
  -- result, and the digits after it stand for getPort's.
  pub split-get_ip_port_string :
      (s : SockAddr)
      → s.port_high < 256
      → s.port_low < 256
      → (split_last_colon (get_ip_port_string ts (some s))
          ≡ some (get_ip_string ts (some s), decimal (get_port ts (some s))))
        × (value 0 (decimal (get_port ts (some s))) ≡ get_port ts (some s))
  unfolding get_ip_port_string
  split-get_ip_port_string s high low = (
    split_last_colon-append (get_ip_string ts (some s)) (decimal (get_port ts (some s)))
        (digits-AllDigits 5 (get_port ts (some s))),
    value-digits 5 (get_port ts (some s)) (port_bound s high low),
  )
