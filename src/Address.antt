-- ===== src/Address.antt =====
-- The printing of socket addresses in src/utils.cc.
pub mod Printed
use atscppapi.Common.{
  ℕ, zero, suc, ◌+◌, ◌*◌, ◌%◌, ◌<◌, Bytes, codes, Bool, true, false, ◌++◌, Option, none, some, List,
  [], ◌∷◌, ltb, if◌then◌else◌,
}
use Prim.Native.Nat.{◌/◌}

-- sa_family
pub data Family : Type 0 where
  af_inet af_inet6 : Family
  af_other : ℕ → Family

-- A socket address: the bytes of sin_addr or sin6_addr, and the two of the port, which stand in
-- network order.
pub record SockAddr : Type 0 where
  pub sa_family : Family
  pub addr : Bytes
  pub port_high : ℕ
  pub port_low : ℕ

-- inet_ntop of <arpa/inet.h>: the text, from the bytes of an IPv4 or an IPv6 address.
pub record InetApi : Type 0 where
  pub inet_ntop : Bytes → Bytes
  pub inet6_ntop : Bytes → Bytes

-- ntohs, on the bytes of the port.
unfoldable pub ntohs : SockAddr → ℕ
ntohs s = s.port_high * 256 + s.port_low

-- The digits that `<<` of a stream prints for a number; the fuel bounds how many.
unfoldable pub digits : ℕ → ℕ → Bytes
digits zero n = []
digits (suc fuel) n =
    let more = digits fuel (n / 10) in
    let digit = 48 + n % 10 in if ltb n 10 then digit ∷ [] else more ++ digit ∷ []

-- `<<` of a std::uint16_t
abbrev pub decimal : ℕ → Bytes
decimal n = digits 5 n

module _ (ts : InetApi) where
  unfoldable pub get_ip_string : Option SockAddr → Bytes
  get_ip_string none = []
  get_ip_string (some s) = elim s.sa_family [
    | af_inet ↦ ts.inet_ntop s.addr
    | af_inet6 ↦ ts.inet6_ntop s.addr
    | af_other n ↦ []
  ]

  unfoldable pub get_port : Option SockAddr → ℕ
  unfolding ntohs
  get_port none = 0
  get_port (some s) = elim s.sa_family [ af_inet ↦ ntohs s | af_inet6 ↦ ntohs s | af_other n ↦ 0 ]

  unfoldable pub get_ip_port_string : Option SockAddr → Bytes
  unfolding get_ip_string get_port
  get_ip_port_string none = []
  get_ip_port_string (some s) = get_ip_string (some s) ++ (codes ":" ++ decimal (get_port (some s)))
