-- ===== src/Tests/Addresses.antt =====
-- Addresses that are printed.
use atscppapi.Common.{codes, some, [], ◌∷◌, ◌≡◌, refl, arith}
use atscppapi.Address.{
  SockAddr, af_inet, InetApi, get_ip_string, get_port, get_ip_port_string, decimal,
}
use atscppapi.Address.Printed.{split_last_colon, value, split-get_ip_port_string}

abbrev local : InetApi
local = record { inet_ntop = λ d. codes "127.0.0.1"; inet6_ntop = λ d. codes "::1" }

-- Port 8080
abbrev proxy : SockAddr
proxy = record { sa_family = af_inet; addr = 127 ∷ 0 ∷ 0 ∷ 1 ∷ []; port_high = 31; port_low = 144 }

split-get_ip_port_string_example :
    (split_last_colon (get_ip_port_string local (some proxy))
      ≡ some (get_ip_string local (some proxy), decimal (get_port local (some proxy))))
    × (value 0 (decimal (get_port local (some proxy))) ≡ get_port local (some proxy))
split-get_ip_port_string_example = split-get_ip_port_string local proxy (omega arith) (omega arith)

proxy_text : get_ip_port_string local (some proxy) ≡ codes "127.0.0.1:8080"
unfolding get_ip_port_string atscppapi.Address.digits
proxy_text = refl
