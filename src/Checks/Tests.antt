-- ===== src/Checks/Tests.antt =====
-- Six bytes whose words add up with a carry.
use libkpnet.Base.{ℕ, ◌-◌, ◌≡◌, refl, arith, some, List, [], ◌∷◌}
use libkpnet.Checks.{words, ip_checksum, tcp_checksum}
use libkpnet.Checks.Ones.{ones_sum, total, IsBytes, ip_checksum-ones_sum, tcp_checksum-ip_checksum}
use Prim.{tt}

abbrev six : List ℕ
six = 255 ∷ 255 ∷ 1 ∷ 0 ∷ 255 ∷ 254 ∷ []

six-IsBytes : IsBytes six
six-IsBytes =
    (omega arith, (omega arith, (omega arith, (omega arith, (omega arith, (omega arith, tt))))))

ip_checksum-ones_sum_example : ip_checksum six 6 ≡ ones_sum (total (words 3 six))
ip_checksum-ones_sum_example = ip_checksum-ones_sum six 6 six-IsBytes

tcp_checksum-ip_checksum_example : tcp_checksum 3 six 6 ≡ some (65535 - ip_checksum six 6)
tcp_checksum-ip_checksum_example = tcp_checksum-ip_checksum six 6 six-IsBytes (omega arith) refl
