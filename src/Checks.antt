-- ===== src/Checks.antt =====
-- src/ip_checksum.c, src/tcp_checksum.c: the checksums of IPv4 and TCP over bytes in memory.
pub mod Ones
pub mod Verify
mod Tests
use libkpnet.Base.{
  ℕ, zero, suc, ◌+◌, ◌-◌, ◌*◌, ◌/◌, ◌%◌, ◌^◌, Option, none, some, List, [], ◌∷◌, drop, u16, u32,
  ltb, ◌==◌, if◌then◌else◌,
}
use libkpnet.Wire.{get8, get16}
use mathlib.Core.Option

-- `n` words of memory.
abbrev pub words : (n : ℕ) → List ℕ → List ℕ
words zero b = []
words (suc n) b = get16 b 0 ∷ words n (drop 2 b)

-- The fold of a carry.
abbrev pub fold : ℕ → ℕ
fold sum = sum % 65536 + sum / 65536

unfoldable pub ip_loop : List ℕ → (sum : ℕ) → ℕ
ip_loop [] sum = sum
ip_loop (w ∷ ws) sum = let s = u32 (sum + w) in ip_loop ws (if ltb 65535 s then fold s else s)

unfoldable pub ip_checksum : List ℕ → (len : ℕ) → ℕ
ip_checksum bytes len = ip_loop (words (len / 2) bytes) 0

-- The first loop of `tcp_checksum`.
pub tcp_sum : List ℕ → (sum : ℕ) → ℕ
tcp_sum [] sum = sum
tcp_sum (w ∷ ws) sum = tcp_sum ws (u32 (sum + w))

-- The last loop, on fuel.
pub tcp_fold : (fuel sum : ℕ) → Option ℕ
tcp_fold zero sum = none
tcp_fold (suc fuel) sum =
    let again = tcp_fold fuel (fold sum) in if sum / 65536 == 0 then some sum else again

unfoldable pub tcp_checksum : (fuel : ℕ) → List ℕ → (nbytes : ℕ) → Option ℕ
tcp_checksum fuel bytes nbytes =
    let n = nbytes / 2 in
    let sum = tcp_sum (words n bytes) 0 in
    let all = if nbytes % 2 == 1 then u32 (sum + get8 bytes (2 * n)) else sum in
    Option.map (λ s. 65535 - u16 s) (tcp_fold fuel all)
