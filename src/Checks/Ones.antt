-- ===== src/Checks/Ones.antt =====
-- Both checksums are sums in ones' complement.
use Prim.{Unit, tt}
use libkpnet.Base.{
  ℕ, zero, suc, ◌+◌, ◌-◌, ◌*◌, ◌/◌, ◌%◌, ◌^◌, ◌≤◌, ◌<◌, ◌≡◌, ap, ◌∙◌, arith, some, List, [], ◌∷◌,
  drop, u16, u32, ◌==◌, if◌then◌else◌, dec_lt, lt→ltb, le→ltb, ne→==,
}
use mathlib.Core.Option
use libkpnet.Wire.{get16}
use libkpnet.Checks.{words, fold, ip_loop, ip_checksum, tcp_sum, tcp_fold, tcp_checksum}

-- The sum in ones' complement of words that add up to `total`: it is 0 only for nothing.
abbrev pub ones_sum : ℕ → ℕ
ones_sum total = if total == 0 then 0 else (total - 1) % 65535 + 1

abbrev pub total : List ℕ → ℕ
total [] = 0
total (w ∷ ws) = w + total ws

abbrev pub IsBytes : List ℕ → Type 0
IsBytes [] = Unit
IsBytes (x ∷ b) = (x < 256) × IsBytes b

abbrev IsWords : List ℕ → Type 0
IsWords [] = Unit
IsWords (w ∷ ws) = (w < 65536) × IsWords ws

get16-IsBytes : (b : List ℕ) → IsBytes b → get16 b 0 < 65536
get16-IsBytes [] h = omega arith
get16-IsBytes (x ∷ []) (h, _) = omega arith
get16-IsBytes (x ∷ y ∷ b) (h, (i, _)) = omega arith

drop-IsBytes : (b : List ℕ) → IsBytes b → IsBytes (drop 2 b)
drop-IsBytes [] h = h
drop-IsBytes (x ∷ []) (h, i) = i
drop-IsBytes (x ∷ y ∷ b) (h, (i, j)) = j

words-IsWords : (n : ℕ) (b : List ℕ) → IsBytes b → IsWords (words n b)
words-IsWords zero b h = tt
words-IsWords (suc n) b h = (get16-IsBytes b h, words-IsWords n (drop 2 b) (drop-IsBytes b h))

ip_loop-ones_sum :
    (ws : List ℕ) (sum : ℕ) → IsWords ws → sum ≤ 65535 → ip_loop ws sum ≡ ones_sum (sum + total ws)
unfolding ip_loop
ip_loop-ones_sum [] sum h i = ground arith
ip_loop-ones_sum (w ∷ ws) sum (h, hs) i = elim (dec_lt 65535 (sum + w)) [
  | yes p ↦
      rw (lt→ltb 65535 (u32 (sum + w)) (omega arith))
        (ip_loop-ones_sum ws (fold (u32 (sum + w))) hs (omega arith) ∙ ground arith)
  | no p ↦ rw (le→ltb 65535 (u32 (sum + w)) (omega arith)) (
      ip_loop-ones_sum ws (u32 (sum + w)) hs (omega arith)
      ∙ ap ones_sum {y = sum + (w + total ws)} (omega arith))
]

tcp_sum-total : (ws : List ℕ) (sum : ℕ) → sum + total ws < 2 ^ 32 → tcp_sum ws sum ≡ sum + total ws
unfolding tcp_sum
tcp_sum-total [] sum h = omega arith
tcp_sum-total (w ∷ ws) sum h = tcp_sum-total ws (u32 (sum + w)) (omega arith) ∙ omega arith

total-IsWords : (n : ℕ) (b : List ℕ) → IsBytes b → total (words n b) ≤ n * 65535
total-IsWords zero b h = omega arith
total-IsWords (suc n) b h =
    omega (arith, get16-IsBytes b h, total-IsWords n (drop 2 b) (drop-IsBytes b h))

-- Two folds and the test behind them are enough for 32 bits.
tcp_fold-ones_sum : (sum : ℕ) → sum < 2 ^ 32 → tcp_fold 3 sum ≡ some (ones_sum sum)
unfolding tcp_fold
tcp_fold-ones_sum sum h = ground arith

-- `ip_checksum` is the sum in ones' complement of the 16-bit words, whatever the order of the
-- carries.
pub ip_checksum-ones_sum :
    (bytes : List ℕ) (len : ℕ)
    → IsBytes bytes
    → ip_checksum bytes len ≡ ones_sum (total (words (len / 2) bytes))
unfolding ip_checksum
ip_checksum-ones_sum bytes len h =
    ip_loop-ones_sum (words (len / 2) bytes) 0 (words-IsWords (len / 2) bytes h) (omega arith)
    ∙ ap ones_sum {y = total (words (len / 2) bytes)} (omega arith)

pub ones_sum_bound : (t : ℕ) → ones_sum t ≤ 65535
ones_sum_bound t = ground arith

-- On an even number of bytes below 65536, `tcp_checksum` terminates, with at most two folds, in
-- the complement of what `ip_checksum` computes.
pub tcp_checksum-ip_checksum :
    (bytes : List ℕ) (len : ℕ)
    → IsBytes bytes
    → len < 65536
    → len % 2 ≡ 0
    → tcp_checksum 3 bytes len ≡ some (65535 - ip_checksum bytes len)
unfolding tcp_checksum
tcp_checksum-ip_checksum bytes len h small even =
    let t = total (words (len / 2) bytes) in
    let bound : t < 2 ^ 32 = omega (arith, total-IsWords (len / 2) bytes h) in
    rw
      (
        ne→== (len % 2) 1 (omega arith),
        tcp_sum-total (words (len / 2) bytes) 0 (omega (arith, bound)),
        tcp_fold-ones_sum (0 + t) (omega (arith, bound)),
      )
      (ap some (
        omega (
          arith,
          ip_checksum-ones_sum bytes len h,
          ap ones_sum {x = 0 + t} {y = t} (omega arith),
          ones_sum_bound t,
        )))

tcp_sum_bound : (ws : List ℕ) (sum : ℕ) → sum < 2 ^ 32 → tcp_sum ws sum < 2 ^ 32
unfolding tcp_sum
tcp_sum_bound [] sum h = h
tcp_sum_bound (w ∷ ws) sum h = tcp_sum_bound ws (u32 (sum + w)) (omega arith)

-- Over an IPv4 header `tcp_checksum` returns, whatever the bytes are.
pub tcp_checksum_header : (bytes : List ℕ) → (c : ℕ) × (tcp_checksum 3 bytes 20 ≡ some c)
unfolding tcp_checksum
tcp_checksum_header bytes =
    let s = tcp_sum (words 10 bytes) 0 in
    (
      65535 - u16 (ones_sum s),
      ap (Option.map (λ s. 65535 - u16 s))
          (tcp_fold-ones_sum s (tcp_sum_bound (words 10 bytes) 0 (omega arith))),
    )
