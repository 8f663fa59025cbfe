-- ===== src/Random/Fresh.antt =====
-- The bytes that one thread is given.
use libkpnet.Base.{
  ℕ, suc, ◌+◌, ◌≤◌, ◌<◌, ◌≡◌, refl, ◌∙◌, arith, some, List, take, drop, length, le→leb, gt→leb, ap,
  u32, sub_u64, dec_le,
}
use libkpnet.Wire.{length-overwrite}
use libkpnet.Random.{
  Random, Others, take_bytes, random_buffer_size, generate_random_buffer, from_buffer,
}

pub record IsRandom (r : Random) : Type 0 where
  pub storage : length r.buffer ≡ random_buffer_size
  pub within : r.head ≤ random_buffer_size

-- `out` are the bytes of `r'` from `start` on, up to its head.
abbrev pub Given : (start bytes : ℕ) → Random → List ℕ × Random → Type 0
Given start bytes r (out, r') =
    (r'.buffer ≡ r.buffer)
    × (r'.head ≡ start + bytes)
    × (start + bytes ≤ random_buffer_size)
    × (out ≡ take bytes (drop start r.buffer))
    × IsRandom r'

-- The next bytes where there are enough, else the first ones after a refill.
abbrev pub Drawn : (bytes : ℕ) (got : List ℕ) → Random → List ℕ × Random → Type 0
Drawn bytes got r x =
    (r.head + bytes ≤ random_buffer_size → Given r.head bytes r x)
    × (random_buffer_size < r.head + bytes
        → Given 0 bytes (generate_random_buffer (λ s. s) got r) x)

-- No other thread uses the buffer during the call.
pub record IsAlone (others : Others) : Type 0 where
  pub tested : (round : ℕ) (r : Random) → others.tested round r ≡ r
  pub located : (round : ℕ) (r : Random) → others.located round r ≡ r
  pub added : (round : ℕ) (r : Random) → others.added round r ≡ r
  pub reset : (round : ℕ) (r : Random) → others.reset round r ≡ r
  pub refilled : (round : ℕ) (r : Random) → others.refilled round r ≡ r

module _ (others : Others) (alone : IsAlone others) where
  -- The accesses of a call that has the bytes come one after another.
  take_alone :
      (round bytes : ℕ) (r : Random)
      → r.head + bytes ≤ random_buffer_size
      → take_bytes others round bytes (others.tested round r)
        ≡ (take bytes (drop r.head r.buffer), record r { head = r.head + bytes })
  take_alone round bytes r h =
      let next : u32 (r.head + bytes) ≡ r.head + bytes = omega arith in
      rw
        (
          alone.tested round r,
          alone.located round r,
          alone.added round (record r { head = u32 (r.head + bytes) }),
          next,
        )
        refl

  give :
      (fuel bytes : ℕ) (got : List ℕ) (r : Random)
      → IsRandom r
      → r.head + bytes ≤ random_buffer_size
      → (x : List ℕ × Random) × (from_buffer others (suc fuel) bytes got r ≡ some x)
        × Given r.head bytes r x
  unfolding from_buffer
  give fuel bytes got r v h =
      rw (le→leb bytes (sub_u64 random_buffer_size r.head) (omega (arith, v.within))) (
        _,
        ap some (take_alone fuel bytes r h),
        (refl, refl, h, refl, record { storage = v.storage; within = h }),
      )

  refilled :
      (got : List ℕ) (r : Random) → IsRandom r → IsRandom (generate_random_buffer (λ s. s) got r)
  refilled got r v = record {
    storage = length-overwrite got r.buffer ∙ v.storage;
    within = omega arith;
  }

  skip :
      (fuel bytes : ℕ) (got : List ℕ) (r : Random)
      → IsRandom r
      → random_buffer_size < r.head + bytes
      → from_buffer others (suc fuel) bytes got r
        ≡ from_buffer others fuel bytes got (generate_random_buffer (λ s. s) got r)
  unfolding from_buffer
  skip fuel bytes got r v h =
      rw (gt→leb bytes (sub_u64 random_buffer_size r.head) (omega (arith, h, v.within))) (
        rw
          (
            alone.tested fuel r,
            alone.reset fuel (record r { head = 0 }),
            alone.refilled fuel (generate_random_buffer (λ s. s) got r),
          )
          refl)

  -- Where no other thread uses the buffer during the call, `get_random_from_buffer_u16`, `_u32` and
  -- `_u64` (2, 4 and 8 bytes) return, after at most one refill, and do not read behind the buffer:
  -- they give the next unused bytes where enough are left, and else the first bytes after the
  -- refill.
  pub from_buffer-Drawn :
      (bytes : ℕ) (got : List ℕ) (r : Random)
      → IsRandom r
      → bytes ≤ random_buffer_size
      → (x : List ℕ × Random) × (from_buffer others 2 bytes got r ≡ some x) × Drawn bytes got r x
  from_buffer-Drawn bytes got r v h = elim (dec_le (r.head + bytes) random_buffer_size) [
    | yes p ↦
        let (x, e, g) = give 1 bytes got r v p in (x, e, ((λ _. g), λ q. absurd (omega arith)))
    | no np ↦
        let (x, e, g) =
          give 0 bytes got (generate_random_buffer (λ s. s) got r) (refilled got r v)
            (omega (arith, h)) in
        (x, skip 1 bytes got r v (omega arith) ∙ e, ((λ q. absurd (omega arith)), λ _. g))
  ]
