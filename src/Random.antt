-- ===== src/Random.antt =====
-- include/random.h, src/random.c, src/generate_random_buffer.c, src/get_random_from_buffer_u16.c,
-- src/get_random_from_buffer_u32.c, src/get_random_from_buffer_u64.c, src/get_random_u16.c,
-- src/get_random_u32.c, src/get_random_u64.c: random numbers out of a
-- buffer of 1024 bytes. `got` is what `getrandom` writes, and nothing where it fails.
pub mod Fresh
mod Tests
use mathlib.Core.Option
use libkpnet.Base.{
  ℕ, zero, suc, ◌+◌, ◌-◌, ◌*◌, ◌^◌, Option, none, some, List, take, drop, leb, if◌then◌else◌,
  sub_u64, u32, length, ◌==◌,
}
use libkpnet.Wire.{overwrite, get16, get32}
use libkpnet.Crc.{get64}

-- `random_buffer` and `random_buffer_head`
pub record Random : Type 0 where
  pub buffer : List ℕ
  pub head : ℕ

abbrev pub random_buffer_size : ℕ
random_buffer_size = 1024

-- `get_random` only prints where `getrandom` fails.
abbrev pub get_random : (got buffer : List ℕ) → List ℕ
get_random got buffer = overwrite got buffer

-- `meanwhile` is what the other threads do between the two statements.
abbrev pub generate_random_buffer : (meanwhile : Random → Random) (got : List ℕ) → Random → Random
generate_random_buffer meanwhile got r =
    let reset = meanwhile (record r { head = 0 }) in
    record reset { buffer = get_random got reset.buffer }

-- What the other threads do to the shared buffer between two accesses of a call to the atomic
-- `random_buffer_head`: behind the test, behind the second read of it, behind the addition to it,
-- behind the reset and behind the refill, in each round.
pub record Others : Type 0 where
  pub tested : ℕ → Random → Random
  pub located : ℕ → Random → Random
  pub added : ℕ → Random → Random
  pub reset : ℕ → Random → Random
  pub refilled : ℕ → Random → Random

-- Behind the test: the position is read, the head moves on, and the bytes are read.
abbrev pub take_bytes : Others → (round bytes : ℕ) → Random → List ℕ × Random
take_bytes others round bytes r =
    let located = others.located round r in
    let last = others.added round (record located { head = u32 (located.head + bytes) }) in
    (take bytes (drop r.head last.buffer), last)

-- The common body of the three functions for `bytes` bytes; the fuel bounds their recursion.
pub from_buffer : Others → (fuel bytes : ℕ) (got : List ℕ) → Random → Option (List ℕ × Random)
from_buffer others zero bytes got r = none
from_buffer others (suc fuel) bytes got r =
    let tested = others.tested fuel r in
    let full = others.refilled fuel (generate_random_buffer (others.reset fuel) got tested) in
    let again = from_buffer others fuel bytes got full in
    if leb bytes (sub_u64 random_buffer_size r.head)
    then some (take_bytes others fuel bytes tested)
    else again

abbrev pub get_random_from_buffer_u16 : Others → (got : List ℕ) → Random → Option (ℕ × Random)
get_random_from_buffer_u16 others got r =
    Option.map (λ x. (get16 x.0 0, x.1)) (from_buffer others 2 2 got r)

abbrev pub get_random_from_buffer_u32 : Others → (got : List ℕ) → Random → Option (ℕ × Random)
get_random_from_buffer_u32 others got r =
    Option.map (λ x. (get32 x.0 0, x.1)) (from_buffer others 2 4 got r)

abbrev pub get_random_from_buffer_u64 : Others → (got : List ℕ) → Random → Option (ℕ × Random)
get_random_from_buffer_u64 others got r =
    Option.map (λ x. (get64 x.0, x.1)) (from_buffer others 2 8 got r)

-- `get_random_u16`, `get_random_u32` and `get_random_u64` ask `getrandom` itself, and return 0
-- where it gives fewer bytes than the number has.
abbrev pub get_random_u16 : (got : List ℕ) → ℕ
get_random_u16 got = if length got == 2 then get16 got 0 else 0

abbrev pub get_random_u32 : (got : List ℕ) → ℕ
get_random_u32 got = if length got == 4 then get32 got 0 else 0

abbrev pub get_random_u64 : (got : List ℕ) → ℕ
get_random_u64 got = if length got == 8 then get64 got else 0
