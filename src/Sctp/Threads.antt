-- ===== src/Sctp/Threads.antt =====
-- src/prepare_sctp_threads.c: one thread of state for each inbound and each outbound stream.
use libkpnet.Base.{
  ℕ, zero, suc, ◌+◌, ◌-◌, Bool, true, false, some, List, [], ◌∷◌, u16, bswap16, ltb, leb,
  if◌then◌else◌,
}
use libkpnet.Sctp.{Assoc, Thread}

abbrev pub no_thread : Thread
no_thread = record { id = 0; ssn = 0; pos_low = 0; pos_current = 0; pos_high = 0 }

-- `memset (threads[i], 0, sizeof (sctp_thread_t))`
abbrev pub wipe : Thread → Thread
wipe t = no_thread

-- The body of the loop on a new thread: its `id` is set, and then the whole is wiped.
abbrev pub new_thread : (os i : ℕ) → Thread → Thread
new_thread os i t = wipe (record t { id = if leb i os then u16 i else u16 (i - os) })

abbrev pub new_threads : (left i os : ℕ) → List Thread
new_threads zero i os = []
new_threads (suc left) i os = new_thread os i no_thread ∷ new_threads left (suc i) os

abbrev pub thread_count : Assoc → ℕ
thread_count a = bswap16 a.mis + bswap16 a.os

-- `array` says whether the array is allocated, and `room` how many threads can be; the result is
-- true for 0 and false for -1.
unfoldable pub prepare_sctp_threads : (array : Bool) (room : ℕ) → Assoc → Bool × Assoc
prepare_sctp_threads array room a =
    if array
    then (if ltb room (thread_count a) then (false, a) else (
      true,
      record a { threads = some (new_threads (thread_count a) 0 a.os); os_threads = bswap16 a.mis },
    ))
    else (false, a)
