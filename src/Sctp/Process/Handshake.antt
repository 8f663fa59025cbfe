-- ===== src/Sctp/Process/Handshake.antt =====
-- The four-way handshake over the cookie: INIT ACK, the client's COOKIE ECHO, and its acceptance.
use libkpnet.Base.{ℕ, ◌^◌, ◌≡◌, Bool, true, Option, some, List, ◌∷◌, ◌++◌, [], take, drop}
use libkpnet.Wire.{fld_bytes}
use libkpnet.Crc.{Host}
use libkpnet.Sctp.{Assoc, Net}
use libkpnet.Sctp.Cookie.{Cookie}
use libkpnet.Sctp.Build.{Draws, init_ack_chunk, cookie_echo_chunk}
use libkpnet.Sctp.Process.{init_ack_assoc}
use libkpnet.Sctp.Process.Echo.{Restored}
use libkpnet.Ring.Queue
use libkpnet.Ring.Queue.{Queue}
use libkpnet.Ring.Refine.{Holds}

-- The COOKIE ECHO by which a client answers an INIT ACK; `r` is what follows in the buffer.
abbrev pub echoed : Host → Draws → (client peer : Assoc) → (r : List ℕ) → List ℕ
echoed h d client peer r =
    cookie_echo_chunk (init_ack_assoc client (drop fld_bytes (init_ack_chunk h d peer) ++ r) 80)

-- The chunk of a COOKIE ACK: its type, its flags and its length.
abbrev pub cookie_ack_bytes : List ℕ
cookie_ack_bytes = 11 ∷ 0 ∷ 0 ∷ 4 ∷ []

-- The server returns 0, its association is in the state of the cookie, the buffer `p` has a COOKIE
-- ACK behind its headers, and it is behind what the TX ring held, with `plen` bytes, unless that
-- was full.
abbrev pub Accepted : (l : ℕ) → Queue → (p plen : ℕ) → Cookie → Option (Bool × Assoc × Net) → Type 0
Accepted l t p plen c r =
    (a' : Assoc) × (net' : Net) × (r ≡ some (true, a', net'))
    × Restored c a'
    × (take 4 (drop 46 (net'.mem p)) ≡ cookie_ack_bytes)
    × Holds l (Queue.push (2 ^ l) t (p, plen)).1 net'.tx
